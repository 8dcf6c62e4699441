-- ===== src/Libhttp.antt =====
-- libhttp.c: requests are parsed in `Request`; `Response` has the status line, the headers and
-- the two text builders; `Mime` the content types; `Url` the normalisation of a path in place.
pub mod Request
pub mod Response
pub mod Mime
pub mod Url
pub mod Receive
