-- ===== src/Cs162.antt =====
-- CS162-httpserver.c, the server of files and directories that httpserver.c was written after. It
-- is a program of its own over the same libhttp.c. `Sending` is what both programs have; `Links`, `Directory`
-- and `Files` are its handler of requests.
pub mod Sending
pub mod Links
pub mod Directory
pub mod Files
pub mod Options
pub mod Server
pub mod Proxy
