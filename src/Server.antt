-- ===== src/Server.antt =====
-- httpserver.c. `Text` has its string functions, `Send` the functions that send data, `Api` the
-- handlers of API requests, `Handler` the routing of a connection, and `Proxy` the proxy.
pub mod Text
pub mod Send
pub mod Api
pub mod Handler
pub mod Proxy
pub mod Rules
pub mod Isolation
pub mod Termination
