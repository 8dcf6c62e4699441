-- ===== src/Program.antt =====
-- The program around the handlers of requests: `main` and `serve_forever` of httpserver.c. `Options`
-- is its command line, `Accept` the loop that accepts clients, and `Main` puts them together.
pub mod Options
pub mod Accept
pub mod Main
