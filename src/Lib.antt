-- ===== src/Lib.antt =====
-- An HTTP server in C: httpserver.c is the program, libhttp.c its HTTP library and map.c the
-- parameters of its API requests. A connection is read and parsed (libhttp.c), routed to a file or
-- to an API handler (httpserver.c), and answered through the sending functions (httpserver.c).
--
-- Files:
-- - `Prelude`: shared names, Boolean tests, lists over the native numbers, and `int` values.
-- - `Result`: undefined behaviour of C as a value, `fault`.
-- - `Cstr`: C strings as lists of bytes without the NUL, and the functions of the C library that the
--   program calls; `Cstr.Compact` is the loop that drops bytes from a string in place.
-- - `Os`: descriptors, files, the bytes sent, and the monad `Io` of actions on them. How much each
--   `write` takes is a schedule that the environment chooses; dprintf loses its text where that says
--   that the next write fails. A new descriptor gets the lowest number that is free (`Os.Slots`), of
--   1024. `Os.Keeps` has rules for a predicate of the world that every outcome of an action keeps.
-- - `Map`: map.c. `Map.Fields` replaces the loops over strtok by a list of fields, `Map.Stored` says
--   what they store, and `Map.Stored.Query` what arrives of a written query string.
-- - `Libhttp`: libhttp.c. `Request` is http_request_string_parse, with what it accepts in `Sound` and
--   what it reads back in `RoundTrip`; `Response`, `Mime`, `Url` and `Receive` (http_request_parse)
--   are the other functions.
-- - `Server`: httpserver.c. `Text` holds join_string and removeSpacesAndNewlines, `Send` the functions
--   that send data, proved in `Send.Delivery` and `Send.Files`, with failing writes in
--   `Send.Files.Partial`.
--   `Server.Api` holds list, check and upload over `Server.Api.Cjson`, the calls of the JSON
--   library, and its search in `Server.Api.Lookup`.
--   `Server.Handler` is handle_request: its responses as worlds in `Answers`, `Files`, `Sizes`,
--   `Serving` and `Names`, the routing in `Routing`, the requests /api/check in `Checks` and
--   `Misses`, /api/list in `Lists` and `Lost`, and the upload that changes the data file in `Replies`
--   and `Uploads`. `Queries` and `Posts` put these together with the parsers, from the bytes that a
--   client writes, `Asks` has the uploads that change no file, `Races` two uploads at once,
--   `Pipelines` several requests on one connection, and `Hangups` a client that goes away.
--   `Server.Rules` is an interface: what a predicate of the world needs for handle_request to keep it.
--   Its children go through the functions that send (`Sending`), the API (`Handlers`) and
--   handle_request (`Requests`) once, and `Finishes` through those without a system call. It is used
--   by `Server.Isolation`, what a run leaves alone, and by `Server.Termination`, that the fuel is
--   enough; each proves the rules, the loops that send in `Loops`, and its theorems in `Requests`.
--   `Server.Proxy` is relay_message, and `Dial` is handle_proxy_request up to its
--   threads.
-- - `Cs162`: CS162-httpserver.c, a program of its own over libhttp.c. `Sending` is what it shares with
--   httpserver.c, `Links` and `Directory` are serve_directory, and `Files` is handle_files_request,
--   with its contract in `Files.Answers`, and the proof in `Files.Paths` and `Files.Refines`.
--   `Options` and `Server` are its main and serve_forever; `Proxy` is its proxy up to the threads.
-- - `Program`: main and serve_forever of httpserver.c: `Options` is the command line, with
--   `Options.Written` what it reads back, `Accept` the loop over clients, and `Main` both together.
-- - `Wq`: wq.c, over the list macros as an interface. `Wq.Threads` is the step relation of the
--   threads, `Wq.Sound` and `Wq.Wakeup` its invariants.
-- - `Sudoku`: the thread pool of the sudoku solver, another program. `Queue` is threadsafe_queue.cc,
--   `Tasks` cuts the files of main.cc into tasks, `Solving` is the call of a task, and `Pool` is the
--   step relation of the workers of thread_pool.cc, the main thread and print_task, with its
--   invariants in `Held`, `Order`, `Wakeup` and `Size`.
-- - `Tests`: runs, and the theorems at concrete inputs.
--
-- Names follow the source, respelled: parseQueryString is `parse_query_string`, struct apiRequest is
-- `ApiRequest`. A function that takes a `char *` into a block takes the list of the block's bytes
-- where it writes to it, and the list of the string's bytes where it only reads. An array element
-- that was never written is `none`.
--
-- Bounds: a `size_t` wraps at 2^64 and an `int` at 2^31, both written out. A loop that is not over
-- a list takes fuel: parse_pairs takes as many rounds as the string has bytes and one more, since a
-- token has a byte at least; send_loop as many as there are bytes to send, since a write that does
-- not fail takes one at least; the in-place loops the size of the block. These run in the definitions
-- themselves, and the theorems show that they are enough. http_send_file and relay_message take
-- the fuel from the caller, since how many bytes there are is known to the system only; for the
-- handler, `Server.Termination` shows that more fuel than the longest file and request is enough.
-- The numbers of the sudoku tasks are taken to stay below 2^31.
--
-- The solver of the sudoku program, sudoku.h, is not in the repository: its calls are the
-- interface `Solver`, and a worker of the pool may compute any result.
-- main.rs is not modelled, nor the calls of the test programs.
--
-- A run of a handler is one sequence of calls: what other threads do between them is modelled in
-- `Handler.Races` only. The threads that handle_proxy_request creates are not modelled, since they
-- wait on a condition variable with a mutex that is not locked, which is undefined. A run that opens
-- a directory is not followed further: read gives -1 there, which the source passes on as a size.
--
-- Not modelled: the JSON and list libraries (copies of other projects, cJSON.c and utlist.h),
-- logging, and output to the terminal. Allocations succeed, but for those of the request parser,
-- which take the answer as a parameter.
pub mod Prelude
pub mod Result
pub mod Cstr
pub mod Os
pub mod Map
pub mod Libhttp
pub mod Server
pub mod Cs162
pub mod Program
pub mod Wq
pub mod Sudoku
pub mod Tests
