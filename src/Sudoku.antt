-- ===== src/Sudoku.antt =====
-- The thread pool of the sudoku solver: threadsafe_queue.cc, thread_pool.cc and main.cc.
pub mod Queue
pub mod Tasks
pub mod Solving
pub mod Pool
