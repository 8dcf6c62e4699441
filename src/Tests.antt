-- ===== src/Tests.antt =====
-- Runs of the model on concrete inputs, and the theorems at such inputs.
pub mod MapRuns
pub mod LibhttpRuns
pub mod HandlerRuns
pub mod WqRuns
pub mod SudokuRuns
pub mod ProxyRuns
pub mod WrittenRuns
pub mod AskRuns
pub mod IsolationRuns
pub mod Cs162Runs
pub mod ProgramRuns
