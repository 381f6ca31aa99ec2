-- ===== src/Algo.antt =====
-- include/dpor/algo/dpor.hpp: the exploration of the executions of a program, on one thread.
pub mod Results
pub mod Config
pub mod Choices
pub mod Next
pub mod Masked
pub mod Tiebreaker
pub mod Revisit
pub mod Children
pub mod Executor
pub mod Explorer
