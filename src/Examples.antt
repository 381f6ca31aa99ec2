-- ===== src/Examples.antt =====
-- The theorems of the library at concrete inputs.
pub mod Relations
pub mod Graphs
pub mod Programs
pub mod Consistency
pub mod Explorations
pub mod Algos
pub mod Revisits
