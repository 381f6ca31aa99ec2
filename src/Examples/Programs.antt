-- ===== src/Examples/Programs.antt =====
-- The theorems on include/dpor/algo/program.hpp at a map of two threads, 1 and 2.
use cpp_dpor.Prelude.{ℕ, ◌≡◌, ◌↔◌, List, [], ◌∷◌}
use cpp_dpor.Errors.{ok}
use cpp_dpor.Program.{no_threads, from_list, validate_compact_thread_ids}
use cpp_dpor.Program.Compact.{IsCompact, validate_compact_thread_ids_lem}

abbrev two_threads : List (ℕ × ℕ)
two_threads = (2, 20) ∷ (1, 10) ∷ []

validate_compact_thread_ids_lem_example :
    (validate_compact_thread_ids (from_list two_threads no_threads) ≡ ok tt)
    ↔ IsCompact (from_list two_threads no_threads)
validate_compact_thread_ids_lem_example = validate_compact_thread_ids_lem two_threads
