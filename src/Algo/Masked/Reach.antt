-- ===== src/Algo/Masked/Reach.antt =====
-- include/dpor/algo/dpor.hpp, MaskedPorfContext::reachable_from: a breadth-first search.
pub mod Laws
use cpp_dpor.Prelude.{
  ℕ, zero, suc, ◌+◌, ◌-◌, ◌*◌, ◌^◌, ◌≤◌, ◌<◌, max, ◌≡◌, ◌≢◌, ◌↔◌, ◌⊎◌, inl, inr, refl, sym, ap, ◌∙◌,
  Bool, true, false, not, ◌&&◌, ◌||◌, List, [], ◌∷◌, ◌++◌, map, Option, some, none, arith, ltb, leb,
  ◌==◌, if◌then◌else◌, ltb→lt, lt→ltb, ltb-eq-false, ltb-false→le, leb→le, ==_iff, ==_refl, ==→eq,
  Bool-cases, Option-cases, List-cases, bool_ext, length, get_elem?, get_or, set, replicate,
  length-append, length-set, length-replicate, get_or-replicate, get_or-of_le, get_elem?-of_le,
  get_elem?-of_lt, get_elem?-append_left, get_elem?-append_last, pop_back, back?, pop_back-append,
  back?-append, get_or-set, lt-length_of_get_elem?, get_elem?-concat, grow, get_or-grow,
  le-length-grow, length-grow, put, get_or-put, elem, count, elem-count, count-append, elem-append,
  elem_of_get_elem?, get_elem?_of_elem, All, All-append, All-map,
}
use cpp_dpor.Errors.{Result, ok, throw, throw_if, internal_error, ◌>>◌}
use cpp_dpor.Graph.{is_valid_event_id}
use cpp_dpor.Exploration.{ExplorationGraph, event_count}
use cpp_dpor.Algo.Masked.{MaskedPorfContext, keeps, successors_of}

-- `while (cursor < pending.size())`: `pending` is what lies from the cursor on. `internal_error`, which
-- the loop does not throw, says that the fuel ran out.
unfoldable pub search : (ℕ → List ℕ) → ℕ → List ℕ → List Bool → Result (List Bool)
search next fuel [] reachable = ok reachable
search next zero (current ∷ pending) reachable = throw internal_error
search next (suc fuel) (current ∷ pending) reachable =
    if get_or reachable current false
    then search next fuel pending reachable
    else search next fuel (pending ++ next current) (set reachable current true)

module _ {ℓ} {V : Type ℓ} where
  -- A node is marked once, and then hands on two successors and the extra consumers at most.
  abbrev fuel_for : ExplorationGraph V → MaskedPorfContext → ℕ
  fuel_for g m = (event_count g + 1) * (length m.extra_rf_consumers + 2)

  unfoldable pub reachable_from :
      ExplorationGraph V → List Bool → MaskedPorfContext → ℕ → Result (List Bool)
  unfolding keeps search successors_of
  reachable_from g mask m from = do
    throw_if (not (is_valid_event_id g.graph from)) internal_error
    throw_if (not (keeps mask from)) internal_error
    search (successors_of g m) (fuel_for g m) (successors_of g m from)
        (replicate (event_count g) false)
