-- ===== src/Algo/Choices.antt =====
-- include/dpor/algo/dpor.hpp, erase_duplicate_nd_choices, and std::min_element over the choices.
pub mod Laws
use cpp_dpor.Prelude.{
  ℕ, zero, suc, ◌+◌, ◌-◌, ◌*◌, ◌^◌, ◌≤◌, ◌<◌, max, ◌≡◌, ◌≢◌, ◌↔◌, ◌⊎◌, inl, inr, refl, sym, ap, ◌∙◌,
  Bool, true, false, not, ◌&&◌, ◌||◌, List, [], ◌∷◌, ◌++◌, map, Option, some, none, arith, ltb, leb,
  ◌==◌, if◌then◌else◌, ltb→lt, lt→ltb, ltb-eq-false, ltb-false→le, leb→le, ==_iff, ==_refl, ==→eq,
  Bool-cases, Option-cases, List-cases, bool_ext, length, get_elem?, get_or, set, replicate,
  length-append, length-set, length-replicate, get_or-replicate, get_or-of_le, get_elem?-of_le,
  get_elem?-of_lt, get_elem?-append_left, get_elem?-append_last, pop_back, back?, pop_back-append,
  back?-append, get_or-set, lt-length_of_get_elem?, get_elem?-concat, grow, get_or-grow,
  le-length-grow, length-grow, put, get_or-put, elem, count, elem-count, count-append, elem-append,
  elem_of_get_elem?, get_elem?_of_elem, All, All-append, All-map,
}
use cpp_dpor.Algo.Config.{Comparison}

module _ {ℓ} {V : Type ℓ} (values : Comparison V) where
  -- `std::find(begin, end, value) != end`
  unfoldable pub is_among : V → List V → Bool
  is_among value [] = false
  is_among value (x ∷ xs) = if values.same x value then true else is_among value xs

  -- The loop over the choices, `kept` those that stay in front.
  unfoldable pub keep_new : List V → List V → List V
  unfolding is_among
  keep_new kept [] = kept
  keep_new kept (choice ∷ choices) =
      if is_among choice kept then keep_new kept choices else keep_new (kept ++ choice ∷ []) choices

  unfoldable pub erase_duplicate_nd_choices : List V → List V
  unfolding keep_new
  erase_duplicate_nd_choices choices = keep_new [] choices

  -- The first of the least, from the least so far.
  unfoldable pub min_element : V → List V → V
  min_element least [] = least
  min_element least (x ∷ xs) = min_element (if values.less x least then x else least) xs
