-- ===== src/Exploration/Acyclic.antt =====
-- include/dpor/model/exploration_graph.hpp, is_known_acyclic: what the known-acyclic flag is to
-- mean, by chains of program-order and reads-from edges.
pub mod Edges
pub mod Flag
pub mod Sound
use cpp_dpor.Prelude.{
  ℕ, zero, suc, ◌+◌, ◌-◌, ◌*◌, ◌^◌, ◌≤◌, ◌<◌, max, ◌≡◌, ◌≢◌, ◌↔◌, ◌⊎◌, inl, inr, refl, sym, ap, ◌∙◌,
  Bool, true, false, not, ◌&&◌, ◌||◌, List, [], ◌∷◌, ◌++◌, map, Option, some, none, arith, ltb, leb,
  ◌==◌, if◌then◌else◌, ltb→lt, lt→ltb, ltb-eq-false, ltb-false→le, leb→le, ==_iff, ==_refl, ==→eq,
  Bool-cases, Option-cases, bool_ext, length, get_elem?, get_or, set, replicate, length-append,
  length-set, length-replicate, get_or-replicate, get_or-of_le, get_elem?-of_le, get_elem?-of_lt,
  get_elem?-append_left, get_elem?-append_last, pop_back, back?, pop_back-append, back?-append,
  get_or-set, lt-length_of_get_elem?, get_elem?-concat, grow, get_or-grow, le-length-grow,
  length-grow, put, get_or-put, elem, count, elem-count, count-append, elem-append,
  elem_of_get_elem?, get_elem?_of_elem, All, All-append, All-map,
}
use mathlib.Core.Path.{subst}
use cpp_dpor.Errors.{Result, ok, throw, ◌>>=◌}
use cpp_dpor.Event.{Event, EventLabel, is_receive, is_send}
use cpp_dpor.Graph.{ExecutionGraph}
use cpp_dpor.Graph.ReadsFrom.{ReadsFromSource, from_send, bottom}
use cpp_dpor.Graph.ReadsFrom
use cpp_dpor.Graph.ThreadOrder.Correct.{InProgramOrder}
use cpp_dpor.Exploration.{ExplorationGraph, tests, event_count}

-- Chains of an arbitrary relation.
pub data Chain {ℓ} (E : ℕ → ℕ → Type ℓ) (a : ℕ) : ℕ → Type ℓ where
  here : Chain E a a
  step : {b c : ℕ} → Chain E a b → E b c → Chain E a c

-- No chain comes back to where it starts.
abbrev pub IsAcyclic {ℓ} : (ℕ → ℕ → Type ℓ) → Type ℓ
IsAcyclic E = (a b : ℕ) → Chain E a b → E b a → ⊥

module _ {ℓ κ} (E : ℕ → ℕ → Type ℓ) (F : ℕ → ℕ → Type κ) (n : ℕ) (stuck : (x y : ℕ) → F x y → x ≢ n)
    (old : (x y : ℕ) → F x y → y ≢ n → E x y) where
  Chain-start : {a b : ℕ} → Chain F a b → (a ≡ b) ⊎ (a ≢ n)
  Chain-start here = inl refl
  Chain-start (step {b} {c} w e) = elim (Chain-start w) [
    | inl same ↦ inr (λ h. stuck b c e (sym same ∙ h))
    | inr off ↦ inr off
  ]

  Chain-old : {a b : ℕ} → Chain F a b → b ≢ n → Chain E a b
  Chain-old here h = here
  Chain-old (step {b} {c} w e) h = step (Chain-old w (stuck b c e)) (old b c e h)

  -- A node with no way out closes no cycle, whatever comes in.
  pub maximal-IsAcyclic : IsAcyclic E → IsAcyclic F
  maximal-IsAcyclic acyclic a b w e =
      let off : a ≢ n = elim (Chain-start w) [
        | inl same ↦ λ h. stuck b a e (sym same ∙ h)
        | inr off ↦ off
      ] in
      acyclic a b (Chain-old w (stuck b a e)) (old b a e off)

module _ {ℓ} {V : Type ℓ} where
  -- A reads-from edge between events of the graph.
  pub record ReadsEdge (g : ExecutionGraph V) (a b : ℕ) : Type ℓ where
    pub source : ReadsFrom.find g.reads_from b ≡ some (from_send a)
    pub sender : Event V
    pub sender_at : get_elem? g.events a ≡ some sender
    pub sends : is_send sender ≡ true
    pub reader : Event V
    pub reader_at : get_elem? g.events b ≡ some reader

  -- po ∪ rf
  pub data Porf (g : ExecutionGraph V) (a b : ℕ) : Type ℓ where
    po : InProgramOrder g a b → Porf g a b
    rf : ReadsEdge g a b → Porf g a b

  -- Every source that a receive has been given is an event, and so is the receive.
  pub record IsClosed (g : ExecutionGraph V) : Type 0 where
    pub receiver :
        (id : ℕ) (s : ReadsFromSource)
        → ReadsFrom.find g.reads_from id ≡ some s
        → id < length g.events
    pub origin :
        (id a : ℕ) → ReadsFrom.find g.reads_from id ≡ some (from_send a) → a < length g.events

  pub record IsSound (g : ExplorationGraph V) : Type ℓ where
    pub acyclic : g.known_acyclic ≡ true → IsAcyclic (Porf g.graph)
    pub closed : g.known_acyclic ≡ true → IsClosed g.graph
    pub pending :
        (id : ℕ)
        → g.pending_fresh_receive_id ≡ some id
        → (suc id ≡ event_count g) × (tests is_receive g id ≡ true)
