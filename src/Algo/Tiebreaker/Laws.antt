-- ===== src/Algo/Tiebreaker/Laws.antt =====
-- include/dpor/algo/dpor.hpp, get_cons_tiebreaker in the asynchronous model, against the least candidate.
use cpp_dpor.Prelude.{
  ℕ, ◌≡◌, Bool, true, false, ◌||◌, List, [], ◌∷◌, ◌++◌, some, none, ◌==◌, elem, All,
}
use cpp_dpor.Errors.{ok}
use cpp_dpor.Event.{Event, ReceiveLabel}
use cpp_dpor.Graph.{event}
use cpp_dpor.Exploration.{ExplorationGraph, event_at}
use cpp_dpor.Exploration.Queries.{unread_send_event_ids, filter}
use cpp_dpor.Exploration.Porf.{porf_contains}
use cpp_dpor.Algo.Tiebreaker.{Candidate, before, suits, blocking_label, current_send}

-- None stands behind one that it precedes.
abbrev IsSorted : List Candidate → Type 0
IsSorted [] = Unit
IsSorted (c ∷ cs) = All (λ d. before d c ≡ false) cs × IsSorted cs

abbrev has_id : ℕ → List Candidate → Bool
has_id s [] = false
has_id s (c ∷ cs) = c.send_id == s || has_id s cs

module _ {ℓ} {V : Type ℓ} (g : ExplorationGraph V) where
  abbrev pub sender_of : ℕ → ℕ
  sender_of id = elim (event_at g id) [ none ↦ 0 | some e ↦ e.thread ]

  abbrev pub candidate : ℕ → Candidate
  candidate id = record { send_id = id; sender_thread = sender_of id }

  -- Which candidate the loop ends at.
  record IsFirst (recv : ℕ) (cs : List Candidate) (s : ℕ) : Type 0 where
    among : has_id s cs ≡ true
    acyclic : porf_contains g recv s ≡ ok false
    least : All (λ d. before d (candidate s) ≡ true → porf_contains g recv d.send_id ≡ ok true) cs

  -- The sends that the receive can read: the unread ones that suit it, and its own.
  abbrev pub readable : ℕ → ReceiveLabel V → ℕ → List ℕ
  readable thread label current =
      filter (suits g thread label) (unread_send_event_ids g)
      ++ filter (suits g thread label) (current ∷ [])

  -- What the tiebreaker of a receive is.
  pub record IsTiebreaker (recv s : ℕ) : Type ℓ where
    pub receiver : Event V
    pub label : ReceiveLabel V
    pub current : ℕ
    pub receives : event g.graph recv ≡ ok receiver
    pub blocks : blocking_label receiver ≡ ok label
    pub reads : current_send g recv ≡ ok current
    pub among : elem s (readable receiver.thread label current) ≡ true
    pub acyclic : porf_contains g recv s ≡ ok false
    pub least :
        All
          (λ id. before (candidate id) (candidate s) ≡ true → porf_contains g recv id ≡ ok true)
          (readable receiver.thread label current)
