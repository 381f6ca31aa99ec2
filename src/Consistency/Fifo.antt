-- ===== src/Consistency/Fifo.antt =====
-- include/dpor/model/consistency.hpp, add_fifo_p2p_issues: the two clauses of FIFO channels between
-- pairs of threads.
use cpp_dpor.Prelude.{
  ℕ, Bool, true, false, ◌&&◌, ◌||◌, List, [], ◌∷◌, ◌++◌, Option, some, none, ltb, ◌==◌,
  if◌then◌else◌, length, get_elem?, get_or, set, replicate,
}
use cpp_dpor.Event.{Event, ReceiveLabel, SendLabel, as_receive, as_send, accepts}
use cpp_dpor.Graph.{ExecutionGraph, send_event_ids}
use cpp_dpor.Graph.ReadsFrom.{ReadsFromSource, from_send, bottom, to_list}
use cpp_dpor.Consistency.Validate.{
  IssueCode, fifo_p2p_unread_earlier_matching_send, fifo_p2p_receive_order_violation,
}

-- A channel: the thread that sends, the one that is sent to, and the sends by ascending id.
pub record Channel : Type 0 where
  pub sender : ℕ
  pub destination : ℕ
  pub send_ids : List ℕ

abbrev pub precedes : ℕ → ℕ → Channel → Bool
precedes s d c = ltb s c.sender || (s == c.sender && ltb d c.destination)

abbrev pub is_channel : ℕ → ℕ → Channel → Bool
is_channel s d c = s == c.sender && d == c.destination

-- `grouped[{s, d}].push_back(id)`: a map that is ordered by its keys.
pub push_send : ℕ → ℕ → ℕ → List Channel → List Channel
push_send s d id [] = record { sender = s; destination = d; send_ids = id ∷ [] } ∷ []
push_send s d id (c ∷ channels) =
    let rest = push_send s d id channels in
    if is_channel s d c
    then record c { send_ids = c.send_ids ++ id ∷ [] } ∷ channels
    else if precedes s d c
    then record { sender = s; destination = d; send_ids = id ∷ [] } ∷ (c ∷ channels)
    else c ∷ rest

abbrev pub consumer_of : List (Option ℕ) → ℕ → Option ℕ
consumer_of consumers a = get_or consumers a none

-- Some earlier send is at fault: the inner loop, which stops at the first.
unfoldable pub any_at_fault : (ℕ → Bool) → List ℕ → Bool
any_at_fault fault [] = false
any_at_fault fault (a ∷ earlier) = if fault a then true else any_at_fault fault earlier

-- The outer loop over the sends of a channel, `earlier` those that it has passed.
pub clause_issues : (ℕ → ℕ → Bool) → IssueCode → List (Option ℕ) → List ℕ → List ℕ → List IssueCode
unfolding any_at_fault
clause_issues fault code consumers earlier [] = []
clause_issues fault code consumers earlier (a ∷ ids) =
    let rest = clause_issues fault code consumers (earlier ++ a ∷ []) ids in
    elim (consumer_of consumers a) [
      | none ↦ rest
      | some reader ↦ if any_at_fault (fault reader) earlier then code ∷ rest else rest
    ]

pub all_clause_issues : (ℕ → ℕ → Bool) → IssueCode → List (Option ℕ) → List Channel → List IssueCode
unfolding clause_issues
all_clause_issues fault code consumers [] = []
all_clause_issues fault code consumers (c ∷ channels) =
    clause_issues fault code consumers [] c.send_ids
    ++ all_clause_issues fault code consumers channels

module _ {ℓ} {V : Type ℓ} where
  abbrev pub event_of : ExecutionGraph V → ℕ → Option (Event V)
  event_of g id = get_elem? g.events id

  -- The labels of the event with an id.
  abbrev pub receive_at : ExecutionGraph V → ℕ → Option (ReceiveLabel V)
  receive_at g id = elim (event_of g id) [ none ↦ none | some e ↦ as_receive e ]

  abbrev pub send_at : ExecutionGraph V → ℕ → Option (SendLabel V)
  send_at g id = elim (event_of g id) [ none ↦ none | some e ↦ as_send e ]

  abbrev pub thread_at : ExecutionGraph V → ℕ → ℕ
  thread_at g id = elim (event_of g id) [ none ↦ 0 | some e ↦ e.thread ]

  abbrev pub index_at : ExecutionGraph V → ℕ → ℕ
  index_at g id = elim (event_of g id) [ none ↦ 0 | some e ↦ e.index ]

  pub group_sends : ExecutionGraph V → List ℕ → List Channel → List Channel
  unfolding push_send
  group_sends g [] channels = channels
  group_sends g (id ∷ ids) channels = group_sends g ids (elim (send_at g id) [
    | none ↦ channels
    | some send ↦ push_send (thread_at g id) send.destination id channels
  ])

  pub group_fifo_sends : ExecutionGraph V → List Channel
  unfolding group_sends
  group_fifo_sends g = group_sends g (send_event_ids g) []

  -- Whether receive `id` takes what send `a` sends.
  abbrev pub takes : ExecutionGraph V → ℕ → ℕ → Bool
  takes g id a = elim (receive_at g id) [
    | none ↦ false
    | some receive ↦ elim (send_at g a) [
      | none ↦ false
      | some send ↦ send.destination == thread_at g id && accepts receive send.value
    ]
  ]

  pub enter_consumers :
      ExecutionGraph V → List (ℕ × ReadsFromSource) → List (Option ℕ) → List (Option ℕ)
  enter_consumers g [] consumers = consumers
  enter_consumers g ((id, bottom) ∷ entries) consumers = enter_consumers g entries consumers
  enter_consumers g ((id, from_send a) ∷ entries) consumers =
      enter_consumers g entries (if takes g id a then set consumers a (some id) else consumers)

  pub compute_send_consumers : ExecutionGraph V → List (Option ℕ)
  unfolding enter_consumers
  compute_send_consumers g =
      enter_consumers g (to_list g.reads_from) (replicate (length g.events) none)

  -- Whether receive `id` accepts the value of send `a`.
  abbrev pub matches : ExecutionGraph V → ℕ → ℕ → Bool
  matches g id a = elim (receive_at g id) [
    | none ↦ false
    | some receive ↦ elim (send_at g a) [ none ↦ false | some send ↦ accepts receive send.value ]
  ]

  -- An earlier send that nobody reads, although receive `id` accepts its value.
  abbrev pub skipped : ExecutionGraph V → List (Option ℕ) → ℕ → ℕ → Bool
  skipped g consumers id a = elim (consumer_of consumers a) [
    | none ↦ matches g id a
    | some reader ↦ false
  ]

  -- An earlier send that a later receive of the same thread reads, although receive `id` accepts it.
  abbrev pub overtaken : ExecutionGraph V → List (Option ℕ) → ℕ → ℕ → Bool
  overtaken g consumers id a = elim (consumer_of consumers a) [
    | none ↦ false
    | some reader ↦
        thread_at g reader == thread_at g id
        && (ltb (index_at g id) (index_at g reader) && matches g id a)
  ]

  -- What `add_fifo_p2p_issues` adds.
  pub fifo_p2p_issues : ExecutionGraph V → List IssueCode
  unfolding group_fifo_sends compute_send_consumers all_clause_issues
  fifo_p2p_issues g =
      let groups = group_fifo_sends g in
      let consumers = compute_send_consumers g in
      all_clause_issues (skipped g consumers) fifo_p2p_unread_earlier_matching_send consumers groups
      ++ all_clause_issues (overtaken g consumers) fifo_p2p_receive_order_violation consumers groups
