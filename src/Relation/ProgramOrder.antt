-- ===== src/Relation/ProgramOrder.antt =====
-- include/dpor/model/relation.hpp, ProgramOrderRelation: the order derived from thread sequences.
use cpp_dpor.Prelude.{
  ℕ, zero, suc, ◌+◌, ◌-◌, ◌*◌, ◌^◌, ◌≤◌, ◌<◌, max, ◌≡◌, ◌≢◌, ◌↔◌, ◌⊎◌, inl, inr, refl, sym, ap, ◌∙◌,
  Bool, true, false, not, ◌&&◌, ◌||◌, List, [], ◌∷◌, ◌++◌, map, Option, some, none, arith, ltb, leb,
  ◌==◌, if◌then◌else◌, ltb→lt, lt→ltb, ltb-eq-false, ltb-false→le, leb→le, ==_iff, ==_refl, ==→eq,
  Bool-cases, Option-cases, bool_ext, length, get_elem?, get_or, set, replicate, length-append,
  length-set, length-replicate, get_or-replicate, get_or-of_le, get_elem?-of_le, get_elem?-of_lt,
  get_elem?-append_left, get_elem?-append_last, pop_back, back?, pop_back-append, back?-append,
  get_or-set, lt-length_of_get_elem?, get_elem?-concat, grow, get_or-grow, le-length-grow,
  length-grow, put, get_or-put, elem, count, elem-count, count-append, elem-append,
  elem_of_get_elem?, get_elem?_of_elem, All, All-append, All-map,
}
pub mod Laws
pub mod Order
use cpp_dpor.Errors.{Result, ok, throw, throw_if, precondition_error, ◌>>◌, ◌>>=◌}
use cpp_dpor.Relation.{Relation, IsRelation, validate_node}

-- `none` in `thread_of` is kNoThread.
pub record ProgramOrderRelation : Type 0 where
  pub node_count : ℕ
  pub thread_events : List (List ℕ)
  pub thread_of : List (Option ℕ)
  pub position_in_thread : List ℕ

-- The tables that `rebuild_index` fills.
pub record Tables : Type 0 where
  pub thread_of : List (Option ℕ)
  pub position_in_thread : List ℕ

abbrev pub blank : ℕ → Tables
blank n = record { thread_of = replicate n none; position_in_thread = replicate n 0 }

-- The body of the inner loop, at one event.
pub enter : ℕ → ℕ → ℕ → Tables → ℕ → Result Tables
enter n thread position t event = do
  validate_node n event
  elim (get_or t.thread_of event none) [
    | none ↦ ok (record {
      thread_of = set t.thread_of event (some thread);
      position_in_thread = set t.position_in_thread event position;
    })
    | some other ↦ throw precondition_error
  ]

pub enter_thread : ℕ → ℕ → ℕ → Tables → List ℕ → Result Tables
enter_thread n thread position t [] = ok t
enter_thread n thread position t (event ∷ events) = do
  t' ← enter n thread position t event
  enter_thread n thread (suc position) t' events

pub enter_threads : ℕ → ℕ → Tables → List (List ℕ) → Result Tables
enter_threads n thread t [] = ok t
enter_threads n thread t (events ∷ rest) = do
  t' ← enter_thread n thread 0 t events
  enter_threads n (suc thread) t' rest

-- `set_thread_events` on a relation of `n` nodes, with `rebuild_index`; also the second constructor.
pub program_order : ℕ → List (List ℕ) → Result ProgramOrderRelation
unfolding enter enter_thread enter_threads
program_order n threads = do
  t ← enter_threads n 0 (blank n) threads
  ok (record {
    node_count = n;
    thread_events = threads;
    thread_of = t.thread_of;
    position_in_thread = t.position_in_thread;
  })

abbrev pub thread_at : ProgramOrderRelation → ℕ → Option ℕ
thread_at r a = get_or r.thread_of a none

abbrev pub position_at : ProgramOrderRelation → ℕ → ℕ
position_at r a = get_or r.position_in_thread a 0

pub same_thread : Option ℕ → Option ℕ → Bool
same_thread (some s) (some t) = s == t
same_thread _ _ = false

pub contains : ProgramOrderRelation → ℕ → ℕ → Result Bool
unfolding same_thread
contains r a b = ok (
    if ltb a r.node_count && ltb b r.node_count
    then same_thread (thread_at r a) (thread_at r b) && ltb (position_at r a) (position_at r b)
    else false)

abbrev pub drop : ℕ → List ℕ → List ℕ
drop zero xs = xs
drop (suc n) [] = []
drop (suc n) (x ∷ xs) = drop n xs

pub later : ProgramOrderRelation → ℕ → List ℕ
later r a = elim (thread_at r a) [
  | none ↦ []
  | some t ↦ drop (suc (position_at r a)) (get_or r.thread_events t [])
]

pub successors : ProgramOrderRelation → ℕ → Result (List ℕ)
unfolding later
successors r a = do validate_node r.node_count a; ok (later r a)

pub to_relation : ProgramOrderRelation → Relation
unfolding contains successors
to_relation r = record {
  node_count = r.node_count;
  contains = contains r;
  successors = successors r;
}
