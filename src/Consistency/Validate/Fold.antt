-- ===== src/Consistency/Validate/Fold.antt =====
-- include/dpor/model/consistency.hpp, validate_graph: the loop over the reads-from entries.
use cpp_dpor.Prelude.{
  ℕ, ◌+◌, ◌≤◌, ◌<◌, ◌≡◌, inl, inr, refl, ap, ◌∙◌, Bool, true, false, ◌&&◌, ◌||◌, List, [], ◌∷◌,
  arith, ltb, ◌==◌, if◌then◌else◌, ltb→lt, ==→eq, Bool-cases, length, get_or, length-set,
  get_or-set, elem, All,
}
use mathlib.Core.Path.{subst}
use cpp_dpor.Event.{is_receive, is_send}
use cpp_dpor.Graph.{ExecutionGraph}
use cpp_dpor.Graph.ReadsFrom.{ReadsFromSource, from_send, bottom}
use cpp_dpor.Consistency.Validate.{Validation, validate_entry, validate_entries}
use cpp_dpor.Consistency.Validate.Laws.{
  quiet, fresh, bump, entry_ok, tests-lt, quiet-validate_entry, validate_entry-tables,
}

-- The receives of entries.
abbrev pub firsts : List (ℕ × ReadsFromSource) → List ℕ
firsts [] = []
firsts ((id, source) ∷ entries) = id ∷ firsts entries

-- A first component is one of an entry.
pub entry_of :
    (P : ℕ × ReadsFromSource → Type 0) (j : ℕ) (entries : List (ℕ × ReadsFromSource))
    → All P entries
    → elem j (firsts entries) ≡ true
    → (s : ReadsFromSource) × P (j, s)
entry_of P j [] all h = cc
entry_of P j ((id, s) ∷ entries) all h = elim (Bool-cases (id == j)) [
  | inl same ↦ (s, subst (λ k. P (k, s)) (==→eq id j same) all.0)
  | inr differ ↦ entry_of P j entries all.1 (ground arith)
]

pub firsts-All :
    (entries rest : List (ℕ × ReadsFromSource))
    → ((j : ℕ) → elem j (firsts rest) ≡ true → elem j (firsts entries) ≡ true)
    → All (λ p. elem p.0 (firsts entries) ≡ true) rest
firsts-All entries [] h = tt
firsts-All entries ((id, s) ∷ rest) h =
    (h id (ground arith), firsts-All entries rest (λ j k. h j (ground arith)))

-- How many entries have send `a` as their source.
pub readers : ℕ → List (ℕ × ReadsFromSource) → ℕ
readers a [] = 0
readers a ((id, bottom) ∷ entries) = readers a entries
readers a ((id, from_send b) ∷ entries) = (if b == a then 1 else 0) + readers a entries

-- Sends that were not read yet are read once.
abbrev pub Once : List ℕ → List (ℕ × ReadsFromSource) → Type 0
Once counts entries =
    (a : ℕ) → 0 < readers a entries → (get_or counts a 0 ≡ 0) × (readers a entries ≤ 1)

module _ {ℓ} {V : Type ℓ} where
  -- The entries are in order, each on its own and after those before it.
  abbrev pub all_ok : ExecutionGraph V → List ℕ → List (ℕ × ReadsFromSource) → Bool
  all_ok g counts [] = true
  all_ok g counts ((id, source) ∷ entries) =
      (entry_ok g id source && fresh counts source) && all_ok g (bump counts source) entries

  loud-validate_entries :
      (g : ExecutionGraph V) (v : Validation) (entries : List (ℕ × ReadsFromSource))
      → quiet v ≡ false
      → quiet (validate_entries g v entries) ≡ false
  unfolding validate_entries
  loud-validate_entries g v [] h = h
  loud-validate_entries g v ((id, source) ∷ entries) h =
      loud-validate_entries g (validate_entry g v (id, source)) entries
        (ground (arith, quiet-validate_entry g v id source))

  pub quiet-validate_entries :
      (g : ExecutionGraph V) (v : Validation) (entries : List (ℕ × ReadsFromSource))
      → quiet (validate_entries g v entries) ≡ (quiet v && all_ok g v.send_read_count entries)
  unfolding validate_entries
  quiet-validate_entries g v [] = ground arith
  quiet-validate_entries g v ((id, source) ∷ entries) =
      let now = quiet-validate_entry g v id source in
      elim (Bool-cases (quiet v && (entry_ok g id source && fresh v.send_read_count source))) [
        | inl good ↦
            let (has, counts) = validate_entry-tables g v id source (ground arith) in
            quiet-validate_entries g (validate_entry g v (id, source)) entries
            ∙ rw counts (rw now (ground arith))
        | inr bad ↦
            loud-validate_entries g (validate_entry g v (id, source)) entries (now ∙ bad)
            ∙ ground arith
      ]

  -- After entries that are in order, the receives with a source are those of the entries.
  pub has_source-validate_entries :
      (g : ExecutionGraph V) (v : Validation) (entries : List (ℕ × ReadsFromSource)) (j : ℕ)
      → length v.receive_has_source ≡ length g.events
      → all_ok g v.send_read_count entries ≡ true
      → get_or (validate_entries g v entries).receive_has_source j false
        ≡ (get_or v.receive_has_source j false || elem j (firsts entries))
  unfolding validate_entries
  has_source-validate_entries g v [] j n h = ground arith
  has_source-validate_entries g v ((id, source) ∷ entries) j n h =
      let good : entry_ok g id source ≡ true = ground arith in
      let rest : all_ok g (bump v.send_read_count source) entries ≡ true = ground arith in
      let (has, counts) = validate_entry-tables g v id source good in
      let lt = ltb→lt id (length g.events) (tests-lt is_receive g id (ground arith)) in
      has_source-validate_entries g (validate_entry g v (id, source)) entries j
        (ap length has ∙ (length-set v.receive_has_source id true ∙ n)) (rw counts rest)
      ∙ rw has (ground (arith, get_or-set v.receive_has_source id j true false (omega arith)))

  -- An entry that is in order on its own.
  abbrev pub InOrder : ExecutionGraph V → ℕ × ReadsFromSource → Type 0
  InOrder g (id, source) = entry_ok g id source ≡ true

  pub all_ok-Once :
      (g : ExecutionGraph V) (counts : List ℕ) (entries : List (ℕ × ReadsFromSource))
      → length counts ≡ length g.events
      → all_ok g counts entries ≡ true
      → All (InOrder g) entries × Once counts entries
  unfolding readers
  all_ok-Once g counts [] n h = (tt, λ a k. absurd (omega arith))
  all_ok-Once g counts ((id, bottom) ∷ entries) n h =
      let (order, once) = all_ok-Once g counts entries n (ground arith) in
      ((ground arith, order), once)
  all_ok-Once g counts ((id, from_send b) ∷ entries) n h =
      let counts' = bump counts (from_send b) in
      let c = get_or counts b 0 in
      let (order, once) =
        all_ok-Once g counts' entries (length-set counts b _ ∙ n) (ground arith) in
      let lt = ltb→lt b (length g.events) (tests-lt is_send g b (ground arith)) in
      (
        (ground arith, order),
        λ a k. ground (
          arith,
          once a,
          get_or-set counts b a (if ltb c 255 then c + 1 else c) 0 (omega arith),
          ==→eq b a,
        ),
      )

  pub Once-all_ok :
      (g : ExecutionGraph V) (counts : List ℕ) (entries : List (ℕ × ReadsFromSource))
      → length counts ≡ length g.events
      → All (InOrder g) entries
      → Once counts entries
      → all_ok g counts entries ≡ true
  unfolding readers
  Once-all_ok g counts [] n order once = refl
  Once-all_ok g counts ((id, bottom) ∷ entries) n order once =
      ground (arith, order.0, Once-all_ok g counts entries n order.1 once)
  Once-all_ok g counts ((id, from_send b) ∷ entries) n order once =
      let counts' = bump counts (from_send b) in
      let c = get_or counts b 0 in
      let lt = ltb→lt b (length g.events) (tests-lt is_send g b (ground (arith, order.0))) in
      let rest = Once-all_ok g counts' entries (length-set counts b _ ∙ n) order.1 (λ a k. ground (
        arith,
        once a,
        get_or-set counts b a (if ltb c 255 then c + 1 else c) 0 (omega arith),
        ==→eq b a,
      )) in
      ground (arith, order.0, rest, once b)
