-- ===== src/Graph/ThreadOrder/Buckets.antt =====
-- include/dpor/model/execution_graph.hpp, derive_thread_event_sequences: the buckets of its first
-- loop.
use cpp_dpor.Prelude.{
  ℕ, zero, suc, ◌+◌, ◌<◌, ◌≡◌, inl, inr, refl, sym, ap, ◌∙◌, Bool, ◌&&◌, List, [], ◌∷◌, ◌++◌, arith,
  ltb, leb, ◌==◌, if◌then◌else◌, ==→eq, Bool-cases, length, get_or, set, grow, get_or-grow,
  le-length-grow, put, get_or-put, count, count-append,
}
use mathlib.Core.List.{append-nil, append_assoc}
use cpp_dpor.Event.{Event}
use cpp_dpor.Graph.{ids_where}
use cpp_dpor.Graph.ThreadOrder.{buckets}
use cpp_dpor.Relation.ProgramOrder.Laws.{total}

abbrev pub of_thread {ℓ} : {V : Type ℓ} → ℕ → Event V → Bool
of_thread t e = e.thread == t

total-grow : (n e : ℕ) (bs : List (List ℕ)) → total e (grow n [] bs) ≡ total e bs
total-grow zero e bs = refl
total-grow (suc n) e [] = omega (arith, total-grow n e [])
total-grow (suc n) e (b ∷ bs) = omega (arith, total-grow n e bs)

total-set :
    (bs : List (List ℕ)) (i e : ℕ) (b : List ℕ)
    → i < length bs
    → total e (set bs i b) + count e (get_or bs i []) ≡ total e bs + count e b
total-set [] i e b h = elim h [ ]
total-set (x ∷ bs) zero e b h = omega arith
total-set (x ∷ bs) (suc i) e b h = omega (arith, total-set bs i e b)

total-put :
    (bs : List (List ℕ)) (i e id : ℕ)
    → total e (put bs i [] (get_or bs i [] ++ id ∷ [])) ≡ total e bs + (if id == e then 1 else 0)
total-put bs i e id = omega (
  arith,
  total-set (grow (suc i) [] bs) i e (get_or bs i [] ++ id ∷ [])
      (le-length-grow {A = List ℕ} (suc i) [] bs),
  total-grow (suc i) e bs,
  ap (count e) (get_or-grow {A = List ℕ} (suc i) [] bs i),
  count-append e (get_or bs i []) (id ∷ []),
)

module _ {ℓ} {V : Type ℓ} where
  pub get_or-buckets :
      (id : ℕ) (es : List (Event V)) (acc : List (List ℕ)) (t : ℕ)
      → get_or (buckets id es acc) t [] ≡ get_or acc t [] ++ ids_where (of_thread t) id es
  unfolding buckets ids_where
  get_or-buckets id [] acc t = sym (append-nil (get_or acc t []))
  get_or-buckets id (e ∷ es) acc t =
      let b = get_or acc e.thread [] ++ id ∷ [] in
      let ih = get_or-buckets (suc id) es (put acc e.thread [] b) t in
      let own = get_or-put {A = List ℕ} acc e.thread t [] b in
      elim (Bool-cases (e.thread == t)) [
        | inl same ↦
            ih
            ∙ (ap (λ (xs : List ℕ). xs ++ ids_where (of_thread t) (suc id) es)
                  (rw same at own
                    ∙ ap (λ (k : ℕ). get_or acc k [] ++ id ∷ []) (==→eq e.thread t same))
                ∙ rw same (
                    append_assoc (get_or acc t []) (id ∷ []) (ids_where (of_thread t) (suc id) es)))
        | inr differ ↦
            ih
            ∙ (ap (λ (xs : List ℕ). xs ++ ids_where (of_thread t) (suc id) es) (rw differ at own)
                ∙ rw differ refl)
      ]

  -- Every id of an event stands in the buckets once, and nothing else does.
  pub total-buckets :
      (id : ℕ) (es : List (Event V)) (acc : List (List ℕ)) (e : ℕ)
      → total e (buckets id es acc)
        ≡ total e acc + (if leb id e && ltb e (id + length es) then 1 else 0)
  unfolding buckets
  total-buckets id [] acc e = ground arith
  total-buckets id (d ∷ es) acc e =
      let b = get_or acc d.thread [] ++ id ∷ [] in
      ground
        (arith, total-buckets (suc id) es (put acc d.thread [] b) e, total-put acc d.thread e id)
