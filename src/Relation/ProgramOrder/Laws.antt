-- ===== src/Relation/ProgramOrder/Laws.antt =====
-- include/dpor/model/relation.hpp, ProgramOrderRelation: its tables against the thread sequences.
use cpp_dpor.Prelude.{
  ℕ, zero, suc, ◌+◌, ◌≤◌, ◌<◌, ◌≡◌, inl, inr, refl, sym, ap, ◌∙◌, true, false, ◌&&◌, ◌||◌, List, [],
  ◌∷◌, ◌++◌, Option, some, none, arith, ◌==◌, if◌then◌else◌, ==→eq, Bool-cases, Option-cases,
  length, get_elem?, get_or, set, length-append, length-set, length-replicate, get_or-replicate,
  get_or-set, lt-length_of_get_elem?, get_elem?-concat, elem, count, elem-count, elem-append,
  elem_of_get_elem?,
}
use mathlib.Core.Path.{subst, fun_ext}
use mathlib.Core.List.{append-nil, append_assoc}
use cpp_dpor.Errors.{ok}
use cpp_dpor.Relation.ProgramOrder.{Tables, blank, enter, enter_thread, enter_threads}

-- The sequences that have been entered so far, by thread.
abbrev pub Sequences : Type 0
Sequences = ℕ → List ℕ

abbrev pub At : Sequences → ℕ → ℕ → ℕ → Type 0
At threads k p e = get_elem? (threads k) p ≡ some e

pub record IsIndex (n : ℕ) (t : Tables) (threads : Sequences) : Type 0 where
  pub threads_size : length t.thread_of ≡ n
  pub positions_size : length t.position_in_thread ≡ n
  pub back :
      (e k : ℕ)
      → get_or t.thread_of e none ≡ some k
      → At threads k (get_or t.position_in_thread e 0) e
  pub forth :
      (k p e : ℕ)
      → At threads k p e
      → (get_or t.thread_of e none ≡ some k) × (get_or t.position_in_thread e 0 ≡ p)

abbrev push : Sequences → ℕ → ℕ → Sequences
push threads k e j = if k == j then threads j ++ e ∷ [] else threads j

get_elem?-push :
    (threads : Sequences) (k e j p : ℕ)
    → get_elem? (push threads k e j) p
      ≡ (if k == j && p == length (threads k) then some e else get_elem? (threads j) p)
get_elem?-push threads k e j p = elim (Bool-cases (k == j)) [
  | inl same ↦ rw same (rw (ap threads (==→eq k j same)) (get_elem?-concat (threads j) e p))
  | inr differ ↦ rw differ refl
]

enter_lem :
    (n k e : ℕ) (t : Tables) (threads : Sequences)
    → IsIndex n t threads
    → e < n
    → get_or t.thread_of e none ≡ none
    → (t' : Tables) × (enter n k (length (threads k)) t e ≡ ok t') × IsIndex n t' (push threads k e)
unfolding enter
enter_lem n k e t threads v lt new =
    let p = length (threads k) in
    let owner = λ (x : ℕ).
      get_or-set {A = Option ℕ} t.thread_of e x (some k) none (omega (arith, v.threads_size)) in
    let place = λ (x : ℕ).
      get_or-set {A = ℕ} t.position_in_thread e x p 0 (omega (arith, v.positions_size)) in
    let added = get_elem?-push threads k e in
    (
      record {
        thread_of = set t.thread_of e (some k);
        position_in_thread = set t.position_in_thread e p;
      },
      ground arith,
      record {
        threads_size = length-set t.thread_of e (some k) ∙ v.threads_size;
        positions_size = length-set t.position_in_thread e p ∙ v.positions_size;
        back = λ x j h.
            added j _
            ∙ ground (
              arith,
              owner x,
              place x,
              v.back x j,
              lt-length_of_get_elem? (threads j) (get_or t.position_in_thread x 0) {a = x},
            );
        forth = λ j q x h. ground (
          arith,
          owner x,
          place x,
          added j q,
          v.forth j q x,
          lt-length_of_get_elem? (threads j) q {a = x},
        );
      },
    )

-- The new events are nodes, and stand in no sequence so far.
abbrev Room : ℕ → Sequences → List ℕ → Type 0
Room n threads es = (e : ℕ) → elem e es ≡ true → (e < n) × ((k : ℕ) → elem e (threads k) ≡ false)

unowned :
    (n e : ℕ) (t : Tables) (threads : Sequences)
    → IsIndex n t threads
    → ((k : ℕ) → elem e (threads k) ≡ false)
    → get_or t.thread_of e none ≡ none
unowned n e t threads v absent = elim (Option-cases (get_or t.thread_of e none)) [
  | inl h ↦ h
  | inr (k, h) ↦
      cc
        (absent k, elem_of_get_elem? (threads k) (get_or t.position_in_thread e 0) e (v.back e k h))
]

elem-push :
    (threads : Sequences) (k x j e : ℕ)
    → elem e (push threads k x j) ≡ (elem e (threads j) || k == j && x == e)
elem-push threads k x j e = ground (arith, elem-append e (threads j) (x ∷ []))

abbrev extend : Sequences → ℕ → List ℕ → Sequences
extend threads k es j = if k == j then threads j ++ es else threads j

extend-push :
    (threads : Sequences) (k e : ℕ) (es : List ℕ) (j : ℕ)
    → extend (push threads k e) k es j ≡ extend threads k (e ∷ es) j
extend-push threads k e es j = elim (Bool-cases (k == j)) [
  | inl same ↦ rw same (append_assoc (threads j) (e ∷ []) es)
  | inr differ ↦ rw differ refl
]

pub IsIndex-same :
    (n : ℕ) (t : Tables) (threads threads' : Sequences)
    → IsIndex n t threads
    → ((k : ℕ) → threads k ≡ threads' k)
    → IsIndex n t threads'
IsIndex-same n t threads threads' v same = subst (IsIndex n t) (fun_ext same) v

enter_thread_lem :
    (n k : ℕ) (t : Tables) (threads : Sequences) (es : List ℕ)
    → IsIndex n t threads
    → Room n threads es
    → ((e : ℕ) → count e es ≤ 1)
    → (t' : Tables) × (enter_thread n k (length (threads k)) t es ≡ ok t')
      × IsIndex n t' (extend threads k es)
unfolding enter_thread
enter_thread_lem n k t threads [] v room once = (
  t,
  refl,
  IsIndex-same n t threads (extend threads k []) v (λ j. ground (arith, append-nil (threads j))),
)
enter_thread_lem n k t threads (e ∷ es) v room once =
    let here = room e (ground arith) in
    let (t1, e1, v1) = enter_lem n k e t threads v here.0 (unowned n e t threads v here.1) in
    let (t2, e2, v2) =
      enter_thread_lem n k t1 (push threads k e) es v1
        (λ x m. (
          (room x (ground arith)).0,
          λ j. ground (
            arith,
            elem-push threads k e j x,
            (room x (ground arith)).1 j,
            once x,
            elem-count x es,
          ),
        ))
        (λ x. omega (arith, once x)) in
    (
      t2,
      ground (arith, length-append (threads k) (e ∷ [])),
      IsIndex-same n t2 _ (extend threads k (e ∷ es)) v2 (extend-push threads k e es),
    )

-- How often a node stands in the sequences.
abbrev pub total : ℕ → List (List ℕ) → ℕ
total e [] = 0
total e (es ∷ rest) = count e es + total e rest

-- The sequences of the threads `k, k + 1, …`.
abbrev pub from : ℕ → List (List ℕ) → Sequences
from k [] j = []
from k (es ∷ rest) j = if k == j then es else from (suc k) rest j

from-below : (k : ℕ) (rest : List (List ℕ)) (j : ℕ) → j < k → from k rest j ≡ []
from-below k [] j h = refl
from-below k (es ∷ rest) j h = ground (arith, from-below (suc k) rest j)

abbrev pub joined : Sequences → ℕ → List (List ℕ) → Sequences
joined threads k rest j = threads j ++ from k rest j

joined-extend :
    (threads : Sequences) (k : ℕ) (es : List ℕ) (rest : List (List ℕ)) (j : ℕ)
    → joined (extend threads k es) (suc k) rest j ≡ joined threads k (es ∷ rest) j
joined-extend threads k es rest j = elim (Bool-cases (k == j)) [
  | inl same ↦ rw same (
      rw (from-below (suc k) rest j (omega (arith, ==→eq k j same))) (append-nil (threads j ++ es)))
  | inr differ ↦ rw differ refl
]

pub enter_threads_lem :
    (n k : ℕ) (t : Tables) (threads : Sequences) (rest : List (List ℕ))
    → IsIndex n t threads
    → ((j : ℕ) → k ≤ j → threads j ≡ [])
    → ((e : ℕ) → 0 < total e rest → (e < n) × ((j : ℕ) → elem e (threads j) ≡ false))
    → ((e : ℕ) → total e rest ≤ 1)
    → (t' : Tables) × (enter_threads n k t rest ≡ ok t') × IsIndex n t' (joined threads k rest)
unfolding enter_threads
enter_threads_lem n k t threads [] v empty room once =
    (t, refl, IsIndex-same n t threads _ v (λ j. sym (append-nil (threads j))))
enter_threads_lem n k t threads (es ∷ rest) v empty room once =
    let (t1, e1, v1) =
      enter_thread_lem n k t threads es v (λ x m. room x (ground (arith, elem-count x es)))
        (λ x. omega (arith, once x)) in
    let (t2, e2, v2) =
      enter_threads_lem n (suc k) t1 (extend threads k es) rest v1 (λ j h. ground (arith, empty j))
        (λ x m. (
          (room x (omega arith)).0,
          λ j. ground (
            arith,
            (room x (omega arith)).1 j,
            elem-append x (threads j) es,
            elem-count x es,
            once x,
          ),
        ))
        (λ x. omega (arith, once x)) in
    (
      t2,
      ground (arith, ap length (empty k (omega arith))),
      IsIndex-same n t2 _ (joined threads k (es ∷ rest)) v2 (joined-extend threads k es rest),
    )

pub blank-IsIndex : (n : ℕ) → IsIndex n (blank n) (λ j. [])
blank-IsIndex n = record {
  threads_size = length-replicate n none;
  positions_size = length-replicate n 0;
  back = λ e k h. cc (get_or-replicate {A = Option ℕ} n e none);
  forth = λ k p e h. cc;
}

pub from-get_or :
    (k : ℕ) (threads : List (List ℕ)) (j : ℕ) → from k threads (k + j) ≡ get_or threads j []
from-get_or k [] j = refl
from-get_or k (es ∷ rest) zero = ground arith
from-get_or k (es ∷ rest) (suc j) =
    let step : k + suc j ≡ suc k + j = omega arith in
    rw step (ground (arith, from-get_or (suc k) rest j))
