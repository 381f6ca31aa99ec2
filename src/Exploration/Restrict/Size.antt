-- ===== src/Exploration/Restrict/Size.antt =====
-- include/dpor/model/exploration_graph.hpp, restrict_from_keep_mask: the number of events of its graph.
use cpp_dpor.Prelude.{
  ℕ, zero, suc, ◌+◌, ◌<◌, ◌≡◌, inl, inr, refl, sym, ap, ◌∙◌, Bool, true, false, not, List, [], ◌∷◌,
  ◌++◌, Option, some, none, arith, ◌==◌, if◌then◌else◌, Option-cases, length, get_elem?, set,
  replicate, length-append,
}
use mathlib.Core.Path.{subst}
use mathlib.Core.List.{append-nil, append_assoc}
use cpp_dpor.Errors.{ok, throw_if, ok-injective, >>=-eq-ok, ◌>>=◌}
use cpp_dpor.Event.{Event, EventLabel}
use cpp_dpor.Graph.{
  ExecutionGraph, event, ensure_thread_storage, next_event_index, append_event_unchecked, next_of,
  used_of, seek,
}
use cpp_dpor.Graph
use cpp_dpor.Graph.ReadsFrom.{ReadsFromSource, from_send, bottom, to_list}
use cpp_dpor.Exploration.{
  ExplorationGraph, empty, event_count, set_reads_from_source, set_reads_from,
  set_reads_from_bottom, mark_known_acyclic, invalidate_known_acyclicity,
  clear_worker_local_history, update_acyclicity_after_add_event,
}
use cpp_dpor.Exploration.Acyclic.Flag.{set_reads_from_source-IsAssigned, update-keeps}
use cpp_dpor.Exploration.Restrict.{
  kept_from, id_map_from, look_up, reserve_for_bulk_build, reserve_thread, bulk_caches,
  append_event_for_bulk_build, append_kept, remap_entry, remap_entries, restrict_from_keep_mask,
}

length-snoc {ℓ} : {A : Type ℓ} (xs : List A) (a : A) → length (xs ++ a ∷ []) ≡ suc (length xs)
length-snoc xs a = omega (arith, length-append xs (a ∷ []))

-- How many events a mask keeps.
abbrev pub trues : List Bool → ℕ
trues [] = 0
trues (keep ∷ mask) = (if keep then 1 else 0) + trues mask

length-kept_from : (first : ℕ) (mask : List Bool) → length (kept_from first mask) ≡ trues mask
unfolding kept_from
length-kept_from first [] = refl
length-kept_from first (true ∷ mask) = omega (arith, length-kept_from (suc first) mask)
length-kept_from first (false ∷ mask) = omega (arith, length-kept_from (suc first) mask)

module _ {ℓ} {V : Type ℓ} where
  ensure_thread_storage-events :
      (g g' : ExecutionGraph V) (t : ℕ) → ensure_thread_storage g t ≡ ok g' → g'.events ≡ g.events
  unfolding ensure_thread_storage
  ensure_thread_storage-events g g' t ran = ground arith

  next_event_index-events :
      (g : ExecutionGraph V) (t : ℕ) (n : ExecutionGraph V × ℕ)
      → next_event_index g t ≡ ok n
      → n.0.events ≡ g.events
  unfolding next_event_index
  next_event_index-events g t n ran =
      let (g', e, f) = >>=-eq-ok (ensure_thread_storage g t) _ ran in
      let (i, e', f') = >>=-eq-ok (seek _ (used_of g' t) (next_of g' t)) _ f in
      ap (λ (x : ExecutionGraph V × ℕ). x.0.events) (sym (ok-injective f'))
      ∙ ensure_thread_storage-events g g' t e

  pub add_event-count :
      (g : ExecutionGraph V) (t : ℕ) (label : EventLabel V) (r : ExecutionGraph V × ℕ)
      → Graph.add_event g t label ≡ ok r
      → length r.0.events ≡ length g.events + 1
  unfolding Graph.add_event append_event_unchecked
  add_event-count g t label r ran =
      let (n, e, f) =
        >>=-eq-ok (next_event_index g t) (λ n. ok (append_event_unchecked n.0 t n.1 label)) ran in
      omega (
        arith,
        ap (λ (x : ExecutionGraph V × ℕ). length x.0.events) (ok-injective f),
        length-append n.0.events (record { thread = t; index = n.1; label = label } ∷ []),
        ap (length {A = Event V}) (next_event_index-events g t n e),
      )

  append_event_for_bulk_build-count :
      (g g' : ExplorationGraph V) (t : ℕ) (label : EventLabel V)
      → append_event_for_bulk_build g t label ≡ ok g'
      → event_count g' ≡ event_count g + 1
  unfolding append_event_for_bulk_build bulk_caches update_acyclicity_after_add_event
  append_event_for_bulk_build-count g g' t label ran =
      let (r, e, f) = >>=-eq-ok (Graph.add_event g.graph t label) _ ran in
      let same : ((update_acyclicity_after_add_event
            (bulk_caches (reserve_thread (record g { graph = r.0 }) t) t r.1) r.1)).graph
          ≡ r.0 =
        ground arith in
      omega (
        arith,
        ap (λ (x : ExplorationGraph V). event_count x) (ok-injective f),
        ap (λ (x : ExecutionGraph V). length x.events) same,
        add_event-count g.graph t label r e,
      )

  append_kept-count :
      (g : ExplorationGraph V) (ids : List ℕ) (from result : ExplorationGraph V)
      → append_kept g ids from ≡ ok result
      → event_count result ≡ event_count from + length ids
  unfolding append_kept
  append_kept-count g [] from result ran =
      omega (arith, ap (λ (x : ExplorationGraph V). event_count x) (ok-injective ran))
  append_kept-count g (id ∷ ids) from result ran =
      let (e, read, rest) = >>=-eq-ok (event g.graph id) _ ran in
      let (next, appended, rest') =
        >>=-eq-ok (append_event_for_bulk_build from e.thread e.label) _ rest in
      omega (
        arith,
        append_event_for_bulk_build-count from next e.thread e.label appended,
        append_kept-count g ids next result rest',
      )

  set_reads_from_source-events :
      (g g' : ExplorationGraph V) (id : ℕ) (s : ReadsFromSource)
      → set_reads_from_source g id s ≡ ok g'
      → g'.graph.events ≡ g.graph.events
  unfolding Graph.set_reads_from_source
  set_reads_from_source-events g g' id s ran =
      let (h, assigned, is_g') = set_reads_from_source-IsAssigned g g' id s ran in
      ap (λ (x : ExplorationGraph V). x.graph.events) is_g'
      ∙ (ap (λ (x : ExecutionGraph V). x.events) ((update-keeps h id s).0 ∙ assigned.new_graph))

  set_if_kept-events :
      (new_id : Option ℕ) (from result : ExplorationGraph V) (source : ReadsFromSource)
      → elim new_id [ none ↦ ok from | some id ↦ set_reads_from_source from id source ] ≡ ok result
      → result.graph.events ≡ from.graph.events
  set_if_kept-events none from result source ran =
      ap (λ (x : ExplorationGraph V). x.graph.events) (sym (ok-injective ran))
  set_if_kept-events (some id) from result source ran =
      set_reads_from_source-events from result id source ran

  bind_if_kept-events :
      (id_map : List (Option ℕ)) (recv : Option ℕ) (source_id : ℕ)
      (from result : ExplorationGraph V)
      → elim recv [
        | none ↦ ok from
        | some new_recv ↦ look_up id_map source_id >>= λ source. elim source [
          | none ↦ ok from
          | some new_source ↦ set_reads_from from new_recv new_source
        ]
      ]
        ≡ ok result
      → result.graph.events ≡ from.graph.events
  unfolding set_reads_from
  bind_if_kept-events id_map none source_id from result ran =
      ap (λ (x : ExplorationGraph V). x.graph.events) (sym (ok-injective ran))
  bind_if_kept-events id_map (some new_recv) source_id from result ran =
      let (source, looked, rest) = >>=-eq-ok (look_up id_map source_id) _ ran in
      elim (Option-cases source) [
        | inl gone ↦
            ap (λ (x : ExplorationGraph V). x.graph.events) (sym (ok-injective (rw gone at rest)))
        | inr (new_source, at) ↦
            set_reads_from_source-events from result new_recv (from_send new_source) (rw at at rest)
      ]

  remap_entry-events :
      (id_map : List (Option ℕ)) (from result : ExplorationGraph V) (entry : ℕ × ReadsFromSource)
      → remap_entry id_map from entry ≡ ok result
      → result.graph.events ≡ from.graph.events
  unfolding remap_entry set_reads_from_bottom
  remap_entry-events id_map from result (recv_id, bottom) ran =
      let (recv, looked, rest) = >>=-eq-ok (look_up id_map recv_id) _ ran in
      set_if_kept-events recv from result bottom rest
  remap_entry-events id_map from result (recv_id, from_send source_id) ran =
      let (recv, looked, rest) = >>=-eq-ok (look_up id_map recv_id) _ ran in
      bind_if_kept-events id_map recv source_id from result rest

  remap_entries-events :
      (id_map : List (Option ℕ)) (entries : List (ℕ × ReadsFromSource))
      (from result : ExplorationGraph V)
      → remap_entries id_map entries from ≡ ok result
      → result.graph.events ≡ from.graph.events
  unfolding remap_entries
  remap_entries-events id_map [] from result ran =
      ap (λ (x : ExplorationGraph V). x.graph.events) (sym (ok-injective ran))
  remap_entries-events id_map (entry ∷ entries) from result ran =
      let (next, first, rest) = >>=-eq-ok (remap_entry id_map from entry) _ ran in
      remap_entries-events id_map entries next result rest
      ∙ remap_entry-events id_map from next entry first

  -- The thread and the label of each event.
  abbrev pub placed : List (Event V) → List (ℕ × EventLabel V)
  placed [] = []
  placed (e ∷ es) = (e.thread, e.label) ∷ placed es

  -- Those of the events that a mask keeps.
  abbrev pub kept : List Bool → List (Event V) → List (ℕ × EventLabel V)
  kept [] es = []
  kept (keep ∷ mask) [] = []
  kept (keep ∷ mask) (e ∷ es) =
      let rest = kept mask es in if keep then (e.thread, e.label) ∷ rest else rest

  placed-append :
      (es : List (Event V)) (e : Event V)
      → placed (es ++ e ∷ []) ≡ placed es ++ (e.thread, e.label) ∷ []
  placed-append [] e = refl
  placed-append (d ∷ es) e = ap (◌∷◌ (d.thread, d.label)) (placed-append es e)

  add_event-placed :
      (g : ExecutionGraph V) (t : ℕ) (label : EventLabel V) (r : ExecutionGraph V × ℕ)
      → Graph.add_event g t label ≡ ok r
      → placed r.0.events ≡ placed g.events ++ (t, label) ∷ []
  unfolding Graph.add_event append_event_unchecked
  add_event-placed g t label r ran =
      let (n, e, f) =
        >>=-eq-ok (next_event_index g t) (λ n. ok (append_event_unchecked n.0 t n.1 label)) ran in
      ap (λ (x : ExecutionGraph V × ℕ). placed x.0.events) (sym (ok-injective f))
      ∙ (placed-append n.0.events (record { thread = t; index = n.1; label = label })
          ∙ ap (λ (es : List (Event V)). placed es ++ (t, label) ∷ [])
              (next_event_index-events g t n e))

  append_event_for_bulk_build-placed :
      (g g' : ExplorationGraph V) (t : ℕ) (label : EventLabel V)
      → append_event_for_bulk_build g t label ≡ ok g'
      → placed g'.graph.events ≡ placed g.graph.events ++ (t, label) ∷ []
  unfolding append_event_for_bulk_build bulk_caches update_acyclicity_after_add_event
  append_event_for_bulk_build-placed g g' t label ran =
      let (r, e, f) = >>=-eq-ok (Graph.add_event g.graph t label) _ ran in
      let same : ((update_acyclicity_after_add_event
            (bulk_caches (reserve_thread (record g { graph = r.0 }) t) t r.1) r.1)).graph
          ≡ r.0 =
        ground arith in
      ap (λ (x : ExplorationGraph V). placed x.graph.events) (sym (ok-injective f))
      ∙ (ap (λ (x : ExecutionGraph V). placed x.events) same ∙ add_event-placed g.graph t label r e)

  get_elem?-middle :
      (before after : List (Event V)) (e : Event V)
      → get_elem? (before ++ e ∷ after) (length before) ≡ some e
  get_elem?-middle [] after e = refl
  get_elem?-middle (d ∷ before) after e = ground (arith, get_elem?-middle before after e)

  event-middle :
      (g : ExecutionGraph V) (before after : List (Event V)) (e : Event V)
      → g.events ≡ before ++ e ∷ after
      → event g (length before) ≡ ok e
  unfolding event
  event-middle g before after e split =
      let found =
        ap (λ (es : List (Event V)). get_elem? es (length before)) split
        ∙ get_elem?-middle before after e in
      rw (found, event) refl

  -- The events from some event on are kept as the rest of the mask says.
  append_kept-placed :
      (g from result : ExplorationGraph V) (before after : List (Event V)) (mask : List Bool)
      → g.graph.events ≡ before ++ after
      → length mask ≡ length after
      → append_kept g (kept_from (length before) mask) from ≡ ok result
      → placed result.graph.events ≡ placed from.graph.events ++ kept mask after
  unfolding append_kept kept_from
  append_kept-placed g from result before after [] split sized ran =
      ap (λ (x : ExplorationGraph V). placed x.graph.events) (sym (ok-injective ran))
      ∙ sym (append-nil (placed from.graph.events))
  append_kept-placed g from result before [] (keep ∷ mask) split sized ran =
      absurd (omega (arith, sized))
  append_kept-placed g from result before (e ∷ after) (false ∷ mask) split sized ran =
      append_kept-placed g from result (before ++ e ∷ []) after mask
        (split ∙ sym (append_assoc before (e ∷ []) after)) (omega (arith, sized))
        (subst (λ (n : ℕ). append_kept g (kept_from n mask) from ≡ ok result)
          (sym (length-snoc before e)) ran)
  append_kept-placed g from result before (e ∷ after) (true ∷ mask) split sized ran =
      let (d, read, rest) = >>=-eq-ok (event g.graph (length before)) _ ran in
      let (next, appended, rest') =
        >>=-eq-ok (append_event_for_bulk_build from d.thread d.label) _ rest in
      let is_e : e ≡ d = ok-injective (sym (event-middle g.graph before after e split) ∙ read) in
      append_kept-placed g next result (before ++ e ∷ []) after mask
        (split ∙ sym (append_assoc before (e ∷ []) after)) (omega (arith, sized))
        (subst (λ (n : ℕ). append_kept g (kept_from n mask) next ≡ ok result)
          (sym (length-snoc before e)) rest')
      ∙ (ap (λ (xs : List (ℕ × EventLabel V)). xs ++ kept mask after)
            (append_event_for_bulk_build-placed from next d.thread d.label appended)
          ∙ (append_assoc (placed from.graph.events) ((d.thread, d.label) ∷ []) (kept mask after)
              ∙ ap
                  (λ (x : Event V).
                    placed from.graph.events ++ (x.thread, x.label) ∷ kept mask after)
                  (sym is_e)))

  -- After a successful restrict_from_keep_mask the mask has one entry for each event; the new
  -- graph has as many events as the mask has entries that keep, and in order the thread and the
  -- label of each event that the mask keeps, and of no other.
  pub restrict_from_keep_mask_lem :
      (g result : ExplorationGraph V) (mask : List Bool)
      → restrict_from_keep_mask g mask ≡ ok result
      → (length mask ≡ event_count g)
        × (event_count result ≡ trues mask)
        × (placed result.graph.events ≡ kept mask g.graph.events)
  unfolding restrict_from_keep_mask reserve_for_bulk_build mark_known_acyclic
      invalidate_known_acyclicity clear_worker_local_history
  restrict_from_keep_mask_lem g result mask ran =
      let (u, sized, rest) = >>=-eq-ok (throw_if (not (length mask == event_count g)) _) _ ran in
      let start : ExplorationGraph V = reserve_for_bulk_build empty (length g.thread_state) in
      let (built, appended, rest') = >>=-eq-ok (append_kept g (kept_from 0 mask) start) _ rest in
      let (bound, remapped, last) =
        >>=-eq-ok (remap_entries (id_map_from 0 mask) (to_list g.graph.reads_from) built) _ rest' in
      let same : result.graph ≡ bound.graph =
        ground (arith, ap (λ (x : ExplorationGraph V). x.graph) (ok-injective last)) in
      let unmoved : bound.graph.events ≡ built.graph.events =
        remap_entries-events (id_map_from 0 mask) (to_list g.graph.reads_from) built bound
          remapped in
      let fits : length mask ≡ event_count g = ground arith in
      (
        fits,
        omega (
          arith,
          ap (λ (x : ExecutionGraph V). length x.events) same,
          ap (length {A = Event V}) unmoved,
          append_kept-count g (kept_from 0 mask) start built appended,
          length-kept_from 0 mask,
        ),
        ap (λ (x : ExecutionGraph V). placed x.events) same
            ∙ (ap placed unmoved
                ∙ append_kept-placed g start built [] g.graph.events mask refl fits appended),
      )

trues-set :
    (n id : ℕ)
    → (trues (replicate n true) ≡ n) × (id < n → trues (set (replicate n true) id false) + 1 ≡ n)
trues-set zero id = (refl, λ h. absurd (omega arith))
trues-set (suc n) zero = (omega (arith, (trues-set n 0).0), λ h. omega (arith, (trues-set n 0).0))
trues-set (suc n) (suc id) =
    (omega (arith, (trues-set n id).0), λ h. omega (arith, (trues-set n id).1 (omega arith)))

-- Without one event there is one event less.
pub restrict_without-count {ℓ} :
    {V : Type ℓ} (g result : ExplorationGraph V) (id : ℕ)
    → id < event_count g
    → restrict_from_keep_mask g (set (replicate (event_count g) true) id false) ≡ ok result
    → event_count result + 1 ≡ event_count g
restrict_without-count g result id below ran =
    omega (
      arith,
      (restrict_from_keep_mask_lem g result _ ran).1,
      (trues-set (event_count g) id).1 below,
    )
