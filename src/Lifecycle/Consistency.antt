-- ===== src/Lifecycle/Consistency.antt =====
-- The invariant that ties the runs to their streams.
use mathlib.Core.Option
use roster_ai.Base.{
  ◌+◌, ◌≡◌, refl, sym, ◌∙◌, ap, subst, subst₂, Bool, true, false, Option, none, some, List, [], ◌∷◌,
  ◌++◌, if◌then◌else◌, inl, inr, Bool-cases, arith, ◌==◌, ==_iff, length,
}
use roster_ai.Base.Table.{
  select_one, update, select_one-update, select_one-append, select_one-append_none,
  select_one_holds,
}
use roster_ai.Base.Unique.{UniqueBy, select_by_key, UniqueBy-update, UniqueBy-append}
use roster_ai.Contracts.JobLease.{Uuid}
use roster_ai.Store.{World, ScheduleRun, PersistedEvent}
use roster_ai.Repository.Progress.{max_sequence}
use roster_ai.Lifecycle.Moves.{Moves, kept, moved, added, IsMove}
use roster_ai.Lifecycle.Calls.{Call, performs, perform, perform-Moves}
use roster_ai.Lifecycle.Streams.{
  Numbered, stream, stream-append_own, stream-append_other, IsHistoryOf, IsHistoryOf-append,
  IsHistoryOf-open, max_sequence-history,
}

abbrev pub UniqueIds : List ScheduleRun → Type 0
UniqueIds = UniqueBy (λ r. r.id)

abbrev pub by_id : Uuid → List ScheduleRun → Option ScheduleRun
by_id run rs = select_one (λ r. r.id == run) rs

-- Ids are unique, a run's stream is its history, and a stream without a run is empty.
pub record TiesStreams (rs : List ScheduleRun) (es : List PersistedEvent) : Type 0 where
  pub unique : UniqueIds rs
  pub history :
      (run : Uuid) (r : ScheduleRun) → by_id run rs ≡ some r → IsHistoryOf r (stream run es)
  pub unopened : (run : Uuid) → by_id run rs ≡ none → stream run es ≡ []

abbrev pub IsConsistent : World → Type 0
IsConsistent w = TiesStreams w.schedule_run w.persisted_event

-- The rows and the stream of the run that a move writes, and of any other.
module _ {rs : List ScheduleRun} {es : List PersistedEvent} (c : TiesStreams rs es)
    (run site : Uuid) (p : ScheduleRun → Bool) (f : ScheduleRun → ScheduleRun)
    (m : IsMove run site p f) (r : ScheduleRun) (found : select_one p rs ≡ some r)
    (e : PersistedEvent) (own_stream : e.stream_id ≡ run)
    (next : e.sequence ≡ max_sequence run es + 1) (at_status : e.status ≡ (f r).status)
    (at_version : e.resource_version ≡ (f r).resource_version) where
  p_id : (x : ScheduleRun) → p x ≡ true → x.id ≡ run
  p_id x h = let own = m.own x h in ground arith

  found_by_id : by_id run rs ≡ some r
  found_by_id = select_by_key (λ x. x.id) run p rs c.unique p_id found

  by_id-update :
      (k : Uuid) → by_id k (update p f rs) ≡ Option.map (λ x. if p x then f x else x) (by_id k rs)
  by_id-update k = select_one-update (λ x. x.id == k) p f rs (λ x. ap (λ a. a == k) (m.same_id x))

  stream_own : stream run (es ++ e ∷ []) ≡ stream run es ++ e ∷ []
  stream_own = stream-append_own run es e own_stream

  stream_other : (k : Uuid) → (run == k) ≡ false → stream k (es ++ e ∷ []) ≡ stream k es
  stream_other k h = stream-append_other run k es e own_stream h

  row_own : by_id run (update p f rs) ≡ some (f r)
  row_own =
      by_id-update run
      ∙ ap (Option.map (λ x. if p x then f x else x)) found_by_id
      ∙ rw (select_one_holds p rs found)

  row_kept :
      (k : Uuid) (o : Option ScheduleRun)
      → (run == k) ≡ false
      → by_id k rs ≡ o
      → Option.map (λ x. if p x then f x else x) o ≡ o
  row_kept k none h found_k = refl
  row_kept k (some x) h found_k = elim (Bool-cases (p x)) [
    | inl t ↦ absurd (ground (arith, p_id x t, select_one_holds (λ y. y.id == k) rs found_k))
    | inr t ↦ rw t
  ]

  row_other : (k : Uuid) → (run == k) ≡ false → by_id k (update p f rs) ≡ by_id k rs
  row_other k h = by_id-update k ∙ row_kept k (by_id k rs) h refl

  own_history :
      (y : ScheduleRun)
      → by_id run (update p f rs) ≡ some y
      → IsHistoryOf y (stream run (es ++ e ∷ []))
  own_history y h =
      let old = c.history run r found_by_id in
      let y_is : f r ≡ y = cc (row_own, h) in
      subst (λ z. IsHistoryOf z (stream run (es ++ e ∷ []))) y_is
        (rw stream_own (
          IsHistoryOf-append (f r) (stream run es) e old (m.version r)
            (next ∙ ap (λ n. n + 1) (max_sequence-history run es old.numbered)) at_status
            at_version))

  moved_history :
      (k : Uuid) (y : ScheduleRun)
      → by_id k (update p f rs) ≡ some y
      → IsHistoryOf y (stream k (es ++ e ∷ []))
  moved_history k y h = elim (Bool-cases (run == k)) [
    | inl same ↦
        subst (λ j. by_id j (update p f rs) ≡ some y → IsHistoryOf y (stream j (es ++ e ∷ [])))
          ((==_iff run k).0 same) (own_history y) h
    | inr other ↦ rw (stream_other k other) (c.history k y (sym (row_other k other) ∙ h))
  ]

  moved_unopened : (k : Uuid) → by_id k (update p f rs) ≡ none → stream k (es ++ e ∷ []) ≡ []
  moved_unopened k h = elim (Bool-cases (run == k)) [
    | inl same ↦ cc ((==_iff run k).0 same, row_own, h)
    | inr other ↦ stream_other k other ∙ c.unopened k (sym (row_other k other) ∙ h)
  ]

  moved_TiesStreams : TiesStreams (update p f rs) (es ++ e ∷ [])
  moved_TiesStreams = record {
    unique = UniqueBy-update (λ x. x.id) p f rs m.same_id c.unique;
    history = moved_history;
    unopened = moved_unopened;
  }

-- A new run and the event that opens its stream.
module _ {rs : List ScheduleRun} {es : List PersistedEvent} (c : TiesStreams rs es)
    (x : ScheduleRun) (fresh : by_id x.id rs ≡ none) (one : x.resource_version ≡ 1)
    (e : PersistedEvent) (own_stream : e.stream_id ≡ x.id)
    (next : e.sequence ≡ max_sequence x.id es + 1) (at_status : e.status ≡ x.status)
    (at_version : e.resource_version ≡ x.resource_version) where
  opened : stream x.id (es ++ e ∷ []) ≡ e ∷ []
  opened = stream-append_own x.id es e own_stream ∙ ap (λ s. s ++ e ∷ []) (c.unopened x.id fresh)

  not_opened : (k : Uuid) → (x.id == k) ≡ false → stream k (es ++ e ∷ []) ≡ stream k es
  not_opened k h = stream-append_other x.id k es e own_stream h

  row_new : by_id x.id (rs ++ x ∷ []) ≡ some x
  row_new = select_one-append_none (λ r. r.id == x.id) rs x fresh ∙ rw ((==_iff x.id x.id).1 refl)

  row_old :
      (k : Uuid) (o : Option ScheduleRun)
      → (x.id == k) ≡ false
      → by_id k rs ≡ o
      → by_id k (rs ++ x ∷ []) ≡ o
  row_old k none h found = select_one-append_none (λ r. r.id == k) rs x found ∙ rw h
  row_old k (some y) h found = select_one-append (λ r. r.id == k) rs (x ∷ []) found

  first_sequence : e.sequence ≡ 1
  first_sequence =
      next
      ∙ ap (λ n. n + 1)
          (max_sequence-history x.id es (subst (Numbered 1) (sym (c.unopened x.id fresh)) tt)
            ∙ ap length (c.unopened x.id fresh))

  new_history :
      (y : ScheduleRun)
      → by_id x.id (rs ++ x ∷ []) ≡ some y
      → IsHistoryOf y (stream x.id (es ++ e ∷ []))
  new_history y h =
      let y_is : x ≡ y = cc (row_new, h) in
      subst (λ z. IsHistoryOf z (stream x.id (es ++ e ∷ []))) y_is
        (subst (IsHistoryOf x) (sym opened)
          (IsHistoryOf-open x e first_sequence one at_status at_version))

  added_history :
      (k : Uuid) (y : ScheduleRun)
      → by_id k (rs ++ x ∷ []) ≡ some y
      → IsHistoryOf y (stream k (es ++ e ∷ []))
  added_history k y h = elim (Bool-cases (x.id == k)) [
    | inl same ↦
        subst (λ j. by_id j (rs ++ x ∷ []) ≡ some y → IsHistoryOf y (stream j (es ++ e ∷ [])))
          ((==_iff x.id k).0 same) (new_history y) h
    | inr other ↦
        rw (not_opened k other) (c.history k y (sym (row_old k (by_id k rs) other refl) ∙ h))
  ]

  added_unopened : (k : Uuid) → by_id k (rs ++ x ∷ []) ≡ none → stream k (es ++ e ∷ []) ≡ []
  added_unopened k h = elim (Bool-cases (x.id == k)) [
    | inl same ↦ cc ((==_iff x.id k).0 same, row_new, h)
    | inr other ↦ not_opened k other ∙ c.unopened k (sym (row_old k (by_id k rs) other refl) ∙ h)
  ]

  added_TiesStreams : TiesStreams (rs ++ x ∷ []) (es ++ e ∷ [])
  added_TiesStreams = record {
    unique = UniqueBy-append (λ r. r.id) rs x c.unique fresh;
    history = added_history;
    unopened = added_unopened;
  }

Moves-IsConsistent : (w w' : World) → Moves w w' → IsConsistent w → IsConsistent w'
Moves-IsConsistent w w' (kept runs events) c = subst₂ TiesStreams (sym runs) (sym events) c
Moves-IsConsistent w w' (moved run site p f r e m found runs rec events) c =
    subst₂ TiesStreams (sym runs) (sym events)
      (moved_TiesStreams c run site p f m r found e rec.stream rec.next rec.status rec.version)
Moves-IsConsistent w w' (added x e queued one fresh runs rec events) c =
    subst₂ TiesStreams (sym runs) (sym events)
      (added_TiesStreams c x fresh one e rec.stream rec.next rec.status rec.version)

-- Any committed calls keep the streams consistent: run ids stay unique, the events of a run are
-- numbered 1, 2, ... without a gap, there is one for each version of its row, the last has the
-- row's status, and an id without a run has no events.
pub performs-IsConsistent :
    (cs : List Call) (w : World) → IsConsistent w → IsConsistent (performs cs w)
unfolding performs
performs-IsConsistent [] w c = c
performs-IsConsistent (x ∷ cs) w c =
    performs-IsConsistent cs (perform x w)
      (Moves-IsConsistent w (perform x w) (perform-Moves x w) c)
