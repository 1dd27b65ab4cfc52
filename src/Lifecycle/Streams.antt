-- ===== src/Lifecycle/Streams.antt =====
-- The event stream of a run, and when it is the history of the run's row.

use roster_ai.Base.{
  ℕ, ◌+◌, ◌≡◌, refl, ◌∙◌, ap, false, Option, none, some, List, [], ◌∷◌, ◌++◌, if◌then◌else◌, inl,
  inr, Bool-cases, arith, ◌==◌, length, length-append, max,
}
use roster_ai.Contracts.RunStatus.{RunStatus}
use roster_ai.Contracts.JobLease.{Uuid}
use roster_ai.Store.{ScheduleRun, PersistedEvent}
use roster_ai.Repository.Progress.{max_sequence}

-- The events of a run's stream, in the order in which they were written.
unfoldable pub stream : Uuid → List PersistedEvent → List PersistedEvent
stream run [] = []
stream run (e ∷ es) = if e.stream_id == run then e ∷ stream run es else stream run es

-- Sequences and versions are k, k + 1, …
abbrev pub Numbered : ℕ → List PersistedEvent → Type 0
Numbered k [] = Unit
Numbered k (e ∷ es) = (e.sequence ≡ k) × (e.resource_version ≡ k) × Numbered (k + 1) es

unfoldable pub last_status : List PersistedEvent → Option RunStatus
last_status [] = none
last_status (e ∷ []) = some e.status
last_status (e ∷ d ∷ es) = last_status (d ∷ es)

pub record IsHistoryOf (r : ScheduleRun) (s : List PersistedEvent) : Type 0 where
  pub numbered : Numbered 1 s
  pub one_each : length s ≡ r.resource_version
  pub latest : last_status s ≡ some r.status

pub stream-append :
    (run : Uuid) (es : List PersistedEvent) (e : PersistedEvent)
    → stream run (es ++ e ∷ [])
      ≡ (if e.stream_id == run then stream run es ++ e ∷ [] else stream run es)
unfolding stream
stream-append run [] e = refl
stream-append run (d ∷ es) e = ground (arith, stream-append run es e)

pub stream-append_own :
    (run : Uuid) (es : List PersistedEvent) (e : PersistedEvent)
    → e.stream_id ≡ run
    → stream run (es ++ e ∷ []) ≡ stream run es ++ e ∷ []
stream-append_own run es e h = ground (arith, stream-append run es e)

pub stream-append_other :
    (run k : Uuid) (es : List PersistedEvent) (e : PersistedEvent)
    → e.stream_id ≡ run
    → (run == k) ≡ false
    → stream k (es ++ e ∷ []) ≡ stream k es
stream-append_other run k es e h o = ground (arith, stream-append k es e)

Numbered-append :
    (k : ℕ) (s : List PersistedEvent) (e : PersistedEvent)
    → Numbered k s
    → e.sequence ≡ k + length s
    → e.resource_version ≡ k + length s
    → Numbered k (s ++ e ∷ [])
Numbered-append k [] e n h v = (omega arith, omega arith, tt)
Numbered-append k (d ∷ s) e n h v =
    (n.0, n.1, Numbered-append (k + 1) s e n.2 (omega arith) (omega arith))

last_status-append :
    (s : List PersistedEvent) (e : PersistedEvent) → last_status (s ++ e ∷ []) ≡ some e.status
unfolding last_status
last_status-append [] e = refl
last_status-append (d ∷ []) e = refl
last_status-append (d ∷ c ∷ s) e = last_status-append (c ∷ s) e

-- The greatest sequence, over the stream alone.
greatest : List PersistedEvent → ℕ
greatest [] = 0
greatest (e ∷ es) = max e.sequence (greatest es)

max_sequence-stream :
    (run : Uuid) (es : List PersistedEvent) → max_sequence run es ≡ greatest (stream run es)
unfolding max_sequence stream greatest
max_sequence-stream run [] = refl
max_sequence-stream run (e ∷ es) = elim (Bool-cases (e.stream_id == run)) [
  | inl h ↦ rw h (ap (max e.sequence) (max_sequence-stream run es))
  | inr h ↦ rw h (max_sequence-stream run es)
]

greatest-Numbered :
    (k : ℕ) (e : PersistedEvent) (s : List PersistedEvent)
    → Numbered k (e ∷ s)
    → greatest (e ∷ s) ≡ k + length s
unfolding greatest
greatest-Numbered k e [] n = omega arith
greatest-Numbered k e (d ∷ s) n = omega (arith, greatest-Numbered (k + 1) d s n.2)

greatest-length : (s : List PersistedEvent) → Numbered 1 s → greatest s ≡ length s
unfolding greatest
greatest-length [] n = refl
greatest-length (e ∷ s) n = omega (arith, greatest-Numbered 1 e s n)

-- The sequence that the next event takes.
pub max_sequence-history :
    (run : Uuid) (es : List PersistedEvent)
    → Numbered 1 (stream run es)
    → max_sequence run es ≡ length (stream run es)
max_sequence-history run es n = max_sequence-stream run es ∙ greatest-length (stream run es) n

-- One more event, for the row's next version.
pub IsHistoryOf-append :
    {r : ScheduleRun} (r' : ScheduleRun) (s : List PersistedEvent) (e : PersistedEvent)
    → IsHistoryOf r s
    → r'.resource_version ≡ r.resource_version + 1
    → e.sequence ≡ length s + 1
    → e.status ≡ r'.status
    → e.resource_version ≡ r'.resource_version
    → IsHistoryOf r' (s ++ e ∷ [])
IsHistoryOf-append r' s e h v q st ev = record {
  numbered = Numbered-append 1 s e h.numbered (omega arith) (omega (arith, h.one_each));
  one_each = omega (arith, length-append s (e ∷ []), h.one_each);
  latest = last_status-append s e ∙ ap some st;
}

-- The event that opens a stream.
pub IsHistoryOf-open :
    (r : ScheduleRun) (e : PersistedEvent)
    → e.sequence ≡ 1
    → r.resource_version ≡ 1
    → e.status ≡ r.status
    → e.resource_version ≡ r.resource_version
    → IsHistoryOf r (e ∷ [])
unfolding last_status
IsHistoryOf-open r e q v st ev = record {
  numbered = (q, omega arith, tt);
  one_each = omega arith;
  latest = ap some st;
}
