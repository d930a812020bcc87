-- ===== src/DecisionLog/Queue.antt =====
-- No accepted entry is lost or reordered, and the queue stays within its buffer.
use native.Mathlib.Nat.{le_trans}
use mathlib.Core.List.{append-nil, append_assoc}
use adserver.DecisionLog.{
  panics, DecisionLogger, DecisionLog, run_once, Recorded, record_entry, run_logger, returns,
}
use adserver.Common.{
  refl, some, none, [], ◌∷◌, ◌≡◌, ◌++◌, ◌≤◌, ◌<◌, if◌then◌else◌, List, length, ltb, false, inl, inr,
  ◌∙◌, arith, sym, Bool-cases, length-append, ap, ltb→lt,
}

-- A logger as its constructor leaves it and its operations keep it.
pub record IsValid (d : DecisionLogger) : Type 0 where
  pub room : 0 < d.capacity
  pub bounded : length d.entries ≤ d.capacity

-- What happens to a logger, one event after another; a close is followed by no entry.
pub data Event : Type 0 where
  records : DecisionLog → Event
  writes : Event

-- The logger after a record that does not panic.
unfoldable pub after_record : DecisionLogger → Recorded → DecisionLogger
after_record d panics = d
after_record d (returns none taken) = d
after_record d (returns (some d') taken) = d'

unfoldable pub step : DecisionLogger → Event → DecisionLogger
unfolding after_record
step d (records entry) = after_record d (record_entry (some d) entry)
step d writes = run_logger d

unfoldable pub run_events : DecisionLogger → List Event → DecisionLogger
unfolding step
run_events d [] = d
run_events d (e ∷ es) = run_events (step d e) es

-- The entries that the logger takes in, in order: those that find room.
unfoldable pub taken : DecisionLogger → List Event → List DecisionLog
taken d [] = []
taken d (records entry ∷ es) =
    let rest = taken (step d (records entry)) es in
    if ltb (length d.entries) d.capacity then entry ∷ rest else rest
taken d (writes ∷ es) = taken (step d writes) es

-- What one event takes in.
abbrev taken_by : DecisionLogger → Event → List DecisionLog
taken_by d (records entry) = if ltb (length d.entries) d.capacity then entry ∷ [] else []
taken_by d writes = []

taken-cons :
    (d : DecisionLogger) (e : Event) (es : List Event)
    → taken d (e ∷ es) ≡ taken_by d e ++ taken (step d e) es
unfolding taken
taken-cons d (records entry) es = ground arith
taken-cons d writes es = refl

run_once-keeps :
    (d : DecisionLogger) (es : List DecisionLog)
    → d.entries ≡ es
    → ((run_once d es).written ++ (run_once d es).entries ≡ d.written ++ es)
      × ((run_once d es).capacity ≡ d.capacity)
      × (length (run_once d es).entries ≤ length es)
      × ((run_once d es).is_closed ≡ d.is_closed)
unfolding run_once
run_once-keeps d [] e = ground arith
run_once-keeps d (x ∷ es) e = (append_assoc d.written (x ∷ []) es, refl, omega arith, refl)

abbrev Keeps : DecisionLogger → Event → DecisionLogger → Type 0
Keeps d e d' =
    (d'.written ++ d'.entries ≡ (d.written ++ d.entries) ++ taken_by d e)
    × IsValid d'
    × (d'.is_closed ≡ false)

step-Keeps :
    (d : DecisionLogger) (e : Event) → IsValid d → d.is_closed ≡ false → Keeps d e (step d e)
unfolding step record_entry run_logger
step-Keeps d (records entry) v open_still = elim (Bool-cases (ltb (length d.entries) d.capacity)) [
  | inl room ↦
      rw (open_still, room)
        (
          sym (append_assoc d.written d.entries (entry ∷ [])),
          record {
            room = v.room;
            bounded = omega (arith, length-append d.entries (entry ∷ []), ltb→lt _ _ room);
          },
          refl,
        )
  | inr full ↦
      rw (open_still, full)
        (
          sym (append-nil (d.written ++ d.entries)),
          record { room = v.room; bounded = v.bounded },
          refl,
        )
]
step-Keeps d writes v open_still =
    let k = run_once-keeps d d.entries refl in
    (
      k.0 ∙ sym (append-nil (d.written ++ d.entries)),
      record { room = rw k.1 v.room; bounded = rw k.1 (le_trans k.2 v.bounded) },
      k.3 ∙ open_still,
    )

-- From an open logger whose queue is within its positive buffer, whatever order records and writes
-- come in: the entries that found room are written or queued exactly once each, in the order of
-- their records and behind the earlier ones, and the queue stays within the buffer.
pub run_events-taken :
    (d : DecisionLogger) (es : List Event)
    → IsValid d
    → d.is_closed ≡ false
    → let d' = run_events d es in
      (d'.written ++ d'.entries ≡ (d.written ++ d.entries) ++ taken d es) × IsValid d'
unfolding run_events taken
run_events-taken d [] v open_still = (sym (append-nil (d.written ++ d.entries)), v)
run_events-taken d (e ∷ es) v open_still =
    let k = step-Keeps d e v open_still in
    let rest = run_events-taken (step d e) es k.1 k.2 in
    (
      rest.0
          ∙ ap (λ l. l ++ taken (step d e) es) k.0
          ∙ append_assoc (d.written ++ d.entries) (taken_by d e) (taken (step d e) es)
          ∙ ap (◌++◌ (d.written ++ d.entries)) (sym (taken-cons d e es)),
      rest.1,
    )
