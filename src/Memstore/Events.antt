-- ===== src/Memstore/Events.antt =====
-- internal/store/memstore/events.go. The Store's method and the transaction's differ only in who
-- holds the mutex, so one definition stands for both.
pub mod Log
pub mod Growth
use rebuno.Prelude.{
  List, Option, String, [], filter, if◌then◌else◌, length, ltb, none, some, string_eq, suc, zero, ℕ,
  ℕ_eq, ◌++◌, ◌+◌, ◌==◌, ◌∷◌,
}
use rebuno.Action.{Action, err, ok, pure, ◌>>=◌, ◌>>◌, Result}
use rebuno.Context.{Context}
use rebuno.Domain.Json.{RawMessage, is_malformed}
use rebuno.Domain.Records.{Event, EventRecord, Uuid, context_cancelled, Err, unmarshallable}
use rebuno.Memstore.Store.{Store}
use rebuno.Prelude.Dict.{insert, lookup}

-- s.events[execID]
abbrev pub log : Store → Uuid → List Event
log s id = elim (lookup id s.events) [ none ↦ [] | some l ↦ l ]

-- log[len(log)-1].EventSeq, or 0 for an empty log
unfoldable pub last_seq : List Event → ℕ
last_seq [] = 0
last_seq (e ∷ []) = e.event_seq
last_seq (e ∷ f ∷ l) = last_seq (f ∷ l)

-- GetLatestSequence
unfoldable pub get_latest_sequence : Uuid → Store → ℕ
get_latest_sequence id s = last_seq (log s id)

-- nextSeqLocked
unfoldable pub next_seq : Uuid → Store → ℕ
next_seq id s = elim (log s id) [ [] ↦ 1 | e ∷ l ↦ last_seq (e ∷ l) + 1 ]

abbrev pub event_at : Context → Uuid → ℕ → EventRecord → Event
event_at ctx id seq r = record {
  execution_id = id;
  event_seq = seq;
  type = r.type;
  payload = r.payload;
  occurred_at = ctx.now;
}

-- why appendLocked refuses: a cancelled context, or a payload that does not marshal
unfoldable pub append_refusal : Context → RawMessage → Option Err
append_refusal ctx payload =
    if ctx.cancelled
    then some context_cancelled
    else if is_malformed payload
    then some unmarshallable
    else none

-- appendLocked
unfoldable pub append_locked : Context → Uuid → ℕ → EventRecord → Action Store Event
append_locked ctx id seq r s =
    let ev = event_at ctx id seq r in
    elim (append_refusal ctx r.payload) [
      | some e ↦ (err e, s)
      | none ↦ (ok ev, record s { events = insert id (log s id ++ (ev ∷ [])) s.events })
    ]

-- Append
unfoldable pub append : Context → Uuid → String → RawMessage → Action Store Event
append ctx id type payload s =
    append_locked ctx id (next_seq id s) (record { type = type; payload = payload }) s

-- the loop of appendBatchLocked
unfoldable pub append_from : Context → Uuid → ℕ → List EventRecord → Action Store (List Event)
append_from ctx id seq [] = pure []
append_from ctx id seq (r ∷ rs) = do
  ev ← append_locked ctx id seq r
  rest ← append_from ctx id (seq + 1) rs
  pure (ev ∷ rest)

-- appendBatchLocked
unfoldable pub append_batch : Context → Uuid → List EventRecord → Action Store (List Event)
append_batch ctx id records s = append_from ctx id (next_seq id s) records s

-- the loop of getEventsLocked: `room` is how many more events the limit allows, none for no limit
unfoldable pub events_after : ℕ → Option ℕ → List Event → List Event
events_after after room [] = []
events_after after none (e ∷ l) =
    let rest = events_after after none l in if ltb after e.event_seq then e ∷ rest else rest
events_after after (some zero) (e ∷ l) = []
events_after after (some (suc n)) (e ∷ l) =
    if ltb after e.event_seq
    then e ∷ events_after after (some n) l
    else events_after after (some (suc n)) l

-- a limit of 0 is no limit
abbrev room_for : ℕ → Option ℕ
room_for zero = none
room_for (suc n) = some (suc n)

-- GetEvents
unfoldable pub get_events : Uuid → ℕ → ℕ → Store → List Event
unfolding events_after
get_events id after limit s = events_after after (room_for limit) (log s id)

-- CountByType
unfoldable pub count_by_type : Uuid → String → Store → ℕ
count_by_type id type s = length (filter (λ e. e.type == type) (log s id))
