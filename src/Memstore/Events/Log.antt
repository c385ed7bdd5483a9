-- ===== src/Memstore/Events/Log.antt =====
-- The log of an execution is numbered 1, 2, 3, ... without a gap, and a reader that asks for what
-- comes after a number gets the rest of the log from there.
use rebuno.Prelude.{
  Bool-cases, List, String, [], ap, arith, dec_lt, drop, drop-nil, if◌then◌else◌, inl, inr, length,
  length-append, limit_to, none, refl, some, string_eq, subst, suc, take, take-nil, zero, ℕ, ℕ_eq,
  ◌++◌, ◌+◌, ◌-◌, ◌==◌, ◌∙◌, ◌∷◌, ◌≡◌, Option-cases,
}
use rebuno.Action.{err, ok, pure, ◌>>=◌}
use rebuno.Action.Laws.{bind-err, bind-ok, state-bind_pure}
use rebuno.Context.{Context}
use rebuno.Domain.Json.{RawMessage}
use rebuno.Domain.Records.{Event, EventRecord, Uuid, Err}
use rebuno.Memstore.Events.{
  append, append_batch, append_from, append_locked, event_at, events_after, get_events,
  get_latest_sequence, last_seq, log, next_seq, append_refusal,
}
use rebuno.Memstore.Store.{Store}
use rebuno.Prelude.Dict.{insert, lookup-insert}

-- The sequence numbers of the events are n, n + 1, ...
abbrev pub NumberedFrom : ℕ → List Event → Type 0
NumberedFrom n [] = Unit
NumberedFrom n (e ∷ l) = (e.event_seq ≡ n) × NumberedFrom (n + 1) l

-- Every log of the store is numbered from 1.
abbrev pub IsNumbered : Store → Type 0
IsNumbered s = (id : Uuid) → NumberedFrom 1 (log s id)

last_seq-NumberedFrom :
    (n : ℕ) (e : Event) (l : List Event) → NumberedFrom n (e ∷ l) → last_seq (e ∷ l) ≡ n + length l
unfolding last_seq
last_seq-NumberedFrom n e [] h = omega arith
last_seq-NumberedFrom n e (f ∷ l) h = omega (arith, last_seq-NumberedFrom (n + 1) f l h.1)

NumberedFrom-append :
    (n : ℕ) (l m : List Event)
    → NumberedFrom n l
    → NumberedFrom (n + length l) m
    → NumberedFrom n (l ++ m)
NumberedFrom-append n [] m h k = subst (λ i. NumberedFrom i m) (omega arith) k
NumberedFrom-append n (e ∷ l) m h k =
    (h.0, NumberedFrom-append (n + 1) l m h.1 (subst (λ i. NumberedFrom i m) (omega arith) k))

module _ (s : Store) (numbered : IsNumbered s) (id : Uuid) where
  next_seq-IsNumbered : next_seq id s ≡ length (log s id) + 1
  unfolding next_seq
  next_seq-IsNumbered = go (log s id) (numbered id)
    where
      go :
          (l : List Event)
          → NumberedFrom 1 l
          → elim l [ [] ↦ 1 | e ∷ r ↦ last_seq (e ∷ r) + 1 ] ≡ length l + 1
      go [] h = omega arith
      go (e ∷ l) h = omega (arith, last_seq-NumberedFrom 1 e l h)

-- The log after one write.
pub log-insert :
    (s : Store) (id j : Uuid) (l : List Event)
    → log (record s { events = insert id l s.events }) j ≡ (if id == j then l else log s j)
log-insert s id j l = ground (arith, lookup-insert id j l s.events)

append_locked-IsNumbered :
    (ctx : Context) (s : Store) (id : Uuid) (seq : ℕ) (r : EventRecord)
    → IsNumbered s
    → seq ≡ length (log s id) + 1
    → IsNumbered (append_locked ctx id seq r s).1
unfolding append_locked
append_locked-IsNumbered ctx s id seq r h q j = elim (Option-cases (append_refusal ctx r.payload)) [
  | inr (e, c) ↦ rw (append_locked, c) (h j)
  | inl c ↦
      rw (append_locked, c)
        (rw (log-insert s id j (log s id ++ (event_at ctx id seq r ∷ [])))
          (elim (Bool-cases (id == j)) [
            | inl same ↦ rw same (
                NumberedFrom-append 1 (log s id) (event_at ctx id seq r ∷ []) (h id)
                  (omega arith, tt))
            | inr other ↦ rw other (h j)
          ]))
]

pub append_locked-refused :
    (ctx : Context) (s : Store) (id : Uuid) (seq : ℕ) (r : EventRecord) (e : Err)
    → append_refusal ctx r.payload ≡ some e
    → append_locked ctx id seq r s ≡ (err e, s)
unfolding append_locked
append_locked-refused ctx s id seq r e c = rw (append_locked, c)

abbrev pub extended : Context → Store → Uuid → ℕ → EventRecord → Store
extended ctx s id seq r = record s {
  events = insert id (log s id ++ (event_at ctx id seq r ∷ [])) s.events;
}

pub append_locked-live :
    (ctx : Context) (s : Store) (id : Uuid) (seq : ℕ) (r : EventRecord)
    → append_refusal ctx r.payload ≡ none
    → append_locked ctx id seq r s ≡ (ok (event_at ctx id seq r), extended ctx s id seq r)
unfolding append_locked
append_locked-live ctx s id seq r c = rw (append_locked, c)

length-extended :
    (ctx : Context) (s : Store) (id : Uuid) (seq : ℕ) (r : EventRecord)
    → length (log (extended ctx s id seq r) id) ≡ length (log s id) + 1
length-extended ctx s id seq r =
    ap length (
      log-insert s id id (log s id ++ (event_at ctx id seq r ∷ []))
      ∙ ap (λ b. if b then log s id ++ (event_at ctx id seq r ∷ []) else log s id)
          ((ℕ_eq.beq_iff id id).1 refl))
    ∙ omega (arith, length-append (log s id) (event_at ctx id seq r ∷ []))

append_from-IsNumbered :
    (ctx : Context) (id : Uuid) (seq : ℕ) (rs : List EventRecord) (s : Store)
    → IsNumbered s
    → seq ≡ length (log s id) + 1
    → IsNumbered (append_from ctx id seq rs s).1
unfolding append_from
append_from-IsNumbered ctx id seq [] s h q = unfold pure in h
append_from-IsNumbered ctx id seq (r ∷ rs) s h q =
    let ev = event_at ctx id seq r in
    let t = extended ctx s id seq r in
    let after = λ (e : Event). append_from ctx id (seq + 1) rs >>= λ rest. pure (e ∷ rest) in
    elim (Option-cases (append_refusal ctx r.payload)) [
      | inr (e, c) ↦
          rw
            (bind-err (append_locked ctx id seq r) after s e s
              (append_locked-refused ctx s id seq r e c))
            h
      | inl c ↦
          rw
            (bind-ok (append_locked ctx id seq r) after s ev t
              (append_locked-live ctx s id seq r c))
            (rw (state-bind_pure (append_from ctx id (seq + 1) rs) (λ rest. ev ∷ rest) t) (
              append_from-IsNumbered ctx id (seq + 1) rs t
                (rw (append_locked-live ctx s id seq r c) at
                  (append_locked-IsNumbered ctx s id seq r h q))
                (omega (arith, length-extended ctx s id seq r))))
    ]

-- Appending a batch of events, whether or not the context is cancelled, keeps every log numbered 1, 2, 3, ... without a gap.
pub append_batch-IsNumbered :
    (ctx : Context) (id : Uuid) (rs : List EventRecord) (s : Store)
    → IsNumbered s
    → IsNumbered (append_batch ctx id rs s).1
unfolding append_batch
append_batch-IsNumbered ctx id rs s h =
    append_from-IsNumbered ctx id (next_seq id s) rs s h (next_seq-IsNumbered s h id)

pub append-IsNumbered :
    (ctx : Context) (id : Uuid) (type : String) (payload : RawMessage) (s : Store)
    → IsNumbered s
    → IsNumbered (append ctx id type payload s).1
unfolding append
append-IsNumbered ctx id type payload s h =
    append_locked-IsNumbered ctx s id (next_seq id s) (record { type = type; payload = payload }) h
      (next_seq-IsNumbered s h id)

events_after-all :
    (after n : ℕ) (l : List Event)
    → NumberedFrom n l
    → events_after after none l ≡ drop (suc after - n) l
unfolding events_after
events_after-all after n [] h = ground (arith, drop-nil {A = Event} (suc after - n))
events_after-all after n (e ∷ l) h = elim (dec_lt after n) [
  | yes p ↦ ground (arith, events_after-all after (n + 1) l)
  | no p ↦
      let q : suc after - n ≡ suc (suc after - (n + 1)) = omega arith in
      rw q (ground (arith, events_after-all after (n + 1) l))
]

events_after-some :
    (after n k : ℕ) (l : List Event)
    → NumberedFrom n l
    → events_after after (some k) l ≡ take k (drop (suc after - n) l)
unfolding events_after
events_after-some after n k [] h =
    ground (arith, drop-nil {A = Event} (suc after - n), take-nil {A = Event} k)
events_after-some after n zero (e ∷ l) h = refl
events_after-some after n (suc k) (e ∷ l) h = elim (dec_lt after n) [
  | yes p ↦
      ground (arith, events_after-some after (n + 1) k l, events_after-some after (n + 1) (suc k) l)
  | no p ↦
      let q : suc after - n ≡ suc (suc after - (n + 1)) = omega arith in
      rw q (ground (arith, events_after-some after (n + 1) (suc k) l))
]

-- If every log is numbered from 1, a read of one after some sequence number returns what follows that many events, cut to the limit if one is given: no event is skipped, repeated or reordered.
pub get_events-eq-drop :
    (id : Uuid) (after limit : ℕ) (s : Store)
    → IsNumbered s
    → get_events id after limit s ≡ limit_to limit (drop after (log s id))
unfolding get_events limit_to
get_events-eq-drop id after zero s h =
    let q : suc after - 1 ≡ after = omega arith in
    events_after-all after 1 (log s id) (h id) ∙ ap (λ n. drop n (log s id)) q
get_events-eq-drop id after (suc k) s h =
    let q : suc after - 1 ≡ after = omega arith in
    events_after-some after 1 (suc k) (log s id) (h id)
    ∙ ap (λ n. take (suc k) (drop n (log s id))) q

-- If every log is numbered from 1, the latest sequence number of an execution is the number of events in its log.
pub latest-eq-length :
    (id : Uuid) (s : Store) → IsNumbered s → get_latest_sequence id s ≡ length (log s id)
unfolding get_latest_sequence last_seq
latest-eq-length id s h = go (log s id) (h id)
  where
    go : (l : List Event) → NumberedFrom 1 l → last_seq l ≡ length l
    go [] k = refl
    go (e ∷ l) k = omega (arith, last_seq-NumberedFrom 1 e l k)
