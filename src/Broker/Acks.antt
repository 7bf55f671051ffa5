-- ===== src/Broker/Acks.antt =====
-- The consumer's handler of messages in RabbitMQ.ts: acknowledgements are collected and sent for
-- ten messages at once, or by a timer. A message arrives, and is processed, in its own time, so the
-- two are steps that other steps may come between. The channels of all consumers share the buffer.
use startup_api.Base.{
  ℕ, ◌≡◌, refl, ap, sym, ◌∙◌, Bool, true, false, not, ◌||◌, Option, none, some, is_some, or_else,
  String, List, [], ◌∷◌, ◌++◌, map, length, leb, ltb, Bool-cases, inl, inr, if◌then◌else◌, arith,
}
use startup_api.Broker.Last.{last_from, last_of, has_some, has_some-append, last_of-append}
use mathlib.Core.Path.{subst}
use mathlib.Core.List.{append-nil, append_assoc}

abbrev pub ack_batch_size : ℕ
ack_batch_size = 10

-- A channel and a delivery tag on it.
abbrev pub Delivery : Type 0
Delivery = String × ℕ

-- `timer` is `ackTimer`, with the channel that it was set for, and `armed` says whether it is still to fire.
-- `acks` are the acknowledgements that were sent, each on a channel and up to a message; `covered`
-- are the messages that were in the buffer then. `thrown` says whether a channel has refused one.
pub record Deliveries : Type 0 where
  pub buffer : List Delivery
  pub timer : Option String
  pub armed : Bool
  pub acks : List (String × Delivery)
  pub covered : List Delivery
  pub rejected : List Delivery
  pub thrown : Bool

abbrev pub start : Deliveries
start = record {
  buffer = [];
  timer = none;
  armed = false;
  acks = [];
  covered = [];
  rejected = [];
  thrown = false;
}

-- Whether the channel is open, where something is sent on it, is part of the event.
pub data Event : Type 0 where
  arrives : Delivery → Bool → Event
  -- Processing throws, on a channel that is valid or not.
  fails : Delivery → Bool → Event
  fires : Bool → Event

-- `ack(lastMsg, true)`, which throws on a channel that is closed, before anything is reset.
unfoldable pub flush_acks : String → Bool → Deliveries → Deliveries
flush_acks channel is_open s = elim s.buffer [
  | [] ↦ s
  | first ∷ rest ↦
      if is_open
      then record s {
        acks = s.acks ++ (channel, last_from first rest) ∷ [];
        covered = s.covered ++ s.buffer;
        buffer = [];
        timer = none;
        armed = false;
      }
      else record s { thrown = true }
]

unfoldable pub receive : Delivery → Bool → Deliveries → Deliveries
unfolding flush_acks
receive message is_open s =
    let s' = record s { buffer = s.buffer ++ message ∷ [] } in
    if leb ack_batch_size (length s'.buffer)
    then flush_acks message.0 is_open s'
    else if is_some s.timer
    then s'
    else record s' { timer = some message.0; armed = true }

unfoldable pub reject : Delivery → Bool → Deliveries → Deliveries
reject message valid s = if valid then record s { rejected = s.rejected ++ message ∷ [] } else s

unfoldable pub step : Event → Deliveries → Deliveries
step (arrives message is_open) s = receive message is_open s
step (fails message valid) s = reject message valid s
step (fires is_open) s =
    if s.armed then flush_acks (or_else s.timer "") is_open (record s { armed = false }) else s

unfoldable pub run : List Event → Deliveries → Deliveries
run [] s = s
run (e ∷ es) s = run es (step e s)

-- The messages of a history, in the order of their arrival.
abbrev pub delivered : List Event → List Delivery
delivered [] = []
delivered (arrives message is_open ∷ es) = message ∷ delivered es
delivered (fails message valid ∷ es) = delivered es
delivered (fires is_open ∷ es) = delivered es

abbrev pub up_to : String × Delivery → Delivery
up_to (channel, message) = message

-- A message is covered or in the buffer, and `ackTimer` is set exactly while the buffer holds something;
-- the last acknowledgement is up to the last message that is covered. As long as no channel has refused an
-- acknowledgement, the buffer is not full, and a timer is to fire exactly while it holds something.
pub record Inv (messages : List Delivery) (s : Deliveries) : Type 0 where
  pub complete : s.covered ++ s.buffer ≡ messages
  pub timed : is_some s.timer ≡ has_some s.buffer
  pub acked : last_of (map up_to s.acks) ≡ last_of s.covered
  pub not_full : (s.thrown || ltb (length s.buffer) ack_batch_size) ≡ true
  pub armed : (s.thrown || (if s.armed then has_some s.buffer else not (has_some s.buffer))) ≡ true

map-append :
    (xs : List (String × Delivery)) (y : String × Delivery)
    → map up_to (xs ++ y ∷ []) ≡ map up_to xs ++ up_to y ∷ []
map-append [] y = refl
map-append (x ∷ xs) y = ap (λ ms. up_to x ∷ ms) (map-append xs y)

-- Sending an acknowledgement for what is in the buffer, where the timer is set.
flush_acks-Inv :
    (channel : String) (is_open : Bool) (first : Delivery) (rest messages : List Delivery)
    (s : Deliveries)
    → s.buffer ≡ first ∷ rest
    → s.covered ++ s.buffer ≡ messages
    → is_some s.timer ≡ true
    → last_of (map up_to s.acks) ≡ last_of s.covered
    → Inv messages (flush_acks channel is_open s)
unfolding flush_acks
flush_acks-Inv channel is_open first rest messages s b c t a =
    let last = last_from first rest in
    let sent : last_of (map up_to (s.acks ++ (channel, last) ∷ [])) ≡ some last =
      ap last_of (map-append s.acks (channel, last)) ∙ last_of-append (map up_to s.acks) last [] in
    let covers = last_of-append s.covered first rest in
    elim (Bool-cases is_open) [
      | inl o ↦ record {
        complete = ground (arith, b, o, c, append-nil (s.covered ++ s.buffer));
        timed = ground (arith, b, o);
        acked = ground (arith, b, o, sent, covers);
        not_full = ground (arith, b, o);
        armed = ground (arith, b, o);
      }
      | inr o ↦ record {
        complete = ground (arith, b, o, c);
        timed = ground (arith, b, o, t);
        acked = ground (arith, b, o, a);
        not_full = ground (arith, b, o);
        armed = ground (arith, b, o);
      }
    ]

flush_acks-empty :
    (channel : String) (is_open : Bool) (s : Deliveries)
    → s.buffer ≡ []
    → flush_acks channel is_open s ≡ s
unfolding flush_acks
flush_acks-empty channel is_open s b = ground (arith, b)

abbrev added : Delivery → Deliveries → Deliveries
added message s = record s { buffer = s.buffer ++ message ∷ [] }

receive-full :
    (message : Delivery) (is_open : Bool) (s : Deliveries)
    → leb ack_batch_size (length (s.buffer ++ message ∷ [])) ≡ true
    → receive message is_open s ≡ flush_acks message.0 is_open (added message s)
unfolding receive
receive-full message is_open s h = ground (arith, h)

receive_full :
    (message : Delivery) (is_open : Bool) (before messages : List Delivery) (s : Deliveries)
    → s.buffer ≡ before
    → leb ack_batch_size (length (s.buffer ++ message ∷ [])) ≡ true
    → s.covered ++ (s.buffer ++ message ∷ []) ≡ messages
    → is_some s.timer ≡ has_some s.buffer
    → last_of (map up_to s.acks) ≡ last_of s.covered
    → Inv messages (receive message is_open s)
receive_full message is_open [] messages s b f c t a = ground (arith, b, f)
receive_full message is_open (first ∷ rest) messages s b f c t a =
    rw (receive-full message is_open s f) (
      flush_acks-Inv message.0 is_open first (rest ++ message ∷ []) messages (added message s)
        (ap (λ xs. xs ++ message ∷ []) b) c (t ∙ ap has_some b) a)

receive_some :
    (message : Delivery) (is_open : Bool) (before messages : List Delivery) (s : Deliveries)
    → s.buffer ≡ before
    → leb ack_batch_size (length (s.buffer ++ message ∷ [])) ≡ false
    → s.covered ++ (s.buffer ++ message ∷ []) ≡ messages
    → Inv (s.covered ++ s.buffer) s
    → Inv messages (receive message is_open s)
unfolding receive
receive_some message is_open before messages s b f c h = record {
  complete = ground (arith, f, c);
  timed = ground (arith, f, has_some-append s.buffer message);
  acked = ground (arith, f, h.acked);
  not_full = ground (arith, f);
  armed = ground (arith, f, b, has_some-append s.buffer message, h.armed, h.timed);
}

receive-Inv :
    (message : Delivery) (is_open : Bool) (messages : List Delivery) (s : Deliveries)
    → Inv messages s
    → Inv (messages ++ message ∷ []) (receive message is_open s)
receive-Inv message is_open messages s h =
    let all : s.covered ++ (s.buffer ++ message ∷ []) ≡ messages ++ message ∷ [] =
      sym (append_assoc s.covered s.buffer (message ∷ []))
      ∙ ap (λ xs. xs ++ message ∷ []) h.complete in
    elim (Bool-cases (leb ack_batch_size (length (s.buffer ++ message ∷ [])))) [
      | inl f ↦ receive_full message is_open s.buffer _ s refl f all h.timed h.acked
      | inr f ↦
          receive_some message is_open s.buffer _ s refl f all
            (subst (λ m. Inv m s) (sym h.complete) h)
    ]

fires_some :
    (is_open : Bool) (buffer messages : List Delivery) (s : Deliveries)
    → s.buffer ≡ buffer
    → Inv messages s
    → s.armed ≡ true
    → Inv messages (flush_acks (or_else s.timer "") is_open (record s { armed = false }))
fires_some is_open [] messages s b h a =
    rw (flush_acks-empty (or_else s.timer "") is_open (record s { armed = false }) b) (record {
      complete = h.complete;
      timed = h.timed;
      acked = h.acked;
      not_full = h.not_full;
      armed = ground (arith, b);
    })
fires_some is_open (first ∷ rest) messages s b h a =
    flush_acks-Inv (or_else s.timer "") is_open first rest messages (record s { armed = false }) b
      h.complete (h.timed ∙ ap has_some b) h.acked

step-Inv :
    (e : Event) (messages : List Delivery) (s : Deliveries)
    → Inv messages s
    → Inv (messages ++ delivered (e ∷ [])) (step e s)
unfolding step reject
step-Inv (arrives message is_open) messages s h = receive-Inv message is_open messages s h
step-Inv (fails message valid) messages s h = rw (append-nil messages) (record {
  complete = ground (arith, h.complete);
  timed = ground (arith, h.timed);
  acked = ground (arith, h.acked);
  not_full = ground (arith, h.not_full);
  armed = ground (arith, h.armed);
})
step-Inv (fires is_open) messages s h = rw (append-nil messages) (elim (Bool-cases s.armed) [
  | inl a ↦ rw a (fires_some is_open s.buffer messages s refl h a)
  | inr a ↦ rw a (record {
    complete = h.complete;
    timed = h.timed;
    acked = h.acked;
    not_full = h.not_full;
    armed = ground (arith, a, h.armed);
  })
])

delivered-cons :
    (e : Event) (es : List Event) → delivered (e ∷ es) ≡ delivered (e ∷ []) ++ delivered es
delivered-cons (arrives message is_open) es = refl
delivered-cons (fails message valid) es = refl
delivered-cons (fires is_open) es = refl

run-Inv :
    (es : List Event) (messages : List Delivery) (s : Deliveries)
    → Inv messages s
    → Inv (messages ++ delivered es) (run es s)
unfolding run
run-Inv [] messages s h = rw (append-nil messages) h
run-Inv (e ∷ es) messages s h =
    subst (λ m. Inv m (run es (step e s)))
      (append_assoc messages (delivered (e ∷ [])) (delivered es)
        ∙ ap (λ m. messages ++ m) (sym (delivered-cons e es)))
      (run-Inv es (messages ++ delivered (e ∷ [])) (step e s) (step-Inv e messages s h))

-- However arrivals, failures and the timer are mixed, on whichever channels, open or closed: the messages that
-- were in the buffer when an acknowledgement was sent, followed by those in the buffer, are the messages that
-- arrived, in their order and none twice or left out; `ackTimer` is set exactly while the buffer holds any; and the
-- last acknowledgement is up to the last of the messages that have left the buffer. As long as no
-- channel has refused an acknowledgement, the buffer holds fewer than ten, and a timer is to fire exactly
-- while it holds any.
pub history-Inv : (es : List Event) → Inv (delivered es) (run es start)
history-Inv es =
    run-Inv es [] start
      (record { complete = refl; timed = refl; acked = refl; not_full = refl; armed = refl })

-- A timer that fires while its channel is closed leaves the message in the buffer, with no timer to come.
refused_stays :
    (message : Delivery) (valid : Bool)
    → let s = run (arrives message valid ∷ fires false ∷ fires true ∷ []) start in
      (s.buffer ≡ message ∷ []) × (s.armed ≡ false) × (s.acks ≡ [])
unfolding run step receive flush_acks
refused_stays message valid = (refl, refl, refl)

-- An acknowledgement is sent on the channel of the last message alone, though it empties the buffer of
-- the messages of another channel too.
other_channel_left_out :
    let s =
      run
        (arrives ("a", 1) true
          ∷ fires true
          ∷ arrives ("a", 2) true
          ∷ arrives ("b", 1) true
          ∷ fires true
          ∷ [])
        start in
    (s.acks ≡ ("a", ("a", 1)) ∷ ("a", ("b", 1)) ∷ [])
    × (s.covered ≡ ("a", 1) ∷ ("a", 2) ∷ ("b", 1) ∷ [])
unfolding run step receive flush_acks
other_channel_left_out = (refl, refl)
