-- ===== src/Driver/Stream.antt =====
-- A stream of messages with an end of their own, as the reading thread of src/CDCImpl.cpp takes it apart.
pub mod Replies
use clibcdc.Base.{
  All, Bool, List, Result, [], ap, arith, drop-append, err, false, length, length-append, ok, refl,
  some, suc, sym, take-append, true, wrap32, zero, ℕ, ◌++◌, ◌+◌, ◌-◌, ◌<◌, ◌>>=◌, ◌^◌, ◌∙◌, ◌∷◌,
  ◌≡◌, ◌≢◌,
}
use clibcdc.Driver.Receive.{
  deliver, handle_message, is_empty, mend_head, message_of, parse_next_message,
  process_all_messages, process_async, process_loop, process_message, set_new_msg_event,
}
use clibcdc.Driver.State.{Delivery, Driver, EventApi, ParsedMessage}
use clibcdc.Parser.Complete.Async.{async_message, get_parsed_dr_data-async, parse_data-async}
use clibcdc.Parser.Complete.Replies.{Reads, accepted}
use clibcdc.Parser.Machine.{MessageParser}
use clibcdc.Parser.Special.{at}
use clibcdc.Types.{MessageType, Ustring, msg_async, type_eq_self, type_ne-eq}

-- A message of the device: a reply of a type, or data for the listener.
pub data Message : Type 0 where
  reply : MessageType → Ustring → Message
  async : Ustring → Message

abbrev pub text_of : Message → Ustring
text_of (reply t m) = m
text_of (async d) = async_message d

abbrev pub type_of : Message → MessageType
type_of (reply t m) = t
type_of (async d) = msg_async

abbrev pub StartsMessage : Ustring → Type 0
StartsMessage [] = ⊥
StartsMessage (c ∷ cs) = c ≡ b'<'

-- The parser finds the end of such a message, whatever stands behind it.
abbrev pub IsDelimited : Message → Type 0
IsDelimited (reply t m) =
    (t ≢ msg_async)
    × StartsMessage m
    × ((p : MessageParser) (rest : Ustring) → length (m ++ rest) < 2 ^ 31 → Reads p t m rest)
IsDelimited (async d) = (length d < 256) × (0 < length d)

-- What a client sees of the driver: the calls of the listener and the last response.
pub record View : Type 0 where
  pub delivered : List Delivery
  pub last_response : ParsedMessage

abbrev pub view : {E : Type 0} → Driver E → View
view d = record { delivered = d.delivered; last_response = d.last_response }

abbrev pub delivery : Ustring → Delivery
delivery d = record { user_data = d ++ 0 ∷ []; user_len = length d }

-- The specification: a reply replaces the last response, and data go to the listener, if any.
abbrev pub absorb : Bool → View → Message → View
absorb listener v (reply t m) = record v {
  last_response = record { message = m; parse_result = accepted t (length m - 1) };
}
absorb true v (async d) = record v { delivered = v.delivered ++ delivery d ∷ [] }
absorb false v (async d) = v

abbrev pub absorb_all : Bool → View → List Message → View
absorb_all listener v [] = v
absorb_all listener v (m ∷ ms) = absorb_all listener (absorb listener v m) ms

abbrev pub stream : List Message → Ustring
stream [] = []
stream (m ∷ ms) = text_of m ++ stream ms

-- The message is parsed off the head of the buffer.
delimited-Reads :
    (x : Message) (p : MessageParser) (rest : Ustring)
    → IsDelimited x
    → length (text_of x ++ rest) < 2 ^ 31
    → Reads p (type_of x) (text_of x) rest
delimited-Reads (reply t m) p rest (_, _, h) small = h p rest small
delimited-Reads (async d) p rest (h, k) small = parse_data-async p d rest h (omega arith) small

mend_head-text_of :
    (x : Message) (rest : Ustring)
    → IsDelimited x
    → mend_head (text_of x ++ rest) ≡ text_of x ++ rest
unfolding mend_head
mend_head-text_of (reply t []) rest (_, s, _) = elim s [ ]
mend_head-text_of (reply t (c ∷ cs)) rest (_, s, _) = rw s refl
mend_head-text_of (async d) rest h = refl

text_of-pos : (x : Message) → IsDelimited x → 0 < length (text_of x)
text_of-pos (reply t []) (_, s, _) = elim s [ ]
text_of-pos (reply t (c ∷ cs)) h = omega arith
text_of-pos (async d) h = omega arith

module _ (api : EventApi) where
  open api use {Event, signal}

  -- The driver after the parser has taken the message off.
  abbrev taken : Driver Event → Message → Ustring → Driver Event
  taken d x rest = record d {
    received_bytes = rest;
    msg_parser = record (d.msg_parser) {
      last_parsed_data = text_of x ++ rest;
      last_parse_result = accepted (type_of x) (length (text_of x) - 1);
    };
  }

  abbrev parsed : Message → ParsedMessage
  parsed x = record {
    message = text_of x;
    parse_result = accepted (type_of x) (length (text_of x) - 1);
  }

  -- The driver with a buffer.
  abbrev pub feed : Driver Event → Ustring → Driver Event
  feed d b = record d { received_bytes = b }

  parse_next_message-text :
      (d : Driver Event) (x : Message) (rest : Ustring)
      → IsDelimited x
      → length (text_of x ++ rest) < 2 ^ 31
      → parse_next_message (feed d (text_of x ++ rest))
        ≡ ok (parsed x, feed (taken d x rest) (text_of x ++ rest))
  unfolding parse_next_message message_of
  parse_next_message-text d x rest h small =
      let size = length-append (text_of x) rest in
      let pos = text_of-pos x h in
      let end : wrap32 (length (text_of x) - 1 + 1) ≡ length (text_of x) = omega arith in
      rw
        (
          mend_head-text_of x rest h,
          delimited-Reads x d.msg_parser rest h small,
          end,
          take-append (length (text_of x)) (text_of x) rest refl,
        )
        refl

  is_empty-text :
      (x : Message) (rest : Ustring) → IsDelimited x → is_empty (text_of x ++ rest) ≡ false
  unfolding is_empty
  is_empty-text (reply t []) rest (_, s, _) = elim s [ ]
  is_empty-text (reply t (c ∷ cs)) rest h = refl
  is_empty-text (async d) rest h = refl

  loop_round :
      (fuel : ℕ) (d : Driver Event) (x : Message) (rest : Ustring)
      → IsDelimited x
      → length (text_of x ++ rest) < 2 ^ 31
      → process_loop api (suc fuel) (feed d (text_of x ++ rest))
        ≡ (process_message api (taken d x rest) (parsed x) >>= process_loop api fuel)
  unfolding process_loop handle_message
  loop_round fuel d x rest h small =
      let size = length-append (text_of x) rest in
      let pos = text_of-pos x h in
      let end : wrap32 (length (text_of x) - 1 + 1) ≡ length (text_of x) = omega arith in
      rw
        (
          is_empty-text x rest h,
          process_loop,
          parse_next_message-text d x rest h small,
          end,
          drop-append (length (text_of x)) (text_of x) rest refl,
        )
        refl

  module _ (signals : (e : Event) → (e' : Event) × (signal e ≡ some e')) where
    -- What processing a message does to the driver.
    abbrev Absorbs : Driver Event → Message → Result (Driver Event) → Type 0
    Absorbs d x (err e) = ⊥
    Absorbs d x (ok d') =
        (view d' ≡ absorb d.listener (view d) x)
        × (d'.listener ≡ d.listener)
        × (d'.received_bytes ≡ d.received_bytes)

    deliver-Absorbs :
        (d : Driver Event) (u : Ustring)
        → length u < 256
        → (b : Bool) → d.listener ≡ b
        → Absorbs d (async u) (process_async api d (parsed (async u)))
    unfolding process_async deliver
    deliver-Absorbs d u h true e =
        let size : wrap32 (length u) ≡ length u = omega arith in
        rw (e, process_async, get_parsed_dr_data-async u (omega arith), size) (refl, refl, refl)
    deliver-Absorbs d u h false e = rw (e, process_async) (refl, refl, refl)

    process_message-Absorbs :
        (d : Driver Event) (x : Message)
        → IsDelimited x
        → Absorbs d x (process_message api d (parsed x))
    unfolding process_message set_new_msg_event
    process_message-Absorbs d (reply t m) (ne, _, _) =
        let (e, g) = signals d.new_msg_event in
        rw (type_ne-eq t msg_async ne, process_message, g) (refl, refl, refl)
    process_message-Absorbs d (async u) (h, _) =
        rw (type_eq_self msg_async, process_message) (deliver-Absorbs d u h d.listener refl)

    feed_self : (d : Driver Event) (b : Ustring) → d.received_bytes ≡ b → feed d b ≡ d
    feed_self d b e = λ i. record d { received_bytes = sym e i }

    abbrev AbsorbsAll : Driver Event → List Message → Result (Driver Event) → Type 0
    AbsorbsAll d ms r =
        (d' : Driver Event) × (r ≡ ok d')
        × (view d' ≡ absorb_all d.listener (view d) ms)
        × (d'.received_bytes ≡ [])

    absorb_step :
        (fuel : ℕ) (d : Driver Event) (x : Message) (ms : List Message) (r : Result (Driver Event))
        → Absorbs (taken d x (stream ms)) x r
        → ((d1 : Driver Event) → AbsorbsAll d1 ms (process_loop api fuel (feed d1 (stream ms))))
        → AbsorbsAll d (x ∷ ms) (r >>= process_loop api fuel)
    absorb_step fuel d x ms (err e) a rest = elim a [ ]
    absorb_step fuel d x ms (ok d1) (v, l, b) rest =
        let (d', e, w, n) = rest d1 in
        (
          d',
          rw (feed_self d1 (stream ms) b) at e,
          w ∙ ap (λ b. absorb_all b (view d1) ms) l ∙ ap (λ v. absorb_all d.listener v ms) v,
          n,
        )

    process_loop-absorb :
        (ms : List Message) (fuel : ℕ) (d : Driver Event)
        → All IsDelimited ms
        → length (stream ms) < fuel
        → length (stream ms) < 2 ^ 31
        → AbsorbsAll d ms (process_loop api fuel (feed d (stream ms)))
    process_loop-absorb ms zero d h f small = absurd (omega arith)
    process_loop-absorb [] (suc fuel) d h f small =
        unfold process_loop is_empty in (feed d [], refl, refl, refl)
    process_loop-absorb (x ∷ ms) (suc fuel) d (h, hs) f small =
        let size = length-append (text_of x) (stream ms) in
        let pos = text_of-pos x h in
        rw (loop_round fuel d x (stream ms) h small) (
          absorb_step fuel d x ms (process_message api (taken d x (stream ms)) (parsed x))
            (process_message-Absorbs (taken d x (stream ms)) x h)
            (λ d1. process_loop-absorb ms fuel d1 hs (omega arith) (omega arith)))

    -- A buffer of delimited messages is used up, in order and as the specification says: each reply
    -- is the last response until the next one comes, and each asynchronous message is one call of
    -- the listener, if there is one, with its data. The signals of new messages must succeed.
    pub process_all_messages-stream :
        (ms : List Message) (d : Driver Event)
        → All IsDelimited ms
        → length (stream ms) < 2 ^ 31
        → d.received_bytes ≡ stream ms
        → (d' : Driver Event) × (process_all_messages api d ≡ ok d')
          × (view d' ≡ absorb_all d.listener (view d) ms)
          × (d'.received_bytes ≡ [])
    unfolding process_all_messages
    process_all_messages-stream ms d h small e =
        let (d', g, v, n) =
          process_loop-absorb ms (length d.received_bytes + 1) d h (omega (arith, ap length e))
            small in
        (d', rw (feed_self d (stream ms) e) at g, v, n)
