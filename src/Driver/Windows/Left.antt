-- ===== src/Driver/Windows/Left.antt =====
-- The driver that `processAllMessages` of src/CDCImpl.cpp leaves when a signal fails in it.
use clibcdc.Base.{
  All-drop, Bool-cases, Result, arith, err, inl, inr, length, ok, refl, suc, wrap32, zero, ℕ, ◌+◌,
  ◌<◌, ◌>>=◌, ◌^◌, ◌≡◌, ◌≢◌,
}
use clibcdc.Driver.Receive.{
  handle_message, is_empty, left_by_loop, left_by_message, left_by_messages, mend_head, message_of,
  parse_next_message, process_all_messages, process_loop,
}
use clibcdc.Driver.State.{Driver, EventApi, ParsedMessage}
use clibcdc.Driver.Thread.Message.{
  IsLive, is_empty-pos, length-mend_head, length-message_of, mend_head-IsBytes, message_of-Frame,
}
use clibcdc.Driver.Thread.Round.{
  Reduced, Survives, handle_message-Survives, looked, parse_next_message-Sound,
}
use clibcdc.Hex.Ends.{left}
use clibcdc.Parser.Grammar.{Frame, Sound}
use clibcdc.Types.{
  ParseResult, ParseResultType, Ustring, msg_async, parse_bad_format, parse_not_complete, parse_ok,
  type_eq,
}

module _ (api : EventApi) where
  open api use {Event}

  -- What a step that returned leaves.
  abbrev Agrees : Result (Driver Event) → Driver Event → Type 0
  Agrees (ok d) left = left ≡ d
  Agrees (err e) left = Unit

  handled-Agrees :
      (left : Driver Event) (next : Driver Event → Result (Driver Event))
      (rest : Driver Event → Driver Event) (r : Result (Driver Event))
      → ((d : Driver Event) → Agrees (next d) (rest d))
      → Agrees (r >>= next) (elim r as (λ _. Driver Event) [ err e ↦ left | ok d ↦ rest d ])
  handled-Agrees left next rest (ok d) k = k d
  handled-Agrees left next rest (err e) k = tt

  parsed-Agrees :
      (d : Driver Event) (fuel : ℕ) (r : Result (ParsedMessage × Driver Event))
      → ((d1 : Driver Event) → Agrees (process_loop api fuel d1) (left_by_loop api fuel d1))
      → Agrees
          (r >>= λ p. elim (p.0.parse_result.result_type) as (λ _. Result (Driver Event)) [
            | parse_not_complete ↦ ok p.1
            | _ ↦ handle_message api p.1 p.0 >>= process_loop api fuel
          ])
          (elim r as (λ _. Driver Event) [
            | err e ↦ d
            | ok p ↦ elim (p.0.parse_result.result_type) as (λ _. Driver Event) [
              | parse_not_complete ↦ p.1
              | _ ↦ elim (handle_message api p.1 p.0) as (λ _. Driver Event) [
                | err e ↦ left_by_message api p.1 p.0
                | ok d' ↦ left_by_loop api fuel d'
              ]
            ]
          ])
  parsed-Agrees d fuel (err e) k = tt
  parsed-Agrees d fuel (ok (m, d1)) k = by_type m.parse_result.result_type
    where
      by_type :
          (t : ParseResultType)
          → Agrees
              (elim t as (λ _. Result (Driver Event)) [
                | parse_not_complete ↦ ok d1
                | _ ↦ handle_message api d1 m >>= process_loop api fuel
              ])
              (elim t as (λ _. Driver Event) [
                | parse_not_complete ↦ d1
                | _ ↦ elim (handle_message api d1 m) as (λ _. Driver Event) [
                  | err e ↦ left_by_message api d1 m
                  | ok d' ↦ left_by_loop api fuel d'
                ]
              ])
      by_type parse_not_complete = refl
      by_type parse_ok =
          handled-Agrees (left_by_message api d1 m) (process_loop api fuel) (left_by_loop api fuel)
            (handle_message api d1 m) k
      by_type parse_bad_format =
          handled-Agrees (left_by_message api d1 m) (process_loop api fuel) (left_by_loop api fuel)
            (handle_message api d1 m) k

  process_loop-Agrees :
      (fuel : ℕ) (d : Driver Event) → Agrees (process_loop api fuel d) (left_by_loop api fuel d)
  unfolding process_loop left_by_loop
  process_loop-Agrees zero d = tt
  process_loop-Agrees (suc fuel) d = elim (Bool-cases (is_empty d.received_bytes)) [
    | inl e ↦ rw (e, process_loop, left_by_loop) refl
    | inr e ↦
        rw (e, process_loop, left_by_loop)
          (parsed-Agrees d fuel (parse_next_message d) (process_loop-Agrees fuel))
  ]

  -- Where `processAllMessages` returns, what it leaves is what it returns.
  process_all_messages-Agrees :
      (d : Driver Event) → Agrees (process_all_messages api d) (left_by_messages api d)
  unfolding process_all_messages left_by_messages
  process_all_messages-Agrees d = process_loop-Agrees (length d.received_bytes + 1) d

  left_by_message-IsLive :
      (d : Driver Event) (m : ParsedMessage) (t : ParseResultType)
      → m.parse_result.result_type ≡ t
      → IsLive d
      → length d.received_bytes < 2 ^ 31
      → length m.message < 2 ^ 31
      → (t ≡ parse_ok → Frame m.parse_result.msg_type m.message)
      → IsLive (left_by_message api d m)
  unfolding left_by_message
  left_by_message-IsLive d m parse_not_complete e h small fits f = rw e h
  left_by_message-IsLive d m parse_bad_format e h small fits f = rw e h
  left_by_message-IsLive d m parse_ok e h small fits f =
      let k = wrap32 (m.parse_result.last_position + 1) in
      let v = All-drop (λ c. c < 256) k d.received_bytes h.0 in
      elim (Bool-cases (type_eq m.parse_result.msg_type msg_async)) [
        | inl a ↦ rw (e, a) (v, h.1, h.2)
        | inr a ↦ rw (e, a) (v, h.1, (fits, inr (f refl)))
      ]

  -- What a message leaves behind, and the loop behind it.
  handled-IsLive :
      (n : ℕ) (left : Driver Event) (rest : Driver Event → Driver Event) (r : Result (Driver Event))
      → IsLive left
      → ((d : Driver Event) → Reduced api n d → IsLive (rest d))
      → Survives api (Reduced api n) r
      → IsLive (elim r as (λ _. Driver Event) [ err e ↦ left | ok d ↦ rest d ])
  handled-IsLive n left rest (ok d) h k s = k d s
  handled-IsLive n left rest (err e) h k s = h

  -- A message that the parser did not find incomplete.
  message-IsLive :
      (fuel : ℕ) (d : Driver Event) (r : ParseResult)
      → IsLive d
      → 0 < length d.received_bytes
      → length d.received_bytes < 2 ^ 31
      → Sound (mend_head d.received_bytes) r
      → ((d1 : Driver Event)
          → Reduced api (length d.received_bytes) d1
          → IsLive (left_by_loop api fuel d1))
      → r.result_type ≢ parse_not_complete
      → let m : ParsedMessage = record {
        message = message_of (mend_head d.received_bytes) r;
        parse_result = r;
      } in
        IsLive (elim (handle_message api (looked api d r) m) as (λ _. Driver Event) [
          | err e ↦ left_by_message api (looked api d r) m
          | ok d' ↦ left_by_loop api fuel d'
        ])
  message-IsLive fuel d r h pos small sound k more =
      let bytes : Ustring = mend_head d.received_bytes in
      let m : ParsedMessage = record { message = message_of bytes r; parse_result = r } in
      let size = length-mend_head d.received_bytes in
      let short = length-message_of bytes r in
      let live : IsLive (looked api d r) = (mend_head-IsBytes d.received_bytes h.0, h.1, h.2) in
      let frame = message_of-Frame bytes r (omega arith) sound in
      handled-IsLive (length bytes) (left_by_message api (looked api d r) m) (left_by_loop api fuel)
        (handle_message api (looked api d r) m)
        (left_by_message-IsLive (looked api d r) m r.result_type refl live (omega arith)
          (omega arith) (λ e. (frame e).1))
        (λ d1 q. k d1 (q.0, omega arith))
        (handle_message-Survives api (looked api d r) m live (omega arith) (omega arith)
          (omega arith) frame more)

  -- A round of the loop, on a result of the parser.
  round-IsLive :
      (fuel : ℕ) (d : Driver Event)
      → IsLive d
      → length d.received_bytes < 2 ^ 31
      → (r : ParseResult) → Sound (mend_head d.received_bytes) r
      → 0 < length d.received_bytes
      → ((d1 : Driver Event)
          → Reduced api (length d.received_bytes) d1
          → IsLive (left_by_loop api fuel d1))
      → (t : ParseResultType) → r.result_type ≡ t
      → let m : ParsedMessage = record {
        message = message_of (mend_head d.received_bytes) r;
        parse_result = r;
      } in
        IsLive (elim t as (λ _. Driver Event) [
          | parse_not_complete ↦ looked api d r
          | _ ↦ elim (handle_message api (looked api d r) m) as (λ _. Driver Event) [
            | err e ↦ left_by_message api (looked api d r) m
            | ok d' ↦ left_by_loop api fuel d'
          ]
        ])
  round-IsLive fuel d h small r sound pos rest parse_not_complete e =
      (mend_head-IsBytes d.received_bytes h.0, h.1, h.2)
  round-IsLive fuel d h small r sound pos rest parse_ok e =
      message-IsLive fuel d r h pos small sound rest (λ f. cc)
  round-IsLive fuel d h small r sound pos rest parse_bad_format e =
      message-IsLive fuel d r h pos small sound rest (λ f. cc)

  left_by_loop-IsLive :
      (fuel : ℕ) (d : Driver Event)
      → IsLive d
      → length d.received_bytes < 2 ^ 31
      → IsLive (left_by_loop api fuel d)
  unfolding left_by_loop
  left_by_loop-IsLive zero d h small = h
  left_by_loop-IsLive (suc fuel) d h small = elim (Bool-cases (is_empty d.received_bytes)) [
    | inl e ↦ rw (e, left_by_loop) h
    | inr e ↦
        let (r, g, sound) = parse_next_message-Sound api d h small in
        rw (e, left_by_loop, g)
          (round-IsLive fuel d h small r sound (is_empty-pos _ e)
            (λ d1 q. left_by_loop-IsLive fuel d1 q.0 (omega (arith, q.1))) r.result_type refl)
  ]

  -- The invariant holds of the driver that `processAllMessages` leaves, also when it throws.
  pub left_by_messages-IsLive :
      (d : Driver Event)
      → IsLive d
      → length d.received_bytes < 2 ^ 31
      → IsLive (left_by_messages api d)
  unfolding left_by_messages
  left_by_messages-IsLive d h small = left_by_loop-IsLive (length d.received_bytes + 1) d h small
