-- ===== src/Driver/Thread/Round.antt =====
-- One round of `processAllMessages` of src/CDCImpl.cpp.
use clibcdc.Base.{
  All-drop, Bool-cases, Option-cases, Result, [], ap, arith, drop, err, impl_exception, inl, inr,
  length, length-append, length-drop, none, ok, refl, subst, wrap32, ℕ, ◌+◌, ◌<◌, ◌>>=◌, ◌^◌, ◌∙◌,
  ◌∷◌, ◌≡◌, ◌≢◌, ◌≤◌,
}
use clibcdc.Driver.Receive.{
  deliver, discard, handle_message, mend_head, message_of, parse_next_message, process_async,
  process_message, set_new_msg_event,
}
use clibcdc.Driver.State.{Driver, EventApi, ParsedMessage, bad_message_format}
use clibcdc.Driver.Thread.Message.{
  Frame-async, IsDrained, IsLive, discard-drop, length-mend_head, length-message_of,
  mend_head-IsBytes, message_of-Frame,
}
use clibcdc.Parser.Complete.Async.{get_parsed_dr_data-async}
use clibcdc.Parser.Extract.{get_parsed_dr_data}
use clibcdc.Parser.Grammar.{Frame, Sound}
use clibcdc.Parser.Sound.{parse_data-Sound}
use clibcdc.Types.{
  ParseResult, ParseResultType, Ustring, msg_async, parse_bad_format, parse_not_complete, parse_ok,
  type_eq, type_eq_sound,
}

module _ (api : EventApi) where
  open api use {Event, signal}

  -- How a step of the thread ends: with a state as described, or as the signal of a new message
  -- failed.
  abbrev pub Survives : (Driver Event → Type 0) → Result (Driver Event) → Type 0
  Survives P (ok d) = P d
  Survives P (err e) = (e ≡ impl_exception) × (s : Event) × (signal s ≡ none)

  -- A state after a round of the loop.
  abbrev pub Reduced : ℕ → Driver Event → Type 0
  Reduced n d = IsLive d × (length d.received_bytes < n)

  signal-Survives :
      (P : Driver Event → Type 0) (d : Driver Event)
      → ((e : Event) → P (record d { new_msg_event = e }))
      → Survives P (set_new_msg_event api d)
  unfolding set_new_msg_event
  signal-Survives P d h = elim (Option-cases (signal d.new_msg_event)) [
    | inl e ↦ rw e (refl, d.new_msg_event, e)
    | inr (s, e) ↦ rw e (h s)
  ]

  process_async-Survives :
      (n : ℕ) (d : Driver Event) (m : ParsedMessage)
      → Reduced n d
      → length m.message < 2 ^ 31
      → Frame msg_async m.message
      → Survives (Reduced n) (process_async api d m)
  unfolding process_async deliver
  process_async-Survives n d m h small f =
      let (u, e) = Frame-async m.message f in
      let size : length m.message ≡ 6 + length u =
        omega (arith, ap length e, length-append u (0x0D ∷ [])) in
      let body : get_parsed_dr_data m.message ≡ ok u =
        ap get_parsed_dr_data e ∙ get_parsed_dr_data-async u (omega arith) in
      elim (Bool-cases d.listener) [ inl l ↦ rw (l, body) h | inr l ↦ rw l h ]

  process_message-Survives :
      (n : ℕ) (d : Driver Event) (m : ParsedMessage)
      → Reduced n d
      → length m.message < 2 ^ 31
      → Frame m.parse_result.msg_type m.message
      → Survives (Reduced n) (process_message api d m)
  unfolding process_message
  process_message-Survives n d m h small f =
      elim (Bool-cases (type_eq m.parse_result.msg_type msg_async)) [
        | inl e ↦ rw e (
            process_async-Survives n d m h small
              (subst (λ t. Frame t m.message) (type_eq_sound _ _ e) f))
        | inr e ↦ rw e (
            signal-Survives (Reduced n) (record d { last_response = m })
              (λ s. ((h.0.0, h.0.1, (small, inr f)), h.1)))
      ]

  pub handle_message-Survives :
      (d : Driver Event) (m : ParsedMessage)
      → IsLive d
      → 0 < length d.received_bytes
      → length d.received_bytes < 2 ^ 31
      → length m.message < 2 ^ 31
      → (m.parse_result.result_type ≡ parse_ok
          → (m.parse_result.last_position < length d.received_bytes)
            × Frame m.parse_result.msg_type m.message)
      → m.parse_result.result_type ≢ parse_not_complete
      → Survives (Reduced (length d.received_bytes)) (handle_message api d m)
  unfolding handle_message
  handle_message-Survives d m h pos fits small f n = by_type m.parse_result.result_type refl
    where
      cut :
          (k : ℕ)
          → 0 < k
          → Reduced
              (length d.received_bytes)
              (record d { received_bytes = drop k d.received_bytes })
      cut k low = (
        (All-drop (λ c. c < 256) k d.received_bytes h.0, h.1, h.2),
        omega (arith, length-drop k d.received_bytes),
      )

      by_type :
          (t : ParseResultType)
          → m.parse_result.result_type ≡ t
          → Survives (Reduced (length d.received_bytes)) (elim t [
            | parse_bad_format ↦ ok (record d {
              received_bytes = discard d.received_bytes m.parse_result.last_position;
              last_reception_error = bad_message_format;
            })
            | _ ↦
                process_message api
                  (record d {
                    received_bytes =
                        drop (wrap32 (m.parse_result.last_position + 1)) d.received_bytes;
                  })
                  m
          ])
      by_type parse_not_complete e = absurd (n e)
      by_type parse_ok e =
          let (last, frame) = f e in
          let end : wrap32 (m.parse_result.last_position + 1) ≡ m.parse_result.last_position + 1 =
            omega arith in
          rw end (
            process_message-Survives _ _ m (cut (m.parse_result.last_position + 1) (omega arith))
              small frame)
      by_type parse_bad_format e =
          let (k, g, low) = discard-drop d.received_bytes m.parse_result.last_position pos in
          rw g (cut k low)

  -- A buffer that was taken apart as far as it goes.
  abbrev pub Settled : ℕ → Driver Event → Type 0
  Settled n d = IsLive d × IsDrained d × (length d.received_bytes ≤ n)

  -- Parsing the next message: the driver with the mended buffer and the parser's result.
  abbrev pub looked : Driver Event → ParseResult → Driver Event
  looked d r = record d {
    received_bytes = mend_head d.received_bytes;
    msg_parser = record (d.msg_parser) {
      last_parsed_data = mend_head d.received_bytes;
      last_parse_result = r;
    };
  }

  pub parse_next_message-Sound :
      (d : Driver Event)
      → IsLive d
      → length d.received_bytes < 2 ^ 31
      → (r : ParseResult) × (parse_next_message d
          ≡ ok (
            record { message = message_of (mend_head d.received_bytes) r; parse_result = r },
            looked d r,
          ))
        × Sound (mend_head d.received_bytes) r
  unfolding parse_next_message
  parse_next_message-Sound d (v, clean, _) small =
      let (r, e, sound) =
        parse_data-Sound d.msg_parser (mend_head d.received_bytes)
          (omega (arith, length-mend_head d.received_bytes)) (mend_head-IsBytes _ v) clean in
      (r, rw e refl, sound)

  pub Survives-bind :
      (P Q : Driver Event → Type 0) (r : Result (Driver Event))
      (f : Driver Event → Result (Driver Event))
      → Survives P r
      → ((d : Driver Event) → P d → Survives Q (f d))
      → Survives Q (r >>= f)
  Survives-bind P Q (ok d) f h k = k d h
  Survives-bind P Q (err e) f h k = h

  -- A complete or malformed message, and the loop behind it.
  handled-Survives :
      (n : ℕ) (d : Driver Event) (r : ParseResult) (rest : Driver Event → Result (Driver Event))
      → IsLive d
      → 0 < length d.received_bytes
      → length d.received_bytes < 2 ^ 31
      → Sound (mend_head d.received_bytes) r
      → ((d1 : Driver Event)
          → Reduced (length d.received_bytes) d1
          → Survives (Settled n) (rest d1))
      → r.result_type ≢ parse_not_complete
      → Survives (Settled n) (
          handle_message api
            (looked d r)
            (record { message = message_of (mend_head d.received_bytes) r; parse_result = r })
          >>= rest)
  handled-Survives n d r rest h pos small sound k more =
      let bytes : Ustring = mend_head d.received_bytes in
      let size = length-mend_head d.received_bytes in
      let short = length-message_of bytes r in
      Survives-bind (Reduced (length bytes)) (Settled n) _ rest
        (handle_message-Survives (looked d r)
          (record { message = message_of bytes r; parse_result = r })
          (mend_head-IsBytes d.received_bytes h.0, h.1, h.2) (omega arith) (omega arith)
          (omega arith) (message_of-Frame bytes r (omega arith) sound) more)
        (λ d1 q. k d1 (q.0, omega arith))

  -- The rest of a round, on a result of the parser; `rest` is the loop from there.
  pub loop_round-Survives :
      (n : ℕ) (d : Driver Event) (r : ParseResult) (rest : Driver Event → Result (Driver Event))
      → IsLive d
      → 0 < length d.received_bytes
      → length d.received_bytes < 2 ^ 31
      → length d.received_bytes ≤ n
      → Sound (mend_head d.received_bytes) r
      → ((d1 : Driver Event)
          → Reduced (length d.received_bytes) d1
          → Survives (Settled n) (rest d1))
      → (t : ParseResultType) → r.result_type ≡ t
      → Survives (Settled n) (elim t [
        | parse_not_complete ↦ ok (looked d r)
        | _ ↦
            handle_message api
              (looked d r)
              (record { message = message_of (mend_head d.received_bytes) r; parse_result = r })
            >>= rest
      ])
  loop_round-Survives n d r rest h pos small bound sound k parse_not_complete e =
      let size = length-mend_head d.received_bytes in
      ((mend_head-IsBytes d.received_bytes h.0, h.1, h.2), inr (refl, e), omega arith)
  loop_round-Survives n d r rest h pos small bound sound k parse_ok e =
      handled-Survives n d r rest h pos small sound k (λ f. cc)
  loop_round-Survives n d r rest h pos small bound sound k parse_bad_format e =
      handled-Survives n d r rest h pos small sound k (λ f. cc)
