-- ===== src/Driver/Receive.antt =====
-- The reading thread: `processMessage`, `processAllMessages` and `parseNextMessage` of
-- src/CDCImpl.cpp, `appendDataFromPort` and a round of `readMsgThread` of src/CDCImpl_Lin.cpp.
-- An `err` here is an exception that the thread does not catch, which ends the program.
use clibcdc.Base.{
  Bool, List, Result, [], drop, err, false, if◌then◌else◌, impl_exception, length, no_fuel, ok,
  or_fail, suc, take, true, wrap32, zero, ℕ, ◌++◌, ◌+◌, ◌-◌, ◌==◌, ◌>>=◌, ◌^◌, ◌∷◌,
}
use clibcdc.Driver.State.{Driver, EventApi, ParsedMessage, bad_message_format, reading_failed}
use clibcdc.Parser.Extract.{find_byte, get_parsed_dr_data, npos}
use clibcdc.Parser.Machine.{parse_data}
use clibcdc.Types.{
  ParseResult, Ustring, msg_async, parse_bad_format, parse_not_complete, parse_ok, type_eq,
}

-- `parseNextMessage`: a leading `>` is mended in the buffer, then the buffer is parsed.
unfoldable pub mend_head : Ustring → Ustring
mend_head [] = []
mend_head (c ∷ cs) = (if c == b'>' then b'<' else c) ∷ cs

unfoldable pub message_of : Ustring → ParseResult → Ustring
message_of buffer r = elim (r.result_type) [
  | parse_ok ↦ take (wrap32 (r.last_position + 1)) buffer
  | parse_not_complete ↦ []
  | parse_bad_format ↦ []
]

-- The message, with the driver's buffer and parser after the call.
unfoldable pub parse_next_message : {E : Type 0} → Driver E → Result (ParsedMessage × Driver E)
parse_next_message d = do
  let buffer = mend_head d.received_bytes
  (r, p) ← parse_data d.msg_parser buffer
  ok (
    record { message = message_of buffer r; parse_result = r },
    record d { received_bytes = buffer; msg_parser = p },
  )

-- What a round of the reading thread gets: bytes from the port, or a failed call.
pub data ReadEvent : Type 0 where
  chunk : Ustring → ReadEvent
  failed : ReadEvent

-- What is left of the buffer behind the next carriage return from `pos` on.
unfoldable pub discard : Ustring → ℕ → Ustring
discard buffer pos =
    let cr = find_byte buffer 0x0D pos in if cr == npos then [] else drop (cr + 1) buffer

unfoldable pub is_empty : Ustring → Bool
is_empty [] = true
is_empty (c ∷ cs) = false

module _ (api : EventApi) where
  open api use {Event, signal}

  -- `setMyEvent` on the event for new messages.
  unfoldable pub set_new_msg_event : Driver Event → Result (Driver Event)
  set_new_msg_event d = do
    e ← or_fail (signal d.new_msg_event) impl_exception
    ok (record d { new_msg_event = e })

  unfoldable pub deliver : Driver Event → Ustring → Driver Event
  deliver d user_data = record d {
    delivered =
        d.delivered
        ++ (record { user_data = user_data ++ 0 ∷ []; user_len = wrap32 (length user_data) }) ∷ [];
  }

  unfoldable pub process_async : Driver Event → ParsedMessage → Result (Driver Event)
  process_async d m =
      if d.listener
      then (do user_data ← get_parsed_dr_data m.message; ok (deliver d user_data))
      else ok d

  unfoldable pub process_message : Driver Event → ParsedMessage → Result (Driver Event)
  process_message d m =
      if type_eq m.parse_result.msg_type msg_async
      then process_async d m
      else set_new_msg_event (record d { last_response = m })

  -- The body of the loop on a message that is complete or malformed.
  unfoldable pub handle_message : Driver Event → ParsedMessage → Result (Driver Event)
  handle_message d m = elim (m.parse_result.result_type) [
    | parse_bad_format ↦ ok (record d {
      received_bytes = discard d.received_bytes m.parse_result.last_position;
      last_reception_error = bad_message_format;
    })
    | _ ↦
        process_message
          (record d {
            received_bytes = drop (wrap32 (m.parse_result.last_position + 1)) d.received_bytes;
          })
          m
  ]

  -- The loop, from the test of the buffer on; one round takes at least a byte away.
  unfoldable pub process_loop : ℕ → Driver Event → Result (Driver Event)
  process_loop zero d = err no_fuel
  process_loop (suc fuel) d = elim (is_empty d.received_bytes) [
    | true ↦ ok d
    | false ↦ do
      (m, d') ← parse_next_message d
      elim (m.parse_result.result_type) [
        | parse_not_complete ↦ ok d'
        | _ ↦ handle_message d' m >>= process_loop fuel
      ]
  ]

  unfoldable pub process_all_messages : Driver Event → Result (Driver Event)
  process_all_messages d = process_loop (length d.received_bytes + 1) d

  -- The driver that a complete message leaves if its signal fails: its bytes are gone, and it is
  -- the last response.
  unfoldable pub left_by_message : Driver Event → ParsedMessage → Driver Event
  left_by_message d m = elim (m.parse_result.result_type) [
    | parse_ok ↦
        let cut : Driver Event = record d {
          received_bytes = drop (wrap32 (m.parse_result.last_position + 1)) d.received_bytes;
        } in
        if type_eq m.parse_result.msg_type msg_async then cut else record cut { last_response = m }
    | _ ↦ d
  ]

  -- The driver that the loop leaves, also when a failed signal throws out of it. An exception of
  -- the parser is not one of these: the parser has none on a buffer.
  unfoldable pub left_by_loop : ℕ → Driver Event → Driver Event
  left_by_loop zero d = d
  left_by_loop (suc fuel) d = elim (is_empty d.received_bytes) [
    | true ↦ d
    | false ↦ elim (parse_next_message d) [
      | err e ↦ d
      | ok r ↦ elim (r.0.parse_result.result_type) [
        | parse_not_complete ↦ r.1
        | _ ↦ elim (handle_message (r.1) (r.0)) [
          | err e ↦ left_by_message (r.1) (r.0)
          | ok d' ↦ left_by_loop fuel d'
        ]
      ]
    ]
  ]

  unfoldable pub left_by_messages : Driver Event → Driver Event
  left_by_messages d = left_by_loop (length d.received_bytes + 1) d

  -- `appendDataFromPort`: the position of the first carriage return as an `int`, where -1 stands
  -- for none.
  unfoldable pub append_data_from_port : Driver Event → Ustring → Driver Event × ℕ
  append_data_from_port d bytes =
      let buffer = d.received_bytes ++ bytes in
      let cr = find_byte buffer 0x0D 0 in
      (record d { received_bytes = buffer }, (if cr == npos then 2 ^ 32 - 1 else wrap32 cr))

  -- The state after a CDCReceiveException that the thread catches.
  unfoldable pub stop_reception : Driver Event → Driver Event
  stop_reception d = record d { last_reception_error = reading_failed; reception_stopped = true }

  unfoldable pub read_round : Driver Event → ReadEvent → Result (Driver Event)
  read_round d failed = ok (stop_reception d)
  read_round d (chunk bytes) =
      let (d', message_end) = append_data_from_port d bytes in
      if message_end == 2 ^ 32 - 1 then ok d' else process_all_messages d'

  -- The rounds of the thread, which ends when its reception stops.
  unfoldable pub read_rounds : Driver Event → List ReadEvent → Result (Driver Event)
  read_rounds d [] = ok d
  read_rounds d (e ∷ es) =
      if d.reception_stopped then ok d else (read_round d e >>= λ d'. read_rounds d' es)
