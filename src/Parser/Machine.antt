-- ===== src/Parser/Machine.antt =====
-- `CDCMessageParserPrivate::parseData` of src/CDCMessageParser.cpp. One round of its `for` loop is
-- `parse_step`; the loop runs on fuel, twice the size of the data and two, which suffices.
use clibcdc.Base.{
  List, Result, [], err, false, find, get_or, if◌then◌else◌, length, ltb, no_fuel, none, ok, some,
  suc, true, undefined, wrap32, zero, ℕ, ◌*◌, ◌+◌, ◌==◌, ◌>>=◌,
}
use clibcdc.Parser.Special.{StateProcResult, process_special_state}
use clibcdc.Parser.States.{StatesInfo, is_finite_state, is_special_state, states_info}
use clibcdc.Parser.Transitions.{do_transition, initial_state, no_transition}
use clibcdc.Types.{ParseResult, Ustring, msg_error, parse_bad_format, parse_not_complete, parse_ok}

-- The members that outlive a call. `stray` is fixed with the object: see States.
pub record MessageParser : Type 0 where
  pub stray : List ℕ
  pub last_parsed_data : Ustring
  pub last_parse_result : ParseResult

-- How a round ends: with a `return`, or in a state at the position of the next round.
pub data Outcome : Type 0 where
  returned : ParseResult → Outcome
  continued : ℕ → ℕ → ParseResult → Outcome

-- The end of a round in `state`; the position is that of the next round. The information on a
-- finite state is read through the iterator that `find` returns.
unfoldable pub enter_state : StatesInfo → ℕ → ℕ → ParseResult → Result Outcome
enter_state info state pos result =
    if is_finite_state state
    then elim (find ◌==◌ state info) [
      | none ↦ err undefined
      | some i ↦ ok (returned (record result { msg_type = i.msg_type; result_type = parse_ok }))
    ]
    else ok (continued state pos result)

-- The rest of a round in a special state, on the result of its processing.
unfoldable pub special_end : StatesInfo → ParseResult → StateProcResult → Result Outcome
special_end info result proc =
    let moved = record result { last_position = proc.last_position } in
    if proc.format_error
    then ok (returned (record moved { result_type = parse_bad_format }))
    else enter_state info proc.new_state (wrap32 (proc.last_position + 1)) moved

unfoldable pub special_step : StatesInfo → Ustring → ℕ → ℕ → ParseResult → Result Outcome
special_step info bytes state pos result = do
  proc ← process_special_state state bytes pos
  special_end info result proc

unfoldable pub transition_step : StatesInfo → Ustring → ℕ → ℕ → ParseResult → Result Outcome
transition_step info bytes state pos result =
    let state' = do_transition state (get_or bytes pos 0) in
    if state' == no_transition
    then ok (returned (record result { result_type = parse_bad_format }))
    else enter_state info state' (wrap32 (pos + 1)) result

unfoldable pub parse_step : StatesInfo → Ustring → ℕ → ℕ → ParseResult → Result Outcome
parse_step info bytes state pos result =
    let result' = record result { last_position = pos } in
    if is_special_state state
    then special_step info bytes state pos result'
    else transition_step info bytes state pos result'

-- What follows a round; `rest` is the loop from there.
abbrev pub after_step : (ℕ → ℕ → ParseResult → Result ParseResult) → Outcome → Result ParseResult
after_step rest (returned result) = ok result
after_step rest (continued state pos result) = rest state pos result

unfoldable pub parse_loop : StatesInfo → Ustring → ℕ → ℕ → ℕ → ParseResult → Result ParseResult
parse_loop info bytes zero state pos result = err no_fuel
parse_loop info bytes (suc fuel) state pos result = elim (ltb pos (length bytes)) [
  | true ↦ parse_step info bytes state pos result >>= after_step (parse_loop info bytes fuel)
  | false ↦ ok result
]

abbrev pub parse_fuel : Ustring → ℕ
parse_fuel bytes = 2 * length bytes + 2

unfoldable pub parse_data : MessageParser → Ustring → Result (ParseResult × MessageParser)
parse_data p bytes = do
  let start = record (p.last_parse_result) { result_type = parse_not_complete }
  result ← parse_loop (states_info p.stray) bytes (parse_fuel bytes) initial_state 0 start
  ok (result, record p { last_parsed_data = bytes; last_parse_result = result })

-- The constructor.
unfoldable pub new_parser : List ℕ → MessageParser
new_parser stray = record {
  stray = stray;
  last_parsed_data = [];
  last_parse_result = record {
    msg_type = msg_error;
    result_type = parse_not_complete;
    last_position = 0;
  };
}
