-- ===== src/Parser/Complete/Replies.antt =====
-- The replies that are fixed texts, and the SPI status, which has one byte of content.
use clibcdc.Base.{
  Bool, List, Option, [], ap, append_assoc, arith, contains, false, find, get_elem?, get_or,
  get_or-append, length, length-append, none, not, ok, refl, some, suc, true, zero, ℕ, ◌&&◌, ◌++◌,
  ◌+◌, ◌-◌, ◌<◌, ◌==◌, ◌^◌, ◌∙◌, ◌∷◌, ◌≡◌, ◌≢◌,
}
use clibcdc.Parser.Complete.Walk.{final-parse, parse_data-loop, walk, walk-parse}
use clibcdc.Parser.Machine.{MessageParser, parse_data, parse_fuel}
use clibcdc.Parser.Sound.Info.{before_stray, states_info-known}
use clibcdc.Parser.States.{
  StateInfo, StatesInfo, finite_states, insert_states_info, is_finite_state, is_special_state,
  special_states, states_info, states_info_head,
}
use clibcdc.Parser.Transitions.{do_transition, no_transition, transition_map}
use clibcdc.Types.{
  MessageType, ParseResult, Ustring, msg_data_send, msg_error, msg_mode_normal, msg_mode_program,
  msg_res_tr, msg_res_usb, msg_switch, msg_test, msg_usb_conn, parse_not_complete, parse_ok,
  type_code, type_eq, type_eq_sound,
}

abbrev ok_text : Ustring
ok_text = b':' ∷ b'O' ∷ b'K' ∷ []

-- The replies with no content but their text, by their type and without the carriage return. Those
-- to uploads are not here: how they are read depends on the bytes behind them.
abbrev pub replies : List (MessageType × Ustring)
replies =
    (msg_error, b'<' ∷ b'E' ∷ b'R' ∷ b'R' ∷ [])
    ∷ (msg_test, b'<' ∷ b'O' ∷ b'K' ∷ [])
    ∷ (msg_res_usb, b'<' ∷ b'R' ∷ ok_text)
    ∷ (msg_res_tr, b'<' ∷ b'R' ∷ b'T' ∷ ok_text)
    ∷ (msg_usb_conn, b'<' ∷ b'B' ∷ ok_text)
    ∷ (msg_data_send, b'<' ∷ b'D' ∷ b'S' ∷ ok_text)
    ∷ (msg_data_send, b'<' ∷ b'D' ∷ b'S' ∷ b':' ∷ b'E' ∷ b'R' ∷ b'R' ∷ [])
    ∷ (msg_data_send, b'<' ∷ b'D' ∷ b'S' ∷ b':' ∷ b'B' ∷ b'U' ∷ b'S' ∷ b'Y' ∷ [])
    ∷ (msg_switch, b'<' ∷ b'U' ∷ ok_text)
    ∷ (msg_mode_program, b'<' ∷ b'P' ∷ b'E' ∷ ok_text)
    ∷ (msg_mode_program, b'<' ∷ b'P' ∷ b'E' ∷ b':' ∷ b'E' ∷ b'R' ∷ b'R' ∷ b'1' ∷ [])
    ∷ (msg_mode_normal, b'<' ∷ b'P' ∷ b'T' ∷ ok_text)
    ∷ (msg_mode_normal, b'<' ∷ b'P' ∷ b'T' ∷ b':' ∷ b'E' ∷ b'R' ∷ b'R' ∷ b'1' ∷ [])
    ∷ []

-- A result that accepts the message of a type that ends at a position.
abbrev pub accepted : MessageType → ℕ → ParseResult
accepted t last = record { msg_type = t; result_type = parse_ok; last_position = last }

-- The parser reads the message at the head of the data, whatever stands behind it.
abbrev pub Reads : MessageParser → MessageType → Ustring → Ustring → Type 0
Reads p t message rest =
    let r = accepted t (length message - 1) in
    parse_data p (message ++ rest)
    ≡ ok (r, record p { last_parsed_data = message ++ rest; last_parse_result = r })

-- How a text of plain transitions is read: up to a state, and from there by the carriage return.
record Route (t : MessageType) (cs : Ustring) : Type 0 where
  before : ℕ
  final : ℕ
  walks : walk 0 cs ≡ some before
  plain : is_special_state before ≡ false
  ends : do_transition before 0x0D ≡ final
  real : final ≢ no_transition
  finite : is_finite_state final ≡ true
  known : find ◌==◌ final before_stray ≡ some (record { msg_type = t; multi_type = false })

is_known : MessageType → Option StateInfo → Bool
is_known t none = false
is_known t (some i) = type_eq i.msg_type t && not i.multi_type

route_from : MessageType → Option ℕ → Bool
route_from t none = false
route_from t (some before) =
    let final = do_transition before 0x0D in
    not (is_special_state before)
    && (not (final == no_transition)
        && (is_finite_state final && is_known t (find ◌==◌ final before_stray)))

routes_ok : List (MessageType × Ustring) → Bool
routes_ok [] = true
routes_ok ((t, cs) ∷ rest) = route_from t (walk 0 cs) && routes_ok rest

replies_ok : routes_ok replies ≡ true
unfolding routes_ok route_from is_known type_code walk do_transition transition_map is_special_state
    special_states is_finite_state finite_states find contains before_stray insert_states_info
    states_info_head type_eq
replies_ok = refl

is_known_sound :
    (t : MessageType) (o : Option StateInfo)
    → is_known t o ≡ true
    → o ≡ some (record { msg_type = t; multi_type = false })
unfolding is_known
is_known_sound t none h = cc
is_known_sound t (some i) h = ground (arith, type_eq_sound i.msg_type t)

route_from-Route :
    (t : MessageType) (cs : Ustring) (o : Option ℕ)
    → walk 0 cs ≡ o
    → route_from t o ≡ true
    → Route t cs
unfolding route_from
route_from-Route t cs none e h = cc
route_from-Route t cs (some before) e h = record {
  before = before;
  final = do_transition before 0x0D;
  walks = e;
  plain = ground arith;
  ends = refl;
  real = ground arith;
  finite = ground arith;
  known = is_known_sound t _ (ground arith);
}

routes_ok-Route :
    (l : List (MessageType × Ustring)) (k : ℕ) (t : MessageType) (cs : Ustring)
    → routes_ok l ≡ true
    → get_elem? l k ≡ some (t, cs)
    → Route t cs
unfolding routes_ok
routes_ok-Route [] k t cs h e = cc
routes_ok-Route ((u, ds) ∷ l) zero t cs h e = route_from-Route t cs (walk 0 cs) refl (ground arith)
routes_ok-Route ((u, ds) ∷ l) (suc k) t cs h e = routes_ok-Route l k t cs (ground arith) e

module _ (p : MessageParser) (t : MessageType) (cs rest : Ustring) where
  abbrev whole : Ustring
  whole = (cs ++ 0x0D ∷ []) ++ rest

  pub whole_lem : whole ≡ cs ++ (0x0D ∷ rest)
  whole_lem = append_assoc cs (0x0D ∷ []) rest

  Route-Reads : Route t cs → length whole < 2 ^ 31 → Reads p t (cs ++ 0x0D ∷ []) rest
  Route-Reads route small =
      let size : length whole ≡ length cs + suc (length rest) =
        ap length whole_lem ∙ length-append cs (0x0D ∷ rest) in
      let start : ParseResult = record (p.last_parse_result) { result_type = parse_not_complete } in
      let info : StatesInfo = states_info p.stray in
      let (l, go) =
        walk-parse info whole small cs [] (0x0D ∷ rest) 0 route.before 0 (parse_fuel whole)
          (parse_fuel whole - length cs) start route.walks whole_lem refl (omega arith) in
      let here : get_or whole (0 + length cs) 0 ≡ 0x0D =
        rw whole_lem (get_or-append (0 + length cs) cs (0x0D ∷ rest) 0 (omega arith)) in
      let last : length (cs ++ 0x0D ∷ []) - 1 ≡ 0 + length cs =
        omega (arith, length-append cs (0x0D ∷ [])) in
      let end =
        final-parse info whole small route.before route.final (0 + length cs) 0x0D
          (parse_fuel whole - length cs) (length (cs ++ 0x0D ∷ []) - 1)
          (record start { last_position = l }) _ (omega arith) (omega arith) here route.plain
          route.ends route.real route.finite (states_info-known p.stray route.final _ route.known)
          last in
      parse_data-loop p whole _ (go ∙ end)

-- Each of the fixed replies, with any bytes behind it, is accepted under its type and up to its
-- carriage return.
pub parse_data-reply :
    (p : MessageParser) (k : ℕ) (t : MessageType) (cs rest : Ustring)
    → get_elem? replies k ≡ some (t, cs)
    → length ((cs ++ 0x0D ∷ []) ++ rest) < 2 ^ 31
    → Reads p t (cs ++ 0x0D ∷ []) rest
parse_data-reply p k t cs rest e small =
    Route-Reads p t cs rest (routes_ok-Route replies k t cs replies_ok e) small
