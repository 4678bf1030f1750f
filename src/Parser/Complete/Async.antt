-- ===== src/Parser/Complete/Async.antt =====
-- Messages with asynchronous data: `<DR`, a length byte, a colon, the data and a carriage return.
use clibcdc.Base.{
  [], ap, append_assoc, arith, contains, false, find, get_or, get_or-append, leb, length,
  length-append, ltb, ok, refl, some, sub64, suc, take-append, true, wrap32, ℕ, ◌++◌, ◌+◌, ◌-◌, ◌<◌,
  ◌==◌, ◌^◌, ◌∙◌, ◌∷◌, ◌≡◌,
}
use clibcdc.Parser.Complete.Replies.{Reads, accepted}
use clibcdc.Parser.Complete.Walk.{
  Step-walk, at_round, final-parse, parse_data-loop, walk, walk-append, walk-parse,
}
use clibcdc.Parser.Extract.{get_parsed_dr_data, message_body, substr}
use clibcdc.Parser.Machine.{
  MessageParser, continued, enter_state, parse_fuel, parse_loop, parse_step, special_end,
  special_step,
}
use clibcdc.Parser.Sound.Info.{before_stray, states_info-known}
use clibcdc.Parser.Special.{asyn_data_end, proc_result, process_asyn_data, process_special_state}
use clibcdc.Parser.States.{
  StatesInfo, finite_states, insert_states_info, is_finite_state, is_special_state, special_states,
  states_info, states_info_head,
}
use clibcdc.Parser.Transitions.{do_transition, pair_eq, transition_map}
use clibcdc.Types.{ParseResult, Ustring, msg_async, parse_not_complete}

abbrev head : ℕ → Ustring
head n = b'<' ∷ b'D' ∷ b'R' ∷ n ∷ b':' ∷ []

-- The message that carries `user_data`.
abbrev pub async_message : Ustring → Ustring
async_message user_data = head (length user_data) ++ (user_data ++ 0x0D ∷ [])

any_48 : (n : ℕ) → do_transition 48 n ≡ 49
unfolding do_transition transition_map find pair_eq
any_48 n = ground arith

walk_start : walk 0 (b'<' ∷ b'D' ∷ b'R' ∷ []) ≡ some 48
unfolding walk do_transition transition_map find pair_eq contains is_special_state special_states
    is_finite_state finite_states
walk_start = refl

walk_colon : walk 49 (b':' ∷ []) ≡ some 50
unfolding walk do_transition transition_map find pair_eq contains is_special_state special_states
    is_finite_state finite_states
walk_colon = refl

state_48 : (is_special_state 48 ≡ false) × (is_finite_state 49 ≡ false)
unfolding is_special_state special_states is_finite_state finite_states contains
state_48 = (refl, refl)

walk_length : (n : ℕ) → walk 48 (n ∷ b':' ∷ []) ≡ some 50
walk_length n = Step-walk 48 n (b':' ∷ []) 50 (record {
  plain = state_48.0;
  moves = rw (any_48 n) (omega arith);
  goes_on = rw (any_48 n) state_48.1;
  walks = rw (any_48 n) walk_colon;
})

walk-head : (n : ℕ) → walk 0 (head n) ≡ some 50
walk-head n =
    walk-append (b'<' ∷ b'D' ∷ b'R' ∷ []) (n ∷ b':' ∷ []) 0 48 50 walk_start (walk_length n)

info_52 : find ◌==◌ 52 before_stray ≡ some (record { msg_type = msg_async; multi_type = false })
unfolding before_stray find insert_states_info states_info_head
info_52 = refl

state_51 :
    (is_special_state 51 ≡ false)
    × (do_transition 51 0x0D ≡ 52)
    × (is_finite_state 52 ≡ true)
    × (is_special_state 50 ≡ true)
    × (is_finite_state 51 ≡ false)
unfolding is_special_state special_states is_finite_state finite_states contains do_transition
    transition_map find pair_eq
state_51 = (refl, refl, refl, refl, refl)

module _ (p : MessageParser) (d rest : Ustring) where
  n : ℕ
  n = length d

  abbrev whole : Ustring
  whole = async_message d ++ rest

  whole_lem : whole ≡ head (length d) ++ (d ++ (0x0D ∷ rest))
  whole_lem = ap (λ xs. head (length d) ++ xs) (append_assoc d (0x0D ∷ []) rest)

  whole_size : length whole ≡ 6 + length d + length rest
  whole_size = omega (arith, length-append (d ++ 0x0D ∷ []) rest, length-append d (0x0D ∷ []))

  cr_at : get_or whole (5 + length d) 0 ≡ 0x0D
  cr_at = rw whole_lem (
      rw (← append_assoc (head (length d)) d (0x0D ∷ rest)) (
        get_or-append (5 + length d) (head (length d) ++ d) (0x0D ∷ rest) 0
          (omega (arith, length-append (head (length d)) d))))

  module _ (byte_sized : length d < 256) (more : 0 < length d + length rest)
      (small : length whole < 2 ^ 31) where
    asyn_round : process_special_state 50 whole 5 ≡ ok (proc_result 51 (4 + length d) false)
    unfolding process_special_state process_asyn_data asyn_data_end
    asyn_round =
        let open' : (5 == sub64 (length whole) 1) ≡ false = ground (arith, whole_size) in
        let fits : leb (length whole) (wrap32 (5 + length d)) ≡ false =
          ground (arith, whole_size) in
        let last : wrap32 (4 + length d) ≡ 4 + length d = omega arith in
        rw (open', process_asyn_data, fits) (rw last refl)

    asyn_step :
        (info : StatesInfo) (r : ParseResult)
        → parse_step info whole 50 5 r
          ≡ ok (continued 51 (5 + length d) (record r { last_position = 4 + length d }))
    unfolding parse_step special_step special_end enter_state
    asyn_step info r =
        let next : wrap32 (4 + length d + 1) ≡ 5 + length d = omega arith in
        rw (state_51.3, parse_step, asyn_round, state_51.4, enter_state, next) refl

    async_loop :
        let r = accepted msg_async (5 + length d) in
        parse_loop
          (states_info p.stray)
          whole
          (parse_fuel whole)
          0
          0
          (record (p.last_parse_result) { result_type = parse_not_complete })
        ≡ ok r
    async_loop =
        let info : StatesInfo = states_info p.stray in
        let start : ParseResult = record (p.last_parse_result) {
          result_type = parse_not_complete;
        } in
        let g : ℕ = parse_fuel whole - 6 in
        let fuel : parse_fuel whole ≡ 5 + suc g = omega (arith, whole_size) in
        let (l, go) =
          walk-parse info whole small (head (length d)) [] (d ++ (0x0D ∷ rest)) 0 50 0
            (parse_fuel whole) (suc g) start (walk-head (length d)) whole_lem refl fuel in
        let mid =
          at_round info whole small g 50 5 (record start { last_position = l })
            (omega (arith, whole_size)) in
        let end =
          final-parse info whole small 51 52 (5 + length d) 0x0D g (5 + length d)
            (record start { last_position = 4 + length d }) _ (omega (arith, whole_size))
            (omega (arith, whole_size)) cr_at state_51.0 state_51.1 (omega arith) state_51.2
            (states_info-known p.stray 52 _ info_52) refl in
        go ∙ mid ∙ rw (asyn_step info (record start { last_position = l })) end

-- A message with `user_data` of less than 256 bytes is accepted up to its carriage return, whatever
-- bytes stand behind it; if it carries no data, some byte has to.
pub parse_data-async :
    (p : MessageParser) (user_data rest : Ustring)
    → length user_data < 256
    → 0 < length user_data + length rest
    → length (async_message user_data ++ rest) < 2 ^ 31
    → Reads p msg_async (async_message user_data) rest
parse_data-async p d rest b m small =
    let last : length (async_message d) - 1 ≡ 5 + length d =
      omega (arith, length-append d (0x0D ∷ [])) in
    rw last (parse_data-loop p (async_message d ++ rest) _ (async_loop p d rest b m small))

-- The data that an asynchronous message carries, less than 2^31 bytes, are read back from it.
pub get_parsed_dr_data-async :
    (user_data : Ustring)
    → length user_data < 2 ^ 31
    → get_parsed_dr_data (async_message user_data) ≡ ok user_data
unfolding get_parsed_dr_data message_body substr
get_parsed_dr_data-async d small =
    let size : length (async_message d) ≡ 6 + length d =
      omega (arith, length-append d (0x0D ∷ [])) in
    let inside : ltb (length (async_message d)) 5 ≡ false = ground (arith, size) in
    let count : sub64 (sub64 (length (async_message d)) 1) 5 ≡ length d = omega (arith, size) in
    rw (inside, count) (ap ok (take-append (length d) d (0x0D ∷ []) refl))
