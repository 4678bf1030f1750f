-- ===== src/Parser/Complete/Walk.antt =====
-- Runs of the loop of `parseData` (src/CDCMessageParser.cpp) through plain states: a text that the
-- transitions lead along, and the byte that leads into a finite state.
use mathlib.Core.Option.{some-injective}
use clibcdc.Base.{
  ==_false_iff, Option, [], ap, append_assoc, arith, false, find, get_or, get_or-append,
  if◌then◌else◌, length, length-append, lt→ltb, none, ok, refl, some, suc, sym, true, wrap32, zero,
  ℕ, ◌++◌, ◌+◌, ◌<◌, ◌==◌, ◌>>=◌, ◌^◌, ◌||◌, ◌∙◌, ◌∷◌, ◌≡◌, ◌≢◌,
}
use clibcdc.Parser.Machine.{
  MessageParser, after_step, continued, enter_state, parse_data, parse_fuel, parse_loop, parse_step,
  transition_step,
}
use clibcdc.Parser.States.{StateInfo, StatesInfo, is_finite_state, is_special_state, states_info}
use clibcdc.Parser.Transitions.{do_transition, initial_state, no_transition}
use clibcdc.Types.{ParseResult, Ustring, parse_not_complete, parse_ok}

-- The state behind a text, if no state on the way is special or finite.
unfoldable pub walk : ℕ → Ustring → Option ℕ
walk s [] = some s
walk s (c ∷ cs) =
    let rest = walk (do_transition s c) cs in
    if is_special_state s
      || (do_transition s c == no_transition || is_finite_state (do_transition s c))
    then none
    else rest

-- The first step of a walk.
pub record Step (s c : ℕ) (cs : Ustring) (t : ℕ) : Type 0 where
  pub plain : is_special_state s ≡ false
  pub moves : do_transition s c ≢ no_transition
  pub goes_on : is_finite_state (do_transition s c) ≡ false
  pub walks : walk (do_transition s c) cs ≡ some t

walk-Step : (s c : ℕ) (cs : Ustring) (t : ℕ) → walk s (c ∷ cs) ≡ some t → Step s c cs t
unfolding walk
walk-Step s c cs t w = ground arith

pub Step-walk : (s c : ℕ) (cs : Ustring) (t : ℕ) → Step s c cs t → walk s (c ∷ cs) ≡ some t
unfolding walk
Step-walk s c cs t st = rw (st.plain, (==_false_iff _ _).1 st.moves, st.goes_on, walk) st.walks

pub walk-append :
    (cs ds : Ustring) (s t u : ℕ)
    → walk s cs ≡ some t
    → walk t ds ≡ some u
    → walk s (cs ++ ds) ≡ some u
unfolding walk
walk-append [] ds s t u h k = rw (some-injective _ _ h) k
walk-append (c ∷ cs) ds s t u h k =
    let st = walk-Step s c cs t h in
    Step-walk s c (cs ++ ds) u (record {
      plain = st.plain;
      moves = st.moves;
      goes_on = st.goes_on;
      walks = walk-append cs ds (do_transition s c) t u st.walks k;
    })

module _ (info : StatesInfo) (bytes : Ustring) (small : length bytes < 2 ^ 31) where
  pub at_round :
      (fuel s pos : ℕ) (r : ParseResult)
      → pos < length bytes
      → parse_loop info bytes (suc fuel) s pos r
        ≡ (parse_step info bytes s pos r >>= after_step (parse_loop info bytes fuel))
  unfolding parse_loop
  at_round fuel s pos r h = rw (lt→ltb pos (length bytes) h, parse_loop) refl

  walk_round :
      (s pos c : ℕ) (r : ParseResult)
      → pos < length bytes
      → get_or bytes pos 0 ≡ c
      → is_special_state s ≡ false
      → do_transition s c ≢ no_transition
      → is_finite_state (do_transition s c) ≡ false
      → parse_step info bytes s pos r
        ≡ ok (continued (do_transition s c) (pos + 1) (record r { last_position = pos }))
  unfolding parse_step transition_step enter_state
  walk_round s pos c r h e p n f =
      let m : (do_transition s c == no_transition) ≡ false = (==_false_iff _ _).1 n in
      let w : wrap32 (pos + 1) ≡ pos + 1 = omega arith in
      rw (p, parse_step, e, transition_step, m, f, enter_state, w) refl

  pub walk-parse :
      (cs pre rest : Ustring) (s t pos fuel g : ℕ) (r : ParseResult)
      → walk s cs ≡ some t
      → bytes ≡ pre ++ (cs ++ rest)
      → pos ≡ length pre
      → fuel ≡ length cs + g
      → (l : ℕ) × (parse_loop info bytes fuel s pos r
          ≡ parse_loop info bytes g t (pos + length cs) (record r { last_position = l }))
  unfolding walk
  walk-parse [] pre rest s t pos fuel g r w e h f =
      let same : s ≡ t = some-injective _ _ w in
      let steps : fuel ≡ g = omega arith in
      let here : pos + 0 ≡ pos = omega arith in (r.last_position, rw (same, steps, here) refl)
  walk-parse (c ∷ cs) pre rest s t pos zero g r w e h f = absurd (omega arith)
  walk-parse (c ∷ cs) pre rest s t pos (suc fuel) g r w e h f =
      let st = walk-Step s c cs t w in
      let bound : pos < length bytes =
        omega (arith, ap length e, length-append pre (c ∷ (cs ++ rest))) in
      let here : get_or bytes pos 0 ≡ c = rw e (get_or-append pos pre (c ∷ (cs ++ rest)) 0 h) in
      let split : bytes ≡ (pre ++ c ∷ []) ++ (cs ++ rest) =
        e ∙ sym (append_assoc pre (c ∷ []) (cs ++ rest)) in
      let (l, go) =
        walk-parse cs (pre ++ c ∷ []) rest (do_transition s c) t (pos + 1) fuel g
          (record r { last_position = pos }) st.walks split
          (omega (arith, length-append pre (c ∷ []))) (omega arith) in
      let there : pos + 1 + length cs ≡ pos + suc (length cs) = omega arith in
      (
        l,
        at_round fuel s pos r bound
            ∙ rw (walk_round s pos c r bound here st.plain st.moves st.goes_on) (rw there at go),
      )

  pub final-parse :
      (s t pos c fuel last : ℕ) (r : ParseResult) (i : StateInfo)
      → 0 < fuel
      → pos < length bytes
      → get_or bytes pos 0 ≡ c
      → is_special_state s ≡ false
      → do_transition s c ≡ t
      → t ≢ no_transition
      → is_finite_state t ≡ true
      → find ◌==◌ t info ≡ some i
      → last ≡ pos
      → parse_loop info bytes fuel s pos r
        ≡ ok (record { msg_type = i.msg_type; result_type = parse_ok; last_position = last })
  unfolding parse_step transition_step enter_state
  final-parse s t pos c zero last r i z h e p d n f k q = absurd (omega arith)
  final-parse s t pos c (suc fuel) last r i z h e p d n f k q =
      let m : (t == no_transition) ≡ false = (==_false_iff _ _).1 n in
      at_round fuel s pos r h
      ∙ rw (p, parse_step, e, transition_step, d, m, f, k, enter_state, q) refl

-- `parse_data` from a run of its loop.
pub parse_data-loop :
    (p : MessageParser) (bytes : Ustring) (r : ParseResult)
    → parse_loop
        (states_info p.stray)
        bytes
        (parse_fuel bytes)
        initial_state
        0
        (record (p.last_parse_result) { result_type = parse_not_complete })
      ≡ ok r
    → parse_data p bytes ≡ ok (r, record p { last_parsed_data = bytes; last_parse_result = r })
unfolding parse_data
parse_data-loop p bytes r e = rw e refl
