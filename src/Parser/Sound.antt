-- ===== src/Parser/Sound.antt =====
-- `parseData` of src/CDCMessageParser.cpp returns on every input, and what it accepts is a message
-- of the grammar, under its type.
mod Shapes
pub mod Info
mod Usb
mod Special
mod Round
use clibcdc.Base.{
  Bool-cases, List, Result, arith, contains, err, false, inl, inr, length, ltb, ltb→lt, ok, refl,
  suc, zero, ℕ, ◌<◌, ◌>>=◌, ◌^◌, ◌≡◌,
}
use clibcdc.Parser.Grammar.{Sound}
use clibcdc.Parser.Machine.{
  MessageParser, Outcome, after_step, continued, parse_data, parse_fuel, parse_loop, parse_step,
  returned,
}
use clibcdc.Parser.Sound.Round.{Progress, measure, parse_step-Progress}
use clibcdc.Parser.Sound.Shapes.{shape}
use clibcdc.Parser.Sound.Special.{Inv}
use clibcdc.Parser.States.{states_info}
use clibcdc.Parser.Transitions.{initial_state}
use clibcdc.Types.{IsBytes, ParseResult, Ustring, parse_not_complete}

module _ (bytes : Ustring) (small : length bytes < 2 ^ 31) (v : IsBytes bytes) where
  module _ (stray : List ℕ) (clean : contains stray 97 ≡ false) where
    parse_loop-Sound :
        (fuel s pos : ℕ) (r : ParseResult)
        → measure bytes small v s pos < fuel
        → r.result_type ≡ parse_not_complete
        → Inv bytes s pos
        → (r' : ParseResult) × (parse_loop (states_info stray) bytes fuel s pos r ≡ ok r')
          × Sound bytes r'
    unfolding parse_loop
    parse_loop-Sound zero s pos r m n i = absurd (omega arith)
    parse_loop-Sound (suc fuel) s pos r m n i = elim (Bool-cases (ltb pos (length bytes))) [
      | inr ends ↦ (r, rw (ends, parse_loop) refl, λ e. ground arith)
      | inl more ↦
          rw (more, parse_loop)
            (after (λ t next q l k j. parse_loop-Sound fuel t next q l k j)
              (parse_step (states_info stray) bytes s pos r)
              (parse_step-Progress bytes small v stray clean s pos r (ltb→lt _ _ more) n i))
    ]
      where
        after :
            ((t next : ℕ) (q : ParseResult)
              → measure bytes small v t next < fuel
              → q.result_type ≡ parse_not_complete
              → Inv bytes t next
              → (r' : ParseResult) × (parse_loop (states_info stray) bytes fuel t next q ≡ ok r')
                × Sound bytes r')
            → (o : Result Outcome) → Progress bytes small v s pos o
            → (r' : ParseResult) × ((o >>= after_step (parse_loop (states_info stray) bytes fuel))
                ≡ ok r')
              × Sound bytes r'
        after rest (err e) p = elim p [ ]
        after rest (ok (returned t)) p = (t, refl, p)
        after rest (ok (continued t next q)) (j, k, l) = rest t next q (omega arith) k j

-- On any data of less than 2^31 bytes `parse_data` returns a result, with no exception, no read
-- through `end()` and within its fuel, and the parser keeps that result and the data. If the
-- result is PARSE_OK, the last position lies in the data, and the data up to it, that byte
-- included, are a complete message of the grammar of the type that is reported. This holds unless
-- one of the words behind the array of the upload states is 97.
pub parse_data-Sound :
    (p : MessageParser) (bytes : Ustring)
    → length bytes < 2 ^ 31
    → IsBytes bytes
    → contains p.stray 97 ≡ false
    → (r : ParseResult) × (parse_data p bytes
        ≡ ok (r, record p { last_parsed_data = bytes; last_parse_result = r }))
      × Sound bytes r
unfolding parse_data shape
parse_data-Sound p bytes small v clean =
    let start : ParseResult = record (p.last_parse_result) { result_type = parse_not_complete } in
    let (r, e, sound) =
      parse_loop-Sound bytes small v p.stray clean (parse_fuel bytes) initial_state 0 start
        (ground arith) refl (inl (omega arith, refl)) in
    (r, rw e refl, sound)
