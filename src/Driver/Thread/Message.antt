-- ===== src/Driver/Thread/Message.antt =====
-- What the reading thread takes off its buffer: `parseNextMessage` and the discarding of malformed
-- messages of src/CDCImpl.cpp.
use mathlib.Core.Option.{some-injective}
use clibcdc.Base.{
  Bool-cases, [], arith, contains, drop, drop_all, false, inl, inr, length, length-take, refl,
  subst, suc, sym, take, true, wrap32, zero, ℕ, ◌+◌, ◌<◌, ◌==◌, ◌^◌, ◌∷◌, ◌≡◌, ◌≤◌, ◌⊎◌,
}
use clibcdc.Driver.Receive.{discard, is_empty, mend_head, message_of}
use clibcdc.Driver.State.{Driver, ParsedMessage}
use clibcdc.Parser.Complete.Async.{async_message}
use clibcdc.Parser.Extract.{find_byte, npos}
use clibcdc.Parser.Grammar.{
  Frame, Matches, Matches-text, Sound, counted, grammar, text, text_then, text_then-Matches,
}
use clibcdc.Types.{
  IsBytes, ParseResult, ParseResultType, Ustring, msg_async, msg_error, parse_bad_format,
  parse_not_complete, parse_ok,
}

-- A message of less than 2^31 bytes that the grammar knows under its type, or the empty one that
-- stands in before the first.
abbrev pub IsResponse : ParsedMessage → Type 0
IsResponse m =
    (length m.message < 2 ^ 31)
    × (((m.message ≡ []) × (m.parse_result.msg_type ≡ msg_error))
        ⊎ Frame m.parse_result.msg_type m.message)

-- The invariant of the thread.
abbrev pub IsLive : {E : Type 0} → Driver E → Type 0
IsLive d =
    IsBytes d.received_bytes × (contains d.msg_parser.stray 97 ≡ false) × IsResponse d.last_response

-- All that the buffer holds was parsed, and is no message yet.
abbrev pub IsDrained : {E : Type 0} → Driver E → Type 0
IsDrained d =
    (d.received_bytes ≡ [])
    ⊎ ((d.msg_parser.last_parsed_data ≡ d.received_bytes)
        × (d.msg_parser.last_parse_result.result_type ≡ parse_not_complete))

pub mend_head-IsBytes : (bytes : Ustring) → IsBytes bytes → IsBytes (mend_head bytes)
unfolding mend_head
mend_head-IsBytes [] v = v
mend_head-IsBytes (c ∷ cs) (v, vs) = (ground arith, vs)

pub length-mend_head : (bytes : Ustring) → length (mend_head bytes) ≡ length bytes
unfolding mend_head
length-mend_head [] = refl
length-mend_head (c ∷ cs) = refl

pub is_empty-nil : (bytes : Ustring) → is_empty bytes ≡ true → bytes ≡ []
unfolding is_empty
is_empty-nil [] h = refl
is_empty-nil (c ∷ cs) h = cc

pub is_empty-pos : (bytes : Ustring) → is_empty bytes ≡ false → 0 < length bytes
unfolding is_empty
is_empty-pos [] h = cc
is_empty-pos (c ∷ cs) h = omega arith

-- What is left behind the next carriage return is shorter, and of the same bytes.
pub discard-drop :
    (bytes : Ustring) (pos : ℕ)
    → 0 < length bytes
    → (n : ℕ) × (discard bytes pos ≡ drop n bytes) × (0 < n)
unfolding discard
discard-drop bytes pos h = elim (Bool-cases (find_byte bytes 0x0D pos == npos)) [
  | inl e ↦ (length bytes, rw e (sym (drop_all (length bytes) bytes (omega arith))), h)
  | inr e ↦ (find_byte bytes 0x0D pos + 1, rw e refl, omega arith)
]

pub length-message_of :
    (bytes : Ustring) (r : ParseResult) → length (message_of bytes r) ≤ length bytes
unfolding message_of
length-message_of bytes r = by_type r.result_type
  where
    by_type :
        (t : ParseResultType)
        → length (elim t as (λ _. Ustring) [
          | parse_ok ↦ take (wrap32 (r.last_position + 1)) bytes
          | parse_not_complete ↦ []
          | parse_bad_format ↦ []
        ])
          ≤ length bytes
    by_type parse_ok = omega (arith, length-take (wrap32 (r.last_position + 1)) bytes)
    by_type parse_not_complete = omega arith
    by_type parse_bad_format = omega arith

pub message_of-Frame :
    (bytes : Ustring) (r : ParseResult)
    → length bytes < 2 ^ 31
    → Sound bytes r
    → r.result_type ≡ parse_ok
    → (r.last_position < length bytes) × Frame r.msg_type (message_of bytes r)
unfolding message_of
message_of-Frame bytes r small sound e =
    let (last, frame) = sound e in
    let end : wrap32 (r.last_position + 1) ≡ r.last_position + 1 = omega arith in
    (last, rw (e, end) frame)

-- A message of the asynchronous type is the one made of some data.
pub Frame-async : (m : Ustring) → Frame msg_async m → (d : Ustring) × (m ≡ async_message d)
unfolding grammar
Frame-async m (zero, is, e, f) =
    let form : text_then (b'<' ∷ b'D' ∷ b'R' ∷ []) (counted ∷ text (0x0D ∷ [])) ≡ is =
      some-injective _ _ e in
    let g = subst (λ is. Matches is m) (sym form) f in
    let (r, e1, (b, t, e2, (n, d, e3, size), k)) =
      text_then-Matches (b'<' ∷ b'D' ∷ b'R' ∷ []) (counted ∷ text (0x0D ∷ [])) m g in
    let end = Matches-text (0x0D ∷ []) t k in (d, rw (e1, e2, e3, end, size) refl)
Frame-async m (suc k, is, e, f) = cc
