-- ===== src/Driver/Windows/Lines.antt =====
-- The reading thread of src/CDCImpl_Win.cpp against that of src/CDCImpl_Lin.cpp.
use clibcdc.Base.{
  ==_self, All, Bool, List, Result, [], ap, append_assoc, arith, err, false, if_false,
  if◌then◌else◌, length, length-append, map, ok, refl, some, subst, sym, true, wrap32, ℕ, ◌++◌, ◌+◌,
  ◌-◌, ◌<◌, ◌==◌, ◌>>=◌, ◌^◌, ◌∙◌, ◌∷◌, ◌≡◌, ◌≢◌, ◌≤◌,
}
use clibcdc.Driver.Receive.{append_data_from_port, chunk, process_all_messages, read_round}
use clibcdc.Driver.State.{Driver, EventApi}
use clibcdc.Driver.Thread.{Within, read_round-Survives}
use clibcdc.Driver.Thread.Message.{IsLive}
use clibcdc.Driver.Thread.Round.{Survives}
use clibcdc.Driver.Windows.{
  ReadResult, WinRun, WinThread, after_messages, and_on, at_once, delayed, end_of_byte, push_byte,
  read_byte, read_loop, take_byte, threw, went_on,
}
use clibcdc.Hex.Ends.{left}
use clibcdc.Parser.Extract.{find_byte, find_from, npos}
use clibcdc.Types.{IsBytes, Ustring}

-- A byte that is read, at once or later.
abbrev pub read_of : Bool × ℕ → ReadResult
read_of (b, c) = if b then at_once (some c) else delayed (some c)

-- The reads of a line, the last of them of a carriage return.
abbrev pub line_reads : List (Bool × ℕ) → Bool → List ReadResult
line_reads line b = map read_of line ++ (read_of (b, 0x0D) ∷ [])

abbrev pub line_bytes : List (Bool × ℕ) → Ustring
line_bytes line = map (λ r. r.1) line ++ (0x0D ∷ [])

-- The driver after a step, or the exception.
abbrev pub driver_of : {E : Type 0} → WinRun E → Result (Driver E)
driver_of (went_on s) = ok s.driver
driver_of (threw e d) = err e

module _ (api : EventApi) where
  open api use {Event}

  -- The thread after a byte that ends no message.
  abbrev pub byte_taken : WinThread Event → ℕ → WinThread Event
  byte_taken s c = record s {
    driver = record s.driver { received_bytes = s.driver.received_bytes ++ (c ∷ []) };
    byte_read = c;
    bytes_total = 1;
  }

  read_byte-taken :
      (s : WinThread Event) (b : Bool) (c : ℕ)
      → read_byte api s (read_of (b, c)) ≡ end_of_byte api (byte_taken s c)
  unfolding read_byte take_byte push_byte
  read_byte-taken s true c = refl
  read_byte-taken s false c = refl

  read_loop-taken :
      (s : WinThread Event) (b : Bool) (c : ℕ) (rs : List ReadResult)
      → c ≢ 0x0D
      → read_loop api s (read_of (b, c) ∷ rs) ≡ read_loop api (byte_taken s c) rs
  unfolding read_loop end_of_byte
  read_loop-taken s b c rs h =
      let e : (c == 0x0D) ≡ false = ground arith in
      ap (λ r. and_on r (λ s'. if s'.bytes_total == 0 then went_on s' else read_loop api s' rs))
        (read_byte-taken s b c ∙ if_false (c == 0x0D) _ _ e)

  -- The thread that has handled a message.
  abbrev pub after_line : WinThread Event → Driver Event → WinThread Event
  after_line s d = record s { driver = d; byte_read = 0x0D; bytes_total = 1 }

  handled :
      (r : Result (Driver Event)) (s : WinThread Event) (left : Driver Event) (rs : List ReadResult)
      → driver_of (
          and_on
            (after_messages (byte_taken s 0x0D) left r)
            (λ s'. if s'.bytes_total == 0 then went_on s' else read_loop api s' rs))
        ≡ (r >>= λ d. driver_of (read_loop api (after_line s d) rs))
  handled (ok d) s left rs = refl
  handled (err e) s left rs = refl

  read_loop-end :
      (s : WinThread Event) (b : Bool) (rs : List ReadResult)
      → driver_of (read_loop api s (read_of (b, 0x0D) ∷ rs)) ≡ (
          process_all_messages api (byte_taken s 0x0D).driver >>= λ d.
          driver_of (read_loop api (after_line s d) rs))
  unfolding read_loop end_of_byte
  read_loop-end s b rs =
      ap
        (λ r.
          driver_of
            (and_on r (λ s'. if s'.bytes_total == 0 then went_on s' else read_loop api s' rs)))
        (read_byte-taken s b 0x0D)
      ∙ handled (process_all_messages api (byte_taken s 0x0D).driver) s _ rs

  pub read_loop-line :
      (line : List (Bool × ℕ)) (b : Bool) (s : WinThread Event) (rs : List ReadResult)
      → All (λ r. r.1 ≢ 0x0D) line
      → driver_of (read_loop api s (line_reads line b ++ rs)) ≡ (
          process_all_messages api
            (record s.driver { received_bytes = s.driver.received_bytes ++ line_bytes line })
          >>= λ d. driver_of (read_loop api (after_line s d) rs))
  read_loop-line [] b s rs a = read_loop-end s b rs
  read_loop-line ((i, c) ∷ line) b s rs (n, a) =
      ap driver_of (read_loop-taken s i c (line_reads line b ++ rs) n)
      ∙ read_loop-line line b (byte_taken s c) rs a
      ∙ ap
          (λ bytes. process_all_messages api (record s.driver { received_bytes = bytes }) >>= λ d.
            driver_of (read_loop api (after_line s d) rs))
          (append_assoc s.driver.received_bytes (c ∷ []) (line_bytes line))

find_from-le : (xs ys : Ustring) (i c : ℕ) → find_from (xs ++ (c ∷ ys)) i c ≤ i + length xs
unfolding find_from
find_from-le [] ys i c = let e = ==_self c in rw e (omega arith)
find_from-le (x ∷ xs) ys i c = ground (arith, find_from-le xs ys (i + 1) c)

-- Lines, byte by byte.
abbrev pub lines_reads : List (List (Bool × ℕ)) → List ReadResult
lines_reads [] = []
lines_reads (line ∷ lines) = line_reads line true ++ lines_reads lines

abbrev pub AreLines : List (List (Bool × ℕ)) → Type 0
AreLines [] = Unit
AreLines (line ∷ lines) = All (λ r. r.1 ≢ 0x0D) line × IsBytes (line_bytes line) × AreLines lines

abbrev pub lines_length : List (List (Bool × ℕ)) → ℕ
lines_length [] = 0
lines_length (line ∷ lines) = length (line_bytes line) + lines_length lines

module _ (api : EventApi) where
  open api use {Event}

  -- The Linux thread on a piece that ends in a carriage return looks at its buffer.
  read_round-line :
      (d : Driver Event) (bytes : Ustring)
      → length d.received_bytes + length bytes < 2 ^ 31
      → read_round api d (chunk (bytes ++ (0x0D ∷ [])))
        ≡ process_all_messages api
            (record d { received_bytes = d.received_bytes ++ (bytes ++ (0x0D ∷ [])) })
  unfolding read_round append_data_from_port find_byte
  read_round-line d bytes small =
      let buffer = d.received_bytes ++ (bytes ++ (0x0D ∷ [])) in
      let cr = find_from buffer 0 0x0D in
      let assoc = append_assoc d.received_bytes bytes (0x0D ∷ []) in
      let le : cr ≤ 0 + length (d.received_bytes ++ bytes) =
        subst (λ b. find_from b 0 0x0D ≤ 0 + length (d.received_bytes ++ bytes)) assoc
          (find_from-le (d.received_bytes ++ bytes) [] 0 0x0D) in
      let found : ((if cr == npos then 2 ^ 32 - 1 else wrap32 cr) == 2 ^ 32 - 1) ≡ false =
        ground (arith, le, length-append d.received_bytes bytes) in
      if_false ((if cr == npos then 2 ^ 32 - 1 else wrap32 cr) == 2 ^ 32 - 1) _ _ found

  -- The Linux thread on lines, each of which comes in one piece.
  abbrev pub line_rounds : Driver Event → List (List (Bool × ℕ)) → Result (Driver Event)
  line_rounds d [] = ok d
  line_rounds d (line ∷ lines) =
      read_round api d (chunk (line_bytes line)) >>= λ d'. line_rounds d' lines

  lines_step :
      (n : ℕ) (r : Result (Driver Event)) (rs : List ReadResult) (s : WinThread Event)
      (lines : List (List (Bool × ℕ)))
      → Survives api (Within api n) r
      → ((d : Driver Event)
          → Within api n d
          → driver_of (read_loop api (after_line api s d) rs) ≡ line_rounds d lines)
      → (r >>= λ d. driver_of (read_loop api (after_line api s d) rs))
        ≡ (r >>= λ d. line_rounds d lines)
  lines_step n (ok d) rs s lines h k = k d h
  lines_step n (err e) rs s lines h k = refl

  -- On lines that end in a carriage return and have no other, less than 2^31 bytes with those in
  -- the buffer, the two threads leave the same driver: that of Windows, which reads byte by byte,
  -- at once or later, and that of Linux, which gets each line in one piece. An exception in the one
  -- is the same exception in the other.
  pub read_loop-line_rounds :
      (lines : List (List (Bool × ℕ))) (s : WinThread Event)
      → IsLive s.driver
      → AreLines lines
      → length s.driver.received_bytes + lines_length lines < 2 ^ 31
      → driver_of (read_loop api s (lines_reads lines)) ≡ line_rounds s.driver lines
  unfolding read_loop
  read_loop-line_rounds [] s h v small = refl
  read_loop-line_rounds (line ∷ lines) s h (a, v, vs) small =
      let bytes = map (λ r. r.1) line in
      let size = length-append bytes (0x0D ∷ []) in
      let n = length s.driver.received_bytes + length (line_bytes line) in
      let linux = read_round-line s.driver bytes (omega arith) in
      read_loop-line api line true s (lines_reads lines) a
      ∙ lines_step n
          (process_all_messages api
            (record s.driver { received_bytes = s.driver.received_bytes ++ line_bytes line }))
          (lines_reads lines) s lines
          (subst (Survives api (Within api n)) linux
            (read_round-Survives api s.driver (line_bytes line) h v (omega arith)))
          (λ d q. read_loop-line_rounds lines (after_line api s d) q.0 vs (omega (arith, q.1)))
      ∙ ap (λ r. r >>= λ d. line_rounds d lines) (sym linux)
