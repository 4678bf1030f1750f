-- ===== src/Hex/Stop.antt =====
-- Where `iqrfPgmPrepareMemBlock` of examples/PgmHex/PgmHex.cpp gives no block: at the end of the
-- file, and on a line that it refuses.
use clibcdc.Base.{
  ==_iff, Bool, Result, err, false, if◌then◌else◌, inl, inr, length, ok, refl, subst, suc, true,
  zero, ℕ, ◌+◌, ◌==◌, ◌>>=◌, ◌≡◌, ◌⊎◌,
}
use clibcdc.Hex.{
  LineResult, ReadLine, end_of_file, file_data_error, file_data_ready, read_hex_file_line,
}
use clibcdc.Hex.Block.{
  after_read, at_end_of_file, block_ready, prepare_loop, prepare_mem_block, prepare_round,
  prepare_start, process_line,
}
use clibcdc.Hex.Ends.{Rounds, here, later, line_of}
use clibcdc.Hex.Image.{
  BlockResult, HexState, Round, again, eeeprom_block_ready, eeprom_block_ready, flash_block_ready,
  gave, move_overflowed_data, pgm_error, pgm_success,
}
use clibcdc.Hex.Refusal.{
  HasNoLine, IsRefused, Refuses, block_ready-Refuses, process_line-Refuses,
  read_hex_file_line-HasNoLine,
}

-- The line that is to be processed, in a round that begins in `s`.
abbrev pub next_line : HexState → ReadLine
next_line s = read_hex_file_line s.file s.line_buffer

-- Why a round that begins in `s` gives no block: success says that no line is left, no block is
-- begun and no data have overflowed, and an error that a line could not be read, or not be taken.
abbrev pub Why : HexState → BlockResult → HexState → Type 0
Why s pgm_success t =
    (s.data_in_buffer_ready ≡ false)
    × HasNoLine s.file
    × (t.memory_block_number ≡ 0)
    × (t.data_overflow ≡ false)
Why s pgm_error t =
    ((s.data_in_buffer_ready ≡ false) × ((next_line s).line_result ≡ file_data_error))
    ⊎ IsRefused s.hi_address (line_of s)
Why s _ t = Unit

-- What a round that begins in `s` gives has its reason.
abbrev Because : HexState → Result Round → Type 0
Because s (ok (gave code t)) = Why s code t
Because s _ = Unit

Refuses-Because :
    (s : HexState) (P : Type 0) (r : Result Round)
    → (P → IsRefused s.hi_address (line_of s))
    → Refuses P r
    → Because s r
Refuses-Because s P (ok (gave pgm_success t)) f h = absurd h
Refuses-Because s P (ok (gave pgm_error t)) f h = inr (f h)
Refuses-Because s P (ok (gave flash_block_ready t)) f h = tt
Refuses-Because s P (ok (gave eeprom_block_ready t)) f h = tt
Refuses-Because s P (ok (gave eeeprom_block_ready t)) f h = tt
Refuses-Because s P (ok (again t)) f h = tt
Refuses-Because s P (err e) f h = tt

at_end_of_file-Because :
    (s t : HexState)
    → s.data_in_buffer_ready ≡ false
    → HasNoLine s.file
    → Because s (ok (at_end_of_file t))
unfolding at_end_of_file
at_end_of_file-Because s t r n =
    by_block (t.memory_block_number == 0) t.data_overflow (λ e. (==_iff _ _).0 e) refl
  where
    by_block :
        (b o : Bool)
        → (b ≡ true → t.memory_block_number ≡ 0)
        → t.data_overflow ≡ o
        → Because s (
            ok (
              if b
              then (if o
                  then gave eeeprom_block_ready (move_overflowed_data t)
                  else gave pgm_success t)
              else gave (block_ready t.memory_block_number) t))
    by_block true true f e = tt
    by_block true false f e = (r, n, f refl, e)
    by_block false o f e =
        Refuses-Because s ⊥ (ok (gave (block_ready t.memory_block_number) t)) (λ x. absurd x)
          (block_ready-Refuses ⊥ t.memory_block_number t)

after_read-Because :
    (s : HexState) (result : LineResult)
    → (next_line s).line_result ≡ result
    → s.data_in_buffer_ready ≡ false
    → Because s (after_read s (next_line s))
unfolding after_read
after_read-Because s file_data_error q e = rw q (inl (e, q))
after_read-Because s end_of_file q e =
    rw q (at_end_of_file-Because s _ e (read_hex_file_line-HasNoLine s.file s.line_buffer q))
after_read-Because s file_data_ready q e =
    let s' : HexState = record s {
      line_buffer = (next_line s).line_buffer;
      file = (next_line s).file;
      data_in_buffer_ready = true;
    } in
    rw q (
      Refuses-Because s (IsRefused s.hi_address s'.line_buffer) (process_line s') (λ p. rw e p)
        (process_line-Refuses s'))

Because-if :
    (s : HexState) (b : Bool) (r r' : Result Round)
    → (b ≡ true → Because s r)
    → (b ≡ false → Because s r')
    → Because s (if b then r else r')
Because-if s true r r' f g = f refl
Because-if s false r r' f g = g refl

prepare_round-Because : (s : HexState) → Because s (prepare_round s)
unfolding prepare_round
prepare_round-Because s =
    Because-if s s.data_in_buffer_ready _ _
      (λ e.
        Refuses-Because s (IsRefused s.hi_address s.line_buffer) (process_line s) (λ p. rw e p)
          (process_line-Refuses s))
      (λ e. after_read-Because s _ refl e)

-- The loop from `s` ends in a round that has its reason.
abbrev pub Stopped : HexState → BlockResult → HexState → Type 0
Stopped s code t = (u : HexState) × Rounds s u × Why u code t

abbrev StoppedBlock : HexState → Result (BlockResult × HexState) → Type 0
StoppedBlock s (ok (code, t)) = Stopped s code t
StoppedBlock s (err e) = Unit

StoppedBlock-later :
    (s t : HexState) (r : Result (BlockResult × HexState))
    → prepare_round s ≡ ok (again t)
    → StoppedBlock t r
    → StoppedBlock s r
StoppedBlock-later s t (ok (code, t')) e (u, rounds, why) = (u, later e rounds, why)
StoppedBlock-later s t (err x) e h = tt

after_round-StoppedBlock :
    (s : HexState) (next : HexState → Result (BlockResult × HexState)) (r : Result Round)
    → prepare_round s ≡ r
    → Because s r
    → ((t : HexState) → StoppedBlock t (next t))
    → StoppedBlock s (r >>= λ r. elim r [ gave code t ↦ ok (code, t) | again t ↦ next t ])
after_round-StoppedBlock s next (ok (gave code t)) e h k = (s, here, h)
after_round-StoppedBlock s next (ok (again t)) e h k = StoppedBlock-later s t (next t) e (k t)
after_round-StoppedBlock s next (err x) e h k = tt

prepare_loop-StoppedBlock : (fuel : ℕ) (s : HexState) → StoppedBlock s (prepare_loop fuel s)
unfolding prepare_loop
prepare_loop-StoppedBlock zero s = tt
prepare_loop-StoppedBlock (suc fuel) s =
    after_round-StoppedBlock s (prepare_loop fuel) (prepare_round s) refl (prepare_round-Because s)
      (prepare_loop-StoppedBlock fuel)

-- A result of `prepare_mem_block` that is no block has its reason.
pub prepare_mem_block-Stopped :
    (s t : HexState) (code : BlockResult)
    → prepare_mem_block s ≡ ok (code, t)
    → Stopped (prepare_start s) code t
unfolding prepare_mem_block
prepare_mem_block-Stopped s t code e =
    subst (StoppedBlock (prepare_start s)) e
      (prepare_loop-StoppedBlock (length s.file + 2) (prepare_start s))
