-- ===== src/Hex/Less.antt =====
-- The rounds of `iqrfPgmPrepareMemBlock` of examples/PgmHex/PgmHex.cpp leave less and less to do.
use clibcdc.Base.{
  Bool, Result, arith, err, false, if◌then◌else◌, length, ok, refl, subst, suc, true, zero, ℕ, ◌*◌,
  ◌+◌, ◌<◌, ◌==◌, ◌>>=◌, ◌≡◌, ◌≤◌,
}
use clibcdc.Hex.{
  LineResult, ReadLine, end_of_file, file_data_error, file_data_ready, read_hex_file_line,
}
use clibcdc.Hex.Block.{
  after_read, at_end_of_file, block_ready, prepare_loop, prepare_mem_block, prepare_round,
  prepare_start, process_line,
}
use clibcdc.Hex.Ends.{Took, left, read_hex_file_line-Took}
use clibcdc.Hex.Image.{
  BlockResult, HexState, Round, again, eeeprom_block_ready, gave, is_block_ready,
  move_overflowed_data, pgm_success,
}
use clibcdc.Hex.Progress.{Fine, Fine-if, Fine-mono, bit, fresh, full, process_line-Fine, work}
use mathlib.Core.Bool.{false≢true}

at_end_of_file-Fine :
    (s : HexState) (m : ℕ)
    → s.data_in_buffer_ready ≡ false
    → 2 * length s.file + bit s.data_overflow ≤ m
    → Fine (fresh s) m (ok (at_end_of_file s))
unfolding at_end_of_file move_overflowed_data is_block_ready
at_end_of_file-Fine s m r l = by_block (s.memory_block_number == 0) s.data_overflow refl
  where
    by_block :
        (b o : Bool)
        → s.data_overflow ≡ o
        → Fine (bit b) m (
            ok (
              if b
              then (if o
                  then gave eeeprom_block_ready (move_overflowed_data s)
                  else gave pgm_success s)
              else gave (block_ready s.memory_block_number) s))
    by_block true true e = λ ready.
        let had : bit s.data_overflow ≡ 1 = rw e refl in
        let none_left : left s ≡ length s.file = rw r refl in omega (arith, had, none_left)
    by_block true false e = λ ready. absurd (false≢true ready)
    by_block false o e =
        λ ready. let none_left : left s ≡ length s.file = rw r refl in omega (arith, none_left)

after_read-Fine :
    (s : HexState) (r : ReadLine) (result : LineResult)
    → r.line_result ≡ result
    → s.data_in_buffer_ready ≡ false
    → Took s.file s.line_buffer r
    → Fine (fresh s) (2 * length s.file + bit s.data_overflow) (after_read s r)
unfolding after_read is_block_ready
after_read-Fine s r file_data_error q f (size, shorter, less) =
    rw q (λ ready. absurd (false≢true ready))
after_read-Fine s r end_of_file q f (size, shorter, less) = rw q (
    at_end_of_file-Fine (record s { line_buffer = r.line_buffer; file = r.file })
      (2 * length s.file + bit s.data_overflow) f (omega arith))
after_read-Fine s r file_data_ready q f (size, shorter, less) =
    let s' : HexState = record s {
      line_buffer = r.line_buffer;
      file = r.file;
      data_in_buffer_ready = true;
    } in
    rw q (
      Fine-mono (fresh s) (fresh s) (full s' + bit s.data_overflow)
        (2 * length s.file + bit s.data_overflow) (process_line s') (process_line-Fine s' refl)
        (omega (arith, less q)) (omega (arith, less q)))

prepare_round-Fine : (s : HexState) → Fine (fresh s) (work s) (prepare_round s)
unfolding prepare_round
prepare_round-Fine s =
    Fine-if (fresh s) (work s) s.data_in_buffer_ready _ _
      (λ e.
        let l : left s ≡ length s.file + 1 = rw e refl in
        let m : full s + bit s.data_overflow ≡ work s = omega (arith, l) in
        subst (λ m. Fine (fresh s) m (process_line s)) m (process_line-Fine s e))
      (λ e.
        let l : left s ≡ length s.file = rw e refl in
        let m : 2 * length s.file + bit s.data_overflow ≡ work s = omega (arith, l) in
        subst (λ m. Fine (fresh s) m (after_read s (read_hex_file_line s.file s.line_buffer))) m
          (after_read-Fine s (read_hex_file_line s.file s.line_buffer) _ refl e
            (read_hex_file_line-Took s.file s.line_buffer)))

-- A result that gives a block leaves less than `m`.
abbrev Less : ℕ → Result (BlockResult × HexState) → Type 0
Less m (ok (code, s)) = is_block_ready code ≡ true → work s < m
Less m (err e) = Unit

after_round-Less :
    (s : HexState) (m : ℕ) (next : HexState → Result (BlockResult × HexState)) (r : Result Round)
    → work s + 1 ≤ m + fresh s
    → Fine (fresh s) (work s) r
    → ((t : HexState) → work t + 1 ≤ m + fresh t → Less m (next t))
    → Less m (r >>= λ r. elim r [ gave code t ↦ ok (code, t) | again t ↦ next t ])
after_round-Less s m next (ok (gave code t)) h f k = λ ready. omega (arith, f ready)
after_round-Less s m next (ok (again t)) h f k = k t (ground arith)
after_round-Less s m next (err e) h f k = tt

prepare_loop-Less :
    (fuel : ℕ) (s : HexState) (m : ℕ) → work s + 1 ≤ m + fresh s → Less m (prepare_loop fuel s)
unfolding prepare_loop
prepare_loop-Less zero s m h = tt
prepare_loop-Less (suc fuel) s m h =
    after_round-Less s m (prepare_loop fuel) (prepare_round s) h (prepare_round-Fine s)
      (λ t k. prepare_loop-Less fuel t m k)

prepare_start-work :
    (s : HexState) → (work (prepare_start s) ≡ work s) × (fresh (prepare_start s) ≡ 1)
unfolding prepare_start
prepare_start-work s = (refl, refl)

read_ok :
    (s : HexState) (r : Result (BlockResult × HexState)) (code : BlockResult) (s' : HexState)
    → Less (work s) r
    → r ≡ ok (code, s')
    → is_block_ready code ≡ true
    → work s' < work s
read_ok s r code s' h e = subst (Less (work s)) e h

-- Each block that `prepare_mem_block` gives to be uploaded leaves less to do: twice the lines that
-- are still to be read or processed, and the data that have overflowed.
pub prepare_mem_block-progress :
    (s s' : HexState) (code : BlockResult)
    → prepare_mem_block s ≡ ok (code, s')
    → is_block_ready code ≡ true
    → work s' < work s
unfolding prepare_mem_block
prepare_mem_block-progress s s' code e =
    let (same, new) = prepare_start-work s in
    read_ok s _ code s'
      (prepare_loop-Less (length s.file + 2) (prepare_start s) (work s) (omega (arith, same, new)))
      e
