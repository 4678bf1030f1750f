-- ===== src/Hex/Eeprom.antt =====
-- The size that a block for the internal EEPROM has in its image: examples/PgmHex/PgmHex.cpp.
use clibcdc.Base.{
  Bool, Bool-cases, Result, [], ap, arith, err, false, get_or, get_or-set_other, if◌then◌else◌, inl,
  inr, length, ltb, not, ok, refl, set, subst, suc, sym, true, undefined, zero, ℕ, ◌%◌, ◌&&◌, ◌*◌,
  ◌+◌, ◌/◌, ◌<◌, ◌==◌, ◌>>=◌, ◌^◌, ◌||◌, ◌∙◌, ◌∷◌, ◌≡◌, ◌≤◌,
}
use clibcdc.Hex.{
  LineResult, ReadLine, end_of_file, file_data_error, file_data_ready, read_hex_file_line,
}
use clibcdc.Hex.Block.{
  after_read, area_line, at_end_of_file, block_ready, clip, copy_flash, copy_serial, eeprom_line,
  flash_dest, flash_line, locate, prepare_loop, prepare_mem_block, prepare_round, prepare_start,
  process_line, serial_line, start_serial, within,
}
use clibcdc.Hex.Image.{
  BlockResult, HexState, Round, again, copy_line, eeeprom_block_ready, eeprom_block_ready,
  eeprom_max, eeprom_min, gave, licenced_mem_max_adr, licenced_mem_min_adr, load, main_mem_max_adr,
  main_mem_min_adr, memory_block_size, move_overflowed_data, pgm_error, pgm_success,
  serial_eeprom_max_adr, serial_eeprom_min_adr, set_word, store, wrap_dest,
}
use clibcdc.Types.{Ustring}
use mathlib.Core.Bool.{false≢true}

pub get_or-set_le : (xs : Ustring) (i v : ℕ) → get_or (set xs i v) i 0 ≤ v
get_or-set_le [] i v = omega arith
get_or-set_le (x ∷ xs) zero v = omega arith
get_or-set_le (x ∷ xs) (suc i) v = get_or-set_le xs i v

-- A block for the internal EEPROM has at most 32 bytes.
abbrev pub IsSmall : BlockResult → HexState → Type 0
IsSmall code s = code ≡ eeprom_block_ready → get_or s.memory_block 1 0 ≤ 32

abbrev Small : Result Round → Type 0
Small (ok (gave code s)) = IsSmall code s
Small (ok (again s)) = Unit
Small (err e) = Unit

Small-if :
    (b : Bool) (r r' : Result Round)
    → Small r
    → (b ≡ false → Small r')
    → Small (if b then r else r')
Small-if true r r' f g = f
Small-if false r r' f g = g refl

Small-if_any : (b : Bool) (r r' : Result Round) → Small r → Small r' → Small (if b then r else r')
Small-if_any true r r' f g = f
Small-if_any false r r' f g = g

Small-bind :
    {A : Type 0} (r : Result A) (f : A → Result Round)
    → ((a : A) → r ≡ ok a → Small (f a))
    → Small (r >>= f)
Small-bind (ok a) f h = h a refl
Small-bind (err e) f h = tt

-- The code of the internal EEPROM, as a test.
abbrev is_eeprom : BlockResult → Bool
is_eeprom eeprom_block_ready = true
is_eeprom _ = false

Small-other :
    (code : BlockResult) (s : HexState) → is_eeprom code ≡ false → Small (ok (gave code s))
Small-other code s h = λ e. absurd (false≢true (sym h ∙ ap is_eeprom e))

Small-if_other :
    (b : Bool) (code : BlockResult) (s : HexState)
    → is_eeprom code ≡ false
    → Small (ok (if b then gave code s else again s))
Small-if_other true code s h = Small-other code s h
Small-if_other false code s h = tt

block_ready-other : (number : ℕ) → is_eeprom (block_ready number) ≡ false
unfolding block_ready
block_ready-other number = elim (Bool-cases (ltb number 80)) [
  | inl e ↦ rw e refl
  | inr e ↦ rw e refl
]

-- A copy leaves what stands in front of it.
abbrev Keeps : ℕ → ℕ → Result Ustring → Type 0
Keeps j v (ok mem) = get_or mem j 0 ≡ v
Keeps j v (err e) = Unit

copy_line-Keeps :
    (stride : ℕ) (line : Ustring) (n i dest : ℕ) (mem : Ustring) (j v : ℕ)
    → j < dest
    → get_or mem j 0 ≡ v
    → Keeps j v (copy_line stride (λ d. d + 1) n line i dest mem)
unfolding copy_line
copy_line-Keeps stride line zero i dest mem j v h e = e
copy_line-Keeps stride line (suc n) i dest mem j v h e = by_load (load line i) (λ c.
    copy_line-Keeps stride line n (i + stride) (dest + 1) (set mem dest c) j v (omega arith)
      (get_or-set_other mem dest j c 0 (λ q. omega (arith, q)) ∙ e))
  where
    by_store :
        (b : Bool) (c : ℕ) (f : Ustring → Result Ustring)
        → Keeps j v (f (set mem dest c))
        → Keeps j v ((if b then ok (set mem dest c) else err undefined) >>= f)
    by_store true c f k = k
    by_store false c f k = tt

    by_load :
        (r : Result ℕ)
        → ((c : ℕ)
            → Keeps j v
                (copy_line stride (λ d. d + 1) n line (i + stride) (dest + 1) (set mem dest c)))
        → Keeps j v (
            r >>= λ c. store mem dest c >>= λ m.
            copy_line stride (λ d. d + 1) n line (i + stride) (dest + 1) m)
    by_load (ok c) k = by_store (ltb dest (length mem)) c _ (k c)
    by_load (err x) k = tt

serial_line-Small : (s : HexState) → Small (serial_line s)
unfolding serial_line copy_serial
serial_line-Small s =
    let s' = if s.memory_block_number == 0 then start_serial s else s in
    Small-bind (load s.line_buffer 0) _ (λ count _.
      Small-if_any (s'.memory_block_number == s.address / 32) _ _
        (Small-bind
          (copy_line 2 wrap_dest (count / 2) s'.line_buffer 4 (s.address % 32 + 36) s'.memory_block)
          _
          (λ mem _.
            Small-if_other
              (ltb memory_block_size (s.address % 32 + 36 + count / 2) || s'.data_overflow)
              eeeprom_block_ready _ refl))
        (Small-other (block_ready s'.memory_block_number) s'
          (block_ready-other s'.memory_block_number)))

flash_line-Small : (s : HexState) (max_adr : ℕ) → Small (flash_line s max_adr)
unfolding flash_line copy_flash
flash_line-Small s max_adr =
    let first = s.address / 32 * 32 in
    Small-bind (load s.line_buffer 0) _ (λ count _.
      Small-if_any (ltb memory_block_size (flash_dest s.address + clip max_adr s.address count)) _ _
        (Small-other pgm_error s refl)
        (Small-if_any
          (not (s.memory_block_number == 0) && not (s.memory_block_number == s.address / 32)) _ _
          (Small-other (block_ready s.memory_block_number) s
            (block_ready-other s.memory_block_number))
          (Small-bind
            (copy_line 1 (λ dest. dest + 1) (clip max_adr s.address count) s.line_buffer 4
              (flash_dest s.address)
              (set_word (set_word s.memory_block 0 first) 34 ((first + 0x10) % 2 ^ 16)))
            _ (λ mem _. tt))))

eeprom_line-Small : (s : HexState) → Small (eeprom_line s)
unfolding eeprom_line
eeprom_line-Small s =
    Small-if_any (not (s.memory_block_number == 0)) _ _
      (Small-other (block_ready s.memory_block_number) s (block_ready-other s.memory_block_number))
      (Small-bind (load s.line_buffer 0) _ (λ count _.
        let start = set (set s.memory_block 0 (s.address % 256)) 1 (count / 2) in
        let copied = copy_line 2 (λ dest. dest + 1) (count / 2) s.line_buffer 4 2 start in
        Small-if (ltb eeprom_max (s.address + count / 2) || ltb 32 (count / 2)) _ _
          (Small-other pgm_error (record s { memory_block = start }) refl)
          (λ few. Small-bind copied _ (λ mem e code.
            let kept : get_or mem 1 0 ≡ get_or start 1 0 = subst (Keeps 1 (get_or start 1 0)) e (
              copy_line-Keeps 2 s.line_buffer (count / 2) 4 2 start 1 (get_or start 1 0)
                (omega arith) refl) in
            ground (
              arith,
              kept,
              get_or-set_le (set s.memory_block 0 (s.address % 256)) 1 (count / 2),
            )))))

area_line-Small : (s : HexState) → Small (area_line s)
unfolding area_line
area_line-Small s =
    Small-if_any (within serial_eeprom_min_adr serial_eeprom_max_adr s.address) _ _
      (serial_line-Small s)
      (Small-if_any (within main_mem_min_adr main_mem_max_adr s.address) _ _
        (flash_line-Small s main_mem_max_adr)
        (Small-if_any (within licenced_mem_min_adr licenced_mem_max_adr s.address) _ _
          (flash_line-Small s licenced_mem_max_adr)
          (Small-if_any (within eeprom_min eeprom_max s.address) _ _ (eeprom_line-Small s) tt)))

process_line-Small : (s : HexState) → Small (process_line s)
unfolding process_line
process_line-Small s = Small-bind (load s.line_buffer 3) _ (λ kind _.
    Small-if_any (kind == 0) _ _
      (Small-bind (load s.line_buffer 1) _
        (λ b1 _. Small-bind (load s.line_buffer 2) _ (λ b2 _. area_line-Small (locate s b1 b2))))
      (Small-if_any (kind == 4) _ _
        (Small-bind (load s.line_buffer 4) _
          (λ b4 _. Small-bind (load s.line_buffer 5) _ (λ b5 _. tt)))
        tt))

at_end_of_file-Small : (s : HexState) → Small (ok (at_end_of_file s))
unfolding at_end_of_file
at_end_of_file-Small s = by_block (s.memory_block_number == 0) s.data_overflow
  where
    by_block :
        (b o : Bool)
        → Small (
            ok (
              if b
              then (if o
                  then gave eeeprom_block_ready (move_overflowed_data s)
                  else gave pgm_success s)
              else gave (block_ready s.memory_block_number) s))
    by_block true true = Small-other eeeprom_block_ready (move_overflowed_data s) refl
    by_block true false = Small-other pgm_success s refl
    by_block false o =
        Small-other (block_ready s.memory_block_number) s (block_ready-other s.memory_block_number)

after_read-Small :
    (s : HexState) (r : ReadLine) (result : LineResult)
    → r.line_result ≡ result
    → Small (after_read s r)
unfolding after_read
after_read-Small s r file_data_error q =
    rw q (Small-other pgm_error (record s { line_buffer = r.line_buffer; file = r.file }) refl)
after_read-Small s r end_of_file q =
    rw q (at_end_of_file-Small (record s { line_buffer = r.line_buffer; file = r.file }))
after_read-Small s r file_data_ready q = rw q (
    process_line-Small
      (record s { line_buffer = r.line_buffer; file = r.file; data_in_buffer_ready = true }))

prepare_round-Small : (s : HexState) → Small (prepare_round s)
unfolding prepare_round
prepare_round-Small s =
    Small-if_any s.data_in_buffer_ready _ _ (process_line-Small s)
      (after_read-Small s (read_hex_file_line s.file s.line_buffer) _ refl)

abbrev SmallBlock : Result (BlockResult × HexState) → Type 0
SmallBlock (ok (code, s)) = IsSmall code s
SmallBlock (err e) = Unit

after_round-SmallBlock :
    (next : HexState → Result (BlockResult × HexState)) (r : Result Round)
    → Small r
    → ((t : HexState) → SmallBlock (next t))
    → SmallBlock (r >>= λ r. elim r [ gave code t ↦ ok (code, t) | again t ↦ next t ])
after_round-SmallBlock next (ok (gave code t)) h k = h
after_round-SmallBlock next (ok (again t)) h k = k t
after_round-SmallBlock next (err e) h k = tt

prepare_loop-SmallBlock : (fuel : ℕ) (s : HexState) → SmallBlock (prepare_loop fuel s)
unfolding prepare_loop
prepare_loop-SmallBlock zero s = tt
prepare_loop-SmallBlock (suc fuel) s =
    after_round-SmallBlock (prepare_loop fuel) (prepare_round s) (prepare_round-Small s)
      (prepare_loop-SmallBlock fuel)

pub prepare_mem_block-IsSmall :
    (s s' : HexState) (code : BlockResult) → prepare_mem_block s ≡ ok (code, s') → IsSmall code s'
unfolding prepare_mem_block
prepare_mem_block-IsSmall s s' code e =
    subst SmallBlock e (prepare_loop-SmallBlock (length s.file + 2) (prepare_start s))
