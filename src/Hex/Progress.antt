-- ===== src/Hex/Progress.antt =====
-- A block that `iqrfPgmPrepareMemBlock` of examples/PgmHex/PgmHex.cpp prepares takes something off
-- what is left to do, so that the program comes to an end.
use clibcdc.Base.{
  ==_iff, Bool, Bool-cases, Result, ap, arith, err, false, if◌then◌else◌, inl, inr, length, ltb,
  not, ok, refl, set, subst, sym, true, ℕ, ◌%◌, ◌&&◌, ◌*◌, ◌+◌, ◌/◌, ◌<◌, ◌==◌, ◌>>=◌, ◌^◌, ◌||◌,
  ◌∙◌, ◌≡◌, ◌≤◌,
}
use clibcdc.Hex.Block.{
  area_line, block_ready, clip, copy_flash, copy_serial, eeprom_line, flash_dest, flash_line,
  locate, process_line, serial_line, start_serial, within,
}
use clibcdc.Hex.Ends.{left}
use clibcdc.Hex.Image.{
  BlockResult, HexState, Round, again, copy_line, eeeprom_block_ready, eeprom_max, eeprom_min, gave,
  is_block_ready, licenced_mem_max_adr, licenced_mem_min_adr, load, main_mem_max_adr,
  main_mem_min_adr, memory_block_size, move_overflowed_data, serial_eeprom_max_adr,
  serial_eeprom_min_adr, set_word, wrap_dest,
}
use clibcdc.Types.{Ustring}
use mathlib.Core.Bool.{false≢true}

abbrev pub bit : Bool → ℕ
bit b = if b then 1 else 0

-- What is left to do: twice the lines, and the data that have overflowed.
abbrev pub work : HexState → ℕ
work s = 2 * left s + bit s.data_overflow

-- A round that gives a block leaves `z` less than `m`, and one that goes on leaves less than `m`.
abbrev pub Fine : ℕ → ℕ → Result Round → Type 0
Fine z m (ok (gave code s)) = is_block_ready code ≡ true → work s + z ≤ m
Fine z m (ok (again s)) = work s < m
Fine z m (err e) = Unit

pub Fine-if :
    (z m : ℕ) (b : Bool) (r r' : Result Round)
    → (b ≡ true → Fine z m r)
    → (b ≡ false → Fine z m r')
    → Fine z m (if b then r else r')
Fine-if z m true r r' f g = f refl
Fine-if z m false r r' f g = g refl

Fine-bind :
    {A : Type 0} (z m : ℕ) (r : Result A) (f : A → Result Round)
    → ((a : A) → Fine z m (f a))
    → Fine z m (r >>= f)
Fine-bind z m (ok a) f h = h a
Fine-bind z m (err e) f h = tt

pub Fine-mono :
    (z z' m m' : ℕ) (r : Result Round) → Fine z m r → z' + m ≤ z + m' → m ≤ m' → Fine z' m' r
Fine-mono z z' m m' (ok (gave code s)) h i j = λ b. omega (arith, h b)
Fine-mono z z' m m' (ok (again s)) h i j = omega arith
Fine-mono z z' m m' (err e) h i j = tt

-- The work of a state that has no line in its buffer, and of one that has.
work-read : (s : HexState) → s.data_in_buffer_ready ≡ false → work s ≤ 2 * length s.file + 1
work-read s e = let l : left s ≡ length s.file = rw e refl in ground (arith, l)

abbrev pub fresh : HexState → ℕ
fresh s = bit (s.memory_block_number == 0)

-- A line in the buffer and no data that have overflowed.
abbrev Holds : HexState → Type 0
Holds s = (s.data_in_buffer_ready ≡ true) × (s.data_overflow ≡ false)

abbrev pub full : HexState → ℕ
full s = 2 * (length s.file + 1)

work-Holds : (s : HexState) → Holds s → work s ≡ full s
work-Holds s (r, o) =
    let l : left s ≡ length s.file + 1 = rw r refl in
    let b : bit s.data_overflow ≡ 0 = rw o refl in omega (arith, l, b)

copy_serial-Fine :
    (s : HexState) (z dest count : ℕ) → z ≤ 1 → Fine z (full s) (copy_serial s dest count)
unfolding copy_serial
copy_serial-Fine s z dest count h =
    Fine-bind z (full s) (copy_line 2 wrap_dest count s.line_buffer 4 dest s.memory_block) _
      (λ mem. ends (ltb memory_block_size (dest + count) || s.data_overflow) mem)
  where
    ends :
        (b : Bool) (mem : Ustring)
        → let s' : HexState = record s {
          memory_block = mem;
          data_overflow = b;
          data_in_buffer_ready = false;
        } in
          Fine z (full s) (ok (if b then gave eeeprom_block_ready s' else again s'))
    ends true mem = λ e. omega arith
    ends false mem = omega arith

-- A line that stays in the buffer while the block before it is uploaded.
kept-Fine :
    (s : HexState) (code : BlockResult) (m : ℕ) → Holds s → full s ≤ m → Fine 0 m (ok (gave code s))
kept-Fine s code m h l = λ e. omega (arith, work-Holds s h)

started-Holds :
    (b : Bool) (s : HexState)
    → Holds s
    → Holds (if b then start_serial s else s) × (full (if b then start_serial s else s) ≡ full s)
unfolding start_serial
started-Holds true s h = (h, refl)
started-Holds false s h = (h, refl)

started-number :
    (s : HexState)
    → (s.memory_block_number == 0) ≡ true
    → (if s.memory_block_number == 0 then start_serial s else s).memory_block_number
      ≡ s.address / 32
unfolding start_serial
started-number s e = ap (λ b. (if b then start_serial s else s).memory_block_number) e

serial_line-Fine : (s : HexState) → Holds s → Fine (fresh s) (full s) (serial_line s)
unfolding serial_line
serial_line-Fine s h =
    let new = s.memory_block_number == 0 in
    let s' = if new then start_serial s else s in
    let (h', same) = started-Holds new s h in
    Fine-bind (fresh s) (full s) (load s.line_buffer 0) _ (λ count.
      Fine-if (fresh s) (full s) (s'.memory_block_number == s.address / 32) _ _
        (λ _.
          subst (λ m. Fine (fresh s) m (copy_serial s' (s.address % 32 + 36) (count / 2))) same
            (copy_serial-Fine s' (fresh s) (s.address % 32 + 36) (count / 2) (ground arith)))
        (λ other.
          let old : (s.memory_block_number == 0) ≡ false = elim (Bool-cases new) [
            | inl e ↦ absurd (
                false≢true (
                  sym other
                  ∙ (==_iff s'.memory_block_number (s.address / 32)).1 (started-number s e)))
            | inr e ↦ e
          ] in
          let z : fresh s ≡ 0 = rw old refl in
          subst (λ k. Fine k (full s) (ok (gave (block_ready s'.memory_block_number) s'))) (sym z)
            (kept-Fine s' (block_ready s'.memory_block_number) (full s) h' (omega (arith, same)))))

copy_flash-Fine : (s : HexState) (z count : ℕ) → Holds s → Fine z (full s) (copy_flash s count)
unfolding copy_flash
copy_flash-Fine s z count (r, o) =
    let first = s.address / 32 * 32 in
    Fine-bind z (full s)
      (copy_line 1 (λ dest. dest + 1) count s.line_buffer 4 (flash_dest s.address)
        (set_word (set_word s.memory_block 0 first) 34 ((first + 0x10) % 2 ^ 16)))
      _ (λ mem. let b : bit s.data_overflow ≡ 0 = rw o refl in omega (arith, b))

old_block :
    (s : HexState) (m : ℕ)
    → Holds s
    → (s.memory_block_number == 0) ≡ false
    → full s ≤ m
    → Fine (fresh s) m (ok (gave (block_ready s.memory_block_number) s))
old_block s m h e l =
    let z : fresh s ≡ 0 = rw e refl in
    subst (λ k. Fine k m (ok (gave (block_ready s.memory_block_number) s))) (sym z)
      (kept-Fine s (block_ready s.memory_block_number) m h l)

flash_line-Fine :
    (s : HexState) (max_adr : ℕ) → Holds s → Fine (fresh s) (full s) (flash_line s max_adr)
unfolding flash_line is_block_ready
flash_line-Fine s max_adr h = Fine-bind (fresh s) (full s) (load s.line_buffer 0) _ (λ count.
    Fine-if (fresh s) (full s)
      (ltb memory_block_size (flash_dest s.address + clip max_adr s.address count)) _ _
      (λ _ e. absurd (false≢true e))
      (λ _.
        Fine-if (fresh s) (full s)
          (not (s.memory_block_number == 0) && not (s.memory_block_number == s.address / 32)) _ _
          (λ e. old_block s (full s) h (ground arith) (omega arith))
          (λ _. copy_flash-Fine s (fresh s) (clip max_adr s.address count) h)))

eeprom_line-Fine : (s : HexState) → Holds s → Fine (fresh s) (full s) (eeprom_line s)
unfolding eeprom_line is_block_ready
eeprom_line-Fine s h =
    Fine-if (fresh s) (full s) (not (s.memory_block_number == 0)) _ _
      (λ e. old_block s (full s) h (ground arith) (omega arith))
      (λ _. Fine-bind (fresh s) (full s) (load s.line_buffer 0) _ (λ count.
        Fine-if (fresh s) (full s) (ltb eeprom_max (s.address + count / 2) || ltb 32 (count / 2)) _
          _ (λ _ e. absurd (false≢true e))
          (λ _.
            Fine-bind (fresh s) (full s)
              (copy_line 2 (λ dest. dest + 1) (count / 2) s.line_buffer 4 2
                (set (set s.memory_block 0 (s.address % 256)) 1 (count / 2)))
              _ (λ mem e. let b : bit s.data_overflow ≡ 0 = rw (h.1) refl in ground (arith, b)))))

area_line-Fine : (s : HexState) → Holds s → Fine (fresh s) (full s) (area_line s)
unfolding area_line
area_line-Fine s h =
    Fine-if (fresh s) (full s) (within serial_eeprom_min_adr serial_eeprom_max_adr s.address) _ _
      (λ _. serial_line-Fine s h)
      (λ _.
        Fine-if (fresh s) (full s) (within main_mem_min_adr main_mem_max_adr s.address) _ _
          (λ _. flash_line-Fine s main_mem_max_adr h)
          (λ _.
            Fine-if (fresh s) (full s) (within licenced_mem_min_adr licenced_mem_max_adr s.address)
              _ _ (λ _. flash_line-Fine s licenced_mem_max_adr h)
              (λ _.
                Fine-if (fresh s) (full s) (within eeprom_min eeprom_max s.address) _ _
                  (λ _. eeprom_line-Fine s h)
                  (λ _. let b : bit s.data_overflow ≡ 0 = rw (h.1) refl in omega (arith, b)))))

-- The state that a line is looked at in, with what it has over the state before.
locate-Holds :
    (s : HexState) (b1 b2 : ℕ)
    → s.data_in_buffer_ready ≡ true
    → Holds (locate s b1 b2)
      × (full (locate s b1 b2) ≡ full s)
      × (fresh s ≤ fresh (locate s b1 b2) + bit s.data_overflow)
unfolding locate move_overflowed_data
locate-Holds s b1 b2 r = by_overflow s.data_overflow refl
  where
    by_overflow :
        (b : Bool)
        → s.data_overflow ≡ b
        → let l =
            (let s' : HexState = record s {
              address = (s.hi_address + b1 * 256 + b2) % 2 ^ 32 / 2 % 2 ^ 16;
            } in
              if b then move_overflowed_data s' else s') in
          Holds l × (full l ≡ full s) × (fresh s ≤ fresh l + bit b)
    by_overflow true e = ((r, refl), refl, ground arith)
    by_overflow false e = ((r, e), refl, omega arith)

pub process_line-Fine :
    (s : HexState)
    → s.data_in_buffer_ready ≡ true
    → Fine (fresh s) (full s + bit s.data_overflow) (process_line s)
unfolding process_line
process_line-Fine s r =
    let z = fresh s in
    let m = full s + bit s.data_overflow in
    Fine-bind z m (load s.line_buffer 3) _ (λ kind.
      Fine-if z m (kind == 0) _ _
        (λ _. Fine-bind z m (load s.line_buffer 1) _ (λ b1.
          Fine-bind z m (load s.line_buffer 2) _ (λ b2.
            let l = locate s b1 b2 in
            let (h, same, new) = locate-Holds s b1 b2 r in
            Fine-mono (fresh l) z (full l) m (area_line l) (area_line-Fine l h)
              (omega (arith, same, new)) (omega (arith, same)))))
        (λ _.
          Fine-if z m (kind == 4) _ _
            (λ _.
              Fine-bind z m (load s.line_buffer 4) _
                (λ b4. Fine-bind z m (load s.line_buffer 5) _ (λ b5. omega arith)))
            (λ _. omega arith)))
