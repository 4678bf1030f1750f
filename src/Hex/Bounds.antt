-- ===== src/Hex/Bounds.antt =====
-- The lines that examples/PgmHex/PgmHex.cpp copies into its image of a block: the accesses stay
-- inside the arrays as long as the byte count of the line is at most 60.
use clibcdc.Base.{
  Bool, Result, ap, arith, err, false, get_elem?-get_or, get_or, if◌then◌else◌, length,
  length-append, length-set, length-take, ltb, lt→ltb, not, ok, or_fail, refl, replicate, set, suc,
  take, true, undefined, zero, ℕ, ◌%◌, ◌&&◌, ◌*◌, ◌++◌, ◌+◌, ◌-◌, ◌/◌, ◌<◌, ◌==◌, ◌>>=◌, ◌^◌, ◌||◌,
  ◌∙◌, ◌≡◌, ◌≤◌,
}
use clibcdc.Hex.{line_buffer_size}
use clibcdc.Hex.Block.{
  area_line, clip, copy_flash, copy_serial, eeprom_line, flash_dest, flash_line, serial_line,
  start_serial, within,
}
use clibcdc.Hex.Image.{
  BlockResult, HexState, Round, again, copy_line, eeeprom_block_ready, eeprom_max, eeprom_min, gave,
  licenced_mem_max_adr, licenced_mem_min_adr, load, main_mem_max_adr, main_mem_min_adr,
  memory_block_size, move_overflowed_data, serial_eeprom_max_adr, serial_eeprom_min_adr, set_word,
  store, wrap_dest,
}
use clibcdc.Parser.Complete.Replies.{Reads}
use clibcdc.Types.{Ustring}

-- The sizes of the arrays.
abbrev pub IsSized : HexState → Type 0
IsSized s = (length s.memory_block ≡ 68) × (length s.line_buffer ≡ line_buffer_size)

pub load-inside :
    (bytes : Ustring) (i : ℕ) → i < length bytes → load bytes i ≡ ok (get_or bytes i 0)
load-inside bytes i h = ap (λ o. or_fail o undefined) (get_elem?-get_or bytes i 0 h)

pub store-inside : (mem : Ustring) (i v : ℕ) → i < length mem → store mem i v ≡ ok (set mem i v)
store-inside mem i v h = rw (lt→ltb i (length mem) h) refl

-- `Reads n i` and `Writes n dest` say that the next `n` places are inside.
pub copy_line-total :
    (stride : ℕ) (next : ℕ → ℕ) (line : Ustring) (Reads Writes : ℕ → ℕ → Type 0)
    → ((n i : ℕ) → Reads (suc n) i → (i < length line) × Reads n (i + stride))
    → ((n dest : ℕ) → Writes (suc n) dest → (dest < 68) × Writes n (next dest))
    → (n i dest : ℕ) (mem : Ustring) → length mem ≡ 68
    → Reads n i
    → Writes n dest
    → (mem' : Ustring) × (copy_line stride next n line i dest mem ≡ ok mem') × (length mem' ≡ 68)
unfolding copy_line
copy_line-total stride next line Reads Writes rs ws zero i dest mem e r w = (mem, refl, e)
copy_line-total stride next line Reads Writes rs ws (suc n) i dest mem e r w =
    let (inside, r') = rs n i r in
    let (room, w') = ws n dest w in
    let (mem', g, size) =
      copy_line-total stride next line Reads Writes rs ws n (i + stride) (next dest)
        (set mem dest (get_or line i 0)) (length-set mem dest _ ∙ e) r' w' in
    (
      mem',
      rw (load-inside line i inside, store-inside mem dest (get_or line i 0) (omega (arith, e))) g,
      size,
    )

-- What a round does in a state whose line is short enough: less than `n` is left for the next.
abbrev pub Steps : ℕ → Result Round → Type 0
Steps n (ok (gave code s)) = IsSized s
Steps n (ok (again s)) = IsSized s × (s.data_in_buffer_ready ≡ false) × (length s.file < n)
Steps n (err e) = ⊥

pub length-set_word : (mem : Ustring) (pos v : ℕ) → length (set_word mem pos v) ≡ length mem
length-set_word mem pos v =
    length-set (set mem pos (v % 256)) (pos + 1) (v / 256 % 256) ∙ length-set mem pos (v % 256)

pub Steps-if :
    (n : ℕ) (b : Bool) (r r' : Result Round)
    → (b ≡ true → Steps n r)
    → (b ≡ false → Steps n r')
    → Steps n (if b then r else r')
Steps-if n true r r' f g = f refl
Steps-if n false r r' f g = g refl

Steps-end :
    (n : ℕ) (b : Bool) (code : BlockResult) (s : HexState)
    → IsSized s
    → s.data_in_buffer_ready ≡ false
    → length s.file < n
    → Steps n (ok (if b then gave code s else again s))
Steps-end n true code s i e h = i
Steps-end n false code s i e h = (i, e, h)

pub Steps-load :
    (n : ℕ) (bytes : Ustring) (i : ℕ) (f : ℕ → Result Round)
    → i < length bytes
    → Steps n (f (get_or bytes i 0))
    → Steps n (load bytes i >>= f)
Steps-load n bytes i f h p = rw (load-inside bytes i h) p

pub move_overflowed_data-IsSized : (s : HexState) → IsSized s → IsSized (move_overflowed_data s)
unfolding move_overflowed_data
move_overflowed_data-IsSized s (m, l) = (
  length-set_word (replicate 34 0 ++ take 34 s.memory_block) 0 (
        ((get_or (take 34 s.memory_block) 1 0 * 256 + get_or (take 34 s.memory_block) 0 0) / 32 + 1)
        * 32
        % 2 ^ 16)
      ∙ omega (
        arith,
        m,
        length-append (replicate 34 0) (take 34 s.memory_block),
        length-take 34 s.memory_block,
      ),
  l,
)

copy_serial-Steps :
    (s : HexState) (dest count : ℕ)
    → IsSized s
    → dest < 68
    → count ≤ 30
    → Steps (length s.file + 1) (copy_serial s dest count)
unfolding copy_serial
copy_serial-Steps s dest count (m, l) d c =
    let (mem, g, size) =
      copy_line-total 2 wrap_dest s.line_buffer (λ n i. i + 2 * n ≤ 64) (λ n dest. dest < 68)
        (λ n i h. (omega (arith, l), omega arith)) (λ n dest h. (h, ground arith)) count 4 dest
        s.memory_block m (omega arith) d in
    rw g (
      Steps-end (length s.file + 1) (ltb memory_block_size (dest + count) || s.data_overflow)
        eeeprom_block_ready _ (size, l) refl (omega arith))

start_serial-IsSized : (s : HexState) → IsSized s → IsSized (start_serial s)
unfolding start_serial
start_serial-IsSized s (m, l) = (
  length-set_word (set_word (replicate 68 0) 34 ((s.address - 0x200) / 32 * 32)) 0
        (((s.address - 0x200) / 32 * 32 + 0x20) % 2 ^ 16)
      ∙ length-set_word (replicate 68 0) 34 ((s.address - 0x200) / 32 * 32),
  l,
)

started-IsSized :
    (b : Bool) (s : HexState)
    → IsSized s
    → IsSized (if b then start_serial s else s)
      × (length (if b then start_serial s else s).file ≤ length s.file)
unfolding start_serial
started-IsSized true s h = (start_serial-IsSized s h, omega arith)
started-IsSized false s h = (h, omega arith)

pub Steps-mono : (n k : ℕ) (r : Result Round) → k ≤ n → Steps k r → Steps n r
Steps-mono n k (ok (gave code s)) h p = p
Steps-mono n k (ok (again s)) h (i, e, l) = (i, e, omega arith)
Steps-mono n k (err e) h p = absurd p

serial_line-Steps :
    (s : HexState)
    → IsSized s
    → get_or s.line_buffer 0 0 ≤ 60
    → Steps (length s.file + 1) (serial_line s)
unfolding serial_line
serial_line-Steps s h c =
    let new = s.memory_block_number == 0 in
    let s' = if new then start_serial s else s in
    let count = get_or s.line_buffer 0 0 in
    let (i, f) = started-IsSized new s h in
    Steps-load (length s.file + 1) s.line_buffer 0 _ (omega (arith, h.1)) (
      Steps-if (length s.file + 1) (s'.memory_block_number == s.address / 32) _ _
        (λ _.
          Steps-mono (length s.file + 1) (length s'.file + 1) _ (omega (arith, f))
            (copy_serial-Steps s' (s.address % 32 + 36) (count / 2) i (omega arith) (omega arith)))
        (λ _. i))

clip-le : (max_adr address count : ℕ) → clip max_adr address count ≤ count
unfolding clip
clip-le max_adr address count = ground arith

copy_flash-Steps :
    (s : HexState) (count : ℕ)
    → IsSized s
    → flash_dest s.address + count ≤ 68
    → count ≤ 60
    → Steps (length s.file + 1) (copy_flash s count)
unfolding copy_flash
copy_flash-Steps s count (m, l) d c =
    let first = s.address / 32 * 32 in
    let image = set_word (set_word s.memory_block 0 first) 34 ((first + 0x10) % 2 ^ 16) in
    let (mem, g, size) =
      copy_line-total 1 (λ dest. dest + 1) s.line_buffer (λ n i. i + n ≤ 64)
        (λ n dest. dest + n ≤ 68) (λ n i h. (omega (arith, l), omega arith))
        (λ n dest h. (omega arith, omega arith)) count 4 (flash_dest s.address) image
        (length-set_word (set_word s.memory_block 0 first) 34 ((first + 0x10) % 2 ^ 16)
          ∙ length-set_word s.memory_block 0 first
          ∙ m)
        (omega arith) d in
    rw g ((size, l), refl, omega arith)

flash_line-Steps :
    (s : HexState) (max_adr : ℕ)
    → IsSized s
    → get_or s.line_buffer 0 0 ≤ 60
    → Steps (length s.file + 1) (flash_line s max_adr)
unfolding flash_line
flash_line-Steps s max_adr h c =
    let count = get_or s.line_buffer 0 0 in
    let clipped = clip max_adr s.address count in
    Steps-load (length s.file + 1) s.line_buffer 0 _ (omega (arith, h.1)) (
      Steps-if (length s.file + 1) (ltb memory_block_size (flash_dest s.address + clipped)) _ _
        (λ _. h)
        (λ inside.
          Steps-if (length s.file + 1)
            (not (s.memory_block_number == 0) && not (s.memory_block_number == s.address / 32)) _ _
            (λ _. h)
            (λ _.
              copy_flash-Steps s clipped h (ground arith)
                (omega (arith, clip-le max_adr s.address count)))))

eeprom_line-Steps :
    (s : HexState)
    → IsSized s
    → get_or s.line_buffer 0 0 ≤ 60
    → Steps (length s.file + 1) (eeprom_line s)
unfolding eeprom_line
eeprom_line-Steps s (m, l) c =
    let count = get_or s.line_buffer 0 0 in
    let start = set (set s.memory_block 0 (s.address % 256)) 1 (count / 2) in
    let start_sized : length start ≡ 68 =
      length-set (set s.memory_block 0 (s.address % 256)) 1 (count / 2)
      ∙ length-set s.memory_block 0 (s.address % 256)
      ∙ m in
    let (mem, g, size) =
      copy_line-total 2 (λ dest. dest + 1) s.line_buffer (λ n i. i + 2 * n ≤ 64)
        (λ n dest. dest + n ≤ 68) (λ n i h. (omega (arith, l), omega arith))
        (λ n dest h. (omega arith, omega arith)) (count / 2) 4 2 start start_sized (omega arith)
        (omega arith) in
    Steps-if (length s.file + 1) (not (s.memory_block_number == 0)) _ _ (λ _. (m, l))
      (λ _. Steps-load (length s.file + 1) s.line_buffer 0 _ (omega (arith, l)) (
        Steps-if (length s.file + 1) (ltb eeprom_max (s.address + count / 2) || ltb 32 (count / 2))
          _ _ (λ _. (start_sized, l)) (λ _. rw g (size, l))))

pub area_line-Steps :
    (s : HexState)
    → IsSized s
    → get_or s.line_buffer 0 0 ≤ 60
    → Steps (length s.file + 1) (area_line s)
unfolding area_line
area_line-Steps s h c =
    Steps-if (length s.file + 1) (within serial_eeprom_min_adr serial_eeprom_max_adr s.address) _ _
      (λ _. serial_line-Steps s h c)
      (λ _.
        Steps-if (length s.file + 1) (within main_mem_min_adr main_mem_max_adr s.address) _ _
          (λ _. flash_line-Steps s main_mem_max_adr h c)
          (λ _.
            Steps-if (length s.file + 1)
              (within licenced_mem_min_adr licenced_mem_max_adr s.address) _ _
              (λ _. flash_line-Steps s licenced_mem_max_adr h c)
              (λ _.
                Steps-if (length s.file + 1) (within eeprom_min eeprom_max s.address) _ _
                  (λ _. eeprom_line-Steps s h c) (λ _. (h, refl, omega arith)))))
