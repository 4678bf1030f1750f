-- ===== src/Hex/Placement.antt =====
-- Where examples/PgmHex/PgmHex.cpp puts the data of a line in its image of a block. A block of
-- flash memory has 64 bytes, in two halves that each have their address in front.
use clibcdc.Base.{
  ap, arith, false, get_or, get_or-set, get_or-set_other, if◌then◌else◌, length, length-set,
  le→ltb_false, ltb, not, ok, refl, set, sym, ℕ, ◌%◌, ◌&&◌, ◌*◌, ◌+◌, ◌/◌, ◌<◌, ◌==◌, ◌^◌, ◌∙◌, ◌≡◌,
  ◌≢◌, ◌≤◌, ◌⊎◌,
}
use clibcdc.Hex.Block.{clip, copy_flash, flash_dest, flash_line}
use clibcdc.Hex.Bounds.{IsSized, length-set_word, load-inside}
use clibcdc.Hex.Copy.{Copied, copy_line-Copied}
use clibcdc.Hex.Image.{
  HexState, again, licenced_mem_max_adr, licenced_mem_min_adr, main_mem_max_adr, main_mem_min_adr,
  memory_block_size, set_word,
}
use clibcdc.Types.{Ustring}

-- The place of a byte of a block in the image.
abbrev pub place : ℕ → ℕ
place b = if ltb b 32 then b + 2 else b + 4

-- The bytes of a block of flash memory in an image.
abbrev pub flash_byte : Ustring → ℕ → ℕ
flash_byte mem b = get_or mem (place b) 0

-- The addresses in an image of the block that begins at `first`.
abbrev pub Addressed : ℕ → Ustring → Type 0
Addressed first mem =
    (get_or mem 0 0 ≡ first % 256)
    × (get_or mem 1 0 ≡ first / 256)
    × (get_or mem 34 0 ≡ (first + 16) % 256)
    × (get_or mem 35 0 ≡ (first + 16) / 256)

-- From the byte `start` of the block on, an image has `count` bytes of a line, and those of the
-- image before elsewhere.
abbrev pub Placed : ℕ → ℕ → Ustring → Ustring → Ustring → Type 0
Placed start count line mem mem' =
    ((k : ℕ) → k < count → flash_byte mem' (start + k) ≡ get_or line (4 + k) 0)
    × ((b : ℕ) → b < 64 → (b < start) ⊎ (start + count ≤ b) → flash_byte mem' b ≡ flash_byte mem b)

-- The words up to `last` are in one of the two areas of flash memory.
abbrev pub InFlash : ℕ → ℕ → Type 0
InFlash address last =
    ((main_mem_min_adr ≤ address) × (last ≤ main_mem_max_adr))
    ⊎ ((licenced_mem_min_adr ≤ address) × (last ≤ licenced_mem_max_adr))

-- The bytes are in one half of their block.
abbrev pub InHalf : ℕ → ℕ → Type 0
InHalf start count = (start + count ≤ 32) ⊎ ((32 ≤ start) × (start + count ≤ 64))

get_or-set_word :
    (mem : Ustring) (pos v j : ℕ)
    → j ≢ pos
    → j ≢ pos + 1
    → get_or (set_word mem pos v) j 0 ≡ get_or mem j 0
get_or-set_word mem pos v j e e' =
    get_or-set_other (set mem pos (v % 256)) (pos + 1) j (v / 256 % 256) 0 (λ q. e' (sym q))
    ∙ get_or-set_other mem pos j (v % 256) 0 (λ q. e (sym q))

set_word-at :
    (mem : Ustring) (pos v : ℕ)
    → pos + 1 < length mem
    → v < 2 ^ 16
    → (get_or (set_word mem pos v) pos 0 ≡ v % 256)
      × (get_or (set_word mem pos v) (pos + 1) 0 ≡ v / 256)
set_word-at mem pos v h w =
    let low = set mem pos (v % 256) in
    (
      get_or-set_other low (pos + 1) pos (v / 256 % 256) 0 (λ q. omega (arith, q))
          ∙ get_or-set mem pos (v % 256) 0 (omega arith),
      get_or-set low (pos + 1) (v / 256 % 256) 0 (omega (arith, length-set mem pos (v % 256)))
          ∙ omega arith,
    )

-- The image with its two addresses.
abbrev headed : Ustring → ℕ → Ustring
headed mem first = set_word (set_word mem 0 first) 34 ((first + 0x10) % 2 ^ 16)

headed-Addressed :
    (mem : Ustring) (first : ℕ)
    → length mem ≡ 68
    → first + 16 < 2 ^ 16
    → Addressed first (headed mem first)
headed-Addressed mem first m f =
    let low = set_word mem 0 first in
    let next = (first + 0x10) % 2 ^ 16 in
    let size = length-set_word mem 0 first in
    let (a0, a1) = set_word-at mem 0 first (omega (arith, m)) (omega arith) in
    let (a34, a35) = set_word-at low 34 next (omega (arith, m, size)) (omega arith) in
    (
      get_or-set_word low 34 next 0 (λ q. omega (arith, q)) (λ q. omega (arith, q)) ∙ a0,
      get_or-set_word low 34 next 1 (λ q. omega (arith, q)) (λ q. omega (arith, q)) ∙ a1,
      a34 ∙ omega arith,
      a35 ∙ omega arith,
    )

headed-else :
    (mem : Ustring) (first j : ℕ)
    → 2 ≤ j
    → (j < 34) ⊎ (36 ≤ j)
    → get_or (headed mem first) j 0 ≡ get_or mem j 0
headed-else mem first j h o =
    get_or-set_word (set_word mem 0 first) 34 ((first + 0x10) % 2 ^ 16) j (λ q. ground arith)
      (λ q. ground arith)
    ∙ get_or-set_word mem 0 first j (λ q. omega (arith, q)) (λ q. omega (arith, q))

clip-inside :
    (max_adr address count : ℕ) → address + count / 2 ≤ max_adr → clip max_adr address count ≡ count
unfolding clip
clip-inside max_adr address count h = ground arith

flash_dest-place : (address : ℕ) → flash_dest address ≡ place (address % 32 * 2)
unfolding flash_dest
flash_dest-place address = refl

place-half :
    (start count : ℕ)
    → InHalf start count
    → ((2 ≤ place start) × (place start + count ≤ 34))
      ⊎ ((36 ≤ place start) × (place start + count ≤ 68))
place-half start count half = ground arith

place-add :
    (start count k : ℕ) → InHalf start count → k < count → place (start + k) ≡ place start + k
place-add start count k half h = ground arith

place-apart :
    (start count b : ℕ)
    → InHalf start count
    → (b < start) ⊎ (start + count ≤ b)
    → (place b < place start) ⊎ (place start + count ≤ place b)
place-apart start count b half o = ground arith

place-room : (b : ℕ) → b < 64 → (2 ≤ place b) × ((place b < 34) ⊎ (36 ≤ place b))
place-room b h = (ground arith, ground arith)

copy_line-Addressed :
    (first start count : ℕ) (line image mem : Ustring)
    → InHalf start count
    → Copied 1 line 4 (place start) count image mem
    → Addressed first image
    → Addressed first mem
copy_line-Addressed first start count line image mem half (size, copied, kept) (a0, a1, a34, a35) =
    let h = place-half start count half in
    (
      kept 0 (ground arith) ∙ a0,
      kept 1 (ground arith) ∙ a1,
      kept 34 (ground arith) ∙ a34,
      kept 35 (ground arith) ∙ a35,
    )

copy_line-Placed :
    (first start count : ℕ) (line mem mem' : Ustring)
    → InHalf start count
    → Copied 1 line 4 (place start) count (headed mem first) mem'
    → Placed start count line mem mem'
copy_line-Placed first start count line mem mem' half (size, copied, kept) = (
  λ k h.
      ap (λ j. get_or mem' j 0) (place-add start count k half h)
      ∙ copied k h
      ∙ ap (λ j. get_or line j 0) (omega arith),
  λ b h o.
      let (low, gap) = place-room b h in
      kept (place b) (place-apart start count b half o) ∙ headed-else mem first (place b) low gap,
)

-- A line for a half of the block that the image is for goes to its bytes of the block.
pub copy_flash-Placed :
    (s : HexState) (count : ℕ)
    → IsSized s
    → InHalf (s.address % 32 * 2) count
    → count ≤ 60
    → s.address < 2 ^ 16
    → (mem : Ustring) × (copy_flash s count
        ≡ ok (
            again (record s {
              memory_block = mem;
              memory_block_number = s.address / 32;
              memory_block_process_state = 2;
              data_in_buffer_ready = false;
            })))
      × Addressed (s.address / 32 * 32) mem
      × Placed (s.address % 32 * 2) count s.line_buffer s.memory_block mem
unfolding copy_flash
copy_flash-Placed s count (m, l) half c a =
    let first = s.address / 32 * 32 in
    let start = s.address % 32 * 2 in
    let image = headed s.memory_block first in
    let size : length image ≡ 68 =
      length-set_word (set_word s.memory_block 0 first) 34 ((first + 0x10) % 2 ^ 16)
      ∙ length-set_word s.memory_block 0 first
      ∙ m in
    let h = place-half start count half in
    let (mem, g, copied) =
      copy_line-Copied 1 s.line_buffer count 4 (place start) image (omega (arith, size, h))
        (λ k h. omega (arith, l)) in
    (
      mem,
      rw (flash_dest-place s.address, g) refl,
      copy_line-Addressed first start count s.line_buffer image mem half copied
          (headed-Addressed s.memory_block first m (omega arith)),
      copy_line-Placed first start count s.line_buffer s.memory_block mem half copied,
    )

not_other_block :
    (number address : ℕ)
    → (number ≡ 0) ⊎ (number ≡ address / 32)
    → (not (number == 0) && not (number == address / 32)) ≡ false
not_other_block number address h = ground arith

pub flash_line-Placed :
    (s : HexState) (max_adr count : ℕ)
    → IsSized s
    → get_or s.line_buffer 0 0 ≡ count
    → InHalf (s.address % 32 * 2) count
    → count ≤ 60
    → s.address < 2 ^ 16
    → s.address + count / 2 ≤ max_adr
    → (s.memory_block_number ≡ 0) ⊎ (s.memory_block_number ≡ s.address / 32)
    → flash_line s max_adr ≡ copy_flash s count
unfolding flash_line
flash_line-Placed s max_adr count (m, l) e half c a inside b =
    let h = place-half (s.address % 32 * 2) count half in
    rw
      (
        load-inside s.line_buffer 0 (omega (arith, l)),
        e,
        clip-inside max_adr s.address count inside,
        flash_dest-place s.address,
        le→ltb_false memory_block_size (place (s.address % 32 * 2) + count) (omega (arith, h)),
        not_other_block s.memory_block_number s.address b,
      )
      refl
