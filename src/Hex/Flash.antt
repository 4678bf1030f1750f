-- ===== src/Hex/Flash.antt =====
-- A data record for flash memory, from the file into the image: examples/PgmHex/PgmHex.cpp.
use clibcdc.Base.{
  All, Bool, [], ap, arith, drop, false, get_or, if_false, if_true, if◌then◌else◌, inl, inr, length,
  length-append, length-drop, ok, refl, suc, true, zero, ℕ, ◌%◌, ◌*◌, ◌++◌, ◌+◌, ◌/◌, ◌<◌, ◌==◌,
  ◌^◌, ◌∙◌, ◌∷◌, ◌≡◌, ◌≢◌, ◌≤◌, ◌⊎◌,
}
use clibcdc.Hex.{file_data_error, file_data_ready, line_buffer_size, read_hex_file_line}
use clibcdc.Hex.Block.{
  after_read, area_line, flash_line, locate, prepare_round, process_line, within,
}
use clibcdc.Hex.Bounds.{IsSized}
use clibcdc.Hex.Image.{
  HexState, again, licenced_mem_max_adr, licenced_mem_min_adr, load, main_mem_max_adr,
  main_mem_min_adr, serial_eeprom_max_adr, serial_eeprom_min_adr,
}
use clibcdc.Hex.Line.{hex_line, read_hex_file_line-hex, sum}
use clibcdc.Hex.Placement.{
  Addressed, InFlash, InHalf, copy_flash-Placed, flash_byte, flash_line-Placed,
}
use clibcdc.Types.{IsBytes, Ustring}

-- A data record of a HEX file: count, address, type, data and checksum.
abbrev pub data_record : ℕ → ℕ → Ustring → ℕ → Ustring
data_record b1 b2 bytes checksum = length bytes ∷ b1 ∷ b2 ∷ 0 ∷ (bytes ++ (checksum ∷ []))

-- A state that reads a line goes on with the line in its buffer.
prepare_round-line :
    (s : HexState) (line rest : Ustring)
    → s.data_in_buffer_ready ≡ false
    → read_hex_file_line s.file s.line_buffer
      ≡ record { line_result = file_data_ready; file = rest; line_buffer = line }
    → prepare_round s
      ≡ process_line (record s { line_buffer = line; file = rest; data_in_buffer_ready = true })
unfolding prepare_round after_read
prepare_round-line s line rest e r = if_false s.data_in_buffer_ready _ _ e ∙ ap (after_read s) r

locate-plain :
    (s : HexState) (b1 b2 address : ℕ)
    → s.data_overflow ≡ false
    → s.hi_address + b1 * 256 + b2 ≡ address * 2
    → address < 2 ^ 16
    → locate s b1 b2 ≡ record s { address = address }
unfolding locate
locate-plain s b1 b2 address o e a =
    let word : (s.hi_address + b1 * 256 + b2) % 2 ^ 32 / 2 % 2 ^ 16 ≡ address = omega (arith, e) in
    if_false s.data_overflow _ _ o ∙ ap (λ w. record s { address = w }) word

within-true : (low high a : ℕ) → low ≤ a → a ≤ high → within low high a ≡ true
within-true low high a l h = ground arith

within-above : (low high a : ℕ) → high < a → within low high a ≡ false
within-above low high a h = ground arith

within-below : (low high a : ℕ) → a < low → within low high a ≡ false
within-below low high a h = ground arith

area_line-flash :
    (s : HexState) (last : ℕ)
    → InFlash s.address last
    → s.address ≤ last
    → (max_adr : ℕ) × (last ≤ max_adr) × (area_line s ≡ flash_line s max_adr)
unfolding area_line
area_line-flash s last (inl (low, high)) h = (
  main_mem_max_adr,
  high,
  if_false (within serial_eeprom_min_adr serial_eeprom_max_adr s.address) _ _
        (within-above serial_eeprom_min_adr serial_eeprom_max_adr s.address (omega arith))
      ∙ if_true (within main_mem_min_adr main_mem_max_adr s.address) _ _
          (within-true main_mem_min_adr main_mem_max_adr s.address low (omega arith)),
)
area_line-flash s last (inr (low, high)) h = (
  licenced_mem_max_adr,
  high,
  if_false (within serial_eeprom_min_adr serial_eeprom_max_adr s.address) _ _
        (within-above serial_eeprom_min_adr serial_eeprom_max_adr s.address (omega arith))
      ∙ if_false (within main_mem_min_adr main_mem_max_adr s.address) _ _
          (within-below main_mem_min_adr main_mem_max_adr s.address (omega arith))
      ∙ if_true (within licenced_mem_min_adr licenced_mem_max_adr s.address) _ _
          (within-true licenced_mem_min_adr licenced_mem_max_adr s.address low (omega arith)),
)

InFlash-bound : (address last : ℕ) → InFlash address last → address ≤ last → address < 2 ^ 16
InFlash-bound address last (inl h) l = omega (arith, h)
InFlash-bound address last (inr h) l = omega (arith, h)

get_or-suc4 :
    (a b c d : ℕ) (bytes : Ustring) (k : ℕ)
    → get_or (a ∷ b ∷ c ∷ d ∷ bytes) (4 + k) 0 ≡ get_or bytes k 0
get_or-suc4 a b c d bytes k =
    let e : 4 + k ≡ suc (suc (suc (suc k))) = omega arith in
    ap (λ j. get_or (a ∷ b ∷ c ∷ d ∷ bytes) j 0) e

get_or-append_left :
    (xs ys : Ustring) (k : ℕ) → k < length xs → get_or (xs ++ ys) k 0 ≡ get_or xs k 0
get_or-append_left [] ys k h = absurd (omega arith)
get_or-append_left (x ∷ xs) ys zero h = refl
get_or-append_left (x ∷ xs) ys (suc k) h = get_or-append_left xs ys k (omega arith)

-- What a data record for flash memory makes of a state.
abbrev pub Stored : ℕ → Ustring → Ustring → HexState → HexState → Type 0
Stored address bytes rest s s' =
    (s'.file ≡ rest)
    × (s'.data_in_buffer_ready ≡ false)
    × (s'.memory_block_number ≡ address / 32)
    × (s'.memory_block_process_state ≡ 2)
    × Addressed (address / 32 * 32) s'.memory_block
    × ((k : ℕ)
        → k < length bytes
        → flash_byte s'.memory_block (address % 32 * 2 + k) ≡ get_or bytes k 0)
    × ((b : ℕ)
        → b < 64
        → (b < address % 32 * 2) ⊎ (address % 32 * 2 + length bytes ≤ b)
        → flash_byte s'.memory_block b ≡ flash_byte s.memory_block b)

-- The record in the buffer, processed.
process_line-flash :
    (s : HexState) (b1 b2 address checksum : ℕ) (bytes tail : Ustring)
    → IsSized s
    → s.data_overflow ≡ false
    → s.line_buffer ≡ data_record b1 b2 bytes checksum ++ tail
    → s.hi_address + b1 * 256 + b2 ≡ address * 2
    → InFlash address (address + length bytes / 2)
    → InHalf (address % 32 * 2) (length bytes)
    → length bytes ≤ 58
    → (s.memory_block_number ≡ 0) ⊎ (s.memory_block_number ≡ address / 32)
    → (s' : HexState) × (process_line s ≡ ok (again s')) × Stored address bytes s.file s s'
unfolding process_line
process_line-flash s b1 b2 address checksum bytes tail h o l e area half n block =
    let bound = InFlash-bound address (address + length bytes / 2) area (omega arith) in
    let located : HexState = record s { address = address } in
    let (max_adr, inside, chosen) =
      area_line-flash located (address + length bytes / 2) area (omega arith) in
    let line = data_record b1 b2 bytes checksum ++ tail in
    let kind : load s.line_buffer 3 ≡ ok 0 = ap (λ b. load b 3) l in
    let low : load s.line_buffer 1 ≡ ok b1 = ap (λ b. load b 1) l in
    let high : load s.line_buffer 2 ≡ ok b2 = ap (λ b. load b 2) l in
    let loads : process_line s ≡ area_line (locate s b1 b2) = rw (kind, low, high) refl in
    let (mem, g, headers, (placed, kept)) =
      copy_flash-Placed located (length bytes) h half (omega arith) bound in
    (
      record located {
        memory_block = mem;
        memory_block_number = address / 32;
        memory_block_process_state = 2;
        data_in_buffer_ready = false;
      },
      loads
          ∙ ap area_line (locate-plain s b1 b2 address o e bound)
          ∙ chosen
          ∙ flash_line-Placed located max_adr (length bytes) h (ap (λ b. get_or b 0 0) l) half
              (omega arith) bound inside block
          ∙ g,
      (
        refl,
        refl,
        refl,
        refl,
        headers,
        (λ k i.
            placed k i
            ∙ ap (λ b. get_or b (4 + k) 0) l
            ∙ get_or-suc4 (length bytes) b1 b2 0 ((bytes ++ (checksum ∷ [])) ++ tail) k
            ∙ get_or-append_left (bytes ++ (checksum ∷ [])) tail k
                (omega (arith, length-append bytes (checksum ∷ [])))
            ∙ get_or-append_left bytes (checksum ∷ []) k i),
        kept,
      ),
    )

-- A round with no line in the buffer and no data overflowed reads a data record, printed in digits of
-- either case behind text with no colon and no NUL, of bytes that add up to 0 modulo 256. If the
-- record has at most 58 bytes of data, its words end below the last word of their flash area and lie
-- in one half of a block, and the image is empty or of that block, the round puts each byte in its
-- place, sets the addresses of both halves, leaves the other bytes of the block, and goes on behind
-- the record.
pub prepare_round-flash :
    (upper : Bool) (b1 b2 address checksum : ℕ) (bytes junk rest : Ustring) (s : HexState)
    → IsSized s
    → s.data_in_buffer_ready ≡ false
    → s.data_overflow ≡ false
    → s.file ≡ junk ++ (b':' ∷ (hex_line upper (data_record b1 b2 bytes checksum) ++ (0x0A ∷ rest)))
    → All (λ c. (c ≢ b':') × (c ≢ 0)) junk
    → IsBytes (data_record b1 b2 bytes checksum)
    → sum (data_record b1 b2 bytes checksum) % 256 ≡ 0
    → s.hi_address + b1 * 256 + b2 ≡ address * 2
    → InFlash address (address + length bytes / 2)
    → InHalf (address % 32 * 2) (length bytes)
    → length bytes ≤ 58
    → (s.memory_block_number ≡ 0) ⊎ (s.memory_block_number ≡ address / 32)
    → (s' : HexState) × (prepare_round s ≡ ok (again s')) × Stored address bytes rest s s'
prepare_round-flash upper b1 b2 address checksum bytes junk rest s (m, l) ready o f a v c e area
      half n block =
    let xs = data_record b1 b2 bytes checksum in
    let tail = drop (length xs) s.line_buffer in
    let size : length xs ≡ length bytes + 5 = omega (arith, length-append bytes (checksum ∷ [])) in
    let read : read_hex_file_line s.file s.line_buffer
        ≡ record { line_result = file_data_ready; file = rest; line_buffer = xs ++ tail } =
      ap (λ file. read_hex_file_line file s.line_buffer) f
      ∙ read_hex_file_line-hex upper xs junk rest s.line_buffer v (omega (arith, size)) l a
      ∙ ap
          (λ t. record {
            line_result = if t == 0 then file_data_ready else file_data_error;
            file = rest;
            line_buffer = xs ++ tail;
          })
          c in
    let s1 : HexState = record s {
      line_buffer = xs ++ tail;
      file = rest;
      data_in_buffer_ready = true;
    } in
    let kept : length (xs ++ tail) ≡ line_buffer_size =
      omega (arith, l, size, length-append xs tail, length-drop (length xs) s.line_buffer) in
    let (s', g, stored) =
      process_line-flash s1 b1 b2 address checksum bytes tail (m, kept) o refl e area half n
        block in
    (s', prepare_round-line s (xs ++ tail) rest ready read ∙ g, stored)
