-- ===== src/Hex/Image.antt =====
-- The state of examples/PgmHex/PgmHex.cpp, its image of a block of memory and the copies into it,
-- with `iqrfPgmMoveOverflowedData`. An access behind the end of an array is `undefined`.
use clibcdc.Base.{
  Bool, Result, [], err, false, get_elem?, get_or, if◌then◌else◌, length, ltb, ok, or_fail,
  replicate, set, suc, take, true, undefined, zero, ℕ, ◌%◌, ◌*◌, ◌++◌, ◌+◌, ◌/◌, ◌==◌, ◌>>=◌, ◌^◌,
  ◌∷◌,
}
use clibcdc.Types.{Ustring}

-- The return codes of a prepared block.
pub data BlockResult : Type 0 where
  pgm_success flash_block_ready eeprom_block_ready eeeprom_block_ready pgm_error : BlockResult

-- The codes of a block that is to be uploaded.
unfoldable pub is_block_ready : BlockResult → Bool
is_block_ready flash_block_ready = true
is_block_ready eeprom_block_ready = true
is_block_ready eeeprom_block_ready = true
is_block_ready _ = false

-- `PrepareMemBlock`, `IqrfPgmCodeLineBuffer` and what is left of the file.
pub record HexState : Type 0 where
  pub hi_address : ℕ
  pub address : ℕ
  pub memory_block_number : ℕ
  pub memory_block_process_state : ℕ
  pub data_in_buffer_ready : Bool
  pub data_overflow : Bool
  pub memory_block : Ustring
  pub line_buffer : Ustring
  pub file : Ustring

-- How a round ends: with a `return`, or in a state for the next round.
pub data Round : Type 0 where
  gave : BlockResult → HexState → Round
  again : HexState → Round

abbrev pub memory_block_size : ℕ
memory_block_size = 68

abbrev pub serial_eeprom_min_adr : ℕ
serial_eeprom_min_adr = 0x0200

abbrev pub serial_eeprom_max_adr : ℕ
serial_eeprom_max_adr = 0x09FF

abbrev pub licenced_mem_min_adr : ℕ
licenced_mem_min_adr = 0x2C00

abbrev pub licenced_mem_max_adr : ℕ
licenced_mem_max_adr = 0x37BF

abbrev pub main_mem_min_adr : ℕ
main_mem_min_adr = 0x3A00

abbrev pub main_mem_max_adr : ℕ
main_mem_max_adr = 0x3FFF

abbrev pub eeprom_min : ℕ
eeprom_min = 0xF000

abbrev pub eeprom_max : ℕ
eeprom_max = 0xF0FF

-- Writes of a 16-bit value, low byte first.
abbrev pub set_word : Ustring → ℕ → ℕ → Ustring
set_word mem pos v = set (set mem pos (v % 256)) (pos + 1) (v / 256 % 256)

abbrev pub load : Ustring → ℕ → Result ℕ
load bytes i = or_fail (get_elem? bytes i) undefined

abbrev pub store : Ustring → ℕ → ℕ → Result Ustring
store mem i v = if ltb i (length mem) then ok (set mem i v) else err undefined

-- The copies from the line buffer: `n` bytes, read at `i`, `i + stride` and so on, and written from
-- `dest` on, where `next` gives the place after a place.
unfoldable pub copy_line : ℕ → (ℕ → ℕ) → ℕ → Ustring → ℕ → ℕ → Ustring → Result Ustring
copy_line stride next zero line i dest mem = ok mem
copy_line stride next (suc n) line i dest mem = do
  c ← load line i
  mem' ← store mem dest c
  copy_line stride next n line (i + stride) (next dest) mem'

-- The place after a place in the image of the serial EEPROM, which goes on at its beginning.
abbrev pub wrap_dest : ℕ → ℕ
wrap_dest dest = if dest + 1 == 68 then 2 else dest + 1

unfoldable pub move_overflowed_data : HexState → HexState
move_overflowed_data s =
    let low : Ustring = take 34 s.memory_block in
    let mem_block = (get_or low 1 0 * 256 + get_or low 0 0) / 32 in
    record s {
      memory_block = set_word (replicate 34 0 ++ low) 0 ((mem_block + 1) * 32 % 2 ^ 16);
      memory_block_number = (mem_block + 0x10) % 2 ^ 16;
      data_overflow = false;
      memory_block_process_state = 1;
    }

-- The erased image.
unfoldable pub erased : ℕ → Ustring
erased zero = []
erased (suc n) = 0xFF ∷ 0x3F ∷ erased n
