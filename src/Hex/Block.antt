-- ===== src/Hex/Block.antt =====
-- `iqrfPgmPrepareMemBlock` of examples/PgmHex/PgmHex.cpp: the lines of the file are gathered into
-- an image of a block of memory. One round of the `while` loop is `prepare_round`; the loop runs on
-- fuel, the size of the file and two, which suffices since a round that goes on has read a line.
use clibcdc.Base.{
  Bool, Result, err, false, if◌then◌else◌, leb, length, ltb, no_fuel, not, ok, replicate, set, suc,
  true, zero, ℕ, ◌%◌, ◌&&◌, ◌*◌, ◌+◌, ◌-◌, ◌/◌, ◌==◌, ◌>>=◌, ◌^◌, ◌||◌,
}
use clibcdc.Hex.{ReadLine, end_of_file, file_data_error, file_data_ready, read_hex_file_line}
use clibcdc.Hex.Image.{
  BlockResult, HexState, Round, again, copy_line, eeeprom_block_ready, eeprom_block_ready,
  eeprom_max, eeprom_min, erased, flash_block_ready, gave, licenced_mem_max_adr,
  licenced_mem_min_adr, load, main_mem_max_adr, main_mem_min_adr, memory_block_size,
  move_overflowed_data, pgm_error, pgm_success, serial_eeprom_max_adr, serial_eeprom_min_adr,
  set_word, wrap_dest,
}

-- What precedes the loop.
unfoldable pub prepare_start : HexState → HexState
unfolding erased
prepare_start s = record s {
  memory_block = if s.data_overflow then s.memory_block else erased 34;
  memory_block_number = 0;
}

unfoldable pub block_ready : ℕ → BlockResult
block_ready number = if ltb number 80 then eeeprom_block_ready else flash_block_ready

-- The end of the file.
unfoldable pub at_end_of_file : HexState → Round
unfolding block_ready
at_end_of_file s =
    if s.memory_block_number == 0
    then if s.data_overflow
      then gave eeeprom_block_ready (move_overflowed_data s)
      else gave pgm_success s
    else gave (block_ready s.memory_block_number) s

-- A new image for the serial EEPROM.
unfoldable pub start_serial : HexState → HexState
start_serial s =
    let mem_block = (s.address - 0x200) / 32 * 32 in
    record s {
      memory_block =
          set_word (set_word (replicate 68 0) 34 mem_block) 0 ((mem_block + 0x20) % 2 ^ 16);
      memory_block_number = s.address / 32;
      memory_block_process_state = 1;
    }

-- The copy into the image of the serial EEPROM, and the end of its round.
unfoldable pub copy_serial : HexState → ℕ → ℕ → Result Round
unfolding copy_line
copy_serial s dest count =
    let overflow = ltb memory_block_size (dest + count) || s.data_overflow in
    do
      mem ← copy_line 2 wrap_dest count s.line_buffer 4 dest s.memory_block
      let s' : HexState = record s {
        memory_block = mem;
        data_overflow = overflow;
        data_in_buffer_ready = false;
      }
      ok (if overflow then gave eeeprom_block_ready s' else again s')

unfoldable pub serial_line : HexState → Result Round
serial_line s =
    let s' = if s.memory_block_number == 0 then start_serial s else s in
    do
      count ← load s.line_buffer 0
      if s'.memory_block_number == s.address / 32
          then copy_serial s' (s.address % 32 + 36) (count / 2)
          else ok (gave (block_ready s'.memory_block_number) s')

-- Where the bytes of a word of flash memory go in the image: its halves have two bytes of address
-- each.
unfoldable pub flash_dest : ℕ → ℕ
flash_dest address = let dest = address % 32 * 2 in if ltb dest 32 then dest + 2 else dest + 4

-- The number of bytes of a line that lie in an area.
unfoldable pub clip : ℕ → ℕ → ℕ → ℕ
clip max_adr address count =
    if ltb max_adr (address + count / 2) then (max_adr - address) * 2 % 256 else count

-- The end of a round on a line for flash memory.
unfoldable pub copy_flash : HexState → ℕ → Result Round
unfolding copy_line
copy_flash s count =
    let first = s.address / 32 * 32 in
    do
      mem ←
          copy_line 1 (λ dest. dest + 1) count s.line_buffer 4 (flash_dest s.address)
            (set_word (set_word s.memory_block 0 first) 34 ((first + 0x10) % 2 ^ 16))
      ok (
          again (record s {
            memory_block = mem;
            memory_block_number = s.address / 32;
            memory_block_process_state = 2;
            data_in_buffer_ready = false;
          }))

-- A line for the flash area that ends at `max_adr`.
unfoldable pub flash_line : HexState → ℕ → Result Round
unfolding clip flash_dest
flash_line s max_adr = do
  count ← load s.line_buffer 0
  if ltb memory_block_size (flash_dest s.address + clip max_adr s.address count)
      then ok (gave pgm_error s)
      else if not (s.memory_block_number == 0) && not (s.memory_block_number == s.address / 32)
      then ok (gave (block_ready s.memory_block_number) s)
      else copy_flash s (clip max_adr s.address count)

-- A line for the internal EEPROM.
unfoldable pub eeprom_line : HexState → Result Round
unfolding copy_line
eeprom_line s =
    if not (s.memory_block_number == 0) then ok (gave (block_ready s.memory_block_number) s) else do
      count ← load s.line_buffer 0
      let mem = set (set s.memory_block 0 (s.address % 256)) 1 (count / 2)
      if ltb eeprom_max (s.address + count / 2) || ltb 32 (count / 2)
          then ok (gave pgm_error (record s { memory_block = mem }))
          else do
            mem' ← copy_line 2 (λ dest. dest + 1) (count / 2) s.line_buffer 4 2 mem
            ok (
                gave eeprom_block_ready (record s {
                  memory_block = mem';
                  data_in_buffer_ready = false;
                  memory_block_process_state = 1;
                }))

abbrev pub within : ℕ → ℕ → ℕ → Bool
within low high a = leb low a && leb a high

-- A line of data, by the area of its address.
unfoldable pub area_line : HexState → Result Round
area_line s =
    if within serial_eeprom_min_adr serial_eeprom_max_adr s.address
    then serial_line s
    else if within main_mem_min_adr main_mem_max_adr s.address
    then flash_line s main_mem_max_adr
    else if within licenced_mem_min_adr licenced_mem_max_adr s.address
    then flash_line s licenced_mem_max_adr
    else if within eeprom_min eeprom_max s.address
    then eeprom_line s
    else ok (again (record s { data_in_buffer_ready = false }))

-- The address of a line, in words, and the move of what the line before left over.
unfoldable pub locate : HexState → ℕ → ℕ → HexState
unfolding move_overflowed_data
locate s b1 b2 =
    let s' : HexState = record s {
      address = (s.hi_address + b1 * 256 + b2) % 2 ^ 32 / 2 % 2 ^ 16;
    } in
    if s.data_overflow then move_overflowed_data s' else s'

-- A line in the buffer, by its type.
unfoldable pub process_line : HexState → Result Round
process_line s = do
  kind ← load s.line_buffer 3
  if kind == 0
      then (do b1 ← load s.line_buffer 1; b2 ← load s.line_buffer 2; area_line (locate s b1 b2))
      else if kind == 4
      then (do
        b4 ← load s.line_buffer 4
        b5 ← load s.line_buffer 5
        ok (
            again (record s {
              hi_address = (b4 * 2 ^ 24 + b5 * 2 ^ 16) % 2 ^ 32;
              data_in_buffer_ready = false;
            })))
      else ok (again (record s { data_in_buffer_ready = false }))

-- The line that was read, and what follows it.
unfoldable pub after_read : HexState → ReadLine → Result Round
after_read s r =
    let s' : HexState = record s { line_buffer = r.line_buffer; file = r.file } in
    elim (r.line_result) [
      | file_data_error ↦ ok (gave pgm_error s')
      | end_of_file ↦ ok (at_end_of_file s')
      | file_data_ready ↦ process_line (record s' { data_in_buffer_ready = true })
    ]

unfoldable pub prepare_round : HexState → Result Round
prepare_round s =
    if s.data_in_buffer_ready
    then process_line s
    else after_read s (read_hex_file_line s.file s.line_buffer)

unfoldable pub prepare_loop : ℕ → HexState → Result (BlockResult × HexState)
prepare_loop zero s = err no_fuel
prepare_loop (suc fuel) s = prepare_round s >>= λ r. elim r [
  | gave code s' ↦ ok (code, s')
  | again s' ↦ prepare_loop fuel s'
]

unfoldable pub prepare_mem_block : HexState → Result (BlockResult × HexState)
prepare_mem_block s = prepare_loop (length s.file + 2) (prepare_start s)
