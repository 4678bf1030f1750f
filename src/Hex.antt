-- ===== src/Hex.antt =====
-- The reading of a line of a HEX file: `iqrfPgmConvertToNum`, `iqrfReadByteFromFile` and
-- `iqrfPgmReadHEXFileLine` of examples/PgmHex/PgmHex.cpp. The file is the list of the bytes that
-- are still to be read. `tolower` is that of the C locale.
pub mod Line
pub mod Image
pub mod Block
pub mod Bounds
pub mod Ends
pub mod Copy
pub mod Placement
pub mod Flash
pub mod Progress
pub mod Less
pub mod Refusal
pub mod Stop
pub mod Eeprom
use clibcdc.Base.{
  Bool, [], false, if◌then◌else◌, leb, set, suc, true, zero, ℕ, ◌%◌, ◌&&◌, ◌*◌, ◌+◌, ◌-◌, ◌==◌,
  ◌||◌, ◌∷◌,
}
use clibcdc.Types.{Ustring}

-- The return codes of a read line.
pub data LineResult : Type 0 where
  file_data_ready file_data_error end_of_file : LineResult

-- One ASCII digit; other characters count as zero.
unfoldable pub nibble : ℕ → ℕ
nibble c =
    if leb b'0' c && leb c b'9' then c - b'0' else if leb b'a' c && leb c b'f' then c - 87 else 0

-- The high digit is shifted left by 4, so that `|` adds the low one.
unfoldable pub convert_to_num : ℕ → ℕ → ℕ
convert_to_num data_byte_hi data_byte_lo = nibble data_byte_hi * 16 % 256 + nibble data_byte_lo

unfoldable pub to_lower : ℕ → ℕ
to_lower c = if leb b'A' c && leb c b'Z' then c + 32 else c

-- The next character, 0 at the end of the file, and the file behind it.
unfoldable pub read_byte_from_file : Ustring → ℕ × Ustring
read_byte_from_file [] = (0, [])
read_byte_from_file (c ∷ cs) = (c, cs)

-- The loop for the start of a line: the sign that ends it, and the file behind it.
unfoldable pub find_line_start : Ustring → ℕ × Ustring
find_line_start [] = (0, [])
find_line_start (c ∷ cs) =
    let rest = find_line_start cs in if c == 0 || c == b':' then (c, cs) else rest

abbrev pub line_buffer_size : ℕ
line_buffer_size = 64

-- A read line: the return code, the file behind it and `IqrfPgmCodeLineBuffer`.
pub record ReadLine : Type 0 where
  pub line_result : LineResult
  pub file : Ustring
  pub line_buffer : Ustring

unfoldable pub is_line_end : ℕ → Bool
is_line_end c = c == 0x0A || c == 0x0D

-- The loop over the pairs of digits; `room` is what the buffer has left behind `ptr`, and the
-- loop returns when there is none.
unfoldable pub read_pairs : ℕ → ℕ → ℕ → Ustring → Ustring → ReadLine
unfolding convert_to_num
read_pairs zero ptr crc file buffer = record {
  line_result = file_data_error;
  file = file;
  line_buffer = buffer;
}
read_pairs (suc room) ptr crc file buffer =
    let (hi, file1) = read_byte_from_file file in
    elim (is_line_end (to_lower hi)) [
      | true ↦ record {
        line_result = if crc == 0 then file_data_ready else file_data_error;
        file = file1;
        line_buffer = buffer;
      }
      | false ↦
          let (lo, file2) = read_byte_from_file file1 in
          let data_byte = convert_to_num (to_lower hi) (to_lower lo) in
          read_pairs room (ptr + 1) ((crc + data_byte) % 256) file2 (set buffer ptr data_byte)
    ]

unfoldable pub read_hex_file_line : Ustring → Ustring → ReadLine
unfolding find_line_start read_pairs
read_hex_file_line file buffer =
    let (sign, file1) = find_line_start file in
    if sign == 0
    then record { line_result = end_of_file; file = file1; line_buffer = buffer }
    else read_pairs line_buffer_size 0 0 file1 buffer
