-- ===== src/Examples/Plugin.antt =====
-- examples/PgmIqrf/PgmIqrf.cpp: a plugin file is read line by line and uploaded. Its
-- `iqrfPgmConvertToNum` and `iqrfReadByteFromFile` are those of examples/PgmHex/PgmHex.cpp, letter
-- for letter, and are taken from there. The arguments and the opening of the file are left out.
use clibcdc.Base.{
  Result, [], err, false, if◌then◌else◌, leb, length, no_fuel, ok, replicate, set, suc, take, true,
  zero, ℕ, ◌+◌, ◌==◌, ◌||◌, ◌∷◌,
}
use clibcdc.Examples.Device.{Device, and_then, printed, programming_session}
use clibcdc.Hex.{
  LineResult, ReadLine, convert_to_num, end_of_file, file_data_error, file_data_ready,
  read_byte_from_file, to_lower,
}
use clibcdc.Types.{Ustring}

-- The loop behind a `#`: the sign that ends it, and the file behind it.
unfoldable pub skip_comment : Ustring → ℕ × Ustring
skip_comment [] = (0, [])
skip_comment (c ∷ cs) = let rest = skip_comment cs in if c == 0 || c == 0x0D then (c, cs) else rest

-- The first character of a round, past a comment.
unfoldable pub first_char : Ustring → ℕ × Ustring
unfolding skip_comment
first_char file =
    let (c, file1) = read_byte_from_file file in
    if to_lower c == b'#' then skip_comment file1 else (to_lower c, file1)

abbrev pub line_end : LineResult → Ustring → Ustring → Result ReadLine
line_end result file buffer =
    ok (record { line_result = result; file = file; line_buffer = buffer })

-- A round of `iqrfPgmReadIQRFFileLine` from its first character on; `next` are the rounds that
-- follow `goto repeat_read`.
unfoldable pub read_plugin_round :
    (ℕ → Ustring → Ustring → Result ReadLine) → ℕ → Ustring → ℕ × Ustring → Result ReadLine
read_plugin_round next ptr buffer (c, file) =
    let (after, file1) = read_byte_from_file file in
    elim (c == 0x0D) [
      | true ↦ elim (ptr == 0) [
        | true ↦ next ptr file1 buffer
        | false ↦ line_end (if ptr == 20 then file_data_ready else file_data_error) file1 buffer
      ]
      | false ↦ elim (c == 0) [
        | true ↦ line_end end_of_file file buffer
        | false ↦ elim (leb 20 ptr) [
          | true ↦ line_end file_data_error file1 buffer
          | false ↦ next (ptr + 1) file1 (set buffer ptr (convert_to_num c (to_lower after)))
        ]
      ]
    ]

-- The rounds. One that goes on has taken a character from the file, so that its size and one are
-- enough fuel.
unfoldable pub read_plugin_loop : ℕ → ℕ → Ustring → Ustring → Result ReadLine
unfolding read_plugin_round
read_plugin_loop zero ptr file buffer = err no_fuel
read_plugin_loop (suc fuel) ptr file buffer =
    read_plugin_round (read_plugin_loop fuel) ptr buffer (first_char file)

unfoldable pub read_plugin_line : Ustring → Ustring → Result ReadLine
unfolding read_plugin_loop
read_plugin_line file buffer = read_plugin_loop (length file + 1) 0 file buffer

module _ {S : Type 0} (device : Device S) where
  -- The loop over the lines. A round that goes on has read a line, so that the size of the file and
  -- one are enough fuel.
  unfoldable pub write_plugin : ℕ → Ustring → Ustring → S → Result (Unit {0}) × S
  write_plugin zero file buffer s = (err no_fuel, s)
  write_plugin (suc fuel) file buffer s = elim (read_plugin_line file buffer) [
    | err e ↦ (err e, s)
    | ok r ↦ elim (r.line_result) [
      | file_data_ready ↦
          and_then (printed (device.upload 0x88 (take 20 r.line_buffer) s))
            (write_plugin fuel r.file r.line_buffer)
      | _ ↦ (ok tt, s)
    ]
  ]

  unfoldable pub plugin_main : Ustring → S → Result ℕ × S
  unfolding write_plugin
  plugin_main file s =
      programming_session device (write_plugin (length file + 1) file (replicate 64 0)) s
