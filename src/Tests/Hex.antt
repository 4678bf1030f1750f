-- ===== src/Tests/Hex.antt =====
-- A line of a HEX file that is read.
use clibcdc.Base.{[], arith, refl, replicate, true, ◌++◌, ◌∷◌, ◌≡◌}
use clibcdc.Hex.{file_data_ready, line_buffer_size, read_hex_file_line}
use clibcdc.Hex.Line.{hex_line, read_hex_file_line-hex}

-- Two bytes that add up to 256, behind the end of the line before.
read_hex_file_line-hex_example :
    read_hex_file_line
      ((0x0D ∷ []) ++ (b':' ∷ (hex_line true (0x1F ∷ 0xE1 ∷ []) ++ (0x0A ∷ b':' ∷ []))))
      (replicate line_buffer_size 0)
    ≡ record {
      line_result = file_data_ready;
      file = b':' ∷ [];
      line_buffer = 0x1F ∷ 0xE1 ∷ replicate 62 0;
    }
read_hex_file_line-hex_example =
    read_hex_file_line-hex true (0x1F ∷ 0xE1 ∷ []) (0x0D ∷ []) (b':' ∷ [])
      (replicate line_buffer_size 0) (omega arith, (omega arith, tt)) (omega arith) refl
      ((λ e. omega (arith, e), λ e. omega (arith, e)), tt)
