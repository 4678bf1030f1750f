-- ===== src/Tests/Blocks.antt =====
-- Lines of a HEX file that are put into an image.
use clibcdc.Base.{
  Result, [], arith, err, false, inl, inr, ok, refl, replicate, true, ◌++◌, ◌<◌, ◌∷◌, ◌≡◌,
}
use clibcdc.Hex.{
  convert_to_num, find_line_start, is_line_end, nibble, read_byte_from_file, read_hex_file_line,
  read_pairs, to_lower,
}
use clibcdc.Hex.Block.{
  after_read, area_line, at_end_of_file, block_ready, clip, copy_flash, flash_dest, flash_line,
  locate, prepare_loop, prepare_mem_block, prepare_round, prepare_start, process_line,
}
use clibcdc.Hex.Ends.{Ended, prepare_mem_block-ends}
use clibcdc.Hex.Flash.{Stored, data_record, prepare_round-flash}
use clibcdc.Hex.Image.{
  BlockResult, HexState, again, copy_line, erased, flash_block_ready, is_block_ready,
}
use clibcdc.Hex.Less.{prepare_mem_block-progress}
use clibcdc.Hex.Line.{hex_line}
use clibcdc.Hex.Progress.{work}
use clibcdc.Types.{Ustring}

-- The state of the program before the first line of a file.
abbrev before_file : Ustring → HexState
before_file file = record {
  hi_address = 0;
  address = 0;
  memory_block_number = 0;
  memory_block_process_state = 0;
  data_in_buffer_ready = false;
  data_overflow = false;
  memory_block = replicate 68 0;
  line_buffer = replicate 64 0;
  file = file;
}

-- Two words at the word address 0x3A10, in the second half of a block.
abbrev two_words : Ustring
two_words = (0x8A ∷ 0x31 ∷ 0x00 ∷ 0x28 ∷ [])

abbrev pub two_words_file : Ustring
two_words_file =
    [] ++ (b':' ∷ (hex_line true (data_record 0x74 0x20 two_words 0x85) ++ (0x0A ∷ [])))

prepare_round-flash_example :
    (s' : HexState) × (prepare_round (before_file two_words_file) ≡ ok (again s'))
    × Stored 0x3A10 two_words [] (before_file two_words_file) s'
prepare_round-flash_example =
    prepare_round-flash true 0x74 0x20 0x3A10 0x85 two_words [] [] (before_file two_words_file)
      (refl, refl) refl refl refl tt
      (
        omega arith,
        (
          omega arith,
          (
            omega arith,
            (
              omega arith,
              (omega arith, (omega arith, (omega arith, (omega arith, (omega arith, tt))))),
            ),
          ),
        ),
      )
      refl refl (inl (omega arith, omega arith)) (inr (omega arith, omega arith)) (omega arith)
      (inl refl)

prepare_mem_block-ends_example :
    Ended
      (prepare_start (before_file two_words_file))
      (prepare_mem_block (before_file two_words_file))
prepare_mem_block-ends_example = prepare_mem_block-ends (before_file two_words_file) (refl, refl)

-- The state that a call leaves.
abbrev left_by : Result (BlockResult × HexState) → HexState → HexState
left_by (ok (code, s)) otherwise = s
left_by (err e) otherwise = otherwise

abbrev prepared : HexState
prepared = left_by (prepare_mem_block (before_file two_words_file)) (before_file [])

two_words_prepared :
    prepare_mem_block (before_file two_words_file) ≡ ok (flash_block_ready, prepared)
unfolding prepare_mem_block prepare_loop prepare_start erased prepare_round after_read process_line
    locate area_line flash_line clip flash_dest copy_flash copy_line block_ready at_end_of_file
    read_hex_file_line read_pairs find_line_start read_byte_from_file is_line_end to_lower
    convert_to_num nibble
two_words_prepared = refl

flash_ready : is_block_ready flash_block_ready ≡ true
unfolding is_block_ready
flash_ready = refl

prepare_mem_block-progress_example : work prepared < work (before_file two_words_file)
prepare_mem_block-progress_example =
    prepare_mem_block-progress (before_file two_words_file) prepared flash_block_ready
      two_words_prepared flash_ready
