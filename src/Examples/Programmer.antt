-- ===== src/Examples/Programmer.antt =====
-- `main` of examples/PgmHex/PgmHex.cpp: the blocks of a HEX file are prepared (Hex) and uploaded. The
-- arguments and the opening of the file are left out. A block that reached behind the end of its
-- image would be `undefined`.
use clibcdc.Base.{
  Result, drop, err, false, get_or, if◌then◌else◌, length, ltb, no_fuel, ok, replicate, set, suc,
  take, true, undefined, zero, ℕ, ◌*◌, ◌+◌, ◌==◌,
}
use clibcdc.Examples.Device.{Device, and_then, printed, programming_session}
use clibcdc.Hex.Block.{prepare_mem_block}
use clibcdc.Hex.Image.{BlockResult, HexState, eeprom_block_ready, flash_block_ready, is_block_ready}
use clibcdc.Types.{Ustring}

abbrev slice : Ustring → ℕ → ℕ → Result Ustring
slice mem from size =
    if ltb (length mem) (from + size) then err undefined else ok (take size (drop from mem))

-- What is uploaded with `state` rounds to go: the target, and where the bytes begin and how many
-- they are.
unfoldable pub block_part : BlockResult → ℕ → Ustring → ℕ × (ℕ × ℕ)
block_part flash_block_ready state mem = (0x85, ((if state == 2 then 0 else 34), 34))
block_part eeprom_block_ready state mem = (0x86, (0, get_or mem 1 0 + 2))
block_part _ state mem = (0x87, (34, 34))

-- The image that a round uploads from and leaves: the size of a block for the internal EEPROM is
-- cleared, which makes it the high byte of the address.
unfoldable pub image_after : BlockResult → Ustring → Ustring
image_after eeprom_block_ready mem = set mem 1 0
image_after _ mem = mem

unfoldable pub after_rounds : BlockResult → ℕ → HexState → HexState
after_rounds code zero h = record h { memory_block_process_state = 0 }
after_rounds code (suc n) h =
    after_rounds code n (record h { memory_block = image_after code h.memory_block })

-- The state before the first block.
abbrev pub initial : Ustring → HexState
initial file = record {
  hi_address = 0;
  address = 0;
  memory_block_number = 0;
  memory_block_process_state = 0;
  data_in_buffer_ready = false;
  data_overflow = false;
  memory_block = replicate 68 0;
  line_buffer = replicate 64 0;
  file = file;
}

module _ {S : Type 0} (device : Device S) where
  -- The upload of a piece of the image.
  unfoldable pub upload_slice : ℕ → Result Ustring → S → Result (Unit {0}) × S
  unfolding printed
  upload_slice target (ok bytes) s = printed (device.upload target bytes s)
  upload_slice target (err e) s = (err e, s)

  unfoldable pub upload_part : ℕ × (ℕ × ℕ) → Ustring → S → Result (Unit {0}) × S
  unfolding upload_slice
  upload_part (target, (from, size)) mem s = upload_slice target (slice mem from size) s

  -- The rounds for a block, `n` of them.
  unfoldable pub write_rounds : BlockResult → ℕ → Ustring → S → Result (Unit {0}) × S
  unfolding block_part image_after upload_part and_then
  write_rounds code zero mem s = (ok tt, s)
  write_rounds code (suc n) mem s =
      and_then (upload_part (block_part code (suc n) mem) (image_after code mem) s)
        (write_rounds code n (image_after code mem))

  -- The loop over the blocks. Each block leaves less to do, so that what there is to do, and one, is
  -- enough fuel.
  unfoldable pub program_blocks : ℕ → HexState → S → Result (Unit {0}) × S
  unfolding is_block_ready write_rounds after_rounds and_then
  program_blocks zero h s = (err no_fuel, s)
  program_blocks (suc fuel) h s = elim (prepare_mem_block h) [
    | err e ↦ (err e, s)
    | ok (code, h') ↦ elim (is_block_ready code) [
      | false ↦ (ok tt, s)
      | true ↦
          and_then (write_rounds code h'.memory_block_process_state h'.memory_block s)
            (program_blocks fuel (after_rounds code h'.memory_block_process_state h'))
    ]
  ]

  unfoldable pub hex_main : Ustring → S → Result ℕ × S
  unfolding program_blocks
  hex_main file s =
      programming_session device (program_blocks (2 * length file + 1) (initial file)) s
