-- ===== src/Examples/Programmed.antt =====
-- The upload of a HEX file by examples/PgmHex/PgmHex.cpp comes to its end.
use clibcdc.Base.{
  Bool, Result, ap, arith, drop, err, false, get_or, if_false, inl, inr, length, length-set, ltb,
  ok, refl, set, suc, take, true, undefined, zero, ℕ, ◌*◌, ◌+◌, ◌<◌, ◌∙◌, ◌≡◌, ◌≤◌, ◌⊎◌,
}
use clibcdc.Examples.Device.{Device, and_then, is_tolerated, printed}
use clibcdc.Examples.Memory.{blocks}
use clibcdc.Examples.Programmer.{
  after_rounds, block_part, image_after, initial, program_blocks, upload_part, upload_slice,
  write_rounds,
}
use clibcdc.Hex.Block.{prepare_mem_block, prepare_start}
use clibcdc.Hex.Bounds.{IsSized}
use clibcdc.Hex.Eeprom.{get_or-set_le, prepare_mem_block-IsSmall}
use clibcdc.Hex.Ends.{Rounds, line_of, prepare_mem_block-ends}
use clibcdc.Hex.Image.{
  BlockResult, HexState, eeeprom_block_ready, eeprom_block_ready, flash_block_ready, is_block_ready,
  pgm_error, pgm_success,
}
use clibcdc.Hex.Less.{prepare_mem_block-progress}
use clibcdc.Hex.Progress.{work}
use clibcdc.Hex.Stop.{Stopped, prepare_mem_block-Stopped}
use clibcdc.Types.{PmResponse, Ustring}

-- The calls of `prepare_mem_block` on the way through a file, with the uploads between them.
pub data Blocks : HexState → HexState → Type 0 where
  no_more : {h : HexState} → Blocks h h
  then_more :
      {h h' t : HexState} (code : BlockResult)
      → prepare_mem_block h ≡ ok (code, h')
      → Blocks (after_rounds code h'.memory_block_process_state h') t
      → Blocks h t

-- The uploads raise no exception but those that the program catches.
abbrev pub IsTolerable : {A : Type 0} → Result A → Type 0
IsTolerable (ok a) = Unit
IsTolerable (err e) = is_tolerated e ≡ true

after_rounds-frame :
    (code : BlockResult) (n : ℕ) (h : HexState)
    → IsSized h
    → IsSized (after_rounds code n h) × (work (after_rounds code n h) ≡ work h)
unfolding after_rounds image_after
after_rounds-frame code zero h s = (s, refl)
after_rounds-frame eeprom_block_ready (suc n) h (m, l) =
    after_rounds-frame eeprom_block_ready n (record h { memory_block = set h.memory_block 1 0 })
      (length-set h.memory_block 1 0 ∙ m, l)
after_rounds-frame flash_block_ready (suc n) h s = after_rounds-frame flash_block_ready n h s
after_rounds-frame eeeprom_block_ready (suc n) h s = after_rounds-frame eeeprom_block_ready n h s
after_rounds-frame pgm_success (suc n) h s = after_rounds-frame pgm_success n h s
after_rounds-frame pgm_error (suc n) h s = after_rounds-frame pgm_error n h s

-- A block that fits its image.
abbrev Fits : BlockResult → Ustring → Type 0
Fits code mem = (length mem ≡ 68) × (code ≡ eeprom_block_ready → get_or mem 1 0 ≤ 32)

part-inside :
    (code : BlockResult) (n : ℕ) (mem : Ustring)
    → Fits code mem
    → let (target, (from, size)) = block_part code n mem in from + size ≤ 68
unfolding block_part
part-inside flash_block_ready n mem f = ground arith
part-inside eeprom_block_ready n mem (l, f) = omega (arith, f refl)
part-inside eeeprom_block_ready n mem f = omega arith
part-inside pgm_success n mem f = omega arith
part-inside pgm_error n mem f = omega arith

image_after-Fits :
    (code : BlockResult) (mem : Ustring) → Fits code mem → Fits code (image_after code mem)
unfolding image_after
image_after-Fits eeprom_block_ready mem (l, f) =
    (length-set mem 1 0 ∙ l, λ e. omega (arith, get_or-set_le mem 1 0))
image_after-Fits flash_block_ready mem f = f
image_after-Fits eeeprom_block_ready mem f = f
image_after-Fits pgm_success mem f = f
image_after-Fits pgm_error mem f = f

module _ {S : Type 0} (device : Device S)
    (tolerable : (target : ℕ) (bytes : Ustring) (s : S)
      → IsTolerable (device.upload target bytes s).0) where
  printed-ok : (r : Result PmResponse × S) → IsTolerable r.0 → (s : S) × (printed r ≡ (ok tt, s))
  unfolding printed
  printed-ok (ok a, s) t = (s, refl)
  printed-ok (err e, s) t = (s, rw t refl)

  upload_part-ends :
      (target from size : ℕ) (mem : Ustring) (s : S)
      → from + size ≤ length mem
      → (s' : S) × (upload_part device (target, (from, size)) mem s ≡ (ok tt, s'))
  unfolding upload_part upload_slice
  upload_part-ends target from size mem s h =
      let inside : ltb (length mem) (from + size) ≡ false = ground arith in
      let bytes = take size (drop from mem) in
      let (s', e) = printed-ok (device.upload target bytes s) (tolerable target bytes s) in
      (
        s',
        ap (λ r. upload_slice device target r s)
              (if_false (ltb (length mem) (from + size)) (err undefined) (ok bytes) inside)
            ∙ e,
      )

  write_rounds-ends :
      (code : BlockResult) (n : ℕ) (mem : Ustring) (s : S)
      → Fits code mem
      → (s' : S) × (write_rounds device code n mem s ≡ (ok tt, s'))
  unfolding write_rounds and_then
  write_rounds-ends code zero mem s f = (s, refl)
  write_rounds-ends code (suc n) mem s f =
      let (target, (from, size)) = block_part code (suc n) mem in
      let (s1, e) =
        upload_part-ends target from size (image_after code mem) s
          (omega (arith, part-inside code (suc n) mem f, (image_after-Fits code mem f).0)) in
      let (s2, g) =
        write_rounds-ends code n (image_after code mem) s1 (image_after-Fits code mem f) in
      (s2, ap (λ r. and_then r (write_rounds device code n (image_after code mem))) e ∙ g)

  -- How the loop ends: without an exception, behind blocks that it has uploaded, where
  -- `prepare_mem_block` gives no further block and has a reason for it; or in front of a line that
  -- is too long.
  abbrev pub Programmed : HexState → Result (Unit {0}) × S → Type 0
  Programmed h r =
      ((s : S) × (h' : HexState) × (t : HexState) × (code : BlockResult) × (r ≡ (ok tt, s))
        × Blocks h h'
        × (prepare_mem_block h' ≡ ok (code, t))
        × (is_block_ready code ≡ false)
        × Stopped (prepare_start h') code t)
      ⊎ ((h' : HexState) × (t : HexState) × Blocks h h'
          × Rounds (prepare_start h') t
          × (60 < get_or (line_of t) 0 0))

  program_blocks-step :
      (fuel : ℕ) (h : HexState) (s : S) (code : BlockResult) (h' : HexState) (ready : Bool)
      → is_block_ready code ≡ ready
      → prepare_mem_block h ≡ ok (code, h')
      → IsSized h'
      → ((h1 : HexState) (s1 : S)
          → ready ≡ true
          → IsSized h1
          → work h1 ≡ work h'
          → Programmed h1 (program_blocks device fuel h1 s1))
      → Programmed h (program_blocks device (suc fuel) h s)
  unfolding program_blocks and_then
  program_blocks-step fuel h s code h' false b e i k = inl (
    s,
    h,
    h',
    code,
    rw (program_blocks, e, b) refl,
    no_more,
    e,
    b,
    prepare_mem_block-Stopped h h' code e,
  )
  program_blocks-step fuel h s code h' true b e i k =
      let n = h'.memory_block_process_state in
      let (i1, same) = after_rounds-frame code n h' i in
      let (s1, g) =
        write_rounds-ends code n h'.memory_block s (i.0, prepare_mem_block-IsSmall h h' code e) in
      let first : program_blocks device (suc fuel) h s
          ≡ program_blocks device fuel (after_rounds code n h') s1 =
        rw (program_blocks, e, b, g) refl in
      elim (k (after_rounds code n h') s1 refl i1 same) [
        | inl (s2, t0, t, last, q, blocks, p, n, stop) ↦
            inl (s2, t0, t, last, first ∙ q, then_more code e blocks, p, n, stop)
        | inr (t0, t, blocks, rounds, long) ↦ inr (t0, t, then_more code e blocks, rounds, long)
      ]

  program_blocks-ends :
      (fuel : ℕ) (h : HexState) (s : S)
      → IsSized h
      → work h < fuel
      → Programmed h (program_blocks device fuel h s)
  program_blocks-ends zero h s i l = absurd (omega arith)
  program_blocks-ends (suc fuel) h s i l = elim (prepare_mem_block-ends h i) [
    | inr (t, rounds, long) ↦ inr (h, t, no_more, rounds, long)
    | inl (code, h', e, i') ↦
        program_blocks-step fuel h s code h' (is_block_ready code) refl e i' (λ h1 s1 ready i1 same.
          let less = prepare_mem_block-progress h h' code e ready in
          program_blocks-ends fuel h1 s1 i1 (omega arith))
  ]

  -- On each file, and a device whose uploads raise no exception but those that the program catches,
  -- the loop of `main` ends, with no read outside the image, unless it comes to a line whose byte
  -- count is above 60. It has then gone through its blocks one by one, and the last result is success
  -- only when the file has no further line before its end or a NUL byte, no block is begun and no
  -- data have overflowed; else it is an error on a line that cannot be read, or whose data its image
  -- or its area cannot take. The fuel suffices for each file.
  pub program_file-Programmed :
      (file : Ustring) (s : S)
      → Programmed (initial file) (program_blocks device (2 * length file + 1) (initial file) s)
  program_file-Programmed file s =
      program_blocks-ends (2 * length file + 1) (initial file) s (refl, refl) (omega arith)
