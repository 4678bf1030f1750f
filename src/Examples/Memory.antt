-- ===== src/Examples/Memory.antt =====
-- examples/ReadMemory/ReadMemory.cpp: blocks of 32 bytes of a memory of the TR module are read.
-- The arguments are left out but for the memory; what is read is only printed.
use clibcdc.Base.{
  Bool-cases, List, Result, [], append-nil, arith, false, if◌then◌else◌, inl, inr, ok, refl, subst,
  suc, sym, zero, ℕ, ◌%◌, ◌*◌, ◌++◌, ◌+◌, ◌/◌, ◌<◌, ◌==◌, ◌^◌, ◌∷◌, ◌≡◌,
}
use clibcdc.Examples.Device.{Device, and_then, printed, programming_session}
use clibcdc.Examples.Session.{
  Call, Made, Ran, and_then-Made, download_call, noting, printed-Made, programming_session-Ran,
}
use clibcdc.Types.{Ustring}
use native.Mathlib.Nat.{suc-mul}

-- The memories, by their targets.
abbrev pub target_flash_r : ℕ
target_flash_r = 0x05

abbrev pub target_eeprom_r : ℕ
target_eeprom_r = 0x06

abbrev pub target_eeeprom_r : ℕ
target_eeeprom_r = 0x07

unfoldable pub start_address : ℕ → ℕ
start_address target = if target == target_flash_r then 0x3A00 else 0

unfoldable pub blocks : ℕ → ℕ
blocks target = if target == target_eeprom_r then 6 else 8

-- The address of a request, low byte first.
unfoldable pub request : ℕ → Ustring
request address = (address % 256) ∷ (address / 256) ∷ []

module _ {S : Type 0} (device : Device S) where
  -- The loop, with `n` rounds to go.
  unfoldable pub read_blocks : ℕ → ℕ → ℕ → S → Result (Unit {0}) × S
  unfolding request
  read_blocks target zero address s = (ok tt, s)
  read_blocks target (suc n) address s =
      and_then (printed (device.download target (request address) s))
        (read_blocks target n ((address + 32) % 2 ^ 16))

  unfoldable pub read_memory_main : ℕ → S → Result ℕ × S
  unfolding start_address blocks read_blocks
  read_memory_main target s =
      programming_session device (read_blocks target (blocks target) (start_address target)) s

-- The requests for `n` blocks.
abbrev pub block_calls : ℕ → ℕ → ℕ → List Call
block_calls target zero address = []
block_calls target (suc n) address =
    download_call target (address % 256 ∷ address / 256 ∷ []) ∷ block_calls target n (address + 32)

-- The blocks that the memories have in the program.
abbrev pub memory_calls : ℕ → List Call
memory_calls target =
    if target == target_flash_r
    then block_calls target 8 0x3A00
    else if target == target_eeprom_r
    then block_calls target 6 0
    else block_calls target 8 0

module _ {S : Type 0} (device : Device S) where
  read_blocks-Made :
      (target n address : ℕ) (s : S) (before : List Call)
      → address + n * 32 < 2 ^ 16
      → Made before
          (block_calls target n address)
          (read_blocks (noting device) target n address (s, before))
  unfolding read_blocks request
  read_blocks-Made target zero address s before small = sym (append-nil before)
  read_blocks-Made target (suc n) address s before small =
      let c = download_call target (request address) in
      let e : (address + 32) % 2 ^ 16 ≡ address + 32 = omega (arith, suc-mul n 32) in
      and_then-Made before (c ∷ []) (block_calls target n (address + 32)) _ _
        (printed-Made before c (device.download target (request address) s))
        (λ s'. rw e (
          read_blocks-Made target n (address + 32) s' (before ++ (c ∷ []))
            (omega (arith, suc-mul n 32))))

  start-memory :
      (target : ℕ)
      → (memory_calls target ≡ block_calls target (blocks target) (start_address target))
        × (start_address target + blocks target * 32 < 2 ^ 16)
  unfolding blocks start_address
  start-memory target = elim (Bool-cases (target == target_flash_r)) [
    | inl e ↦
        let eeprom : (target == target_eeprom_r) ≡ false = ground arith in
        rw (e, eeprom) (refl, omega arith)
    | inr e ↦ elim (Bool-cases (target == target_eeprom_r)) [
      | inl q ↦ rw (e, q) (refl, omega arith)
      | inr q ↦ rw (e, q) (refl, omega arith)
    ]
  ]

  -- On any device, the program asks for 8 blocks of 32 bytes from the address 0x3A00 of the flash
  -- memory, or for 6 of the internal or 8 of the external EEPROM from 0, in order and inside the
  -- programming mode, and exits with 0; or it exits with 1 or 2 before it, the object deleted; or
  -- an exception that it does not catch cuts this sequence of calls off.
  pub read_memory_main-Ran :
      (target : ℕ) (s : S)
      → Ran (memory_calls target) (read_memory_main (noting device) target (s, []))
  unfolding read_memory_main
  read_memory_main-Ran target s =
      let (e, small) = start-memory target in
      subst
        (λ calls. Ran calls (
          programming_session (noting device)
            (read_blocks (noting device) target (blocks target) (start_address target)) (s, [])))
        (sym e)
        (programming_session-Ran device _ _
          (λ s' before.
            read_blocks-Made target (blocks target) (start_address target) s' before small)
          s)
