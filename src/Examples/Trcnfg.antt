-- ===== src/Examples/Trcnfg.antt =====
-- examples/PgmTrcnfg/PgmTrcnfg.cpp: the configuration file of a TR module is written to it. The
-- arguments and the opening of the file are left out; `file` is the file's bytes.
use clibcdc.Base.{
  List, Result, [], arith, get_or, if_false, if◌then◌else◌, length, ltb, replicate, take, ℕ, ◌%◌,
  ◌++◌, ◌<◌, ◌^◌, ◌∷◌, ◌≡◌, ◌≤◌,
}
use clibcdc.Examples.Device.{Device, and_then, printed, programming_session}
use clibcdc.Examples.Session.{
  Call, Made, Ran, and_then-Made, noting, printed-Made, programming_session-Ran, upload_call,
}
use clibcdc.Types.{Ustring}

-- `HwProfile` and `RfPgmCfg`, which are zero before they are read.
unfoldable pub read_config : Ustring → Ustring × ℕ
read_config file =
    if ltb (length file % 2 ^ 32) 33 then (replicate 32 0, 0) else (take 32 file, get_or file 32 0)

module _ {S : Type 0} (device : Device S) where
  -- The two uploads.
  unfoldable pub write_config : Ustring × ℕ → S → Result (Unit {0}) × S
  unfolding printed and_then
  write_config (hw_profile, rf_pgm_cfg) s =
      and_then (printed (device.upload 0x80 hw_profile s))
        (λ s'. printed (device.upload 0x81 (rf_pgm_cfg ∷ []) s'))

  unfoldable pub trcnfg_main : Ustring → S → Result ℕ × S
  unfolding read_config write_config
  trcnfg_main file s = programming_session device (write_config (read_config file)) s

module _ {S : Type 0} (device : Device S) where
  write_config-Made :
      (config : Ustring × ℕ) (s : S) (before : List Call)
      → Made before
          (upload_call 0x80 config.0 ∷ upload_call 0x81 (config.1 ∷ []) ∷ [])
          (write_config (noting device) config (s, before))
  unfolding write_config
  write_config-Made (hw_profile, rf_pgm_cfg) s before =
      and_then-Made before (upload_call 0x80 hw_profile ∷ [])
        (upload_call 0x81 (rf_pgm_cfg ∷ []) ∷ []) _ _
        (printed-Made before (upload_call 0x80 hw_profile) (device.upload 0x80 hw_profile s))
        (λ s'.
          printed-Made (before ++ (upload_call 0x80 hw_profile ∷ []))
            (upload_call 0x81 (rf_pgm_cfg ∷ [])) (device.upload 0x81 (rf_pgm_cfg ∷ []) s'))

  -- On any device, and a file of at least 33 and less than 2^32 bytes, the program uploads the
  -- first 32 bytes to the HW profile and then the next to the RFPGM configuration, inside the
  -- programming mode, and exits with 0; or it exits with 1 or 2 before it, the object deleted; or
  -- an exception that it does not catch cuts this sequence of calls off.
  pub trcnfg_main-Ran :
      (file : Ustring) (s : S)
      → 33 ≤ length file
      → length file < 2 ^ 32
      → Ran
          (upload_call 0x80 (take 32 file) ∷ upload_call 0x81 (get_or file 32 0 ∷ []) ∷ [])
          (trcnfg_main (noting device) file (s, []))
  unfolding trcnfg_main read_config
  trcnfg_main-Ran file s low high =
      let e : read_config file ≡ (take 32 file, get_or file 32 0) =
        if_false (ltb (length file % 2 ^ 32) 33) _ _ (ground arith) in
      rw e
        (programming_session-Ran device _ _ (write_config-Made (take 32 file, get_or file 32 0)) s)
