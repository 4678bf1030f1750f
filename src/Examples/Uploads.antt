-- ===== src/Examples/Uploads.antt =====
-- The uploads of examples/PgmIqrf/PgmIqrf.cpp.
use clibcdc.Base.{
  All, Bool, List, [], append-nil, arith, drop, length, length-append, length-drop, ok, refl,
  replicate, suc, sym, take, take-append, zero, ℕ, ◌++◌, ◌<◌, ◌∷◌, ◌≡◌,
}
use clibcdc.Examples.Device.{Device, and_then, printed}
use clibcdc.Examples.Lines.{
  IsPluginLine, PluginLine, length-line_file, line_file, read_plugin_line-hex,
}
use clibcdc.Examples.Plugin.{
  first_char, plugin_main, read_plugin_line, read_plugin_loop, read_plugin_round, write_plugin,
}
use clibcdc.Examples.Session.{
  Call, Made, Ran, and_then-Made, noting, printed-Made, programming_session-Ran, upload_call,
}
use clibcdc.Hex.{read_byte_from_file, to_lower}
use clibcdc.Types.{Ustring}

-- The calls that upload lines.
abbrev pub plugin_calls : List PluginLine → List Call
plugin_calls [] = []
plugin_calls (line ∷ lines) = upload_call 0x88 line.1 ∷ plugin_calls lines

abbrev pub plugin_file : Bool → List PluginLine → Ustring
plugin_file upper [] = []
plugin_file upper (line ∷ lines) = line_file upper line (plugin_file upper lines)

module _ {S : Type 0} (device : Device S) where
  write_plugin-line :
      (upper : Bool) (line : PluginLine) (rest buffer : Ustring) (fuel : ℕ) (s : S)
      → IsPluginLine line
      → length buffer ≡ 64
      → write_plugin device (suc fuel) (line_file upper line rest) buffer s
        ≡ and_then
            (printed (device.upload 0x88 line.1 s))
            (write_plugin device fuel rest (line.1 ++ drop 20 buffer))
  unfolding write_plugin
  write_plugin-line upper line rest buffer fuel s h b =
      let read = read_plugin_line-hex upper line rest buffer h b in
      let bytes : take 20 (line.1 ++ drop 20 buffer) ≡ line.1 =
        take-append 20 line.1 (drop 20 buffer) (sym h.2) in
      rw (write_plugin, read, bytes) refl

  write_plugin-end :
      (buffer : Ustring) (fuel : ℕ) (s : S)
      → write_plugin device (suc fuel) [] buffer s ≡ (ok tt, s)
  unfolding write_plugin read_plugin_line read_plugin_loop read_plugin_round first_char
      read_byte_from_file to_lower
  write_plugin-end buffer fuel s = refl

module _ {S : Type 0} (device : Device S) where
  write_plugin-Made :
      (upper : Bool) (lines : List PluginLine) (buffer : Ustring) (fuel : ℕ) (s : S)
      (before : List Call)
      → All IsPluginLine lines
      → length buffer ≡ 64
      → length (plugin_file upper lines) < fuel
      → Made before
          (plugin_calls lines)
          (write_plugin (noting device) fuel (plugin_file upper lines) buffer (s, before))
  write_plugin-Made upper lines buffer zero s before h b f = absurd (omega arith)
  write_plugin-Made upper [] buffer (suc fuel) s before h b f =
      rw (write_plugin-end (noting device) buffer fuel (s, before)) (sym (append-nil before))
  write_plugin-Made upper (line ∷ lines) buffer (suc fuel) s before (h, hs) b f =
      let c = upload_call 0x88 line.1 in
      let rest = plugin_file upper lines in
      let size : length (line.1 ++ drop 20 buffer) ≡ 64 =
        omega (arith, h.2, b, length-append line.1 (drop 20 buffer), length-drop 20 buffer) in
      rw (write_plugin-line (noting device) upper line rest buffer fuel (s, before) h b) (
        and_then-Made before (c ∷ []) (plugin_calls lines) _ _
          (printed-Made before c (device.upload 0x88 line.1 s))
          (λ s'.
            write_plugin-Made upper lines (line.1 ++ drop 20 buffer) fuel s' (before ++ (c ∷ [])) hs
              size (omega (arith, length-line_file upper line.0 line.1 rest))))

  -- On any device, and a file of printed lines of 20 bytes, with comments between them, the program
  -- uploads each line to the plugin target, in order and inside the programming mode, and exits
  -- with 0; or it exits with 1 or 2 before it, the object deleted; or an exception that it does not
  -- catch cuts this sequence of calls off.
  pub plugin_main-Ran :
      (upper : Bool) (lines : List PluginLine) (s : S)
      → All IsPluginLine lines
      → Ran (plugin_calls lines) (plugin_main (noting device) (plugin_file upper lines) (s, []))
  unfolding plugin_main
  plugin_main-Ran upper lines s h =
      programming_session-Ran device _ _
        (λ s' before.
          write_plugin-Made upper lines (replicate 64 0) _ s' before h refl (omega arith))
        s
