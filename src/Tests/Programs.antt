-- ===== src/Tests/Programs.antt =====
-- The example programs on a device that counts its calls and times out on each third upload.
use clibcdc.Base.{
  All, Bool-cases, List, [], arith, drop, err, false, if◌then◌else◌, inl, inr, length, ok,
  receive_exception, refl, replicate, true, ℕ, ◌%◌, ◌*◌, ◌++◌, ◌+◌, ◌<◌, ◌==◌, ◌∷◌, ◌≡◌,
}
use clibcdc.Examples.Device.{Device, is_tolerated}
use clibcdc.Examples.Lines.{IsPluginLine, PluginLine, line_file, read_plugin_line-hex}
use clibcdc.Examples.Memory.{memory_calls, read_memory_main, read_memory_main-Ran, target_flash_r}
use clibcdc.Examples.Plugin.{plugin_main, read_plugin_line}
use clibcdc.Examples.Programmed.{IsTolerable, Programmed, program_file-Programmed}
use clibcdc.Examples.Programmer.{initial, program_blocks}
use clibcdc.Examples.Received.{Explained, receive_data-Explained}
use clibcdc.Examples.Session.{Ran, noting, upload_call}
use clibcdc.Examples.Temperature.{receive_data}
use clibcdc.Examples.Trcnfg.{trcnfg_main, trcnfg_main-Ran}
use clibcdc.Examples.Uploads.{plugin_calls, plugin_file, plugin_main-Ran}
use clibcdc.Hex.{file_data_ready}
use clibcdc.Tests.Blocks.{two_words_file}
use clibcdc.Types.{DsResponse, IsBytes, PmResponse, PteResponse, Ustring}

abbrev flaky : Device ℕ
flaky = record {
  open_port = λ n. (ok tt, n);
  test = λ n. (ok true, n + 1);
  enter_programming_mode = λ n. (ok PteResponse.ok, n + 1);
  terminate_programming_mode = λ n. (err receive_exception, n + 1);
  upload =
      λ target bytes n. ((if n % 3 == 2 then err receive_exception else ok PmResponse.ok), n + 1);
  download = λ target bytes n. (ok PmResponse.busy, n + 1);
  send_data = λ bytes n. (ok DsResponse.ok, n + 1);
  is_reception_stopped = λ n. false;
  close = λ n. 0;
}

trcnfg_main-Ran_example :
    Ran
      (upload_call 0x80 (replicate 32 7) ∷ upload_call 0x81 (7 ∷ []) ∷ [])
      (trcnfg_main (noting flaky) (replicate 40 7) (0, []))
trcnfg_main-Ran_example = trcnfg_main-Ran flaky (replicate 40 7) 0 (omega arith) (omega arith)

read_memory_main-Ran_example :
    Ran (memory_calls target_flash_r) (read_memory_main (noting flaky) target_flash_r (0, []))
read_memory_main-Ran_example = read_memory_main-Ran flaky target_flash_r 0

-- Two lines, the first behind a comment.
abbrev plugin_lines : List PluginLine
plugin_lines = ((b'o' ∷ b's' ∷ []) ∷ [], replicate 20 0xAB) ∷ ([], replicate 20 0) ∷ []

twenty-IsBytes : (x : ℕ) → x < 256 → IsBytes (replicate 20 x)
twenty-IsBytes x h = (
  h,
  (h, (h, (h, (h, (h, (h, (h, (h, (h, (h, (h, (h, (h, (h, (h, (h, (h, (h, (h, tt))))))))))))))))))),
)

plugin_lines-IsPluginLine : All IsPluginLine plugin_lines
plugin_lines-IsPluginLine = (
  (
    (
      (
        (λ e. omega (arith, e), λ e. omega (arith, e)),
        ((λ e. omega (arith, e), λ e. omega (arith, e)), tt),
      ),
      tt,
    ),
    twenty-IsBytes 0xAB (omega arith),
    refl,
  ),
  ((tt, twenty-IsBytes 0 (omega arith), refl), tt),
)

plugin_main-Ran_example :
    Ran
      (plugin_calls plugin_lines)
      (plugin_main (noting flaky) (plugin_file true plugin_lines) (0, []))
plugin_main-Ran_example = plugin_main-Ran flaky true plugin_lines 0 plugin_lines-IsPluginLine

read_plugin_line-hex_example :
    read_plugin_line
      (line_file false ((b'o' ∷ b's' ∷ []) ∷ [], replicate 20 0xAB) (0x0A ∷ []))
      (replicate 64 1)
    ≡ ok (record {
      line_result = file_data_ready;
      file = 0x0A ∷ [];
      line_buffer = replicate 20 0xAB ++ drop 20 (replicate 64 1);
    })
read_plugin_line-hex_example =
    read_plugin_line-hex false ((b'o' ∷ b's' ∷ []) ∷ [], replicate 20 0xAB) (0x0A ∷ [])
      (replicate 64 1) plugin_lines-IsPluginLine.0 refl

-- 22.5 degrees.
receive_data-Explained_example :
    Explained
      (0x01 ∷ 0x00 ∷ 0x0A ∷ 0x80 ∷ 0 ∷ 0 ∷ 0 ∷ 0 ∷ 22 ∷ 5 ∷ 0 ∷ [])
      (receive_data (0x01 ∷ 0x00 ∷ 0x0A ∷ 0x80 ∷ 0 ∷ 0 ∷ 0 ∷ 0 ∷ 22 ∷ 5 ∷ 0 ∷ []))
receive_data-Explained_example =
    receive_data-Explained (0x01 ∷ 0x00 ∷ 0x0A ∷ 0x80 ∷ 0 ∷ 0 ∷ 0 ∷ 0 ∷ 22 ∷ 5 ∷ 0 ∷ [])

flaky-IsTolerable :
    (target : ℕ) (bytes : Ustring) (n : ℕ) → IsTolerable (flaky.upload target bytes n).0
unfolding is_tolerated
flaky-IsTolerable target bytes n = elim (Bool-cases (n % 3 == 2)) [
  | inl e ↦ rw e refl
  | inr e ↦ rw e tt
]

program_file-Programmed_example :
    Programmed flaky flaky-IsTolerable
      (initial two_words_file)
      (program_blocks flaky (2 * length two_words_file + 1) (initial two_words_file) 0)
program_file-Programmed_example = program_file-Programmed flaky flaky-IsTolerable two_words_file 0
