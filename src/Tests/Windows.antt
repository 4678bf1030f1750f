-- ===== src/Tests/Windows.antt =====
-- The driver on Windows: a thread that has just started, and a port that takes every byte.
use clibcdc.Base.{Bool, List, [], arith, false, length, none, refl, some, true, ℕ, ◌+◌, ◌∷◌, ◌≡◌}
use clibcdc.Driver.Command.{construct_command}
use clibcdc.Driver.Windows.{
  PortWait, ReadResult, WinPort, WinThread, at_once, characters, delayed, end_requested,
  end_signalled, read_loop, win_process_command, win_thread, written,
}
use clibcdc.Driver.Windows.Fresh.{
  Threw, WinCycles, win_process_command-Cycles, win_process_command-Threw,
}
use clibcdc.Driver.Windows.Lines.{driver_of, line_rounds, lines_reads, read_loop-line_rounds}
use clibcdc.Driver.Windows.Survival.{AreReads, WinEnded, reads, win_thread-WinEnded}
use clibcdc.Tests.Arrivals.{started, started-IsLive, started_empty}
use clibcdc.Tests.Data.{flag, three_bytes}
use clibcdc.Types.{msg_data_send}

abbrev idle : WinThread Bool
idle = record { driver = started; byte_read = 0; bytes_total = 0; running = true }

-- An event that was set before.
abbrev signalled : WinThread Bool
signalled = record idle { driver = record started { new_msg_event = true } }

abbrev win_port : WinPort
win_port = record { event_created = true; write_file = λ bytes. written (length bytes) }

-- `<E>` and the end of a message, then a read of nothing.
abbrev error_line : List (Bool × ℕ)
error_line = (true, b'<') ∷ (false, b'E') ∷ (true, b'R') ∷ (true, b'R') ∷ []

abbrev error_reads : List (PortWait × List ReadResult)
error_reads =
    (
      characters,
      at_once (some b'<') ∷ delayed (some b'E') ∷ at_once (some 0x0D) ∷ delayed none ∷ [],
    )
    ∷ (end_requested, end_signalled ∷ [])
    ∷ []

error_reads-AreReads : AreReads error_reads
error_reads-AreReads = ((omega arith, (omega arith, (omega arith, (tt, tt)))), ((tt, tt), tt))

win_thread-WinEnded_example :
    WinEnded flag (0 + reads error_reads) (win_thread flag idle error_reads)
win_thread-WinEnded_example =
    win_thread-WinEnded flag 0 idle error_reads
      (started-IsLive, omega arith, omega (arith, started_empty)) error_reads-AreReads (omega arith)

read_loop-line_rounds_example :
    driver_of (read_loop flag idle (lines_reads (error_line ∷ [] ∷ [])))
    ≡ line_rounds flag started (error_line ∷ [] ∷ [])
read_loop-line_rounds_example =
    read_loop-line_rounds flag (error_line ∷ [] ∷ []) idle started-IsLive
      (
        (
          λ e. omega (arith, e),
          (λ e. omega (arith, e), (λ e. omega (arith, e), (λ e. omega (arith, e), tt))),
        ),
        (omega arith, (omega arith, (omega arith, (omega arith, (omega arith, tt))))),
        (tt, (omega arith, tt), tt),
      )
      (omega (arith, started_empty))

win_process_command-Cycles_example :
    WinCycles flag signalled (construct_command msg_data_send three_bytes) error_reads (
      win_process_command flag win_port signalled
        (construct_command msg_data_send three_bytes)
        error_reads)
unfolding construct_command
win_process_command-Cycles_example =
    win_process_command-Cycles flag win_port signalled (construct_command msg_data_send three_bytes)
      error_reads refl started-IsLive (omega arith) error_reads-AreReads
      (omega (arith, started_empty))

win_process_command-Threw_example :
    Threw flag
      (win_process_command flag win_port signalled (construct_command msg_data_send three_bytes) [])
unfolding construct_command
win_process_command-Threw_example =
    win_process_command-Threw flag win_port signalled (construct_command msg_data_send three_bytes)
      refl started-IsLive
