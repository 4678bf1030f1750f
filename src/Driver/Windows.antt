-- ===== src/Driver/Windows.antt =====
-- The Windows port layer, src/CDCImpl_Win.cpp: the rounds of `readMsgThread`, `sendCommand` and
-- `waitForMyEvent`, with `processCommand` of src/CDCImpl.cpp on them. A `threw` of the rounds is an
-- exception inside `readMsgThread`, with the driver it leaves; an `err` of the thread is one that it
-- does not catch, which ends the program.
pub mod Left
pub mod Survival
pub mod Lines
pub mod Resets
pub mod Fresh
use clibcdc.Base.{
  Bool, Error, List, Option, Result, [], err, false, if◌then◌else◌, impl_exception, none, ok,
  parser_exception, receive_exception, send_exception, some, take, true, ℕ, ◌++◌, ◌==◌, ◌>>=◌, ◌∷◌,
}
use clibcdc.Driver.Command.{command_to_buffer}
use clibcdc.Driver.Exchange.{Run, check_response}
use clibcdc.Driver.Receive.{left_by_messages, process_all_messages, stop_reception}
use clibcdc.Driver.State.{Command, Driver, EventApi}
use clibcdc.Hex.Ends.{left}
use clibcdc.Types.{Ustring}

-- The outcome of `WaitCommEvent` and of the wait for it.
pub data PortWait : Type 0 where
  characters wait_failed end_requested : PortWait

-- The outcome of the read of one byte: `ReadFile` gives it at once, or an overlapped read gives it
-- later; `none` is a read of no byte. A read can fail, as can the wait for it, and the end of the
-- thread can be requested while it waits.
pub data ReadResult : Type 0 where
  at_once delayed : Option ℕ → ReadResult
  read_failed end_signalled : ReadResult

-- The locals of `readMsgThread`; the buffer `receivedBytes` is that of the driver.
pub record WinThread (E : Type 0) : Type 0 where
  pub driver : Driver E
  pub byte_read : ℕ
  pub bytes_total : ℕ
  pub running : Bool

-- What a read leaves in `byteRead` and `bytesTotal`.
unfoldable pub take_byte : {E : Type 0} → WinThread E → Option ℕ → WinThread E
take_byte s none = record s { bytes_total = 0 }
take_byte s (some b) = record s { byte_read = b; bytes_total = 1 }

unfoldable pub push_byte : {E : Type 0} → WinThread E → WinThread E
push_byte s = record s {
  driver = record s.driver { received_bytes = s.driver.received_bytes ++ (s.byte_read ∷ []) };
}

-- What a call to write gives: bytes taken, or a failure of the call or of the wait for it.
pub data WriteResult : Type 0 where
  written : ℕ → WriteResult
  write_error write_timeout : WriteResult

-- The port, by what `CreateEvent` and `WriteFile` give.
pub record WinPort : Type 0 where
  pub event_created : Bool
  pub write_file : Ustring → WriteResult

unfoldable pub write_outcome : {E : Type 0} → Driver E → Ustring → WriteResult → Run E (Unit {0})
write_outcome d bytes (written k) = record { driver = d; sent = take k bytes; outcome = ok tt }
write_outcome d bytes write_error = record { driver = d; sent = []; outcome = err send_exception }
write_outcome d bytes write_timeout = record { driver = d; sent = []; outcome = err send_exception }

-- The command, encoded or refused.
unfoldable pub write_encoded :
    {E : Type 0} → WinPort → Driver E → Result (Ustring × ℕ) → Run E (Unit {0})
unfolding write_outcome
write_encoded port d (err e) = record { driver = d; sent = []; outcome = err e }
write_encoded port d (ok (bytes, n)) =
    write_outcome (record d { transmit_buffer_len = n }) bytes (port.write_file bytes)

-- A step of `readMsgThread`: it goes on, or throws and leaves the driver as it is by then.
pub data WinRun (E : Type 0) : Type 0 where
  went_on : WinThread E → WinRun E
  threw : Error → Driver E → WinRun E

abbrev pub and_on : {E : Type 0} → WinRun E → (WinThread E → WinRun E) → WinRun E
and_on (went_on s) f = f s
and_on (threw e d) f = threw e d

-- The thread behind `processAllMessages`; `left` is the driver if it throws.
abbrev pub after_messages : {E : Type 0} → WinThread E → Driver E → Result (Driver E) → WinRun E
after_messages s left (ok d) = went_on (record s { driver = d })
after_messages s left (err e) = threw e left

-- The end of `readMsgThread`: it returned or goes on, or it caught an exception, set
-- `lastReceptionError` and `receptionStopped`, and returned 1.
pub data ThreadEnd (E : Type 0) : Type 0 where
  thread_returned : WinThread E → ThreadEnd E
  thread_stopped : Error → Driver E → ThreadEnd E

-- The driver that the command sees then.
abbrev pub seen : {E : Type 0} → ThreadEnd E → Driver E
seen (thread_returned s) = s.driver
seen (thread_stopped e d) = d

-- The exceptions that are CDCImplExceptions.
unfoldable pub is_caught : Error → Bool
is_caught parser_exception = true
is_caught send_exception = true
is_caught receive_exception = true
is_caught impl_exception = true
is_caught _ = false

module _ (api : EventApi) where
  open api use {Event, is_set, clear}

  -- The end of the thread, with the exceptions it catches.
  unfoldable pub thread_end : WinRun Event → Result (ThreadEnd Event)
  unfolding is_caught
  thread_end (went_on s) = ok (thread_returned s)
  thread_end (threw e d) =
      if is_caught e then ok (thread_stopped e (stop_reception api d)) else err e

  -- The test for the end of a message.
  unfoldable pub end_of_byte : WinThread Event → WinRun Event
  end_of_byte s =
      if s.byte_read == 0x0D
      then after_messages s (left_by_messages api s.driver) (process_all_messages api s.driver)
      else went_on s

  -- One round of the reading loop. A byte that is there at once is appended unseen, one that comes
  -- later only if there is one.
  unfoldable pub read_byte : WinThread Event → ReadResult → WinRun Event
  unfolding take_byte push_byte
  read_byte s (at_once o) = end_of_byte (push_byte (take_byte s o))
  read_byte s (delayed (some b)) = end_of_byte (push_byte (take_byte s (some b)))
  read_byte s (delayed none) = end_of_byte (take_byte s none)
  read_byte s read_failed = threw receive_exception s.driver
  read_byte s end_signalled = went_on (record s { bytes_total = 0; running = false })

  -- The reading loop, until a round reads no byte or the outcomes are used up.
  unfoldable pub read_loop : WinThread Event → List ReadResult → WinRun Event
  read_loop s [] = went_on s
  read_loop s (r ∷ rs) =
      and_on (read_byte s r) (λ s'. if s'.bytes_total == 0 then went_on s' else read_loop s' rs)

  unfoldable pub win_round : WinThread Event → PortWait → List ReadResult → WinRun Event
  win_round s characters rs = read_loop s rs
  win_round s wait_failed rs = threw receive_exception s.driver
  win_round s end_requested rs = read_loop (record s { running = false }) rs

  -- The outer loop.
  unfoldable pub win_rounds : WinThread Event → List (PortWait × List ReadResult) → WinRun Event
  win_rounds s [] = went_on s
  win_rounds s ((w, rs) ∷ es) =
      if s.running then and_on (win_round s w rs) (λ s'. win_rounds s' es) else went_on s

  -- `readMsgThread` on what it meets until it is looked at.
  unfoldable pub win_thread :
      WinThread Event → List (PortWait × List ReadResult) → Result (ThreadEnd Event)
  unfolding thread_end
  win_thread s es = thread_end (win_rounds s es)

  -- `sendCommand` behind the reset: the driver after it, what the port took, and the outcome.
  unfoldable pub write_command : WinPort → Driver Event → Command → Run Event (Unit {0})
  unfolding write_encoded
  write_command port d cmd =
      if port.event_created
      then write_encoded port d (command_to_buffer d.transmit_buffer_len cmd)
      else record { driver = d; sent = []; outcome = err send_exception }

  unfoldable pub reset_and_write :
      WinPort → Driver Event → Command → Option Event → Run Event (Unit {0})
  unfolding write_command
  reset_and_write port d cmd none = record { driver = d; sent = []; outcome = err impl_exception }
  reset_and_write port d cmd (some e) = write_command port (record d { new_msg_event = e }) cmd

  unfoldable pub win_send_command : WinPort → Driver Event → Command → Run Event (Unit {0})
  unfolding reset_and_write
  win_send_command port d cmd = reset_and_write port d cmd (clear d.new_msg_event)

  -- `waitForMyEvent`: the wait leaves the event as it is.
  unfoldable pub win_wait : Driver Event → Result (Unit {0})
  win_wait d = if is_set d.new_msg_event then ok tt else err receive_exception

  unfoldable pub win_await :
      WinThread Event
      → Run Event (Unit {0})
      → Command
      → List (PortWait × List ReadResult)
      → Result (Run Event (Unit {0}))
  win_await s r cmd arrivals = elim (r.outcome) [
    | err e ↦ ok r
    | ok _ ↦ do
      t ← win_thread (record s { driver = r.driver }) arrivals
      ok (record {
        driver = seen t;
        sent = r.sent;
        outcome = win_wait (seen t) >>= λ _. check_response api (seen t) cmd;
      })
  ]

  -- `processCommand` on Windows; the thread goes on while the command waits.
  unfoldable pub win_process_command :
      WinPort
      → WinThread Event
      → Command
      → List (PortWait × List ReadResult)
      → Result (Run Event (Unit {0}))
  win_process_command port s cmd arrivals =
      if s.driver.reception_stopped
      then ok (record { driver = s.driver; sent = []; outcome = err send_exception })
      else win_await s (win_send_command port s.driver cmd) cmd arrivals
