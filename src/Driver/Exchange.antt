-- ===== src/Driver/Exchange.antt =====
-- The command and response cycle: `sendCommand` and `waitForMyEvent` of src/CDCImpl_Lin.cpp and
-- `processCommand` of src/CDCImpl.cpp. What the reading thread does until the wait ends is a list
-- of its rounds; `select` reports the event if it is set by then, and times out if not.
use clibcdc.Base.{
  Bool, List, Result, [], err, get_or, if◌then◌else◌, none, not, ok, receive_exception,
  send_exception, some, ℕ, ◌%◌, ◌&&◌, ◌/◌, ◌==◌, ◌>>=◌, ◌||◌,
}
use clibcdc.Driver.Command.{command_to_buffer}
use clibcdc.Driver.Receive.{ReadEvent, read_rounds}
use clibcdc.Driver.Send.{PortApi, send_bytes}
use clibcdc.Driver.State.{Command, Driver, EventApi}
use clibcdc.Types.{MessageType, Ustring, msg_download_data, msg_upload_download, type_eq}

-- A call that returned or threw: the driver after it, the bytes sent, and its outcome.
pub record Run (E A : Type 0) : Type 0 where
  pub driver : Driver E
  pub sent : Ustring
  pub outcome : Result A

abbrev pub map_run : {E A B : Type 0} → (Driver E → A → Result B) → Run E A → Run E B
map_run f r = record { driver = r.driver; sent = r.sent; outcome = r.outcome >>= f r.driver }

-- `target & 0x80`, as a test.
unfoldable pub high_bit : ℕ → Bool
high_bit c = c / 128 % 2 == 1

-- A response fits its command, or is data in answer to a download.
unfoldable pub response_fits : Command → MessageType → Bool
response_fits cmd t =
    type_eq t cmd.msg_type
    || (type_eq cmd.msg_type msg_upload_download
        && (type_eq t msg_download_data && not (high_bit (get_or cmd.bytes 0 0))))

module _ (api : EventApi) where
  open api use {Event, is_set, clear}

  -- `waitForMyEvent` on the event for new messages.
  unfoldable pub wait_for_response : Driver Event → Driver Event × Result (Unit {0})
  wait_for_response d =
      if is_set d.new_msg_event
      then elim (clear d.new_msg_event) [
        | none ↦ (d, err receive_exception)
        | some e ↦ (record d { new_msg_event = e }, ok tt)
      ]
      else (d, err receive_exception)

  unfoldable pub check_response : Driver Event → Command → Result (Unit {0})
  check_response d cmd =
      if response_fits cmd d.last_response.parse_result.msg_type
      then ok tt
      else err receive_exception

  -- The cycle after the sending.
  unfoldable pub await_response :
      Driver Event → Command → Ustring → List ReadEvent → Result (Run Event (Unit {0}))
  await_response d cmd sent arrivals = do
    d1 ← read_rounds api d arrivals
    let (d2, waited) = wait_for_response d1
    ok (record { driver = d2; sent = sent; outcome = waited >>= λ _. check_response d2 cmd })

  -- `sendCommand` and what follows, on the bytes of the command.
  unfoldable pub exchange :
      PortApi → Driver Event → Command → Ustring → List ReadEvent → Result (Run Event (Unit {0}))
  exchange port d cmd bytes arrivals =
      let (r, sent) = send_bytes port bytes in
      elim r [
        | err e ↦ ok (record { driver = d; sent = sent; outcome = err e })
        | ok _ ↦ await_response d cmd sent arrivals
      ]

  unfoldable pub process_command :
      PortApi → Driver Event → Command → List ReadEvent → Result (Run Event (Unit {0}))
  process_command port d cmd arrivals =
      if d.reception_stopped
      then ok (record { driver = d; sent = []; outcome = err send_exception })
      else elim (command_to_buffer d.transmit_buffer_len cmd) [
        | err e ↦ ok (record { driver = d; sent = []; outcome = err e })
        | ok (bytes, n) ↦ exchange port (record d { transmit_buffer_len = n }) cmd bytes arrivals
      ]
