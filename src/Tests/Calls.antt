-- ===== src/Tests/Calls.antt =====
-- The theorems on the command and response cycle at a driver that has just started.
use clibcdc.Base.{
  Bool, [], arith, err, false, ok, refl, send_exception, some, true, ◌↔◌, ◌∷◌, ◌≡◌, ◌⊎◌,
}
use clibcdc.Driver.Api.{
  download, enter_programming_mode, get_status, get_tr_module_info, get_usb_device_info,
  indicate_connectivity, reset_tr_module, reset_usb_device, send_data, switch_to_custom,
  terminate_programming_mode, test, upload,
}
use clibcdc.Driver.Calls.{
  HasDevice, HasModule, HasStatus, confirmed-Called, get_status-Called, get_tr_module_info-Called,
  get_usb_device_info-Called, programming_mode-Called, send_data-Called,
}
use clibcdc.Driver.Calls.Outcome.{Called}
use clibcdc.Driver.Calls.Transfer.{Downloaded, download-Called, upload-Called}
use clibcdc.Driver.Command.{command_to_buffer, construct_command}
use clibcdc.Driver.Cycle.{Cycles, process_command-Cycles}
use clibcdc.Driver.Encoding.{Encodes, command_to_buffer-Encodes}
use clibcdc.Driver.Exchange.{high_bit, process_command}
use clibcdc.Driver.Receive.{process_all_messages, read_rounds}
use clibcdc.Driver.Send.{send_bytes}
use clibcdc.Driver.Sending.{Sends, send_bytes-Sends}
use clibcdc.Driver.Stale.{Accepted, Pending, process_command-stale}
use clibcdc.Driver.State.{Driver}
use clibcdc.Driver.Thread.{process_all_messages-Survives, read_rounds-Survives}
use clibcdc.Driver.Thread.Message.{IsLive}
use clibcdc.Driver.Thread.Round.{Settled, Survives}
use clibcdc.Parser.Readings.{ds_message, pm_message, pte_message}
use clibcdc.Tests.Arrivals.{
  data_arrivals, data_arrivals-AreBytes, ds_arrivals, ds_arrivals-AreBytes, greedy, pe_arrivals,
  pe_arrivals-AreBytes, started, started-IsLive, started_empty, status_arrivals,
  status_arrivals-AreBytes, test_arrivals, test_arrivals-AreBytes, tr_arrivals,
  tr_arrivals-AreBytes, upload_arrivals, upload_arrivals-AreBytes, usb_arrivals,
  usb_arrivals-AreBytes,
}
use clibcdc.Tests.Data.{flag, three_bytes}
use clibcdc.Types.{
  msg_data_send, msg_mode_normal, msg_mode_program, msg_res_tr, msg_res_usb, msg_spi_stat,
  msg_switch, msg_test, msg_tr_info, msg_upload_download, msg_usb_conn, msg_usb_info, parse_ok,
}

process_command-Cycles_example :
    Cycles flag started (construct_command msg_data_send three_bytes) (
      process_command flag greedy started (construct_command msg_data_send three_bytes) ds_arrivals)
unfolding construct_command
process_command-Cycles_example =
    process_command-Cycles flag greedy started (construct_command msg_data_send three_bytes)
      ds_arrivals refl started-IsLive ds_arrivals-AreBytes (omega (arith, started_empty))

read_rounds-Survives_example : Survives flag IsLive (read_rounds flag started ds_arrivals)
read_rounds-Survives_example =
    read_rounds-Survives flag ds_arrivals started started-IsLive ds_arrivals-AreBytes
      (omega (arith, started_empty))

-- A response, a malformed message and the beginning of a third.
abbrev mixed : Driver Bool
mixed = record started {
  received_bytes = b'<' ∷ b'O' ∷ b'K' ∷ 0x0D ∷ b'<' ∷ b'Q' ∷ 0x0D ∷ b'<' ∷ b'D' ∷ [];
}

mixed-IsLive : IsLive mixed
mixed-IsLive = (
  (
    omega arith,
    (
      omega arith,
      (
        omega arith,
        (
          omega arith,
          (omega arith, (omega arith, (omega arith, (omega arith, (omega arith, tt))))),
        ),
      ),
    ),
  ),
  started-IsLive.1,
  started-IsLive.2,
)

process_all_messages-Survives_example :
    Survives flag (Settled flag 9) (process_all_messages flag mixed)
process_all_messages-Survives_example =
    process_all_messages-Survives flag mixed mixed-IsLive (omega arith)

send_bytes-Sends_example : Sends three_bytes (send_bytes greedy three_bytes)
send_bytes-Sends_example = send_bytes-Sends greedy three_bytes

command_to_buffer-Encodes_example :
    Encodes 4
      (construct_command msg_data_send three_bytes)
      (command_to_buffer 4 (construct_command msg_data_send three_bytes))
unfolding construct_command
command_to_buffer-Encodes_example =
    command_to_buffer-Encodes 4 (construct_command msg_data_send three_bytes) refl

send_data-Called_example :
    Called flag
      (construct_command msg_data_send three_bytes)
      (λ m r. m.message ≡ ds_message r)
      started
      (send_data flag greedy three_bytes started ds_arrivals)
send_data-Called_example =
    send_data-Called flag greedy started ds_arrivals started-IsLive ds_arrivals-AreBytes
      (omega (arith, started_empty)) three_bytes

get_status-Called_example :
    Called flag
      (construct_command msg_spi_stat [])
      HasStatus
      started
      (get_status flag greedy started status_arrivals)
get_status-Called_example =
    get_status-Called flag greedy started status_arrivals started-IsLive status_arrivals-AreBytes
      (omega (arith, started_empty))

upload-Called_example :
    ((high_bit 0x85 ≡ false)
      × (upload flag greedy 0x85 three_bytes started upload_arrivals
          ≡ ok (record { driver = started; sent = []; outcome = err send_exception })))
    ⊎ ((high_bit 0x85 ≡ true)
        × Called flag
            (construct_command msg_upload_download (0x85 ∷ three_bytes))
            (λ m r. m.message ≡ pm_message r)
            started
            (upload flag greedy 0x85 three_bytes started upload_arrivals))
upload-Called_example =
    upload-Called flag greedy started upload_arrivals started-IsLive upload_arrivals-AreBytes
      (omega (arith, started_empty)) 0x85 three_bytes

download-Called_example :
    ((high_bit 0x05 ≡ true)
      × (download flag greedy 0x05 three_bytes (some 9) started data_arrivals
          ≡ ok (record { driver = started; sent = []; outcome = err send_exception })))
    ⊎ ((high_bit 0x05 ≡ false)
        × Called flag
            (construct_command msg_upload_download (0x05 ∷ three_bytes))
            (Downloaded (some 9))
            started
            (download flag greedy 0x05 three_bytes (some 9) started data_arrivals))
download-Called_example =
    download-Called flag greedy started data_arrivals started-IsLive data_arrivals-AreBytes
      (omega (arith, started_empty)) 0x05 three_bytes (some 9)

programming_mode-Called_example :
    Called flag
      (construct_command msg_mode_program [])
      (λ m r. m.message ≡ pte_message b'E' r)
      started
      (enter_programming_mode flag greedy started pe_arrivals)
    × Called flag
        (construct_command msg_mode_normal [])
        (λ m r. m.message ≡ pte_message b'T' r)
        started
        (terminate_programming_mode flag greedy started pe_arrivals)
programming_mode-Called_example =
    programming_mode-Called flag greedy started pe_arrivals started-IsLive pe_arrivals-AreBytes
      (omega (arith, started_empty))

confirmed-Called_example :
    Called flag
      (construct_command msg_test [])
      (λ m b. (m.message ≡ b'<' ∷ b'O' ∷ b'K' ∷ 0x0D ∷ []) × (b ≡ true))
      started
      (test flag greedy started test_arrivals)
    × Called flag
        (construct_command msg_res_usb [])
        (λ m b. (m.message ≡ b'<' ∷ b'R' ∷ b':' ∷ b'O' ∷ b'K' ∷ 0x0D ∷ []) × (b ≡ tt))
        started
        (reset_usb_device flag greedy started test_arrivals)
    × Called flag
        (construct_command msg_res_tr [])
        (λ m b. (m.message ≡ b'<' ∷ b'R' ∷ b'T' ∷ b':' ∷ b'O' ∷ b'K' ∷ 0x0D ∷ []) × (b ≡ tt))
        started
        (reset_tr_module flag greedy started test_arrivals)
    × Called flag
        (construct_command msg_usb_conn [])
        (λ m b. (m.message ≡ b'<' ∷ b'B' ∷ b':' ∷ b'O' ∷ b'K' ∷ 0x0D ∷ []) × (b ≡ tt))
        started
        (indicate_connectivity flag greedy started test_arrivals)
    × Called flag
        (construct_command msg_switch [])
        (λ m b. (m.message ≡ b'<' ∷ b'U' ∷ b':' ∷ b'O' ∷ b'K' ∷ 0x0D ∷ []) × (b ≡ tt))
        started
        (switch_to_custom flag greedy started test_arrivals)
confirmed-Called_example =
    confirmed-Called flag greedy started test_arrivals started-IsLive test_arrivals-AreBytes
      (omega (arith, started_empty))

get_usb_device_info-Called_example :
    Called flag
      (construct_command msg_usb_info [])
      HasDevice
      started
      (get_usb_device_info flag greedy started usb_arrivals)
get_usb_device_info-Called_example =
    get_usb_device_info-Called flag greedy started usb_arrivals started-IsLive usb_arrivals-AreBytes
      (omega (arith, started_empty))

get_tr_module_info-Called_example :
    Called flag
      (construct_command msg_tr_info [])
      HasModule
      started
      (get_tr_module_info flag greedy started tr_arrivals)
get_tr_module_info-Called_example =
    get_tr_module_info-Called flag greedy started tr_arrivals started-IsLive tr_arrivals-AreBytes
      (omega (arith, started_empty))

-- A response to a command whose wait had timed out.
abbrev late : Driver Bool
late = record started {
  new_msg_event = true;
  last_response = record {
    message = b'<' ∷ b'O' ∷ b'K' ∷ 0x0D ∷ [];
    parse_result = record { msg_type = msg_test; result_type = parse_ok; last_position = 3 };
  };
}

process_command-stale_example :
    Accepted flag late (process_command flag greedy late (construct_command msg_test []) [])
    ↔ Pending flag greedy late (construct_command msg_test [])
process_command-stale_example =
    process_command-stale flag greedy late (construct_command msg_test [])
