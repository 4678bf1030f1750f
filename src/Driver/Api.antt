-- ===== src/Driver/Api.antt =====
-- The public methods of CDCImpl (src/CDCImpl.cpp). Each runs a command and takes the last response
-- apart; the two overloads of a method differ only in how they are given their data.
use clibcdc.Base.{
  Bool, Error, List, Option, Result, [], err, false, if◌then◌else◌, leb, length, none, ok,
  receive_exception, send_exception, some, true, ℕ, ◌>>=◌, ◌∷◌,
}
use clibcdc.Driver.Command.{construct_command}
use clibcdc.Driver.Exchange.{Run, high_bit, map_run, process_command}
use clibcdc.Driver.Receive.{ReadEvent}
use clibcdc.Driver.Send.{PortApi}
use clibcdc.Driver.State.{Driver, EventApi, ReceptionError}
use clibcdc.Parser.Extract.{
  get_parsed_device_info, get_parsed_ds_response, get_parsed_module_info, get_parsed_pe_response,
  get_parsed_pm_data, get_parsed_pm_response, get_parsed_pt_response, get_parsed_spi_status,
}
use clibcdc.Parser.Grammar.{text}
use clibcdc.Types.{
  DeviceInfo, DsResponse, MessageType, ModuleInfo, PmResponse, PteResponse, SpiStatus, Ustring,
  msg_data_send, msg_download_data, msg_mode_normal, msg_mode_program, msg_res_tr, msg_res_usb,
  msg_spi_stat, msg_switch, msg_test, msg_tr_info, msg_upload_download, msg_usb_conn, msg_usb_info,
  type_eq,
}

-- `verifyUpload` and `verifyDownload`.
unfoldable pub verify_upload : ℕ → Result (Unit {0})
verify_upload target = if high_bit target then ok tt else err send_exception

unfoldable pub verify_download : ℕ → Result (Unit {0})
verify_download target = if high_bit target then err send_exception else ok tt

-- The bytes that `download` has copied out, and its result.
pub record Download : Type 0 where
  pub response : PmResponse
  pub output : Ustring

-- The copy into the caller's array of `output_dlen` bytes; `none` is the overload that assigns to
-- a string.
unfoldable pub copy_out : Option ℕ → Ustring → Result Download
copy_out none text = ok (record { response = PmResponse.ok; output = text })
copy_out (some output_dlen) text =
    if leb output_dlen (length text)
    then err receive_exception
    else ok (record { response = PmResponse.ok; output = text })

module _ (api : EventApi) (port : PortApi) where
  open api use {Event}

  -- A command, and what the method reads from the driver's last response.
  unfoldable pub call :
      {A : Type 0}
      → MessageType
      → Ustring
      → (Ustring → Result A)
      → Driver Event
      → List ReadEvent
      → Result (Run Event A)
  call t bytes parsed d arrivals = do
    r ← process_command api port d (construct_command t bytes) arrivals
    ok (map_run (λ d' _. parsed d'.last_response.message) r)

  unfoldable pub test : Driver Event → List ReadEvent → Result (Run Event Bool)
  test = call msg_test [] (λ _. ok true)

  unfoldable pub reset_usb_device : Driver Event → List ReadEvent → Result (Run Event (Unit {0}))
  reset_usb_device = call msg_res_usb [] (λ _. ok tt)

  unfoldable pub reset_tr_module : Driver Event → List ReadEvent → Result (Run Event (Unit {0}))
  reset_tr_module = call msg_res_tr [] (λ _. ok tt)

  unfoldable pub indicate_connectivity :
      Driver Event → List ReadEvent → Result (Run Event (Unit {0}))
  indicate_connectivity = call msg_usb_conn [] (λ _. ok tt)

  unfoldable pub get_usb_device_info : Driver Event → List ReadEvent → Result (Run Event DeviceInfo)
  get_usb_device_info = call msg_usb_info [] get_parsed_device_info

  unfoldable pub get_tr_module_info :
      Driver Event → List ReadEvent → Result (Run Event (Option ModuleInfo))
  get_tr_module_info = call msg_tr_info [] get_parsed_module_info

  unfoldable pub get_status : Driver Event → List ReadEvent → Result (Run Event SpiStatus)
  get_status = call msg_spi_stat [] get_parsed_spi_status

  unfoldable pub send_data : Ustring → Driver Event → List ReadEvent → Result (Run Event DsResponse)
  send_data bytes = call msg_data_send bytes get_parsed_ds_response

  unfoldable pub switch_to_custom : Driver Event → List ReadEvent → Result (Run Event (Unit {0}))
  switch_to_custom = call msg_switch [] (λ _. ok tt)

  unfoldable pub enter_programming_mode :
      Driver Event → List ReadEvent → Result (Run Event PteResponse)
  enter_programming_mode = call msg_mode_program [] get_parsed_pe_response

  unfoldable pub terminate_programming_mode :
      Driver Event → List ReadEvent → Result (Run Event PteResponse)
  terminate_programming_mode = call msg_mode_normal [] get_parsed_pt_response

  -- A call that throws before it does anything.
  abbrev refused : {A : Type 0} → Driver Event → Error → Result (Run Event A)
  refused d e = ok (record { driver = d; sent = []; outcome = err e })

  unfoldable pub upload :
      ℕ → Ustring → Driver Event → List ReadEvent → Result (Run Event PmResponse)
  upload target bytes d arrivals = elim (verify_upload target) [
    | err e ↦ refused d e
    | ok _ ↦ call msg_upload_download (target ∷ bytes) get_parsed_pm_response d arrivals
  ]

  -- What `download` does with the last response.
  unfoldable pub read_download : Option ℕ → Driver Event → Result Download
  read_download room d =
      if type_eq d.last_response.parse_result.msg_type msg_download_data
      then (do text ← get_parsed_pm_data d.last_response.message; copy_out room text)
      else (do
        response ← get_parsed_pm_response d.last_response.message
        ok (record { response = response; output = [] }))

  unfoldable pub download :
      ℕ → Ustring → Option ℕ → Driver Event → List ReadEvent → Result (Run Event Download)
  download target bytes room d arrivals = elim (verify_download target) [
    | err e ↦ refused d e
    | ok _ ↦ do
      r ←
          process_command api port d (construct_command msg_upload_download (target ∷ bytes))
            arrivals
      ok (map_run (λ d' _. read_download room d') r)
  ]

module _ {E : Type 0} where
  unfoldable pub is_reception_stopped : Driver E → Bool
  is_reception_stopped d = d.reception_stopped

  unfoldable pub get_last_reception_error : Driver E → ReceptionError
  get_last_reception_error d = d.last_reception_error

  -- `registerAsyncMsgListener` and `unregisterAsyncMsgListener`.
  unfoldable pub register_async_msg_listener : Driver E → Driver E
  register_async_msg_listener d = record d { listener = true }

  unfoldable pub unregister_async_msg_listener : Driver E → Driver E
  unregister_async_msg_listener d = record d { listener = false }
