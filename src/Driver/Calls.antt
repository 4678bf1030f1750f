-- ===== src/Driver/Calls.antt =====
-- The public methods of CDCImpl (src/CDCImpl.cpp) on any port and whatever arrives: what they
-- return is what the response says, and they throw only what their documentation names.
pub mod Outcome
pub mod Transfer
use clibcdc.Base.{
  List, Option, [], ap, contains, get_elem?, length, not, ok, refl, some, suc, sym, true, zero, ℕ,
  ◌+◌, ◌<◌, ◌^◌, ◌∙◌, ◌∷◌, ◌≡◌, ◌≢◌,
}
use clibcdc.Driver.Api.{
  call, enter_programming_mode, get_status, get_tr_module_info, get_usb_device_info,
  indicate_connectivity, reset_tr_module, reset_usb_device, send_data, switch_to_custom,
  terminate_programming_mode, test,
}
use clibcdc.Driver.Calls.Outcome.{Called, call-Called}
use clibcdc.Driver.Command.{construct_command}
use clibcdc.Driver.Encoding.{is_sent}
use clibcdc.Driver.Receive.{ReadEvent}
use clibcdc.Driver.Send.{PortApi}
use clibcdc.Driver.State.{Driver, EventApi, ParsedMessage}
use clibcdc.Driver.Thread.{AreBytes, arrived}
use clibcdc.Driver.Thread.Message.{IsLive}
use clibcdc.Parser.Extract.{
  get_parsed_device_info, get_parsed_ds_response, get_parsed_module_info, get_parsed_pe_response,
  get_parsed_pt_response, get_parsed_spi_status,
}
use clibcdc.Parser.Grammar.{Frame, grammar, text}
use clibcdc.Parser.Readings.{
  ds_message, form-text, get_parsed_ds_response-Frame, get_parsed_pe_response-Frame,
  get_parsed_pt_response-Frame, get_parsed_spi_status-Frame, mode_bytes, pte_message,
}
use clibcdc.Parser.Readings.Device.{device_info, device_message, get_parsed_device_info-Frame}
use clibcdc.Parser.Readings.Module.{HasKey, get_parsed_module_info-Frame, module_message}
use clibcdc.Types.{
  DeviceInfo, MessageType, ModuleInfo, SpiStatus, Ustring, msg_data_send, msg_mode_normal,
  msg_mode_program, msg_res_tr, msg_res_usb, msg_spi_stat, msg_switch, msg_test, msg_tr_info,
  msg_upload_download, msg_usb_conn, msg_usb_info,
}

-- A message of a type that has one form, a fixed text.
only-text :
    (t : MessageType) (cs : List ℕ) (m : Ustring) → grammar t ≡ text cs ∷ [] → Frame t m → m ≡ cs
only-text t cs m g (k, is, e, f) = only-form k (sym (ap (λ l. get_elem? l k) g) ∙ e)
  where
    only-form : (k : ℕ) → get_elem? (text cs ∷ []) k ≡ some is → m ≡ cs
    only-form zero e = form-text cs is m e f
    only-form (suc k) e = cc

abbrev pub HasDevice : ParsedMessage → DeviceInfo → Type 0
HasDevice m info =
    (t : Ustring) × (v : Ustring) × (i : Ustring) × (m.message ≡ device_message t v i)
    × (info ≡ device_info t v i)

abbrev pub HasModule : ParsedMessage → Option ModuleInfo → Type 0
HasModule m info =
    (i : ModuleInfo) × (key : Ustring) × (info ≡ some i)
    × (m.message ≡ module_message i key)
    × HasKey i key
    × (length i.serial_number ≡ 4)
    × (length i.os_build ≡ 2)
    × (length i.reserved ≡ 8)
    × (length i.ibk ≡ 16)

abbrev pub HasStatus : ParsedMessage → SpiStatus → Type 0
HasStatus m s =
    (m.message ≡ b'<' ∷ b'S' ∷ b':' ∷ s.value ∷ 0x0D ∷ [])
    × (s.is_data_ready ≡ not (contains mode_bytes s.value))

module _ (api : EventApi) where
  open api use {Event}

  module _ (port : PortApi) (d : Driver Event) (arrivals : List ReadEvent) (live : IsLive d)
      (v : AreBytes arrivals) (small : length d.received_bytes + arrived arrivals < 2 ^ 31) where
    -- On any port, from a state that meets the thread's invariant and whatever bytes arrive,
    -- less than 2^31 with those in the buffer: `sendData` returns the response whose message is
    -- the last one. A call that returns has sent its command in full and once and has taken the
    -- signal; one that throws throws a CDCSendException or a CDCReceiveException; if the thread
    -- lets out an exception, a signal has failed.
    pub send_data-Called :
        (bytes : Ustring)
        → Called api
            (construct_command msg_data_send bytes)
            (λ m r. m.message ≡ ds_message r)
            d
            (send_data api port bytes d arrivals)
    unfolding send_data
    send_data-Called bytes =
        call-Called api port d arrivals live v small (λ m r. m.message ≡ ds_message r) msg_data_send
          bytes get_parsed_ds_response refl (λ e. cc)
          (λ m l f. get_parsed_ds_response-Frame m.message f)

    -- On any port, from a state that meets the thread's invariant and whatever bytes arrive,
    -- less than 2^31 with those in the buffer: `enterProgrammingMode` and
    -- `terminateProgrammingMode` return the response whose message is the last one. A call that
    -- returns has sent its command in full and once and has taken the signal; one that throws
    -- throws a CDCSendException or a CDCReceiveException; if the thread lets out an exception, a
    -- signal has failed.
    pub programming_mode-Called :
        Called api
          (construct_command msg_mode_program [])
          (λ m r. m.message ≡ pte_message b'E' r)
          d
          (enter_programming_mode api port d arrivals)
        × Called api
            (construct_command msg_mode_normal [])
            (λ m r. m.message ≡ pte_message b'T' r)
            d
            (terminate_programming_mode api port d arrivals)
    unfolding enter_programming_mode terminate_programming_mode
    programming_mode-Called = (
      call-Called api port d arrivals live v small (λ m r. m.message ≡ pte_message b'E' r)
          msg_mode_program [] get_parsed_pe_response refl (λ e. cc)
          (λ m l f. get_parsed_pe_response-Frame m.message f),
      call-Called api port d arrivals live v small (λ m r. m.message ≡ pte_message b'T' r)
          msg_mode_normal [] get_parsed_pt_response refl (λ e. cc)
          (λ m l f. get_parsed_pt_response-Frame m.message f),
    )

    -- On any port, from a state that meets the thread's invariant and whatever bytes arrive,
    -- less than 2^31 with those in the buffer: `getStatus` returns the byte that the last
    -- response carries, as available data unless it is one of the nine bytes of the SPI modes. A call
    -- that returns has sent its command in full and once and has taken the signal; one that throws throws a
    -- CDCSendException or a CDCReceiveException; if the thread lets out an exception, a signal
    -- has failed.
    pub get_status-Called :
        Called api (construct_command msg_spi_stat []) HasStatus d (get_status api port d arrivals)
    unfolding get_status
    get_status-Called =
        call-Called api port d arrivals live v small HasStatus msg_spi_stat [] get_parsed_spi_status
          refl (λ e. cc)
          (λ m l f. let (s, e, g, h) = get_parsed_spi_status-Frame m.message f in (s, e, (g, h)))

    -- A command whose one response is a fixed text.
    text-Called :
        {A : Type 0} (t : MessageType) (cs : List ℕ) (a : A)
        → is_sent t ≡ true
        → t ≢ msg_upload_download
        → grammar t ≡ text cs ∷ []
        → Called api
            (construct_command t [])
            (λ m b. (m.message ≡ cs) × (b ≡ a))
            d
            (call api port t [] (λ _. ok a) d arrivals)
    text-Called t cs a s ne g =
        call-Called api port d arrivals live v small (λ m b. (m.message ≡ cs) × (b ≡ a)) t []
          (λ _. ok a) s ne (λ m l f. (a, refl, (only-text t cs m.message g f, refl)))

    -- On any port, from a state that meets the thread's invariant and whatever bytes arrive,
    -- less than 2^31 with those in the buffer: the commands without data and with one fixed
    -- answer (`test`, `resetUSBDevice`, `resetTRModule`, `indicateConnectivity`,
    -- `switchToCustom`) return only when that answer is the last response, and `test` then
    -- returns true. A call that returns has sent its command in full and once and has taken the
    -- signal; one that throws throws a CDCSendException or a CDCReceiveException; if the thread
    -- lets out an exception, a signal has failed.
    pub confirmed-Called :
        Called api
          (construct_command msg_test [])
          (λ m b. (m.message ≡ b'<' ∷ b'O' ∷ b'K' ∷ 0x0D ∷ []) × (b ≡ true))
          d
          (test api port d arrivals)
        × Called api
            (construct_command msg_res_usb [])
            (λ m b. (m.message ≡ b'<' ∷ b'R' ∷ b':' ∷ b'O' ∷ b'K' ∷ 0x0D ∷ []) × (b ≡ tt))
            d
            (reset_usb_device api port d arrivals)
        × Called api
            (construct_command msg_res_tr [])
            (λ m b. (m.message ≡ b'<' ∷ b'R' ∷ b'T' ∷ b':' ∷ b'O' ∷ b'K' ∷ 0x0D ∷ []) × (b ≡ tt))
            d
            (reset_tr_module api port d arrivals)
        × Called api
            (construct_command msg_usb_conn [])
            (λ m b. (m.message ≡ b'<' ∷ b'B' ∷ b':' ∷ b'O' ∷ b'K' ∷ 0x0D ∷ []) × (b ≡ tt))
            d
            (indicate_connectivity api port d arrivals)
        × Called api
            (construct_command msg_switch [])
            (λ m b. (m.message ≡ b'<' ∷ b'U' ∷ b':' ∷ b'O' ∷ b'K' ∷ 0x0D ∷ []) × (b ≡ tt))
            d
            (switch_to_custom api port d arrivals)
    unfolding grammar test reset_usb_device reset_tr_module indicate_connectivity switch_to_custom
    confirmed-Called = (
      text-Called msg_test _ true refl (λ e. cc) refl,
      text-Called msg_res_usb _ tt refl (λ e. cc) refl,
      text-Called msg_res_tr _ tt refl (λ e. cc) refl,
      text-Called msg_usb_conn _ tt refl (λ e. cc) refl,
      text-Called msg_switch _ tt refl (λ e. cc) refl,
    )

    -- On any port, from a state that meets the thread's invariant and whatever bytes arrive,
    -- less than 2^31 with those in the buffer: `getUSBDeviceInfo` returns the three parts of the
    -- last response, with their lengths. A call that returns has sent its command in full and
    -- once and has taken the signal; one that throws throws a CDCSendException or a
    -- CDCReceiveException; if the thread lets out an exception, a signal has failed.
    pub get_usb_device_info-Called :
        Called api
          (construct_command msg_usb_info [])
          HasDevice
          d
          (get_usb_device_info api port d arrivals)
    unfolding get_usb_device_info
    get_usb_device_info-Called =
        call-Called api port d arrivals live v small HasDevice msg_usb_info []
          get_parsed_device_info refl (λ e. cc)
          (λ m l f.
            let (t, w, i, g, e) = get_parsed_device_info-Frame m.message l f in
            (device_info t w i, e, (t, w, i, g, refl)))

    -- On any port, from a state that meets the thread's invariant and whatever bytes arrive,
    -- less than 2^31 with those in the buffer: `getTRModuleInfo` returns the fields of the last
    -- response, each of its length, never a null pointer, with a zero bonding key if that response has none. A call
    -- that returns has sent its command in full and once and has taken the signal; one that
    -- throws throws a CDCSendException or a CDCReceiveException; if the thread lets out an
    -- exception, a signal has failed.
    pub get_tr_module_info-Called :
        Called api
          (construct_command msg_tr_info [])
          HasModule
          d
          (get_tr_module_info api port d arrivals)
    unfolding get_tr_module_info
    get_tr_module_info-Called =
        call-Called api port d arrivals live v small HasModule msg_tr_info [] get_parsed_module_info
          refl (λ e. cc)
          (λ m l f.
            let (i, key, e, g, h, k, n, r, l) = get_parsed_module_info-Frame m.message f in
            (some i, e, (i, key, refl, g, h, k, n, r, l)))
