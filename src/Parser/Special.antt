-- ===== src/Parser/Special.antt =====
-- The special states of src/CDCMessageParser.cpp: `processUSBInfo`, `processTRInfo`,
-- `processAsynData`, `processPMRespData` and their switch. Positions are `unsigned int`, sizes are
-- `size_t`, and both wrap.
use clibcdc.Base.{
  Bool, Option, Result, [], drop, err, false, get_elem?, if◌then◌else◌, leb, length, ltb, none, not,
  ok, or_fail, out_of_range, parser_exception, some, sub32, sub64, true, wrap32, ℕ, ◌&&◌, ◌+◌, ◌-◌,
  ◌==◌, ◌>>=◌, ◌||◌, ◌∷◌,
}
use clibcdc.Types.{Ustring}

pub record StateProcResult : Type 0 where
  pub new_state : ℕ
  pub last_position : ℕ
  pub format_error : Bool

abbrev pub proc_result : ℕ → ℕ → Bool → StateProcResult
proc_result s p e = record { new_state = s; last_position = p; format_error = e }

-- `data.at(i)` throws behind the end; `data[i]` is only used below it.
abbrev pub at : Ustring → ℕ → Result ℕ
at bytes i = or_fail (get_elem? bytes i) out_of_range

unfoldable pub check_usb_device_type : ℕ → Bool
check_usb_device_type byte_to_check = true

unfoldable pub check_usb_device_version : ℕ → Bool
check_usb_device_version byte_to_check =
    if leb b'0' byte_to_check && leb byte_to_check b'9' then true else byte_to_check == b'.'

unfoldable pub check_usb_device_id : ℕ → Bool
check_usb_device_id byte_to_check =
    if leb b'0' byte_to_check && leb byte_to_check b'9'
    then true
    else leb b'A' byte_to_check && leb byte_to_check b'H'

-- The values of `activeSection`.
pub data Section : Type 0 where
  type_section version_section id_section : Section

unfoldable pub check_section : Section → ℕ → Bool
unfolding check_usb_device_type check_usb_device_version check_usb_device_id
check_section type_section c = check_usb_device_type c
check_section version_section c = check_usb_device_version c
check_section id_section c = check_usb_device_id c

unfoldable pub is_id : Section → Bool
is_id id_section = true
is_id _ = false

-- The section behind a `#`; there is none behind the identifier.
unfoldable pub next_section : Section → Option Section
next_section type_section = some version_section
next_section version_section = some id_section
next_section id_section = none

-- The loop of `processUSBInfo` on the bytes from position `i` on; `result` is `procResult`.
unfoldable pub usb_info_loop : Ustring → ℕ → Section → StateProcResult → StateProcResult
usb_info_loop [] i active result = result
usb_info_loop (c ∷ cs) i active result = elim (c == 0x0D && is_id active) [
  | true ↦ proc_result 19 i result.format_error
  | false ↦ elim (c == b'#') [
    | true ↦ elim (next_section active) [
      | none ↦ proc_result result.new_state i true
      | some section ↦
          usb_info_loop cs (i + 1) section (proc_result result.new_state i result.format_error)
    ]
    | false ↦ elim (check_section active c) [
      | false ↦ proc_result result.new_state i true
      | true ↦ usb_info_loop cs (i + 1) active (proc_result result.new_state i result.format_error)
    ]
  ]
]

unfoldable pub process_usb_info : Ustring → ℕ → StateProcResult
unfolding usb_info_loop
process_usb_info bytes pos =
    if pos == sub64 (length bytes) 1
    then proc_result 17 pos false
    else usb_info_loop (drop pos bytes) pos type_section (proc_result 18 pos false)

abbrev pub module_data_size : ℕ
module_data_size = 32

abbrev pub standard_idf_size : ℕ
standard_idf_size = 21

abbrev pub extended_idf_size : ℕ
extended_idf_size = 37

-- The early returns of `processTRInfo` on a buffer of at most `EXTENDED_IDF_SIZE` bytes.
unfoldable pub idf_incomplete : Ustring → Result Bool
idf_incomplete bytes =
    if leb (length bytes) extended_idf_size
    then if not (length bytes == standard_idf_size) && not (length bytes == extended_idf_size)
      then ok true
      else if length bytes == standard_idf_size
      then (do c ← at bytes (standard_idf_size - 1); ok (not (c == 0x0D)))
      else ok false
    else ok false

-- The end of `processTRInfo`: `incomplete` says that an early return was taken.
unfoldable pub tr_info_end : Ustring → ℕ → Bool → StateProcResult
tr_info_end bytes pos incomplete =
    if incomplete
    then proc_result 21 pos false
    else if ltb (wrap32 (pos + module_data_size)) (sub64 (length bytes) 1)
    then proc_result 22 (wrap32 (sub32 pos 1 + module_data_size)) false
    else proc_result 22 (sub32 (wrap32 (length bytes)) 2) false

unfoldable pub process_tr_info : Ustring → ℕ → Result StateProcResult
unfolding idf_incomplete tr_info_end
process_tr_info bytes pos =
    if pos == sub64 (length bytes) 1
    then ok (proc_result 21 pos false)
    else (do incomplete ← idf_incomplete bytes; ok (tr_info_end bytes pos incomplete))

-- The end of `processAsynData`.
unfoldable pub asyn_data_end : Ustring → ℕ → ℕ → StateProcResult
asyn_data_end bytes pos data_length =
    if leb (length bytes) (wrap32 (pos + data_length))
    then proc_result 51 (sub32 (wrap32 (length bytes)) 1) false
    else proc_result 51 (wrap32 (sub32 pos 1 + data_length)) false

unfoldable pub process_asyn_data : Ustring → ℕ → Result StateProcResult
unfolding asyn_data_end
process_asyn_data bytes pos =
    if pos == sub64 (length bytes) 1
    then ok (proc_result 50 pos false)
    else (do data_length ← at bytes (sub32 pos 2); ok (asyn_data_end bytes pos data_length))

unfoldable pub process_pm_resp_data : Ustring → ℕ → StateProcResult
process_pm_resp_data bytes pos =
    if pos == sub64 (length bytes) 1
    then proc_result 95 pos false
    else if length bytes == 7 || length bytes == 9
    then proc_result 80 (sub32 pos 1) false
    else proc_result 96 (sub32 (wrap32 (length bytes)) 2) false

unfoldable pub process_special_state : ℕ → Ustring → ℕ → Result StateProcResult
process_special_state state bytes pos =
    if state == 17
    then ok (process_usb_info bytes pos)
    else if state == 21
    then process_tr_info bytes pos
    else if state == 50
    then process_asyn_data bytes pos
    else if state == 95
    then ok (process_pm_resp_data bytes pos)
    else err parser_exception
