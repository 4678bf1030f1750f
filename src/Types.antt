-- ===== src/Types.antt =====
-- include/CDCTypes.h, include/CdcInterface.h and include/CDCMessageParser.h: the enumerations and
-- structures that the parser and the driver share. A `ustring` is a list of byte values.
use clibcdc.Base.{
  ==_iff, ==_self, All, Bool, Bool-cases, List, [], ap, false, get_or, inl, inr, refl, sym, true, ℕ,
  ◌<◌, ◌==◌, ◌∙◌, ◌∷◌, ◌≡◌, ◌≢◌,
}

abbrev pub Ustring : Type 0
Ustring = List ℕ

abbrev pub IsBytes : Ustring → Type 0
IsBytes = All (λ c. c < 256)

pub data MessageType : Type 0 where
  msg_error msg_test msg_res_usb msg_res_tr msg_usb_info : MessageType
  msg_tr_info msg_usb_conn msg_spi_stat msg_data_send msg_switch : MessageType
  msg_async msg_mode_normal msg_mode_program msg_upload_download : MessageType
  msg_download_data : MessageType

-- The value of the enumerator.
unfoldable pub type_code : MessageType → ℕ
type_code msg_error = 0
type_code msg_test = 1
type_code msg_res_usb = 2
type_code msg_res_tr = 3
type_code msg_usb_info = 4
type_code msg_tr_info = 5
type_code msg_usb_conn = 6
type_code msg_spi_stat = 7
type_code msg_data_send = 8
type_code msg_switch = 9
type_code msg_async = 10
type_code msg_mode_normal = 11
type_code msg_mode_program = 12
type_code msg_upload_download = 13
type_code msg_download_data = 14

-- `==` of two message types.
unfoldable pub type_eq : MessageType → MessageType → Bool
type_eq a b = type_code a == type_code b

message_types : List MessageType
message_types =
    msg_error ∷ msg_test ∷ msg_res_usb ∷ msg_res_tr ∷ msg_usb_info ∷ msg_tr_info ∷ msg_usb_conn
    ∷ msg_spi_stat ∷ msg_data_send ∷ msg_switch ∷ msg_async ∷ msg_mode_normal ∷ msg_mode_program
    ∷ msg_upload_download ∷ msg_download_data ∷ []

type_of_code : (t : MessageType) → get_or message_types (type_code t) msg_error ≡ t
unfolding message_types type_code
type_of_code msg_error = refl
type_of_code _ = refl

pub type_eq_sound : (a b : MessageType) → type_eq a b ≡ true → a ≡ b
unfolding type_eq
type_eq_sound a b h =
    let e : type_code a ≡ type_code b = (==_iff _ _).0 h in
    sym (type_of_code a) ∙ ap (λ n. get_or message_types n msg_error) e ∙ type_of_code b

pub type_ne-eq : (a b : MessageType) → a ≢ b → type_eq a b ≡ false
type_ne-eq a b h = elim (Bool-cases (type_eq a b)) [
  | inl e ↦ absurd (h (type_eq_sound a b e))
  | inr e ↦ e
]

pub type_eq_self : (a : MessageType) → type_eq a a ≡ true
unfolding type_eq
type_eq_self a = ==_self (type_code a)

pub data ParseResultType : Type 0 where
  parse_ok parse_not_complete parse_bad_format : ParseResultType

pub record ParseResult : Type 0 where
  pub msg_type : MessageType
  pub result_type : ParseResultType
  pub last_position : ℕ

pub record DeviceInfo : Type 0 where
  pub type : Ustring
  pub type_len : ℕ
  pub firmware_version : Ustring
  pub fw_len : ℕ
  pub serial_number : Ustring
  pub sn_len : ℕ

pub record ModuleInfo : Type 0 where
  pub serial_number : Ustring
  pub os_version : ℕ
  pub tr_type : ℕ
  pub os_build : Ustring
  pub reserved : Ustring
  pub ibk : Ustring

-- `enum SPIModes`, by value.
pub data SpiModes : Type 0 where
  disabled suspended buff_protect crcm_err ready_comm : SpiModes
  ready_prog ready_debug slow_mode hw_error : SpiModes

unfoldable pub spi_value : SpiModes → ℕ
spi_value disabled = 0x0
spi_value suspended = 0x07
spi_value buff_protect = 0x3F
spi_value crcm_err = 0x3E
spi_value ready_comm = 0x80
spi_value ready_prog = 0x81
spi_value ready_debug = 0x82
spi_value slow_mode = 0x83
spi_value hw_error = 0xFF

-- `value` is the union of `SPI_MODE` and `DATA_READY`, both read as the stored integer.
pub record SpiStatus : Type 0 where
  pub is_data_ready : Bool
  pub value : ℕ

pub data DsResponse : Type 0 where
  ok err busy : DsResponse

pub data PmResponse : Type 0 where
  ok err2 err3 err4 err5 err6 err7 busy : PmResponse

pub data PteResponse : Type 0 where
  ok err1 : PteResponse
