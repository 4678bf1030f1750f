-- ===== src/Driver/Command.antt =====
-- Commands on their way to the port: `initMessageHeaders`, `constructCommand` and
-- `commandToBuffer` of src/CDCImpl.cpp.
use clibcdc.Base.{
  Result, [], err, if◌then◌else◌, length, ltb, ok, send_exception, ℕ, ◌%◌, ◌++◌, ◌>>=◌, ◌||◌, ◌∷◌,
}
use clibcdc.Driver.State.{Command}
use clibcdc.Parser.Grammar.{text}
use clibcdc.Types.{
  MessageType, Ustring, msg_async, msg_data_send, msg_download_data, msg_error, msg_mode_normal,
  msg_mode_program, msg_res_tr, msg_res_usb, msg_spi_stat, msg_switch, msg_test, msg_tr_info,
  msg_upload_download, msg_usb_conn, msg_usb_info, type_eq,
}

-- `messageHeaders[t]`; there is no entry for MSG_ERROR, and the map then gives the empty string.
unfoldable pub message_header : MessageType → Ustring
message_header msg_error = []
message_header msg_test = b'O' ∷ b'K' ∷ []
message_header msg_res_usb = b'R' ∷ []
message_header msg_res_tr = b'R' ∷ b'T' ∷ []
message_header msg_usb_info = b'I' ∷ []
message_header msg_tr_info = b'I' ∷ b'T' ∷ []
message_header msg_usb_conn = b'B' ∷ []
message_header msg_spi_stat = b'S' ∷ []
message_header msg_data_send = b'D' ∷ b'S' ∷ []
message_header msg_switch = b'U' ∷ []
message_header msg_async = b'D' ∷ b'R' ∷ []
message_header msg_mode_normal = b'P' ∷ b'T' ∷ []
message_header msg_mode_program = b'P' ∷ b'E' ∷ []
message_header msg_upload_download = b'P' ∷ b'M' ∷ []
message_header msg_download_data = b'P' ∷ b'M' ∷ []

unfoldable pub construct_command : MessageType → Ustring → Command
construct_command t bytes = record { msg_type = t; bytes = bytes }

abbrev pub uchar_max : ℕ
uchar_max = 255

-- `>` and the header, which the test command does not have.
unfoldable pub command_head : MessageType → Ustring
command_head t = b'>' ∷ (if type_eq t msg_test then [] else message_header t)

-- The length byte, the colon and the data of a DS command.
unfoldable pub append_send_data : Command → Ustring → Result Ustring
append_send_data cmd text =
    if type_eq cmd.msg_type msg_data_send
    then if ltb uchar_max (length cmd.bytes)
      then err send_exception
      else ok (text ++ ((length cmd.bytes % 256) ∷ b':' ∷ cmd.bytes))
    else ok text

-- The data of a PM command.
unfoldable pub append_upload_data : Command → Ustring → Result Ustring
append_upload_data cmd text =
    if type_eq cmd.msg_type msg_upload_download || type_eq cmd.msg_type msg_download_data
    then if ltb uchar_max (length cmd.bytes) then err send_exception else ok (text ++ cmd.bytes)
    else ok text

-- The bytes for the port, and the size of the transmit buffer, which grows when they do not fit.
unfoldable pub command_to_buffer : ℕ → Command → Result (Ustring × ℕ)
command_to_buffer buffer_len cmd = do
  sent ← append_send_data cmd (command_head cmd.msg_type)
  loaded ← append_upload_data cmd sent
  let whole = loaded ++ 0x0D ∷ []
  ok (whole, (if ltb buffer_len (length whole) then length whole else buffer_len))
