-- ===== src/Driver/Encoding.antt =====
-- Commands as a device reads them: `commandToBuffer` of src/CDCImpl.cpp against a reader of its
-- output.
use clibcdc.Base.{
  Bool, List, Option, Result, [], arith, bytes_eq, drop, err, false, find, get_or, get_or-append,
  if◌then◌else◌, length, length-append, ltb, none, ok, refl, send_exception, some, suc, take,
  take-append, true, ℕ, ◌%◌, ◌&&◌, ◌++◌, ◌+◌, ◌-◌, ◌<◌, ◌==◌, ◌||◌, ◌∷◌, ◌≡◌, ◌≤◌,
}
use clibcdc.Driver.Command.{
  append_send_data, append_upload_data, command_head, command_to_buffer, construct_command,
  message_header,
}
use clibcdc.Driver.State.{Command}
use clibcdc.Parser.Grammar.{text}
use clibcdc.Types.{
  MessageType, Ustring, msg_async, msg_data_send, msg_download_data, msg_error, msg_mode_normal,
  msg_mode_program, msg_res_tr, msg_res_usb, msg_spi_stat, msg_switch, msg_test, msg_tr_info,
  msg_upload_download, msg_usb_conn, msg_usb_info, type_code, type_eq,
}

-- The types that the public methods send.
abbrev pub is_sent : MessageType → Bool
is_sent msg_error = false
is_sent msg_async = false
is_sent msg_download_data = false
is_sent _ = true

-- A command with the data that its type carries.
abbrev pub meaning : Command → Command
meaning cmd =
    if type_eq cmd.msg_type msg_data_send || type_eq cmd.msg_type msg_upload_download
    then cmd
    else construct_command cmd.msg_type []

abbrev plain_commands : List (Ustring × MessageType)
plain_commands =
    (b'>' ∷ 0x0D ∷ [], msg_test)
    ∷ (b'>' ∷ b'R' ∷ 0x0D ∷ [], msg_res_usb)
    ∷ (b'>' ∷ b'R' ∷ b'T' ∷ 0x0D ∷ [], msg_res_tr)
    ∷ (b'>' ∷ b'I' ∷ 0x0D ∷ [], msg_usb_info)
    ∷ (b'>' ∷ b'I' ∷ b'T' ∷ 0x0D ∷ [], msg_tr_info)
    ∷ (b'>' ∷ b'B' ∷ 0x0D ∷ [], msg_usb_conn)
    ∷ (b'>' ∷ b'S' ∷ 0x0D ∷ [], msg_spi_stat)
    ∷ (b'>' ∷ b'U' ∷ 0x0D ∷ [], msg_switch)
    ∷ (b'>' ∷ b'P' ∷ b'T' ∷ 0x0D ∷ [], msg_mode_normal)
    ∷ (b'>' ∷ b'P' ∷ b'E' ∷ 0x0D ∷ [], msg_mode_program)
    ∷ []

-- A command with data: `>DS`, a length byte, a colon and so many bytes, or `>PM` and all bytes;
-- then a carriage return.
unfoldable pub read_with_data : Ustring → Option Command
read_with_data text =
    if bytes_eq (take 3 text) (b'>' ∷ b'D' ∷ b'S' ∷ [])
    then (if length text == get_or text 3 0 + 6
          && get_or text 4 0 == b':'
          && get_or text (get_or text 3 0 + 5) 0 == 0x0D
        then some (construct_command msg_data_send (take (get_or text 3 0) (drop 5 text)))
        else none)
    else if bytes_eq (take 3 text) (b'>' ∷ b'P' ∷ b'M' ∷ [])
        && get_or text (length text - 1) 0 == 0x0D
    then some (construct_command msg_upload_download (take (length text - 4) (drop 3 text)))
    else none

-- A device's reader of one command.
unfoldable pub read_command : Ustring → Option Command
read_command text = elim (find bytes_eq text plain_commands) [
  | some t ↦ some (construct_command t [])
  | none ↦ read_with_data text
]

abbrev pub Encodes : ℕ → Command → Result (Ustring × ℕ) → Type 0
Encodes buffer_len cmd (ok (bytes, n)) =
    (read_command bytes ≡ some (meaning cmd))
    × (length (meaning cmd).bytes ≤ 255)
    × (length bytes ≤ n)
    × (buffer_len ≤ n)
Encodes buffer_len cmd (err e) = (e ≡ send_exception) × (255 < length (meaning cmd).bytes)

room :
    (buffer_len n : ℕ)
    → (n ≤ (if ltb buffer_len n then n else buffer_len))
      × (buffer_len ≤ (if ltb buffer_len n then n else buffer_len))
room buffer_len n = (ground arith, ground arith)

data_send-Encodes :
    (buffer_len : ℕ) (d : Ustring) (b : Bool)
    → ltb 255 (length d) ≡ b
    → Encodes buffer_len
        (construct_command msg_data_send d)
        (command_to_buffer buffer_len (construct_command msg_data_send d))
unfolding construct_command command_to_buffer append_send_data append_upload_data command_head
    message_header type_eq type_code read_command find bytes_eq read_with_data
data_send-Encodes buffer_len d true e = rw e (refl, ground arith)
data_send-Encodes buffer_len d false e =
    let few : length d % 256 ≡ length d = ground arith in
    let size = length-append d (0x0D ∷ []) in
    let whole : (suc (suc (suc (suc (suc (length (d ++ 0x0D ∷ [])))))) == length d + 6) ≡ true =
      ground (arith, size) in
    let last : get_or (b'>' ∷ b'D' ∷ b'S' ∷ length d ∷ b':' ∷ (d ++ 0x0D ∷ [])) (length d + 5) 0
        ≡ 0x0D =
      get_or-append (length d + 5) (b'>' ∷ b'D' ∷ b'S' ∷ length d ∷ b':' ∷ d) (0x0D ∷ []) 0
        (omega arith) in
    rw e (
      rw (few, whole, last, take-append (length d) d (0x0D ∷ []) refl) refl,
      ground arith,
      (room buffer_len _).0,
      (room buffer_len _).1,
    )

upload-Encodes :
    (buffer_len : ℕ) (d : Ustring) (b : Bool)
    → ltb 255 (length d) ≡ b
    → Encodes buffer_len
        (construct_command msg_upload_download d)
        (command_to_buffer buffer_len (construct_command msg_upload_download d))
unfolding construct_command command_to_buffer append_send_data append_upload_data command_head
    message_header type_eq type_code read_command find bytes_eq read_with_data
upload-Encodes buffer_len d true e = rw e (refl, ground arith)
upload-Encodes buffer_len d false e =
    let size = length-append d (0x0D ∷ []) in
    let last : get_or (b'>' ∷ b'P' ∷ b'M' ∷ (d ++ 0x0D ∷ []))
          (suc (suc (suc (length (d ++ 0x0D ∷ [])))) - 1) 0
        ≡ 0x0D =
      get_or-append _ (b'>' ∷ b'P' ∷ b'M' ∷ d) (0x0D ∷ []) 0 (omega (arith, size)) in
    let count : suc (suc (suc (length (d ++ 0x0D ∷ [])))) - 4 ≡ length d = omega (arith, size) in
    rw e (
      rw (last, count, take-append (length d) d (0x0D ∷ []) refl) refl,
      ground arith,
      (room buffer_len _).0,
      (room buffer_len _).1,
    )

plain-Encodes :
    (buffer_len : ℕ) (t : MessageType) (d : Ustring)
    → is_sent t ≡ true
    → type_eq t msg_data_send || type_eq t msg_upload_download ≡ false
    → Encodes buffer_len
        (construct_command t d)
        (command_to_buffer buffer_len (construct_command t d))
unfolding construct_command command_to_buffer append_send_data append_upload_data command_head
    message_header type_eq type_code read_command find bytes_eq read_with_data
plain-Encodes buffer_len msg_error d h k = cc
plain-Encodes buffer_len msg_async d h k = cc
plain-Encodes buffer_len msg_download_data d h k = cc
plain-Encodes buffer_len msg_data_send d h k = cc
plain-Encodes buffer_len msg_upload_download d h k = cc
plain-Encodes buffer_len _ d h k = (refl, omega arith, (room buffer_len _).0, (room buffer_len _).1)

-- What `commandToBuffer` makes of a command that the methods send, a device reads back: the type,
-- and the data if the type carries data. It fails exactly with a CDCSendException, on more than
-- 255 bytes of data that the command carries. The buffer has room for the bytes, and never
-- shrinks.
pub command_to_buffer-Encodes :
    (buffer_len : ℕ) (cmd : Command)
    → is_sent cmd.msg_type ≡ true
    → Encodes buffer_len cmd (command_to_buffer buffer_len cmd)
unfolding construct_command type_eq type_code
command_to_buffer-Encodes buffer_len cmd h = by_type cmd.msg_type h
  where
    by_type :
        (t : MessageType)
        → is_sent t ≡ true
        → Encodes buffer_len
            (construct_command t cmd.bytes)
            (command_to_buffer buffer_len (construct_command t cmd.bytes))
    by_type msg_data_send k = data_send-Encodes buffer_len cmd.bytes _ refl
    by_type msg_upload_download k = upload-Encodes buffer_len cmd.bytes _ refl
    by_type msg_error k = cc
    by_type msg_async k = cc
    by_type msg_download_data k = cc
    by_type t k = plain-Encodes buffer_len t cmd.bytes k refl
