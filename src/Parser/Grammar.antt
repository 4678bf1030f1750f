-- ===== src/Parser/Grammar.antt =====
-- The messages of the device, as a grammar that does not mention the automaton of
-- src/CDCMessageParser.cpp: for each message type its forms, each a sequence of items.
use clibcdc.Base.{
  All, List, [], ap, append-nil, append_assoc, get_elem?, length, refl, some, sym, take, ℕ, ◌++◌,
  ◌+◌, ◌<◌, ◌∷◌, ◌≡◌, ◌≢◌, ◌≤◌, ◌⊎◌,
}
use clibcdc.Parser.Special.{Section, id_section, type_section, version_section}
use clibcdc.Types.{
  MessageType, ParseResult, Ustring, msg_async, msg_data_send, msg_download_data, msg_error,
  msg_mode_normal, msg_mode_program, msg_res_tr, msg_res_usb, msg_spi_stat, msg_switch, msg_test,
  msg_tr_info, msg_upload_download, msg_usb_conn, msg_usb_info, parse_ok,
}

pub data Item : Type 0 where
  byte : ℕ → Item
  any error_digit counted usb_text idf pm_data : Item

abbrev pub IsVersionByte : ℕ → Type 0
IsVersionByte c = ((b'0' ≤ c) × (c ≤ b'9')) ⊎ (c ≡ b'.')

abbrev pub IsIdByte : ℕ → Type 0
IsIdByte c = ((b'0' ≤ c) × (c ≤ b'9')) ⊎ ((b'A' ≤ c) × (c ≤ b'H'))

abbrev pub IsTypeByte : ℕ → Type 0
IsTypeByte c = c ≢ b'#'

-- The rest of the device information from inside a section on, without the carriage return.
abbrev pub UsbText : Section → Ustring → Type 0
UsbText id_section b = All IsIdByte b
UsbText version_section b =
    (v : Ustring) × (i : Ustring) × (b ≡ v ++ (b'#' ∷ i)) × All IsVersionByte v × All IsIdByte i
UsbText type_section b =
    (t : Ustring) × (v : Ustring) × (i : Ustring) × (b ≡ t ++ (b'#' ∷ (v ++ (b'#' ∷ i))))
    × All IsTypeByte t
    × All IsVersionByte v
    × All IsIdByte i

-- The byte strings that an item stands for.
abbrev pub Fits : Item → Ustring → Type 0
Fits (byte c) b = b ≡ c ∷ []
Fits any b = (c : ℕ) × (b ≡ c ∷ [])
Fits error_digit b = (c : ℕ) × (b ≡ c ∷ []) × (b'2' ≤ c) × (c ≤ b'7')
Fits counted b = (n : ℕ) × (d : Ustring) × (b ≡ n ∷ b':' ∷ d) × (length d ≡ n)
Fits usb_text b = UsbText type_section b
Fits idf b = (length b ≡ 16) ⊎ (length b ≡ 32)
Fits pm_data b = (1 ≤ length b) × (length b ≢ 2) × (length b ≢ 4)

-- The concatenations of what the items stand for.
abbrev pub Matches : List Item → Ustring → Type 0
Matches [] xs = xs ≡ []
Matches (i ∷ is) xs = (b : Ustring) × (r : Ustring) × (xs ≡ b ++ r) × Fits i b × Matches is r

abbrev pub text_then : List ℕ → List Item → List Item
text_then [] is = is
text_then (c ∷ cs) is = byte c ∷ text_then cs is

abbrev pub text : List ℕ → List Item
text cs = text_then cs []

abbrev cr : List Item
cr = byte 0x0D ∷ []

-- The forms of each message type.
unfoldable pub grammar : MessageType → List (List Item)
grammar msg_error = text (b'<' ∷ b'E' ∷ b'R' ∷ b'R' ∷ 0x0D ∷ []) ∷ []
grammar msg_test = text (b'<' ∷ b'O' ∷ b'K' ∷ 0x0D ∷ []) ∷ []
grammar msg_res_usb = text (b'<' ∷ b'R' ∷ b':' ∷ b'O' ∷ b'K' ∷ 0x0D ∷ []) ∷ []
grammar msg_res_tr = text (b'<' ∷ b'R' ∷ b'T' ∷ b':' ∷ b'O' ∷ b'K' ∷ 0x0D ∷ []) ∷ []
grammar msg_usb_info = text_then (b'<' ∷ b'I' ∷ b':' ∷ []) (usb_text ∷ cr) ∷ []
grammar msg_tr_info = text_then (b'<' ∷ b'I' ∷ b'T' ∷ b':' ∷ []) (idf ∷ cr) ∷ []
grammar msg_usb_conn = text (b'<' ∷ b'B' ∷ b':' ∷ b'O' ∷ b'K' ∷ 0x0D ∷ []) ∷ []
grammar msg_spi_stat = text_then (b'<' ∷ b'S' ∷ b':' ∷ []) (any ∷ cr) ∷ []
grammar msg_data_send =
    text (b'<' ∷ b'D' ∷ b'S' ∷ b':' ∷ b'O' ∷ b'K' ∷ 0x0D ∷ [])
    ∷ text (b'<' ∷ b'D' ∷ b'S' ∷ b':' ∷ b'E' ∷ b'R' ∷ b'R' ∷ 0x0D ∷ [])
    ∷ text (b'<' ∷ b'D' ∷ b'S' ∷ b':' ∷ b'B' ∷ b'U' ∷ b'S' ∷ b'Y' ∷ 0x0D ∷ [])
    ∷ []
grammar msg_switch = text (b'<' ∷ b'U' ∷ b':' ∷ b'O' ∷ b'K' ∷ 0x0D ∷ []) ∷ []
grammar msg_async = text_then (b'<' ∷ b'D' ∷ b'R' ∷ []) (counted ∷ cr) ∷ []
grammar msg_mode_normal =
    text (b'<' ∷ b'P' ∷ b'T' ∷ b':' ∷ b'O' ∷ b'K' ∷ 0x0D ∷ [])
    ∷ text (b'<' ∷ b'P' ∷ b'T' ∷ b':' ∷ b'E' ∷ b'R' ∷ b'R' ∷ b'1' ∷ 0x0D ∷ [])
    ∷ []
grammar msg_mode_program =
    text (b'<' ∷ b'P' ∷ b'E' ∷ b':' ∷ b'O' ∷ b'K' ∷ 0x0D ∷ [])
    ∷ text (b'<' ∷ b'P' ∷ b'E' ∷ b':' ∷ b'E' ∷ b'R' ∷ b'R' ∷ b'1' ∷ 0x0D ∷ [])
    ∷ []
grammar msg_upload_download =
    text (b'<' ∷ b'P' ∷ b'M' ∷ b':' ∷ b'O' ∷ b'K' ∷ 0x0D ∷ [])
    ∷ text_then (b'<' ∷ b'P' ∷ b'M' ∷ b':' ∷ b'E' ∷ b'R' ∷ b'R' ∷ []) (error_digit ∷ cr)
    ∷ text (b'<' ∷ b'P' ∷ b'M' ∷ b':' ∷ b'B' ∷ b'U' ∷ b'S' ∷ b'Y' ∷ 0x0D ∷ [])
    ∷ []
grammar msg_download_data = text_then (b'<' ∷ b'P' ∷ b'M' ∷ b':' ∷ []) (pm_data ∷ cr) ∷ []

-- A complete message of a type.
abbrev pub Frame : MessageType → Ustring → Type 0
Frame t xs = (k : ℕ) × (is : List Item) × (get_elem? (grammar t) k ≡ some is) × Matches is xs

-- What a result that says PARSE_OK promises of the data.
abbrev pub Sound : Ustring → ParseResult → Type 0
Sound bytes r =
    r.result_type ≡ parse_ok
    → (r.last_position < length bytes) × Frame r.msg_type (take (r.last_position + 1) bytes)

-- A form is extended by an item and its bytes.
pub Matches-concat :
    (is : List Item) (xs : Ustring) (i : Item) (b : Ustring)
    → Matches is xs
    → Fits i b
    → Matches (is ++ i ∷ []) (xs ++ b)
Matches-concat [] xs i b m f = (b, [], rw m (sym (append-nil b)), f, refl)
Matches-concat (j ∷ is) xs i b (c, r, e, g, m) f =
    (c, r ++ b, rw e (append_assoc c r b), g, Matches-concat is r i b m f)

-- A text matches itself and nothing else.
pub Matches-text : (cs : List ℕ) (xs : Ustring) → Matches (text cs) xs → xs ≡ cs
Matches-text [] xs m = m
Matches-text (c ∷ cs) xs (b, r, e, f, m) = rw (e, f) (ap (◌∷◌ c) (Matches-text cs r m))

pub text-Matches :
    (cs : List ℕ) (is : List Item) (r : Ustring)
    → Matches is r
    → Matches (text_then cs is) (cs ++ r)
text-Matches [] is r m = m
text-Matches (c ∷ cs) is r m = (c ∷ [], cs ++ r, refl, refl, text-Matches cs is r m)

pub text_then-Matches :
    (cs : List ℕ) (is : List Item) (xs : Ustring)
    → Matches (text_then cs is) xs
    → (r : Ustring) × (xs ≡ cs ++ r) × Matches is r
text_then-Matches [] is xs m = (xs, refl, m)
text_then-Matches (c ∷ cs) is xs (b, r, e, f, m) =
    let (t, g, k) = text_then-Matches cs is r m in (t, rw (e, f) (ap (◌∷◌ c) g), k)
