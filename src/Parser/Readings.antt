-- ===== src/Parser/Readings.antt =====
-- What the `getParsed` methods of src/CDCMessageParser.cpp read from the complete messages of
-- their type: an inverse of the messages' texts.
pub mod Module
pub mod Device
use mathlib.Core.Option.{some-injective}
use clibcdc.Base.{
  List, [], ap, arith, bytes_eq, contains, drop, false, length, length-append, ltb, not, ok, refl,
  some, sub64, subst, suc, sym, take-append, zero, ℕ, ◌++◌, ◌+◌, ◌-◌, ◌<◌, ◌^◌, ◌∙◌, ◌∷◌, ◌≡◌,
}
use clibcdc.Parser.Extract.{
  choose, get_parsed_ds_response, get_parsed_pe_response, get_parsed_pm_data,
  get_parsed_pm_response, get_parsed_pt_response, get_parsed_spi_status, message_body, substr,
}
use clibcdc.Parser.Grammar.{
  Fits, Frame, Item, Matches, Matches-text, any, error_digit, grammar, pm_data, text, text_then,
  text_then-Matches,
}
use clibcdc.Parser.States.{insert_state, insert_states, spi_modes}
use clibcdc.Types.{
  DsResponse, PmResponse, PteResponse, SpiStatus, Ustring, msg_data_send, msg_download_data,
  msg_mode_normal, msg_mode_program, msg_spi_stat, msg_upload_download, spi_value,
}

abbrev pub reply_text : Ustring → Ustring → Ustring
reply_text header body = header ++ (body ++ 0x0D ∷ [])

-- The messages of the responses.
abbrev pub ds_message : DsResponse → Ustring
ds_message DsResponse.ok = reply_text (b'<' ∷ b'D' ∷ b'S' ∷ b':' ∷ []) (b'O' ∷ b'K' ∷ [])
ds_message DsResponse.err = reply_text (b'<' ∷ b'D' ∷ b'S' ∷ b':' ∷ []) (b'E' ∷ b'R' ∷ b'R' ∷ [])
ds_message DsResponse.busy =
    reply_text (b'<' ∷ b'D' ∷ b'S' ∷ b':' ∷ []) (b'B' ∷ b'U' ∷ b'S' ∷ b'Y' ∷ [])

abbrev pub pte_message : ℕ → PteResponse → Ustring
pte_message c PteResponse.ok = reply_text (b'<' ∷ b'P' ∷ c ∷ b':' ∷ []) (b'O' ∷ b'K' ∷ [])
pte_message c PteResponse.err1 =
    reply_text (b'<' ∷ b'P' ∷ c ∷ b':' ∷ []) (b'E' ∷ b'R' ∷ b'R' ∷ b'1' ∷ [])

abbrev pub pm_error : ℕ → Ustring
pm_error c = b'E' ∷ b'R' ∷ b'R' ∷ c ∷ []

abbrev pub pm_header : Ustring
pm_header = b'<' ∷ b'P' ∷ b'M' ∷ b':' ∷ []

abbrev pub pm_message : PmResponse → Ustring
pm_message PmResponse.ok = reply_text pm_header (b'O' ∷ b'K' ∷ [])
pm_message PmResponse.err2 = reply_text pm_header (pm_error b'2')
pm_message PmResponse.err3 = reply_text pm_header (pm_error b'3')
pm_message PmResponse.err4 = reply_text pm_header (pm_error b'4')
pm_message PmResponse.err5 = reply_text pm_header (pm_error b'5')
pm_message PmResponse.err6 = reply_text pm_header (pm_error b'6')
pm_message PmResponse.err7 = reply_text pm_header (pm_error b'7')
pm_message PmResponse.busy = reply_text pm_header (b'B' ∷ b'U' ∷ b'S' ∷ b'Y' ∷ [])

-- A form that is a text, or a text and one more item.
pub form-text :
    (cs : List ℕ) (is : List Item) (m : Ustring) → some (text cs) ≡ some is → Matches is m → m ≡ cs
form-text cs is m e f =
    Matches-text cs m (subst (λ is. Matches is m) (sym (some-injective _ _ e)) f)

pub form-item :
    (cs : List ℕ) (i : Item) (is : List Item) (m : Ustring)
    → some (text_then cs (i ∷ text (0x0D ∷ []))) ≡ some is
    → Matches is m
    → (b : Ustring) × (m ≡ reply_text cs b) × Fits i b
form-item cs i is m e f =
    let (r, e1, (b, t, e2, fits, k)) =
      text_then-Matches cs (i ∷ text (0x0D ∷ [])) m
        (subst (λ is. Matches is m) (sym (some-injective _ _ e)) f) in
    let end = Matches-text (0x0D ∷ []) t k in
    (b, e1 ∙ ap (λ r. cs ++ r) (e2 ∙ ap (λ t. b ++ t) end), fits)

-- The response to sent data is the one whose message was received.
pub get_parsed_ds_response-Frame :
    (m : Ustring)
    → Frame msg_data_send m
    → (r : DsResponse) × (get_parsed_ds_response m ≡ ok r) × (m ≡ ds_message r)
unfolding grammar get_parsed_ds_response message_body substr choose bytes_eq
get_parsed_ds_response-Frame m (zero, is, e, f) =
    let h = form-text _ is m e f in (DsResponse.ok, ap get_parsed_ds_response h, h)
get_parsed_ds_response-Frame m (suc zero, is, e, f) =
    let h = form-text _ is m e f in (DsResponse.err, ap get_parsed_ds_response h, h)
get_parsed_ds_response-Frame m (suc (suc zero), is, e, f) =
    let h = form-text _ is m e f in (DsResponse.busy, ap get_parsed_ds_response h, h)
get_parsed_ds_response-Frame m (suc (suc (suc k)), is, e, f) = cc

-- Likewise the response to the end and to the start of the programming mode.
pub get_parsed_pt_response-Frame :
    (m : Ustring)
    → Frame msg_mode_normal m
    → (r : PteResponse) × (get_parsed_pt_response m ≡ ok r) × (m ≡ pte_message b'T' r)
unfolding grammar get_parsed_pt_response message_body substr choose bytes_eq
get_parsed_pt_response-Frame m (zero, is, e, f) =
    let h = form-text _ is m e f in (PteResponse.ok, ap get_parsed_pt_response h, h)
get_parsed_pt_response-Frame m (suc zero, is, e, f) =
    let h = form-text _ is m e f in (PteResponse.err1, ap get_parsed_pt_response h, h)
get_parsed_pt_response-Frame m (suc (suc k), is, e, f) = cc

pub get_parsed_pe_response-Frame :
    (m : Ustring)
    → Frame msg_mode_program m
    → (r : PteResponse) × (get_parsed_pe_response m ≡ ok r) × (m ≡ pte_message b'E' r)
unfolding grammar get_parsed_pe_response message_body substr choose bytes_eq
get_parsed_pe_response-Frame m (zero, is, e, f) =
    let h = form-text _ is m e f in (PteResponse.ok, ap get_parsed_pe_response h, h)
get_parsed_pe_response-Frame m (suc zero, is, e, f) =
    let h = form-text _ is m e f in (PteResponse.err1, ap get_parsed_pe_response h, h)
get_parsed_pe_response-Frame m (suc (suc k), is, e, f) = cc

-- The errors of an upload, by their digit.
pm_error-digit :
    (i : ℕ)
    → i < 6
    → (r : PmResponse) × (get_parsed_pm_response (reply_text pm_header (pm_error (b'2' + i)))
        ≡ ok r)
      × (reply_text pm_header (pm_error (b'2' + i)) ≡ pm_message r)
unfolding get_parsed_pm_response message_body substr choose bytes_eq
pm_error-digit zero h = (PmResponse.err2, refl, refl)
pm_error-digit (suc zero) h = (PmResponse.err3, refl, refl)
pm_error-digit (suc (suc zero)) h = (PmResponse.err4, refl, refl)
pm_error-digit (suc (suc (suc zero))) h = (PmResponse.err5, refl, refl)
pm_error-digit (suc (suc (suc (suc zero)))) h = (PmResponse.err6, refl, refl)
pm_error-digit (suc (suc (suc (suc (suc zero))))) h = (PmResponse.err7, refl, refl)
pm_error-digit (suc (suc (suc (suc (suc (suc i)))))) h = absurd (omega arith)

-- Likewise the response to an upload.
pub get_parsed_pm_response-Frame :
    (m : Ustring)
    → Frame msg_upload_download m
    → (r : PmResponse) × (get_parsed_pm_response m ≡ ok r) × (m ≡ pm_message r)
unfolding grammar get_parsed_pm_response message_body substr choose bytes_eq
get_parsed_pm_response-Frame m (zero, is, e, f) =
    let h = form-text _ is m e f in (PmResponse.ok, ap get_parsed_pm_response h, h)
get_parsed_pm_response-Frame m (suc zero, is, e, f) =
    let (b, h, (c, g, low, high)) =
      form-item (b'<' ∷ b'P' ∷ b'M' ∷ b':' ∷ b'E' ∷ b'R' ∷ b'R' ∷ []) error_digit is m e f in
    let digit : c ≡ b'2' + (c - b'2') = omega arith in
    let whole : m ≡ reply_text pm_header (pm_error (b'2' + (c - b'2'))) =
      h
      ∙ ap (reply_text (b'<' ∷ b'P' ∷ b'M' ∷ b':' ∷ b'E' ∷ b'R' ∷ b'R' ∷ []))
          (g ∙ ap (λ c. c ∷ []) digit) in
    let (r, p, q) = pm_error-digit (c - b'2') (omega arith) in
    (r, ap get_parsed_pm_response whole ∙ p, whole ∙ q)
get_parsed_pm_response-Frame m (suc (suc zero), is, e, f) =
    let h = form-text _ is m e f in (PmResponse.busy, ap get_parsed_pm_response h, h)
get_parsed_pm_response-Frame m (suc (suc (suc k)), is, e, f) = cc

-- The data of a download are all bytes between the header and the last carriage return.
pub get_parsed_pm_data-Frame :
    (m : Ustring)
    → length m < 2 ^ 31
    → Frame msg_download_data m
    → (d : Ustring) × (get_parsed_pm_data m ≡ ok d) × (m ≡ reply_text pm_header d)
unfolding grammar get_parsed_pm_data message_body substr
get_parsed_pm_data-Frame m small (zero, is, e, f) =
    let (d, h, fits) = form-item pm_header pm_data is m e f in
    let size : length m ≡ 5 + length d = omega (arith, ap length h, length-append d (0x0D ∷ [])) in
    let inside : ltb (length m) 4 ≡ false = ground (arith, size) in
    let count : sub64 (sub64 (length m) 1) 4 ≡ length d = omega (arith, size) in
    let body : drop 4 m ≡ d ++ 0x0D ∷ [] = ap (drop 4) h in
    (d, rw (inside, count, body) (ap ok (take-append (length d) d (0x0D ∷ []) refl)), h)
get_parsed_pm_data-Frame m small (suc k, is, e, f) = cc

-- The nine bytes that stand for a mode of the SPI, from HW_ERROR down to DISABLED.
abbrev pub mode_bytes : Ustring
mode_bytes = 0xFF ∷ 0x83 ∷ 0x82 ∷ 0x81 ∷ 0x80 ∷ 0x3E ∷ 0x3F ∷ 0x07 ∷ 0x00 ∷ []

spi_modes-mode_bytes : spi_modes ≡ mode_bytes
unfolding spi_modes insert_states insert_state contains spi_value
spi_modes-mode_bytes = refl

-- The SPI status is the one byte of its message, and stands for available data unless it is one
-- of the modes.
pub get_parsed_spi_status-Frame :
    (m : Ustring)
    → Frame msg_spi_stat m
    → (s : SpiStatus) × (get_parsed_spi_status m ≡ ok s)
      × (m ≡ reply_text (b'<' ∷ b'S' ∷ b':' ∷ []) (s.value ∷ []))
      × (s.is_data_ready ≡ not (contains mode_bytes s.value))
unfolding grammar get_parsed_spi_status
get_parsed_spi_status-Frame m (zero, is, e, f) =
    let (b, h, (c, g)) = form-item (b'<' ∷ b'S' ∷ b':' ∷ []) any is m e f in
    let whole : m ≡ reply_text (b'<' ∷ b'S' ∷ b':' ∷ []) (c ∷ []) =
      h ∙ ap (reply_text (b'<' ∷ b'S' ∷ b':' ∷ [])) g in
    (
      record { is_data_ready = not (contains spi_modes c); value = c },
      ap get_parsed_spi_status whole,
      whole,
      ap (λ l. not (contains l c)) spi_modes-mode_bytes,
    )
get_parsed_spi_status-Frame m (suc k, is, e, f) = cc
