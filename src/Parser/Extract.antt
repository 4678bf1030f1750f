-- ===== src/Parser/Extract.antt =====
-- The `getParsed…` methods of src/CDCMessageParser.cpp, which take a received message apart.
-- `substr` and `at` throw `std::out_of_range`; a difference of sizes that would be negative wraps
-- in `size_t`, and an array of such a size cannot be allocated.
use clibcdc.Base.{
  Bool, List, Option, Result, [], bad_alloc, bytes_eq, contains, drop, err, if◌then◌else◌, length,
  ltb, none, not, ok, out_of_range, parser_exception, replicate, some, sub64, suc, take, wrap32,
  zero, ℕ, ◌%◌, ◌&&◌, ◌+◌, ◌-◌, ◌==◌, ◌>>=◌, ◌^◌, ◌∷◌,
}
use clibcdc.Parser.Grammar.{text}
use clibcdc.Parser.Special.{at, extended_idf_size, standard_idf_size}
use clibcdc.Parser.States.{spi_modes}
use clibcdc.Types.{DeviceInfo, DsResponse, ModuleInfo, PmResponse, PteResponse, SpiStatus, Ustring}

abbrev pub npos : ℕ
npos = 2 ^ 64 - 1

-- The position of the first `c` in the string, the first byte being at `i`.
unfoldable pub find_from : Ustring → ℕ → ℕ → ℕ
find_from [] i c = npos
find_from (x ∷ xs) i c = if x == c then i else find_from xs (i + 1) c

-- `data.find(c, pos)`.
unfoldable pub find_byte : Ustring → ℕ → ℕ → ℕ
find_byte bytes c pos = find_from (drop pos bytes) pos c

-- `data.substr(pos, n)`.
unfoldable pub substr : Ustring → ℕ → ℕ → Result Ustring
substr bytes pos n =
    if ltb (length bytes) pos then err out_of_range else ok (take n (drop pos bytes))

-- `new char[n]`; a size above the largest object's throws.
unfoldable pub new_array : ℕ → Result (Unit {0})
new_array n = if ltb n (2 ^ 63) then ok tt else err bad_alloc

-- One field of the device information: the bytes from `start` up to `stop`, which is `npos` if the
-- separator is missing, and the room for them and one byte more.
unfoldable pub device_field : Ustring → ℕ → ℕ → Result Ustring
unfolding substr new_array
device_field bytes start stop = do
  text ← substr bytes start (sub64 stop start)
  room ← new_array ((sub64 stop start + 1) % 2 ^ 64)
  ok text

unfoldable pub get_parsed_device_info : Ustring → Result DeviceInfo
get_parsed_device_info bytes =
    let first = find_byte bytes b'#' 3 in
    let second = find_byte bytes b'#' ((first + 1) % 2 ^ 64) in
    let cr = find_byte bytes 13 ((second + 1) % 2 ^ 64) in
    do
      type ← device_field bytes 3 first
      version ← device_field bytes ((first + 1) % 2 ^ 64) second
      serial ← device_field bytes ((second + 1) % 2 ^ 64) cr
      ok (record {
        type = type;
        type_len = wrap32 (sub64 first 3);
        firmware_version = version;
        fw_len = wrap32 (sub64 (sub64 second first) 1);
        serial_number = serial;
        sn_len = wrap32 (sub64 (sub64 cr second) 1);
      })

-- `n` bytes from position `pos` on, by `at`.
unfoldable pub read_at : Ustring → ℕ → ℕ → Result Ustring
read_at bytes pos zero = ok []
read_at bytes pos (suc n) = do c ← at bytes pos; rest ← read_at bytes (pos + 1) n; ok (c ∷ rest)

-- The loop over the bonding key, which a standard message does not have.
unfoldable pub read_ibk : Ustring → Bool → Result Ustring
read_ibk bytes extended = if extended then read_at bytes 20 16 else ok (replicate 16 0)

-- `none` is the null pointer. The body begins at 4; its parts have 4, 1, 1, 2, 8 and 16 bytes.
unfoldable pub get_parsed_module_info : Ustring → Result (Option ModuleInfo)
unfolding read_at read_ibk
get_parsed_module_info bytes =
    if not (length bytes == standard_idf_size) && not (length bytes == extended_idf_size)
    then ok none
    else do
      serial ← read_at bytes 4 4
      os ← at bytes 8
      tr ← at bytes 9
      build ← read_at bytes 10 2
      spare ← read_at bytes 12 8
      key ← read_ibk bytes (length bytes == extended_idf_size)
      ok (
          some (record {
            serial_number = serial;
            os_version = os;
            tr_type = tr;
            os_build = build;
            reserved = spare;
            ibk = key;
          }))

unfoldable pub get_parsed_spi_status : Ustring → Result SpiStatus
get_parsed_spi_status bytes = do
  parsed_value ← at bytes 3
  ok (record { is_data_ready = not (contains spi_modes parsed_value); value = parsed_value })

-- The text of a response, between its header and the carriage return.
unfoldable pub message_body : Ustring → ℕ → Result Ustring
unfolding substr
message_body bytes pos = substr bytes pos (sub64 (sub64 (length bytes) 1) pos)

-- The responses are tried in the order of the source.
unfoldable pub choose {ℓ} : {A : Type ℓ} → Ustring → List (Ustring × A) → Result A
choose body [] = err parser_exception
choose body ((text, a) ∷ rest) = if bytes_eq body text then ok a else choose body rest

abbrev pub ds_texts : List (Ustring × DsResponse)
ds_texts =
    (b'O' ∷ b'K' ∷ [], DsResponse.ok)
    ∷ (b'E' ∷ b'R' ∷ b'R' ∷ [], DsResponse.err)
    ∷ (b'B' ∷ b'U' ∷ b'S' ∷ b'Y' ∷ [], DsResponse.busy)
    ∷ []

abbrev pub pte_texts : List (Ustring × PteResponse)
pte_texts =
    (b'O' ∷ b'K' ∷ [], PteResponse.ok) ∷ (b'E' ∷ b'R' ∷ b'R' ∷ b'1' ∷ [], PteResponse.err1) ∷ []

abbrev pub pm_texts : List (Ustring × PmResponse)
pm_texts =
    (b'O' ∷ b'K' ∷ [], PmResponse.ok)
    ∷ (b'E' ∷ b'R' ∷ b'R' ∷ b'2' ∷ [], PmResponse.err2)
    ∷ (b'E' ∷ b'R' ∷ b'R' ∷ b'3' ∷ [], PmResponse.err3)
    ∷ (b'E' ∷ b'R' ∷ b'R' ∷ b'4' ∷ [], PmResponse.err4)
    ∷ (b'E' ∷ b'R' ∷ b'R' ∷ b'5' ∷ [], PmResponse.err5)
    ∷ (b'E' ∷ b'R' ∷ b'R' ∷ b'6' ∷ [], PmResponse.err6)
    ∷ (b'E' ∷ b'R' ∷ b'R' ∷ b'7' ∷ [], PmResponse.err7)
    ∷ (b'B' ∷ b'U' ∷ b'S' ∷ b'Y' ∷ [], PmResponse.busy)
    ∷ []

unfoldable pub get_parsed_ds_response : Ustring → Result DsResponse
get_parsed_ds_response bytes = do body ← message_body bytes 4; choose body ds_texts

unfoldable pub get_parsed_pe_response : Ustring → Result PteResponse
get_parsed_pe_response bytes = do body ← message_body bytes 4; choose body pte_texts

unfoldable pub get_parsed_pt_response : Ustring → Result PteResponse
get_parsed_pt_response bytes = do body ← message_body bytes 4; choose body pte_texts

unfoldable pub get_parsed_pm_response : Ustring → Result PmResponse
get_parsed_pm_response bytes = do body ← message_body bytes 4; choose body pm_texts

unfoldable pub get_parsed_dr_data : Ustring → Result Ustring
unfolding message_body
get_parsed_dr_data bytes = message_body bytes 5

unfoldable pub get_parsed_pm_data : Ustring → Result Ustring
unfolding message_body
get_parsed_pm_data bytes = message_body bytes 4
