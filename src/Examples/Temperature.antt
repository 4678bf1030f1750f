-- ===== src/Examples/Temperature.antt =====
-- examples/ReadTemperature/ReadTemperature.cpp: requests for the temperature are sent, and a
-- listener prints what comes back. The arguments, the registration of the listener and the pause
-- between requests are left out. A read behind the received bytes is `undefined`.
use clibcdc.Base.{
  Bool, Result, [], false, if◌then◌else◌, length, ltb, ok, suc, take, true, zero, ℕ, ◌==◌, ◌>>=◌,
  ◌∷◌,
}
use clibcdc.Examples.Device.{Device, and_then, connect, printed}
use clibcdc.Hex.Image.{load}
use clibcdc.Types.{Ustring}

-- What the listener prints, without its fixed texts.
pub data Printed : Type 0 where
  no_data : Printed
  unknown_data confirmation unknown_type : Ustring → Printed
  error_code : ℕ → Printed
  temperature : ℕ → ℕ → Printed

abbrev pub header_length : ℕ
header_length = 4

abbrev pub confirmation_header : Ustring
confirmation_header = 0x01 ∷ 0x00 ∷ 0x0A ∷ 0x00 ∷ []

abbrev pub response_header : Ustring
response_header = 0x01 ∷ 0x00 ∷ 0x0A ∷ 0x80 ∷ []

-- The loop of `isConfirmation` and `isResponse`, over the expected header.
unfoldable pub is_header : Ustring → Ustring → Bool
is_header [] header = true
is_header (c ∷ cs) [] = false
is_header (c ∷ cs) (h ∷ hs) = let rest = is_header cs hs in if h == c then rest else false

unfoldable pub is_confirmation : Ustring → Bool
unfolding is_header
is_confirmation header = is_header confirmation_header header

unfoldable pub is_response : Ustring → Bool
unfolding is_header
is_response header = is_header response_header header

-- `printResponse`: the two bytes of the full value are copied, and the first of them is printed.
unfoldable pub print_response : Ustring → Result Printed
print_response response = do
  code ← load response 6
  if code == 0
      then (do
        value ← load response 8
        fraction ← load response 9
        second ← load response 10
        ok (temperature value fraction))
      else ok (error_code code)

unfoldable pub receive_data : Ustring → Result Printed
unfolding is_confirmation is_response print_response
receive_data bytes =
    if length bytes == 0
    then ok no_data
    else if ltb (length bytes) header_length
    then ok (unknown_data bytes)
    else if is_confirmation (take header_length bytes)
    then ok (confirmation bytes)
    else if is_response (take header_length bytes)
    then print_response bytes
    else ok (unknown_type bytes)

abbrev pub temperature_request : Ustring
temperature_request = 0x01 ∷ 0x00 ∷ 0x0A ∷ 0x00 ∷ 0xFF ∷ 0xFF ∷ []

module _ {S : Type 0} (device : Device S) where
  -- The loop, with `n` requests to go, from a request that was sent.
  unfoldable pub send_requests : ℕ → S → Result ℕ × S
  unfolding printed and_then
  send_requests zero s = (ok 0, device.close s)
  send_requests (suc n) s =
      and_then (printed (device.send_data temperature_request s)) (λ s'.
        if device.is_reception_stopped s' then (ok 1, device.close s') else send_requests n s')

  unfoldable pub temperature_main : S → Result ℕ × S
  unfolding send_requests
  temperature_main s = connect device (send_requests 10) s
