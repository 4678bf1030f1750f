-- ===== src/Examples/Requests.antt =====
-- The requests that examples/ReadTemperature/ReadTemperature.cpp sends, on any device.
use clibcdc.Base.{
  Error, List, Result, [], err, false, ok, replicate, suc, zero, ℕ, ◌++◌, ◌∷◌, ◌≡◌, ◌≤◌, ◌⊎◌,
}
use clibcdc.Examples.Device.{Device, is_tolerated}
use clibcdc.Examples.Session.{Call, close_call, open_call, send_call, test_call}
use clibcdc.Examples.Temperature.{temperature_request}

abbrev pub request_call : Call
request_call = send_call temperature_request

module _ {S : Type 0} where
  -- The loop has sent its `n` requests and ended with 0, or some of them, at least one, and ended
  -- with 1, the object deleted, or an exception has left it.
  abbrev pub Sends : List Call → ℕ → Result ℕ × (S × List Call) → Type 0
  Sends before n (ok zero, (s, log)) =
      log ≡ before ++ (replicate n request_call ++ (close_call ∷ []))
  Sends before n (ok (suc m), (s, log)) =
      (m ≡ 0)
      × (k : ℕ) × (1 ≤ k)
      × (k ≤ n)
      × (log ≡ before ++ (replicate k request_call ++ (close_call ∷ [])))
  Sends before n (err e, (s, log)) =
      (is_tolerated e ≡ false)
      × (rest : List Call) × (log ++ rest ≡ before ++ replicate n request_call)

  module _ (device : Device S) where
    -- How the program ends from the state `s0`. It exits with 0 behind ten requests; with 1 if the
    -- port cannot be opened or the test throws, without a request, or if reception stops, behind one
    -- to ten; with 2 if the test fails; or an exception that it does not catch leaves it.
    abbrev pub Requested : S → Result ℕ × (S × List Call) → Type 0
    Requested s0 (ok zero, (s, log)) =
        log ≡ open_call ∷ test_call ∷ (replicate 10 request_call ++ (close_call ∷ []))
    Requested s0 (ok (suc zero), (s, log)) =
        ((log ≡ open_call ∷ []) × (e : Error) × ((device.open_port s0).0 ≡ err e))
        ⊎ (((log ≡ open_call ∷ test_call ∷ close_call ∷ [])
              × (e : Error) × ((device.test (device.open_port s0).1).0 ≡ err e))
            ⊎ ((k : ℕ) × (1 ≤ k)
                × (k ≤ 10)
                × (log ≡ open_call ∷ test_call ∷ (replicate k request_call ++ (close_call ∷ [])))))
    Requested s0 (ok (suc (suc zero)), (s, log)) =
        (log ≡ open_call ∷ test_call ∷ close_call ∷ [])
        × ((device.test (device.open_port s0).1).0 ≡ ok false)
    Requested s0 (ok (suc (suc (suc m))), (s, log)) = ⊥
    Requested s0 (err e, (s, log)) =
        (is_tolerated e ≡ false)
        × (rest : List Call) × (log ++ rest ≡ open_call ∷ test_call ∷ replicate 10 request_call)
