-- ===== src/Examples/Device.antt =====
-- What the example programs ask of a `CDCImpl`, and the frame that they share: the connection test,
-- the programming mode around the work, and its end. The object is a state of any type, and each
-- call gives a result or an exception. What is printed is left out.
use clibcdc.Base.{
  Bool, Error, Result, err, false, if◌then◌else◌, ok, receive_exception, send_exception, true, ℕ,
}
use clibcdc.Driver.Windows.{is_caught}
use clibcdc.Types.{DsResponse, PmResponse, PteResponse, Ustring}

pub record Device (S : Type 0) : Type 0 where
  pub open_port : S → Result (Unit {0}) × S
  pub test : S → Result Bool × S
  pub enter_programming_mode : S → Result PteResponse × S
  pub terminate_programming_mode : S → Result PteResponse × S
  pub upload : ℕ → Ustring → S → Result PmResponse × S
  pub download : ℕ → Ustring → S → Result PmResponse × S
  pub send_data : Ustring → S → Result DsResponse × S
  pub is_reception_stopped : S → Bool
  pub close : S → S

-- The exceptions that the programs catch around each call: CDCSendException and
-- CDCReceiveException.
unfoldable pub is_tolerated : Error → Bool
is_tolerated send_exception = true
is_tolerated receive_exception = true
is_tolerated _ = false

module _ {S : Type 0} where
  -- A call whose response or exception is only printed.
  unfoldable pub printed : {A : Type 0} → Result A × S → Result (Unit {0}) × S
  unfolding is_tolerated
  printed (ok a, s) = (ok tt, s)
  printed (err e, s) = if is_tolerated e then (ok tt, s) else (err e, s)

  unfoldable pub and_then : {B : Type 0} → Result (Unit {0}) × S → (S → Result B × S) → Result B × S
  and_then (ok u, s) f = f s
  and_then (err e, s) f = (err e, s)

  module _ (device : Device S) where
    -- The result of the connection test; an exit code, or what follows.
    unfoldable pub after_test : (S → Result ℕ × S) → Result Bool × S → Result ℕ × S
    unfolding is_caught
    after_test next (ok true, s) = next s
    after_test next (ok false, s) = (ok 2, device.close s)
    after_test next (err e, s) = if is_caught e then (ok 1, device.close s) else (err e, s)

    unfoldable pub after_open : (S → Result ℕ × S) → Result (Unit {0}) × S → Result ℕ × S
    unfolding is_caught after_test
    after_open next (ok u, s) = after_test next (device.test s)
    after_open next (err e, s) = if is_caught e then (ok 1, s) else (err e, s)

    unfoldable pub connect : (S → Result ℕ × S) → S → Result ℕ × S
    unfolding after_open
    connect next s = after_open next (device.open_port s)

    -- The end: the programming mode is left and the object deleted.
    unfoldable pub finish : S → Result ℕ × S
    unfolding printed and_then
    finish s =
        and_then (printed (device.terminate_programming_mode s)) (λ s'. (ok 0, device.close s'))

    unfoldable pub after_enter : (S → Result (Unit {0}) × S) → Result PteResponse × S → Result ℕ × S
    unfolding is_tolerated and_then finish
    after_enter work (ok PteResponse.ok, s) = and_then (work s) finish
    after_enter work (ok _, s) = (ok 1, device.close s)
    after_enter work (err e, s) = if is_tolerated e then and_then (work s) finish else (err e, s)

    unfoldable pub in_programming_mode : (S → Result (Unit {0}) × S) → S → Result ℕ × S
    unfolding after_enter
    in_programming_mode work s = after_enter work (device.enter_programming_mode s)

    -- A program that works in the programming mode.
    unfoldable pub programming_session : (S → Result (Unit {0}) × S) → S → Result ℕ × S
    unfolding connect in_programming_mode
    programming_session work s = connect (in_programming_mode work) s
