-- ===== src/Driver/Send.antt =====
-- `sendCommand` of src/CDCImpl_Lin.cpp: the bytes go to the port in as many writes as it takes.
use clibcdc.Base.{
  Result, [], drop, err, length, no_fuel, ok, send_exception, suc, take, zero, ℕ, ◌++◌, ◌+◌, ◌<◌,
  ◌∷◌, ◌≡◌, ◌≤◌,
}
use clibcdc.Types.{Ustring}

-- What one round of the loop meets: a failed or timed-out `select`, a failed `write`, or a
-- `write` of so many bytes.
pub data SendEvent : Type 0 where
  select_failed select_timeout write_failed : SendEvent
  wrote : ℕ → SendEvent

-- The port, by the outcome of each round on the number of bytes that are left. A `write` to a
-- port that is ready takes at least a byte and at most what it is given.
pub record PortApi : Type 0 where
  pub outcome : ℕ → ℕ → SendEvent
  pub wrote_bounds :
      (round left n : ℕ) → 0 < left → outcome round left ≡ wrote n → (1 ≤ n) × (n ≤ left)

-- The loop on the bytes that are left; `sent` are those that the port took.
unfoldable pub send_loop : PortApi → ℕ → ℕ → Ustring → Ustring → Result (Unit {0}) × Ustring
send_loop port zero round left sent = (err no_fuel, sent)
send_loop port (suc fuel) round [] sent = (ok tt, sent)
send_loop port (suc fuel) round (c ∷ cs) sent = elim (port.outcome round (length (c ∷ cs))) [
  | select_failed ↦ (err send_exception, sent)
  | select_timeout ↦ (err send_exception, sent)
  | write_failed ↦ (err send_exception, sent)
  | wrote n ↦ send_loop port fuel (round + 1) (drop n (c ∷ cs)) (sent ++ take n (c ∷ cs))
]

unfoldable pub send_bytes : PortApi → Ustring → Result (Unit {0}) × Ustring
unfolding send_loop
send_bytes port bytes = send_loop port (length bytes + 1) 0 bytes []
