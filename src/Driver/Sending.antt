-- ===== src/Driver/Sending.antt =====
-- What `sendCommand` of src/CDCImpl_Lin.cpp leaves on the port.
use clibcdc.Base.{
  Result, [], ap, append-nil, append_assoc, arith, drop, err, length, length-drop, ok, refl,
  send_exception, suc, sym, take, take-append-drop, zero, ℕ, ◌++◌, ◌+◌, ◌<◌, ◌∙◌, ◌∷◌, ◌≡◌,
}
use clibcdc.Driver.Send.{
  PortApi, SendEvent, select_failed, select_timeout, send_bytes, send_loop, write_failed, wrote,
}
use clibcdc.Types.{Ustring}

-- On success all bytes were sent, and each once; on a failure those sent are a proper beginning.
abbrev pub Sends : Ustring → Result (Unit {0}) × Ustring → Type 0
Sends bytes (ok u, sent) = sent ≡ bytes
Sends bytes (err e, sent) =
    (e ≡ send_exception) × (r : Ustring) × (bytes ≡ sent ++ r) × (0 < length r)

send_round-Sends :
    (left sent : Ustring) (rest : ℕ → Result (Unit {0}) × Ustring) (e : SendEvent)
    → 0 < length left
    → ((n : ℕ) → e ≡ wrote n → Sends ((sent ++ take n left) ++ drop n left) (rest n))
    → Sends (sent ++ left) (elim e [
      | select_failed ↦ (err send_exception, sent)
      | select_timeout ↦ (err send_exception, sent)
      | write_failed ↦ (err send_exception, sent)
      | wrote n ↦ rest n
    ])
send_round-Sends left sent rest select_failed h k = (refl, left, refl, h)
send_round-Sends left sent rest select_timeout h k = (refl, left, refl, h)
send_round-Sends left sent rest write_failed h k = (refl, left, refl, h)
send_round-Sends left sent rest (wrote n) h k =
    let whole : (sent ++ take n left) ++ drop n left ≡ sent ++ left =
      append_assoc sent (take n left) (drop n left) ∙ ap (◌++◌ sent) (take-append-drop n left) in
    rw whole at (k n refl)

send_loop-Sends :
    (port : PortApi) (fuel round : ℕ) (left sent : Ustring)
    → length left < fuel
    → Sends (sent ++ left) (send_loop port fuel round left sent)
unfolding send_loop
send_loop-Sends port zero round left sent h = absurd (omega arith)
send_loop-Sends port (suc fuel) round [] sent h = sym (append-nil sent)
send_loop-Sends port (suc fuel) round (c ∷ cs) sent h =
    send_round-Sends (c ∷ cs) sent _ (port.outcome round (length (c ∷ cs))) (omega arith) (λ n g.
      let (low, high) = port.wrote_bounds round (length (c ∷ cs)) n (omega arith) g in
      send_loop-Sends port fuel (round + 1) (drop n (c ∷ cs)) (sent ++ take n (c ∷ cs))
        (omega (arith, length-drop n (c ∷ cs))))

-- Sending ends, whatever the port does: with all bytes sent in order and once, or with a
-- CDCSendException and a proper beginning of them sent.
pub send_bytes-Sends : (port : PortApi) (bytes : Ustring) → Sends bytes (send_bytes port bytes)
unfolding send_bytes
send_bytes-Sends port bytes = send_loop-Sends port (length bytes + 1) 0 bytes [] (omega arith)
