-- ===== src/Driver/Thread.antt =====
-- The reading thread on any bytes: `processAllMessages` of src/CDCImpl.cpp and `readMsgThread` of
-- src/CDCImpl_Lin.cpp never raise an error but that of a failed signal, and a response that they
-- keep is a complete message.
pub mod Message
pub mod Round
use clibcdc.Base.{
  All-append, Bool, Bool-cases, List, Result, [], arith, err, false, if◌then◌else◌, inl, inr,
  length, length-append, ok, refl, suc, sym, true, zero, ℕ, ◌++◌, ◌+◌, ◌<◌, ◌^◌, ◌∷◌, ◌≤◌,
}
use clibcdc.Driver.Receive.{
  ReadEvent, append_data_from_port, chunk, failed, is_empty, process_all_messages, process_loop,
  read_round, read_rounds, stop_reception,
}
use clibcdc.Driver.State.{Driver, EventApi}
use clibcdc.Driver.Thread.Message.{IsLive, is_empty-nil, is_empty-pos}
use clibcdc.Driver.Thread.Round.{
  Settled, Survives, Survives-bind, loop_round-Survives, parse_next_message-Sound,
}
use clibcdc.Types.{IsBytes, Ustring}

-- The bytes of the rounds.
abbrev pub arrived : List ReadEvent → ℕ
arrived [] = 0
arrived (chunk bytes ∷ es) = length bytes + arrived es
arrived (failed ∷ es) = arrived es

abbrev pub AreBytes : List ReadEvent → Type 0
AreBytes [] = Unit
AreBytes (chunk bytes ∷ es) = IsBytes bytes × AreBytes es
AreBytes (failed ∷ es) = AreBytes es

module _ (api : EventApi) where
  open api use {Event}

  process_loop-Survives :
      (fuel n : ℕ) (d : Driver Event)
      → IsLive d
      → length d.received_bytes < fuel
      → length d.received_bytes < 2 ^ 31
      → length d.received_bytes ≤ n
      → Survives api (Settled api n) (process_loop api fuel d)
  unfolding process_loop
  process_loop-Survives zero n d h f small bound = absurd (omega arith)
  process_loop-Survives (suc fuel) n d h f small bound =
      elim (Bool-cases (is_empty d.received_bytes)) [
        | inl e ↦ rw (e, process_loop) (h, inl (is_empty-nil d.received_bytes e), bound)
        | inr e ↦
            let (r, g, sound) = parse_next_message-Sound api d h small in
            rw (e, process_loop, g)
              (loop_round-Survives api n d r (process_loop api fuel) h (is_empty-pos _ e) small
                bound sound
                (λ d1 q.
                  process_loop-Survives fuel n d1 q.0 (omega arith) (omega arith) (omega arith))
                r.result_type refl)
      ]

  -- On any buffer of less than 2^31 bytes and from a state that meets the invariant,
  -- `processAllMessages` ends and takes its buffer apart as far as it goes: all that is left was
  -- parsed and is no message yet. The invariant holds after it, and so the last response is a
  -- complete message of the grammar under its type, or the initial one. The one exception it lets
  -- out is that of a failed signal.
  pub process_all_messages-Survives :
      (d : Driver Event)
      → IsLive d
      → length d.received_bytes < 2 ^ 31
      → Survives api (Settled api (length d.received_bytes)) (process_all_messages api d)
  unfolding process_all_messages
  process_all_messages-Survives d h small =
      process_loop-Survives (length d.received_bytes + 1) (length d.received_bytes) d h
        (omega arith) small (omega arith)

  -- A driver with at most `n` bytes in its buffer.
  abbrev pub Within : ℕ → Driver Event → Type 0
  Within n d = IsLive d × (length d.received_bytes ≤ n)

  Survives-Within :
      (n : ℕ) (r : Result (Driver Event))
      → Survives api (Settled api n) r
      → Survives api (Within n) r
  Survives-Within n (ok d) (h, k, l) = (h, l)
  Survives-Within n (err e) h = h

  if-Survives :
      (P : Driver Event → Type 0) (b : Bool) (x y : Result (Driver Event))
      → Survives api P x
      → Survives api P y
      → Survives api P (if b then x else y)
  if-Survives P true x y h k = h
  if-Survives P false x y h k = k

  pub read_round-Survives :
      (d : Driver Event) (bytes : Ustring)
      → IsLive d
      → IsBytes bytes
      → length d.received_bytes + length bytes < 2 ^ 31
      → Survives api
          (Within (length d.received_bytes + length bytes))
          (read_round api d (chunk bytes))
  unfolding read_round append_data_from_port
  read_round-Survives d bytes h v small =
      let d1 : Driver Event = record d { received_bytes = d.received_bytes ++ bytes } in
      let live : IsLive d1 = (All-append (λ c. c < 256) d.received_bytes bytes h.0 v, h.1, h.2) in
      let size = length-append d.received_bytes bytes in
      rw (sym size) (
        if-Survives (Within (length d1.received_bytes)) _ (ok d1) (process_all_messages api d1)
          (live, omega arith)
          (Survives-Within (length d1.received_bytes) _
            (process_all_messages-Survives d1 live (omega arith))))

  -- Whatever bytes arrive, as long as they and the buffer are less than 2^31, and however the reads
  -- fail, the thread keeps its invariant, and so a last response that is a complete message of the
  -- grammar under its type, or the initial one. If it lets out an exception, a signal has failed.
  pub read_rounds-Survives :
      (es : List ReadEvent) (d : Driver Event)
      → IsLive d
      → AreBytes es
      → length d.received_bytes + arrived es < 2 ^ 31
      → Survives api IsLive (read_rounds api d es)
  unfolding read_rounds read_round stop_reception
  read_rounds-Survives [] d h v small = h
  read_rounds-Survives (failed ∷ es) d h v small =
      if-Survives IsLive d.reception_stopped (ok d) (read_rounds api (stop_reception api d) es) h
        (read_rounds-Survives es (stop_reception api d) h v small)
  read_rounds-Survives (chunk bytes ∷ es) d h (v, vs) small =
      if-Survives IsLive d.reception_stopped _ _ h (
        Survives-bind api (Within (length d.received_bytes + length bytes)) IsLive _ _
          (read_round-Survives d bytes h v (omega arith))
          (λ d1 q. read_rounds-Survives es d1 q.0 vs (omega arith)))
