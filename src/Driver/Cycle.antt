-- ===== src/Driver/Cycle.antt =====
-- The command and response cycle as a client sees it: `processCommand` of src/CDCImpl.cpp.
use clibcdc.Base.{
  Bool, Bool-cases, List, Option, Result, [], ap, arith, err, false, get_or, if◌then◌else◌,
  impl_exception, inl, inr, length, none, ok, receive_exception, refl, send_exception, some, sym,
  true, ℕ, ◌+◌, ◌<◌, ◌>>=◌, ◌^◌, ◌∙◌, ◌≡◌, ◌⊎◌,
}
use clibcdc.Driver.Command.{command_to_buffer}
use clibcdc.Driver.Encoding.{Encodes, command_to_buffer-Encodes, is_sent}
use clibcdc.Driver.Exchange.{
  Run, await_response, check_response, exchange, high_bit, process_command, response_fits,
  wait_for_response,
}
use clibcdc.Driver.Receive.{ReadEvent, read_rounds}
use clibcdc.Driver.Send.{PortApi, send_bytes}
use clibcdc.Driver.Sending.{Sends, send_bytes-Sends}
use clibcdc.Driver.State.{Command, Driver, EventApi}
use clibcdc.Driver.Thread.{AreBytes, arrived, read_rounds-Survives}
use clibcdc.Driver.Thread.Message.{IsLive}
use clibcdc.Driver.Thread.Round.{Survives}
use clibcdc.Types.{
  MessageType, Ustring, msg_download_data, msg_upload_download, type_eq, type_eq_self,
  type_eq_sound,
}

-- The types that answer a command.
abbrev pub Answers : Command → MessageType → Type 0
Answers cmd t =
    (t ≡ cmd.msg_type)
    ⊎ ((cmd.msg_type ≡ msg_upload_download)
        × (t ≡ msg_download_data)
        × (high_bit (get_or cmd.bytes 0 0) ≡ false))

pub response_fits-Answers :
    (cmd : Command) (t : MessageType) → response_fits cmd t ≡ true → Answers cmd t
unfolding response_fits
response_fits-Answers cmd t h = elim (Bool-cases (type_eq t cmd.msg_type)) [
  | inl e ↦ inl (type_eq_sound _ _ e)
  | inr e ↦
      let f : type_eq cmd.msg_type msg_upload_download ≡ true = ground arith in
      let g : type_eq t msg_download_data ≡ true = ground arith in
      inr (type_eq_sound _ _ f, type_eq_sound _ _ g, ground arith)
]

pub Answers-response_fits :
    (cmd : Command) (t : MessageType) → Answers cmd t → response_fits cmd t ≡ true
unfolding response_fits
Answers-response_fits cmd t (inl e) = rw (e, type_eq_self cmd.msg_type) refl
Answers-response_fits cmd t (inr (e, f, g)) =
    let h = type_eq_self msg_upload_download in
    let k = type_eq_self msg_download_data in rw (e, f, g, h, k) (ground arith)

module _ (api : EventApi) where
  open api use {Event, is_set, signal, clear}

  -- A wait that ended: it succeeds only with the event reset, and fails with a
  -- CDCReceiveException.
  abbrev Waited : Driver Event × Result (Unit {0}) → Type 0
  Waited (d, ok u) = IsLive d × (is_set d.new_msg_event ≡ false)
  Waited (d, err e) = IsLive d × (e ≡ receive_exception)

  cleared-Waited :
      (d : Driver Event)
      → IsLive d
      → (o : Option Event) → clear d.new_msg_event ≡ o
      → Waited (elim o [
        | none ↦ (d, err receive_exception)
        | some e ↦ (record d { new_msg_event = e }, ok tt)
      ])
  cleared-Waited d h none e = (h, refl)
  cleared-Waited d h (some s) e = (h, api.clear_resets d.new_msg_event s e)

  wait_for_response-Waited : (d : Driver Event) → IsLive d → Waited (wait_for_response api d)
  unfolding wait_for_response
  wait_for_response-Waited d h = elim (Bool-cases (is_set d.new_msg_event)) [
    | inl e ↦ rw e (cleared-Waited d h (clear d.new_msg_event) refl)
    | inr e ↦ rw e (h, refl)
  ]

  -- A call that returned, by its outcome.
  abbrev pub Returned : Driver Event → Command → Run Event (Unit {0}) → Result (Unit {0}) → Type 0
  Returned d cmd run (ok u) =
      (d.reception_stopped ≡ false)
      × ((n : ℕ) × (command_to_buffer d.transmit_buffer_len cmd ≡ ok (run.sent, n)))
      × Answers cmd run.driver.last_response.parse_result.msg_type
      × (is_set run.driver.new_msg_event ≡ false)
  Returned d cmd run (err e) = (e ≡ send_exception) ⊎ (e ≡ receive_exception)

  abbrev pub Cycles : Driver Event → Command → Result (Run Event (Unit {0})) → Type 0
  Cycles d cmd (ok run) = IsLive run.driver × Returned d cmd run run.outcome
  Cycles d cmd (err e) = (e ≡ impl_exception) × (s : Event) × (signal s ≡ none)

  answered-Cycles :
      (d : Driver Event) (cmd : Command) (sent : Ustring) (w : Driver Event × Result (Unit {0}))
      → d.reception_stopped ≡ false
      → (n : ℕ) → command_to_buffer d.transmit_buffer_len cmd ≡ ok (sent, n)
      → Waited w
      → Cycles d cmd (
          ok (record {
            driver = w.0;
            sent = sent;
            outcome = w.1 >>= λ _. check_response api w.0 cmd;
          }))
  unfolding check_response
  answered-Cycles d cmd sent (d2, err e) g n c (h, k) = (h, inr k)
  answered-Cycles d cmd sent (d2, ok u) g n c (h, k) =
      elim (Bool-cases (response_fits cmd d2.last_response.parse_result.msg_type)) [
        | inl e ↦ rw e (h, (g, (n, c), response_fits-Answers cmd _ e, k))
        | inr e ↦ rw e (h, inr refl)
      ]

  awaited-Cycles :
      (d : Driver Event) (cmd : Command) (sent : Ustring) (r : Result (Driver Event))
      → d.reception_stopped ≡ false
      → (n : ℕ) → command_to_buffer d.transmit_buffer_len cmd ≡ ok (sent, n)
      → Survives api IsLive r
      → Cycles d cmd (
          r >>= λ d1. ok (record {
            driver = (wait_for_response api d1).0;
            sent = sent;
            outcome = (wait_for_response api d1).1 >>= λ _.
                check_response api (wait_for_response api d1).0 cmd;
          }))
  awaited-Cycles d cmd sent (ok d1) g n c h =
      answered-Cycles d cmd sent (wait_for_response api d1) g n c (wait_for_response-Waited d1 h)
  awaited-Cycles d cmd sent (err e) g n c h = h

  await_response-Cycles :
      (d : Driver Event) (cmd : Command) (sent : Ustring) (d1 : Driver Event)
      (arrivals : List ReadEvent)
      → d.reception_stopped ≡ false
      → (n : ℕ) → command_to_buffer d.transmit_buffer_len cmd ≡ ok (sent, n)
      → Survives api IsLive (read_rounds api d1 arrivals)
      → Cycles d cmd (await_response api d1 cmd sent arrivals)
  unfolding await_response
  await_response-Cycles d cmd sent d1 arrivals g n c h =
      awaited-Cycles d cmd sent (read_rounds api d1 arrivals) g n c h

  exchange-Cycles :
      (port : PortApi) (d d1 : Driver Event) (cmd : Command) (bytes : Ustring)
      (arrivals : List ReadEvent)
      → d.reception_stopped ≡ false
      → (n : ℕ) → command_to_buffer d.transmit_buffer_len cmd ≡ ok (bytes, n)
      → IsLive d1
      → Survives api IsLive (read_rounds api d1 arrivals)
      → Cycles d cmd (exchange api port d1 cmd bytes arrivals)
  unfolding exchange
  exchange-Cycles port d d1 cmd bytes arrivals g n c live h =
      sent_by (send_bytes port bytes) (send_bytes-Sends port bytes)
    where
      sent_by :
          (r : Result (Unit {0}) × Ustring)
          → Sends bytes r
          → Cycles d cmd (elim (r.0) [
            | err e ↦ ok (record { driver = d1; sent = r.1; outcome = err e })
            | ok _ ↦ await_response api d1 cmd r.1 arrivals
          ])
      sent_by (ok u, sent) e =
          await_response-Cycles d cmd sent d1 arrivals g n (c ∙ ap (λ b. ok (b, n)) (sym e)) h
      sent_by (err e, sent) (f, _, _, _) = (live, inl f)

  encoded-Cycles :
      (port : PortApi) (d : Driver Event) (cmd : Command) (arrivals : List ReadEvent)
      → d.reception_stopped ≡ false
      → IsLive d
      → AreBytes arrivals
      → length d.received_bytes + arrived arrivals < 2 ^ 31
      → (r : Result (Ustring × ℕ)) → command_to_buffer d.transmit_buffer_len cmd ≡ r
      → Encodes d.transmit_buffer_len cmd r
      → Cycles d cmd (elim r [
        | err e ↦ ok (record { driver = d; sent = []; outcome = err e })
        | ok (bytes, n) ↦
            exchange api port (record d { transmit_buffer_len = n }) cmd bytes arrivals
      ])
  encoded-Cycles port d cmd arrivals g h v small (err e) c (f, _) = (h, inl f)
  encoded-Cycles port d cmd arrivals g h v small (ok (bytes, n)) c f =
      exchange-Cycles port d (record d { transmit_buffer_len = n }) cmd bytes arrivals g n c h
        (read_rounds-Survives api arrivals (record d { transmit_buffer_len = n }) h v small)

  -- `processCommand` for a type that the methods send, on any port and whatever bytes arrive, less
  -- than 2^31 with those in the buffer: the driver keeps its invariant, and a call
  -- that does not throw has sent the command's bytes, each once, and has a last response whose
  -- type answers the command, with its signal taken. A call that throws throws a CDCSendException
  -- or a CDCReceiveException; if the reading thread ends the program, a signal has failed.
  pub process_command-Cycles :
      (port : PortApi) (d : Driver Event) (cmd : Command) (arrivals : List ReadEvent)
      → is_sent cmd.msg_type ≡ true
      → IsLive d
      → AreBytes arrivals
      → length d.received_bytes + arrived arrivals < 2 ^ 31
      → Cycles d cmd (process_command api port d cmd arrivals)
  unfolding process_command
  process_command-Cycles port d cmd arrivals s h v small = by_state d.reception_stopped refl
    where
      by_state :
          (b : Bool)
          → d.reception_stopped ≡ b
          → Cycles d cmd (
              if b
              then ok (record { driver = d; sent = []; outcome = err send_exception })
              else elim (command_to_buffer d.transmit_buffer_len cmd) [
                | err e ↦ ok (record { driver = d; sent = []; outcome = err e })
                | ok (bytes, n) ↦
                    exchange api port (record d { transmit_buffer_len = n }) cmd bytes arrivals
              ])
      by_state true e = (h, inl refl)
      by_state false e =
          encoded-Cycles port d cmd arrivals e h v small
            (command_to_buffer d.transmit_buffer_len cmd) refl
            (command_to_buffer-Encodes d.transmit_buffer_len cmd s)
