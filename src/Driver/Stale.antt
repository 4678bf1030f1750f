-- ===== src/Driver/Stale.antt =====
-- A response that comes after its command's wait has timed out: `processCommand` of
-- src/CDCImpl.cpp, where `resetMyEvent` of src/CDCImpl_Lin.cpp is empty and is not called.
use clibcdc.Base.{
  Bool, Bool-cases, List, Option-cases, Result, [], ap, err, false, if_true, if◌then◌else◌, inl,
  inr, none, ok, receive_exception, refl, send_exception, some, subst, true, ℕ, ◌>>=◌, ◌↔◌, ◌∙◌,
  ◌≡◌,
}
use clibcdc.Driver.Command.{command_to_buffer}
use clibcdc.Driver.Cycle.{Answers, Answers-response_fits, response_fits-Answers}
use clibcdc.Driver.Exchange.{
  Run, await_response, check_response, exchange, process_command, response_fits, wait_for_response,
}
use clibcdc.Driver.Receive.{ReadEvent, read_rounds}
use clibcdc.Driver.Send.{PortApi, send_bytes}
use clibcdc.Driver.Sending.{Sends, send_bytes-Sends}
use clibcdc.Driver.State.{Command, Driver, EventApi}
use clibcdc.Types.{Ustring}

module _ (api : EventApi) where
  open api use {Event, is_set, clear}

  encoded_step :
      (port : PortApi) (d : Driver Event) (cmd : Command) (bytes : Ustring) (n : ℕ)
      (arrivals : List ReadEvent)
      → d.reception_stopped ≡ false
      → command_to_buffer d.transmit_buffer_len cmd ≡ ok (bytes, n)
      → process_command api port d cmd arrivals
        ≡ exchange api port (record d { transmit_buffer_len = n }) cmd bytes arrivals
  unfolding process_command
  encoded_step port d cmd bytes n arrivals running encoded =
      ap
        (λ b.
          if b
          then ok (record { driver = d; sent = []; outcome = err send_exception })
          else elim (command_to_buffer d.transmit_buffer_len cmd) [
            | err e ↦ ok (record { driver = d; sent = []; outcome = err e })
            | ok (bytes, n) ↦
                exchange api port (record d { transmit_buffer_len = n }) cmd bytes arrivals
          ])
        running
      ∙ ap
          (λ r. elim r as (λ _. Result (Run Event (Unit {0}))) [
            | err e ↦ ok (record { driver = d; sent = []; outcome = err e })
            | ok (bytes, n) ↦
                exchange api port (record d { transmit_buffer_len = n }) cmd bytes arrivals
          ])
          encoded

  sent_step :
      (port : PortApi) (d : Driver Event) (cmd : Command) (bytes : Ustring)
      (arrivals : List ReadEvent)
      → send_bytes port bytes ≡ (ok tt, bytes)
      → exchange api port d cmd bytes arrivals ≡ await_response api d cmd bytes arrivals
  unfolding exchange
  sent_step port d cmd bytes arrivals sent =
      ap
        (λ r. elim (r.0) as (λ _. Result (Run Event (Unit {0}))) [
          | err e ↦ ok (record { driver = d; sent = r.1; outcome = err e })
          | ok _ ↦ await_response api d cmd (r.1) arrivals
        ])
        sent

  wait_step :
      (d : Driver Event) (cmd : Command) (bytes : Ustring) (e : Event)
      → is_set d.new_msg_event ≡ true
      → clear d.new_msg_event ≡ some e
      → await_response api d cmd bytes []
        ≡ ok (record {
          driver = record d { new_msg_event = e };
          sent = bytes;
          outcome = check_response api d cmd;
        })
  unfolding await_response read_rounds wait_for_response check_response
  wait_step d cmd bytes e signalled taken =
      let waited : wait_for_response api d ≡ (record d { new_msg_event = e }, ok tt) =
        ap
          (λ b.
            if b
            then elim (clear d.new_msg_event) [
              | none ↦ (d, err receive_exception)
              | some s ↦ (record d { new_msg_event = s }, ok tt)
            ]
            else (d, err receive_exception))
          signalled
        ∙ ap
            (λ o. elim o as (λ _. Driver Event × Result (Unit {0})) [
              | none ↦ (d, err receive_exception)
              | some s ↦ (record d { new_msg_event = s }, ok tt)
            ])
            taken in
      ap
        (λ w. ok (record {
          driver = w.0;
          sent = bytes;
          outcome = w.1 >>= λ _. check_response api (w.0) cmd;
        }))
        waited

  -- The response of an earlier command is still signalled and answers this one, and nothing keeps
  -- the command from being sent and the event from being read.
  abbrev pub Pending : PortApi → Driver Event → Command → Type 0
  Pending port d cmd =
      (d.reception_stopped ≡ false)
      × ((bytes : Ustring) × (n : ℕ) × (command_to_buffer d.transmit_buffer_len cmd ≡ ok (bytes, n))
          × ((send_bytes port bytes).0 ≡ ok tt))
      × (is_set d.new_msg_event ≡ true)
      × ((e : Event) × (clear d.new_msg_event ≡ some e))
      × Answers cmd d.last_response.parse_result.msg_type

  -- The call does not throw, and holds the response that it found.
  abbrev pub Accepted : Driver Event → Result (Run Event (Unit {0})) → Type 0
  Accepted d r =
      (run : Run Event (Unit {0})) × (r ≡ ok run)
      × (run.outcome ≡ ok tt)
      × (run.driver.last_response ≡ d.last_response)

  Pending-Accepted :
      (port : PortApi) (d : Driver Event) (cmd : Command)
      → Pending port d cmd
      → Accepted d (process_command api port d cmd [])
  unfolding check_response
  Pending-Accepted port d cmd (g, (bytes, n, c, t), f, (e, k), a) =
      let whole : send_bytes port bytes ≡ (ok tt, bytes) =
        sent_all bytes (send_bytes port bytes) (send_bytes-Sends port bytes) t in
      let d1 : Driver Event = record d { transmit_buffer_len = n } in
      let run : Run Event (Unit {0}) = record {
        driver = record d { transmit_buffer_len = n; new_msg_event = e };
        sent = bytes;
        outcome = check_response api d cmd;
      } in
      (
        run,
        encoded_step port d cmd bytes n [] g c
            ∙ sent_step port d1 cmd bytes [] whole
            ∙ wait_step d1 cmd bytes e f k,
        if_true (response_fits cmd d.last_response.parse_result.msg_type) _ _
            (Answers-response_fits cmd _ a),
        refl,
      )
    where
      sent_all :
          (bytes : Ustring) (r : Result (Unit {0}) × Ustring)
          → Sends bytes r
          → r.0 ≡ ok tt
          → r ≡ (ok tt, bytes)
      sent_all bytes (ok u, sent) h e = ap (λ b. (ok tt, b)) h
      sent_all bytes (err x, sent) h e = cc

  -- A call that does not throw tells `P`.
  abbrev Tells : Type 0 → Result (Run Event (Unit {0})) → Type 0
  Tells P (ok run) = run.outcome ≡ ok tt → P
  Tells P (err e) = Unit

  await_response-Tells :
      (P : Type 0) (d : Driver Event) (cmd : Command) (sent : Ustring)
      → (is_set d.new_msg_event ≡ true
          → ((e : Event) × (clear d.new_msg_event ≡ some e))
          → Answers cmd d.last_response.parse_result.msg_type
          → P)
      → Tells P (await_response api d cmd sent [])
  unfolding await_response read_rounds wait_for_response check_response
  await_response-Tells P d cmd sent k = elim (Bool-cases (is_set d.new_msg_event)) [
    | inr f ↦ rw f (λ o. cc)
    | inl f ↦ elim (Option-cases (clear d.new_msg_event)) [
      | inl c ↦ rw (f, c) (λ o. cc)
      | inr (e, c) ↦ elim (Bool-cases (response_fits cmd d.last_response.parse_result.msg_type)) [
        | inr r ↦ rw (f, c, r) (λ o. cc)
        | inl r ↦ rw (f, c, r) (λ o. k f (e, c) (response_fits-Answers cmd _ r))
      ]
    ]
  ]

  sent-Tells :
      (P : Type 0) (d : Driver Event) (cmd : Command) (r : Result (Unit {0}) × Ustring)
      → (r.0 ≡ ok tt → Tells P (await_response api d cmd r.1 []))
      → Tells P (elim (r.0) [
        | err e ↦ ok (record { driver = d; sent = r.1; outcome = err e })
        | ok _ ↦ await_response api d cmd r.1 []
      ])
  sent-Tells P d cmd (ok u, sent) k = k refl
  sent-Tells P d cmd (err e, sent) k = λ o. cc

  encoded-Tells :
      (port : PortApi) (d : Driver Event) (cmd : Command) (r : Result (Ustring × ℕ))
      → command_to_buffer d.transmit_buffer_len cmd ≡ r
      → d.reception_stopped ≡ false
      → Tells (Pending port d cmd) (elim r [
        | err e ↦ ok (record { driver = d; sent = []; outcome = err e })
        | ok (bytes, n) ↦ exchange api port (record d { transmit_buffer_len = n }) cmd bytes []
      ])
  unfolding exchange
  encoded-Tells port d cmd (err e) c g = λ o. cc
  encoded-Tells port d cmd (ok (bytes, n)) c g =
      let d1 : Driver Event = record d { transmit_buffer_len = n } in
      sent-Tells (Pending port d cmd) d1 cmd (send_bytes port bytes) (λ t.
        await_response-Tells (Pending port d cmd) d1 cmd (send_bytes port bytes).1
          (λ f e a. (g, (bytes, n, c, t), f, e, a)))

  running-Tells :
      (P : Type 0) (d : Driver Event) (b : Bool) (r : Result (Run Event (Unit {0})))
      → (b ≡ false → Tells P r)
      → Tells P
          (if b then ok (record { driver = d; sent = []; outcome = err send_exception }) else r)
  running-Tells P d true r k = λ o. cc
  running-Tells P d false r k = k refl

  -- On Linux, where the event is not reset before a command is sent, a command after which nothing
  -- arrives does not throw exactly if it finds the response of an earlier command: the event is
  -- still set and can be read, the type of that response answers the new command, reception runs,
  -- and the command can be encoded and sent. It then keeps that response as its own.
  pub process_command-stale :
      (port : PortApi) (d : Driver Event) (cmd : Command)
      → Accepted d (process_command api port d cmd []) ↔ Pending port d cmd
  unfolding process_command
  process_command-stale port d cmd = (
    λ (run, e, o, _).
        subst (Tells (Pending port d cmd)) e
          (running-Tells (Pending port d cmd) d d.reception_stopped _
            (encoded-Tells port d cmd (command_to_buffer d.transmit_buffer_len cmd) refl))
          o,
    Pending-Accepted port d cmd,
  )
