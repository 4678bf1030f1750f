-- ===== src/Driver/Windows/Fresh.antt =====
-- A command on Windows and its response: `processCommand` of src/CDCImpl.cpp on src/CDCImpl_Win.cpp,
-- whose `sendCommand` resets the event for new messages first.
use clibcdc.Base.{
  Bool, Bool-cases, Error, List, Result, [], ap, arith, err, false, if_false, if◌then◌else◌,
  impl_exception, inl, inr, length, none, ok, receive_exception, refl, send_exception, subst, sym,
  true, ℕ, ◌+◌, ◌<◌, ◌>>=◌, ◌^◌, ◌∙◌, ◌≡◌, ◌⊎◌,
}
use clibcdc.Driver.Cycle.{Answers, response_fits-Answers}
use clibcdc.Driver.Encoding.{is_sent}
use clibcdc.Driver.Exchange.{Run, check_response, response_fits}
use clibcdc.Driver.State.{Command, Driver, EventApi}
use clibcdc.Driver.Thread.Message.{IsLive}
use clibcdc.Driver.Windows.{
  PortWait, ReadResult, ThreadEnd, WinPort, WinThread, reset_and_write, seen, thread_end,
  thread_returned, thread_stopped, win_await, win_process_command, win_rounds, win_send_command,
  win_thread, win_wait,
}
use clibcdc.Driver.Windows.Resets.{Sent, Written, reset, reset_and_write-Sent}
use clibcdc.Driver.Windows.Survival.{AreReads, IsLiveThread, reads, win_thread-WinEnded}
use clibcdc.Types.{Ustring}

module _ (api : EventApi) where
  open api use {Event, is_set, signal, clear}

  -- What the command finds when its wait ends: the reading thread went on from the driver that
  -- `sendCommand` left, to the end `t`.
  abbrev pub Answered :
      WinThread Event → Command → List (PortWait × List ReadResult) → Run Event (Unit {0}) → Type 0
  Answered s cmd arrivals run =
      (e : Event) × (n : ℕ) × (t : ThreadEnd Event) × Written api s.driver cmd e n run.sent
      × (win_thread api (record s { driver = reset api s.driver e n }) arrivals ≡ ok t)
      × (run.driver ≡ seen t)

  -- A call, by its outcome.
  abbrev pub WinReturned :
      WinThread Event
      → Command
      → List (PortWait × List ReadResult)
      → Run Event (Unit {0})
      → Result (Unit {0})
      → Type 0
  WinReturned s cmd arrivals run (ok u) =
      (s.driver.reception_stopped ≡ false)
      × Answers cmd run.driver.last_response.parse_result.msg_type
      × (is_set run.driver.new_msg_event ≡ true)
      × Answered s cmd arrivals run
  WinReturned s cmd arrivals run (err e) =
      (e ≡ send_exception)
      ⊎ (((e ≡ receive_exception) × Answered s cmd arrivals run)
          ⊎ ((e ≡ impl_exception) × (v : Event) × (clear v ≡ none)))

  -- A call ends, with the invariant kept.
  abbrev pub WinCycles :
      WinThread Event
      → Command
      → List (PortWait × List ReadResult)
      → Result (Run Event (Unit {0}))
      → Type 0
  WinCycles s cmd arrivals r =
      (run : Run Event (Unit {0})) × (r ≡ ok run)
      × IsLive run.driver
      × WinReturned s cmd arrivals run run.outcome

  WinCycles-if :
      (s : WinThread Event) (cmd : Command) (arrivals : List (PortWait × List ReadResult))
      (b : Bool) (x y : Result (Run Event (Unit {0})))
      → (b ≡ true → WinCycles s cmd arrivals x)
      → (b ≡ false → WinCycles s cmd arrivals y)
      → WinCycles s cmd arrivals (if b then x else y)
  WinCycles-if s cmd arrivals true x y f g = f refl
  WinCycles-if s cmd arrivals false x y f g = g refl

  -- The call at the end of its wait.
  abbrev waited : Ustring → Command → Driver Event → Run Event (Unit {0})
  waited sent cmd d = record {
    driver = d;
    sent = sent;
    outcome = win_wait api d >>= λ _. check_response api d cmd;
  }

  -- The end of a wait.
  waited-Returned :
      (s : WinThread Event) (cmd : Command) (sent : Ustring)
      (arrivals : List (PortWait × List ReadResult)) (d : Driver Event)
      → s.driver.reception_stopped ≡ false
      → Answered s cmd arrivals (waited sent cmd d)
      → WinReturned s cmd arrivals (waited sent cmd d) (waited sent cmd d).outcome
  unfolding win_wait check_response
  waited-Returned s cmd sent arrivals d g a = elim (Bool-cases (is_set d.new_msg_event)) [
    | inr e ↦ rw e (inr (inl (refl, a)))
    | inl e ↦ elim (Bool-cases (response_fits cmd d.last_response.parse_result.msg_type)) [
      | inl r ↦ rw (e, r) (g, response_fits-Answers cmd _ r, e, a)
      | inr r ↦ rw (e, r) (inr (inl (refl, a)))
    ]
  ]

  ended-Cycles :
      (s s0 : WinThread Event) (cmd : Command) (sent : Ustring)
      (arrivals : List (PortWait × List ReadResult)) (e : Event) (n : ℕ) (t : ThreadEnd Event)
      → IsLive (seen t)
      → s.driver.reception_stopped ≡ false
      → Written api s.driver cmd e n sent
      → s0 ≡ record s { driver = reset api s.driver e n }
      → win_thread api s0 arrivals ≡ ok t
      → WinCycles s cmd arrivals (win_thread api s0 arrivals >>= λ t. ok (waited sent cmd (seen t)))
  ended-Cycles s s0 cmd sent arrivals e n t live g put from w = (
    waited sent cmd (seen t),
    ap (λ r. r >>= λ t. ok (waited sent cmd (seen t))) w,
    live,
    waited-Returned s cmd sent arrivals (seen t) g
        (e, n, t, put, ap (λ s. win_thread api s arrivals) (sym from) ∙ w, refl),
  )

  -- A command that could not be sent.
  win_await-err :
      (s : WinThread Event) (r : Run Event (Unit {0})) (x : Error) (cmd : Command)
      (arrivals : List (PortWait × List ReadResult))
      → r.outcome ≡ err x
      → win_await api s r cmd arrivals ≡ ok r
  unfolding win_await
  win_await-err s r x cmd arrivals e =
      ap
        (λ o. elim o as (λ _. Result (Run Event (Unit {0}))) [
          | err y ↦ ok r
          | ok _ ↦ win_thread api (record s { driver = r.driver }) arrivals >>= λ t.
              ok (waited r.sent cmd (seen t))
        ])
        e

  win_await-Cycles :
      (s : WinThread Event) (r : Run Event (Unit {0})) (o : Result (Unit {0})) (cmd : Command)
      (arrivals : List (PortWait × List ReadResult))
      → r.outcome ≡ o
      → s.driver.reception_stopped ≡ false
      → IsLive s.driver
      → s.byte_read < 256
      → length s.driver.received_bytes + reads arrivals < 2 ^ 31
      → AreReads arrivals
      → Sent api s.driver cmd r o
      → WinCycles s cmd arrivals (win_await api s r cmd arrivals)
  unfolding win_await
  win_await-Cycles s r (ok u) cmd arrivals o g live b small v (e, n, same, put) =
      let s0 : WinThread Event = record s { driver = r.driver } in
      let from : s0 ≡ record s { driver = reset api s.driver e n } =
        ap (λ d. record s { driver = d }) same in
      let h : IsLiveThread api (length s.driver.received_bytes) s0 =
        (subst IsLive (sym same) live, b, omega (arith, ap (λ d. length d.received_bytes) same)) in
      rw o (elim (win_thread-WinEnded api (length s.driver.received_bytes) s0 arrivals h v small) [
        | inl (s1, w, k) ↦
            ended-Cycles s s0 cmd r.sent arrivals e n (thread_returned s1) k.0 g put from w
        | inr (x, d, w, k, _, _) ↦
            ended-Cycles s s0 cmd r.sent arrivals e n (thread_stopped x d) k g put from w
      ])
  win_await-Cycles s r (err x) cmd arrivals e g live b small v (h, k) =
      let why : WinReturned s cmd arrivals r (err x) = elim k [
        | inl q ↦ inl q
        | inr q ↦ inr (inr q)
      ] in
      (r, win_await-err s r x cmd arrivals e, h, subst (WinReturned s cmd arrivals r) (sym e) why)

  -- `processCommand` on Windows, for a type that the methods send, on any port and whatever the
  -- thread reads, less than 2^31 bytes with those in the buffer, ends, also when the thread meets an
  -- exception. A call that does not throw has reset the event, has given bytes of the command to the
  -- port, and ends with the driver that the thread leaves which goes on from there; the event is set
  -- in it and the type of the last response answers the command. A call that throws throws a
  -- CDCSendException, a CDCReceiveException, with the driver that the thread leaves, or the
  -- CDCImplException of a failed reset.
  pub win_process_command-Cycles :
      (port : WinPort) (s : WinThread Event) (cmd : Command)
      (arrivals : List (PortWait × List ReadResult))
      → is_sent cmd.msg_type ≡ true
      → IsLive s.driver
      → s.byte_read < 256
      → AreReads arrivals
      → length s.driver.received_bytes + reads arrivals < 2 ^ 31
      → WinCycles s cmd arrivals (win_process_command api port s cmd arrivals)
  unfolding win_process_command win_send_command
  win_process_command-Cycles port s cmd arrivals t h b v small =
      let r = reset_and_write api port s.driver cmd (clear s.driver.new_msg_event) in
      WinCycles-if s cmd arrivals s.driver.reception_stopped _ _
        (λ e. (
          record { driver = s.driver; sent = []; outcome = err send_exception },
          refl,
          h,
          inl refl,
        ))
        (λ e.
          win_await-Cycles s r r.outcome cmd arrivals refl e h b small v
            (reset_and_write-Sent api port s.driver cmd (clear s.driver.new_msg_event) t h refl))

  -- A call that threw.
  abbrev pub Threw : Result (Run Event (Unit {0})) → Type 0
  Threw r = (run : Run Event (Unit {0})) × (e : Error) × (r ≡ ok run) × (run.outcome ≡ err e)

  win_wait-unset :
      (d : Driver Event) → is_set d.new_msg_event ≡ false → win_wait api d ≡ err receive_exception
  unfolding win_wait
  win_wait-unset d f = if_false (is_set d.new_msg_event) _ _ f

  win_await-Threw :
      (s : WinThread Event) (r : Run Event (Unit {0})) (o : Result (Unit {0})) (cmd : Command)
      → r.outcome ≡ o
      → Sent api s.driver cmd r o
      → Threw (win_await api s r cmd [])
  unfolding win_await win_thread win_rounds thread_end
  win_await-Threw s r (ok u) cmd e (v, n, same, (_, f, put)) =
      let unset = ap (λ d. is_set d.new_msg_event) same ∙ f in
      let run : Run Event (Unit {0}) = record {
        driver = r.driver;
        sent = r.sent;
        outcome = win_wait api r.driver >>= λ _. check_response api r.driver cmd;
      } in
      rw e (
        run,
        receive_exception,
        refl,
        ap (λ w. w >>= λ _. check_response api r.driver cmd) (win_wait-unset r.driver unset),
      )
  win_await-Threw s r (err x) cmd e k = (r, x, win_await-err s r x cmd [] e, e)

  Threw-if :
      (b : Bool) (x y : Result (Run Event (Unit {0})))
      → Threw x
      → Threw y
      → Threw (if b then x else y)
  Threw-if true x y h k = h
  Threw-if false x y h k = k

  -- A response that came before a command is not taken for its own on Windows: if nothing arrives
  -- after the command, whether or not the event was set, the call throws.
  pub win_process_command-Threw :
      (port : WinPort) (s : WinThread Event) (cmd : Command)
      → is_sent cmd.msg_type ≡ true
      → IsLive s.driver
      → Threw (win_process_command api port s cmd [])
  unfolding win_process_command win_send_command
  win_process_command-Threw port s cmd t h =
      let r = reset_and_write api port s.driver cmd (clear s.driver.new_msg_event) in
      Threw-if s.driver.reception_stopped _ _
        (
          record { driver = s.driver; sent = []; outcome = err send_exception },
          send_exception,
          refl,
          refl,
        )
        (win_await-Threw s r r.outcome cmd refl
          (reset_and_write-Sent api port s.driver cmd (clear s.driver.new_msg_event) t h refl))
