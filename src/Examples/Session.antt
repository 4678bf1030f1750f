-- ===== src/Examples/Session.antt =====
-- The calls that a program of examples/ makes, in order, on any device.
use clibcdc.Base.{
  Bool, Bool-cases, Error, List, Result, [], ap, append-nil, append_assoc, arith, bad_alloc, err,
  false, impl_exception, inl, inr, no_fuel, ok, out_of_range, parser_exception, receive_exception,
  refl, send_exception, subst, suc, sym, true, undefined, zero, ℕ, ◌++◌, ◌∙◌, ◌∷◌, ◌≡◌, ◌≤◌, ◌⊎◌,
}
use clibcdc.Driver.Windows.{is_caught}
use clibcdc.Examples.Device.{
  Device, after_enter, after_open, after_test, and_then, connect, finish, in_programming_mode,
  is_tolerated, printed, programming_session,
}
use clibcdc.Types.{PteResponse, Ustring}

pub data Call : Type 0 where
  open_call test_call enter_call terminate_call close_call : Call
  upload_call download_call : ℕ → Ustring → Call
  send_call : Ustring → Call

-- What is not a CDCImplException is not tolerated either.
pub uncaught : (e : Error) → is_caught e ≡ false → is_tolerated e ≡ false
unfolding is_caught is_tolerated
uncaught out_of_range h = refl
uncaught bad_alloc h = refl
uncaught undefined h = refl
uncaught no_fuel h = refl
uncaught parser_exception h = refl
uncaught impl_exception h = refl
uncaught send_exception h = h
uncaught receive_exception h = h

-- A device that writes down its calls.
module _ {S : Type 0} where
  abbrev note :
      {A : Type 0} → Call → (S → Result A × S) → S × List Call → Result A × (S × List Call)
  note c f (s, calls) = let (r, s') = f s in (r, (s', calls ++ (c ∷ [])))

  abbrev pub noting : Device S → Device (S × List Call)
  noting device = record {
    open_port = note open_call device.open_port;
    test = note test_call device.test;
    enter_programming_mode = note enter_call device.enter_programming_mode;
    terminate_programming_mode = note terminate_call device.terminate_programming_mode;
    upload = λ target bytes. note (upload_call target bytes) (device.upload target bytes);
    download = λ target bytes. note (download_call target bytes) (device.download target bytes);
    send_data = λ bytes. note (send_call bytes) (device.send_data bytes);
    is_reception_stopped = λ s. device.is_reception_stopped s.0;
    close = λ s. (device.close s.0, s.1 ++ (close_call ∷ []));
  }

  -- A piece of a program has made the calls `done`, or some first of them and let an exception out.
  abbrev pub Made : List Call → List Call → Result (Unit {0}) × (S × List Call) → Type 0
  Made before calls (ok u, (s, log)) = log ≡ before ++ calls
  Made before calls (err e, (s, log)) =
      (is_tolerated e ≡ false) × (rest : List Call) × (log ++ rest ≡ before ++ calls)

  pub printed-Made :
      {A : Type 0} (before : List Call) (c : Call) (r : Result A × S)
      → Made before (c ∷ []) (printed (r.0, (r.1, before ++ (c ∷ []))))
  unfolding printed
  printed-Made before c (ok a, s) = refl
  printed-Made before c (err e, s) = elim (Bool-cases (is_tolerated e)) [
    | inl t ↦ rw t refl
    | inr t ↦ rw t (t, [], append-nil (before ++ (c ∷ [])))
  ]

  Made-assoc :
      (before calls more : List Call) (r : Result (Unit {0}) × (S × List Call))
      → Made (before ++ calls) more r
      → Made before (calls ++ more) r
  Made-assoc before calls more (ok u, (s, log)) h = h ∙ append_assoc before calls more
  Made-assoc before calls more (err e, (s, log)) (t, rest, h) =
      (t, rest, h ∙ append_assoc before calls more)

  pub and_then-Made :
      (before calls more : List Call) (r : Result (Unit {0}) × (S × List Call))
      (f : S × List Call → Result (Unit {0}) × (S × List Call))
      → Made before calls r
      → ((s : S) → Made (before ++ calls) more (f (s, before ++ calls)))
      → Made before (calls ++ more) (and_then r f)
  unfolding and_then
  and_then-Made before calls more (ok u, (s, log)) f h k =
      subst (λ l. Made before (calls ++ more) (f (s, l))) (sym h)
        (Made-assoc before calls more (f (s, before ++ calls)) (k s))
  and_then-Made before calls more (err e, (s, log)) f (t, rest, h) k = (
    t,
    rest ++ more,
    sym (append_assoc log rest more) ∙ ap (λ l. l ++ more) h ∙ append_assoc before calls more,
  )

  -- A program that ran: to its end with exit code 0, out of its frame with exit code 1 or 2, or up
  -- to an exception that it does not catch.
  abbrev pub Ran : List Call → Result ℕ × (S × List Call) → Type 0
  Ran work (ok zero, (s, log)) =
      log ≡ open_call ∷ test_call ∷ enter_call ∷ (work ++ (terminate_call ∷ close_call ∷ []))
  Ran work (ok (suc n), (s, log)) =
      (n ≤ 1)
      × ((log ≡ open_call ∷ [])
          ⊎ ((log ≡ open_call ∷ test_call ∷ close_call ∷ [])
              ⊎ (log ≡ open_call ∷ test_call ∷ enter_call ∷ close_call ∷ [])))
  Ran work (err e, (s, log)) =
      (is_tolerated e ≡ false)
      × (rest : List Call) × (log ++ rest
          ≡ open_call ∷ test_call ∷ enter_call ∷ (work ++ (terminate_call ∷ [])))

  -- The frame around work that makes the calls `work` in any state.
  module _ (device : Device S) (run : S × List Call → Result (Unit {0}) × (S × List Call))
      (work : List Call)
      (run-Made : (s : S) (before : List Call) → Made before work (run (s, before))) where
    abbrev opened : List Call
    opened = open_call ∷ test_call ∷ enter_call ∷ []

    closed-Ran :
        (r : Result (Unit {0}) × (S × List Call))
        → Made (opened ++ work) (terminate_call ∷ []) r
        → Ran work (and_then r (λ s. (ok 0, (noting device).close s)))
    unfolding and_then
    closed-Ran (ok u, (s, log)) h =
        ap (λ l. l ++ (close_call ∷ [])) h
        ∙ append_assoc (opened ++ work) (terminate_call ∷ []) (close_call ∷ [])
    closed-Ran (err e, (s, log)) (t, rest, h) = (t, rest, h)

    finish-Ran : (s : S) → Ran work (finish (noting device) (s, opened ++ work))
    unfolding finish
    finish-Ran s =
        closed-Ran _
          (printed-Made (opened ++ work) terminate_call (device.terminate_programming_mode s))

    worked-Ran :
        (r : Result (Unit {0}) × (S × List Call))
        → Made opened work r
        → Ran work (and_then r (finish (noting device)))
    unfolding and_then
    worked-Ran (ok u, (s, log)) h =
        subst (λ l. Ran work (finish (noting device) (s, l))) (sym h) (finish-Ran s)
    worked-Ran (err e, (s, log)) (t, rest, h) = (
      t,
      rest ++ (terminate_call ∷ []),
      sym (append_assoc log rest (terminate_call ∷ []))
          ∙ ap (λ l. l ++ (terminate_call ∷ [])) h
          ∙ append_assoc opened work (terminate_call ∷ []),
    )

    after_enter-Ran :
        (r : Result PteResponse × S)
        → Ran work (after_enter (noting device) run (r.0, (r.1, opened)))
    unfolding after_enter
    after_enter-Ran (ok PteResponse.ok, s) = worked-Ran _ (run-Made s opened)
    after_enter-Ran (ok PteResponse.err1, s) = (omega arith, inr (inr refl))
    after_enter-Ran (err e, s) = elim (Bool-cases (is_tolerated e)) [
      | inl t ↦ rw t (worked-Ran _ (run-Made s opened))
      | inr t ↦ rw t (t, work ++ (terminate_call ∷ []), refl)
    ]

    after_test-Ran :
        (r : Result Bool × S)
        → Ran work (
            after_test
              (noting device)
              (in_programming_mode (noting device) run)
              (r.0, (r.1, open_call ∷ test_call ∷ [])))
    unfolding after_test in_programming_mode
    after_test-Ran (ok true, s) = after_enter-Ran (device.enter_programming_mode s)
    after_test-Ran (ok false, s) = (omega arith, inr (inl refl))
    after_test-Ran (err e, s) = elim (Bool-cases (is_caught e)) [
      | inl c ↦ rw c (omega arith, inr (inl refl))
      | inr c ↦ rw c (uncaught e c, enter_call ∷ (work ++ (terminate_call ∷ [])), refl)
    ]

    after_open-Ran :
        (r : Result (Unit {0}) × S)
        → Ran work (
            after_open
              (noting device)
              (in_programming_mode (noting device) run)
              (r.0, (r.1, open_call ∷ [])))
    unfolding after_open
    after_open-Ran (ok u, s) = after_test-Ran (device.test s)
    after_open-Ran (err e, s) = elim (Bool-cases (is_caught e)) [
      | inl c ↦ rw c (omega arith, inl refl)
      | inr c ↦ rw c (uncaught e c, test_call ∷ enter_call ∷ (work ++ (terminate_call ∷ [])), refl)
    ]

    pub programming_session-Ran :
        (s : S) → Ran work (programming_session (noting device) run (s, []))
    unfolding programming_session connect
    programming_session-Ran s = after_open-Ran (device.open_port s)
