-- ===== src/Driver/Windows/Survival.antt =====
-- The reading thread of src/CDCImpl_Win.cpp on any bytes.
use clibcdc.Base.{
  All, All-append, Bool, Error, List, Result, [], arith, err, false, if◌then◌else◌, impl_exception,
  inl, inr, length, length-append, none, ok, receive_exception, refl, some, subst, suc, true, ℕ,
  ◌+◌, ◌<◌, ◌==◌, ◌^◌, ◌∷◌, ◌≡◌, ◌≤◌, ◌⊎◌,
}
use clibcdc.Driver.Receive.{stop_reception}
use clibcdc.Driver.State.{Driver, EventApi}
use clibcdc.Driver.Thread.{process_all_messages-Survives}
use clibcdc.Driver.Thread.Message.{IsLive}
use clibcdc.Driver.Thread.Round.{Settled, Survives}
use clibcdc.Driver.Windows.{
  PortWait, ReadResult, ThreadEnd, WinRun, WinThread, after_messages, and_on, at_once, characters,
  delayed, end_of_byte, end_requested, end_signalled, push_byte, read_byte, read_failed, read_loop,
  take_byte, thread_end, thread_returned, thread_stopped, threw, wait_failed, went_on, win_round,
  win_rounds, win_thread,
}
use clibcdc.Driver.Windows.Left.{left_by_messages-IsLive}
use clibcdc.Hex.Ends.{left}

abbrev pub IsRead : ReadResult → Type 0
IsRead (at_once (some b)) = b < 256
IsRead (delayed (some b)) = b < 256
IsRead _ = Unit

-- The bytes of the rounds are bytes.
abbrev pub AreReads : List (PortWait × List ReadResult) → Type 0
AreReads [] = Unit
AreReads ((w, rs) ∷ es) = All IsRead rs × AreReads es

-- The number of reads.
abbrev pub reads : List (PortWait × List ReadResult) → ℕ
reads [] = 0
reads ((w, rs) ∷ es) = length rs + reads es

module _ (api : EventApi) where
  open api use {Event, signal}

  -- The state of a thread with at most `n` bytes in its buffer.
  abbrev pub IsLiveThread : ℕ → WinThread Event → Type 0
  IsLiveThread n s = IsLive s.driver × (s.byte_read < 256) × (length s.driver.received_bytes ≤ n)

  -- How a step of the thread ends: with a state as described, or in an exception, since a call of
  -- the system failed, with the invariant kept.
  abbrev pub WinSurvives : (WinThread Event → Type 0) → WinRun Event → Type 0
  WinSurvives P (went_on s) = P s
  WinSurvives P (threw e d) =
      IsLive d
      × ((e ≡ receive_exception) ⊎ ((e ≡ impl_exception) × (s : Event) × (signal s ≡ none)))

  WinSurvives-bind :
      (P Q : WinThread Event → Type 0) (r : WinRun Event) (f : WinThread Event → WinRun Event)
      → WinSurvives P r
      → ((s : WinThread Event) → P s → WinSurvives Q (f s))
      → WinSurvives Q (and_on r f)
  WinSurvives-bind P Q (went_on s) f h k = k s h
  WinSurvives-bind P Q (threw e d) f h k = h

  WinSurvives-if :
      (P : WinThread Event → Type 0) (b : Bool) (x y : WinRun Event)
      → WinSurvives P x
      → WinSurvives P y
      → WinSurvives P (if b then x else y)
  WinSurvives-if P true x y h k = h
  WinSurvives-if P false x y h k = k

  processed-Survives :
      (n : ℕ) (s : WinThread Event) (left : Driver Event) (r : Result (Driver Event))
      → s.byte_read < 256
      → length s.driver.received_bytes ≤ n
      → IsLive left
      → Survives api (Settled api (length s.driver.received_bytes)) r
      → WinSurvives (IsLiveThread n) (after_messages s left r)
  processed-Survives n s left (ok d) b l k (h, _, m) = (h, b, omega arith)
  processed-Survives n s left (err e) b l k h = (k, inr h)

  end_of_byte-Survives :
      (n : ℕ) (s : WinThread Event)
      → IsLiveThread n s
      → n < 2 ^ 31
      → WinSurvives (IsLiveThread n) (end_of_byte api s)
  unfolding end_of_byte
  end_of_byte-Survives n s (h, b, l) small =
      WinSurvives-if (IsLiveThread n) (s.byte_read == 0x0D) _ _
        (processed-Survives n s _ _ b l (left_by_messages-IsLive api s.driver h (omega arith))
          (process_all_messages-Survives api s.driver h (omega arith)))
        (h, b, l)

  push_byte-IsLiveThread :
      (n : ℕ) (s : WinThread Event) → IsLiveThread n s → IsLiveThread (n + 1) (push_byte s)
  unfolding push_byte
  push_byte-IsLiveThread n s ((v, clean, kept), b, l) = (
    (All-append (λ c. c < 256) s.driver.received_bytes (s.byte_read ∷ []) v (b, tt), clean, kept),
    b,
    omega (arith, length-append s.driver.received_bytes (s.byte_read ∷ [])),
  )

  read_byte-Survives :
      (n : ℕ) (s : WinThread Event) (r : ReadResult)
      → IsLiveThread n s
      → IsRead r
      → n + 1 < 2 ^ 31
      → WinSurvives (IsLiveThread (n + 1)) (read_byte api s r)
  unfolding read_byte take_byte
  read_byte-Survives n s (at_once none) h v small =
      end_of_byte-Survives (n + 1) _ (push_byte-IsLiveThread n (record s { bytes_total = 0 }) h)
        small
  read_byte-Survives n s (at_once (some b)) (h, c, l) v small =
      end_of_byte-Survives (n + 1) _
        (push_byte-IsLiveThread n (record s { byte_read = b; bytes_total = 1 }) (h, v, l)) small
  read_byte-Survives n s (delayed none) (h, c, l) v small =
      end_of_byte-Survives (n + 1) (record s { bytes_total = 0 }) (h, c, omega arith) small
  read_byte-Survives n s (delayed (some b)) (h, c, l) v small =
      end_of_byte-Survives (n + 1) _
        (push_byte-IsLiveThread n (record s { byte_read = b; bytes_total = 1 }) (h, v, l)) small
  read_byte-Survives n s read_failed h v small = (h.0, inl refl)
  read_byte-Survives n s end_signalled (h, c, l) v small = (h, c, omega arith)

  grown-IsLiveThread : (n k : ℕ) (s : WinThread Event) → IsLiveThread n s → n ≤ k → IsLiveThread k s
  grown-IsLiveThread n k s (h, c, l) m = (h, c, omega arith)

  read_loop-Survives :
      (n : ℕ) (s : WinThread Event) (rs : List ReadResult)
      → IsLiveThread n s
      → All IsRead rs
      → n + length rs < 2 ^ 31
      → WinSurvives (IsLiveThread (n + length rs)) (read_loop api s rs)
  unfolding read_loop
  read_loop-Survives n s [] h v small = grown-IsLiveThread n (n + 0) s h (omega arith)
  read_loop-Survives n s (r ∷ rs) h (v, vs) small =
      WinSurvives-bind (IsLiveThread (n + 1)) (IsLiveThread (n + suc (length rs)))
        (read_byte api s r) _ (read_byte-Survives n s r h v (omega arith))
        (λ s' h'.
          let e : n + 1 + length rs ≡ n + suc (length rs) = omega arith in
          WinSurvives-if (IsLiveThread (n + suc (length rs))) (s'.bytes_total == 0) _ _
            (grown-IsLiveThread (n + 1) (n + suc (length rs)) s' h' (omega arith))
            (subst (λ m. WinSurvives (IsLiveThread m) (read_loop api s' rs)) e
              (read_loop-Survives (n + 1) s' rs h' vs (omega arith))))

  win_round-Survives :
      (n : ℕ) (s : WinThread Event) (w : PortWait) (rs : List ReadResult)
      → IsLiveThread n s
      → All IsRead rs
      → n + length rs < 2 ^ 31
      → WinSurvives (IsLiveThread (n + length rs)) (win_round api s w rs)
  unfolding win_round
  win_round-Survives n s characters rs h v small = read_loop-Survives n s rs h v small
  win_round-Survives n s wait_failed rs h v small = (h.0, inl refl)
  win_round-Survives n s end_requested rs h v small =
      read_loop-Survives n (record s { running = false }) rs h v small

  -- The rounds of the thread, from the bounds of one to those of all.
  pub win_rounds-Survives :
      (n : ℕ) (s : WinThread Event) (es : List (PortWait × List ReadResult))
      → IsLiveThread n s
      → AreReads es
      → n + reads es < 2 ^ 31
      → WinSurvives (IsLiveThread (n + reads es)) (win_rounds api s es)
  unfolding win_rounds
  win_rounds-Survives n s [] h v small = grown-IsLiveThread n (n + 0) s h (omega arith)
  win_rounds-Survives n s ((w, rs) ∷ es) h (v, vs) small =
      let e : n + length rs + reads es ≡ n + (length rs + reads es) = omega arith in
      WinSurvives-if (IsLiveThread (n + (length rs + reads es))) s.running _ _
        (WinSurvives-bind (IsLiveThread (n + length rs)) (IsLiveThread (n + (length rs + reads es)))
          (win_round api s w rs) _ (win_round-Survives n s w rs h v (omega arith))
          (λ s' h'.
            subst (λ m. WinSurvives (IsLiveThread m) (win_rounds api s' es)) e
              (win_rounds-Survives (n + length rs) s' es h' vs (omega arith))))
        (grown-IsLiveThread n (n + (length rs + reads es)) s h (omega arith))

  -- The thread has returned or goes on, with its invariant, or has stopped on a failed call.
  abbrev pub WinEnded : ℕ → Result (ThreadEnd Event) → Type 0
  WinEnded n r =
      ((s : WinThread Event) × (r ≡ ok (thread_returned s)) × IsLiveThread n s)
      ⊎ ((e : Error) × (d : Driver Event) × (r ≡ ok (thread_stopped e d))
          × IsLive d
          × (d.reception_stopped ≡ true)
          × ((e ≡ receive_exception) ⊎ ((e ≡ impl_exception) × (s : Event) × (signal s ≡ none))))

  thread_end-WinEnded :
      (n : ℕ) (r : WinRun Event) → WinSurvives (IsLiveThread n) r → WinEnded n (thread_end api r)
  unfolding thread_end stop_reception
  thread_end-WinEnded n (went_on s) h = inl (s, refl, h)
  thread_end-WinEnded n (threw e d) (h, inl q) =
      inr (e, stop_reception api d, rw q refl, h, refl, inl q)
  thread_end-WinEnded n (threw e d) (h, inr (q, s, f)) =
      inr (e, stop_reception api d, rw q refl, h, refl, inr (q, s, f))

  -- Whatever bytes the thread reads, at once or later, less than 2^31 with those in its buffer, no
  -- exception leaves it. It keeps its invariant, and so a last response that is a complete message
  -- of the grammar under its type, or the initial one. Unless it goes on or returned, it has stopped
  -- reception, on a CDCReceiveException of a call that failed or on a failed signal.
  pub win_thread-WinEnded :
      (n : ℕ) (s : WinThread Event) (es : List (PortWait × List ReadResult))
      → IsLiveThread n s
      → AreReads es
      → n + reads es < 2 ^ 31
      → WinEnded (n + reads es) (win_thread api s es)
  unfolding win_thread
  win_thread-WinEnded n s es h v small =
      thread_end-WinEnded (n + reads es) (win_rounds api s es)
        (win_rounds-Survives n s es h v small)
