-- ===== src/Driver/Calls/Outcome.antt =====
-- How a public method of CDCImpl (src/CDCImpl.cpp) ends, and that those that run one command and
-- read its response end so.
use clibcdc.Base.{
  List, Result, ap, err, false, impl_exception, inl, inr, length, none, ok, receive_exception,
  send_exception, subst, sym, true, ℕ, ◌+◌, ◌<◌, ◌>>=◌, ◌^◌, ◌∙◌, ◌≡◌, ◌≢◌, ◌⊎◌,
}
use clibcdc.Driver.Api.{call}
use clibcdc.Driver.Command.{command_to_buffer, construct_command}
use clibcdc.Driver.Cycle.{Answers, Cycles, Returned, process_command-Cycles}
use clibcdc.Driver.Encoding.{is_sent}
use clibcdc.Driver.Exchange.{Run, map_run}
use clibcdc.Driver.Receive.{ReadEvent}
use clibcdc.Driver.Send.{PortApi}
use clibcdc.Driver.State.{Command, Driver, EventApi, ParsedMessage}
use clibcdc.Driver.Thread.{AreBytes, arrived}
use clibcdc.Driver.Thread.Message.{IsLive, IsResponse}
use clibcdc.Parser.Grammar.{Frame}
use clibcdc.Types.{MessageType, Ustring, msg_error, msg_upload_download}

-- A response of the awaited type is a complete message.
pub answer-Frame :
    (t : MessageType) (m : ParsedMessage)
    → IsResponse m
    → t ≢ msg_error
    → m.parse_result.msg_type ≡ t
    → Frame t m.message
answer-Frame t m (small, inl (empty, e)) n g = absurd (n (sym g ∙ e))
answer-Frame t m (small, inr f) n g = subst (λ t. Frame t m.message) g f

pub is_sent-real : (t : MessageType) → is_sent t ≡ true → t ≢ msg_error
is_sent-real t h e = let f = ap is_sent e in cc

-- The response of a command that is neither an upload nor a download.
plain-Frame :
    (cmd : Command) (m : ParsedMessage)
    → IsResponse m
    → is_sent cmd.msg_type ≡ true
    → cmd.msg_type ≢ msg_upload_download
    → Answers cmd m.parse_result.msg_type
    → Frame cmd.msg_type m.message
plain-Frame cmd m r s ne (inl e) = answer-Frame cmd.msg_type m r (is_sent-real cmd.msg_type s) e
plain-Frame cmd m r s ne (inr (e, _, _)) = absurd (ne e)

module _ (api : EventApi) where
  open api use {Event, is_set, signal}

  -- The outcome of a call that sends `cmd`, from the driver `d`: `P` relates the last response to
  -- the value that is returned.
  abbrev pub Outcome :
      {A : Type 0}
      → Command
      → (ParsedMessage → A → Type 0)
      → Driver Event
      → Run Event A
      → Result A
      → Type 0
  Outcome cmd P d run (ok a) =
      (d.reception_stopped ≡ false)
      × ((n : ℕ) × (command_to_buffer d.transmit_buffer_len cmd ≡ ok (run.sent, n)))
      × (is_set run.driver.new_msg_event ≡ false)
      × P run.driver.last_response a
  Outcome cmd P d run (err e) = (e ≡ send_exception) ⊎ (e ≡ receive_exception)

  abbrev pub Called :
      {A : Type 0}
      → Command
      → (ParsedMessage → A → Type 0)
      → Driver Event
      → Result (Run Event A)
      → Type 0
  Called cmd P d (ok run) = IsLive run.driver × Outcome cmd P d run run.outcome
  Called cmd P d (err e) = (e ≡ impl_exception) × (s : Event) × (signal s ≡ none)

  -- What a method makes of the driver with a response.
  abbrev pub Makes : {A : Type 0} → (ParsedMessage → A → Type 0) → Driver Event → Result A → Type 0
  Makes P d (ok a) = P d.last_response a
  Makes P d (err e) = e ≡ receive_exception

  module _ {A : Type 0} (P : ParsedMessage → A → Type 0)
      (f : Driver Event → Unit {0} → Result A) where
    made-Outcome :
        (cmd : Command) (d d1 : Driver Event) (sent : Ustring) (r : Result A)
        → Returned api d cmd (record { driver = d1; sent = sent; outcome = ok tt }) (ok tt)
        → Makes P d1 r
        → Outcome cmd P d (record { driver = d1; sent = sent; outcome = r }) r
    made-Outcome cmd d d1 sent (ok a) (g, n, t, k) h = (g, n, k, h)
    made-Outcome cmd d d1 sent (err e) q h = inr h

    returned-Outcome :
        (cmd : Command) (d d1 : Driver Event) (sent : Ustring) (r : Result (Unit {0}))
        → (Answers cmd d1.last_response.parse_result.msg_type → Makes P d1 (f d1 tt))
        → Returned api d cmd (record { driver = d1; sent = sent; outcome = r }) r
        → Outcome cmd P d (record { driver = d1; sent = sent; outcome = r >>= f d1 }) (r >>= f d1)
    returned-Outcome cmd d d1 sent (err e) h q = q
    returned-Outcome cmd d d1 sent (ok tt) h (g, n, t, k) =
        made-Outcome cmd d d1 sent (f d1 tt) (g, n, t, k) (h t)

    pub Cycles-Called :
        (cmd : Command) (d : Driver Event) (r : Result (Run Event (Unit {0})))
        → ((d1 : Driver Event)
            → IsLive d1
            → Answers cmd d1.last_response.parse_result.msg_type
            → Makes P d1 (f d1 tt))
        → Cycles api d cmd r
        → Called cmd P d (r >>= λ run. ok (map_run f run))
    Cycles-Called cmd d (err e) h q = q
    Cycles-Called cmd d (ok run) h (live, q) =
        (live, returned-Outcome cmd d run.driver run.sent run.outcome (h run.driver live) q)

  module _ (port : PortApi) (d : Driver Event) (arrivals : List ReadEvent) (live : IsLive d)
      (v : AreBytes arrivals) (small : length d.received_bytes + arrived arrivals < 2 ^ 31) where
    -- The result is read from the message of the last response.
    pub call-Made :
        {A : Type 0} (P : ParsedMessage → A → Type 0) (t : MessageType) (bytes : Ustring)
        (parsed : Ustring → Result A)
        → is_sent t ≡ true
        → ((m : ParsedMessage)
            → IsResponse m
            → Answers (construct_command t bytes) m.parse_result.msg_type
            → (a : A) × (parsed m.message ≡ ok a) × P m a)
        → Called (construct_command t bytes) P d (call api port t bytes parsed d arrivals)
    unfolding call construct_command
    call-Made P t bytes parsed s h =
        Cycles-Called P (λ d1 _. parsed d1.last_response.message) (construct_command t bytes) d _
          (λ d1 l q. let (a, e, p) = h d1.last_response l.2 q in rw e p)
          (process_command-Cycles api port d (construct_command t bytes) arrivals s live v small)

    -- A command without the duality of uploads and downloads.
    pub call-Called :
        {A : Type 0} (P : ParsedMessage → A → Type 0) (t : MessageType) (bytes : Ustring)
        (parsed : Ustring → Result A)
        → is_sent t ≡ true
        → t ≢ msg_upload_download
        → ((m : ParsedMessage)
            → length m.message < 2 ^ 31
            → Frame t m.message
            → (a : A) × (parsed m.message ≡ ok a) × P m a)
        → Called (construct_command t bytes) P d (call api port t bytes parsed d arrivals)
    unfolding construct_command
    call-Called P t bytes parsed s ne h =
        call-Made P t bytes parsed s
          (λ m r q. h m r.0 (plain-Frame (construct_command t bytes) m r s ne q))
