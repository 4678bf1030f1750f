-- ===== src/Driver/Calls/Transfer.antt =====
-- Uploads and downloads (src/CDCImpl.cpp), which share a command and differ by the high bit of the
-- target.
use clibcdc.Base.{
  Bool-cases, List, Option, [], ap, arith, err, false, inl, inr, leb, length, none, ok, refl,
  send_exception, some, subst, sym, true, ℕ, ◌+◌, ◌<◌, ◌>>=◌, ◌^◌, ◌∙◌, ◌∷◌, ◌≡◌, ◌⊎◌,
}
use clibcdc.Driver.Api.{
  Download, call, copy_out, download, read_download, upload, verify_download, verify_upload,
}
use clibcdc.Driver.Calls.Outcome.{Called, Cycles-Called, Makes, answer-Frame, call-Made}
use clibcdc.Driver.Command.{construct_command}
use clibcdc.Driver.Cycle.{Answers, process_command-Cycles}
use clibcdc.Driver.Exchange.{high_bit, map_run, process_command}
use clibcdc.Driver.Receive.{ReadEvent}
use clibcdc.Driver.Send.{PortApi}
use clibcdc.Driver.State.{Driver, EventApi, ParsedMessage}
use clibcdc.Driver.Thread.{AreBytes, arrived}
use clibcdc.Driver.Thread.Message.{IsLive, IsResponse}
use clibcdc.Parser.Extract.{get_parsed_pm_response}
use clibcdc.Parser.Grammar.{text}
use clibcdc.Parser.Readings.{
  get_parsed_pm_data-Frame, get_parsed_pm_response-Frame, pm_header, pm_message, reply_text,
}
use clibcdc.Types.{
  MessageType, PmResponse, Ustring, msg_download_data, msg_upload_download, type_eq, type_eq_self,
  type_ne-eq,
}

-- The response of an upload is its message, as data answer only a download.
uploaded :
    (target : ℕ) (bytes : Ustring)
    → high_bit target ≡ true
    → (m : ParsedMessage) → IsResponse m
    → Answers (construct_command msg_upload_download (target ∷ bytes)) m.parse_result.msg_type
    → (r : PmResponse) × (get_parsed_pm_response m.message ≡ ok r) × (m.message ≡ pm_message r)
unfolding construct_command
uploaded target bytes h m r (inl e) =
    get_parsed_pm_response-Frame m.message (answer-Frame msg_upload_download m r (λ e. cc) e)
uploaded target bytes h m r (inr (_, _, e)) = cc

answered :
    (target : ℕ) (bytes : Ustring) (t : MessageType)
    → Answers (construct_command msg_upload_download (target ∷ bytes)) t
    → (t ≡ msg_upload_download) ⊎ (t ≡ msg_download_data)
unfolding construct_command
answered target bytes t (inl e) = inl e
answered target bytes t (inr (_, e, _)) = inr e

abbrev pub HasRoom : Option ℕ → Ustring → Type 0
HasRoom none output = Unit
HasRoom (some output_dlen) output = length output < output_dlen

-- What `download` may return on a response: its data, or its message and no data.
abbrev pub Downloaded : Option ℕ → ParsedMessage → Download → Type 0
Downloaded room m r =
    ((m.message ≡ reply_text pm_header r.output)
      × (r.response ≡ PmResponse.ok)
      × HasRoom room r.output)
    ⊎ ((m.message ≡ pm_message r.response) × (r.output ≡ []))

module _ (api : EventApi) where
  open api use {Event}

  copy_out-Makes :
      (room : Option ℕ) (d : Driver Event) (text : Ustring)
      → d.last_response.message ≡ reply_text pm_header text
      → Makes api (Downloaded room) d (copy_out room text)
  unfolding copy_out
  copy_out-Makes none d text h = inl (h, refl, tt)
  copy_out-Makes (some n) d text h = elim (Bool-cases (leb n (length text))) [
    | inl e ↦ rw e refl
    | inr e ↦ rw e (inl (h, refl, ground arith))
  ]

  read_download-Makes :
      (port : PortApi) (room : Option ℕ) (d : Driver Event)
      → IsResponse d.last_response
      → (d.last_response.parse_result.msg_type ≡ msg_upload_download)
        ⊎ (d.last_response.parse_result.msg_type ≡ msg_download_data)
      → Makes api (Downloaded room) d (read_download api port room d)
  unfolding read_download
  read_download-Makes port room d r (inl e) =
      let other : type_eq d.last_response.parse_result.msg_type msg_download_data ≡ false =
        type_ne-eq _ _ (λ f. cc) in
      let (a, g, p) =
        get_parsed_pm_response-Frame d.last_response.message
          (answer-Frame msg_upload_download d.last_response r (λ e. cc) e) in
      rw (other, g) (inr (p, refl))
  read_download-Makes port room d r (inr e) =
      let same : type_eq d.last_response.parse_result.msg_type msg_download_data ≡ true =
        ap (λ t. type_eq t msg_download_data) e ∙ type_eq_self msg_download_data in
      let (text, g, p) =
        get_parsed_pm_data-Frame d.last_response.message r.0
          (answer-Frame msg_download_data d.last_response r (λ e. cc) e) in
      rw (same, g) (copy_out-Makes room d text p)

  module _ (port : PortApi) (d : Driver Event) (arrivals : List ReadEvent) (live : IsLive d)
      (v : AreBytes arrivals) (small : length d.received_bytes + arrived arrivals < 2 ^ 31) where
    upload-allowed :
        (target : ℕ) (bytes : Ustring)
        → high_bit target ≡ true
        → upload api port target bytes d arrivals
          ≡ call api port msg_upload_download (target ∷ bytes) get_parsed_pm_response d arrivals
    unfolding upload verify_upload
    upload-allowed target bytes e = rw (upload, e) refl

    download-allowed :
        (target : ℕ) (bytes : Ustring) (room : Option ℕ)
        → high_bit target ≡ false
        → download api port target bytes room d arrivals ≡ (
            process_command api port d
              (construct_command msg_upload_download (target ∷ bytes))
              arrivals
            >>= λ r. ok (map_run (λ d1 _. read_download api port room d1) r))
    unfolding download verify_download
    download-allowed target bytes room e = rw (download, e) refl

    -- On any port, from a state that meets the thread's invariant and whatever bytes arrive,
    -- less than 2^31 with those in the buffer: `upload` refuses a target without the high bit,
    -- sending nothing; for the others it returns the response whose message is the last one. A
    -- call that returns has sent its command in full and once and has taken the signal; one that
    -- throws throws a CDCSendException or a CDCReceiveException; if the thread lets out an
    -- exception, a signal has failed.
    pub upload-Called :
        (target : ℕ) (bytes : Ustring)
        → ((high_bit target ≡ false)
            × (upload api port target bytes d arrivals
                ≡ ok (record { driver = d; sent = []; outcome = err send_exception })))
          ⊎ ((high_bit target ≡ true)
              × Called api
                  (construct_command msg_upload_download (target ∷ bytes))
                  (λ m r. m.message ≡ pm_message r)
                  d
                  (upload api port target bytes d arrivals))
    unfolding upload verify_upload
    upload-Called target bytes = elim (Bool-cases (high_bit target)) [
      | inr e ↦ inl (e, rw (upload, e) refl)
      | inl e ↦ inr (
        e,
        subst
            (Called api (construct_command msg_upload_download (target ∷ bytes))
              (λ m r. m.message ≡ pm_message r) d)
            (sym (upload-allowed target bytes e))
            (call-Made api port d arrivals live v small (λ m r. m.message ≡ pm_message r)
              msg_upload_download (target ∷ bytes) get_parsed_pm_response refl
              (uploaded target bytes e)),
      )
    ]

    -- On any port, from a state that meets the thread's invariant and whatever bytes arrive,
    -- less than 2^31 with those in the buffer: `download` refuses a target with the high bit,
    -- sending nothing; for the others it returns either the data that the last response carries,
    -- which are shorter than the room if the caller gives one, or the response whose message is
    -- the last one and no data. A call that returns has sent its command in full and once and
    -- has taken the signal; one that throws throws a CDCSendException or a CDCReceiveException;
    -- if the thread lets out an exception, a signal has failed.
    pub download-Called :
        (target : ℕ) (bytes : Ustring) (room : Option ℕ)
        → ((high_bit target ≡ true)
            × (download api port target bytes room d arrivals
                ≡ ok (record { driver = d; sent = []; outcome = err send_exception })))
          ⊎ ((high_bit target ≡ false)
              × Called api
                  (construct_command msg_upload_download (target ∷ bytes))
                  (Downloaded room)
                  d
                  (download api port target bytes room d arrivals))
    unfolding download verify_download construct_command
    download-Called target bytes room = elim (Bool-cases (high_bit target)) [
      | inl e ↦ inl (e, (rw (download, e) refl))
      | inr e ↦ inr (
        e,
        subst
            (Called api (construct_command msg_upload_download (target ∷ bytes)) (Downloaded room)
              d)
            (sym (download-allowed target bytes room e))
            (Cycles-Called api (Downloaded room) (λ d1 _. read_download api port room d1)
              (construct_command msg_upload_download (target ∷ bytes)) d _
              (λ d1 l q.
                read_download-Makes port room d1 l.2
                  (answered target bytes d1.last_response.parse_result.msg_type q))
              (process_command-Cycles api port d
                (construct_command msg_upload_download (target ∷ bytes)) arrivals refl live v
                small)),
      )
    ]
