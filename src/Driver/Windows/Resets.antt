-- ===== src/Driver/Windows/Resets.antt =====
-- `sendCommand` of src/CDCImpl_Win.cpp on each of its branches.
use clibcdc.Base.{
  Bool, Option, Result, err, false, if◌then◌else◌, impl_exception, inl, inr, none, ok, refl,
  send_exception, some, take, true, ℕ, ◌≡◌, ◌⊎◌,
}
use clibcdc.Driver.Command.{command_to_buffer}
use clibcdc.Driver.Encoding.{Encodes, command_to_buffer-Encodes, is_sent}
use clibcdc.Driver.Exchange.{Run}
use clibcdc.Driver.State.{Command, Driver, EventApi}
use clibcdc.Driver.Thread.Message.{IsLive}
use clibcdc.Driver.Windows.{
  WinPort, WriteResult, reset_and_write, write_command, write_encoded, write_error, write_outcome,
  write_timeout, written,
}
use clibcdc.Types.{Ustring}

module _ (api : EventApi) where
  open api use {Event, is_set, clear}

  -- What `sendCommand` leaves of the driver: the event is reset, and the capacity of the transmit
  -- buffer may have grown.
  abbrev pub reset : Driver Event → Event → ℕ → Driver Event
  reset d e n = record d { new_msg_event = e; transmit_buffer_len = n }

  -- The event was reset to `e`, and the port has taken bytes of the command, encoded with a
  -- capacity of `n`.
  abbrev pub Written : Driver Event → Command → Event → ℕ → Ustring → Type 0
  Written d cmd e n sent =
      (clear d.new_msg_event ≡ some e)
      × (is_set e ≡ false)
      × ((bytes : Ustring) × (k : ℕ) × (command_to_buffer d.transmit_buffer_len cmd ≡ ok (bytes, n))
          × (sent ≡ take k bytes))

  -- The end of `sendCommand`: it wrote the command, or it threw.
  abbrev pub Sent : Driver Event → Command → Run Event (Unit {0}) → Result (Unit {0}) → Type 0
  Sent d cmd r (ok u) = (e : Event) × (n : ℕ) × (r.driver ≡ reset d e n) × Written d cmd e n r.sent
  Sent d cmd r (err e) =
      IsLive r.driver
      × ((e ≡ send_exception) ⊎ ((e ≡ impl_exception) × (s : Event) × (clear s ≡ none)))

  write_outcome-Sent :
      (d : Driver Event) (cmd : Command) (e : Event) (bytes : Ustring) (n : ℕ) (w : WriteResult)
      → IsLive d
      → clear d.new_msg_event ≡ some e
      → command_to_buffer d.transmit_buffer_len cmd ≡ ok (bytes, n)
      → let r : Run Event (Unit {0}) = write_outcome (reset d e n) bytes w in Sent d cmd r r.outcome
  unfolding write_outcome
  write_outcome-Sent d cmd e bytes n (written k) h f c =
      (e, n, refl, (f, api.clear_resets d.new_msg_event e f, (bytes, k, c, refl)))
  write_outcome-Sent d cmd e bytes n write_error h f c = (h, inl refl)
  write_outcome-Sent d cmd e bytes n write_timeout h f c = (h, inl refl)

  write_encoded-Sent :
      (port : WinPort) (d : Driver Event) (cmd : Command) (e : Event) (r : Result (Ustring × ℕ))
      → IsLive d
      → clear d.new_msg_event ≡ some e
      → command_to_buffer d.transmit_buffer_len cmd ≡ r
      → Encodes d.transmit_buffer_len cmd r
      → let run : Run Event (Unit {0}) = write_encoded port (record d { new_msg_event = e }) r in
        Sent d cmd run run.outcome
  unfolding write_encoded
  write_encoded-Sent port d cmd e (err x) h f c (g, _) = (h, inl g)
  write_encoded-Sent port d cmd e (ok (bytes, n)) h f c g =
      write_outcome-Sent d cmd e bytes n (port.write_file bytes) h f c

  Sent-if :
      (d : Driver Event) (cmd : Command) (b : Bool) (r r' : Run Event (Unit {0}))
      → Sent d cmd r r.outcome
      → Sent d cmd r' r'.outcome
      → let run : Run Event (Unit {0}) = if b then r else r' in Sent d cmd run run.outcome
  Sent-if d cmd true r r' h k = h
  Sent-if d cmd false r r' h k = k

  pub reset_and_write-Sent :
      (port : WinPort) (d : Driver Event) (cmd : Command) (o : Option Event)
      → is_sent cmd.msg_type ≡ true
      → IsLive d
      → clear d.new_msg_event ≡ o
      → Sent d cmd (reset_and_write api port d cmd o) (reset_and_write api port d cmd o).outcome
  unfolding reset_and_write write_command
  reset_and_write-Sent port d cmd none s h c = (h, inr (refl, d.new_msg_event, c))
  reset_and_write-Sent port d cmd (some e) s h c =
      Sent-if d cmd port.event_created _ _
        (write_encoded-Sent port d cmd e _ h c refl
          (command_to_buffer-Encodes d.transmit_buffer_len cmd s))
        (h, inl refl)
