-- ===== src/Driver/State.antt =====
-- The members of CDCImplPrivate (src/CDCImplPri.h) that the commands and the reading thread share,
-- and what the code asks of the operating system's event objects (eventfd in src/CDCImpl_Lin.cpp).
use clibcdc.Base.{Bool, List, Option, [], false, some, true, ℕ, ◌≡◌}
use clibcdc.Parser.Machine.{MessageParser, new_parser}
use clibcdc.Types.{MessageType, ParseResult, Ustring, msg_error, parse_not_complete}

pub record Command : Type 0 where
  pub msg_type : MessageType
  pub bytes : Ustring

pub record ParsedMessage : Type 0 where
  pub message : Ustring
  pub parse_result : ParseResult

-- `lastReceptionError`, by the place that sets it.
pub data ReceptionError : Type 0 where
  no_error bad_message_format reading_failed : ReceptionError

-- An event object: `signal` is the write of `setMyEvent` and `clear` the read of
-- `waitForMyEvent`; `none` is a failed call. A signal sets the event and a read resets it.
pub record EventApi : Type 1 where
  pub Event : Type 0
  pub fresh : Event
  pub is_set : Event → Bool
  pub signal : Event → Option Event
  pub clear : Event → Option Event
  pub fresh_unset : is_set fresh ≡ false
  pub signal_sets : (e e' : Event) → signal e ≡ some e' → is_set e' ≡ true
  pub clear_resets : (e e' : Event) → clear e ≡ some e' → is_set e' ≡ false

-- One call of the registered listener: the bytes, with the NUL behind them, and the length.
pub record Delivery : Type 0 where
  pub user_data : Ustring
  pub user_len : ℕ

-- `received_bytes` is the buffer of the reading thread, `delivered` the calls of the listener,
-- oldest first; `listener` says that one is registered.
pub record Driver (E : Type 0) : Type 0 where
  pub new_msg_event : E
  pub last_response : ParsedMessage
  pub listener : Bool
  pub delivered : List Delivery
  pub reception_stopped : Bool
  pub last_reception_error : ReceptionError
  pub msg_parser : MessageParser
  pub received_bytes : Ustring
  pub transmit_buffer_len : ℕ

-- `initLastResponse`.
unfoldable pub init_last_response : ParsedMessage
init_last_response = record {
  message = [];
  parse_result = record {
    msg_type = msg_error;
    result_type = parse_not_complete;
    last_position = 0;
  };
}

-- `init`, once the port is open and the reading thread runs; `stray` is as in Parser/States.
unfoldable pub init : (api : EventApi) → List ℕ → Driver api.Event
unfolding new_parser init_last_response
init api stray = record {
  new_msg_event = api.fresh;
  last_response = init_last_response;
  listener = false;
  delivered = [];
  reception_stopped = false;
  last_reception_error = no_error;
  msg_parser = new_parser stray;
  received_bytes = [];
  transmit_buffer_len = 1024;
}
