-- ===== src/Tests.antt =====
-- Runs of the model on concrete inputs, and the theorems at inputs that meet their hypotheses.
mod Data
mod Arrivals
mod Calls
mod Hex
mod Blocks
mod Windows
mod Programs
use clibcdc.Base.{All, Bool, List, [], arith, contains, ok, refl, some, true, ◌++◌, ◌∷◌, ◌≡◌}
use clibcdc.Driver.Receive.{process_all_messages}
use clibcdc.Driver.State.{Driver, init}
use clibcdc.Driver.Stream.{Message, absorb_all, async, reply, stream, view}
use clibcdc.Driver.Stream.Replies.{IsMessage, process_all_messages-replies}
use clibcdc.Parser.Complete.Async.{async_message, get_parsed_dr_data-async, parse_data-async}
use clibcdc.Parser.Complete.Replies.{Reads, parse_data-reply}
use clibcdc.Parser.Extract.{get_parsed_dr_data}
use clibcdc.Parser.Grammar.{Sound}
use clibcdc.Parser.Machine.{new_parser, parse_data}
use clibcdc.Parser.Sound.{parse_data-Sound}
use clibcdc.Tests.Data.{flag, no_stray, three_bytes}
use clibcdc.Types.{ParseResult, Ustring, msg_async, msg_data_send, msg_test}

abbrev flag_signals : (e : Bool) → (e' : Bool) × (flag.signal e ≡ some e')
flag_signals e = (true, refl)

-- A reply, a message with data, and the beginning of a third.
abbrev sample : Ustring
sample = async_message three_bytes ++ (b'<' ∷ b'O' ∷ [])

parse_data-Sound_example :
    (r : ParseResult) × (parse_data (new_parser no_stray) sample
      ≡ ok (r, record (new_parser no_stray) { last_parsed_data = sample; last_parse_result = r }))
    × Sound sample r
unfolding new_parser contains
parse_data-Sound_example =
    parse_data-Sound (new_parser no_stray) sample (omega arith) (omega arith) refl

parse_data-reply_example :
    Reads
      (new_parser no_stray)
      msg_data_send
      ((b'<' ∷ b'D' ∷ b'S' ∷ b':' ∷ b'B' ∷ b'U' ∷ b'S' ∷ b'Y' ∷ []) ++ 0x0D ∷ [])
      three_bytes
parse_data-reply_example =
    parse_data-reply (new_parser no_stray) 7 msg_data_send
      (b'<' ∷ b'D' ∷ b'S' ∷ b':' ∷ b'B' ∷ b'U' ∷ b'S' ∷ b'Y' ∷ []) three_bytes refl (omega arith)

parse_data-async_example :
    Reads (new_parser no_stray) msg_async (async_message three_bytes) (b'<' ∷ b'O' ∷ [])
parse_data-async_example =
    parse_data-async (new_parser no_stray) three_bytes (b'<' ∷ b'O' ∷ []) (omega arith)
      (omega arith) (omega arith)

get_parsed_dr_data-async_example : get_parsed_dr_data (async_message three_bytes) ≡ ok three_bytes
get_parsed_dr_data-async_example = get_parsed_dr_data-async three_bytes (omega arith)

abbrev ok_reply : Message
ok_reply = reply msg_test (b'<' ∷ b'O' ∷ b'K' ∷ 0x0D ∷ [])

abbrev two_messages : List Message
two_messages = ok_reply ∷ async three_bytes ∷ []

two_messages-IsMessage : All IsMessage two_messages
two_messages-IsMessage =
    ((1, b'<' ∷ b'O' ∷ b'K' ∷ [], refl, refl), ((omega arith, omega arith), tt))

abbrev listening : Driver Bool
listening = record (init flag no_stray) { listener = true; received_bytes = stream two_messages }

process_all_messages-replies_example :
    (d' : Driver Bool) × (process_all_messages flag listening ≡ ok d')
    × (view d' ≡ absorb_all listening.listener (view listening) two_messages)
    × (d'.received_bytes ≡ [])
process_all_messages-replies_example =
    process_all_messages-replies flag flag_signals two_messages listening two_messages-IsMessage
      (omega arith) refl
