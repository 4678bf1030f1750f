-- ===== src/Driver/Stream/Replies.antt =====
-- A stream of fixed replies and asynchronous messages in the buffer of src/CDCImpl.cpp.
use clibcdc.Base.{
  All, All-map, Bool, List, [], ap, arith, false, get_elem?, length, not, ok, refl, some, subst,
  suc, sym, true, zero, ℕ, ◌&&◌, ◌++◌, ◌<◌, ◌==◌, ◌^◌, ◌∙◌, ◌∷◌, ◌≡◌,
}
use clibcdc.Driver.Receive.{process_all_messages}
use clibcdc.Driver.State.{Driver, EventApi}
use clibcdc.Driver.Stream.{
  IsDelimited, Message, StartsMessage, absorb_all, async, process_all_messages-stream, reply,
  stream, view,
}
use clibcdc.Parser.Complete.Replies.{Reads, parse_data-reply, replies}
use clibcdc.Types.{MessageType, Ustring, msg_async, type_code, type_eq, type_eq_self}
use mathlib.Core.Bool.{false≢true}
use mathlib.Core.Option.{some-injective}

-- A fixed reply that the parser finds whatever stands behind it, or data of 1 to 255 bytes.
abbrev pub IsMessage : Message → Type 0
IsMessage (reply t m) =
    (k : ℕ) × (cs : Ustring) × (get_elem? replies k ≡ some (t, cs)) × (m ≡ cs ++ 0x0D ∷ [])
IsMessage (async d) = (length d < 256) × (0 < length d)

are_plain : List (MessageType × Ustring) → Bool
are_plain [] = true
are_plain ((t, []) ∷ l) = false
are_plain ((t, c ∷ cs) ∷ l) = not (type_eq t msg_async) && (c == b'<' && are_plain l)

replies-are_plain : are_plain replies ≡ true
unfolding are_plain type_eq type_code
replies-are_plain = refl

are_plain-reply :
    (l : List (MessageType × Ustring)) (k : ℕ) (t : MessageType) (cs : Ustring)
    → are_plain l ≡ true
    → get_elem? l k ≡ some (t, cs)
    → (type_eq t msg_async ≡ false) × StartsMessage (cs ++ 0x0D ∷ [])
unfolding are_plain
are_plain-reply [] k t cs p e = cc
are_plain-reply ((u, []) ∷ l) k t cs p e = cc
are_plain-reply ((u, c ∷ ds) ∷ l) zero t cs p e =
    let same : (u, c ∷ ds) ≡ (t, cs) = some-injective _ _ e in
    let plain : type_eq u msg_async ≡ false = ground arith in
    let starts : c ≡ b'<' = ground arith in
    subst (λ r. (type_eq r.0 msg_async ≡ false) × StartsMessage (r.1 ++ 0x0D ∷ [])) same
      (plain, starts)
are_plain-reply ((u, c ∷ ds) ∷ l) (suc k) t cs p e = are_plain-reply l k t cs (ground arith) e

IsMessage-IsDelimited : (x : Message) → IsMessage x → IsDelimited x
IsMessage-IsDelimited (async d) h = h
IsMessage-IsDelimited (reply t m) (k, cs, e, same) =
    let (other, starts) = are_plain-reply replies k t cs replies-are_plain e in
    (
      λ a.
          let f = ap (λ t. type_eq t msg_async) a in
          false≢true (sym other ∙ f ∙ type_eq_self msg_async),
      subst StartsMessage (sym same) starts,
      λ p rest small.
          subst (λ m. Reads p t m rest) (sym same)
            (parse_data-reply p k t cs rest e
              (subst (λ m. length (m ++ rest) < 2 ^ 31) same small)),
    )

module _ (api : EventApi) where
  open api use {Event, signal}

  module _ (signals : (e : Event) → (e' : Event) × (signal e ≡ some e')) where
    -- A buffer of less than 2^31 bytes that holds messages behind one another, each a reply of the
    -- list `replies` or an asynchronous message of 1 to 255 bytes of data, is used up, in order and as
    -- the specification says: each reply is the last response until the next one comes, and each
    -- asynchronous message is one call of the listener, if there is one, with its data. The signals
    -- of new messages must succeed.
    pub process_all_messages-replies :
        (ms : List Message) (d : Driver Event)
        → All IsMessage ms
        → length (stream ms) < 2 ^ 31
        → d.received_bytes ≡ stream ms
        → (d' : Driver Event) × (process_all_messages api d ≡ ok d')
          × (view d' ≡ absorb_all d.listener (view d) ms)
          × (d'.received_bytes ≡ [])
    process_all_messages-replies ms d h small e =
        process_all_messages-stream api signals ms d (All-map IsMessage-IsDelimited ms h) small e
