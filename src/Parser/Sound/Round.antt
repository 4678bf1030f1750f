-- ===== src/Parser/Sound/Round.antt =====
-- One round of the loop of `parseData` in src/CDCMessageParser.cpp: it does not fail, it keeps the
-- invariant, it comes nearer to the end, and where it returns with PARSE_OK it has read a message.
use clibcdc.Base.{
  ==_false_iff, Bool, Bool-cases, List, Result, [], ap, append_assoc, arith, contains, drop, err,
  false, get_or, if◌then◌else◌, inl, inr, length, length-append, length-drop, ok, refl, sub64, take,
  take-add, take-append, take_one, true, wrap32, ℕ, ◌*◌, ◌++◌, ◌+◌, ◌-◌, ◌<◌, ◌==◌, ◌>>=◌, ◌^◌, ◌∷◌,
  ◌≡◌, ◌≢◌, ◌≤◌, ◌⊎◌,
}
use clibcdc.Parser.Grammar.{Fits, Matches-concat, Sound, byte, usb_text}
use clibcdc.Parser.Machine.{
  Outcome, continued, enter_state, parse_step, returned, special_end, special_step, transition_step,
}
use clibcdc.Parser.Sound.Info.{finite_state-Typed}
use clibcdc.Parser.Sound.Shapes.{do_transition-shape, shape}
use clibcdc.Parser.Sound.Special.{
  After, After-last, After-move, Inv, Live, Live-concat, Returns, asyn-Returns, pm-After,
  tr-Returns,
}
use clibcdc.Parser.Sound.Usb.{UsbResult, usb_info_loop-UsbResult}
use clibcdc.Parser.Special.{
  StateProcResult, proc_result, process_special_state, process_usb_info, type_section,
  usb_info_loop,
}
use clibcdc.Parser.States.{
  finite_states, is_finite_state, is_special_state, special_states, states_info,
}
use clibcdc.Parser.Transitions.{do_transition, no_transition}
use clibcdc.Types.{IsBytes, ParseResult, Ustring, parse_not_complete}

module _ (bytes : Ustring) (small : length bytes < 2 ^ 31) (v : IsBytes bytes) where
  usb-Live :
      (pos : ℕ) (b r : Ustring)
      → Live bytes 17 pos
      → drop pos bytes ≡ b ++ (0x0D ∷ r)
      → Fits usb_text b
      → pos + (length b + 1) ≤ length bytes
      → Live bytes 19 (pos + (length b + 1))
  unfolding shape
  usb-Live pos b r (_, m) e f h =
      let line : take (length b + 1) (drop pos bytes) ≡ b ++ 0x0D ∷ [] =
        rw (e, ← append_assoc b (0x0D ∷ []) r)
          (take-append (length b + 1) (b ++ 0x0D ∷ []) r
            (omega (arith, length-append b (0x0D ∷ [])))) in
      (
        h,
        rw
            (
              take-add pos (length b + 1) _ bytes refl,
              line,
              ← append_assoc (take pos bytes) b (0x0D ∷ []),
            )
            (Matches-concat (shape 17 ++ usb_text ∷ []) (take pos bytes ++ b) (byte 0x0D)
              (0x0D ∷ []) (Matches-concat (shape 17) _ usb_text b m f) refl),
      )

  usb-After :
      (pos s last : ℕ) (bad : Bool)
      → pos < length bytes
      → Live bytes 17 pos
      → UsbResult type_section (drop pos bytes) pos (proc_result s last bad)
      → (bad ≡ true) ⊎ After bytes pos (proc_result s last bad)
  unfolding is_finite_state is_special_state finite_states special_states contains
  usb-After pos s last bad h l (inl e) = inl e
  usb-After pos s last bad h l (inr (inl (n, e))) = inr (
      rw n (record {
        keeps = inr (inl (omega (arith, length-drop pos bytes)));
        final_live = λ e'. cc;
        bound = omega (arith, length-drop pos bytes);
        progress = inl (omega (arith, length-drop pos bytes));
      }))
  usb-After pos s last bad h l (inr (inr (n, b, r, e, f, k))) =
      let size : pos + (length b + 1) ≤ length bytes =
        omega (arith, length-drop pos bytes, ap length e, length-append b (0x0D ∷ r)) in
      inr (
        rw n (
          After-move bytes 19 pos last (pos + (length b + 1)) (omega arith) (omega arith)
            (omega arith) refl (usb-Live pos b r l e f size)))

  usb-Returns :
      (pos : ℕ)
      → pos < length bytes
      → Live bytes 17 pos
      → Returns bytes pos (ok (process_usb_info bytes pos))
  unfolding process_usb_info is_finite_state finite_states contains
  usb-Returns pos h l = elim (Bool-cases (pos == sub64 (length bytes) 1)) [
    | inl last ↦ rw (last, process_usb_info) (inr (After-last bytes 17 pos refl h (ground arith)))
    | inr more ↦
        let result : StateProcResult =
          usb_info_loop (drop pos bytes) pos type_section (proc_result 18 pos false) in
        let read : UsbResult type_section (drop pos bytes) pos result =
          usb_info_loop-UsbResult (drop pos bytes) pos type_section (proc_result 18 pos false) refl
            (inl (omega (arith, length-drop pos bytes))) in
        rw (more, process_usb_info)
          (usb-After pos result.new_state result.last_position result.format_error h l read)
  ]

  special-cases : (s : ℕ) → is_special_state s ≡ true → (s ≡ 17) ⊎ (s ≡ 21) ⊎ (s ≡ 50) ⊎ (s ≡ 95)
  unfolding is_special_state special_states contains
  special-cases s h = ground arith

  plain-ne : (s : ℕ) → is_special_state s ≡ false → s ≢ 21
  unfolding is_special_state special_states contains
  plain-ne s h e = ground arith

  only-Live : (s pos : ℕ) → pos < length bytes → s ≢ 21 → Inv bytes s pos → Live bytes s pos
  only-Live s pos h n (inl l) = l
  only-Live s pos h n (inr (inl e)) = absurd (omega arith)
  only-Live s pos h n (inr (inr (e, _))) = absurd (n e)

  process_special_state-Returns :
      (s pos : ℕ)
      → pos < length bytes
      → is_special_state s ≡ true
      → Inv bytes s pos
      → Returns bytes pos (process_special_state s bytes pos)
  unfolding process_special_state
  process_special_state-Returns s pos h p i = elim (special-cases s p) [
    | inl e ↦ rw e (usb-Returns pos h (only-Live 17 pos h (omega arith) (rw e at i)))
    | inr (inl e) ↦ rw e (tr-Returns bytes pos small h (rw e at i))
    | inr (inr (inl e)) ↦
        rw e (asyn-Returns bytes pos small h v (only-Live 50 pos h (omega arith) (rw e at i)))
    | inr (inr (inr e)) ↦
        rw e (inr (pm-After bytes pos small h (only-Live 95 pos h (omega arith) (rw e at i))))
  ]

  -- The rounds that may still come: two for each byte left, and one in a special state.
  abbrev pub measure : ℕ → ℕ → ℕ
  measure s pos = 2 * (length bytes - pos) + (if is_special_state s then 1 else 0)

  abbrev pub Progress : ℕ → ℕ → Result Outcome → Type 0
  Progress s pos (err e) = ⊥
  Progress s pos (ok (returned r)) = Sound bytes r
  Progress s pos (ok (continued t next r)) =
      Inv bytes t next × (r.result_type ≡ parse_not_complete) × (measure t next < measure s pos)

  module _ (stray : List ℕ) (clean : contains stray 97 ≡ false) where
    enter_state-Progress :
        (s pos t next : ℕ) (r : ParseResult)
        → r.last_position + 1 ≡ next
        → r.last_position < length bytes
        → r.result_type ≡ parse_not_complete
        → Inv bytes t next
        → (is_finite_state t ≡ true → Live bytes t next)
        → measure t next < measure s pos
        → Progress s pos (enter_state (states_info stray) t next r)
    unfolding enter_state
    enter_state-Progress s pos t next r e b n i f m = elim (Bool-cases (is_finite_state t)) [
      | inl final ↦
          let (info, g, k, form) = finite_state-Typed stray t clean final in
          rw (final, g, enter_state) (λ _. (b, (k, shape t, form, rw e (f final).1)))
      | inr plain ↦ rw (plain, enter_state) (i, n, m)
    ]

    special_end-Progress :
        (s pos t last : ℕ) (bad : Bool) (r : ParseResult)
        → is_special_state s ≡ true
        → pos < length bytes
        → r.result_type ≡ parse_not_complete
        → (bad ≡ true) ⊎ After bytes pos (proc_result t last bad)
        → Progress s pos (special_end (states_info stray) r (proc_result t last bad))
    unfolding special_end
    special_end-Progress s pos t last true r p h n a = λ e. cc
    special_end-Progress s pos t last false r p h n (inl e) = cc
    special_end-Progress s pos t last false r p h n (inr a) =
        let b : last < length bytes = a.bound in
        let w : wrap32 (last + 1) ≡ last + 1 = omega arith in
        let m : measure t (last + 1) < measure s pos = ground (arith, a.progress) in
        rw w (
          enter_state-Progress s pos t (last + 1) (record r { last_position = last }) refl b n
            a.keeps a.final_live m)

    special_step-Progress :
        (s pos : ℕ) (r : ParseResult) (res : Result StateProcResult)
        → is_special_state s ≡ true
        → pos < length bytes
        → r.result_type ≡ parse_not_complete
        → Returns bytes pos res
        → Progress s pos (res >>= special_end (states_info stray) r)
    special_step-Progress s pos r (ok proc) p h n a =
        special_end-Progress s pos proc.new_state proc.last_position proc.format_error r p h n a
    special_step-Progress s pos r (err e) p h n a = elim a [ ]

    transition_step-Progress :
        (s pos : ℕ) (r : ParseResult)
        → r.last_position ≡ pos
        → pos < length bytes
        → r.result_type ≡ parse_not_complete
        → is_special_state s ≡ false
        → Live bytes s pos
        → Progress s pos (transition_step (states_info stray) bytes s pos r)
    unfolding transition_step
    transition_step-Progress s pos r at_pos h n p l =
        elim (Bool-cases (do_transition s (get_or bytes pos 0) == no_transition)) [
          | inl stuck ↦ rw (stuck, transition_step) (λ e. cc)
          | inr moves ↦
              let (i, g, f) =
                do_transition-shape s (get_or bytes pos 0) ((==_false_iff _ _).0 moves) in
              let live : Live bytes (do_transition s (get_or bytes pos 0)) (pos + 1) =
                Live-concat bytes s _ pos 1 i g l (omega arith) (rw (take_one pos bytes 0 h) f) in
              let w : wrap32 (pos + 1) ≡ pos + 1 = omega arith in
              rw (moves, transition_step, w)
                (enter_state-Progress s pos _ (pos + 1) r (omega arith) (omega arith) n (inl live)
                  (λ _. live) (ground arith))
        ]

    pub parse_step-Progress :
        (s pos : ℕ) (r : ParseResult)
        → pos < length bytes
        → r.result_type ≡ parse_not_complete
        → Inv bytes s pos
        → Progress s pos (parse_step (states_info stray) bytes s pos r)
    unfolding parse_step special_step
    parse_step-Progress s pos r h n i = elim (Bool-cases (is_special_state s)) [
      | inl p ↦
          rw (p, parse_step)
            (special_step-Progress s pos _ (process_special_state s bytes pos) p h n
              (process_special_state-Returns s pos h p i))
      | inr q ↦
          rw (q, parse_step)
            (transition_step-Progress s pos _ refl h n q (only-Live s pos h (plain-ne s q) i))
    ]
