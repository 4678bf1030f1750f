-- ===== src/Parser/Sound/Usb.antt =====
-- The loop of `processUSBInfo` in src/CDCMessageParser.cpp: with no format error it has either used
-- the data up, or read the rest of a device information and stopped at its carriage return.
use clibcdc.Base.{
  ==_false_iff, ==_iff, Bool, Bool-cases, Option-cases, [], ap, arith, inl, inr, length, refl, some,
  true, ℕ, ◌&&◌, ◌++◌, ◌+◌, ◌<◌, ◌==◌, ◌∷◌, ◌≡◌, ◌≢◌, ◌⊎◌,
}
use clibcdc.Parser.Grammar.{IsIdByte, IsVersionByte, UsbText}
use clibcdc.Parser.Special.{
  Section, StateProcResult, check_section, check_usb_device_id, check_usb_device_version,
  id_section, is_id, next_section, proc_result, type_section, usb_info_loop, version_section,
}
use clibcdc.Types.{Ustring}

-- `result` after the loop on `cs` from position `i` in section `active`.
abbrev pub UsbResult : Section → Ustring → ℕ → StateProcResult → Type 0
UsbResult active cs i result =
    (result.format_error ≡ true)
    ⊎ (result.new_state ≡ 18) × (result.last_position + 1 ≡ i + length cs)
    ⊎ (result.new_state ≡ 19)
      × (b : Ustring) × (r : Ustring) × (cs ≡ b ++ (0x0D ∷ r))
      × UsbText active b
      × (result.last_position ≡ i + length b)

check_version-IsVersionByte : (c : ℕ) → check_section version_section c ≡ true → IsVersionByte c
unfolding check_section check_usb_device_version
check_version-IsVersionByte c h = ground arith

check_id-IsIdByte : (c : ℕ) → check_section id_section c ≡ true → IsIdByte c
unfolding check_section check_usb_device_id
check_id-IsIdByte c h = ground arith

-- A byte that its section allows, in front of the rest.
UsbText-cons :
    (active : Section) (c : ℕ) (b : Ustring)
    → c ≢ b'#'
    → check_section active c ≡ true
    → UsbText active b
    → UsbText active (c ∷ b)
UsbText-cons type_section c b n h (t, v, i, e, ht, hv, hi) =
    (c ∷ t, v, i, ap (◌∷◌ c) e, (n, ht), hv, hi)
UsbText-cons version_section c b n h (v, i, e, hv, hi) =
    (c ∷ v, i, ap (◌∷◌ c) e, (check_version-IsVersionByte c h, hv), hi)
UsbText-cons id_section c b n h t = (check_id-IsIdByte c h, t)

-- A `#`, in front of the next section.
UsbText-hash :
    (active : Section) (s : Section) (b : Ustring)
    → next_section active ≡ some s
    → UsbText s b
    → UsbText active (b'#' ∷ b)
unfolding next_section
UsbText-hash type_section version_section b h (v, i, e, hv, hi) =
    ([], v, i, ap (◌∷◌ b'#') e, tt, hv, hi)
UsbText-hash version_section id_section b h t = ([], b, refl, tt, t)
UsbText-hash type_section type_section b h t = cc
UsbText-hash type_section id_section b h t = cc
UsbText-hash version_section type_section b h t = cc
UsbText-hash version_section version_section b h t = cc
UsbText-hash id_section s b h t = cc

-- One byte more at the front: the result of the loop on the rest, read at the position before.
UsbResult-cons :
    (active s : Section) (c : ℕ) (cs : Ustring) (i : ℕ) (result : StateProcResult)
    → ((b : Ustring) → UsbText s b → UsbText active (c ∷ b))
    → UsbResult s cs (i + 1) result
    → UsbResult active (c ∷ cs) i result
UsbResult-cons active s c cs i result f (inl e) = inl e
UsbResult-cons active s c cs i result f (inr (inl (n, e))) = inr (inl (n, omega arith))
UsbResult-cons active s c cs i result f (inr (inr (n, b, r, e, t, l))) =
    inr (inr (n, c ∷ b, r, ap (◌∷◌ c) e, f b t, omega arith))

is_id-eq : (active : Section) → is_id active ≡ true → active ≡ id_section
unfolding is_id
is_id-eq id_section h = refl
is_id-eq type_section h = cc
is_id-eq version_section h = cc

UsbResult-cr :
    (active : Section) (c : ℕ) (cs : Ustring) (i : ℕ) (e : Bool)
    → (c == 0x0D && is_id active) ≡ true
    → UsbResult active (c ∷ cs) i (proc_result 19 i e)
UsbResult-cr active c cs i e h =
    let a : active ≡ id_section = is_id-eq active (ground arith) in
    let k : c ≡ 0x0D = ground arith in rw (a, k) (inr (inr (refl, [], cs, refl, tt, omega arith)))

pub usb_info_loop-UsbResult :
    (cs : Ustring) (i : ℕ) (active : Section) (result : StateProcResult)
    → result.new_state ≡ 18
    → (0 < length cs) ⊎ (result.last_position + 1 ≡ i)
    → UsbResult active cs i (usb_info_loop cs i active result)
unfolding usb_info_loop
usb_info_loop-UsbResult [] i active result n h = inr (inl (n, omega arith))
usb_info_loop-UsbResult (c ∷ cs) i active result n h =
    elim (Bool-cases (c == 0x0D && is_id active)) [
      | inl stop ↦ rw (stop, usb_info_loop) (UsbResult-cr active c cs i result.format_error stop)
      | inr more ↦ elim (Bool-cases (c == b'#')) [
        | inl hash ↦ elim (Option-cases (next_section active)) [
          | inl e ↦ rw (more, hash, e, usb_info_loop) (inl refl)
          | inr (s, e) ↦
              rw (more, hash, e, usb_info_loop)
                (UsbResult-cons active s c cs i _
                  (λ b t. rw ((==_iff c b'#').0 hash) (UsbText-hash active s b e t))
                  (usb_info_loop-UsbResult cs (i + 1) s
                    (proc_result result.new_state i result.format_error) n (inr refl)))
        ]
        | inr plain ↦ elim (Bool-cases (check_section active c)) [
          | inr bad ↦ rw (more, plain, bad, usb_info_loop) (inl refl)
          | inl good ↦
              rw (more, plain, good, usb_info_loop)
                (UsbResult-cons active active c cs i _
                  (λ b t. UsbText-cons active c b ((==_false_iff c b'#').0 plain) good t)
                  (usb_info_loop-UsbResult cs (i + 1) active
                    (proc_result result.new_state i result.format_error) n (inr refl)))
        ]
      ]
    ]
