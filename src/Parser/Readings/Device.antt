-- ===== src/Parser/Readings/Device.antt =====
-- `getParsedDeviceInfo` of src/CDCMessageParser.cpp on the messages of its type.
use clibcdc.Base.{
  ==_false_iff, ==_self, All, [], ap, append_assoc, arith, drop, drop-append, drop-drop, false,
  length, length-append, ltb, lt→ltb, ok, refl, sub64, subst, suc, sym, take-append, true, wrap32,
  zero, ℕ, ◌%◌, ◌++◌, ◌+◌, ◌<◌, ◌==◌, ◌^◌, ◌∙◌, ◌∷◌, ◌≡◌, ◌≢◌,
}
use clibcdc.Parser.Extract.{
  device_field, find_byte, find_from, get_parsed_device_info, new_array, substr,
}
use clibcdc.Parser.Grammar.{Frame, IsIdByte, IsTypeByte, IsVersionByte, grammar, usb_text}
use clibcdc.Parser.Readings.{form-item, reply_text}
use clibcdc.Parser.Special.{at}
use clibcdc.Types.{DeviceInfo, Ustring, msg_usb_info}

-- The first occurrence stands behind the bytes that differ.
find_from-append :
    (xs ys : Ustring) (i c : ℕ)
    → All (λ x. x ≢ c) xs
    → find_from (xs ++ (c ∷ ys)) i c ≡ i + length xs
unfolding find_from
find_from-append [] ys i c a = rw (==_self c) (omega arith)
find_from-append (x ∷ xs) ys i c (n, a) =
    let other : (x == c) ≡ false = (==_false_iff x c).1 n in
    let rest = find_from-append xs ys (i + 1) c a in rw other (omega (arith, rest))

-- A field that ends with `c`, in a string that goes on after it: where it is found, and what is read.
find_byte-field :
    (m xs ys : Ustring) (pos c : ℕ)
    → drop pos m ≡ xs ++ (c ∷ ys)
    → All (λ x. x ≢ c) xs
    → find_byte m c pos ≡ pos + length xs
unfolding find_byte
find_byte-field m xs ys pos c h a = ap (λ r. find_from r pos c) h ∙ find_from-append xs ys pos c a

drop-field :
    (m xs ys : Ustring) (pos c n : ℕ)
    → drop pos m ≡ xs ++ (c ∷ ys)
    → n ≡ pos + length xs + 1
    → drop n m ≡ ys
drop-field m xs ys pos c n h e =
    sym (drop-drop pos (length xs + 1) n m (omega arith))
    ∙ ap (drop (length xs + 1)) h
    ∙ sym (drop-drop (length xs) 1 (length xs + 1) (xs ++ (c ∷ ys)) refl)
    ∙ ap (drop 1) (drop-append (length xs) xs (c ∷ ys) refl)

device_field-read :
    (m xs ys : Ustring) (pos stop : ℕ)
    → drop pos m ≡ xs ++ ys
    → stop ≡ pos + length xs
    → stop < length m
    → length m < 2 ^ 31
    → device_field m pos stop ≡ ok xs
unfolding device_field substr new_array
device_field-read m xs ys pos stop h e f small =
    let inside : ltb (length m) pos ≡ false = ground arith in
    let count : sub64 stop pos ≡ length xs = omega arith in
    let room : ltb ((length xs + 1) % 2 ^ 64) (2 ^ 63) ≡ true = lt→ltb _ _ (omega arith) in
    rw (inside, count, room, h, take-append (length xs) xs ys refl) refl

IsType-other : (xs : Ustring) → All IsTypeByte xs → All (λ x. x ≢ b'#') xs
IsType-other xs a = a

IsVersion-other : (xs : Ustring) → All IsVersionByte xs → All (λ x. x ≢ b'#') xs
IsVersion-other [] a = tt
IsVersion-other (x ∷ xs) (p, a) = (λ e. omega (arith, p, e), IsVersion-other xs a)

IsId-other : (xs : Ustring) → All IsIdByte xs → All (λ x. x ≢ 0x0D) xs
IsId-other [] a = tt
IsId-other (x ∷ xs) (p, a) = (λ e. omega (arith, p, e), IsId-other xs a)

-- A message with the three parts of the device information.
abbrev pub device_message : Ustring → Ustring → Ustring → Ustring
device_message t v i = b'<' ∷ b'I' ∷ b':' ∷ (t ++ (b'#' ∷ (v ++ (b'#' ∷ (i ++ 0x0D ∷ [])))))

abbrev pub device_info : Ustring → Ustring → Ustring → DeviceInfo
device_info t v i = record {
  type = t;
  type_len = length t;
  firmware_version = v;
  fw_len = length v;
  serial_number = i;
  sn_len = length i;
}

device_message-read :
    (t v i : Ustring)
    → All IsTypeByte t
    → All IsVersionByte v
    → All IsIdByte i
    → length (device_message t v i) < 2 ^ 31
    → get_parsed_device_info (device_message t v i) ≡ ok (device_info t v i)
unfolding get_parsed_device_info
device_message-read t v i at av ai small =
    let m : Ustring = device_message t v i in
    let id_end : length (i ++ 0x0D ∷ []) ≡ length i + 1 = length-append i (0x0D ∷ []) in
    let v_end = length-append v (b'#' ∷ (i ++ 0x0D ∷ [])) in
    let t_end = length-append t (b'#' ∷ (v ++ (b'#' ∷ (i ++ 0x0D ∷ [])))) in
    let size : length m ≡ 6 + (length t + length v + length i) =
      omega (arith, id_end, v_end, t_end) in
    let at_v : drop (4 + length t) m ≡ v ++ (b'#' ∷ (i ++ 0x0D ∷ [])) =
      drop-field m t _ 3 b'#' (4 + length t) refl (omega arith) in
    let at_i : drop (5 + length t + length v) m ≡ i ++ 0x0D ∷ [] =
      drop-field m v _ (4 + length t) b'#' (5 + length t + length v) at_v (omega arith) in
    let first = find_byte-field m t _ 3 b'#' refl (IsType-other t at) in
    let second = find_byte-field m v _ (4 + length t) b'#' at_v (IsVersion-other v av) in
    let third = find_byte-field m i _ (5 + length t + length v) 0x0D at_i (IsId-other i ai) in
    let after_t : (3 + length t + 1) % 2 ^ 64 ≡ 4 + length t = omega (arith, size) in
    let after_v : (4 + length t + length v + 1) % 2 ^ 64 ≡ 5 + length t + length v =
      omega (arith, size) in
    let t_len : wrap32 (sub64 (3 + length t) 3) ≡ length t = omega (arith, size) in
    let v_len : wrap32 (sub64 (sub64 (4 + length t + length v) (3 + length t)) 1) ≡ length v =
      omega (arith, size) in
    let i_len : wrap32
          (sub64 (sub64 (5 + length t + length v + length i) (4 + length t + length v)) 1)
        ≡ length i =
      omega (arith, size) in
    rw
      (
        first,
        after_t,
        second,
        after_v,
        third,
        device_field-read m t _ 3 (3 + length t) refl refl (omega (arith, size)) small,
        device_field-read m v _ (4 + length t) (4 + length t + length v) at_v refl
            (omega (arith, size)) small,
        device_field-read m i _ (5 + length t + length v) (5 + length t + length v + length i) at_i
            refl (omega (arith, size)) small,
        t_len,
        v_len,
        i_len,
      )
      refl

-- The information is read from a message part by part: the device type, the version and the
-- serial number, with their lengths.
pub get_parsed_device_info-Frame :
    (m : Ustring)
    → length m < 2 ^ 31
    → Frame msg_usb_info m
    → (t : Ustring) × (v : Ustring) × (i : Ustring) × (m ≡ device_message t v i)
      × (get_parsed_device_info m ≡ ok (device_info t v i))
unfolding grammar
get_parsed_device_info-Frame m small (zero, is, e, f) =
    let (b, h, (t, v, i, g, at, av, ai)) = form-item (b'<' ∷ b'I' ∷ b':' ∷ []) usb_text is m e f in
    let whole : m ≡ device_message t v i =
      h
      ∙ ap (reply_text (b'<' ∷ b'I' ∷ b':' ∷ [])) g
      ∙ ap (λ r. (b'<' ∷ b'I' ∷ b':' ∷ []) ++ r)
          (append_assoc t (b'#' ∷ (v ++ (b'#' ∷ i))) (0x0D ∷ [])
            ∙ ap (λ r. t ++ (b'#' ∷ r)) (append_assoc v (b'#' ∷ i) (0x0D ∷ []))) in
    (
      t,
      v,
      i,
      whole,
      ap get_parsed_device_info whole
          ∙ device_message-read t v i at av ai (subst (λ m. length m < 2 ^ 31) whole small),
    )
get_parsed_device_info-Frame m small (suc k, is, e, f) = cc
