-- ===== src/Parser/Readings/Module.antt =====
-- `getParsedModuleInfo` of src/CDCMessageParser.cpp on the messages of its type.
use clibcdc.Base.{
  Bool, [], ap, arith, drop, drop-append, drop-drop, false, get_elem?-get_or, get_or, inl, inr,
  length, length-append, length-drop, length-take, not, ok, or_fail, out_of_range, refl, replicate,
  some, suc, sym, take, take-append-drop, take_one, true, zero, ℕ, ◌&&◌, ◌++◌, ◌+◌, ◌<◌, ◌==◌, ◌∙◌,
  ◌∷◌, ◌≡◌, ◌≤◌, ◌⊎◌,
}
use clibcdc.Parser.Extract.{get_parsed_module_info, read_at, read_ibk}
use clibcdc.Parser.Grammar.{Frame, grammar, idf}
use clibcdc.Parser.Readings.{form-item}
use clibcdc.Parser.Special.{at, extended_idf_size, standard_idf_size}
use clibcdc.Types.{ModuleInfo, Ustring, msg_tr_info}

-- The bytes from a position on, as the next field and what follows it.
slice : (n k m : ℕ) (xs : Ustring) → m ≡ n + k → drop n xs ≡ take k (drop n xs) ++ drop m xs
slice n k m xs h =
    sym (take-append-drop k (drop n xs)) ∙ ap (λ r. take k (drop n xs) ++ r) (drop-drop n k m xs h)

length-field : (n k : ℕ) (xs : Ustring) → n + k ≤ length xs → length (take k (drop n xs)) ≡ k
length-field n k xs h = omega (arith, length-take k (drop n xs), length-drop n xs)

slice_one : (n : ℕ) (xs : Ustring) → n < length xs → drop n xs ≡ get_or xs n 0 ∷ drop (n + 1) xs
slice_one n xs h = slice n 1 (n + 1) xs refl ∙ ap (λ t. t ++ drop (n + 1) xs) (take_one n xs 0 h)

at-inside : (xs : Ustring) (n : ℕ) → n < length xs → at xs n ≡ ok (get_or xs n 0)
at-inside xs n h = ap (λ o. or_fail o out_of_range) (get_elem?-get_or xs n 0 h)

read_at-take :
    (n pos : ℕ) (xs : Ustring) → pos + n ≤ length xs → read_at xs pos n ≡ ok (take n (drop pos xs))
unfolding read_at
read_at-take zero pos xs h = refl
read_at-take (suc n) pos xs h =
    rw
      (
        at-inside xs pos (omega arith),
        read_at-take n (pos + 1) xs (omega arith),
        slice_one pos xs (omega arith),
      )
      refl

abbrev pub tr_header : Ustring
tr_header = b'<' ∷ b'I' ∷ b'T' ∷ b':' ∷ []

-- A message with the fields of the module information, in their order; `key` are the bytes of the
-- bonding key, if it has them.
abbrev pub module_message : ModuleInfo → Ustring → Ustring
module_message i key =
    tr_header
    ++ (i.serial_number
        ++ (i.os_version ∷ i.tr_type ∷ (i.os_build ++ (i.reserved ++ (key ++ 0x0D ∷ [])))))

abbrev pub HasKey : ModuleInfo → Ustring → Type 0
HasKey i key = (key ≡ i.ibk) ⊎ ((key ≡ []) × (i.ibk ≡ replicate 16 0))

fields :
    (m : Ustring)
    → 20 ≤ length m
    → drop 4 m
      ≡ take 4 (drop 4 m)
        ++ (get_or m 8 0 ∷ get_or m 9 0 ∷ (take 2 (drop 10 m) ++ (take 8 (drop 12 m) ++ drop 20 m)))
fields m h =
    slice 4 4 8 m refl
    ∙ ap (λ r. take 4 (drop 4 m) ++ r)
        (slice_one 8 m (omega arith)
          ∙ ap (λ r. get_or m 8 0 ∷ r)
              (slice_one 9 m (omega arith)
                ∙ ap (λ r. get_or m 9 0 ∷ r)
                    (slice 10 2 12 m refl
                      ∙ ap (λ r. take 2 (drop 10 m) ++ r) (slice 12 8 20 m refl))))

-- The module information of a message, with its bonding key.
abbrev module_info : Ustring → Ustring → ModuleInfo
module_info m key = record {
  serial_number = take 4 (drop 4 m);
  os_version = get_or m 8 0;
  tr_type = get_or m 9 0;
  os_build = take 2 (drop 10 m);
  reserved = take 8 (drop 12 m);
  ibk = key;
}

module_lem :
    (m key : Ustring) (b : Bool)
    → 20 ≤ length m
    → (length m == extended_idf_size) ≡ b
    → (not (length m == standard_idf_size) && not (length m == extended_idf_size)) ≡ false
    → read_ibk m b ≡ ok key
    → get_parsed_module_info m ≡ ok (some (module_info m key))
unfolding get_parsed_module_info
module_lem m key b h e g k =
    rw
      (
        g,
        read_at-take 4 4 m (omega arith),
        at-inside m 8 (omega arith),
        at-inside m 9 (omega arith),
        read_at-take 2 10 m (omega arith),
        read_at-take 8 12 m (omega arith),
        e,
        k,
      )
      refl

message_lem :
    (m tail : Ustring)
    → 20 ≤ length m
    → m ≡ tr_header ++ drop 4 m
    → drop 20 m ≡ tail
    → m
      ≡ tr_header
        ++ (take 4 (drop 4 m)
            ++ (get_or m 8 0 ∷ get_or m 9 0 ∷ (take 2 (drop 10 m) ++ (take 8 (drop 12 m) ++ tail))))
message_lem m tail h head end =
    head
    ∙ ap (λ r. tr_header ++ r)
        (fields m h
          ∙ ap
              (λ t.
                take 4 (drop 4 m)
                ++ (get_or m 8 0
                    ∷ get_or m 9 0
                    ∷ (take 2 (drop 10 m) ++ (take 8 (drop 12 m) ++ t))))
              end)

-- The information is read from a message of either size, field by field and in order; without a
-- bonding key in the message, that of the result is zero.
pub get_parsed_module_info-Frame :
    (m : Ustring)
    → Frame msg_tr_info m
    → (i : ModuleInfo) × (key : Ustring) × (get_parsed_module_info m ≡ ok (some i))
      × (m ≡ module_message i key)
      × HasKey i key
      × (length i.serial_number ≡ 4)
      × (length i.os_build ≡ 2)
      × (length i.reserved ≡ 8)
      × (length i.ibk ≡ 16)
unfolding grammar read_ibk
get_parsed_module_info-Frame m (zero, is, e, f) =
    let (b, h, fits) = form-item tr_header idf is m e f in
    let size : length m ≡ 5 + length b = omega (arith, ap length h, length-append b (0x0D ∷ [])) in
    let head : m ≡ tr_header ++ drop 4 m = h ∙ ap (λ r. tr_header ++ r) (sym (ap (drop 4) h)) in
    elim fits [
      | inl k ↦
          let end : drop 20 m ≡ 0x0D ∷ [] = ap (drop 20) h ∙ drop-append 16 b (0x0D ∷ []) (sym k) in
          (
            module_info m (replicate 16 0),
            [],
            module_lem m (replicate 16 0) false (omega (arith, size, k)) (ground (arith, size, k))
                (ground (arith, size, k)) refl,
            message_lem m (0x0D ∷ []) (omega (arith, size, k)) head end,
            inr (refl, refl),
            length-field 4 4 m (omega (arith, size, k)),
            length-field 10 2 m (omega (arith, size, k)),
            length-field 12 8 m (omega (arith, size, k)),
            refl,
          )
      | inr k ↦
          let end : drop 36 m ≡ 0x0D ∷ [] = ap (drop 36) h ∙ drop-append 32 b (0x0D ∷ []) (sym k) in
          (
            module_info m (take 16 (drop 20 m)),
            take 16 (drop 20 m),
            module_lem m (take 16 (drop 20 m)) true (omega (arith, size, k))
                (ground (arith, size, k)) (ground (arith, size, k))
                (read_at-take 16 20 m (omega (arith, size, k))),
            message_lem m (take 16 (drop 20 m) ++ 0x0D ∷ []) (omega (arith, size, k)) head
                (slice 20 16 36 m refl ∙ ap (λ t. take 16 (drop 20 m) ++ t) end),
            inl refl,
            length-field 4 4 m (omega (arith, size, k)),
            length-field 10 2 m (omega (arith, size, k)),
            length-field 12 8 m (omega (arith, size, k)),
            length-field 20 16 m (omega (arith, size, k)),
          )
    ]
get_parsed_module_info-Frame m (suc k, is, e, f) = cc
