-- ===== src/Hex/Refusal.antt =====
-- The lines that `iqrfPgmPrepareMemBlock` of examples/PgmHex/PgmHex.cpp refuses, and the end of its
-- file.
use clibcdc.Base.{
  ==_false_iff, ==_iff, Bool, Bool-cases, Result, [], arith, err, false, get_or, if◌then◌else◌, inl,
  inr, ltb, ltb→lt, not, ok, refl, set, subst, suc, sym, true, zero, ℕ, ◌%◌, ◌&&◌, ◌*◌, ◌+◌, ◌/◌,
  ◌<◌, ◌==◌, ◌>>=◌, ◌^◌, ◌||◌, ◌∙◌, ◌∷◌, ◌≡◌, ◌≢◌, ◌⊎◌,
}
use clibcdc.Hex.{
  convert_to_num, end_of_file, find_line_start, is_line_end, line_buffer_size, read_byte_from_file,
  read_hex_file_line, read_pairs, to_lower,
}
use clibcdc.Hex.Block.{
  area_line, block_ready, clip, copy_flash, copy_serial, eeprom_line, flash_dest, flash_line,
  locate, process_line, serial_line, start_serial, within,
}
use clibcdc.Hex.Image.{
  HexState, Round, again, copy_line, eeeprom_block_ready, eeprom_block_ready, eeprom_max,
  eeprom_min, flash_block_ready, gave, licenced_mem_max_adr, licenced_mem_min_adr, load,
  main_mem_max_adr, main_mem_min_adr, memory_block_size, move_overflowed_data, pgm_error,
  pgm_success, serial_eeprom_max_adr, serial_eeprom_min_adr, set_word, wrap_dest,
}
use clibcdc.Types.{Ustring}

-- A file with no further line: no colon before its end or a NUL byte.
pub data HasNoLine : Ustring → Type 0 where
  at_end : HasNoLine []
  at_nul : {cs : Ustring} → HasNoLine (0 ∷ cs)
  behind : {c : ℕ} {cs : Ustring} → c ≢ b':' → HasNoLine cs → HasNoLine (c ∷ cs)

-- Data of `count` bytes for the word address `a` that the image or the area cannot take.
abbrev pub IsOutsize : ℕ → ℕ → Type 0
IsOutsize a count =
    ((within main_mem_min_adr main_mem_max_adr a ≡ true)
      × (68 < flash_dest a + clip main_mem_max_adr a count))
    ⊎ (((within licenced_mem_min_adr licenced_mem_max_adr a ≡ true)
          × (68 < flash_dest a + clip licenced_mem_max_adr a count))
        ⊎ ((within eeprom_min eeprom_max a ≡ true)
            × ((eeprom_max < a + count / 2) ⊎ (32 < count / 2))))

-- The word address of a line of data behind an upper half of an address.
abbrev pub word_address : ℕ → Ustring → ℕ
word_address hi line = (hi + get_or line 1 0 * 256 + get_or line 2 0) % 2 ^ 32 / 2 % 2 ^ 16

-- A data record that cannot be taken.
abbrev pub IsRefused : ℕ → Ustring → Type 0
IsRefused hi line = (get_or line 3 0 ≡ 0) × IsOutsize (word_address hi line) (get_or line 0 0)

find_line_start-HasNoLine : (file : Ustring) → (find_line_start file).0 ≡ 0 → HasNoLine file
unfolding find_line_start
find_line_start-HasNoLine [] h = at_end
find_line_start-HasNoLine (c ∷ cs) h = elim (Bool-cases (c == 0)) [
  | inl e ↦ rw ((==_iff c 0).0 e) at_nul
  | inr e ↦ elim (Bool-cases (c == b':')) [
    | inl f ↦ let sign : c ≡ 0 = rw (e, f) at h in absurd ((==_false_iff c 0).0 e sign)
    | inr f ↦ behind ((==_false_iff c b':').0 f) (find_line_start-HasNoLine cs (rw (e, f) at h))
  ]
]

read_pairs-other :
    (room ptr crc : ℕ) (file buffer : Ustring)
    → (read_pairs room ptr crc file buffer).line_result ≢ end_of_file
unfolding read_pairs
read_pairs-other zero ptr crc file buffer = λ e. cc
read_pairs-other (suc room) ptr crc file buffer =
    let (hi, file1) = read_byte_from_file file in
    let (lo, file2) = read_byte_from_file file1 in
    let data_byte = convert_to_num (to_lower hi) (to_lower lo) in
    elim (Bool-cases (is_line_end (to_lower hi))) [
      | inl e ↦ rw (read_pairs, e) (λ h. ground arith)
      | inr e ↦
          rw (read_pairs, e)
            (read_pairs-other room (ptr + 1) ((crc + data_byte) % 256) file2
              (set buffer ptr data_byte))
    ]

pub read_hex_file_line-HasNoLine :
    (file buffer : Ustring)
    → (read_hex_file_line file buffer).line_result ≡ end_of_file
    → HasNoLine file
unfolding read_hex_file_line
read_hex_file_line-HasNoLine file buffer h = elim (Bool-cases ((find_line_start file).0 == 0)) [
  | inl e ↦ find_line_start-HasNoLine file ((==_iff _ _).0 e)
  | inr e ↦
      absurd (read_pairs-other line_buffer_size 0 0 (find_line_start file).1 buffer (rw e at h))
]

load-get_or : (bytes : Ustring) (i c : ℕ) → load bytes i ≡ ok c → get_or bytes i 0 ≡ c
load-get_or [] zero c h = cc
load-get_or [] (suc i) c h = cc
load-get_or (x ∷ xs) zero c h = cc
load-get_or (x ∷ xs) (suc i) c h = load-get_or xs i c h

-- A round that gives an error has a reason `P`, and one that processes a line is no success.
abbrev pub Refuses : Type 0 → Result Round → Type 0
Refuses P (ok (gave pgm_success t)) = ⊥
Refuses P (ok (gave pgm_error t)) = P
Refuses P (ok _) = Unit
Refuses P (err e) = Unit

Refuses-if :
    (P : Type 0) (b : Bool) (r r' : Result Round)
    → (b ≡ true → Refuses P r)
    → (b ≡ false → Refuses P r')
    → Refuses P (if b then r else r')
Refuses-if P true r r' f g = f refl
Refuses-if P false r r' f g = g refl

Refuses-map : (P Q : Type 0) (r : Result Round) → (P → Q) → Refuses P r → Refuses Q r
Refuses-map P Q (ok (gave pgm_success t)) f h = h
Refuses-map P Q (ok (gave pgm_error t)) f h = f h
Refuses-map P Q (ok (gave flash_block_ready t)) f h = tt
Refuses-map P Q (ok (gave eeprom_block_ready t)) f h = tt
Refuses-map P Q (ok (gave eeeprom_block_ready t)) f h = tt
Refuses-map P Q (ok (again t)) f h = tt
Refuses-map P Q (err e) f h = tt

Refuses-bind :
    {A : Type 0} (P : Type 0) (r : Result A) (f : A → Result Round)
    → ((a : A) → r ≡ ok a → Refuses P (f a))
    → Refuses P (r >>= f)
Refuses-bind P (ok a) f h = h a refl
Refuses-bind P (err e) f h = tt

pub block_ready-Refuses :
    (P : Type 0) (n : ℕ) (t : HexState) → Refuses P (ok (gave (block_ready n) t))
unfolding block_ready
block_ready-Refuses P n t = elim (Bool-cases (ltb n 80)) [ inl e ↦ rw e tt | inr e ↦ rw e tt ]

Refuses-gave :
    (P : Type 0) (b : Bool) (t : HexState)
    → Refuses P (ok (if b then gave eeeprom_block_ready t else again t))
Refuses-gave P true t = tt
Refuses-gave P false t = tt

serial_line-Refuses : (P : Type 0) (s : HexState) → Refuses P (serial_line s)
unfolding serial_line copy_serial
serial_line-Refuses P s =
    let s' = if s.memory_block_number == 0 then start_serial s else s in
    Refuses-bind P (load s.line_buffer 0) _ (λ count _.
      Refuses-if P (s'.memory_block_number == s.address / 32) _ _
        (λ _.
          Refuses-bind P
            (copy_line 2 wrap_dest (count / 2) s'.line_buffer 4 (s.address % 32 + 36)
              s'.memory_block)
            _
            (λ mem _.
              Refuses-gave P
                (ltb memory_block_size (s.address % 32 + 36 + count / 2) || s'.data_overflow) _))
        (λ _. block_ready-Refuses P s'.memory_block_number s'))

flash_line-Refuses :
    (P : Type 0) (s : HexState) (max_adr : ℕ)
    → (68 < flash_dest s.address + clip max_adr s.address (get_or s.line_buffer 0 0) → P)
    → Refuses P (flash_line s max_adr)
unfolding flash_line copy_flash
flash_line-Refuses P s max_adr k =
    let first = s.address / 32 * 32 in
    Refuses-bind P (load s.line_buffer 0) _ (λ count e.
      let same : get_or s.line_buffer 0 0 ≡ count = load-get_or s.line_buffer 0 count e in
      Refuses-if P (ltb memory_block_size (flash_dest s.address + clip max_adr s.address count)) _ _
        (λ far. k (
          subst (λ n. 68 < flash_dest s.address + clip max_adr s.address n) (sym same)
            (ltb→lt _ _ far)))
        (λ _.
          Refuses-if P
            (not (s.memory_block_number == 0) && not (s.memory_block_number == s.address / 32)) _ _
            (λ _. block_ready-Refuses P s.memory_block_number s)
            (λ _.
              Refuses-bind P
                (copy_line 1 (λ dest. dest + 1) (clip max_adr s.address count) s.line_buffer 4
                  (flash_dest s.address)
                  (set_word (set_word s.memory_block 0 first) 34 ((first + 0x10) % 2 ^ 16)))
                _ (λ mem _. tt))))

eeprom_line-Refuses :
    (P : Type 0) (s : HexState)
    → ((eeprom_max < s.address + get_or s.line_buffer 0 0 / 2) ⊎ (32 < get_or s.line_buffer 0 0 / 2)
        → P)
    → Refuses P (eeprom_line s)
unfolding eeprom_line
eeprom_line-Refuses P s k =
    Refuses-if P (not (s.memory_block_number == 0)) _ _
      (λ _. block_ready-Refuses P s.memory_block_number s)
      (λ _. Refuses-bind P (load s.line_buffer 0) _ (λ count e.
        let same : get_or s.line_buffer 0 0 ≡ count = load-get_or s.line_buffer 0 count e in
        let too_far : (ltb eeprom_max (s.address + count / 2) || ltb 32 (count / 2)) ≡ true
            → (eeprom_max < s.address + count / 2) ⊎ (32 < count / 2) =
          λ far. ground (arith, far) in
        let start = set (set s.memory_block 0 (s.address % 256)) 1 (count / 2) in
        Refuses-if P (ltb eeprom_max (s.address + count / 2) || ltb 32 (count / 2)) _ _
          (λ far.
            k (
              subst (λ n. (eeprom_max < s.address + n / 2) ⊎ (32 < n / 2)) (sym same)
                (too_far far)))
          (λ _.
            Refuses-bind P (copy_line 2 (λ dest. dest + 1) (count / 2) s.line_buffer 4 2 start) _
              (λ mem _. tt))))

area_line-Refuses :
    (s : HexState) → Refuses (IsOutsize s.address (get_or s.line_buffer 0 0)) (area_line s)
unfolding area_line
area_line-Refuses s =
    let P : Type 0 = IsOutsize s.address (get_or s.line_buffer 0 0) in
    Refuses-if P (within serial_eeprom_min_adr serial_eeprom_max_adr s.address) _ _
      (λ _. serial_line-Refuses P s)
      (λ _.
        Refuses-if P (within main_mem_min_adr main_mem_max_adr s.address) _ _
          (λ e. flash_line-Refuses P s main_mem_max_adr (λ h. inl (e, h)))
          (λ _.
            Refuses-if P (within licenced_mem_min_adr licenced_mem_max_adr s.address) _ _
              (λ e. flash_line-Refuses P s licenced_mem_max_adr (λ h. inr (inl (e, h))))
              (λ _.
                Refuses-if P (within eeprom_min eeprom_max s.address) _ _
                  (λ e. eeprom_line-Refuses P s (λ h. inr (inr (e, h)))) (λ _. tt))))

locate-address :
    (s : HexState) (b1 b2 : ℕ)
    → ((locate s b1 b2).address ≡ (s.hi_address + b1 * 256 + b2) % 2 ^ 32 / 2 % 2 ^ 16)
      × ((locate s b1 b2).line_buffer ≡ s.line_buffer)
unfolding locate move_overflowed_data
locate-address s b1 b2 = elim (Bool-cases s.data_overflow) [
  | inl e ↦ rw e (refl, refl)
  | inr e ↦ rw e (refl, refl)
]

pub process_line-Refuses :
    (s : HexState) → Refuses (IsRefused s.hi_address s.line_buffer) (process_line s)
unfolding process_line
process_line-Refuses s =
    let line = s.line_buffer in
    let P : Type 0 = IsRefused s.hi_address line in
    Refuses-bind P (load line 3) _ (λ kind k.
      Refuses-if P (kind == 0) _ _
        (λ e. Refuses-bind P (load line 1) _ (λ b1 f. Refuses-bind P (load line 2) _ (λ b2 g.
          let (a, l) = locate-address s b1 b2 in
          let same : (locate s b1 b2).address ≡ word_address s.hi_address line =
            a ∙ rw (load-get_or line 1 b1 f, load-get_or line 2 b2 g) refl in
          Refuses-map (IsOutsize (locate s b1 b2).address (get_or (locate s b1 b2).line_buffer 0 0))
            P (area_line (locate s b1 b2))
            (λ o. (
              load-get_or line 3 kind k ∙ (==_iff _ _).0 e,
              subst (λ a. IsOutsize a (get_or line 0 0)) same
                  (subst (λ l. IsOutsize (locate s b1 b2).address (get_or l 0 0)) l o),
            ))
            (area_line-Refuses (locate s b1 b2)))))
        (λ _.
          Refuses-if P (kind == 4) _ _
            (λ _.
              Refuses-bind P (load line 4) _ (λ b4 _. Refuses-bind P (load line 5) _ (λ b5 _. tt)))
            (λ _. tt)))
