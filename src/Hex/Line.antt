-- ===== src/Hex/Line.antt =====
-- A line of a HEX file against its printing.
use clibcdc.Base.{
  All, Bool, [], ap, append_assoc, arith, drop, false, if◌then◌else◌, length, length-append, ltb,
  refl, set, suc, true, zero, ℕ, ◌%◌, ◌++◌, ◌+◌, ◌-◌, ◌/◌, ◌<◌, ◌==◌, ◌||◌, ◌∙◌, ◌∷◌, ◌≡◌, ◌≢◌, ◌≤◌,
}
use clibcdc.Hex.{
  convert_to_num, file_data_error, file_data_ready, find_line_start, is_line_end, line_buffer_size,
  nibble, read_byte_from_file, read_hex_file_line, read_pairs, to_lower,
}
use clibcdc.Types.{IsBytes, Ustring}

-- The bytes of a line in digits; `upper` chooses the case of each letter.
abbrev pub hex_digit : Bool → ℕ → ℕ
hex_digit upper n =
    if ltb n 10 then b'0' + n else (if upper then b'A' + (n - 10) else b'a' + (n - 10))

abbrev pub hex_line : Bool → Ustring → Ustring
hex_line upper [] = []
hex_line upper (x ∷ xs) = hex_digit upper (x / 16) ∷ hex_digit upper (x % 16) ∷ hex_line upper xs

abbrev pub sum : Ustring → ℕ
sum [] = 0
sum (x ∷ xs) = x + sum xs

nibble-hex_digit : (upper : Bool) (n : ℕ) → n < 16 → nibble (to_lower (hex_digit upper n)) ≡ n
unfolding nibble to_lower
nibble-hex_digit true n h = ground arith
nibble-hex_digit false n h = ground arith

hex_digit-not_end :
    (upper : Bool) (n : ℕ) → n < 16 → is_line_end (to_lower (hex_digit upper n)) ≡ false
unfolding is_line_end to_lower
hex_digit-not_end true n h = ground arith
hex_digit-not_end false n h = ground arith

pub convert-hex_digit :
    (upper : Bool) (x : ℕ)
    → x < 256
    → convert_to_num (to_lower (hex_digit upper (x / 16))) (to_lower (hex_digit upper (x % 16))) ≡ x
unfolding convert_to_num
convert-hex_digit upper x h =
    rw
      (nibble-hex_digit upper (x / 16) (omega arith), nibble-hex_digit upper (x % 16) (omega arith))
      (omega arith)

pub set-append :
    (xs ys : Ustring) (y v n : ℕ) → n ≡ length xs → set (xs ++ (y ∷ ys)) n v ≡ xs ++ (v ∷ ys)
set-append [] ys y v zero h = refl
set-append [] ys y v (suc n) h = absurd (omega arith)
set-append (x ∷ xs) ys y v zero h = absurd (omega arith)
set-append (x ∷ xs) ys y v (suc n) h = ap (◌∷◌ x) (set-append xs ys y v n (omega arith))

read_pairs-pair :
    (hi lo x room ptr crc y : ℕ) (done tail file : Ustring)
    → is_line_end (to_lower hi) ≡ false
    → convert_to_num (to_lower hi) (to_lower lo) ≡ x
    → ptr ≡ length done
    → read_pairs (suc room) ptr crc (hi ∷ lo ∷ file) (done ++ (y ∷ tail))
      ≡ read_pairs room (ptr + 1) ((crc + x) % 256) file (done ++ (x ∷ tail))
unfolding read_pairs read_byte_from_file
read_pairs-pair hi lo x room ptr crc y done tail file n e p =
    rw (read_pairs, n)
      (ap (λ d. read_pairs room (ptr + 1) ((crc + d) % 256) file (set (done ++ (y ∷ tail)) ptr d)) e
        ∙ ap (read_pairs room (ptr + 1) ((crc + x) % 256) file) (set-append done tail y x ptr p))

read_pairs-hex :
    (upper : Bool) (xs done tail rest : Ustring) (room ptr crc : ℕ)
    → IsBytes xs
    → crc < 256
    → length xs < room
    → length xs ≤ length tail
    → ptr ≡ length done
    → read_pairs room ptr crc (hex_line upper xs ++ (0x0A ∷ rest)) (done ++ tail) ≡ record {
      line_result = if (crc + sum xs) % 256 == 0 then file_data_ready else file_data_error;
      file = rest;
      line_buffer = done ++ (xs ++ drop (length xs) tail);
    }
unfolding read_pairs read_byte_from_file is_line_end to_lower
read_pairs-hex upper xs done tail rest zero ptr crc v c h l p = absurd (omega arith)
read_pairs-hex upper [] done tail rest (suc room) ptr crc v c h l p =
    let e : (crc + 0) % 256 ≡ crc = omega arith in rw e refl
read_pairs-hex upper (x ∷ xs) done [] rest (suc room) ptr crc v c h l p = absurd (omega arith)
read_pairs-hex upper (x ∷ xs) done (y ∷ tail) rest (suc room) ptr crc (w, v) c h l p =
    let total : ((crc + x) % 256 + sum xs) % 256 ≡ (crc + (x + sum xs)) % 256 = omega arith in
    let rest_read =
      read_pairs-hex upper xs (done ++ x ∷ []) tail rest room (ptr + 1) ((crc + x) % 256) v
        (omega arith) (omega arith) (omega arith) (omega (arith, p, length-append done (x ∷ []))) in
    read_pairs-pair (hex_digit upper (x / 16)) (hex_digit upper (x % 16)) x room ptr crc y done tail
      (hex_line upper xs ++ (0x0A ∷ rest)) (hex_digit-not_end upper (x / 16) (omega arith))
      (convert-hex_digit upper x w) p
    ∙ (rw
        (
          append_assoc done (x ∷ []) tail,
          append_assoc done (x ∷ []) (xs ++ drop (length xs) tail),
          total,
        )
        at rest_read)

read_pairs-start :
    (upper : Bool) (xs buffer rest : Ustring) (room : ℕ)
    → IsBytes xs
    → length xs < room
    → length xs ≤ length buffer
    → read_pairs room 0 0 (hex_line upper xs ++ (0x0A ∷ rest)) buffer ≡ record {
      line_result = if sum xs % 256 == 0 then file_data_ready else file_data_error;
      file = rest;
      line_buffer = xs ++ drop (length xs) buffer;
    }
read_pairs-start upper xs buffer rest room v h l =
    let none_added : 0 + sum xs ≡ sum xs = omega arith in
    rw none_added at (read_pairs-hex upper xs [] buffer rest room 0 0 v (omega arith) h l refl)

-- What stands between the lines has no colon and no NUL.
find_line_start-skip :
    (junk rest : Ustring)
    → All (λ c. (c ≢ b':') × (c ≢ 0)) junk
    → find_line_start (junk ++ (b':' ∷ rest)) ≡ (b':', rest)
unfolding find_line_start
find_line_start-skip [] rest a = refl
find_line_start-skip (c ∷ junk) rest ((n, z), a) =
    let e : (c == 0 || c == b':') ≡ false = ground arith in rw e (find_line_start-skip junk rest a)

-- A line of less than 64 bytes, printed in digits of either case and ended by a line feed, is read
-- back into the start of the buffer, which has 64 bytes, whatever stands before it that has no
-- colon and no NUL. It is ready if its bytes, with the checksum, add up to 0 modulo 256, and an
-- error if they do not; reading goes on behind it.
pub read_hex_file_line-hex :
    (upper : Bool) (xs junk rest buffer : Ustring)
    → IsBytes xs
    → length xs < line_buffer_size
    → length buffer ≡ line_buffer_size
    → All (λ c. (c ≢ b':') × (c ≢ 0)) junk
    → read_hex_file_line (junk ++ (b':' ∷ (hex_line upper xs ++ (0x0A ∷ rest)))) buffer ≡ record {
      line_result = if sum xs % 256 == 0 then file_data_ready else file_data_error;
      file = rest;
      line_buffer = xs ++ drop (length xs) buffer;
    }
unfolding read_hex_file_line
read_hex_file_line-hex upper xs junk rest buffer v h b a =
    rw (find_line_start-skip junk (hex_line upper xs ++ (0x0A ∷ rest)) a)
      (read_pairs-start upper xs buffer rest line_buffer_size v h (omega (arith, h, b)))
