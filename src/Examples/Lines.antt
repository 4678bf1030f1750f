-- ===== src/Examples/Lines.antt =====
-- The lines of a plugin file: examples/PgmIqrf/PgmIqrf.cpp against a printing of its lines.
use clibcdc.Base.{
  All, Bool, List, Result, [], ap, append_assoc, arith, drop, false, if_false, leb, length,
  length-append, ok, refl, set, suc, sym, true, zero, ℕ, ◌%◌, ◌++◌, ◌+◌, ◌/◌, ◌<◌, ◌==◌, ◌||◌, ◌∙◌,
  ◌∷◌, ◌≡◌, ◌≢◌, ◌≤◌,
}
use clibcdc.Examples.Plugin.{
  first_char, line_end, read_plugin_line, read_plugin_loop, read_plugin_round, skip_comment,
}
use clibcdc.Hex.{ReadLine, convert_to_num, file_data_ready, read_byte_from_file, to_lower}
use clibcdc.Hex.Line.{convert-hex_digit, hex_digit, hex_line, set-append}
use clibcdc.Parser.Grammar.{text}
use clibcdc.Types.{IsBytes, Ustring}

-- A line of bytes, ended by a carriage return and a line feed.
abbrev pub ended : Ustring → Ustring → Ustring
ended text rest = text ++ (0x0D ∷ 0x0A ∷ rest)

-- Comments, each on a line of its own.
abbrev pub comment_lines : List Ustring → Ustring → Ustring
comment_lines [] rest = rest
comment_lines (text ∷ texts) rest = b'#' ∷ ended text (comment_lines texts rest)

abbrev pub IsComment : Ustring → Type 0
IsComment text = All (λ c. (c ≢ 0) × (c ≢ 0x0D)) text

hex_digit-plain :
    (upper : Bool) (n : ℕ)
    → n < 16
    → let c = to_lower (hex_digit upper n) in
      ((c == b'#') ≡ false) × ((c == 0x0D) ≡ false) × ((c == 0) ≡ false)
unfolding to_lower
hex_digit-plain true n h = (ground arith, ground arith, ground arith)
hex_digit-plain false n h = (ground arith, ground arith, ground arith)

first_char-plain :
    (c : ℕ) (rest : Ustring)
    → (to_lower c == b'#') ≡ false
    → first_char (c ∷ rest) ≡ (to_lower c, rest)
unfolding first_char read_byte_from_file
first_char-plain c rest h = if_false (to_lower c == b'#') _ _ h

skip_comment-text :
    (text rest : Ustring) → IsComment text → skip_comment (text ++ (0x0D ∷ rest)) ≡ (0x0D, rest)
unfolding skip_comment
skip_comment-text [] rest a = refl
skip_comment-text (c ∷ text) rest ((n, m), a) =
    let e : (c == 0 || c == 0x0D) ≡ false = ground arith in rw e (skip_comment-text text rest a)

first_char-comment :
    (text rest : Ustring)
    → IsComment text
    → first_char (b'#' ∷ ended text rest) ≡ (0x0D, 0x0A ∷ rest)
unfolding first_char read_byte_from_file to_lower
first_char-comment text rest a = skip_comment-text text (0x0A ∷ rest) a

-- A comment line in front of a line is passed over.
read_plugin_loop-comment :
    (fuel : ℕ) (text rest buffer : Ustring)
    → IsComment text
    → read_plugin_loop (suc fuel) 0 (b'#' ∷ ended text rest) buffer
      ≡ read_plugin_loop fuel 0 rest buffer
unfolding read_plugin_loop read_plugin_round read_byte_from_file
read_plugin_loop-comment fuel text rest buffer a =
    ap (read_plugin_round (read_plugin_loop fuel) 0 buffer) (first_char-comment text rest a)

read_plugin_round-plain :
    (next : ℕ → Ustring → Ustring → Result ReadLine) (ptr c d : ℕ) (buffer rest : Ustring)
    → (c == 0x0D) ≡ false
    → (c == 0) ≡ false
    → ptr < 20
    → read_plugin_round next ptr buffer (c, d ∷ rest)
      ≡ next (ptr + 1) rest (set buffer ptr (convert_to_num c (to_lower d)))
unfolding read_plugin_round read_byte_from_file
read_plugin_round-plain next ptr c d buffer rest cr nul l =
    let room : leb 20 ptr ≡ false = ground arith in rw (read_plugin_round, cr, nul, room) refl

read_plugin_loop-pair :
    (fuel ptr hi lo x y : ℕ) (done tail rest : Ustring)
    → ((to_lower hi == b'#') ≡ false)
      × ((to_lower hi == 0x0D) ≡ false)
      × ((to_lower hi == 0) ≡ false)
    → convert_to_num (to_lower hi) (to_lower lo) ≡ x
    → ptr ≡ length done
    → ptr < 20
    → read_plugin_loop (suc fuel) ptr (hi ∷ lo ∷ rest) (done ++ (y ∷ tail))
      ≡ read_plugin_loop fuel (ptr + 1) rest (done ++ (x ∷ tail))
unfolding read_plugin_loop read_plugin_round read_byte_from_file
read_plugin_loop-pair fuel ptr hi lo x y done tail rest (hash, cr, nul) e p l =
    ap (read_plugin_round (read_plugin_loop fuel) ptr (done ++ (y ∷ tail)))
      (first_char-plain hi (lo ∷ rest) hash)
    ∙ read_plugin_round-plain (read_plugin_loop fuel) ptr (to_lower hi) lo (done ++ (y ∷ tail)) rest
        cr nul l
    ∙ ap (λ d. read_plugin_loop fuel (ptr + 1) rest (set (done ++ (y ∷ tail)) ptr d)) e
    ∙ ap (read_plugin_loop fuel (ptr + 1) rest) (set-append done tail y x ptr p)

read_plugin_loop-end :
    (fuel : ℕ) (rest buffer : Ustring)
    → read_plugin_loop (suc fuel) 20 (0x0D ∷ 0x0A ∷ rest) buffer
      ≡ line_end file_data_ready rest buffer
unfolding read_plugin_loop read_plugin_round read_byte_from_file first_char to_lower
read_plugin_loop-end fuel rest buffer = refl

-- The rest of a line of 20 bytes.
read_plugin_loop-hex :
    (upper : Bool) (xs done tail rest : Ustring) (fuel ptr : ℕ)
    → IsBytes xs
    → length xs < fuel
    → length xs ≤ length tail
    → ptr ≡ length done
    → ptr + length xs ≡ 20
    → read_plugin_loop fuel ptr (ended (hex_line upper xs) rest) (done ++ tail)
      ≡ line_end file_data_ready rest (done ++ (xs ++ drop (length xs) tail))
read_plugin_loop-hex upper xs done tail rest zero ptr v f l p t = absurd (omega arith)
read_plugin_loop-hex upper [] done tail rest (suc fuel) ptr v f l p t =
    let full : ptr ≡ 20 = omega (arith, t) in
    ap (λ k. read_plugin_loop (suc fuel) k (0x0D ∷ 0x0A ∷ rest) (done ++ tail)) full
    ∙ read_plugin_loop-end fuel rest (done ++ tail)
read_plugin_loop-hex upper (x ∷ xs) done [] rest (suc fuel) ptr v f l p t = absurd (omega arith)
read_plugin_loop-hex upper (x ∷ xs) done (y ∷ tail) rest (suc fuel) ptr (w, v) f l p t =
    read_plugin_loop-pair fuel ptr (hex_digit upper (x / 16)) (hex_digit upper (x % 16)) x y done
      tail (ended (hex_line upper xs) rest) (hex_digit-plain upper (x / 16) (omega arith))
      (convert-hex_digit upper x w) p (omega arith)
    ∙ ap (read_plugin_loop fuel (ptr + 1) (ended (hex_line upper xs) rest))
        (sym (append_assoc done (x ∷ []) tail))
    ∙ read_plugin_loop-hex upper xs (done ++ (x ∷ [])) tail rest fuel (ptr + 1) v (omega arith)
        (omega arith) (omega (arith, p, length-append done (x ∷ []))) (omega arith)
    ∙ ap (line_end file_data_ready rest) (append_assoc done (x ∷ []) (xs ++ drop (length xs) tail))

-- A line of a plugin file, and the comments in front of it.
abbrev pub PluginLine : Type 0
PluginLine = List Ustring × Ustring

abbrev pub line_file : Bool → PluginLine → Ustring → Ustring
line_file upper (comments, xs) rest = comment_lines comments (ended (hex_line upper xs) rest)

abbrev pub IsPluginLine : PluginLine → Type 0
IsPluginLine (comments, xs) = All IsComment comments × IsBytes xs × (length xs ≡ 20)

read_plugin_loop-line :
    (upper : Bool) (comments : List Ustring) (xs buffer rest : Ustring) (fuel : ℕ)
    → All IsComment comments
    → IsBytes xs
    → length xs ≡ 20
    → length buffer ≡ 64
    → length comments + 20 < fuel
    → read_plugin_loop fuel 0 (line_file upper (comments, xs) rest) buffer
      ≡ line_end file_data_ready rest (xs ++ drop 20 buffer)
read_plugin_loop-line upper comments xs buffer rest zero a v l b f = absurd (omega arith)
read_plugin_loop-line upper [] xs buffer rest (suc fuel) a v l b f =
    read_plugin_loop-hex upper xs [] buffer rest (suc fuel) 0 v (omega (arith, l))
      (omega (arith, l, b)) refl (omega (arith, l))
    ∙ ap (λ n. line_end file_data_ready rest (xs ++ drop n buffer)) l
read_plugin_loop-line upper (text ∷ comments) xs buffer rest (suc fuel) (c, a) v l b f =
    read_plugin_loop-comment fuel text (line_file upper (comments, xs) rest) buffer c
    ∙ read_plugin_loop-line upper comments xs buffer rest fuel a v l b (omega arith)

length-hex_line : (upper : Bool) (xs : Ustring) → length (hex_line upper xs) ≡ length xs + length xs
length-hex_line upper [] = refl
length-hex_line upper (x ∷ xs) = omega (arith, length-hex_line upper xs)

pub length-line_file :
    (upper : Bool) (comments : List Ustring) (xs rest : Ustring)
    → length comments + length xs + length rest < length (line_file upper (comments, xs) rest)
length-line_file upper [] xs rest =
    omega (arith, length-append (hex_line upper xs) (0x0D ∷ 0x0A ∷ rest), length-hex_line upper xs)
length-line_file upper (text ∷ comments) xs rest = omega (
  arith,
  length-append text (0x0D ∷ 0x0A ∷ line_file upper (comments, xs) rest),
  length-line_file upper comments xs rest,
)

-- A printed line of 20 bytes, in digits of either case and behind comments, is read back into the
-- start of the buffer of 64 bytes, and reading goes on behind it.
pub read_plugin_line-hex :
    (upper : Bool) (line : PluginLine) (rest buffer : Ustring)
    → IsPluginLine line
    → length buffer ≡ 64
    → read_plugin_line (line_file upper line rest) buffer
      ≡ ok (record {
        line_result = file_data_ready;
        file = rest;
        line_buffer = line.1 ++ drop 20 buffer;
      })
unfolding read_plugin_line
read_plugin_line-hex upper (comments, xs) rest buffer (a, v, l) b =
    read_plugin_loop-line upper comments xs buffer rest _ a v l b
      (omega (arith, l, length-line_file upper comments xs rest))
