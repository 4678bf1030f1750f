-- ===== src/Hex/Ends.antt =====
-- `iqrfPgmPrepareMemBlock` of examples/PgmHex/PgmHex.cpp ends, and stays inside its arrays unless
-- a line claims more than 60 bytes.
use clibcdc.Base.{
  Bool, Bool-cases, Result, [], arith, err, false, get_or, if◌then◌else◌, inl, inr, le_or_lt,
  length, length-set, ok, refl, set, suc, true, zero, ℕ, ◌%◌, ◌+◌, ◌<◌, ◌==◌, ◌||◌, ◌∙◌, ◌∷◌, ◌≡◌,
  ◌≤◌, ◌⊎◌,
}
use clibcdc.Hex.{
  LineResult, ReadLine, convert_to_num, end_of_file, file_data_error, file_data_ready,
  find_line_start, is_line_end, line_buffer_size, read_byte_from_file, read_hex_file_line,
  read_pairs, to_lower,
}
use clibcdc.Hex.Block.{
  after_read, at_end_of_file, locate, prepare_loop, prepare_mem_block, prepare_round, prepare_start,
  process_line,
}
use clibcdc.Hex.Bounds.{
  IsSized, Steps, Steps-if, Steps-load, Steps-mono, area_line-Steps, move_overflowed_data-IsSized,
}
use clibcdc.Hex.Image.{BlockResult, HexState, Round, again, erased, gave, move_overflowed_data}
use clibcdc.Types.{Ustring}

-- A round goes on from one state to another.
pub data Rounds : HexState → HexState → Type 0 where
  here : {s : HexState} → Rounds s s
  later : {s t u : HexState} → prepare_round s ≡ ok (again t) → Rounds t u → Rounds s u

-- The line that a round looks at.
abbrev pub line_of : HexState → Ustring
line_of s =
    if s.data_in_buffer_ready
    then s.line_buffer
    else (read_hex_file_line s.file s.line_buffer).line_buffer

locate-IsSized :
    (s : HexState) (b1 b2 : ℕ)
    → IsSized s
    → IsSized (locate s b1 b2)
      × ((locate s b1 b2).line_buffer ≡ s.line_buffer)
      × (length (locate s b1 b2).file ≤ length s.file)
unfolding locate move_overflowed_data
locate-IsSized s b1 b2 h = elim (Bool-cases s.data_overflow) [
  | inl e ↦ rw e (move_overflowed_data-IsSized s h, refl, omega arith)
  | inr e ↦ rw e (h, refl, omega arith)
]

process_line-Steps :
    (s : HexState)
    → IsSized s
    → get_or s.line_buffer 0 0 ≤ 60
    → Steps (length s.file + 1) (process_line s)
unfolding process_line
process_line-Steps s h c =
    let n = length s.file + 1 in
    let line = s.line_buffer in
    Steps-load n line 3 _ (omega (arith, h.1)) (
      Steps-if n (get_or line 3 0 == 0) _ _
        (λ _. Steps-load n line 1 _ (omega (arith, h.1)) (
          Steps-load n line 2 _ (omega (arith, h.1)) (
            let s' = locate s (get_or line 1 0) (get_or line 2 0) in
            let (i, e, f) = locate-IsSized s (get_or line 1 0) (get_or line 2 0) h in
            Steps-mono n (length s'.file + 1) _ (omega (arith, f))
              (area_line-Steps s' i (rw e c)))))
        (λ _.
          Steps-if n (get_or line 3 0 == 4) _ _
            (λ _.
              Steps-load n line 4 _ (omega (arith, h.1))
                (Steps-load n line 5 _ (omega (arith, h.1)) (h, refl, omega arith)))
            (λ _. (h, refl, omega arith))))

find_line_start-shrinks : (file : Ustring) → length (find_line_start file).1 ≤ length file
unfolding find_line_start
find_line_start-shrinks [] = omega arith
find_line_start-shrinks (c ∷ cs) = elim (Bool-cases (c == 0 || c == b':')) [
  | inl e ↦ rw e (omega arith)
  | inr e ↦ rw e (omega (arith, find_line_start-shrinks cs))
]

-- A line that is read keeps the buffer's size, and a line that is ready has taken something from
-- the file.
abbrev pub Took : Ustring → Ustring → ReadLine → Type 0
Took file buffer r =
    (length r.line_buffer ≡ length buffer)
    × (length r.file ≤ length file)
    × (r.line_result ≡ file_data_ready → length r.file < length file)

read_byte_from_file-shrinks : (file : Ustring) → length (read_byte_from_file file).1 ≤ length file
unfolding read_byte_from_file
read_byte_from_file-shrinks [] = omega arith
read_byte_from_file-shrinks (c ∷ cs) = omega arith

read_byte_from_file-takes :
    (file : Ustring)
    → is_line_end (to_lower (read_byte_from_file file).0) ≡ true
    → length (read_byte_from_file file).1 < length file
unfolding read_byte_from_file is_line_end to_lower
read_byte_from_file-takes [] h = ground arith
read_byte_from_file-takes (c ∷ cs) h = omega arith

read_pairs-Took :
    (room ptr crc : ℕ) (file buffer : Ustring)
    → Took file buffer (read_pairs room ptr crc file buffer)
unfolding read_pairs
read_pairs-Took zero ptr crc file buffer = (refl, omega arith, λ e. ground arith)
read_pairs-Took (suc room) ptr crc file buffer =
    let (hi, file1) = read_byte_from_file file in
    let (lo, file2) = read_byte_from_file file1 in
    let data_byte = convert_to_num (to_lower hi) (to_lower lo) in
    elim (Bool-cases (is_line_end (to_lower hi))) [
      | inl e ↦
          rw (read_pairs, e)
            (refl, read_byte_from_file-shrinks file, λ _. read_byte_from_file-takes file e)
      | inr e ↦
          let (size, shorter, less) =
            read_pairs-Took room (ptr + 1) ((crc + data_byte) % 256) file2
              (set buffer ptr data_byte) in
          rw (read_pairs, e)
            (
              size ∙ length-set buffer ptr data_byte,
              omega (
                arith,
                shorter,
                read_byte_from_file-shrinks file,
                read_byte_from_file-shrinks file1,
              ),
              λ ready. omega (
                arith,
                less ready,
                read_byte_from_file-shrinks file,
                read_byte_from_file-shrinks file1,
              ),
            )
    ]

pub read_hex_file_line-Took :
    (file buffer : Ustring) → Took file buffer (read_hex_file_line file buffer)
unfolding read_hex_file_line
read_hex_file_line-Took file buffer =
    let (sign, file1) = find_line_start file in
    elim (Bool-cases (sign == 0)) [
      | inl e ↦ rw e (refl, find_line_start-shrinks file, λ h. ground arith)
      | inr e ↦
          let (size, shorter, less) = read_pairs-Took line_buffer_size 0 0 file1 buffer in
          rw e (
            size,
            omega (arith, shorter, find_line_start-shrinks file),
            λ ready. omega (arith, less ready, find_line_start-shrinks file),
          )
    ]

-- What is left to do: the lines of the file, and the line in the buffer.
abbrev pub left : HexState → ℕ
left s = if s.data_in_buffer_ready then length s.file + 1 else length s.file

Steps-either :
    (n : ℕ) (b : Bool) (r r' : Round)
    → Steps n (ok r)
    → Steps n (ok r')
    → Steps n (ok (if b then r else r'))
Steps-either n true r r' p p' = p
Steps-either n false r r' p p' = p'

at_end_of_file-Steps : (n : ℕ) (s : HexState) → IsSized s → Steps n (ok (at_end_of_file s))
unfolding at_end_of_file
at_end_of_file-Steps n s h =
    Steps-either n (s.memory_block_number == 0) _ _
      (Steps-either n s.data_overflow _ _ (move_overflowed_data-IsSized s h) h) h

after_read-Steps :
    (s : HexState) (r : ReadLine) (result : LineResult)
    → r.line_result ≡ result
    → IsSized s
    → Took s.file s.line_buffer r
    → get_or r.line_buffer 0 0 ≤ 60
    → Steps (length s.file) (after_read s r)
unfolding after_read
after_read-Steps s r file_data_error q (m, l) (e, shorter, less) c = rw q (m, e ∙ l)
after_read-Steps s r end_of_file q (m, l) (e, shorter, less) c = rw q (
    at_end_of_file-Steps (length s.file) (record s { line_buffer = r.line_buffer; file = r.file })
      (m, e ∙ l))
after_read-Steps s r file_data_ready q (m, l) (e, shorter, less) c = rw q (
    Steps-mono (length s.file) (length r.file + 1) _ (omega (arith, less q))
      (process_line-Steps _ (m, e ∙ l) c))

prepare_round-Steps :
    (s : HexState) → IsSized s → get_or (line_of s) 0 0 ≤ 60 → Steps (left s) (prepare_round s)
unfolding prepare_round
prepare_round-Steps s h c =
    Steps-if (left s) s.data_in_buffer_ready _ _
      (λ e.
        Steps-mono (left s) (length s.file + 1) _
          (let l : left s ≡ length s.file + 1 = rw e refl in omega (arith, l))
          (process_line-Steps s h (rw e at c)))
      (λ e.
        Steps-mono (left s) (length s.file) _
          (let l : left s ≡ length s.file = rw e refl in omega (arith, l))
          (after_read-Steps s (read_hex_file_line s.file s.line_buffer) _ refl h
            (read_hex_file_line-Took s.file s.line_buffer) (rw e at c)))

prepare_start-IsSized : (s : HexState) → IsSized s → IsSized (prepare_start s)
unfolding prepare_start erased
prepare_start-IsSized s (m, l) = elim (Bool-cases s.data_overflow) [
  | inl e ↦ rw e (m, l)
  | inr e ↦ rw e (refl, l)
]

prepare_start-left : (s : HexState) → left (prepare_start s) < length s.file + 2
unfolding prepare_start
prepare_start-left s = ground arith

-- How the loop ends, in a result and the state behind it, or in front of a line that is too long.
abbrev pub Ended : HexState → Result (BlockResult × HexState) → Type 0
Ended s r =
    ((code : BlockResult) × (s' : HexState) × (r ≡ ok (code, s')) × IsSized s')
    ⊎ ((t : HexState) × Rounds s t × (60 < get_or (line_of t) 0 0))

prepare_loop-later :
    (fuel : ℕ) (s : HexState) (r : Result Round)
    → prepare_round s ≡ r
    → Steps (left s) r
    → left s < suc fuel
    → ((t : HexState) → IsSized t → left t < fuel → Ended t (prepare_loop fuel t))
    → Ended s (prepare_loop (suc fuel) s)
unfolding prepare_loop
prepare_loop-later fuel s (ok (gave code t)) e p l f = inl (code, t, rw e refl, p)
prepare_loop-later fuel s (ok (again t)) e (i, ready, shrunk) l f =
    elim (f t i (let empty : left t ≡ length t.file = rw ready refl in omega (arith, empty))) [
      | inl (code, t', g, i') ↦ inl (code, t', rw e g, i')
      | inr (t', steps, long) ↦ inr (t', later e steps, long)
    ]
prepare_loop-later fuel s (err x) e p l f = absurd p

prepare_loop-ends :
    (fuel : ℕ) (s : HexState) → IsSized s → left s < fuel → Ended s (prepare_loop fuel s)
prepare_loop-ends zero s h l = absurd (omega arith)
prepare_loop-ends (suc fuel) s h l = elim (le_or_lt (get_or (line_of s) 0 0) 60) [
  | inl c ↦
      prepare_loop-later fuel s (prepare_round s) refl (prepare_round-Steps s h c) l
        (prepare_loop-ends fuel)
  | inr c ↦ inr (s, here, c)
]

-- In arrays of their sizes, `prepare_mem_block` gives a result and leaves the arrays their sizes,
-- and makes no access outside them, unless its rounds come to a line whose byte count is above 60.
-- The fuel, the size of the file and two, suffices for each file.
pub prepare_mem_block-ends :
    (s : HexState) → IsSized s → Ended (prepare_start s) (prepare_mem_block s)
unfolding prepare_mem_block
prepare_mem_block-ends s h =
    prepare_loop-ends (length s.file + 2) (prepare_start s) (prepare_start-IsSized s h)
      (prepare_start-left s)
