-- ===== src/Hex/Copy.antt =====
-- What the copies of examples/PgmHex/PgmHex.cpp from the line buffer into the image leave there.
use clibcdc.Base.{
  ap, arith, get_or, get_or-set, get_or-set_other, inl, inr, length, length-set, ok, refl, set, suc,
  zero, ℕ, ◌*◌, ◌+◌, ◌<◌, ◌∙◌, ◌≡◌, ◌≢◌, ◌≤◌, ◌⊎◌,
}
use clibcdc.Hex.Bounds.{load-inside, store-inside}
use clibcdc.Hex.Image.{copy_line}
use clibcdc.Types.{Ustring}
use native.Mathlib.Nat.{suc-mul}

-- `n` bytes of the line, from `i` on in steps of `stride`, stand at `dest`, and all else is as it
-- was.
abbrev pub Copied : ℕ → Ustring → ℕ → ℕ → ℕ → Ustring → Ustring → Type 0
Copied stride line i dest n mem mem' =
    (length mem' ≡ length mem)
    × ((k : ℕ) → k < n → get_or mem' (dest + k) 0 ≡ get_or line (i + k * stride) 0)
    × ((j : ℕ) → (j < dest) ⊎ (dest + n ≤ j) → get_or mem' j 0 ≡ get_or mem j 0)

Copied-step :
    (stride : ℕ) (line : Ustring) (i dest n : ℕ) (mem mem' : Ustring)
    → dest < length mem
    → Copied stride line (i + stride) (dest + 1) n (set mem dest (get_or line i 0)) mem'
    → (k : ℕ) → k < suc n
    → get_or mem' (dest + k) 0 ≡ get_or line (i + k * stride) 0
Copied-step stride line i dest n mem mem' h (size, copied, kept) zero l =
    ap (λ j. get_or mem' j 0) (omega arith)
    ∙ kept dest (inl (omega arith))
    ∙ get_or-set mem dest (get_or line i 0) 0 h
    ∙ ap (λ j. get_or line j 0) (omega arith)
Copied-step stride line i dest n mem mem' h (size, copied, kept) (suc k) l =
    ap (λ j. get_or mem' j 0) (omega arith)
    ∙ copied k (omega arith)
    ∙ ap (λ j. get_or line j 0) (omega (arith, suc-mul k stride))

apart_more : (dest n j : ℕ) → (j < dest) ⊎ (dest + suc n ≤ j) → (j < dest + 1) ⊎ (dest + 1 + n ≤ j)
apart_more dest n j (inl h) = inl (omega arith)
apart_more dest n j (inr h) = inr (omega arith)

apart_dest : (dest n j : ℕ) → (j < dest) ⊎ (dest + suc n ≤ j) → dest ≢ j
apart_dest dest n j (inl h) e = omega arith
apart_dest dest n j (inr h) e = omega arith

pub copy_line-Copied :
    (stride : ℕ) (line : Ustring) (n i dest : ℕ) (mem : Ustring)
    → dest + n ≤ length mem
    → ((k : ℕ) → k < n → i + k * stride < length line)
    → (mem' : Ustring) × (copy_line stride (λ d. d + 1) n line i dest mem ≡ ok mem')
      × Copied stride line i dest n mem mem'
unfolding copy_line
copy_line-Copied stride line zero i dest mem room inside =
    (mem, refl, (refl, (λ k l. absurd (omega arith)), λ j o. refl))
copy_line-Copied stride line (suc n) i dest mem room inside =
    let v = get_or line i 0 in
    let first : i < length line = omega (arith, inside 0 (omega arith)) in
    let size = length-set mem dest v in
    let (mem', g, copied) =
      copy_line-Copied stride line n (i + stride) (dest + 1) (set mem dest v) (omega (arith, size))
        (λ k l. omega (arith, inside (suc k) (omega arith), suc-mul k stride)) in
    let (same_size, copied_all, kept) = copied in
    (
      mem',
      rw (load-inside line i first, store-inside mem dest v (omega arith)) g,
      (
        same_size ∙ size,
        Copied-step stride line i dest n mem mem' (omega arith) copied,
        λ j o.
            kept j (apart_more dest n j o)
            ∙ get_or-set_other mem dest j v 0 (apart_dest dest n j o),
      ),
    )
