-- ===== src/Examples/Received.antt =====
-- What the listener of examples/ReadTemperature/ReadTemperature.cpp makes of the bytes it is given.
use clibcdc.Base.{
  ==_iff, ==_self, Bool-cases, Result, [], ap, arith, err, false, inl, inr, length, ltb, ok, refl,
  subst, suc, sym, take, true, undefined, zero, ℕ, ◌++◌, ◌<◌, ◌==◌, ◌∙◌, ◌∷◌, ◌≡◌, ◌≢◌, ◌≤◌,
}
use clibcdc.Examples.Temperature.{
  Printed, confirmation, confirmation_header, error_code, is_confirmation, is_header, is_response,
  no_data, print_response, receive_data, response_header, temperature, unknown_data, unknown_type,
}
use clibcdc.Types.{Ustring}
use mathlib.Core.Bool.{false≢true}

-- The messages and what is printed for them.
pub data Shown : Ustring → Printed → Type 0 where
  shown_none : Shown [] no_data
  shown_short :
      {bytes : Ustring} → 0 < length bytes → length bytes < 4 → Shown bytes (unknown_data bytes)
  shown_confirmation :
      {bytes : Ustring} (rest : Ustring)
      → bytes ≡ confirmation_header ++ rest
      → Shown bytes (confirmation bytes)
  shown_error :
      {bytes : Ustring} {code : ℕ} (a b : ℕ) (rest : Ustring)
      → code ≢ 0
      → bytes ≡ response_header ++ (a ∷ b ∷ code ∷ rest)
      → Shown bytes (error_code code)
  shown_temperature :
      {bytes : Ustring} {value fraction : ℕ} (a b c second : ℕ) (rest : Ustring)
      → bytes ≡ response_header ++ (a ∷ b ∷ 0 ∷ c ∷ value ∷ fraction ∷ second ∷ rest)
      → Shown bytes (temperature value fraction)
  shown_unknown :
      {bytes : Ustring}
      → 4 ≤ length bytes
      → take 4 bytes ≢ confirmation_header
      → take 4 bytes ≢ response_header
      → Shown bytes (unknown_type bytes)

-- What is printed is that of the message; a read behind the bytes is that of a short response.
abbrev pub Explained : Ustring → Result Printed → Type 0
Explained bytes (ok p) = Shown bytes p
Explained bytes (err e) =
    (e ≡ undefined) × ((rest : Ustring) × (bytes ≡ response_header ++ rest) × (length rest < 7))

is_header-eq : (hs xs : Ustring) → length xs ≡ length hs → is_header hs xs ≡ true → xs ≡ hs
unfolding is_header
is_header-eq [] [] l h = refl
is_header-eq [] (x ∷ xs) l h = absurd (omega (arith, l))
is_header-eq (c ∷ hs) [] l h = absurd (omega (arith, l))
is_header-eq (c ∷ hs) (x ∷ xs) l h = elim (Bool-cases (x == c)) [
  | inl e ↦
      let same : x ≡ c = (==_iff x c).0 e in
      ap (λ d. d ∷ xs) same ∙ ap (◌∷◌ c) (is_header-eq hs xs (omega (arith, l)) (rw e at h))
  | inr e ↦ absurd (false≢true (rw e at h))
]

is_header_self : (hs : Ustring) → is_header hs hs ≡ true
unfolding is_header
is_header_self [] = refl
is_header_self (c ∷ hs) = let e = ==_self c in rw e (is_header_self hs)

is_header-neq : (hs xs : Ustring) → is_header hs xs ≡ false → xs ≢ hs
is_header-neq hs xs h e = false≢true (sym h ∙ ap (is_header hs) e ∙ is_header_self hs)

print_response-Explained :
    (rest : Ustring)
    → Explained (response_header ++ rest) (print_response (response_header ++ rest))
unfolding print_response
print_response-Explained [] = (refl, ([], refl, omega arith))
print_response-Explained (a ∷ []) = (refl, (a ∷ [], refl, omega arith))
print_response-Explained (a ∷ b ∷ []) = (refl, (a ∷ b ∷ [], refl, omega arith))
print_response-Explained (a ∷ b ∷ suc n ∷ rest) =
    let e : (suc n == 0) ≡ false = ground arith in
    rw e (shown_error a b rest (λ z. omega (arith, z)) refl)
print_response-Explained (a ∷ b ∷ zero ∷ []) = (refl, (a ∷ b ∷ 0 ∷ [], refl, omega arith))
print_response-Explained (a ∷ b ∷ zero ∷ c ∷ []) = (refl, (a ∷ b ∷ 0 ∷ c ∷ [], refl, omega arith))
print_response-Explained (a ∷ b ∷ zero ∷ c ∷ v ∷ []) =
    (refl, (a ∷ b ∷ 0 ∷ c ∷ v ∷ [], refl, omega arith))
print_response-Explained (a ∷ b ∷ zero ∷ c ∷ v ∷ f ∷ []) =
    (refl, (a ∷ b ∷ 0 ∷ c ∷ v ∷ f ∷ [], refl, omega arith))
print_response-Explained (a ∷ b ∷ zero ∷ c ∷ v ∷ f ∷ g ∷ rest) = shown_temperature a b c g rest refl

-- Whatever bytes arrive, the listener prints what belongs to them, and it reads behind them only
-- on a response that is too short for what it prints: one of less than 11 bytes.
pub receive_data-Explained : (bytes : Ustring) → Explained bytes (receive_data bytes)
unfolding receive_data is_confirmation is_response
receive_data-Explained [] = shown_none
receive_data-Explained (a ∷ []) = shown_short (omega arith) (omega arith)
receive_data-Explained (a ∷ b ∷ []) = shown_short (omega arith) (omega arith)
receive_data-Explained (a ∷ b ∷ c ∷ []) = shown_short (omega arith) (omega arith)
receive_data-Explained (a ∷ b ∷ c ∷ d ∷ rest) =
    let bytes : Ustring = a ∷ b ∷ c ∷ d ∷ rest in
    let header : Ustring = a ∷ b ∷ c ∷ d ∷ [] in
    let some_bytes : (length bytes == 0) ≡ false = ground arith in
    let enough : ltb (length bytes) 4 ≡ false = ground arith in
    elim (Bool-cases (is_header confirmation_header header)) [
      | inl e ↦
          rw (some_bytes, enough, e)
            (shown_confirmation rest
              (ap (λ h. h ++ rest) (is_header-eq confirmation_header header refl e)))
      | inr e ↦ elim (Bool-cases (is_header response_header header)) [
        | inl q ↦
            let same : bytes ≡ response_header ++ rest =
              ap (λ h. h ++ rest) (is_header-eq response_header header refl q) in
            rw (some_bytes, enough, e, q)
              (subst (λ b. Explained b (print_response b)) (sym same)
                (print_response-Explained rest))
        | inr q ↦
            rw (some_bytes, enough, e, q)
              (shown_unknown (omega arith) (is_header-neq confirmation_header header e)
                (is_header-neq response_header header q))
      ]
    ]
