-- ===== src/Base/Maps.antt =====
-- `std::map` as the code uses it: `insert` keeps an entry that is there, and `find` gives an
-- entry or `end()`, which is `none`.
use mathlib.Core.Path.{◌≡◌}
use mathlib.Core.Logic.{◌↔◌}
use mathlib.Core.Bool.{Bool, true}
use mathlib.Core.Option.{Option, none, some}
use mathlib.Core.List.{List, [], ◌∷◌}
use native.Mathlib.Omega.{arith}
use clibcdc.Base.Tests.{if◌then◌else◌}

module _ {ℓ κ} {K : Type ℓ} {V : Type κ} where
  unfoldable pub find : (K → K → Bool) → K → List (K × V) → Option V
  find eq k [] = none
  find eq k ((j, v) ∷ m) = if eq j k then some v else find eq k m

  unfoldable pub insert : (K → K → Bool) → K → V → List (K × V) → List (K × V)
  insert eq k v [] = (k, v) ∷ []
  insert eq k v ((j, w) ∷ m) = if eq j k then (j, w) ∷ m else (j, w) ∷ insert eq k v m

-- The value that `k` has after `insert j v`, from the value that it had before.
abbrev pub inserted {κ} : {V : Type κ} → Bool → V → Option V → Option V
inserted same v (some w) = some w
inserted same v none = if same then some v else none

module _ {ℓ κ} {K : Type ℓ} {V : Type κ} (eq : K → K → Bool) where
  pub find-insert :
      (sound : (j k : K) → (eq j k ≡ true) ↔ (j ≡ k))
      → (k j : K) (v : V) (m : List (K × V))
      → find eq k (insert eq j v m) ≡ inserted (eq j k) v (find eq k m)
  unfolding find insert
  find-insert sound k j v [] = ground arith
  find-insert sound k j v ((i, w) ∷ m) =
      ground (arith, find-insert sound k j v m, sound i j, sound i k, sound j k)
