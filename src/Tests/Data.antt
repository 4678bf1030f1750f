-- ===== src/Tests/Data.antt =====
-- Concrete inputs that the tests share.
use mathlib.Core.Option.{some-injective}
use clibcdc.Base.{Bool, List, [], false, refl, some, sym, true, ℕ, ◌∷◌}
use clibcdc.Driver.State.{EventApi}
use clibcdc.Types.{Ustring}

-- An event object as a flag.
abbrev pub flag : EventApi
flag = record {
  Event = Bool;
  fresh = false;
  is_set = λ b. b;
  signal = λ b. some true;
  clear = λ b. some false;
  fresh_unset = refl;
  signal_sets = λ a b e. sym (some-injective _ _ e);
  clear_resets = λ a b e. sym (some-injective _ _ e);
}

abbrev pub no_stray : List ℕ
no_stray = 1 ∷ 2 ∷ 3 ∷ []

abbrev pub three_bytes : Ustring
three_bytes = 7 ∷ 13 ∷ 35 ∷ []
