-- ===== src/Parser/Sound/Info.antt =====
-- The message type that `statesInfoMap` of src/CDCMessageParser.cpp gives to each finite state is
-- the type of the message that leads there. The words behind the array of upload states may put
-- entries into the map; only an entry for state 97 would be wrong.
use clibcdc.Base.{
  ==_iff, Bool, Bool-cases, List, Option, [], ap, arith, contains, false, find, find-insert,
  get_elem?, inl, inr, insert, none, refl, some, suc, take, true, zero, ℕ, ◌&&◌, ◌==◌, ◌||◌, ◌∷◌,
  ◌≡◌, ◌≢◌,
}
use clibcdc.Parser.Grammar.{Item, grammar}
use clibcdc.Parser.Sound.Shapes.{item_eq, items_eq, items_eq_sound, shape}
use clibcdc.Parser.States.{
  StateInfo, StatesInfo, finite_states, insert_all, insert_multi_type_states_info,
  insert_states_info, is_finite_state, res_upload_download, states_info, states_info_head,
}
use clibcdc.Types.{msg_download_data, msg_upload_download}

module _ (info : StateInfo) (s : ℕ) where
  insert_all_keeps :
      (states : List ℕ) (m : StatesInfo) (v : StateInfo)
      → find ◌==◌ s m ≡ some v
      → find ◌==◌ s (insert_all info states m) ≡ some v
  unfolding insert_all
  insert_all_keeps [] m v h = h
  insert_all_keeps (a ∷ states) m v h =
      insert_all_keeps states (insert ◌==◌ a info m) v
        (rw (find-insert ◌==◌ ==_iff s a info m, h) refl)

  insert_all_other :
      (states : List ℕ) (m : StatesInfo)
      → contains states s ≡ false
      → find ◌==◌ s m ≡ none
      → find ◌==◌ s (insert_all info states m) ≡ none
  unfolding insert_all contains
  insert_all_other [] m c h = h
  insert_all_other (a ∷ states) m c h =
      insert_all_other states (insert ◌==◌ a info m) (ground arith)
        (rw (find-insert ◌==◌ ==_iff s a info m, h) (ground arith))

contains-take :
    (n : ℕ) (xs : List ℕ) (a : ℕ) → contains xs a ≡ false → contains (take n xs) a ≡ false
unfolding contains
contains-take zero xs a h = refl
contains-take (suc n) [] a h = refl
contains-take (suc n) (x ∷ xs) a h = ground (arith, contains-take n xs a)

has_form : List (List Item) → List Item → Bool
has_form [] is = false
has_form (f ∷ fs) is = items_eq f is || has_form fs is

has_form_sound :
    (fs : List (List Item)) (is : List Item)
    → has_form fs is ≡ true
    → (k : ℕ) × (get_elem? fs k ≡ some is)
unfolding has_form
has_form_sound [] is h = cc
has_form_sound (f ∷ fs) is h = elim (Bool-cases (items_eq f is)) [
  | inl e ↦ (0, ap some (items_eq_sound f is e))
  | inr e ↦ let (k, g) = has_form_sound fs is (ground arith) in (suc k, g)
]

-- The map before the words that lie behind the array.
unfoldable pub before_stray : StatesInfo
before_stray = insert_states_info res_upload_download 14 msg_upload_download states_info_head

after_stray : List ℕ → StatesInfo
after_stray stray =
    insert_all (record { msg_type = msg_upload_download; multi_type = false }) (take 3 stray)
      before_stray

states_info_lem :
    (stray : List ℕ)
    → states_info stray
      ≡ insert_all
          (record { msg_type = msg_download_data; multi_type = false })
          (96 ∷ 97 ∷ [])
          (after_stray stray)
unfolding states_info insert_states_info insert_all after_stray before_stray
states_info_lem stray = refl

typed : ℕ → Option StateInfo → Bool
typed s none = false
typed s (some i) = has_form (grammar i.msg_type) (shape s)

typed_state : ℕ → Bool
typed_state s = s == 97 || typed s (find ◌==◌ s before_stray)

all_typed : List ℕ → Bool
all_typed [] = true
all_typed (s ∷ ss) = typed_state s && all_typed ss

finite_states_typed : all_typed finite_states ≡ true
unfolding all_typed typed_state typed has_form items_eq item_eq shape grammar find before_stray
    states_info_head insert_states_info insert_multi_type_states_info finite_states
finite_states_typed = refl

all_typed-contains :
    (ss : List ℕ) (s : ℕ) → all_typed ss ≡ true → contains ss s ≡ true → typed_state s ≡ true
unfolding all_typed contains
all_typed-contains [] s h c = cc
all_typed-contains (a ∷ ss) s h c = ground (arith, all_typed-contains ss s)

-- The type that is recorded for a finite state, and its form.
abbrev pub Typed : StatesInfo → ℕ → Type 0
Typed info s =
    (i : StateInfo) × (find ◌==◌ s info ≡ some i)
    × (k : ℕ) × (get_elem? (grammar i.msg_type) k ≡ some (shape s))

typed-Typed :
    (s : ℕ) (o : Option StateInfo)
    → typed s o ≡ true
    → (i : StateInfo) × (o ≡ some i) × (k : ℕ) × (get_elem? (grammar i.msg_type) k ≡ some (shape s))
unfolding typed
typed-Typed s none h = cc
typed-Typed s (some i) h =
    let (k, g) = has_form_sound (grammar i.msg_type) (shape s) h in (i, refl, k, g)

before_stray_97 : find ◌==◌ 97 before_stray ≡ none
unfolding before_stray find insert_states_info states_info_head
before_stray_97 = refl

insert_last :
    (info : StateInfo) (a s : ℕ) (m : StatesInfo)
    → a ≢ s
    → find ◌==◌ s m ≡ none
    → find ◌==◌ s (insert_all info (a ∷ s ∷ []) m) ≡ some info
unfolding insert_all
insert_last info a s m h e =
    rw
      (
        find-insert ◌==◌ ==_iff s s info (insert ◌==◌ a info m),
        find-insert ◌==◌ ==_iff s a info m,
        e,
      )
      (ground arith)

Typed-97 : (stray : List ℕ) → contains stray 97 ≡ false → Typed (states_info stray) 97
unfolding shape grammar
Typed-97 stray h = (record { msg_type = msg_download_data; multi_type = false }, found, 0, refl)
  where
    missing : find ◌==◌ 97 (after_stray stray) ≡ none
    missing =
        unfold after_stray in
        insert_all_other _ 97 (take 3 stray) before_stray (contains-take 3 stray 97 h)
          before_stray_97

    found :
        find ◌==◌ 97 (states_info stray)
        ≡ some (record { msg_type = msg_download_data; multi_type = false })
    found =
        rw (states_info_lem stray) (insert_last _ 96 97 (after_stray stray) (omega arith) missing)

-- An entry that stands before the words behind the array stays.
pub states_info-known :
    (stray : List ℕ) (s : ℕ) (i : StateInfo)
    → find ◌==◌ s before_stray ≡ some i
    → find ◌==◌ s (states_info stray) ≡ some i
states_info-known stray s i e = rw (states_info_lem stray) (
    insert_all_keeps _ s (96 ∷ 97 ∷ []) (after_stray stray) i
      (unfold after_stray in insert_all_keeps _ s (take 3 stray) before_stray i e))

Typed-other :
    (stray : List ℕ) (s : ℕ)
    → typed s (find ◌==◌ s before_stray) ≡ true
    → Typed (states_info stray) s
Typed-other stray s h =
    let (i, e, k, g) = typed-Typed s (find ◌==◌ s before_stray) h in
    (i, states_info-known stray s i e, k, g)

pub finite_state-Typed :
    (stray : List ℕ) (s : ℕ)
    → contains stray 97 ≡ false
    → is_finite_state s ≡ true
    → Typed (states_info stray) s
unfolding is_finite_state
finite_state-Typed stray s h f = cases (all_typed-contains finite_states s finite_states_typed f)
  where
    cases : typed_state s ≡ true → Typed (states_info stray) s
    cases e = elim (Bool-cases (s == 97)) [
      | inl same ↦ rw ((==_iff s 97).0 same) (Typed-97 stray h)
      | inr other ↦ Typed-other stray s (unfold typed_state in ground arith)
    ]
