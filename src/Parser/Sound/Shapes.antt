-- ===== src/Parser/Sound/Shapes.antt =====
-- What has been read when the automaton of src/CDCMessageParser.cpp is in a state: a form of the
-- grammar, cut off at that state. Each transition extends it by one item, which is checked by
-- evaluation over the whole transition map.
use clibcdc.Base.{
  Bool, Bool-cases, List, Option-cases, [], arith, false, find, if◌then◌else◌, inl, inr, leb, none,
  refl, some, true, ℕ, ◌&&◌, ◌++◌, ◌==◌, ◌∷◌, ◌≡◌, ◌≢◌, ◌⊎◌,
}
use clibcdc.Parser.Grammar.{
  Fits, Item, any, byte, counted, error_digit, idf, pm_data, text, text_then, usb_text,
}
use clibcdc.Parser.Transitions.{
  StateInputPair, TransitionMap, do_transition, input_all, no_transition, pair_eq, pair_eq_iff,
  transition_map,
}

-- State by state. State 80 is entered again at the place of state 95.
abbrev shapes : List (ℕ × List Item)
shapes =
    (0, [])
    ∷ (1, text (b'<' ∷ []))
    ∷ (2, text (b'<' ∷ b'E' ∷ []))
    ∷ (3, text (b'<' ∷ b'E' ∷ b'R' ∷ []))
    ∷ (4, text (b'<' ∷ b'E' ∷ b'R' ∷ b'R' ∷ []))
    ∷ (5, text (b'<' ∷ b'E' ∷ b'R' ∷ b'R' ∷ 13 ∷ []))
    ∷ (6, text (b'<' ∷ b'O' ∷ []))
    ∷ (7, text (b'<' ∷ b'O' ∷ b'K' ∷ []))
    ∷ (8, text (b'<' ∷ b'O' ∷ b'K' ∷ 13 ∷ []))
    ∷ (9, text (b'<' ∷ b'R' ∷ []))
    ∷ (10, text (b'<' ∷ b'R' ∷ b':' ∷ []))
    ∷ (11, text (b'<' ∷ b'R' ∷ b'T' ∷ []))
    ∷ (12, text (b'<' ∷ b'R' ∷ b'T' ∷ b':' ∷ []))
    ∷ (13, text (b'<' ∷ b'R' ∷ b'T' ∷ b':' ∷ b'O' ∷ []))
    ∷ (14, text (b'<' ∷ b'R' ∷ b'T' ∷ b':' ∷ b'O' ∷ b'K' ∷ []))
    ∷ (15, text (b'<' ∷ b'R' ∷ b'T' ∷ b':' ∷ b'O' ∷ b'K' ∷ 13 ∷ []))
    ∷ (16, text (b'<' ∷ b'I' ∷ []))
    ∷ (17, text (b'<' ∷ b'I' ∷ b':' ∷ []))
    ∷ (18, text_then (b'<' ∷ b'I' ∷ b':' ∷ []) (usb_text ∷ []))
    ∷ (19, text_then (b'<' ∷ b'I' ∷ b':' ∷ []) (usb_text ∷ byte 13 ∷ []))
    ∷ (20, text (b'<' ∷ b'I' ∷ b'T' ∷ []))
    ∷ (21, text (b'<' ∷ b'I' ∷ b'T' ∷ b':' ∷ []))
    ∷ (22, text_then (b'<' ∷ b'I' ∷ b'T' ∷ b':' ∷ []) (idf ∷ []))
    ∷ (23, text_then (b'<' ∷ b'I' ∷ b'T' ∷ b':' ∷ []) (idf ∷ byte 13 ∷ []))
    ∷ (24, text (b'<' ∷ b'B' ∷ []))
    ∷ (25, text (b'<' ∷ b'B' ∷ b':' ∷ []))
    ∷ (26, text (b'<' ∷ b'B' ∷ b':' ∷ b'O' ∷ []))
    ∷ (27, text (b'<' ∷ b'B' ∷ b':' ∷ b'O' ∷ b'K' ∷ []))
    ∷ (28, text (b'<' ∷ b'B' ∷ b':' ∷ b'O' ∷ b'K' ∷ 13 ∷ []))
    ∷ (29, text (b'<' ∷ b'S' ∷ []))
    ∷ (30, text (b'<' ∷ b'S' ∷ b':' ∷ []))
    ∷ (31, text_then (b'<' ∷ b'S' ∷ b':' ∷ []) (any ∷ []))
    ∷ (32, text_then (b'<' ∷ b'S' ∷ b':' ∷ []) (any ∷ byte 13 ∷ []))
    ∷ (33, text (b'<' ∷ b'D' ∷ []))
    ∷ (34, text (b'<' ∷ b'D' ∷ b'S' ∷ []))
    ∷ (35, text (b'<' ∷ b'D' ∷ b'S' ∷ b':' ∷ []))
    ∷ (36, text (b'<' ∷ b'D' ∷ b'S' ∷ b':' ∷ b'O' ∷ []))
    ∷ (37, text (b'<' ∷ b'D' ∷ b'S' ∷ b':' ∷ b'O' ∷ b'K' ∷ []))
    ∷ (38, text (b'<' ∷ b'D' ∷ b'S' ∷ b':' ∷ b'O' ∷ b'K' ∷ 13 ∷ []))
    ∷ (39, text (b'<' ∷ b'D' ∷ b'S' ∷ b':' ∷ b'E' ∷ []))
    ∷ (40, text (b'<' ∷ b'D' ∷ b'S' ∷ b':' ∷ b'E' ∷ b'R' ∷ []))
    ∷ (41, text (b'<' ∷ b'D' ∷ b'S' ∷ b':' ∷ b'E' ∷ b'R' ∷ b'R' ∷ []))
    ∷ (42, text (b'<' ∷ b'D' ∷ b'S' ∷ b':' ∷ b'E' ∷ b'R' ∷ b'R' ∷ 13 ∷ []))
    ∷ (43, text (b'<' ∷ b'D' ∷ b'S' ∷ b':' ∷ b'B' ∷ []))
    ∷ (44, text (b'<' ∷ b'D' ∷ b'S' ∷ b':' ∷ b'B' ∷ b'U' ∷ []))
    ∷ (45, text (b'<' ∷ b'D' ∷ b'S' ∷ b':' ∷ b'B' ∷ b'U' ∷ b'S' ∷ []))
    ∷ (46, text (b'<' ∷ b'D' ∷ b'S' ∷ b':' ∷ b'B' ∷ b'U' ∷ b'S' ∷ b'Y' ∷ []))
    ∷ (47, text (b'<' ∷ b'D' ∷ b'S' ∷ b':' ∷ b'B' ∷ b'U' ∷ b'S' ∷ b'Y' ∷ 13 ∷ []))
    ∷ (48, text (b'<' ∷ b'D' ∷ b'R' ∷ []))
    ∷ (49, text_then (b'<' ∷ b'D' ∷ b'R' ∷ []) (any ∷ []))
    ∷ (50, text_then (b'<' ∷ b'D' ∷ b'R' ∷ []) (any ∷ byte b':' ∷ []))
    ∷ (51, text_then (b'<' ∷ b'D' ∷ b'R' ∷ []) (counted ∷ []))
    ∷ (52, text_then (b'<' ∷ b'D' ∷ b'R' ∷ []) (counted ∷ byte 13 ∷ []))
    ∷ (53, text (b'<' ∷ b'U' ∷ []))
    ∷ (54, text (b'<' ∷ b'U' ∷ b':' ∷ []))
    ∷ (55, text (b'<' ∷ b'U' ∷ b':' ∷ b'O' ∷ []))
    ∷ (56, text (b'<' ∷ b'U' ∷ b':' ∷ b'O' ∷ b'K' ∷ []))
    ∷ (57, text (b'<' ∷ b'U' ∷ b':' ∷ b'O' ∷ b'K' ∷ 13 ∷ []))
    ∷ (58, text (b'<' ∷ b'P' ∷ []))
    ∷ (59, text (b'<' ∷ b'P' ∷ b'E' ∷ []))
    ∷ (60, text (b'<' ∷ b'P' ∷ b'E' ∷ b':' ∷ []))
    ∷ (61, text (b'<' ∷ b'P' ∷ b'E' ∷ b':' ∷ b'O' ∷ []))
    ∷ (62, text (b'<' ∷ b'P' ∷ b'E' ∷ b':' ∷ b'O' ∷ b'K' ∷ []))
    ∷ (63, text (b'<' ∷ b'P' ∷ b'E' ∷ b':' ∷ b'O' ∷ b'K' ∷ 13 ∷ []))
    ∷ (64, text (b'<' ∷ b'P' ∷ b'E' ∷ b':' ∷ b'E' ∷ []))
    ∷ (65, text (b'<' ∷ b'P' ∷ b'E' ∷ b':' ∷ b'E' ∷ b'R' ∷ []))
    ∷ (66, text (b'<' ∷ b'P' ∷ b'E' ∷ b':' ∷ b'E' ∷ b'R' ∷ b'R' ∷ []))
    ∷ (67, text (b'<' ∷ b'P' ∷ b'E' ∷ b':' ∷ b'E' ∷ b'R' ∷ b'R' ∷ b'1' ∷ []))
    ∷ (68, text (b'<' ∷ b'P' ∷ b'E' ∷ b':' ∷ b'E' ∷ b'R' ∷ b'R' ∷ b'1' ∷ 13 ∷ []))
    ∷ (69, text (b'<' ∷ b'P' ∷ b'T' ∷ []))
    ∷ (70, text (b'<' ∷ b'P' ∷ b'T' ∷ b':' ∷ []))
    ∷ (71, text (b'<' ∷ b'P' ∷ b'T' ∷ b':' ∷ b'O' ∷ []))
    ∷ (72, text (b'<' ∷ b'P' ∷ b'T' ∷ b':' ∷ b'O' ∷ b'K' ∷ []))
    ∷ (73, text (b'<' ∷ b'P' ∷ b'T' ∷ b':' ∷ b'O' ∷ b'K' ∷ 13 ∷ []))
    ∷ (74, text (b'<' ∷ b'P' ∷ b'T' ∷ b':' ∷ b'E' ∷ []))
    ∷ (75, text (b'<' ∷ b'P' ∷ b'T' ∷ b':' ∷ b'E' ∷ b'R' ∷ []))
    ∷ (76, text (b'<' ∷ b'P' ∷ b'T' ∷ b':' ∷ b'E' ∷ b'R' ∷ b'R' ∷ []))
    ∷ (77, text (b'<' ∷ b'P' ∷ b'T' ∷ b':' ∷ b'E' ∷ b'R' ∷ b'R' ∷ b'1' ∷ []))
    ∷ (78, text (b'<' ∷ b'P' ∷ b'T' ∷ b':' ∷ b'E' ∷ b'R' ∷ b'R' ∷ b'1' ∷ 13 ∷ []))
    ∷ (79, text (b'<' ∷ b'P' ∷ b'M' ∷ []))
    ∷ (80, text (b'<' ∷ b'P' ∷ b'M' ∷ b':' ∷ []))
    ∷ (81, text (b'<' ∷ b'P' ∷ b'M' ∷ b':' ∷ b'O' ∷ []))
    ∷ (82, text (b'<' ∷ b'P' ∷ b'M' ∷ b':' ∷ b'O' ∷ b'K' ∷ []))
    ∷ (83, text (b'<' ∷ b'P' ∷ b'M' ∷ b':' ∷ b'O' ∷ b'K' ∷ 13 ∷ []))
    ∷ (84, text (b'<' ∷ b'P' ∷ b'M' ∷ b':' ∷ b'E' ∷ []))
    ∷ (85, text (b'<' ∷ b'P' ∷ b'M' ∷ b':' ∷ b'E' ∷ b'R' ∷ []))
    ∷ (86, text (b'<' ∷ b'P' ∷ b'M' ∷ b':' ∷ b'E' ∷ b'R' ∷ b'R' ∷ []))
    ∷ (87, text_then (b'<' ∷ b'P' ∷ b'M' ∷ b':' ∷ b'E' ∷ b'R' ∷ b'R' ∷ []) (error_digit ∷ []))
    ∷ (
      88,
      text_then (b'<' ∷ b'P' ∷ b'M' ∷ b':' ∷ b'E' ∷ b'R' ∷ b'R' ∷ []) (error_digit ∷ byte 13 ∷ []),
    )
    ∷ (89, text (b'<' ∷ b'P' ∷ b'M' ∷ b':' ∷ b'B' ∷ []))
    ∷ (90, text (b'<' ∷ b'P' ∷ b'M' ∷ b':' ∷ b'B' ∷ b'U' ∷ []))
    ∷ (91, text (b'<' ∷ b'P' ∷ b'M' ∷ b':' ∷ b'B' ∷ b'U' ∷ b'S' ∷ []))
    ∷ (92, text (b'<' ∷ b'P' ∷ b'M' ∷ b':' ∷ b'B' ∷ b'U' ∷ b'S' ∷ b'Y' ∷ []))
    ∷ (93, text (b'<' ∷ b'P' ∷ b'M' ∷ b':' ∷ b'B' ∷ b'U' ∷ b'S' ∷ b'Y' ∷ 13 ∷ []))
    ∷ (95, text (b'<' ∷ b'P' ∷ b'M' ∷ b':' ∷ []))
    ∷ (96, text_then (b'<' ∷ b'P' ∷ b'M' ∷ b':' ∷ []) (pm_data ∷ []))
    ∷ (97, text_then (b'<' ∷ b'P' ∷ b'M' ∷ b':' ∷ []) (pm_data ∷ byte 13 ∷ []))
    ∷ (101, text (b'<' ∷ b'R' ∷ b':' ∷ b'O' ∷ []))
    ∷ (102, text (b'<' ∷ b'R' ∷ b':' ∷ b'O' ∷ b'K' ∷ []))
    ∷ (103, text (b'<' ∷ b'R' ∷ b':' ∷ b'O' ∷ b'K' ∷ 13 ∷ []))
    ∷ []

unfoldable pub shape : ℕ → List Item
unfolding find
shape s = elim (find ◌==◌ s shapes) [ none ↦ [] | some is ↦ is ]

unfoldable pub item_eq : Item → Item → Bool
item_eq (byte a) (byte b) = a == b
item_eq any any = true
item_eq error_digit error_digit = true
item_eq counted counted = true
item_eq usb_text usb_text = true
item_eq idf idf = true
item_eq pm_data pm_data = true
item_eq _ _ = false

item_eq_sound : (a b : Item) → item_eq a b ≡ true → a ≡ b
unfolding item_eq
item_eq_sound (byte a) (byte b) h = ground arith
item_eq_sound _ _ h = ground arith

unfoldable pub items_eq : List Item → List Item → Bool
unfolding item_eq
items_eq [] [] = true
items_eq (a ∷ as') (b ∷ bs) = item_eq a b && items_eq as' bs
items_eq _ _ = false

pub items_eq_sound : (as' bs : List Item) → items_eq as' bs ≡ true → as' ≡ bs
unfolding items_eq
items_eq_sound (a ∷ as') (b ∷ bs) h = ground (arith, item_eq_sound a b, items_eq_sound as' bs)
items_eq_sound _ _ h = ground arith

-- The item that a transition reads.
label : StateInputPair → Item
label k =
    if k.input == input_all then any else if k.state_id == 86 then error_digit else byte k.input

digit_ok : StateInputPair → Bool
digit_ok k = if k.state_id == 86 then leb b'2' k.input && leb k.input b'7' else true

entry_ok : StateInputPair → ℕ → Bool
entry_ok k t = items_eq (shape t) (shape k.state_id ++ label k ∷ []) && digit_ok k

entries_ok : TransitionMap → Bool
entries_ok [] = true
entries_ok ((k, t) ∷ m) = entry_ok k t && entries_ok m

transition_map_ok : entries_ok transition_map ≡ true
unfolding entries_ok entry_ok shape items_eq label digit_ok transition_map
transition_map_ok = refl

entries_ok-find :
    (m : TransitionMap) (k : StateInputPair) (t : ℕ)
    → entries_ok m ≡ true
    → find pair_eq k m ≡ some t
    → entry_ok k t ≡ true
unfolding entries_ok find
entries_ok-find [] k t h e = cc
entries_ok-find ((j, u) ∷ m) k t h e = ground (arith, pair_eq_iff j k, entries_ok-find m k t)

label-Fits :
    (k : StateInputPair) (c : ℕ)
    → (k.input ≡ c) ⊎ (k.input ≡ input_all)
    → digit_ok k ≡ true
    → Fits (label k) (c ∷ [])
unfolding label digit_ok
label-Fits k c h d = elim (Bool-cases (k.input == input_all)) [
  | inl a ↦ rw a (c, refl)
  | inr b ↦ elim (Bool-cases (k.state_id == 86)) [
    | inl e ↦ rw (b, e) (c, refl, ground arith, ground arith)
    | inr f ↦ rw (b, f) (ground arith)
  ]
]

entry_ok-label :
    (k : StateInputPair) (c t : ℕ)
    → (k.input ≡ c) ⊎ (k.input ≡ input_all)
    → entry_ok k t ≡ true
    → (i : Item) × (shape t ≡ shape k.state_id ++ i ∷ []) × Fits i (c ∷ [])
unfolding entry_ok
entry_ok-label k c t h e =
    (label k, items_eq_sound _ _ (ground arith), label-Fits k c h (ground arith))

transition_ok :
    (k : StateInputPair) (t : ℕ) → find pair_eq k transition_map ≡ some t → entry_ok k t ≡ true
transition_ok k t = entries_ok-find transition_map k t transition_map_ok

-- A transition that is made extends the form of its state by an item that fits the byte read.
pub do_transition-shape :
    (s c : ℕ)
    → do_transition s c ≢ no_transition
    → (i : Item) × (shape (do_transition s c) ≡ shape s ++ i ∷ []) × Fits i (c ∷ [])
unfolding do_transition
do_transition-shape s c h =
    elim (Option-cases (find pair_eq (record { state_id = s; input = c }) transition_map)) [
      | inl e ↦
          elim (Option-cases
            (find pair_eq (record { state_id = s; input = input_all }) transition_map)) [
              | inl e' ↦ absurd (h (rw (e, do_transition, e') refl))
              | inr (t, e') ↦
                  rw (e, do_transition, e') (entry_ok-label _ c t (inr refl) (transition_ok _ t e'))
            ]
      | inr (t, e) ↦ rw (e, do_transition) (entry_ok-label _ c t (inl refl) (transition_ok _ t e))
    ]
