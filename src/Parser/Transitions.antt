-- ===== src/Parser/Transitions.antt =====
-- The transition map of src/CDCMessageParser.cpp, as the constructor of CDCMessageParserPrivate
-- fills it, and `doTransition`.
use clibcdc.Base.{
  Bool, List, [], arith, find, insert, none, some, true, ℕ, ◌&&◌, ◌==◌, ◌↔◌, ◌∷◌, ◌≡◌,
}

pub record StateInputPair : Type 0 where
  pub state_id : ℕ
  pub input : ℕ

-- Two pairs are equivalent under the map's order when both components agree.
unfoldable pub pair_eq : StateInputPair → StateInputPair → Bool
pair_eq a b = a.state_id == b.state_id && a.input == b.input

pub pair_eq_iff : (a b : StateInputPair) → (pair_eq a b ≡ true) ↔ (a ≡ b)
unfolding pair_eq
pair_eq_iff a b = ground arith

abbrev pub initial_state : ℕ
initial_state = 0

abbrev pub no_transition : ℕ
no_transition = 65535

abbrev pub input_all : ℕ
input_all = 1000

abbrev pub TransitionMap : Type 0
TransitionMap = List (StateInputPair × ℕ)

-- The arguments of one call of `insertTransition`.
pub record Transition : Type 0 where
  pub state_id : ℕ
  pub input : ℕ
  pub next_state_id : ℕ

abbrev entry : ℕ → ℕ → ℕ → Transition
entry s i n = record { state_id = s; input = i; next_state_id = n }

-- The calls of `initTransitionMap`, in order.
unfoldable pub transition_calls : List Transition
transition_calls =
    entry 0 b'<' 1
    ∷ entry 1 b'E' 2
    ∷ entry 1 b'O' 6
    ∷ entry 1 b'R' 9
    ∷ entry 1 b'I' 16
    ∷ entry 1 b'B' 24
    ∷ entry 1 b'S' 29
    ∷ entry 1 b'D' 33
    ∷ entry 1 b'U' 53
    ∷ entry 1 b'P' 58
    ∷ entry 2 b'R' 3
    ∷ entry 3 b'R' 4
    ∷ entry 4 0x0D 5
    ∷ entry 6 b'K' 7
    ∷ entry 7 0x0D 8
    ∷ entry 9 b':' 10
    ∷ entry 10 b'O' 101
    ∷ entry 101 b'K' 102
    ∷ entry 102 0x0D 103
    ∷ entry 9 b'T' 11
    ∷ entry 11 b':' 12
    ∷ entry 12 b'O' 13
    ∷ entry 13 b'K' 14
    ∷ entry 14 0x0D 15
    ∷ entry 16 b':' 17
    ∷ entry 18 0x0D 19
    ∷ entry 16 b'T' 20
    ∷ entry 20 b':' 21
    ∷ entry 22 0x0D 23
    ∷ entry 24 b':' 25
    ∷ entry 25 b'O' 26
    ∷ entry 26 b'K' 27
    ∷ entry 27 0x0D 28
    ∷ entry 29 b':' 30
    ∷ entry 30 input_all 31
    ∷ entry 31 0x0D 32
    ∷ entry 33 b'S' 34
    ∷ entry 34 b':' 35
    ∷ entry 35 b'O' 36
    ∷ entry 36 b'K' 37
    ∷ entry 37 0x0D 38
    ∷ entry 35 b'E' 39
    ∷ entry 39 b'R' 40
    ∷ entry 40 b'R' 41
    ∷ entry 41 0x0D 42
    ∷ entry 35 b'B' 43
    ∷ entry 43 b'U' 44
    ∷ entry 44 b'S' 45
    ∷ entry 45 b'Y' 46
    ∷ entry 46 0x0D 47
    ∷ entry 33 b'R' 48
    ∷ entry 48 input_all 49
    ∷ entry 49 b':' 50
    ∷ entry 51 0x0D 52
    ∷ entry 53 b':' 54
    ∷ entry 54 b'O' 55
    ∷ entry 55 b'K' 56
    ∷ entry 56 0x0D 57
    ∷ entry 58 b'E' 59
    ∷ entry 58 b'T' 69
    ∷ entry 58 b'M' 79
    ∷ entry 59 b':' 60
    ∷ entry 60 b'O' 61
    ∷ entry 60 b'E' 64
    ∷ entry 61 b'K' 62
    ∷ entry 62 0x0D 63
    ∷ entry 64 b'R' 65
    ∷ entry 65 b'R' 66
    ∷ entry 66 b'1' 67
    ∷ entry 67 0x0D 68
    ∷ entry 69 b':' 70
    ∷ entry 70 b'O' 71
    ∷ entry 70 b'E' 74
    ∷ entry 71 b'K' 72
    ∷ entry 72 0x0D 73
    ∷ entry 74 b'R' 75
    ∷ entry 75 b'R' 76
    ∷ entry 76 b'1' 77
    ∷ entry 77 0x0D 78
    ∷ entry 79 b':' 95
    ∷ entry 80 b'O' 81
    ∷ entry 80 b'E' 84
    ∷ entry 80 b'B' 89
    ∷ entry 81 b'K' 82
    ∷ entry 82 0x0D 83
    ∷ entry 84 b'R' 85
    ∷ entry 85 b'R' 86
    ∷ entry 86 b'2' 87
    ∷ entry 86 b'3' 87
    ∷ entry 86 b'4' 87
    ∷ entry 86 b'5' 87
    ∷ entry 86 b'6' 87
    ∷ entry 86 b'7' 87
    ∷ entry 87 0x0D 88
    ∷ entry 89 b'U' 90
    ∷ entry 90 b'S' 91
    ∷ entry 91 b'Y' 92
    ∷ entry 92 0x0D 93
    ∷ entry 96 0x0D 97
    ∷ []

unfoldable pub insert_transition : TransitionMap → Transition → TransitionMap
unfolding insert pair_eq
insert_transition m t =
    insert pair_eq (record { state_id = t.state_id; input = t.input }) t.next_state_id m

unfoldable pub insert_transitions : TransitionMap → List Transition → TransitionMap
unfolding insert_transition
insert_transitions m [] = m
insert_transitions m (t ∷ ts) = insert_transitions (insert_transition m t) ts

unfoldable pub transition_map : TransitionMap
unfolding transition_calls insert_transitions
transition_map = insert_transitions [] transition_calls

unfoldable pub do_transition : ℕ → ℕ → ℕ
do_transition state input =
    elim (find pair_eq (record { state_id = state; input = input }) transition_map) [
      | some next ↦ next
      | none ↦ elim (find pair_eq (record { state_id = state; input = input_all }) transition_map) [
        | some next ↦ next
        | none ↦ no_transition
      ]
    ]
