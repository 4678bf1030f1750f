-- ===== src/Parser/Sound/Special.antt =====
-- The special states of src/CDCMessageParser.cpp keep the invariant of the parser's loop.
use clibcdc.Base.{
  All-get_or, Bool, Bool-cases, List, Result, [], ap, append-nil, arith, contains, drop, err, false,
  get_elem?-get_or, get_or, get_or-take, inl, inr, leb, length, length-drop, length-take, ltb, ok,
  refl, sub32, sub64, suc, sym, take, take-add, true, wrap32, zero, ℕ, ◌++◌, ◌+◌, ◌-◌, ◌<◌, ◌==◌,
  ◌^◌, ◌||◌, ◌∙◌, ◌∷◌, ◌≡◌, ◌≤◌, ◌⊎◌,
}
use clibcdc.Parser.Grammar.{
  Fits, Item, Matches, Matches-concat, Matches-text, any, byte, counted, idf, pm_data, text,
  text-Matches, text_then-Matches,
}
use clibcdc.Parser.Sound.Shapes.{shape}
use clibcdc.Parser.Special.{
  StateProcResult, asyn_data_end, at, idf_incomplete, module_data_size, proc_result,
  process_asyn_data, process_pm_resp_data, process_tr_info, tr_info_end,
}
use clibcdc.Parser.States.{finite_states, is_finite_state, is_special_state, special_states}
use clibcdc.Types.{IsBytes, Ustring}

module _ (bytes : Ustring) where
  -- What stands before `pos` is the form of the state.
  abbrev pub Live : ℕ → ℕ → Type 0
  Live s pos = (pos ≤ length bytes) × Matches (shape s) (take pos bytes)

  -- Or the data are used up, or the parser waits for the rest of a module identification.
  abbrev pub Inv : ℕ → ℕ → Type 0
  Inv s pos = Live s pos ⊎ (length bytes ≤ pos) ⊎ ((s ≡ 21) × (idf_incomplete bytes ≡ ok true))

  -- How a special state leaves the loop.
  pub record After (pos : ℕ) (proc : StateProcResult) : Type 0 where
    pub keeps : Inv proc.new_state (proc.last_position + 1)
    pub final_live :
        is_finite_state proc.new_state ≡ true → Live proc.new_state (proc.last_position + 1)
    pub bound : proc.last_position < length bytes
    pub progress :
        (pos ≤ proc.last_position)
        ⊎ ((proc.last_position + 1 ≡ pos) × (is_special_state proc.new_state ≡ false))

  abbrev pub Returns : ℕ → Result StateProcResult → Type 0
  Returns pos (err e) = ⊥
  Returns pos (ok proc) = (proc.format_error ≡ true) ⊎ After pos proc

  -- The form grows by an item that the next `k` bytes fit.
  pub Live-concat :
      (s t pos k : ℕ) (i : Item)
      → shape t ≡ shape s ++ i ∷ []
      → Live s pos
      → pos + k ≤ length bytes
      → Fits i (take k (drop pos bytes))
      → Live t (pos + k)
  Live-concat s t pos k i e (h, m) b f =
      (b, rw (e, take-add pos k (pos + k) bytes refl) (Matches-concat (shape s) _ i _ m f))

  -- At the last byte the state does not change, and the loop ends.
  pub After-last :
      (s pos : ℕ)
      → is_finite_state s ≡ false
      → pos < length bytes
      → length bytes ≤ pos + 1
      → After pos (proc_result s pos false)
  After-last s pos f h b = record {
    keeps = inr (inl b);
    final_live = λ e. cc;
    bound = h;
    progress = inl (omega arith);
  }

  length-rest : (pos k : ℕ) → pos + k ≤ length bytes → length (take k (drop pos bytes)) ≡ k
  length-rest pos k h = omega (arith, length-take k (drop pos bytes), length-drop pos bytes)

  text-position : (cs : List ℕ) (s pos : ℕ) → shape s ≡ text cs → Live s pos → pos ≡ length cs
  text-position cs s pos e (h, m) =
      omega (arith, ap length (Matches-text cs _ (rw e at m)), length-take pos bytes)

  -- A step to a plain state, given where it leads.
  pub After-move :
      (t pos last next : ℕ) {bad : Bool}
      → last + 1 ≡ next
      → pos ≤ next
      → last < length bytes
      → is_special_state t ≡ false
      → Live t next
      → After pos (proc_result t last bad)
  After-move t pos last next e h b p l = record {
    keeps = inl live;
    final_live = λ _. live;
    bound = b;
    progress = forward (next - pos) (omega arith);
  }
    where
      live : Live t (last + 1)
      live = rw e l

      forward :
          (k : ℕ)
          → next ≡ pos + k
          → (pos ≤ last) ⊎ ((last + 1 ≡ pos) × (is_special_state t ≡ false))
      forward zero d = inr (omega arith, p)
      forward (suc k) d = inl (omega arith)

  module _ (pos : ℕ) (small : length bytes < 2 ^ 31) (h : pos < length bytes) where
    pub pm-After : Live 95 pos → After pos (process_pm_resp_data bytes pos)
    unfolding process_pm_resp_data shape is_finite_state is_special_state finite_states
        special_states contains
    pm-After l =
        let e : pos ≡ 4 = text-position (b'<' ∷ b'P' ∷ b'M' ∷ b':' ∷ []) 95 pos refl l in
        elim (Bool-cases (pos == sub64 (length bytes) 1)) [
          | inl last ↦ rw (last, process_pm_resp_data) (After-last 95 pos refl h (ground arith))
          | inr more ↦ elim (Bool-cases (length bytes == 7 || length bytes == 9)) [
            | inl code ↦
                rw (more, code, process_pm_resp_data)
                  (After-move 80 pos (sub32 pos 1) pos (omega arith) (omega arith) (omega arith)
                    refl l)
            | inr loaded ↦
                rw (more, loaded, process_pm_resp_data)
                  (After-move 96 pos _ (pos + (length bytes - 1 - pos)) (ground arith) (omega arith)
                    (omega arith) refl
                    (Live-concat 95 96 pos (length bytes - 1 - pos) pm_data refl l (omega arith) (
                      let n = length-rest pos (length bytes - 1 - pos) (omega arith) in
                      ground arith)))
          ]
        ]

    idf_incomplete-cases :
        (idf_incomplete bytes ≡ ok true)
        ⊎ (idf_incomplete bytes ≡ ok false) × ((length bytes ≡ 21) ⊎ (37 ≤ length bytes))
    unfolding idf_incomplete
    idf_incomplete-cases = elim (Bool-cases (length bytes == 21)) [
      | inl short ↦
          let n : length bytes ≡ 21 = ground arith in
          let g = get_elem?-get_or bytes 20 0 (omega arith) in
          elim (Bool-cases (get_or bytes 20 0 == 0x0D)) [
            | inl ends ↦ ground (arith, g)
            | inr open' ↦ ground (arith, g)
          ]
      | inr other ↦ ground arith
    ]

    tr_waiting : idf_incomplete bytes ≡ ok true → Returns pos (process_tr_info bytes pos)
    unfolding process_tr_info is_finite_state finite_states contains tr_info_end
    tr_waiting w = elim (Bool-cases (pos == sub64 (length bytes) 1)) [
      | inl last ↦ rw (last, process_tr_info) (inr (After-last 21 pos refl h (ground arith)))
      | inr more ↦
          rw (more, w, process_tr_info)
            (inr (record {
              keeps = inr (inr (refl, w));
              final_live = λ e. cc;
              bound = h;
              progress = inl (omega arith);
            }))
    ]

    tr-Live :
        Live 21 pos
        → idf_incomplete bytes ≡ ok false
        → (length bytes ≡ 21) ⊎ (37 ≤ length bytes)
        → Returns pos (process_tr_info bytes pos)
    unfolding process_tr_info is_finite_state is_special_state finite_states special_states contains
        tr_info_end shape
    tr-Live l w n =
        let e : pos ≡ 4 = text-position (b'<' ∷ b'I' ∷ b'T' ∷ b':' ∷ []) 21 pos refl l in
        elim (Bool-cases (pos == sub64 (length bytes) 1)) [
          | inl last ↦ rw (last, process_tr_info) (inr (After-last 21 pos refl h (ground arith)))
          | inr more ↦
              elim (Bool-cases (ltb (wrap32 (pos + module_data_size)) (sub64 (length bytes) 1))) [
                | inl long ↦
                    rw (more, w, long, process_tr_info)
                      (inr (
                        After-move 22 pos _ (pos + 32) (omega arith) (omega arith) (ground arith)
                          refl
                          (Live-concat 21 22 pos 32 idf refl l (ground arith)
                            (inr (length-rest pos 32 (ground arith))))))
                | inr short ↦
                    rw (more, w, short, process_tr_info)
                      (inr (
                        After-move 22 pos _ (pos + (length bytes - 1 - pos)) (ground arith)
                          (omega arith) (ground arith) refl
                          (Live-concat 21 22 pos (length bytes - 1 - pos) idf refl l (ground arith)
                            (let k = length-rest pos (length bytes - 1 - pos) (ground arith) in
                              ground arith))))
              ]
        ]

    pub tr-Returns : Inv 21 pos → Returns pos (process_tr_info bytes pos)
    tr-Returns (inl l) = elim idf_incomplete-cases [
      | inl w ↦ tr_waiting w
      | inr (w, n) ↦ tr-Live l w n
    ]
    tr-Returns (inr (inl e)) = absurd (omega arith)
    tr-Returns (inr (inr (_, w))) = tr_waiting w

    asyn_head :
        Live 50 pos → (pos ≡ 5) × (take 5 bytes ≡ b'<' ∷ b'D' ∷ b'R' ∷ get_or bytes 3 0 ∷ b':' ∷ [])
    unfolding shape
    asyn_head (_, m) =
        let (r, e, (b, u, f, (n, g), k)) =
          text_then-Matches (b'<' ∷ b'D' ∷ b'R' ∷ []) (any ∷ byte b':' ∷ []) (take pos bytes) m in
        let whole : take pos bytes ≡ b'<' ∷ b'D' ∷ b'R' ∷ n ∷ b':' ∷ [] =
          e ∙ rw (f, g, Matches-text (b':' ∷ []) u k) in
        let at5 : pos ≡ 5 = omega (arith, ap length whole, length-take pos bytes) in
        let whole5 : take 5 bytes ≡ b'<' ∷ b'D' ∷ b'R' ∷ n ∷ b':' ∷ [] = rw at5 at whole in
        let same : n ≡ get_or bytes 3 0 =
          sym (ap (λ xs. get_or xs 3 0) whole5) ∙ get_or-take 3 5 bytes 0 (omega arith) in
        (at5, whole5 ∙ ap (λ c. b'<' ∷ b'D' ∷ b'R' ∷ c ∷ b':' ∷ []) same)

    counted-Live :
        (n : ℕ)
        → pos ≡ 5
        → take 5 bytes ≡ b'<' ∷ b'D' ∷ b'R' ∷ n ∷ b':' ∷ []
        → pos + n ≤ length bytes
        → Live 51 (pos + n)
    unfolding shape
    counted-Live n e g b =
        let d : Ustring = take n (drop 5 bytes) in
        let k : length d ≡ n = rw e at (length-rest pos n b) in
        (
          b,
          rw (e, take-add 5 n (5 + n) bytes refl, g)
              (text-Matches (b'<' ∷ b'D' ∷ b'R' ∷ []) (counted ∷ []) (n ∷ b':' ∷ d)
                (n ∷ b':' ∷ d, [], sym (append-nil _), (n, d, refl, k), refl)),
        )

    length_byte : pos ≡ 5 → at bytes (sub32 pos 2) ≡ ok (get_or bytes 3 0)
    length_byte e = rw e (rw (get_elem?-get_or bytes 3 0 (omega arith)) refl)

    pub asyn-Returns : IsBytes bytes → Live 50 pos → Returns pos (process_asyn_data bytes pos)
    unfolding process_asyn_data is_finite_state is_special_state finite_states special_states
        contains asyn_data_end
    asyn-Returns v l =
        let (e, g) = asyn_head l in
        let n : ℕ = get_or bytes 3 0 in
        let b : n < 256 = All-get_or (λ c. c < 256) bytes 3 0 v (omega arith) in
        elim (Bool-cases (pos == sub64 (length bytes) 1)) [
          | inl last ↦ rw (last, process_asyn_data) (inr (After-last 50 pos refl h (ground arith)))
          | inr more ↦ elim (Bool-cases (leb (length bytes) (wrap32 (pos + n)))) [
            | inl short ↦
                rw (more, length_byte e, short, process_asyn_data)
                  (inr (record {
                    keeps = inr (inl (omega arith));
                    final_live = λ e'. cc;
                    bound = omega arith;
                    progress = inl (omega arith);
                  }))
            | inr whole ↦
                rw (more, length_byte e, whole, process_asyn_data)
                  (inr (
                    After-move 51 pos _ (pos + n) (omega arith) (omega arith) (ground arith) refl
                      (counted-Live n e g (ground arith))))
          ]
        ]
