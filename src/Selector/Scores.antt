-- ===== src/Selector/Scores.antt =====
-- The two-pass reading of the selection: all scores first, then the indices of the highest.
use cartographer.Prelude.{
  ℕ, zero, suc, max, ◌≤◌, ◌<◌, ◌+◌, ◌≡◌, refl, Option, none, some, List, [], ◌∷◌, ◌++◌,
  append_assoc, append-nil, Bool, true, false, ◌↔◌, any, get_elem?, arith, eqb, ltb, if◌then◌else◌,
}

-- The highest score, where one is above `high`.
unfoldable pub top : ℕ → List (Option ℕ) → ℕ
top high [] = high
top high (none ∷ rest) = top high rest
top high (some score ∷ rest) = top (max high score) rest

-- The positions of a score, counted from `idx`.
unfoldable pub positions : ℕ → ℕ → List (Option ℕ) → List ℕ
positions score idx [] = []
positions score idx (none ∷ rest) = positions score (suc idx) rest
positions score idx (some s ∷ rest) =
    let later = positions score (suc idx) rest in if eqb s score then idx ∷ later else later

-- The one-pass loop over scores.
unfoldable pub one_pass : ℕ → List (Option ℕ) → ℕ → List ℕ → List ℕ
one_pass idx [] high best = best
one_pass idx (none ∷ rest) high best = one_pass (suc idx) rest high best
one_pass idx (some score ∷ rest) high best =
    let same = one_pass (suc idx) rest high (best ++ idx ∷ []) in
    let higher = one_pass (suc idx) rest score (idx ∷ []) in
    let lower = one_pass (suc idx) rest high best in
    if eqb score high then same else if ltb high score then higher else lower

pub top-ge : (high : ℕ) (ss : List (Option ℕ)) → high ≤ top high ss
unfolding top
top-ge high [] = omega arith
top-ge high (none ∷ rest) = top-ge high rest
top-ge high (some score ∷ rest) = omega (arith, top-ge (max high score) rest)

-- Every score is at most the highest.
pub All-le-top :
    (high : ℕ) (ss : List (Option ℕ)) (i s : ℕ) → get_elem? ss i ≡ some (some s) → s ≤ top high ss
unfolding top
All-le-top high [] i s h = ground arith
All-le-top high (none ∷ rest) zero s h = ground arith
All-le-top high (none ∷ rest) (suc i) s h = All-le-top high rest i s h
All-le-top high (some score ∷ rest) zero s h = ground (arith, top-ge (max high score) rest)
All-le-top high (some score ∷ rest) (suc i) s h = All-le-top (max high score) rest i s h

abbrev seen : ℕ → ℕ → List ℕ → List ℕ → List ℕ
seen t high best later = if eqb t high then best ++ later else later

module _ (idx score high : ℕ) (best : List ℕ) (rest : List (Option ℕ)) where
  abbrev After : ℕ → List ℕ → Type 0
  After h b =
      one_pass (suc idx) rest h b ≡ seen (top h rest) h b (positions (top h rest) (suc idx) rest)

  one_pass_step :
      After high (best ++ idx ∷ [])
      → After score (idx ∷ [])
      → After high best
      → one_pass idx (some score ∷ rest) high best
        ≡ seen
            (top (max high score) rest)
            high
            best
            (positions (top (max high score) rest) idx (some score ∷ rest))
  unfolding one_pass positions
  one_pass_step same higher lower =
      let t = top (max high score) rest in
      ground (
        arith,
        top-ge (max high score) rest,
        append_assoc best (idx ∷ []) (positions t (suc idx) rest),
      )

pub one_pass_lem :
    (idx : ℕ) (ss : List (Option ℕ)) (high : ℕ) (best : List ℕ)
    → one_pass idx ss high best ≡ seen (top high ss) high best (positions (top high ss) idx ss)
unfolding one_pass top positions
one_pass_lem idx [] high best = ground (arith, append-nil best)
one_pass_lem idx (none ∷ rest) high best = one_pass_lem (suc idx) rest high best
one_pass_lem idx (some score ∷ rest) high best =
    one_pass_step idx score high best rest (one_pass_lem (suc idx) rest high (best ++ idx ∷ []))
      (one_pass_lem (suc idx) rest score (idx ∷ [])) (one_pass_lem (suc idx) rest high best)

-- A position is listed exactly where the list has that score.
abbrev pub listed : ℕ → List ℕ → Bool
listed i = any (λ j. eqb j i)

-- Nothing before `idx` is listed.
positions-gt :
    (score idx : ℕ) (ss : List (Option ℕ)) (i : ℕ)
    → i < idx
    → listed i (positions score idx ss) ≡ false
unfolding positions
positions-gt score idx [] i h = refl
positions-gt score idx (none ∷ rest) i h = positions-gt score (suc idx) rest i (omega arith)
positions-gt score idx (some s ∷ rest) i h = ground (arith, positions-gt score (suc idx) rest i)

pub listed-positions :
    (score idx : ℕ) (ss : List (Option ℕ)) (i : ℕ)
    → (listed (idx + i) (positions score idx ss) ≡ true) ↔ (get_elem? ss i ≡ some (some score))
unfolding positions
listed-positions score idx [] i = (λ h. ground arith, λ h. ground arith)
listed-positions score idx (none ∷ rest) zero =
    (λ h. ground (arith, positions-gt score (suc idx) rest (idx + 0)), λ h. ground arith)
listed-positions score idx (none ∷ rest) (suc i) =
    let ih = listed-positions score (suc idx) rest i in
    (λ h. ground (arith, ih.0), λ h. ground (arith, ih.1))
listed-positions score idx (some s ∷ rest) zero =
    (λ h. ground (arith, positions-gt score (suc idx) rest (idx + 0)), λ h. ground arith)
listed-positions score idx (some s ∷ rest) (suc i) =
    let ih = listed-positions score (suc idx) rest i in
    (λ h. ground (arith, ih.0), λ h. ground (arith, ih.1))
