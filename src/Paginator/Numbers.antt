-- ===== src/Paginator/Numbers.antt =====
-- The numbers that the page navigation shows.
use subtask.Base.{
  ℕ, zero, suc, ◌+◌, ◌-◌, ◌≤◌, ◌<◌, ◌≡◌, List, [], ◌∷◌, ◌++◌, ltb, ltb-true, ltb-false, arith,
  Bool-cases, inl, inr,
}
use subtask.Paginator.{PageNumber, page, ellipsis, left_of, right_of, page_numbers}

-- After the page `prev` come the next page, or an ellipsis and a page that leaves some out, up to the last.
abbrev pub Joined : ℕ → ℕ → List PageNumber → Type 0
Joined last prev [] = prev ≡ last
Joined last prev (page n ∷ rest) = (n ≡ prev + 1) × Joined last n rest
Joined last prev (ellipsis ∷ page n ∷ rest) = (prev + 1 < n) × Joined last n rest
Joined last prev (ellipsis ∷ ellipsis ∷ rest) = ⊥
Joined last prev (ellipsis ∷ []) = ⊥

Joined-left :
    (last cur : ℕ) (rest : List PageNumber)
    → 1 ≤ cur
    → Joined last cur rest
    → Joined last 0 (left_of cur ++ (page cur ∷ rest))
unfolding left_of
Joined-left last zero rest h j = absurd (omega arith)
Joined-left last (suc zero) rest h j = ground arith
Joined-left last (suc (suc zero)) rest h j = ground arith
Joined-left last (suc (suc (suc zero))) rest h j = ground arith
Joined-left last (suc (suc (suc (suc n)))) rest h j =
    let start : suc (suc (suc (suc n))) - 3 ≡ suc n = omega arith in
    let rounds : suc (suc (suc (suc n))) - suc n ≡ 3 = omega arith in
    rw start (
      rw rounds (
        rw (ltb-true 1 (suc (suc (suc (suc n)))) (omega arith)) (elim (Bool-cases (ltb 2 (suc n))) [
          | inl p ↦ rw p (
              rw (ltb-true 1 (suc n) (ground arith)) (
                rw (ltb-true 1 (suc n + 1) (ground arith))
                  (rw (ltb-true 1 (suc n + 1 + 1) (ground arith)) (ground arith))))
          | inr p ↦ rw p (elim (Bool-cases (ltb 1 (suc n))) [
            | inl q ↦ rw q (
                rw (ltb-true 1 (suc n + 1) (ground arith))
                  (rw (ltb-true 1 (suc n + 1 + 1) (ground arith)) (ground arith)))
            | inr q ↦ rw q (
                rw (ltb-true 1 (suc n + 1) (ground arith))
                  (rw (ltb-true 1 (suc n + 1 + 1) (ground arith)) (ground arith)))
          ])
        ])))

Joined-right : (last cur : ℕ) → cur ≤ last → Joined last cur (right_of cur last)
unfolding right_of
Joined-right last cur h = elim (Bool-cases (ltb (cur + 1) last)) [
  | inl p ↦ rw p (
      rw (ltb-true cur last (ground arith)) (elim (Bool-cases (ltb (cur + 1 + 1) last)) [
        | inl q ↦ rw q (elim (Bool-cases (ltb (cur + 1 + 1 + 1) last)) [
          | inl r ↦ rw r (elim (Bool-cases (ltb (cur + 3 + 1) last)) [
            | inl t ↦ rw t (ground arith)
            | inr t ↦ rw t (ground arith)
          ])
          | inr r ↦ rw r (rw (ltb-false (cur + 3 + 1) last (ground arith)) (ground arith))
        ])
        | inr q ↦ rw q (rw (ltb-false (cur + 3 + 1) last (ground arith)) (ground arith))
      ]))
  | inr p ↦ rw p (
      rw (ltb-false (cur + 3 + 1) last (ground arith)) (elim (Bool-cases (ltb cur last)) [
        | inl q ↦ rw q (ground arith)
        | inr q ↦ rw q (ground arith)
      ]))
]

-- The numbers shown begin with 1 and end with the last page, and go up by one but for ellipses, each
-- of which stands for some pages that are left out.
pub Joined-page_numbers :
    (last cur : ℕ) → 1 ≤ cur → cur ≤ last → Joined last 0 (page_numbers cur last)
unfolding page_numbers
Joined-page_numbers last cur h k =
    Joined-left last cur (right_of cur last) h (Joined-right last cur k)
