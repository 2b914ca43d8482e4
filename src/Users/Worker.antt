-- ===== src/Users/Worker.antt =====
-- LimitedWorker of services/user_delete.py: statements that change at most so many rows. Which of the
-- matching rows a limit leaves is the order of the list.
use subtask.Base.{
  ℕ, zero, suc, ◌≡◌, ◌≤◌, ◌<◌, refl, Bool, false, List, [], ◌∷◌, length, filter, any, if◌then◌else◌,
  arith,
}

module _ {ℓ} {A : Type ℓ} where
  -- `select(…).limit(n)`: the rows that the statement changes.
  unfoldable pub selected : (A → Bool) → ℕ → List A → List A
  selected test n [] = []
  selected test zero (x ∷ rows) = []
  selected test (suc n) (x ∷ rows) =
      let rest = selected test n rows in
      let all = selected test (suc n) rows in if test x then x ∷ rest else all

  -- The table after `update(…).values(…)`
  unfoldable pub updated : (A → Bool) → (A → A) → ℕ → List A → List A
  updated test change n [] = []
  updated test change zero (x ∷ rows) = x ∷ rows
  updated test change (suc n) (x ∷ rows) =
      let rest = updated test change n rows in
      let all = updated test change (suc n) rows in if test x then change x ∷ rest else x ∷ all

  -- The table after `delete(…)`
  unfoldable pub deleted : (A → Bool) → ℕ → List A → List A
  deleted test n [] = []
  deleted test zero (x ∷ rows) = x ∷ rows
  deleted test (suc n) (x ∷ rows) =
      let rest = deleted test n rows in
      let all = deleted test (suc n) rows in if test x then rest else x ∷ all

  count : (A → Bool) → List A → ℕ
  count test rows = length (filter test rows)

  -- A statement changes at most as many rows as the limit is, and if it changes fewer then no row that
  -- matches is left.
  pub selected_bound : (test : A → Bool) (n : ℕ) (rows : List A) → length (selected test n rows) ≤ n
  unfolding selected
  selected_bound test n [] = omega arith
  selected_bound test zero (x ∷ rows) = omega arith
  selected_bound test (suc n) (x ∷ rows) =
      ground (arith, selected_bound test n rows, selected_bound test (suc n) rows)

  pub any-deleted :
      (test : A → Bool) (n : ℕ) (rows : List A)
      → length (selected test n rows) < n
      → any test (deleted test n rows) ≡ false
  unfolding selected deleted
  any-deleted test n [] h = refl
  any-deleted test zero (x ∷ rows) h = absurd (omega arith)
  any-deleted test (suc n) (x ∷ rows) h =
      ground (arith, any-deleted test n rows, any-deleted test (suc n) rows)

  pub any-updated :
      (test : A → Bool) (change : A → A) (n : ℕ) (rows : List A)
      → ((x : A) → test (change x) ≡ false)
      → length (selected test n rows) < n
      → any test (updated test change n rows) ≡ false
  unfolding selected updated
  any-updated test change n [] off h = refl
  any-updated test change zero (x ∷ rows) off h = absurd (omega arith)
  any-updated test change (suc n) (x ∷ rows) off h =
      ground
        (arith, off x, any-updated test change n rows off, any-updated test change (suc n) rows off)
