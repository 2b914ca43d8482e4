-- ===== src/Users/Counts.antt =====
-- How many rows a statement leaves.
use subtask.Base.{
  ℕ, zero, suc, ◌+◌, ◌≡◌, ◌≤◌, Bool, true, false, List, [], ◌∷◌, length, filter, any, arith, ◌==◌,
  nat_eq, option_eq, string_eq,
}
use subtask.Models.{Group}
use subtask.Users.Worker.{selected, updated, deleted}
use subtask.Users.Purge.{without_creator}

module _ {A : Type 0} where
  abbrev pub count : (A → Bool) → List A → ℕ
  count test rows = length (filter test rows)

  pub count-deleted :
      (test other : A → Bool) (n : ℕ) (rows : List A)
      → ((x : A) → test x ≡ true → other x ≡ true)
      → count other (deleted test n rows) + length (selected test n rows) ≤ count other rows
  unfolding selected deleted
  count-deleted test other n [] h = omega arith
  count-deleted test other zero (x ∷ rows) h = omega arith
  count-deleted test other (suc n) (x ∷ rows) h =
      ground
        (arith, h x, count-deleted test other n rows h, count-deleted test other (suc n) rows h)

  pub count-updated :
      (test : A → Bool) (change : A → A) (n : ℕ) (rows : List A)
      → ((x : A) → test (change x) ≡ false)
      → count test (updated test change n rows) + length (selected test n rows) ≤ count test rows
  unfolding selected updated
  count-updated test change n [] h = omega arith
  count-updated test change zero (x ∷ rows) h = omega arith
  count-updated test change (suc n) (x ∷ rows) h =
      ground
        (arith, h x, count-updated test change n rows h, count-updated test change (suc n) rows h)

  pub count-filter :
      (test other keep : A → Bool) (rows : List A)
      → ((x : A) → test x ≡ true → other x ≡ true)
      → count test (filter keep rows) ≤ count other rows
  count-filter test other keep [] h = omega arith
  count-filter test other keep (x ∷ rows) h =
      ground (arith, h x, count-filter test other keep rows h)

pub count-weaker :
    {A : Type 0} (test other : A → Bool) (rows : List A)
    → ((x : A) → test x ≡ true → other x ≡ true)
    → count test rows ≤ count other rows
count-weaker test other [] h = omega arith
count-weaker test other (x ∷ rows) h = ground (arith, h x, count-weaker test other rows h)

pub any-deleted_group :
    (id n : ℕ) (test : Group → Bool) (groups : List Group)
    → any (λ g. g.id == id) (deleted test n groups) ≡ true
    → any (λ g. g.id == id) groups ≡ true
unfolding deleted
any-deleted_group id n test [] h = h
any-deleted_group id zero test (g ∷ groups) h = h
any-deleted_group id (suc n) test (g ∷ groups) h =
    ground (arith, any-deleted_group id n test groups, any-deleted_group id (suc n) test groups)

pub any-updated_group :
    (id n : ℕ) (test : Group → Bool) (groups : List Group)
    → any (λ g. g.id == id) (updated test without_creator n groups) ≡ true
    → any (λ g. g.id == id) groups ≡ true
unfolding updated
any-updated_group id n test [] h = h
any-updated_group id zero test (g ∷ groups) h = h
any-updated_group id (suc n) test (g ∷ groups) h =
    ground (arith, any-updated_group id n test groups, any-updated_group id (suc n) test groups)
