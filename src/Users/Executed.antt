-- ===== src/Users/Executed.antt =====
-- The statements of a purge, one by one.
use mathlib.Core.Path.{subst}
use subtask.Base.{
  ℕ, zero, suc, ◌≡◌, ◌≤◌, refl, Bool, true, false, Option, none, some, List, [], ◌∷◌, length,
  filter, any, ltb, if◌then◌else◌, arith, ◌==◌, nat_eq, option_eq, string_eq,
}
use subtask.Models.{Group}
use subtask.Annotations.Tables.{UserId}
use subtask.Users.Worker.{updated, deleted}
use subtask.Users.Purge.{
  Membership, Purge, Outcome, done, limit_reached, ◌then◌, is_member, without_creator, execute,
}

module _ {S : Type 0} where
  done-injective : (a b : S) → ◌≡◌ {A = Outcome S} (done a) (done b) → a ≡ b
  done-injective a b h = cc

  pub then-done :
      (o : Outcome S) (f : S → Outcome S) {q : S}
      → (o then f) ≡ done q
      → (r : S) × (o ≡ done r) × (f r ≡ done q)
  then-done (done r) f h = (r, refl, h)
  then-done (limit_reached r) f h = cc

  unless_low :
      (low : Bool) (p q : S) {r : S}
      → (if low then limit_reached p else done q) ≡ done r
      → (low ≡ false) × (q ≡ r)
  unless_low true p q h = cc
  unless_low false p q {r} h = (refl, done-injective q r h)

any_none :
    {A : Type 0} (test : A → Bool) (rows : List A)
    → length (filter test rows) ≤ 0
    → any test rows ≡ false
any_none test [] h = refl
any_none test (x ∷ rows) h = ground (arith, any_none test rows)

pub no_creator : (id : ℕ) → (◌==◌ {A = Option ℕ} none (some id)) ≡ false
unfolding option_eq
no_creator id = ground arith

any-deleted_none :
    {A : Type 0} (test : A → Bool) (n : ℕ) (rows : List A)
    → length (filter test rows) ≤ 0
    → any test (deleted test n rows) ≡ false
unfolding deleted
any-deleted_none test n [] h = refl
any-deleted_none test zero (x ∷ rows) h = any_none test (x ∷ rows) h
any-deleted_none test (suc n) (x ∷ rows) h = ground (arith, any-deleted_none test (suc n) rows)

-- Deleting the one row there may be that matches.
pub any-deleted_one :
    {A : Type 0} (test : A → Bool) (n : ℕ) (rows : List A)
    → length (filter test rows) ≤ 1
    → 1 ≤ n
    → any test (deleted test n rows) ≡ false
unfolding deleted
any-deleted_one test n [] h k = refl
any-deleted_one test zero (x ∷ rows) h k = absurd (omega arith)
any-deleted_one test (suc n) (x ∷ rows) h k =
    ground (arith, any-deleted_none test n rows, any-deleted_one test (suc n) rows)

any-without_creator :
    (id : ℕ) (test : Group → Bool) (n : ℕ) (groups : List Group)
    → any (λ g. g.id == id) (updated test without_creator n groups) ≡ any (λ g. g.id == id) groups
unfolding updated
any-without_creator id test n [] = refl
any-without_creator id test zero (g ∷ groups) = refl
any-without_creator id test (suc n) (g ∷ groups) =
    ground (arith, any-without_creator id test n groups, any-without_creator id test (suc n) groups)

pub members-without_creator :
    (user : UserId) (test : Group → Bool) (n : ℕ) (groups : List Group) (rows : List Membership)
    → any (is_member user (updated test without_creator n groups)) rows
      ≡ any (is_member user groups) rows
members-without_creator user test n groups [] = refl
members-without_creator user test n groups (m ∷ rows) = ground (
  arith,
  any-without_creator m.group_id test n groups,
  members-without_creator user test n groups rows,
)

module _ {Metadata : Type 0} where
  -- A statement that was run began with a limit of at least 1.
  pub executed :
      (P Q : Purge Metadata → Type 0) (p q r : Purge Metadata)
      → execute p q ≡ done r
      → (1 ≤ p.limit → P p)
      → (P p → 1 ≤ p.limit → Q q)
      → Q r
  unfolding execute
  executed P Q p q r h before after =
      let (high, same) = unless_low (ltb p.limit 1) p q h in
      let room : 1 ≤ p.limit = ground arith in subst Q same (after (before room) room)
