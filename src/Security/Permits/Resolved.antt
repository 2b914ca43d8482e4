-- ===== src/Security/Permits/Resolved.antt =====
-- `identity_permits` over a map that `resolve_predicates` has made: what it answers is what the
-- clauses mean before they are expanded.
use mathlib.Core.Path.{subst}
use subtask.Base.{
  ℕ, suc, ◌≡◌, refl, ap, ◌∙◌, Bool, false, ◌||◌, inl, inr, Option, none, some, List, [], ◌∷◌, All,
  Bool-cases, Result, ok, ok-injective, bind-eq-ok, any_ok, any_ok-cons, all_ok, ◌==◌,
}
use subtask.Security.Permission.{Permission, permission_eq}
use subtask.Security.Identity.{Identity, Context}
use subtask.Security.Predicates.{Error}
use subtask.Security.Clauses.{
  Clause, Mapping, expand_clause, map_ok, resolve_entry, resolve_predicates,
}
use subtask.Security.Permits.{clauses_of, predicate_true, identity_permits}
use subtask.Security.Permits.Clauses.{meets_all, Answered, all_ok-expand_clause}

-- Some clause of the permission is met; a permission that the map lacks has no clause.
module _ (i : Option Identity) (c : Context) (answers : Permission → Bool) where
  abbrev pub meets_any : List Clause → Bool
  meets_any [] = false
  meets_any (clause ∷ clauses) = meets_all i c answers clause || meets_any clauses

  abbrev pub decides : Option (List Clause) → Bool
  decides none = false
  decides (some clauses) = meets_any clauses

-- The clauses of an entry of the resolved map are those of the map, expanded.
abbrev Expanded : ℕ → Option (List Clause) → Option (List Clause) → Type 0
Expanded n none none = Unit
Expanded n (some clauses) (some outs) = map_ok (expand_clause n) clauses ≡ ok outs
Expanded n _ _ = ⊥

map_ok-cons :
    {A B : Type 0} (f : A → Result Error B) (x : A) (xs : List A) (out : List B)
    → map_ok f (x ∷ xs) ≡ ok out
    → (y : B) × (ys : List B) × (f x ≡ ok y) × (map_ok f xs ≡ ok ys) × (y ∷ ys ≡ out)
map_ok-cons f x xs out h =
    let (y, p, h') = bind-eq-ok (f x) _ h in
    let (ys, q, h'') = bind-eq-ok (map_ok f xs) _ h' in (y, ys, p, q, ok-injective _ _ h'')

clauses_of-Expanded :
    (n : ℕ) (p : Permission) (mapping resolved : Mapping)
    → resolve_predicates n mapping ≡ ok resolved
    → Expanded n (clauses_of p mapping) (clauses_of p resolved)
unfolding resolve_predicates clauses_of
clauses_of-Expanded n p [] resolved h =
    subst (λ r. Expanded n none (clauses_of p r)) (ok-injective _ _ h) tt
clauses_of-Expanded n p ((key, clauses) ∷ mapping) resolved h =
    let (entry, rest, h', q, e) = map_ok-cons (resolve_entry n) (key, clauses) mapping resolved h in
    let (outs, r, h'') = bind-eq-ok (map_ok (expand_clause n) clauses) _ h' in
    subst (λ r. Expanded n (clauses_of p ((key, clauses) ∷ mapping)) (clauses_of p r))
      (ap (λ x. x ∷ rest) (ok-injective (key, outs) entry h'') ∙ e)
      (elim (Bool-cases (p == key)) [
        | inl found ↦ rw found r
        | inr other ↦ rw other (clauses_of-Expanded n p mapping rest q)
      ])

module _ (i : Option Identity) (c : Context) (permits : Permission → Result Error Bool)
    (answers : Permission → Bool) where
  any_ok-meets_any :
      (n : ℕ) (clauses outs : List Clause)
      → map_ok (expand_clause n) clauses ≡ ok outs
      → All (All (Answered i c permits answers)) clauses
      → any_ok (all_ok (predicate_true i c permits)) outs ≡ ok (meets_any i c answers clauses)
  any_ok-meets_any n [] outs h a =
      subst (λ o. any_ok (all_ok (predicate_true i c permits)) o ≡ ok false) (ok-injective _ _ h)
        refl
  any_ok-meets_any n (clause ∷ clauses) outs h (a, later) =
      let (out, rest, p, q, e) = map_ok-cons (expand_clause n) clause clauses outs h in
      let test = all_ok (predicate_true i c permits) in
      let step = all_ok-expand_clause i c permits answers n clause out p a in
      subst (λ o. any_ok test o ≡ ok (meets_any i c answers (clause ∷ clauses))) e
        (any_ok-cons test out rest (meets_all i c answers clause) step
          ∙ elim (Bool-cases (meets_all i c answers clause)) [
            | inl met ↦ rw met
            | inr unmet ↦ rw unmet (any_ok-meets_any n clauses rest q later)
          ])

-- For each permission that the clauses list, a call with fuel `m` has the answer.
abbrev pub AllAnswered :
    Mapping → Option Identity → Context → (Permission → Bool) → ℕ → Option (List Clause) → Type 0
AllAnswered resolved i c answers m none = Unit
AllAnswered resolved i c answers m (some clauses) =
    All (All (Answered i c (identity_permits resolved i c m) answers)) clauses

identity_permits-Expanded :
    (mapping : Mapping) (i : Option Identity) (c : Context) (answers : Permission → Bool) (n m : ℕ)
    (p : Permission) (clauses outs : Option (List Clause))
    → clauses_of p mapping ≡ outs
    → Expanded n clauses outs
    → AllAnswered mapping i c answers m clauses
    → identity_permits mapping i c (suc m) p ≡ ok (decides i c answers clauses)
unfolding identity_permits
identity_permits-Expanded mapping i c answers n m p none none e h a = rw (e, identity_permits)
identity_permits-Expanded mapping i c answers n m p (some clauses) none e h a = absurd h
identity_permits-Expanded mapping i c answers n m p none (some outs) e h a = absurd h
identity_permits-Expanded mapping i c answers n m p (some clauses) (some outs) e h a =
    rw (e, identity_permits)
      (any_ok-meets_any i c (identity_permits mapping i c m) answers n clauses outs h a)

-- Over a resolved map `identity_permits` raises no AttributeError, and answers by the clauses as
-- they were declared, given the answers for the permissions that those clauses list.
pub identity_permits-resolve_predicates :
    (n : ℕ) (mapping resolved : Mapping)
    → resolve_predicates n mapping ≡ ok resolved
    → (i : Option Identity) (c : Context) (answers : Permission → Bool) (m : ℕ) (p : Permission)
    → AllAnswered resolved i c answers m (clauses_of p mapping)
    → identity_permits resolved i c (suc m) p ≡ ok (decides i c answers (clauses_of p mapping))
identity_permits-resolve_predicates n mapping resolved h i c answers m p a =
    identity_permits-Expanded resolved i c answers n m p (clauses_of p mapping)
      (clauses_of p resolved) refl (clauses_of-Expanded n p mapping resolved h) a
