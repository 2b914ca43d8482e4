-- ===== src/Security/Clauses/Closed.antt =====
-- What an expansion adds to a clause: only what predicates of it require, step by step.
use mathlib.Core.Path.{subst}
use subtask.Base.{
  ℕ, zero, suc, ◌≡◌, inl, inr, [], ◌∷◌, All, All-append, contains, Bool-cases, ok, ok-injective,
  bind-eq-ok,
}
use subtask.Security.Clauses.{
  Entry, entry_eq, Clause, Expansion, requires_of, expand_each, yield_entry, expand_predicate,
  expand_clause,
}

-- `P` passes from what requires to what is required.
module _ (P : Entry → Type 0) (closed : (e : Entry) → P e → All P (requires_of e)) where
  abbrev Passes : (Entry → Clause → Expansion) → Type 0
  Passes expand =
      (e : Entry) (seen : Clause) (r : Clause × Clause) → expand e seen ≡ ok r → P e → All P r.0

  expand_each-All :
      (expand : Entry → Clause → Expansion)
      → Passes expand
      → (es seen : Clause) (r : Clause × Clause) → expand_each expand es seen ≡ ok r
      → All P es
      → All P r.0
  unfolding expand_each
  expand_each-All expand passes [] seen r h k = subst (λ r. All P r.0) (ok-injective _ _ h) tt
  expand_each-All expand passes (e ∷ es) seen r h (k, ks) =
      let (first, p, h') = bind-eq-ok (expand e seen) _ h in
      let (rest, q, h'') = bind-eq-ok (expand_each expand es first.1) _ h' in
      subst (λ r. All P r.0) (ok-injective _ _ h'')
        (All-append P first.0 rest.0 (passes e seen first p k)
          (expand_each-All expand passes es first.1 rest q ks))

  yield_entry-All : (e : Entry) (r : Clause × Clause) → P e → All P r.0 → All P (yield_entry e r).0
  unfolding yield_entry
  yield_entry-All e (out, seen) k ks = elim (Bool-cases (contains seen e)) [
    | inl old ↦ rw old ks
    | inr new ↦ rw new (All-append P out (e ∷ []) ks (k, tt))
  ]

  expand_predicate-All : (n : ℕ) → Passes (expand_predicate n)
  unfolding expand_predicate
  expand_predicate-All zero e seen r h k = cc
  expand_predicate-All (suc n) e seen r h k =
      let expand = expand_predicate n in
      let (parents, p, h') = bind-eq-ok (expand_each expand (requires_of e) seen) _ h in
      subst (λ r. All P r.0) (ok-injective _ _ h')
        (yield_entry-All e parents k (
          expand_each-All expand (expand_predicate-All n) (requires_of e) seen parents p
            (closed e k)))

  pub expand_clause-All :
      (n : ℕ) (clause out : Clause) → expand_clause n clause ≡ ok out → All P clause → All P out
  unfolding expand_clause
  expand_clause-All n clause out h ks =
      let expand = expand_predicate n in
      let (r, p, h') = bind-eq-ok (expand_each expand clause []) _ h in
      subst (All P) (ok-injective _ _ h')
        (expand_each-All expand (expand_predicate-All n) clause [] r p ks)
