-- ===== src/Security/Clauses/Order.antt =====
-- The order of an expanded clause: parents first, and nothing twice.
use mathlib.Core.Path.{subst}
use mathlib.Core.List.{append-nil, append_assoc}
use subtask.Base.{
  ℕ, zero, suc, ◌≡◌, sym, ◌∙◌, ap, true, false, inl, inr, [], ◌∷◌, ◌++◌, All, contains,
  contains-append, contains-append_single, Bool-cases, ok, ok-injective, bind-eq-ok, arith,
}
use subtask.Security.Clauses.{
  Entry, entry_eq, Clause, Expansion, requires_of, expand_each, yield_entry, expand_predicate,
  expand_clause,
}

-- Of entries that come after those in `seen`: none was seen, and what each requires was.
abbrev pub IsOrdered : Clause → Clause → Type 0
IsOrdered seen [] = Unit
IsOrdered seen (e ∷ es) =
    (contains seen e ≡ false)
    × All (λ r. contains seen r ≡ true) (requires_of e)
    × IsOrdered (seen ++ (e ∷ [])) es

IsOrdered-append :
    (seen xs ys : Clause)
    → IsOrdered seen xs
    → IsOrdered (seen ++ xs) ys
    → IsOrdered seen (xs ++ ys)
IsOrdered-append seen [] ys h k = rw append-nil at k
IsOrdered-append seen (x ∷ xs) ys (new, parents, rest) k =
    (new, parents, IsOrdered-append (seen ++ (x ∷ [])) xs ys rest (rw append_assoc k))

-- What an expansion of `es` that began with `seen` has yielded and seen.
pub record Expands (seen es : Clause) (r : Clause × Clause) : Type 0 where
  pub adds : r.1 ≡ seen ++ r.0
  pub ordered : IsOrdered seen r.0
  pub covers : All (λ e. contains r.1 e ≡ true) es

contains-append_left :
    (seen out : Clause) (e : Entry) → contains seen e ≡ true → contains (seen ++ out) e ≡ true
contains-append_left seen out e h = rw (contains-append, h)

covers_more :
    (es seen out : Clause)
    → All (λ e. contains seen e ≡ true) es
    → All (λ e. contains (seen ++ out) e ≡ true) es
covers_more [] seen out h = tt
covers_more (e ∷ es) seen out (now, later) =
    (contains-append_left seen out e now, covers_more es seen out later)

-- The rule for one entry and then the rest.
Expands-cons :
    (seen es : Clause) (e : Entry) (first rest : Clause × Clause)
    → Expands seen (e ∷ []) first
    → Expands first.1 es rest
    → Expands seen (e ∷ es) (first.0 ++ rest.0, rest.1)
Expands-cons seen es e first rest h k = record {
  adds = k.adds ∙ ap (λ s. s ++ rest.0) h.adds ∙ append_assoc seen first.0 rest.0;
  ordered = IsOrdered-append seen first.0 rest.0 h.ordered (rw (← h.adds) k.ordered);
  covers = (rw k.adds (contains-append_left first.1 rest.0 e h.covers.0), k.covers);
}

abbrev Each : (Entry → Clause → Expansion) → Type 0
Each expand =
    (e : Entry) (seen : Clause) (r : Clause × Clause)
    → expand e seen ≡ ok r
    → Expands seen (e ∷ []) r

expand_each-Expands :
    (expand : Entry → Clause → Expansion)
    → Each expand
    → (es seen : Clause) (r : Clause × Clause) → expand_each expand es seen ≡ ok r
    → Expands seen es r
unfolding expand_each
expand_each-Expands expand each [] seen r h =
    subst (Expands seen []) (ok-injective _ _ h)
      (record { adds = sym (append-nil seen); ordered = tt; covers = tt })
expand_each-Expands expand each (e ∷ es) seen r h =
    let (first, p, h') = bind-eq-ok (expand e seen) _ h in
    let (rest, q, h'') = bind-eq-ok (expand_each expand es first.1) _ h' in
    subst (Expands seen (e ∷ es)) (ok-injective _ _ h'') (
      Expands-cons seen es e first rest (each e seen first p)
        (expand_each-Expands expand each es first.1 rest q))

-- An entry that its parents have been expanded for.
yield_entry-Expands :
    (e : Entry) (seen : Clause) (r : Clause × Clause)
    → Expands seen (requires_of e) r
    → Expands seen (e ∷ []) (yield_entry e r)
unfolding yield_entry
yield_entry-Expands e seen (out, seen') h = elim (Bool-cases (contains seen' e)) [
  | inl old ↦ rw old (record { adds = h.adds; ordered = h.ordered; covers = (old, tt) })
  | inr new ↦ rw new (record {
    adds = ap (λ s. s ++ (e ∷ [])) h.adds ∙ append_assoc seen out (e ∷ []);
    ordered =
        IsOrdered-append seen out (e ∷ []) h.ordered
          (rw (← h.adds) new, rw (← h.adds) h.covers, tt);
    covers = (ground (arith, contains-append_single seen' e e), tt);
  })
]

expand_predicate-Expands : (n : ℕ) → Each (expand_predicate n)
unfolding expand_predicate
expand_predicate-Expands zero e seen r h = cc
expand_predicate-Expands (suc n) e seen r h =
    let expand = expand_predicate n in
    let (parents, p, h') = bind-eq-ok (expand_each expand (requires_of e) seen) _ h in
    subst (Expands seen (e ∷ [])) (ok-injective _ _ h') (
      yield_entry-Expands e seen parents
        (expand_each-Expands expand (expand_predicate-Expands n) (requires_of e) seen parents p))

-- The clause that `resolve_predicates` puts in place of another is in order, and lists all that
-- the other lists.
pub expand_clause-IsOrdered :
    (n : ℕ) (clause out : Clause)
    → expand_clause n clause ≡ ok out
    → IsOrdered [] out × All (λ e. contains out e ≡ true) clause
unfolding expand_clause
expand_clause-IsOrdered n clause out h =
    let expand = expand_predicate n in
    let (r, p, h') = bind-eq-ok (expand_each expand clause []) _ h in
    let result = expand_each-Expands expand (expand_predicate-Expands n) clause [] r p in
    subst (λ o. IsOrdered [] o × All (λ e. contains o e ≡ true) clause) (ok-injective _ _ h')
      (result.ordered, rw (← result.adds) result.covers)
