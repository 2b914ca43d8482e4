-- ===== src/Security/Permits/Clauses.antt =====
-- An expanded clause is evaluated without an error, to what the clause means before expansion.
use mathlib.Core.Bool.{false≢true}
use subtask.Base.{
  ℕ, ◌≡◌, refl, ap, ◌∙◌, Bool, true, ◌&&◌, inl, inr, Option, [], ◌∷◌, ◌++◌, All, contains,
  contains-append_single, Bool-cases, Result, ok, all_ok, all_ok-cons, arith, All-map, All-of_map,
  All-of_forall, All-contains, Bool-eq_of_iff, All-weaken,
}
use subtask.Security.Permission.{Permission}
use subtask.Security.Identity.{Identity, Context}
use subtask.Security.Predicates.{Error, requires}
use subtask.Security.Predicates.Holds.{holds, run-holds, requires-holds}
use subtask.Security.Clauses.{
  Entry, predicate, permission, entry_eq, Clause, requires_of, expand_clause,
}
use subtask.Security.Clauses.Order.{IsOrdered, expand_clause-IsOrdered}
use subtask.Security.Clauses.Closed.{expand_clause-All}
use subtask.Security.Permits.{predicate_true}

module _ (i : Option Identity) (c : Context) (answers : Permission → Bool) where
  -- An entry as a condition, and a clause as all of its conditions.
  abbrev pub meets : Entry → Bool
  meets (predicate p) = holds i c p
  meets (permission p) = answers p

  abbrev pub meets_all : Clause → Bool
  meets_all [] = true
  meets_all (e ∷ es) = meets e && meets_all es

  abbrev Met : Entry → Type 0
  Met e = meets e ≡ true

  Met-closed : (e : Entry) → Met e → All Met (requires_of e)
  unfolding requires_of
  Met-closed (predicate p) h = All-map Met predicate (requires p) (requires-holds i c p h)
  Met-closed (permission p) h = tt

  All-of_meets_all : (es : Clause) → meets_all es ≡ true → All Met es
  All-of_meets_all [] h = tt
  All-of_meets_all (e ∷ es) h = (ground arith, All-of_meets_all es (ground arith))

  meets_all-of_All : (es : Clause) → All Met es → meets_all es ≡ true
  meets_all-of_All [] h = refl
  meets_all-of_All (e ∷ es) (h, hs) = rw (h, meets_all-of_All es hs)

  -- To add what the entries of a clause require leaves its meaning as it is.
  pub meets_all-expand_clause :
      (n : ℕ) (clause out : Clause)
      → expand_clause n clause ≡ ok out
      → meets_all out ≡ meets_all clause
  meets_all-expand_clause n clause out h =
      Bool-eq_of_iff _ _
        (λ all. meets_all-of_All clause (
          All-weaken (λ e. contains out e ≡ true) Met clause
            (λ e. All-contains Met out e (All-of_meets_all out all))
            (expand_clause-IsOrdered n clause out h).1))
        (λ all.
          meets_all-of_All out
            (expand_clause-All Met Met-closed n clause out h (All-of_meets_all clause all)))

module _ (i : Option Identity) (c : Context) (permits : Permission → Result Error Bool)
    (answers : Permission → Bool) where
  -- For each permission of the clause, `permits` has the answer.
  abbrev pub Answered : Entry → Type 0
  Answered (predicate p) = Unit
  Answered (permission p) = permits p ≡ ok (answers p)

  Answered-closed : (e : Entry) → Answered e → All Answered (requires_of e)
  unfolding requires_of
  Answered-closed (predicate p) h =
      All-map Answered predicate (requires p) (All-of_forall _ (requires p) (λ _. tt))
  Answered-closed (permission p) h = tt

  -- After what it requires, an entry raises nothing.
  predicate_true-meets :
      (e : Entry)
      → Answered e
      → All (λ r. meets i c answers r ≡ true) (requires_of e)
      → predicate_true i c permits e ≡ ok (meets i c answers e)
  unfolding requires_of predicate_true
  predicate_true-meets (predicate p) a h =
      run-holds i c p (All-of_map (λ r. meets i c answers r ≡ true) predicate (requires p) h)
  predicate_true-meets (permission p) a h = a

  abbrev Known : Clause → Type 0
  Known seen = (e : Entry) → contains seen e ≡ true → meets i c answers e ≡ true

  Known-more :
      (seen : Clause) (e : Entry)
      → Known seen
      → meets i c answers e ≡ true
      → Known (seen ++ (e ∷ []))
  Known-more seen e known h r k = elim (Bool-cases (contains seen r)) [
    | inl old ↦ known r old
    | inr new ↦
        All-contains (λ e. meets i c answers e ≡ true) (e ∷ []) r (h, tt)
          (ground (arith, contains-append_single seen e r))
  ]

  all_ok-meets_all :
      (seen es : Clause)
      → Known seen
      → IsOrdered seen es
      → All Answered es
      → all_ok (predicate_true i c permits) es ≡ ok (meets_all i c answers es)
  all_ok-meets_all seen [] known h a = refl
  all_ok-meets_all seen (e ∷ es) known (new, parents, rest) (a, later) =
      let step = predicate_true-meets e a (
        All-weaken (λ r. contains seen r ≡ true) (λ r. meets i c answers r ≡ true) (requires_of e)
          known parents) in
      all_ok-cons (predicate_true i c permits) e es _ step
      ∙ elim (Bool-cases (meets i c answers e)) [
        | inl met ↦
            rw met (all_ok-meets_all (seen ++ (e ∷ [])) es (Known-more seen e known met) rest later)
        | inr unmet ↦ rw unmet
      ]

  -- A clause that has been expanded is evaluated without an error, to the meaning of the clause.
  pub all_ok-expand_clause :
      (n : ℕ) (clause out : Clause)
      → expand_clause n clause ≡ ok out
      → All Answered clause
      → all_ok (predicate_true i c permits) out ≡ ok (meets_all i c answers clause)
  all_ok-expand_clause n clause out h a =
      all_ok-meets_all [] out (λ e k. absurd (false≢true k))
        (expand_clause-IsOrdered n clause out h).0
        (expand_clause-All Answered Answered-closed n clause out h a)
      ∙ ap ok (meets_all-expand_clause i c answers n clause out h)
