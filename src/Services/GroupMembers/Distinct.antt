-- ===== src/Services/GroupMembers/Distinct.antt =====
-- Lists with no element twice, and the removal of an element.
use subtask.Base.{
  false, not, ◌&&◌, ◌≡◌, refl, ap, ◌∙◌, List, [], ◌∷◌, ◌++◌, contains, contains-append_single, ◌==◌,
  Eq, arith, Bool-cases, inl, inr,
}
use subtask.Services.GroupMembers.{remove}

module _ {ℓ} {A : Type ℓ} ⦃e : Eq A⦄ where
  abbrev pub IsDistinct : List A → Type 0
  IsDistinct [] = Unit
  IsDistinct (m ∷ ms) = (contains ms m ≡ false) × IsDistinct ms

  pub contains-remove :
      (u : A) (ms : List A) (x : A)
      → IsDistinct ms
      → contains (remove u ms) x ≡ (contains ms x && not (u == x))
  unfolding remove
  contains-remove u [] x h = refl
  contains-remove u (m ∷ ms) x (h, hs) = elim (e.dec m u) [
    | yes same ↦ elim (e.dec u x) [
      | yes same2 ↦ ground (arith, ap (contains ms) (same ∙ same2))
      | no differ ↦ ground (arith, same)
    ]
    | no differ ↦ ground (arith, contains-remove u ms x hs)
  ]

  pub IsDistinct-append :
      (u : A) (ms : List A) → contains ms u ≡ false → IsDistinct ms → IsDistinct (ms ++ (u ∷ []))
  IsDistinct-append u [] k h = (refl, tt)
  IsDistinct-append u (m ∷ ms) k (h, hs) =
      (ground (arith, contains-append_single ms u m), IsDistinct-append u ms (ground arith) hs)

  pub IsDistinct-remove : (u : A) (ms : List A) → IsDistinct ms → IsDistinct (remove u ms)
  unfolding remove
  IsDistinct-remove u [] h = tt
  IsDistinct-remove u (m ∷ ms) (h, hs) = elim (Bool-cases (m == u)) [
    | inl same ↦ rw same hs
    | inr differ ↦ rw differ (ground (arith, contains-remove u ms m hs), IsDistinct-remove u ms hs)
  ]
