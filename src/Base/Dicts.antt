-- ===== src/Base/Dicts.antt =====
-- Dictionaries as association lists, of which the first entry for a key counts.
use mathlib.Core.Path.{◌≡◌, refl}
use mathlib.Core.Option.{Option, none, some}
use mathlib.Core.List.{List, [], ◌∷◌, ◌++◌}
use native.Mathlib.Omega.{arith}
use subtask.Base.Equality.{Eq, ◌==◌, if◌then◌else◌}

module _ {ℓ κ} {K : Type ℓ} {V : Type κ} ⦃e : Eq K⦄ where
  -- `d.get(key)`
  abbrev pub get : K → List (K × V) → Option V
  get key [] = none
  get key ((k, v) ∷ d) = let rest = get key d in if key == k then some v else rest

  -- `d[key] = value`
  abbrev pub put : K → V → List (K × V) → List (K × V)
  put key v d = (key, v) ∷ d

  -- `get` after `d.update(c)`
  pub get-append :
      (k : K) (c d : List (K × V))
      → get k (c ++ d) ≡ elim (get k c) [ some v ↦ some v | none ↦ get k d ]
  get-append k [] d = refl
  get-append k ((key, v) ∷ c) d = ground (arith, get-append k c d)
