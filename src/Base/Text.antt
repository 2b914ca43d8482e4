-- ===== src/Base/Text.antt =====
-- Texts walked character by character.
use Prim.Native.Nat.{ℕ, suc}
use Prim.Native.Char.{Char}
use Prim.Native.String.{String}
use mathlib.Core.Path.{◌≡◌, refl, ap}
use mathlib.Core.Bool.{Bool, true, ◌&&◌}

infixr 66 ◌<>◌
abbrev pub ◌<>◌ : String → String → String
String.[] <> t = t
String.◌∷◌ c s <> t = String.◌∷◌ c (s <> t)

-- `len(s)`, in characters
abbrev pub text_length : String → ℕ
text_length String.[] = 0
text_length (String.◌∷◌ c s) = suc (text_length s)

abbrev pub all_chars : (Char → Bool) → String → Bool
all_chars test String.[] = true
all_chars test (String.◌∷◌ c s) = test c && all_chars test s

pub append-assoc_text : (s t u : String) → (s <> t) <> u ≡ s <> (t <> u)
append-assoc_text String.[] t u = refl
append-assoc_text (String.◌∷◌ c s) t u = ap (String.◌∷◌ c) (append-assoc_text s t u)
