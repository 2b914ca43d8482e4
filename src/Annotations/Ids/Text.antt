-- ===== src/Annotations/Ids/Text.antt =====
-- Slices of texts.
use subtask.Base.{
  ℕ, zero, suc, ◌+◌, ◌-◌, ◌≤◌, ◌≡◌, ◌∙◌, sym, ap, refl, String, ◌<>◌, text_length, arith,
}

abbrev pub text_take : ℕ → String → String
text_take zero s = String.[]
text_take (suc n) String.[] = String.[]
text_take (suc n) (String.◌∷◌ c s) = String.◌∷◌ c (text_take n s)

abbrev pub text_drop : ℕ → String → String
text_drop zero s = s
text_drop (suc n) String.[] = String.[]
text_drop (suc n) (String.◌∷◌ c s) = text_drop n s

pub take-drop : (n : ℕ) (s : String) → text_take n s <> text_drop n s ≡ s
take-drop zero s = refl
take-drop (suc n) String.[] = refl
take-drop (suc n) (String.◌∷◌ c s) = ap (String.◌∷◌ c) (take-drop n s)

pub drop-drop : (m n k : ℕ) (s : String) → k ≡ m + n → text_drop n (text_drop m s) ≡ text_drop k s
drop-drop zero n k s h = ap (λ i. text_drop i s) (sym (h ∙ omega arith))
drop-drop (suc m) n zero s h = absurd (omega arith)
drop-drop (suc m) zero (suc k) String.[] h = refl
drop-drop (suc m) (suc n) (suc k) String.[] h = refl
drop-drop (suc m) n (suc k) (String.◌∷◌ c s) h = drop-drop m n k s (omega arith)

pub length-take : (n : ℕ) (s : String) → n ≤ text_length s → text_length (text_take n s) ≡ n
length-take zero s h = refl
length-take (suc n) String.[] h = absurd (omega arith)
length-take (suc n) (String.◌∷◌ c s) h = ap suc (length-take n s (omega arith))

pub length-drop : (n : ℕ) (s : String) → text_length (text_drop n s) ≡ text_length s - n
length-drop zero s = omega arith
length-drop (suc n) String.[] = omega arith
length-drop (suc n) (String.◌∷◌ c s) = length-drop n s ∙ omega arith

pub length-append : (s t : String) → text_length (s <> t) ≡ text_length s + text_length t
length-append String.[] t = omega arith
length-append (String.◌∷◌ c s) t = ap suc (length-append s t) ∙ omega arith

pub take_all : (n : ℕ) (s : String) → text_length s ≤ n → text_take n s ≡ s
take_all zero String.[] h = refl
take_all zero (String.◌∷◌ c s) h = absurd (omega arith)
take_all (suc n) String.[] h = refl
take_all (suc n) (String.◌∷◌ c s) h = ap (String.◌∷◌ c) (take_all n s (omega arith))

pub take-append : (n : ℕ) (s t : String) → text_length s ≡ n → text_take n (s <> t) ≡ s
take-append zero String.[] t h = refl
take-append zero (String.◌∷◌ c s) t h = absurd (omega arith)
take-append (suc n) String.[] t h = absurd (omega arith)
take-append (suc n) (String.◌∷◌ c s) t h = ap (String.◌∷◌ c) (take-append n s t (omega arith))

pub drop-append : (n : ℕ) (s t : String) → text_length s ≡ n → text_drop n (s <> t) ≡ t
drop-append zero String.[] t h = refl
drop-append zero (String.◌∷◌ c s) t h = absurd (omega arith)
drop-append (suc n) String.[] t h = absurd (omega arith)
drop-append (suc n) (String.◌∷◌ c s) t h = drop-append n s t (omega arith)
