-- ===== src/Paginator/Pages.antt =====
-- The page that is shown, and the pages together.
use subtask.Base.{
  ℕ, zero, suc, ◌+◌, ◌-◌, ◌*◌, ◌≤◌, ◌<◌, ◌≡◌, refl, sym, ap, ◌∙◌, none, some, List, [], ◌∷◌, ◌++◌,
  arith, length,
}
use subtask.Paginator.{
  PageParam, Page, last_page, asked_page, min_of, paginate, missing, invalid, negative, natural,
  limit, offset, paginate_query,
}
use subtask.Paginator.Numbers.{Joined, Joined-page_numbers}

asked_page_bound : (param : PageParam) → 1 ≤ asked_page param
asked_page_bound missing = omega arith
asked_page_bound invalid = omega arith
asked_page_bound (negative n) = omega arith
asked_page_bound (natural n) = ground arith

last_page_bound : (total page_size : ℕ) → 1 ≤ last_page total page_size
unfolding last_page
last_page_bound total page_size = ground arith

total-le-last_page :
    (total page_size : ℕ) → 0 < page_size → total ≤ last_page total page_size * page_size
unfolding last_page
total-le-last_page total page_size h = grind arith

-- The page shown is one of the pages; the next page is one too, and is there unless the page is the
-- last, and so the previous page, unless it is the first; the numbers are joined.
pub record IsPage (p : Page) : Type 0 where
  pub from_first : 1 ≤ p.cur
  pub to_last : p.cur ≤ p.max
  pub next_is : (n : ℕ) → p.next ≡ some n → (n ≡ p.cur + 1) × (n ≤ p.max)
  pub no_next : p.next ≡ none → p.cur ≡ p.max
  pub prev_is : (n : ℕ) → p.prev ≡ some n → (n + 1 ≡ p.cur) × (1 ≤ n)
  pub no_prev : p.prev ≡ none → p.cur ≡ 1
  pub joined : Joined p.max 0 p.numbers

-- If pages are not empty, then whatever page is asked for, the page shown is one from 1 to the last; the next page is one too, and is
-- there unless the page is the last, and so the previous page, unless it is the first; and the
-- numbers shown begin with 1, end with the last page, and leave out pages only at an ellipsis.
pub paginate-IsPage :
    (param : PageParam) (total page_size : ℕ)
    → 0 < page_size
    → IsPage (paginate param total page_size)
unfolding paginate
paginate-IsPage param total page_size _ =
    let a = asked_page_bound param in
    let b = last_page_bound total page_size in
    record {
      from_first = ground arith;
      to_last = ground arith;
      next_is = λ n h. ground arith;
      no_next = λ h. ground arith;
      prev_is = λ n h. ground arith;
      no_prev = λ h. ground arith;
      joined =
          Joined-page_numbers (last_page total page_size)
            (min_of (asked_page param) (last_page total page_size)) (ground arith) (ground arith);
    }

cur-suc :
    (pages total page_size : ℕ)
    → suc pages ≤ last_page total page_size
    → (paginate (natural (suc pages)) total page_size).cur ≡ suc pages
unfolding paginate
cur-suc pages total page_size h = ground arith

pred_suc : (n : ℕ) → suc n - 1 ≡ n
pred_suc n = omega arith

mul_zero : (n : ℕ) → zero * n ≡ 0
mul_zero n = omega arith

module _ {A : Type 0} where
  limit_sum :
      (m n k : ℕ) (xs : List A) → k ≡ m + n → limit k xs ≡ limit m xs ++ limit n (offset m xs)
  limit_sum zero n k xs h = ap (λ i. limit i xs) (h ∙ omega arith)
  limit_sum (suc m) n zero xs h = absurd (omega arith)
  limit_sum (suc m) zero (suc k) [] h = refl
  limit_sum (suc m) (suc n) (suc k) [] h = refl
  limit_sum (suc m) n (suc k) (x ∷ xs) h = ap (◌∷◌ x) (limit_sum m n k xs (omega arith))

  limit_all : (n : ℕ) (xs : List A) → length xs ≤ n → limit n xs ≡ xs
  limit_all zero [] h = refl
  limit_all zero (x ∷ xs) h = absurd (omega arith)
  limit_all (suc n) [] h = refl
  limit_all (suc n) (x ∷ xs) h = ap (◌∷◌ x) (limit_all n xs (omega arith))

  -- The results of the pages 1 to `pages`, one page behind the other.
  abbrev pub shown : ℕ → List A → ℕ → List A
  shown page_size results zero = []
  shown page_size results (suc pages) =
      shown page_size results pages ++ (paginate_query (natural (suc pages)) page_size results).0

  shown-limit :
      (page_size : ℕ) (results : List A) (pages : ℕ)
      → pages ≤ last_page (length results) page_size
      → shown page_size results pages ≡ limit (pages * page_size) results
  unfolding paginate_query
  shown-limit page_size results zero h = sym (ap (λ i. limit i results) (mul_zero page_size))
  shown-limit page_size results (suc pages) h =
      ap
        (λ xs.
          xs
          ++ limit page_size (
              offset
                (((paginate (natural (suc pages)) (length results) page_size).cur - 1) * page_size)
                results))
        (shown-limit page_size results pages (omega arith))
      ∙ ap
          (λ c.
            limit (pages * page_size) results
            ++ limit page_size (offset ((c - 1) * page_size) results))
          (cur-suc pages (length results) page_size h)
      ∙ ap
          (λ i.
            limit (pages * page_size) results ++ limit page_size (offset (i * page_size) results))
          (pred_suc pages)
      ∙ sym (limit_sum (pages * page_size) page_size (suc pages * page_size) results (omega arith))

  -- If pages are not empty, the pages from the first to the last show all results, each once and
  -- in order.
  pub shown_all :
      (page_size : ℕ) (results : List A)
      → 0 < page_size
      → shown page_size results (last_page (length results) page_size) ≡ results
  shown_all page_size results h =
      shown-limit page_size results (last_page (length results) page_size) (omega arith)
      ∙ limit_all (last_page (length results) page_size * page_size) results
          (total-le-last_page (length results) page_size h)
