-- ===== src/Paginator.antt =====
-- paginator.py: the pages of a list of results, and the numbers that the page navigation shows. The quotient is exact;
-- where `page_size` is 0, the code raises ZeroDivisionError.
pub mod Numbers
pub mod Pages
use subtask.Base.{
  ℕ, zero, suc, ◌+◌, ◌-◌, ◌*◌, ◌/◌, Bool, Option, none, some, List, [], ◌∷◌, ◌++◌, length, ltb, leb,
  if◌then◌else◌,
}

-- What `int(request.params["page"])` gives: a KeyError or ValueError, or an integer, of which
-- `negative n` is -(n + 1).
pub data PageParam : Type 0 where
  missing invalid : PageParam
  negative natural : ℕ → PageParam

pub data PageNumber : Type 0 where
  page : ℕ → PageNumber
  ellipsis : PageNumber

pub record Page : Type 0 where
  pub cur : ℕ
  pub max : ℕ
  pub next : Option ℕ
  pub prev : Option ℕ
  pub numbers : List PageNumber

abbrev pub first : ℕ
first = 1

abbrev pub buffer : ℕ
buffer = 3

abbrev pub max_of : ℕ → ℕ → ℕ
max_of a b = if ltb a b then b else a

abbrev pub min_of : ℕ → ℕ → ℕ
min_of a b = if ltb b a then b else a

-- `max(1, int(math.ceil(total / page_size)))`
unfoldable pub last_page : ℕ → ℕ → ℕ
last_page total page_size = max_of 1 ((total + (page_size - 1)) / page_size)

-- The page asked for, at least 1; a negative number is below 1.
abbrev pub asked_page : PageParam → ℕ
asked_page missing = 1
asked_page invalid = 1
asked_page (negative n) = 1
asked_page (natural n) = max_of 1 n

-- `while max_left <= i < current_page`, for the rounds that are left.
unfoldable pub left_pages : ℕ → ℕ → List PageNumber
left_pages zero i = []
left_pages (suc rounds) i =
    let rest = left_pages rounds (i + 1) in if ltb first i then page i ∷ rest else rest

-- `while current_page < i <= max_right and i < page_max`, for the rounds that `max_right` allows.
unfoldable pub right_pages : ℕ → ℕ → ℕ → List PageNumber
right_pages page_max zero i = []
right_pages page_max (suc rounds) i =
    let rest = right_pages page_max rounds (i + 1) in if ltb i page_max then page i ∷ rest else []

-- Where `current_page - buffer` is negative, all that the code does with it is what it does with 0.
unfoldable pub left_of : ℕ → List PageNumber
unfolding left_pages
left_of cur =
    let max_left = cur - buffer in
    (if ltb first cur then page first ∷ [] else [])
    ++ (if ltb (first + 1) max_left then ellipsis ∷ [] else [])
    ++ left_pages (cur - max_left) max_left

unfoldable pub right_of : ℕ → ℕ → List PageNumber
unfolding right_pages
right_of cur page_max =
    right_pages page_max buffer (cur + 1)
    ++ (if ltb (cur + buffer + 1) page_max then ellipsis ∷ [] else [])
    ++ (if ltb cur page_max then page page_max ∷ [] else [])

unfoldable pub page_numbers : ℕ → ℕ → List PageNumber
unfolding left_of right_of
page_numbers cur page_max = left_of cur ++ (page cur ∷ right_of cur page_max)

unfoldable pub paginate : PageParam → ℕ → ℕ → Page
unfolding last_page page_numbers
paginate param total page_size =
    let page_max = last_page total page_size in
    let cur = min_of (asked_page param) page_max in
    record {
      cur = cur;
      max = page_max;
      next = if ltb cur page_max then some (cur + 1) else none;
      prev = if ltb 1 cur then some (cur - 1) else none;
      numbers = page_numbers cur page_max;
    }

module _ {A : Type 0} where
  abbrev pub limit : ℕ → List A → List A
  limit zero xs = []
  limit (suc n) [] = []
  limit (suc n) (x ∷ xs) = x ∷ limit n xs

  abbrev pub offset : ℕ → List A → List A
  offset zero xs = xs
  offset (suc n) [] = []
  offset (suc n) (x ∷ xs) = offset n xs

  -- The wrapper of `paginate_query`: the results of the page, and the page.
  unfoldable pub paginate_query : PageParam → ℕ → List A → List A × Page
  unfolding paginate
  paginate_query param page_size results =
      let p = paginate param (length results) page_size in
      (limit page_size (offset ((p.cur - 1) * page_size) results), p)
