-- ===== src/Tests/Paginator.antt =====
-- Ten results on pages of three.
use subtask.Base.{ℕ, ◌≡◌, refl, List, [], ◌∷◌, none, some, arith}
use subtask.Paginator.{page, ellipsis, natural, negative, paginate, paginate_query}
use subtask.Paginator.Pages.{IsPage, paginate-IsPage}

abbrev results : List ℕ
results = 1 ∷ 2 ∷ 3 ∷ 4 ∷ 5 ∷ 6 ∷ 7 ∷ 8 ∷ 9 ∷ 10 ∷ []

last_results : paginate_query (natural 9) 3 results ≡ (
  10 ∷ [],
  record {
    cur = 4;
    max = 4;
    next = none;
    prev = some 3;
    numbers = page 1 ∷ page 2 ∷ page 3 ∷ page 4 ∷ [];
  },
)
unfolding paginate_query
last_results = refl

middle_numbers :
    (paginate (natural 10) 200 10).numbers
    ≡ page 1
      ∷ ellipsis
      ∷ page 7
      ∷ page 8
      ∷ page 9
      ∷ page 10
      ∷ page 11
      ∷ page 12
      ∷ page 13
      ∷ ellipsis
      ∷ page 20
      ∷ []
unfolding paginate
middle_numbers = refl

paginate-IsPage_example : IsPage (paginate (negative 4) 10 3)
paginate-IsPage_example = paginate-IsPage (negative 4) 10 3 (omega arith)
