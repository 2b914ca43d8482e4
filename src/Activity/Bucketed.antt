-- ===== src/Activity/Bucketed.antt =====
-- Each annotation is in one bucket, of its document and of a timeframe that it is within.
use mathlib.Core.Path.{subst}
use subtask.Base.{
  ℕ, ◌+◌, ◌-◌, ◌≤◌, ◌≡◌, ◌∙◌, sym, ap, refl, String, Bool, true, inl, inr, List, [], ◌∷◌, ◌++◌, All,
  All-append, Bool-cases, leb, ◌==◌, nat_eq, arith, length, filter,
}
use subtask.Activity.{
  Activity, DocumentBucket, Timeframe, bucket_append, append_to, timeframe_append, within_cutoff,
  next, bucket_from, bucket, last_7_days, seven_days,
}

-- Whether all annotations of the timeframe are within its cutoff, each in the bucket of its document.
abbrev pub IsWithin : Timeframe → Type 0
IsWithin t =
    All
      (λ entry. All (λ a. (t.cutoff_time ≤ a.updated) × (a.document ≡ entry.0)) entry.1.annotations)
      t.document_buckets

append_to-IsWithin :
    (cutoff : ℕ) (a : Activity) (buckets : List (ℕ × DocumentBucket))
    → cutoff ≤ a.updated
    → All
        (λ entry. All (λ a. (cutoff ≤ a.updated) × (a.document ≡ entry.0)) entry.1.annotations)
        buckets
    → All
        (λ entry. All (λ a. (cutoff ≤ a.updated) × (a.document ≡ entry.0)) entry.1.annotations)
        (append_to a buckets)
unfolding append_to bucket_append
append_to-IsWithin cutoff a [] h all = (((h, refl), tt), tt)
append_to-IsWithin cutoff a ((document, b) ∷ buckets) h (these, rest) =
    elim (Bool-cases (document == a.document)) [
      | inl p ↦
          let same : a.document ≡ document = ground arith in
          rw p (
            All-append (λ a. (cutoff ≤ a.updated) × (a.document ≡ document)) b.annotations (a ∷ [])
                these ((h, same), tt),
            rest,
          )
      | inr p ↦ rw p (these, append_to-IsWithin cutoff a buckets h rest)
    ]

-- How many annotations of a test are in buckets, and in timeframes.
module _ (test : Activity → Bool) where
  abbrev pub count : List Activity → ℕ
  count annotations = length (filter test annotations)

  abbrev pub count_buckets : List (ℕ × DocumentBucket) → ℕ
  count_buckets [] = 0
  count_buckets ((document, b) ∷ buckets) = count b.annotations + count_buckets buckets

  abbrev pub count_timeframes : List Timeframe → ℕ
  count_timeframes [] = 0
  count_timeframes (t ∷ timeframes) = count_buckets t.document_buckets + count_timeframes timeframes

  count-append : (xs ys : List Activity) → count (xs ++ ys) ≡ count xs + count ys
  count-append [] ys = omega arith
  count-append (x ∷ xs) ys = ground (arith, count-append xs ys)

  count-append_to :
      (a : Activity) (buckets : List (ℕ × DocumentBucket))
      → count_buckets (append_to a buckets) ≡ count (a ∷ []) + count_buckets buckets
  unfolding append_to bucket_append
  count-append_to a [] = ground arith
  count-append_to a ((document, b) ∷ buckets) = elim (Bool-cases (document == a.document)) [
    | inl p ↦ let c = count-append b.annotations (a ∷ []) in rw p (omega arith)
    | inr p ↦ let c = count-append_to a buckets in rw p (omega arith)
  ]

  count_timeframes-append :
      (xs ys : List Timeframe)
      → count_timeframes (xs ++ ys) ≡ count_timeframes xs + count_timeframes ys
  count_timeframes-append [] ys = omega arith
  count_timeframes-append (x ∷ xs) ys =
      ap (λ n. count_buckets x.document_buckets + n) (count_timeframes-append xs ys) ∙ omega arith

abbrev IsEmpty : Timeframe → Type 0
IsEmpty t = t.document_buckets ≡ []

empty-IsWithin : (t : Timeframe) → IsEmpty t → IsWithin t
empty-IsWithin t h =
    subst
      (λ b.
        All
          (λ entry.
            All (λ a. (t.cutoff_time ≤ a.updated) × (a.document ≡ entry.0)) entry.1.annotations)
          b)
      (sym h) tt

within-near : (a : Activity) (t : Timeframe) → within_cutoff a t ≡ true → t.cutoff_time ≤ a.updated
unfolding within_cutoff
within-near a t h = ground arith

module _ (month_start : ℕ → ℕ) (label_of : ℕ → String) (earlier : (t : ℕ) → month_start t ≤ t) where
  -- The timeframe that the generator gives: the annotation is within it, and it is empty.
  next-fresh :
      (a : Activity) (left : List Timeframe)
      → All IsEmpty left
      → IsEmpty (next month_start label_of a left).0
        × ((next month_start label_of a left).0.cutoff_time ≤ a.updated)
        × All IsEmpty (next month_start label_of a left).1
  unfolding next within_cutoff
  next-fresh a [] h = (refl, earlier a.updated, tt)
  next-fresh a (t ∷ left) (h, hs) = elim (Bool-cases (leb t.cutoff_time a.updated)) [
    | inl p ↦ let near : t.cutoff_time ≤ a.updated = ground arith in rw p (h, near, hs)
    | inr p ↦ rw p (next-fresh a left hs)
  ]

  bucket_from-IsWithin :
      (annotations : List Activity) (timeframes : List Timeframe) (last : Timeframe)
      (left : List Timeframe)
      → All IsWithin timeframes
      → IsWithin last
      → All IsEmpty left
      → All IsWithin (bucket_from month_start label_of annotations timeframes last left)
  unfolding bucket_from
  bucket_from-IsWithin [] timeframes last left h k e =
      All-append IsWithin timeframes (last ∷ []) h (k, tt)
  bucket_from-IsWithin (a ∷ annotations) timeframes last left h k e =
      elim (Bool-cases (within_cutoff a last)) [
        | inl p ↦ rw p (
            bucket_from-IsWithin annotations timeframes (timeframe_append a last) left h
              (append_to-IsWithin last.cutoff_time a last.document_buckets (within-near a last p) k)
              e)
        | inr p ↦
            let (fresh, near, empty) = next-fresh a left e in
            let t : Timeframe = (next month_start label_of a left).0 in
            rw p (
              bucket_from-IsWithin annotations (timeframes ++ (last ∷ [])) (timeframe_append a t)
                (next month_start label_of a left).1
                (All-append IsWithin timeframes (last ∷ []) h (k, tt))
                (append_to-IsWithin t.cutoff_time a t.document_buckets near
                  (empty-IsWithin t fresh))
                empty)
      ]

  bucket_from-count :
      (test : Activity → Bool) (annotations : List Activity) (timeframes : List Timeframe)
      (last : Timeframe) (left : List Timeframe)
      → All IsEmpty left
      → count_timeframes test (bucket_from month_start label_of annotations timeframes last left)
        ≡ count_timeframes test timeframes
          + count_buckets test last.document_buckets
          + count test annotations
  unfolding bucket_from
  bucket_from-count test [] timeframes last left e =
      count_timeframes-append test timeframes (last ∷ []) ∙ omega arith
  bucket_from-count test (a ∷ annotations) timeframes last left e =
      elim (Bool-cases (within_cutoff a last)) [
        | inl p ↦
            let rest =
              bucket_from-count test annotations timeframes (timeframe_append a last) left e in
            let added = count-append_to test a last.document_buckets in rw p (rest ∙ ground arith)
        | inr p ↦
            let (fresh, near, empty) = next-fresh a left e in
            let t : Timeframe = (next month_start label_of a left).0 in
            let rest =
              bucket_from-count test annotations (timeframes ++ (last ∷ [])) (timeframe_append a t)
                (next month_start label_of a left).1 empty in
            let added = count-append_to test a t.document_buckets in
            let none_yet = ap (count_buckets test) fresh in
            let before = count_timeframes-append test timeframes (last ∷ []) in
            rw p (rest ∙ ground arith)
      ]

  -- If months begin no later than their times, then each annotation is in as many buckets as it is among the
  -- annotations given (for any test, of annotations that satisfy it), each in the bucket of its document
  -- and in a timeframe whose cutoff is no later than it.
  pub bucket-IsWithin :
      (now : ℕ) (annotations : List Activity)
      → All IsWithin (bucket month_start label_of now annotations)
        × ((test : Activity → Bool)
            → count_timeframes test (bucket month_start label_of now annotations)
              ≡ count test annotations)
  unfolding bucket
  bucket-IsWithin now [] = (tt, λ test. refl)
  bucket-IsWithin now (a ∷ annotations) =
      let week : Timeframe = record {
        label = last_7_days;
        cutoff_time = now - seven_days;
        document_buckets = [];
      } in
      let t : Timeframe = (next month_start label_of a (week ∷ [])).0 in
      let left : List Timeframe = (next month_start label_of a (week ∷ [])).1 in
      let (fresh, near, empty) = next-fresh a (week ∷ []) (refl, tt) in
      (
        bucket_from-IsWithin (a ∷ annotations) [] t left tt (empty-IsWithin t fresh) empty,
        λ test.
            let total = bucket_from-count test (a ∷ annotations) [] t left empty in
            let none_yet = ap (count_buckets test) fresh in total ∙ omega arith,
      )
