-- ===== src/Worker/Plan.antt =====
-- planRanges of internal/worker/worker.go: the page ranges that a document is rendered and sent in.
use mathlib.Core.Option
use mathlib.Core.List.{append-nil}
use native.Mathlib.Nat.{add-zero, zero-add, add-suc, suc-add}
use paperless_ai_ocr.Prelude.{
  ℕ, zero, suc, ◌+◌, ◌-◌, ◌≤◌, ◌<◌, min, ◌≡◌, refl, sym, ap, ◌∙◌, ◌≢◌, ◌⊎◌, inl, inr, Bool, true,
  false, ◌||◌, Option, none, some, List, [], ◌∷◌, ◌++◌, arith, ltb, leb, ◌==◌, if◌then◌else◌,
  Bool-cases, length,
}
use paperless_ai_ocr.Saferr.{rendering, new, Result, ok, err}
use paperless_ai_ocr.Queue.Model.{BatchRange}
use paperless_ai_ocr.Queue.Valid.{valid_batch_range, valid_following, valid_batch_ranges}

-- aigate.Capability, as far as the worker tells the transports apart
pub data Capability : Type 0 where
  direct_pdf page_images : Capability

abbrev pub max_document_pages : ℕ
max_document_pages = 10000

-- The loop `for firstPage := 1; firstPage <= pages; firstPage += batchSize` with fuel: `none` means
-- that the fuel ran out.
unfoldable pub plan_from : ℕ → ℕ → ℕ → ℕ → Option (List BatchRange)
plan_from zero pages batch_size first_page = none
plan_from (suc fuel) pages batch_size first_page = elim (leb first_page pages) [
  | true ↦
      Option.map
        (λ ranges.
          record { first_page = first_page; last_page = min (first_page + batch_size - 1) pages }
          ∷ ranges)
        (plan_from fuel pages batch_size (first_page + batch_size))
  | false ↦ some []
]

unfoldable pub plan_loop : ℕ → ℕ → Option (List BatchRange)
unfolding plan_from
plan_loop pages batch_size = plan_from (suc pages) pages batch_size 1

-- planRanges. A value `none` is a loop that does not end, which New of the worker rules out: it
-- accepts a batch size from 1 to 5 only.
unfoldable pub plan_ranges : ℕ → ℕ → Capability → Result (Option (List BatchRange))
unfolding plan_loop
plan_ranges pages batch_size capability =
    if pages == 0 || ltb max_document_pages pages
    then err (new rendering "PDF page count exceeded supported limit")
    else elim capability [
      | direct_pdf ↦ ok (some (record { first_page = 1; last_page = pages } ∷ []))
      | page_images ↦ ok (plan_loop pages batch_size)
    ]

-- the pages `n` from `first` on
abbrev pub count_up : ℕ → ℕ → List ℕ
count_up first zero = []
count_up first (suc n) = first ∷ count_up (suc first) n

-- the pages of a plan, range by range
abbrev pub pages_of : List BatchRange → List ℕ
pages_of [] = []
pages_of (r ∷ rs) = count_up r.first_page (suc r.last_page - r.first_page) ++ pages_of rs

pub count_up-append :
    (first m n : ℕ) → count_up first m ++ count_up (first + m) n ≡ count_up first (m + n)
count_up-append first zero n = rw (add-zero, zero-add)
count_up-append first (suc m) n = rw (add-suc, suc-add, ← count_up-append (suc first) m n, suc-add)

length-count_up : (first n : ℕ) → length (count_up first n) ≡ n
length-count_up first zero = refl
length-count_up first (suc n) = ap suc (length-count_up (suc first) n)

-- What is left to plan from a page: the ranges follow one another, and hold each page once.
pub record IsPlan (pages first : ℕ) (ranges : List BatchRange) : Type 0 where
  pub follows : valid_following (first - 1) ranges ≡ true
  pub ends : pages < first → ranges ≡ []
  pub covers : pages_of ranges ≡ count_up first (suc pages - first)

abbrev range_at : ℕ → ℕ → ℕ → BatchRange
range_at pages size first = record { first_page = first; last_page = min (first + size - 1) pages }

module _ (pages size : ℕ) (pos : 0 < size) (small : size ≤ 5) where
  covers-cons :
      (first : ℕ)
      → 0 < first
      → first ≤ pages
      → count_up first (suc (min (first + size - 1) pages) - first)
          ++ count_up (first + size) (suc pages - (first + size))
        ≡ count_up first (suc pages - first)
  covers-cons first one le = elim (Bool-cases (leb (first + size) pages)) [
    | inl t ↦
        let e : suc (min (first + size - 1) pages) - first ≡ size = ground arith in
        rw e (
          count_up-append first size (suc pages - (first + size))
          ∙ ap (count_up first) (ground arith))
    | inr t ↦
        let e : suc (min (first + size - 1) pages) - first ≡ suc pages - first = ground arith in
        let z : suc pages - (first + size) ≡ 0 = ground arith in
        rw (e, z) (append-nil (count_up first (suc pages - first)))
  ]

  follows-last :
      (first : ℕ) (rs : List BatchRange)
      → IsPlan pages (first + size) rs
      → valid_following (min (first + size - 1) pages) rs ≡ true
  follows-last first rs p = elim (Bool-cases (leb (first + size) pages)) [
    | inl t ↦
        let e : min (first + size - 1) pages ≡ first + size - 1 = ground arith in rw e p.follows
    | inr t ↦ rw (p.ends (ground arith)) (unfold valid_following in refl)
  ]

  follows-cons :
      (first : ℕ) (rs : List BatchRange)
      → 0 < first
      → first ≤ pages
      → IsPlan pages (first + size) rs
      → valid_following (first - 1) (range_at pages size first ∷ rs) ≡ true
  unfolding valid_following valid_batch_range
  follows-cons first rs one le p = ground (arith, follows-last first rs p)

  -- the loop ends, with a plan of the pages that are left
  abbrev Planned : ℕ → Option (List BatchRange) → Type 0
  Planned first o = (rs : List BatchRange) × (o ≡ some rs) × IsPlan pages first rs

  Planned-cons :
      (first : ℕ)
      → 0 < first
      → first ≤ pages
      → (o : Option (List BatchRange)) → Planned (first + size) o
      → Planned first (Option.map (λ rs. range_at pages size first ∷ rs) o)
  Planned-cons first one le o (rs, e, p) = (
    range_at pages size first ∷ rs,
    rw e,
    record {
      follows = follows-cons first rs one le p;
      ends = λ h. absurd (omega arith);
      covers = rw p.covers (covers-cons first one le);
    },
  )

  Planned-nil : (first : ℕ) → pages < first → Planned first (some [])
  Planned-nil first h = (
    [],
    refl,
    record {
      follows = unfold valid_following in refl;
      ends = λ _. refl;
      covers = let z : suc pages - first ≡ 0 = omega arith in rw z;
    },
  )

  plan_from-Planned :
      (fuel first : ℕ)
      → 0 < first
      → pages + 1 - first < fuel
      → Planned first (plan_from fuel pages size first)
  unfolding plan_from
  plan_from-Planned zero first one enough = absurd (omega arith)
  plan_from-Planned (suc fuel) first one enough =
      go (leb first pages) refl
        (λ le. plan_from-Planned fuel (first + size) (omega arith) (omega arith))
    where
      go :
          (b : Bool)
          → leb first pages ≡ b
          → (first ≤ pages → Planned (first + size) (plan_from fuel pages size (first + size)))
          → Planned first (elim b [
            | true ↦
                Option.map
                  (λ rs. range_at pages size first ∷ rs)
                  (plan_from fuel pages size (first + size))
            | false ↦ some []
          ])
      go true t more = Planned-cons first one (ground arith) _ (more (ground arith))
      go false t more = Planned-nil first (ground arith)

-- The plan that EnsureBatchesContext of the queue accepts.
valid_of_follows :
    (rs : List BatchRange) → rs ≢ [] → valid_following 0 rs ≡ true → valid_batch_ranges rs ≡ true
unfolding valid_batch_ranges valid_following
valid_of_follows [] ne h = absurd (ne refl)
valid_of_follows (r ∷ rs) ne h = ground arith

-- For a document of a supported number of pages and a batch size of one to five, planRanges for
-- page images returns ranges that the queue accepts as a batch plan, and that cover each page once
-- and in order.
pub plan_ranges_lem :
    (pages size : ℕ)
    → 0 < pages
    → pages ≤ max_document_pages
    → 0 < size
    → size ≤ 5
    → (rs : List BatchRange) × (plan_ranges pages size page_images ≡ ok (some rs))
      × (valid_batch_ranges rs ≡ true)
      × (pages_of rs ≡ count_up 1 pages)
unfolding plan_ranges
plan_ranges_lem pages size some_pages few pos small =
    let (rs, e, p) =
      plan_from-Planned pages size pos small (suc pages) 1 (omega arith) (omega arith) in
    (
      rs,
      ground (arith, e),
      valid_of_follows rs
          (λ nil. absurd (
            omega (
              arith,
              ap (λ (l : List ℕ). length l) (sym (ap pages_of nil) ∙ p.covers),
              length-count_up 1 (suc pages - 1),
            )))
          p.follows,
      p.covers ∙ ap (count_up 1) (omega arith),
    )

-- No page, or too many, is an error whatever the batch size and the transport.
pub plan_ranges-err :
    (pages size : ℕ) (capability : Capability)
    → (pages ≡ 0) ⊎ (max_document_pages < pages)
    → plan_ranges pages size capability
      ≡ err (new rendering "PDF page count exceeded supported limit")
unfolding plan_ranges
plan_ranges-err pages size capability h = ground arith
