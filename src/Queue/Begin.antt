-- ===== src/Queue/Begin.antt =====
-- beginImmediate of internal/queue/queue.go: BEGIN IMMEDIATE is tried again while SQLite is busy,
-- until the context of the wait is done.
use paperless_ai_ocr.Prelude.{
  ℕ, zero, suc, ◌+◌, ◌≤◌, ◌≡◌, refl, subst, sym, is_some, ==_iff, ◌==◌, Bool, true, false, Option,
  none, some, arith,
}
use paperless_ai_ocr.Saferr.{Cause}

-- what one BEGIN IMMEDIATE answers: isSQLiteBusy tells the second from the third
pub data Begin : Type 0 where
  begun : Begin
  busy : Begin
  refused : Cause → Begin

-- the answers from outside, by the number of the attempt
pub record Waiting : Type 0 where
  pub pragma : Option Cause
  pub begin : ℕ → Begin
  pub expired : ℕ → Option Cause

-- one answer: `rest` is what the next attempts come to
abbrev pub answered : Begin → Option Cause → Option (Option Cause) → Option (Option Cause)
answered begun expired rest = some none
answered (refused cause) expired rest = some (some cause)
answered busy (some cause) rest = some (some cause)
answered busy none rest = rest

-- The loop, from one attempt on: `none` where the fuel ends, else the error that it returns.
unfoldable pub begin_from : Waiting → ℕ → ℕ → Option (Option Cause)
begin_from w zero attempt = none
begin_from w (suc fuel) attempt =
    answered (w.begin attempt) (w.expired attempt) (begin_from w fuel (suc attempt))

abbrev pub after_pragma : Option Cause → Option (Option Cause) → Option (Option Cause)
after_pragma (some cause) rest = some (some cause)
after_pragma none rest = rest

-- beginImmediate
unfoldable pub begin_immediate : Waiting → ℕ → Option (Option Cause)
unfolding begin_from
begin_immediate w fuel = after_pragma w.pragma (begin_from w fuel 0)

-- that the loop ends, and that a return without an error follows a transaction that was begun
abbrev pub Ends : Waiting → ℕ → Option (Option Cause) → Type 0
Ends w last o =
    (r : Option Cause) × (o ≡ some r) × (r ≡ none → (k : ℕ) × (k ≤ last) × (w.begin k ≡ begun))

answered-Ends :
    (w : Waiting) (last attempt : ℕ) (rest : Option (Option Cause)) (b : Begin) (x : Option Cause)
    → w.begin attempt ≡ b
    → attempt ≤ last
    → (x ≡ none → Ends w last rest)
    → Ends w last (answered b x rest)
answered-Ends w last attempt rest begun x e le h = (none, refl, λ _. (attempt, le, e))
answered-Ends w last attempt rest (refused cause) x e le h =
    (some cause, refl, λ n. absurd (ground arith))
answered-Ends w last attempt rest busy (some cause) e le h =
    (some cause, refl, λ n. absurd (ground arith))
answered-Ends w last attempt rest busy none e le h = h refl

begin_from-Ends :
    (w : Waiting) (last : ℕ)
    → is_some (w.expired last) ≡ true
    → (fuel attempt : ℕ) → attempt ≤ last
    → suc last ≤ fuel + attempt
    → Ends w last (begin_from w fuel attempt)
unfolding begin_from
begin_from-Ends w last done zero attempt le enough = absurd (omega arith)
begin_from-Ends w last done (suc fuel) attempt le enough =
    answered-Ends w last attempt _ (w.begin attempt) (w.expired attempt) refl le λ open_still.
      begin_from-Ends w last done fuel (suc attempt) (later (attempt == last) refl open_still)
        (omega arith)
  where
    later : (b : Bool) → (attempt == last) ≡ b → w.expired attempt ≡ none → suc attempt ≤ last
    later true e h = absurd (
        ground (
          arith,
          subst (λ k. is_some (w.expired k) ≡ true) (sym ((==_iff attempt last).0 e)) done,
          h,
        ))
    later false e h = ground arith

-- Where the context of the wait is done by one attempt, the loop of beginImmediate ends by that
-- attempt, and it returns without an error only after a BEGIN IMMEDIATE that SQLite carried out.
pub begin_immediate-Ends :
    (w : Waiting) (last : ℕ)
    → is_some (w.expired last) ≡ true
    → Ends w last (begin_immediate w (suc last))
unfolding begin_immediate
begin_immediate-Ends w last done = go w.pragma
  where
    go : (o : Option Cause) → Ends w last (after_pragma o (begin_from w (suc last) 0))
    go (some cause) = (some cause, refl, λ n. absurd (ground arith))
    go none = begin_from-Ends w last done (suc last) 0 (omega arith) (omega arith)
