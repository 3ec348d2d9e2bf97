-- ===== src/Worker/Backoff.antt =====
-- backoffDelay of internal/worker/worker.go, in nanoseconds. The jitter is a function that the
-- caller injects; what it returns below zero counts as 0.
use paperless_ai_ocr.Prelude.{
  ℕ, zero, suc, ◌+◌, ◌-◌, ◌*◌, ◌^◌, ◌≤◌, ◌<◌, inl, inr, arith, leb, ◌==◌, if◌then◌else◌, Bool-cases,
}

abbrev pub second : ℕ
second = 1000000000

abbrev pub default_backoff : ℕ
default_backoff = second

abbrev pub maximum_backoff : ℕ
maximum_backoff = 30 * second

abbrev pub saturation_exponent : ℕ
saturation_exponent = 5

-- `base` and its jitter, below the saturation
unfoldable pub jittered : ℕ → ℕ → ℕ
jittered base extra =
    if extra == 0
    then base
    else if leb (maximum_backoff - base) extra
    then maximum_backoff
    else base + extra

-- backoffDelay
unfoldable pub backoff_delay : ℕ → (ℕ → ℕ) → ℕ
unfolding jittered
backoff_delay attempt jitter =
    let exponent = attempt - 1 in
    let base = default_backoff * 2 ^ exponent in
    if leb saturation_exponent exponent then maximum_backoff else jittered base (jitter base)

jittered_bounds :
    (base extra : ℕ)
    → base ≤ maximum_backoff
    → (base ≤ jittered base extra) × (jittered base extra ≤ maximum_backoff)
unfolding jittered
jittered_bounds base extra h = ground arith

base_bounds :
    (e : ℕ)
    → e < 5
    → (default_backoff ≤ default_backoff * 2 ^ e) × (default_backoff * 2 ^ e ≤ 16 * second)
base_bounds zero h = omega arith
base_bounds (suc zero) h = omega arith
base_bounds (suc (suc zero)) h = omega arith
base_bounds (suc (suc (suc zero))) h = omega arith
base_bounds (suc (suc (suc (suc zero)))) h = omega arith
base_bounds (suc (suc (suc (suc (suc e))))) h = absurd (omega arith)

-- For every attempt and every jitter the delay lies between one second and thirty.
pub backoff_delay_bounds :
    (attempt : ℕ) (jitter : ℕ → ℕ)
    → (default_backoff ≤ backoff_delay attempt jitter)
      × (backoff_delay attempt jitter ≤ maximum_backoff)
unfolding backoff_delay
backoff_delay_bounds attempt jitter = elim (Bool-cases (leb 5 (attempt - 1))) [
  | inl t ↦ rw t (omega arith)
  | inr t ↦ rw t (
      let b = default_backoff * 2 ^ (attempt - 1) in
      omega (
        arith,
        base_bounds (attempt - 1) (ground arith),
        jittered_bounds b (jitter b) (omega (arith, base_bounds (attempt - 1) (ground arith))),
      ))
]
