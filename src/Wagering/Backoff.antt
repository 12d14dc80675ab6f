-- ===== src/Wagering/Backoff.antt =====
-- `BackoffFullJitter` (internal/wagering/backoff.go). A duration is an int64, whose doubling wraps
-- around; `draw` is what the source's `Int63n` draws below a positive bound, and nothing is its panic.
pub mod Bounds
use jg_backend_challenge_go.Prelude.{
  ℕ, zero, suc, ℤ, pos, negsuc, ◌+ℤ◌, wrap64, pos_part, ltb_ℤ, not, Option, none, some,
  if◌then◌else◌,
}
use jg_backend_challenge_go.Wagering.Service.{backoff_base, backoff_cap}

-- The loop: the ceiling after the doublings.
unfoldable pub ceiling_after : ℕ → ℤ → ℤ → ℤ
ceiling_after zero ceiling cap = ceiling
ceiling_after (suc n) ceiling cap =
    let doubled = wrap64 (ceiling +ℤ ceiling) in
    let rest = ceiling_after n doubled cap in if not (ltb_ℤ doubled cap) then cap else rest

-- `Int63n` panics for a bound that is not positive.
abbrev pub int63n : (ℕ → ℕ) → ℤ → Option ℕ
int63n draw (pos zero) = none
int63n draw (pos (suc n)) = some (draw (suc n))
int63n draw (negsuc n) = none

unfoldable pub backoff_full_jitter : ℤ → ℤ → ℤ → (ℕ → ℕ) → Option ℕ
backoff_full_jitter attempt base cap draw =
    let reached = ceiling_after (pos_part attempt) base cap in
    let ceiling = if ltb_ℤ cap reached then cap else reached in
    if not (ltb_ℤ (pos zero) ceiling) then some 0 else int63n draw (wrap64 (ceiling +ℤ pos 1))

-- The call with the service's constants, which `Bounds` shows not to panic.
unfoldable pub retry_delay : ℕ → (ℕ → ℕ) → ℕ
retry_delay attempt draw =
    elim (backoff_full_jitter (pos attempt) (pos backoff_base) (pos backoff_cap) draw) [
      | none ↦ 0
      | some d ↦ d
    ]
