-- ===== src/Wagering/Backoff/Bounds.antt =====
-- What the ceiling of a backoff is (internal/wagering/backoff.go).
use jg_backend_challenge_go.Prelude.{
  ℕ, zero, suc, ◌+◌, ◌*◌, ◌^◌, ◌≤◌, ◌<◌, ◌≡◌, refl, ap, ◌∙◌, arith, ltb, ◌==◌, ℤ, pos, ◌+ℤ◌, wrap64,
  ltb_ℤ, not, Bool, true, false, Option, none, some, if◌then◌else◌,
}
use jg_backend_challenge_go.Wagering.Service.{backoff_base, backoff_cap}
use jg_backend_challenge_go.Wagering.Backoff.{
  ceiling_after, int63n, backoff_full_jitter, retry_delay,
}

-- The smaller of two durations.
unfoldable pub capped : ℕ → ℕ → ℕ
capped cap n = if ltb cap n then cap else n

doubled : (c n : ℕ) → c * 2 * 2 ^ n ≡ c * 2 ^ (suc n)
doubled c n = grind arith

grown : (c n : ℕ) → c ≤ c * 2 ^ n
grown c zero = omega arith
grown c (suc n) = omega (arith, doubled c n, grown (c * 2) n)

wrap64-small : (n : ℕ) → n < 2 ^ 63 → wrap64 (pos n) ≡ pos n
unfolding wrap64
wrap64-small n h = ground arith

add_pos : (m n : ℕ) → pos m +ℤ pos n ≡ pos (m + n)
unfolding ◌+ℤ◌
add_pos m n = ground arith

wrap64-double : (c : ℕ) → c < 2 ^ 62 → wrap64 (pos c +ℤ pos c) ≡ pos (c * 2)
wrap64-double c h = rw (add_pos c c, wrap64-small (c + c) (omega arith)) (ap pos (omega arith))

turn :
    (b : Bool) (x : ℤ) (cap target : ℕ)
    → (b ≡ true → (m : ℕ) × (x ≡ pos m) × (capped cap m ≡ target))
    → (b ≡ false → capped cap cap ≡ target)
    → (m : ℕ) × ((if not b then pos cap else x) ≡ pos m) × (capped cap m ≡ target)
turn true x cap target f g = f refl
turn false x cap target f g = (cap, refl, g refl)

-- Below these bounds no doubling wraps around.
ceiling_after-capped :
    (n c cap : ℕ)
    → c < 2 ^ 62
    → cap ≤ 2 ^ 62
    → (m : ℕ) × (ceiling_after n (pos c) (pos cap) ≡ pos m)
      × (capped cap m ≡ capped cap (c * 2 ^ n))
unfolding ceiling_after
ceiling_after-capped zero c cap hc hcap = (c, refl, ap (capped cap) (omega arith))
ceiling_after-capped (suc n) c cap hc hcap = rw (wrap64-double c hc) (
    turn (ltb_ℤ (pos (c * 2)) (pos cap)) _ cap _
      (λ early.
        let rest = ceiling_after-capped n (c * 2) cap (ground (arith, early)) hcap in
        (rest.0, rest.1, rest.2 ∙ ap (capped cap) (doubled c n)))
      (λ late. unfold capped in ground (arith, late, doubled c n, grown (c * 2) n)))

abbrev ceiling_of : ℤ → ℕ → ℤ
ceiling_of reached cap = if ltb_ℤ (pos cap) reached then pos cap else reached

ceiling_of-pos : (m cap : ℕ) → ceiling_of (pos m) cap ≡ pos (capped cap m)
unfolding capped
ceiling_of-pos m cap = ground arith

drawn :
    (n : ℕ) (draw : ℕ → ℕ)
    → n ≤ 2 ^ 62
    → (if not (ltb_ℤ (pos 0) (pos n)) then some 0 else int63n draw (wrap64 (pos n +ℤ pos 1)))
      ≡ some (if n == 0 then 0 else draw (n + 1))
drawn n draw h = rw (add_pos n 1, wrap64-small (n + 1) (omega arith)) (ground arith)

capped_le : (cap n : ℕ) → capped cap n ≤ cap
unfolding capped
capped_le cap n = ground arith

capped_le_other : (cap n : ℕ) → capped cap n ≤ n
unfolding capped
capped_le_other cap n = ground arith

-- For a base below 2^62 and a cap up to 2^62, neither negative, the backoff does not panic and is one
-- draw up to the ceiling, which is the base doubled once for each attempt but not more than the cap,
-- with the ceiling itself as a possible value; a ceiling of 0 takes no draw.
pub backoff_full_jitter_lem :
    (attempt base cap : ℕ) (draw : ℕ → ℕ)
    → base < 2 ^ 62
    → cap ≤ 2 ^ 62
    → backoff_full_jitter (pos attempt) (pos base) (pos cap) draw
      ≡ some (
          let ceiling = capped cap (base * 2 ^ attempt) in
          if ceiling == 0 then 0 else draw (ceiling + 1))
unfolding backoff_full_jitter
backoff_full_jitter_lem attempt base cap draw hb hc =
    let reached = ceiling_after-capped attempt base cap hb hc in
    rw (reached.1, ceiling_of-pos reached.0 cap, reached.2)
      (drawn (capped cap (base * 2 ^ attempt)) draw
        (omega (arith, capped_le cap (base * 2 ^ attempt), hc)))

drawn_bounded :
    (ceiling : ℕ) (draw : ℕ → ℕ)
    → ((n : ℕ) → 0 < n → draw n < n)
    → (if ceiling == 0 then 0 else draw (ceiling + 1)) ≤ ceiling
drawn_bounded ceiling draw below = ground (arith, below (ceiling + 1))

-- For a base below 2^62 and a cap up to 2^62, neither negative, the backoff returns a delay that is at
-- most the cap, and at most the base doubled once for each attempt, if a draw below a positive bound is
-- below it.
pub backoff_bounded :
    (attempt base cap : ℕ) (draw : ℕ → ℕ)
    → base < 2 ^ 62
    → cap ≤ 2 ^ 62
    → ((n : ℕ) → 0 < n → draw n < n)
    → (d : ℕ) × (backoff_full_jitter (pos attempt) (pos base) (pos cap) draw ≡ some d)
      × (d ≤ cap)
      × (d ≤ base * 2 ^ attempt)
backoff_bounded attempt base cap draw hb hc below =
    let ceiling = capped cap (base * 2 ^ attempt) in
    let bound = drawn_bounded ceiling draw below in
    (
      _,
      backoff_full_jitter_lem attempt base cap draw hb hc,
      omega (arith, bound, capped_le cap (base * 2 ^ attempt)),
      omega (arith, bound, capped_le_other cap (base * 2 ^ attempt)),
    )

delay_given : (o : Option ℕ) {d : ℕ} → o ≡ some d → o ≡ some (elim o [ none ↦ 0 | some e ↦ e ])
delay_given none h = cc h
delay_given (some e) h = refl

-- The service's constants lie in these ranges.
retry_delay-some :
    (attempt : ℕ) (draw : ℕ → ℕ)
    → backoff_full_jitter (pos attempt) (pos backoff_base) (pos backoff_cap) draw
      ≡ some (retry_delay attempt draw)
unfolding retry_delay
retry_delay-some attempt draw =
    delay_given _
      (backoff_full_jitter_lem attempt backoff_base backoff_cap draw (omega arith) (omega arith))
