-- ===== src/Prelude/Trimming.antt =====
-- `strings.TrimSpace`, `strings.EqualFold` against letters that have no fold outside ASCII, and
-- `strings.SplitN(s, sep, 2)` at a byte.
use Prim.Native.Nat.{ℕ, zero, suc, ◌+◌}
use mathlib.Core.Bool.{Bool, true, false, ◌&&◌, ◌||◌}
use mathlib.Core.Option.{Option, none, some}
use mathlib.Core.List.{[], ◌∷◌}
use jg_backend_challenge_go.Prelude.Tests.{◌==◌, leb, if◌then◌else◌}
use jg_backend_challenge_go.Prelude.Lists.{take, drop}
use jg_backend_challenge_go.Prelude.Strings.{Text, index_byte}

abbrev is_ascii_space : ℕ → Bool
is_ascii_space c = leb 9 c && leb c 13 || c == 32

-- U+0085 and U+00A0
abbrev is_space_2 : ℕ → ℕ → Bool
is_space_2 a b = a == 194 && (b == 133 || b == 160)

-- U+1680, U+2000 to U+200A, U+2028, U+2029, U+202F, U+205F and U+3000
abbrev is_space_3 : ℕ → ℕ → ℕ → Bool
is_space_3 a b c =
    a == 225 && b == 154 && c == 128
    || a == 226 && b == 128 && (leb 128 c && leb c 138 || c == 168 || c == 169 || c == 175)
    || a == 226 && b == 129 && c == 159
    || a == 227 && b == 128 && c == 128

-- The bytes of the space in front, 0 if there is none.
abbrev front_space : Text → ℕ
front_space [] = 0
front_space (a ∷ []) = if is_ascii_space a then 1 else 0
front_space (a ∷ b ∷ []) = if is_ascii_space a then 1 else if is_space_2 a b then 2 else 0
front_space (a ∷ b ∷ c ∷ s) =
    if is_ascii_space a then 1 else if is_space_2 a b then 2 else if is_space_3 a b c then 3 else 0

-- The same of a text that is turned round.
abbrev back_space : Text → ℕ
back_space [] = 0
back_space (a ∷ []) = if is_ascii_space a then 1 else 0
back_space (a ∷ b ∷ []) = if is_ascii_space a then 1 else if is_space_2 b a then 2 else 0
back_space (a ∷ b ∷ c ∷ s) =
    if is_ascii_space a then 1 else if is_space_2 b a then 2 else if is_space_3 c b a then 3 else 0

-- Drops `skip` bytes, and then every space in front, whose bytes `width` counts.
unfoldable pub trim_front : (Text → ℕ) → ℕ → Text → Text
trim_front width skip [] = []
trim_front width (suc skip) (c ∷ s) = trim_front width skip s
trim_front width zero (c ∷ s) = elim (width (c ∷ s)) [ zero ↦ c ∷ s | suc k ↦ trim_front width k s ]

unfoldable pub turned : Text → Text → Text
turned out [] = out
turned out (c ∷ s) = turned (c ∷ out) s

unfoldable pub trim_space : Text → Text
unfolding trim_front turned
trim_space s = turned [] (trim_front back_space 0 (turned [] (trim_front front_space 0 s)))

abbrev lower : ℕ → ℕ
lower c = if leb b'A' c && leb c b'Z' then c + 32 else c

unfoldable pub equal_fold : Text → Text → Bool
equal_fold [] [] = true
equal_fold (a ∷ s) (b ∷ t) = lower a == lower b && equal_fold s t
equal_fold _ _ = false

-- The two parts, `none` if the separator is not there.
unfoldable pub split_2 : Text → ℕ → Option (Text × Text)
split_2 s sep = elim (index_byte s sep) [ none ↦ none | some n ↦ some (take n s, drop (suc n) s) ]
