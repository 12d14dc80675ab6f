-- ===== src/Wagering/Pages/Cursor.antt =====
-- The cursor of a page (internal/wagering/reconcile.go).
use jg_backend_challenge_go.Prelude.{
  ℕ, ◌^◌, ◌<◌, ◌≡◌, refl, sym, ap, subst, ◌∙◌, true, false, some, [], ◌∷◌, pos, Text, is_empty,
  is_digit, all_bytes, value_from, decimal, parse_digits, parse_int, value_from-decimal,
  decimal-digits, decimal-nonempty, arith, ok,
}
use jg_backend_challenge_go.Wagering.Pages.{Base64, format_int, encode_cursor, decode_cursor}

-- What the documentation of base64 says of RawURLEncoding.
pub record IsCodec (b : Base64) : Type 0 where
  pub decode_encode : (x : Text) → b.decode (b.encode x) ≡ some x
  pub encode_nonempty : (x : Text) → is_empty x ≡ false → is_empty (b.encode x) ≡ false

parse_int_digits :
    (s : Text)
    → is_empty s ≡ false
    → all_bytes is_digit s ≡ true
    → value_from 0 s < 2 ^ 63
    → parse_int s ≡ some (pos (value_from 0 s))
unfolding parse_int parse_digits
parse_int_digits [] nonempty digits h = cc nonempty
parse_int_digits (c ∷ s) nonempty digits h = ground arith

parse_int-decimal : (n : ℕ) → n < 2 ^ 63 → parse_int (decimal n) ≡ some (pos n)
parse_int-decimal n h =
    parse_int_digits (decimal n) (decimal-nonempty n) (decimal-digits n)
      (subst (λ x. x < 2 ^ 63) (sym (value_from-decimal n)) h)
    ∙ ap (λ x. some (pos x)) (value_from-decimal n)

-- The version that `EncodeCursor` is given, an int64 that is not negative, is what `DecodeCursor` reads
-- back, where the encoder round-trips and gives no empty text for a text that is not empty.
pub decode_cursor-encode_cursor :
    (b : Base64)
    → IsCodec b
    → (n : ℕ) → n < 2 ^ 63
    → decode_cursor b (encode_cursor b (pos n)) ≡ ok (pos n)
unfolding decode_cursor encode_cursor format_int
decode_cursor-encode_cursor b codec n h =
    rw
      (
        codec.encode_nonempty (decimal n) (decimal-nonempty n),
        codec.decode_encode (decimal n),
        parse_int-decimal n h,
      )
      refl

-- The cursor of a page that is not the last one is not empty.
pub encode_cursor-nonempty :
    (b : Base64) → IsCodec b → (n : ℕ) → is_empty (encode_cursor b (pos n)) ≡ false
unfolding encode_cursor format_int
encode_cursor-nonempty b codec n = codec.encode_nonempty (decimal n) (decimal-nonempty n)
