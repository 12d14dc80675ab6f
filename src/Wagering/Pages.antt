-- ===== src/Wagering/Pages.antt =====
-- Pages of a wallet's ledger and their cursor (internal/wagering/reconcile.go). The encoder
-- base64.RawURLEncoding is given.
pub mod Cursor
pub mod Ascending
use jg_backend_challenge_go.Prelude.{
  ℕ, zero, suc, ◌+◌, Bool, Option, none, some, List, [], ◌∷◌, ℤ, pos, negsuc, is_neg, length, take,
  ltb, Text, codes, is_empty, decimal, parse_int, if◌then◌else◌, Result, ok, err,
}
use jg_backend_challenge_go.Ports.{LedgerRecord, Failure, correctable}
use jg_backend_challenge_go.Postgres.Db.{M, pure, lift, ◌>>=◌}
use jg_backend_challenge_go.Postgres.LedgerRepo.{page}
use jg_backend_challenge_go.Wagering.Service.{code_invalid_req}

-- Decoding gives nothing where the text is no encoding.
pub record Base64 : Type 0 where
  pub encode : Text → Text
  pub decode : Text → Option Text

abbrev pub ledger_default_limit : ℕ
ledger_default_limit = 50

abbrev pub ledger_max_limit : ℕ
ledger_max_limit = 200

pub record LedgerPage : Type 0 where
  pub entries : List LedgerRecord
  pub next_cursor : Text

-- strconv.FormatInt(v, 10)
unfoldable pub format_int : ℤ → Text
format_int (pos n) = decimal n
format_int (negsuc n) = b'-' ∷ decimal (suc n)

unfoldable pub encode_cursor : Base64 → ℤ → Text
unfolding format_int
encode_cursor b version = b.encode (format_int version)

abbrev pub accept_version : Option ℤ → Result Failure ℤ
accept_version none = err (correctable code_invalid_req)
accept_version (some v) = if is_neg v then err (correctable code_invalid_req) else ok v

abbrev pub accept_raw : Option Text → Result Failure ℤ
accept_raw none = err (correctable code_invalid_req)
accept_raw (some raw) = accept_version (parse_int raw)

unfoldable pub decode_cursor : Base64 → Text → Result Failure ℤ
decode_cursor b cursor = if is_empty cursor then ok (pos 0) else accept_raw (b.decode cursor)

unfoldable pub clamp_limit : ℤ → ℕ
clamp_limit (pos zero) = ledger_default_limit
clamp_limit (pos (suc n)) = if ltb ledger_max_limit (suc n) then ledger_max_limit else suc n
clamp_limit (negsuc n) = ledger_default_limit

-- `rows[len(rows)-1].WalletVersion`
unfoldable pub last_version : List LedgerRecord → ℤ
last_version [] = pos 0
last_version (e ∷ []) = e.wallet_version
last_version (e ∷ f ∷ es) = last_version (f ∷ es)

-- The page, from one row more than it holds.
unfoldable pub cut_page : Base64 → ℕ → List LedgerRecord → LedgerPage
unfolding encode_cursor last_version
cut_page b limit rows =
    if ltb limit (length rows)
    then (record {
      entries = take limit rows;
      next_cursor = encode_cursor b (last_version (take limit rows));
    })
    else (record { entries = rows; next_cursor = codes "" })

unfoldable pub page_ledger : Base64 → Text → Text → ℤ → M LedgerPage
page_ledger b wallet_id cursor limit = do
  after ← lift (decode_cursor b cursor)
  rows ← page wallet_id after (suc (clamp_limit limit))
  pure (cut_page b (clamp_limit limit) rows)
