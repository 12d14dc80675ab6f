-- ===== src/Domain/Errors.antt =====
-- The stable failure codes (internal/domain/errors.go). A sentinel error is its code: the message
-- texts are left out.
use jg_backend_challenge_go.Prelude.{Bool, true, false, Text, codes}

pub data Code : Type 0 where
  invalid_money invalid_amount_for_kind currency_mismatch wallet_player_mismatch : Code
  insufficient_balance rollback_insufficient_balance opening_not_allowed : Code
  reference_required amount_mismatch reference_currency_mismatch : Code
  reference_wallet_mismatch reference_player_mismatch reference_round_mismatch : Code
  reference_provider_mismatch reference_reversed reference_not_processed : Code
  already_reversed bet_has_active_win invalid_reversal invalid_transition : Code
  money_overflow : Code

-- `errors.Is(err, ErrInsufficientBalance)`
abbrev pub is_insufficient_balance : Code → Bool
is_insufficient_balance insufficient_balance = true
is_insufficient_balance _ = false

-- The text of a code, `CodeOf` of its error.
unfoldable pub code_text : Code → Text
code_text invalid_money = codes "INVALID_MONEY"
code_text invalid_amount_for_kind = codes "INVALID_AMOUNT_FOR_KIND"
code_text currency_mismatch = codes "CURRENCY_MISMATCH"
code_text wallet_player_mismatch = codes "WALLET_PLAYER_MISMATCH"
code_text insufficient_balance = codes "INSUFFICIENT_BALANCE"
code_text rollback_insufficient_balance = codes "ROLLBACK_INSUFFICIENT_BALANCE"
code_text opening_not_allowed = codes "OPENING_NOT_ALLOWED"
code_text reference_required = codes "REFERENCE_REQUIRED"
code_text amount_mismatch = codes "AMOUNT_MISMATCH"
code_text reference_currency_mismatch = codes "REFERENCE_CURRENCY_MISMATCH"
code_text reference_wallet_mismatch = codes "REFERENCE_WALLET_MISMATCH"
code_text reference_player_mismatch = codes "REFERENCE_PLAYER_MISMATCH"
code_text reference_round_mismatch = codes "REFERENCE_ROUND_MISMATCH"
code_text reference_provider_mismatch = codes "REFERENCE_PROVIDER_MISMATCH"
code_text reference_reversed = codes "REFERENCE_REVERSED"
code_text reference_not_processed = codes "REFERENCE_NOT_PROCESSED"
code_text already_reversed = codes "ALREADY_REVERSED"
code_text bet_has_active_win = codes "BET_HAS_ACTIVE_WIN"
code_text invalid_reversal = codes "INVALID_REVERSAL"
code_text invalid_transition = codes "INVALID_TRANSITION"
code_text money_overflow = codes "MONEY_OVERFLOW"
