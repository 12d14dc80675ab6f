-- ===== src/Wagering/Hash.antt =====
-- The canonical text of an operation and its digest (internal/wagering/hash.go). JSON's text of one
-- string and SHA-256 are the service's parameters; the strings of a request have a text, so no error
-- arises.
use jg_backend_challenge_go.Prelude.{
  Bool, true, false, List, [], ◌∷◌, ◌++◌, ltb, ◌==◌, is_empty, Text, codes, order_by, if◌then◌else◌,
}
use jg_backend_challenge_go.Domain.Transaction.{
  TransactionKind, opening, bet, win, loss, refund, rollback, other,
}
use jg_backend_challenge_go.Wagering.Service.{Service}

-- `string(kind)`
unfoldable pub kind_text : TransactionKind → Text
kind_text opening = codes "OPENING"
kind_text bet = codes "BET"
kind_text win = codes "WIN"
kind_text loss = codes "LOSS"
kind_text refund = codes "REFUND"
kind_text rollback = codes "ROLLBACK"
kind_text (other k) = k

pub record BusinessHashInput : Type 0 where
  pub provider_id : Text
  pub external_transaction_id : Text
  pub player_id : Text
  pub wallet_id : Text
  pub round_id : Text
  pub game_id : Text
  pub kind : Text
  pub amount_text : Text
  pub currency : Text
  pub reference_external_id : Text

-- `a <= b` on strings, as `sort.Strings` orders them.
unfoldable pub text_le : Text → Text → Bool
text_le [] t = true
text_le (x ∷ s) [] = false
text_le (x ∷ s) (y ∷ t) = if x == y then text_le s t else ltb x y

abbrev pub key_le : Text × Text → Text × Text → Bool
key_le a b = text_le a.0 b.0

-- The members of an object whose values are printed already.
unfoldable pub canonical_members : Service → List (Text × Text) → Text
canonical_members s [] = []
canonical_members s (m ∷ []) = s.json_string m.0 ++ (b':' ∷ m.1)
canonical_members s (m ∷ n ∷ ms) =
    s.json_string m.0 ++ (b':' ∷ m.1 ++ (b',' ∷ canonical_members s (n ∷ ms)))

unfoldable pub canonical_object : Service → List (Text × Text) → Text
unfolding canonical_members text_le
canonical_object s ms = b'{' ∷ canonical_members s (order_by key_le ms) ++ (b'}' ∷ [])

abbrev reference_member : Service → Text → List (Text × Text)
reference_member s r =
    if is_empty r then [] else (codes "referenceExternalTransactionId", s.json_string r) ∷ []

unfoldable pub canonical_json : Service → BusinessHashInput → Text
unfolding canonical_object
canonical_json s i = canonical_object s (
    reference_member s i.reference_external_id
    ++ ((codes "providerId", s.json_string i.provider_id)
        ∷ (codes "externalTransactionId", s.json_string i.external_transaction_id)
        ∷ (codes "playerId", s.json_string i.player_id)
        ∷ (codes "walletId", s.json_string i.wallet_id)
        ∷ (codes "roundId", s.json_string i.round_id)
        ∷ (codes "gameId", s.json_string i.game_id)
        ∷ (codes "kind", s.json_string i.kind)
        ∷ (
          codes "money",
          canonical_object s (
              (codes "amount", s.json_string i.amount_text)
              ∷ (codes "currency", s.json_string i.currency)
              ∷ []),
        )
        ∷ []))

unfoldable pub payload_hash : Service → BusinessHashInput → Text
unfolding canonical_json
payload_hash s i = s.sha256_hex (canonical_json s i)
