-- ===== src/Http/Identity.antt =====
-- The verified caller (internal/adapters/http/identity.go). A map from texts to Booleans is the
-- function that looks a key up.
use jg_backend_challenge_go.Prelude.{
  Bool, Option, none, some, List, [], ◌∷◌, Text, codes, text_eq, if◌then◌else◌,
}

abbrev pub role_provider : Text
role_provider = codes "provider"

abbrev pub role_internal : Text
role_internal = codes "internal"

pub record Identity : Type 0 where
  pub provider_id : Text
  pub roles : Text → Bool

abbrev pub has_role : Identity → Text → Bool
has_role i role = i.roles role

-- The interface: the identity behind a token, or nothing where `ValidateToken` returns an error.
abbrev pub Validator : Type 0
Validator = Text → Option Identity

-- `StaticValidator`: its map as a list of tokens with their identities.
unfoldable pub static_validator : List (Text × Identity) → Validator
static_validator [] token = none
static_validator ((known, i) ∷ rest) token =
    let other = static_validator rest token in if text_eq known token then some i else other
