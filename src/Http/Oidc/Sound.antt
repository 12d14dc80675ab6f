-- ===== src/Http/Oidc/Sound.antt =====
-- What stands behind an identity (internal/adapters/http/oidc.go).
use jg_backend_challenge_go.Prelude.{
  ℕ, ◌≡◌, refl, ap, ◌∙◌, Bool, true, false, Option, none, some, List, Text, codes, text_eq,
  text_eq_iff,
}
use jg_backend_challenge_go.Http.Identity.{Identity}
use jg_backend_challenge_go.Http.Oidc.{
  PublicKey, JwksKey, Claims, Library, OidcValidator, KeyCache, key_for, authorize, verified,
  by_algorithm, validate_header, validate_token,
}
use jg_backend_challenge_go.Http.Oidc.Cached.{InCache, key_for-InCache}
use jg_backend_challenge_go.Http.Oidc.Authorized.{Authorized, authorize-Authorized}

-- What stands behind the identity that a token gives.
pub record Vouched (l : Library) (v : OidcValidator) (now : ℕ) (token : Text) (i : Identity)
    (cache : KeyCache) : Type 0 where
  pub kid : Text
  pub key : PublicKey
  pub claims : Claims
  pub signed_with : l.token_header token ≡ some (codes "RS256", kid)
  pub key_known : InCache now kid key cache
  pub key_verifies : l.verify key token ≡ some claims
  pub claims_hold : Authorized l v now claims i

verified-Vouched :
    (l : Library) (v : OidcValidator) (now : ℕ) (token kid : Text) (i : Identity)
    (o : Option PublicKey) (c : Option Claims) (cache : KeyCache)
    → l.token_header token ≡ some (codes "RS256", kid)
    → ((key : PublicKey) → o ≡ some key → InCache now kid key cache)
    → verified l token o ≡ c
    → authorize l v now c ≡ some i
    → Vouched l v now token i cache
unfolding authorize
verified-Vouched l v now token kid i none none cache signed known e h = cc h
verified-Vouched l v now token kid i none (some c) cache signed known e h = cc e
verified-Vouched l v now token kid i (some key) none cache signed known e h = cc h
verified-Vouched l v now token kid i (some key) (some c) cache signed known e h = record {
  kid = kid;
  key = key;
  claims = c;
  signed_with = signed;
  key_known = known key refl;
  key_verifies = e;
  claims_hold = authorize-Authorized l v now c i h;
}

rs256-Vouched :
    (l : Library) (v : OidcValidator) (now : ℕ) (document : Option (List JwksKey))
    (token alg kid : Text) (cache : KeyCache) (i : Identity) (b : Bool)
    → text_eq alg (codes "RS256") ≡ b
    → l.token_header token ≡ some (alg, kid)
    → (by_algorithm l v now document token kid cache b).0 ≡ some i
    → Vouched l v now token i (by_algorithm l v now document token kid cache b).1
rs256-Vouched l v now document token alg kid cache i true a e h =
    let (key, cache') = key_for l now document kid cache in
    verified-Vouched l v now token kid i key (verified l token key) cache'
      (e ∙ ap (λ x. some (x, kid)) ((text_eq_iff alg (codes "RS256")).0 a))
      (λ k f. key_for-InCache l now document kid k cache f) refl h
rs256-Vouched l v now document token alg kid cache i false a e h = cc h

signed-Vouched :
    (l : Library) (v : OidcValidator) (now : ℕ) (document : Option (List JwksKey)) (token : Text)
    (header : Option (Text × Text)) (cache : KeyCache) (i : Identity)
    → l.token_header token ≡ header
    → (validate_header l v now document token header cache).0 ≡ some i
    → Vouched l v now token i (validate_header l v now document token header cache).1
signed-Vouched l v now document token none cache i e h = cc h
signed-Vouched l v now document token (some (alg, kid)) cache i e h =
    rs256-Vouched l v now document token alg kid cache i (text_eq alg (codes "RS256")) refl e h

-- An identity is given only for a token that names RS256 and verifies under a key that the cache has
-- for the key id of its header, filled less than five minutes ago, and whose claims name an issuer with
-- the path of the configured one if that has a path, an expiry that the clock has not passed by more
-- than the leeway (30 seconds if none is configured), no start that is later than the clock by more
-- than it, and the configured audience if there is one; the identity has exactly the roles of the
-- claims and their provider, which is not empty for a provider.
pub validate_token-Vouched :
    (l : Library) (v : OidcValidator) (now : ℕ) (document : Option (List JwksKey)) (token : Text)
    (cache : KeyCache) (i : Identity)
    → (validate_token l v now document token cache).0 ≡ some i
    → Vouched l v now token i (validate_token l v now document token cache).1
unfolding validate_token
validate_token-Vouched l v now document token cache i h =
    signed-Vouched l v now document token (l.token_header token) cache i refl h
