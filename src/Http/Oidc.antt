-- ===== src/Http/Oidc.antt =====
-- The OIDC validator (internal/adapters/http/oidc.go). What the JWT library reads of a token, the path
-- of a URL, base64 and the answer of the key server are given; the keys in the cache are its state.
pub mod Cached
pub mod Authorized
pub mod Sound
use jg_backend_challenge_go.Prelude.{
  ℕ, ◌+◌, ◌-◌, ◌*◌, ◌^◌, ◌%◌, ltb, leb, ℤ, pos, negsuc, ◌+ℤ◌, wrap64, Bool, true, false, not, ◌&&◌,
  ◌||◌, Option, none, some, List, [], ◌∷◌, Text, codes, text_eq, is_empty, if◌then◌else◌, ltb_ℤ,
}
use jg_backend_challenge_go.Wagering.Service.{second}
use jg_backend_challenge_go.Wagering.Pages.{Base64}
use jg_backend_challenge_go.Http.Identity.{Identity, role_provider}

abbrev pub clock_skew_leeway : ℕ
clock_skew_leeway = 30 * second

abbrev pub jwks_cache_ttl : ℕ
jwks_cache_ttl = 5 * 60 * second

-- rsa.PublicKey
pub record PublicKey : Type 0 where
  pub n : ℕ
  pub e : ℤ

pub record JwksKey : Type 0 where
  pub kid : Text
  pub kty : Text
  pub n : Text
  pub e : Text

-- The claims of a token, as the getters of the library return them: nothing is an error, and a time
-- that is not there is nothing inside. Times are numbers of nanoseconds.
pub record Claims : Type 0 where
  pub issuer : Option Text
  pub expiration_time : Option (Option ℕ)
  pub not_before : Option (Option ℕ)
  pub audience : Option (List Text)
  pub realm_roles : List Text
  pub provider_id : Text

-- What is given: the algorithm and the key id in a token's header, the claims of a token that the
-- library finds valid under a key, and the path of a URL.
pub record Library : Type 0 where
  pub token_header : Text → Option (Text × Text)
  pub verify : PublicKey → Text → Option Claims
  pub url_path : Text → Option Text
  pub base64 : Base64

pub record OidcValidator : Type 0 where
  pub issuer : Text
  pub audience : Text
  pub leeway : ℕ

pub record KeyCache : Type 0 where
  pub keys : List (Text × PublicKey)
  pub fetched : ℕ

unfoldable pub leeway : OidcValidator → ℕ
leeway v = if ltb 0 v.leeway then v.leeway else clock_skew_leeway

-- `new(big.Int).SetBytes`
unfoldable pub big_endian : ℕ → Text → ℕ
big_endian n [] = n
big_endian n (b ∷ bs) = big_endian (n * 256 + b) bs

-- `e<<8 + int(b)` for each byte, in an int of 64 bits.
abbrev shift_8 : ℤ → ℤ
shift_8 (pos e) = wrap64 (pos (e * 256))
shift_8 (negsuc e) = wrap64 (negsuc (e * 256 + 255))

unfoldable pub exponent : ℤ → Text → ℤ
exponent e [] = e
exponent e (b ∷ bs) = exponent (wrap64 (shift_8 e +ℤ pos b)) bs

abbrev decoded_key : Option Text → Option Text → Option PublicKey
decoded_key (some n) (some e) = some (record { n = big_endian 0 n; e = exponent (pos 0) e })
decoded_key _ _ = none

-- One turn of the loop: nothing where it continues.
unfoldable pub rsa_key : Base64 → JwksKey → Option PublicKey
unfolding big_endian exponent
rsa_key b k =
    if not (text_eq k.kty (codes "RSA")) || is_empty k.kid
    then none
    else decoded_key (b.decode k.n) (b.decode k.e)

abbrev with_key : Text → Option PublicKey → List (Text × PublicKey) → List (Text × PublicKey)
with_key kid none keys = keys
with_key kid (some key) keys = (kid, key) ∷ keys

-- The map that the loop fills, its latest entry in front.
unfoldable pub rsa_keys : Base64 → List (Text × PublicKey) → List JwksKey → List (Text × PublicKey)
unfolding rsa_key
rsa_keys b keys [] = keys
rsa_keys b keys (k ∷ ks) = rsa_keys b (with_key k.kid (rsa_key b k) keys) ks

unfoldable pub find_key : Text → List (Text × PublicKey) → Option PublicKey
find_key kid [] = none
find_key kid ((id, key) ∷ keys) =
    let other = find_key kid keys in if text_eq id kid then some key else other

abbrev pub refreshed : ℕ → List (Text × PublicKey) → Option KeyCache
refreshed now [] = none
refreshed now (k ∷ ks) = some (record { keys = k ∷ ks; fetched = now })

-- The key server's document, or nothing where the request fails.
unfoldable pub refresh_locked : Library → ℕ → Option (List JwksKey) → Option KeyCache
unfolding rsa_keys
refresh_locked l now none = none
refresh_locked l now (some document) = refreshed now (rsa_keys l.base64 [] document)

abbrev pub after_refresh : Text → KeyCache → Option KeyCache → Option PublicKey × KeyCache
after_refresh kid cache none = (none, cache)
after_refresh kid cache (some fresh) = (find_key kid fresh.keys, fresh)

abbrev pub cached : Bool → Option PublicKey → Option PublicKey
cached fresh none = none
cached fresh (some key) = if fresh then some key else none

abbrev pub choose_key :
    Library
    → ℕ
    → Option (List JwksKey)
    → Text
    → KeyCache
    → Option PublicKey
    → Option PublicKey × KeyCache
choose_key l now document kid cache (some key) = (some key, cache)
choose_key l now document kid cache none = after_refresh kid cache (refresh_locked l now document)

-- The key and the cache behind the call.
unfoldable pub key_for :
    Library → ℕ → Option (List JwksKey) → Text → KeyCache → Option PublicKey × KeyCache
unfolding refresh_locked find_key
key_for l now document kid cache =
    choose_key l now document kid cache
      (cached (ltb (now - cache.fetched) jwks_cache_ttl) (find_key kid cache.keys))

abbrev pub same_path : Option Text → Text → Bool
same_path none want = false
same_path (some got) want = text_eq got want

abbrev pub matches_path : Library → Option Text → Text → Bool
matches_path l none iss = false
matches_path l (some want) iss = if is_empty want then true else same_path (l.url_path iss) want

-- Whether no error is returned.
unfoldable pub check_issuer : Library → Text → Option Text → Bool
check_issuer l configured none = false
check_issuer l configured (some iss) =
    if is_empty iss then false else matches_path l (l.url_path configured) iss

unfoldable pub aud_contains : List Text → Text → Bool
aud_contains [] want = false
aud_contains (a ∷ aud) want = text_eq a want || aud_contains aud want

abbrev pub is_unexpired : ℕ → ℕ → Option (Option ℕ) → Bool
is_unexpired now leeway (some (some exp)) = leb now (exp + leeway)
is_unexpired now leeway _ = false

abbrev pub is_active : ℕ → ℕ → Option (Option ℕ) → Bool
is_active now leeway none = false
is_active now leeway (some none) = true
is_active now leeway (some (some nbf)) = leb nbf (now + leeway)

abbrev pub has_audience : Text → Option (List Text) → Bool
has_audience want none = is_empty want
has_audience want (some aud) = is_empty want || aud_contains aud want

unfoldable pub check_claims : Library → OidcValidator → ℕ → Claims → Bool
unfolding check_issuer leeway aud_contains
check_claims l v now c =
    check_issuer l v.issuer c.issuer
    && is_unexpired now (leeway v) c.expiration_time
    && is_active now (leeway v) c.not_before
    && has_audience v.audience c.audience

-- The map of the roles, as a lookup.
unfoldable pub role_set : List Text → Text → Bool
role_set [] role = false
role_set (r ∷ roles) role = text_eq r role || role_set roles role

abbrev pub identity_of : Claims → Identity
identity_of c = record { provider_id = c.provider_id; roles = role_set c.realm_roles }

unfoldable pub authorize : Library → OidcValidator → ℕ → Option Claims → Option Identity
unfolding check_claims role_set
authorize l v now none = none
authorize l v now (some c) =
    if not (check_claims l v now c)
    then none
    else if role_set c.realm_roles role_provider && is_empty c.provider_id
    then none
    else some (identity_of c)

abbrev pub verified : Library → Text → Option PublicKey → Option Claims
verified l token none = none
verified l token (some key) = l.verify key token

-- Whether the algorithm is RS256.
abbrev pub by_algorithm :
    Library
    → OidcValidator
    → ℕ
    → Option (List JwksKey)
    → Text
    → Text
    → KeyCache
    → Bool
    → Option Identity × KeyCache
by_algorithm l v now document token kid cache false = (none, cache)
by_algorithm l v now document token kid cache true =
    let (key, cache') = key_for l now document kid cache in
    (authorize l v now (verified l token key), cache')

-- The identity, if there is no error, and the cache behind the call.
abbrev pub validate_header :
    Library
    → OidcValidator
    → ℕ
    → Option (List JwksKey)
    → Text
    → Option (Text × Text)
    → KeyCache
    → Option Identity × KeyCache
validate_header l v now document token none cache = (none, cache)
validate_header l v now document token (some (alg, kid)) cache =
    by_algorithm l v now document token kid cache (text_eq alg (codes "RS256"))

unfoldable pub validate_token :
    Library
    → OidcValidator
    → ℕ
    → Option (List JwksKey)
    → Text
    → KeyCache
    → Option Identity × KeyCache
unfolding key_for authorize
validate_token l v now document token cache =
    validate_header l v now document token (l.token_header token) cache
