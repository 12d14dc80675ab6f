-- ===== src/Http/Oidc/Cached.antt =====
-- The keys in the cache (internal/adapters/http/oidc.go).
use jg_backend_challenge_go.Prelude.{
  ℕ, ◌-◌, ◌<◌, ◌≡◌, ◌⊎◌, inl, inr, ◌*◌, refl, ap, ◌∙◌, Bool, true, false, Option, none, some, List,
  [], ◌∷◌, Text, text_eq, text_eq_iff, if◌then◌else◌, ltb, arith,
}
use jg_backend_challenge_go.Wagering.Service.{second}
use jg_backend_challenge_go.Http.Oidc.{
  PublicKey, JwksKey, Library, KeyCache, jwks_cache_ttl, rsa_keys, find_key, refreshed,
  refresh_locked, after_refresh, cached, choose_key, key_for,
}

-- Membership.
abbrev pub Among : {A : Type 0} → A → List A → Type 0
Among a [] = ⊥
Among a (x ∷ xs) = (x ≡ a) ⊎ Among a xs

-- A key of this id stands in the cache, which was filled less than five minutes ago.
pub record InCache (now : ℕ) (kid : Text) (key : PublicKey) (cache : KeyCache) : Type 0 where
  pub found : Among (kid, key) cache.keys
  pub fresh : now - cache.fetched < 300 * second

key_found :
    (b : Bool) (id kid : Text) (k : PublicKey) {key : PublicKey} {o : Option PublicKey} {P : Type 0}
    → text_eq id kid ≡ b
    → (if b then some k else o) ≡ some key
    → (o ≡ some key → P)
    → (◌≡◌ {A = Text × PublicKey} (id, k) (kid, key)) ⊎ P
key_found true id kid k {key} e h f =
    let same : k ≡ key = cc h in
    inl (ap (λ x. (x, k)) ((text_eq_iff id kid).0 e) ∙ ap (λ x. (kid, x)) same)
key_found false id kid k e h f = inr (f h)

find_key-Among :
    (kid : Text) (key : PublicKey) (keys : List (Text × PublicKey))
    → find_key kid keys ≡ some key
    → Among (kid, key) keys
unfolding find_key
find_key-Among kid key [] h = cc h
find_key-Among kid key ((id, k) ∷ keys) h =
    key_found (text_eq id kid) id kid k refl h (find_key-Among kid key keys)

refreshed-InCache :
    (now : ℕ) (kid : Text) (key : PublicKey) (cache : KeyCache) (keys : List (Text × PublicKey))
    → (after_refresh kid cache (refreshed now keys)).0 ≡ some key
    → InCache now kid key (after_refresh kid cache (refreshed now keys)).1
refreshed-InCache now kid key cache [] h = cc h
refreshed-InCache now kid key cache (k ∷ ks) h = record {
  found = find_key-Among kid key (k ∷ ks) h;
  fresh = omega arith;
}

refresh-InCache :
    (l : Library) (now : ℕ) (document : Option (List JwksKey)) (kid : Text) (key : PublicKey)
    (cache : KeyCache)
    → (after_refresh kid cache (refresh_locked l now document)).0 ≡ some key
    → InCache now kid key (after_refresh kid cache (refresh_locked l now document)).1
unfolding refresh_locked
refresh-InCache l now none kid key cache h = cc h
refresh-InCache l now (some ks) kid key cache h =
    refreshed-InCache now kid key cache (rsa_keys l.base64 [] ks) h

chosen-InCache :
    (l : Library) (now : ℕ) (document : Option (List JwksKey)) (kid : Text) (key : PublicKey)
    (cache : KeyCache) (fresh : Bool) (o : Option PublicKey)
    → ltb (now - cache.fetched) jwks_cache_ttl ≡ fresh
    → find_key kid cache.keys ≡ o
    → (choose_key l now document kid cache (cached fresh o)).0 ≡ some key
    → InCache now kid key (choose_key l now document kid cache (cached fresh o)).1
chosen-InCache l now document kid key cache fresh none e f h =
    refresh-InCache l now document kid key cache h
chosen-InCache l now document kid key cache true (some k) e f h = record {
  found = find_key-Among kid key cache.keys (rw f h);
  fresh = ground (arith, e);
}
chosen-InCache l now document kid key cache false (some k) e f h =
    refresh-InCache l now document kid key cache h

pub key_for-InCache :
    (l : Library) (now : ℕ) (document : Option (List JwksKey)) (kid : Text) (key : PublicKey)
    (cache : KeyCache)
    → (key_for l now document kid cache).0 ≡ some key
    → InCache now kid key (key_for l now document kid cache).1
unfolding key_for
key_for-InCache l now document kid key cache h =
    chosen-InCache l now document kid key cache _ _ refl refl h
