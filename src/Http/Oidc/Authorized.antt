-- ===== src/Http/Oidc/Authorized.antt =====
-- What the checks on the claims ask for (internal/adapters/http/oidc.go).
use jg_backend_challenge_go.Prelude.{
  ℕ, ◌<◌, ◌≡◌, ◌↔◌, ◌⊎◌, inl, inr, ◌+◌, ◌*◌, ◌≤◌, refl, ap, subst, Bool, true, false, not, ◌&&◌,
  ◌||◌, Option, none, some, List, [], ◌∷◌, Text, text_eq, text_eq_iff, is_empty, if◌then◌else◌, ltb,
  arith,
}
use jg_backend_challenge_go.Wagering.Service.{second}
use jg_backend_challenge_go.Http.Identity.{Identity, has_role, role_provider}
use jg_backend_challenge_go.Http.Oidc.{
  Claims, Library, OidcValidator, leeway, is_unexpired, is_active, has_audience, check_issuer,
  check_claims, role_set, identity_of, authorize, matches_path, same_path, aud_contains,
}
use jg_backend_challenge_go.Http.Oidc.Cached.{Among}

-- The clock difference that is accepted: the validator's, or 30 seconds.
abbrev pub Tolerance : OidcValidator → ℕ → Type 0
Tolerance v skew = ((0 < v.leeway) × (skew ≡ v.leeway)) ⊎ ((v.leeway ≡ 0) × (skew ≡ 30 * second))

-- An issuer is named; where the configured one has a path, its own is the same.
abbrev pub Issued : Library → Text → Claims → Type 0
Issued l configured c =
    (iss want : Text) × (c.issuer ≡ some iss)
    × (is_empty iss ≡ false)
    × (l.url_path configured ≡ some want)
    × ((want ≡ []) ⊎ (l.url_path iss ≡ some want))

-- What the claims say, and what of them the identity is.
pub record Authorized (l : Library) (v : OidcValidator) (now : ℕ) (c : Claims) (i : Identity)
    : Type 0 where
  pub skew : ℕ
  pub tolerated : Tolerance v skew
  pub issued : Issued l v.issuer c
  pub unexpired : (exp : ℕ) × (c.expiration_time ≡ some (some exp)) × (now ≤ exp + skew)
  pub active :
      (c.not_before ≡ some none)
      ⊎ ((nbf : ℕ) × (c.not_before ≡ some (some nbf)) × (nbf ≤ now + skew))
  pub intended :
      (v.audience ≡ []) ⊎ ((aud : List Text) × (c.audience ≡ some aud) × Among v.audience aud)
  pub same_provider : i.provider_id ≡ c.provider_id
  pub same_roles : (role : Text) → (has_role i role ≡ true) ↔ Among role c.realm_roles
  pub scoped : has_role i role_provider ≡ true → is_empty i.provider_id ≡ false

tolerated_by :
    (b : Bool) (v : OidcValidator)
    → ltb 0 v.leeway ≡ b
    → Tolerance v (if b then v.leeway else 30 * second)
tolerated_by true v h = inl (ground (arith, h), refl)
tolerated_by false v h = inr (ground (arith, h), refl)

either : (a b : Bool) → (a || b) ≡ true → (a ≡ true) ⊎ (b ≡ true)
either true b h = inl refl
either false b h = inr h

either_of : (a b : Bool) → (a ≡ true) ⊎ (b ≡ true) → (a || b) ≡ true
either_of true b h = refl
either_of false b (inl h) = cc h
either_of false b (inr h) = h

leeway-Tolerance : (v : OidcValidator) → Tolerance v (leeway v)
unfolding leeway
leeway-Tolerance v = tolerated_by (ltb 0 v.leeway) v refl

is_unexpired_sound :
    (now skew : ℕ) (e : Option (Option ℕ))
    → is_unexpired now skew e ≡ true
    → (exp : ℕ) × (e ≡ some (some exp)) × (now ≤ exp + skew)
is_unexpired_sound now skew none h = cc h
is_unexpired_sound now skew (some none) h = cc h
is_unexpired_sound now skew (some (some exp)) h = (exp, refl, ground (arith, h))

is_active_sound :
    (now skew : ℕ) (e : Option (Option ℕ))
    → is_active now skew e ≡ true
    → (e ≡ some none) ⊎ ((nbf : ℕ) × (e ≡ some (some nbf)) × (nbf ≤ now + skew))
is_active_sound now skew none h = cc h
is_active_sound now skew (some none) h = inl refl
is_active_sound now skew (some (some nbf)) h = inr (nbf, refl, ground (arith, h))

aud_contains-Among : (aud : List Text) (want : Text) → aud_contains aud want ≡ true → Among want aud
unfolding aud_contains
aud_contains-Among [] want h = cc h
aud_contains-Among (a ∷ aud) want h = elim (either (text_eq a want) (aud_contains aud want) h) [
  | inl same ↦ inl ((text_eq_iff a want).0 same)
  | inr later ↦ inr (aud_contains-Among aud want later)
]

has_audience_sound :
    (want : Text) (o : Option (List Text))
    → has_audience want o ≡ true
    → (want ≡ []) ⊎ ((aud : List Text) × (o ≡ some aud) × Among want aud)
has_audience_sound [] o h = inl refl
has_audience_sound (x ∷ want) none h = cc h
has_audience_sound (x ∷ want) (some aud) h = inr (aud, refl, aud_contains-Among aud (x ∷ want) h)

same_path-some : (o : Option Text) (want : Text) → same_path o want ≡ true → o ≡ some want
same_path-some none want h = cc h
same_path-some (some got) want h = ap some ((text_eq_iff got want).0 h)

path_matched :
    (l : Library) (o : Option Text) (iss : Text)
    → matches_path l o iss ≡ true
    → (want : Text) × (o ≡ some want) × ((want ≡ []) ⊎ (l.url_path iss ≡ some want))
path_matched l none iss h = cc h
path_matched l (some []) iss h = ([], refl, inl refl)
path_matched l (some (x ∷ want)) iss h =
    (x ∷ want, refl, inr (same_path-some (l.url_path iss) (x ∷ want) h))

check_issuer-Issued :
    (l : Library) (configured : Text) (o : Option Text)
    → check_issuer l configured o ≡ true
    → (iss want : Text) × (o ≡ some iss)
      × (is_empty iss ≡ false)
      × (l.url_path configured ≡ some want)
      × ((want ≡ []) ⊎ (l.url_path iss ≡ some want))
unfolding check_issuer
check_issuer-Issued l configured none h = cc h
check_issuer-Issued l configured (some []) h = cc h
check_issuer-Issued l configured (some (x ∷ iss)) h =
    let path = path_matched l (l.url_path configured) (x ∷ iss) h in
    (x ∷ iss, path.0, refl, refl, path.1, path.2)

role_set-Among : (roles : List Text) (role : Text) → (role_set roles role ≡ true) ↔ Among role roles
unfolding role_set
role_set-Among [] role = (λ h. cc h, λ h. absurd h)
role_set-Among (r ∷ roles) role = (
  λ h. elim (either (text_eq r role) (role_set roles role) h) [
    | inl same ↦ inl ((text_eq_iff r role).0 same)
    | inr later ↦ inr ((role_set-Among roles role).0 later)
  ],
  λ h. either_of (text_eq r role) (role_set roles role) (elim h [
    | inl same ↦ inl ((text_eq_iff r role).1 same)
    | inr later ↦ inr ((role_set-Among roles role).1 later)
  ]),
)

claims_checked :
    (a b c d : Bool) → (a && b && c && d) ≡ true → (a ≡ true) × (b ≡ true) × (c ≡ true) × (d ≡ true)
claims_checked true true true true h = (refl, refl, refl, refl)
claims_checked true true true false h = cc h
claims_checked true true false d h = cc h
claims_checked true false c d h = cc h
claims_checked false b c d h = cc h

scope_checked :
    (c : Claims) (i : Identity) (checked provider blank : Bool)
    → (if not checked then none else if provider && blank then none else some (identity_of c))
      ≡ some i
    → (checked ≡ true) × (identity_of c ≡ i) × (provider ≡ true → blank ≡ false)
scope_checked c i false provider blank h = cc h
scope_checked c i true true true h = cc h
scope_checked c i true true false h = (refl, cc h, λ _. refl)
scope_checked c i true false blank h = (refl, cc h, λ e. cc e)

pub authorize-Authorized :
    (l : Library) (v : OidcValidator) (now : ℕ) (c : Claims) (i : Identity)
    → authorize l v now (some c) ≡ some i
    → Authorized l v now c i
unfolding authorize check_claims
authorize-Authorized l v now c i h =
    let (checked, same, scoped) =
      scope_checked c i (check_claims l v now c) (role_set c.realm_roles role_provider)
        (is_empty c.provider_id) h in
    let (issued, unexpired, active, intended) = claims_checked _ _ _ _ checked in
    subst (Authorized l v now c) same (record {
      skew = leeway v;
      tolerated = leeway-Tolerance v;
      issued = check_issuer-Issued l v.issuer c.issuer issued;
      unexpired = is_unexpired_sound now (leeway v) c.expiration_time unexpired;
      active = is_active_sound now (leeway v) c.not_before active;
      intended = has_audience_sound v.audience c.audience intended;
      same_provider = refl;
      same_roles = λ role. role_set-Among c.realm_roles role;
      scoped = scoped;
    })
