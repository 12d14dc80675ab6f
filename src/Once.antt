-- ===== src/Once.antt =====
-- Repeating a `Submit` (internal/wagering/accept.go): what the repetition
-- reads of the tables, and the parts that leave that as it is.
pub mod Statements
pub mod Resuming
pub mod Adding
pub mod Accepting
pub mod Lookups
pub mod Carried
pub mod Repeated
use jg_backend_challenge_go.Prelude.{
  ℕ, ◌≡◌, refl, sym, subst, ap, ◌∙◌, Bool, true, false, Option, List, [], ◌∷◌, map, Text,
  update_where, Result, ok, err, if◌then◌else◌,
}
use jg_backend_challenge_go.Domain.Errors.{Code}
use jg_backend_challenge_go.Ports.{WalletRecord, TxRecord, Failure, Fault, coded}
use jg_backend_challenge_go.Postgres.Db.{
  Tables, InboxRow, World, M, pure, fail, fail_when, ◌>>=◌, query, execute, ignore,
}
use jg_backend_challenge_go.Postgres.Logic.{
  Holds, spoilt_tx, sound_tx, Triple, bind_rule, pure_rule, fail_rule, post_rule, query_rule,
  execute_rule, ignore_rule,
}
use jg_backend_challenge_go.Wagering.Service.{Service, fresh_id, now, attempt, attempt_or_fail}

pub record Owner : Type 0 where
  pub id : Text
  pub player_id : Text
  pub currency : Text

pub record Key : Type 0 where
  pub id : Text
  pub provider_id : Option Text
  pub external_id : Option Text
  pub idempotency_key : Option Text
  pub payload_hash : Option Text

abbrev pub owner_of : WalletRecord → Owner
owner_of w = record { id = w.id; player_id = w.player_id; currency = w.currency }

abbrev pub key_of : TxRecord → Key
key_of r = record {
  id = r.id;
  provider_id = r.provider_id;
  external_id = r.external_id;
  idempotency_key = r.idempotency_key;
  payload_hash = r.payload_hash;
}

pub record View : Type 0 where
  pub owners : List Owner
  pub keys : List Key

abbrev pub view : Tables → View
view t = record { owners = map owner_of t.wallets; keys = map key_of t.txs }

abbrev pub Seen : (View → Type 0) → Tables → Type 0
Seen Q t = Q (view t)

-- Whatever held of the view still holds, after an error too.
pub record Steady {A : Type 0} (m : M A) : Type 1 where
  pub run : (Q : View → Type 0) → Triple (Seen Q) m (λ _. Seen Q) (Seen Q)

pub Steady-bind :
    {A B : Type 0} (m : M A) (k : A → M B) → Steady m → ((a : A) → Steady (k a)) → Steady (m >>= k)
Steady-bind m k f g = record { run = λ Q. bind_rule m k (f.run Q) (λ a. (g a).run Q) }

pub Steady-pure : {A : Type 0} (a : A) → Steady (pure a)
Steady-pure a = record { run = λ Q. pure_rule a (λ t h. h) }

pub Steady-fail : {A : Type 0} (e : Failure) → Steady (fail {A = A} e)
Steady-fail e = record { run = λ Q. fail_rule e (λ t h. h) }

pub Steady-query : {A : Type 0} (f : Tables → A) → Steady (query f)
Steady-query f = record {
  run = λ Q. post_rule (query f) (λ a t h. h.0) (query_rule {P = Seen Q} {E = Seen Q} f);
}

pub Steady-execute :
    (f : Tables → Result Fault Tables)
    → ((t t' : Tables) → f t ≡ ok t' → view t' ≡ view t)
    → Steady (execute f)
Steady-execute f h = record { run = λ Q. execute_rule f (λ t t' q e. subst Q (sym (h t t' e)) q) }

pub Steady-if :
    {A : Type 0} (b : Bool) (m n : M A) → Steady m → Steady n → Steady (if b then m else n)
Steady-if true m n f g = f
Steady-if false m n f g = g

pub Steady-attempt :
    {A B : Type 0} (r : Result Code A) (h : Code → M B) (k : A → M B)
    → ((e : Code) → Steady (h e))
    → ((a : A) → Steady (k a))
    → Steady (attempt r h k)
Steady-attempt (ok a) h k f g = g a
Steady-attempt (err e) h k f g = f e

pub Steady-attempt_or_fail : {A : Type 0} (r : Result Code A) → Steady (attempt_or_fail r)
Steady-attempt_or_fail (ok a) = Steady-pure a
Steady-attempt_or_fail (err e) = Steady-fail (coded e)

pub Steady-fail_when : (b : Bool) (e : Failure) → Steady (fail_when b e)
Steady-fail_when true e = Steady-fail e
Steady-fail_when false e = Steady-pure tt

pub Steady-ignore : {A : Type 0} (m : M A) → Steady m → Steady (ignore m)
Steady-ignore m f = record { run = λ Q. ignore_rule m (f.run Q) }

tick_ends :
    {P : Tables → Type 0} (w : World) (ticks : ℕ) → Holds P w → Holds P (record w { ticks = ticks })
tick_ends w n (spoilt_tx b) = spoilt_tx b
tick_ends w n (sound_tx a p) = sound_tx a p

pub Steady-fresh_id : (s : Service) → Steady (fresh_id s)
unfolding fresh_id
Steady-fresh_id s = record { run = λ Q. record { run = λ w h. tick_ends w _ h } }

pub Steady-now : (s : Service) → Steady (now s)
unfolding now
Steady-now s = record { run = λ Q. record { run = λ w h. tick_ends w _ h } }

pub ruleset steady_rules = (
  Steady-bind, Steady-pure, Steady-fail, Steady-if, Steady-attempt, Steady-attempt_or_fail,
  Steady-fail_when, Steady-fresh_id, Steady-now, Steady-ignore,
)

updated :
    {A B : Type 0} (p : A → B) (f : A → A) (x : A) (b : Bool)
    → p (f x) ≡ p x
    → p (if b then f x else x) ≡ p x
updated p f x true h = h
updated p f x false h = refl

-- An update that leaves the projection of a row alone.
pub map-update_where :
    {A B : Type 0} (p : A → B) (c : A → Bool) (f : A → A) (xs : List A)
    → ((x : A) → p (f x) ≡ p x)
    → map p (update_where c f xs) ≡ map p xs
unfolding update_where
map-update_where p c f [] h = refl
map-update_where p c f (x ∷ xs) h =
    ap (λ y. y ∷ map p (update_where c f xs)) (updated p f x (c x) (h x))
    ∙ ap (λ ys. p x ∷ ys) (map-update_where p c f xs h)
