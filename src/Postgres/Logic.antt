-- ===== src/Postgres/Logic.antt =====
-- A logic for the statements of a transaction (internal/adapters/postgres/db.go): what holds of the
-- tables at the end, unless a failed statement has spoilt the transaction.
pub mod Unconstrained
use jg_backend_challenge_go.Prelude.{
  ◌≡◌, refl, ap, Bool, true, false, List, [], ◌∷◌, Result, ok, err,
}
use jg_backend_challenge_go.Ports.{Failure, Fault}
use jg_backend_challenge_go.Postgres.Db.{
  Tables, World, Status, idle, active, broken, M, pure, fail, ◌>>=◌, spoil, spoilt, call, answer,
  query, execute, written, conclude, finish, begun, transact, ignore,
}

-- The transaction is spoilt, or the tables satisfy `P`.
pub data Holds (P : Tables → Type 0) (w : World) : Type 0 where
  spoilt_tx : w.status ≡ broken → Holds P w
  sound_tx : w.status ≡ active → P w.tables → Holds P w

-- How a part of a transaction ends: `Q` with its value, or `E` with an error.
abbrev pub Ends :
    {A : Type 0} → (A → Tables → Type 0) → (Tables → Type 0) → Result Failure A × World → Type 0
Ends Q E (ok a, w) = Holds (Q a) w
Ends Q E (err e, w) = Holds E w

pub record Triple {A : Type 0} (P : Tables → Type 0) (m : M A) (Q : A → Tables → Type 0)
    (E : Tables → Type 0) : Type 0 where
  pub run : (w : World) → Holds P w → Ends Q E (m w)

weaken-Holds :
    {P Q : Tables → Type 0} {w : World} → ((t : Tables) → P t → Q t) → Holds P w → Holds Q w
weaken-Holds h (spoilt_tx b) = spoilt_tx b
weaken-Holds h (sound_tx a p) = sound_tx a (h _ p)

bind_ends :
    {A B : Type 0} (Q : A → Tables → Type 0) (R : B → Tables → Type 0) (E : Tables → Type 0)
    (k : A → M B) (r : Result Failure A × World)
    → Ends Q E r
    → ((a : A) → Triple (Q a) (k a) R E)
    → Ends R E (elim r.0 [ ok a ↦ k a r.1 | err e ↦ (err e, r.1) ])
bind_ends Q R E k (ok a, w) h next = (next a).run w h
bind_ends Q R E k (err e, w) h next = h

pub bind_rule :
    {A B : Type 0} {P : Tables → Type 0} {Q : A → Tables → Type 0} {R : B → Tables → Type 0}
    {E : Tables → Type 0} (m : M A) (k : A → M B)
    → Triple P m Q E
    → ((a : A) → Triple (Q a) (k a) R E)
    → Triple P (m >>= k) R E
bind_rule {Q} {R} {E} m k first next = record {
  run = λ w h. bind_ends Q R E k (m w) (first.run w h) next;
}

module _ {A : Type 0} {P : Tables → Type 0} {Q : A → Tables → Type 0} {E : Tables → Type 0} where
  pub pure_rule : (a : A) → ((t : Tables) → P t → Q a t) → Triple P (pure a) Q E
  pure_rule a h = record { run = λ w p. weaken-Holds h p }

  pub fail_rule : (e : Failure) → ((t : Tables) → P t → E t) → Triple P (fail {A = A} e) Q E
  fail_rule e h = record { run = λ w p. weaken-Holds h p }

  pub pre_rule :
      {P' : Tables → Type 0} (m : M A)
      → ((t : Tables) → P t → P' t)
      → Triple P' m Q E
      → Triple P m Q E
  pre_rule m h t = record { run = λ w p. t.run w (weaken-Holds h p) }

post_ends :
    {A : Type 0} (Q Q' : A → Tables → Type 0) (E : Tables → Type 0) (r : Result Failure A × World)
    → ((a : A) (t : Tables) → Q a t → Q' a t)
    → Ends Q E r
    → Ends Q' E r
post_ends Q Q' E (ok a, w) h p = weaken-Holds (h a) p
post_ends Q Q' E (err e, w) h p = p

pub post_rule :
    {A : Type 0} {P : Tables → Type 0} {Q Q' : A → Tables → Type 0} {E : Tables → Type 0} (m : M A)
    → ((a : A) (t : Tables) → Q a t → Q' a t)
    → Triple P m Q E
    → Triple P m Q' E
post_rule {Q} {Q'} {E} m h t = record { run = λ w p. post_ends Q Q' E (m w) h (t.run w p) }

error_ends :
    {A : Type 0} (Q : A → Tables → Type 0) (E E' : Tables → Type 0) (r : Result Failure A × World)
    → ((t : Tables) → E t → E' t)
    → Ends Q E r
    → Ends Q E' r
error_ends Q E E' (ok a, w) h p = p
error_ends Q E E' (err e, w) h p = weaken-Holds h p

pub error_rule :
    {A : Type 0} {P : Tables → Type 0} {Q : A → Tables → Type 0} {E E' : Tables → Type 0} (m : M A)
    → ((t : Tables) → E t → E' t)
    → Triple P m Q E
    → Triple P m Q E'
error_rule {Q} {E} {E'} m h t = record { run = λ w p. error_ends Q E E' (m w) h (t.run w p) }

call_ends :
    (P E : Tables → Type 0) (w : World) (s : Status) (fs : List Bool)
    → w.status ≡ s
    → Holds P w
    → Ends (λ _. P) E (answer s fs w)
unfolding answer spoil
call_ends P E w idle fs e (spoilt_tx b) = cc
call_ends P E w idle fs e (sound_tx a p) = cc
call_ends P E w active fs e (spoilt_tx b) = cc
call_ends P E w active [] e (sound_tx a p) = sound_tx a p
call_ends P E w active (false ∷ fs) e (sound_tx a p) = sound_tx a p
call_ends P E w active (true ∷ fs) e (sound_tx a p) = spoilt_tx (ap spoilt a)
call_ends P E w broken fs e h = spoilt_tx e

answered :
    {A : Type 0} {P : Tables → Type 0} (f : Tables → A) (w : World)
    → Holds P w
    → Holds (λ t. P t × (f w.tables ≡ f t)) w
answered f w (spoilt_tx b) = spoilt_tx b
answered f w (sound_tx a p) = sound_tx a (p, refl)

write_ends :
    {P : Tables → Type 0} (Q E : Tables → Type 0) (f : Tables → Result Fault Tables)
    → ((t t' : Tables) → P t → f t ≡ ok t' → Q t')
    → (r : Result Fault Tables) (w : World) → f w.tables ≡ r
    → Holds P w
    → Ends (λ _. Q) E (written r w)
unfolding spoil
write_ends Q E f h (ok t) w e (spoilt_tx b) = spoilt_tx b
write_ends Q E f h (ok t) w e (sound_tx a p) = sound_tx a (h w.tables t p e)
write_ends Q E f h (err x) w e (spoilt_tx b) = spoilt_tx (ap spoilt b)
write_ends Q E f h (err x) w e (sound_tx a p) = spoilt_tx (ap spoilt a)

-- A statement that reads has the answer that the tables give.
pub query_rule :
    {A : Type 0} {P E : Tables → Type 0} (f : Tables → A)
    → Triple P (query f) (λ a t. P t × (a ≡ f t)) E
unfolding query call
query_rule {P} {E} f = record {
  run = λ w h.
      bind_ends (λ _. P) (λ a t. P t × (a ≡ f t)) E (λ _ v. (ok (f v.tables), v)) (call w)
        (call_ends P E w w.status w.faults refl h) (λ _. record { run = λ v k. answered f v k });
}

-- A statement that writes leaves the tables that `f` gives, or nothing is left of the transaction.
pub execute_rule :
    {P Q E : Tables → Type 0} (f : Tables → Result Fault Tables)
    → ((t t' : Tables) → P t → f t ≡ ok t' → Q t')
    → Triple P (execute f) (λ _. Q) E
unfolding execute call
execute_rule {P} {Q} {E} f h = record {
  run = λ w k.
      bind_ends (λ _. P) (λ _. Q) E (λ _ v. written (f v.tables) v) (call w)
        (call_ends P E w w.status w.faults refl k)
        (λ _. record { run = λ v l. write_ends Q E f h (f v.tables) v refl l });
}

-- Between two transactions.
pub record AtRest (P : Tables → Type 0) (w : World) : Type 0 where
  pub at_idle : w.status ≡ idle
  pub holds : P w.tables

conclude-AtRest :
    {A : Type 0} {P : Tables → Type 0} (before : Tables) (a : A) (w : World) (s : Status)
    (fs : List Bool)
    → w.status ≡ s
    → P before
    → Holds P w
    → AtRest P (conclude before a (answer s fs w)).1
unfolding answer spoil
conclude-AtRest before a w idle fs e p (spoilt_tx b) = cc
conclude-AtRest before a w idle fs e p (sound_tx b q) = cc
conclude-AtRest before a w active fs e p (spoilt_tx b) = cc
conclude-AtRest before a w active [] e p (sound_tx b q) = record { at_idle = refl; holds = q }
conclude-AtRest before a w active (false ∷ fs) e p (sound_tx b q) = record {
  at_idle = refl;
  holds = q;
}
conclude-AtRest before a w active (true ∷ fs) e p (sound_tx b q) = record {
  at_idle = refl;
  holds = p;
}
conclude-AtRest before a w broken fs e p h = record { at_idle = refl; holds = p }

finish-AtRest :
    {A : Type 0} {P : Tables → Type 0} (E : Tables → Type 0) (before : Tables)
    (r : Result Failure A × World)
    → P before
    → Ends (λ _. P) E r
    → AtRest P (finish before r).1
unfolding finish call
finish-AtRest E before (ok a, w) p h = conclude-AtRest before a w w.status w.faults refl p h
finish-AtRest E before (err e, w) p h = record { at_idle = refl; holds = p }

-- A statement of its own leaves nothing spoilt.
pub answer-AtRest :
    {P : Tables → Type 0} (w : World) (s : Status) (fs : List Bool)
    → w.status ≡ s
    → AtRest P w
    → AtRest P (answer s fs w).1
unfolding answer spoil
answer-AtRest w idle [] e h = h
answer-AtRest w idle (false ∷ fs) e h = record { at_idle = h.at_idle; holds = h.holds }
answer-AtRest w idle (true ∷ fs) e h = record { at_idle = ap spoilt h.at_idle; holds = h.holds }
answer-AtRest w active fs e h = cc (h.at_idle)
answer-AtRest w broken fs e h = cc (h.at_idle)

begun-AtRest :
    {A : Type 0} {P : Tables → Type 0} (E : Tables → Type 0) (body : M A)
    (r : Result Failure (Unit {0}) × World)
    → Triple P body (λ _. P) E
    → AtRest P r.1
    → AtRest P
        (elim r.0 as (λ _. Result Failure A × World) [
          | ok _ ↦ begun body r.1
          | err e ↦ (err e, r.1)
        ]).1
begun-AtRest E body (ok u, w) t h =
    finish-AtRest E w.tables (body (record w { status = active })) h.holds
      (t.run (record w { status = active }) (sound_tx refl h.holds))
begun-AtRest E body (err e, w) t h = h

-- A transaction whose body keeps a property keeps it, whether it commits or not.
pub transact_rule :
    {A : Type 0} {P E : Tables → Type 0} (body : M A) (w : World)
    → Triple P body (λ _. P) E
    → AtRest P w
    → AtRest P (transact body w).1
unfolding transact call
transact_rule {E} body w t h =
    begun-AtRest E body (call w) t (answer-AtRest w w.status w.faults refl h)

dropped :
    {A : Type 0} (E : Tables → Type 0) (r : Result Failure A × World)
    → Ends (λ _. E) E r
    → Holds E r.1
dropped E (ok a, w) h = h
dropped E (err e, w) h = h

-- A part whose error is dropped.
pub ignore_rule :
    {A : Type 0} {P E F : Tables → Type 0} (m : M A)
    → Triple P m (λ _. E) E
    → Triple P (ignore m) (λ _. E) F
ignore_rule {E} m t = record { run = λ w h. dropped E (m w) (t.run w h) }
