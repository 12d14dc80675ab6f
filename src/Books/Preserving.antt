-- ===== src/Books/Preserving.antt =====
-- What keeps the books in a transaction that has not locked a wallet yet, and through its end.
use jg_backend_challenge_go.Prelude.{
  ◌≡◌, sym, subst, Bool, true, false, List, [], ◌∷◌, Text, text_eq_iff, Option, none, some, arith,
  if◌then◌else◌, find_first,
}
use jg_backend_challenge_go.Ports.{WalletRecord}
use jg_backend_challenge_go.Postgres.Db.{World, M, ◌>>=◌, transact, ignore, query}
use jg_backend_challenge_go.Postgres.Logic.{
  Triple, AtRest, bind_rule, pre_rule, query_rule, transact_rule, ignore_rule,
}
use jg_backend_challenge_go.Postgres.WalletRepo.{find_wallet, lock_for_update}
use jg_backend_challenge_go.Books.{Books}
use jg_backend_challenge_go.Books.Frames.{Frame, Quiet}
use jg_backend_challenge_go.Books.Keeping.{Keeps}

pub record Preserves {A : Type 0} (m : M A) : Type 0 where
  pub run : Triple (Frame Books) m (λ _. Frame Books) (Frame Books)

pub Preserves-Quiet : {A : Type 0} (m : M A) → Quiet m → Preserves m
Preserves-Quiet m q = record { run = q.run Books }

pub Preserves-bind :
    {A B : Type 0} (m : M A) (k : A → M B)
    → Preserves m
    → ((a : A) → Preserves (k a))
    → Preserves (m >>= k)
Preserves-bind m k f g = record { run = bind_rule m k f.run (λ a. (g a).run) }

pub Preserves-if :
    {A : Type 0} (b : Bool) (m n : M A) → Preserves m → Preserves n → Preserves (if b then m else n)
Preserves-if true m n f g = f
Preserves-if false m n f g = g

pub Preserves-ignore : {A : Type 0} (m : M A) → Preserves m → Preserves (ignore m)
Preserves-ignore m f = record { run = ignore_rule m f.run }

found_id :
    (id : Text) (ws : List WalletRecord) (r : WalletRecord) → find_wallet id ws ≡ some r → id ≡ r.id
unfolding find_wallet find_first
found_id id [] r h = cc
found_id id (w ∷ ws) r h = ground (arith, text_eq_iff w.id id, found_id id ws r)

found_self :
    (id : Text) (ws : List WalletRecord) (r : WalletRecord)
    → find_wallet id ws ≡ some r
    → find_wallet r.id ws ≡ some r
found_self id ws r h = subst (λ k. find_wallet k ws ≡ some r) (found_id id ws r h) h

locked_next :
    {A : Type 0} (id : Text) (k : Option WalletRecord → M A) (o : Option WalletRecord)
    → Preserves (k none)
    → ((r : WalletRecord) → Keeps r (k (some r)))
    → Triple
        (λ t. Frame Books t × (o ≡ find_wallet id t.wallets))
        (k o)
        (λ _. Frame Books)
        (Frame Books)
locked_next id k none missing found = pre_rule (k none) (λ t h. h.0) missing.run
locked_next id k (some r) missing found =
    pre_rule (k (some r)) (λ t h. (h.0, found_self id t.wallets r (sym h.1))) (found r).run

-- The row that is locked is the wallet's.
pub Preserves-lock :
    {A : Type 0} (id : Text) (k : Option WalletRecord → M A)
    → Preserves (k none)
    → ((r : WalletRecord) → Keeps r (k (some r)))
    → Preserves (lock_for_update id >>= k)
unfolding lock_for_update
Preserves-lock id k missing found = record {
  run =
      bind_rule (query (λ t. find_wallet id t.wallets)) k
        (query_rule (λ t. find_wallet id t.wallets)) (λ o. locked_next id k o missing found);
}

pub transact-AtRest :
    {A : Type 0} (body : M A) (w : World)
    → Preserves body
    → AtRest (Frame Books) w
    → AtRest (Frame Books) (transact body w).1
transact-AtRest body w f h = transact_rule body w f.run h

pub ruleset preserves_rules = (Preserves-Quiet, Preserves-if, Preserves-ignore)
