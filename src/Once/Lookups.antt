-- ===== src/Once/Lookups.antt =====
-- What a repeated submission finds (internal/adapters/postgres/wallet_repo.go and
-- tx_repo.go).
use jg_backend_challenge_go.Prelude.{
  ◌≡◌, refl, Bool, true, false, ◌&&◌, Option, some, List, [], ◌∷◌, map, Text, text_eq, text_eq_refl,
  find_first, if◌then◌else◌, arith,
}
use jg_backend_challenge_go.Ports.{WalletRecord, TxRecord}
use jg_backend_challenge_go.Postgres.Db.{Tables}
use jg_backend_challenge_go.Postgres.WalletRepo.{find_wallet}
use jg_backend_challenge_go.Postgres.TxRepo.{holds, has_provider_key}
use jg_backend_challenge_go.Wagering.Service.{SubmitInput}
use jg_backend_challenge_go.Once.{Owner, Key, View, owner_of, key_of, view}
use jg_backend_challenge_go.Once.Adding.{new_key, with_key}

module _ {A B : Type 0} (p : A → B) (q : B → Bool) where
  find_first-map-some :
      (xs : List A) {x : A}
      → find_first (λ y. q (p y)) xs ≡ some x
      → find_first q (map p xs) ≡ some (p x)
  unfolding find_first
  find_first-map-some [] h = cc
  find_first-map-some (y ∷ xs) {x} h = ground (arith, find_first-map-some xs {x = x})

  first_of :
      (c : Bool) (y : A) {o : Option A} {o' : Option B} {b : B}
      → (if c then some (p y) else o') ≡ some b
      → (o' ≡ some b → (x : A) × (o ≡ some x) × (p x ≡ b))
      → (x : A) × ((if c then some y else o) ≡ some x) × (p x ≡ b)
  first_of true y h k = (y, refl, cc h)
  first_of false y h k = k h

  find_first-map :
      (xs : List A) {b : B}
      → find_first q (map p xs) ≡ some b
      → (x : A) × (find_first (λ y. q (p y)) xs ≡ some x) × (p x ≡ b)
  unfolding find_first
  find_first-map [] h = cc
  find_first-map (y ∷ xs) {b} h = first_of (q (p y)) y h (find_first-map xs)

abbrev has_wallet : SubmitInput → Owner → Bool
has_wallet i o = text_eq o.id i.wallet_id

abbrev has_key : SubmitInput → Key → Bool
has_key i k = holds k.provider_id i.provider_id && holds k.idempotency_key i.idempotency_key

-- The wallet is there, with the player and the currency of the input.
pub record IsOwned (i : SubmitInput) (v : View) : Type 0 where
  pub owner : Owner
  pub found : find_first (has_wallet i) v.owners ≡ some owner
  pub player : text_eq i.player_id owner.player_id ≡ true
  pub currency : text_eq i.currency owner.currency ≡ true

-- The first transaction with the key of the input has this id and this hash.
pub record IsRecorded (i : SubmitInput) (hash id : Text) (v : View) : Type 0 where
  pub owned : IsOwned i v
  pub found : find_first (has_key i) v.keys ≡ some (new_key i hash id)

pub IsOwned-row :
    (i : SubmitInput) (t : Tables) {w : WalletRecord}
    → find_wallet i.wallet_id t.wallets ≡ some w
    → text_eq i.player_id w.player_id ≡ true
    → text_eq i.currency w.currency ≡ true
    → IsOwned i (view t)
unfolding find_wallet
IsOwned-row i t {w} h p c = record {
  owner = owner_of w;
  found = find_first-map-some owner_of (has_wallet i) t.wallets h;
  player = p;
  currency = c;
}

pub owned_recorded :
    (i : SubmitInput) (hash id : Text) (v : View)
    → IsOwned i v
    → IsRecorded i hash id (with_key (new_key i hash id) v)
unfolding find_first
owned_recorded i hash id v h = record {
  owned = record { owner = h.owner; found = h.found; player = h.player; currency = h.currency };
  found = rw (text_eq_refl i.provider_id, text_eq_refl i.idempotency_key) refl;
}

pub recorded_row :
    (i : SubmitInput) (hash id : Text) (t : Tables)
    → IsRecorded i hash id (view t)
    → (r : TxRecord) × (find_first (has_provider_key i.provider_id i.idempotency_key) t.txs
        ≡ some r)
      × (key_of r ≡ new_key i hash id)
recorded_row i hash id t h = find_first-map key_of (has_key i) t.txs h.found

pub owning_row :
    (i : SubmitInput) (t : Tables)
    → (h : IsOwned i (view t))
    → (w : WalletRecord) × (find_wallet i.wallet_id t.wallets ≡ some w) × (owner_of w ≡ h.owner)
unfolding find_wallet
owning_row i t h = find_first-map owner_of (has_wallet i) t.wallets h.found
