-- ===== src/Http/Scope.antt =====
-- Who may read a transaction (internal/adapters/http/handler.go, middleware.go, identity.go).
use jg_backend_challenge_go.Prelude.{
  ℕ, ◌≡◌, refl, ap, sym, subst, ◌⊎◌, inl, inr, Bool, true, false, ◌&&◌, ◌||◌, Option, none, some,
  Text, text_eq, text_eq_iff, is_empty, find_first, if◌then◌else◌, Bool-cases, List, [], ◌∷◌,
}
use jg_backend_challenge_go.Prelude.Trimming.{trim_space}
use jg_backend_challenge_go.Ports.{TxRecord}
use jg_backend_challenge_go.Postgres.Db.{World}
use jg_backend_challenge_go.Postgres.TxRepo as TxRepo
use jg_backend_challenge_go.Postgres.TxRepo.{holds, has_provider_external}
use jg_backend_challenge_go.Http.Identity.{Identity, has_role, role_provider, role_internal}
use jg_backend_challenge_go.Http.Bodies.{
  TransactionBody, transaction, transaction_body, Response, abort_error, json,
}
use jg_backend_challenge_go.Http.Middleware.{
  Answer, reply, bearer_token, validated, auth_middleware, correlation_middleware,
}
use jg_backend_challenge_go.Http.Handler.{write_infra_error, live, ready}
use jg_backend_challenge_go.Http.Transactions.{
  is_own, may_read, transaction_found, get_transaction, external_found, get_transaction_by_external,
}
use jg_backend_challenge_go.Http.Engine.{
  Route, health_live, health_ready, post_wallets, get_wallets, get_ledger, get_reconciliation,
  post_transactions, get_transactions, get_provider_transactions, Request, Server, register_routes,
  serve,
}
use jg_backend_challenge_go.Http.Shows.{Shows, Shows-reply, Shows-if, Shows-queried}
use jg_backend_challenge_go.Http.Plain.{
  Plain, Plain-open_wallet, Plain-get_wallet, Plain-page_ledger, Plain-reconcile,
  Plain-submit_transaction, Plain-health, Plain-refused, Plain-write_infra_error,
}

-- The caller may read everything, or is the provider of the transaction.
abbrev pub MayRead : Identity → Option Text → Type 0
MayRead i provider_id =
    (has_role i role_internal ≡ true)
    ⊎ ((has_role i role_provider ≡ true) × (provider_id ≡ some i.provider_id))

-- Whoever is shown a transaction has a token that the validator takes, and may read it.
abbrev pub Guarded : Server → Request → Response → Type 0
Guarded h r resp =
    (b : TransactionBody)
    → resp.body ≡ transaction b
    → (i : Identity) × (h.validator (bearer_token r.authorization) ≡ some i)
      × MayRead i b.provider_id

read_cases : (x y z : Bool) → (x || y && z) ≡ true → (x ≡ true) ⊎ ((y ≡ true) × (z ≡ true))
read_cases true y z h = inl refl
read_cases false true z h = inr (refl, h)
read_cases false false z h = cc h

is_own-same :
    (i : Identity) (provider_id : Option Text)
    → is_own provider_id i ≡ true
    → provider_id ≡ some i.provider_id
is_own-same i none h = cc h
is_own-same i (some p) h = ap some ((text_eq_iff p i.provider_id).0 h)

may_read-MayRead :
    (i : Identity) (provider_id : Option Text)
    → may_read i provider_id ≡ true
    → MayRead i provider_id
unfolding may_read
may_read-MayRead i provider_id h =
    elim (read_cases (has_role i role_internal) (has_role i role_provider) (is_own provider_id i)
      h) [ inl internal ↦ inl internal | inr own ↦ inr (own.0, is_own-same i provider_id own.1) ]

Guarded-Plain : (h : Server) (r : Request) (resp : Response) → Plain resp → Guarded h r resp
Guarded-Plain h r resp p b e = absurd (p.not_shown b e)

Shows-Plain : (h : Server) (r : Request) (a : Answer) → Shows Plain a → Shows (Guarded h r) a
Shows-Plain h r a p = record { run = λ w. Guarded-Plain h r (a w).0 (p.run w) }

-- The transaction that is shown, to a caller that may read it.
Guarded-transaction :
    (h : Server) (r : Request) (i : Identity) (rec : TxRecord)
    → h.validator (bearer_token r.authorization) ≡ some i
    → MayRead i rec.provider_id
    → Guarded h r (json 200 (transaction (transaction_body rec)))
unfolding json transaction_body
Guarded-transaction h r i rec valid may b e = (i, valid, subst (λ x. MayRead i x) (cc e) may)

and_left : (a b : Bool) → (a && b) ≡ true → a ≡ true
and_left true b h = refl
and_left false b h = h

and_right : (a b : Bool) → (a && b) ≡ true → b ≡ true
and_right true b h = h
and_right false b h = cc h

holds-some : (o : Option Text) (p : Text) (b : Bool) → (holds o p && b) ≡ true → o ≡ some p
holds-some none p b h = cc h
holds-some (some u) p true h = ap some ((text_eq_iff u p).0 (and_left _ _ h))
holds-some (some u) p false h = cc (and_right (text_eq u p) false h)

module _ (h : Server) (r : Request) (i : Identity)
    (valid : h.validator (bearer_token r.authorization) ≡ some i) where
  Guarded-refused : (code : ℕ) (e : Text) → Shows (Guarded h r) (reply (abort_error code e))
  Guarded-refused code e = Shows-Plain h r _ (Plain-refused code e)

  found-Guarded : (o : Option TxRecord) → Shows (Guarded h r) (transaction_found i o)
  found-Guarded none = Guarded-refused _ _
  found-Guarded (some rec) =
      Shows-if (may_read i rec.provider_id) _ _
        (λ may.
          Shows-reply _
            (Guarded-transaction h r i rec valid (may_read-MayRead i rec.provider_id may)))
        (λ _. Guarded-refused _ _)

  get_transaction-Guarded : (id : Text) → Shows (Guarded h r) (get_transaction i id)
  unfolding get_transaction TxRepo.get
  get_transaction-Guarded id =
      Shows-queried (λ t. find_first (TxRepo.has_id id) t.txs) (λ _. write_infra_error)
        (transaction_found i) (λ _. Guarded-Plain h r _ Plain-write_infra_error)
        (λ t. found-Guarded (find_first (TxRepo.has_id id) t.txs))

  external-Guarded :
      (provider_id external_id : Text) (rows : List TxRecord)
      → may_read i (some provider_id) ≡ true
      → Shows
          (Guarded h r)
          (external_found (find_first (has_provider_external provider_id external_id) rows))
  unfolding find_first
  external-Guarded provider_id external_id [] may = Guarded-refused _ _
  external-Guarded provider_id external_id (rec ∷ rows) may =
      elim (Bool-cases (has_provider_external provider_id external_id rec)) [
        | inl same ↦ rw same (
            Shows-reply _ (
              Guarded-transaction h r i rec valid (
                subst (MayRead i) (sym (holds-some rec.provider_id provider_id _ same))
                  (may_read-MayRead i (some provider_id) may))))
        | inr other ↦ rw other (external-Guarded provider_id external_id rows may)
      ]

  get_transaction_by_external-Guarded :
      (provider_id external_id : Text)
      → Shows (Guarded h r) (get_transaction_by_external i provider_id external_id)
  unfolding get_transaction_by_external TxRepo.find_by_provider_external
  get_transaction_by_external-Guarded provider_id external_id =
      Shows-if (may_read i (some provider_id)) _ _
        (λ may.
          Shows-queried (λ t. find_first (has_provider_external provider_id external_id) t.txs)
            (λ _. write_infra_error) external_found
            (λ _. Guarded-Plain h r _ Plain-write_infra_error)
            (λ t. external-Guarded provider_id external_id t.txs may))
        (λ _. Guarded-refused _ _)

validated-Guarded :
    (h : Server) (r : Request) (o : Option Identity) (next : Identity → Answer)
    → h.validator (bearer_token r.authorization) ≡ o
    → ((i : Identity)
        → h.validator (bearer_token r.authorization) ≡ some i
        → Shows (Guarded h r) (next i))
    → Shows (Guarded h r) (validated o next)
validated-Guarded h r none next e f = Shows-Plain h r _ (Plain-refused _ _)
validated-Guarded h r (some i) next e f = f i e

auth-Guarded :
    (h : Server) (r : Request) (next : Identity → Answer)
    → ((i : Identity)
        → h.validator (bearer_token r.authorization) ≡ some i
        → Shows (Guarded h r) (next i))
    → Shows (Guarded h r) (auth_middleware h.validator r.authorization next)
unfolding auth_middleware
auth-Guarded h r next f =
    Shows-if (is_empty (bearer_token r.authorization)) _ _
      (λ _. Shows-Plain h r _ (Plain-refused _ _))
      (λ _. validated-Guarded h r (h.validator (bearer_token r.authorization)) next refl f)

Plain-route :
    (h : Server) (r : Request) (next : Identity → Answer)
    → ((i : Identity) → Shows Plain (next i))
    → Shows (Guarded h r) (auth_middleware h.validator r.authorization next)
Plain-route h r next f = auth-Guarded h r next (λ i _. Shows-Plain h r (next i) (f i))

ready-Guarded : (h : Server) (r : Request) (o : Option Bool) → Shows (Guarded h r) (ready o)
unfolding ready
ready-Guarded h r none = Shows-Plain h r _ (Plain-health _ _)
ready-Guarded h r (some true) = Shows-Plain h r _ (Plain-health _ _)
ready-Guarded h r (some false) = Shows-Plain h r _ (Plain-health _ _)

routes-Guarded :
    (h : Server) (r : Request) (correlation_id : Text) (route : Route)
    → Shows (Guarded h r) (register_routes h r correlation_id route)
unfolding register_routes live
routes-Guarded h r c health_live = Shows-Plain h r _ (Plain-health _ _)
routes-Guarded h r c health_ready = ready-Guarded h r h.ready_check
routes-Guarded h r c (post_wallets body) =
    Plain-route h r _ (λ i. Plain-open_wallet h.service i body)
routes-Guarded h r c (get_wallets id) = Plain-route h r _ (λ i. Plain-get_wallet i id)
routes-Guarded h r c (get_ledger id limit cursor) =
    Plain-route h r _ (λ i. Plain-page_ledger h.base64 i id limit cursor)
routes-Guarded h r c (get_reconciliation id) = Plain-route h r _ (λ i. Plain-reconcile i id)
routes-Guarded h r c (post_transactions body) =
    Plain-route h r _ (λ i. Plain-submit_transaction h.service i r.idempotency_key c body)
routes-Guarded h r c (get_transactions id) =
    auth-Guarded h r _ (λ i valid. get_transaction-Guarded h r i valid id)
routes-Guarded h r c (get_provider_transactions provider_id external_id) =
    auth-Guarded h r _
      (λ i valid. get_transaction_by_external-Guarded h r i valid provider_id external_id)

choose :
    (P : Response → Type 0) (c : Bool) (x y : Response × World)
    → P x.0
    → P y.0
    → P (if c then x else y).0
choose P true x y p q = p
choose P false x y p q = q

serve-Guarded : (h : Server) (r : Request) → Shows (Guarded h r) (serve h r)
unfolding serve correlation_middleware
serve-Guarded h r = record {
  run = λ w.
      choose (Guarded h r) (is_empty (trim_space r.correlation_id)) _ _
        ((routes-Guarded h r _ r.route).run _) ((routes-Guarded h r _ r.route).run _);
}

-- Whatever is asked, a transaction is shown only to a caller whose token the validator takes and who
-- has the role of an internal caller, or that of a provider whose id is the transaction's.
pub serve_shows_own :
    (h : Server) (r : Request) (w : World) (b : TransactionBody)
    → (serve h r w).0.body ≡ transaction b
    → (i : Identity) × (h.validator (bearer_token r.authorization) ≡ some i)
      × MayRead i b.provider_id
serve_shows_own h r w b e = (serve-Guarded h r).run w b e
