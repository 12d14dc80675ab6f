-- ===== src/Books/Serving.antt =====
-- Requests and the books (internal/adapters/http).
use jg_backend_challenge_go.Prelude.{
  ℤ, Bool, true, false, Option, none, some, List, [], ◌∷◌, Text, is_empty, if◌then◌else◌, Result,
  ok, err,
}
use jg_backend_challenge_go.Prelude.Trimming.{trim_space}
use jg_backend_challenge_go.Domain.LedgerEntry.{LedgerDirection, debit, credit, other}
use jg_backend_challenge_go.Domain.Money.{Money}
use jg_backend_challenge_go.Ports.{TxRecord, WalletRecord, LedgerRecord, Failure}
use jg_backend_challenge_go.Postgres.Db.{World, M, lift}
use jg_backend_challenge_go.Postgres.WalletRepo as WalletRepo
use jg_backend_challenge_go.Postgres.LedgerRepo as LedgerRepo
use jg_backend_challenge_go.Postgres.TxRepo as TxRepo
use jg_backend_challenge_go.Wagering.Service.{Service}
use jg_backend_challenge_go.Wagering.Reconcile as Reconcile
use jg_backend_challenge_go.Wagering.Reconcile.{
  apply_entry, recalculate, reconcile_entries, reconcile_found,
}
use jg_backend_challenge_go.Wagering.Pages as Pages
use jg_backend_challenge_go.Wagering.Pages.{Base64, decode_cursor}
use jg_backend_challenge_go.Http.Identity.{Identity, Validator}
use jg_backend_challenge_go.Http.Bodies.{Response}
use jg_backend_challenge_go.Http.Middleware.{
  Answer, reply, validated, auth_middleware, correlation_middleware, require_role,
}
use jg_backend_challenge_go.Http.Handler.{
  answering, live, ready, OpenWalletRequest, open_wallet, get_wallet, wallet_found, with_limit,
  page_ledger, reconcile,
}
use jg_backend_challenge_go.Http.Transactions.{
  SubmitRequest, submit_transaction, transaction_found, get_transaction, external_found,
  get_transaction_by_external,
}
use jg_backend_challenge_go.Http.Engine.{
  Route, health_live, health_ready, post_wallets, get_wallets, get_ledger, get_reconciliation,
  post_transactions, get_transactions, get_provider_transactions, Request, Server, register_routes,
  serve,
}
use jg_backend_challenge_go.Postgres.Logic.{AtRest}
use jg_backend_challenge_go.Wagering.Settled.{Settled-query, settled_rules}
use jg_backend_challenge_go.Books.{Books}
use jg_backend_challenge_go.Books.Frames.{
  Frame, Quiet, quiet_rules, Quiet-pure, Quiet-fail, Quiet-bind, Quiet-query, Quiet-attempt_or_fail,
}
use jg_backend_challenge_go.Books.Preserving.{Preserves-Quiet}
use jg_backend_challenge_go.Books.Resting.{Rests, Rests-transact}
use jg_backend_challenge_go.Books.Submitting.{Rests-submit}
use jg_backend_challenge_go.Books.Opening.Steps.{Rests-open_wallet}

-- A handler that keeps the books.
record Serves (a : Answer) : Type 0 where
  run : (w : World) → AtRest (Frame Books) w → AtRest (Frame Books) (a w).1

Serves-reply : (r : Response) → Serves (reply r)
Serves-reply r = record { run = λ w h. h }

Serves-if : (b : Bool) (x y : Answer) → Serves x → Serves y → Serves (if b then x else y)
Serves-if true x y f g = f
Serves-if false x y f g = g

serves_next :
    {A : Type 0} (refuse : Failure → Response) (next : A → Answer) (r : Result Failure A × World)
    → AtRest (Frame Books) r.1
    → ((a : A) → Serves (next a))
    → AtRest
        (Frame Books)
        (elim r.0 as (λ _. Response × World) [ ok a ↦ next a r.1 | err e ↦ (refuse e, r.1) ]).1
serves_next refuse next (ok a, w) h f = (f a).run w h
serves_next refuse next (err e, w) h f = h

Serves-answering :
    {A : Type 0} (m : M A) (refuse : Failure → Response) (next : A → Answer)
    → Rests m
    → ((a : A) → Serves (next a))
    → Serves (answering m refuse next)
Serves-answering m refuse next f g = record {
  run = λ w h. serves_next refuse next (m w) (f.run w h) g;
}

ruleset serves_rules = (Serves-reply, Serves-if, Serves-answering)

Rests-get_wallet : (id : Text) → Rests (WalletRepo.get id)
unfolding WalletRepo.get
Rests-get_wallet id = Settled-query _

Rests-get_tx : (id : Text) → Rests (TxRepo.get id)
unfolding TxRepo.get
Rests-get_tx id = Settled-query _

Rests-find_external : (p e : Text) → Rests (TxRepo.find_by_provider_external p e)
unfolding TxRepo.find_by_provider_external
Rests-find_external p e = Settled-query _

Rests-lift : {A : Type 0} (r : Result Failure A) → Rests (lift r)
Rests-lift r = record { run = λ w h. h }

Rests-page_ledger :
    (b : Base64) (id cursor : Text) (limit : ℤ) → Rests (Pages.page_ledger b id cursor limit)
unfolding Pages.page_ledger LedgerRepo.page
Rests-page_ledger b id cursor limit = search (settled_rules, Rests-lift, Settled-query)

Quiet-apply_entry : (d : LedgerDirection) (a m : Money) → Quiet (apply_entry d a m)
unfolding apply_entry
Quiet-apply_entry credit a m = Quiet-attempt_or_fail _
Quiet-apply_entry debit a m = Quiet-attempt_or_fail _
Quiet-apply_entry (other d) a m = Quiet-fail _

Quiet-recalculate : (m : Money) (es : List LedgerRecord) → Quiet (recalculate m es)
unfolding recalculate
Quiet-recalculate m [] = Quiet-pure m
Quiet-recalculate m (e ∷ es) =
    Quiet-bind _ _ (Quiet-attempt_or_fail _)
      (λ x. Quiet-bind _ _ (Quiet-apply_entry e.direction m x) (λ y. Quiet-recalculate y es))

Quiet-reconcile_found : (id : Text) (o : Option WalletRecord) → Quiet (reconcile_found id o)
unfolding LedgerRepo.all_ordered reconcile_entries
Quiet-reconcile_found id none = Quiet-fail _
Quiet-reconcile_found id (some rec) = search (quiet_rules, Quiet-query, Quiet-recalculate) depth 16

Rests-reconcile : (id : Text) → Rests (Reconcile.reconcile id)
unfolding Reconcile.reconcile WalletRepo.get
Rests-reconcile id =
    Rests-transact _ (Preserves-Quiet _ (Quiet-bind _ _ (Quiet-query _) (Quiet-reconcile_found id)))

Serves-open_wallet :
    (s : Service) (i : Identity) (body : Option OpenWalletRequest) → Serves (open_wallet s i body)
unfolding open_wallet require_role
Serves-open_wallet s i none = search (serves_rules)
Serves-open_wallet s i (some req) = search (serves_rules, Rests-open_wallet)

Serves-submit_transaction :
    (s : Service) (i : Identity) (key correlation : Text) (body : Option SubmitRequest)
    → Serves (submit_transaction s i key correlation body)
unfolding submit_transaction require_role
Serves-submit_transaction s i key correlation none = search (serves_rules)
Serves-submit_transaction s i key correlation (some req) = search (serves_rules, Rests-submit)

Serves-wallet_found :
    (found : Option WalletRecord) (next : WalletRecord → Answer)
    → ((rec : WalletRecord) → Serves (next rec))
    → Serves (wallet_found found next)
Serves-wallet_found none next f = Serves-reply _
Serves-wallet_found (some rec) next f = f rec

Serves-get_wallet : (i : Identity) (id : Text) → Serves (get_wallet i id)
unfolding get_wallet require_role
Serves-get_wallet i id = search (serves_rules, Rests-get_wallet, Serves-wallet_found)

Serves-with_limit :
    (limit : Option ℤ) (next : ℤ → Answer)
    → ((n : ℤ) → Serves (next n))
    → Serves (with_limit limit next)
Serves-with_limit none next f = Serves-reply _
Serves-with_limit (some n) next f = f n

Serves-page_ledger :
    (b : Base64) (i : Identity) (id limit cursor : Text) → Serves (page_ledger b i id limit cursor)
unfolding page_ledger require_role
Serves-page_ledger b i id limit cursor =
    search
      (serves_rules, Rests-get_wallet, Rests-page_ledger, Serves-wallet_found, Serves-with_limit)
      depth 12

Serves-reconcile : (i : Identity) (id : Text) → Serves (reconcile i id)
unfolding reconcile require_role
Serves-reconcile i id = search (serves_rules, Rests-reconcile)

Serves-transaction_found : (i : Identity) (o : Option TxRecord) → Serves (transaction_found i o)
Serves-transaction_found i none = Serves-reply _
Serves-transaction_found i (some rec) = search (serves_rules)

Serves-get_transaction : (i : Identity) (id : Text) → Serves (get_transaction i id)
unfolding get_transaction
Serves-get_transaction i id = search (serves_rules, Rests-get_tx, Serves-transaction_found)

Serves-external_found : (o : Option TxRecord) → Serves (external_found o)
Serves-external_found none = Serves-reply _
Serves-external_found (some rec) = Serves-reply _

Serves-by_external : (i : Identity) (p e : Text) → Serves (get_transaction_by_external i p e)
unfolding get_transaction_by_external
Serves-by_external i p e = search (serves_rules, Rests-find_external, Serves-external_found)

Serves-validated :
    (o : Option Identity) (next : Identity → Answer)
    → ((i : Identity) → Serves (next i))
    → Serves (validated o next)
Serves-validated none next f = Serves-reply _
Serves-validated (some i) next f = f i

Serves-auth :
    (v : Validator) (header : Text) (next : Identity → Answer)
    → ((i : Identity) → Serves (next i))
    → Serves (auth_middleware v header next)
unfolding auth_middleware
Serves-auth v header next f = search (serves_rules, Serves-validated, f)

Serves-ready : (o : Option Bool) → Serves (ready o)
unfolding ready
Serves-ready none = Serves-reply _
Serves-ready (some true) = Serves-reply _
Serves-ready (some false) = Serves-reply _

Serves-routes :
    (h : Server) (r : Request) (c : Text) (route : Route) → Serves (register_routes h r c route)
unfolding register_routes live
Serves-routes h r c health_live = Serves-reply _
Serves-routes h r c health_ready = Serves-ready _
Serves-routes h r c (post_wallets body) =
    Serves-auth _ _ _ (λ i. Serves-open_wallet h.service i body)
Serves-routes h r c (get_wallets id) = Serves-auth _ _ _ (λ i. Serves-get_wallet i id)
Serves-routes h r c (get_ledger id limit cursor) =
    Serves-auth _ _ _ (λ i. Serves-page_ledger h.base64 i id limit cursor)
Serves-routes h r c (get_reconciliation id) = Serves-auth _ _ _ (λ i. Serves-reconcile i id)
Serves-routes h r c (post_transactions body) =
    Serves-auth _ _ _ (λ i. Serves-submit_transaction h.service i r.idempotency_key c body)
Serves-routes h r c (get_transactions id) = Serves-auth _ _ _ (λ i. Serves-get_transaction i id)
Serves-routes h r c (get_provider_transactions p e) =
    Serves-auth _ _ _ (λ i. Serves-by_external i p e)

correlated :
    (b : Bool) (x y : Response × World)
    → AtRest (Frame Books) x.1
    → AtRest (Frame Books) y.1
    → AtRest (Frame Books) (if b then x else y).1
correlated true x y f g = f
correlated false x y f g = g

pub serve-AtRest :
    (h : Server) (r : Request) (w : World)
    → AtRest (Frame Books) w
    → AtRest (Frame Books) (serve h r w).1
unfolding serve correlation_middleware
serve-AtRest h r w rest =
    correlated (is_empty (trim_space r.correlation_id)) _ _
      ((Serves-routes h r _ r.route).run _ (record { at_idle = rest.at_idle; holds = rest.holds }))
      ((Serves-routes h r _ r.route).run w rest)
