-- ===== src/Books/Paging/Walk.antt =====
-- A client that follows the cursors (internal/wagering/reconcile.go: PageLedger).
use jg_backend_challenge_go.Prelude.{
  ℕ, zero, suc, ◌^◌, ◌<◌, ◌≤◌, ◌≡◌, refl, sym, ap, subst, ◌∙◌, inl, inr, Bool, true, false, some,
  List, [], ◌∷◌, ◌++◌, All, ℤ, pos, negsuc, IsInt64, ◌≤ℤ◌, ltb_ℤ, ltb, length, take, drop, Text,
  is_empty, codes, arith, if◌then◌else◌, ok, Bool-cases,
}
use jg_backend_challenge_go.Prelude.Tables.Every.{All-pure, All-select}
use jg_backend_challenge_go.Ports.{LedgerRecord, WalletRecord}
use jg_backend_challenge_go.Postgres.Db.{Tables, M, pure, ◌>>=◌, query, call, answer}
use jg_backend_challenge_go.Postgres.Calm.{calm, bind_ok}
use jg_backend_challenge_go.Postgres.WalletRepo.{find_wallet}
use jg_backend_challenge_go.Postgres.LedgerRepo.{page, all_ordered}
use jg_backend_challenge_go.Wagering.Service.{Service}
use jg_backend_challenge_go.Wagering.Pages.{
  Base64, LedgerPage, encode_cursor, decode_cursor, clamp_limit, last_version, cut_page,
  page_ledger,
}
use jg_backend_challenge_go.Wagering.Pages.Cursor.{
  IsCodec, decode_cursor-encode_cursor, encode_cursor-nonempty,
}
use jg_backend_challenge_go.Wagering.Pages.Ascending.{
  newer, newer_all, newer-newer, newer-last, last_version-All, not_newer, AllNewer, Ascending,
  Ascending-newer,
}
use jg_backend_challenge_go.Books.{WalletState}
use jg_backend_challenge_go.Books.Histories.{Event, history, fresh_world, history-Books}
use jg_backend_challenge_go.Books.Reconciling.{entries_of, Below, Chain-Below}
use jg_backend_challenge_go.Books.Paging.{rows_behind, Chain-rows, Chain-Ascending, Chain-positive}

-- Page after page until there is no next cursor.
unfoldable pub walk : Base64 → ℕ → Text → Text → ℤ → M (List LedgerRecord)
walk b zero id cursor limit = pure []
walk b (suc fuel) id cursor limit = do
  p ← page_ledger b id cursor limit
  if is_empty p.next_cursor
      then pure p.entries
      else (do rest ← walk b fuel id p.next_cursor limit; pure (p.entries ++ rest))

clamp_limit_positive : (limit : ℤ) → (j : ℕ) × (clamp_limit limit ≡ suc j)
unfolding clamp_limit
clamp_limit_positive (pos zero) = (49, refl)
clamp_limit_positive (pos (suc n)) = elim (Bool-cases (ltb 200 (suc n))) [
  | inl above ↦ (199, rw above refl)
  | inr below ↦ (n, rw below refl)
]
clamp_limit_positive (negsuc n) = (49, refl)

take_all : (n : ℕ) (es : List LedgerRecord) → length es ≤ n → take n es ≡ es
take_all zero [] h = refl
take_all zero (e ∷ es) h = absurd (omega (arith, h))
take_all (suc n) [] h = refl
take_all (suc n) (e ∷ es) h = ap (λ xs. e ∷ xs) (take_all n es (omega (arith, h)))

take-take : (n : ℕ) (es : List LedgerRecord) → take n (take (suc n) es) ≡ take n es
take-take zero es = refl
take-take (suc n) [] = refl
take-take (suc n) (e ∷ es) = ap (λ xs. e ∷ xs) (take-take n es)

length-take_more :
    (n : ℕ) (es : List LedgerRecord) → n < length es → length (take (suc n) es) ≡ suc n
length-take_more n [] h = absurd (omega (arith, h))
length-take_more zero (e ∷ es) h = refl
length-take_more (suc n) (e ∷ es) h = ap suc (length-take_more n es (omega (arith, h)))

take-drop : (n : ℕ) (es : List LedgerRecord) → take n es ++ drop n es ≡ es
take-drop zero es = refl
take-drop (suc n) [] = refl
take-drop (suc n) (e ∷ es) = ap (λ xs. e ∷ xs) (take-drop n es)

length-drop_less :
    (n : ℕ) (es : List LedgerRecord) → n < length es → length (drop (suc n) es) < length es
length-drop_less n [] h = absurd (omega (arith, h))
length-drop_less zero (e ∷ es) h = omega arith
length-drop_less (suc n) (e ∷ es) h = omega (arith, length-drop_less n es (omega (arith, h)))

not_shorter : (n : ℕ) (es : List LedgerRecord) → length es ≤ n → ltb n (length es) ≡ false
not_shorter n es h = ground arith

shorter : (n : ℕ) (es : List LedgerRecord) → n < length es → ltb n (length (take (suc n) es)) ≡ true
shorter n es h = ground (arith, length-take_more n es h)

-- The last page, and any other one.
cut_page-last :
    (b : Base64) (n : ℕ) (es : List LedgerRecord)
    → length es ≤ n
    → cut_page b n (take (suc n) es) ≡ record { entries = es; next_cursor = [] }
unfolding cut_page
cut_page-last b n es h = rw (take_all (suc n) es (omega (arith, h)), not_shorter n es h) refl

cut_page-more :
    (b : Base64) (n : ℕ) (es : List LedgerRecord)
    → n < length es
    → cut_page b n (take (suc n) es)
      ≡ record { entries = take n es; next_cursor = encode_cursor b (last_version (take n es)) }
unfolding cut_page
cut_page-more b n es h = rw (take-take n es, shorter n es h) refl

-- A version that a cursor can carry.
abbrev IsVersion : ℤ → Type 0
IsVersion v = (k : ℕ) × (v ≡ pos k) × (k < 2 ^ 63)

-- One page behind the version `v`.
page_ledger-rows :
    (b : Base64) (id cursor : Text) (limit v : ℤ) (t : Tables) (n : ℕ)
    → decode_cursor b cursor ≡ ok v
    → page_ledger b id cursor limit (calm t n) ≡ (
      ok (
          cut_page b
            (clamp_limit limit)
            (take (suc (clamp_limit limit)) (rows_behind v id t.ledger))),
      calm t n,
    )
unfolding page_ledger rows_behind page query call answer
page_ledger-rows b id cursor limit v t n h = rw h refl

-- What follows a page.
abbrev follow : Base64 → ℕ → Text → ℤ → LedgerPage → M (List LedgerRecord)
follow b fuel id limit p =
    if is_empty p.next_cursor
    then pure p.entries
    else (do rest ← walk b fuel id p.next_cursor limit; pure (p.entries ++ rest))

follow_on :
    (b : Base64) (fuel : ℕ) (id : Text) (limit : ℤ) (t : Tables) (n : ℕ)
    (es rest : List LedgerRecord) (cursor : Text)
    → is_empty cursor ≡ false
    → walk b fuel id cursor limit (calm t n) ≡ (ok rest, calm t n)
    → follow b fuel id limit (record { entries = es; next_cursor = cursor }) (calm t n)
      ≡ (ok (es ++ rest), calm t n)
follow_on b fuel id limit t n es rest cursor nonempty h =
    rw nonempty (bind_ok (walk b fuel id cursor limit) (λ rest. pure (es ++ rest)) h)

module _ (b : Base64) (codec : IsCodec b) (id : Text) (limit : ℤ) (t : Tables) (n : ℕ) where
  abbrev all : List LedgerRecord
  all = entries_of id t.ledger

  module _ (rows : (v : ℤ) → rows_behind v id t.ledger ≡ newer v all) (ascending : Ascending all)
      (versions : All (λ e. IsVersion e.wallet_version) all) where
    -- The version behind the cursor of a page that is not the last one.
    next-IsVersion :
        (v : ℤ) (j : ℕ)
        → j < length (newer v all)
        → IsVersion (last_version (take (suc j) (newer v all)))
          × (newer (last_version (take (suc j) (newer v all))) all ≡ drop (suc j) (newer v all))
    next-IsVersion v j h =
        let rest = newer v all in
        let last = last_version (take (suc j) rest) in
        (
          last_version-All IsVersion j rest h (All-select _ _ _ all (λ e _ k. k) versions),
          sym (
                newer-newer v last all (
                  not_newer v last (
                    last_version-All (λ x. ltb_ℤ v x ≡ true) j rest h
                      (All-select (λ _. Unit {0}) _ _ all (λ e k _. k)
                        (All-pure _ all (λ e. tt))))))
              ∙ newer-last j rest (Ascending-newer v all ascending) h,
        )

    page_read :
        (v : ℤ) (cursor : Text) (k : ℕ) (p : LedgerPage)
        → decode_cursor b cursor ≡ ok v
        → clamp_limit limit ≡ k
        → cut_page b k (take (suc k) (newer v all)) ≡ p
        → page_ledger b id cursor limit (calm t n) ≡ (ok p, calm t n)
    page_read v cursor k p decoded at cut =
        page_ledger-rows b id cursor limit v t n decoded
        ∙ ap (λ p. (ok p, calm t n))
            (rw at (ap (λ rs. cut_page b k (take (suc k) rs)) (rows v) ∙ cut))

    walk-more :
        (fuel : ℕ) (v : ℤ) (cursor : Text) (j : ℕ)
        → ((u : ℤ) (c : Text)
            → decode_cursor b c ≡ ok u
            → length (newer u all) < fuel
            → walk b fuel id c limit (calm t n) ≡ (ok (newer u all), calm t n))
        → decode_cursor b cursor ≡ ok v
        → clamp_limit limit ≡ suc j
        → suc j < length (newer v all)
        → length (newer v all) < suc fuel
        → walk b (suc fuel) id cursor limit (calm t n) ≡ (ok (newer v all), calm t n)
    unfolding walk
    walk-more fuel v cursor j ih decoded at more enough =
        let rest = newer v all in
        let last = last_version (take (suc j) rest) in
        let next = next-IsVersion v j (omega (arith, more)) in
        let cursor' = encode_cursor b last in
        bind_ok (page_ledger b id cursor limit) (follow b fuel id limit)
          (page_read v cursor (suc j) _ decoded at (cut_page-more b (suc j) rest more))
        ∙ follow_on b fuel id limit t n (take (suc j) rest) (drop (suc j) rest) cursor'
            (subst (λ x. is_empty (encode_cursor b x) ≡ false) (sym next.0.1)
              (encode_cursor-nonempty b codec next.0.0))
            (ih last cursor'
                (subst (λ x. decode_cursor b (encode_cursor b x) ≡ ok x) (sym next.0.1)
                  (decode_cursor-encode_cursor b codec next.0.0 next.0.2))
                (subst (λ es. length es < fuel) (sym next.1)
                  (omega (arith, length-drop_less j rest (omega (arith, more)), enough)))
              ∙ ap (λ es. (ok es, calm t n)) next.1)
        ∙ ap (λ es. (ok es, calm t n)) (take-drop (suc j) rest)

    walk-last :
        (fuel : ℕ) (v : ℤ) (cursor : Text) (k : ℕ)
        → decode_cursor b cursor ≡ ok v
        → clamp_limit limit ≡ k
        → length (newer v all) ≤ k
        → walk b (suc fuel) id cursor limit (calm t n) ≡ (ok (newer v all), calm t n)
    unfolding walk
    walk-last fuel v cursor k decoded at fits =
        bind_ok (page_ledger b id cursor limit) (follow b fuel id limit)
          (page_read v cursor k _ decoded at (cut_page-last b k (newer v all) fits))

    walk-newer :
        (fuel : ℕ) (v : ℤ) (cursor : Text)
        → decode_cursor b cursor ≡ ok v
        → length (newer v all) < fuel
        → walk b fuel id cursor limit (calm t n) ≡ (ok (newer v all), calm t n)
    walk-newer zero v cursor decoded enough = absurd (omega (arith, enough))
    walk-newer (suc fuel) v cursor decoded enough =
        let (j, at) = clamp_limit_positive limit in
        elim (Bool-cases (ltb (suc j) (length (newer v all)))) [
          | inl more ↦
              walk-more fuel v cursor j (walk-newer fuel) decoded at (ground (arith, more)) enough
          | inr fits ↦ walk-last fuel v cursor (suc j) decoded at (ground (arith, fits))
        ]

IsVersion-between : (u v : ℤ) → IsInt64 v → ltb_ℤ (pos 0) u ≡ true → u ≤ℤ v → IsVersion u
IsVersion-between (pos k) v h positive below = (k, refl, omega (arith, h, below))
IsVersion-between (negsuc k) v h positive below = absurd (ground arith)

Versions-between :
    (v : ℤ) (es : List LedgerRecord)
    → IsInt64 v
    → AllNewer (pos 0) es
    → Below v es
    → All (λ e. IsVersion e.wallet_version) es
Versions-between v [] h a c = tt
Versions-between v (e ∷ es) h a c =
    (IsVersion-between e.wallet_version v h a.0 c.0, Versions-between v es h a.1 c.1)

-- After any sequence of openings, submissions, re-evaluations, work on parked transactions, deliveries,
-- HTTP requests and runs of the publisher that begins with empty tables, whichever statements and commits fail: a
-- client that begins with the empty cursor and follows the cursors of `PageLedger`, with one limit,
-- reads every ledger entry of a wallet that is there once, in the order of `AllOrdered`, if no statement
-- fails meanwhile and it may ask for one page more than there are entries. The cursors' encoder
-- round-trips and gives no empty text for a text that is not empty.
pub history-walk :
    (s : Service) (es : List Event) (faults : List Bool) (b : Base64) (id : Text) (limit : ℤ)
    (n fuel : ℕ) {w : WalletRecord}
    → IsCodec b
    → find_wallet id (history s es (fresh_world faults)).tables.wallets ≡ some w
    → length (entries_of id (history s es (fresh_world faults)).tables.ledger) < fuel
    → walk b fuel id (codes "") limit (calm (history s es (fresh_world faults)).tables n)
      ≡ all_ordered id (calm (history s es (fresh_world faults)).tables n)
unfolding all_ordered query call answer entries_of decode_cursor
history-walk s es faults b id limit n fuel {w} codec found enough =
    let t = (history s es (fresh_world faults)).tables in
    let balanced =
      subst (λ o. WalletState id o t.ledger) found ((history-Books s es faults).of id) in
    let c = balanced.chain in
    let everything = newer_all (pos 0) (entries_of id t.ledger) (Chain-positive c) in
    walk-newer b codec id limit t n (λ v. Chain-rows v c) (Chain-Ascending c)
      (Versions-between w.version _ balanced.version_int64 (Chain-positive c) (Chain-Below c)) fuel
      (pos 0) [] refl (subst (λ es. length es < fuel) (sym everything) enough)
    ∙ ap (λ es. (ok es, calm t n)) everything
