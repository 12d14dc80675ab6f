-- ===== src/Prelude/Tables/Every.antt =====
-- What holds of every row, through the clauses of SQL.
use Prim.Native.Nat.{ℕ, zero, suc}
use mathlib.Core.Path.{◌≡◌, refl}
use mathlib.Core.Bool.{Bool, true, false}
use mathlib.Core.List.{List, [], ◌∷◌, map}
use jg_backend_challenge_go.Prelude.Tests.{if◌then◌else◌}
use jg_backend_challenge_go.Prelude.Lists.{All, take}
use jg_backend_challenge_go.Prelude.Tables.{select, update_where, insert_ordered, order_by}

module _ {A : Type 0} (P : A → Type 0) where
  pub All-pure : (xs : List A) → ((x : A) → P x) → All P xs
  All-pure [] h = tt
  All-pure (x ∷ xs) h = (h x, All-pure xs h)

  pub All-map :
      {B : Type 0} (Q : B → Type 0) (f : A → B) (xs : List A)
      → ((x : A) → P x → Q (f x))
      → All P xs
      → All Q (map f xs)
  All-map Q f [] h a = tt
  All-map Q f (x ∷ xs) h a = (h x a.0, All-map Q f xs h a.1)

  pub All-weaken : (Q : A → Type 0) (xs : List A) → ((x : A) → P x → Q x) → All P xs → All Q xs
  All-weaken Q [] h a = tt
  All-weaken Q (x ∷ xs) h a = (h x a.0, All-weaken Q xs h a.1)

  updated_row :
      (Q : A → Type 0) (f : A → A) (x : A) (b : Bool)
      → P x
      → (b ≡ true → P x → Q (f x))
      → (b ≡ false → P x → Q x)
      → Q (if b then f x else x)
  updated_row Q f x true p h g = h refl p
  updated_row Q f x false p h g = g refl p

  pub All-update_where :
      (Q : A → Type 0) (p : A → Bool) (f : A → A) (xs : List A)
      → ((x : A) → p x ≡ true → P x → Q (f x))
      → ((x : A) → p x ≡ false → P x → Q x)
      → All P xs
      → All Q (update_where p f xs)
  unfolding update_where
  All-update_where Q p f [] h g a = tt
  All-update_where Q p f (x ∷ xs) h g a =
      (updated_row Q f x (p x) a.0 (h x) (g x), All-update_where Q p f xs h g a.1)

  kept_row :
      (x : A) (xs : List A) (b : Bool)
      → (b ≡ true → P x)
      → All P xs
      → All P (if b then x ∷ xs else xs)
  kept_row x xs true h a = (h refl, a)
  kept_row x xs false h a = a

  inserted_row :
      (x y : A) (ys zs : List A) (b : Bool)
      → P x
      → P y
      → All P ys
      → All P zs
      → All P (if b then x ∷ y ∷ ys else y ∷ zs)
  inserted_row x y ys zs true p q a c = (p, (q, a))
  inserted_row x y ys zs false p q a c = (q, c)

  All-insert :
      (before : A → A → Bool) (x : A) (ys : List A)
      → P x
      → All P ys
      → All P (insert_ordered before x ys)
  unfolding insert_ordered
  All-insert before x [] p a = (p, tt)
  All-insert before x (y ∷ ys) p a =
      inserted_row x y ys _ (before x y) p a.0 a.1 (All-insert before x ys p a.1)

  pub All-order_by : (before : A → A → Bool) (xs : List A) → All P xs → All P (order_by before xs)
  unfolding order_by
  All-order_by before [] a = tt
  All-order_by before (x ∷ xs) a =
      All-insert before x (order_by before xs) a.0 (All-order_by before xs a.1)

  pub All-take : (n : ℕ) (xs : List A) → All P xs → All P (take n xs)
  All-take zero xs a = tt
  All-take (suc n) [] a = tt
  All-take (suc n) (x ∷ xs) a = (a.0, All-take n xs a.1)

pub All-select :
    {A : Type 0} (P Q : A → Type 0) (p : A → Bool) (xs : List A)
    → ((x : A) → p x ≡ true → P x → Q x)
    → All P xs
    → All Q (select p xs)
unfolding select
All-select P Q p [] h a = tt
All-select P Q p (x ∷ xs) h a = kept_row Q x _ (p x) (λ e. h x e a.0) (All-select P Q p xs h a.1)
