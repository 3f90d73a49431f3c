-- ===== src/Prelude/Sql.antt =====
-- The SQL that the program uses, over lists of rows.
use Prim.Native.Nat.{ℕ, ◌≤◌, max}
use mathlib.Core.Path.{◌≡◌, refl}
use mathlib.Core.Logic.{inl, inr}
use mathlib.Core.Bool.{Bool, true, false, ◌&&◌, ◌||◌}
use mathlib.Core.Option.{Option, none, some}
use mathlib.Core.List.{List, [], ◌∷◌, ◌++◌, map}
use native.Mathlib.Omega.{arith}
use lfontes_nanoclaw.Prelude.Tests.{if◌then◌else◌, Bool-cases, some_injective}
use lfontes_nanoclaw.Prelude.Lists.{All, All-imp, In, In-All, any, length}

module _ {ℓ} {A : Type ℓ} where
  -- SELECT * … WHERE p
  unfoldable pub select : (A → Bool) → List A → List A
  select p [] = []
  select p (x ∷ xs) = if p x then x ∷ select p xs else select p xs

  -- The row that `.get()` returns.
  unfoldable pub first : (A → Bool) → List A → Option A
  first p [] = none
  first p (x ∷ xs) = if p x then some x else first p xs

  -- UPDATE … SET f WHERE p
  unfoldable pub update : (A → Bool) → (A → A) → List A → List A
  update p f [] = []
  update p f (x ∷ xs) = (if p x then f x else x) ∷ update p f xs

  -- DELETE … WHERE p
  unfoldable pub delete : (A → Bool) → List A → List A
  delete p [] = []
  delete p (x ∷ xs) = if p x then delete p xs else x ∷ delete p xs

  -- COALESCE(MAX(f), 0)
  unfoldable pub max_of : (A → ℕ) → List A → ℕ
  max_of f [] = 0
  max_of f (x ∷ xs) = max (f x) (max_of f xs)

  unfoldable pub insert_by : (A → A → Bool) → A → List A → List A
  insert_by le a [] = a ∷ []
  insert_by le a (x ∷ xs) = if le a x then a ∷ x ∷ xs else x ∷ insert_by le a xs

  -- ORDER BY, stable.
  unfoldable pub order_by : (A → A → Bool) → List A → List A
  unfolding insert_by
  order_by le [] = []
  order_by le (x ∷ xs) = insert_by le x (order_by le xs)

  module _ {κ} (P : A → Type κ) where
    pub All-select : (p : A → Bool) (xs : List A) → All P xs → All P (select p xs)
    unfolding select
    All-select p [] h = tt
    All-select p (x ∷ xs) h = ground (arith, All-select p xs h.1)

    pub All-delete : (p : A → Bool) (xs : List A) → All P xs → All P (delete p xs)
    unfolding delete
    All-delete p [] h = tt
    All-delete p (x ∷ xs) h = ground (arith, All-delete p xs h.1)

    pub All-update :
        (p : A → Bool) (f : A → A) (xs : List A)
        → ((x : A) → p x ≡ true → P x → P (f x))
        → All P xs
        → All P (update p f xs)
    unfolding update
    All-update p f [] k h = tt
    All-update p f (x ∷ xs) k h = ground (arith, k x, All-update p f xs k h.1)

    pub All-insert_by :
        (le : A → A → Bool) (a : A) (xs : List A) → P a → All P xs → All P (insert_by le a xs)
    unfolding insert_by
    All-insert_by le a [] pa h = (pa, tt)
    All-insert_by le a (x ∷ xs) pa h = ground (arith, All-insert_by le a xs pa h.1)

    pub All-order_by : (le : A → A → Bool) (xs : List A) → All P xs → All P (order_by le xs)
    unfolding order_by
    All-order_by le [] h = tt
    All-order_by le (x ∷ xs) h = All-insert_by le x (order_by le xs) h.0 (All-order_by le xs h.1)

  pub select_holds : (p : A → Bool) (xs : List A) → All (λ x. p x ≡ true) (select p xs)
  unfolding select
  select_holds p [] = tt
  select_holds p (x ∷ xs) = ground (arith, select_holds p xs)

  pub delete_fails : (p : A → Bool) (xs : List A) → All (λ x. p x ≡ false) (delete p xs)
  unfolding delete
  delete_fails p [] = tt
  delete_fails p (x ∷ xs) = ground (arith, delete_fails p xs)

  pub le-max_of : (f : A → ℕ) (xs : List A) → All (λ x. f x ≤ max_of f xs) xs
  unfolding max_of
  le-max_of f [] = tt
  le-max_of f (x ∷ xs) = (
    omega arith,
    All-imp (λ y. f y ≤ max_of f xs) (λ y. f y ≤ max (f x) (max_of f xs)) xs (λ y h. omega arith)
        (le-max_of f xs),
  )

  pub any-false : (p : A → Bool) (xs : List A) → any p xs ≡ false → All (λ x. p x ≡ false) xs
  any-false p [] h = tt
  any-false p (x ∷ xs) h = ground (arith, any-false p xs)

  pub first-some : (p : A → Bool) (xs : List A) (a : A) → first p xs ≡ some a → p a ≡ true
  unfolding first
  first-some p [] a h = ground arith
  first-some p (x ∷ xs) a h = ground (arith, first-some p xs a)

  pub first-none : (p : A → Bool) (xs : List A) → first p xs ≡ none → All (λ x. p x ≡ false) xs
  unfolding first
  first-none p [] h = tt
  first-none p (x ∷ xs) h = ground (arith, first-none p xs)

  -- A query sees nothing of an update that only touches rows it leaves out, before and after.
  pub select-update_outside :
      (p q : A → Bool) (f : A → A) (xs : List A)
      → ((x : A) → q x ≡ true → (p x ≡ false) × (p (f x) ≡ false))
      → select p (update q f xs) ≡ select p xs
  unfolding select update
  select-update_outside p q f [] k = refl
  select-update_outside p q f (x ∷ xs) k = ground (arith, k x, select-update_outside p q f xs k)

  pub map-update {κ} :
      {B : Type κ} (g : A → B) (q : A → Bool) (f : A → A) (xs : List A)
      → ((x : A) → g (f x) ≡ g x)
      → map g (update q f xs) ≡ map g xs
  unfolding update
  map-update g q f [] k = refl
  map-update g q f (x ∷ xs) k = ground (arith, k x, map-update g q f xs k)

  pub update_twice :
      (p q : A → Bool) (f g : A → A) (xs : List A)
      → All
          (λ x.
            (if q (if p x then f x else x)
              then g (if p x then f x else x)
              else (if p x then f x else x))
            ≡ x)
          xs
      → update q g (update p f xs) ≡ xs
  unfolding update
  update_twice p q f g [] h = refl
  update_twice p q f g (x ∷ xs) h = ground (arith, h.0, update_twice p q f g xs h.1)

  -- After an update that takes each row it meets out of its own condition, no row meets it.
  pub update_clears :
      (p : A → Bool) (f : A → A) (xs : List A)
      → ((x : A) → p x ≡ true → p (f x) ≡ false)
      → All (λ x. p x ≡ false) (update p f xs)
  unfolding update
  update_clears p f [] k = tt
  update_clears p f (x ∷ xs) k = ground (arith, k x, update_clears p f xs k)

  pub select-append :
      (p : A → Bool) (xs ys : List A) → select p (xs ++ ys) ≡ select p xs ++ select p ys
  unfolding select
  select-append p [] ys = refl
  select-append p (x ∷ xs) ys = ground (arith, select-append p xs ys)

  pub any-append : (p : A → Bool) (xs ys : List A) → any p (xs ++ ys) ≡ (any p xs || any p ys)
  any-append p [] ys = refl
  any-append p (x ∷ xs) ys = ground (arith, any-append p xs ys)

  pub any-update :
      (p q : A → Bool) (f : A → A) (xs : List A)
      → ((x : A) → p (f x) ≡ p x)
      → any p (update q f xs) ≡ any p xs
  unfolding update
  any-update p q f [] k = refl
  any-update p q f (x ∷ xs) k = ground (arith, k x, any-update p q f xs k)

  pub length-update : (q : A → Bool) (f : A → A) (xs : List A) → length (update q f xs) ≡ length xs
  unfolding update
  length-update q f [] = refl
  length-update q f (x ∷ xs) = omega (arith, length-update q f xs)

  pub update_congr :
      (p : A → Bool) (f g : A → A) (xs : List A)
      → All (λ x. p x ≡ true → f x ≡ g x) xs
      → update p f xs ≡ update p g xs
  unfolding update
  update_congr p f g [] h = refl
  update_congr p f g (x ∷ xs) h = ground (arith, h.0, update_congr p f g xs h.1)

  pub update_same :
      (p : A → Bool) (f : A → A) (xs : List A)
      → All (λ x. p x ≡ true → f x ≡ x) xs
      → update p f xs ≡ xs
  unfolding update
  update_same p f [] h = refl
  update_same p f (x ∷ xs) h = ground (arith, h.0, update_same p f xs h.1)

  pub first-none_of : (p : A → Bool) (xs : List A) → All (λ x. p x ≡ false) xs → first p xs ≡ none
  unfolding first
  first-none_of p [] h = refl
  first-none_of p (x ∷ xs) h = ground (arith, first-none_of p xs h.1)

  -- Two runs of one idempotent update are one run over the rows of either.
  pub update_union :
      (p q : A → Bool) (f : A → A) (xs : List A)
      → ((x : A) → f (f x) ≡ f x)
      → ((x : A) → q (f x) ≡ q x)
      → update q f (update p f xs) ≡ update (λ x. p x || q x) f xs
  unfolding update
  update_union p q f [] k h = refl
  update_union p q f (x ∷ xs) k h = ground (arith, k x, h x, update_union p q f xs k h)

  pub select_none : (p : A → Bool) (xs : List A) → All (λ x. p x ≡ false) xs → select p xs ≡ []
  unfolding select
  select_none p [] h = refl
  select_none p (x ∷ xs) h = ground (arith, select_none p xs h.1)

  pub update_idempotent :
      (p : A → Bool) (f : A → A) (xs : List A)
      → ((x : A) → f (f x) ≡ f x)
      → ((x : A) → p (f x) ≡ p x)
      → update p f (update p f xs) ≡ update p f xs
  unfolding update
  update_idempotent p f [] k h = refl
  update_idempotent p f (x ∷ xs) k h = ground (arith, k x, h x, update_idempotent p f xs k h)

pub first-All {ℓ κ} :
    {A : Type ℓ} (P : A → Type κ) (p : A → Bool) (xs : List A) (a : A)
    → All P xs
    → first p xs ≡ some a
    → P a
unfolding first
first-All P p [] a h e = ground arith
first-All P p (x ∷ xs) a h e = elim (Bool-cases (p x)) [
  | inl t ↦ rw (← some_injective x a (rw (← e, t) refl)) h.0
  | inr f ↦ first-All P p xs a h.1 (rw (← e, f) refl)
]

pub first_added {ℓ} :
    {A : Type ℓ} (p : A → Bool) (xs : List A) (x : A)
    → first p xs ≡ none
    → p x ≡ true
    → first p (xs ++ x ∷ []) ≡ some x
unfolding first
first_added p [] x h t = rw t refl
first_added p (y ∷ ys) x h t = ground (arith, first_added p ys x)

pub In-select :
    {A : Type 0} (p : A → Bool) (xs : List A) (a : A) → In a xs → p a ≡ true → In a (select p xs)
unfolding select
In-select p [] a m h = absurd m
In-select p (x ∷ xs) a (inl e) h = rw (← e, h) (inl refl)
In-select p (x ∷ xs) a (inr m) h = elim (Bool-cases (p x)) [
  | inl t ↦ rw t (inr (In-select p xs a m h))
  | inr f ↦ rw f (In-select p xs a m h)
]

module _ {ℓ} {A : Type ℓ} where
  pub delete-append :
      (p : A → Bool) (xs ys : List A) → delete p (xs ++ ys) ≡ delete p xs ++ delete p ys
  unfolding delete
  delete-append p [] ys = refl
  delete-append p (x ∷ xs) ys = ground (arith, delete-append p xs ys)

  -- A query sees of a delete what the delete does to the rows it reads.
  pub select-delete :
      (p q : A → Bool) (xs : List A) → select p (delete q xs) ≡ delete q (select p xs)
  unfolding select delete
  select-delete p q [] = refl
  select-delete p q (x ∷ xs) = ground (arith, select-delete p q xs)

  pub select-delete_inside :
      (p q : A → Bool) (xs : List A)
      → select p (delete (λ x. p x && q x) xs) ≡ delete q (select p xs)
  unfolding select delete
  select-delete_inside p q [] = refl
  select-delete_inside p q (x ∷ xs) = ground (arith, select-delete_inside p q xs)

  pub delete_none : (p : A → Bool) (xs : List A) → All (λ x. p x ≡ false) xs → delete p xs ≡ xs
  unfolding delete
  delete_none p [] h = refl
  delete_none p (x ∷ xs) h = ground (arith, h.0, delete_none p xs h.1)

  pub any-delete :
      (p q : A → Bool) (xs : List A)
      → ((x : A) → p x ≡ true → q x ≡ false)
      → any p (delete q xs) ≡ any p xs
  unfolding delete
  any-delete p q [] k = refl
  any-delete p q (x ∷ xs) k = ground (arith, k x, any-delete p q xs k)

  pub any-none : (p : A → Bool) (xs : List A) → All (λ x. p x ≡ false) xs → any p xs ≡ false
  any-none p [] h = refl
  any-none p (x ∷ xs) h = ground (arith, h.0, any-none p xs h.1)

pub first-In : {A : Type 0} (p : A → Bool) (xs : List A) (a : A) → first p xs ≡ some a → In a xs
first-In p xs a e = first-All (λ x. In x xs) p xs a (In-All (λ x. In x xs) xs (λ x m. m)) e
