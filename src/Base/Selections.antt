-- ===== src/Base/Selections.antt =====
-- What a SELECT finds after an UPDATE, a DELETE or an INSERT.
use Prim.Native.Nat.{ℕ, ◌+◌, ◌≤◌}
use mathlib.Core.Path.{◌≡◌, refl, ap}
use mathlib.Core.Bool.{Bool, true, false, ◌||◌}
use mathlib.Core.Option.{Option, none, some}
use mathlib.Core.List.{List, [], ◌∷◌, ◌++◌}
use mathlib.Core.Logic.{inl, inr}
use native.Mathlib.Omega.{arith}
use package.kelolakelas_identity_ser.Base.Tests.{Bool-cases, if◌then◌else◌}
use package.kelolakelas_identity_ser.Base.Rows.{
  Within, All, lesser, rows, first, count, exists, update, delete,
}

module _ {ℓ} {A : Type ℓ} (key : A → ℕ) (p : A → Bool) where
  -- What `first` finds meets the condition.
  pub first_holds : (xs : List A) (a : A) → first key p xs ≡ some a → p a ≡ true
  unfolding first
  first_holds [] a h = cc
  first_holds (x ∷ xs) a h = ground (arith, first_holds xs a)

  pub first-exists : (xs : List A) (a : A) → first key p xs ≡ some a → exists p xs ≡ true
  unfolding first exists
  first-exists [] a h = cc
  first-exists (x ∷ xs) a h = ground (arith, first-exists xs a)

  pub first-none : (xs : List A) → first key p xs ≡ none → exists p xs ≡ false
  unfolding first exists
  first-none [] h = refl
  first-none (x ∷ xs) h = ground (arith, first-none xs)

module _ {ℓ} {A : Type ℓ} where
  pub exists-append :
      (p : A → Bool) (xs ys : List A) → exists p (xs ++ ys) ≡ (exists p xs || exists p ys)
  unfolding exists
  exists-append p [] ys = refl
  exists-append p (x ∷ xs) ys = ground (arith, exists-append p xs ys)

  pub exists-delete_self : (p : A → Bool) (xs : List A) → exists p (delete p xs) ≡ false
  unfolding exists delete
  exists-delete_self p [] = refl
  exists-delete_self p (x ∷ xs) = ground (arith, exists-delete_self p xs)

module _ {ℓ κ} {A : Type ℓ} (P : A → Type κ) where
  pub All-update :
      (p : A → Bool) (f : A → A) (xs : List A)
      → ((x : A) → P x → P (f x))
      → All P xs
      → All P (update p f xs)
  unfolding update
  All-update p f [] keep h = h
  All-update p f (x ∷ xs) keep h = ground (arith, keep x h.0, All-update p f xs keep h.1)

  pub All-delete : (p : A → Bool) (xs : List A) → All P xs → All P (delete p xs)
  unfolding delete
  All-delete p [] h = h
  All-delete p (x ∷ xs) h = ground (arith, All-delete p xs h.1)

module _ {A : Type 0} (p : A → Bool) (f : A → A) where
  changed : (x y : A) → y ≡ x → p x ≡ true → (if p y then f y else y) ≡ f x
  changed x y e h = ground (arith, ap p e, ap f e)

  -- A stored row that an UPDATE selects is stored with the change.
  pub Within-update :
      (xs : List A) (x : A) → Within x xs → p x ≡ true → Within (f x) (update p f xs)
  unfolding update
  Within-update [] x m h = elim m [ ]
  Within-update (y ∷ xs) x (inl e) h = inl (changed x y e h)
  Within-update (y ∷ xs) x (inr m) h = inr (Within-update xs x m h)

module _ {A : Type 0} (q p : A → Bool) (f : A → A) where
  -- An UPDATE of rows that a selection leaves out, before and after, does not change it.
  pub rows-update :
      (xs : List A)
      → ((x : A) → Within x xs → p x ≡ true → (q x ≡ false) × (q (f x) ≡ false))
      → rows q (update p f xs) ≡ rows q xs
  unfolding rows update
  rows-update [] h = refl
  rows-update (x ∷ xs) h = ground (arith, rows-update xs (λ y m e. h y (inr m) e), h x (inl refl))

module _ {ℓ} {A : Type ℓ} where
  -- An UPDATE that takes every row out of its own condition leaves none that meets it.
  pub exists-update_self :
      (p : A → Bool) (f : A → A) (xs : List A)
      → ((x : A) → p x ≡ true → p (f x) ≡ false)
      → exists p (update p f xs) ≡ false
  unfolding exists update
  exists-update_self p f [] h = refl
  exists-update_self p f (x ∷ xs) h = ground (arith, exists-update_self p f xs h, h x)

  pub first-not_exists :
      (key : A → ℕ) (p : A → Bool) (xs : List A) → exists p xs ≡ false → first key p xs ≡ none
  unfolding exists first
  first-not_exists key p [] h = refl
  first-not_exists key p (x ∷ xs) h = ground (arith, first-not_exists key p xs)

  -- An UPDATE that does not touch the columns of a condition does not change whether a row meets it.
  pub exists-update_same :
      (q p : A → Bool) (f : A → A) (xs : List A)
      → ((x : A) → q (f x) ≡ q x)
      → exists q (update p f xs) ≡ exists q xs
  unfolding exists update
  exists-update_same q p f [] h = refl
  exists-update_same q p f (x ∷ xs) h = ground (arith, exists-update_same q p f xs h, h x)

  -- A condition that implies another is met by no row where the other is met by none.
  pub exists-implied :
      (q p : A → Bool) (xs : List A)
      → ((x : A) → p x ≡ false → q x ≡ false)
      → exists p xs ≡ false
      → exists q xs ≡ false
  unfolding exists
  exists-implied q p [] k h = refl
  exists-implied q p (x ∷ xs) k h = ground (arith, exists-implied q p xs k, k x)

  pub count-append : (p : A → Bool) (xs ys : List A) → count p (xs ++ ys) ≡ count p xs + count p ys
  unfolding count
  count-append p [] ys = omega arith
  count-append p (x ∷ xs) ys = ground (arith, count-append p xs ys)

  pub count-not_exists : (p : A → Bool) (xs : List A) → exists p xs ≡ false → count p xs ≡ 0
  unfolding count exists
  count-not_exists p [] h = refl
  count-not_exists p (x ∷ xs) h = ground (arith, count-not_exists p xs)

lesser-second {ℓ} :
    {A : Type ℓ} (key : A → ℕ) (n : ℕ) (x y a : A)
    → n ≤ key (lesser key x (some y))
    → y ≡ a
    → n ≤ key a
lesser-second key n x y a h e = ground (arith, ap key e)

lesser-least {ℓ} :
    {A : Type ℓ} (key : A → ℕ) (n : ℕ) (x : A) (o : Option A)
    → n ≤ key (lesser key x o)
    → (n ≤ key x) × ((a : A) → o ≡ some a → n ≤ key a)
lesser-least key n x none h = (h, λ a e. cc)
lesser-least key n x (some y) h =
    (ground arith, λ a e. lesser-second key n x y a h (ground (arith, e)))

-- A bound of the row that LIMIT 1 keeps bounds every row that was selected.
pub first-All_least {ℓ} :
    {A : Type ℓ} (key : A → ℕ) (p : A → Bool) (n : ℕ) (xs : List A)
    → ((a : A) → first key p xs ≡ some a → n ≤ key a)
    → All (λ x. p x ≡ true → n ≤ key x) xs
unfolding first
first-All_least key p n [] h = tt
first-All_least key p n (x ∷ xs) h = elim (Bool-cases (p x)) [
  | inl q ↦
      let l = lesser-least key n x (first key p xs) (
        h (lesser key x (first key p xs))
          (ap (λ b. if b then some (lesser key x (first key p xs)) else first key p xs) q)) in
      (λ e. l.0, first-All_least key p n xs l.1)
  | inr q ↦ (λ e. ground arith, first-All_least key p n xs (λ a e. h a (ground (arith, e))))
]
