-- ===== src/Base/Keys.antt =====
-- Lookups that find a stored row, and lookups by primary key.
use Prim.Native.Nat.{ℕ}
use mathlib.Core.Path.{◌≡◌, refl, sym, ap, ◌∙◌}
use mathlib.Core.Bool.{Bool, true}
use mathlib.Core.Option.{some}
use mathlib.Core.List.{List, [], ◌∷◌, ◌++◌}
use mathlib.Core.Logic.{◌≢◌, inl, inr}
use native.Mathlib.Omega.{arith}
use package.kelolakelas_identity_ser.Base.Tests.{nat_beq, Option-cases}
use package.kelolakelas_identity_ser.Base.Rows.{Within, All, first, exists, Unique}
use package.kelolakelas_identity_ser.Base.Selections.{first_holds, first-none}

module _ {A : Type 0} where
  pub first-Within :
      (key : A → ℕ) (p : A → Bool) (xs : List A) (a : A) → first key p xs ≡ some a → Within a xs
  unfolding first
  first-Within key p [] a h = cc
  first-Within key p (x ∷ xs) a h = ground (arith, first-Within key p xs a)

  pub All-Within {κ} : (P : A → Type κ) (xs : List A) (a : A) → All P xs → Within a xs → P a
  All-Within P [] a h m = elim m [ ]
  All-Within P (x ∷ xs) a h (inl e) = rw (← e) h.0
  All-Within P (x ∷ xs) a h (inr m) = All-Within P xs a h.1 m

module _ {A : Type 0} (key : A → ℕ) where
  Unique-head :
      (x : A) (xs : List A) (a : A) → All (λ y. key y ≢ key x) xs → Within a xs → key a ≢ key x
  Unique-head x xs a h m = All-Within (λ y. key y ≢ key x) xs a h m

  pub Unique-eq :
      (xs : List A) (a b : A) → Unique key xs → Within a xs → Within b xs → key a ≡ key b → a ≡ b
  Unique-eq [] a b u ha hb e = elim ha [ ]
  Unique-eq (x ∷ xs) a b u (inl p) (inl q) e = sym p ∙ q
  Unique-eq (x ∷ xs) a b u (inl p) (inr q) e =
      absurd (Unique-head x xs b u.0 q (sym e ∙ ap key (sym p)))
  Unique-eq (x ∷ xs) a b u (inr p) (inl q) e =
      absurd (Unique-head x xs a u.0 p (e ∙ ap key (sym q)))
  Unique-eq (x ∷ xs) a b u (inr p) (inr q) e = Unique-eq xs a b u.1 p q e

  exists-Within :
      (k : ℕ) (xs : List A) (a : A)
      → Within a xs
      → key a ≡ k
      → exists (λ x. nat_beq (key x) k) xs ≡ true
  unfolding exists
  exists-Within k [] a m e = elim m [ ]
  exists-Within k (x ∷ xs) a (inl p) e = ground (arith, ap key p)
  exists-Within k (x ∷ xs) a (inr m) e = ground (arith, exists-Within k xs a m e)

  -- A lookup by primary key finds the row that has it.
  pub first-by_key :
      (k : ℕ) (xs : List A) (a : A)
      → Unique key xs
      → Within a xs
      → key a ≡ k
      → first key (λ x. nat_beq (key x) k) xs ≡ some a
  first-by_key k xs a u m e = elim (Option-cases (first key (λ x. nat_beq (key x) k) xs)) [
    | inl h ↦ cc (first-none key (λ x. nat_beq (key x) k) xs h, exists-Within k xs a m e)
    | inr (b, h) ↦
        h
        ∙ ap some (
            Unique-eq xs b a u (first-Within key (λ x. nat_beq (key x) k) xs b h) m
              (ground (arith, first_holds key (λ x. nat_beq (key x) k) xs b h)))
  ]

module _ {A : Type 0} where
  -- A row that is there and meets a condition makes the condition met.
  pub Within-exists :
      (p : A → Bool) (xs : List A) (a : A) → Within a xs → p a ≡ true → exists p xs ≡ true
  unfolding exists
  Within-exists p [] a m e = elim m [ ]
  Within-exists p (x ∷ xs) a (inl q) e = ground (arith, ap p q)
  Within-exists p (x ∷ xs) a (inr m) e = ground (arith, Within-exists p xs a m e)

  pub Within-append_last : (xs : List A) (a : A) → Within a (xs ++ a ∷ [])
  Within-append_last [] a = inl refl
  Within-append_last (x ∷ xs) a = inr (Within-append_last xs a)
