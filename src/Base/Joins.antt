-- ===== src/Base/Joins.antt =====
-- Counting the rows of a join.
use Prim.Native.Nat.{ℕ, ◌+◌, ◌<◌}
use mathlib.Core.Path.{◌≡◌, refl, sym, ap, ◌∙◌}
use mathlib.Core.Bool.{Bool, true, false}
use mathlib.Core.Option.{some}
use mathlib.Core.List.{List, [], ◌∷◌, ◌++◌}
use mathlib.Core.Logic.{◌⊎◌, inl, inr}
use native.Mathlib.Omega.{arith}
use package.kelolakelas_identity_ser.Base.Tests.{if◌then◌else◌, Bool-cases}
use package.kelolakelas_identity_ser.Base.Rows.{Within, rows, count, total_where, from, head}

module _ {A : Type 0} (p : A → Bool) (f : A → ℕ) where
  positive-head :
      (x : A) (n : ℕ) → 0 < (if p x then f x else 0) + n → ((p x ≡ true) × (0 < f x)) ⊎ (0 < n)
  positive-head x n h = ground arith

  pub total_where-positive :
      (xs : List A) → 0 < total_where p f xs → (x : A) × Within x xs × (p x ≡ true) × (0 < f x)
  unfolding total_where
  total_where-positive [] h = absurd (omega arith)
  total_where-positive (x ∷ xs) h = elim (positive-head x (total_where p f xs) h) [
    | inl e ↦ (x, inl refl, e.0, e.1)
    | inr e ↦ let (y, m, a, b) = total_where-positive xs e in (y, inr m, a, b)
  ]

  pub positive-total_where :
      (xs : List A) (x : A) → Within x xs → p x ≡ true → 0 < f x → 0 < total_where p f xs
  unfolding total_where
  positive-total_where [] x m h n = elim m [ ]
  positive-total_where (y ∷ xs) x (inl e) h n = ground (arith, ap p e, ap f e)
  positive-total_where (y ∷ xs) x (inr m) h n = ground (arith, positive-total_where xs x m h n)

module _ {A : Type 0} where
  -- Counting with a condition.
  pub count-Within :
      (p : A → Bool) (xs : List A) → 0 < count p xs → (x : A) × Within x xs × (p x ≡ true)
  unfolding count
  count-Within p [] h = absurd (omega arith)
  count-Within p (x ∷ xs) h = elim (Bool-cases (p x)) [
    | inl e ↦ (x, inl refl, e)
    | inr e ↦ let (y, m, q) = count-Within p xs (ground arith) in (y, inr m, q)
  ]

  pub Within-count :
      (p : A → Bool) (xs : List A) (x : A) → Within x xs → p x ≡ true → 0 < count p xs
  unfolding count
  Within-count p [] x m h = elim m [ ]
  Within-count p (y ∷ xs) x (inl e) h = ground (arith, ap p e)
  Within-count p (y ∷ xs) x (inr m) h = ground (arith, Within-count p xs x m h)

module _ {A : Type 0} where
  chosen :
      (p : A → Bool) (xs ys : List A) (x a : A) (b : Bool)
      → p x ≡ b
      → (Within a ys → Within a xs × (p a ≡ true))
      → Within a (if b then x ∷ ys else ys)
      → Within a (x ∷ xs) × (p a ≡ true)
  chosen p xs ys x a true e k (inl q) = (inl q, ap p (sym q) ∙ e)
  chosen p xs ys x a true e k (inr m) = let r = k m in (inr r.0, r.1)
  chosen p xs ys x a false e k m = let r = k m in (inr r.0, r.1)

  -- A selected row is a stored one that meets the condition.
  pub rows-Within :
      (p : A → Bool) (xs : List A) (a : A) → Within a (rows p xs) → Within a xs × (p a ≡ true)
  unfolding rows
  rows-Within p [] a m = elim m [ ]
  rows-Within p (x ∷ xs) a m = chosen p xs (rows p xs) x a (p x) refl (rows-Within p xs a) m

  pub head-Within : (xs : List A) (a : A) → head xs ≡ some a → Within a xs
  head-Within [] a e = cc
  head-Within (x ∷ xs) a e = inl (cc)

module _ {B : Type 0} where
  Within-append : (xs ys : List B) (b : B) → Within b (xs ++ ys) → Within b xs ⊎ Within b ys
  Within-append [] ys b m = inr m
  Within-append (x ∷ xs) ys b (inl e) = inl (inl e)
  Within-append (x ∷ xs) ys b (inr m) = elim (Within-append xs ys b m) [
    | inl h ↦ inl (inr h)
    | inr h ↦ inr h
  ]

module _ {A B : Type 0} where
  -- A joined row comes from one of the rows of the table.
  pub from-Within :
      (f : A → List B) (xs : List A) (b : B)
      → Within b (from f xs)
      → (a : A) × Within a xs × Within b (f a)
  unfolding from
  from-Within f [] b m = elim m [ ]
  from-Within f (x ∷ xs) b m = elim (Within-append (f x) (from f xs) b m) [
    | inl h ↦ (x, inl refl, h)
    | inr h ↦ let (a, i, j) = from-Within f xs b h in (a, inr i, j)
  ]
