-- ===== src/Base/Orders.antt =====
-- ORDER BY key DESC, and the row that LIMIT 1 keeps of it.
use Prim.Native.Nat.{ℕ, ◌≤◌}
use mathlib.Core.Path.{subst, ◌≡◌, refl, sym, ap, ◌∙◌}
use mathlib.Core.Bool.{Bool, true, false}
use mathlib.Core.Option.{none, some}
use mathlib.Core.List.{List, [], ◌∷◌, ◌++◌, map}
use mathlib.Core.Logic.{◌⊎◌, inl, inr}
use native.Mathlib.Omega.{arith}
use package.kelolakelas_identity_ser.Base.Tests.{
  leb, if◌then◌else◌, if_both, Bool-cases, Option-cases,
}
use package.kelolakelas_identity_ser.Base.Keys.{All-Within}
use package.kelolakelas_identity_ser.Base.Rows.{
  Within, All, rows, exists, from, head, newest, greater, insert_descending, descending,
}

swap {κ} : {P Q R : Type κ} → P ⊎ (Q ⊎ R) → Q ⊎ (P ⊎ R)
swap (inl a) = inr (inl a)
swap (inr (inl b)) = inl b
swap (inr (inr c)) = inr (inr c)

deeper {κ} : {P Q R : Type κ} → (Q → R) → P ⊎ Q → P ⊎ R
deeper f (inl a) = inl a
deeper f (inr b) = inr (f b)

module _ {A : Type 0} (key : A → ℕ) where
  abbrev Sorted : List A → Type 0
  Sorted [] = Unit
  Sorted (x ∷ xs) = All (λ y. key y ≤ key x) xs × Sorted xs

  below : (m n : ℕ) (xs : List A) → m ≤ n → All (λ y. key y ≤ m) xs → All (λ y. key y ≤ n) xs
  below m n [] h b = tt
  below m n (x ∷ xs) h b = (omega arith, below m n xs h b.1)

  insert-below :
      (n : ℕ) (x : A) (xs : List A)
      → key x ≤ n
      → All (λ y. key y ≤ n) xs
      → All (λ y. key y ≤ n) (insert_descending key x xs)
  insert-below n x [] h b = (h, tt)
  insert-below n x (y ∷ ys) h b =
      if_both (All (λ y. key y ≤ n)) (leb (key y) (key x)) _ _ (λ q. (h, b))
        (λ q. (b.0, insert-below n x ys h b.1))

  insert-Sorted : (x : A) (xs : List A) → Sorted xs → Sorted (insert_descending key x xs)
  insert-Sorted x [] s = (tt, tt)
  insert-Sorted x (y ∷ ys) s =
      if_both Sorted (leb (key y) (key x)) _ _
        (λ q. ((ground arith, below (key y) (key x) ys (ground arith) s.0), s))
        (λ q. (insert-below (key y) x ys (ground arith) s.0, insert-Sorted x ys s.1))

  descending-Sorted : (xs : List A) → Sorted (descending key xs)
  unfolding descending
  descending-Sorted [] = tt
  descending-Sorted (x ∷ xs) = insert-Sorted x (descending key xs) (descending-Sorted xs)

  Within-insert :
      (x : A) (xs : List A) (a : A) → (x ≡ a) ⊎ Within a xs → Within a (insert_descending key x xs)
  Within-insert x [] a m = m
  Within-insert x (y ∷ ys) a m =
      if_both (Within a) (leb (key y) (key x)) _ _ (λ q. m)
        (λ q. deeper (Within-insert x ys a) (swap m))

  insert-Within :
      (x : A) (xs : List A) (a : A) → Within a (insert_descending key x xs) → (x ≡ a) ⊎ Within a xs
  insert-Within x [] a m = m
  insert-Within x (y ∷ ys) a m =
      if_both (λ zs. Within a zs → (x ≡ a) ⊎ ((y ≡ a) ⊎ Within a ys)) (leb (key y) (key x)) _ _
        (λ q m. m) (λ q m. swap (deeper (insert-Within x ys a) m)) m

  pub Within-descending : (xs : List A) (a : A) → Within a xs → Within a (descending key xs)
  unfolding descending
  Within-descending [] a m = m
  Within-descending (x ∷ xs) a (inl e) = Within-insert x (descending key xs) a (inl e)
  Within-descending (x ∷ xs) a (inr m) =
      Within-insert x (descending key xs) a (inr (Within-descending xs a m))

  pub descending-Within : (xs : List A) (a : A) → Within a (descending key xs) → Within a xs
  unfolding descending
  descending-Within [] a m = m
  descending-Within (x ∷ xs) a m = elim (insert-Within x (descending key xs) a m) [
    | inl e ↦ inl e
    | inr h ↦ inr (descending-Within xs a h)
  ]

  head-rows_greatest :
      (p : A → Bool) (xs : List A) (a y : A)
      → Sorted xs
      → head (rows p xs) ≡ some a
      → Within y xs
      → p y ≡ true
      → key y ≤ key a
  unfolding rows
  head-rows_greatest p [] a y s h m q = elim m [ ]
  head-rows_greatest p (x ∷ xs) a y s h m q = elim (Bool-cases (p x)) [
    | inl t ↦ at_head (ap (λ b. head (if b then x ∷ rows p xs else rows p xs)) (sym t) ∙ h) m
    | inr f ↦ elim m [
      | inl e ↦ absurd (ground (arith, ap p e))
      | inr n ↦
          head-rows_greatest p xs a y s.1
            (ap (λ b. head (if b then x ∷ rows p xs else rows p xs)) (sym f) ∙ h) n q
    ]
  ]
    where
      at_head : some x ≡ some a → (x ≡ y) ⊎ Within y xs → key y ≤ key a
      at_head e (inl i) = ground (arith, e, ap key i)
      at_head e (inr n) = ground (arith, e, All-Within (λ y. key y ≤ key x) xs y s.0 n)

  pub newest-none : (xs : List A) → newest key xs ≡ none → xs ≡ []
  unfolding newest
  newest-none [] h = refl
  newest-none (x ∷ xs) h = cc

  taken :
      (x y a : A) (xs : List A)
      → Within y xs × All (λ z. key z ≤ key y) xs
      → some (greater key x (some y)) ≡ some a
      → Within a (x ∷ xs) × All (λ z. key z ≤ key a) (x ∷ xs)
  taken x y a xs r =
      if_both (λ g. some g ≡ some a → Greatest a) (leb (key y) (key x)) _ _
        (λ q e.
          subst Greatest (cc e)
            (inl refl, (omega arith, below (key y) (key x) xs (ground arith) r.1)))
        (λ q e. subst Greatest (cc e) (inr r.0, (ground arith, r.1)))
    where
      Greatest : A → Type 0
      Greatest a = Within a (x ∷ xs) × All (λ z. key z ≤ key a) (x ∷ xs)

  pub newest_greatest :
      (xs : List A) (a : A) → newest key xs ≡ some a → Within a xs × All (λ y. key y ≤ key a) xs
  unfolding newest
  newest_greatest [] a h = cc
  newest_greatest (x ∷ xs) a h = elim (Option-cases (newest key xs)) [
    | inl e ↦
        let i : x ≡ a = ground (arith, h, ap (λ o. some (greater key x o)) e) in
        rw (newest-none xs e, ← i) (inl refl, (omega arith, tt))
    | inr (y, e) ↦
        let r = newest_greatest xs y e in
        taken x y a xs r (ap (λ o. some (greater key x o)) (sym e) ∙ h)
  ]

module _ {A : Type 0} where
  pub Within-rows :
      (p : A → Bool) (xs : List A) (a : A) → Within a xs → p a ≡ true → Within a (rows p xs)
  unfolding rows
  Within-rows p [] a m q = m
  Within-rows p (x ∷ xs) a m q =
      if_both (Within a) (p x) _ _ (λ t. deeper (λ n. Within-rows p xs a n q) m)
        (λ f. elim m [ inl e ↦ absurd (ground (arith, ap p e)) | inr n ↦ Within-rows p xs a n q ])

  pub exists-Within :
      (p : A → Bool) (xs : List A) → exists p xs ≡ true → (a : A) × Within a xs × (p a ≡ true)
  unfolding exists
  exists-Within p [] h = cc
  exists-Within p (x ∷ xs) h = elim (Bool-cases (p x)) [
    | inl q ↦ (x, inl refl, q)
    | inr q ↦ let (a, m, e) = exists-Within p xs (ground (arith, h)) in (a, inr m, e)
  ]

module _ {B : Type 0} where
  append-Within : (xs ys : List B) (b : B) → Within b xs ⊎ Within b ys → Within b (xs ++ ys)
  append-Within [] ys b (inl m) = elim m [ ]
  append-Within [] ys b (inr m) = m
  append-Within (x ∷ xs) ys b (inl (inl e)) = inl e
  append-Within (x ∷ xs) ys b (inl (inr m)) = inr (append-Within xs ys b (inl m))
  append-Within (x ∷ xs) ys b (inr m) = inr (append-Within xs ys b (inr m))

module _ {A B : Type 0} where
  pub Within-from :
      (f : A → List B) (xs : List A) (a : A) (b : B)
      → Within a xs
      → Within b (f a)
      → Within b (from f xs)
  unfolding from
  Within-from f [] a b m n = elim m [ ]
  Within-from f (x ∷ xs) a b (inl e) n = append-Within (f x) (from f xs) b (inl (rw (e) n))
  Within-from f (x ∷ xs) a b (inr m) n =
      append-Within (f x) (from f xs) b (inr (Within-from f xs a b m n))

module _ {A : Type 0} (key : A → ℕ) (p : A → Bool) where
  -- The first row in descending order that meets a condition is the greatest of those that do.
  pub head-descending_greatest :
      (xs : List A) (a y : A)
      → head (rows p (descending key xs)) ≡ some a
      → Within y xs
      → p y ≡ true
      → key y ≤ key a
  head-descending_greatest xs a y h m =
      head-rows_greatest key p (descending key xs) a y (descending-Sorted key xs) h
        (Within-descending key xs y m)

  pub head-rows-none : (xs : List A) (y : A) → head (rows p xs) ≡ none → Within y xs → p y ≡ false
  unfolding rows
  head-rows-none [] y h m = elim m [ ]
  head-rows-none (x ∷ xs) y h (inl e) = ground (arith, h, ap p e)
  head-rows-none (x ∷ xs) y h (inr m) = head-rows-none xs y (ground (arith, h)) m

module _ {A B : Type 0} (f : A → B) where
  pub Within-map : (xs : List A) (a : A) → Within a xs → Within (f a) (map f xs)
  Within-map [] a m = elim m [ ]
  Within-map (x ∷ xs) a (inl e) = inl (ap f e)
  Within-map (x ∷ xs) a (inr m) = inr (Within-map xs a m)

  pub map-Within : (xs : List A) (b : B) → Within b (map f xs) → (a : A) × Within a xs × (f a ≡ b)
  map-Within [] b m = elim m [ ]
  map-Within (x ∷ xs) b (inl e) = (x, inl refl, e)
  map-Within (x ∷ xs) b (inr m) = let (a, n, e) = map-Within xs b m in (a, inr n, e)
