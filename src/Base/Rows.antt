-- ===== src/Base/Rows.antt =====
-- Tables as lists of rows, and what SELECT, UPDATE and DELETE with a WHERE clause make of them.
use Prim.Native.Nat.{ℕ, suc, ◌+◌}
use mathlib.Core.Path.{◌≡◌}
use mathlib.Core.Bool.{Bool, false, ◌||◌}
use mathlib.Core.Option.{Option, none, some}
use mathlib.Core.List.{List, [], ◌∷◌, ◌++◌}
use mathlib.Core.Logic.{◌⊎◌, ◌≢◌}
use package.kelolakelas_identity_ser.Base.Tests.{leb, if◌then◌else◌}

-- That a row is in a table.
abbrev pub Within : {A : Type 0} → A → List A → Type 0
Within a [] = ⊥
Within a (x ∷ xs) = (x ≡ a) ⊎ Within a xs

module _ {ℓ} {A : Type ℓ} where
  -- A predicate on every row.
  abbrev pub All {κ} : (A → Type κ) → List A → Type κ
  All P [] = Unit
  All P (x ∷ xs) = P x × All P xs

  -- SELECT … WHERE p
  unfoldable pub rows : (A → Bool) → List A → List A
  rows p [] = []
  rows p (x ∷ xs) = if p x then x ∷ rows p xs else rows p xs

  abbrev pub lesser : (A → ℕ) → A → Option A → A
  lesser key x none = x
  lesser key x (some y) = if leb (key x) (key y) then x else y

  -- SELECT … WHERE p ORDER BY key LIMIT 1
  unfoldable pub first : (A → ℕ) → (A → Bool) → List A → Option A
  first key p [] = none
  first key p (x ∷ xs) = let rest = first key p xs in if p x then some (lesser key x rest) else rest

  -- SELECT count(*) … WHERE p
  unfoldable pub count : (A → Bool) → List A → ℕ
  count p [] = 0
  count p (x ∷ xs) = if p x then suc (count p xs) else count p xs

  -- Whether a row with p is there.
  unfoldable pub exists : (A → Bool) → List A → Bool
  exists p [] = false
  exists p (x ∷ xs) = p x || exists p xs

  -- UPDATE … SET f WHERE p
  unfoldable pub update : (A → Bool) → (A → A) → List A → List A
  update p f [] = []
  update p f (x ∷ xs) = (if p x then f x else x) ∷ update p f xs

  -- DELETE … WHERE p
  unfoldable pub delete : (A → Bool) → List A → List A
  delete p [] = []
  delete p (x ∷ xs) = if p x then delete p xs else x ∷ delete p xs

-- A primary key: no two rows share it.
abbrev pub Unique {ℓ} : {A : Type ℓ} → (A → ℕ) → List A → Type 0
Unique key [] = Unit
Unique key (x ∷ xs) = All (λ y. key y ≢ key x) xs × Unique key xs

-- The number of joined rows: each row that meets `p` counts as often as it finds partners.
unfoldable pub total_where : {A : Type 0} → (A → Bool) → (A → ℕ) → List A → ℕ
total_where p f [] = 0
total_where p f (x ∷ xs) = (if p x then f x else 0) + total_where p f xs

-- FROM a table, joined with the rows that `f` finds for each of its rows.
unfoldable pub from : {A B : Type 0} → (A → List B) → List A → List B
from f [] = []
from f (x ∷ xs) = f x ++ from f xs

-- The row that LIMIT 1 keeps, where no order is asked.
abbrev pub head : {A : Type 0} → List A → Option A
head [] = none
head (x ∷ xs) = some x

-- The row that ORDER BY key DESC LIMIT 1 keeps.
abbrev pub greater : {A : Type 0} → (A → ℕ) → A → Option A → A
greater key x none = x
greater key x (some y) = if leb (key y) (key x) then x else y

unfoldable pub newest : {A : Type 0} → (A → ℕ) → List A → Option A
newest key [] = none
newest key (x ∷ xs) = some (greater key x (newest key xs))

-- ORDER BY key DESC
abbrev pub insert_descending : {A : Type 0} → (A → ℕ) → A → List A → List A
insert_descending key x [] = x ∷ []
insert_descending key x (y ∷ ys) =
    let rest = insert_descending key x ys in if leb (key y) (key x) then x ∷ y ∷ ys else y ∷ rest

unfoldable pub descending : {A : Type 0} → (A → ℕ) → List A → List A
descending key [] = []
descending key (x ∷ xs) = insert_descending key x (descending key xs)
