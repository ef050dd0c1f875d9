-- ===== src/Base/Lists.antt =====
-- Lists measured by native numbers, predicates on all their elements, and order along a list.
use Prim.Native.Nat.{ℕ, suc, zero, ◌+◌, ◌≤◌, ◌<◌}
use mathlib.Core.Path.{◌≡◌, refl}
use mathlib.Core.List.{List, [], ◌∷◌, ◌++◌}
use mathlib.Core.Option.{Option, none, some}
use native.Mathlib.Omega.{arith}

module _ {ℓ} {A : Type ℓ} where
  abbrev pub length : List A → ℕ
  length [] = 0
  length (x ∷ xs) = suc (length xs)

  pub length-append : (xs ys : List A) → length (xs ++ ys) ≡ length xs + length ys
  length-append [] ys = omega arith
  length-append (x ∷ xs) ys = omega (arith, length-append xs ys)

  -- `v[i]`, and `none` past the end.
  abbrev pub get_elem? : List A → ℕ → Option A
  get_elem? [] i = none
  get_elem? (x ∷ xs) zero = some x
  get_elem? (x ∷ xs) (suc i) = get_elem? xs i

  abbrev pub take : ℕ → List A → List A
  take zero xs = []
  take (suc n) [] = []
  take (suc n) (x ∷ xs) = x ∷ take n xs

  abbrev pub drop : ℕ → List A → List A
  drop zero xs = xs
  drop (suc n) [] = []
  drop (suc n) (x ∷ xs) = drop n xs

  pub length-drop-le : (n : ℕ) (xs : List A) → length (drop n xs) ≤ length xs
  length-drop-le zero xs = omega arith
  length-drop-le (suc n) [] = omega arith
  length-drop-le (suc n) (x ∷ xs) = omega (arith, length-drop-le n xs)

  -- The last element of the list `x ∷ xs`.
  abbrev pub last_from : A → List A → A
  last_from x [] = x
  last_from x (y ∷ ys) = last_from y ys

  pub last_from-append : (x : A) (xs : List A) (y : A) → last_from x (xs ++ (y ∷ [])) ≡ y
  last_from-append x [] y = refl
  last_from-append x (z ∷ xs) y = last_from-append z xs y

module _ {ℓ κ} {A : Type ℓ} (Q : A → Type κ) where
  -- A predicate of every element.
  abbrev pub Every : List A → Type κ
  Every (y ∷ ys) = Q y × Every ys
  Every [] = Unit

  pub Every-append : (front back : List A) → Every front → Every back → Every (front ++ back)
  Every-append (y ∷ front) back (here, later) h = (here, Every-append front back later h)
  Every-append [] back none_ h = h

-- An element of a text or a payload.
abbrev pub IsByte : ℕ → Type 0
IsByte byte = byte < 256
