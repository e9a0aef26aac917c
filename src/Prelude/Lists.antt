-- ===== src/Prelude/Lists.antt =====
-- Lists measured by native numbers, Boolean filters and tests, and Go's swap-with-last removal.
use Prim.Native.Nat.{ℕ, zero, suc, ◌+◌}
use mathlib.Core.Path.{◌≡◌, refl}
use mathlib.Core.Bool.{Bool, false, ◌||◌}
use mathlib.Core.List.{List, [], ◌∷◌, ◌++◌}
use mathlib.Core.Option.{Option, none, some}
use native.Mathlib.Omega.{arith}
use ranch.Prelude.Tests.{if◌then◌else◌}

module _ {ℓ} {A : Type ℓ} where
  abbrev pub length : List A → ℕ
  length [] = 0
  length (x ∷ xs) = suc (length xs)

  abbrev pub get_elem? : List A → ℕ → Option A
  get_elem? [] i = none
  get_elem? (x ∷ xs) zero = some x
  get_elem? (x ∷ xs) (suc i) = get_elem? xs i

  -- A write out of bounds changes nothing.
  abbrev pub set : List A → ℕ → A → List A
  set [] i v = []
  set (x ∷ xs) zero v = v ∷ xs
  set (x ∷ xs) (suc i) v = x ∷ set xs i v

  abbrev pub take : ℕ → List A → List A
  take zero xs = []
  take (suc n) [] = []
  take (suc n) (x ∷ xs) = x ∷ take n xs

  abbrev pub drop : ℕ → List A → List A
  drop zero xs = xs
  drop (suc n) [] = []
  drop (suc n) (x ∷ xs) = drop n xs

  pub length-append : (xs ys : List A) → length (xs ++ ys) ≡ length xs + length ys
  length-append [] ys = omega arith
  length-append (x ∷ xs) ys = omega (arith, length-append xs ys)

  -- The elements that pass a test, in order.
  abbrev pub keep : (A → Bool) → List A → List A
  keep p [] = []
  keep p (x ∷ xs) = let rest = keep p xs in if p x then x ∷ rest else rest

  abbrev pub any : (A → Bool) → List A → Bool
  any p [] = false
  any p (x ∷ xs) = p x || any p xs

  abbrev pub find : (A → Bool) → List A → Option A
  find p [] = none
  find p (x ∷ xs) = let rest = find p xs in if p x then some x else rest

  -- How many elements pass a test.
  abbrev pub count_if : (A → Bool) → List A → ℕ
  count_if p [] = 0
  count_if p (x ∷ xs) = (if p x then 1 else 0) + count_if p xs

  abbrev pub All {κ} : (A → Type κ) → List A → Type κ
  All P [] = Unit
  All P (x ∷ xs) = P x × All P xs

  pub any-append : (p : A → Bool) (xs ys : List A) → any p (xs ++ ys) ≡ (any p xs || any p ys)
  any-append p [] ys = refl
  any-append p (x ∷ xs) ys = ground (arith, any-append p xs ys)

  pub count_if-append :
      (p : A → Bool) (xs ys : List A) → count_if p (xs ++ ys) ≡ count_if p xs + count_if p ys
  count_if-append p [] ys = omega arith
  count_if-append p (x ∷ xs) ys = omega (arith, count_if-append p xs ys)

module _ {ℓ} {A : Type ℓ} where
  -- The index of the first element that passes, or the length.
  abbrev pub index_of : (A → Bool) → List A → ℕ
  index_of p [] = 0
  index_of p (x ∷ xs) = let rest = suc (index_of p xs) in if p x then 0 else rest

  -- The last element moved to the front, and the list one shorter.
  abbrev pub last_first : List A → List A
  last_first [] = []
  last_first (x ∷ []) = x ∷ []
  last_first (x ∷ y ∷ ys) = elim (last_first (y ∷ ys)) [ [] ↦ x ∷ [] | l ∷ rest ↦ l ∷ x ∷ rest ]

  -- Go's removal by index that does not keep the order: the last element takes the place of the
  -- i-th, and the slice is cut by one.
  abbrev pub remove_sub : List A → ℕ → List A
  remove_sub [] i = []
  remove_sub (x ∷ xs) zero = last_first xs
  remove_sub (x ∷ xs) (suc i) = x ∷ remove_sub xs i

  pub count_if-last_first :
      (p : A → Bool) (xs : List A) → count_if p (last_first xs) ≡ count_if p xs
  count_if-last_first p [] = refl
  count_if-last_first p (x ∷ []) = refl
  count_if-last_first p (x ∷ y ∷ ys) = ground (arith, count_if-last_first p (y ∷ ys))

  -- The removal of the first element that passes a test takes away that element and no other.
  pub count_if-remove_sub :
      (p q : A → Bool) (xs : List A) (a : A)
      → find q xs ≡ some a
      → count_if p (remove_sub xs (index_of q xs)) + (if p a then 1 else 0) ≡ count_if p xs
  count_if-remove_sub p q [] a h = cc
  count_if-remove_sub p q (x ∷ xs) a h =
      ground (arith, count_if-remove_sub p q xs a, count_if-last_first p xs)

module _ {ℓ κ} {A : Type ℓ} (P : A → Type κ) where
  pub All-append : (xs ys : List A) → All P xs → All P ys → All P (xs ++ ys)
  All-append [] ys hx hy = hy
  All-append (x ∷ xs) ys hx hy = (hx.0, All-append xs ys hx.1 hy)
