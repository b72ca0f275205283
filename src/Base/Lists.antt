-- ===== src/Base/Lists.antt =====
-- Lists measured by native numbers, under the names of the library.
use Prim.Native.Nat.{ℕ, zero, suc, ◌+◌, ◌≤◌}
use mathlib.Core.Path.{◌≡◌}
use mathlib.Core.Logic.{◌⊎◌, inl, inr}
use mathlib.Core.Bool.{Bool, true}
use mathlib.Core.Option.{Option, none, some}
use mathlib.Core.List.{List, [], ◌∷◌, ◌++◌}
use native.Mathlib.Omega.{arith}
use swarm_db.Base.Tests.{if◌then◌else◌}

module _ {ℓ} {A : Type ℓ} where
  abbrev pub length : List A → ℕ
  length [] = 0
  length (x ∷ xs) = suc (length xs)

  abbrev pub get_elem? : List A → ℕ → Option A
  get_elem? [] i = none
  get_elem? (x ∷ xs) zero = some x
  get_elem? (x ∷ xs) (suc i) = get_elem? xs i

  pub length-append : (xs ys : List A) → length (xs ++ ys) ≡ length xs + length ys
  length-append [] ys = omega arith
  length-append (x ∷ xs) ys = omega (arith, length-append xs ys)

  -- The elements that pass a Boolean test, in their order.
  unfoldable pub keep : (A → Bool) → List A → List A
  keep p [] = []
  keep p (x ∷ xs) = let rest = keep p xs in if p x then x ∷ rest else rest

  pub length-keep-le : (p : A → Bool) (xs : List A) → length (keep p xs) ≤ length xs
  unfolding keep
  length-keep-le p [] = omega arith
  length-keep-le p (x ∷ xs) = ground (arith, length-keep-le p xs)

  -- std::find_if: the first element that passes.
  unfoldable pub find_if : (A → Bool) → List A → Option A
  find_if p [] = none
  find_if p (x ∷ xs) = let rest = find_if p xs in if p x then some x else rest

  -- What is found passes the test.
  pub find_if_sound : (p : A → Bool) (xs : List A) (x : A) → find_if p xs ≡ some x → p x ≡ true
  unfolding find_if
  find_if_sound p [] x h = ground arith
  find_if_sound p (y ∷ ys) x h = ground (arith, find_if_sound p ys x)

-- A predicate of every element.
abbrev pub All {ℓ κ} : {A : Type ℓ} → (A → Type κ) → List A → Type κ
All P [] = Unit
All P (x ∷ xs) = P x × All P xs

-- An element stands in a list.
abbrev pub Among : {A : Type 0} → A → List A → Type 0
Among a [] = ⊥
Among a (x ∷ xs) = (x ≡ a) ⊎ Among a xs

module _ {ℓ κ} {A : Type ℓ} (P : A → Type κ) where
  pub All-append : (xs ys : List A) → All P xs → All P ys → All P (xs ++ ys)
  All-append [] ys hx hy = hy
  All-append (x ∷ xs) ys hx hy = (hx.0, All-append xs ys hx.1 hy)

module _ {A : Type 0} (a : A) where
  pub Among-append_left : (xs ys : List A) → Among a xs → Among a (xs ++ ys)
  Among-append_left [] ys h = elim h [ ]
  Among-append_left (x ∷ xs) ys (inl e) = inl e
  Among-append_left (x ∷ xs) ys (inr h) = inr (Among-append_left xs ys h)

  pub Among-append_right : (xs ys : List A) → Among a ys → Among a (xs ++ ys)
  Among-append_right [] ys h = h
  Among-append_right (x ∷ xs) ys h = inr (Among-append_right xs ys h)
