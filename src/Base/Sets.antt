-- ===== src/Base/Sets.antt =====
-- `std::set` and `std::unordered_set` of values with equality, as lists without repetition, and how
-- large two subsets of one list and their common part are.
use Prim.Native.Nat.{◌+◌, ◌≤◌}
use mathlib.Core.Path.{◌≡◌, refl}
use mathlib.Core.Logic.{inl, inr}
use mathlib.Core.Bool.{Bool, true, false}
use mathlib.Core.List.{List, [], ◌∷◌}
use native.Mathlib.Omega.{arith}
use swarm_db.Base.Tests.{if◌then◌else◌, Bool-cases}
use swarm_db.Base.Lists.{length}
use swarm_db.Base.Equality.{Eq, ◌==◌, ==_iff}

module _ {ℓ} {A : Type ℓ} ⦃e : Eq A⦄ where
  unfoldable pub contains : A → List A → Bool
  contains a [] = false
  contains a (x ∷ xs) = let rest = contains a xs in if x == a then true else rest

  -- set::insert
  unfoldable pub insert : A → List A → List A
  insert a xs = if contains a xs then xs else a ∷ xs

  -- set::erase of a value
  unfoldable pub without : A → List A → List A
  without a [] = []
  without a (x ∷ xs) = let rest = without a xs in if x == a then rest else x ∷ rest

  abbrev pub Distinct : List A → Type 0
  Distinct [] = Unit {0}
  Distinct (x ∷ xs) = (contains x xs ≡ false) × Distinct xs

  -- Every element of the one list stands in the other.
  abbrev pub Subset : List A → List A → Type 0
  Subset [] ys = Unit {0}
  Subset (x ∷ xs) ys = (contains x ys ≡ true) × Subset xs ys

  -- The elements of the second list that stand in the first.
  unfoldable pub common : List A → List A → List A
  common xs [] = []
  common xs (y ∷ ys) = let rest = common xs ys in if contains y xs then y ∷ rest else rest

  pub insert-Distinct : (a : A) (xs : List A) → Distinct xs → Distinct (insert a xs)
  unfolding insert
  insert-Distinct a xs h = ground arith

  pub contains-insert :
      (a b : A) (xs : List A) → contains b (insert a xs) ≡ (if a == b then true else contains b xs)
  unfolding insert contains
  contains-insert a b xs = ground (arith, ==_iff a b)

  pub length-insert-le : (a : A) (xs : List A) → length xs ≤ length (insert a xs)
  unfolding insert
  length-insert-le a xs = ground arith

  pub contains-without :
      (a b : A) (xs : List A)
      → contains b (without a xs) ≡ (if a == b then false else contains b xs)
  unfolding without contains
  contains-without a b [] = ground arith
  contains-without a b (x ∷ xs) =
      ground (arith, contains-without a b xs, ==_iff x a, ==_iff x b, ==_iff a b)

  without_absent : (a : A) (xs : List A) → contains a xs ≡ false → length (without a xs) ≡ length xs
  unfolding without contains
  without_absent a [] h = refl
  without_absent a (x ∷ xs) h = ground (arith, without_absent a xs)

  without-Distinct : (a : A) (xs : List A) → Distinct xs → Distinct (without a xs)
  unfolding without
  without-Distinct a [] h = tt
  without-Distinct a (x ∷ xs) h = ground (arith, without-Distinct a xs h.1, contains-without a x xs)

  length-without :
      (a : A) (xs : List A)
      → Distinct xs
      → contains a xs ≡ true
      → length (without a xs) + 1 ≡ length xs
  unfolding without contains
  length-without a [] d h = ground arith
  length-without a (x ∷ xs) d h =
      ground (arith, length-without a xs d.1, without_absent a xs, ==_iff x a)

  Subset-without :
      (a : A) (xs zs : List A) → contains a xs ≡ false → Subset xs zs → Subset xs (without a zs)
  unfolding contains
  Subset-without a [] zs n h = tt
  Subset-without a (x ∷ xs) zs n h =
      ground (arith, Subset-without a xs zs, contains-without a x zs, ==_iff x a, ==_iff a x, h.1)

  -- The pigeonhole principle: distinct elements of a list are at most as many as the list is long.
  pub length-le_of_Subset :
      (xs zs : List A) → Distinct xs → Distinct zs → Subset xs zs → length xs ≤ length zs
  length-le_of_Subset [] zs d e h = omega arith
  length-le_of_Subset (x ∷ xs) zs d e h = omega (
    arith,
    length-without x zs e h.0,
    length-le_of_Subset xs (without x zs) d.1 (without-Distinct x zs e)
        (Subset-without x xs zs d.0 h.1),
  )

  common_absent :
      (a : A) (xs ys : List A)
      → contains a ys ≡ false
      → length (common (a ∷ xs) ys) ≡ length (common xs ys)
  unfolding common contains
  common_absent a xs [] h = refl
  common_absent a xs (y ∷ ys) h = ground (arith, common_absent a xs ys, ==_iff a y, ==_iff y a)

  -- Two sets of distinct elements of a list overlap in what they have too many.
  pub common_overlap :
      (xs ys zs : List A)
      → Distinct xs
      → Distinct ys
      → Distinct zs
      → Subset xs zs
      → Subset ys zs
      → length xs + length ys ≤ length zs + length (common xs ys)
  unfolding common
  common_overlap xs [] zs dx dy dz hx hy = omega (arith, length-le_of_Subset xs zs dx dz hx)
  common_overlap xs (y ∷ ys) zs dx dy dz hx hy = elim (Bool-cases (contains y xs)) [
    | inl old ↦ rw old (omega (arith, common_overlap xs ys zs dx dy.1 dz hx hy.1))
    | inr new ↦ rw new (
        omega (
          arith,
          common_absent y xs ys dy.0,
          common_overlap (y ∷ xs) ys zs (new, dx) dy.1 dz (hy.0, hx) hy.1,
        ))
  ]

  -- What is common stands in both.
  pub common_sound :
      (a : A) (xs ys : List A)
      → contains a (common xs ys) ≡ true
      → (contains a xs ≡ true) × (contains a ys ≡ true)
  unfolding common contains
  common_sound a xs [] h = ground arith
  common_sound a xs (y ∷ ys) h = ground (arith, common_sound a xs ys, ==_iff y a)
