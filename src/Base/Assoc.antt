-- ===== src/Base/Assoc.antt =====
-- Maps as association lists: `std::map` and `std::unordered_map`. `put` is `m[k] = v`, `lookup` is
-- `find`, `erase` is `erase(k)`. An entry keeps its place when it is overwritten, and a new one goes
-- to the end; a key stands in a map once.
pub mod Keys
pub mod Ordered
use mathlib.Core.Path.{◌≡◌, refl}
use mathlib.Core.Logic.{◌⊎◌}
use mathlib.Core.Bool.{Bool}
use mathlib.Core.Option.{Option, none, some}
use mathlib.Core.List.{List, [], ◌∷◌}
use native.Mathlib.Omega.{arith}
use swarm_db.Base.Tests.{if◌then◌else◌}
use swarm_db.Base.Lists.{All}
use swarm_db.Base.Equality.{Eq, ◌==◌, ==_iff, ==_refl}

abbrev pub Assoc {ℓ κ} : Type ℓ → Type κ → Type (ℓ ⊔ κ)
Assoc K V = List (K × V)

module _ {ℓ κ} {K : Type ℓ} {V : Type κ} ⦃e : Eq K⦄ where
  unfoldable pub lookup : K → Assoc K V → Option V
  lookup k [] = none
  lookup k ((j, v) ∷ m) = let rest = lookup k m in if j == k then some v else rest

  unfoldable pub put : K → V → Assoc K V → Assoc K V
  put k v [] = (k, v) ∷ []
  put k v ((j, w) ∷ m) = let rest = put k v m in if j == k then (k, v) ∷ m else (j, w) ∷ rest

  unfoldable pub erase : K → Assoc K V → Assoc K V
  erase k [] = []
  erase k ((j, w) ∷ m) = let rest = erase k m in if j == k then rest else (j, w) ∷ rest

  -- Erasing the entries whose key fails a test.
  unfoldable pub keep_keys : (K → Bool) → Assoc K V → Assoc K V
  keep_keys p [] = []
  keep_keys p ((j, w) ∷ m) = let rest = keep_keys p m in if p j then (j, w) ∷ rest else rest

  pub lookup-nil : (k : K) → lookup k [] ≡ none
  unfolding lookup
  lookup-nil k = refl

  pub lookup-put :
      (k j : K) (v : V) (m : Assoc K V)
      → lookup j (put k v m) ≡ (if k == j then some v else lookup j m)
  unfolding lookup put
  lookup-put k j v [] = refl
  lookup-put k j v ((i, w) ∷ m) =
      ground (arith, lookup-put k j v m, ==_iff i k, ==_iff i j, ==_iff k j)

  pub lookup-erase :
      (k j : K) (m : Assoc K V) → lookup j (erase k m) ≡ (if k == j then none else lookup j m)
  unfolding lookup erase
  lookup-erase k j [] = ground arith
  lookup-erase k j ((i, w) ∷ m) =
      ground (arith, lookup-erase k j m, ==_iff i k, ==_iff i j, ==_iff k j)

  pub lookup-keep_keys :
      (p : K → Bool) (j : K) (m : Assoc K V)
      → lookup j (keep_keys p m) ≡ (if p j then lookup j m else none)
  unfolding lookup keep_keys
  lookup-keep_keys p j [] = ground arith
  lookup-keep_keys p j ((i, w) ∷ m) = ground (arith, lookup-keep_keys p j m, ==_iff i j)

  pub lookup-put_self : (k : K) (v : V) (m : Assoc K V) → lookup k (put k v m) ≡ some v
  lookup-put_self k v m = ground (arith, lookup-put k k v m, ==_refl k)

  -- Where a value of an updated map comes from.
  pub lookup-put_cases :
      (k j : K) (v : V) (m : Assoc K V) (w : V)
      → lookup j (put k v m) ≡ some w
      → ((k ≡ j) × (v ≡ w)) ⊎ (lookup j m ≡ some w)
  lookup-put_cases k j v m w h = ground (arith, lookup-put k j v m, ==_iff k j)

module _ {ℓ κ μ} {K : Type ℓ} {V : Type κ} ⦃e : Eq K⦄ (P : K × V → Type μ) where
  -- A property of every entry holds of what is looked up, and is kept by a write that has it.
  pub All-lookup : (k : K) (v : V) (m : Assoc K V) → All P m → lookup k m ≡ some v → P (k, v)
  unfolding lookup
  All-lookup k v [] h l = ground arith
  All-lookup k v ((j, w) ∷ m) h l = ground (arith, All-lookup k v m h.1, h.0, ==_iff j k)

  pub All-put : (k : K) (v : V) (m : Assoc K V) → P (k, v) → All P m → All P (put k v m)
  unfolding put
  All-put k v [] p h = (p, tt)
  All-put k v ((j, w) ∷ m) p h = ground (arith, All-put k v m p h.1, h.0)
