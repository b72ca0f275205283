-- ===== src/Base/Assoc/Keys.antt =====
-- Maps that have each key once, as `std::map` and `std::unordered_map` do, and loops that change or erase
-- their entries one by one.
use mathlib.Core.Path.{◌≡◌, refl}
use mathlib.Core.Logic.{◌⊎◌}
use mathlib.Core.Option.{Option, none, some}
use mathlib.Core.List.{[], ◌∷◌}
use native.Mathlib.Omega.{arith}
use swarm_db.Base.Tests.{if◌then◌else◌}
use swarm_db.Base.Equality.{Eq, ◌==◌, ==_iff}
use swarm_db.Base.Assoc.{Assoc, lookup, put, erase, lookup-put, lookup-erase, lookup-nil}

module _ {ℓ κ} {K : Type ℓ} {V : Type κ} where
  -- What a step of the loop leaves of an entry, in front of what it leaves of the others.
  unfoldable pub entry_or_none : K → Option V → Assoc K V → Assoc K V
  entry_or_none k none rest = rest
  entry_or_none k (some v) rest = (k, v) ∷ rest

  -- A loop over the entries that erases those for which the function gives `none` and changes the
  -- others to what it gives.
  unfoldable pub change_values : (V → Option V) → Assoc K V → Assoc K V
  unfolding entry_or_none
  change_values f [] = []
  change_values f ((k, v) ∷ m) = entry_or_none k (f v) (change_values f m)

module _ {ℓ κ} {K : Type ℓ} {V : Type κ} ⦃e : Eq K⦄ where
  abbrev pub KeysOnce : Assoc K V → Type κ
  KeysOnce [] = Unit
  KeysOnce ((k, v) ∷ m) = (lookup k m ≡ none) × KeysOnce m

  pub put-KeysOnce : (k : K) (v : V) (m : Assoc K V) → KeysOnce m → KeysOnce (put k v m)
  unfolding put
  put-KeysOnce k v [] h = (lookup-nil k, tt)
  put-KeysOnce k v ((j, w) ∷ m) h =
      ground (arith, put-KeysOnce k v m h.1, lookup-put k j v m, ==_iff j k, ==_iff k j)

  pub erase-KeysOnce : (k : K) (m : Assoc K V) → KeysOnce m → KeysOnce (erase k m)
  unfolding erase
  erase-KeysOnce k [] h = tt
  erase-KeysOnce k ((j, w) ∷ m) h =
      ground (arith, erase-KeysOnce k m h.1, lookup-erase k j m, ==_iff j k, ==_iff k j)

  pub lookup-entry_or_none :
      (k j : K) (o : Option V) (m : Assoc K V)
      → lookup j (entry_or_none k o m)
        ≡ (elim o [ none ↦ lookup j m | some v ↦ if k == j then some v else lookup j m ])
  unfolding lookup entry_or_none
  lookup-entry_or_none k j none m = refl
  lookup-entry_or_none k j (some v) m = refl

abbrev pub and_then {ℓ κ} : {A : Type ℓ} {B : Type κ} → Option A → (A → Option B) → Option B
and_then none f = none
and_then (some a) f = f a

module _ {ℓ κ} {K : Type ℓ} {V : Type κ} ⦃e : Eq K⦄ (f : V → Option V) where
  lookup-change_none :
      (k : K) (m : Assoc K V) → lookup k m ≡ none → lookup k (change_values f m) ≡ none
  unfolding lookup change_values
  lookup-change_none k [] h = refl
  lookup-change_none k ((j, v) ∷ m) h = ground (
    arith,
    lookup-entry_or_none j k (f v) (change_values f m),
    lookup-change_none k m,
    ==_iff j k,
  )

  -- Looking a key up after the loop.
  pub lookup-change_values :
      (k : K) (m : Assoc K V) → KeysOnce m → lookup k (change_values f m) ≡ and_then (lookup k m) f
  unfolding lookup change_values
  lookup-change_values k [] h = refl
  lookup-change_values k ((j, v) ∷ m) h = ground (
    arith,
    lookup-change_values k m h.1,
    lookup-entry_or_none j k (f v) (change_values f m),
    lookup-change_none k m,
    h.0,
    ==_iff j k,
  )

  pub change_values-KeysOnce : (m : Assoc K V) → KeysOnce m → KeysOnce (change_values f m)
  unfolding change_values entry_or_none
  change_values-KeysOnce [] h = tt
  change_values-KeysOnce ((j, v) ∷ m) h =
      ground (arith, change_values-KeysOnce m h.1, lookup-change_none j m h.0)

module _ {ℓ κ} {K : Type ℓ} {V : Type κ} ⦃e : Eq K⦄ where
  -- What is found behind an entry is found in front of it too, where keys stand once.
  pub lookup-behind :
      (j k : K) (v w : V) (m : Assoc K V)
      → lookup j m ≡ none
      → lookup k m ≡ some w
      → lookup k ((j, v) ∷ m) ≡ some w
  unfolding lookup
  lookup-behind j k v w m absent found = ground (arith, ==_iff j k)

  pub lookup-first : (k : K) (v : V) (m : Assoc K V) → lookup k ((k, v) ∷ m) ≡ some v
  unfolding lookup
  lookup-first k v m = ground (arith, ==_iff k k)

  -- Whether a value is found at the first entry or behind it.
  pub lookup_cases :
      (j k : K) (v : V) (m : Assoc K V)
      → ((j ≡ k) × (lookup k ((j, v) ∷ m) ≡ some v)) ⊎ (lookup k ((j, v) ∷ m) ≡ lookup k m)
  unfolding lookup
  lookup_cases j k v m = ground (arith, ==_iff j k)
