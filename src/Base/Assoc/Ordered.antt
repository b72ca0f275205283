-- ===== src/Base/Assoc/Ordered.antt =====
-- `std::map` from numbers in its order: the entries by rising key, so that `begin()` is the lowest.
use Prim.Native.Nat.{ℕ, ◌≤◌, ◌<◌, min}
use mathlib.Core.Path.{◌≡◌, refl}
use mathlib.Core.Option.{none, some}
use mathlib.Core.List.{[], ◌∷◌}
use native.Mathlib.Omega.{arith}
use swarm_db.Base.Tests.{ltb, if◌then◌else◌}
use swarm_db.Base.Lists.{All, length}
use swarm_db.Base.Equality.{◌==◌, nat_eq}
use swarm_db.Base.Assoc.{Assoc, lookup}

module _ {ℓ} {V : Type ℓ} where
  -- m[k] = v
  unfoldable pub put_ordered : ℕ → V → Assoc ℕ V → Assoc ℕ V
  put_ordered k v [] = (k, v) ∷ []
  put_ordered k v ((j, w) ∷ m) =
      let rest = put_ordered k v m in
      if ltb k j then (k, v) ∷ (j, w) ∷ m else if j == k then (k, v) ∷ m else (j, w) ∷ rest

  -- while (m.size() > n) m.erase(m.begin())
  unfoldable pub erase_lowest : ℕ → Assoc ℕ V → Assoc ℕ V
  erase_lowest n [] = []
  erase_lowest n (e ∷ m) =
      let rest = erase_lowest n m in if ltb n (length (e ∷ m)) then rest else e ∷ m

  abbrev pub IsOrdered : Assoc ℕ V → Type 0
  IsOrdered [] = Unit {0}
  IsOrdered ((k, v) ∷ m) = All (λ e. k < e.0) m × IsOrdered m

  pub lookup-put_ordered :
      (k j : ℕ) (v : V) (m : Assoc ℕ V)
      → lookup j (put_ordered k v m) ≡ (if k == j then some v else lookup j m)
  unfolding lookup put_ordered
  lookup-put_ordered k j v [] = refl
  lookup-put_ordered k j v ((i, w) ∷ m) = ground (arith, lookup-put_ordered k j v m)

  All-lower : (i k : ℕ) (m : Assoc ℕ V) → i ≤ k → All (λ e. k < e.0) m → All (λ e. i < e.0) m
  All-lower i k [] h a = tt
  All-lower i k ((j, w) ∷ m) h a = ground (arith, All-lower i k m h a.1, a.0)

  All-put_ordered :
      (i k : ℕ) (v : V) (m : Assoc ℕ V)
      → i < k
      → All (λ e. i < e.0) m
      → All (λ e. i < e.0) (put_ordered k v m)
  unfolding put_ordered
  All-put_ordered i k v [] h a = (h, tt)
  All-put_ordered i k v ((j, w) ∷ m) h a = ground (arith, All-put_ordered i k v m h a.1, a.0, a.1)

  pub put_ordered-IsOrdered :
      (k : ℕ) (v : V) (m : Assoc ℕ V) → IsOrdered m → IsOrdered (put_ordered k v m)
  unfolding put_ordered
  put_ordered-IsOrdered k v [] h = (tt, tt)
  put_ordered-IsOrdered k v ((j, w) ∷ m) h =
      ground
        (arith, put_ordered-IsOrdered k v m h.1, All-put_ordered j k v m, All-lower k j m, h.0, h.1)

  pub erase_lowest-IsOrdered : (n : ℕ) (m : Assoc ℕ V) → IsOrdered m → IsOrdered (erase_lowest n m)
  unfolding erase_lowest
  erase_lowest-IsOrdered n [] h = tt
  erase_lowest-IsOrdered n (e ∷ m) h = ground (arith, erase_lowest-IsOrdered n m h.1, h.0, h.1)

  -- As many entries are left as there were, or as are allowed.
  pub length-erase_lowest : (n : ℕ) (m : Assoc ℕ V) → length (erase_lowest n m) ≡ min (length m) n
  unfolding erase_lowest
  length-erase_lowest n [] = omega arith
  length-erase_lowest n (e ∷ m) = ground (arith, length-erase_lowest n m)

  lookup_below : (k j : ℕ) (m : Assoc ℕ V) → k ≤ j → All (λ e. j < e.0) m → lookup k m ≡ none
  unfolding lookup
  lookup_below k j [] h a = refl
  lookup_below k j ((i, w) ∷ m) h a = ground (arith, lookup_below k j m h a.1, a.0)

  -- What is left is as it was, and what was erased has a lower key than what is left.
  pub lookup-erase_lowest :
      (n k : ℕ) (v : V) (m : Assoc ℕ V)
      → IsOrdered m
      → lookup k (erase_lowest n m) ≡ some v
      → lookup k m ≡ some v
  unfolding lookup erase_lowest
  lookup-erase_lowest n k v [] h found = found
  lookup-erase_lowest n k v ((j, w) ∷ m) h found =
      ground (arith, lookup-erase_lowest n k v m h.1, lookup_below k j m, h.0)

  pub erased_lower :
      (n k j : ℕ) (v w : V) (m : Assoc ℕ V)
      → IsOrdered m
      → lookup k m ≡ some v
      → lookup k (erase_lowest n m) ≡ none
      → lookup j (erase_lowest n m) ≡ some w
      → k < j
  unfolding lookup erase_lowest
  erased_lower n k j v w [] h old gone left = ground arith
  erased_lower n k j v w ((i, u) ∷ m) h old gone left = ground (
    arith,
    erased_lower n k j v w m h.1,
    lookup-erase_lowest n j w m h.1,
    lookup_below j i m,
    h.0,
  )
