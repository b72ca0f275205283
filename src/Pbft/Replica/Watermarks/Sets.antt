-- ===== src/Pbft/Replica/Watermarks/Sets.antt =====
-- The set of checkpoints, the proofs of one and the operations of pbft/pbft.cpp, before and after they are
-- cleared.
use swarm_db.Base.{
  ℕ, ◌+◌, ◌<◌, ◌≡◌, refl, Bool, true, none, List, [], ◌∷◌, String, u64_mod, arith, keep, leb, add64,
  if◌then◌else◌, All,
}
use swarm_db.Base.Equality.{◌==◌, ==_iff, string_eq, nat_eq}
use swarm_db.Base.Assoc.{Assoc, lookup, put}
use swarm_db.Base.Sets.{Distinct, contains}
use swarm_db.Pbft.External.{External}
use swarm_db.Pbft.Operation.{Operation, OperationKey, get_operation_key}
use swarm_db.Pbft.Replica.State.{Checkpoint, checkpoint_eq, operation_key_eq}
use swarm_db.Pbft.Replica.Checkpoints.{checkpoint_lt, insert_checkpoint, is_newer, operations_after}
use swarm_db.Pbft.Replica.Watermarks.{senders}

pub contains-insert_checkpoint :
    (a b : Checkpoint) (xs : List Checkpoint)
    → contains b (insert_checkpoint a xs) ≡ (if a == b then true else contains b xs)
unfolding contains insert_checkpoint
contains-insert_checkpoint a b [] = ground arith
contains-insert_checkpoint a b (x ∷ xs) =
    ground (arith, contains-insert_checkpoint a b xs, ==_iff a b, ==_iff x b, ==_iff x a)

pub contains-keep :
    (p : Checkpoint → Bool) (b : Checkpoint) (xs : List Checkpoint)
    → contains b (keep p xs) ≡ true
    → contains b xs ≡ true
unfolding contains keep
contains-keep p b [] h = ground arith
contains-keep p b (x ∷ xs) h = ground (arith, contains-keep p b xs)

-- What is newer has a higher sequence number.
pub is_newer_sound :
    (cp x : Checkpoint)
    → cp.sequence + 1 < u64_mod
    → is_newer cp x ≡ true
    → cp.sequence < x.sequence
unfolding is_newer checkpoint_lt add64
is_newer_sound cp x h n = ground arith

contains-senders :
    (k j v : String) (m : Assoc String String)
    → contains j (senders (put k v m)) ≡ (if k == j then true else contains j (senders m))
unfolding contains senders put
contains-senders k j v [] = ground arith
contains-senders k j v ((i, w) ∷ m) =
    ground (arith, contains-senders k j v m, ==_iff k j, ==_iff i j, ==_iff i k)

-- A sender's second proof takes the place of the first.
pub put-Distinct :
    (k v : String) (m : Assoc String String) → Distinct (senders m) → Distinct (senders (put k v m))
unfolding contains senders put
put-Distinct k v [] h = (refl, tt)
put-Distinct k v ((j, w) ∷ m) h =
    ground (arith, put-Distinct k v m h.1, contains-senders k j v m, ==_iff j k, ==_iff k j, h.0)

module _ (ext : External) where
  -- Clearing takes exactly the operations with a sequence number up to the checkpoint's.
  pub lookup-operations_after :
      (n : ℕ) (key : OperationKey) (ops : Assoc OperationKey Operation)
      → All (λ e. get_operation_key ext e.1 ≡ e.0) ops
      → lookup key (operations_after n ops) ≡ (if leb key.sequence n then none else lookup key ops)
  unfolding lookup operations_after get_operation_key
  lookup-operations_after n key [] h = ground arith
  lookup-operations_after n key ((k, op) ∷ ops) h =
      ground (arith, lookup-operations_after n key ops h.1, h.0, ==_iff k key)

  pub operations_after-keyed :
      (n : ℕ) (ops : Assoc OperationKey Operation)
      → All (λ e. get_operation_key ext e.1 ≡ e.0) ops
      → All (λ e. get_operation_key ext e.1 ≡ e.0) (operations_after n ops)
  unfolding operations_after
  operations_after-keyed n [] h = tt
  operations_after-keyed n ((k, op) ∷ ops) h = ground (arith, operations_after-keyed n ops h.1, h.0)
