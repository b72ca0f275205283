-- ===== src/Pbft/Replica/Invariant.antt =====
-- What a replica of pbft/pbft.cpp keeps true, whatever messages it handles, and how its state evolves.
pub mod Parts
pub mod Advance
pub mod Handlers
pub mod Start
pub mod Ordering
use swarm_db.Base.{
  ℕ, ◌+◌, ◌<◌, ◌≤◌, ◌≡◌, refl, Bool, true, false, ◌&&◌, if◌then◌else◌, Option, none, some, List, [],
  ◌∷◌, ◌++◌, String, All, arith, u64_mod,
}
use swarm_db.Base.Assoc.{Assoc, lookup}
use swarm_db.Pbft.Peers.{PeerAddress}
use swarm_db.Pbft.External.{External}
use swarm_db.Pbft.Configuration.{Configuration, new_configuration, from_string}
use swarm_db.Pbft.ConfigStore.{current}
use swarm_db.Pbft.Operation.{
  Operation, OperationKey, OperationState, committed, get_operation_key, is_committed,
}
use swarm_db.Pbft.Operation.Phases.{IsSound}
use swarm_db.Pbft.ConfigStore.Current.{HasCurrent}
use swarm_db.Pbft.Replica.State.{
  Replica, LogKey, Checkpoint, Output, send, forward, respond, request_seen, apply_operation, Fault,
  invalid_host, wrong_json_type, Outcome, done, throws, Action, continue, log_key_eq,
  operation_key_eq, checkpoint_eq,
}

-- An action returns rather than throws, and its result and the state after it are such.
abbrev pub Returns {ℓ} : {A : Type ℓ} → (A → Replica → Type 0) → Outcome A → Type 0
Returns Q (done a s) = Q a s
Returns Q (throws e s) = ⊥

pub Returns-continue {ℓ κ} :
    {A : Type ℓ} {B : Type κ} (R : A → Replica → Type 0) (Q : B → Replica → Type 0) (o : Outcome A)
    (f : A → Action B)
    → Returns R o
    → ((a : A) (s : Replica) → R a s → Returns Q (f a s))
    → Returns Q (continue o f)
Returns-continue R Q (done a s) f h k = k a s h
Returns-continue R Q (throws e s) f h k = absurd h

pub Returns-map {ℓ} :
    {A : Type ℓ} (R Q : A → Replica → Type 0) (o : Outcome A)
    → Returns R o
    → ((a : A) (s : Replica) → R a s → Q a s)
    → Returns Q o
Returns-map R Q (done a s) h k = k a s h
Returns-map R Q (throws e s) h k = absurd h

pub Returns-both {ℓ} :
    {A : Type ℓ} (P Q : A → Replica → Type 0) (o : Outcome A)
    → Returns P o
    → Returns Q o
    → Returns (λ a s. P a s × Q a s) o
Returns-both P Q (done a s) h k = (h, k)
Returns-both P Q (throws e s) h k = absurd h

pub Returns-if {ℓ} :
    {A : Type ℓ} (Q : A → Replica → Type 0) (b : Bool) (m n : Outcome A)
    → (b ≡ true → Returns Q m)
    → (b ≡ false → Returns Q n)
    → Returns Q (if b then m else n)
Returns-if Q true m n f g = f refl
Returns-if Q false m n f g = g refl

-- Every host is an address.
abbrev pub all_ipv4 : External → List PeerAddress → Bool
all_ipv4 ext [] = true
all_ipv4 ext (p ∷ ps) = ext.is_ipv4 p.host && all_ipv4 ext ps

-- What is thrown because of what came from outside: a host of a current peer is no address, or there is a text
-- whose JSON has a wrong type.
abbrev pub IsOutside : External → Fault → Replica → Type 0
IsOutside ext invalid_host t =
    (c : Configuration) × (current t.configurations ≡ some c)
    × (all_ipv4 ext c.sorted_peers ≡ false)
IsOutside ext wrong_json_type t = (text : String) × (from_string ext text new_configuration ≡ none)
IsOutside ext _ t = ⊥

-- Only committed operations go to the service.
abbrev pub IsProper : Output → Type 0
IsProper (apply_operation op) = (op.state ≡ committed) × (is_committed op ≡ true)
IsProper (send p m) = Unit {0}
IsProper (forward p m) = Unit {0}
IsProper (respond n r b) = Unit {0}
IsProper (request_seen r) = Unit {0}

-- The part of the state that the handlers of requests, preprepares, prepares and commits leave alone.
pub record Marks : Type 0 where
  pub low : ℕ
  pub high : ℕ
  pub stable : Checkpoint
  pub stable_proof : Assoc String String
  pub local : List Checkpoint
  pub proofs : Assoc Checkpoint (Assoc String String)

unfoldable pub marks : Replica → Marks
marks s = record {
  low = s.low_water_mark;
  high = s.high_water_mark;
  stable = s.stable_checkpoint;
  stable_proof = s.stable_checkpoint_proof;
  local = s.local_unstable_checkpoints;
  proofs = s.unstable_checkpoint_proofs;
}

module _ (ext : External) where
  -- Every operation stands under its own key and is sound, an accepted preprepare names an operation of
  -- its view and sequence number, there is a current configuration, and only committed operations have
  -- gone to the service.
  pub record Inv (s : Replica) : Type 0 where
    pub keyed : All (λ e. get_operation_key ext e.1 ≡ e.0) s.operations
    pub sound :
        (key : OperationKey) (op : Operation) → lookup key s.operations ≡ some op → IsSound op
    pub accepted :
        (k : LogKey) (key : OperationKey)
        → lookup k s.accepted_preprepares ≡ some key
        → (key.view ≡ k.view) × (key.sequence ≡ k.sequence)
    pub configured : HasCurrent s.configurations
    pub proper : All IsProper s.outputs

-- What is accepted stays accepted, for the same operation.
pub record Evolves (s t : Replica) : Type 0 where
  pub same_view : t.view ≡ s.view
  pub same_uuid : t.uuid ≡ s.uuid
  pub same_marks : marks t ≡ marks s
  pub still_accepted :
      (k : LogKey) (key : OperationKey)
      → lookup k s.accepted_preprepares ≡ some key
      → lookup k t.accepted_preprepares ≡ some key

pub Evolves-refl : (s : Replica) → Evolves s s
Evolves-refl s = record {
  same_view = refl;
  same_uuid = refl;
  same_marks = refl;
  still_accepted = λ k key h. h;
}

module _ (ext : External) where
  -- The states that an action may pass through on the way from `s`.
  pub record Good (s t : Replica) : Type 0 where
    pub inv : Inv ext t
    pub evolves : Evolves s t

  -- An action returns such a result and state, or throws what came from outside, and then too the state is one that it may pass through.
  abbrev pub Handled {ℓ} : {A : Type ℓ} → Replica → (A → Replica → Type 0) → Outcome A → Type 0
  Handled s Q (done a t) = Q a t
  Handled s Q (throws e t) = IsOutside ext e t × Good s t

  pub Handled-continue {ℓ κ} :
      {A : Type ℓ} {B : Type κ} (s : Replica) (R : A → Replica → Type 0) (Q : B → Replica → Type 0)
      (o : Outcome A) (f : A → Action B)
      → Handled s R o
      → ((a : A) (t : Replica) → R a t → Handled s Q (f a t))
      → Handled s Q (continue o f)
  Handled-continue s R Q (done a t) f h k = k a t h
  Handled-continue s R Q (throws e t) f h k = h

  pub Handled-if {ℓ} :
      {A : Type ℓ} (s : Replica) (Q : A → Replica → Type 0) (b : Bool) (m n : Outcome A)
      → (b ≡ true → Handled s Q m)
      → (b ≡ false → Handled s Q n)
      → Handled s Q (if b then m else n)
  Handled-if s Q true m n f g = f refl
  Handled-if s Q false m n f g = g refl

  pub Returns-Handled {ℓ} :
      {A : Type ℓ} (s : Replica) (Q : A → Replica → Type 0) (o : Outcome A)
      → Returns Q o
      → Handled s Q o
  Returns-Handled s Q (done a t) h = h
  Returns-Handled s Q (throws e t) h = absurd h

  -- The operation stands in the table under its key.
  abbrev pub InTable : Operation → Replica → Type 0
  InTable op t = lookup (get_operation_key ext op) t.operations ≡ some op

  -- An action that keeps the table of operations.
  abbrev pub KeepsTable : {A : Type 0} → Replica → Replica → A → Replica → Type 0
  KeepsTable s t r u = Good s u × (u.operations ≡ t.operations)

  -- The result is the operation of the same key, as it now stands in the table.
  abbrev pub Rewritten : Replica → Operation → Operation → Replica → Type 0
  Rewritten s op r u = Good s u × InTable r u × (get_operation_key ext r ≡ get_operation_key ext op)

  -- Nothing but the invariant.
  abbrev pub StaysGood : Replica → Unit {0} → Replica → Type 0
  StaysGood s r u = Good s u
