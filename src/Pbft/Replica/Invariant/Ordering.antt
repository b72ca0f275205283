-- ===== src/Pbft/Replica/Invariant/Ordering.antt =====
-- What holds of pbft/pbft.cpp's `handle_message` for the messages that order requests: one message, and
-- any sequence of them.
use swarm_db.Base.{◌≡◌, true, List, [], ◌∷◌, arith, Option-cases, inl, inr, All}
use swarm_db.Base.Equality.{◌==◌, ==_iff, string_eq, nat_eq}
use swarm_db.Base.Assoc.{lookup}
use swarm_db.Proto.{PbftMsg, PbftMsgType, Envelope}
use swarm_db.Pbft.External.{External}
use swarm_db.Pbft.Operation.{request_hash}
use swarm_db.Pbft.Replica.State.{
  Replica, Outcome, done, throws, request_seen, Action, ◌>>◌, emit, log_key_eq,
}
use swarm_db.Pbft.Replica.Messages.{
  log_key_of, handle_preprepare, is_ordering, preliminary_filter_msg, dispatch, report_request,
  handle_message,
}
use swarm_db.Pbft.Replica.Invariant.{
  IsOutside, Handled, Handled-continue, Returns-Handled, Returns-map, Handled-if, Inv, Evolves,
  Good, KeepsTable, StaysGood, Evolves-refl,
}
use swarm_db.Pbft.Replica.Invariant.Parts.{emit-Returns}
use swarm_db.Pbft.Replica.Invariant.Handlers.{
  accept_preprepare-Handled, handle_prepare-Handled, handle_commit-Handled,
}

module _ (ext : External) {s : Replica} where
  handle_preprepare-Handled :
      (msg : PbftMsg) (t : Replica)
      → Good ext s t
      → Handled ext s (StaysGood ext s) (handle_preprepare ext msg t)
  unfolding handle_preprepare
  handle_preprepare-Handled msg t g =
      elim (Option-cases (lookup (log_key_of msg) t.accepted_preprepares)) [
        | inl e ↦
            rw (e, handle_preprepare, Handled)
              (accept_preprepare-Handled ext msg t g
                λ j h. ground (arith, g.evolves.still_accepted (log_key_of msg) j h, e))
        | inr (key, e) ↦
            rw (e, handle_preprepare)
              (Handled-if ext s (StaysGood ext s) (key.hash == request_hash ext msg.request) _ _
                (λ same. accept_preprepare-Handled ext msg t g λ j h. ground (
                  arith,
                  g.evolves.still_accepted (log_key_of msg) j h,
                  e,
                  ==_iff key.hash (request_hash ext msg.request),
                  same,
                  g.inv.accepted (log_key_of msg) key e,
                ))
                (λ _. g))
      ]

  report_request-Handled :
      (msg : PbftMsg) (t : Replica)
      → Good ext s t
      → Handled ext s (StaysGood ext s) (report_request msg t)
  unfolding report_request
  report_request-Handled msg t g =
      Handled-if ext s (StaysGood ext s) msg.has_request _ _
        (λ _. Returns-Handled ext s (StaysGood ext s) (emit (request_seen msg.request ∷ []) t) (
          Returns-map (KeepsTable ext s t) (StaysGood ext s)
            (emit (request_seen msg.request ∷ []) t)
            (emit-Returns ext (request_seen msg.request ∷ []) t g (tt, tt)) λ _ u e. e.0))
        (λ _. g)

  dispatch-Handled :
      (msg : PbftMsg) (original_msg : Envelope) (type : PbftMsgType) (t : Replica)
      → is_ordering type ≡ true
      → Good ext s t
      → Handled ext s (StaysGood ext s) (dispatch ext msg original_msg type t)
  unfolding dispatch
  dispatch-Handled msg original_msg PbftMsgType.preprepare t h g = handle_preprepare-Handled msg t g
  dispatch-Handled msg original_msg PbftMsgType.prepare t h g =
      handle_prepare-Handled ext msg original_msg t g
  dispatch-Handled msg original_msg PbftMsgType.commit t h g =
      handle_commit-Handled ext msg original_msg t g
  dispatch-Handled msg original_msg PbftMsgType.checkpoint t h g = ground arith
  dispatch-Handled msg original_msg PbftMsgType.undefined t h g = ground arith

  handle_message-Handled :
      (msg : PbftMsg) (original_msg : Envelope) (t : Replica)
      → is_ordering msg.type ≡ true
      → Good ext s t
      → Handled ext s (StaysGood ext s) (handle_message ext msg original_msg t)
  unfolding handle_message
  handle_message-Handled msg original_msg t h g =
      Handled-if ext s (StaysGood ext s) (preliminary_filter_msg msg t) _ _
        (λ _.
          Handled-continue ext s (StaysGood ext s) (StaysGood ext s) (report_request msg t) _
            (report_request-Handled msg t g)
            λ _ u w. dispatch-Handled msg original_msg msg.type u h w)
        (λ _. g)

-- What is known of the state after an action, whether it returned or threw what came from outside.
abbrev pub Holds : External → (Replica → Type 0) → Outcome (Unit {0}) → Type 0
Holds ext P (done r t) = P t
Holds ext P (throws e t) = IsOutside ext e t × P t

Handled-Holds :
    (ext : External) (s : Replica) (o : Outcome (Unit {0}))
    → Handled ext s (StaysGood ext s) o
    → Holds ext (λ t. Inv ext t × Evolves s t) o
Handled-Holds ext s (done r t) g = (g.inv, g.evolves)
Handled-Holds ext s (throws e t) g = (g.0, (g.1.inv, g.1.evolves))

-- A replica with the invariant throws on a preprepare, prepare or commit nothing but what comes of a
-- current peer's host that is no IPv4 address or of JSON with a wrong type. Whether it throws or not, it
-- leaves the invariant true, keeps the view, the name, the water marks and all checkpoints, and every
-- preprepare that was accepted stays accepted for the same operation.
pub handle_message-Good :
    (ext : External) (msg : PbftMsg) (original_msg : Envelope) (s : Replica)
    → is_ordering msg.type ≡ true
    → Inv ext s
    → Holds ext (λ t. Inv ext t × Evolves s t) (handle_message ext msg original_msg s)
handle_message-Good ext msg original_msg s h i =
    Handled-Holds ext s (handle_message ext msg original_msg s) (
      handle_message-Handled ext msg original_msg s h
        (record { inv = i; evolves = Evolves-refl s }))

-- The messages that come in, one after the other, with the envelopes that they came in.
unfoldable pub handle_messages : External → List (PbftMsg × Envelope) → Action (Unit {0})
unfolding handle_message
handle_messages ext [] = λ s. done tt s
handle_messages ext ((msg, original_msg) ∷ ms) =
    handle_message ext msg original_msg >> handle_messages ext ms

handle_messages-Handled :
    (ext : External) {s : Replica} (ms : List (PbftMsg × Envelope)) (t : Replica)
    → All (λ m. is_ordering m.0.type ≡ true) ms
    → Good ext s t
    → Handled ext s (StaysGood ext s) (handle_messages ext ms t)
unfolding handle_messages
handle_messages-Handled ext [] t h g = g
handle_messages-Handled ext {s} ((msg, original_msg) ∷ ms) t h g =
    Handled-continue ext s (StaysGood ext s) (StaysGood ext s)
      (handle_message ext msg original_msg t) _
      (handle_message-Handled ext msg original_msg t h.0 g)
      λ _ u w. handle_messages-Handled ext ms u h.1 w

-- A replica with the invariant handles any sequence of preprepares, prepares and commits to its end, unless
-- a current peer's host that is no IPv4 address or JSON with a wrong type makes it throw. In
-- both cases the invariant holds afterwards, and what was accepted before is still accepted.
pub handle_messages-Good :
    (ext : External) (ms : List (PbftMsg × Envelope)) (s : Replica)
    → All (λ m. is_ordering m.0.type ≡ true) ms
    → Inv ext s
    → Holds ext (λ t. Inv ext t × Evolves s t) (handle_messages ext ms s)
handle_messages-Good ext ms s h i =
    Handled-Holds ext s (handle_messages ext ms s)
      (handle_messages-Handled ext ms s h (record { inv = i; evolves = Evolves-refl s }))
