-- ===== src/Pbft/Operation/Phases.antt =====
-- The phases of an operation: whatever calls are made on it, in whatever order, a phase is entered only
-- on the evidence that PBFT wants for it, and never left again.
use swarm_db.Base.{ℕ, ◌≡◌, sym, subst, true, false, some, List, arith}
use swarm_db.Base.Equality.{string_eq}
use swarm_db.Base.Sets.{Distinct, insert-Distinct, length-insert-le}
use swarm_db.Proto.{PbftRequest, Envelope}
use swarm_db.Pbft.Peers.{PeerAddress}
use swarm_db.Pbft.Operation.{
  Operation, OperationState, prepare, commit, committed, new_operation, record_preprepare,
  record_prepare, record_commit, set_session, faulty_nodes_bound, is_prepared, is_committed,
  begin_commit_phase, end_commit_phase, in_prepare,
}

-- One call that does not throw.
pub data Step : Operation → Operation → Type 0 where
  preprepared : (op : Operation) → Step op (record_preprepare op)
  prepared_by : (op : Operation) (msg : Envelope) → Step op (record_prepare msg op)
  committed_by : (op : Operation) (msg : Envelope) → Step op (record_commit msg op)
  listens : (op : Operation) (session : ℕ) → Step op (set_session session op)
  begins : (op q : Operation) → begin_commit_phase op ≡ some q → Step op q
  ends : (op q : Operation) → end_commit_phase op ≡ some q → Step op q

pub data Reach (p : Operation) : Operation → Type 0 where
  here : Reach p p
  next : {q r : Operation} → Reach p q → Step q r → Reach p r

-- The evidence of the phase that the operation is in.
abbrev pub Evidence : OperationState → Operation → Type 0
Evidence prepare op = Unit {0}
Evidence commit op = is_prepared op ≡ true
Evidence committed op = is_committed op ≡ true

-- Nobody is counted twice, and the phase has its evidence.
pub record IsSound (op : Operation) : Type 0 where
  pub prepares : Distinct op.prepares_seen
  pub commits : Distinct op.commits_seen
  pub evidence : Evidence op.state op

pub new_operation-IsSound :
    (view sequence : ℕ) (request : PbftRequest) (peers : List PeerAddress)
    → IsSound (new_operation view sequence request peers)
unfolding new_operation
new_operation-IsSound view sequence request peers = record {
  prepares = tt;
  commits = tt;
  evidence = tt;
}

-- The operation stays the same one, and what it was prepared or committed for stays so.
pub record Advances (p q : Operation) : Type 0 where
  pub same_view : q.view ≡ p.view
  pub same_sequence : q.sequence ≡ p.sequence
  pub same_request : q.request ≡ p.request
  pub same_peers : q.peers ≡ p.peers
  pub stays_prepared : is_prepared p ≡ true → is_prepared q ≡ true
  pub stays_committed : is_committed p ≡ true → is_committed q ≡ true
  pub past_prepare : in_prepare p.state ≡ false → in_prepare q.state ≡ false
  pub past_commit : p.state ≡ committed → q.state ≡ committed

Step-Advances : {p q : Operation} → Step p q → Advances p q
unfolding record_preprepare record_prepare record_commit set_session begin_commit_phase
    end_commit_phase is_prepared is_committed faulty_nodes_bound
Step-Advances (preprepared op) = ground arith
Step-Advances (prepared_by op msg) = ground (arith, length-insert-le msg.sender op.prepares_seen)
Step-Advances (committed_by op msg) = ground (arith, length-insert-le msg.sender op.commits_seen)
Step-Advances (listens op session) = ground arith
Step-Advances (begins op q e) = ground arith
Step-Advances (ends op q e) = ground arith

-- Along any calls the operation keeps its view, sequence number, request and peers, a prepared one stays
-- prepared and a committed one committed, and it goes back neither to the prepare phase nor from the
-- last phase.
pub Reach-Advances : {p q : Operation} → Reach p q → Advances p q
Reach-Advances here = ground arith
Reach-Advances (next r s) = ground (arith, Reach-Advances r, Step-Advances s)

Evidence-mono : (s : OperationState) {p q : Operation} → Advances p q → Evidence s p → Evidence s q
Evidence-mono prepare a h = tt
Evidence-mono commit a h = a.stays_prepared h
Evidence-mono committed a h = a.stays_committed h

-- What the two throwing methods check and write.
pub begin_commit_phase_checks :
    (op q : Operation)
    → begin_commit_phase op ≡ some q
    → (is_prepared op ≡ true) × (op.state ≡ prepare) × (q ≡ record op { state = commit })
unfolding begin_commit_phase
begin_commit_phase_checks op q e = ground arith

pub end_commit_phase_checks :
    (op q : Operation)
    → end_commit_phase op ≡ some q
    → (is_committed op ≡ true) × (op.state ≡ commit) × (q ≡ record op { state = committed })
unfolding end_commit_phase
end_commit_phase_checks op q e = ground arith

pub Step-IsSound : {p q : Operation} → Step p q → IsSound p → IsSound q
unfolding record_preprepare record_prepare record_commit set_session is_prepared is_committed
    faulty_nodes_bound
Step-IsSound (preprepared op) h = record {
  prepares = h.prepares;
  commits = h.commits;
  evidence = Evidence-mono op.state (Step-Advances (preprepared op)) h.evidence;
}
Step-IsSound (prepared_by op msg) h = record {
  prepares = insert-Distinct msg.sender op.prepares_seen h.prepares;
  commits = h.commits;
  evidence = Evidence-mono op.state (Step-Advances (prepared_by op msg)) h.evidence;
}
Step-IsSound (committed_by op msg) h = record {
  prepares = h.prepares;
  commits = insert-Distinct msg.sender op.commits_seen h.commits;
  evidence = Evidence-mono op.state (Step-Advances (committed_by op msg)) h.evidence;
}
Step-IsSound (listens op session) h = record {
  prepares = h.prepares;
  commits = h.commits;
  evidence = Evidence-mono op.state (Step-Advances (listens op session)) h.evidence;
}
Step-IsSound (begins op q e) h =
    let c = begin_commit_phase_checks op q e in
    subst IsSound (sym c.2) (record { prepares = h.prepares; commits = h.commits; evidence = c.0 })
Step-IsSound (ends op q e) h =
    let c = end_commit_phase_checks op q e in
    subst IsSound (sym c.2) (record { prepares = h.prepares; commits = h.commits; evidence = c.0 })

-- Whatever calls a new operation has seen, no sender is counted twice, it is in the commit phase only if
-- it is prepared, and committed only if it is committed by its messages.
pub Reach-IsSound :
    (view sequence : ℕ) (request : PbftRequest) (peers : List PeerAddress) {q : Operation}
    → Reach (new_operation view sequence request peers) q
    → IsSound q
Reach-IsSound v n r ps here = new_operation-IsSound v n r ps
Reach-IsSound v n r ps (next a s) = Step-IsSound s (Reach-IsSound v n r ps a)
