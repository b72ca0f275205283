-- ===== src/Pbft/Replica/Invariant/Advance.antt =====
-- Advancing an operation, in pbft/pbft.cpp, keeps the invariant: it never meets the exceptions of the two
-- phases, though it may throw what came from outside, and what it hands to the service is committed.
use swarm_db.Base.{
  ◌≡◌, refl, sym, subst, true, ◌&&◌, Option, none, some, String, [], ◌∷◌, arith, Option-cases,
  Bool-cases, inl, inr,
}
use swarm_db.Base.Assoc.{lookup}
use swarm_db.Proto.{PbftMsgType, PbftRequest, has_config, configuration_of}
use swarm_db.Pbft.Configuration.{new_configuration, from_string}
use swarm_db.Pbft.External.{External}
use swarm_db.Pbft.Operation.{
  Operation, OperationState, commit, committed, get_operation_key, is_prepared, is_committed,
  in_prepare, faulty_nodes_bound, in_commit, begin_commit_phase, end_commit_phase,
}
use swarm_db.Pbft.Operation.Phases.{Step-IsSound, begins, ends}
use swarm_db.Pbft.ConfigStore.Current.{enable-HasCurrent, remove_prior_to-HasCurrent}
use swarm_db.Pbft.Replica.State.{
  Replica, apply_operation, from_sender, continue, ◌>>=◌, ◌>>◌, emit, broadcast, broadcast_pbft,
  operation_key_eq,
}
use swarm_db.Pbft.Replica.Operations.{
  is_new_config, find_operation, requested_configuration, enable_requested, commit_requested,
  enable_configuration, commit_configuration, enter_commit_phase, leave_commit_phase, do_prepared,
  audit_commit, do_committed, advance_prepared, advance_committed, maybe_advance_operation_state,
  common_message_setup,
}
use swarm_db.Pbft.Replica.Invariant.{
  Handled, Handled-continue, Returns-Handled, Returns-map, Handled-if, IsProper, Good, InTable,
  KeepsTable, Rewritten, StaysGood,
}
use swarm_db.Pbft.Replica.Invariant.Parts.{
  store_operation-Returns, emit-Returns, broadcast-Handled, set_configurations-Good,
  find_operation_found,
}

begin_total :
    (op : Operation)
    → (in_prepare op.state && is_prepared op) ≡ true
    → begin_commit_phase op ≡ some (record op { state = commit })
unfolding begin_commit_phase
begin_total op h = ground arith

end_total :
    (op : Operation)
    → (in_commit op.state && is_committed op) ≡ true
    → end_commit_phase op ≡ some (record op { state = committed })
unfolding end_commit_phase
end_total op h = ground arith

-- The phase is no part of the key or of the tests.
key_of_state :
    (ext : External) (op : Operation) (st : OperationState)
    → get_operation_key ext (record op { state = st }) ≡ get_operation_key ext op
unfolding get_operation_key
key_of_state ext op st = refl

is_committed-state :
    (op : Operation) (st : OperationState)
    → is_committed (record op { state = st }) ≡ is_committed op
unfolding is_committed is_prepared faulty_nodes_bound
is_committed-state op st = refl

module _ (ext : External) {s : Replica} where
  requested_configuration-Handled :
      (request : PbftRequest) (t : Replica)
      → Good ext s t
      → Handled ext s (λ o u. u ≡ t) (requested_configuration ext request t)
  unfolding requested_configuration
  requested_configuration-Handled request t g =
      Handled-if ext s (λ o u. u ≡ t) (is_new_config request.type && has_config request) _ _
        (λ _. elim (Option-cases (from_string ext (configuration_of request) new_configuration)) [
          | inl e ↦ rw e ((configuration_of request, e), g)
          | inr (r, e) ↦ rw e refl
        ])
        (λ _. refl)

  enable_requested-Handled :
      (o : Option String) (t : Replica)
      → Good ext s t
      → Handled ext s (KeepsTable ext {A = Unit {0}} s t) (enable_requested o t)
  enable_requested-Handled none t g = (g, refl)
  enable_requested-Handled (some hash) t g = (
    set_configurations-Good ext _ t g
        (enable-HasCurrent hash true t.configurations g.inv.configured),
    refl,
  )

  commit_requested-Handled :
      (o : Option String) (t : Replica)
      → Good ext s t
      → Handled ext s (KeepsTable ext {A = Unit {0}} s t) (commit_requested o t)
  commit_requested-Handled none t g = (g, refl)
  commit_requested-Handled (some hash) t g = (
    set_configurations-Good ext _ t g
        (remove_prior_to-HasCurrent hash t.configurations g.inv.configured),
    refl,
  )

  enable_configuration-Handled :
      (op : Operation) (t : Replica)
      → Good ext s t
      → Handled ext s (KeepsTable ext {A = Unit {0}} s t) (enable_configuration ext op t)
  unfolding enable_configuration
  enable_configuration-Handled op t g =
      Handled-continue ext s (λ o u. u ≡ t) (KeepsTable ext s t)
        (requested_configuration ext op.request t) enable_requested
        (requested_configuration-Handled op.request t g)
        λ o u same. rw same (enable_requested-Handled o t g)

  commit_configuration-Handled :
      (op : Operation) (t : Replica)
      → Good ext s t
      → Handled ext s (KeepsTable ext {A = Unit {0}} s t) (commit_configuration ext op t)
  unfolding commit_configuration
  commit_configuration-Handled op t g =
      Handled-continue ext s (λ o u. u ≡ t) (KeepsTable ext s t)
        (requested_configuration ext op.request t) commit_requested
        (requested_configuration-Handled op.request t g)
        λ o u same. rw same (commit_requested-Handled o t g)

  enter_commit_phase-Handled :
      (op : Operation) (t : Replica)
      → Good ext s t
      → InTable ext op t
      → (in_prepare op.state && is_prepared op) ≡ true
      → Handled ext s (Rewritten ext s op) (enter_commit_phase ext op t)
  unfolding enter_commit_phase
  enter_commit_phase-Handled op t g i h =
      let q = record op { state = commit } in
      let e = begin_total op h in
      let w =
        store_operation-Returns ext q t g
          (Step-IsSound (begins op q e) (g.inv.sound (get_operation_key ext op) op i)) in
      rw (e, enter_commit_phase, Handled) (w.0, w.2, key_of_state ext op commit)

  -- Leaving the commit phase, the operation is committed.
  leave_commit_phase-Handled :
      (op : Operation) (t : Replica)
      → Good ext s t
      → InTable ext op t
      → (in_commit op.state && is_committed op) ≡ true
      → Handled ext s
          (λ r u. Rewritten ext s op r u × IsProper (apply_operation r))
          (leave_commit_phase ext op t)
  unfolding leave_commit_phase
  leave_commit_phase-Handled op t g i h =
      let q = record op { state = committed } in
      let e = end_total op h in
      let w =
        store_operation-Returns ext q t g
          (Step-IsSound (ends op q e) (g.inv.sound (get_operation_key ext op) op i)) in
      rw (e, leave_commit_phase, Handled)
        (
          (w.0, w.2, key_of_state ext op committed),
          (refl, ground (arith, is_committed-state op committed)),
        )

  do_prepared-Handled :
      (op : Operation) (t : Replica)
      → Good ext s t
      → InTable ext op t
      → (in_prepare op.state && is_prepared op) ≡ true
      → Handled ext s (Rewritten ext s op) (do_prepared ext op t)
  unfolding do_prepared broadcast_pbft
  do_prepared-Handled op t g i h =
      Handled-continue ext s _ _ (enable_configuration ext op t) _
        (enable_configuration-Handled op t g)
        λ _ u k.
          Handled-continue ext s _ _ (enter_commit_phase ext op u) _
            (enter_commit_phase-Handled op u k.0
              (subst (λ m. lookup (get_operation_key ext op) m ≡ some op) (sym k.1) i) h)
            λ q v w.
              Handled-continue ext s _ _
                (broadcast ext (from_sender v.uuid (common_message_setup ext q PbftMsgType.commit))
                  v)
                _ (broadcast-Handled ext _ v w.0)
                λ _ x b.
                  (b.0, subst (λ m. lookup (get_operation_key ext q) m ≡ some q) (sym b.1) w.1, w.2)

  audit_commit-Handled :
      (op : Operation) (t : Replica)
      → Good ext s t
      → Handled ext s (KeepsTable ext {A = Unit {0}} s t) (audit_commit ext op t)
  unfolding audit_commit
  audit_commit-Handled op t g =
      Handled-if ext s _ t.audit_enabled _ _ (λ _. broadcast-Handled ext _ t g) (λ _. (g, refl))

  -- The operation that goes to the service is the one in the table.
  hand_over-Handled :
      (q : Operation) (x : Replica)
      → Good ext s x
      → InTable ext q x
      → IsProper (apply_operation q)
      → Handled ext s (StaysGood ext s) (
          continue
            (find_operation ext q.view q.sequence q.request x)
            (λ found. emit (apply_operation found ∷ [])))
  hand_over-Handled q x g i h = rw (find_operation_found ext q x i) (
      Returns-Handled ext s (StaysGood ext s) (emit (apply_operation q ∷ []) x) (
        Returns-map (KeepsTable ext s x) (StaysGood ext s) (emit (apply_operation q ∷ []) x)
          (emit-Returns ext (apply_operation q ∷ []) x g (h, tt)) λ _ y e. e.0))

  do_committed-Handled :
      (op : Operation) (t : Replica)
      → Good ext s t
      → InTable ext op t
      → (in_commit op.state && is_committed op) ≡ true
      → Handled ext s (StaysGood ext s) (do_committed ext op t)
  unfolding do_committed
  do_committed-Handled op t g i h =
      Handled-continue ext s (KeepsTable ext s t) (StaysGood ext s) (commit_configuration ext op t)
        _ (commit_configuration-Handled op t g)
        λ _ u k.
          Handled-continue ext s (λ r v. Rewritten ext s op r v × IsProper (apply_operation r))
            (StaysGood ext s) (leave_commit_phase ext op u)
            (λ q.
              audit_commit ext q
              >> (find_operation ext q.view q.sequence q.request >>= λ found.
                  emit (apply_operation found ∷ [])))
            (leave_commit_phase-Handled op u k.0
              (subst (λ m. lookup (get_operation_key ext op) m ≡ some op) (sym k.1) i) h)
            λ q v w.
              Handled-continue ext s (KeepsTable ext s v) (StaysGood ext s) (audit_commit ext q v) _
                (audit_commit-Handled q v w.0.0)
                λ _ x b.
                  hand_over-Handled q x b.0
                    (subst (λ m. lookup (get_operation_key ext q) m ≡ some q) (sym b.1) w.0.1) w.1

  advance_prepared-Handled :
      (op : Operation) (t : Replica)
      → Good ext s t
      → InTable ext op t
      → Handled ext s (Rewritten ext s op) (advance_prepared ext op t)
  unfolding advance_prepared
  advance_prepared-Handled op t g i = elim (Bool-cases (in_prepare op.state && is_prepared op)) [
    | inl e ↦ rw (e, advance_prepared, Handled) (do_prepared-Handled op t g i e)
    | inr e ↦ rw (e, advance_prepared, Handled) (g, i, refl)
  ]

  advance_committed-Handled :
      (op : Operation) (t : Replica)
      → Good ext s t
      → InTable ext op t
      → Handled ext s (StaysGood ext s) (advance_committed ext op t)
  unfolding advance_committed
  advance_committed-Handled op t g i = elim (Bool-cases (in_commit op.state && is_committed op)) [
    | inl e ↦ rw (e, advance_committed, Handled) (do_committed-Handled op t g i e)
    | inr e ↦ rw (e, advance_committed, Handled) g
  ]

  pub maybe_advance_operation_state-Handled :
      (op : Operation) (t : Replica)
      → Good ext s t
      → InTable ext op t
      → Handled ext s (StaysGood ext s) (maybe_advance_operation_state ext op t)
  unfolding maybe_advance_operation_state
  maybe_advance_operation_state-Handled op t g i =
      Handled-continue ext s _ _ (advance_prepared ext op t) _ (advance_prepared-Handled op t g i)
        λ q u w. advance_committed-Handled q u w.0 w.1
