-- ===== src/Pbft/Replica/Invariant/Handlers.antt =====
-- The handlers of preprepares, prepares and commits of pbft/pbft.cpp keep the invariant, whether they return or
-- throw what came from outside, and what is accepted stays accepted.
use swarm_db.Base.{◌≡◌, refl, sym, subst, ◌∙◌, ◌&&◌, some, arith, Option-cases, inl, inr}
use swarm_db.Base.Equality.{==_iff, string_eq}
use swarm_db.Base.Assoc.{lookup, lookup-put, lookup-put_cases}
use swarm_db.Proto.{PbftMsg, PbftMsgType, Envelope, configuration_of}
use swarm_db.Pbft.External.{External}
use swarm_db.Pbft.Operation.{
  Operation, OperationKey, get_operation_key, request_hash, record_preprepare, record_prepare,
  record_commit,
}
use swarm_db.Pbft.Operation.Phases.{Step, preprepared, prepared_by, committed_by, Step-IsSound}
use swarm_db.Pbft.Configuration.{new_configuration, from_string}
use swarm_db.Pbft.ConfigStore.Current.{add-HasCurrent}
use swarm_db.Pbft.Replica.State.{
  Replica, LogKey, from_sender, ◌>>=◌, ◌>>◌, broadcast_pbft, broadcast, store_operation,
  operation_key_eq, log_key_eq,
}
use swarm_db.Pbft.Replica.Operations.{
  find_operation, do_preprepared, maybe_advance_operation_state, is_new_config,
  common_message_setup,
}
use swarm_db.Pbft.Replica.Messages.{
  log_key_of, accept, accept_configuration, handle_config_message, maybe_config_message,
  accept_preprepare, handle_prepare, handle_commit,
}
use swarm_db.Pbft.Replica.Invariant.{
  Handled, Handled-continue, Returns-Handled, Handled-if, marks, Good, InTable, KeepsTable,
  StaysGood,
}
use swarm_db.Pbft.Replica.Invariant.Parts.{
  store_operation-Returns, broadcast-Handled, find_operation-Handled, set_configurations-Good,
}
use swarm_db.Pbft.Replica.Invariant.Advance.{maybe_advance_operation_state-Handled}

-- Recording a message changes neither the key nor the view and sequence number.
record_preprepare-key :
    (ext : External) (op : Operation)
    → get_operation_key ext (record_preprepare op) ≡ get_operation_key ext op
unfolding get_operation_key record_preprepare
record_preprepare-key ext op = refl

abbrev pub message_key : External → PbftMsg → OperationKey
message_key ext msg = record {
  view = msg.view;
  sequence = msg.sequence;
  hash = request_hash ext msg.request;
}

module _ (ext : External) {s : Replica} where
  accept-Handled :
      (k : LogKey) (op : Operation) (t : Replica)
      → Good ext s t
      → InTable ext op t
      → ((get_operation_key ext op).view ≡ k.view)
        × ((get_operation_key ext op).sequence ≡ k.sequence)
      → ((j : OperationKey)
          → lookup k s.accepted_preprepares ≡ some j
          → j ≡ get_operation_key ext op)
      → Handled ext s (λ r u. Good ext s u × InTable ext op u) (accept ext k op t)
  unfolding accept marks
  accept-Handled k op t g i fits same = (
    record {
      inv = record {
        keyed = g.inv.keyed;
        sound = g.inv.sound;
        accepted = λ j key e.
            elim (lookup-put_cases k j (get_operation_key ext op) t.accepted_preprepares key e) [
              | inl (kj, same_key) ↦ rw (sym kj, sym same_key) fits
              | inr old ↦ g.inv.accepted j key old
            ];
        configured = g.inv.configured;
        proper = g.inv.proper;
      };
      evolves = record {
        same_view = g.evolves.same_view;
        same_uuid = g.evolves.same_uuid;
        same_marks = g.evolves.same_marks;
        still_accepted = λ j key e. ground (
          arith,
          g.evolves.still_accepted j key e,
          same key,
          ==_iff k j,
          lookup-put k j (get_operation_key ext op) t.accepted_preprepares,
        );
      };
    },
    i,
  )

  accept_configuration-Handled :
      (op : Operation) (t : Replica)
      → Good ext s t
      → Handled ext s (KeepsTable ext {A = Unit {0}} s t) (accept_configuration ext op t)
  unfolding accept_configuration
  accept_configuration-Handled op t g =
      elim (Option-cases (from_string ext (configuration_of op.request) new_configuration)) [
        | inl e ↦ rw (e, accept_configuration) ((configuration_of op.request, e), g)
        | inr (r, e) ↦
            rw (e, accept_configuration)
              (Handled-if ext s (KeepsTable ext s t) r.0 _ _
                (λ _. (
                  set_configurations-Good ext _ t g
                      (add-HasCurrent r.1 t.configurations g.inv.configured),
                  refl,
                ))
                (λ _. (g, refl)))
      ]

  handle_config_message-Handled :
      (type : PbftMsgType) (op : Operation) (t : Replica)
      → Good ext s t
      → Handled ext s (KeepsTable ext {A = Unit {0}} s t) (handle_config_message ext type op t)
  unfolding handle_config_message
  handle_config_message-Handled PbftMsgType.preprepare op t g = accept_configuration-Handled op t g
  handle_config_message-Handled PbftMsgType.prepare op t g = (g, refl)
  handle_config_message-Handled PbftMsgType.commit op t g = (g, refl)
  handle_config_message-Handled PbftMsgType.checkpoint op t g = (g, refl)
  handle_config_message-Handled PbftMsgType.undefined op t g = (g, refl)

  maybe_config_message-Handled :
      (msg : PbftMsg) (op : Operation) (t : Replica)
      → Good ext s t
      → Handled ext s (KeepsTable ext {A = Unit {0}} s t) (maybe_config_message ext msg op t)
  unfolding maybe_config_message
  maybe_config_message-Handled msg op t g =
      Handled-if ext s (KeepsTable ext s t) (msg.has_request && is_new_config msg.request.type) _ _
        (λ _. handle_config_message-Handled msg.type op t g) (λ _. (g, refl))

  write_recorded-Handled :
      (op q : Operation) (t : Replica)
      → Good ext s t
      → InTable ext op t
      → Step op q
      → Handled ext s (λ r u. Good ext s u × (r ≡ q) × InTable ext q u) (store_operation ext q t)
  write_recorded-Handled op q t g i step = Returns-Handled ext s _ (store_operation ext q t) (
      store_operation-Returns ext q t g
        (Step-IsSound step (g.inv.sound (get_operation_key ext op) op i)))

  -- Recording a message and then advancing.
  record_and_advance-Handled :
      (op q : Operation) (t : Replica)
      → Good ext s t
      → InTable ext op t
      → Step op q
      → Handled ext s
          (StaysGood ext s)
          ((store_operation ext q >>= λ r. maybe_advance_operation_state ext r) t)
  record_and_advance-Handled op q t g i step =
      Handled-continue ext s _ (StaysGood ext s) (store_operation ext q t) _
        (write_recorded-Handled op q t g i step)
        λ r u w.
          maybe_advance_operation_state-Handled ext r u w.0
            (subst (λ o. InTable ext o u) (sym w.1) w.2)

  pub handle_prepare-Handled :
      (msg : PbftMsg) (original_msg : Envelope) (t : Replica)
      → Good ext s t
      → Handled ext s (StaysGood ext s) (handle_prepare ext msg original_msg t)
  unfolding handle_prepare
  handle_prepare-Handled msg original_msg t g =
      Handled-continue ext s _ (StaysGood ext s)
        (find_operation ext msg.view msg.sequence msg.request t) _
        (find_operation-Handled ext msg.view msg.sequence msg.request t g)
        λ op u w.
          record_and_advance-Handled op (record_prepare original_msg op) u w.0 w.1
            (prepared_by op original_msg)

  pub handle_commit-Handled :
      (msg : PbftMsg) (original_msg : Envelope) (t : Replica)
      → Good ext s t
      → Handled ext s (StaysGood ext s) (handle_commit ext msg original_msg t)
  unfolding handle_commit
  handle_commit-Handled msg original_msg t g =
      Handled-continue ext s _ (StaysGood ext s)
        (find_operation ext msg.view msg.sequence msg.request t) _
        (find_operation-Handled ext msg.view msg.sequence msg.request t g)
        λ op u w.
          record_and_advance-Handled op (record_commit original_msg op) u w.0 w.1
            (committed_by op original_msg)

  announce-Handled :
      (r : Operation) (v : Replica)
      → Good ext s v
      → InTable ext r v
      → Handled ext s
          (StaysGood ext s)
          ((do_preprepared ext r >> maybe_advance_operation_state ext r) v)
  unfolding do_preprepared broadcast_pbft
  announce-Handled r v g i =
      Handled-continue ext s _ (StaysGood ext s)
        (broadcast ext (from_sender v.uuid (common_message_setup ext r PbftMsgType.prepare)) v) _
        (broadcast-Handled ext _ v g)
        λ _ x b.
          maybe_advance_operation_state-Handled ext r x b.0
            (subst (λ m. lookup (get_operation_key ext r) m ≡ some r) (sym b.1) i)

  take_up-Handled :
      (msg : PbftMsg) (r : Operation) (v : Replica)
      → Good ext s v
      → InTable ext r v
      → get_operation_key ext r ≡ message_key ext msg
      → ((j : OperationKey)
          → lookup (log_key_of msg) s.accepted_preprepares ≡ some j
          → j ≡ message_key ext msg)
      → Handled ext s (StaysGood ext s) (
          (accept ext (log_key_of msg) r
              >> (maybe_config_message ext msg r
                  >> (do_preprepared ext r >> maybe_advance_operation_state ext r)))
            v)
  take_up-Handled msg r v g i k same =
      Handled-continue ext s _ (StaysGood ext s) (accept ext (log_key_of msg) r v) _
        (accept-Handled (log_key_of msg) r v g i (rw k (refl, refl)) (λ j e. same j e ∙ sym k))
        λ _ x a.
          Handled-continue ext s _ (StaysGood ext s) (maybe_config_message ext msg r x) _
            (maybe_config_message-Handled msg r x a.0)
            λ _ y c.
              announce-Handled r y c.0
                (subst (λ m. lookup (get_operation_key ext r) m ≡ some r) (sym c.1) a.1)

  -- An accepted preprepare is recorded and goes through; a second one does only for the same operation.
  pub accept_preprepare-Handled :
      (msg : PbftMsg) (t : Replica)
      → Good ext s t
      → ((j : OperationKey)
          → lookup (log_key_of msg) s.accepted_preprepares ≡ some j
          → j ≡ message_key ext msg)
      → Handled ext s (StaysGood ext s) (accept_preprepare ext msg t)
  unfolding accept_preprepare
  accept_preprepare-Handled msg t g same =
      Handled-continue ext s _ (StaysGood ext s)
        (find_operation ext msg.view msg.sequence msg.request t) _
        (find_operation-Handled ext msg.view msg.sequence msg.request t g)
        λ op u w.
          Handled-continue ext s
            (λ r v.
              Good ext s v × (r ≡ record_preprepare op) × InTable ext (record_preprepare op) v)
            (StaysGood ext s) (store_operation ext (record_preprepare op) u) _
            (write_recorded-Handled op (record_preprepare op) u w.0 w.1 (preprepared op))
            λ r v z.
              take_up-Handled msg r v z.0 (subst (λ o. InTable ext o v) (sym z.1) z.2)
                (rw z.1 (record_preprepare-key ext op ∙ w.2)) same
