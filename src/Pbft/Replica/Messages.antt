-- ===== src/Pbft/Replica/Messages.antt =====
-- pbft/pbft.cpp: the handlers of messages between replicas.
use swarm_db.Base.{Bool, true, false, not, ◌&&◌, none, some, [], ◌∷◌, leb, ltb, if◌then◌else◌}
use swarm_db.Base.Equality.{◌==◌, nat_eq, string_eq}
use swarm_db.Base.Assoc.{lookup, put}
use swarm_db.Proto.{PbftMsg, PbftMsgType, Envelope, configuration_of}
use swarm_db.Pbft.External.{External}
use swarm_db.Pbft.Operation.{
  Operation, record_preprepare, record_prepare, record_commit, request_hash, get_operation_key,
}
use swarm_db.Pbft.Configuration.{new_configuration, from_string}
use swarm_db.Pbft.ConfigStore.{add}
use swarm_db.Pbft.Replica.State.{
  Replica, LogKey, log_key_eq, unsupported_message_type, request_seen, wrong_json_type, done,
  throws, Action, ◌>>=◌, ◌>>◌, pure, raise, emit, store_operation,
}
use swarm_db.Pbft.Replica.Operations.{
  is_new_config, find_operation, do_preprepared, maybe_advance_operation_state,
}
use swarm_db.Pbft.Replica.Checkpoints.{handle_checkpoint}

abbrev pub is_ordering : PbftMsgType → Bool
is_ordering PbftMsgType.preprepare = true
is_ordering PbftMsgType.prepare = true
is_ordering PbftMsgType.commit = true
is_ordering _ = false

unfoldable pub preliminary_filter_msg : PbftMsg → Replica → Bool
preliminary_filter_msg msg s =
    if is_ordering msg.type
    then if not (msg.view == s.view)
      then false
      else if leb msg.sequence s.low_water_mark
      then false
      else if ltb s.high_water_mark msg.sequence
      then false
      else true
    else true

abbrev pub log_key_of : PbftMsg → LogKey
log_key_of msg = record { view = msg.view; sequence = msg.sequence }

-- failure_detector->request_seen
unfoldable pub report_request : PbftMsg → Action (Unit {0})
unfolding emit
report_request msg s = if msg.has_request then emit (request_seen msg.request ∷ []) s else done tt s

module _ (ext : External) where
  -- accepted_preprepares[log_key] = op->get_operation_key()
  unfoldable pub accept : LogKey → Operation → Action (Unit {0})
  accept key op s = done tt (record s {
    accepted_preprepares = put key (get_operation_key ext op) s.accepted_preprepares;
  })

  -- Every configuration that reads well is acceptable.
  unfoldable pub accept_configuration : Operation → Action (Unit {0})
  accept_configuration op s =
      elim (from_string ext (configuration_of op.request) new_configuration) [
        | none ↦ throws wrong_json_type s
        | some r ↦
            if r.0
            then done tt (record s { configurations = (add r.1 s.configurations).1 })
            else done tt s
      ]

  -- Only a preprepare has anything done for it.
  unfoldable pub handle_config_message : PbftMsgType → Operation → Action (Unit {0})
  unfolding accept_configuration
  handle_config_message PbftMsgType.preprepare op = accept_configuration op
  handle_config_message _ op = pure tt

  unfoldable pub maybe_config_message : PbftMsg → Operation → Action (Unit {0})
  unfolding handle_config_message
  maybe_config_message msg op s =
      if msg.has_request && is_new_config msg.request.type
      then handle_config_message msg.type op s
      else done tt s

  unfoldable pub accept_preprepare : PbftMsg → Action (Unit {0})
  unfolding find_operation store_operation accept maybe_config_message do_preprepared
      maybe_advance_operation_state
  accept_preprepare msg = do
    op ← find_operation ext msg.view msg.sequence msg.request
    op' ← store_operation ext (record_preprepare op)
    accept (log_key_of msg) op'
    maybe_config_message msg op'
    do_preprepared ext op'
    maybe_advance_operation_state ext op'

  unfoldable pub handle_preprepare : PbftMsg → Action (Unit {0})
  unfolding accept_preprepare
  handle_preprepare msg s = elim (lookup (log_key_of msg) s.accepted_preprepares) [
    | none ↦ accept_preprepare msg s
    | some key ↦
        if key.hash == request_hash ext msg.request then accept_preprepare msg s else done tt s
  ]

  unfoldable pub handle_prepare : PbftMsg → Envelope → Action (Unit {0})
  unfolding find_operation store_operation maybe_advance_operation_state
  handle_prepare msg original_msg = do
    op ← find_operation ext msg.view msg.sequence msg.request
    op' ← store_operation ext (record_prepare original_msg op)
    maybe_advance_operation_state ext op'

  unfoldable pub handle_commit : PbftMsg → Envelope → Action (Unit {0})
  unfolding find_operation store_operation maybe_advance_operation_state
  handle_commit msg original_msg = do
    op ← find_operation ext msg.view msg.sequence msg.request
    op' ← store_operation ext (record_commit original_msg op)
    maybe_advance_operation_state ext op'

  -- The switch on the type of a message.
  unfoldable pub dispatch : PbftMsg → Envelope → PbftMsgType → Action (Unit {0})
  unfolding handle_preprepare handle_prepare handle_commit handle_checkpoint
  dispatch msg original_msg PbftMsgType.preprepare = handle_preprepare msg
  dispatch msg original_msg PbftMsgType.prepare = handle_prepare msg original_msg
  dispatch msg original_msg PbftMsgType.commit = handle_commit msg original_msg
  dispatch msg original_msg PbftMsgType.checkpoint = handle_checkpoint ext msg original_msg
  dispatch msg original_msg PbftMsgType.undefined = raise unsupported_message_type

  unfoldable pub handle_message : PbftMsg → Envelope → Action (Unit {0})
  unfolding preliminary_filter_msg report_request dispatch
  handle_message msg original_msg s =
      if preliminary_filter_msg msg s
      then (report_request msg >> dispatch msg original_msg msg.type) s
      else done tt s
