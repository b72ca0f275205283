-- ===== src/Pbft/Replica/Operations.antt =====
-- pbft/pbft.cpp: finding an operation, and what happens when one becomes prepared or committed.
use swarm_db.Base.{ℕ, Bool, true, false, ◌&&◌, Option, none, some, [], ◌∷◌, String, if◌then◌else◌}
use swarm_db.Base.Assoc.{lookup}
use swarm_db.Proto.{
  PbftMsg, PbftMsgType, PbftRequest, RequestType, pbft_commit, has_config, configuration_of,
}
use swarm_db.Pbft.External.{External}
use swarm_db.Pbft.Operation.{
  Operation, OperationKey, new_operation, is_prepared, is_committed, in_prepare, in_commit,
  begin_commit_phase, end_commit_phase, request_hash,
}
use swarm_db.Pbft.Configuration.{new_configuration, get_hash, from_string}
use swarm_db.Pbft.ConfigStore.{enable, remove_prior_to}
use swarm_db.Pbft.Replica.State.{
  illegal_commit_phase, illegal_end_phase, apply_operation, audit, wrong_json_type, done, throws,
  Action, continue, ◌>>=◌, ◌>>◌, pure, raise, current_peers, emit, broadcast, broadcast_pbft,
  store_operation, operation_key_eq,
}

abbrev pub is_new_config : RequestType → Bool
is_new_config RequestType.new_config = true
is_new_config _ = false

abbrev pub enable_requested : Option String → Action (Unit {0})
enable_requested none s = done tt s
enable_requested (some hash) s =
    done tt (record s { configurations = (enable hash true s.configurations).1 })

abbrev pub commit_requested : Option String → Action (Unit {0})
commit_requested none s = done tt s
commit_requested (some hash) s =
    done tt (record s { configurations = (remove_prior_to hash s.configurations).1 })

module _ (ext : External) where
  -- A replica makes a record of an operation when it first hears of it.
  unfoldable pub find_operation : ℕ → ℕ → PbftRequest → Action Operation
  unfolding current_peers store_operation
  find_operation view sequence request s =
      let key : OperationKey = record {
        view = view;
        sequence = sequence;
        hash = request_hash ext request;
      } in
      elim (lookup key s.operations) [
        | some op ↦ done op s
        | none ↦
            continue (current_peers s)
              (λ peers. store_operation ext (new_operation view sequence request peers))
      ]

  abbrev pub common_message_setup : Operation → PbftMsgType → PbftMsg
  common_message_setup op type = record {
    type = type;
    view = op.view;
    sequence = op.sequence;
    has_request = true;
    request = op.request;
    state_hash = "";
  }

  -- The hash that the configuration in a request reads as, if the request has one that reads well.
  unfoldable pub requested_configuration : PbftRequest → Action (Option String)
  requested_configuration request s =
      if is_new_config request.type && has_config request
      then elim (from_string ext (configuration_of request) new_configuration) [
        | none ↦ throws wrong_json_type s
        | some r ↦ done (if r.0 then some (get_hash r.1) else none) s
      ]
      else done none s

  unfoldable pub enable_configuration : Operation → Action (Unit {0})
  unfolding requested_configuration
  enable_configuration op = do hash ← requested_configuration op.request; enable_requested hash

  unfoldable pub commit_configuration : Operation → Action (Unit {0})
  unfolding requested_configuration
  commit_configuration op = do hash ← requested_configuration op.request; commit_requested hash

  unfoldable pub enter_commit_phase : Operation → Action Operation
  unfolding store_operation
  enter_commit_phase op = elim (begin_commit_phase op) [
    | none ↦ raise illegal_commit_phase
    | some op' ↦ store_operation ext op'
  ]

  unfoldable pub leave_commit_phase : Operation → Action Operation
  unfolding store_operation
  leave_commit_phase op = elim (end_commit_phase op) [
    | none ↦ raise illegal_end_phase
    | some op' ↦ store_operation ext op'
  ]

  unfoldable pub do_preprepare : Operation → Action (Unit {0})
  unfolding broadcast_pbft
  do_preprepare op = broadcast_pbft ext (common_message_setup op PbftMsgType.preprepare)

  unfoldable pub do_preprepared : Operation → Action (Unit {0})
  unfolding broadcast_pbft
  do_preprepared op = broadcast_pbft ext (common_message_setup op PbftMsgType.prepare)

  unfoldable pub do_prepared : Operation → Action Operation
  unfolding enable_configuration enter_commit_phase broadcast_pbft
  do_prepared op = do
    enable_configuration op
    op' ← enter_commit_phase op
    broadcast_pbft ext (common_message_setup op' PbftMsgType.commit)
    pure op'

  -- The audit message of a commit, if audit is on.
  unfoldable pub audit_commit : Operation → Action (Unit {0})
  unfolding broadcast
  audit_commit op s =
      if s.audit_enabled
      then broadcast ext (audit (pbft_commit s.uuid op.sequence (request_hash ext op.request))) s
      else done tt s

  unfoldable pub do_committed : Operation → Action (Unit {0})
  unfolding commit_configuration leave_commit_phase audit_commit find_operation emit
  do_committed op = do
    commit_configuration op
    op' ← leave_commit_phase op
    audit_commit op'
    found ← find_operation op'.view op'.sequence op'.request
    emit (apply_operation found ∷ [])

  unfoldable pub advance_prepared : Operation → Action Operation
  unfolding do_prepared
  advance_prepared op = if in_prepare op.state && is_prepared op then do_prepared op else pure op

  unfoldable pub advance_committed : Operation → Action (Unit {0})
  unfolding do_committed
  advance_committed op = if in_commit op.state && is_committed op then do_committed op else pure tt

  unfoldable pub maybe_advance_operation_state : Operation → Action (Unit {0})
  unfolding advance_prepared advance_committed
  maybe_advance_operation_state op = do op' ← advance_prepared op; advance_committed op'
