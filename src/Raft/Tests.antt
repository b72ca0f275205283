-- ===== src/Raft/Tests.antt =====
-- The log, the quorums and the handlers of Raft at small inputs, and their theorems there.
use swarm_db.Base.{
  ℕ, ◌+◌, ◌*◌, ◌<◌, ◌≡◌, refl, Bool, true, false, Option, none, some, List, [], ◌∷◌, ◌++◌, String,
  length, is_some, ◌⊎◌, arith, All,
}
use swarm_db.Base.Equality.{◌==◌, nat_eq, string_eq}
use swarm_db.Base.Assoc.{lookup, put}
use swarm_db.Base.Sets.{contains, insert, common, Distinct}
use swarm_db.Proto.{PeerInfo}
use swarm_db.Raft.Log.{
  database, single_quorum, joint_quorum, attached, EntryMessage, command, single_peers, joint_peers,
  LogEntry, RaftLog, find_last, last_quorum_entry, follower_insert_entry, size,
}
use swarm_db.Raft.Log.Sync.{follower_insert_entry-conflict}
use swarm_db.Raft.Quorum.{
  uuids, quorums, get_active_quorum, has_majorities, is_majority, stands_in, in_quorum,
  deduce_type_from_message,
}
use swarm_db.Raft.Quorum.Overlap.{Shared, none_single, is_majority-Change}
use swarm_db.Raft.State.{
  follower, leader, nothing, request_vote, response_vote, append_entries_reply, answers, Raft,
  touch,
}
use swarm_db.Raft.Replication.{
  insert_index, sort_indices, match_indices, median, least_median, touch_set, touch_all,
  last_majority_replicated_log_index, complete_change, commit_while,
}
use swarm_db.Raft.Replication.Majority.{reached, last_majority_replicated_log_index-reached}
use swarm_db.Raft.Replication.Commits.{commit_while_lem}
use swarm_db.Raft.Replication.Handed.{committed, Addressed}
use swarm_db.Raft.Elections.{refuse, add_to_quorum, handle_protocol_message}
use swarm_db.Raft.Elections.Changes.{
  IsNext, refusal, add_to_quorum-IsNext, complete_change-completes,
}
use swarm_db.Raft.Recovery.{new_raft}
use swarm_db.Raft.Recovery.Fresh.{new_raft-fresh}
use swarm_db.Raft.Elections.Votes.{handle_protocol_message-vote_again}

abbrev entry_size : LogEntry → ℕ
entry_size e = 10

abbrev to_text : EntryMessage → String
to_text m = "message"

abbrev is_ipv4 : String → Bool
is_ipv4 host = host == "127.0.0.1"

abbrev peer : String → PeerInfo
peer u = record { host = "127.0.0.1"; port = 1; http_port = 2; name = "n"; uuid = u }

abbrev three : List PeerInfo
three = peer "a" ∷ peer "b" ∷ peer "c" ∷ []

abbrev first : LogEntry
first = record { entry_type = single_quorum; log_index = 0; term = 0; msg = single_peers three }

abbrev second : LogEntry
second = record { entry_type = database; log_index = 1; term = 1; msg = command "x" }

abbrev third : LogEntry
third = record { entry_type = database; log_index = 2; term = 1; msg = command "y" }

abbrev log_of : List LogEntry → RaftLog
log_of es = record {
  log_entries = es;
  total_memory_used = length es * 10;
  maximum_storage = 1000;
  log_entry_out_stream = attached;
  file = some es;
}

abbrev short : RaftLog
short = log_of (first ∷ second ∷ [])

abbrev other : LogEntry
other = record { entry_type = database; log_index = 1; term = 2; msg = command "z" }

follower_insert_entry-conflict_example :
    (log : RaftLog) × (follower_insert_entry entry_size 1 other short ≡ some log)
    × (log.log_entries ≡ first ∷ other ∷ [])
    × (log.file ≡ none)
follower_insert_entry-conflict_example =
    follower_insert_entry-conflict entry_size 1 other second short refl refl (omega arith)

last_entry : last_quorum_entry short ≡ some first
unfolding last_quorum_entry find_last
last_entry = refl

abbrev votes : List String
votes = "a" ∷ "b" ∷ []

abbrev more_votes : List String
more_votes = "b" ∷ "c" ∷ []

votes_win : is_majority votes short ≡ some true
unfolding is_majority get_active_quorum last_quorum_entry find_last quorums uuids insert contains
    has_majorities common
votes_win = refl

more_votes_win : is_majority more_votes short ≡ some true
unfolding is_majority get_active_quorum last_quorum_entry find_last quorums uuids insert contains
    has_majorities common
more_votes_win = refl

votes-Distinct : Distinct votes
unfolding contains
votes-Distinct = (refl, (refl, tt))

more_votes-Distinct : Distinct more_votes
unfolding contains
more_votes-Distinct = (refl, (refl, tt))

is_majority-Change_example : Shared votes more_votes
unfolding deduce_type_from_message
is_majority-Change_example =
    is_majority-Change votes more_votes short short first first last_entry last_entry refl refl
      (none_single three) votes-Distinct more_votes-Distinct votes_win more_votes_win

abbrev raft : Raft
raft = record {
  current_state = leader;
  current_term = 3;
  yes_votes = votes;
  no_votes = [];
  voted_for = some "a";
  timer = nothing;
  last_log_term = 0;
  commit_index = 1;
  peer_match_index = ("a", 1) ∷ ("b", 2) ∷ ("c", 1) ∷ [];
  uuid = "a";
  leader = "a";
  raft_log = short;
  enable_audit = true;
  enable_peer_validation = false;
  in_a_swarm = true;
  outputs = [];
}

abbrev sets : List (List String)
sets = ("a" ∷ "b" ∷ "c" ∷ []) ∷ []

raft_sets : get_active_quorum short ≡ some sets
unfolding get_active_quorum last_quorum_entry find_last quorums uuids insert contains
raft_sets = refl

raft_index : last_majority_replicated_log_index raft ≡ some (2, raft)
unfolding last_majority_replicated_log_index get_active_quorum last_quorum_entry find_last quorums
    uuids insert contains touch_all touch_set touch lookup put least_median median match_indices
    sort_indices insert_index
raft_index = refl

last_majority_replicated_log_index-reached_example :
    All (λ s. length s < (length (reached raft.peer_match_index 2 s) + 1) * 2) sets
    × (raft ≡ record raft { peer_match_index = touch_all sets raft.peer_match_index })
last_majority_replicated_log_index-reached_example =
    last_majority_replicated_log_index-reached raft raft 2 sets raft_sets raft_index

raft_quorum : is_some (last_quorum_entry short) ≡ true
unfolding last_quorum_entry find_last
raft_quorum = refl

raft-Addressed : All (Addressed is_ipv4) short.log_entries
raft-Addressed = (
  record { single = (refl, (refl, (refl, tt))); old = tt; new = tt },
  (record { single = tt; old = tt; new = tt }, tt),
)

commit_while_lem_example :
    (r : Raft) × (commit_while entry_size to_text is_ipv4 1 2 raft ≡ some r)
    × (r.commit_index ≡ 2)
    × (committed r.outputs ≡ command "x" ∷ [])
    × ((more : List LogEntry) × (r.raft_log.log_entries ≡ (first ∷ second ∷ []) ++ more))
commit_while_lem_example =
    commit_while_lem entry_size to_text is_ipv4 1 2 raft raft_quorum raft-Addressed refl
      (omega arith) (omega arith)

known_sender : in_quorum "b" short ≡ some true
unfolding in_quorum get_active_quorum last_quorum_entry find_last quorums uuids insert contains
    stands_in
known_sender = refl

handle_protocol_message-vote_again_example :
    (s : Raft) × (t : Raft) × (handle_protocol_message entry_size to_text is_ipv4
        (append_entries_reply "b" 2 true 1)
        raft
      ≡ some s)
    × (s.current_term ≡ 2)
    × (s.current_state ≡ follower)
    × (s.voted_for ≡ none)
    × (handle_protocol_message entry_size to_text is_ipv4 (request_vote "b" 3 0 0) s ≡ some t)
    × (t.current_term ≡ 3)
    × (t.outputs ≡ answers (response_vote "a" 3 true) ∷ [])
handle_protocol_message-vote_again_example =
    handle_protocol_message-vote_again entry_size to_text is_ipv4
      (append_entries_reply "b" 2 true 1) "b" "b" 2 0 0 raft refl known_sender known_sender
      (omega arith)

abbrev always_valid : PeerInfo → Option String
always_valid p = none

add_to_quorum-IsNext_example :
    ((text : String) × (refusal always_valid (peer "d") three raft ≡ some text)
      × (add_to_quorum entry_size always_valid (peer "d") first raft ≡ refuse text raft))
    ⊎ ((refusal always_valid (peer "d") three raft ≡ none)
        × IsNext three (peer "d") 3 (add_to_quorum entry_size always_valid (peer "d") first raft))
add_to_quorum-IsNext_example =
    add_to_quorum-IsNext entry_size always_valid (peer "d") three 0 0 raft refl

complete_change-completes_example :
    (e : LogEntry) × (last_quorum_entry
        (complete_change entry_size
          (record {
            entry_type = joint_quorum;
            log_index = 1;
            term = 1;
            msg = joint_peers three (peer "d" ∷ []);
          })
          raft).raft_log
      ≡ some e)
    × (e.entry_type ≡ single_quorum)
    × (e.msg ≡ single_peers (peer "d" ∷ []))
    × (e.term ≡ 3)
complete_change-completes_example =
    complete_change-completes entry_size three (peer "d" ∷ []) 1 1 raft refl

new_raft-fresh_example :
    (r : Raft) × (new_raft entry_size three "a" 1000 false none ≡ some r)
    × (get_active_quorum r.raft_log ≡ some (uuids three ∷ []))
    × (r.commit_index ≡ size r.raft_log)
    × (r.raft_log.file ≡ some r.raft_log.log_entries)
new_raft-fresh_example =
    new_raft-fresh entry_size (peer "a") (peer "b" ∷ peer "c" ∷ []) "a" 1000 false (omega arith)
