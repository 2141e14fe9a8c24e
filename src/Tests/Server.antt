-- ===== src/Tests/Server.antt =====
-- The block server's theorems at one small write to an empty database.
use slsfs.Backend.Connection.{Connection, start_request, on_answer, find_request}
use slsfs.Backend.Connection.Answers.{answer_reaches_its_request}
use slsfs.Bytes.{Bytes}
use slsfs.Ssbd.Key.Distinct.{IsKey, as_string-injective, as_string-IsKey}
use slsfs.Ssbd.Node.Simulation.{start_read_header_refines}
use slsfs.Text.{to_string}
use slsfs.Ssbd.Protocol.Track.{step_lift, run-track}
use slsfs.Ssbd.Protocol.Safety.{busy_block_aborts, other_blocks_untouched, start_read_header_safe}
use slsfs.Ssbd.Node.Refine.{placed, seen}
use slsfs.Ssbd.Protocol.Commit.{step-prepare, staged, step-rollback, step-commit}
use slsfs.Ssbd.Block.Content.{written}
use slsfs.Ssbd.Protocol.{track, run}
use slsfs.Ssbd.Key.{as_string}
use slsfs.Ssbd.Protocol.Write.{
  is_pending-staged, content-staged, rolled_back_write, transaction_runs, committed_write,
  transaction, Agreed,
}
use slsfs.Tests.{
  header_of-IsHeader, header_of, get_a, rollback_a, valid_a, commit_a, written_a, prepare_a, empty,
  memory,
}
use slsfs.Ssbd.Node.View.{view}
use slsfs.Ssbd.Kv.{bytes_or_empty}
use slsfs.Ssbd.Log.View.{is_pending}
use slsfs.Prelude.{
  true, ◌∷◌, ap, ◌∙◌, sym, ◌≢◌, ◌++◌, ap₂, arith, ◌^◌, ◌<◌, ◌≡◌, List, length, refl, inl, false,
  some, [], ℕ,
}
use slsfs.Ssbd.Packet
use slsfs.Ssbd.Packet.{serialize, IsHeader, dump, parse, Msg, Header, code}
use slsfs.Ssbd.Spec.{created, opened, step}
use slsfs.Ssbd.Node.{start_db_read, respond, Outcome, Node, start_read_header}
use slsfs.Ssbd.Packet.RoundTrip.{msg_of-code}

empty-fresh : is_pending (opened (view memory empty (as_string prepare_a))).log ≡ false
unfolding is_pending opened created view
empty-fresh = refl

empty-content : length (bytes_or_empty (view memory empty (as_string prepare_a)).content) < 2 ^ 32
unfolding bytes_or_empty view
empty-content = omega arith

Agreed-a : Agreed prepare_a written_a (view memory empty (as_string prepare_a))
unfolding opened created view
Agreed-a = record {
  kind = inl (msg_of-code Packet.two_pc_prepare, empty-fresh);
  body_size = refl;
  in_range = omega arith;
  old_size = empty-content;
  version_used = omega arith;
  version_new = omega arith;
}

same_block :
    (h h' : Header) → h.uuid ≡ h'.uuid → h.blockid ≡ h'.blockid → as_string h ≡ as_string h'
unfolding as_string
same_block h h' u b = ap₂ (λ u b. u ++ to_string b) u b

commit_runs :
    (n : Node memory) × (os : List Outcome) × (run memory empty
        (transaction prepare_a written_a [] commit_a)
      ≡ some (n, os))
commit_runs =
    transaction_runs memory empty prepare_a commit_a written_a _ _ (valid_a _ 3 (omega arith))
      (valid_a _ 0 (omega arith)) Agreed-a (same_block commit_a prepare_a refl refl)
      (step-commit commit_a [] _ (msg_of-code Packet.two_pc_commit_execute))

committed_write_example :
    ((view memory commit_runs.0 (as_string prepare_a)).content
      ≡ some
          (written (bytes_or_empty (view memory empty (as_string prepare_a)).content) 4 written_a))
    × ((view memory commit_runs.0 (as_string prepare_a)).log.committed ≡ 7)
committed_write_example =
    committed_write memory empty commit_runs.0 prepare_a commit_a written_a [] commit_runs.1
      (
        valid_a Packet.two_pc_prepare 3 (omega arith),
        (valid_a Packet.two_pc_commit_execute 0 (omega arith), tt),
      )
      Agreed-a (same_block commit_a prepare_a refl refl) (msg_of-code Packet.two_pc_commit_execute)
      tt commit_runs.2

rollback_runs :
    (n : Node memory) × (os : List Outcome) × (run memory empty
        (transaction prepare_a written_a [] rollback_a)
      ≡ some (n, os))
rollback_runs =
    transaction_runs memory empty prepare_a rollback_a written_a _ _ (valid_a _ 3 (omega arith))
      (valid_a _ 0 (omega arith)) Agreed-a (same_block rollback_a prepare_a refl refl)
      (step-rollback rollback_a [] _ (msg_of-code Packet.two_pc_commit_rollback))

rolled_back_write_example :
    (bytes_or_empty (view memory rollback_runs.0 (as_string prepare_a)).content
      ≡ bytes_or_empty (view memory empty (as_string prepare_a)).content)
    × (is_pending (view memory rollback_runs.0 (as_string prepare_a)).log ≡ false)
rolled_back_write_example =
    rolled_back_write memory empty rollback_runs.0 prepare_a rollback_a written_a [] rollback_runs.1
      (
        valid_a Packet.two_pc_prepare 3 (omega arith),
        (valid_a Packet.two_pc_commit_rollback 0 (omega arith), tt),
      )
      Agreed-a (same_block rollback_a prepare_a refl refl)
      (msg_of-code Packet.two_pc_commit_rollback) tt rollback_runs.2

start_read_header_refines_example :
    seen memory (as_string prepare_a) (start_read_header memory empty get_a [])
    ≡ placed
        (as_string get_a)
        (as_string prepare_a)
        (view memory empty (as_string prepare_a))
        (step get_a [] (view memory empty (as_string get_a)))
start_read_header_refines_example =
    start_read_header_refines memory empty get_a [] (as_string prepare_a)
      (valid_a Packet.get 3 (omega arith))
      (as_string-IsKey prepare_a (valid_a Packet.two_pc_prepare 3 (omega arith)))

run-track_example :
    view memory commit_runs.0 (as_string prepare_a)
    ≡ track
        (as_string prepare_a)
        (view memory empty (as_string prepare_a))
        (transaction prepare_a written_a [] commit_a)
run-track_example =
    run-track memory (transaction prepare_a written_a [] commit_a) empty commit_runs.0 commit_runs.1
      (as_string prepare_a)
      (
        valid_a Packet.two_pc_prepare 3 (omega arith),
        (valid_a Packet.two_pc_commit_execute 0 (omega arith), tt),
      )
      (as_string-IsKey prepare_a (valid_a Packet.two_pc_prepare 3 (omega arith))) commit_runs.2

-- Another block of the same file.
apart :
    (m : Msg) (datasize : ℕ)
    → datasize < 2 ^ 32
    → as_string (header_of m 3 4 datasize) ≢ as_string (header_of Packet.get 4 0 0)
apart m datasize fits e =
    let blocks : 3 ≡ 4 =
      ((as_string-injective (header_of m 3 4 datasize) (header_of Packet.get 4 0 0)
          (valid_a m datasize fits)
          (header_of-IsHeader Packet.get 4 0 0 (omega arith) (omega arith) (omega arith))).0
        e).1 in
    omega (arith, blocks)

other_blocks_untouched_example :
    view memory commit_runs.0 (as_string (header_of Packet.get 4 0 0))
    ≡ view memory empty (as_string (header_of Packet.get 4 0 0))
other_blocks_untouched_example =
    other_blocks_untouched memory empty commit_runs.0 (transaction prepare_a written_a [] commit_a)
      commit_runs.1 (as_string (header_of Packet.get 4 0 0))
      (
        valid_a Packet.two_pc_prepare 3 (omega arith),
        (valid_a Packet.two_pc_commit_execute 0 (omega arith), tt),
      )
      (as_string-IsKey (header_of Packet.get 4 0 0)
        (header_of-IsHeader Packet.get 4 0 0 (omega arith) (omega arith) (omega arith)))
      (
        apart Packet.two_pc_prepare 3 (omega arith),
        (apart Packet.two_pc_commit_execute 0 (omega arith), tt),
      )
      commit_runs.2

get_runs :
    (n : Node memory) × (o : Outcome) × (start_read_header memory empty get_a [] ≡ some (n, o))
unfolding start_read_header Packet.msg_of code start_db_read
get_runs = (empty, respond get_a (code Packet.err) [], refl)

empty-replica : length (bytes_or_empty (view memory empty (as_string prepare_a)).replica) < 2 ^ 32
unfolding bytes_or_empty view
empty-replica = omega arith

start_read_header_safe_example :
    (r : Node memory × Outcome) × (start_read_header memory empty prepare_a written_a ≡ some r)
start_read_header_safe_example =
    start_read_header_safe memory empty prepare_a written_a
      (valid_a Packet.two_pc_prepare 3 (omega arith))
      (record {
        body_size = omega arith;
        in_range = omega arith;
        content_size = empty-content;
        replica_size = empty-replica;
        read_inside = λ e.
            let impossible : some Packet.two_pc_prepare ≡ some Packet.get =
              sym (msg_of-code Packet.two_pc_prepare) ∙ e in
            cc;
      })

-- A second writer finds the first one's block pending.
prepare_runs :
    (n : Node memory) × (start_read_header memory empty prepare_a written_a
      ≡ some (n, respond prepare_a (code Packet.two_pc_prepare_agree) []))
    × (view memory n (as_string prepare_a)
        ≡ staged prepare_a written_a (view memory empty (as_string prepare_a)))
prepare_runs =
    step_lift memory empty prepare_a written_a _ _ (valid_a Packet.two_pc_prepare 3 (omega arith)) (
      step-prepare prepare_a written_a (view memory empty (as_string prepare_a)) Agreed-a.kind refl
        (omega arith) empty-content)

busy_block_aborts_example :
    (n : Node memory) × (start_read_header memory prepare_runs.0 prepare_a written_a
      ≡ some (n, respond prepare_a (code Packet.two_pc_prepare_abort) []))
    × ((j : Bytes) → IsKey j → view memory n j ≡ view memory prepare_runs.0 j)
busy_block_aborts_example =
    busy_block_aborts memory prepare_runs.0 prepare_a written_a
      (content-staged prepare_a written_a (view memory empty (as_string prepare_a))).0
      (valid_a Packet.two_pc_prepare 3 (omega arith)) (msg_of-code Packet.two_pc_prepare)
      (ap (λ b. b.content) prepare_runs.2
        ∙ (content-staged prepare_a written_a (view memory empty (as_string prepare_a))).1)
      (ap (λ b. is_pending b.log) prepare_runs.2
        ∙ is_pending-staged prepare_a written_a (view memory empty (as_string prepare_a))
            Agreed-a.version_used Agreed-a.version_new)

-- A connection with no request that waits.
abbrev quiet : Connection
quiet = record { outstanding = []; read_started = true; delivered = [] }

answer_reaches_its_request_example :
    (p : Packet.Packet) × (c : Connection) × (get_runs.1.reply ≡ some p)
    × (on_answer (serialize p).0.header p.data_buf (start_request get_a quiet) ≡ some c)
    × (c.delivered ≡ (get_a, p.header.type, p.data_buf) ∷ [])
    × (c.outstanding ≡ [])
unfolding find_request
answer_reaches_its_request_example =
    answer_reaches_its_request memory empty get_runs.0 get_a [] Packet.get get_runs.1 quiet
      (valid_a Packet.get 3 (omega arith)) (msg_of-code Packet.get) get_runs.2 refl
