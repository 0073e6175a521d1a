-- ===== src/Consumer.antt =====
-- The Kafka consumer of a worker: `start`, `_consume_until_stopped` and `_process_message` of
-- KafkaJobConsumer in reflowfy/worker/consumer.py, for one partition. aiokafka is a parameter: which
-- messages a poll returns, and how a commit or a connection goes, is given. So is what execute_job
-- answers. A commit without arguments commits the position, which is behind the message that getmany
-- has returned, because a poll returns one message at most.
pub mod Offsets
pub mod Examples
use reflowfy.Prelude.{
  ℕ, zero, suc, ◌+◌, ◌*◌, ◌^◌, String, Bool, true, false, Option, none, some, List, [], ◌∷◌, ◌++◌,
  if◌then◌else◌, ◌==◌, nat_eq,
}
use reflowfy.Json.{Json, Fields}
use reflowfy.Json.Dict.{get}

-- `decoded` is what json.loads has read; `undecodable` is no UTF-8 or no JSON.
pub data Value : Type 0 where
  empty : Value
  undecodable : Value
  decoded : Json → Value

-- What execute_job does: its answer, an exception, or the end of the process.
pub data Run : Type 0 where
  answers : (success : Bool) → Run
  raises : Run
  shut_down : Run

-- A commit: done, refused by a rebalance (CommitFailedError), or another exception.
pub data Commit : Type 0 where
  done : Commit
  rebalanced : Commit
  raises : Commit

pub record Message : Type 0 where
  pub offset : ℕ
  pub value : Value
  pub run : Run
  pub commit : Commit

-- What has become of a message: `job` has been run and its outcome recorded, `no_job` is skipped,
-- `error` is an exception that is logged; the others end the consumer.
pub data Fate : Type 0 where
  job : (success : Bool) → Fate
  no_job : Fate
  error : Fate
  crashed : Fate
  shut_down : Fate

-- A commit under the `try`: only one that is done moves the offset.
abbrev pub commit_position : Commit → ℕ → ℕ → ℕ
commit_position Commit.done offset committed = suc offset
commit_position Commit.rebalanced offset committed = committed
commit_position Commit.raises offset committed = committed

-- A commit in `except _InvalidPayload` stands outside the `try`: its own exception escapes.
abbrev pub invalid_fate : Commit → Fate
invalid_fate Commit.done = Fate.no_job
invalid_fate Commit.rebalanced = Fate.crashed
invalid_fate Commit.raises = Fate.crashed

-- An exception of a commit under the `try` is caught.
abbrev pub commit_fate : Commit → Fate → Fate
commit_fate Commit.done fate = fate
commit_fate Commit.rebalanced fate = fate
commit_fate Commit.raises fate = Fate.error

abbrev pub schema_version : ℕ
schema_version = 2

abbrev pub is_supported : Option Json → Bool
is_supported (some (Json.num n)) = n == schema_version
is_supported (some (Json.float m e)) = m == schema_version * 2 ^ e
is_supported _ = false

-- The fate of a message and the committed offset after it.
unfoldable pub process_job : Message → ℕ → Fate × ℕ
process_job m committed = elim m.run [
  | Run.answers success ↦
      (commit_fate m.commit (Fate.job success), commit_position m.commit m.offset committed)
  | Run.raises ↦ (Fate.error, committed)
  | Run.shut_down ↦ (Fate.shut_down, committed)
]

abbrev pub skip_message : Message → ℕ → Fate × ℕ
skip_message m committed =
    (commit_fate m.commit Fate.no_job, commit_position m.commit m.offset committed)

abbrev pub skip_invalid : Message → ℕ → Fate × ℕ
skip_invalid m committed = (invalid_fate m.commit, commit_position m.commit m.offset committed)

unfoldable pub process_message : Message → ℕ → Fate × ℕ
process_message m committed = elim m.value [
  | Value.empty ↦ skip_message m committed
  | Value.undecodable ↦ skip_invalid m committed
  | Value.decoded payload ↦ elim payload [
    | Json.obj fields ↦
        if is_supported (get "schema_version" fields)
        then process_job m committed
        else skip_message m committed
    | _ ↦ skip_invalid m committed
  ]
]

abbrev pub goes_on : Fate → Bool
goes_on Fate.crashed = false
goes_on Fate.shut_down = false
goes_on _ = true

-- `running` is still in the loop, where the polls that are given end.
pub data Ending : Type 0 where
  running : Ending
  stopped : Ending
  ended : Ending

-- `fates` are the messages that have been processed, in turn.
pub record Consumer : Type 0 where
  pub committed : ℕ
  pub fates : List (ℕ × Fate)

-- A poll: whether a stop has been requested before it, and the message that it returns, if any.
pub record Poll : Type 0 where
  pub stop_requested : Bool
  pub message : Option Message

unfoldable pub handle : Message → Consumer → Consumer × Bool
handle m c =
    let (fate, committed) = process_message m c.committed in
    (record { committed = committed; fates = c.fates ++ (m.offset, fate) ∷ [] }, goes_on fate)

unfoldable pub consume_until_stopped : List Poll → Consumer → Ending × Consumer
consume_until_stopped [] c = (Ending.running, c)
consume_until_stopped (p ∷ polls) c = elim p.stop_requested [
  | true ↦ (Ending.stopped, c)
  | false ↦ elim p.message [
    | none ↦ consume_until_stopped polls c
    | some m ↦
        let rest = consume_until_stopped polls (handle m c).0 in
        if (handle m c).1 then rest else (Ending.ended, (handle m c).0)
  ]
]

abbrev pub max_retries : ℕ
max_retries = 10

-- The connection in `start`: the outcome of each attempt from `attempt` on, `left` of them at most;
-- whether one has succeeded, and the seconds that are slept.
unfoldable pub connect : (left attempt : ℕ) → (ℕ → Bool) → Bool × ℕ
connect zero attempt succeeds = (false, 0)
connect (suc zero) attempt succeeds = (succeeds attempt, 0)
connect (suc (suc left)) attempt succeeds =
    let (connected, slept) = connect (suc left) (suc attempt) succeeds in
    if succeeds attempt then (true, 0) else (connected, 2 ^ attempt + slept)
