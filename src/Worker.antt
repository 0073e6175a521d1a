-- ===== src/Worker.antt =====
-- One delivery of a job: `_execute_job_inner` of reflowfy/worker/executor.py over the jobs table and
-- the table of record hashes. What the source, the transformations and the destination do is given
-- with the delivery, as are the points at which the process is shut down; an error is its text and its
-- traceback. `finally` changes no table: it is the wait for the heartbeat and the close of the
-- destination, of which only a shutdown is seen. The beats are left out, and a shutdown in the claim of
-- the job. Times are microseconds.
pub mod Claims
pub mod Report
mod Examples
use reflowfy.Prelude.{
  ℕ, String, Bool, true, false, not, ◌&&◌, Option, none, some, List, [], ◌∷◌, if◌then◌else◌, length,
  ltb,
}
use mathlib.Core.Option
use reflowfy.Json.{Json}
use reflowfy.Jobs.{Job}
use reflowfy.Jobs.Manager
use reflowfy.Jobs.Worker.{claim_job, update_job_in_db, JobStats}
use reflowfy.Dedup.{ProcessedContent, claim_records, release_record_hashes}
use reflowfy.Dedup

pub record World : Type 0 where
  pub jobs : Manager.Table
  pub records : Dedup.Table

pub record Error : Type 0 where
  pub text : String
  pub traceback : String

-- run_job_records_async: the records of the slice and those after the transformations. `shut_down`
-- is a BaseException, such as SystemExit or the cancellation of the task.
pub data Fetched {ℓ} (R : Type ℓ) : Type ℓ where
  fetched : (records transformed : List R) → Fetched R
  raised : Error → Fetched R
  shut_down : Fetched R

-- How an await ends: a send, the claim or the release of the hashes, or the definition of the
-- destination after it.
pub data Cut : Type 0 where
  through : Cut
  raised : Error → Cut
  shut_down : Cut

abbrev pub is_shut_down : Cut → Bool
is_shut_down Cut.shut_down = true
is_shut_down _ = false

-- The write of the report: a shutdown comes before its commit or after it.
pub data ReportCut : Type 0 where
  finished before_commit after_commit : ReportCut

-- A health check.
pub data Reply : Type 0 where
  well ill : Reply
  raised : Error → Reply
  shut_down : Reply

pub record Delivery {ℓ} (R : Type ℓ) : Type ℓ where
  pub job_id : String
  pub dedup_check : Bool
  -- the database at the claim of the job, at a release, and at the report
  pub claim_reachable : Bool
  pub release : Cut
  pub report_reachable : Bool
  pub at_report : ReportCut
  pub claimed_at : ℕ
  pub hashed_at : ℕ
  pub ended_at : ℕ
  pub run : Fetched R
  pub hash_of : R → String
  pub legacy : Option (List String × List ProcessedContent)
  -- the claim of the record hashes up to its commit, and from there to the return of `_claim_records`
  pub before_claims : Cut
  pub after_claims : Cut
  -- the destination that is closed and defined again
  pub redefine : Cut
  pub health : Reply
  pub send : Cut
  -- shut down in `finally`
  pub cleanup_cut : Bool
  pub as_dict : Json

-- `answer` is what execute_job returns, none where it raises; `sent` what the destination was given
-- to write; `report` the statistics that are written to the job's row.
pub record Result {ℓ} (R : Type ℓ) : Type ℓ where
  pub answer : Option Bool
  pub sent : List R
  pub report : Option JobStats
  pub world : World

module _ {ℓ} {R : Type ℓ} (d : Delivery R) where
  abbrev stats : Bool → Bool → ℕ → Option Error → JobStats
  stats success deduplicated n error = record {
    success = success;
    deduplicated = deduplicated;
    records_output = n;
    error = Option.map (λ e. e.text) error;
    error_traceback = Option.map (λ e. e.traceback) error;
    as_dict = d.as_dict;
  }

  abbrev pub report : Bool → List R → JobStats → World → Result R
  report answer sent s w = record {
    answer = some answer;
    sent = sent;
    report = some s;
    world = record w { jobs = update_job_in_db d.report_reachable d.ended_at d.job_id s w.jobs };
  }

  -- The release of the claimed hashes, if it goes through.
  abbrev pub release_claimed : List String → World → World
  release_claimed [] w = w
  release_claimed (h ∷ hs) w = elim d.release [
    | through ↦ record w { records = release_record_hashes d.job_id (h ∷ hs) w.records }
    | _ ↦ w
  ]

  -- `except BaseException`: what the release raises is swallowed.
  unfoldable pub interrupted : List R → List String → World → Result R
  unfolding release_record_hashes
  interrupted sent claimed w = record {
    answer = none;
    sent = sent;
    report = none;
    world = release_claimed claimed w;
  }

  -- The report and the return after it, under a `try` with `claimed` hashes.
  unfoldable pub told : Bool → List R → List String → JobStats → World → Result R
  unfolding interrupted update_job_in_db
  told answer sent claimed s w = elim d.at_report [
    | finished ↦ report answer sent s w
    | before_commit ↦ interrupted sent claimed w
    | after_commit ↦ record (interrupted sent claimed (report answer sent s w).world) {
      report = some s;
    }
  ]

  -- A release that is attempted, and in which the process is shut down.
  abbrev pub is_cut : List String → Bool
  is_cut [] = false
  is_cut (h ∷ hs) = is_shut_down d.release

  -- `except Exception`, where an error of the release is swallowed, and a shutdown is not.
  unfoldable pub failed : Error → List R → ℕ → List String → World → Result R
  unfolding told interrupted
  failed e sent n claimed w =
      if is_cut claimed
      then interrupted sent claimed w
      else told false sent [] (stats false false n (some e)) (release_claimed claimed w)

  abbrev pub health_stats : ℕ → JobStats
  health_stats n = record (stats false false n none) {
    error = some "Destination health check failed";
  }

  -- The health check has failed.
  unfoldable pub unhealthy : ℕ → List String → World → Result R
  unfolding failed told interrupted
  unhealthy n [] w = told false [] [] (health_stats n) w
  unhealthy n (h ∷ hs) w = elim d.release [
    | through ↦ told false [] (h ∷ hs) (health_stats n) (release_claimed (h ∷ hs) w)
    | raised e ↦ failed e [] n (h ∷ hs) w
    | shut_down ↦ interrupted [] (h ∷ hs) w
  ]

  -- The health check and the send of `out`.
  unfoldable pub write : List R → List String → World → Result R
  unfolding failed interrupted unhealthy told
  write out claimed w = elim d.health [
    | well ↦ elim d.send [
      | through ↦ told true out claimed (stats true false (length out) none) w
      | raised e ↦ failed e out (length out) claimed w
      | shut_down ↦ interrupted out claimed w
    ]
    | ill ↦ unhealthy (length out) claimed w
    | raised e ↦ failed e [] (length out) claimed w
    | shut_down ↦ interrupted [] claimed w
  ]

  -- What is left of the records after the claim of their hashes.
  unfoldable pub write_kept : List R → List R → List String → World → Result R
  unfolding failed write told interrupted
  write_kept out [] won w = told true [] won (stats true true 0 none) w
  write_kept out (r ∷ kept) won w =
      if ltb (length (r ∷ kept)) (length out)
      then elim d.redefine [
        | through ↦ write (r ∷ kept) won w
        | raised e ↦ failed e [] (length out) won w
        | shut_down ↦ interrupted [] won w
      ]
      else write (r ∷ kept) won w

  -- Until `_claim_records` returns, `claimed_record_hashes` is empty.
  unfoldable pub deduplicate : List R → World → Result R
  unfolding failed interrupted write_kept claim_records
  deduplicate out w = elim d.before_claims [
    | raised e ↦ failed e [] (length out) [] w
    | shut_down ↦ interrupted [] [] w
    | through ↦
        let ((kept, won), records) =
          claim_records d.hash_of d.legacy d.hashed_at d.job_id out w.records in
        let u : World = record w { records = records } in
        elim d.after_claims [
          | through ↦ write_kept out kept won u
          | raised e ↦ failed e [] (length out) [] u
          | shut_down ↦ interrupted [] [] u
        ]
  ]

  unfoldable pub process : Fetched R → World → Result R
  unfolding failed interrupted write deduplicate told
  process (Fetched.raised e) w = failed e [] 0 [] w
  process Fetched.shut_down w = interrupted [] [] w
  process (Fetched.fetched [] transformed) w = told true [] [] (stats true false 0 none) w
  process (Fetched.fetched (r ∷ records) []) w = write [] [] w
  process (Fetched.fetched (r ∷ records) (x ∷ transformed)) w =
      if d.dedup_check then deduplicate (x ∷ transformed) w else write (x ∷ transformed) [] w

  -- `finally`: a shutdown in it takes the place of the return.
  abbrev pub cleaned : Result R → Result R
  cleaned r = if d.cleanup_cut then record r { answer = none } else r

  unfoldable pub execute_job : World → Result R
  unfolding claim_job process
  execute_job w =
      let (blocking, jobs) = claim_job d.claim_reachable d.claimed_at d.job_id w.jobs in
      elim blocking [
        | some s ↦ record {
          answer = some true;
          sent = [];
          report = none;
          world = record w { jobs = jobs };
        }
        | none ↦ cleaned (process d.run (record w { jobs = jobs }))
      ]
