-- ===== src/Worker/Examples.antt =====
-- A delivery whose send fails, and the theorems of Worker at it.
use reflowfy.Prelude.{String, true, false, none, some, [], ◌∷◌, ◌≡◌, ◌≢◌, refl, chunks, unique}
use reflowfy.Prelude.Sql.{select, delete, count}
use reflowfy.Prelude.Keyed.{find}
use reflowfy.Json.{empty_object}
use reflowfy.Jobs.Manager.{new_job}
use reflowfy.Dedup.{
  new_record, held_before, kept_records, claim_record_hashes, claim_parts, claim_part,
  insert_records,
}
use reflowfy.Dedup.Inserts.{owner}
use reflowfy.Worker.{Delivery, World, Fetched, Reply, Cut, ReportCut, execute_job}
use reflowfy.Worker.Claims.{Freed, execute_job_releases}

abbrev world : World
world = record {
  jobs =
      new_job 1
        (record { execution_id = "e"; job_id = "a"; job_payload = empty_object; batch_number = 1 })
      ∷ [];
  records = new_record 1 "b" "x" ∷ [];
}

-- The records "x", which job "b" holds, and "y", which is free; the send raises.
abbrev delivery : Delivery String
delivery = record {
  job_id = "a";
  dedup_check = true;
  claim_reachable = true;
  release = Cut.through;
  report_reachable = true;
  at_report = ReportCut.finished;
  claimed_at = 2;
  hashed_at = 3;
  ended_at = 4;
  run = Fetched.fetched ("x" ∷ "y" ∷ []) ("x" ∷ "y" ∷ []);
  hash_of = λ h. h;
  legacy = none;
  before_claims = Cut.through;
  after_claims = Cut.through;
  redefine = Cut.through;
  health = Reply.well;
  send = Cut.raised (record { text = "broker down"; traceback = "…" });
  cleanup_cut = false;
  as_dict = empty_object;
}

fails : (execute_job delivery world).answer ≡ some false
unfolding execute_job count held_before kept_records claim_record_hashes claim_parts chunks unique
    claim_part insert_records find select delete
fails = refl

not_true : (execute_job delivery world).answer ≢ some true
not_true p = cc (p, fails)

execute_job_releases_example :
    Freed "a" (owner "y" world.records) (owner "y" (execute_job delivery world).world.records)
execute_job_releases_example =
    execute_job_releases delivery refl refl refl world "y" (tt, tt) not_true
