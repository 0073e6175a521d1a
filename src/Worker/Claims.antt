-- ===== src/Worker/Claims.antt =====
-- The record hashes of a delivery that does not succeed: `_execute_job_inner` of
-- reflowfy/worker/executor.py.
use reflowfy.Prelude.{
  ℕ, String, Bool, true, false, ◌&&◌, Option, none, some, List, [], ◌∷◌, map, ◌≡◌, ◌≢◌, ◌⊎◌, refl,
  ap, inl, inr, arith, length, ltb, Bool-cases, Option-cases, mem, ◌==◌, string_eq, eq_of_==,
}
use reflowfy.Prelude.Keyed.{IsKeyed}
use reflowfy.Jobs.Worker.{claim_job, JobStats}
use reflowfy.Dedup.{key, claim_records, claim_record_hashes, release_record_hashes, held_before}
use reflowfy.Dedup
use reflowfy.Dedup.Inserts.{owner, claimed, is_held_by, released}
use reflowfy.Dedup.Owners.{claim-Claims}
use reflowfy.Dedup.Exclusive.{release-owner, release-IsKeyed}
use reflowfy.Worker.{
  Delivery, Result, World, Error, Fetched, Cut, report, told, is_cut, health_stats, release_claimed,
  failed, interrupted, unhealthy, write, write_kept, deduplicate, process, execute_job,
}
use reflowfy.Worker.Report.{Reply-cases, Cut-cases, ReportCut-cases}

-- The owner of a hash before and after: the same, or it was the job and now there is none.
abbrev pub Freed : String → Option String → Option String → Type 0
Freed job before after = (after ≡ before) ⊎ ((before ≡ some job) × (after ≡ none))

Freed-claim :
    (job : String) (asked : Bool) (o : Option String)
    → Freed job o
        (released job (asked && is_held_by job (claimed job asked o)) (claimed job asked o))
Freed-claim job true none = ground (arith, string_eq.decides job job)
Freed-claim job false none = inl refl
Freed-claim job false (some other) = inl refl
Freed-claim job true (some other) = elim (Bool-cases (other == job)) [
  | inl e ↦ inr (ap some (eq_of_== other job e), rw e refl)
  | inr e ↦ inl (rw e refl)
]

-- `won` are the hashes that a release would free, from the table `before` of the delivery.
Holds : String → Dedup.Table → List String → World → Type 0
Holds job before won w =
    IsKeyed key w.records
    × ((a : String) → Freed job (owner a before) (released job (mem a won) (owner a w.records)))

Ends {ℓ} : {R : Type ℓ} → String → Dedup.Table → Result R → Type 0
Ends job before r =
    (r.answer ≡ some true) ⊎ ((a : String) → Freed job (owner a before) (owner a r.world.records))

succeeds {ℓ} :
    {R : Type ℓ} (job : String) (before : Dedup.Table) (r : Result R)
    → r.answer ≡ some true
    → Ends job before r
unfolding Ends
succeeds job before r e = inl e

Holds-report {ℓ} :
    {R : Type ℓ} (d : Delivery R) (before : Dedup.Table) (won : List String) (answer : Bool)
    (sent : List R) (s : JobStats) (w : World)
    → Holds d.job_id before won w
    → Holds d.job_id before won (report d answer sent s w).world
unfolding Holds
Holds-report d before won answer sent s w h = h

reported_Ends {ℓ} :
    {R : Type ℓ} (job : String) (before : Dedup.Table) (r : Result R) (s : JobStats)
    → Ends job before r
    → Ends job before (record r { report = some s })
unfolding Ends
reported_Ends job before r s h = h

released_twice :
    (job : String) (asked : Bool) (o : Option String)
    → released job asked (released job asked o) ≡ released job asked o
released_twice job false o = refl
released_twice job true none = refl
released_twice job true (some other) = elim (Bool-cases (other == job)) [
  | inl e ↦ rw e refl
  | inr e ↦ rw (e, e) refl
]

module _ {ℓ} {R : Type ℓ} (d : Delivery R) (reachable : d.release ≡ Cut.through)
    (returned : d.after_claims ≡ Cut.through) (cleaned_up : d.cleanup_cut ≡ false) where
  release-owners :
      (won : List String) (w : World) (a : String)
      → IsKeyed key w.records
      → owner a (release_claimed d won w).records
        ≡ released d.job_id (mem a won) (owner a w.records)
  release-owners [] w a k = refl
  release-owners (h ∷ hs) w a k = rw reachable (release-owner d.job_id (h ∷ hs) w.records a k)

  release-Holds :
      (before : Dedup.Table) (won : List String) (w : World)
      → Holds d.job_id before won w
      → Holds d.job_id before won (release_claimed d won w)
  unfolding Holds
  release-Holds before [] w h = h
  release-Holds before (x ∷ xs) w (k, f) = rw reachable (
    release-IsKeyed d.job_id (x ∷ xs) w.records k,
    λ a.
        rw
          (
            release-owner d.job_id (x ∷ xs) w.records a k,
            released_twice d.job_id (mem a (x ∷ xs)) (owner a w.records),
          )
          (f a),
  )

  -- After the release nothing is left to release.
  Holds-nothing :
      (before : Dedup.Table) (won : List String) (w : World)
      → Holds d.job_id before won w
      → Holds d.job_id before [] (release_claimed d won w)
  unfolding Holds
  Holds-nothing before won w (k, f) =
      ((release-Holds before won w (k, f)).0, λ a. rw (release-owners won w a k) (f a))

  interrupted-Ends :
      (before : Dedup.Table) (sent : List R) (won : List String) (w : World)
      → Holds d.job_id before won w
      → Ends d.job_id before (interrupted d sent won w)
  unfolding interrupted Holds Ends
  interrupted-Ends before sent won w (k, f) = inr (λ a. rw (release-owners won w a k) (f a))

  told-Ends :
      (before : Dedup.Table) (answer : Bool) (sent : List R) (won : List String) (s : JobStats)
      (w : World)
      → Holds d.job_id before won w
      → Ends d.job_id before (report d answer sent s w)
      → Ends d.job_id before (told d answer sent won s w)
  unfolding told
  told-Ends before answer sent won s w h e = elim (ReportCut-cases d.at_report) [
    | inl c ↦ simp (c, told) e
    | inr (inl c) ↦ simp (c, told) (interrupted-Ends before sent won w h)
    | inr (inr c) ↦
        simp (c, told)
          (reported_Ends d.job_id before (interrupted d sent won (report d answer sent s w).world) s
            (interrupted-Ends before sent won (report d answer sent s w).world
              (Holds-report d before won answer sent s w h)))
  ]

  told-Ends_answered :
      (before : Dedup.Table) (sent : List R) (won : List String) (s : JobStats) (w : World)
      → Holds d.job_id before won w
      → Ends d.job_id before (told d true sent won s w)
  told-Ends_answered before sent won s w h =
      told-Ends before true sent won s w h (succeeds d.job_id before _ refl)

  -- The hashes are released by now.
  told-Ends_released :
      (before : Dedup.Table) (sent : List R) (won : List String) (s : JobStats) (w : World)
      → Holds d.job_id before won w
      → Holds d.job_id before [] w
      → Ends d.job_id before (told d false sent won s w)
  unfolding Ends Holds
  told-Ends_released before sent won s w h z = told-Ends before false sent won s w h (inr z.1)

  failed-Ends :
      (before : Dedup.Table) (e : Error) (sent : List R) (n : ℕ) (won : List String) (w : World)
      → Holds d.job_id before won w
      → Ends d.job_id before (failed d e sent n won w)
  unfolding failed
  failed-Ends before e sent n won w h = elim (Bool-cases (is_cut d won)) [
    | inl i ↦ simp (i, failed) (interrupted-Ends before sent won w h)
    | inr i ↦
        let z = Holds-nothing before won w h in
        simp (i, failed) (told-Ends_released before sent [] _ _ z z)
  ]

  unhealthy-Ends :
      (before : Dedup.Table) (n : ℕ) (won : List String) (w : World)
      → Holds d.job_id before won w
      → Ends d.job_id before (unhealthy d n won w)
  unfolding unhealthy
  unhealthy-Ends before n [] w h = told-Ends_released before [] [] _ w h h
  unhealthy-Ends before n (x ∷ xs) w h =
      simp (reachable, unhealthy)
        (told-Ends_released before [] (x ∷ xs) (health_stats d n) (release_claimed d (x ∷ xs) w)
          (release-Holds before (x ∷ xs) w h) (Holds-nothing before (x ∷ xs) w h))

  write-Ends :
      (before : Dedup.Table) (out : List R) (won : List String) (w : World)
      → Holds d.job_id before won w
      → Ends d.job_id before (write d out won w)
  unfolding write
  write-Ends before out won w h = elim (Reply-cases d.health) [
    | inl e ↦ elim (Cut-cases d.send) [
      | inl s ↦ simp (e, s, write) (told-Ends_answered before out won _ w h)
      | inr (inl s) ↦ simp (e, s.1, write) (failed-Ends before s.0 out (length out) won w h)
      | inr (inr s) ↦ simp (e, s, write) (interrupted-Ends before out won w h)
    ]
    | inr (inl e) ↦ simp (e, write) (unhealthy-Ends before (length out) won w h)
    | inr (inr (inl e)) ↦ simp (e.1, write) (failed-Ends before e.0 [] (length out) won w h)
    | inr (inr (inr e)) ↦ simp (e, write) (interrupted-Ends before [] won w h)
  ]

  kept-Ends :
      (before : Dedup.Table) (out kept : List R) (won : List String) (w : World)
      → Holds d.job_id before won w
      → Ends d.job_id before (write_kept d out kept won w)
  unfolding write_kept
  kept-Ends before out [] won w h = told-Ends_answered before [] won _ w h
  kept-Ends before out (r ∷ kept) won w h =
      elim (Bool-cases (ltb (length (r ∷ kept)) (length out))) [
        | inl l ↦ elim (Cut-cases d.redefine) [
          | inl e ↦ simp (l, e, write_kept) (write-Ends before (r ∷ kept) won w h)
          | inr (inl e) ↦ simp (l, e.1, write_kept) (failed-Ends before e.0 [] (length out) won w h)
          | inr (inr e) ↦ simp (l, e, write_kept) (interrupted-Ends before [] won w h)
        ]
        | inr l ↦ simp (l, write_kept) (write-Ends before (r ∷ kept) won w h)
      ]

  unclaimed : (w : World) → IsKeyed key w.records → Holds d.job_id w.records [] w
  unfolding Holds
  unclaimed w k = (k, λ a. inl refl)

  claim-Holds :
      (out : List R) (w : World)
      → IsKeyed key w.records
      → let r = claim_records d.hash_of d.legacy d.hashed_at d.job_id out w.records in
        Holds d.job_id w.records r.0.1 (record w { records = r.1 })
  unfolding Holds claim_records
  claim-Holds out w k = elim (Bool-cases (held_before d.legacy d.job_id)) [
    | inl h ↦ rw h (k, λ a. inl refl)
    | inr h ↦
        let hashes = map d.hash_of out in
        let c = claim-Claims d.hashed_at d.job_id hashes w.records k in
        rw h (
          c.keyed,
          λ a. rw (c.won a, c.owners a) (Freed-claim d.job_id (mem a hashes) (owner a w.records)),
        )
  ]

  dedup-Ends :
      (out : List R) (w : World)
      → IsKeyed key w.records
      → Ends d.job_id w.records (deduplicate d out w)
  unfolding deduplicate
  dedup-Ends out w k = elim (Cut-cases d.before_claims) [
    | inl e ↦
        simp (e, returned, deduplicate)
          (let r = claim_records d.hash_of d.legacy d.hashed_at d.job_id out w.records in
            kept-Ends w.records out r.0.0 r.0.1 (record w { records = r.1 }) (claim-Holds out w k))
    | inr (inl e) ↦
        simp (e.1, deduplicate) (failed-Ends w.records e.0 [] (length out) [] w (unclaimed w k))
    | inr (inr e) ↦ simp (e, deduplicate) (interrupted-Ends w.records [] [] w (unclaimed w k))
  ]

  process-Ends :
      (f : Fetched R) (w : World) → IsKeyed key w.records → Ends d.job_id w.records (process d f w)
  unfolding process
  process-Ends (Fetched.raised e) w k = failed-Ends w.records e [] 0 [] w (unclaimed w k)
  process-Ends Fetched.shut_down w k = interrupted-Ends w.records [] [] w (unclaimed w k)
  process-Ends (Fetched.fetched [] transformed) w k =
      told-Ends_answered w.records [] [] _ w (unclaimed w k)
  process-Ends (Fetched.fetched (r ∷ records) []) w k = write-Ends w.records [] [] w (unclaimed w k)
  process-Ends (Fetched.fetched (r ∷ records) (x ∷ transformed)) w k =
      elim (Bool-cases d.dedup_check) [
        | inl h ↦ simp (h, process) (dedup-Ends (x ∷ transformed) w k)
        | inr h ↦ simp (h, process) (write-Ends w.records (x ∷ transformed) [] w (unclaimed w k))
      ]

  job-Ends : (w : World) → IsKeyed key w.records → Ends d.job_id w.records (execute_job d w)
  unfolding execute_job
  job-Ends w k =
      let claim = claim_job d.claim_reachable d.claimed_at d.job_id w.jobs in
      elim (Option-cases claim.0) [
        | inl e ↦
            simp (e, cleaned_up, execute_job) (process-Ends d.run (record w { jobs = claim.1 }) k)
        | inr e ↦ simp (e.1, execute_job) (succeeds d.job_id w.records _ refl)
      ]

  -- A delivery that does not answer true, because it fails, or is shut down after the claim of the job,
  -- at one of the awaits up to the write of its report, leaves no hash claimed that it has claimed: each
  -- hash has the owner that it had before the delivery, or the job itself had it and gave it up; so that
  -- the next delivery can send the records. The exceptions are an error or a shutdown between the commit
  -- of the claims and the return of `_claim_records`, and a shutdown in `finally`, which are excluded.
  -- The table has one row a hash, a release goes through, and nobody else writes to the table in
  -- between.
  pub execute_job_releases :
      (w : World) (a : String)
      → IsKeyed key w.records
      → (execute_job d w).answer ≢ some true
      → Freed d.job_id (owner a w.records) (owner a (execute_job d w).world.records)
  unfolding Ends
  execute_job_releases w a k failing = elim (job-Ends w k) [
    | inl e ↦ absurd (failing e)
    | inr f ↦ f a
  ]
