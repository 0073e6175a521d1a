-- ===== src/Worker/Report.antt =====
-- What a delivery answers and reports: `_execute_job_inner` of reflowfy/worker/executor.py.
use reflowfy.Prelude.{Bool, true, false, none, some, List, [], ◌≡◌, ◌⊎◌, refl, inl, inr, length}
use reflowfy.Jobs.Worker.{JobStats}
use reflowfy.Dedup.{claim_records}
use reflowfy.Worker.{Delivery, Result, World, Error, Fetched, Reply, Cut, ReportCut, report}

pub Reply-cases :
    (r : Reply)
    → (r ≡ Reply.well)
      ⊎ ((r ≡ Reply.ill) ⊎ (((e : Error) × (r ≡ Reply.raised e)) ⊎ (r ≡ Reply.shut_down)))
Reply-cases Reply.well = inl refl
Reply-cases Reply.ill = inr (inl refl)
Reply-cases (Reply.raised e) = inr (inr (inl (e, refl)))
Reply-cases Reply.shut_down = inr (inr (inr refl))

pub Cut-cases :
    (c : Cut) → (c ≡ Cut.through) ⊎ (((e : Error) × (c ≡ Cut.raised e)) ⊎ (c ≡ Cut.shut_down))
Cut-cases Cut.through = inl refl
Cut-cases (Cut.raised e) = inr (inl (e, refl))
Cut-cases Cut.shut_down = inr (inr refl)

pub ReportCut-cases :
    (c : ReportCut)
    → (c ≡ ReportCut.finished) ⊎ ((c ≡ ReportCut.before_commit) ⊎ (c ≡ ReportCut.after_commit))
ReportCut-cases ReportCut.finished = inl refl
ReportCut-cases ReportCut.before_commit = inr (inl refl)
ReportCut-cases ReportCut.after_commit = inr (inr refl)

module _ {ℓ} {R : Type ℓ} (d : Delivery R) (before : World) where
  -- Something raised the error.
  pub data Raises : Error → Type ℓ where
    fetching : {e : Error} → d.run ≡ Fetched.raised e → Raises e
    claiming : {e : Error} → d.before_claims ≡ Cut.raised e → Raises e
    returning : {e : Error} → d.after_claims ≡ Cut.raised e → Raises e
    redefining : {e : Error} → d.redefine ≡ Cut.raised e → Raises e
    checking : {e : Error} → d.health ≡ Reply.raised e → Raises e
    sending : {e : Error} → d.send ≡ Cut.raised e → Raises e
    releasing : {e : Error} → d.release ≡ Cut.raised e → Raises e

  -- The process is shut down somewhere.
  pub data IsCut : Type ℓ where
    fetching : d.run ≡ Fetched.shut_down → IsCut
    claiming : d.before_claims ≡ Cut.shut_down → IsCut
    returning : d.after_claims ≡ Cut.shut_down → IsCut
    redefining : d.redefine ≡ Cut.shut_down → IsCut
    checking : d.health ≡ Reply.shut_down → IsCut
    sending : d.send ≡ Cut.shut_down → IsCut
    releasing : d.release ≡ Cut.shut_down → IsCut
    reporting : d.at_report ≡ ReportCut.before_commit → IsCut
    reported : d.at_report ≡ ReportCut.after_commit → IsCut
    cleaning : d.cleanup_cut ≡ true → IsCut

  -- The answer and the report of a run that is not blocked, and why.
  pub data Reports : Result R → Type ℓ where
    written :
        {r : Result R} {s : JobStats}
        → r.answer ≡ some true
        → r.report ≡ some s
        → s.success ≡ true
        → s.deduplicated ≡ false
        → s.records_output ≡ length r.sent
        → d.health ≡ Reply.well
        → d.send ≡ Cut.through
        → Reports r
    empty :
        {r : Result R} {s : JobStats} {transformed : List R}
        → r.answer ≡ some true
        → r.report ≡ some s
        → s.success ≡ true
        → s.deduplicated ≡ false
        → r.sent ≡ []
        → d.run ≡ Fetched.fetched [] transformed
        → Reports r
    duplicate :
        {r : Result R} {s : JobStats} (out : List R)
        → r.answer ≡ some true
        → r.report ≡ some s
        → s.success ≡ true
        → s.deduplicated ≡ true
        → r.sent ≡ []
        → d.dedup_check ≡ true
        → (claim_records d.hash_of d.legacy d.hashed_at d.job_id out before.records).0.0 ≡ []
        → Reports r
    failure :
        {r : Result R} {s : JobStats} {e : Error}
        → r.answer ≡ some false
        → r.report ≡ some s
        → s.success ≡ false
        → s.deduplicated ≡ false
        → s.error ≡ some e.text
        → Raises e
        → Reports r
    ill :
        {r : Result R} {s : JobStats}
        → r.answer ≡ some false
        → r.report ≡ some s
        → s.success ≡ false
        → s.deduplicated ≡ false
        → d.health ≡ Reply.ill
        → Reports r
    cut : {r : Result R} → r.answer ≡ none → IsCut → Reports r
