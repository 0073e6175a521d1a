-- ===== src/Dlq/Poll/Settled.antt =====
-- What a poll makes of the dead letters: `_poll_and_process` of
-- reflowfy/reflow_manager/dlq_scheduler.py, one job at a time.
use reflowfy.Prelude.{
  ℕ, String, Bool, true, false, List, [], ◌∷◌, map, inl, inr, if◌then◌else◌, ◌==◌, nat_eq,
  string_eq, ◌≡◌, refl, sym, ◌∙◌, arith, Bool-cases, All, All-imp, eq_of_==, ==_refl, unique,
}
use mathlib.Core.Path.{subst}
use reflowfy.Prelude.Sql.{select, All-select, All-select_self}
use reflowfy.Dlq.{DlqJob, DlqJobArchive, Store, has_id, take_up, group_loop}
use reflowfy.Dlq.Groups.{group, with_key, group_loop_correct}
use reflowfy.Dlq.Poll.{Dispatch, is_due_job, name_of, process_pipelines, poll_and_process}
use reflowfy.Dlq.Poll.View.{View, view, archive_id}
use reflowfy.Dlq.Poll.Once.{
  sum, untouched, once, hit, IsOnly, hits_of, sum-grouped, key_of_all, sum-select, select-IsOnly,
}
use reflowfy.Dlq.Poll.Pipeline.{IsOne, Settled, pipeline_untouched, pipeline_once}

All-both :
    (P Q : DlqJob → Type 0) (xs : List DlqJob) → All P xs → All Q xs → All (λ x. P x × Q x) xs
All-both P Q [] p q = tt
All-both P Q (x ∷ xs) p q = ((p.0, q.0), All-both P Q xs p.1 q.1)

module _ (key : DlqJob → String) (j : DlqJob) (now : ℕ) (dispatch : Dispatch) where
  -- The rows of the id of `j`, before and after a poll.
  abbrev pub Polled : (commits due : Bool) → (before after : View) → Type 0
  Polled true true before after = Settled key (take_up j) before.1 now (dispatch (name_of j)) after
  Polled true false before after = after ≡ before
  Polled false due before after = after ≡ before

  Fits : String × List DlqJob → Type 0
  Fits g = All (IsOne key j [] now g.0) g.1

  pipelines_of :
      (due : List DlqJob) (names : List String)
      → All (IsOnly j.id j) due
      → All Fits (map (group name_of due) names)
  unfolding Fits
  pipelines_of due [] h = tt
  pipelines_of due (n ∷ names) h = (
    All-both (IsOnly j.id j) (λ x. name_of x ≡ n) (with_key name_of n due)
        (All-select (λ x. name_of x == n) (IsOnly j.id j) due h)
        (All-imp (λ x. (name_of x == n) ≡ true) (λ x. name_of x ≡ n)
          (λ x e. eq_of_== (name_of x) n e) (with_key name_of n due)
          (All-select_self (λ x. name_of x == n) due)),
    pipelines_of due names h,
  )

  pipelines_nil : (s : Store) → process_pipelines key now dispatch [] s ≡ s
  unfolding process_pipelines
  pipelines_nil s = refl

  pipelines_in_turn :
      (g : String × List DlqJob) (gs : List (String × List DlqJob)) (s : Store)
      → process_pipelines key now dispatch (g ∷ gs) s
        ≡ process_pipelines key now dispatch gs (process_pipelines key now dispatch (g ∷ []) s)
  unfolding process_pipelines
  pipelines_in_turn g gs s = refl

  pipelines_missed :
      (g : String × List DlqJob) (s : Store)
      → hits_of j.id g ≡ 0
      → view j.id (process_pipelines key now dispatch (g ∷ []) s) ≡ view j.id s
  unfolding process_pipelines
  pipelines_missed g s h = pipeline_untouched key j [] now (dispatch g.0) g.1 s h

  pipelines_hit :
      (a : List DlqJobArchive) (g : String × List DlqJob) (s : Store)
      → Fits g
      → hits_of j.id g ≡ 1
      → view j.id s ≡ (j ∷ [], a)
      → Settled key
          (take_up j)
          a
          now
          (dispatch (name_of j))
          (view j.id (process_pipelines key now dispatch (g ∷ []) s))
  unfolding process_pipelines Fits
  pipelines_hit a g s fits one old =
      let named : name_of j ≡ g.0 =
        key_of_all j.id name_of j g.0 g.1 one
          (All-imp (IsOne key j [] now g.0) (IsOnly j.id j) (λ x o. o.0) g.1 fits)
          (All-imp (IsOne key j [] now g.0) (λ x. name_of x ≡ g.0) (λ x o. o.1) g.1 fits) in
      subst
        (λ (n : String).
          Settled key (take_up j) a now (dispatch n)
            (view j.id (process_pipelines key now dispatch (g ∷ []) s)))
        (sym named) (pipeline_once key j a now (dispatch g.0) g.0 g.1 s one fits old)

alone : (j : DlqJob) (b : Bool) → sum (hit j.id) (if b then j ∷ [] else []) ≡ (if b then 1 else 0)
alone j true = rw (==_refl j.id) (omega arith)
alone j false = refl

module _ (locked : DlqJob → Bool) (j : DlqJob) (now : ℕ) (s : Store)
    (row : select (has_id j.id) s.jobs ≡ j ∷ []) where
  due_hit :
      (b : Bool)
      → is_due_job locked now j ≡ b
      → sum (hit j.id) (select (is_due_job locked now) s.jobs) ≡ (if b then 1 else 0)
  unfolding select
  due_hit b h = sum-select j.id (is_due_job locked now) s.jobs ∙ rw (row, h) (alone j b)

  due-IsOnly : All (IsOnly j.id j) (select (is_due_job locked now) s.jobs)
  due-IsOnly =
      All-select (is_due_job locked now) (IsOnly j.id j) s.jobs
        (select-IsOnly j.id j s.jobs (subst (All (IsOnly j.id j)) (sym row) ((λ e. refl), tt)))

-- After a poll, a job that is alone with its id: if it was pending, due and not locked, it was
-- dispatched in one execution with jobs of its pipeline that have its params, among which it is once,
-- and it is completed with the id of that execution; or, if the dispatch has failed, it waits for its
-- next try with one more retry counted, or is in the archive, at its last retry, and no longer in the
-- table. Else, or if the poll's commit fails, its row is as it was, and so are its archived rows.
pub poll_settles :
    (key : DlqJob → String) (locked : DlqJob → Bool) (commits : Bool) (now : ℕ)
    (dispatch : Dispatch) (j : DlqJob) (s : Store)
    → select (has_id j.id) s.jobs ≡ j ∷ []
    → Polled key j now dispatch commits
        (is_due_job locked now j)
        (view j.id s)
        (view j.id (poll_and_process key locked commits now dispatch s))
unfolding poll_and_process
poll_settles key locked commits now dispatch j s row = elim (Bool-cases commits) [
  | inr c ↦ rw c refl
  | inl c ↦
      let due = select (is_due_job locked now) s.jobs in
      let groups = group_loop name_of due [] in
      let archives = select (λ a. archive_id a == j.id) s.archive in
      let hits = sum-grouped j.id name_of due in
      rw c (elim (Bool-cases (is_due_job locked now j)) [
        | inr d ↦ rw d (
            untouched j.id (hits_of j.id) (process_pipelines key now dispatch)
              (pipelines_nil key j now dispatch) (pipelines_in_turn key j now dispatch)
              (pipelines_missed key j now dispatch) groups s
              (hits ∙ due_hit locked j now s row false d))
        | inl d ↦
            let (g, fits, one, out) =
              once j.id (hits_of j.id) (process_pipelines key now dispatch)
                (pipelines_nil key j now dispatch) (pipelines_in_turn key j now dispatch)
                (pipelines_missed key j now dispatch) (Fits key j now dispatch)
                (λ g w. Settled key (take_up j) archives now (dispatch (name_of j)) w)
                (j ∷ [], archives)
                (λ g u fits one old. pipelines_hit key j now dispatch archives g u fits one old)
                groups s (hits ∙ due_hit locked j now s row true d)
                (subst (All (Fits key j now dispatch)) (sym (group_loop_correct name_of due)) (
                  pipelines_of key j now dispatch due (unique (map name_of due))
                    (due-IsOnly locked j now s row)))
                (rw row refl) in
            rw d out
      ])
]
