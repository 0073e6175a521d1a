-- ===== src/Schedules/Sync.antt =====
-- The rows of the schedules after a start: `sync_schedules_from_registry` of
-- reflowfy/reflow_manager/pipeline_scheduler.py.
use reflowfy.Prelude.{
  ℕ, String, Bool, true, false, ◌&&◌, Option, none, some, List, [], ◌∷◌, ◌++◌, if◌then◌else◌, ◌==◌,
  string_eq, ◌≡◌, refl, ap, ◌∙◌, arith, inl, inr, Bool-cases, Option-cases, All,
}
use mathlib.Core.Path.{subst}
use mathlib.Core.Option
use reflowfy.Prelude.Sql.{update, any}
use reflowfy.Json.{Json}
use reflowfy.Schedules.{
  PipelineSchedule, ScheduledRun, Table, is_named, is_run, is_undeclared, new_schedule, refresh,
  sync_run, sync_runs, sync_schedules_from_registry,
}

-- The row of a schedule, and the run that declares it.
unfoldable pub find_row : String → String → Table → Option PipelineSchedule
find_row pipeline name [] = none
find_row pipeline name (s ∷ t) =
    let rest = find_row pipeline name t in if is_named pipeline name s then some s else rest

unfoldable pub declared : String → String → List ScheduledRun → Option ScheduledRun
declared pipeline name [] = none
declared pipeline name (r ∷ runs) =
    let rest = declared pipeline name runs in if is_run pipeline name r then some r else rest

-- A pipeline has one schedule of a name, and a registry one pipeline of a name.
abbrev pub AreDistinct : List ScheduledRun → Type 0
AreDistinct [] = Unit
AreDistinct (r ∷ runs) = All (λ q. is_run r.pipeline_name r.name q ≡ false) runs × AreDistinct runs

any_find :
    (pipeline name : String) (t : Table)
    → any (is_named pipeline name) t ≡ false
    → find_row pipeline name t ≡ none
unfolding any find_row
any_find pipeline name [] h = refl
any_find pipeline name (s ∷ t) h = ground (arith, any_find pipeline name t)

find_any :
    (pipeline name : String) (t : Table)
    → any (is_named pipeline name) t ≡ true
    → (s : PipelineSchedule) × (find_row pipeline name t ≡ some s)
unfolding any find_row
find_any pipeline name [] h = cc h
find_any pipeline name (s ∷ t) h = elim (Bool-cases (is_named pipeline name s)) [
  | inl e ↦ (s, rw e refl)
  | inr e ↦ let (u, f) = find_any pipeline name t (rw e at h) in (u, rw e f)
]

find-append :
    (pipeline name : String) (t : Table) (s : PipelineSchedule)
    → find_row pipeline name (t ++ s ∷ []) ≡ (elim (find_row pipeline name t) [
      | none ↦ if is_named pipeline name s then some s else none
      | some u ↦ some u
    ])
unfolding find_row
find-append pipeline name [] s = refl
find-append pipeline name (u ∷ t) s = elim (Bool-cases (is_named pipeline name u)) [
  | inl e ↦ rw e refl
  | inr e ↦ rw e (find-append pipeline name t s)
]

-- A statement that keeps the names.
find-update :
    (q : PipelineSchedule → Bool) (f : PipelineSchedule → PipelineSchedule)
    → ((s : PipelineSchedule) (p n : String) → is_named p n (f s) ≡ is_named p n s)
    → (pipeline name : String) (t : Table)
    → find_row pipeline name (update q f t)
      ≡ Option.map (λ s. if q s then f s else s) (find_row pipeline name t)
unfolding find_row update
find-update q f keeps pipeline name [] = refl
find-update q f keeps pipeline name (s ∷ t) = elim (Bool-cases (q s)) [
  | inl h ↦ elim (Bool-cases (is_named pipeline name s)) [
    | inl e ↦ rw (h, keeps s pipeline name, e) (rw h refl)
    | inr e ↦ rw (h, keeps s pipeline name, e) (find-update q f keeps pipeline name t)
  ]
  | inr h ↦ elim (Bool-cases (is_named pipeline name s)) [
    | inl e ↦ rw (h, e) (rw h refl)
    | inr e ↦ rw (h, e) (find-update q f keeps pipeline name t)
  ]
]

found_named :
    (pipeline name : String) (t : Table) (s : PipelineSchedule)
    → find_row pipeline name t ≡ some s
    → is_named pipeline name s ≡ true
unfolding find_row
found_named pipeline name [] s h = cc h
found_named pipeline name (u ∷ t) s h = elim (Bool-cases (is_named pipeline name u)) [
  | inl e ↦
      let same = rw e at h in
      subst
        (λ (o : Option PipelineSchedule). elim o [
          | none ↦ Unit
          | some x ↦ is_named pipeline name x ≡ true
        ])
        same e
  | inr e ↦ found_named pipeline name t s (rw e at h)
]

named_apart :
    (pipeline name : String) (s : PipelineSchedule) (r : ScheduledRun)
    → is_named pipeline name s ≡ true
    → is_run pipeline name r ≡ false
    → is_named r.pipeline_name r.name s ≡ false
named_apart pipeline name s r named other = ground (
  arith,
  string_eq.decides s.pipeline_name pipeline,
  string_eq.decides s.schedule_name name,
  string_eq.decides r.pipeline_name pipeline,
  string_eq.decides r.name name,
  string_eq.decides s.pipeline_name r.pipeline_name,
  string_eq.decides s.schedule_name r.name,
)

module _ (compute_next_run : String → ℕ → ℕ) (same : Json → Json → Bool) where
  -- The row of a declared schedule: new, or the old one with the declaration's cron expression and
  -- parameters, which keeps its next time if the expression is the old one.
  abbrev pub synced : ℕ → ScheduledRun → Option PipelineSchedule → PipelineSchedule
  synced now r none = record {
    pipeline_name = r.pipeline_name;
    schedule_name = r.name;
    cron_expression = r.cron;
    runtime_params = r.params;
    next_run_at = compute_next_run r.cron now;
    last_triggered_at = none;
    last_execution_id = none;
    enabled = true;
  }
  synced now r (some s) = record {
    pipeline_name = s.pipeline_name;
    schedule_name = s.schedule_name;
    cron_expression = r.cron;
    runtime_params = if same s.runtime_params r.params then s.runtime_params else r.params;
    next_run_at =
        if s.cron_expression == r.cron then s.next_run_at else compute_next_run r.cron now;
    last_triggered_at = s.last_triggered_at;
    last_execution_id = s.last_execution_id;
    enabled = true;
  }

  sync_own :
      (now : ℕ) (r : ScheduledRun) (t : Table)
      → find_row r.pipeline_name r.name (sync_run compute_next_run same now r t)
        ≡ some (synced now r (find_row r.pipeline_name r.name t))
  unfolding sync_run
  sync_own now r t = elim (Bool-cases (any (is_named r.pipeline_name r.name) t)) [
    | inl e ↦
        let (s, f) = find_any r.pipeline_name r.name t e in
        let named = found_named r.pipeline_name r.name t s f in
        rw (e, sync_run)
          (find-update (is_named r.pipeline_name r.name) (refresh compute_next_run same now r)
              (λ s p n. refl) r.pipeline_name r.name t
            ∙ rw (f, named) (refl))
    | inr e ↦
        let f = any_find r.pipeline_name r.name t e in
        rw (e, sync_run)
          (find-append r.pipeline_name r.name t (new_schedule compute_next_run now r)
            ∙ rw f (
                ground (
                  arith,
                  string_eq.decides r.pipeline_name r.pipeline_name,
                  string_eq.decides r.name r.name,
                )))
  ]

  sync_other :
      (now : ℕ) (r : ScheduledRun) (t : Table) (pipeline name : String)
      → is_run pipeline name r ≡ false
      → find_row pipeline name (sync_run compute_next_run same now r t) ≡ find_row pipeline name t
  unfolding sync_run
  sync_other now r t pipeline name other =
      elim (Bool-cases (any (is_named r.pipeline_name r.name) t)) [
        | inl e ↦
            rw (e, sync_run)
              (find-update (is_named r.pipeline_name r.name) (refresh compute_next_run same now r)
                  (λ s p n. refl) pipeline name t
                ∙ elim (Option-cases (find_row pipeline name t)) [
                  | inl f ↦ rw f refl
                  | inr f ↦
                      let named = found_named pipeline name t f.0 f.1 in
                      let miss : is_named r.pipeline_name r.name f.0 ≡ false =
                        named_apart pipeline name f.0 r named other in
                      rw (f.1, miss) refl
                ])
        | inr e ↦
            rw (e, sync_run)
              (find-append pipeline name t (new_schedule compute_next_run now r)
                ∙ elim (Option-cases (find_row pipeline name t)) [
                  | inl f ↦ rw (f, other) refl
                  | inr f ↦ rw (f.1) refl
                ])
      ]

  sync_named :
      (now : ℕ) (r : ScheduledRun) (t : Table) (pipeline name : String)
      → is_run pipeline name r ≡ true
      → find_row pipeline name (sync_run compute_next_run same now r t)
        ≡ some (synced now r (find_row pipeline name t))
  sync_named now r t pipeline name e =
      let p : pipeline ≡ r.pipeline_name =
        ground (arith, string_eq.decides r.pipeline_name pipeline) in
      let n : name ≡ r.name =
        ground (arith, string_eq.decides r.name name, string_eq.decides r.pipeline_name pipeline) in
      rw (p, n) (sync_own now r t)

  -- The row of a name after all the runs.
  abbrev pub synced_by : ℕ → Option ScheduledRun → Option PipelineSchedule → Option PipelineSchedule
  synced_by now none o = o
  synced_by now (some r) o = some (synced now r o)

  undeclared :
      (pipeline name : String) (r : ScheduledRun) (runs : List ScheduledRun)
      → is_run pipeline name r ≡ true
      → All (λ q. is_run r.pipeline_name r.name q ≡ false) runs
      → declared pipeline name runs ≡ none
  unfolding declared
  undeclared pipeline name r [] e h = refl
  undeclared pipeline name r (q ∷ runs) e h = ground (
    arith,
    undeclared pipeline name r runs e h.1,
    h.0,
    string_eq.decides r.pipeline_name pipeline,
    string_eq.decides r.name name,
    string_eq.decides q.pipeline_name pipeline,
    string_eq.decides q.name name,
    string_eq.decides q.pipeline_name r.pipeline_name,
    string_eq.decides q.name r.name,
  )

  sync_all :
      (now : ℕ) (runs : List ScheduledRun) (t : Table) (pipeline name : String)
      → AreDistinct runs
      → find_row pipeline name (sync_runs compute_next_run same now runs t)
        ≡ synced_by now (declared pipeline name runs) (find_row pipeline name t)
  unfolding sync_runs declared
  sync_all now [] t pipeline name d = refl
  sync_all now (r ∷ runs) t pipeline name d = elim (Bool-cases (is_run pipeline name r)) [
    | inl e ↦
        sync_all now runs (sync_run compute_next_run same now r t) pipeline name d.1
        ∙ rw (e, undeclared pipeline name r runs e d.0) (sync_named now r t pipeline name e)
    | inr e ↦
        sync_all now runs (sync_run compute_next_run same now r t) pipeline name d.1
        ∙ rw (e, sync_other now r t pipeline name e) refl
  ]

  any-declared :
      (pipeline name : String) (runs : List ScheduledRun)
      → any (is_run pipeline name) runs
        ≡ (elim (declared pipeline name runs) [ none ↦ false | some r ↦ true ])
  unfolding any declared
  any-declared pipeline name [] = refl
  any-declared pipeline name (r ∷ runs) = elim (Bool-cases (is_run pipeline name r)) [
    | inl e ↦ rw e refl
    | inr e ↦ rw e (any-declared pipeline name runs)
  ]

  -- What a name has after the sync, by what declares it and the row that it had.
  abbrev pub expected : ℕ → Option ScheduledRun → Option PipelineSchedule → Option PipelineSchedule
  expected now (some r) o = some (synced now r o)
  expected now none none = none
  expected now none (some s) = some (record s { enabled = false })

  row_declared :
      (pipeline name : String) (s : PipelineSchedule) (runs : List ScheduledRun)
      → is_named pipeline name s ≡ true
      → any (is_run s.pipeline_name s.schedule_name) runs ≡ any (is_run pipeline name) runs
  row_declared pipeline name s runs named =
      let p : s.pipeline_name ≡ pipeline =
        ground (arith, string_eq.decides s.pipeline_name pipeline) in
      let n : s.schedule_name ≡ name = ground (
        arith,
        string_eq.decides s.pipeline_name pipeline,
        string_eq.decides s.schedule_name name,
      ) in
      λ i. any (is_run (p i) (n i)) runs

  abbrev disable : List ScheduledRun → PipelineSchedule → PipelineSchedule
  disable runs s = if s.enabled && is_undeclared runs s then record s { enabled = false } else s

  disable-declared :
      (pipeline name : String) (s : PipelineSchedule) (runs : List ScheduledRun) (r : ScheduledRun)
      → is_named pipeline name s ≡ true
      → declared pipeline name runs ≡ some r
      → disable runs s ≡ s
  disable-declared pipeline name s runs r named d =
      let there : any (is_run s.pipeline_name s.schedule_name) runs ≡ true =
        row_declared pipeline name s runs named ∙ any-declared pipeline name runs ∙ rw d refl in
      rw there (elim (Bool-cases s.enabled) [ inl e ↦ rw e refl | inr e ↦ rw e refl ])

  disable_undeclared :
      (pipeline name : String) (s : PipelineSchedule) (runs : List ScheduledRun)
      → is_named pipeline name s ≡ true
      → declared pipeline name runs ≡ none
      → disable runs s ≡ record s { enabled = false }
  disable_undeclared pipeline name s runs named d =
      let gone : any (is_run s.pipeline_name s.schedule_name) runs ≡ false =
        row_declared pipeline name s runs named ∙ any-declared pipeline name runs ∙ rw d refl in
      rw gone (elim (Bool-cases s.enabled) [
        | inl e ↦ simp e refl
        | inr e ↦ simp e (ap (λ b. record s { enabled = b }) e)
      ])

  -- After a sync each schedule that a run declares has a row with the run's cron expression and
  -- parameters that is enabled: a new one with the next time from now, or the old one, which keeps its
  -- next time if its expression was the same and its last execution in any case; each other row is
  -- disabled and else as it was, and no other name has a row. The declared schedules have distinct names.
  pub sync_schedules_correct :
      (now : ℕ) (runs : List ScheduledRun) (t : Table) (pipeline name : String)
      → AreDistinct runs
      → find_row pipeline name (sync_schedules_from_registry compute_next_run same now runs t)
        ≡ expected now (declared pipeline name runs) (find_row pipeline name t)
  unfolding sync_schedules_from_registry
  sync_schedules_correct now runs t pipeline name d =
      let synced_t = sync_runs compute_next_run same now runs t in
      find-update (λ s. s.enabled && is_undeclared runs s) (λ s. record s { enabled = false })
        (λ s p n. refl) pipeline name synced_t
      ∙ elim (Option-cases (declared pipeline name runs)) [
        | inr r ↦
            let f =
              sync_all now runs t pipeline name d
              ∙ ap (λ o. synced_by now o (find_row pipeline name t)) r.1 in
            let row = synced now r.0 (find_row pipeline name t) in
            let named = found_named pipeline name synced_t row f in
            rw (f, r.1) (ap some (disable-declared pipeline name row runs r.0 named r.1))
        | inl r ↦
            let f =
              sync_all now runs t pipeline name d
              ∙ ap (λ o. synced_by now o (find_row pipeline name t)) r in
            elim (Option-cases (find_row pipeline name t)) [
              | inl o ↦ rw (f, r, o) refl
              | inr o ↦
                  let named = found_named pipeline name t o.0 o.1 in
                  rw (f, r, o.1) (ap some (disable_undeclared pipeline name o.0 runs named r))
            ]
      ]
