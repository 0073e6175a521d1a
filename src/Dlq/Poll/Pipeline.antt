-- ===== src/Dlq/Poll/Pipeline.antt =====
-- What becomes of a dead letter when its pipeline is processed: `_process_pipeline_jobs` of
-- reflowfy/reflow_manager/dlq_scheduler.py.
use reflowfy.Prelude.{
  ℕ, String, true, List, [], ◌∷◌, map, ◌⊎◌, ◌==◌, nat_eq, string_eq, ◌≡◌, refl, sym, ap, ◌∙◌, All,
  All-imp, eq_of_==, unique,
}
use mathlib.Core.Path.{subst}
use reflowfy.Prelude.Sql.{count, All-select, All-select_self}
use reflowfy.Dlq.{
  DlqJob, DlqJobArchive, Store, has_id, take_up, mark_processing, group_loop, group_by_params,
  process_groups, process_pipeline_jobs,
}
use reflowfy.Dlq.Groups.{with_key, group_by_params_correct}
use reflowfy.Dlq.Poll.{name_of}
use reflowfy.Dlq.Poll.View.{View, view, after, take_up_ne, take_up_self}
use reflowfy.Dlq.Poll.Once.{
  sum, sum-map, untouched, once, hit, IsOnly, sum-count, sum-grouped, key_of_all,
}
use reflowfy.Dlq.Poll.Settle.{
  each_untouched, each_once, settle_untouched, settle_once, process_groups-nil, process_groups-one,
  process_groups-in_turn,
}

-- All jobs of a group have one key.
abbrev HasOne : (DlqJob → String) → List DlqJob → Type 0
HasOne key g = (name : String) × All (λ x. key x ≡ name) g

groups_of :
    (P : DlqJob → Type 0) (key : DlqJob → String) (jobs : List DlqJob) (names : List String)
    → All P jobs
    → All (λ g. All P g × HasOne key g) (map (λ n. with_key key n jobs) names)
groups_of P key jobs [] h = tt
groups_of P key jobs (n ∷ names) h = (
  (
    All-select (λ x. key x == n) P jobs h,
    (
      n,
      All-imp (λ x. (key x == n) ≡ true) (λ x. key x ≡ n) (λ x e. eq_of_== (key x) n e)
          (with_key key n jobs) (All-select_self (λ x. key x == n) jobs),
    ),
  ),
  groups_of P key jobs names h,
)

sum-take_up : (i : ℕ) (jobs : List DlqJob) → sum (hit i) (map take_up jobs) ≡ sum (hit i) jobs
sum-take_up i jobs = sum-map (hit i) take_up jobs

All-take_up :
    (P Q : DlqJob → Type 0)
    → ((x : DlqJob) → P x → Q (take_up x))
    → (jobs : List DlqJob) → All P jobs
    → All Q (map take_up jobs)
All-take_up P Q f [] h = tt
All-take_up P Q f (x ∷ xs) h = (f x h.0, All-take_up P Q f xs h.1)

sum-group_by_params :
    (i : ℕ) (key : DlqJob → String) (jobs : List DlqJob)
    → sum (λ g. sum (hit i) g) (group_by_params key jobs) ≡ sum (hit i) jobs
unfolding group_by_params
sum-group_by_params i key jobs =
    sum-map (λ g. sum (hit i) g) (λ g. g.1) (group_loop key jobs []) ∙ sum-grouped i key jobs

-- What has become of `k` by a group in which it was dispatched.
pub record Settled (key : DlqJob → String) (k : DlqJob) (a : List DlqJobArchive) (now : ℕ)
    (dispatch : List DlqJob → String ⊎ String) (w : View) : Type 0 where
  pub members : List DlqJob
  pub own : count (has_id k.id) members ≡ 1
  pub same_params : All (λ x. key x ≡ key k) members
  pub same_pipeline : All (λ x. name_of x ≡ name_of k) members
  pub outcome : w ≡ after now (dispatch members) k a

module _ (key : DlqJob → String) (j : DlqJob) (a : List DlqJobArchive) (now : ℕ) where
  mark_untouched :
      (jobs : List DlqJob) (s : Store)
      → sum (hit j.id) jobs ≡ 0
      → view j.id (mark_processing jobs s) ≡ view j.id s
  unfolding mark_processing
  mark_untouched =
      each_untouched j a (j ∷ [], a) (j ∷ [], a) mark_processing (λ s. refl) (λ x xs s. refl)
        (take_up_ne j.id)

  mark_once :
      (jobs : List DlqJob) (s : Store)
      → sum (hit j.id) jobs ≡ 1
      → All (IsOnly j.id j) jobs
      → view j.id s ≡ (j ∷ [], a)
      → view j.id (mark_processing jobs s) ≡ (take_up j ∷ [], a)
  unfolding mark_processing
  mark_once =
      each_once j a (j ∷ [], a) (take_up j ∷ [], a) mark_processing (λ s. refl) (λ x xs s. refl)
        (take_up_ne j.id) (take_up_self j a)

  abbrev pub IsOne : String → DlqJob → Type 0
  IsOne name x = IsOnly j.id j x × (name_of x ≡ name)

  abbrev WasOne : String → DlqJob → Type 0
  WasOne name x = IsOnly j.id (take_up j) x × (name_of x ≡ name)

  abbrev Fits : String → List DlqJob → Type 0
  Fits name g = All (WasOne name) g × HasOne key g

  onlys : (name : String) (g : List DlqJob) → All (WasOne name) g → All (IsOnly j.id (take_up j)) g
  onlys name = All-imp (WasOne name) (IsOnly j.id (take_up j)) (λ x o. o.0)

  names : (name : String) (g : List DlqJob) → All (WasOne name) g → All (λ x. name_of x ≡ name) g
  names name = All-imp (WasOne name) (λ x. name_of x ≡ name) (λ x o. o.1)

  -- A group with the job has the job's key.
  keys_of :
      (f : DlqJob → String) (g : List DlqJob)
      → sum (hit j.id) g ≡ 1
      → All (IsOnly j.id (take_up j)) g
      → (name : String) → All (λ x. f x ≡ name) g
      → All (λ x. f x ≡ f (take_up j)) g
  keys_of f g one only name all =
      All-imp (λ x. f x ≡ name) (λ x. f x ≡ f (take_up j))
        (λ x e. e ∙ sym (key_of_all j.id f (take_up j) name g one only all)) g all

  module _ (dispatch : List DlqJob → String ⊎ String) where
    group_untouched :
        (g : List DlqJob) (s : Store)
        → sum (hit j.id) g ≡ 0
        → view j.id (process_groups now dispatch (g ∷ []) s) ≡ view j.id s
    group_untouched g s h =
        ap (view j.id) (process_groups-one (take_up j) a now dispatch g s)
        ∙ settle_untouched (take_up j) a now (dispatch g) g s h

    groups_hit :
        (jobs : List DlqJob)
        → sum (λ g. sum (hit j.id) g) (group_by_params key (map take_up jobs)) ≡ sum (hit j.id) jobs
    groups_hit jobs = sum-group_by_params j.id key (map take_up jobs) ∙ sum-take_up j.id jobs

    pub pipeline_untouched :
        (jobs : List DlqJob) (s : Store)
        → sum (hit j.id) jobs ≡ 0
        → view j.id (process_pipeline_jobs key now dispatch jobs s) ≡ view j.id s
    unfolding process_pipeline_jobs
    pipeline_untouched jobs s h =
        untouched j.id (λ g. sum (hit j.id) g) (process_groups now dispatch)
          (process_groups-nil (take_up j) a now dispatch)
          (process_groups-in_turn (take_up j) a now dispatch) group_untouched
          (group_by_params key (map take_up jobs)) (mark_processing jobs s) (groups_hit jobs ∙ h)
        ∙ mark_untouched jobs s h

    pub pipeline_once :
        (name : String) (jobs : List DlqJob) (s : Store)
        → sum (hit j.id) jobs ≡ 1
        → All (IsOne name) jobs
        → view j.id s ≡ (j ∷ [], a)
        → Settled key
            (take_up j)
            a
            now
            dispatch
            (view j.id (process_pipeline_jobs key now dispatch jobs s))
    unfolding process_pipeline_jobs
    pipeline_once name jobs s h all old =
        let marked = map take_up jobs in
        let fit : All (WasOne name) marked =
          All-take_up (IsOne name) (WasOne name) (λ x o. (λ e. ap take_up (o.0 e), o.1)) jobs all in
        let groups : All (Fits name) (group_by_params key marked) =
          subst (All (Fits name)) (sym (group_by_params_correct key marked))
            (groups_of (WasOne name) key marked (unique (map key marked)) fit) in
        let (g, fits, one, out) =
          once j.id (λ g. sum (hit j.id) g) (process_groups now dispatch)
            (process_groups-nil (take_up j) a now dispatch)
            (process_groups-in_turn (take_up j) a now dispatch) group_untouched (Fits name)
            (λ g w. w ≡ after now (dispatch g) (take_up j) a) (take_up j ∷ [], a)
            (λ g u fits one was.
              ap (view j.id) (process_groups-one (take_up j) a now dispatch g u)
              ∙ settle_once (take_up j) a now (dispatch g) g u one (onlys name g fits.0) was)
            (group_by_params key marked) (mark_processing jobs s) (groups_hit jobs ∙ h) groups
            (mark_once jobs s h (All-imp (IsOne name) (IsOnly j.id j) (λ x o. o.0) jobs all) old) in
        record {
          members = g;
          own = sym (sum-count j.id g) ∙ one;
          same_params = keys_of key g one (onlys name g fits.0) (fits.1.0) (fits.1.1);
          same_pipeline = keys_of name_of g one (onlys name g fits.0) name (names name g fits.0);
          outcome = out;
        }
