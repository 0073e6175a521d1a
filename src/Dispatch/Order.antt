-- ===== src/Dispatch/Order.antt =====
-- The order of a batch: dispatch_jobs_batch of reflowfy/reflow_manager/dispatcher.py and of
-- reflowfy/reflow_manager/local_dispatcher.py.
use reflowfy.Prelude.{
  ℕ, ◌+◌, Bool, true, false, Option, none, some, List, [], ◌∷◌, ◌++◌, map, ◌≡◌, refl, sym, ap, ◌∙◌,
  ◌⊎◌, inl, inr, arith, Bool-cases, if◌then◌else◌,
}
use mathlib.Core.List.{append-nil, append_assoc}
use mathlib.Core.Option.{some-ne-none}
use reflowfy.Dispatch.{
  Port, Sent, kafka_loop, dispatch_jobs_batch, local_loop, local_dispatch_jobs_batch,
}

-- What a dispatcher tells its caller of a job.
pub record Report {ℓ} (J : Type ℓ) : Type ℓ where
  pub job : J
  pub was_sent : Bool

-- The replies of the sends, and what the callbacks are told, written down.
pub record Log {ℓ} (J : Type ℓ) : Type ℓ where
  pub replies : List (J × Sent)
  pub reports : List (Report J)

abbrev pub empty_log {ℓ} : {J : Type ℓ} → Log J
empty_log = record { replies = []; reports = [] }

abbrev pub replied {ℓ} : {J : Type ℓ} → J → Sent → Log J → Log J
replied job r log = record { replies = log.replies ++ (job, r) ∷ []; reports = log.reports }

abbrev pub told {ℓ} : {J : Type ℓ} → Report J → Log J → Log J
told e log = record { replies = log.replies; reports = log.reports ++ e ∷ [] }

abbrev pub logged {ℓ κ} : {J : Type ℓ} {S : Type κ} → Port J S → Port J (S × Log J)
logged port = record {
  should_stop = λ chunk s. let (b, s') = port.should_stop chunk s.0 in (b, (s', s.1));
  acquire = λ s. let (b, s') = port.acquire s.0 in (b, (s', s.1));
  send = λ job s. let (r, s') = port.send job s.0 in (r, (s', replied job r s.1));
  on_sent = λ job s. (port.on_sent job s.0, told (record { job = job; was_sent = true }) s.1);
  has_on_unsendable = port.has_on_unsendable;
  on_unsendable =
      λ job s. (port.on_unsendable job s.0, told (record { job = job; was_sent = false }) s.1);
}

-- What a reply has to be told as, and none where nothing is.
abbrev pub told_as : (has_on_unsendable : Bool) → Sent → Option Bool
told_as has Sent.sent = some true
told_as true Sent.too_large = some false
told_as false Sent.too_large = none
told_as has Sent.kafka_error = none

-- A job that is run in the process counts as sent.
abbrev pub told_sent : Sent → Option Bool
told_sent r = some true

abbrev pub one_if_sent : Option Bool → ℕ
one_if_sent (some true) = 1
one_if_sent _ = 0

module _ {ℓ} {J : Type ℓ} (tells : Sent → Option Bool) where
  abbrev pub add_report : J → Option Bool → List (Report J) → List (Report J)
  add_report job none es = es
  add_report job (some b) es = record { job = job; was_sent = b } ∷ es

  abbrev pub reports_of : List (J × Sent) → List (Report J)
  reports_of [] = []
  reports_of (x ∷ xs) = add_report x.0 (tells x.1) (reports_of xs)

  abbrev pub sent_among : List (J × Sent) → ℕ
  sent_among [] = 0
  sent_among (x ∷ xs) = one_if_sent (tells x.1) + sent_among xs

  -- A reply that nothing is told of is the last one.
  abbrev pub IsRun : List (J × Sent) → Type ℓ
  IsRun [] = Unit
  IsRun (x ∷ xs) = (tells x.1 ≡ none → xs ≡ []) × IsRun xs

pub Sent-cases : (r : Sent) → (r ≡ Sent.sent) ⊎ ((r ≡ Sent.too_large) ⊎ (r ≡ Sent.kafka_error))
Sent-cases Sent.sent = inl refl
Sent-cases Sent.too_large = inr (inl refl)
Sent-cases Sent.kafka_error = inr (inr refl)

-- A batch: its first jobs are sent, in their order and each once, up to one that nothing is told of;
-- the callbacks are told what the replies say; and the returned number is that of the jobs sent.
-- `plain` is the same run without the log.
abbrev pub Reported {ℓ κ} :
    {J : Type ℓ} {S : Type κ}
    → (Sent → Option Bool)
    → List J
    → ℕ
    → Log J
    → ℕ × S
    → ℕ × (S × Log J)
    → Type (ℓ ⊔ κ)
Reported {J} tells jobs n log plain r =
    (replies : List (J × Sent)) × (rest : List J) × (r.1.1.replies ≡ log.replies ++ replies)
    × (r.1.1.reports ≡ log.reports ++ reports_of tells replies)
    × (map (λ x. x.0) replies ++ rest ≡ jobs)
    × IsRun tells replies
    × (r.0 ≡ n + sent_among tells replies)
    × (r.0 ≡ plain.0)
    × (r.1.0 ≡ plain.1)

module _ {ℓ κ} {J : Type ℓ} {S : Type κ} (tells : Sent → Option Bool) where
  none-Reported :
      (jobs : List J) (n : ℕ) (s : S) (log : Log J) → Reported tells jobs n log (n, s) (n, (s, log))
  none-Reported jobs n s log = (
    [],
    jobs,
    sym (append-nil log.replies),
    sym (append-nil log.reports),
    refl,
    tt,
    omega arith,
    refl,
    refl,
  )

  -- A job that is sent and of which nothing is told ends the batch.
  last-Reported :
      (job : J) (jobs : List J) (r : Sent) (n : ℕ) (s : S) (log : Log J)
      → tells r ≡ none
      → Reported tells (job ∷ jobs) n log (n, s) (n, (s, replied job r log))
  last-Reported job jobs r n s log h = (
    (job, r) ∷ [],
    jobs,
    refl,
    rw h (sym (append-nil log.reports)),
    refl,
    ((λ q. refl), tt),
    rw h (omega arith),
    refl,
    refl,
  )

  one-Reported :
      (job : J) (b : Bool) (jobs : List J) (reply : Sent) (n m : ℕ) (log : Log J) (plain : ℕ × S)
      (r : ℕ × (S × Log J))
      → tells reply ≡ some b
      → m ≡ n + (if b then 1 else 0)
      → Reported tells jobs m
          (told (record { job = job; was_sent = b }) (replied job reply log))
          plain
          r
      → Reported tells (job ∷ jobs) n log plain r
  one-Reported job b jobs reply n m log plain r h k
        (replies, rest, sends, tells_of, order, run, number, same_number, same_state) =
      (
        (job, reply) ∷ replies,
        rest,
        sends ∙ append_assoc log.replies ((job, reply) ∷ []) replies,
        rw h (
            tells_of
            ∙ append_assoc log.reports (record { job = job; was_sent = b } ∷ [])
                (reports_of tells replies)),
        ap (◌∷◌ job) order,
        ((λ q. absurd (some-ne-none b (sym h ∙ q))), run),
        elim (Bool-cases b) [
          | inl e ↦ rw (h, e) (omega (arith, number, rw e at k))
          | inr e ↦ rw (h, e) (omega (arith, number, rw e at k))
        ],
        same_number,
        same_state,
      )

module _ {ℓ κ} {J : Type ℓ} {S : Type κ} (port : Port J S) where
  kafka-Reported :
      (has : Bool)
      → port.has_on_unsendable ≡ has
      → (jobs : List J) (n : ℕ) (s : S) (log : Log J)
      → Reported
          (told_as has)
          jobs
          n
          log
          (kafka_loop port jobs n s)
          (kafka_loop (logged port) jobs n (s, log))
  unfolding kafka_loop
  kafka-Reported has given [] n s log = none-Reported (told_as has) [] n s log
  kafka-Reported has given (job ∷ jobs) n s log =
      let (stop, s1) = port.should_stop true s in
      let (token, s2) = port.acquire s1 in
      let (stop_now, s3) = port.should_stop false s2 in
      let (result, s4) = port.send job s3 in
      elim (Bool-cases stop) [
        | inl a ↦ rw a (none-Reported (told_as has) (job ∷ jobs) n s1 log)
        | inr a ↦ elim (Bool-cases token) [
          | inr b ↦ rw (a, b) (none-Reported (told_as has) (job ∷ jobs) n s2 log)
          | inl b ↦ elim (Bool-cases stop_now) [
            | inl c ↦ rw (a, b, c) (none-Reported (told_as has) (job ∷ jobs) n s3 log)
            | inr c ↦ elim (Sent-cases result) [
              | inl d ↦
                  rw (a, b, c, d)
                    (one-Reported (told_as has) job true jobs result n (n + 1) log _ _ (rw d refl)
                      refl
                      (kafka-Reported has given jobs (n + 1) (port.on_sent job s4)
                        (told (record { job = job; was_sent = true }) (replied job result log))))
              | inr (inl d) ↦ elim (Bool-cases has) [
                | inl e ↦
                    rw (a, b, c, d, given ∙ e)
                      (one-Reported (told_as has) job false jobs result n n log _ _ (rw (d, e) refl)
                        (omega arith)
                        (kafka-Reported has given jobs n (port.on_unsendable job s4)
                          (told (record { job = job; was_sent = false }) (replied job result log))))
                | inr e ↦
                    rw (a, b, c, d, given ∙ e)
                      (last-Reported (told_as has) job jobs result n s4 log (rw (d, e) refl))
              ]
              | inr (inr d) ↦
                  rw (a, b, c, d) (last-Reported (told_as has) job jobs result n s4 log (rw d refl))
            ]
          ]
        ]
      ]

  local-Reported :
      (limited : Bool) (jobs : List J) (n : ℕ) (s : S) (log : Log J)
      → Reported told_sent jobs n log
          (local_loop port limited jobs n s)
          (local_loop (logged port) limited jobs n (s, log))
  unfolding local_loop
  local-Reported limited [] n s log = none-Reported told_sent [] n s log
  local-Reported true (job ∷ jobs) n s log =
      let (stop, s1) = port.should_stop true s in
      let (token, s2) = port.acquire s1 in
      elim (Bool-cases stop) [
        | inl a ↦ rw a (none-Reported told_sent (job ∷ jobs) n s1 log)
        | inr a ↦ elim (Bool-cases token) [
          | inr b ↦ rw (a, b) (none-Reported told_sent (job ∷ jobs) n s2 log)
          | inl b ↦
              rw (a, b)
                (one-Reported told_sent job true jobs (port.send job s2).0 n (n + 1) log _ _ refl
                  refl
                  (local-Reported true jobs (n + 1) (port.on_sent job (port.send job s2).1) (
                    told (record { job = job; was_sent = true })
                      (replied job (port.send job s2).0 log))))
        ]
      ]
  local-Reported false (job ∷ jobs) n s log =
      let (stop, s1) = port.should_stop true s in
      elim (Bool-cases stop) [
        | inl a ↦ rw a (none-Reported told_sent (job ∷ jobs) n s1 log)
        | inr a ↦ rw a (
            one-Reported told_sent job true jobs (port.send job s1).0 n (n + 1) log _ _ refl refl (
              local-Reported false jobs (n + 1) (port.on_sent job (port.send job s1).1) (
                told (record { job = job; was_sent = true })
                  (replied job (port.send job s1).0 log))))
      ]

  -- A batch that is sent to Kafka: its first jobs are sent, in their order and each once. The callbacks
  -- are told of each of them, in that order and of no other job: that it was sent where Kafka has taken
  -- it, and that it can never be where it is too large and on_unsendable is given. A job with another
  -- reply is told of nowhere and is the last that is sent. The number that is returned is that of the
  -- jobs that Kafka has taken. Writing this down changes nothing else.
  pub dispatch_jobs_batch-Reported :
      (jobs : List J) (s : S)
      → Reported
          (told_as port.has_on_unsendable)
          jobs
          0
          empty_log
          (dispatch_jobs_batch port jobs s)
          (dispatch_jobs_batch (logged port) jobs (s, empty_log))
  unfolding dispatch_jobs_batch
  dispatch_jobs_batch-Reported jobs s =
      kafka-Reported port.has_on_unsendable refl jobs 0 s empty_log

  -- A batch that is run in the process: its callback is told of its first jobs, in their order and of
  -- each once, and of no other job; and the number that it returns is that of the jobs told of.
  pub local_dispatch_jobs_batch-Reported :
      (limited : Bool) (jobs : List J) (s : S)
      → Reported told_sent jobs 0 empty_log
          (local_dispatch_jobs_batch port limited jobs s)
          (local_dispatch_jobs_batch (logged port) limited jobs (s, empty_log))
  unfolding local_dispatch_jobs_batch
  local_dispatch_jobs_batch-Reported limited jobs s = local-Reported limited jobs 0 s empty_log
