-- ===== src/Cron/Due.antt =====
-- What src/cron.rs does with the jobs that are due, and with their history.
use dtcoder_test.Prelude.{
  ℕ, ◌-◌, ◌≤◌, ◌<◌, ◌≡◌, refl, sym, ap, inl, inr, String, Bool, true, false, Option, none, some,
  List, [], ◌∷◌, ◌++◌, arith, All, Option-cases, Bool-cases, length, length-drop, u64_max,
}
use dtcoder_test.Prelude.Tables.{select_where}
use dtcoder_test.Cron.{
  ScheduleSpec, interval, cron_expression, CronRunRecord, CronJob, max_history, answer, CronCrate,
  named, parse_five_field_cron, is_valid, next_after, is_due, take_jobs, written_due, commit_due,
  take_due, push_history, change_job, written_jobs, commit_jobs, record_run,
}

-- The histories are as long as they may be.
abbrev pub AllShort : List CronJob → Type 0
AllShort = All (λ j. length j.history ≤ max_history)

push_history-length :
    (r : CronRunRecord) (h : List CronRunRecord) → length (push_history r h) ≤ max_history
unfolding push_history
push_history-length r h =
    ground (arith, length-drop (length (h ++ (r ∷ [])) - max_history) (h ++ (r ∷ [])))

some_injective {ℓ} : {A : Type ℓ} {a b : A} → some a ≡ some b → a ≡ b
some_injective h = cc

change_job-AllShort :
    (id : String) (r : CronRunRecord) (jobs next : List CronJob)
    → AllShort jobs
    → change_job id (λ job. record job { history = push_history r job.history }) jobs ≡ some next
    → AllShort next
change_job-AllShort id r [] next s h = absurd (ground arith)
change_job-AllShort id r (job ∷ jobs) next s h = elim (Bool-cases (named id job)) [
  | inl e ↦
      let changed : record job { history = push_history r job.history } ∷ jobs ≡ next =
        some_injective (rw e at h) in
      rw (sym changed) (push_history-length r job.history, s.1)
  | inr e ↦
      elim (Option-cases
        (change_job id (λ j. record j { history = push_history r j.history }) jobs)) [
          | inl missing ↦ absurd (ground (arith, rw (e, missing) at h))
          | inr (js, found) ↦
              let changed : job ∷ js ≡ next = some_injective (rw (e, found) at h) in
              rw (sym changed) (s.0, change_job-AllShort id r jobs js s.1 found)
        ]
]

pub commit_jobs_lem :
    (persist : List CronJob → Option String) (o : Option (List CronJob)) (next : List CronJob)
    → commit_jobs persist o ≡ answer next
    → o ≡ some next
commit_jobs_lem persist none next h = absurd (ground arith)
commit_jobs_lem persist (some js) next h = go (persist js) h
  where
    go : (o' : Option String) → written_jobs js o' ≡ answer next → some js ≡ some next
    go none h' = cc
    go (some error) h' = absurd (ground arith)

-- `record` keeps the histories of all jobs within `max_history` runs.
pub record_run-AllShort :
    (persist : List CronJob → Option String) (id : String) (r : CronRunRecord)
    (jobs next : List CronJob)
    → AllShort jobs
    → record_run persist id r jobs ≡ answer next
    → AllShort next
unfolding record_run
record_run-AllShort persist id r jobs next s h =
    change_job-AllShort id r jobs next s (commit_jobs_lem persist _ next h)

All-of_select_nil {ℓ} :
    {A : Type ℓ} (p : A → Bool) (xs : List A) → select_where p xs ≡ [] → All (λ x. p x ≡ false) xs
All-of_select_nil p [] h = tt
All-of_select_nil p (x ∷ xs) h = elim (Bool-cases (p x)) [
  | inl e ↦ absurd (ground arith)
  | inr e ↦ (e, All-of_select_nil p xs (ground arith))
]

module _ (crate : CronCrate) where
  next_after-later :
      (s : ScheduleSpec) (now time : ℕ)
      → ((s' : crate.Schedule) (t t' : ℕ) → crate.after s' t ≡ some t' → t < t')
      → now < u64_max
      → is_valid crate s ≡ true
      → next_after crate s now ≡ some time
      → now < time
  unfolding next_after is_valid
  next_after-later (interval seconds) now time law small v h = ground arith
  next_after-later (cron_expression expression) now time law small v h =
      elim (Option-cases (parse_five_field_cron crate expression)) [
        | inl none_parsed ↦ absurd (ground (arith, rw none_parsed at h))
        | inr (schedule, parsed) ↦ law schedule now time (rw parsed at h)
      ]

  -- After the loop no job is due, and those that were are returned.
  take_jobs_lem :
      (now : ℕ) (jobs due next : List CronJob)
      → ((s : crate.Schedule) (t t' : ℕ) → crate.after s t ≡ some t' → t < t')
      → now < u64_max
      → All (λ j. is_valid crate j.schedule ≡ true) jobs
      → take_jobs crate now jobs ≡ some (due, next)
      → (due ≡ select_where (is_due crate now) jobs) × All (λ j. is_due crate now j ≡ false) next
  unfolding take_jobs
  take_jobs_lem now [] due next law small v h =
      let same : ([], []) ≡ (due, next) = some_injective h in
      rw (sym (ap (λ p. p.0) same), sym (ap (λ p. p.1) same)) (refl, tt)
  take_jobs_lem now (job ∷ jobs) due next law small v h = elim (Bool-cases (is_due crate now job)) [
    | inr e ↦ elim (Option-cases (take_jobs crate now jobs)) [
      | inl failed ↦ absurd (ground (arith, rw (e, failed) at h))
      | inr ((due', rest), found) ↦
          let same : (due', job ∷ rest) ≡ (due, next) = some_injective (rw (e, found) at h) in
          let before = take_jobs_lem now jobs due' rest law small v.1 found in
          rw (sym (ap (λ p. p.0) same), sym (ap (λ p. p.1) same)) (rw e before.0, (e, before.1))
    ]
    | inl e ↦ elim (Option-cases (next_after crate job.schedule now)) [
      | inl never ↦ absurd (ground (arith, rw (e, never) at h))
      | inr (time, later) ↦ elim (Option-cases (take_jobs crate now jobs)) [
        | inl failed ↦ absurd (ground (arith, rw (e, later, failed) at h))
        | inr ((due', rest), found) ↦
            let same : (job ∷ due', record job { next_run_at = time } ∷ rest) ≡ (due, next) =
              some_injective (rw (e, later, found) at h) in
            let before = take_jobs_lem now jobs due' rest law small v.1 found in
            let after = next_after-later job.schedule now time law small v.0 later in
            rw (sym (ap (λ p. p.0) same), sym (ap (λ p. p.1) same))
              (rw e (ap (λ l. job ∷ l) before.0), (ground arith, before.1))
      ]
    ]
  ]

  answer_injective : {A : Type 0} {a b : A} → answer a ≡ answer b → a ≡ b
  answer_injective h = cc

  written_lem :
      (o : Option String) (p q : List CronJob × List CronJob)
      → written_due crate p o ≡ answer q
      → p ≡ q
  written_lem none p q h = answer_injective h
  written_lem (some error) p q h = absurd (ground arith)

  commit_due_lem :
      (persist : List CronJob → Option String) (now : ℕ) (jobs due' rest due next : List CronJob)
      → (due' ≡ select_where (is_due crate now) jobs) × All (λ j. is_due crate now j ≡ false) rest
      → commit_due crate persist jobs (some (due', rest)) ≡ answer (due, next)
      → (due ≡ select_where (is_due crate now) jobs) × All (λ j. is_due crate now j ≡ false) next
  commit_due_lem persist now jobs [] rest due next before h =
      let same : ([], jobs) ≡ (due, next) = answer_injective h in
      rw (sym (ap (λ p. p.0) same), sym (ap (λ p. p.1) same))
        (before.0, All-of_select_nil (is_due crate now) jobs (sym before.0))
  commit_due_lem persist now jobs (j ∷ due') rest due next before h =
      let same : (j ∷ due', rest) ≡ (due, next) =
        written_lem (persist rest) (j ∷ due', rest) (due, next) h in
      rw (sym (ap (λ p. p.0) same), sym (ap (λ p. p.1) same)) before

  -- Where the schedules of all jobs are valid and the time is below the largest u64, a `take_due`
  -- that succeeds leaves no job due at that time, so that the next tick of the same second finds
  -- none; those that were due are returned, in their order. The hypothesis on the cron crate is that
  -- the next time of a schedule after a time is later than it.
  pub take_due_lem :
      (persist : List CronJob → Option String) (now : ℕ) (jobs due next : List CronJob)
      → ((s : crate.Schedule) (t t' : ℕ) → crate.after s t ≡ some t' → t < t')
      → now < u64_max
      → All (λ j. is_valid crate j.schedule ≡ true) jobs
      → take_due crate persist now jobs ≡ answer (due, next)
      → (due ≡ select_where (is_due crate now) jobs) × All (λ j. is_due crate now j ≡ false) next
  unfolding take_due
  take_due_lem persist now jobs due next law small v h =
      elim (Option-cases (take_jobs crate now jobs)) [
        | inl failed ↦ absurd (ground (arith, rw failed at h))
        | inr ((due', rest), found) ↦
            commit_due_lem persist now jobs due' rest due next
              (take_jobs_lem now jobs due' rest law small v found) (rw found at h)
      ]
