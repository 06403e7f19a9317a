-- ===== src/Examples/Cron.antt =====
-- The theorems on src/cron.rs at a store of two jobs.
use dtcoder_test.Prelude.{
  ℕ, ◌+◌, ◌<◌, ◌≡◌, refl, ◌⊎◌, inl, inr, String, true, false, Option, none, some, List, [], ◌∷◌,
  arith, All, leb, if◌then◌else◌, eq_iff,
}
use dtcoder_test.Prelude.Text.{is_blank}
use dtcoder_test.Prelude.Tables.{select_where}
use dtcoder_test.Cron.{
  interval, CronRunRecord, CronJob, answer, CronCrate, is_valid, next_after, is_due, take_jobs,
  take_due, push_history, record_run, add,
}
use dtcoder_test.Cron.Attempts.{Finished, execute_attempts, IsFinal, execute_attempts-IsFinal}
use dtcoder_test.Cron.Due.{AllShort, record_run-AllShort, take_due_lem}
use dtcoder_test.Cron.Names.{IsDistinct, add-IsDistinct}

-- A schedule that is due every minute.
abbrev minutes : CronCrate
minutes = record {
  Schedule = String;
  from_str = λ text. some text;
  after = λ schedule time. some (time + 60);
}

abbrev written : List CronJob → Option String
written jobs = none

abbrev job : CronJob
job = record {
  id = "cron-1-0";
  name = "report";
  schedule = interval 30;
  prompt = "report";
  enabled = true;
  max_retries = 2;
  backoff_seconds = 5;
  next_run_at = 100;
  history = [];
}

abbrev later_job : CronJob
later_job = record job { id = "cron-1-1"; name = "later"; next_run_at = 500 }

abbrev jobs : List CronJob
jobs = job ∷ later_job ∷ []

abbrev jobs_after : List CronJob
jobs_after = record job { next_run_at = 150 } ∷ later_job ∷ []

minutes_later : (s : minutes.Schedule) (t t' : ℕ) → minutes.after s t ≡ some t' → t < t'
minutes_later s t t' h = ground arith

jobs_valid : All (λ j. is_valid minutes j.schedule ≡ true) jobs
unfolding is_valid
jobs_valid = (refl, (refl, tt))

jobs_due : take_due minutes written 120 jobs ≡ answer (job ∷ [], jobs_after)
unfolding take_due take_jobs next_after
jobs_due = refl

take_due_lem_example :
    (job ∷ [] ≡ select_where (is_due minutes 120) jobs)
    × All (λ j. is_due minutes 120 j ≡ false) jobs_after
take_due_lem_example =
    take_due_lem minutes written 120 jobs (job ∷ []) jobs_after minutes_later (omega arith)
      jobs_valid jobs_due

abbrev run : CronRunRecord
run = record { started_at = 120; finished_at = 130; attempts = 1; success = true; result = "ok" }

abbrev jobs_run : List CronJob
jobs_run = record job { history = run ∷ [] } ∷ later_job ∷ []

run_recorded : record_run written "cron-1-0" run jobs ≡ answer jobs_run
unfolding record_run push_history
run_recorded = refl

record_run-AllShort_example : AllShort jobs_run
record_run-AllShort_example =
    record_run-AllShort written "cron-1-0" run jobs jobs_run (omega arith, (omega arith, tt))
      run_recorded

names-IsDistinct : IsDistinct jobs
names-IsDistinct =
    (((λ h. let same : false ≡ true = (eq_iff "later" "report").1 h in ground arith), tt), (tt, tt))

abbrev added_job : CronJob
added_job = record job { id = "cron-200-2"; name = "third"; next_run_at = 230 }

third_added :
    add minutes written 200 "cron-200-2" "third" (interval 30) "report" 2 5 jobs
    ≡ answer (job ∷ later_job ∷ added_job ∷ [])
unfolding add next_after is_valid is_blank
third_added = refl

add-IsDistinct_example : IsDistinct (job ∷ later_job ∷ added_job ∷ [])
add-IsDistinct_example =
    add-IsDistinct minutes written 200 "cron-200-2" "third" (interval 30) "report" 2 5 jobs
      (job ∷ later_job ∷ added_job ∷ []) names-IsDistinct third_added

-- A job whose third run succeeds.
abbrev third : ℕ → String ⊎ String
third n = if leb 3 n then inl "ok" else inr "busy"

execute_attempts-IsFinal_example :
    (f : Finished) × (execute_attempts third 2 5 ≡ some f) × IsFinal third 2 0 f
execute_attempts-IsFinal_example = execute_attempts-IsFinal third 2 5 (omega arith)
