-- ===== src/Cron.antt =====
-- src/cron.rs: the store of scheduled jobs, and the attempts of one job. The mutation lock makes
-- each operation one step on the list of jobs. Times are seconds that the caller reads. The cron
-- crate is a parameter: its type of schedules, its parser, and the first time of a schedule after a
-- time. `persist` is what writing the file answers, and the id of a new job is an argument.
pub mod Attempts
pub mod Due
pub mod Names
use dtcoder_test.Prelude.{
  ℕ, zero, suc, ◌+◌, ◌-◌, ◌*◌, ◌^◌, ◌≤◌, min, ◌≡◌, String, Bool, true, false, not, ◌&&◌, ◌||◌,
  Option, none, some, List, [], ◌∷◌, ◌++◌, if◌then◌else◌, leb, ltb, ◌==◌, str_eq, is_some, length,
  drop, cap_at, u64_max, u32_max,
}
use Prim.Native.String.{◌++◌ as text_append}
use dtcoder_test.Prelude.Text.{is_blank, is_whitespace, codes}
use dtcoder_test.Prelude.Tables.{map_option, first_where}

pub data ScheduleSpec : Type 0 where
  interval : ℕ → ScheduleSpec
  cron_expression : String → ScheduleSpec

pub record CronRunRecord : Type 0 where
  pub started_at : ℕ
  pub finished_at : ℕ
  pub attempts : ℕ
  pub success : Bool
  pub result : String

pub record CronJob : Type 0 where
  pub id : String
  pub name : String
  pub schedule : ScheduleSpec
  pub prompt : String
  pub enabled : Bool
  pub max_retries : ℕ
  pub backoff_seconds : ℕ
  pub next_run_at : ℕ
  pub history : List CronRunRecord

abbrev pub max_history : ℕ
max_history = 20

-- A value, or the text of an error, after which the store is unchanged. The texts stand without the
-- names that the source puts into them.
pub data Answer (A : Type 0) : Type 0 where
  answer : A → Answer A
  bail : String → Answer A

-- What the source uses of the cron crate.
pub record CronCrate : Type 1 where
  pub Schedule : Type 0
  pub from_str : String → Option Schedule
  pub after : Schedule → ℕ → Option ℕ

-- `split_whitespace().count()`; the flag says that a word has begun.
abbrev pub count_words : Bool → List ℕ → ℕ
count_words inside [] = if inside then 1 else 0
count_words inside (c ∷ cs) =
    let broken = count_words false cs in
    let joined = count_words true cs in
    if is_whitespace c then (if inside then suc broken else broken) else joined

abbrev pub named : String → CronJob → Bool
named id_or_name job = str_eq job.id id_or_name || str_eq job.name id_or_name

module _ (crate : CronCrate) where
  abbrev pub parse_five_field_cron : String → Option crate.Schedule
  parse_five_field_cron expression =
      if count_words false (codes expression) == 5
      then crate.from_str (text_append "0 " expression)
      else none

  unfoldable pub is_valid : ScheduleSpec → Bool
  is_valid (interval seconds) = not (seconds == 0)
  is_valid (cron_expression expression) = is_some (parse_five_field_cron expression)

  abbrev pub after_schedule : ℕ → Option crate.Schedule → Option ℕ
  after_schedule time none = none
  after_schedule time (some schedule) = crate.after schedule time

  unfoldable pub next_after : ScheduleSpec → ℕ → Option ℕ
  next_after (interval seconds) time = some (cap_at u64_max (time + seconds))
  next_after (cron_expression expression) time =
      after_schedule time (parse_five_field_cron expression)

  abbrev pub is_due : ℕ → CronJob → Bool
  is_due now job = job.enabled && leb job.next_run_at now

  abbrev pub postpone :
      CronJob
      → Option ℕ
      → Option (List CronJob × List CronJob)
      → Option (List CronJob × List CronJob)
  postpone job (some time) (some (due, rest)) =
      some (job ∷ due, record job { next_run_at = time } ∷ rest)
  postpone job _ _ = none

  abbrev pub leave :
      CronJob → Option (List CronJob × List CronJob) → Option (List CronJob × List CronJob)
  leave job none = none
  leave job (some (due, rest)) = some (due, job ∷ rest)

  -- The loop of `take_due`: the jobs that are due, and all jobs as they are then. Any job without a
  -- next time ends it.
  unfoldable pub take_jobs : ℕ → List CronJob → Option (List CronJob × List CronJob)
  take_jobs now [] = some ([], [])
  take_jobs now (job ∷ jobs) =
      let rest = take_jobs now jobs in
      if is_due now job then postpone job (next_after job.schedule now) rest else leave job rest

  abbrev pub is_nil : List CronJob → Bool
  is_nil [] = true
  is_nil (j ∷ js) = false

  abbrev pub written_due :
      List CronJob × List CronJob → Option String → Answer (List CronJob × List CronJob)
  written_due p none = answer p
  written_due p (some error) = bail error

  -- The answer of an operation, with the jobs after it.
  abbrev pub commit_due :
      (List CronJob → Option String)
      → List CronJob
      → Option (List CronJob × List CronJob)
      → Answer (List CronJob × List CronJob)
  commit_due persist jobs none = bail "cron 表达式没有下一次触发时间"
  commit_due persist jobs (some (due, next)) =
      if is_nil due then answer (due, jobs) else written_due (due, next) (persist next)

  unfoldable pub take_due :
      (List CronJob → Option String) → ℕ → List CronJob → Answer (List CronJob × List CronJob)
  take_due persist now jobs = commit_due persist jobs (take_jobs now jobs)

-- `history.push` and `history.drain(..remove)`
unfoldable pub push_history : CronRunRecord → List CronRunRecord → List CronRunRecord
push_history r history =
    let pushed = history ++ (r ∷ []) in
    if ltb max_history (length pushed) then drop (length pushed - max_history) pushed else pushed

-- `find_job_mut` and the change of the job that it finds.
abbrev pub change_job : String → (CronJob → CronJob) → List CronJob → Option (List CronJob)
change_job id_or_name change [] = none
change_job id_or_name change (job ∷ jobs) =
    let rest = change_job id_or_name change jobs in
    if named id_or_name job then some (change job ∷ jobs) else map_option (λ js. job ∷ js) rest

abbrev pub written_jobs : List CronJob → Option String → Answer (List CronJob)
written_jobs next none = answer next
written_jobs next (some error) = bail error

abbrev pub commit_jobs :
    (List CronJob → Option String) → Option (List CronJob) → Answer (List CronJob)
commit_jobs persist none = bail "找不到 cron"
commit_jobs persist (some next) = written_jobs next (persist next)

-- `record`
unfoldable pub record_run :
    (List CronJob → Option String) → String → CronRunRecord → List CronJob → Answer (List CronJob)
record_run persist id r jobs =
    commit_jobs persist
      (change_job id (λ job. record job { history = push_history r job.history }) jobs)

-- What `validate` says of a schedule that it refuses; `from_str` has its own words.
abbrev pub refusal : ScheduleSpec → String
refusal (interval seconds) = "interval 秒数必须大于 0"
refusal (cron_expression expression) = text_append "非法 cron 表达式：" expression

abbrev pub is_taken : String → List CronJob → Bool
is_taken name jobs = is_some (first_where (λ j. str_eq j.name name) jobs)

abbrev pub remove_job : String → List CronJob → Option (List CronJob)
remove_job id_or_name [] = none
remove_job id_or_name (job ∷ jobs) =
    let rest = remove_job id_or_name jobs in
    if named id_or_name job then some jobs else map_option (λ js. job ∷ js) rest

unfoldable pub remove :
    (List CronJob → Option String) → String → List CronJob → Answer (List CronJob)
remove persist id_or_name jobs = commit_jobs persist (remove_job id_or_name jobs)

module _ (crate : CronCrate) (persist : List CronJob → Option String) where
  abbrev pub new_job : String → String → ScheduleSpec → String → ℕ → ℕ → ℕ → CronJob
  new_job id name schedule prompt max_retries backoff_seconds time = record {
    id = id;
    name = name;
    schedule = schedule;
    prompt = prompt;
    enabled = true;
    max_retries = max_retries;
    backoff_seconds = backoff_seconds;
    next_run_at = time;
    history = [];
  }

  abbrev pub add_job : List CronJob → CronJob → Answer (List CronJob)
  add_job jobs job =
      if is_taken job.name jobs
      then bail "cron 名称已存在"
      else commit_jobs persist (some (jobs ++ (job ∷ [])))

  abbrev pub add_at :
      String
      → String
      → ScheduleSpec
      → String
      → ℕ
      → ℕ
      → List CronJob
      → Option ℕ
      → Answer (List CronJob)
  add_at id name schedule prompt max_retries backoff_seconds jobs none = bail "cron 表达式没有下一次触发时间"
  add_at id name schedule prompt max_retries backoff_seconds jobs (some time) =
      add_job jobs (new_job id name schedule prompt max_retries backoff_seconds time)

  unfoldable pub add :
      ℕ → String → String → ScheduleSpec → String → ℕ → ℕ → List CronJob → Answer (List CronJob)
  add now id name schedule prompt max_retries backoff_seconds jobs =
      if is_blank name || is_blank prompt
      then bail "cron name 与 prompt 不能为空"
      else if not (is_valid crate schedule)
      then bail (refusal schedule)
      else add_at id name schedule prompt max_retries backoff_seconds jobs
          (next_after crate schedule now)

  abbrev pub enable_at : String → List CronJob → Option ℕ → Answer (List CronJob)
  enable_at id_or_name jobs none = bail "cron 表达式没有下一次触发时间"
  enable_at id_or_name jobs (some time) =
      commit_jobs persist
        (change_job id_or_name (λ job. record job { enabled = true; next_run_at = time }) jobs)

  abbrev pub enable_found : ℕ → String → List CronJob → Option CronJob → Answer (List CronJob)
  enable_found now id_or_name jobs none = bail "找不到 cron"
  enable_found now id_or_name jobs (some job) =
      enable_at id_or_name jobs (next_after crate job.schedule now)

  unfoldable pub set_enabled : ℕ → String → Bool → List CronJob → Answer (List CronJob)
  set_enabled now id_or_name enabled jobs =
      if enabled
      then enable_found now id_or_name jobs (first_where (named id_or_name) jobs)
      else commit_jobs persist (change_job id_or_name (λ job. record job { enabled = false }) jobs)
