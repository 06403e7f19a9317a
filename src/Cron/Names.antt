-- ===== src/Cron/Names.antt =====
-- The names of the jobs of src/cron.rs.
use dtcoder_test.Prelude.{
  ℕ, ◌≡◌, ◌≢◌, refl, sym, inl, inr, String, Bool, true, false, not, ◌||◌, Option, some, List, [],
  ◌∷◌, ◌++◌, if◌then◌else◌, arith, All, All-append, eq_iff, Option-cases, Bool-cases, str_eq,
}
use dtcoder_test.Prelude.Text.{is_blank}
use dtcoder_test.Cron.{
  ScheduleSpec, CronJob, Answer, answer, bail, CronCrate, is_valid, next_after, is_taken, new_job,
  add_job, add,
}
use dtcoder_test.Cron.Due.{commit_jobs_lem}

-- No two jobs have the same name.
abbrev pub IsDistinct : List CronJob → Type 0
IsDistinct [] = Unit
IsDistinct (j ∷ js) = All (λ k. k.name ≢ j.name) js × IsDistinct js

untaken :
    (name : String) (jobs : List CronJob)
    → is_taken name jobs ≡ false
    → All (λ k. k.name ≢ name) jobs
untaken name [] h = tt
untaken name (j ∷ js) h = elim (Bool-cases (str_eq j.name name)) [
  | inl e ↦ absurd (ground arith)
  | inr e ↦ ((λ same. ground (arith, eq_iff j.name name)), untaken name js (ground arith))
]

append-IsDistinct :
    (jobs : List CronJob) (job : CronJob)
    → IsDistinct jobs
    → All (λ k. k.name ≢ job.name) jobs
    → IsDistinct (jobs ++ (job ∷ []))
append-IsDistinct [] job d u = (tt, tt)
append-IsDistinct (j ∷ js) job d u = (
  All-append (λ k. k.name ≢ j.name) js (job ∷ []) d.0 ((λ same. u.0 (sym same)), tt),
  append-IsDistinct js job d.1 u.1,
)

not_bailed :
    {A : Type 0} (b : Bool) (message : String) (rest : Answer A) (a : A)
    → (if b then bail message else rest) ≡ answer a
    → (b ≡ false) × (rest ≡ answer a)
not_bailed true message rest a h = absurd (ground arith)
not_bailed false message rest a h = (refl, h)

some_injective {ℓ} : {A : Type ℓ} {a b : A} → some a ≡ some b → a ≡ b
some_injective h = cc

module _ (crate : CronCrate) (persist : List CronJob → Option String) where
  add_job-IsDistinct :
      (jobs next : List CronJob) (job : CronJob)
      → IsDistinct jobs
      → add_job crate persist jobs job ≡ answer next
      → IsDistinct next
  add_job-IsDistinct jobs next job d h =
      let free = not_bailed (is_taken job.name jobs) _ _ next h in
      let same : jobs ++ (job ∷ []) ≡ next =
        some_injective (commit_jobs_lem persist (some (jobs ++ (job ∷ []))) next free.1) in
      rw (sym same) (append-IsDistinct jobs job d (untaken job.name jobs free.0))

  -- `add` keeps the names of the jobs distinct, whatever the name, the schedule and the file.
  pub add-IsDistinct :
      (now : ℕ) (id name : String) (schedule : ScheduleSpec) (prompt : String) (retries backoff : ℕ)
      (jobs next : List CronJob)
      → IsDistinct jobs
      → add crate persist now id name schedule prompt retries backoff jobs ≡ answer next
      → IsDistinct next
  unfolding add
  add-IsDistinct now id name schedule prompt retries backoff jobs next d h =
      let given = not_bailed (is_blank name || is_blank prompt) _ _ next h in
      let valid = not_bailed (not (is_valid crate schedule)) _ _ next given.1 in
      elim (Option-cases (next_after crate schedule now)) [
        | inl never ↦ absurd (ground (arith, rw never at (valid.1)))
        | inr (time, later) ↦
            add_job-IsDistinct jobs next
              (new_job crate persist id name schedule prompt retries backoff time) d
              (rw later at (valid.1))
      ]
