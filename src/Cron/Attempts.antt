-- ===== src/Cron/Attempts.antt =====
-- src/cron.rs: the attempts of `execute_job`. `runner n` is what the n-th run of the job answers: its
-- result, or the text of its error. The waits between attempts are returned, not waited.
use dtcoder_test.Prelude.{
  ℕ, zero, suc, ◌+◌, ◌-◌, ◌*◌, ◌^◌, ◌≤◌, ◌<◌, min, ◌≡◌, refl, ap, ◌⊎◌, inl, inr, String, Bool, true,
  false, Option, none, some, List, [], ◌∷◌, if◌then◌else◌, leb, arith, cap_at, u64_max, u32_max,
  Bool-cases, ◌==◌, ==_iff,
}

pub record Finished : Type 0 where
  pub attempts : ℕ
  pub success : Bool
  pub result : String
  pub delays : List ℕ

-- `backoff_seconds.saturating_mul(1_u64 << attempts.saturating_sub(1).min(20))`
abbrev pub delay : ℕ → ℕ → ℕ
delay backoff attempts = cap_at u64_max (backoff * 2 ^ min (attempts - 1) 20)

abbrev pub waited : ℕ → Option Finished → Option Finished
waited ms none = none
waited ms (some f) = some (record f { delays = ms ∷ f.delays })

-- The `match` on what an attempt answers, with what the rest of the loop gives.
abbrev pub after_run : ℕ → ℕ → ℕ → String ⊎ String → Option Finished → Option Finished
after_run max_retries backoff attempts (inl result) rest =
    some (record { attempts = attempts; success = true; result = result; delays = [] })
after_run max_retries backoff attempts (inr error) rest =
    if leb attempts max_retries
    then waited (delay backoff attempts) rest
    else some (record { attempts = attempts; success = false; result = error; delays = [] })

-- The loop, after `attempts` attempts; the first argument is fuel.
unfoldable pub attempt_loop : ℕ → (ℕ → String ⊎ String) → ℕ → ℕ → ℕ → Option Finished
attempt_loop zero runner max_retries backoff attempts = none
attempt_loop (suc fuel) runner max_retries backoff attempts =
    let now = cap_at u32_max (attempts + 1) in
    let rest = attempt_loop fuel runner max_retries backoff now in
    after_run max_retries backoff now (runner now) rest

-- `execute_job` between the two locks.
abbrev pub execute_attempts : (ℕ → String ⊎ String) → ℕ → ℕ → Option Finished
execute_attempts runner max_retries backoff =
    attempt_loop (suc max_retries) runner max_retries backoff 0

abbrev pub is_error : String ⊎ String → Bool
is_error (inl result) = false
is_error (inr error) = true

-- What the loop has done after `start` attempts.
pub record IsFinal (runner : ℕ → String ⊎ String) (max_retries start : ℕ) (f : Finished)
    : Type 0 where
  pub above : start < f.attempts
  pub below : f.attempts ≤ max_retries + 1
  pub succeeded : f.success ≡ true → runner f.attempts ≡ inl f.result
  pub exhausted :
      f.success ≡ false → (f.attempts ≡ max_retries + 1) × (runner f.attempts ≡ inr f.result)
  pub retried : (n : ℕ) → start < n → n < f.attempts → is_error (runner n) ≡ true

Run-cases : (r : String ⊎ String) → ((s : String) × (r ≡ inl s)) ⊎ ((s : String) × (r ≡ inr s))
Run-cases (inl s) = inl (s, refl)
Run-cases (inr s) = inr (s, refl)

-- One attempt that succeeds, and one that fails and is the last.
success-IsFinal :
    (runner : ℕ → String ⊎ String) (max_retries attempts : ℕ) (s : String)
    → attempts ≤ max_retries
    → runner (attempts + 1) ≡ inl s
    → IsFinal runner max_retries attempts
        (record { attempts = attempts + 1; success = true; result = s; delays = [] })
success-IsFinal runner max_retries attempts s le e = record {
  above = omega arith;
  below = omega arith;
  succeeded = λ h. e;
  exhausted = λ h. absurd (ground arith);
  retried = λ n lo hi. absurd (omega arith);
}

failure-IsFinal :
    (runner : ℕ → String ⊎ String) (max_retries attempts : ℕ) (s : String)
    → attempts ≡ max_retries
    → runner (attempts + 1) ≡ inr s
    → IsFinal runner max_retries attempts
        (record { attempts = attempts + 1; success = false; result = s; delays = [] })
failure-IsFinal runner max_retries attempts s last e = record {
  above = omega arith;
  below = omega arith;
  succeeded = λ h. absurd (ground arith);
  exhausted = λ h. (omega arith, e);
  retried = λ n lo hi. absurd (omega arith);
}

-- An attempt that fails before others.
retry-IsFinal :
    (runner : ℕ → String ⊎ String) (max_retries attempts ms : ℕ) (s : String) (f : Finished)
    → runner (attempts + 1) ≡ inr s
    → IsFinal runner max_retries (attempts + 1) f
    → IsFinal runner max_retries attempts (record f { delays = ms ∷ f.delays })
retry-IsFinal runner max_retries attempts ms s f e r = record {
  above = omega (arith, r.above);
  below = r.below;
  succeeded = r.succeeded;
  exhausted = r.exhausted;
  retried = λ n lo hi. elim (Bool-cases (n == attempts + 1)) [
    | inl first ↦ rw (ap runner ((==_iff n (attempts + 1)).0 first), e) refl
    | inr more ↦ r.retried n (ground arith) hi
  ];
}

attempt_loop_again :
    (left : ℕ) (runner : ℕ → String ⊎ String) (max_retries backoff attempts : ℕ) (s : String)
    (f : Finished)
    → max_retries < u32_max
    → attempts < max_retries
    → runner (attempts + 1) ≡ inr s
    → attempt_loop (suc left) runner max_retries backoff (attempts + 1) ≡ some f
    → IsFinal runner max_retries (attempts + 1) f
    → (f' : Finished) × (attempt_loop (suc (suc left)) runner max_retries backoff attempts
        ≡ some f')
      × IsFinal runner max_retries attempts f'
unfolding attempt_loop
attempt_loop_again left runner max_retries backoff attempts s f small lt e found final =
    let next : cap_at u32_max (attempts + 1) ≡ attempts + 1 = ground arith in
    let again : leb (attempts + 1) max_retries ≡ true = ground arith in
    (
      record f { delays = delay backoff (attempts + 1) ∷ f.delays },
      rw (next, e, again, found) refl,
      retry-IsFinal runner max_retries attempts (delay backoff (attempts + 1)) s f e final,
    )

attempt_loop-IsFinal :
    (left : ℕ) (runner : ℕ → String ⊎ String) (max_retries backoff attempts : ℕ)
    → max_retries < u32_max
    → attempts + left ≡ max_retries
    → (f : Finished) × (attempt_loop (suc left) runner max_retries backoff attempts ≡ some f)
      × IsFinal runner max_retries attempts f
unfolding attempt_loop
attempt_loop-IsFinal zero runner max_retries backoff attempts small sum =
    let next : cap_at u32_max (attempts + 1) ≡ attempts + 1 = ground arith in
    let over : leb (attempts + 1) max_retries ≡ false = ground arith in
    elim (Run-cases (runner (attempts + 1))) [
      | inl (s, e) ↦ (
        record { attempts = attempts + 1; success = true; result = s; delays = [] },
        rw (next, e) refl,
        success-IsFinal runner max_retries attempts s (omega arith) e,
      )
      | inr (s, e) ↦ (
        record { attempts = attempts + 1; success = false; result = s; delays = [] },
        rw (next, e, over) refl,
        failure-IsFinal runner max_retries attempts s (omega arith) e,
      )
    ]
attempt_loop-IsFinal (suc left) runner max_retries backoff attempts small sum =
    elim (Run-cases (runner (attempts + 1))) [
      | inl (s, e) ↦
          let next : cap_at u32_max (attempts + 1) ≡ attempts + 1 = ground arith in
          (
            record { attempts = attempts + 1; success = true; result = s; delays = [] },
            rw (next, e) refl,
            success-IsFinal runner max_retries attempts s (omega arith) e,
          )
      | inr (s, e) ↦
          let rest =
            attempt_loop-IsFinal left runner max_retries backoff (attempts + 1) small
              (omega arith) in
          attempt_loop_again left runner max_retries backoff attempts s rest.0 small (omega arith) e
            rest.1 rest.2
    ]

-- Where `max_retries` is below the largest u32, the loop ends after `max_retries + 1` attempts at
-- most: with the result of the first run that succeeds, or with the error of the last one when all
-- of them have failed.
pub execute_attempts-IsFinal :
    (runner : ℕ → String ⊎ String) (max_retries backoff : ℕ)
    → max_retries < u32_max
    → (f : Finished) × (execute_attempts runner max_retries backoff ≡ some f)
      × IsFinal runner max_retries 0 f
execute_attempts-IsFinal runner max_retries backoff small =
    attempt_loop-IsFinal max_retries runner max_retries backoff 0 small (omega arith)
