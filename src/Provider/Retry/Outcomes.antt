-- ===== src/Provider/Retry/Outcomes.antt =====
-- What the decisions of src/provider/retry.rs come to for a call that fails again and again.
use dtcoder_test.Prelude.{
  ℕ, zero, suc, ◌+◌, ◌-◌, ◌*◌, ◌≤◌, ◌<◌, min, ◌≡◌, refl, inl, inr, Bool, true, false, ◌&&◌, Option,
  ltb, if◌then◌else◌, arith, Bool-cases,
}
use dtcoder_test.Provider.Error.{
  connect, first_event, stream_idle, overall, ProviderErrorKind, auth, access_denied, rate_limit,
  quota_exceeded, invalid_request, context_overflow, content_policy, timeout, transport, server,
  protocol, empty_completion, reasoning_only, output_truncated, cancelled,
}
use dtcoder_test.Provider.Retry.{
  RetryPolicy, RetryDecision, fail, retry, fallback, budget, fallback_allowed, delay_before_cap,
  decide,
}

-- What may be done about an error: nothing; so many retries, and another candidate; or so many
-- retries, and another candidate only if the policy allows retries at all.
pub data Recovery : Type 0 where
  permanent : Recovery
  transient configured : ℕ → Recovery

abbrev pub allowance : Recovery → ℕ
allowance permanent = 0
allowance (transient n) = n
allowance (configured n) = n

abbrev pub moves_on : Recovery → Bool
moves_on permanent = false
moves_on (transient n) = true
moves_on (configured n) = ltb 0 n

abbrev pub recovery : RetryPolicy → ProviderErrorKind → Recovery
recovery p auth = permanent
recovery p access_denied = permanent
recovery p rate_limit = transient p.rate_limit_retries
recovery p quota_exceeded = permanent
recovery p invalid_request = permanent
recovery p context_overflow = permanent
recovery p content_policy = permanent
recovery p (timeout connect) = transient p.timeout_retries
recovery p (timeout first_event) = transient p.timeout_retries
recovery p (timeout stream_idle) = transient p.timeout_retries
recovery p (timeout overall) = permanent
recovery p transport = transient p.transport_retries
recovery p server = transient p.server_retries
recovery p protocol = configured p.protocol_retries
recovery p empty_completion = permanent
recovery p reasoning_only = permanent
recovery p output_truncated = permanent
recovery p cancelled = permanent

recovery_lem :
    (p : RetryPolicy) (kind : ProviderErrorKind)
    → (budget p kind ≡ allowance (recovery p kind))
      × (fallback_allowed p kind ≡ moves_on (recovery p kind))
recovery_lem p auth = (refl, refl)
recovery_lem p access_denied = (refl, refl)
recovery_lem p rate_limit = (refl, refl)
recovery_lem p quota_exceeded = (refl, refl)
recovery_lem p invalid_request = (refl, refl)
recovery_lem p context_overflow = (refl, refl)
recovery_lem p content_policy = (refl, refl)
recovery_lem p (timeout connect) = (refl, refl)
recovery_lem p (timeout first_event) = (refl, refl)
recovery_lem p (timeout stream_idle) = (refl, refl)
recovery_lem p (timeout overall) = (refl, refl)
recovery_lem p transport = (refl, refl)
recovery_lem p server = (refl, refl)
recovery_lem p protocol = (refl, refl)
recovery_lem p empty_completion = (refl, refl)
recovery_lem p reasoning_only = (refl, refl)
recovery_lem p output_truncated = (refl, refl)
recovery_lem p cancelled = (refl, refl)

-- One more failure in front of those that follow it: the retries, the time waited, and the decision
-- that ends them.
abbrev pub count_retry : ℕ × ℕ × RetryDecision → RetryDecision → ℕ × ℕ × RetryDecision
count_retry (retries, waited, last) (retry ms) = (suc retries, ms + waited, last)
count_retry later fail = (0, 0, fail)
count_retry later fallback = (0, 0, fallback)

-- The decisions on a call that fails each time with the same kind of error, from the number of prior
-- retries on; `retry_after` is what the provider asks for at each failure.
pub keep_failing :
    ℕ → RetryPolicy → ProviderErrorKind → (ℕ → Option ℕ) → Bool → Bool → ℕ → ℕ × ℕ × RetryDecision
keep_failing zero p kind retry_after safe more prior = (0, 0, retry 0)
keep_failing (suc fuel) p kind retry_after safe more prior =
    let later = keep_failing fuel p kind retry_after safe more (prior + 1) in
    count_retry later (decide p kind prior (retry_after prior) safe more)

module _ (p : RetryPolicy) (kind : ProviderErrorKind) (retry_after : ℕ → Option ℕ) where
  decide-within :
      (more : Bool) (prior : ℕ)
      → prior < budget p kind
      → decide p kind prior (retry_after prior) true more
        ≡ retry (min (delay_before_cap (retry_after prior) prior) p.max_backoff_ms)
  unfolding decide
  decide-within more prior h = let test : ltb prior (budget p kind) ≡ true = ground arith in rw test

  decide-after :
      (more : Bool) (prior : ℕ)
      → budget p kind ≤ prior
      → decide p kind prior (retry_after prior) true more
        ≡ (if more && fallback_allowed p kind then fallback else fail)
  unfolding decide
  decide-after more prior h = let test : ltb prior (budget p kind) ≡ false = ground arith in rw test

  ended :
      (later : ℕ × ℕ × RetryDecision) (b : Bool)
      → count_retry later (if b then fallback else fail) ≡ (0, 0, if b then fallback else fail)
  ended later true = refl
  ended later false = refl

  one_more : (x w m k n : ℕ) → x ≤ m → w ≤ k * m → n ≡ k + 1 → x + w ≤ n * m
  one_more x w m k n hx hw hn = rw hn (grind arith)

  keep_failing_safe :
      (fuel : ℕ) (more : Bool) (prior : ℕ)
      → budget p kind - prior < fuel
      → let result = keep_failing fuel p kind retry_after true more prior in
        (result.0 ≡ budget p kind - prior)
        × (result.1 ≤ (budget p kind - prior) * p.max_backoff_ms)
        × (result.2 ≡ (if more && fallback_allowed p kind then fallback else fail))
  unfolding keep_failing
  keep_failing_safe zero more prior h = absurd (omega arith)
  keep_failing_safe (suc fuel) more prior h = elim (Bool-cases (ltb prior (budget p kind))) [
    | inl e ↦
        let left : prior < budget p kind = ground arith in
        let (retries, waited, last) = keep_failing_safe fuel more (prior + 1) (omega arith) in
        let total =
          one_more (min (delay_before_cap (retry_after prior) prior) p.max_backoff_ms) _
            p.max_backoff_ms (budget p kind - (prior + 1)) (budget p kind - prior) (omega arith)
            waited (omega arith) in
        rw (decide-within more prior left) (omega arith, total, last)
    | inr e ↦
        let used : budget p kind ≤ prior = ground arith in
        rw (decide-after more prior used, ended _ (more && fallback_allowed p kind))
          (omega arith, omega arith, refl)
  ]

  -- A call that fails again and again with the same kind of error, the circuit breaker left aside, is
  -- retried exactly as often as the policy says for this kind: as often as its entry for rate
  -- limits, transport, server errors, timeouts of a phase, or protocol errors, and never for the
  -- others (the credentials, the request, its contents, the quota, the overall time, an overflow, a
  -- useless answer or a cancellation). The waiting takes `max_backoff_ms` a retry at most. Then another candidate is asked if there is one, for
  -- the kinds that are retried, for protocol errors only if the policy retries them; otherwise the
  -- call has failed. One that cannot be replayed fails at once.
  pub keep_failing-recovery :
      (safe more : Bool) (fuel : ℕ)
      → allowance (recovery p kind) < fuel
      → let result = keep_failing fuel p kind retry_after safe more 0 in
        (result.0 ≡ (if safe then allowance (recovery p kind) else 0))
        × (result.1 ≤ result.0 * p.max_backoff_ms)
        × (result.2 ≡ (if safe && (more && moves_on (recovery p kind)) then fallback else fail))
  unfolding keep_failing decide
  keep_failing-recovery false more zero h = absurd (omega arith)
  keep_failing-recovery false more (suc fuel) h = (refl, omega arith, refl)
  keep_failing-recovery true more fuel h =
      let law = recovery_lem p kind in
      let (retries, waited, last) = keep_failing_safe fuel more 0 (omega (arith, law.0)) in
      (omega (arith, retries, law.0), rw retries waited, rw (law.1) at last)
