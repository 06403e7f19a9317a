-- ===== src/Provider/Retry.antt =====
-- src/provider/retry.rs: whether a failed attempt is tried again, and after how long.
pub mod Outcomes
use dtcoder_test.Prelude.{
  ℕ, ◌+◌, ◌*◌, ◌%◌, ◌^◌, ◌≤◌, ◌<◌, min, ◌≡◌, ◌⊎◌, Bool, true, false, ◌&&◌, Option, none, some,
  arith, ltb, if◌then◌else◌, refl, inl, inr, Bool-cases, ltb→lt, ltb→le, &&-left, &&-right, u64_max,
  cap_at,
}
use dtcoder_test.Provider.Error.{
  connect, first_event, stream_idle, ProviderErrorKind, rate_limit, timeout, transport, server,
  protocol,
}

pub record RetryPolicy : Type 0 where
  pub rate_limit_retries : ℕ
  pub transport_retries : ℕ
  pub server_retries : ℕ
  pub timeout_retries : ℕ
  pub protocol_retries : ℕ
  pub max_backoff_ms : ℕ

abbrev pub default : RetryPolicy
default = record {
  rate_limit_retries = 2;
  transport_retries = 2;
  server_retries = 2;
  timeout_retries = 1;
  protocol_retries = 0;
  max_backoff_ms = 5000;
}

-- `retry` carries the delay in milliseconds.
pub data RetryDecision : Type 0 where
  fail : RetryDecision
  retry : ℕ → RetryDecision
  fallback : RetryDecision

-- The `budget` of `decide`.
abbrev pub budget : RetryPolicy → ProviderErrorKind → ℕ
budget p rate_limit = p.rate_limit_retries
budget p transport = p.transport_retries
budget p server = p.server_retries
budget p (timeout connect) = p.timeout_retries
budget p (timeout first_event) = p.timeout_retries
budget p (timeout stream_idle) = p.timeout_retries
budget p protocol = p.protocol_retries
budget p _ = 0

-- `fallback_allowed`
abbrev pub fallback_allowed : RetryPolicy → ProviderErrorKind → Bool
fallback_allowed p rate_limit = true
fallback_allowed p transport = true
fallback_allowed p server = true
fallback_allowed p (timeout connect) = true
fallback_allowed p (timeout first_event) = true
fallback_allowed p (timeout stream_idle) = true
fallback_allowed p protocol = ltb 0 p.protocol_retries
fallback_allowed p _ = false

-- `100u64.saturating_mul(1u64 << prior_retries.min(6))`
abbrev pub exponential : ℕ → ℕ
exponential prior = cap_at u64_max (100 * 2 ^ min prior 6)

-- `(u64::from(prior_retries).wrapping_mul(47) + 31) % 67`
abbrev pub jitter : ℕ → ℕ
jitter prior = ((prior * 47) % 2 ^ 64 + 31) % 67

abbrev pub delay_before_cap : Option ℕ → ℕ → ℕ
delay_before_cap none prior = cap_at u64_max (exponential prior + jitter prior)
delay_before_cap (some ms) prior = ms

unfoldable pub decide : RetryPolicy → ProviderErrorKind → ℕ → Option ℕ → Bool → Bool → RetryDecision
decide p kind prior retry_after safe more =
    if safe
    then (if ltb prior (budget p kind)
        then retry (min (delay_before_cap retry_after prior) p.max_backoff_ms)
        else if more && fallback_allowed p kind
        then fallback
        else fail)
    else fail

-- What must hold for a decision to be taken.
abbrev pub Justified : RetryPolicy → ProviderErrorKind → ℕ → Bool → Bool → RetryDecision → Type 0
Justified p kind prior safe more fail =
    (safe ≡ false) ⊎ ((budget p kind ≤ prior) × ((more && fallback_allowed p kind) ≡ false))
Justified p kind prior safe more (retry ms) =
    (safe ≡ true) × (prior < budget p kind) × (ms ≤ p.max_backoff_ms)
Justified p kind prior safe more fallback =
    (safe ≡ true) × (more ≡ true) × (budget p kind ≤ prior) × (fallback_allowed p kind ≡ true)

-- The conditions of the decision that is taken.
pub decide-Justified :
    (p : RetryPolicy) (kind : ProviderErrorKind) (prior : ℕ) (retry_after : Option ℕ)
    (safe more : Bool)
    → Justified p kind prior safe more (decide p kind prior retry_after safe more)
unfolding decide
decide-Justified p kind prior retry_after false more = inl refl
decide-Justified p kind prior retry_after true more =
    elim (Bool-cases (ltb prior (budget p kind))) [
      | inl left ↦ rw left (refl, ltb→lt _ _ left, omega arith)
      | inr used ↦ elim (Bool-cases (more && fallback_allowed p kind)) [
        | inl allowed ↦
            rw (used, allowed) (refl, &&-left _ _ allowed, ltb→le _ _ used, &&-right more _ allowed)
        | inr refused ↦ rw (used, refused) (inr (ltb→le _ _ used, refused))
      ]
    ]
