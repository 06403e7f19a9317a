-- ===== src/Turn/Request/Probe.antt =====
-- A probe of a half-open circuit that a cancelled request takes (src/loop_engine.rs).
use dtcoder_test.Prelude.{
  ℕ, suc, ◌+◌, ◌≡◌, refl, String, ◌⊎◌, Bool, true, false, not, List, ◌∷◌, [], All, arith,
}
use dtcoder_test.Provider.Retry.{RetryPolicy}
use dtcoder_test.Provider.Circuit.{open_circuit, half_open, CircuitBreaker, acquire}
use dtcoder_test.Provider.Circuit.Traces.{Call, run}
use dtcoder_test.Provider.Circuit.Held.{IsSilent, probe_held}
use dtcoder_test.Turn.Request.{
  World, Progress, stopped, return, candidate_fuel, most_retries, is_nil, try_candidate,
  try_candidates, first_progress, request_model,
}

module _ {V M : Type 0} (parse : String → V ⊎ String) (empty_object : V) (w : World M)
    (policy : RetryPolicy) where
  try_candidate-cancelled :
      (fuel i : ℕ) (key : String) (prior : ℕ) (more : Bool) (p : Progress M)
      → w.cancelled_before 0 ≡ true
      → p.asked ≡ []
      → try_candidate parse empty_object w policy (suc fuel) i key prior more p
        ≡ (p, return stopped)
  unfolding try_candidate
  try_candidate-cancelled fuel i key prior more p c a = rw (a, c) refl

  -- A request that is cancelled before its first attempt, after it was given the probe of a
  -- half-open circuit, gives the probe back to nobody: from then on everybody who asks for this
  -- candidate is refused, however much time passes, whoever else asks for whichever candidates, and
  -- whatever is reported of the others, until some request that is still out reports an outcome of
  -- this one.
  pub request_model-leaks_probe :
      (key : String) (keys : List String) (breaker : CircuitBreaker) (messages : M) (cs : List Call)
      (later : ℕ)
      → w.cancelled_at_start ≡ false
      → w.cancelled_before 0 ≡ true
      → (acquire (w.acquired_at 0) key breaker).1 ≡ half_open
      → All (IsSilent key) cs
      → (acquire later key (
          run cs
            (request_model parse empty_object w policy (key ∷ keys) breaker messages).0.breaker)).1
        ≡ open_circuit
  unfolding request_model try_candidates
  request_model-leaks_probe key keys breaker messages cs later s c h silent =
      let q : Progress M = record (first_progress breaker messages) {
        breaker = (acquire (w.acquired_at 0) key breaker).0;
      } in
      let fuel : candidate_fuel policy ≡ suc (most_retries policy + 1) = omega arith in
      let ended =
        try_candidate-cancelled (most_retries policy + 1) 0 key 0 (not (is_nil keys)) q c refl in
      simp (s, h, fuel, ended) (probe_held (w.acquired_at 0) later key breaker cs h silent)
