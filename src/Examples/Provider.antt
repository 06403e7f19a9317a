-- ===== src/Examples/Provider.antt =====
-- The theorems on src/provider at concrete calls.
use dtcoder_test.Prelude.{
  ◌*◌, ◌<◌, ◌≤◌, ◌≡◌, ◌≢◌, String, ◌||◌, ◌&&◌, refl, false, true, some, List, [], ◌∷◌, arith, leb,
  ◌==◌, eq_iff, if◌then◌else◌,
}
use dtcoder_test.Provider.Error.{
  rate_limit, is_transient, from_http_kind, from_http_kind-transient, code_contains,
}
use dtcoder_test.Provider.Retry.{fallback}
use dtcoder_test.Provider.Retry.Outcomes.{keep_failing, keep_failing-recovery}
use dtcoder_test.Provider.Retry
use dtcoder_test.Provider.Circuit.{closed, open_circuit, half_open, acquire, record_outcome}
use dtcoder_test.Provider.Circuit
use dtcoder_test.Provider.Circuit.Laws.{entry_of}
use dtcoder_test.Provider.Circuit.Traces.{
  Call, acquire_call, record_call, run, fail_times, run-acquire_closed, third_failure_opens,
  single_probe,
}
use dtcoder_test.Provider.Circuit.Held.{open_until}
use dtcoder_test.Prelude.Dict.{lookup}

keep_failing-recovery_example :
    let result = keep_failing 9 Retry.default rate_limit (λ n. some 70) true true 0 in
    (result.0 ≡ 2) × (result.1 ≤ result.0 * 5000) × (result.2 ≡ fallback)
keep_failing-recovery_example =
    keep_failing-recovery Retry.default rate_limit (λ n. some 70) true true 9 (omega arith)

from_http_kind-transient_example :
    is_transient (from_http_kind (λ text word. true) 429 (some "quota")) ≡ (
      (429 == 429
        && (if code_contains (λ text word. true) (some "quota") "quota" then false else true))
      || (if leb 400 429 && leb 429 499 then false else true))
from_http_kind-transient_example = from_http_kind-transient (λ text word. true) 429 (some "quota")

abbrev calls : List Call
calls = acquire_call 5 "a" ∷ record_call 10 "a" false true ∷ []

run-acquire_closed_example :
    ((acquire 20 "a" (run calls Circuit.default)).1 ≡ closed
      → (entry_of "a" (run calls Circuit.default)).failures < 3)
    × ((entry_of "a" (run calls Circuit.default)).failures < 3
        → (acquire 20 "a" (run calls Circuit.default)).1 ≡ closed)
run-acquire_closed_example = run-acquire_closed calls 20 "a"

third_failure_opens_example :
    (record_outcome 40 "a" false true
      (fail_times (λ n. n) "a" 2 (record_outcome 40 "a" true false Circuit.default).0)).1
    ≡ (if leb 2 2 then open_circuit else closed)
third_failure_opens_example =
    third_failure_opens (λ n. n) 40 "a" 2 false Circuit.default (omega arith)

-- A breaker whose only entry opened at 0 and whose time has passed.
abbrev expired : Circuit.CircuitBreaker
expired = record {
  entries = ("a", record { failures = 3; opened_at = some 0; probe_active = false }) ∷ [];
  open_duration = 30000;
}

expired_half_open : (acquire 40000 "a" expired).1 ≡ half_open
unfolding acquire lookup
expired_half_open = refl

single_probe_example :
    ((acquire 90000 "a" (acquire 40000 "a" expired).0).1 ≡ open_circuit)
    × ((acquire 99000 "a" (record_outcome 95000 "a" true false (acquire 40000 "a" expired).0).0).1
        ≡ closed)
single_probe_example = single_probe 40000 90000 95000 99000 "a" false expired expired_half_open

expired_opens : (record_outcome 50000 "a" false true expired).1 ≡ open_circuit
unfolding record_outcome lookup
expired_opens = refl

b_not_a : ◌≢◌ {A = String} "b" "a"
b_not_a h = let same : false ≡ true = (eq_iff "b" "a").1 h in ground arith

-- Others ask, and another candidate fails.
abbrev meanwhile : List Call
meanwhile = acquire_call 55000 "a" ∷ record_call 56000 "b" false true ∷ []

open_until_example :
    (acquire 60000 "a" (run meanwhile (record_outcome 50000 "a" false true expired).0)).1
    ≡ open_circuit
open_until_example =
    open_until 50000 60000 "a" false true expired meanwhile expired_opens (tt, (b_not_a, tt))
      (omega arith)
