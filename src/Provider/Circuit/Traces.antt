-- ===== src/Provider/Circuit/Traces.antt =====
-- The circuit breaker of src/provider/circuit.rs over sequences of calls.
use dtcoder_test.Prelude.{
  ℕ, zero, suc, ◌≤◌, ◌<◌, ◌≡◌, refl, inl, inr, String, Bool, true, false, List, [], ◌∷◌, arith, leb,
  if◌then◌else◌, u32_max, str_eq, Bool-cases,
}
use dtcoder_test.Prelude.Dict.{lookup, lookup-insert}
use dtcoder_test.Provider.Circuit.{
  closed, open_circuit, half_open, Entry, CircuitBreaker, acquire_entry, acquire, record_entry,
  record_outcome, default,
}
use dtcoder_test.Provider.Circuit.Laws.{
  entry_of, entry-acquire, entry-record, acquire_lem, record_lem, IsConsistent,
  acquire-IsConsistent, record-IsConsistent,
}

-- A call of the breaker, with the time at which it is made.
pub data Call : Type 0 where
  acquire_call : ℕ → String → Call
  record_call : ℕ → String → Bool → Bool → Call

abbrev pub perform : Call → CircuitBreaker → CircuitBreaker
perform (acquire_call now k) b = (acquire now k b).0
perform (record_call now k success transient) b = (record_outcome now k success transient b).0

unfoldable pub run : List Call → CircuitBreaker → CircuitBreaker
run [] b = b
run (c ∷ cs) b = run cs (perform c b)

abbrev pub AllConsistent : CircuitBreaker → Type 0
AllConsistent b = (j : String) → IsConsistent (entry_of j b)

perform-AllConsistent :
    (c : Call) (b : CircuitBreaker) → AllConsistent b → AllConsistent (perform c b)
unfolding acquire record_outcome
perform-AllConsistent (acquire_call now k) b h j =
    rw lookup-insert (elim (Bool-cases (str_eq k j)) [
      | inl e ↦ rw e (acquire-IsConsistent now b.open_duration (entry_of k b) (h k))
      | inr e ↦ rw e (h j)
    ])
perform-AllConsistent (record_call now k success transient) b h j =
    rw lookup-insert (elim (Bool-cases (str_eq k j)) [
      | inl e ↦ rw e (record-IsConsistent now success transient (entry_of k b) (h k))
      | inr e ↦ rw e (h j)
    ])

run-AllConsistent :
    (cs : List Call) (b : CircuitBreaker) → AllConsistent b → AllConsistent (run cs b)
unfolding run
run-AllConsistent [] b h = h
run-AllConsistent (c ∷ cs) b h = run-AllConsistent cs (perform c b) (perform-AllConsistent c b h)

default-AllConsistent : AllConsistent default
unfolding lookup
default-AllConsistent j = refl

acquire_closed :
    (now duration : ℕ) (e : Entry)
    → IsConsistent e
    → ((acquire_entry now duration e.opened_at e).1 ≡ closed → e.failures < 3)
      × (e.failures < 3 → (acquire_entry now duration e.opened_at e).1 ≡ closed)
acquire_closed now duration e h = (λ c. ground arith, λ c. ground arith)

-- After any calls at any times, a candidate is admitted without restriction exactly when fewer
-- than three failures are counted for it.
pub run-acquire_closed :
    (cs : List Call) (now : ℕ) (k : String)
    → ((acquire now k (run cs default)).1 ≡ closed → (entry_of k (run cs default)).failures < 3)
      × ((entry_of k (run cs default)).failures < 3 → (acquire now k (run cs default)).1 ≡ closed)
unfolding acquire
run-acquire_closed cs now k =
    let b = run cs default in
    acquire_closed now b.open_duration (entry_of k b)
      (run-AllConsistent cs default default-AllConsistent k)

-- n transient failures in a row, the i-th of them at `times i`.
pub fail_times : (ℕ → ℕ) → String → ℕ → CircuitBreaker → CircuitBreaker
fail_times times k zero b = b
fail_times times k (suc n) b = (record_outcome (times n) k false true (fail_times times k n b)).0

failures-fail_times :
    (times : ℕ → ℕ) (k : String) (n : ℕ) (b : CircuitBreaker)
    → (entry_of k b).failures ≡ 0
    → n ≤ u32_max
    → (entry_of k (fail_times times k n b)).failures ≡ n
unfolding fail_times
failures-fail_times times k zero b h le = h
failures-fail_times times k (suc n) b h le =
    let before = failures-fail_times times k n b h (omega arith) in
    rw (entry-record (times n) k false true (fail_times times k n b)) (ground (arith, before))

fails_at :
    (now n : ℕ) (e : Entry)
    → e.failures ≡ n
    → (record_entry now false true e).1 ≡ (if leb 2 n then open_circuit else closed)
fails_at now n e h = ground arith

-- From a candidate that just succeeded, n further transient failures leave its circuit closed
-- while n is below three, and the next one opens it exactly when n is two or more.
pub third_failure_opens :
    (times : ℕ → ℕ) (now : ℕ) (k : String) (n : ℕ) (transient : Bool) (b : CircuitBreaker)
    → n < u32_max
    → (record_outcome now k false true
        (fail_times times k n (record_outcome now k true transient b).0)).1
      ≡ (if leb 2 n then open_circuit else closed)
third_failure_opens times now k n transient b le =
    let b' = (record_outcome now k true transient b).0 in
    let last = fail_times times k n b' in
    let counted =
      failures-fail_times times k n b' (rw (entry-record now k true transient b) refl)
        (omega arith) in
    rw ((record_lem now k false true last).0) (fails_at now n (entry_of k last) counted)

probe_entry :
    (now later duration : ℕ) (e : Entry)
    → (acquire_entry now duration e.opened_at e).1 ≡ half_open
    → let e' = (acquire_entry now duration e.opened_at e).0 in
      (acquire_entry later duration e'.opened_at e').1 ≡ open_circuit
probe_entry now later duration e h = ground arith

-- While a circuit is half open its probe is alone: whoever asks next, at any time, is refused.
-- If the probe succeeds the circuit is closed for everybody.
pub single_probe :
    (now later done after : ℕ) (k : String) (transient : Bool) (b : CircuitBreaker)
    → (acquire now k b).1 ≡ half_open
    → ((acquire later k (acquire now k b).0).1 ≡ open_circuit)
      × ((acquire after k (record_outcome done k true transient (acquire now k b).0).0).1 ≡ closed)
single_probe now later done after k transient b h =
    let b1 = (acquire now k b).0 in
    let b2 = (record_outcome done k true transient b1).0 in
    (
      rw ((acquire_lem later k b1).0, entry-acquire now k b, (acquire_lem now k b).1)
          (probe_entry now later b.open_duration (entry_of k b)
            (rw ((acquire_lem now k b).0) at h)),
      rw ((acquire_lem after k b2).0, entry-record done k true transient b1) refl,
    )
