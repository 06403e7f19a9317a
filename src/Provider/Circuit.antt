-- ===== src/Provider/Circuit.antt =====
-- src/provider/circuit.rs: a circuit breaker for each candidate. An `Instant` is a number of
-- milliseconds that the caller reads, and `elapsed` stops at 0 as `Instant::elapsed` does. The
-- mutex makes each call one step.
pub mod Laws
pub mod Traces
pub mod Held
pub mod Probes
use dtcoder_test.Prelude.{
  ℕ, zero, suc, ◌+◌, ◌-◌, ◌≤◌, ◌<◌, ◌≡◌, refl, ◌⊎◌, String, Bool, true, false, ◌&&◌, ◌||◌, Option,
  none, some, List, [], ◌∷◌, arith, ltb, leb, if◌then◌else◌, u32_max, cap_at, is_some, str_eq,
  eq_iff,
}
use dtcoder_test.Prelude.Dict.{lookup, insert, lookup-insert}

pub data CircuitState : Type 0 where
  closed open_circuit half_open : CircuitState

pub record Entry : Type 0 where
  pub failures : ℕ
  pub opened_at : Option ℕ
  pub probe_active : Bool

pub record CircuitBreaker : Type 0 where
  pub entries : List (String × Entry)
  pub open_duration : ℕ

abbrev pub default : CircuitBreaker
default = record { entries = []; open_duration = 30000 }

-- `.or_insert(Entry { failures: 0, opened_at: None, probe_active: false })`
abbrev pub or_insert : Option Entry → Entry
or_insert none = record { failures = 0; opened_at = none; probe_active = false }
or_insert (some e) = e

-- The `match entry.opened_at` of `acquire`.
abbrev pub acquire_entry : ℕ → ℕ → Option ℕ → Entry → Entry × CircuitState
acquire_entry now duration none e = (e, closed)
acquire_entry now duration (some at) e =
    if ltb (now - at) duration || e.probe_active
    then (e, open_circuit)
    else (record e { probe_active = true }, half_open)

unfoldable pub acquire : ℕ → String → CircuitBreaker → CircuitBreaker × CircuitState
acquire now key b =
    let e = or_insert (lookup key b.entries) in
    let (e', state) = acquire_entry now b.open_duration e.opened_at e in
    (record b { entries = insert key e' b.entries }, state)

-- What `record` does to the entry; `transient` is its `transient_failure`.
abbrev pub record_entry : ℕ → Bool → Bool → Entry → Entry × CircuitState
record_entry now success transient e =
    if success
    then (record { failures = 0; opened_at = none; probe_active = false }, closed)
    else (let counted =
          if transient
          then record e { failures = cap_at u32_max (e.failures + 1); probe_active = false }
          else record { failures = 0; opened_at = none; probe_active = false } in
        if leb 3 counted.failures
        then (record counted { opened_at = some now }, open_circuit)
        else (counted, closed))

unfoldable pub record_outcome :
    ℕ → String → Bool → Bool → CircuitBreaker → CircuitBreaker × CircuitState
record_outcome now key success transient b =
    let e = or_insert (lookup key b.entries) in
    let (e', state) = record_entry now success transient e in
    (record b { entries = insert key e' b.entries }, state)
