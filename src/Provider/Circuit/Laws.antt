-- ===== src/Provider/Circuit/Laws.antt =====
-- What src/provider/circuit.rs promises: when a circuit opens, probes and closes.
use dtcoder_test.Prelude.{
  ℕ, ◌≡◌, ◌≢◌, refl, String, Bool, arith, leb, is_some, str_eq_refl, str_eq_ne,
}
use dtcoder_test.Prelude.Dict.{lookup, lookup-insert}
use dtcoder_test.Provider.Circuit.{
  Entry, CircuitBreaker, or_insert, acquire_entry, acquire, record_entry, record_outcome,
}

abbrev pub entry_of : String → CircuitBreaker → Entry
entry_of k b = or_insert (lookup k b.entries)

pub entry-acquire :
    (now : ℕ) (k : String) (b : CircuitBreaker)
    → let e = entry_of k b in
      entry_of k (acquire now k b).0 ≡ (acquire_entry now b.open_duration e.opened_at e).0
unfolding acquire
entry-acquire now k b = rw (lookup-insert, str_eq_refl k)

pub entry-record :
    (now : ℕ) (k : String) (success transient : Bool) (b : CircuitBreaker)
    → entry_of k (record_outcome now k success transient b).0
      ≡ (record_entry now success transient (entry_of k b)).0
unfolding record_outcome
entry-record now k success transient b = rw (lookup-insert, str_eq_refl k)

pub acquire_lem :
    (now : ℕ) (k : String) (b : CircuitBreaker)
    → let e = entry_of k b in
      ((acquire now k b).1 ≡ (acquire_entry now b.open_duration e.opened_at e).1)
      × ((acquire now k b).0.open_duration ≡ b.open_duration)
unfolding acquire
acquire_lem now k b = (refl, refl)

pub record_lem :
    (now : ℕ) (k : String) (success transient : Bool) (b : CircuitBreaker)
    → ((record_outcome now k success transient b).1
        ≡ (record_entry now success transient (entry_of k b)).1)
      × ((record_outcome now k success transient b).0.open_duration ≡ b.open_duration)
unfolding record_outcome
record_lem now k success transient b = (refl, refl)

-- A call for one candidate leaves the entries of all others as they are.
pub other_keys_untouched :
    (now : ℕ) (k j : String) (success transient : Bool) (b : CircuitBreaker)
    → k ≢ j
    → (lookup j (acquire now k b).0.entries ≡ lookup j b.entries)
      × (lookup j (record_outcome now k success transient b).0.entries ≡ lookup j b.entries)
unfolding acquire record_outcome
other_keys_untouched now k j success transient b h =
    (rw (lookup-insert, str_eq_ne k j h), rw (lookup-insert, str_eq_ne k j h))

-- A circuit was opened exactly when three failures are counted.
abbrev pub IsConsistent : Entry → Type 0
IsConsistent e = is_some e.opened_at ≡ leb 3 e.failures

pub acquire-IsConsistent :
    (now duration : ℕ) (e : Entry)
    → IsConsistent e
    → IsConsistent (acquire_entry now duration e.opened_at e).0
acquire-IsConsistent now duration e h = ground arith

pub record-IsConsistent :
    (now : ℕ) (success transient : Bool) (e : Entry)
    → IsConsistent e
    → IsConsistent (record_entry now success transient e).0
record-IsConsistent now success transient e h = ground arith
