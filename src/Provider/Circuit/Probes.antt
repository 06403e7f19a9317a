-- ===== src/Provider/Circuit/Probes.antt =====
-- Which probes of src/provider/circuit.rs a call gives out and takes back.
use dtcoder_test.Prelude.{ℕ, ◌≡◌, inl, inr, String, Bool, false, arith, str_eq, eq_iff, Bool-cases}
use dtcoder_test.Prelude.Dict.{lookup-insert}
use dtcoder_test.Provider.Circuit.{
  open_circuit, Entry, CircuitBreaker, acquire_entry, acquire, record_entry, record_outcome,
}
use dtcoder_test.Provider.Circuit.Laws.{entry_of}

-- No probe of the candidate `j` is out.
abbrev pub IsFree : String → CircuitBreaker → Type 0
IsFree j b = (entry_of j b).probe_active ≡ false

-- The same, unless `j` is the candidate `k`.
abbrev pub IsFreeBut : String → String → CircuitBreaker → Type 0
IsFreeBut k j b = str_eq k j ≡ false → IsFree j b

record-freed :
    (now : ℕ) (success transient : Bool) (e : Entry)
    → (record_entry now success transient e).0.probe_active ≡ false
record-freed now success transient e = ground arith

-- Reporting an outcome takes the probe of the candidate back.
pub record-IsFree :
    (now : ℕ) (k j : String) (success transient : Bool) (b : CircuitBreaker)
    → IsFreeBut k j b
    → IsFree j (record_outcome now k success transient b).0
unfolding record_outcome
record-IsFree now k j success transient b h = rw lookup-insert (elim (Bool-cases (str_eq k j)) [
  | inl e ↦ rw e (record-freed now success transient (entry_of k b))
  | inr e ↦ rw e (h e)
])

-- Asking for a candidate gives out no other probe than its own.
pub acquire-IsFreeBut :
    (now : ℕ) (k j : String) (b : CircuitBreaker) → IsFree j b → IsFreeBut k j (acquire now k b).0
unfolding acquire
acquire-IsFreeBut now k j b h e = rw (lookup-insert, e) h

refused_entry :
    (now duration : ℕ) (e : Entry)
    → (acquire_entry now duration e.opened_at e).1 ≡ open_circuit
    → (acquire_entry now duration e.opened_at e).0 ≡ e
refused_entry now duration e h = ground arith

-- One who is refused has no probe.
pub acquire-IsFree :
    (now : ℕ) (k j : String) (b : CircuitBreaker)
    → (acquire now k b).1 ≡ open_circuit
    → IsFree j b
    → IsFree j (acquire now k b).0
unfolding acquire
acquire-IsFree now k j b refused h = rw lookup-insert (elim (Bool-cases (str_eq k j)) [
  | inl e ↦
      let same = (eq_iff k j).0 e in
      rw (e, refused_entry now b.open_duration (entry_of k b) refused, same) h
  | inr e ↦ rw e h
])
