-- ===== src/Provider/Circuit/Held.antt =====
-- A circuit of src/provider/circuit.rs for whose candidate no outcome is reported, over sequences of
-- calls: what an open circuit and a probe that is out do to those who ask.
use dtcoder_test.Prelude.{
  ℕ, ◌-◌, ◌<◌, ◌≡◌, ◌≢◌, refl, inl, inr, String, Bool, true, some, List, [], ◌∷◌, All, arith,
  is_some, str_eq, eq_iff, Bool-cases, ◌∙◌,
}
use dtcoder_test.Prelude.Dict.{lookup-insert}
use dtcoder_test.Provider.Circuit.{
  open_circuit, half_open, Entry, CircuitBreaker, acquire_entry, acquire, record_entry,
  record_outcome,
}
use dtcoder_test.Provider.Circuit.Laws.{
  entry_of, entry-acquire, entry-record, acquire_lem, record_lem, other_keys_untouched,
}
use dtcoder_test.Provider.Circuit.Traces.{Call, acquire_call, record_call, perform, run}

-- The call reports no outcome of the candidate `k`.
abbrev pub IsSilent : String → Call → Type 0
IsSilent k (acquire_call now j) = Unit
IsSilent k (record_call now j success transient) = j ≢ k

-- A property of an entry that every acquisition keeps.
abbrev IsKept : (Entry → Type 0) → Type 0
IsKept P = (now duration : ℕ) (e : Entry) → P e → P (acquire_entry now duration e.opened_at e).0

perform-keeps :
    (P : Entry → Type 0) (k : String) (c : Call) (b : CircuitBreaker)
    → IsKept P
    → IsSilent k c
    → P (entry_of k b)
    → P (entry_of k (perform c b))
unfolding acquire
perform-keeps P k (acquire_call now j) b keeps s h =
    rw lookup-insert (elim (Bool-cases (str_eq j k)) [
      | inl e ↦
          let same = (eq_iff j k).0 e in rw e (keeps now b.open_duration (entry_of j b) (rw same h))
      | inr e ↦ rw e h
    ])
perform-keeps P k (record_call now j success transient) b keeps s h =
    rw ((other_keys_untouched now j k success transient b s).1) h

perform-duration : (c : Call) (b : CircuitBreaker) → (perform c b).open_duration ≡ b.open_duration
perform-duration (acquire_call now j) b = (acquire_lem now j b).1
perform-duration (record_call now j success transient) b = (record_lem now j success transient b).1

run-keeps :
    (P : Entry → Type 0) (k : String) (cs : List Call) (b : CircuitBreaker)
    → IsKept P
    → All (IsSilent k) cs
    → P (entry_of k b)
    → P (entry_of k (run cs b)) × ((run cs b).open_duration ≡ b.open_duration)
unfolding run
run-keeps P k [] b keeps s h = (h, refl)
run-keeps P k (c ∷ cs) b keeps s h =
    let rest = run-keeps P k cs (perform c b) keeps s.1 (perform-keeps P k c b keeps s.0 h) in
    (rest.0, rest.1 ∙ perform-duration c b)

record-opened :
    (now : ℕ) (success transient : Bool) (e : Entry)
    → (record_entry now success transient e).1 ≡ open_circuit
    → (record_entry now success transient e).0.opened_at ≡ some now
record-opened now success transient e h = ground arith

opened_recently :
    (at now duration : ℕ) (e : Entry)
    → e.opened_at ≡ some at
    → now - at < duration
    → (acquire_entry now duration e.opened_at e).1 ≡ open_circuit
opened_recently at now duration e h lt = ground arith

opened-IsKept : (at : ℕ) → IsKept (λ e. e.opened_at ≡ some at)
opened-IsKept at now duration e h = ground arith

-- An outcome that opens a circuit keeps it shut to everybody until `open_duration` has passed, or
-- another outcome of this candidate is reported: whoever asks for whichever candidates in the
-- meantime, and whatever is reported of others, who asks for this one before is refused.
pub open_until :
    (now later : ℕ) (k : String) (success transient : Bool) (b : CircuitBreaker) (cs : List Call)
    → (record_outcome now k success transient b).1 ≡ open_circuit
    → All (IsSilent k) cs
    → later - now < b.open_duration
    → (acquire later k (run cs (record_outcome now k success transient b).0)).1 ≡ open_circuit
open_until now later k success transient b cs h silent lt =
    let b1 = (record_outcome now k success transient b).0 in
    let law = record_lem now k success transient b in
    let opened : (entry_of k b1).opened_at ≡ some now =
      rw (entry-record now k success transient b)
        (record-opened now success transient (entry_of k b) (rw (law.0) at h)) in
    let kept = run-keeps (λ e. e.opened_at ≡ some now) k cs b1 (opened-IsKept now) silent opened in
    rw ((acquire_lem later k (run cs b1)).0) (
      opened_recently now later (run cs b1).open_duration (entry_of k (run cs b1)) kept.0
        (rw (kept.1, law.1) lt))

-- An open circuit whose probe is out.
abbrev IsHeld : Entry → Type 0
IsHeld e = (is_some e.opened_at ≡ true) × (e.probe_active ≡ true)

acquire-IsHeld :
    (now duration : ℕ) (e : Entry)
    → (acquire_entry now duration e.opened_at e).1 ≡ half_open
    → IsHeld (acquire_entry now duration e.opened_at e).0
acquire-IsHeld now duration e h = (ground arith, ground arith)

IsHeld-IsKept : IsKept IsHeld
IsHeld-IsKept now duration e h = (ground arith, ground arith)

held_refuses :
    (now duration : ℕ) (e : Entry)
    → IsHeld e
    → (acquire_entry now duration e.opened_at e).1 ≡ open_circuit
held_refuses now duration e h = ground arith

-- The one who is given the probe of a candidate keeps all others off it until somebody reports an
-- outcome of the candidate, however much time passes.
pub probe_held :
    (now later : ℕ) (k : String) (b : CircuitBreaker) (cs : List Call)
    → (acquire now k b).1 ≡ half_open
    → All (IsSilent k) cs
    → (acquire later k (run cs (acquire now k b).0)).1 ≡ open_circuit
probe_held now later k b cs h silent =
    let b1 = (acquire now k b).0 in
    let held : IsHeld (entry_of k b1) =
      rw (entry-acquire now k b)
        (acquire-IsHeld now b.open_duration (entry_of k b) (rw ((acquire_lem now k b).0) at h)) in
    let kept = run-keeps IsHeld k cs b1 IsHeld-IsKept silent held in
    rw ((acquire_lem later k (run cs b1)).0)
      (held_refuses later (run cs b1).open_duration (entry_of k (run cs b1)) kept.0)
