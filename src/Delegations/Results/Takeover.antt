-- ===== src/Delegations/Results/Takeover.antt =====
-- An expired reservation of src/storage/delegation.rs and the 30 seconds of the owner who takes over.
use dtcoder_test.Prelude.{
  ℕ, ◌+◌, ◌≤◌, ◌≡◌, ◌≢◌, String, true, some, List, ◌∷◌, arith, ltb, if◌then◌else◌, str_eq_ne,
  str_eq_refl, All,
}
use dtcoder_test.Runs.Types.{terminal, reserved, delivered, DelegationRow}
use dtcoder_test.Delegations.Results.{reserve_found, deliver, transition_found}
use dtcoder_test.Delegations.Results.Life.{
  Call, reserve_call, transition_call, perform, perform_all, IsForeign, reserved_exclusive,
}

-- A finished child whose result `owner` has reserved until `expires`.
abbrev IsReservedBy : String → ℕ → ℕ → DelegationRow → Type 0
IsReservedBy owner expires revision d =
    (d.result_state ≡ reserved)
    × (d.reservation_owner ≡ some owner)
    × (d.reservation_expires_at_ms ≡ some expires)
    × (terminal d.status ≡ true)
    × (d.revision ≡ revision)

taken_over :
    (now revision expires : ℕ) (old owner : String) (d : DelegationRow)
    → old ≢ owner
    → expires ≤ now
    → IsReservedBy old expires revision d
    → IsReservedBy owner (now + 30000) (revision + 2) (perform (reserve_call now owner revision) d)
unfolding reserve_found
taken_over now revision expires old owner d ne le h =
    let differ = str_eq_ne old owner ne in
    (ground arith, ground arith, ground arith, ground arith, ground arith)

deliver_reserved :
    (now revision expires : ℕ) (owner : String) (d : DelegationRow)
    → IsReservedBy owner expires revision d
    → let d' = perform (transition_call now owner revision deliver) d in
      (d'.result_state ≡ (if ltb now expires then delivered else reserved))
      × (d'.revision ≡ (if ltb now expires then revision + 1 else revision))
unfolding transition_found
deliver_reserved now revision expires owner d h =
    let same = str_eq_refl owner in (ground arith, ground arith)

reserve_reserved :
    (now revision expires : ℕ) (owner next : String) (d : DelegationRow)
    → owner ≢ next
    → IsReservedBy owner expires revision d
    → (perform (reserve_call now next revision) d).reservation_owner
      ≡ some (if ltb now expires then owner else next)
unfolding reserve_found
reserve_reserved now revision expires owner next d ne h =
    let differ = str_eq_ne owner next ne in ground arith

-- The reservation of a finished child's result, once it has expired, passes to the owner who asks
-- for it with the current revision, and for 30 seconds exactly. Whatever others call in the
-- meantime, within the 30 seconds: a delivery by the new owner with the new revision is made if it
-- comes before the 30 seconds are over, and changes neither state nor revision if it comes later;
-- and another owner who asks with the new revision gets the result only if the 30 seconds are over.
pub takeover :
    (now done late revision expires : ℕ) (old owner next : String) (d : DelegationRow)
    (cs : List Call)
    → d.result_state ≡ reserved
    → d.reservation_owner ≡ some old
    → d.reservation_expires_at_ms ≡ some expires
    → terminal d.status ≡ true
    → d.revision ≡ revision
    → expires ≤ now
    → old ≢ owner
    → owner ≢ next
    → All (IsForeign owner (now + 30000)) cs
    → let taken = perform_all (reserve_call now owner revision ∷ cs) d in
      let after = perform (transition_call done owner (revision + 2) deliver) taken in
      let contested = perform (reserve_call late next (revision + 2)) taken in
      (after.result_state ≡ (if ltb done (now + 30000) then delivered else reserved))
      × (after.revision ≡ (if ltb done (now + 30000) then revision + 2 + 1 else revision + 2))
      × (contested.reservation_owner ≡ some (if ltb late (now + 30000) then owner else next))
unfolding perform_all
takeover now done late revision expires old owner next d cs s o e t r le ne ne' foreign =
    let d' = perform (reserve_call now owner revision) d in
    let held = taken_over now revision expires old owner d ne le (s, o, e, t, r) in
    let same = reserved_exclusive cs owner (now + 30000) d' held.0 held.1 held.2 foreign in
    let made = deliver_reserved done (revision + 2) (now + 30000) owner d' held in
    rw same
      (made.0, made.1, reserve_reserved late (revision + 2) (now + 30000) owner next d' ne' held)
