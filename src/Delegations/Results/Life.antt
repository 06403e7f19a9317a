-- ===== src/Delegations/Results/Life.antt =====
-- The life of a child's result over any sequence of calls, at any times and by any owners.
use dtcoder_test.Prelude.{
  ℕ, ◌<◌, ◌≡◌, ◌≢◌, refl, String, Bool, true, false, Option, none, some, List, [], ◌∷◌, arith,
  str_eq_ne, All,
}
use dtcoder_test.Result.{Result, ok, err}
use dtcoder_test.Runs.Types.{ResultState, unconsumed, reserved, delivered, DelegationRow}
use dtcoder_test.Delegations.Results.{reserve_found, Target, release, deliver, transition_found}

-- A call with the time at which it is made, its owner and the revision that it expects.
pub data Call : Type 0 where
  reserve_call : ℕ → String → ℕ → Call
  transition_call : ℕ → String → ℕ → Target → Call

abbrev pub attempt : Call → DelegationRow → Result (DelegationRow → DelegationRow)
attempt (reserve_call now owner revision) d = reserve_found now owner revision d
attempt (transition_call now owner revision target) d = transition_found now owner revision target d

abbrev pub apply_to : DelegationRow → Result (DelegationRow → DelegationRow) → DelegationRow
apply_to d (ok f) = f d
apply_to d (err e) = d

-- The row after a call; an error changes nothing.
abbrev pub perform : Call → DelegationRow → DelegationRow
perform c d = apply_to d (attempt c d)

unfoldable pub perform_all : List Call → DelegationRow → DelegationRow
perform_all [] d = d
perform_all (c ∷ cs) d = perform_all cs (perform c d)

-- Which columns are filled in each state of a result.
abbrev pub is_well_formed : ResultState → Option String → Option ℕ → Bool
is_well_formed unconsumed none none = true
is_well_formed reserved (some owner) (some expires) = true
is_well_formed delivered (some owner) none = true
is_well_formed _ _ _ = false

abbrev pub IsWellFormed : DelegationRow → Type 0
IsWellFormed d =
    is_well_formed d.result_state d.reservation_owner d.reservation_expires_at_ms ≡ true

perform-IsWellFormed : (c : Call) (d : DelegationRow) → IsWellFormed d → IsWellFormed (perform c d)
unfolding reserve_found transition_found
perform-IsWellFormed (reserve_call now owner revision) d h = ground arith
perform-IsWellFormed (transition_call now owner revision release) d h = ground arith
perform-IsWellFormed (transition_call now owner revision deliver) d h = ground arith

-- Whatever is called, an owner is recorded exactly while the result is reserved or delivered, and
-- an expiry exactly while it is reserved.
pub perform_all-IsWellFormed :
    (cs : List Call) (d : DelegationRow) → IsWellFormed d → IsWellFormed (perform_all cs d)
unfolding perform_all
perform_all-IsWellFormed [] d h = h
perform_all-IsWellFormed (c ∷ cs) d h =
    perform_all-IsWellFormed cs (perform c d) (perform-IsWellFormed c d h)

perform-delivered : (c : Call) (d : DelegationRow) → d.result_state ≡ delivered → perform c d ≡ d
unfolding reserve_found transition_found
perform-delivered (reserve_call now owner revision) d h = ground arith
perform-delivered (transition_call now owner revision release) d h = ground arith
perform-delivered (transition_call now owner revision deliver) d h = ground arith

-- A delivered result is final: no sequence of calls changes its row.
pub delivered_final :
    (cs : List Call) (d : DelegationRow) → d.result_state ≡ delivered → perform_all cs d ≡ d
unfolding perform_all
delivered_final [] d h = refl
delivered_final (c ∷ cs) d h = rw (perform-delivered c d h) (delivered_final cs d h)

-- A call by somebody else than `owner`, made before `expires`.
abbrev pub IsForeign : String → ℕ → Call → Type 0
IsForeign owner expires (reserve_call now other' revision) = (owner ≢ other') × (now < expires)
IsForeign owner expires (transition_call now other' revision target) =
    (owner ≢ other') × (now < expires)

perform-foreign :
    (c : Call) (owner : String) (expires : ℕ) (d : DelegationRow)
    → d.result_state ≡ reserved
    → d.reservation_owner ≡ some owner
    → d.reservation_expires_at_ms ≡ some expires
    → IsForeign owner expires c
    → perform c d ≡ d
unfolding reserve_found transition_found
perform-foreign (reserve_call now other' revision) owner expires d s o e f =
    let ne = str_eq_ne owner other' f.0 in ground arith
perform-foreign (transition_call now other' revision release) owner expires d s o e f =
    let ne = str_eq_ne owner other' f.0 in ground arith
perform-foreign (transition_call now other' revision deliver) owner expires d s o e f =
    let ne = str_eq_ne owner other' f.0 in ground arith

-- Until it expires, a reservation excludes everybody else: no sequence of calls by other owners
-- changes the row.
pub reserved_exclusive :
    (cs : List Call) (owner : String) (expires : ℕ) (d : DelegationRow)
    → d.result_state ≡ reserved
    → d.reservation_owner ≡ some owner
    → d.reservation_expires_at_ms ≡ some expires
    → All (IsForeign owner expires) cs
    → perform_all cs d ≡ d
unfolding perform_all
reserved_exclusive [] owner expires d s o e f = refl
reserved_exclusive (c ∷ cs) owner expires d s o e f =
    rw (perform-foreign c owner expires d s o e f.0)
      (reserved_exclusive cs owner expires d s o e f.1)
