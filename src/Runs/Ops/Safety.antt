-- ===== src/Runs/Ops/Safety.antt =====
-- What holds of src/storage/mod.rs after any sequence of its operations.
use dtcoder_test.Prelude.{
  ℕ, ◌≡◌, refl, String, true, not, Option, none, some, [], ◌∷◌, ◌++◌, arith, if◌then◌else◌, is_some,
  str_eq,
}
use dtcoder_test.Prelude.Tables.{first_where}
use dtcoder_test.Result.{persistence, protocol, Result, ok, err, ◌>>=◌}
use dtcoder_test.Runs.Types.{Run, attempt_data, started, AttemptRow, DelegationRow, Db, empty_db}
use dtcoder_test.Result.{Ensures, Ensures-if}
use dtcoder_test.Runs.Changes.{view, PathTo, here, IsSound}
use dtcoder_test.Runs.Changes.Sound.{PathTo-IsSound}
use dtcoder_test.Runs.Changes.Settled.{PathTo-trans}
use dtcoder_test.Runs.Refine.{From, insert_event-From}
use dtcoder_test.Runs.Rows.{read_run_in, insert_event, is_child}
use dtcoder_test.Runs.Attempts.{
  start_provider_attempt, finish_provider_attempt, finish_attempt_found, is_attempt,
  attempt_status_eq, same_attempt, same_owner, set_attempt,
}
use dtcoder_test.Runs.Changes.Settled.{Lives, PathTo-Lives, is_final, Edges-final}
use dtcoder_test.Runs.Refine.Queue.{
  admit_with_route-From, try_start_queued-From, remove_queued-From,
}
use dtcoder_test.Runs.Refine.Tools.{
  prepare_tool_batch-From, start_tool-From, finish_tool-From, finish_tool_batch-From,
}
use dtcoder_test.Runs.Refine.Interactions.{append_event-From, claim_interaction-From}
use dtcoder_test.Runs.Refine.Finish.{finish-From, reconcile_unknown-From}
use dtcoder_test.Runs.Refine.Recover.{recover-From}
use dtcoder_test.Delegations.Results.{
  Target, set_delegation, reserve_found, transition_found, reserve_read, transition_read,
  reserve_delegation_result, transition_result,
}
use dtcoder_test.Delegations.Bounds.{admit_delegation-From}
use dtcoder_test.Runs.Ops.{
  Op, admit, start, remove, prepare_tools, begin_tool, end_tool, end_batch, append, claim,
  start_attempt, end_attempt, end, reconcile, restart, delegate, reserve_result, move_result,
  state_or, first_or, IsGuarded, apply, Reach, initial, then_apply,
}

state-From : (db : Db) (m : Result Db) → Ensures (From db) m → From db (state_or db m)
state-From db (ok db') h = h
state-From db (err e) h = here

first-From {ℓ} :
    {A : Type ℓ} (db : Db) (m : Result (Db × A))
    → Ensures (λ p. From db p.0) m
    → From db (first_or db m)
first-From db (ok p) h = h
first-From db (err e) h = here

start_attempt-From :
    (now : ℕ) (a : AttemptRow) (db : Db) → Ensures (From db) (start_provider_attempt now a db)
unfolding start_provider_attempt
start_attempt-From now a db =
    Ensures-if (From db) (not (attempt_status_eq a.status started))
      (err (protocol "attempt 初始状态必须为 started"))
      (if is_some (first_where (is_attempt a.attempt_id) db.attempts) then refused else written)
      (λ _. tt)
      (λ _.
        Ensures-if (From db) (is_some (first_where (is_attempt a.attempt_id) db.attempts)) refused
          written (λ _. tt)
          (λ _.
            insert_event-From now a.run_id _ _ db (record db { attempts = db.attempts ++ (a ∷ []) })
              here))
  where
    refused : Result Db
    refused = err (persistence "UNIQUE constraint failed: provider_attempts.attempt_id")

    written : Result Db
    written =
        insert_event now a.run_id "provider_attempt_started" (attempt_data a.attempt_id)
          (record db { attempts = db.attempts ++ (a ∷ []) })

finish_attempt_found-From :
    (now : ℕ) (a : AttemptRow) (o : Option AttemptRow) (db : Db)
    → Ensures (From db) (finish_attempt_found now a o db)
finish_attempt_found-From now a none db = tt
finish_attempt_found-From now a (some previous) db =
    Ensures-if (From db) (not (attempt_status_eq previous.status started)) repeated
      (if not (same_owner previous a) then err (protocol "attempt owner 冲突") else written)
      (λ _.
        Ensures-if (From db) (same_attempt previous a) (ok db) (err (protocol "attempt 终态冲突"))
          (λ _. here) (λ _. tt))
      (λ _.
        Ensures-if (From db) (not (same_owner previous a)) (err (protocol "attempt owner 冲突"))
          written (λ _. tt) (λ _. insert_event-From now a.run_id _ _ db (set_attempt a db) here))
  where
    repeated : Result Db
    repeated = if same_attempt previous a then ok db else err (protocol "attempt 终态冲突")

    written : Result Db
    written =
        insert_event now a.run_id "provider_attempt_terminal" (attempt_data a.attempt_id)
          (set_attempt a db)

end_attempt-From :
    (now : ℕ) (a : AttemptRow) (db : Db) → Ensures (From db) (finish_provider_attempt now a db)
unfolding finish_provider_attempt
end_attempt-From now a db =
    Ensures-if (From db) (attempt_status_eq a.status started) _
      (finish_attempt_found now a (first_where (is_attempt a.attempt_id) db.attempts) db) (λ _. tt)
      (λ _. finish_attempt_found-From now a (first_where (is_attempt a.attempt_id) db.attempts) db)

changed-From :
    (child : ℕ) (m : Result (DelegationRow → DelegationRow)) (db : Db)
    → Ensures (From db) (m >>= (λ f. ok (set_delegation child f db)))
changed-From child (ok f) db = here
changed-From child (err e) db = tt

reserve-From :
    (now child : ℕ) (owner : String) (revision : ℕ) (db : Db)
    → Ensures (From db) (reserve_delegation_result now child owner revision db)
unfolding reserve_delegation_result
reserve-From now child owner revision db = go (first_where (is_child child) db.delegations)
  where
    go : (o : Option DelegationRow) → Ensures (From db) (reserve_read now child owner revision o db)
    go none = tt
    go (some d) =
        Ensures-if (From db) (str_eq owner "") _
          (reserve_found now owner revision d >>= (λ f. ok (set_delegation child f db))) (λ _. tt)
          (λ _. changed-From child (reserve_found now owner revision d) db)

transition-From :
    (now child : ℕ) (owner : String) (revision : ℕ) (target : Target) (db : Db)
    → Ensures (From db) (transition_result now child owner revision target db)
unfolding transition_result
transition-From now child owner revision target db =
    go (first_where (is_child child) db.delegations)
  where
    go :
        (o : Option DelegationRow)
        → Ensures (From db) (transition_read now child owner revision target o db)
    go none = tt
    go (some d) = changed-From child (transition_found now owner revision target d) db

module _ (sha256 to_json : String → String) where
  -- Every operation follows the step relation of the runs.
  apply-From :
      (op : Op) (db : Db)
      → IsSound (view db)
      → IsGuarded op db
      → PathTo (view db) (view (apply sha256 to_json op db))
  unfolding apply
  apply-From (admit now session request input mode route) db s g =
      first-From db _ (admit_with_route-From now session request input mode route db)
  apply-From (start now id) db s g = first-From db _ (try_start_queued-From now id db)
  apply-From (remove now id) db s g = first-From db _ (remove_queued-From now id db)
  apply-From (prepare_tools now id round calls) db s g =
      state-From db _ (prepare_tool_batch-From now id round calls db)
  apply-From (begin_tool now id round call) db s g =
      state-From db _ (start_tool-From now id round call db)
  apply-From (end_tool now id round call outcome artifact receipt) db s g =
      state-From db _ (finish_tool-From now id round call outcome artifact receipt db)
  apply-From (end_batch now id round) db s g =
      state-From db _ (finish_tool_batch-From now id round db)
  apply-From (append now id event payload) db s g =
      state-From db _ (append_event-From now id event payload db s g)
  apply-From (claim now id session run revision approved) db s g =
      state-From db _ (claim_interaction-From now id session run revision approved db)
  apply-From (start_attempt now a) db s g = state-From db _ (start_attempt-From now a db)
  apply-From (end_attempt now a) db s g = state-From db _ (end_attempt-From now a db)
  apply-From (end now id status content error) db s g =
      first-From db _ (finish-From now id status content error db s)
  apply-From (reconcile now id session expected status content evidence) db s g =
      first-From db _
        (reconcile_unknown-From sha256 now id session expected status content evidence db s)
  apply-From (restart now) db s g = first-From db _ (recover-From now db s)
  apply-From (delegate now q) db s g = first-From db _ (admit_delegation-From to_json now q db)
  apply-From (reserve_result now child owner revision) db s g =
      state-From db _ (reserve-From now child owner revision db)
  apply-From (move_result now child owner revision target) db s g =
      state-From db _ (transition-From now child owner revision target db)

  pub Reach-PathTo :
      {db db' : Db} → IsSound (view db) → Reach sha256 to_json db db' → PathTo (view db) (view db')
  Reach-PathTo s initial = here
  Reach-PathTo s (then_apply {db1 = db1} r op g) =
      let before = Reach-PathTo s r in
      PathTo-trans before (apply-From op db1 (PathTo-IsSound before s) g)

  empty-IsSound : IsSound (view empty_db)
  empty-IsSound = record {
    unique = λ id. omega arith;
    single_writer = λ s. omega arith;
    numbered = λ id. refl;
  }

  -- In every database that operations reach from the empty one, where questions are asked of active
  -- runs only, a run id names one row at most, a
  -- session has at most one run that executes or waits for an answer, and the events of each run
  -- are numbered 1, 2, ... up to its `last_seq`, in the order of insertion.
  pub Reach-IsSound : (db : Db) → Reach sha256 to_json empty_db db → IsSound (view db)
  Reach-IsSound db r = PathTo-IsSound (Reach-PathTo empty-IsSound r) empty-IsSound

  -- After operations from the empty database, where questions are asked of active runs only, a run
  -- that is stored stays stored under its id and its session, and its status moves only
  -- along the edges of its life.
  pub Reach-Lives :
      (db db' : Db) (id : ℕ) (r : Run)
      → Reach sha256 to_json empty_db db
      → Reach sha256 to_json db db'
      → read_run_in id db ≡ some r
      → Lives id r db'.runs
  Reach-Lives db db' id r from to found =
      PathTo-Lives id r (Reach-PathTo (Reach-IsSound db from) to) found

  -- After operations from the empty database, where questions are asked of active runs only, the end
  -- of a run is final: a run that is completed, failed or cancelled keeps that status
  -- whatever operations follow.
  pub Reach-final :
      (db db' : Db) (id : ℕ) (r : Run)
      → Reach sha256 to_json empty_db db
      → Reach sha256 to_json db db'
      → read_run_in id db ≡ some r
      → is_final r.status ≡ true
      → (r' : Run) × (read_run_in id db' ≡ some r') × (r'.status ≡ r.status)
  Reach-final db db' id r from to found over =
      let l = Reach-Lives db db' id r from to found in (l.row, l.found, Edges-final l.path over)
