-- ===== src/Runs/Laws/Tools.antt =====
-- src/storage/mod.rs: how many tool calls a run may prepare.
use dtcoder_test.Prelude.{
  ℕ, ◌+◌, ◌≤◌, ◌≡◌, refl, String, Option, none, some, List, [], ◌∷◌, arith, ltb, ◌==◌, length,
  is_some, ltb→le, inl, inr, Bool-cases,
}
use dtcoder_test.Prelude.Tables.{first_where, count_where-append}
use dtcoder_test.Result.{ok, Ensures, Ensures-bind, Ensures-if, Ensures_of_ok, Ensures-map}
use dtcoder_test.Runs.Types.{
  Run, ToolRow, DelegationRow, Db, Payload, running, status_eq, batch_prepared,
}
use dtcoder_test.Runs.Rows.{is_child, read_run_in, insert_event, push_event_for}
use dtcoder_test.Runs.Tools.{
  PreparedCall, prepared_row, insert_call, insert_calls, calls_of, check_tool_budget, call_ids,
  is_call, prepare_running, prepare_read, prepare_tool_batch,
}

insert_call-calls_of :
    (id round : ℕ) (c : PreparedCall) (ts : List ToolRow)
    → Ensures (λ ts'. calls_of id ts' ≡ calls_of id ts + 1) (insert_call id round c ts)
insert_call-calls_of id round c ts =
    Ensures-if (λ ts'. calls_of id ts' ≡ calls_of id ts + 1)
      (is_some (first_where (is_call id round c.call_id) ts)) _ _ (λ _. tt)
      (λ _.
        ground (arith, count_where-append (λ t. t.run_id == id) ts (prepared_row id round c ∷ [])))

insert_calls-calls_of :
    (id round : ℕ) (cs : List PreparedCall) (ts : List ToolRow)
    → Ensures (λ ts'. calls_of id ts' ≡ calls_of id ts + length cs) (insert_calls id round cs ts)
unfolding insert_calls
insert_calls-calls_of id round [] ts = omega arith
insert_calls-calls_of id round (c ∷ cs) ts =
    Ensures-bind (λ ts'. calls_of id ts' ≡ calls_of id ts + 1)
      (λ ts'. calls_of id ts' ≡ calls_of id ts + length (c ∷ cs)) (insert_call id round c ts)
      (insert_calls id round cs) (insert_call-calls_of id round c ts)
      (λ ts1 h.
        Ensures-map (λ ts'. calls_of id ts' ≡ calls_of id ts1 + length cs)
          (λ ts'. calls_of id ts' ≡ calls_of id ts + length (c ∷ cs)) _ (λ ts' h'. omega arith)
          (insert_calls-calls_of id round cs ts1))

insert_event-tools :
    (now id : ℕ) (event : String) (payload : Payload) (db : Db)
    → Ensures (λ db'. db'.tools ≡ db.tools) (insert_event now id event payload db)
unfolding insert_event
insert_event-tools now id event payload db = go (read_run_in id db)
  where
    go :
        (o : Option Run)
        → Ensures (λ db'. db'.tools ≡ db.tools) (push_event_for now id event payload db o)
    go none = tt
    go (some r) = refl

-- What a budget allows: a child run has one, other runs have none.
abbrev pub Affords : Option DelegationRow → ℕ → Type 0
Affords none n = Unit
Affords (some d) n = n ≤ d.max_tool_calls

check_tool_budget-Affords :
    (id n : ℕ) (o : Option DelegationRow) (ts : List ToolRow)
    → Ensures (λ u. Affords o (calls_of id ts + n)) (check_tool_budget id n o ts)
check_tool_budget-Affords id n none ts = tt
check_tool_budget-Affords id n (some d) ts =
    elim (Bool-cases (ltb d.max_tool_calls (calls_of id ts + n))) [
      | inl over ↦ rw over tt
      | inr within ↦ rw within (ltb→le _ _ within)
    ]

abbrev pub Prepared : ℕ → ℕ → Db → Db → Type 0
Prepared id n db db' =
    (calls_of id db'.tools ≡ calls_of id db.tools + n)
    × Affords (first_where (is_child id) db.delegations) (calls_of id db'.tools)

prepare_running-Prepared :
    (now id round : ℕ) (calls : List PreparedCall) (db : Db)
    → Ensures (Prepared id (length calls) db) (prepare_running now id round calls db)
unfolding prepare_running
prepare_running-Prepared now id round calls db =
    Ensures-bind (λ u. Affords budget (calls_of id db.tools + length calls))
      (Prepared id (length calls) db) (check_tool_budget id (length calls) budget db.tools) _
      (check_tool_budget-Affords id (length calls) budget db.tools)
      (λ u affords.
        Ensures-bind (λ ts. calls_of id ts ≡ calls_of id db.tools + length calls)
          (Prepared id (length calls) db) (insert_calls id round calls db.tools) _
          (insert_calls-calls_of id round calls db.tools)
          (λ ts counted.
            Ensures-map (λ db'. db'.tools ≡ ts) (Prepared id (length calls) db) _
              (λ db' same. rw (same, counted) (refl, affords))
              (insert_event-tools now id "tool_batch_prepared"
                (batch_prepared round (call_ids calls)) (record db { tools = ts }))))
  where
    budget : Option DelegationRow
    budget = first_where (is_child id) db.delegations

-- A batch that is prepared adds exactly its calls to those of its run, and a child run has then no
-- more calls than its budget allows.
pub prepare_tool_batch-Prepared :
    (now id round : ℕ) (calls : List PreparedCall) (db db' : Db)
    → prepare_tool_batch now id round calls db ≡ ok db'
    → Prepared id (length calls) db db'
unfolding prepare_tool_batch
prepare_tool_batch-Prepared now id round calls db db' h =
    Ensures_of_ok (Prepared id (length calls) db) _ db' h (go (read_run_in id db))
  where
    go :
        (o : Option Run)
        → Ensures (Prepared id (length calls) db) (prepare_read now id round calls db o)
    go none = tt
    go (some r) =
        Ensures-if (Prepared id (length calls) db) (status_eq r.status running) _ _
          (λ _. prepare_running-Prepared now id round calls db) (λ _. tt)
