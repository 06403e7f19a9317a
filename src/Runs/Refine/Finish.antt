-- ===== src/Runs/Refine/Finish.antt =====
-- The ends of runs follow the step relation: `finish` and `reconcile_unknown`.
use dtcoder_test.Prelude.{
  ℕ, ◌≡◌, refl, String, Bool, true, false, not, ◌&&◌, ◌||◌, Option, none, some, arith, ◌==◌,
  if◌then◌else◌, str_eq,
}
use dtcoder_test.Prelude.Tables.{first_where}
use dtcoder_test.Result.{protocol, Result, ok, err, ◌>>=◌}
use dtcoder_test.Runs.Types.{
  RunStatus, queued, running, waiting_interaction, completed, failed, cancelled,
  unknown_after_restart, terminal, is_active, is_live, status_eq, Run, terminal_data,
  manual_resolution, Db,
}
use dtcoder_test.Result.{Ensures, Ensures-bind, Ensures-if, Ensures-map}
use dtcoder_test.Runs.Changes.{
  view, Edge, close, resolve, Allowed, modifies, PathTo, here, next, IsSound,
}
use dtcoder_test.Runs.Changes.Settled.{PathTo-trans}
use dtcoder_test.Runs.Refine.{
  Tracks, mark_terminal_in-PathTo, insert_event-Tracks, Allowed-at, expect_run-Ensures, From,
  Tracks-start,
}
use dtcoder_test.Runs.Rows.{is_run, read_run_in, insert_event, mark_terminal_in, is_child}
use dtcoder_test.Runs.Queue.{expect_run}
use dtcoder_test.Runs.Finish.{
  FinishError, error_code_of, error_message_of, settle, settle_content, insert_content,
  provider_error_kind, orphan, end_rows, finish_open, finish_again, finish_found, finish,
  is_resolution, resolution_error, reconcile_rows, reconcile_found, reconcile_unknown,
  is_bad_resolution, is_unconsumed, opt_text_eq, opt_int_eq,
}

insert_content-Tracks :
    (now id : ℕ) (manual : Bool) (content : Option String) (j : ℕ) (r : Run) (db0 db : Db)
    → Tracks j r db0 db
    → Ensures (Tracks j r db0) (insert_content now id manual content db)
insert_content-Tracks now id manual none j r db0 db t = t
insert_content-Tracks now id manual (some content) j r db0 db t =
    insert_event-Tracks now id _ _ j r db0 db t

not_active : (s : RunStatus) → terminal s ≡ true → is_active s ≡ true → ⊥
not_active s t a = ground arith

end-Allowed :
    (now : ℕ) (status : RunStatus) (content : Option String) (error : FinishError) (x : Run)
    → terminal status ≡ true
    → Edge x.status status
    → Allowed x (record x {
      status = status;
      content = content;
      error_code = error_code_of error;
      error_message = error_message_of error;
      updated_at_ms = now;
    })
end-Allowed now status content error x over edge = record {
  same_id = refl;
  same_session = refl;
  same_seq = refl;
  same_request = refl;
  same_input = refl;
  edge = edge;
  no_new_writer = λ h. absurd (not_active status over h);
}

-- `end_rows` of a tracked run.
end_rows-From :
    (now id : ℕ) (status : RunStatus) (content : Option String) (error : FinishError) (r : Run)
    (db0 db : Db)
    → IsSound (view db0)
    → terminal status ≡ true
    → Edge r.status status
    → Tracks id r db0 db
    → From db0 (end_rows now id status content error db)
end_rows-From now id status content error r db0 db sound over edge t = next t.path (
    modifies (is_run id) _ (
      Allowed-at id r _ (is_run id) db0 db sound t (λ x h. h)
        (λ x same. end-Allowed now status content error x over (rw same edge))))

-- What follows the update of the row in `finish` and in `reconcile_unknown`.
close_up-From :
    (now id : ℕ) (db0 db : Db)
    → From db0 db
    → Ensures {A = Db × Run}
        (λ p. From db0 p.0)
        (expect_run id db >>= λ found.
          mark_terminal_in now found.1 found.0 >>= λ db4. ok (db4, found.1))
close_up-From now id db0 db p =
    Ensures-bind (λ x. From db0 x.0) (λ x. From db0 x.0) (expect_run id db) _
      (expect_run-Ensures _ id db (λ r e. p))
      (λ x q.
        Ensures-bind (From db0) (λ x. From db0 x.0) (mark_terminal_in now x.1 x.0) _
          (Ensures-map (From x.0) (From db0) (mark_terminal_in now x.1 x.0)
            (λ a z. PathTo-trans q z) (mark_terminal_in-PathTo now x.1 x.0))
          (λ db4 z. z))

finish_open-From :
    (now id : ℕ) (status : RunStatus) (content : Option String) (error : FinishError) (r : Run)
    (db : Db)
    → IsSound (view db)
    → terminal status ≡ true
    → Edge r.status status
    → read_run_in id db ≡ some r
    → Ensures (λ p. From db p.0) (finish_open now id status content error db)
unfolding finish_open
finish_open-From now id status content error r db sound over edge found =
    Ensures-bind (Tracks id r db) (λ p. From db p.0) (insert_content now id false content db) _
      (insert_content-Tracks now id false content id r db db (Tracks-start id r db found))
      (λ db1 t.
        Ensures-bind (Tracks id r db) (λ p. From db p.0)
          (insert_event now id "terminal"
            (terminal_data status (error_code_of error) (error_message_of error)
              (provider_error_kind id status db))
            db1)
          _ (insert_event-Tracks now id _ _ id r db db1 t)
          (λ db2 t2.
            let db3 = end_rows now id status content error db2 in
            close_up-From now id db (record db3 { interactions = orphan id db3.interactions })
              (end_rows-From now id status content error r db db2 sound over edge t2)))

settle-terminal :
    (id : ℕ) (status : RunStatus) (db : Db)
    → terminal status ≡ true
    → terminal (settle id status db) ≡ true
settle-terminal id status db h = ground arith

live_of : (s : RunStatus) → terminal s ≡ false → is_live s ≡ true
live_of s h = ground arith

finish_found-From :
    (now id : ℕ) (status : RunStatus) (content : Option String) (error : FinishError)
    (o : Option Run) (db : Db)
    → IsSound (view db)
    → terminal status ≡ true
    → read_run_in id db ≡ o
    → Ensures (λ p. From db p.0) (finish_found now id status content error o db)
unfolding finish_found
finish_found-From now id status content error none db sound over e = tt
finish_found-From now id status content error (some current) db sound over e =
    Ensures-if (λ p. From db p.0) (terminal current.status)
      (finish_again status content error current db) _ (λ _. again)
      (λ live.
        finish_open-From now id (settle id status db) _ _ current db sound
          (settle-terminal id status db over)
          (close (live_of current.status live) (settle-terminal id status db over)) e)
  where
    again : Ensures (λ p. From db p.0) (finish_again status content error current db)
    again =
        Ensures-if (λ p. From db p.0)
          (status_eq current.status status
            && opt_text_eq current.content content
            && opt_int_eq current.error_code (error_code_of error)
            && opt_text_eq current.error_message (error_message_of error))
          (ok (db, current)) (err (protocol "终态冲突")) (λ _. here) (λ _. tt)

-- The end of a run follows the step relation.
pub finish-From :
    (now id : ℕ) (status : RunStatus) (content : Option String) (error : FinishError) (db : Db)
    → IsSound (view db)
    → Ensures (λ p. PathTo (view db) (view p.0)) (finish now id status content error db)
unfolding finish
finish-From now id status content error db sound =
    Ensures-if (λ p. From db p.0) (terminal status)
      (finish_found now id status content error (read_run_in id db) db) _
      (λ over. finish_found-From now id status content error (read_run_in id db) db sound over refl)
      (λ _. tt)

reconcile_rows-From :
    (now id expected : ℕ) (status : RunStatus) (content : Option String) (digest evidence : String)
    (r : Run) (db : Db)
    → IsSound (view db)
    → terminal status ≡ true
    → Edge r.status status
    → read_run_in id db ≡ some r
    → Ensures (λ p. From db p.0) (reconcile_rows now id expected status content digest evidence db)
unfolding reconcile_rows
reconcile_rows-From now id expected status content digest evidence r db sound over edge found =
    Ensures-bind (Tracks id r db) (λ p. From db p.0)
      (insert_content now id true (settle_content status content) db) _
      (insert_content-Tracks now id true _ id r db db (Tracks-start id r db found))
      (λ db1 t.
        Ensures-bind (Tracks id r db) (λ p. From db p.0)
          (insert_event now id "manual_resolution"
            (manual_resolution status digest evidence expected) db1)
          _ (insert_event-Tracks now id _ _ id r db db1 t)
          (λ db2 t2.
            close_up-From now id db
              (end_rows now id status (settle_content status content) (resolution_error status) db2)
              (end_rows-From now id status _ _ r db db2 sound over edge t2)))

resolved_over : (status : RunStatus) → is_resolution status ≡ true → terminal status ≡ true
resolved_over status h = ground arith

unknown_edge :
    (s t : RunStatus) → status_eq s unknown_after_restart ≡ true → is_resolution t ≡ true → Edge s t
unknown_edge unknown_after_restart t h r = resolve r
unknown_edge queued t h r = absurd (cc)
unknown_edge running t h r = absurd (cc)
unknown_edge waiting_interaction t h r = absurd (cc)
unknown_edge completed t h r = absurd (cc)
unknown_edge failed t h r = absurd (cc)
unknown_edge cancelled t h r = absurd (cc)

reconcile_found-From :
    (now id : ℕ) (session : String) (expected : ℕ) (status : RunStatus) (content : Option String)
    (digest evidence : String) (o : Option Run) (db : Db)
    → IsSound (view db)
    → is_resolution status ≡ true
    → read_run_in id db ≡ o
    → Ensures
        (λ p. From db p.0)
        (reconcile_found now id session expected status content digest evidence o db)
unfolding reconcile_found
reconcile_found-From now id session expected status content digest evidence none db sound r e = tt
reconcile_found-From now id session expected status content digest evidence (some run) db sound r
      e =
    let owned =
      str_eq run.session session
      && status_eq run.status unknown_after_restart
      && run.last_seq == expected in
    Ensures-if (λ p. From db p.0) (not owned) (err (protocol "run owner、状态或事件序号冲突")) after (λ _. tt)
      (λ h.
        Ensures-if (λ p. From db p.0) (is_unconsumed (first_where (is_child id) db.delegations))
          (reconcile_rows now id expected status content digest evidence db)
          (err (protocol "已领取的子 Agent 结果不能人工改写"))
          (λ _.
            reconcile_rows-From now id expected status content digest evidence run db sound
              (resolved_over status r) (unknown_edge run.status status (unknown_of _ _ _ h) r) e)
          (λ _. tt))
  where
    after : Result (Db × Run)
    after =
        if is_unconsumed (first_where (is_child id) db.delegations)
        then reconcile_rows now id expected status content digest evidence db
        else err (protocol "已领取的子 Agent 结果不能人工改写")

    unknown_of : (a b c : Bool) → not (a && b && c) ≡ false → b ≡ true
    unknown_of a b c h = ground arith

resolution_of : (a b c d : Bool) → (not a || b || c || d) ≡ false → a ≡ true
resolution_of a b c d h = ground arith

-- The resolution of an interrupted run by hand follows the step relation.
pub reconcile_unknown-From :
    (sha256 : String → String) (now id : ℕ) (session : String) (expected : ℕ) (status : RunStatus)
    (content : Option String) (evidence : String) (db : Db)
    → IsSound (view db)
    → Ensures
        (λ p. PathTo (view db) (view p.0))
        (reconcile_unknown sha256 now id session expected status content evidence db)
unfolding reconcile_unknown
reconcile_unknown-From sha256 now id session expected status content evidence db sound =
    Ensures-if (λ p. From db p.0) (is_bad_resolution status content evidence)
      (err (protocol "人工修复需要明确终态、内容和 16-4096 字节证据说明"))
      (reconcile_found now id session expected status content (sha256 evidence) evidence
        (read_run_in id db) db)
      (λ _. tt)
      (λ good.
        reconcile_found-From now id session expected status content (sha256 evidence) evidence
          (read_run_in id db) db sound (resolution_of _ _ _ _ good) refl)
