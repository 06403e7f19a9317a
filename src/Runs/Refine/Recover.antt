-- ===== src/Runs/Refine/Recover.antt =====
-- Recovery after a restart follows the step relation, and leaves no run that seems to execute.
use dtcoder_test.Prelude.{
  ℕ, ◌≤◌, ◌<◌, ◌≡◌, refl, inl, inr, String, Bool, true, false, some, List, [], ◌∷◌, arith,
  Bool-cases, All,
}
use dtcoder_test.Prelude.Tables.{first_where, update_where, count_where, select_where}
use dtcoder_test.Result.{Result}
use dtcoder_test.Runs.Types.{
  RunStatus, queued, running, waiting_interaction, completed, failed, cancelled,
  unknown_after_restart, is_active, Run, Payload, status_only, Db,
}
use dtcoder_test.Result.{Ensures, Ensures-bind, Ensures-map, Ensures-all, Ensures-both}
use dtcoder_test.Runs.Changes.{
  view, Edge, stay, close, Allowed, modifies, PathTo, here, next, IsSound,
}
use dtcoder_test.Runs.Changes.Sound.{PathTo-IsSound}
use dtcoder_test.Runs.Changes.Settled.{PathTo-trans}
use dtcoder_test.Runs.Refine.{
  Tracks, insert_event-PathTo, mark_terminal_in-PathTo, insert_event-Tracks, Allowed-at,
  expect_run-Ensures, From, Tracks-start,
}
use dtcoder_test.Runs.Rows.{
  is_run, read_run_in, insert_event, mark_terminal_in, set_turn, set_queued,
}
use dtcoder_test.Runs.Queue.{expect_run}
use dtcoder_test.Runs.Finish.{recover_run, recover_runs, recover, interrupted}
use dtcoder_test.Runs.Refine.{mark_terminal_in-Tracks}

-- A run that recovery may mark, or has marked.
abbrev is_interrupted : RunStatus → Bool
is_interrupted running = true
is_interrupted waiting_interaction = true
is_interrupted unknown_after_restart = true
is_interrupted _ = false

record HasStatus (P : RunStatus → Bool) (id : ℕ) (db : Db) : Type 0 where
  row : Run
  found : read_run_in id db ≡ some row
  status : P row.status ≡ true

HasStatus-of_Tracks :
    (P : RunStatus → Bool) (id : ℕ) (r : Run) (db0 db : Db)
    → P r.status ≡ true
    → Tracks id r db0 db
    → HasStatus P id db
HasStatus-of_Tracks P id r db0 db h t = record {
  row = t.row;
  found = t.found;
  status = rw (t.same_status) h;
}

unknown_from : (s : RunStatus) → is_interrupted s ≡ true → Edge s unknown_after_restart
unknown_from running h = close refl refl
unknown_from waiting_interaction h = close refl refl
unknown_from unknown_after_restart h = stay
unknown_from queued h = absurd (cc)
unknown_from completed h = absurd (cc)
unknown_from failed h = absurd (cc)
unknown_from cancelled h = absurd (cc)

mark-Allowed :
    (now : ℕ) (x : Run)
    → is_interrupted x.status ≡ true
    → Allowed x (record x { status = unknown_after_restart; updated_at_ms = now })
mark-Allowed now x h = record {
  same_id = refl;
  same_session = refl;
  same_seq = refl;
  same_request = refl;
  same_input = refl;
  edge = unknown_from x.status h;
  no_new_writer = λ a. cc;
}

-- Marking a run keeps every interrupted run interrupted.
marked-HasStatus :
    (now id j : ℕ) (rs : List Run) (row : Run)
    → first_where (is_run j) rs ≡ some row
    → is_interrupted row.status ≡ true
    → (row' : Run) × (first_where (is_run j) (
          update_where
            (is_run id)
            (λ r. record r { status = unknown_after_restart; updated_at_ms = now })
            rs)
        ≡ some row')
      × (is_interrupted row'.status ≡ true)
marked-HasStatus now id j [] row h i = absurd (cc)
marked-HasStatus now id j (x ∷ rs) row h i = elim (Bool-cases (is_run j x)) [
  | inl here' ↦
      let same : x ≡ row = ground arith in
      elim (Bool-cases (is_run id x)) [
        | inl e ↦ (
          record x { status = unknown_after_restart; updated_at_ms = now },
          rw (e, here') refl,
          refl,
        )
        | inr e ↦ (row, rw (e, here', same) refl, i)
      ]
  | inr else' ↦
      let (row', found, st) = marked-HasStatus now id j rs row (ground arith) i in
      (
        row',
        elim (Bool-cases (is_run id x)) [
          | inl e ↦ rw (e, else') found
          | inr e ↦ rw (e, else') found
        ],
        st,
      )
]

keep_left :
    (todo : List Run) (db db' : Db)
    → ((id : ℕ) → HasStatus is_interrupted id db → HasStatus is_interrupted id db')
    → All (λ r. HasStatus is_interrupted r.rowid db) todo
    → All (λ r. HasStatus is_interrupted r.rowid db') todo
keep_left [] db db' f h = tt
keep_left (r ∷ todo) db db' f h = (f r.rowid h.0, keep_left todo db db' f h.1)

-- The state is reached, and every run that was interrupted still is.
record Keeps (db0 db db' : Db) : Type 0 where
  path : From db0 db'
  all_left : (id : ℕ) → HasStatus is_interrupted id db → HasStatus is_interrupted id db'

-- Any step whose effect on each run can be tracked.
tracked-Keeps :
    (m : Result Db) (db0 db db1 : Db)
    → Keeps db0 db db1
    → Ensures (From db1) m
    → ((j : ℕ) (r : Run) → Tracks j r db1 db1 → Ensures (Tracks j r db1) m)
    → Ensures (Keeps db0 db) m
tracked-Keeps m db0 db db1 k path tracks =
    Ensures-map _ (Keeps db0 db) m
      (λ db2 both. record { path = PathTo-trans k.path both.0; all_left = both.1 })
      (Ensures-both (From db1)
        (λ db2. (j : ℕ) → HasStatus is_interrupted j db → HasStatus is_interrupted j db2) m path
        (Ensures-all (λ j db2. HasStatus is_interrupted j db → HasStatus is_interrupted j db2) m
          (λ j. Ensures-all (λ has db2. HasStatus is_interrupted j db2) m (one j))))
  where
    one :
        (j : ℕ) → HasStatus is_interrupted j db → Ensures (λ db2. HasStatus is_interrupted j db2) m
    one j has =
        let now_has = k.all_left j has in
        Ensures-map (Tracks j now_has.row db1) (HasStatus is_interrupted j) m
          (λ db2 t. HasStatus-of_Tracks is_interrupted j now_has.row db1 db2 now_has.status t)
          (tracks j now_has.row (Tracks-start j now_has.row db1 now_has.found))

insert_event-Keeps :
    (now id : ℕ) (event : String) (payload : Payload) (db0 db db1 : Db)
    → Keeps db0 db db1
    → Ensures (Keeps db0 db) (insert_event now id event payload db1)
insert_event-Keeps now id event payload db0 db db1 k =
    tracked-Keeps (insert_event now id event payload db1) db0 db db1 k
      (insert_event-PathTo now id event payload db1)
      (λ j r t. insert_event-Tracks now id event payload j r db1 db1 t)

mark_terminal_in-Keeps :
    (now : ℕ) (run : Run) (db0 db db1 : Db)
    → Keeps db0 db db1
    → Ensures (Keeps db0 db) (mark_terminal_in now run db1)
mark_terminal_in-Keeps now run db0 db db1 k =
    tracked-Keeps (mark_terminal_in now run db1) db0 db db1 k (mark_terminal_in-PathTo now run db1)
      (λ j r t. mark_terminal_in-Tracks now run j r db1 db1 t)

-- The UPDATEs of one round.
abbrev marked_rows : ℕ → ℕ → Db → Db
marked_rows now id db1 = record db1 {
  runs =
      update_where (is_run id)
        (λ r. record r { status = unknown_after_restart; updated_at_ms = now }) db1.runs;
  turns = set_turn id unknown_after_restart db1.turns;
  queue = set_queued id unknown_after_restart db1.queue;
}

marked_rows-Keeps :
    (now id : ℕ) (db0 db db1 : Db)
    → IsSound (view db0)
    → HasStatus is_interrupted id db
    → Keeps db0 db db1
    → Keeps db0 db (marked_rows now id db1)
marked_rows-Keeps now id db0 db db1 sound has k =
    let mine = k.all_left id has in
    record {
      path = next k.path (
          modifies (is_run id) _ (
            Allowed-at id mine.row _ (is_run id) db1 db1 (PathTo-IsSound k.path sound)
              (Tracks-start id mine.row db1 mine.found) (λ x h. h)
              (λ x same. mark-Allowed now x (rw same mine.status))));
      all_left = λ j other'.
          let theirs = k.all_left j other' in
          let (row', found, st) =
            marked-HasStatus now id j db1.runs theirs.row theirs.found theirs.status in
          record { row = row'; found = found; status = st };
    }

recover_run-Keeps :
    (now id : ℕ) (db0 db : Db)
    → IsSound (view db0)
    → From db0 db
    → HasStatus is_interrupted id db
    → Ensures (Keeps db0 db) (recover_run now id db)
unfolding recover_run
recover_run-Keeps now id db0 db sound p has =
    Ensures-bind (Keeps db0 db) (Keeps db0 db)
      (insert_event now id "terminal" (status_only unknown_after_restart) db) _
      (insert_event-Keeps now id _ _ db0 db db (record { path = p; all_left = λ j h. h }))
      (λ db1 k.
        Ensures-bind (λ x. Keeps db0 db x.0) (Keeps db0 db) (expect_run id (marked_rows now id db1))
          _
          (expect_run-Ensures _ id (marked_rows now id db1)
            (λ r e. marked_rows-Keeps now id db0 db db1 sound has k))
          (λ x k2. mark_terminal_in-Keeps now x.1 db0 db x.0 k2))

recover_runs-From :
    (now : ℕ) (todo : List Run) (db0 db : Db)
    → IsSound (view db0)
    → From db0 db
    → All (λ r. HasStatus is_interrupted r.rowid db) todo
    → Ensures (From db0) (recover_runs now todo db)
unfolding recover_runs
recover_runs-From now [] db0 db sound p h = p
recover_runs-From now (r ∷ todo) db0 db sound p h =
    Ensures-bind (Keeps db0 db) (From db0) (recover_run now r.rowid db) _
      (recover_run-Keeps now r.rowid db0 db sound p h.0)
      (λ db1 k.
        recover_runs-From now todo db0 db1 sound k.path (keep_left todo db db1 k.all_left h.1))

found-counts :
    (id : ℕ) (r : Run) (rs : List Run)
    → first_where (is_run id) rs ≡ some r
    → 0 < count_where (is_run id) rs
found-counts id r [] h = absurd (cc)
found-counts id r (x ∷ rs) h = ground (arith, found-counts id r rs)

later_found :
    (x : Run) (rs : List Run) (todo : List Run)
    → ((id : ℕ) → count_where (is_run id) (x ∷ rs) ≤ 1)
    → All (λ r. first_where (is_run r.rowid) rs ≡ some r) todo
    → All (λ r. first_where (is_run r.rowid) (x ∷ rs) ≡ some r) todo
later_found x rs [] u h = tt
later_found x rs (r ∷ todo) u h =
    (ground (arith, u r.rowid, found-counts r.rowid r rs), later_found x rs todo u h.1)

-- Where ids name one row, every row is the one that its id finds.
found_self :
    (rs : List Run)
    → ((id : ℕ) → count_where (is_run id) rs ≤ 1)
    → All (λ r. first_where (is_run r.rowid) rs ≡ some r) rs
found_self [] u = tt
found_self (x ∷ rs) u =
    (ground arith, later_found x rs rs u (found_self rs (λ id. ground (arith, u id))))

select_interrupted :
    (db : Db) (rs : List Run)
    → All (λ r. read_run_in r.rowid db ≡ some r) rs
    → All (λ r. HasStatus is_interrupted r.rowid db) (select_where (λ r. is_active r.status) rs)
select_interrupted db [] h = tt
select_interrupted db (r ∷ rs) h = elim (Bool-cases (is_active r.status)) [
  | inl e ↦ rw e (
    record { row = r; found = h.0; status = interrupted_of r.status e },
    select_interrupted db rs h.1,
  )
  | inr e ↦ rw e (select_interrupted db rs h.1)
]
  where
    interrupted_of : (s : RunStatus) → is_active s ≡ true → is_interrupted s ≡ true
    interrupted_of s e = ground arith

-- Recovery follows the step relation.
pub recover-From :
    (now : ℕ) (db : Db)
    → IsSound (view db)
    → Ensures (λ p. PathTo (view db) (view p.0)) (recover now db)
unfolding recover
recover-From now db sound =
    Ensures-bind (From db) (λ p. From db p.0) (recover_runs now (interrupted db) db) _
      (recover_runs-From now (interrupted db) db db sound here
        (select_interrupted db db.runs (found_self db.runs sound.unique)))
      (λ db1 p. p)
