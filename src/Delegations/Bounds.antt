-- ===== src/Delegations/Bounds.antt =====
-- Admission of a delegation keeps every tree of runs within its limits, and follows the step
-- relation of the runs.
use dtcoder_test.Prelude.{
  ℕ, ◌≤◌, ◌<◌, ◌≡◌, refl, ap, ◌∙◌, String, false, not, ◌&&◌, ◌||◌, Option, none, some, List, [],
  ◌∷◌, ◌++◌, arith, ltb, leb, str_eq, All, All-append, ltb→le,
}
use dtcoder_test.Prelude.Tables.{first_where, count_where-append}
use dtcoder_test.Result.{ok, err, ◌>>=◌}
use dtcoder_test.Runs.Types.{
  is_active, is_live, Run, Payload, user_message, delegation_spawned, DelegationRow, Db,
}
use dtcoder_test.Result.{
  Ensures, Ensures-bind, Ensures-if, Ensures-reject, Ensures_of_ok, Ensures-map, Ensures-both,
}
use dtcoder_test.Runs.Changes.{view, admits, PathTo, here, next}
use dtcoder_test.Runs.Refine.{From, insert_event-From}
use Prim.Native.String.{◌++◌ as text_append}
use dtcoder_test.Runs.Rows.{read_run_in, next_rowid, insert_event, is_child, push_event_for}
use dtcoder_test.Runs.Queue.{new_run, insert_run, enqueue_message}
use dtcoder_test.Delegations.{
  DelegationRequest, max_depth, max_root_spawns, max_root_active, is_invalid, is_spawn, is_conflict,
  repeat_spawn, Place, place_under, in_tree, total_of, active_of, route_of, new_delegation,
  session_exists, add_delegation, insert_child, admit_child, admit_spawn, admit_from, admit_under,
  admit_delegation,
}

-- The limits on a tree of delegations.
pub record IsBounded (ds : List DelegationRow) : Type 0 where
  pub total : (root : ℕ) → total_of root ds ≤ 8
  pub active : (root : ℕ) → active_of root ds ≤ 4
  pub deep : All (λ d. d.depth ≤ 2) ds

insert_event-delegations :
    (now id : ℕ) (event : String) (payload : Payload) (db : Db)
    → Ensures (λ db'. db'.delegations ≡ db.delegations) (insert_event now id event payload db)
unfolding insert_event
insert_event-delegations now id event payload db = go (read_run_in id db)
  where
    go :
        (o : Option Run)
        → Ensures
            (λ db'. db'.delegations ≡ db.delegations)
            (push_event_for now id event payload db o)
    go none = tt
    go (some r) = refl

-- The insertion of a child adds its row and no other, and follows the step relation.
record Inserted (db : Db) (d : DelegationRow) (db' : Db) : Type 0 where
  path : From db db'
  rows : db'.delegations ≡ db.delegations ++ (d ∷ [])

insert_child-Inserted :
    (to_json : String → String) (now : ℕ) (q : DelegationRequest) (place : Place) (db : Db)
    → Ensures
        (λ p.
          Inserted db
            (new_delegation now q place (next_rowid db.runs) (route_of q.parent_run db.routes))
            p.0)
        (insert_child to_json now q place db)
unfolding insert_child
insert_child-Inserted to_json now q place db =
    Ensures-if (λ p. Inserted db d p.0) (session_exists q.child_session db) (err _)
      (insert_event now child "user_message" (user_message q.task) db1 >>= λ db2.
        insert_event now q.parent_run "delegation_spawned"
          (delegation_spawned q.child_session child place.depth) (spawned db2)
        >>= λ db3. ok (db3, d))
      (λ _. tt)
      (λ _.
        Ensures-bind (λ db2. From db db2 × (db2.delegations ≡ db.delegations))
          (λ p. Inserted db d p.0) (insert_event now child "user_message" (user_message q.task) db1)
          _
          (Ensures-both (From db) (λ db2. db2.delegations ≡ db.delegations) _
            (insert_event-From now child _ _ db db1
              (next here (admits (new_run now child q.child_session json q.task) refl refl refl)))
            (insert_event-delegations now child _ _ db1))
          (λ db2 k.
            Ensures-bind (λ db3. From db db3 × (db3.delegations ≡ db2.delegations ++ (d ∷ [])))
              (λ p. Inserted db d p.0)
              (insert_event now q.parent_run "delegation_spawned"
                (delegation_spawned q.child_session child place.depth) (spawned db2))
              _
              (Ensures-both (From db) (λ db3. db3.delegations ≡ db2.delegations ++ (d ∷ [])) _
                (insert_event-From now q.parent_run _ _ db (spawned db2) k.0)
                (insert_event-delegations now q.parent_run _ _ (spawned db2)))
              (λ db3 l. record {
                path = l.0;
                rows = l.1 ∙ ap (λ (ds : List DelegationRow). ds ++ (d ∷ [])) k.1;
              })))
  where
    child : ℕ
    child = next_rowid db.runs

    d : DelegationRow
    d = new_delegation now q place child (route_of q.parent_run db.routes)

    json : String
    json = to_json (text_append "delegation:" q.child_session)

    db1 : Db
    db1 = insert_run now child q.child_session json q.task (route_of q.parent_run db.routes) db

    spawned : Db → Db
    spawned db2 = add_delegation d (enqueue_message q.child_session child q.task db2)

IsBounded-add :
    (d : DelegationRow) (ds : List DelegationRow)
    → IsBounded ds
    → d.depth ≤ 2
    → total_of d.root_run ds < 8
    → active_of d.root_run ds < 4
    → IsBounded (ds ++ (d ∷ []))
IsBounded-add d ds h deep total active = record {
  total = λ root. rw (count_where-append (in_tree root) ds (d ∷ [])) (ground (arith, h.total root));
  active = λ root.
      rw (count_where-append (λ d. in_tree root d && is_live d.status) ds (d ∷ []))
        (ground (arith, h.active root));
  deep = All-append (λ d. d.depth ≤ 2) ds (d ∷ []) h.deep (deep, tt);
}

-- What an admission guarantees of the state that it returns.
record Admitted (db db' : Db) : Type 0 where
  path : From db db'
  bounded : IsBounded db.delegations → IsBounded db'.delegations

unchanged : (db : Db) → Admitted db db
unchanged db = record { path = here; bounded = λ h. h }

admit_child-Admitted :
    (to_json : String → String) (now : ℕ) (q : DelegationRequest) (place : Place) (db : Db)
    → Ensures (λ p. Admitted db p.0) (admit_child to_json now q place db)
unfolding admit_child
admit_child-Admitted to_json now q place db =
    Ensures-reject (λ p. Admitted db p.0) (ltb max_depth place.depth) _ _
      (λ shallow.
        Ensures-reject (λ p. Admitted db p.0)
          (leb max_root_spawns (total_of place.root_run db.delegations)
            || leb max_root_active (active_of place.root_run db.delegations))
          _ _
          (λ room.
            Ensures-map (λ p. Inserted db d p.0) (λ p. Admitted db p.0)
              (insert_child to_json now q place db)
              (λ p i. record {
                path = i.path;
                bounded = λ h. rw (i.rows) (
                    IsBounded-add d db.delegations h (ltb→le _ _ shallow) (room_total _ _ room)
                      (room_active _ _ room));
              })
              (insert_child-Inserted to_json now q place db)))
  where
    d : DelegationRow
    d = new_delegation now q place (next_rowid db.runs) (route_of q.parent_run db.routes)

    room_total : (t a : ℕ) → (leb 8 t || leb 4 a) ≡ false → t < 8
    room_total t a h = ground arith

    room_active : (t a : ℕ) → (leb 8 t || leb 4 a) ≡ false → a < 4
    room_active t a h = ground arith

admit_spawn-Admitted :
    (to_json : String → String) (now : ℕ) (q : DelegationRequest) (parent : Run) (db : Db)
    → Ensures (λ p. Admitted db p.0) (admit_spawn to_json now q parent db)
unfolding admit_spawn
admit_spawn-Admitted to_json now q parent db =
    Ensures-reject (λ p. Admitted db p.0) (not (is_active parent.status)) _ _
      (λ _.
        Ensures-reject (λ p. Admitted db p.0) (leb q.deadline_ms now) _ _
          (λ _.
            admit_child-Admitted to_json now q
              (place_under parent (first_where (is_child q.parent_run) db.delegations)) db))

repeat_spawn-Admitted :
    (q : DelegationRequest) (d : DelegationRow) (db : Db) (o : Option Run)
    → Ensures (λ p. Admitted db p.0) (repeat_spawn q d db o)
repeat_spawn-Admitted q d db none = tt
repeat_spawn-Admitted q d db (some child) =
    Ensures-if (λ p. Admitted db p.0) (is_conflict q child.input d) _ (ok (db, d)) (λ _. tt)
      (λ _. unchanged db)

admit_from-Admitted :
    (to_json : String → String) (now : ℕ) (q : DelegationRequest) (parent : Run)
    (o : Option DelegationRow) (db : Db)
    → Ensures (λ p. Admitted db p.0) (admit_from to_json now q parent o db)
unfolding admit_from
admit_from-Admitted to_json now q parent (some d) db =
    repeat_spawn-Admitted q d db (read_run_in d.child_run db)
admit_from-Admitted to_json now q parent none db = admit_spawn-Admitted to_json now q parent db

admit_under-Admitted :
    (to_json : String → String) (now : ℕ) (q : DelegationRequest) (o : Option Run) (db : Db)
    → Ensures (λ p. Admitted db p.0) (admit_under to_json now q o db)
unfolding admit_under
admit_under-Admitted to_json now q none db = tt
admit_under-Admitted to_json now q (some parent) db =
    Ensures-if (λ p. Admitted db p.0) (str_eq parent.session q.parent_session)
      (admit_from to_json now q parent
        (first_where (is_spawn q.parent_run q.spawn_key) db.delegations) db)
      _
      (λ _.
        admit_from-Admitted to_json now q parent
          (first_where (is_spawn q.parent_run q.spawn_key) db.delegations) db)
      (λ _. tt)

admit_delegation-Admitted :
    (to_json : String → String) (now : ℕ) (q : DelegationRequest) (db : Db)
    → Ensures (λ p. Admitted db p.0) (admit_delegation to_json now q db)
unfolding admit_delegation
admit_delegation-Admitted to_json now q db =
    Ensures-if (λ p. Admitted db p.0) (is_invalid q) _
      (admit_under to_json now q (read_run_in q.parent_run db) db) (λ _. tt)
      (λ _. admit_under-Admitted to_json now q (read_run_in q.parent_run db) db)

-- An admitted delegation keeps every tree of runs within its limits: a root has at most eight
-- delegations, at most four of them live, and none is deeper than two.
pub admit_delegation-IsBounded :
    (to_json : String → String) (now : ℕ) (q : DelegationRequest) (db db' : Db) (d : DelegationRow)
    → IsBounded db.delegations
    → admit_delegation to_json now q db ≡ ok (db', d)
    → IsBounded db'.delegations
admit_delegation-IsBounded to_json now q db db' d h e =
    (Ensures_of_ok (λ (p : Db × DelegationRow). Admitted db p.0) _ (db', d) e
        (admit_delegation-Admitted to_json now q db)).bounded
      h

pub admit_delegation-From :
    (to_json : String → String) (now : ℕ) (q : DelegationRequest) (db : Db)
    → Ensures (λ p. PathTo (view db) (view p.0)) (admit_delegation to_json now q db)
admit_delegation-From to_json now q db =
    Ensures-map (λ p. Admitted db p.0) (λ p. From db p.0) _ (λ p a. a.path)
      (admit_delegation-Admitted to_json now q db)
