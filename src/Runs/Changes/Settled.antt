-- ===== src/Runs/Changes/Settled.antt =====
-- What becomes of a run: it stays, keeps its session, and its status moves along the edges only.
use dtcoder_test.Prelude.{
  ℕ, ◌+◌, ◌≡◌, refl, ◌∙◌, inl, inr, Bool, true, false, some, List, [], ◌∷◌, ◌++◌, arith, Bool-cases,
  All,
}
use dtcoder_test.Prelude.Tables.{first_where, update_where}
use dtcoder_test.Runs.Types.{RunStatus, queued, completed, failed, cancelled, terminal, Run}
use dtcoder_test.Prelude.Tables.{first_where-update_where}
use dtcoder_test.Runs.Rows.{is_run, set_last_seq}
use dtcoder_test.Runs.Queue.{is_queued_run, start_run}
use dtcoder_test.Runs.Changes.{
  View, Edge, stay, begin, wait, resume, close, resolve, Allowed, Change, admits, writes, modifies,
  starts, PathTo, here, next,
}

pub data Edges (s : RunStatus) : RunStatus → Type 0 where
  done : Edges s s
  more : {t u : RunStatus} → Edges s t → Edge t u → Edges s u

-- The row of the run `id` in `rs` is a later state of `r`.
pub record Continues (id : ℕ) (r : Run) (rs : List Run) : Type 0 where
  pub row : Run
  pub found : first_where (is_run id) rs ≡ some row
  pub same_session : row.session ≡ r.session
  pub path : Edge r.status row.status

continue_append :
    (id : ℕ) (r x : Run) (rs : List Run)
    → first_where (is_run id) rs ≡ some r
    → first_where (is_run id) (rs ++ (x ∷ [])) ≡ some r
continue_append id r x [] h = cc
continue_append id r x (y ∷ rs) h = ground (arith, continue_append id r x rs)

continue_modify :
    (p : Run → Bool) (f : Run → Run) (id : ℕ) (r : Run) (rs : List Run)
    → All (λ r. p r ≡ true → Allowed r (f r)) rs
    → first_where (is_run id) rs ≡ some r
    → Continues id r (update_where p f rs)
continue_modify p f id r [] all h = absurd (cc)
continue_modify p f id r (x ∷ rs) all h = elim (Bool-cases (is_run id x)) [
  | inl here' ↦
      let same : x ≡ r = ground arith in
      elim (Bool-cases (p x)) [
        | inl e ↦
            let a = all.0 e in
            record {
              row = f x;
              found = rw (e, a.same_id, here') refl;
              same_session = rw (← same) a.same_session;
              path = rw (← same) a.edge;
            }
        | inr e ↦ record {
          row = r;
          found = rw (e, here', same) refl;
          same_session = refl;
          path = stay;
        }
      ]
  | inr else' ↦
      let rest = continue_modify p f id r rs all.1 (ground arith) in
      record {
        row = rest.row;
        found = elim (Bool-cases (p x)) [
          | inl e ↦ let a = all.0 e in rw (e, a.same_id, else') rest.found
          | inr e ↦ rw (e, else') rest.found
        ];
        same_session = rest.same_session;
        path = rest.path;
      }
]

start_edge :
    (id now : ℕ) (r : Run) → is_queued_run id r ≡ true → Edge r.status (start_run now r).status
start_edge id now r h = let q : r.status ≡ queued = ground arith in rw q begin

continue_start :
    (now j id : ℕ) (r : Run) (rs : List Run)
    → first_where (is_run id) rs ≡ some r
    → Continues id r (update_where (is_queued_run j) (start_run now) rs)
continue_start now j id r [] h = absurd (cc)
continue_start now j id r (x ∷ rs) h = elim (Bool-cases (is_run id x)) [
  | inl here' ↦
      let same : x ≡ r = ground arith in
      elim (Bool-cases (is_queued_run j x)) [
        | inl e ↦ record {
          row = start_run now x;
          found = rw (e, here') refl;
          same_session = rw same refl;
          path = rw (← same) (start_edge j now x e);
        }
        | inr e ↦ record {
          row = r;
          found = rw (e, here', same) refl;
          same_session = refl;
          path = stay;
        }
      ]
  | inr else' ↦
      let rest = continue_start now j id r rs (ground arith) in
      record {
        row = rest.row;
        found = elim (Bool-cases (is_queued_run j x)) [
          | inl e ↦ rw (e, else') rest.found
          | inr e ↦ rw (e, else') rest.found
        ];
        same_session = rest.same_session;
        path = rest.path;
      }
]

continue_write :
    (now j id seq : ℕ) (r : Run) (rs : List Run)
    → first_where (is_run id) rs ≡ some r
    → Continues id r (set_last_seq now j seq rs)
continue_write now j id seq r rs h =
    let f : Run → Run = λ x. record x { last_seq = seq; updated_at_ms = now } in
    let law = first_where-update_where (is_run id) (is_run j) f (λ x _. refl) rs in
    elim (Bool-cases (is_run j r)) [
      | inl e ↦ record { row = f r; found = rw (law, h, e) refl; same_session = refl; path = stay }
      | inr e ↦ record { row = r; found = rw (law, h, e) refl; same_session = refl; path = stay }
    ]

pub Change-Continues :
    {v w : View} (id : ℕ) (r : Run)
    → Change v w
    → first_where (is_run id) v.runs ≡ some r
    → Continues id r w.runs
Change-Continues {v} id r (admits x e q z) h = record {
  row = r;
  found = continue_append id r x v.runs h;
  same_session = refl;
  path = stay;
}
Change-Continues {v} id r (writes now e x found number) h =
    continue_write now e.run_id id (x.last_seq + 1) r v.runs h
Change-Continues {v} id r (modifies p f allowed) h = continue_modify p f id r v.runs allowed h
Change-Continues {v} id r (starts now j x found idle) h = continue_start now j id r v.runs h

-- The row of the run `id` in `rs`, after any number of moves.
pub record Lives (id : ℕ) (r : Run) (rs : List Run) : Type 0 where
  pub row : Run
  pub found : first_where (is_run id) rs ≡ some row
  pub same_session : row.session ≡ r.session
  pub path : Edges r.status row.status

pub PathTo-Lives :
    {v w : View} (id : ℕ) (r : Run)
    → PathTo v w
    → first_where (is_run id) v.runs ≡ some r
    → Lives id r w.runs
PathTo-Lives id r here h = record { row = r; found = h; same_session = refl; path = done }
PathTo-Lives id r (next p c) h =
    let before = PathTo-Lives id r p h in
    let after = Change-Continues id before.row c before.found in
    record {
      row = after.row;
      found = after.found;
      same_session = after.same_session ∙ before.same_session;
      path = more before.path after.path;
    }

-- A status that is final: only `unknown_after_restart` is still open to a resolution by hand.
abbrev pub is_final : RunStatus → Bool
is_final completed = true
is_final failed = true
is_final cancelled = true
is_final _ = false

edge-final : {s t : RunStatus} → Edge s t → is_final s ≡ true → t ≡ s
edge-final stay h = refl
edge-final begin h = cc
edge-final wait h = cc
edge-final resume h = cc
edge-final {s} (close live over) h = absurd (ground arith)
edge-final (resolve r) h = cc

pub Edges-final : {s t : RunStatus} → Edges s t → is_final s ≡ true → t ≡ s
Edges-final done h = refl
Edges-final {s} (more {t = t} es e) h =
    let same = Edges-final es h in edge-final e (rw same h) ∙ same

edge-terminal : {s t : RunStatus} → Edge s t → terminal s ≡ true → terminal t ≡ true
edge-terminal stay h = h
edge-terminal begin h = cc
edge-terminal wait h = cc
edge-terminal resume h = cc
edge-terminal (close live over) h = over
edge-terminal {t = t} (resolve r) h = ground arith

pub Edges-terminal : {s t : RunStatus} → Edges s t → terminal s ≡ true → terminal t ≡ true
Edges-terminal done h = h
Edges-terminal (more es e) h = edge-terminal e (Edges-terminal es h)

pub PathTo-trans : {u v w : View} → PathTo u v → PathTo v w → PathTo u w
PathTo-trans p here = p
PathTo-trans p (next q c) = next (PathTo-trans p q) c
