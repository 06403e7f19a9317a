-- ===== src/Runs/Changes/Requests.antt =====
-- What becomes of the run that a request was admitted as: the request finds it again.
use dtcoder_test.Prelude.{
  ◌+◌, ◌≡◌, refl, ◌∙◌, inl, inr, String, Bool, true, some, List, [], ◌∷◌, ◌++◌, arith, Bool-cases,
  All,
}
use dtcoder_test.Prelude.Tables.{first_where, update_where, first_where-update_where}
use dtcoder_test.Runs.Types.{Run}
use dtcoder_test.Runs.Rows.{is_run}
use dtcoder_test.Runs.Queue.{is_request, is_queued_run, start_run}
use dtcoder_test.Runs.Changes.{
  View, Allowed, Change, admits, writes, modifies, starts, PathTo, here, next,
}

-- The first row with the request is the run `r`, whatever became of its status.
pub record Keeps (session request : String) (r : Run) (rs : List Run) : Type 0 where
  pub row : Run
  pub found : first_where (is_request session request) rs ≡ some row
  pub same_id : row.rowid ≡ r.rowid
  pub same_input : row.input ≡ r.input

module _ (session request : String) where
  keep_append :
      (r x : Run) (rs : List Run)
      → first_where (is_request session request) rs ≡ some r
      → first_where (is_request session request) (rs ++ (x ∷ [])) ≡ some r
  keep_append r x [] h = cc
  keep_append r x (y ∷ rs) h = elim (Bool-cases (is_request session request y)) [
    | inl e ↦ rw e (rw e at h)
    | inr e ↦ rw e (keep_append r x rs (rw e at h))
  ]

  -- An update of columns that neither identify the run nor hold its input.
  keep_update :
      (p : Run → Bool) (f : Run → Run) (r : Run) (rs : List Run)
      → ((x : Run) → p x ≡ true → is_request session request (f x) ≡ is_request session request x)
      → (f r).rowid ≡ r.rowid
      → (f r).input ≡ r.input
      → first_where (is_request session request) rs ≡ some r
      → Keeps session request r (update_where p f rs)
  keep_update p f r rs keeps id input h =
      let law = first_where-update_where (is_request session request) p f keeps rs in
      elim (Bool-cases (p r)) [
        | inl e ↦ record {
          row = f r;
          found = rw (law, h, e) refl;
          same_id = id;
          same_input = input;
        }
        | inr e ↦ record { row = r; found = rw (law, h, e) refl; same_id = refl; same_input = refl }
      ]

  Allowed-request :
      (x y : Run) → Allowed x y → is_request session request y ≡ is_request session request x
  Allowed-request x y a = rw (a.same_session, a.same_request) refl

  keep_modify :
      (p : Run → Bool) (f : Run → Run) (r : Run) (rs : List Run)
      → All (λ x. p x ≡ true → Allowed x (f x)) rs
      → first_where (is_request session request) rs ≡ some r
      → Keeps session request r (update_where p f rs)
  keep_modify p f r [] all h = absurd (cc)
  keep_modify p f r (x ∷ rs) all h = elim (Bool-cases (is_request session request x)) [
    | inl mine ↦
        let same : x ≡ r = ground arith in
        elim (Bool-cases (p x)) [
          | inl e ↦
              let a = all.0 e in
              record {
                row = f x;
                found = rw (e, Allowed-request x (f x) a, mine) refl;
                same_id = rw (← same) a.same_id;
                same_input = rw (← same) a.same_input;
              }
          | inr e ↦ record {
            row = r;
            found = rw (e, mine, same) refl;
            same_id = refl;
            same_input = refl;
          }
        ]
    | inr other' ↦
        let rest = keep_modify p f r rs all.1 (rw other' at h) in
        record {
          row = rest.row;
          found = elim (Bool-cases (p x)) [
            | inl e ↦ rw (e, Allowed-request x (f x) (all.0 e), other') rest.found
            | inr e ↦ rw (e, other') rest.found
          ];
          same_id = rest.same_id;
          same_input = rest.same_input;
        }
  ]

  Change-Keeps :
      {v w : View} (r : Run)
      → Change v w
      → first_where (is_request session request) v.runs ≡ some r
      → Keeps session request r w.runs
  Change-Keeps {v} r (admits x e q z) h = record {
    row = r;
    found = keep_append r x v.runs h;
    same_id = refl;
    same_input = refl;
  }
  Change-Keeps {v} r (writes now e x found number) h =
      keep_update (is_run e.run_id)
        (λ y. record y { last_seq = x.last_seq + 1; updated_at_ms = now }) r v.runs (λ y _. refl)
        refl refl h
  Change-Keeps {v} r (modifies p f allowed) h = keep_modify p f r v.runs allowed h
  Change-Keeps {v} r (starts now j x found idle) h =
      keep_update (is_queued_run j) (start_run now) r v.runs (λ y _. refl) refl refl h

  pub PathTo-Keeps :
      {v w : View} (r : Run)
      → PathTo v w
      → first_where (is_request session request) v.runs ≡ some r
      → Keeps session request r w.runs
  PathTo-Keeps r here h = record { row = r; found = h; same_id = refl; same_input = refl }
  PathTo-Keeps r (next p c) h =
      let before = PathTo-Keeps r p h in
      let after = Change-Keeps before.row c before.found in
      record {
        row = after.row;
        found = after.found;
        same_id = after.same_id ∙ before.same_id;
        same_input = after.same_input ∙ before.same_input;
      }
