-- ===== src/Runs/Changes/Sound.antt =====
-- Every change that the store makes to its rows keeps them sound: ids name one row, a session has
-- one writer at most, and the events of a run are numbered without gaps.
use dtcoder_test.Prelude.{
  ℕ, ◌+◌, ◌≤◌, ◌≡◌, ◌≢◌, refl, inl, inr, String, Bool, true, false, ◌&&◌, some, List, [], ◌∷◌, ◌++◌,
  arith, ◌==◌, if◌then◌else◌, is_some, str_eq, eq_iff, str_eq_refl, str_eq_ne, Bool-cases, All,
  ==_iff, &&-left,
}
use dtcoder_test.Prelude.Tables.{first_where, update_where, count_where, count_where-append}
use dtcoder_test.Runs.Types.{queued, Run, EventRow}
use dtcoder_test.Prelude.Tables.{
  count_where-update_where_le, count_where-update_where_eq, All-of_first_where,
}
use native.Mathlib.Numerals.{add-one}
use dtcoder_test.Runs.Rows.{is_run, next_rowid, set_last_seq}
use dtcoder_test.Runs.Queue.{is_writer_in, is_queued_run, start_run}
use dtcoder_test.Runs.Changes.{
  View, Allowed, Change, admits, writes, modifies, starts, PathTo, here, next, writers, last_seq_of,
  seqs_of, one_to, IsSound,
}

fresh : (id : ℕ) (rs : List Run) → next_rowid rs ≤ id → count_where (is_run id) rs ≡ 0
fresh id [] h = refl
fresh id (r ∷ rs) h = ground (arith, fresh id rs (omega arith))

admit_unique :
    (id : ℕ) (r : Run) (rs : List Run)
    → r.rowid ≡ next_rowid rs
    → count_where (is_run id) rs ≤ 1
    → count_where (is_run id) (rs ++ (r ∷ [])) ≤ 1
admit_unique id r rs e le =
    rw (count_where-append (is_run id) rs (r ∷ [])) (ground (arith, fresh id rs))

admit-writers :
    (s : String) (r : Run) (rs : List Run)
    → r.status ≡ queued
    → writers s (rs ++ (r ∷ [])) ≡ writers s rs
admit-writers s r rs e = rw (count_where-append (is_writer_in (some s)) rs (r ∷ [])) (ground arith)

admit-last_seq_of :
    (id : ℕ) (r : Run) (rs : List Run)
    → r.last_seq ≡ 0
    → last_seq_of id (rs ++ (r ∷ [])) ≡ last_seq_of id rs
admit-last_seq_of id r [] e = ground arith
admit-last_seq_of id r (x ∷ rs) e = ground (arith, admit-last_seq_of id r rs e)

seqs_of-append :
    (id : ℕ) (es : List EventRow) (e : EventRow)
    → seqs_of id (es ++ (e ∷ []))
      ≡ (if e.run_id == id then seqs_of id es ++ (e.seq ∷ []) else seqs_of id es)
seqs_of-append id [] e = ground arith
seqs_of-append id (x ∷ es) e = ground (arith, seqs_of-append id es e)

last_seq_of-set_last_seq :
    (now id j : ℕ) (seq : ℕ) (rs : List Run)
    → last_seq_of j (set_last_seq now id seq rs)
      ≡ (if is_some (first_where (is_run j) rs) && (id == j) then seq else last_seq_of j rs)
last_seq_of-set_last_seq now id j seq [] = refl
last_seq_of-set_last_seq now id j seq (r ∷ rs) =
    ground (arith, last_seq_of-set_last_seq now id j seq rs)

last_seq_of_found :
    (id : ℕ) (r : Run) (rs : List Run)
    → first_where (is_run id) rs ≡ some r
    → last_seq_of id rs ≡ r.last_seq
last_seq_of_found id r rs found = ground arith

one_to-add_one : (n : ℕ) → one_to (n + 1) ≡ one_to n ++ ((n + 1) ∷ [])
one_to-add_one n = rw add-one

writes-numbered :
    (now : ℕ) (e : EventRow) (r : Run) (v : View)
    → first_where (is_run e.run_id) v.runs ≡ some r
    → e.seq ≡ r.last_seq + 1
    → (j : ℕ) → seqs_of j v.events ≡ one_to (last_seq_of j v.runs)
    → seqs_of j (v.events ++ (e ∷ []))
      ≡ one_to (last_seq_of j (set_last_seq now e.run_id (r.last_seq + 1) v.runs))
writes-numbered now e r v found number j h =
    rw
      (seqs_of-append j v.events e, last_seq_of-set_last_seq now e.run_id j (r.last_seq + 1) v.runs)
      (elim (Bool-cases (e.run_id == j)) [
        | inl same ↦
            let found' : first_where (is_run j) v.runs ≡ some r =
              rw ((==_iff e.run_id j).0 same) at found in
            rw
              (
                same,
                found',
                h,
                last_seq_of_found j r v.runs found',
                number,
                one_to-add_one r.last_seq,
              )
              refl
        | inr other' ↦ ground (arith, h)
      ])

modifies_unique :
    (p : Run → Bool) (f : Run → Run) (id : ℕ) (rs : List Run)
    → All (λ r. p r ≡ true → Allowed r (f r)) rs
    → count_where (is_run id) (update_where p f rs) ≤ count_where (is_run id) rs
modifies_unique p f id [] h = omega arith
modifies_unique p f id (r ∷ rs) h = ground (arith, h.0, modifies_unique p f id rs h.1)

modifies-writers :
    (p : Run → Bool) (f : Run → Run) (s : String) (rs : List Run)
    → All (λ r. p r ≡ true → Allowed r (f r)) rs
    → writers s (update_where p f rs) ≤ writers s rs
modifies-writers p f s [] h = omega arith
modifies-writers p f s (r ∷ rs) h = elim (Bool-cases (p r)) [
  | inl e ↦
      let a = h.0 e in
      rw (e, a.same_session) (ground (arith, a.no_new_writer, modifies-writers p f s rs h.1))
  | inr e ↦ rw e (ground (arith, modifies-writers p f s rs h.1))
]

modifies-last_seq_of :
    (p : Run → Bool) (f : Run → Run) (id : ℕ) (rs : List Run)
    → All (λ r. p r ≡ true → Allowed r (f r)) rs
    → last_seq_of id (update_where p f rs) ≡ last_seq_of id rs
modifies-last_seq_of p f id [] h = refl
modifies-last_seq_of p f id (r ∷ rs) h = elim (Bool-cases (p r)) [
  | inl e ↦
      let a = h.0 e in
      rw (e, a.same_id) (ground (arith, a.same_seq, modifies-last_seq_of p f id rs h.1))
  | inr e ↦ rw e (ground (arith, modifies-last_seq_of p f id rs h.1))
]

-- At most one row is started.
started-le-copies :
    (id : ℕ) (rs : List Run) → count_where (is_queued_run id) rs ≤ count_where (is_run id) rs
started-le-copies id [] = omega arith
started-le-copies id (r ∷ rs) = ground (arith, started-le-copies id rs)

starts-writers_other :
    (now id : ℕ) (s session : String) (rs : List Run)
    → s ≢ session
    → All (λ r. is_run id r ≡ true → r.session ≡ session) rs
    → writers s (update_where (is_queued_run id) (start_run now) rs) ≡ writers s rs
starts-writers_other now id s session [] ne h = refl
starts-writers_other now id s session (r ∷ rs) ne h = elim (Bool-cases (is_queued_run id r)) [
  | inl e ↦
      let other' : str_eq s r.session ≡ false = rw (h.0 (&&-left _ _ e)) (str_eq_ne s session ne) in
      rw (e, other') (starts-writers_other now id s session rs ne h.1)
  | inr e ↦ rw e (ground (arith, starts-writers_other now id s session rs ne h.1))
]

starts-writers :
    (now id : ℕ) (r : Run) (rs : List Run)
    → count_where (is_run id) rs ≤ 1
    → first_where (is_run id) rs ≡ some r
    → writers r.session rs ≡ 0
    → (s : String) → writers s rs ≤ 1
    → writers s (update_where (is_queued_run id) (start_run now) rs) ≤ 1
starts-writers now id r rs unique found idle s le = elim (Bool-cases (str_eq s r.session)) [
  | inl e ↦ rw ((eq_iff s r.session).0 e) (
      omega (
        arith,
        count_where-update_where_le (is_writer_in (some r.session)) (is_queued_run id)
            (start_run now) rs,
        started-le-copies id rs,
      ))
  | inr e ↦
      rw
        (starts-writers_other now id s r.session rs (λ same. cc (str_eq_refl s, e, same))
          (All-of_first_where (is_run id) (λ x. x.session ≡ r.session) rs r unique found refl))
        le
]

starts-last_seq_of :
    (now id j : ℕ) (rs : List Run)
    → last_seq_of j (update_where (is_queued_run id) (start_run now) rs) ≡ last_seq_of j rs
starts-last_seq_of now id j [] = refl
starts-last_seq_of now id j (r ∷ rs) = ground (arith, starts-last_seq_of now id j rs)

-- Every change keeps the rows sound.
pub Change-IsSound : {v w : View} → Change v w → IsSound v → IsSound w
Change-IsSound {v} (admits r e q z) h = record {
  unique = λ id. admit_unique id r v.runs e (h.unique id);
  single_writer = λ s. rw (admit-writers s r v.runs q) (h.single_writer s);
  numbered = λ id. rw (admit-last_seq_of id r v.runs z) (h.numbered id);
}
Change-IsSound {v} (writes now e r found number) h = record {
  unique = λ id.
      rw
        (count_where-update_where_eq (is_run id) (is_run e.run_id)
          (λ x. record x { last_seq = r.last_seq + 1; updated_at_ms = now }) (λ x _. refl) v.runs)
        (h.unique id);
  single_writer = λ s.
      rw
        (count_where-update_where_eq (is_writer_in (some s)) (is_run e.run_id)
          (λ x. record x { last_seq = r.last_seq + 1; updated_at_ms = now }) (λ x _. refl) v.runs)
        (h.single_writer s);
  numbered = λ j. writes-numbered now e r v found number j (h.numbered j);
}
Change-IsSound {v} (modifies p f allowed) h = record {
  unique = λ id. omega (arith, h.unique id, modifies_unique p f id v.runs allowed);
  single_writer = λ s. omega (arith, h.single_writer s, modifies-writers p f s v.runs allowed);
  numbered = λ id. rw (modifies-last_seq_of p f id v.runs allowed) (h.numbered id);
}
Change-IsSound {v} (starts now id r found idle) h = record {
  unique = λ j.
      rw
        (count_where-update_where_eq (is_run j) (is_queued_run id) (start_run now) (λ x _. refl)
          v.runs)
        (h.unique j);
  single_writer =
      λ s. starts-writers now id r v.runs (h.unique id) found idle s (h.single_writer s);
  numbered = λ j. rw (starts-last_seq_of now id j v.runs) (h.numbered j);
}

pub PathTo-IsSound : {v w : View} → PathTo v w → IsSound v → IsSound w
PathTo-IsSound here h = h
PathTo-IsSound (next p c) h = Change-IsSound c (PathTo-IsSound p h)
