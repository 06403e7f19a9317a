-- ===== src/Runs/Laws/Queue.antt =====
-- src/storage/mod.rs: a repeated admission, and who may start.
use dtcoder_test.Prelude.{
  ℕ, ◌≤◌, ◌≡◌, ◌≢◌, refl, inl, inr, String, Bool, true, not, ◌&&◌, Option, none, some, List, [],
  ◌∷◌, ◌++◌, arith, ◌==◌, if◌then◌else◌, str_eq_refl, str_eq_ne, Bool-cases, Option-cases,
}
use dtcoder_test.Prelude.Tables.{first_where}
use dtcoder_test.Result.{RuntimeError, protocol, Result, ok, err}
use dtcoder_test.Runs.Types.{Run, Db}
use dtcoder_test.Result.{Ensures, Ensures_of_ok}
use dtcoder_test.Prelude.Tables.{first_where-update_where}
use dtcoder_test.Runs.Rows.{is_run, next_rowid, set_last_seq, insert_event}
use dtcoder_test.Runs.Queue.{
  AdmissionMode, Admission, new, existing, is_reject_if_busy, is_request, new_run, admit_new,
  busy_runs, admit_with_route,
}

first_where_snoc :
    (q : Run → Bool) (rs : List Run) (r : Run)
    → first_where q rs ≡ none
    → q r ≡ true
    → first_where q (rs ++ (r ∷ [])) ≡ some r
first_where_snoc q [] r h p = rw p refl
first_where_snoc q (x ∷ rs) r h p = elim (Bool-cases (q x)) [
  | inl e ↦ absurd (ground arith)
  | inr e ↦ rw e (first_where_snoc q rs r (rw e at h) p)
]

fresh_none : (id : ℕ) (rs : List Run) → next_rowid rs ≤ id → first_where (is_run id) rs ≡ none
fresh_none id [] h = refl
fresh_none id (r ∷ rs) h = ground (arith, fresh_none id rs (omega arith))

-- The row that a new request has after its first event.
admitted_row : ℕ → ℕ → String → String → String → Run
admitted_row now rowid session request input = record (new_run now rowid session request input) {
  last_seq = 1;
  updated_at_ms = now;
}

set_first :
    (q : Run → Bool) (now id : ℕ) (rs : List Run) (r : Run)
    → ((x : Run) → q (record x { last_seq = 1; updated_at_ms = now }) ≡ q x)
    → first_where q rs ≡ some r
    → is_run id r ≡ true
    → first_where q (set_last_seq now id 1 rs)
      ≡ some (record r { last_seq = 1; updated_at_ms = now })
set_first q now id rs r keeps h e =
    rw
      (
        first_where-update_where q (is_run id) (λ x. record x { last_seq = 1; updated_at_ms = now })
            (λ x _. keeps x) rs,
        h,
        e,
      )
      refl

admit_new_found :
    (now : ℕ) (session request input : String) (route : Option String) (db : Db)
    → first_where (is_request session request) db.runs ≡ none
    → Ensures
        (λ p.
          (first_where (is_request session request) p.0.runs
            ≡ some (admitted_row now (next_rowid db.runs) session request input))
          × (p.1 ≡ new (admitted_row now (next_rowid db.runs) session request input)))
        (admit_new now session request input route db)
unfolding admit_new insert_event admitted_row
admit_new_found now session request input route db none_yet =
    let rowid = next_rowid db.runs in
    let row = new_run now rowid session request input in
    let by_id : first_where (is_run rowid) (db.runs ++ (row ∷ [])) ≡ some row =
      first_where_snoc (is_run rowid) db.runs row (fresh_none rowid db.runs (omega arith))
        (ground arith) in
    let by_request : first_where (is_request session request) (db.runs ++ (row ∷ [])) ≡ some row =
      first_where_snoc (is_request session request) db.runs row none_yet
        (rw (str_eq_refl session, str_eq_refl request) refl) in
    let found_id =
      set_first (is_run rowid) now rowid (db.runs ++ (row ∷ [])) row (λ x. refl) by_id
        (ground arith) in
    let found_request =
      set_first (is_request session request) now rowid (db.runs ++ (row ∷ [])) row (λ x. refl)
        by_request (ground arith) in
    rw by_id (rw (Ensures, found_id) (found_request, refl))

input_of :
    (now rowid : ℕ) (session request input : String)
    → (admitted_row now rowid session request input).input ≡ input
unfolding admitted_row
input_of now rowid session request input = refl

new_injective : {r r' : Run} → new r ≡ new r' → r ≡ r'
new_injective h = cc

not_refused {ℓ} :
    {A : Type ℓ} (b : Bool) (e : RuntimeError) (m : Result A) (a : A)
    → (if b then err e else m) ≡ ok a
    → m ≡ ok a
not_refused b e m a h = ground arith

-- The row of a new run is the first one with its request, and has its input.
pub admit_stored :
    (now : ℕ) (session request input : String) (mode : AdmissionMode) (route : Option String)
    (db db' : Db) (r : Run)
    → admit_with_route now session request input mode route db ≡ ok (db', new r)
    → (first_where (is_request session request) db'.runs ≡ some r) × (r.input ≡ input)
unfolding admit_with_route
admit_stored now session request input mode route db db' r h =
    elim (Option-cases (first_where (is_request session request) db.runs)) [
      | inl e ↦
          let fresh : admit_new now session request input route db ≡ ok (db', new r) =
            not_refused (is_reject_if_busy mode && not (busy_runs session db == 0))
              (protocol "session 忙碌") _ (db', new r) (rw e at h) in
          let stored =
            Ensures_of_ok
              (λ (p : Db × Admission).
                (first_where (is_request session request) p.0.runs
                  ≡ some (admitted_row now (next_rowid db.runs) session request input))
                × (p.1 ≡ new (admitted_row now (next_rowid db.runs) session request input)))
              _ (db', new r) fresh (admit_new_found now session request input route db e) in
          let same : r ≡ admitted_row now (next_rowid db.runs) session request input =
            new_injective stored.1 in
          (rw same stored.0, rw same (input_of now (next_rowid db.runs) session request input))
      | inr (r', e) ↦ absurd (ground (arith, rw e at h))
    ]

-- A request that is stored is answered with its run, or refused for another input.
pub admit_existing :
    (now : ℕ) (session request input : String) (mode : AdmissionMode) (route : Option String)
    (db : Db) (r : Run)
    → first_where (is_request session request) db.runs ≡ some r
    → r.input ≡ input
    → (admit_with_route now session request input mode route db ≡ ok (db, existing r))
      × ((changed : String)
          → input ≢ changed
          → admit_with_route now session request changed mode route db
            ≡ err (protocol "相同 request id 的输入内容不同"))
unfolding admit_with_route
admit_existing now session request input mode route db r found text = rw found (
  rw text (rw (str_eq_refl input) refl),
  λ changed ne. rw text (rw (str_eq_ne input changed ne) refl),
)
