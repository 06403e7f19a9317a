-- ===== src/Runs/Ops/Admitted.antt =====
-- A request of src/storage/mod.rs that is sent again after any sequence of operations.
use dtcoder_test.Prelude.{ℕ, ◌≡◌, ◌≢◌, ◌∙◌, String, Option}
use dtcoder_test.Result.{protocol, ok, err}
use dtcoder_test.Runs.Types.{Run, Db, empty_db}
use dtcoder_test.Runs.Changes.Sound.{PathTo-IsSound}
use dtcoder_test.Runs.Changes.Requests.{PathTo-Keeps}
use dtcoder_test.Runs.Queue.{AdmissionMode, new, existing, admit_with_route}
use dtcoder_test.Runs.Refine.{From}
use dtcoder_test.Runs.Refine.Queue.{admit_with_route-From}
use dtcoder_test.Result.{Ensures_of_ok}
use dtcoder_test.Runs.Laws.Queue.{admit_stored, admit_existing}
use dtcoder_test.Runs.Ops.{Reach}
use dtcoder_test.Runs.Ops.Safety.{Reach-IsSound, Reach-PathTo}

module _ (sha256 to_json : String → String) where
  -- A request that is admitted anew, in a database that operations reach from the empty one, is
  -- admitted once. Whatever operations follow, also those that end its run, where questions are
  -- asked of active runs only: sending the request again with its input, in any mode and at any
  -- time, returns the run that was made for it and changes nothing, and with another input it is
  -- refused.
  pub admitted_once :
      (now later : ℕ) (session request input : String) (mode mode' : AdmissionMode)
      (route route' : Option String) (db db1 db2 : Db) (r : Run)
      → Reach sha256 to_json empty_db db
      → admit_with_route now session request input mode route db ≡ ok (db1, new r)
      → Reach sha256 to_json db1 db2
      → (r' : Run) × (r'.rowid ≡ r.rowid)
        × (admit_with_route later session request input mode' route' db2 ≡ ok (db2, existing r'))
        × ((changed : String)
            → input ≢ changed
            → admit_with_route later session request changed mode' route' db2
              ≡ err (protocol "相同 request id 的输入内容不同"))
  admitted_once now later session request input mode mode' route route' db db1 db2 r from h to =
      let stored = admit_stored now session request input mode route db db1 r h in
      let path =
        Ensures_of_ok (λ p. From db p.0) _ (db1, new r) h
          (admit_with_route-From now session request input mode route db) in
      let sound = PathTo-IsSound path (Reach-IsSound sha256 to_json db from) in
      let kept = PathTo-Keeps session request r (Reach-PathTo sha256 to_json sound to) stored.0 in
      let again =
        admit_existing later session request input mode' route' db2 kept.row kept.found
          (kept.same_input ∙ stored.1) in
      (kept.row, kept.same_id, again.0, again.1)
