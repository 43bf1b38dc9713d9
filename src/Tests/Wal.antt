-- ===== src/Tests/Wal.antt =====
-- The log of a projection with one committed operation and one that begins.
use dsh_session_maintenance.Prelude.{
  ℕ, ◌≡◌, refl, String, List, [], ◌∷◌, none, some, string_eq, nat_eq, ok, map_get, map_set, arith,
}
use dsh_session_maintenance.Projection.Wal.{
  NativeAppendOperation, WriteAheadLog, put_pending, mark_projection_applied, mark_committed,
  new_record,
}
use dsh_session_maintenance.Projection.Wal.Phases.{
  IsWellFormed, IsTransition, done, phase, phase_of, phase_by,
}
use dsh_session_maintenance.Projection.Wal.Final.{
  Call, put, applied, committed, superseded, after, after_all, after-IsTransition, after_all-done,
  put_pending_again, after_all-commits,
}

abbrev operation : String → NativeAppendOperation String
operation id = record {
  run_id = "run";
  operation_id = id;
  native_session_id = "session";
  native_revision = 1;
  payload = "text";
  observed_at = "t0";
}

abbrev empty : WriteAheadLog String ℕ
empty = record { files = []; superseded = [] }

empty-IsWellFormed : IsWellFormed empty
unfolding map_get
empty-IsWellFormed id r h = absurd (ground (arith, h))

abbrev commits : List (Call String ℕ)
commits = put (operation "o1") "t1" ∷ applied "o1" "t2" ∷ committed "o1" 7 "t3" ∷ []

abbrev log : WriteAheadLog String ℕ
log = after_all commits empty

log-IsWellFormed : IsWellFormed log
log-IsWellFormed =
    (after-IsTransition (committed "o1" 7 "t3")
      (after (applied "o1" "t2") (after (put (operation "o1") "t1") empty))
      (after-IsTransition (applied "o1" "t2") (after (put (operation "o1") "t1") empty)
        (after-IsTransition (put (operation "o1") "t1") empty
          empty-IsWellFormed).sound).sound).sound

is_committed : phase "o1" log ≡ done (some 7)
unfolding put_pending mark_projection_applied mark_committed map_get map_set phase_of phase_by
is_committed = refl

no_file : map_get "o1" empty.files ≡ none
unfolding map_get
no_file = refl

after-IsTransition_example : IsTransition "o1" log (after (superseded "o1") log)
after-IsTransition_example = after-IsTransition (superseded "o1") log log-IsWellFormed

after_all-done_example :
    phase "o1" (after_all (superseded "o1" ∷ put (operation "o2") "t4" ∷ []) log) ≡ done (some 7)
after_all-done_example =
    after_all-done (superseded "o1" ∷ put (operation "o2") "t4" ∷ []) log "o1" (some 7)
      log-IsWellFormed is_committed

after_all-commits_example : phase "o1" (after_all commits empty) ≡ done (some 7)
after_all-commits_example =
    after_all-commits (operation "o1") 7 "t1" "t2" "t3" empty empty-IsWellFormed no_file

first_put :
    put_pending (operation "o1") "t1" empty
    ≡ (ok (new_record (operation "o1") "t1"), after (put (operation "o1") "t1") empty)
unfolding put_pending map_get map_set
first_put = refl

put_pending_again_example :
    put_pending
      (record (operation "o1") { observed_at = "t8" })
      "t9"
      (after (put (operation "o1") "t1") empty)
    ≡ (ok (new_record (operation "o1") "t1"), after (put (operation "o1") "t1") empty)
put_pending_again_example =
    put_pending_again (operation "o1") "t8" "t1" "t9" empty
      (after (put (operation "o1") "t1") empty) (new_record (operation "o1") "t1")
      empty-IsWellFormed first_put
