-- ===== src/Projection/Wal/Final.antt =====
-- Any sequence of the methods of the log.
use dsh_session_maintenance.Prelude.{
  ◌≡◌, refl, sym, ap, subst, ◌∙◌, inl, inr, String, true, false, List, [], ◌∷◌, Option, none, some,
  Eq, ◌==◌, string_eq, nat_eq, Bool-cases, Option-cases, nat_beq_iff, beq_refl, thrown, other_error,
  Outcome, ok, arith, map_get, map_set, map_get-map_set, eq_iff,
}
use dsh_session_maintenance.Projection.Wal.{
  NativeAppendOperation, ProjectionWalRecord, WriteAheadLog, put_pending, mark_projection_applied,
  mark_committed, supersede, get, put_over, same_operation, durable_write, new_record, required,
  found, apply_to, commit_to, fits, WalState,
}
use dsh_session_maintenance.Projection.Wal.Phases.{
  IsWellFormed, IsStep, stay, begin, apply, commit, leave, leave_applied, Phase, done, phase,
  phase_of, phase_by, IsTransition, known, put_pending-IsTransition,
  mark_projection_applied-IsTransition, mark_committed-IsTransition, supersede-IsTransition,
}

-- A call of one of the methods that write.
pub data Call (Payload Receipt : Type 0) : Type 0 where
  put : NativeAppendOperation Payload → String → Call Payload Receipt
  applied : String → String → Call Payload Receipt
  committed : String → Receipt → String → Call Payload Receipt
  superseded : String → Call Payload Receipt

module _ {Payload Receipt : Type 0} where
  abbrev pub operation_of : Call Payload Receipt → String
  operation_of (put operation at) = operation.operation_id
  operation_of (applied id at) = id
  operation_of (committed id receipt at) = id
  operation_of (superseded id) = id

stays_done :
    {Receipt : Type 0} (receipt : Option Receipt) {p q : Phase Receipt}
    → IsStep p q
    → p ≡ done receipt
    → q ≡ done receipt
stays_done receipt stay e = e
stays_done receipt begin e = absurd (ground (arith, e))
stays_done receipt apply e = absurd (ground (arith, e))
stays_done receipt (commit r) e = absurd (ground (arith, e))
stays_done receipt leave e = absurd (ground (arith, e))
stays_done receipt leave_applied e = absurd (ground (arith, e))

same_operation_observed :
    {Payload : Type 0} ⦃payloads : Eq Payload⦄ (operation : NativeAppendOperation Payload)
    (later : String)
    → same_operation operation (record operation { observed_at = later }) ≡ true
unfolding same_operation
same_operation_observed operation later = ground (
  arith,
  eq_iff operation.run_id operation.run_id,
  eq_iff operation.operation_id operation.operation_id,
  eq_iff operation.native_session_id operation.native_session_id,
  nat_beq_iff operation.native_revision operation.native_revision,
  beq_refl operation.payload,
)

module _ {Payload Receipt : Type 0} ⦃payloads : Eq Payload⦄ ⦃receipts : Eq Receipt⦄ where
  -- The log after the call, whether it threw or not.
  abbrev pub after :
      Call Payload Receipt → WriteAheadLog Payload Receipt → WriteAheadLog Payload Receipt
  after (put operation at) log = (put_pending operation at log).1
  after (applied id at) log = (mark_projection_applied id at log).1
  after (committed id receipt at) log = (mark_committed id receipt at log).1
  after (superseded id) log = (supersede id log).1

  abbrev pub after_all :
      List (Call Payload Receipt) → WriteAheadLog Payload Receipt → WriteAheadLog Payload Receipt
  after_all [] log = log
  after_all (call ∷ calls) log = after_all calls (after call log)

  -- Each method that writes, whether it returns or throws, keeps the log well formed, takes its
  -- operation along at most one step (absent, begun, applied, committed with a receipt; superseded
  -- before that), and leaves the files of the other operations as they were.
  pub after-IsTransition :
      (call : Call Payload Receipt) (log : WriteAheadLog Payload Receipt)
      → IsWellFormed log
      → IsTransition (operation_of call) log (after call log)
  after-IsTransition (put operation at) log w = put_pending-IsTransition operation at log w
  after-IsTransition (applied id at) log w = mark_projection_applied-IsTransition id at log w
  after-IsTransition (committed id receipt at) log w =
      mark_committed-IsTransition id receipt at log w
  after-IsTransition (superseded id) log w = supersede-IsTransition id log w

  done_after :
      (call : Call Payload Receipt) (log : WriteAheadLog Payload Receipt) (id : String)
      (receipt : Option Receipt)
      → IsWellFormed log
      → phase id log ≡ done receipt
      → phase id (after call log) ≡ done receipt
  done_after call log id receipt w h =
      let t = after-IsTransition call log w in
      elim (Bool-cases (operation_of call == id)) [
        | inr other ↦ ap phase_of (t.others id other) ∙ h
        | inl own ↦
            let e : operation_of call ≡ id = (eq_iff (operation_of call) id).0 own in
            stays_done receipt
              (subst (λ x. IsStep (phase x log) (phase x (after call log))) e t.step) h
      ]

  -- A commit is final in a well-formed log: whatever methods are called afterwards, on this or on
  -- other operations, returning or throwing, the operation stays committed with the same receipt.
  pub after_all-done :
      (calls : List (Call Payload Receipt)) (log : WriteAheadLog Payload Receipt) (id : String)
      (receipt : Option Receipt)
      → IsWellFormed log
      → phase id log ≡ done receipt
      → phase id (after_all calls log) ≡ done receipt
  after_all-done [] log id receipt w h = h
  after_all-done (call ∷ calls) log id receipt w h =
      after_all-done calls (after call log) id receipt (after-IsTransition call log w).sound
        (done_after call log id receipt w h)

  put_new :
      (operation : NativeAppendOperation Payload) (at : String)
      (log : WriteAheadLog Payload Receipt)
      → IsWellFormed log
      → map_get operation.operation_id log.files ≡ none
      → put_pending operation at log ≡ (
        ok (new_record operation at),
        record log { files = map_set operation.operation_id (new_record operation at) log.files },
      )
  unfolding put_pending get put_over durable_write
  put_new operation at log w e = rw (known operation.operation_id log w, e) refl

  put_same :
      (operation : NativeAppendOperation Payload) (at : String)
      (log : WriteAheadLog Payload Receipt) (r : ProjectionWalRecord Payload Receipt)
      → IsWellFormed log
      → map_get operation.operation_id log.files ≡ some r
      → same_operation r.operation operation ≡ true
      → put_pending operation at log ≡ (ok r, log)
  unfolding put_pending get put_over
  put_same operation at log r w e same = rw (known operation.operation_id log w, e, same) refl

  put_different :
      (operation : NativeAppendOperation Payload) (at : String)
      (log : WriteAheadLog Payload Receipt) (r : ProjectionWalRecord Payload Receipt)
      → IsWellFormed log
      → map_get operation.operation_id log.files ≡ some r
      → same_operation r.operation operation ≡ false
      → put_pending operation at log ≡ (thrown other_error, log)
  unfolding put_pending get put_over
  put_different operation at log r w e differs =
      rw (known operation.operation_id log w, e, differs) refl

  -- An append that is tried again changes nothing in a well-formed log: when the same operation is
  -- put a second time, with any time of observation and any clock, the record of the first time is
  -- returned and the log is as it was.
  pub put_pending_again :
      (operation : NativeAppendOperation Payload) (later at at_later : String)
      (log log_after : WriteAheadLog Payload Receipt) (r : ProjectionWalRecord Payload Receipt)
      → IsWellFormed log
      → put_pending operation at log ≡ (ok r, log_after)
      → put_pending (record operation { observed_at = later }) at_later log_after
        ≡ (ok r, log_after)
  unfolding same_operation
  put_pending_again operation later at at_later log log_after r w h =
      let id = operation.operation_id in
      let retry = record operation { observed_at = later } in
      let again : Outcome (ProjectionWalRecord Payload Receipt) × WriteAheadLog Payload Receipt
          → Type 0 =
        λ z. put_pending retry at_later z.1 ≡ z in
      elim (Option-cases (map_get id log.files)) [
        | inl e ↦
            let first = put_new operation at log w e in
            let new = new_record operation at in
            let log1 = record log { files = map_set id new log.files } in
            let w1 : IsWellFormed log1 =
              subst IsWellFormed (ap (λ z. z.1) first)
                (put_pending-IsTransition operation at log w).sound in
            let e1 : map_get id log1.files ≡ some new =
              ground (arith, map_get-map_set id id new log.files, eq_iff id id) in
            subst again (sym first ∙ h)
              (put_same retry at_later log1 new w1 e1 (same_operation_observed operation later))
        | inr (old, e) ↦ elim (Bool-cases (same_operation old.operation operation)) [
          | inr differs ↦
              absurd (ground (arith, sym (put_different operation at log old w e differs) ∙ h))
          | inl same ↦
              subst again (sym (put_same operation at log old w e same) ∙ h)
                (put_same retry at_later log old w e same)
        ]
      ]

  apply_found :
      (id at : String) (log : WriteAheadLog Payload Receipt)
      (r : ProjectionWalRecord Payload Receipt)
      → IsWellFormed log
      → map_get id log.files ≡ some r
      → r.projection_applied ≡ false
      → map_get id (mark_projection_applied id at log).1.files
        ≡ some (record r { projection_applied = true; updated_at = at })
  unfolding mark_projection_applied required get found apply_to durable_write
  apply_found id at log r w e h =
      rw (known id log w, e, h)
        (ground (
          arith,
          map_get-map_set r.operation.operation_id id
              (record r { projection_applied = true; updated_at = at }) log.files,
          eq_iff r.operation.operation_id id,
          (w id r e).same_id,
        ))

  commit_found :
      (id : String) (receipt : Receipt) (at : String) (log : WriteAheadLog Payload Receipt)
      (r : ProjectionWalRecord Payload Receipt)
      → IsWellFormed log
      → map_get id log.files ≡ some r
      → r.projection_applied ≡ true
      → r.receipt ≡ none
      → phase id (mark_committed id receipt at log).1 ≡ done (some receipt)
  unfolding mark_committed required get found commit_to fits durable_write phase_of phase_by
  commit_found id receipt at log r w e h n =
      let written = record r {
        state = WalState.committed;
        projection_applied = true;
        receipt = some receipt;
        updated_at = at;
      } in
      let e' : map_get id (map_set r.operation.operation_id written log.files) ≡ some written =
        ground (
          arith,
          map_get-map_set r.operation.operation_id id written log.files,
          eq_iff r.operation.operation_id id,
          (w id r e).same_id,
        ) in
      rw (known id log w, e, h, n) (ap phase_of e')

  -- A new operation of a well-formed log can be committed: put, applied and committed with a receipt,
  -- it ends committed with that receipt, whatever else is in the log.
  pub after_all-commits :
      (operation : NativeAppendOperation Payload) (receipt : Receipt) (at at' at'' : String)
      (log : WriteAheadLog Payload Receipt)
      → IsWellFormed log
      → map_get operation.operation_id log.files ≡ none
      → phase operation.operation_id (
          after_all
            (put operation at
              ∷ applied operation.operation_id at'
              ∷ committed operation.operation_id receipt at''
              ∷ [])
            log)
        ≡ done (some receipt)
  after_all-commits operation receipt at at' at'' log w e =
      let id = operation.operation_id in
      let new = new_record operation at in
      let log1 = (put_pending operation at log).1 in
      let w1 = (put_pending-IsTransition operation at log w).sound in
      let e1 : map_get id log1.files ≡ some new =
        ap (λ z. map_get id z.1.files) (put_new operation at log w e)
        ∙ ground (arith, map_get-map_set id id new log.files, eq_iff id id) in
      let e2 = apply_found id at' log1 new w1 e1 refl in
      let w2 = (mark_projection_applied-IsTransition id at' log1 w1).sound in
      commit_found id receipt at'' (mark_projection_applied id at' log1).1
        (record new { projection_applied = true; updated_at = at' }) w2 e2 refl refl
