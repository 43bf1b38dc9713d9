-- ===== src/Projection/Wal/Phases.antt =====
-- The phases of an operation in the log, and the steps that the methods take.
use dsh_session_maintenance.Prelude.{
  ◌≡◌, refl, sym, subst, inl, inr, String, Bool, true, false, List, [], ◌∷◌, Option, none, some, Eq,
  ◌==◌, string_eq, nat_eq, is_some, if◌then◌else◌, Bool-cases, Option-cases, ok, arith, map_get,
  map_get-map_set, eq_iff,
}
use dsh_session_maintenance.Projection.Wal.{
  NativeAppendOperation, WalState, pending, committed, ProjectionWalRecord, WriteAheadLog, get,
  checked, durable_write, put_over, put_pending, required, found, apply_to, mark_projection_applied,
  fits, commit_to, mark_committed, without, rename_away, supersede_record, supersede, new_record,
  same_operation, is_pending,
}

-- What the fields of a record say of each other by its state.
abbrev pub IsCoherent : {Receipt : Type 0} → WalState → Bool → Option Receipt → Type 0
IsCoherent pending applied receipt = receipt ≡ none
IsCoherent committed applied receipt = (applied ≡ true) × (is_some receipt ≡ true)

module _ {Payload Receipt : Type 0} where
  pub record IsRecordOf (id : String) (r : ProjectionWalRecord Payload Receipt) : Type 0 where
    pub same_id : r.operation.operation_id ≡ id
    pub coherent : IsCoherent r.state r.projection_applied r.receipt

  -- Each file holds a record of its own operation.
  abbrev pub IsWellFormed : WriteAheadLog Payload Receipt → Type 0
  IsWellFormed log =
      (id : String) (r : ProjectionWalRecord Payload Receipt)
      → map_get id log.files ≡ some r
      → IsRecordOf id r

pub data Phase (Receipt : Type 0) : Type 0 where
  absent begun applied : Phase Receipt
  done : Option Receipt → Phase Receipt

-- The steps of an operation: it begins, is applied, is committed with a receipt; before that, it may
-- be superseded.
pub data IsStep {Receipt : Type 0} : Phase Receipt → Phase Receipt → Type 0 where
  stay : {p : Phase Receipt} → IsStep p p
  begin : IsStep absent begun
  apply : IsStep begun applied
  commit : (r : Receipt) → IsStep applied (done (some r))
  leave : IsStep begun absent
  leave_applied : IsStep applied absent

unfoldable pub phase_by : {Receipt : Type 0} → WalState → Bool → Option Receipt → Phase Receipt
phase_by pending false receipt = begun
phase_by pending true receipt = applied
phase_by committed is_applied receipt = done receipt

module _ {Payload Receipt : Type 0} where
  unfoldable pub phase_of : Option (ProjectionWalRecord Payload Receipt) → Phase Receipt
  unfolding phase_by
  phase_of none = absent
  phase_of (some r) = phase_by r.state r.projection_applied r.receipt

  abbrev pub phase : String → WriteAheadLog Payload Receipt → Phase Receipt
  phase id log = phase_of (map_get id log.files)

  -- What a method on an operation does to the log: it stays well formed, the operation takes a step,
  -- and the files of the others are as they were.
  pub record IsTransition (id : String) (before after : WriteAheadLog Payload Receipt)
      : Type 0 where
    pub sound : IsWellFormed after
    pub step : IsStep (phase id before) (phase id after)
    pub others :
        (other : String)
        → (id == other) ≡ false
        → map_get other after.files ≡ map_get other before.files

  pub IsTransition-refl :
      (id : String) (log : WriteAheadLog Payload Receipt)
      → IsWellFormed log
      → IsTransition id log log
  IsTransition-refl id log w = record { sound = w; step = stay; others = λ other h. refl }

  durable_write-IsTransition :
      (id : String) (r : ProjectionWalRecord Payload Receipt) (log : WriteAheadLog Payload Receipt)
      → IsWellFormed log
      → IsRecordOf id r
      → IsStep (phase id log) (phase_of (some r))
      → IsTransition id log (durable_write r log).1
  unfolding durable_write
  durable_write-IsTransition id r log w o s =
      let own = map_get-map_set r.operation.operation_id id r log.files in
      record {
        sound = λ other q h. elim (Bool-cases (r.operation.operation_id == other)) [
          | inl same ↦
              let e : r ≡ q =
                ground
                  (arith, h, same, map_get-map_set r.operation.operation_id other r log.files) in
              subst (IsRecordOf other) e (record {
                same_id = (eq_iff r.operation.operation_id other).0 same;
                coherent = o.coherent;
              })
          | inr differs ↦ w other q (
              ground
                (arith, h, differs, map_get-map_set r.operation.operation_id other r log.files))
        ];
        step =
            subst (λ z. IsStep (phase id log) (phase_of z))
              (ground (arith, own, o.same_id, eq_iff id id)) s;
        others = λ other h.
            ground
              (arith, h, o.same_id, map_get-map_set r.operation.operation_id other r log.files);
      }

  step_from :
      (id : String) (log : WriteAheadLog Payload Receipt)
      (before : Option (ProjectionWalRecord Payload Receipt)) (after : Phase Receipt)
      → map_get id log.files ≡ before
      → IsStep (phase_of before) after
      → IsStep (phase id log) after
  step_from id log before after e s = subst (λ z. IsStep (phase_of z) after) (sym e) s

  pub known :
      (id : String) (log : WriteAheadLog Payload Receipt)
      → IsWellFormed log
      → checked id (map_get id log.files) ≡ ok (map_get id log.files)
  unfolding checked
  known id log w = elim (Option-cases (map_get id log.files)) [
    | inl e ↦ rw e refl
    | inr (r, e) ↦ rw e (ground (arith, (w id r e).same_id, eq_iff r.operation.operation_id id))
  ]

apply-step :
    {Receipt : Type 0} (s : WalState) (a : Bool) (rc : Option Receipt)
    → IsCoherent s a rc
    → a ≡ false
    → IsStep (phase_by s a rc) (phase_by s true rc) × IsCoherent s true rc
unfolding phase_by
apply-step pending true rc c h = absurd (ground (arith, h))
apply-step pending false rc c h = (apply, c)
apply-step committed a rc c h = absurd (ground (arith, h, c.0))

commit-step :
    {Receipt : Type 0} ⦃receipts : Eq Receipt⦄ (receipt : Receipt) (s : WalState) (a : Bool)
    (rc : Option Receipt)
    → IsCoherent s a rc
    → a ≡ true
    → fits receipt rc ≡ true
    → IsStep (phase_by s a rc) (done (some receipt))
unfolding phase_by fits
commit-step receipt pending true rc c h f = commit receipt
commit-step receipt pending false rc c h f = absurd (ground (arith, h))
commit-step receipt committed a none c h f = absurd (ground (arith, c.1))
commit-step ⦃receipts⦄ receipt committed a (some known_receipt) c h f =
    subst (λ z. IsStep (done (some known_receipt)) (done (some z)))
      ((receipts.beq_iff known_receipt receipt).0 f) stay

leave-step :
    {Receipt : Type 0} (s : WalState) (a : Bool) (rc : Option Receipt)
    → is_pending s ≡ true
    → IsStep (phase_by s a rc) absent
unfolding phase_by is_pending
leave-step pending true rc h = leave_applied
leave-step pending false rc h = leave
leave-step committed a rc h = absurd (ground (arith, h))

module _ {Payload Receipt : Type 0} ⦃payloads : Eq Payload⦄ ⦃receipts : Eq Receipt⦄ where
  pub put_pending-IsTransition :
      (operation : NativeAppendOperation Payload) (at : String)
      (log : WriteAheadLog Payload Receipt)
      → IsWellFormed log
      → IsTransition operation.operation_id log (put_pending operation at log).1
  unfolding put_pending get put_over phase_of phase_by
  put_pending-IsTransition operation at log w =
      let id = operation.operation_id in
      elim (Option-cases (map_get id log.files)) [
        | inl e ↦
            rw (known id log w, e)
              (durable_write-IsTransition id (new_record operation at) log w
                (record { same_id = refl; coherent = refl }) (step_from id log none begun e begin))
        | inr (r, e) ↦ elim (Bool-cases (same_operation r.operation operation)) [
          | inl same ↦ rw (known id log w, e, same) (IsTransition-refl id log w)
          | inr differs ↦ rw (known id log w, e, differs) (IsTransition-refl id log w)
        ]
      ]

  pub mark_projection_applied-IsTransition :
      (id at : String) (log : WriteAheadLog Payload Receipt)
      → IsWellFormed log
      → IsTransition id log (mark_projection_applied id at log).1
  unfolding mark_projection_applied required get found apply_to phase_of
  mark_projection_applied-IsTransition id at log w = elim (Option-cases (map_get id log.files)) [
    | inl e ↦ rw (known id log w, e) (IsTransition-refl id log w)
    | inr (r, e) ↦ elim (Bool-cases r.projection_applied) [
      | inl yes' ↦ rw (known id log w, e, yes') (IsTransition-refl id log w)
      | inr no' ↦
          let o = w id r e in
          let (s, c) = apply-step r.state r.projection_applied r.receipt o.coherent no' in
          rw (known id log w, e, no')
            (durable_write-IsTransition id (record r { projection_applied = true; updated_at = at })
              log w (record { same_id = o.same_id; coherent = c })
              (step_from id log (some r) (phase_by r.state true r.receipt) e s))
    ]
  ]

  pub mark_committed-IsTransition :
      (id : String) (receipt : Receipt) (at : String) (log : WriteAheadLog Payload Receipt)
      → IsWellFormed log
      → IsTransition id log (mark_committed id receipt at log).1
  unfolding mark_committed required get found commit_to phase_of phase_by
  mark_committed-IsTransition id receipt at log w = elim (Option-cases (map_get id log.files)) [
    | inl e ↦ rw (known id log w, e) (IsTransition-refl id log w)
    | inr (r, e) ↦ elim (Bool-cases r.projection_applied) [
      | inr no' ↦ rw (known id log w, e, no') (IsTransition-refl id log w)
      | inl yes' ↦ elim (Bool-cases (fits receipt r.receipt)) [
        | inr other ↦ rw (known id log w, e, yes', other) (IsTransition-refl id log w)
        | inl same ↦
            let o = w id r e in
            rw (known id log w, e, yes', same)
              (durable_write-IsTransition id
                (record r {
                  state = committed;
                  projection_applied = true;
                  receipt = some receipt;
                  updated_at = at;
                })
                log w (record { same_id = o.same_id; coherent = (refl, refl) })
                (step_from id log (some r) (done (some receipt)) e (
                  commit-step receipt r.state r.projection_applied r.receipt o.coherent yes' same)))
      ]
    ]
  ]

  map_get-without :
      (id other : String) (files : List (String × ProjectionWalRecord Payload Receipt))
      → map_get other (without id files) ≡ (if id == other then none else map_get other files)
  unfolding without map_get
  map_get-without id other [] = ground arith
  map_get-without id other ((name, r) ∷ files) =
      ground
        (arith, map_get-without id other files, eq_iff name id, eq_iff name other, eq_iff id other)

  rename_away-IsTransition :
      (id : String) (r : ProjectionWalRecord Payload Receipt) (log : WriteAheadLog Payload Receipt)
      → IsWellFormed log
      → IsStep (phase id log) absent
      → IsTransition id log (rename_away id r log).1
  unfolding rename_away phase_of
  rename_away-IsTransition id r log w s =
      let gone : map_get id (without id log.files) ≡ none =
        ground (arith, map_get-without id id log.files, eq_iff id id) in
      record {
        sound = λ other q h. w other q (ground (arith, h, map_get-without id other log.files));
        step = subst (λ z. IsStep (phase id log) (phase_of z)) (sym gone) s;
        others = λ other h. ground (arith, h, map_get-without id other log.files);
      }

  pub supersede-IsTransition :
      (id : String) (log : WriteAheadLog Payload Receipt)
      → IsWellFormed log
      → IsTransition id log (supersede id log).1
  unfolding supersede required get found supersede_record phase_of
  supersede-IsTransition id log w = elim (Option-cases (map_get id log.files)) [
    | inl e ↦ rw (known id log w, e) (IsTransition-refl id log w)
    | inr (r, e) ↦ elim (Bool-cases (is_pending r.state)) [
      | inr no' ↦ rw (known id log w, e, no') (IsTransition-refl id log w)
      | inl yes' ↦
          rw (known id log w, e, yes')
            (rename_away-IsTransition id r log w (
              step_from id log (some r) absent e
                (leave-step r.state r.projection_applied r.receipt yes')))
    ]
  ]
