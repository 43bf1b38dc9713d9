-- ===== src/Transaction/Lock/Invariant.antt =====
-- What holds of the queues and the lock files in every state that calls reach.
use dsh_session_maintenance.Prelude.{
  ℕ, ◌≡◌, refl, sym, subst, ap, String, true, false, List, [], ◌∷◌, ◌++◌, ◌==◌, nat_eq, list_eq,
  string_eq, any, all, arith, Bool-cases, beq→eq, beq_refl, inl, inr, ◌∙◌,
}
use dsh_session_maintenance.Domain.Text.{Text}
use dsh_session_maintenance.Transaction.World.{World}
use dsh_session_maintenance.Transaction.Lock.{has_path, locked, without}
use dsh_session_maintenance.Transaction.Lock.Queue.{
  Call, waiting, running, Managers, put_tail, make_call, begin_first, begin_call, end_first,
  end_call, Step, make, begin, work, settle, Reach, start, later,
}
use dsh_session_maintenance.Transaction.Lock.Waiting.{
  is_waiting, runs, is_queue, runs-append, is_queue-append, runs-waiting, is_queue-waiting,
  any-keep_other, any-keep_same, put_tail-cases, put_tail-is_queue, put_tail-runs, put_tail_here,
  still_runs,
}

module _ {F P : Type 0} (sha256 : Text → String) where
  pub record Inv (s : Managers F P) : Type 0 where
    pub queue : (m : ℕ) (k : Text) → is_queue (s.tails m k) ≡ true
    pub held :
        (m : ℕ) (k : Text)
        → runs (s.tails m k) ≡ true
        → any (has_path (sha256 k)) s.world.locks ≡ true
    pub unique :
        (m : ℕ) (k : Text) (m' : ℕ) (k' : Text)
        → runs (s.tails m k) ≡ true
        → runs (s.tails m' k') ≡ true
        → sha256 k ≡ sha256 k'
        → (m ≡ m') × (k ≡ k')
    pub covered :
        (path : String)
        → any (has_path path) s.world.locks ≡ true
        → (m : ℕ) × (k : Text) × (runs (s.tails m k) ≡ true) × (sha256 k ≡ path)

  same-Inv :
      (s t : Managers F P)
      → Inv s
      → ((m : ℕ) (k : Text) → is_queue (t.tails m k) ≡ true)
      → ((m : ℕ) (k : Text) → runs (t.tails m k) ≡ runs (s.tails m k))
      → t.world.locks ≡ s.world.locks
      → Inv t
  same-Inv s t inv queue same locks = record {
    queue = queue;
    held = λ m k r. ap (any (has_path (sha256 k))) locks ∙ inv.held m k (sym (same m k) ∙ r);
    unique =
        λ m k m' k' r r' e. inv.unique m k m' k' (sym (same m k) ∙ r) (sym (same m' k') ∙ r') e;
    covered = λ path h.
        let (m, k, r, e) = inv.covered path (ap (any (has_path path)) (sym locks) ∙ h) in
        (m, k, same m k ∙ r, e);
  }

  acquire-Inv :
      (s : Managers F P) (pid m : ℕ) (k : Text) (c : ℕ) (calls : List Call)
      → Inv s
      → s.tails m k ≡ waiting c ∷ calls
      → any (has_path (sha256 k)) s.world.locks ≡ false
      → Inv (record s {
        tails = put_tail s.tails m k (running c ∷ calls);
        world = locked pid (sha256 k) s.world;
      })
  acquire-Inv s pid m k c calls inv first free = record {
    queue =
        put_tail-is_queue s.tails m k (running c ∷ calls) (sym (ap is_queue first) ∙ inv.queue m k)
          inv.queue;
    held = λ m1 k1 r. elim (put_tail-cases s.tails m k (running c ∷ calls) m1 k1) [
      | inl same ↦ ground (arith, same.1, beq_refl (sha256 k))
      | inr other ↦ ground (arith, inv.held m1 k1 (sym (ap runs other.0) ∙ r))
    ];
    unique = λ m1 k1 m2 k2 r1 r2 e. elim (put_tail-cases s.tails m k (running c ∷ calls) m1 k1) [
      | inl same1 ↦ elim (put_tail-cases s.tails m k (running c ∷ calls) m2 k2) [
        | inl same2 ↦ (same1.0 ∙ sym same2.0, same1.1 ∙ sym same2.1)
        | inr other2 ↦ absurd (
            ground (
              arith,
              free,
              subst (λ p. any (has_path p) s.world.locks ≡ true) (sym e ∙ ap sha256 same1.1)
                  (inv.held m2 k2 (sym (ap runs other2.0) ∙ r2)),
            ))
      ]
      | inr other1 ↦ elim (put_tail-cases s.tails m k (running c ∷ calls) m2 k2) [
        | inl same2 ↦ absurd (
            ground (
              arith,
              free,
              subst (λ p. any (has_path p) s.world.locks ≡ true) (e ∙ ap sha256 same2.1)
                  (inv.held m1 k1 (sym (ap runs other1.0) ∙ r1)),
            ))
        | inr other2 ↦
            inv.unique m1 k1 m2 k2 (sym (ap runs other1.0) ∙ r1) (sym (ap runs other2.0) ∙ r2) e
      ]
    ];
    covered = λ path h. elim (Bool-cases (sha256 k == path)) [
      | inl here ↦ (
        m,
        k,
        ap runs (put_tail_here s.tails m k (running c ∷ calls)),
        beq→eq (sha256 k) path here,
      )
      | inr there ↦
          let (m0, k0, r0, e0) = inv.covered path (ground (arith, h, there)) in
          (m0, k0, still_runs s.tails m k c calls m0 k0 r0, e0)
    ];
  }

  release-Inv :
      (s : Managers F P) (m : ℕ) (k : Text) (c : ℕ) (calls : List Call)
      → Inv s
      → s.tails m k ≡ running c ∷ calls
      → Inv (record s { tails = put_tail s.tails m k calls; world = without (sha256 k) s.world })
  release-Inv s m k c calls inv first =
      let wait : all is_waiting calls ≡ true = sym (ap is_queue first) ∙ inv.queue m k in
      let ran : (m' : ℕ) (k' : Text)
          → runs (put_tail s.tails m k calls m' k') ≡ true
          → (runs (s.tails m' k') ≡ true) × ((m' ≡ m) × (k' ≡ k) → ⊥) =
        λ m' k' r. elim (put_tail-cases s.tails m k calls m' k') [
          | inl same ↦ absurd (ground (arith, runs-waiting calls wait, sym (ap runs same.2) ∙ r))
          | inr other ↦ (sym (ap runs other.0) ∙ r, other.1)
        ] in
      record {
        queue = put_tail-is_queue s.tails m k calls (is_queue-waiting calls wait) inv.queue;
        held = λ m1 k1 r. elim (Bool-cases (sha256 k1 == sha256 k)) [
          | inl e ↦ absurd (
              (ran m1 k1 r).1 (
                inv.unique m1 k1 m k (ran m1 k1 r).0 (ap runs first)
                  (beq→eq (sha256 k1) (sha256 k) e)))
          | inr n ↦
              any-keep_other (sha256 k) (sha256 k1) s.world.locks n ∙ inv.held m1 k1 (ran m1 k1 r).0
        ];
        unique = λ m1 k1 m2 k2 r1 r2 e. inv.unique m1 k1 m2 k2 (ran m1 k1 r1).0 (ran m2 k2 r2).0 e;
        covered = λ path h. elim (Bool-cases (path == sha256 k)) [
          | inl e ↦ absurd (
              ground (
                arith,
                any-keep_same (sha256 k) s.world.locks,
                subst (λ p. any (has_path p) (without (sha256 k) s.world).locks ≡ true)
                    (beq→eq path (sha256 k) e) h,
              ))
          | inr n ↦
              let (m0, k0, r0, e0) =
                inv.covered path (sym (any-keep_other (sha256 k) path s.world.locks n) ∙ h) in
              elim (put_tail-cases s.tails m k calls m0 k0) [
                | inl same ↦
                    absurd (ground (arith, n, beq_refl (sha256 k), sym e0 ∙ ap sha256 same.1))
                | inr other ↦ (m0, k0, ap runs other.0 ∙ r0, e0)
              ]
        ];
      }

  make_call-Inv : (s : Managers F P) (m : ℕ) (k : Text) (c : ℕ) → Inv s → Inv (make_call m k c s)
  unfolding make_call
  make_call-Inv s m k c inv =
      same-Inv s (make_call m k c s) inv
        (put_tail-is_queue s.tails m k (s.tails m k ++ waiting c ∷ [])
          (is_queue-append (s.tails m k) c (inv.queue m k)) inv.queue)
        (put_tail-runs s.tails m k (s.tails m k ++ waiting c ∷ []) (runs-append (s.tails m k) c))
        refl

  begin_first-Inv :
      (pid : ℕ → ℕ) (s : Managers F P) (m : ℕ) (k : Text) (calls : List Call)
      → Inv s
      → s.tails m k ≡ calls
      → Inv (begin_first sha256 pid m k calls s)
  unfolding begin_first
  begin_first-Inv pid s m k [] inv first = inv
  begin_first-Inv pid s m k (running c ∷ calls) inv first = inv
  begin_first-Inv pid s m k (waiting c ∷ calls) inv first =
      elim (Bool-cases (any (has_path (sha256 k)) s.world.locks)) [
        | inl taken ↦
            let wait : all is_waiting calls ≡ true = sym (ap is_queue first) ∙ inv.queue m k in
            rw taken (
              same-Inv s (record s { tails = put_tail s.tails m k calls; refused = c ∷ s.refused })
                inv (put_tail-is_queue s.tails m k calls (is_queue-waiting calls wait) inv.queue)
                (put_tail-runs s.tails m k calls (runs-waiting calls wait ∙ sym (ap runs first)))
                refl)
        | inr free ↦ rw free (acquire-Inv s (pid m) m k c calls inv first free)
      ]

  end_first-Inv :
      (s : Managers F P) (m : ℕ) (k : Text) (calls : List Call)
      → Inv s
      → s.tails m k ≡ calls
      → Inv (end_first sha256 m k calls s)
  unfolding end_first
  end_first-Inv s m k [] inv first = inv
  end_first-Inv s m k (waiting c ∷ calls) inv first = inv
  end_first-Inv s m k (running c ∷ calls) inv first = release-Inv s m k c calls inv first

  Step-Inv : (pid : ℕ → ℕ) (s t : Managers F P) → Step sha256 pid s t → Inv s → Inv t
  unfolding begin_call end_call
  Step-Inv pid s _ (make m k c) inv = make_call-Inv s m k c inv
  Step-Inv pid s _ (begin m k) inv = begin_first-Inv pid s m k (s.tails m k) inv refl
  Step-Inv pid s _ (work v same) inv =
      same-Inv s (record s { world = v }) inv inv.queue (λ m k. refl) same
  Step-Inv pid s _ (settle m k) inv = end_first-Inv s m k (s.tails m k) inv refl

  pub Reach-Inv : (pid : ℕ → ℕ) (w : World F P) (s : Managers F P) → Reach sha256 pid w s → Inv s
  Reach-Inv pid w _ start = record {
    queue = λ m k. refl;
    held = λ m k r. absurd (ground (arith, r));
    unique = λ m k m' k' r r' e. absurd (ground (arith, r));
    covered = λ path h. absurd (ground (arith, h));
  }
  Reach-Inv pid w t (later {s} r st) = Step-Inv pid s t st (Reach-Inv pid w s r)
