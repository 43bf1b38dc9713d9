-- ===== src/Transaction/Lock/Exclusive.antt =====
-- A root is written by one call at a time, among all managers.
use dsh_session_maintenance.Prelude.{
  ℕ, ◌≡◌, refl, ap, String, true, false, List, ◌∷◌, nat_eq, list_eq, string_eq, any, arith,
  Bool-cases, ◌⊎◌, inl, inr, ◌∙◌, Action, subst,
}
use dsh_session_maintenance.Domain.Text.{Text}
use dsh_session_maintenance.Transaction.World.{World}
use dsh_session_maintenance.Transaction.Lock.{has_path, locked, release, run_locked}
use dsh_session_maintenance.Transaction.Lock.Queue.{
  Call, waiting, running, Managers, put_tail, begin_first, begin_call, end_first, Reach,
}
use dsh_session_maintenance.Transaction.Lock.Waiting.{runs, is_queue, put_tail_here}
use dsh_session_maintenance.Transaction.Lock.Invariant.{Inv, Reach-Inv}

module _ {F P : Type 0} (sha256 : Text → String) (pid : ℕ → ℕ) where
  -- The call that begins gets the lock, or another one has it.
  pub record IsRefusedBy (s : Managers F P) (m : ℕ) (k : Text) (c : ℕ) (calls : List Call)
      : Type 0 where
    pub other : ℕ
    pub other_key : Text
    pub runs_there : runs (s.tails other other_key) ≡ true
    pub same_file : sha256 other_key ≡ sha256 k
    pub not_here : (other ≡ m) × (other_key ≡ k) → ⊥
    pub gone : (begin_call sha256 pid m k s).tails m k ≡ calls
    pub refused : (begin_call sha256 pid m k s).refused ≡ c ∷ s.refused

  pub record IsExclusive (s : Managers F P) : Type 0 where
    pub one :
        (m : ℕ) (k : Text) (m' : ℕ) (k' : Text)
        → runs (s.tails m k) ≡ true
        → runs (s.tails m' k') ≡ true
        → sha256 k ≡ sha256 k'
        → (m ≡ m') × (k ≡ k')
    pub queue : (m : ℕ) (k : Text) → is_queue (s.tails m k) ≡ true
    pub begins :
        (m : ℕ) (k : Text) (c : ℕ) (calls : List Call)
        → s.tails m k ≡ waiting c ∷ calls
        → ((begin_call sha256 pid m k s).tails m k ≡ running c ∷ calls) ⊎ IsRefusedBy s m k c calls

  begin_first-free :
      (s : Managers F P) (m : ℕ) (k : Text) (c : ℕ) (calls : List Call)
      → any (has_path (sha256 k)) s.world.locks ≡ false
      → begin_first sha256 pid m k (waiting c ∷ calls) s ≡ record s {
        tails = put_tail s.tails m k (running c ∷ calls);
        world = locked (pid m) (sha256 k) s.world;
      }
  unfolding begin_first
  begin_first-free s m k c calls free = rw free refl

  begin_first-taken :
      (s : Managers F P) (m : ℕ) (k : Text) (c : ℕ) (calls : List Call)
      → any (has_path (sha256 k)) s.world.locks ≡ true
      → begin_first sha256 pid m k (waiting c ∷ calls) s
        ≡ record s { tails = put_tail s.tails m k calls; refused = c ∷ s.refused }
  unfolding begin_first
  begin_first-taken s m k c calls taken = rw taken refl

  Inv-IsExclusive : (s : Managers F P) → Inv sha256 s → IsExclusive s
  unfolding begin_call
  Inv-IsExclusive s inv = record {
    one = inv.unique;
    queue = inv.queue;
    begins = λ m k c calls first. elim (Bool-cases (any (has_path (sha256 k)) s.world.locks)) [
      | inr free ↦ inl (
          ap (λ ts. (begin_first sha256 pid m k ts s).tails m k) first
          ∙ ap (λ t. t.tails m k) (begin_first-free s m k c calls free)
          ∙ put_tail_here s.tails m k (running c ∷ calls))
      | inl taken ↦
          let (m', k', r, e) = inv.covered (sha256 k) taken in
          let begun =
            ap (λ ts. begin_first sha256 pid m k ts s) first
            ∙ begin_first-taken s m k c calls taken in
          inr (record {
            other = m';
            other_key = k';
            runs_there = r;
            same_file = e;
            not_here = λ same. ground (
              arith,
              ap runs first,
              subst (λ i. runs (s.tails i k) ≡ true) same.0
                  (subst (λ l. runs (s.tails m' l) ≡ true) same.1 r),
            );
            gone = ap (λ t. t.tails m k) begun ∙ put_tail_here s.tails m k calls;
            refused = ap (λ t. t.refused) begun;
          })
    ];
  }

  -- In every state that the calls of any managers reach from a world without lock files: two calls
  -- that run at the same time have different lock files, unless they are the same one; in the queue
  -- of a manager all calls but the first wait; and when the first one begins, it runs then, or it is
  -- refused and gone, which happens only while a call in another queue, with the same lock file,
  -- runs. (No process ends in the middle of a call, and an action gives back the locks it takes.)
  pub with_lock-IsExclusive :
      (w : World F P) (s : Managers F P) → Reach sha256 pid w s → IsExclusive s
  with_lock-IsExclusive w s reach = Inv-IsExclusive s (Reach-Inv sha256 pid w s reach)

  -- What `run_locked` does at once is what its steps do in turn, when the lock is free.
  pub run_locked-steps :
      {A : Type 0} (s : Managers F P) (m : ℕ) (k : Text) (c : ℕ) (calls : List Call)
      (action : Action (World F P) A)
      → any (has_path (sha256 k)) s.world.locks ≡ false
      → (end_first sha256 m k
          (running c ∷ calls)
          (record (begin_first sha256 pid m k (waiting c ∷ calls) s) {
            world = (action (begin_first sha256 pid m k (waiting c ∷ calls) s).world).1;
          })).world
        ≡ (run_locked sha256 (pid m) (sha256 k) action s.world).1
  unfolding end_first begin_first run_locked release
  run_locked-steps s m k c calls action free = rw free refl
