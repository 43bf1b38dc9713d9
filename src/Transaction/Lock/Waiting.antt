-- ===== src/Transaction/Lock/Waiting.antt =====
-- The queue of a root: who waits in it, whose action runs, and which lock files stay when one goes.
use dsh_session_maintenance.Prelude.{
  ℕ, ◌≡◌, refl, sym, ap, String, Bool, true, false, not, List, [], ◌∷◌, ◌++◌, ◌==◌, nat_eq, list_eq,
  string_eq, eq_iff, any, all, keep, arith, Bool-cases, beq→eq, beq_refl, ◌⊎◌, inl, inr, ◌∙◌,
}
use dsh_session_maintenance.Domain.Text.{Text}
use dsh_session_maintenance.Transaction.World.{LockFile}
use dsh_session_maintenance.Transaction.Lock.{has_path}
use dsh_session_maintenance.Transaction.Lock.Queue.{Call, waiting, running, put_tail}

abbrev pub is_waiting : Call → Bool
is_waiting (waiting c) = true
is_waiting (running c) = false

-- The action of the first call runs.
abbrev pub runs : List Call → Bool
runs [] = false
runs (call ∷ calls) = not (is_waiting call)

-- All calls but the first wait.
abbrev pub is_queue : List Call → Bool
is_queue [] = true
is_queue (call ∷ calls) = all is_waiting calls

all-append_waiting :
    (calls : List Call) (c : ℕ) → all is_waiting (calls ++ waiting c ∷ []) ≡ all is_waiting calls
all-append_waiting [] c = refl
all-append_waiting (call ∷ calls) c = ground (arith, all-append_waiting calls c)

pub runs-append : (calls : List Call) (c : ℕ) → runs (calls ++ waiting c ∷ []) ≡ runs calls
runs-append [] c = refl
runs-append (call ∷ calls) c = refl

pub is_queue-append :
    (calls : List Call) (c : ℕ) → is_queue calls ≡ true → is_queue (calls ++ waiting c ∷ []) ≡ true
is_queue-append [] c h = refl
is_queue-append (call ∷ calls) c h = all-append_waiting calls c ∙ h

pub runs-waiting : (calls : List Call) → all is_waiting calls ≡ true → runs calls ≡ false
runs-waiting [] h = refl
runs-waiting (waiting c ∷ calls) h = refl
runs-waiting (running c ∷ calls) h = absurd (ground (arith, h))

pub is_queue-waiting : (calls : List Call) → all is_waiting calls ≡ true → is_queue calls ≡ true
is_queue-waiting [] h = refl
is_queue-waiting (waiting c ∷ calls) h = h
is_queue-waiting (running c ∷ calls) h = absurd (ground (arith, h))

pub any-keep_other :
    (path other : String) (locks : List LockFile)
    → (other == path) ≡ false
    → any (has_path other) (keep (λ lock. not (has_path path lock)) locks)
      ≡ any (has_path other) locks
any-keep_other path other [] h = refl
any-keep_other path other (l ∷ locks) h = elim (Bool-cases (has_path path l)) [
  | inl p ↦
      let same = beq→eq l.path path p in
      grind
        (arith, any-keep_other path other locks h, same, eq_iff l.path other, eq_iff other path, h)
  | inr q ↦ ground (arith, any-keep_other path other locks h, q)
]

pub any-keep_same :
    (path : String) (locks : List LockFile)
    → any (has_path path) (keep (λ lock. not (has_path path lock)) locks) ≡ false
any-keep_same path [] = refl
any-keep_same path (l ∷ locks) = elim (Bool-cases (has_path path l)) [
  | inl p ↦ ground (arith, any-keep_same path locks, p)
  | inr q ↦ ground (arith, any-keep_same path locks, q)
]

module _ (tails : ℕ → Text → List Call) (m : ℕ) (k : Text) (calls : List Call) where
  pub put_tail-cases :
      (m' : ℕ) (k' : Text)
      → ((m' ≡ m) × (k' ≡ k) × (put_tail tails m k calls m' k' ≡ calls))
        ⊎ ((put_tail tails m k calls m' k' ≡ tails m' k') × ((m' ≡ m) × (k' ≡ k) → ⊥))
  put_tail-cases m' k' = elim (Bool-cases (m' == m)) [
    | inl em ↦ elim (Bool-cases (k' == k)) [
      | inl ek ↦ inl (beq→eq m' m em, beq→eq k' k ek, rw (em, ek) refl)
      | inr nk ↦ inr (rw (em, nk) refl, λ same. ground (arith, nk, beq_refl k, same.1))
    ]
    | inr nm ↦ inr (rw nm refl, λ same. ground (arith, nm, beq_refl m, same.0))
  ]

  pub put_tail-is_queue :
      is_queue calls ≡ true
      → ((m' : ℕ) (k' : Text) → is_queue (tails m' k') ≡ true)
      → (m' : ℕ) (k' : Text) → is_queue (put_tail tails m k calls m' k') ≡ true
  put_tail-is_queue h before m' k' = elim (put_tail-cases m' k') [
    | inl same ↦ ap is_queue same.2 ∙ h
    | inr other ↦ ap is_queue other.0 ∙ before m' k'
  ]

  pub put_tail-runs :
      runs calls ≡ runs (tails m k)
      → (m' : ℕ) (k' : Text) → runs (put_tail tails m k calls m' k') ≡ runs (tails m' k')
  put_tail-runs h m' k' = elim (put_tail-cases m' k') [
    | inl same ↦
        ap runs same.2 ∙ h ∙ ap runs (ap (λ i. tails i k) (sym same.0) ∙ ap (tails m') (sym same.1))
    | inr other ↦ ap runs other.0
  ]

pub put_tail_here :
    (tails : ℕ → Text → List Call) (m : ℕ) (k : Text) (calls : List Call)
    → put_tail tails m k calls m k ≡ calls
put_tail_here tails m k calls = rw (beq_refl m, beq_refl k) refl

pub still_runs :
    (tails : ℕ → Text → List Call) (m : ℕ) (k : Text) (c : ℕ) (calls : List Call) (m' : ℕ)
    (k' : Text)
    → runs (tails m' k') ≡ true
    → runs (put_tail tails m k (running c ∷ calls) m' k') ≡ true
still_runs tails m k c calls m' k' r = elim (put_tail-cases tails m k (running c ∷ calls) m' k') [
  | inl same ↦ ap runs same.2
  | inr other ↦ ap runs other.0 ∙ r
]
