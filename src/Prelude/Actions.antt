-- ===== src/Prelude/Actions.antt =====
-- Asynchronous methods run to their end: a result, which may be a thrown error, and the state
-- afterwards. What was written before a throw stays written.
use mathlib.Core.Bool.{Bool, true, false}
use dsh_session_maintenance.Prelude.Throws.{Outcome, ok, thrown, Failure}

abbrev pub Action : Type 0 → Type 0 → Type 0
Action S A = S → Outcome A × S

module _ {S A : Type 0} where
  abbrev pub pure : A → Action S A
  pure a s = (ok a, s)

  abbrev pub raise : Failure → Action S A
  raise e s = (thrown e, s)

  -- `if (!test) throw failure`, in front of the rest.
  abbrev pub demand : Bool → Failure → Action S A → Action S A
  demand true e rest = rest
  demand false e rest = raise e

  abbrev pub lift : Outcome A → Action S A
  lift r s = (r, s)

  abbrev pub gets : (S → A) → Action S A
  gets f s = (ok (f s), s)

module _ {S A B : Type 0} where
  abbrev pub continue : Outcome A × S → (A → Action S B) → Outcome B × S
  continue (ok a, s) f = f a s
  continue (thrown e, s) f = (thrown e, s)

  infixl 10 ◌>>=◌ ◌>>◌
  abbrev pub ◌>>=◌ : Action S A → (A → Action S B) → Action S B
  (m >>= f) s = continue (m s) f

  abbrev pub ◌>>◌ : Action S A → Action S B → Action S B
  m >> n = m >>= λ _. n

module _ {S A : Type 0} where
  abbrev pub handle : Outcome A × S → (Failure → Action S A) → Outcome A × S
  handle (ok a, s) f = (ok a, s)
  handle (thrown e, s) f = f e s

  -- `try { m } catch (error) { f(error) }`
  abbrev pub attempt : Action S A → (Failure → Action S A) → Action S A
  attempt m f s = handle (m s) f
