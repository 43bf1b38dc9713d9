-- ===== src/Domain/Plan/Validate/Stale.antt =====
-- When a plan is stale.
use dsh_session_maintenance.Prelude.{
  ◌≡◌, refl, sym, ◌∙◌, ◌↔◌, Bool, true, false, List, map, includes, Distinct, length, arith, ok,
  thrown, maintenance, plan_stale, Bool-cases, inl, inr, set_of, includes-set_of,
  Distinct-of_length, set_of-Distinct, superset_of_length, all-includes, all-includes_of, all,
  length-le_of_subset, nat_eq, list_eq,
}
use dsh_session_maintenance.Contracts.Plan.{StateFingerprint, SyncPlan}
use dsh_session_maintenance.Domain.Text.{Text}
use dsh_session_maintenance.Domain.Plan.Payload.{fingerprint_key}
use dsh_session_maintenance.Domain.Plan.Validate.{same_key_sets, validate_plan_preconditions}

-- The same keys, none of them twice on either side.
abbrev pub SameKeys : List Text → List Text → Type 0
SameKeys expected actual =
    Distinct expected × Distinct actual × ((k : Text) → includes expected k ≡ includes actual k)

same_of_iff : (a b : Bool) → (a ≡ true → b ≡ true) → (b ≡ true → a ≡ true) → a ≡ b
same_of_iff true b f g = sym (f refl)
same_of_iff false true f g = g refl
same_of_iff false false f g = refl

module _ (expected actual : List Text) where
  same_key_sets→sizes :
      same_key_sets expected actual ≡ true
      → (length (set_of expected) ≡ length expected)
        × (length (set_of actual) ≡ length actual)
        × (length (set_of expected) ≡ length (set_of actual))
        × (all (λ item. includes (set_of actual) item) (set_of expected) ≡ true)
  unfolding same_key_sets
  same_key_sets→sizes h = ground arith

  sizes→SameKeys :
      Distinct expected
      → Distinct actual
      → length expected ≡ length actual
      → ((k : Text) → includes expected k ≡ true → includes actual k ≡ true)
      → SameKeys expected actual
  sizes→SameKeys de da l sub = (
    de,
    da,
    λ k. same_of_iff _ _ (sub k) (superset_of_length expected actual de sub (omega arith) k),
  )

  same_key_sets→SameKeys : same_key_sets expected actual ≡ true → SameKeys expected actual
  same_key_sets→SameKeys h =
      let (le, la, l, sub) = same_key_sets→sizes h in
      sizes→SameKeys (Distinct-of_length expected le) (Distinct-of_length actual la) (omega arith)
        λ k m.
          sym (includes-set_of actual k)
          ∙ all-includes (set_of expected) (set_of actual) sub k (includes-set_of expected k ∙ m)

  SameKeys→length : SameKeys expected actual → length expected ≡ length actual
  SameKeys→length s = omega (
    arith,
    length-le_of_subset expected actual s.0 λ k m. sym (s.2 k) ∙ m,
    length-le_of_subset actual expected s.1 λ k m. s.2 k ∙ m,
  )

  SameKeys→same_key_sets : SameKeys expected actual → same_key_sets expected actual ≡ true
  unfolding same_key_sets
  SameKeys→same_key_sets s =
      rw (set_of-Distinct expected s.0, set_of-Distinct actual s.1)
        (ground (arith, SameKeys→length s, all-includes_of expected actual λ k m. sym (s.2 k) ∙ m))

-- A plan is current exactly when the fingerprints read now are, one by one and without repetition,
-- the fingerprints that it was made for; it is refused as stale exactly when they are not.
pub validate_plan_preconditions_exact :
    (plan : SyncPlan) (fingerprints : List StateFingerprint)
    → ((validate_plan_preconditions plan fingerprints ≡ ok tt)
        ↔ SameKeys (map fingerprint_key plan.preconditions) (map fingerprint_key fingerprints))
      × ((validate_plan_preconditions plan fingerprints ≡ thrown (maintenance plan_stale)) ↔ (
          SameKeys (map fingerprint_key plan.preconditions) (map fingerprint_key fingerprints) → ⊥))
unfolding validate_plan_preconditions
validate_plan_preconditions_exact plan fingerprints =
    let expected = map fingerprint_key plan.preconditions in
    let actual = map fingerprint_key fingerprints in
    (
      (
        λ h. same_key_sets→SameKeys expected actual (ground arith),
        λ s. ground (arith, SameKeys→same_key_sets expected actual s),
      ),
      (
        λ h s. ground (arith, SameKeys→same_key_sets expected actual s, h),
        λ differs. elim (Bool-cases (same_key_sets expected actual)) [
          | inl same ↦ absurd (differs (same_key_sets→SameKeys expected actual same))
          | inr other ↦ rw other refl
        ],
      ),
    )
