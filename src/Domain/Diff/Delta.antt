-- ===== src/Domain/Diff/Delta.antt =====
-- What the classifications of diff.ts mean.
use dsh_session_maintenance.Prelude.{
  ◌≡◌, refl, ap, ◌≢◌, ◌↔◌, true, List, [], ◌∷◌, ◌++◌, Eq, arith, eq_iff, length-append, append-nil,
}
use dsh_session_maintenance.Domain.Diff.{
  unchanged, append_only, same_events, same_prefix, classify_conversation_delta, SessionMetadata,
  MetadataDelta, same_metadata, classify_metadata_delta, target_only, source_only,
  metadata_conflict,
}

pub same_metadata_iff : (l r : SessionMetadata) → (same_metadata l r ≡ true) ↔ (l ≡ r)
unfolding same_metadata
same_metadata_iff l r = ground (arith, eq_iff l.title r.title)

module _ {Event : Type 0} ⦃deep : Eq Event⦄ where
  same_events_refl : (xs : List Event) → same_events xs xs ≡ true
  unfolding same_events
  same_events_refl [] = refl
  same_events_refl (x ∷ xs) = ground (arith, deep.beq_iff x x, same_events_refl xs)

  same_events→eq : (xs ys : List Event) → same_events xs ys ≡ true → xs ≡ ys
  unfolding same_events
  same_events→eq [] [] h = refl
  same_events→eq [] (y ∷ ys) h = ground arith
  same_events→eq (x ∷ xs) [] h = ground arith
  same_events→eq (x ∷ xs) (y ∷ ys) h = ground (arith, deep.beq_iff x y, same_events→eq xs ys)

  same_prefix→append :
      (xs ys : List Event) → same_prefix xs ys ≡ true → (zs : List Event) × (ys ≡ xs ++ zs)
  unfolding same_prefix
  same_prefix→append [] ys h = (ys, refl)
  same_prefix→append (x ∷ xs) [] h = absurd (ground arith)
  same_prefix→append (x ∷ xs) (y ∷ ys) h =
      let (zs, e) = same_prefix→append xs ys (ground arith) in
      (zs, ground (arith, deep.beq_iff x y))

  same_prefix-append : (xs zs : List Event) → same_prefix xs (xs ++ zs) ≡ true
  unfolding same_prefix
  same_prefix-append [] zs = refl
  same_prefix-append (x ∷ xs) zs = ground (arith, deep.beq_iff x x, same_prefix-append xs zs)

  pub delta-append :
      (base : List Event) (e : Event) (rest : List Event)
      → classify_conversation_delta base (base ++ e ∷ rest) ≡ append_only
  unfolding classify_conversation_delta
  delta-append base e rest =
      ground (arith, length-append base (e ∷ rest), same_prefix-append base (e ∷ rest))

  delta_self : (base : List Event) → classify_conversation_delta base base ≡ unchanged
  unfolding classify_conversation_delta
  delta_self base = ground (arith, same_events_refl base)

  delta-unchanged→eq :
      (base current : List Event)
      → classify_conversation_delta base current ≡ unchanged
      → current ≡ base
  unfolding classify_conversation_delta
  delta-unchanged→eq base current h = ground (arith, same_events→eq base current)

  delta-append_only→prefix :
      (base current : List Event)
      → classify_conversation_delta base current ≡ append_only
      → same_prefix base current ≡ true
  unfolding classify_conversation_delta
  delta-append_only→prefix base current h = ground arith

  extension_nonempty :
      (base current zs : List Event)
      → classify_conversation_delta base current ≡ append_only
      → current ≡ base ++ zs
      → (e : Event) × (rest : List Event) × (current ≡ base ++ e ∷ rest)
  extension_nonempty base current [] h p = absurd (
      ground (
        arith,
        delta_self base,
        append-nil base,
        ap (classify_conversation_delta base) p,
        ap (classify_conversation_delta base) (append-nil base),
      ))
  extension_nonempty base current (e ∷ rest) h p = (e, rest, p)

  delta-append_only→append :
      (base current : List Event)
      → classify_conversation_delta base current ≡ append_only
      → (e : Event) × (rest : List Event) × (current ≡ base ++ e ∷ rest)
  delta-append_only→append base current h =
      let (zs, p) = same_prefix→append base current (delta-append_only→prefix base current h) in
      extension_nonempty base current zs h p

  -- The classification is exact: the conversation is unchanged exactly when it is the base, and
  -- append-only exactly when it is the base with at least one event after it.
  pub classify_conversation_delta_exact :
      (base current : List Event)
      → ((classify_conversation_delta base current ≡ unchanged) ↔ (current ≡ base))
        × ((classify_conversation_delta base current ≡ append_only)
            ↔ ((e : Event) × (rest : List Event) × (current ≡ base ++ e ∷ rest)))
  classify_conversation_delta_exact base current = (
    (delta-unchanged→eq base current, λ p. rw p (delta_self base)),
    (delta-append_only→append base current, λ (e, rest, p). rw p (delta-append base e rest)),
  )

-- Two sides that have the same metadata need nothing, whatever the base was; otherwise a change is
-- one-sided exactly when the other side still has the base's metadata, and a conflict is reported
-- exactly when the three differ pairwise.
pub classify_metadata_delta_exact :
    (base source target : SessionMetadata)
    → ((classify_metadata_delta base source target ≡ MetadataDelta.unchanged) ↔ (source ≡ target))
      × ((classify_metadata_delta base source target ≡ source_only)
          ↔ ((source ≢ target) × (base ≢ source) × (base ≡ target)))
      × ((classify_metadata_delta base source target ≡ target_only)
          ↔ ((source ≢ target) × (base ≡ source)))
      × ((classify_metadata_delta base source target ≡ metadata_conflict)
          ↔ ((source ≢ target) × (base ≢ source) × (base ≢ target)))
unfolding classify_metadata_delta
classify_metadata_delta_exact base source target = ground (
  arith,
  same_metadata_iff source target,
  same_metadata_iff base source,
  same_metadata_iff base target,
)
