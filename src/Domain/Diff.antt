-- ===== src/Domain/Diff.antt =====
-- packages/session-domain/src/diff.ts. `isDeepStrictEqual` of node:util on two events is the
-- instance argument; on arrays of events it compares element by element.
pub mod Delta
use dsh_session_maintenance.Prelude.{
  String, Bool, true, false, ◌&&◌, List, [], ◌∷◌, Eq, ◌==◌, nat_eq, string_eq, bool_eq, length, ltb,
  if◌then◌else◌,
}

pub data ConversationDelta : Type 0 where
  unchanged append_only rewritten : ConversationDelta

module _ {Event : Type 0} ⦃deep : Eq Event⦄ where
  -- `isDeepStrictEqual(left, right)` on arrays.
  unfoldable pub same_events : List Event → List Event → Bool
  same_events [] [] = true
  same_events (x ∷ xs) (y ∷ ys) = x == y && same_events xs ys
  same_events _ _ = false

  -- The loop over the indices of `base`.
  unfoldable pub same_prefix : List Event → List Event → Bool
  same_prefix [] current = true
  same_prefix (x ∷ xs) [] = false
  same_prefix (x ∷ xs) (y ∷ ys) = x == y && same_prefix xs ys

  unfoldable pub classify_conversation_delta : List Event → List Event → ConversationDelta
  unfolding same_events same_prefix
  classify_conversation_delta base current =
      if length base == length current && same_events base current
      then unchanged
      else if ltb (length current) (length base)
      then rewritten
      else if same_prefix base current
      then append_only
      else rewritten

pub record SessionMetadata : Type 0 where
  pub title : String
  pub archived : Bool

pub data MetadataDelta : Type 0 where
  unchanged source_only target_only metadata_conflict : MetadataDelta

unfoldable pub same_metadata : SessionMetadata → SessionMetadata → Bool
same_metadata left right = left.title == right.title && left.archived == right.archived

unfoldable pub classify_metadata_delta :
    SessionMetadata → SessionMetadata → SessionMetadata → MetadataDelta
classify_metadata_delta base source target =
    if same_metadata source target
    then MetadataDelta.unchanged
    else if same_metadata base source
    then target_only
    else if same_metadata base target
    then source_only
    else metadata_conflict
