-- ===== src/Transaction/Confirmation/OneTime.antt =====
-- A token is good for one use, of the operation it was issued for, until it expires.
use dsh_session_maintenance.Prelude.{
  ℕ, ◌+◌, ◌≡◌, refl, String, Bool, true, List, [], ◌∷◌, ◌++◌, none, some, Option-cases, ◌==◌,
  string_eq, is_some, leb, find, keep, if◌then◌else◌, arith, eq_iff, inl, inr, nat_eq, ok, thrown,
  maintenance, confirmation_required, confirmation_scope_mismatch, confirmation_expired,
}
use dsh_session_maintenance.Contracts.Write.{
  ConfirmationScope, IssuedConfirmation, StoredConfirmation,
}
use dsh_session_maintenance.Contracts.Schemas.{
  confirmation_scope_schema, stored_confirmation_schema,
}
use dsh_session_maintenance.Domain.Text.{Text}
use dsh_session_maintenance.Transaction.Store.{Store, parse_row}
use dsh_session_maintenance.Transaction.Store.Confirmations.{
  find_confirmation, is_unused, consume_rows, consume_confirmation, get_confirmation,
  save_confirmation,
}
use dsh_session_maintenance.Transaction.Confirmation.{
  is_same_scope, token_hash_of, stored_for, issue, consumed, consume_stored, consume_token,
}

-- The row with its mark.
abbrev marked : String → String → StoredConfirmation → StoredConfirmation
marked h at c = if is_unused h c then record c { consumed_at = some at } else c

find-consume_rows :
    (h at : String) (cs : List StoredConfirmation) (c : StoredConfirmation)
    → find (λ (d : StoredConfirmation). d.token_hash == h) cs ≡ some c
    → find (λ (d : StoredConfirmation). d.token_hash == h) (consume_rows h at cs)
      ≡ some (marked h at c)
unfolding consume_rows
find-consume_rows h at [] c e = ground arith
find-consume_rows h at (d ∷ cs) c e =
    ground (arith, find-consume_rows h at cs c, eq_iff d.token_hash h)

find-hash :
    (h : String) (cs : List StoredConfirmation) (c : StoredConfirmation)
    → find (λ (d : StoredConfirmation). d.token_hash == h) cs ≡ some c
    → c.token_hash ≡ h
find-hash h [] c e = ground arith
find-hash h (d ∷ cs) c e = ground (arith, find-hash h cs c, eq_iff d.token_hash h)

module _ (datetime : String → Bool) (iso : ℕ → String) (time : String → ℕ) where
  consume_stored_lem :
      (scope : ConfirmationScope) (now : ℕ) (c : StoredConfirmation) (store after : Store)
      → consume_stored iso time scope now (some c) store ≡ (ok tt, after)
      → (c.consumed_at ≡ none)
        × (after ≡ record store {
          confirmations = consume_rows c.token_hash (iso now) store.confirmations;
        })
  unfolding consume_stored consumed consume_confirmation
  consume_stored_lem scope now c store after h = ground arith

  -- What a successful use has found and done.
  consume_token_lem :
      (sha256 : Text → String) (token : String) (scope : ConfirmationScope) (now : ℕ)
      (store after : Store)
      → consume_token sha256 datetime iso time token scope now store ≡ (ok tt, after)
      → (c : StoredConfirmation) × (find_confirmation (token_hash_of sha256 token) store ≡ some c)
        × (stored_confirmation_schema datetime c ≡ true)
        × (consume_stored iso time scope now (some c) store ≡ (ok tt, after))
  unfolding consume_token get_confirmation parse_row consume_stored
  consume_token_lem sha256 token scope now store after h =
      elim (Option-cases (find_confirmation (token_hash_of sha256 token) store)) [
        | inl e ↦ ground arith
        | inr (c, e) ↦ (c, e, ground arith, ground arith)
      ]

find-fresh :
    (h : String) (cs : List StoredConfirmation) (c : StoredConfirmation)
    → find (λ (d : StoredConfirmation). d.token_hash == h) cs ≡ none
    → c.token_hash ≡ h
    → find (λ (d : StoredConfirmation). d.token_hash == h) (cs ++ c ∷ []) ≡ some c
find-fresh h [] c e k = ground (arith, eq_iff c.token_hash h)
find-fresh h (d ∷ cs) c e k = ground (arith, find-fresh h cs c, eq_iff d.token_hash h)

keep-fresh :
    (h : String) (cs : List StoredConfirmation) (c : StoredConfirmation)
    → find (λ (d : StoredConfirmation). d.token_hash == h) cs ≡ none
    → c.token_hash ≡ h
    → c.consumed_at ≡ none
    → keep (is_unused h) (cs ++ c ∷ []) ≡ c ∷ []
keep-fresh h [] c e k n = ground (arith, eq_iff c.token_hash h)
keep-fresh h (d ∷ cs) c e k n = ground (arith, keep-fresh h cs c, eq_iff d.token_hash h)

-- The mark keeps a row valid.
marked-valid :
    (datetime : String → Bool) (h at : String) (c : StoredConfirmation)
    → datetime at ≡ true
    → stored_confirmation_schema datetime c ≡ true
    → stored_confirmation_schema datetime (marked h at c) ≡ true
unfolding stored_confirmation_schema
marked-valid datetime h at c v s = ground arith

module _ (sha256 : Text → String) (datetime : String → Bool) (iso : ℕ → String) (time : String → ℕ)
    (iso_valid : (n : ℕ) → datetime (iso n) ≡ true) where
  used-again :
      (token : String) (scope : ConfirmationScope) (later : ℕ) (after : Store)
      (c : StoredConfirmation)
      → find_confirmation (token_hash_of sha256 token) after ≡ some c
      → stored_confirmation_schema datetime c ≡ true
      → is_some c.consumed_at ≡ true
      → confirmation_scope_schema scope ≡ true
      → consume_token sha256 datetime iso time token scope later after
        ≡ (thrown (maintenance confirmation_required), after)
  unfolding consume_token get_confirmation parse_row consume_stored
  used-again token scope later after c e s u v = ground arith

  -- A token that was consumed cannot be consumed again, for whatever scope and whenever: the second
  -- use is refused and changes nothing.
  pub consume_token_once :
      (token : String) (scope later_scope : ConfirmationScope) (now later : ℕ) (store after : Store)
      → consume_token sha256 datetime iso time token scope now store ≡ (ok tt, after)
      → confirmation_scope_schema later_scope ≡ true
      → consume_token sha256 datetime iso time token later_scope later after
        ≡ (thrown (maintenance confirmation_required), after)
  consume_token_once token scope later_scope now later store after h v =
      let (c, e, s, r) = consume_token_lem datetime iso time sha256 token scope now store after h in
      let (n, a) = consume_stored_lem datetime iso time scope now c store after r in
      let k = find-hash (token_hash_of sha256 token) store.confirmations c e in
      used-again token later_scope later after (marked c.token_hash (iso now) c)
        (ground
          (arith, find-consume_rows (token_hash_of sha256 token) (iso now) store.confirmations c e))
        (marked-valid datetime c.token_hash (iso now) c (iso_valid now) s)
        (ground (arith, eq_iff c.token_hash c.token_hash)) v

  issue_lem :
      (ttl_ms : ℕ) (token : String) (scope : ConfirmationScope) (now : ℕ) (store after : Store)
      (issued : IssuedConfirmation)
      → issue sha256 datetime iso time ttl_ms scope token now store ≡ (ok issued, after)
      → (stored_confirmation_schema datetime
            (stored_for sha256 datetime iso time scope token now (now + ttl_ms))
          ≡ true)
        × (after ≡ record store {
          confirmations =
              store.confirmations
              ++ stored_for sha256 datetime iso time scope token now (now + ttl_ms) ∷ [];
        })
  unfolding issue save_confirmation
  issue_lem ttl_ms token scope now store after issued h = (ground arith, ground arith)

  consume_found :
      (token : String) (scope : ConfirmationScope) (later : ℕ) (store : Store)
      (c : StoredConfirmation)
      → find_confirmation (token_hash_of sha256 token) store ≡ some c
      → stored_confirmation_schema datetime c ≡ true
      → confirmation_scope_schema scope ≡ true
      → consume_token sha256 datetime iso time token scope later store
        ≡ consume_stored iso time scope later (some c) store
  unfolding consume_token get_confirmation parse_row
  consume_found token scope later store c e s v = ground arith

  consume_fresh :
      (scope : ConfirmationScope) (later : ℕ) (store : Store) (c : StoredConfirmation)
      → find_confirmation c.token_hash store ≡ none
      → c.consumed_at ≡ none
      → (consume_stored iso time scope later
          (some c)
          (record store { confirmations = store.confirmations ++ c ∷ [] })).0
        ≡ (if is_same_scope c scope
            then (if leb (time c.expires_at) later
                then thrown (maintenance confirmation_expired)
                else ok tt)
            else thrown (maintenance confirmation_scope_mismatch))
  unfolding consume_stored consumed consume_confirmation
  consume_fresh scope later store c f n =
      ground (arith, keep-fresh c.token_hash store.confirmations c f refl n)

  -- After a token was issued, its use is decided by the scope and the time alone: it is refused
  -- for another operation, then once its time is over, and accepted otherwise. (The digest of the
  -- token is not in the store before, and `Date.parse` reads what `toISOString` writes.)
  pub issue-consume_token :
      ((n : ℕ) → time (iso n) ≡ n)
      → (ttl_ms : ℕ) (token : String) (scope later_scope : ConfirmationScope) (now later : ℕ)
        (store after : Store) (issued : IssuedConfirmation)
      → find_confirmation (token_hash_of sha256 token) store ≡ none
      → issue sha256 datetime iso time ttl_ms scope token now store ≡ (ok issued, after)
      → confirmation_scope_schema later_scope ≡ true
      → (consume_token sha256 datetime iso time token later_scope later after).0 ≡ (
          if is_same_scope
            (stored_for sha256 datetime iso time scope token now (now + ttl_ms))
            later_scope
          then (if leb (now + ttl_ms) later
              then thrown (maintenance confirmation_expired)
              else ok tt)
          else thrown (maintenance confirmation_scope_mismatch))
  unfolding stored_for
  issue-consume_token parses ttl_ms token scope later_scope now later store after issued fresh h v =
      let (s, a) = issue_lem ttl_ms token scope now store after issued h in
      let c : StoredConfirmation =
        stored_for sha256 datetime iso time scope token now (now + ttl_ms) in
      let e = find-fresh (token_hash_of sha256 token) store.confirmations c fresh refl in
      let with_c : Store = record store { confirmations = store.confirmations ++ c ∷ [] } in
      rw
        (
          a,
          consume_found token later_scope later with_c c e s v,
          consume_fresh later_scope later store c fresh refl,
          parses (now + ttl_ms),
        )
        refl
