-- ===== src/Projection/Stream/Chunks.antt =====
-- The chunks are the parts in their order, each chunk within its limit.
use dsh_session_maintenance.Prelude.{
  ℕ, ◌+◌, ◌≤◌, ◌<◌, ◌≡◌, refl, sym, ap, subst, ◌∙◌, ◌⊎◌, inl, inr, String, false, List, [], ◌∷◌,
  ◌++◌, append-nil, append_assoc, length, is_empty, ltb, Bool-cases, Outcome, ok, thrown,
  other_error, All, All-append, arith,
}
use mathlib.Core.List.{Memᴰ}
use mathlib.Core.List.Memᴰ.{head, tail}
use dsh_session_maintenance.Projection.Stream.{
  byte_length, chunk_target_bytes, hard_limit_bytes, Waiting, empty_bytes, separator_bytes,
  flush_before, flush_full, push, take_part, chunks,
}
use dsh_session_maintenance.Projection.Stream.Bytes.{Grows}

-- The chunks one after the other.
abbrev pub flat : List (List String) → List String
flat [] = []
flat (chunk ∷ rest) = chunk ++ flat rest

flat-append : (xs ys : List (List String)) → flat (xs ++ ys) ≡ flat xs ++ flat ys
flat-append [] ys = refl
flat-append (x ∷ xs) ys =
    ap (λ z. x ++ z) (flat-append xs ys) ∙ sym (append_assoc x (flat xs) (flat ys))

is_empty-concat : (xs : List String) (x : String) → is_empty (xs ++ x ∷ []) ≡ false
is_empty-concat [] x = refl
is_empty-concat (y ∷ xs) x = refl

module _ (line : List String → String) (grows : Grows line) where
  -- The line of a chunk is within the target, or the chunk is one part within the hard limit.
  abbrev pub Fits : List String → Type 0
  Fits chunk =
      (byte_length (line chunk) ≤ chunk_target_bytes)
      ⊎ ((length chunk ≡ 1) × (byte_length (line chunk) ≤ hard_limit_bytes))

  abbrev pub IsChunk : List String → Type 0
  IsChunk chunk = (is_empty chunk ≡ false) × Fits chunk

  abbrev IsOpen : Waiting → Type 0
  IsOpen (current, bytes) =
      (bytes ≡ byte_length (line current)) × ((current ≡ []) ⊎ (bytes ≤ chunk_target_bytes))

  abbrev HasRoom : ℕ → Waiting → Type 0
  HasRoom n (current, bytes) =
      (current ≡ []) ⊎ (bytes + separator_bytes line current + n ≤ chunk_target_bytes)

  record IsFlushed (before : List String) (r : List (List String) × Waiting) : Type 0 where
    sent : All IsChunk r.0
    left : IsOpen r.1
    kept : flat r.0 ++ r.1.0 ≡ before

  flush_before-IsFlushed :
      (n : ℕ) (current : List String) (bytes : ℕ)
      → IsOpen (current, bytes)
      → IsFlushed current (flush_before line n (current, bytes))
        × HasRoom n (flush_before line n (current, bytes)).1
  unfolding flush_before empty_bytes separator_bytes
  flush_before-IsFlushed n [] bytes o = (record { sent = tt; left = o; kept = refl }, inl refl)
  flush_before-IsFlushed n (x ∷ xs) bytes o =
      let within : bytes ≤ chunk_target_bytes = ground (arith, o.1) in
      elim (Bool-cases (ltb chunk_target_bytes (bytes + 1 + n))) [
        | inl full ↦ rw full (
          record {
            sent = ((refl, inl (subst (λ z. z ≤ chunk_target_bytes) o.0 within)), tt);
            left = (refl, inl refl);
            kept = append-nil (x ∷ xs ++ []) ∙ append-nil (x ∷ xs);
          },
          inl refl,
        )
        | inr room ↦ rw room (
          record { sent = tt; left = (o.0, inr within); kept = refl },
          inr (ground (arith, room)),
        )
      ]

  flush_full-IsFlushed :
      (current : List String) (bytes : ℕ)
      → is_empty current ≡ false
      → bytes ≡ byte_length (line current)
      → Fits current
      → IsFlushed current (flush_full line (current, bytes))
  unfolding flush_full empty_bytes
  flush_full-IsFlushed current bytes some' same fits =
      elim (Bool-cases (ltb chunk_target_bytes bytes)) [
        | inl full ↦ rw full (record {
          sent = ((some', fits), tt);
          left = (refl, inl refl);
          kept = append-nil (current ++ []) ∙ append-nil current;
        })
        | inr room ↦
            rw room (record { sent = tt; left = (same, inr (ground (arith, room))); kept = refl })
      ]

  push-Fits :
      (part : String) (current : List String) (bytes : ℕ)
      → IsOpen (current, bytes)
      → HasRoom (byte_length part) (current, bytes)
      → empty_bytes line + byte_length part ≤ hard_limit_bytes
      → ((push line part (current, bytes)).1 ≡ byte_length (line (current ++ part ∷ [])))
        × Fits (current ++ part ∷ [])
  unfolding push separator_bytes empty_bytes
  push-Fits part current bytes o (inr room) small =
      (omega (arith, grows current part, o.0), inl (omega (arith, grows current part, o.0, room)))
  push-Fits part [] bytes o (inl e) small =
      (omega (arith, grows [] part, o.0), inr (refl, omega (arith, grows [] part, o.0, small)))
  push-Fits part (x ∷ xs) bytes o (inl e) small = absurd (ground (arith, e))

  take_part-IsFlushed :
      (part : String) (current : List String) (bytes : ℕ)
      → IsOpen (current, bytes)
      → empty_bytes line + byte_length part ≤ hard_limit_bytes
      → IsFlushed (current ++ part ∷ []) (take_part line part (current, bytes))
  unfolding take_part push
  take_part-IsFlushed part current bytes o small =
      let (first, room) = flush_before-IsFlushed (byte_length part) current bytes o in
      let r = flush_before line (byte_length part) (current, bytes) in
      let (same, fits) = push-Fits part r.1.0 r.1.1 first.left room small in
      let second =
        flush_full-IsFlushed (r.1.0 ++ part ∷ []) (push line part r.1).1
          (is_empty-concat r.1.0 part) same fits in
      let full = flush_full line (push line part r.1) in
      record {
        sent = All-append IsChunk r.0 full.0 first.sent second.sent;
        left = second.left;
        kept =
            ap (λ z. z ++ full.1.0) (flat-append r.0 full.0)
            ∙ append_assoc (flat r.0) (flat full.0) full.1.0
            ∙ ap (λ z. flat r.0 ++ z) second.kept
            ∙ sym (append_assoc (flat r.0) r.1.0 (part ∷ []))
            ∙ ap (λ z. z ++ part ∷ []) first.kept;
      }

  record IsChunking (parts whole : List String) (r : List (List String) × Outcome (Unit {0}))
      : Type 0 where
    within : All IsChunk r.0
    ending :
        ((r.1 ≡ ok tt) × (flat r.0 ≡ whole))
        ⊎ ((part : String) × Memᴰ part parts
            × (hard_limit_bytes < byte_length (line (part ∷ [])))
            × (r.1 ≡ thrown other_error))

  chunks-IsChunking :
      (parts current : List String) (bytes : ℕ)
      → IsOpen (current, bytes)
      → IsChunking parts (current ++ parts) (chunks line parts (current, bytes))
  unfolding chunks empty_bytes separator_bytes
  chunks-IsChunking [] [] bytes o = record { within = tt; ending = inl (refl, refl) }
  chunks-IsChunking [] (x ∷ xs) bytes o = record {
    within = ((refl, inl (subst (λ z. z ≤ chunk_target_bytes) o.0 (ground (arith, o.1)))), tt);
    ending = inl (refl, refl);
  }
  chunks-IsChunking (part ∷ parts) current bytes o =
      elim (Bool-cases (ltb hard_limit_bytes (empty_bytes line + byte_length part))) [
        | inl large ↦ rw large (record {
          within = tt;
          ending = inr (part, head refl, ground (arith, large, grows [] part), refl);
        })
        | inr small ↦
            let step = take_part-IsFlushed part current bytes o (ground (arith, small)) in
            let t = take_part line part (current, bytes) in
            let rest = chunks-IsChunking parts t.1.0 t.1.1 step.left in
            let later = chunks line parts t.1 in
            rw small (record {
              within = All-append IsChunk t.0 later.0 step.sent rest.within;
              ending = elim rest.ending [
                | inl (returned, whole) ↦ inl (
                  returned,
                  flat-append t.0 later.0
                      ∙ ap (λ z. flat t.0 ++ z) whole
                      ∙ sym (append_assoc (flat t.0) t.1.0 parts)
                      ∙ ap (λ z. z ++ parts) step.kept
                      ∙ append_assoc current (part ∷ []) parts,
                )
                | inr (bad, listed, large, failed) ↦ inr (bad, tail listed, large, failed)
              ];
            })
      ]

  -- The chunking of a list of parts into lines that grow with each part by its bytes and a comma, as
  -- those of events and of catalog entries do. Each line that is sent holds a part, and is within the
  -- target, or holds one part and is within the hard limit. When nothing is thrown, the lines hold the
  -- parts, each once and in their order; it is thrown only because of a part whose line alone exceeds
  -- the hard limit.
  pub chunks-IsComplete :
      (parts : List String)
      → All IsChunk (chunks line parts ([], empty_bytes line)).0
        × (((chunks line parts ([], empty_bytes line)).1 ≡ ok tt)
              × (flat (chunks line parts ([], empty_bytes line)).0 ≡ parts)
            ⊎ ((part : String) × Memᴰ part parts
                × (hard_limit_bytes < byte_length (line (part ∷ [])))
                × ((chunks line parts ([], empty_bytes line)).1 ≡ thrown other_error)))
  unfolding empty_bytes
  chunks-IsComplete parts =
      let all' = chunks-IsChunking parts [] (empty_bytes line) (refl, inl refl) in
      (all'.within, all'.ending)
