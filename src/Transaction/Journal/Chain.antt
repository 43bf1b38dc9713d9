-- ===== src/Transaction/Journal/Chain.antt =====
-- Whatever a journal's file holds, what is read from it is a chain.
use dsh_session_maintenance.Prelude.{
  ℕ, suc, ◌+◌, ◌≡◌, refl, String, Bool, true, List, [], ◌∷◌, ◌++◌, Option, none, some, length,
  last?, arith, ok, inl, inr, Option-cases, nat_eq, string_eq, option_eq, eq_iff, subst,
  option_beq_iff,
}
use dsh_session_maintenance.Contracts.Transaction.{TransactionStep}
use dsh_session_maintenance.Domain.Text.{Text}
use dsh_session_maintenance.Transaction.Journal.{
  JournalEntryInput, next_entry, make_entry, hash_of, hash_entry, step_payload, is_next, read_lines,
  read_now, ends_with_newline, raw_lines,
}

module _ (sha256 : Text → String) where
  -- The steps carry the numbers from `n` on, each names the hash of the one before it (the first
  -- one `previous`), and each carries the hash of its own content.
  abbrev pub Linked : ℕ → Option String → List TransactionStep → Type 0
  Linked n previous [] = Unit
  Linked n previous (s ∷ rest) =
      (s.sequence ≡ n)
      × (s.previous_hash ≡ previous)
      × (s.entry_hash ≡ hash_entry sha256 (step_payload s))
      × Linked (suc n) (some s.entry_hash) rest

  abbrev pub IsChain : List TransactionStep → Type 0
  IsChain = Linked 0 none

  -- The hash that the next entry has to name.
  abbrev pub end_hash : Option String → List TransactionStep → Option String
  end_hash previous [] = previous
  end_hash previous (s ∷ rest) = end_hash (some s.entry_hash) rest

  pub hash_of-last :
      (s : TransactionStep) (rest : List TransactionStep)
      → hash_of (last? (s ∷ rest)) ≡ end_hash (some s.entry_hash) rest
  unfolding hash_of
  hash_of-last s [] = refl
  hash_of-last s (r ∷ rest) = hash_of-last r rest

  pub hash_of-last? : (es : List TransactionStep) → hash_of (last? es) ≡ end_hash none es
  unfolding hash_of
  hash_of-last? [] = refl
  hash_of-last? (s ∷ rest) = hash_of-last s rest

  pub Linked-concat :
      (n : ℕ) (previous : Option String) (es : List TransactionStep) (s : TransactionStep)
      → Linked n previous es
      → s.sequence ≡ n + length es
      → s.previous_hash ≡ end_hash previous es
      → s.entry_hash ≡ hash_entry sha256 (step_payload s)
      → Linked n previous (es ++ s ∷ [])
  Linked-concat n previous [] s l q p h = (omega arith, p, h, tt)
  Linked-concat n previous (e ∷ es) s l q p h =
      (l.0, l.1, l.2, Linked-concat (suc n) (some e.entry_hash) es s l.3 (omega arith) p h)

  pub next_entry-Linked :
      (es : List TransactionStep) (input : JournalEntryInput)
      → IsChain es
      → IsChain (es ++ next_entry sha256 es input ∷ [])
  unfolding next_entry make_entry step_payload
  next_entry-Linked es input c =
      Linked-concat 0 none es (next_entry sha256 es input) c (omega arith) (hash_of-last? es) refl

  is_next-IsChain :
      (es : List TransactionStep) (s : TransactionStep)
      → IsChain es
      → is_next sha256 es s ≡ true
      → IsChain (es ++ s ∷ [])
  unfolding is_next
  is_next-IsChain es s c h =
      Linked-concat 0 none es s c (ground arith)
        (ground (arith, option_beq_iff s.previous_hash (hash_of (last? es)), hash_of-last? es))
        (ground (arith, eq_iff s.entry_hash (hash_entry sha256 (step_payload s))))

  module _ (parse : Text → Option TransactionStep) where
    read_lines-IsChain :
        (ended : Bool) (acc : List TransactionStep) (lines : List Text) (es : List TransactionStep)
        → IsChain acc
        → read_lines sha256 parse ended acc lines ≡ ok es
        → IsChain es
    unfolding read_lines
    read_lines-IsChain ended acc [] es c h = subst IsChain (cc) c
    read_lines-IsChain ended acc ([] ∷ rest) es c h = read_lines-IsChain ended acc rest es c h
    read_lines-IsChain ended acc ((x ∷ xs) ∷ rest) es c h = elim (Option-cases (parse (x ∷ xs))) [
      | inl bad ↦ let same : acc ≡ es = ground arith in subst IsChain same c
      | inr (s, good) ↦
          read_lines-IsChain ended (acc ++ s ∷ []) rest es (is_next-IsChain acc s c (ground arith))
            (ground arith)
    ]

    -- Every successful read, of whatever text, gives a chain: numbered from 0 without a gap, each
    -- entry linked to the hash of the one before it and carrying the hash of its own content.
    pub read_now-IsChain :
        (text : Text) (es : List TransactionStep) → read_now sha256 parse text ≡ ok es → IsChain es
    unfolding read_now
    read_now-IsChain text es h =
        read_lines-IsChain (ends_with_newline text) [] (raw_lines text) es tt h
