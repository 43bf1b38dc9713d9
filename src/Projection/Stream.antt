-- ===== src/Projection/Stream.antt =====
-- packages/projection-lifecycle/src/runtime-stream.ts: events and catalog entries are sent in lines
-- of bounded size. The events and entries are given as their `JSON.stringify`, and the session by
-- its quoted ID. A generator's yields are a list, with the error that ends them if there is one.
pub mod Bytes
pub mod Chunks
use Prim.Native.Char.{code}
use Prim.Native.String as S
use dsh_session_maintenance.Prelude.{
  ℕ, ◌+◌, String, Bool, not, ◌&&◌, List, [], ◌∷◌, ◌++◌, map, is_empty, ltb, if◌then◌else◌, Outcome,
  ok, thrown, other_error,
}

-- The bytes of a code point in UTF-8.
unfoldable pub char_bytes : ℕ → ℕ
char_bytes c = if ltb c 0x80 then 1 else if ltb c 0x800 then 2 else if ltb c 0x10000 then 3 else 4

-- `Buffer.byteLength(text, "utf8")`
unfoldable pub byte_length : String → ℕ
unfolding char_bytes
byte_length S.[] = 0
byte_length (S.◌∷◌ c s) = char_bytes (code c) + byte_length s

-- `parts.join(",")`
unfoldable pub join : List String → String
join [] = ""
join (part ∷ []) = part
join (part ∷ next ∷ parts) = S.◌++◌ part (S.◌++◌ "," (join (next ∷ parts)))

unfoldable pub events_line : String → List String → String
unfolding join
events_line quoted_id events =
    S.◌++◌ (S.◌++◌ (S.◌++◌ "{\"type\":\"events\",\"nativeSessionId\":" quoted_id) ",\"events\":[")
      (S.◌++◌ (join events) "]}\n")

unfoldable pub catalog_sessions_line : List String → String
unfolding join
catalog_sessions_line sessions =
    S.◌++◌ "{\"type\":\"catalog-sessions\",\"sessions\":[" (S.◌++◌ (join sessions) "]}\n")

abbrev pub chunk_target_bytes : ℕ
chunk_target_bytes = 524288

abbrev pub hard_limit_bytes : ℕ
hard_limit_bytes = 8388608

-- The parts that wait for a line, and the bytes that they would take.
abbrev pub Waiting : Type 0
Waiting = List String × ℕ

-- `line` makes the line of its parts; the two generators differ in it alone.
module _ (line : List String → String) where
  unfoldable pub empty_bytes : ℕ
  unfolding byte_length
  empty_bytes = byte_length (line [])

  unfoldable pub separator_bytes : List String → ℕ
  separator_bytes current = if is_empty current then 0 else 1

  -- A part that does not fit ends the line before it.
  unfoldable pub flush_before : ℕ → Waiting → List (List String) × Waiting
  unfolding empty_bytes separator_bytes
  flush_before bytes (current, current_bytes) =
      if not (is_empty current)
        && ltb chunk_target_bytes (current_bytes + separator_bytes current + bytes)
      then (current ∷ [], ([], empty_bytes))
      else ([], (current, current_bytes))

  -- A line that is full is sent.
  unfoldable pub flush_full : Waiting → List (List String) × Waiting
  unfolding empty_bytes
  flush_full (current, current_bytes) =
      if ltb chunk_target_bytes current_bytes
      then (current ∷ [], ([], empty_bytes))
      else ([], (current, current_bytes))

  unfoldable pub push : String → Waiting → Waiting
  unfolding byte_length separator_bytes
  push part (current, current_bytes) =
      (current ++ part ∷ [], current_bytes + separator_bytes current + byte_length part)

  -- The body of the loop.
  unfoldable pub take_part : String → Waiting → List (List String) × Waiting
  unfolding flush_before push flush_full
  take_part part waiting =
      let (before, open') = flush_before (byte_length part) waiting in
      let (full, rest) = flush_full (push part open') in (before ++ full, rest)

  unfoldable pub chunks : List String → Waiting → List (List String) × Outcome (Unit {0})
  unfolding take_part empty_bytes
  chunks [] (current, current_bytes) = (if is_empty current then [] else current ∷ [], ok tt)
  chunks (part ∷ parts) waiting =
      let (sent, next) = take_part part waiting in
      let (later, result) = chunks parts next in
      if ltb hard_limit_bytes (empty_bytes + byte_length part)
      then ([], thrown other_error)
      else (sent ++ later, result)

  unfoldable pub chunk_lines : List String → List String × Outcome (Unit {0})
  unfolding chunks empty_bytes
  chunk_lines parts = let (sent, result) = chunks parts ([], empty_bytes) in (map line sent, result)

-- `chunkEvents`
unfoldable pub chunk_events : String → List String → List String × Outcome (Unit {0})
unfolding chunk_lines events_line
chunk_events quoted_id = chunk_lines (events_line quoted_id)

-- `chunkCatalogSessions`
unfoldable pub chunk_catalog_sessions : List String → List String × Outcome (Unit {0})
unfolding chunk_lines catalog_sessions_line
chunk_catalog_sessions = chunk_lines catalog_sessions_line
