-- ===== src/Tests/Stream.antt =====
-- Two catalog entries, which fit into one line.
use dsh_session_maintenance.Prelude.{
  ◌≡◌, ◌<◌, ◌⊎◌, refl, String, List, [], ◌∷◌, ok, thrown, other_error, All,
}
use mathlib.Core.List.{Memᴰ}
use dsh_session_maintenance.Projection.Stream.{
  byte_length, hard_limit_bytes, empty_bytes, chunks, chunk_catalog_sessions, catalog_sessions_line,
}
use dsh_session_maintenance.Projection.Stream.Bytes.{catalog_sessions_line-Grows}
use dsh_session_maintenance.Projection.Stream.Chunks.{IsChunk, flat, chunks-IsComplete}

abbrev parts : List String
parts = "{}" ∷ "[1]" ∷ []

one_line :
    chunk_catalog_sessions parts
    ≡ ("{\"type\":\"catalog-sessions\",\"sessions\":[{},[1]]}\n" ∷ [], ok tt)
unfolding chunk_catalog_sessions
one_line = refl

chunks-IsComplete_example :
    All
      (IsChunk catalog_sessions_line catalog_sessions_line-Grows)
      (chunks catalog_sessions_line parts ([], empty_bytes catalog_sessions_line)).0
    × (((chunks catalog_sessions_line parts ([], empty_bytes catalog_sessions_line)).1 ≡ ok tt)
          × (flat (chunks catalog_sessions_line parts ([], empty_bytes catalog_sessions_line)).0
              ≡ parts)
        ⊎ ((part : String) × Memᴰ part parts
            × (hard_limit_bytes < byte_length (catalog_sessions_line (part ∷ [])))
            × ((chunks catalog_sessions_line parts ([], empty_bytes catalog_sessions_line)).1
                ≡ thrown other_error)))
chunks-IsComplete_example =
    chunks-IsComplete catalog_sessions_line catalog_sessions_line-Grows parts
