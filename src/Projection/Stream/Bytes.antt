-- ===== src/Projection/Stream/Bytes.antt =====
-- The bytes of a line grow by those of each part and of a comma.
use Prim.Native.String as S
use text.Mathlib.TextLemmas.{nil-append, cons-append}
use dsh_session_maintenance.Prelude.{
  ◌+◌, ◌≡◌, String, List, [], ◌∷◌, ◌++◌, is_empty, if◌then◌else◌, arith,
}
use dsh_session_maintenance.Projection.Stream.{
  byte_length, join, separator_bytes, events_line, catalog_sessions_line,
}

pub byte_length-append : (s t : String) → byte_length (S.◌++◌ s t) ≡ byte_length s + byte_length t
unfolding byte_length
byte_length-append S.[] t = rw (nil-append t) (omega arith)
byte_length-append (S.◌∷◌ c s) t = rw (cons-append c s t) (omega (arith, byte_length-append s t))

byte_length-join :
    (parts : List String) (part : String)
    → byte_length (join (parts ++ part ∷ []))
      ≡ byte_length (join parts) + (if is_empty parts then 0 else 1) + byte_length part
unfolding join byte_length
byte_length-join [] part = omega arith
byte_length-join (x ∷ []) part =
    omega (arith, byte_length-append x (S.◌++◌ "," part), byte_length-append "," part)
byte_length-join (x ∷ y ∷ parts) part = omega (
  arith,
  byte_length-append x (S.◌++◌ "," (join (y ∷ parts ++ part ∷ []))),
  byte_length-append "," (join (y ∷ parts ++ part ∷ [])),
  byte_length-append x (S.◌++◌ "," (join (y ∷ parts))),
  byte_length-append "," (join (y ∷ parts)),
  byte_length-join (y ∷ parts) part,
)

-- One more part takes its own bytes, and one for the comma if it is not the first.
abbrev pub Grows : (List String → String) → Type 0
Grows line =
    (parts : List String) (part : String)
    → byte_length (line (parts ++ part ∷ []))
      ≡ byte_length (line parts) + separator_bytes line parts + byte_length part

Grows-joined : (start close : String) → Grows (λ parts. S.◌++◌ start (S.◌++◌ (join parts) close))
unfolding separator_bytes
Grows-joined start close parts part = omega (
  arith,
  byte_length-append start (S.◌++◌ (join (parts ++ part ∷ [])) close),
  byte_length-append (join (parts ++ part ∷ [])) close,
  byte_length-append start (S.◌++◌ (join parts) close),
  byte_length-append (join parts) close,
  byte_length-join parts part,
)

pub events_line-Grows : (quoted_id : String) → Grows (events_line quoted_id)
unfolding events_line separator_bytes
events_line-Grows quoted_id =
    Grows-joined
      (S.◌++◌ (S.◌++◌ "{\"type\":\"events\",\"nativeSessionId\":" quoted_id) ",\"events\":[") "]}\n"

pub catalog_sessions_line-Grows : Grows catalog_sessions_line
unfolding catalog_sessions_line separator_bytes
catalog_sessions_line-Grows = Grows-joined "{\"type\":\"catalog-sessions\",\"sessions\":[" "]}\n"
