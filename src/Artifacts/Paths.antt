-- ===== src/Artifacts/Paths.antt =====
-- The path of a published response: the f-string of requests/raw_artifacts.py, and the pattern of
-- `CommittedRawReference.relative_path` in requests/production.py.
use Prim.Native.Char.{Char, code}
use Prim.Native.String.{[] as end, ◌∷◌ as cons, ◌++◌ as append, len, slice}
use text.Mathlib.Text.{starts_with}
use system_trade_with_llm_or.Prelude.{Bool, true, false, ◌&&◌, ◌||◌, ◌==◌, leb, String}

-- [A-Za-z0-9_-]
abbrev pub is_word : Char → Bool
is_word c =
    (leb 65 (code c) && leb (code c) 90)
    || (leb 97 (code c) && leb (code c) 122)
    || (leb 48 (code c) && leb (code c) 57)
    || (code c == 95)
    || (code c == 45)

-- [A-Za-z0-9_-]+$, where some of it has been `seen`
abbrev pub ends : Bool → String → Bool
ends seen end = seen
ends seen (cons c s) = is_word c && ends true s

-- [A-Za-z0-9_-]+/[A-Za-z0-9_-]+$
abbrev pub segments : Bool → String → Bool
segments seen end = false
segments seen (cons c s) =
    (is_word c && segments true s) || (seen && (code c == 47) && ends false s)

-- ^acquisitions/[A-Za-z0-9_-]+/[A-Za-z0-9_-]+$
unfoldable pub is_reference_path : String → Bool
is_reference_path path =
    starts_with path "acquisitions/" && segments false (slice path 13 (len path))

-- f"acquisitions/{request}/{attempt}"
abbrev pub acquisition_path : String → String → String
acquisition_path request attempt = append "acquisitions/" (append request (append "/" attempt))
