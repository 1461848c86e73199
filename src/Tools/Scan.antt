-- ===== src/Tools/Scan.antt =====
-- `extractFirstJSON`: the first text from a `{` to the `}` that closes it.
pub mod Laws
pub mod Objects
use krellin.Prelude.{
  ℕ, ◌+◌, ◌-◌, Bool, true, false, Option, none, some, List, [], ◌∷◌, ◌==◌, if◌then◌else◌, not,
}
use krellin.Prelude.Text.{Text, trim_space}

abbrev pub open_brace : ℕ
open_brace = 123

abbrev pub close_brace : ℕ
close_brace = 125

abbrev pub quote : ℕ
quote = 34

abbrev pub backslash : ℕ
backslash = 92

-- `text[strings.Index(text, "{"):]`
unfoldable pub from_brace : Text → Option Text
from_brace [] = none
from_brace (c ∷ s) = if c == open_brace then some (c ∷ s) else from_brace s

abbrev pub push : ℕ → Option Text → Option Text
push c none = none
push c (some s) = some (c ∷ s)

-- The loop: the depth, `inString`, `escape`, and what is still to be read. The result is what has
-- been read up to the brace that takes the depth to 0.
unfoldable pub scan : ℕ → Bool → Bool → Text → Option Text
scan depth in_string escape [] = none
scan depth true true (c ∷ s) = push c (scan depth true false s)
scan depth true false (c ∷ s) = push c (scan depth (not (c == quote)) (c == backslash) s)
scan depth false escape (c ∷ s) =
    let inner = push c (scan (depth - 1) false escape s) in
    let onward =
      push c (scan (if c == open_brace then depth + 1 else depth) (c == quote) escape s) in
    if c == close_brace then (if depth - 1 == 0 then some (c ∷ []) else inner) else onward

abbrev scanned : Option Text → Text
scanned none = []
scanned (some s) = trim_space s

abbrev scan_from : Option Text → Text
scan_from none = []
scan_from (some s) = scanned (scan 0 false false s)

-- The empty text is the answer where there is none.
unfoldable pub extract_first_json : Text → Text
unfolding from_brace
extract_first_json text = scan_from (from_brace text)
