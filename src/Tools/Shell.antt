-- ===== src/Tools/Shell.antt =====
-- `shellQuote` and the way a POSIX shell reads the word back.
use krellin.Prelude.{
  ℕ, ◌≡◌, Bool, ◌||◌, Option, none, some, [], ◌∷◌, ◌++◌, ◌==◌, if◌then◌else◌, sym, ap, ◌∙◌,
  Bool-cases, inl, inr, ==_iff, append_assoc,
}
use krellin.Prelude.Text.{Text, is_empty}

abbrev quote : ℕ
quote = 39

abbrev double_quote : ℕ
double_quote = 34

abbrev space : ℕ
space = 32

-- `strings.ReplaceAll(s, "'", ...)`: a quote is closed, written in double quotes, and opened again.
unfoldable escape_quotes : Text → Text
escape_quotes [] = []
escape_quotes (c ∷ s) =
    if c == quote
    then quote ∷ double_quote ∷ quote ∷ double_quote ∷ quote ∷ escape_quotes s
    else c ∷ escape_quotes s

unfoldable pub shell_quote : Text → Text
unfolding escape_quotes is_empty
shell_quote s = if is_empty s then quote ∷ quote ∷ [] else quote ∷ (escape_quotes s ++ quote ∷ [])

-- How a shell reads one word: outside quotes, in single quotes, in double quotes. The reader is
-- strict: outside quotes it takes only quotes and the space that ends the word, and in double quotes
-- no character that a shell would expand.
pub data Mode : Type 0 where
  bare single double : Mode

abbrev push : ℕ → Option (Text × Text) → Option (Text × Text)
push c none = none
push c (some (w, rest)) = some (c ∷ w, rest)

abbrev is_expanded : ℕ → Bool
is_expanded c = c == b'$' || (c == 96 || c == 92)

unfoldable pub read_word : Mode → Text → Option (Text × Text)
read_word bare [] = some ([], [])
read_word single [] = none
read_word double [] = none
read_word bare (c ∷ s) =
    let quoted = read_word single s in
    let doubled = read_word double s in
    if c == quote
    then quoted
    else if c == double_quote
    then doubled
    else if c == space
    then some ([], c ∷ s)
    else none
read_word single (c ∷ s) =
    let closed = read_word bare s in
    let longer = push c (read_word single s) in if c == quote then closed else longer
read_word double (c ∷ s) =
    let closed = read_word bare s in
    let longer = push c (read_word double s) in
    if c == double_quote then closed else if is_expanded c then none else longer

read_word-escape_quotes :
    (s rest : Text)
    → read_word bare rest ≡ some ([], rest)
    → read_word single (escape_quotes s ++ quote ∷ rest) ≡ some (s, rest)
unfolding read_word escape_quotes
read_word-escape_quotes [] rest h = h
read_word-escape_quotes (c ∷ s) rest h =
    let ih = read_word-escape_quotes s rest h in
    elim (Bool-cases (c == quote)) [
      | inl e ↦ rw (e, ih) (ap (λ d. some (d ∷ s, rest)) (sym ((==_iff c quote).0 e)))
      | inr e ↦ rw (e, e, ih)
    ]

-- A shell reads a quoted text back as that text, whatever bytes it holds, and stops where it ends,
-- if what follows is the end or a space.
pub read_word-shell_quote :
    (s rest : Text)
    → read_word bare rest ≡ some ([], rest)
    → read_word bare (shell_quote s ++ rest) ≡ some (s, rest)
unfolding shell_quote read_word
read_word-shell_quote [] rest h = h
read_word-shell_quote (c ∷ s) rest h =
    ap (λ t. read_word single t) (append_assoc (escape_quotes (c ∷ s)) (quote ∷ []) rest)
    ∙ read_word-escape_quotes (c ∷ s) rest h
