-- ===== src/Session/Decoding.antt =====
-- The texts that an agent answers in internal/session/agent_tools.go: `normalizeAgentResponse` and `decodeFirstJSON`.
use krellin.Prelude.{
  Bool, true, false, ◌||◌, Option, none, some, [], ◌∷◌, ◌++◌, ◌==◌, if◌then◌else◌,
}
use krellin.Prelude.Text.{Text, codes, is_empty, has_prefix, trim_prefix, trim_space}
use krellin.Tools.Scan.{open_brace, close_brace, quote}

-- `strings.LastIndex(s, p)` for a `p` that is not empty: what stands before the last `p`, if there is one
unfoldable pub before_last : Text → Text → Option Text
before_last p [] = none
before_last p (c ∷ s) =
    let later = before_last p s in
    elim later [ some t ↦ some (c ∷ t) | none ↦ if has_prefix (c ∷ s) p then some [] else none ]

abbrev fence : Text
fence = codes "```"

abbrev up_to_fence : Text → Option Text → Text
up_to_fence s none = s
up_to_fence s (some t) = t

-- The text in a fenced block.
unfoldable pub unfenced : Text → Text
unfolding before_last
unfenced resp =
    let inner =
      trim_space
        (trim_prefix (trim_prefix (trim_prefix resp fence) (codes "json")) (codes "JSON")) in
    trim_space (up_to_fence inner (before_last fence inner))

-- A bare pair of `final` is wrapped.
unfoldable pub wrapped : Text → Text
wrapped resp =
    if has_prefix resp (quote ∷ (codes "final" ++ quote ∷ [])) || has_prefix resp (codes "final")
    then (if has_prefix resp (codes "{") then resp else open_brace ∷ (resp ++ close_brace ∷ []))
    else resp

-- `normalizeAgentResponse`
unfoldable pub normalize_agent_response : Text → Text
unfolding unfenced wrapped
normalize_agent_response text =
    let resp = trim_space text in
    if is_empty resp then resp else wrapped (if has_prefix resp fence then unfenced resp else resp)

-- Decodes the value at the beginning of a text into a value that is there: whether it could, and what is there then.
abbrev pub Decode : Type 0 → Type 0
Decode D = Text → D → Bool × D

-- `decodeFirstJSON`
unfoldable pub decode_first_json : {D : Type 0} → Decode D → Text → D → Bool × D
decode_first_json decode [] d = (false, d)
decode_first_json decode (c ∷ t) d = elim (c == open_brace) [
  | true ↦
      let (found, d₁) = decode (c ∷ t) d in
      elim found [ true ↦ (true, d₁) | false ↦ decode_first_json decode t d₁ ]
  | false ↦ decode_first_json decode t d
]
