-- ===== src/Agents/Files.antt =====
-- The files of internal/agents/store.go and selection.go, and the endpoint that checker.go looks for. The files, the
-- JSON library, the parser of URLs, the network and `strings.ToLower` are parameters.
use krellin.Prelude.{
  Bool, true, false, Option, none, some, List, [], ◌++◌, ◌≡◌, ◌≢◌, inl, inr, sym, ap, ◌∙◌,
  if◌then◌else◌,
}
use krellin.Prelude.Text.{Text, codes, text_eq, is_empty, contains}
use krellin.Prelude.Result.{Result, ok, err, Result-cases}
use krellin.Config.Files.{FileRead, contents, missing, broken}
use krellin.FilePath.{join_path}
use krellin.FilePath.Dir.{dir_of}
use krellin.Agents.{Provider, upsert, default_base_url}

pub record Files (S : Type 0) : Type 0 where
  pub make_dirs : Text → S → Option Text × S
  pub read_file : Text → S → FileRead
  pub write_file : Text → Text → S → Option Text × S

module _ {S A : Type 0} (files : Files S) (unmarshal : Text → Result Text A)
    (marshal : A → Result Text Text) (empty : A) where
  abbrev decoded : FileRead → Result Text A
  decoded missing = ok empty
  decoded (broken e) = err e
  decoded (contents data_) = unmarshal data_

  -- `Load`, of providers and of the selection
  unfoldable load_stored : Text → S → Result Text A
  load_stored path s = decoded (files.read_file path s)

  abbrev printed : Text → Result Text Text → S → Option Text × S
  printed path (err e) s = (some e, s)
  printed path (ok data_) s = files.write_file path data_ s

  abbrev with_dirs : Text → A → Option Text × S → Option Text × S
  with_dirs path a (some e, s) = (some e, s)
  with_dirs path a (none, s) = printed path (marshal a) s

  -- `Save`, of providers and of the selection
  unfoldable save_stored : Text → A → S → Option Text × S
  save_stored path a s = with_dirs path a (files.make_dirs (dir_of path) s)

  -- What is saved with no error is loaded again, where JSON reads what it has printed, and a file holds what was
  -- written to it.
  load_stored-save_stored :
      (path : Text) (a : A) (s after : S)
      → ((t : Text) → marshal a ≡ ok t → unmarshal t ≡ ok a)
      → ((t : Text) (s₀ s₁ : S)
          → files.write_file path t s₀ ≡ (none, s₁)
          → files.read_file path s₁ ≡ contents t)
      → save_stored path a s ≡ (none, after)
      → load_stored path after ≡ ok a
  unfolding load_stored save_stored
  load_stored-save_stored path a s after reads holds h = go (files.make_dirs (dir_of path) s) h
    where
      failed : (e : Text) (s₀ : S) → ◌≢◌ {A = Option Text × S} (some e, s₀) (none, after)
      failed e s₀ k = let is : some e ≡ none = ap (λ r. r.0) k in cc

      go :
          (r : Option Text × S)
          → with_dirs path a r ≡ (none, after)
          → decoded (files.read_file path after) ≡ ok a
      go (some e, s₀) k = absurd (failed e s₀ k)
      go (none, s₀) k = elim (Result-cases (marshal a)) [
        | inl (t, e) ↦
            ap decoded (holds t s₀ after (sym (ap (λ r. printed path r s₀) e) ∙ k)) ∙ reads t e
        | inr (x, e) ↦ absurd (failed x s₀ (sym (ap (λ r. printed path r s₀) e) ∙ k))
      ]

abbrev home_of : Text → Text → Text
home_of krellin_home home =
    if is_empty krellin_home then join_path home (codes ".krellin") else krellin_home

-- `DefaultPath` and `DefaultSelectionPath`, for the value of KRELLIN_HOME and the home directory of the user
unfoldable default_path : Text → Text → Text
default_path krellin_home home = join_path (home_of krellin_home home) (codes "providers.json")

unfoldable default_selection_path : Text → Text → Text
default_selection_path krellin_home home =
    join_path (home_of krellin_home home) (codes "agents.json")

-- The selection is the name of a provider.
unfoldable load_selection :
    {S : Type 0}
    → Files S
    → (Text → Result Text Text)
    → (Text → Result Text Text)
    → Text
    → S
    → Result Text Text
load_selection files unmarshal marshal path s = load_stored files unmarshal marshal [] path s

unfoldable save_selection :
    {S : Type 0}
    → Files S
    → (Text → Result Text Text)
    → (Text → Result Text Text)
    → Text
    → Text
    → S
    → Option Text × S
save_selection files unmarshal marshal path active s =
    save_stored files unmarshal marshal [] path active s

-- `Upsert`
unfoldable upsert_stored :
    {S : Type 0}
    → Files S
    → (Text → Result Text (List Provider))
    → (List Provider → Result Text Text)
    → Text
    → Provider
    → S
    → Option Text × S
unfolding load_stored save_stored
upsert_stored files unmarshal marshal path p s =
    elim (load_stored files unmarshal marshal [] path s) [
      | err e ↦ (some e, s)
      | ok providers ↦ save_stored files unmarshal marshal [] path (upsert p providers) s
    ]

module _ {S : Type 0} (parse_url : Text → Option (Text × Text)) (lower : Text → Text)
    (dial : Text → S → Bool × S) where
  -- The host with a port.
  abbrev with_port : Text → Text → Text
  with_port scheme host =
      if contains host (codes ":")
      then host
      else if text_eq (lower scheme) (codes "http")
      then host ++ codes ":80"
      else host ++ codes ":443"

  abbrev reached : Bool × S → Text × S
  reached (true, s) = (codes "ready", s)
  reached (false, s) = (codes "unreachable", s)

  abbrev looked_for : Option (Text × Text) → S → Text × S
  looked_for none s = (codes "unreachable", s)
  looked_for (some (scheme, host)) s =
      if is_empty host then (codes "unreachable", s) else reached (dial (with_port scheme host) s)

  abbrev endpoint_of : Provider → Text
  endpoint_of provider =
      if is_empty provider.base_url then default_base_url provider.kind else provider.base_url

  -- `DefaultChecker.Check`, for the scheme and the host of a URL that can be parsed
  unfoldable check : Provider → S → Text × S
  check provider s =
      if is_empty (endpoint_of provider)
      then (codes "ready", s)
      else looked_for (parse_url (endpoint_of provider)) s
