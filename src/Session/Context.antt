-- ===== src/Session/Context.antt =====
-- context.go: what a session keeps of a conversation, and what it reads off a request.
pub mod Window
use krellin.Prelude.{
  ℕ, zero, suc, ◌-◌, Bool, true, false, ◌&&◌, ◌||◌, List, [], ◌∷◌, ◌++◌, map, if◌then◌else◌, length,
  take, drop,
}
use krellin.Prelude.Text.{Text, codes, is_empty, has_prefix, contains, trim_space, join}
use krellin.Session.Prompts.{lines_text}

abbrev pub max_chat_turns : ℕ
max_chat_turns = 12

abbrev max_tool_summaries : ℕ
max_tool_summaries = 6

pub record ChatTurn : Type 0 where
  pub role : Text
  pub content : Text

pub record Context : Type 0 where
  pub chat_history : List ChatTurn
  pub tool_summaries : List Text

-- `s[len(s)-n:]` where `s` is longer than `n`
unfoldable pub keep_last {ℓ} : {A : Type ℓ} → ℕ → List A → List A
keep_last n xs = drop (length xs - n) xs

abbrev pub is_blank : Text → Bool
is_blank t = is_empty (trim_space t)

-- `AddChatTurn`
unfoldable pub add_chat_turn : ChatTurn → Context → Context
add_chat_turn turn c =
    if is_blank turn.content
    then c
    else record c { chat_history = keep_last max_chat_turns (c.chat_history ++ turn ∷ []) }

-- `AddToolResult`
unfoldable pub add_tool_result : Text → Context → Context
add_tool_result summary c = if is_blank summary then c else record c {
  tool_summaries = keep_last max_tool_summaries (c.tool_summaries ++ summary ∷ []);
}

unfoldable any_in : Text → List Text → Bool
any_in text [] = false
any_in text (word ∷ words) = contains text word || any_in text words

abbrev tool_verbs : List Text
tool_verbs =
    codes "write"
    ∷ codes "create"
    ∷ codes "edit"
    ∷ codes "modify"
    ∷ codes "update"
    ∷ codes "delete"
    ∷ codes "rename"
    ∷ codes "read"
    ∷ codes "open"
    ∷ codes "cat"
    ∷ codes "diff"
    ∷ codes "patch"
    ∷ codes "apply patch"
    ∷ []

abbrev write_verbs : List Text
write_verbs =
    codes "write"
    ∷ codes "create"
    ∷ codes "edit"
    ∷ codes "modify"
    ∷ codes "update"
    ∷ codes "delete"
    ∷ codes "rename"
    ∷ codes "patch"
    ∷ codes "apply patch"
    ∷ codes "add"
    ∷ codes "append"
    ∷ codes "extend"
    ∷ codes "expand"
    ∷ codes "continue"
    ∷ codes "insert"
    ∷ codes "replace"
    ∷ codes "change"
    ∷ codes "fix"
    ∷ []

abbrev objects : List Text
objects =
    codes "file"
    ∷ codes "directory"
    ∷ codes "folder"
    ∷ codes ".md"
    ∷ codes ".txt"
    ∷ codes ".go"
    ∷ codes ".js"
    ∷ codes ".ts"
    ∷ codes ".py"
    ∷ codes ".json"
    ∷ codes ".yaml"
    ∷ codes ".yml"
    ∷ []

-- `orDefault`
unfoldable pub or_default : Text → Text → Text
or_default val fallback = if is_blank val then fallback else val

-- An entry of a directory: its name, and whether it is a directory.
abbrev pub Entry : Type 0
Entry = Text × Bool

abbrev hidden : Entry → Bool
hidden (name, is_dir) = has_prefix (codes ".") name

abbrev shown_name : Entry → Text
shown_name (name, is_dir) = if is_dir then name ++ codes "/" else name

-- The loop of `topLevelTree` over the entries of `os.ReadDir`, with the number of names still to come.
unfoldable top_level_names : ℕ → List Entry → List Text
top_level_names room [] = []
top_level_names room (entry ∷ entries) = elim room [
  | zero ↦ []
  | suc less ↦ elim (hidden entry) [
    | true ↦ top_level_names (suc less) entries
    | false ↦ shown_name entry ∷ top_level_names less entries
  ]
]

-- `topLevelTree`; a directory that cannot be read has no entries here.
unfoldable top_level_tree : List Entry → Text
top_level_tree entries = join 32 (top_level_names 20 entries)

-- What `workspacePreamble` reads of the session and of the directory of the repository.
pub record Workspace : Type 0 where
  pub repo_root : Text
  pub image_digest : Text
  pub capsule_user : Text
  pub network_on : Bool
  pub entries : Text → List Entry

abbrev with_tree : Text → List Text
with_tree tree = if is_empty tree then [] else (codes "top_level: " ++ tree) ∷ []

-- `workspacePreamble`
unfoldable workspace_preamble : Workspace → Text
workspace_preamble w =
    let root = if is_empty w.repo_root then codes "." else w.repo_root in
    join 10 (
      (codes "repo_root: " ++ root)
      ∷ (codes "capsule_image: " ++ w.image_digest)
      ∷ (codes "capsule_user: " ++ or_default w.capsule_user (codes "default"))
      ∷ (codes "network: " ++ (if w.network_on then codes "true" else codes "false"))
      ∷ with_tree (top_level_tree (w.entries root)))

-- `strings.ToLower` and `strings.ToUpper` of the standard library
module _ (lower upper : Text → Text) where
  -- `requiresTools`
  unfoldable requires_tools : Text → Bool
  requires_tools content = any_in (lower content) tool_verbs && any_in (lower content) objects

  -- `requiresWrite`
  unfoldable requires_write : Text → Bool
  requires_write content = any_in (lower content) write_verbs && any_in (lower content) objects

  -- `requiresMultiStep`
  unfoldable requires_multi_step : Text → Bool
  requires_multi_step content = any_in (lower content) (codes " and then " ∷ codes " then " ∷ [])

  abbrev history_section : List ChatTurn → Text
  history_section [] = []
  history_section history = lines_text (
      codes "Conversation history:"
        ∷ map (λ turn. upper turn.role ++ codes ": " ++ turn.content) history
      ++ [] ∷ [])

  abbrev summary_section : List Text → Text
  summary_section [] = []
  summary_section summaries = lines_text (
      codes "Recent tool results (summary):" ∷ map (λ line. codes "- " ++ line) summaries
      ++ [] ∷ [])

  abbrev availability : List Text
  availability =
      codes "Tool availability:"
      ∷ codes "- You can use tools to read/write files and run shell commands inside the capsule."
      ∷ codes
          "- For any file or system changes, you must call tools rather than describing actions."
      ∷ []
      ∷ codes "User:"
      ∷ []

  -- `buildAgentPrompt`
  unfoldable build_agent_prompt : Workspace → Context → Text → Text
  build_agent_prompt w c content =
      codes "System context:"
      ++ 10 ∷ workspace_preamble w
      ++ 10 ∷ history_section c.chat_history
      ++ summary_section c.tool_summaries
      ++ lines_text availability
      ++ content
