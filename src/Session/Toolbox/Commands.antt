-- ===== src/Session/Toolbox/Commands.antt =====
-- `executeTool`: what the tools run, and what they give back.
use krellin.Prelude.{
  ◌≤◌, ◌≡◌, refl, sym, ap, ◌∙◌, inl, inr, Option, none, some, [], ◌++◌, append-nil, arith, length,
  Option-cases, if_both,
}
use krellin.Prelude.Text.{Text, codes, text_eq, is_empty}
use krellin.Prelude.Result.{Result, ok, err}
use krellin.Tools.Workspace.{IsInside, workspace, workspace_path, workspace_path-IsInside}
use krellin.Tools.Shell.{shell_quote, read_word, bare, read_word-shell_quote}
use krellin.Tools.Output.{truncate_output, length-truncate_at}
use krellin.Session.{ToolCall, ToolResult}
use krellin.Session.Context.{is_blank}
use krellin.Session.Toolbox.{
  Codec, Command, ShellArgs, ListArgs, SearchArgs, on_path, shell_command, read_command,
  write_file_command, list_command, search_command, patch_command, command_of, or_workspace,
}
use krellin.Session.Toolbox.Executed.{Executed, Session, execute_tool, run_in}

-- The directory of a command, where there is a command.
abbrev pub Placed : Result Text Command → Type 0
Placed (err e) = Unit
Placed (ok c) = IsInside c.cwd

workspace-Inside : IsInside workspace
workspace-Inside = workspace_path-IsInside [] workspace (unfold workspace_path is_empty in refl)

or_workspace-Inside : (path : Text) → IsInside (or_workspace (workspace_path path))
or_workspace-Inside path = elim (Option-cases (workspace_path path)) [
  | inl e ↦ rw (e, or_workspace) workspace-Inside
  | inr (r, e) ↦ rw (e, or_workspace) (workspace_path-IsInside path r e)
]

on_path-Placed : (path : Text) (text : Text → Text) → Placed (on_path path text)
on_path-Placed path text = elim (Option-cases (workspace_path path)) [
  | inl e ↦ rw (e, on_path, Placed) tt
  | inr (r, e) ↦ rw (e, on_path, Placed) workspace-Inside
]

shell-Placed : (args : Option ShellArgs) → Placed (shell_command args)
shell-Placed none = tt
shell-Placed (some args) =
    if_both Placed (is_blank args.command) _ _ (λ _. tt) (λ _. or_workspace-Inside args.cwd)

read-Placed : (args : Option Text) → Placed (read_command args)
read-Placed none = tt
read-Placed (some path) = if_both Placed (is_empty path) _ _ (λ _. tt) (λ _. on_path-Placed path _)

write-Placed :
    (base64 : Text → Text) (args : Option (Text × Text)) → Placed (write_file_command base64 args)
write-Placed base64 none = tt
write-Placed base64 (some (path, content)) =
    if_both Placed (is_empty path) _ _ (λ _. tt) (λ _. on_path-Placed path _)

list-Placed : (args : Option ListArgs) → Placed (list_command args)
list-Placed none = tt
list-Placed (some args) = on_path-Placed args.path _

search-Placed : (args : Option SearchArgs) → Placed (search_command args)
search-Placed none = tt
search-Placed (some args) =
    if_both Placed (is_empty args.pattern) _ _ (λ _. tt) (λ _. on_path-Placed args.path _)

patch-Placed : (args : Option Text) → Placed (patch_command args)
patch-Placed none = tt
patch-Placed (some patch) = if_both Placed (is_blank patch) _ _ (λ _. tt) (λ _. workspace-Inside)

-- Whatever an agent calls, with whatever arguments, a command is started in /workspace or below it.
pub command_of-Placed : (codec : Codec) (call : ToolCall) → Placed (command_of codec call)
unfolding command_of
command_of-Placed codec call =
    if_both Placed (text_eq call.tool (codes "shell")) _ _
      (λ _. shell-Placed (codec.shell_args call.args))
      (λ _.
        if_both Placed (text_eq call.tool (codes "read_file")) _ _
          (λ _. read-Placed (codec.read_args call.args))
          (λ _.
            if_both Placed (text_eq call.tool (codes "write_file")) _ _
              (λ _. write-Placed codec.base64 (codec.write_args call.args))
              (λ _.
                if_both Placed (text_eq call.tool (codes "list_files")) _ _
                  (λ _. list-Placed (codec.list_args call.args))
                  (λ _.
                    if_both Placed (text_eq call.tool (codes "search")) _ _
                      (λ _. search-Placed (codec.search_args call.args))
                      (λ _.
                        if_both Placed (text_eq call.tool (codes "apply_patch")) _ _
                          (λ _. patch-Placed (codec.patch_args call.args)) (λ _. tt))))))

-- The command is `cat` with one word, which is a path in the workspace.
abbrev pub ReadsInside : Result Text Command → Type 0
ReadsInside (err e) = Unit
ReadsInside (ok c) =
    (target : Text) × IsInside target
    × (c.text ≡ codes "cat " ++ shell_quote target)
    × (read_word bare (shell_quote target) ≡ some (target, []))

quoted-read : (s : Text) → read_word bare (shell_quote s) ≡ some (s, [])
quoted-read s =
    ap (read_word bare) (sym (append-nil (shell_quote s)))
    ∙ read_word-shell_quote s [] (unfold read_word in refl)

read-Inside : (args : Option Text) → ReadsInside (read_command args)
read-Inside none = tt
read-Inside (some path) =
    if_both ReadsInside (is_empty path) _ _ (λ _. tt)
      (λ _. elim (Option-cases (workspace_path path)) [
        | inl e ↦ rw (e, on_path, ReadsInside) tt
        | inr (r, e) ↦
            rw (e, on_path, ReadsInside) (r, workspace_path-IsInside path r e, refl, quoted-read r)
      ])

-- A `read_file` call, whatever its arguments, either runs nothing or runs `cat` on one word that a shell reads as a path
-- of the workspace with no dot-dot in it.
pub read_file-Inside :
    (codec : Codec) (args : Text)
    → ReadsInside (command_of codec (record { tool = codes "read_file"; args = args }))
unfolding command_of text_eq
read_file-Inside codec args = read-Inside (codec.read_args args)

module _ {S : Type 0} (codec : Codec) (exec : Option (Command → S → Executed × S)) where
  -- The result of a call.
  abbrev Kept : ToolCall → ToolResult × Session S → Type 0
  Kept call (res, s) = (res.tool ≡ call.tool) × (res.args ≡ call.args) × (length res.output ≤ 65551)

  run_in-Kept :
      (run : Command → S → Executed × S) (call : ToolCall) (command : Result Text Command)
      (s : Session S)
      → Kept call (run_in codec exec run call command s)
  run_in-Kept run call (err e) s = (refl, refl, ground arith)
  run_in-Kept run call (ok command) s = (
    refl,
    refl,
    unfold truncate_output in (length-truncate_at 65536 (run command s.capsule).0.output).0,
  )

  execute_tool_lem : (call : ToolCall) (s : Session S) → Kept call (execute_tool codec exec call s)
  unfolding execute_tool
  execute_tool_lem call s = elim (Option-cases exec) [
    | inl e ↦ rw (e, execute_tool, Kept) (refl, refl, ground arith)
    | inr (run, e) ↦ rw (e, execute_tool, Kept) (run_in-Kept run call (command_of codec call) s)
  ]

  -- Whatever the capsule answers, a tool's result names its call and keeps at most 65551 bytes of output.
  result-execute_tool :
      (call : ToolCall) (s : Session S)
      → ((execute_tool codec exec call s).0.tool ≡ call.tool)
        × ((execute_tool codec exec call s).0.args ≡ call.args)
        × (length (execute_tool codec exec call s).0.output ≤ 65551)
  result-execute_tool call s = execute_tool_lem call s
