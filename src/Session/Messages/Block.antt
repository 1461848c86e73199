-- ===== src/Session/Messages/Block.antt =====
-- `formatToolBlock`, `toolHeader` and `writePreview` of internal/session/agent_tools.go: what a user sees of a tool call.
use krellin.Prelude.{ℕ, Option, none, some, List, [], ◌∷◌, ◌++◌, ltb, if◌then◌else◌, length, take}
use krellin.Prelude.Text.{Text, codes, text_eq, is_empty, has_suffix, trim_space, split}
use krellin.Tools.Output.{itoa}
use krellin.Session.{ToolResult}
use krellin.Session.Toolbox.{ShellArgs}
use krellin.Session.Messages.{Labels, newline, unlines}

-- The bytes of the mark before a header, and of an ellipsis.
abbrev mark : Text
mark = 0xe2 ∷ 0x97 ∷ 0x86 ∷ 32 ∷ []

abbrev pub ellipsis : Text
ellipsis = 0xe2 ∷ 0x80 ∷ 0xa6 ∷ []

abbrev run_header : Option ShellArgs → Text
run_header none = codes "run shell command"
run_header (some args) =
    if is_empty (trim_space args.command)
    then codes "run shell command"
    else if is_empty args.cwd
    then codes "run " ++ args.command
    else codes "run " ++ (args.command ++ (codes "  (cwd: " ++ (args.cwd ++ codes ")")))

abbrev path_header : Text → Option Text → Text
path_header verb none = verb ++ codes " file"
path_header verb (some path) = if is_empty path then verb ++ codes " file" else verb ++ 32 ∷ path

abbrev search_header : (Text → Text) → Option (Text × Text) → Text
search_header quoted none = codes "search"
search_header quoted (some (pattern, path)) =
    if is_empty pattern
    then codes "search"
    else if is_empty path
    then codes "search " ++ quoted pattern
    else codes "search " ++ (quoted pattern ++ (codes " in " ++ path))

-- `toolHeader`; a tool that is not known has none
unfoldable tool_header : Labels → ToolResult → Text
tool_header labels res =
    if text_eq res.tool (codes "shell")
    then mark ++ run_header (labels.shell res.args)
    else if text_eq res.tool (codes "read_file")
    then mark ++ path_header (codes "read") (labels.path res.args)
    else if text_eq res.tool (codes "write_file")
    then mark ++ path_header (codes "write") (labels.path res.args)
    else if text_eq res.tool (codes "list_files")
    then mark ++ codes "list files"
    else if text_eq res.tool (codes "search")
    then mark ++ search_header labels.quoted (labels.search res.args)
    else if text_eq res.tool (codes "apply_patch")
    then mark ++ codes "apply patch"
    else []

abbrev pub max_preview_lines : ℕ
max_preview_lines = 6

-- A line of the preview, cut at 200 bytes.
unfoldable pub preview_line : Text → Text
preview_line line =
    codes "    " ++ (if ltb 200 (length line) then take 200 line ++ ellipsis else line)

unfoldable pub shown_lines : List Text → List Text
shown_lines lines =
    if ltb max_preview_lines (length lines)
    then take max_preview_lines lines ++ ellipsis ∷ []
    else lines

unfoldable pub preview_lines : List Text → List Text
preview_lines [] = []
preview_lines (line ∷ lines) = preview_line line ∷ preview_lines lines

abbrev pub preview_of : Text → List Text
preview_of content =
    (codes "  wrote " ++ (itoa (length content) ++ codes " bytes"))
    ∷ codes "  preview:"
    ∷ preview_lines (shown_lines (split newline content))

abbrev content_preview : Text → Text
content_preview content =
    if is_empty (trim_space content) then codes "  wrote 0 bytes" else unlines (preview_of content)

abbrev pub preview_if : Option (Text × Text) → Text
preview_if none = []
preview_if (some (path, content)) = content_preview content

-- `writePreview`
unfoldable pub write_preview : Labels → Text → Text
unfolding shown_lines preview_lines unlines
write_preview labels args = preview_if (labels.written args)

-- A text ends with the end of a line.
abbrev ended : Text → Text
ended t = if has_suffix t (newline ∷ []) then t else t ++ newline ∷ []

abbrev preview_block : Labels → ToolResult → Text
preview_block labels res =
    let preview = write_preview labels res.args in
    if text_eq res.tool (codes "write_file")
    then (if is_empty preview then [] else ended preview)
    else []

abbrev error_block : ToolResult → Text
error_block res =
    if is_empty res.error then [] else codes "  error: " ++ (res.error ++ newline ∷ [])

unfoldable pub indented : List Text → List Text
indented [] = []
indented (line ∷ lines) = (codes "  " ++ line) ∷ indented lines

abbrev output_block : ToolResult → Text
output_block res =
    if is_empty (trim_space res.output) then [] else unlines (indented (split newline res.output))

abbrev block_of : Labels → ToolResult → Text → Text
block_of labels res [] = []
block_of labels res header =
    newline
    ∷ (header
        ++ newline ∷ newline ∷ (preview_block labels res ++ (error_block res ++ output_block res)))

-- `formatToolBlock`
unfoldable format_tool_block : Labels → ToolResult → Text
unfolding tool_header write_preview unlines indented
format_tool_block labels res = block_of labels res (tool_header labels res)
