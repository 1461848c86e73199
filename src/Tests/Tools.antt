-- ===== src/Tests/Tools.antt =====
-- The tools of agents on concrete texts.
use krellin.Prelude.{◌≡◌, refl, some, [], ◌∷◌, ◌++◌, arith}
use krellin.Prelude.Text.{Text, codes}
use krellin.FilePath.{render, clean, join_path, parts_of, is_rooted}
use krellin.Tools.Workspace.{workspace_path, IsInside, workspace_path-IsInside}
use krellin.Tools.Shell.{shell_quote, read_word, bare, read_word-shell_quote}
use krellin.Tools.Scan.{extract_first_json}
use krellin.Tools.Scan.Objects.{
  Items, nil, cons, string, object, escaped, print_object, extract_first_json-print_object,
}

climbing : workspace_path (codes "src/../a") ≡ some (codes "/workspace/a")
unfolding workspace_path is_rooted join_path clean parts_of render
climbing = refl

workspace_path-IsInside_example : IsInside (codes "/workspace/a")
workspace_path-IsInside_example =
    workspace_path-IsInside (codes "src/../a") (codes "/workspace/a") climbing

read_word-shell_quote_example :
    read_word bare (shell_quote (codes "it's $HOME") ++ codes " x")
    ≡ some (codes "it's $HOME", codes " x")
read_word-shell_quote_example =
    read_word-shell_quote (codes "it's $HOME") (codes " x") (unfold read_word in refl)

abbrev spoken : Text
spoken = codes "Sure: {} done"

abbrev items : Items
items = cons (string (escaped 34 ∷ [])) (cons (object nil) nil)

extract_first_json-print_object_example :
    extract_first_json (codes "ok" ++ (print_object items ++ codes "}")) ≡ print_object items
extract_first_json-print_object_example =
    extract_first_json-print_object (codes "ok") (codes "}") items (omega arith, (omega arith, tt))
