-- ===== src/FilePath.antt =====
-- Slash-separated paths: `Clean` and `Join` of the Go packages path and path/filepath (on Unix),
-- which internal/policy, internal/patch, internal/repo and the agent tools call.
pub mod Laws
pub mod Under
pub mod Dir
use krellin.Prelude.{ℕ, Bool, true, false, ◌||◌, List, [], ◌∷◌, ◌++◌, if◌then◌else◌, reverse}
use krellin.Prelude.Text.{Text, codes, text_eq, is_empty, has_prefix, split, join}

abbrev pub slash : ℕ
slash = 47

abbrev pub dot : Text
dot = codes "."

abbrev pub dotdot : Text
dotdot = codes ".."

-- `..` at a stack whose top is at its head: a rooted path stays at the root, another one climbs.
climb : Bool → List Text → List Text
climb true [] = []
climb false [] = dotdot ∷ []
climb rooted (top ∷ below) = if text_eq top dotdot then dotdot ∷ top ∷ below else below

pub resolve_part : Bool → List Text → Text → List Text
resolve_part rooted stack part =
    if is_empty part || text_eq part dot
    then stack
    else if text_eq part dotdot
    then climb rooted stack
    else part ∷ stack

pub resolve_parts : Bool → List Text → List Text → List Text
resolve_parts rooted stack [] = stack
resolve_parts rooted stack (part ∷ parts) =
    resolve_parts rooted (resolve_part rooted stack part) parts

-- The parts that are left of a path.
unfoldable pub parts_of : Bool → Text → List Text
unfolding resolve_parts resolve_part climb text_eq is_empty split
parts_of rooted p = reverse (resolve_parts rooted [] (split slash p))

unfoldable pub render : Bool → List Text → Text
unfolding join
render true parts = slash ∷ join slash parts
render false [] = dot
render false (part ∷ parts) = join slash (part ∷ parts)

unfoldable pub is_rooted : Text → Bool
is_rooted p = has_prefix p (slash ∷ [])

-- `path.Clean(p)`
unfoldable pub clean : Text → Text
unfolding parts_of render join is_rooted has_prefix is_empty
clean p = if is_empty p then dot else render (is_rooted p) (parts_of (is_rooted p) p)

-- `path.Join(a, b)`: empty elements are left out.
unfoldable pub join_path : Text → Text → Text
unfolding clean
join_path a b = if is_empty a then (if is_empty b then [] else clean b) else clean (a ++ slash ∷ b)
