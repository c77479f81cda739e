-- ===== src/Go/Path.antt =====
-- The packages `path` and `path/filepath`, as they are on Unix, where `ToSlash` and `FromSlash`
-- change nothing. A cleaned path is the list of its components.
pub mod Components
pub mod Inside
pub mod Parent
pub mod Abs
pub mod Relative
pub mod Names
use hive_worker.Base.{
  ℕ, Text, Bool, true, false, ◌||◌, not, ◌&&◌, List, [], ◌∷◌, ◌++◌, ◌==◌, text_eq, if◌then◌else◌,
  contains, nat_eq, ◌≡◌,
}
use hive_worker.Go.Text.{codes, is_empty, has_prefix, split, join}

abbrev pub slash : ℕ
slash = 47

abbrev pub dot : Text
dot = codes "."

abbrev pub dot_dot : Text
dot_dot = codes ".."

unfoldable pub is_rooted : Text → Bool
unfolding has_prefix
is_rooted s = has_prefix s (codes "/")

-- What `..` does to the components that were written, the last one first.
abbrev pub back : Bool → List Text → List Text
back true [] = []
back true (top ∷ stack) = stack
back false [] = dot_dot ∷ []
back false (top ∷ stack) = if top == dot_dot then dot_dot ∷ top ∷ stack else stack

-- One part between two slashes.
abbrev pub visit : Bool → List Text → Text → List Text
visit rooted stack part =
    if is_empty part || part == dot
    then stack
    else if part == dot_dot
    then back rooted stack
    else part ∷ stack

unfoldable pub walk : Bool → List Text → List Text → List Text
walk rooted stack [] = stack
walk rooted stack (part ∷ parts) = walk rooted (visit rooted stack part) parts

-- The components of a stack in their order, before those of a list.
abbrev pub unwind : List Text → List Text → List Text
unwind [] parts = parts
unwind (top ∷ stack) parts = unwind stack (top ∷ parts)

unfoldable pub components : Text → List Text
unfolding walk split is_rooted
components s = unwind (walk (is_rooted s) [] (split slash s)) []

-- The absolute path with these components.
unfoldable pub absolute : List Text → Text
unfolding join
absolute parts = slash ∷ join (codes "/") parts

abbrev pub relative_text : List Text → Text
relative_text [] = dot
relative_text (part ∷ parts) = join (codes "/") (part ∷ parts)

-- `Clean`
unfoldable pub clean : Text → Text
unfolding components absolute
clean s = if is_rooted s then absolute (components s) else relative_text (components s)

-- `filepath.Join` of two paths
unfoldable pub join_paths : Text → Text → Text
unfolding clean
join_paths a b =
    if is_empty a then (if is_empty b then [] else clean b) else clean (a ++ (slash ∷ b))

-- `filepath.Abs`, in a working directory.
unfoldable pub abs : Text → Text → Text
unfolding join_paths
abs working_directory s = if is_rooted s then clean s else join_paths working_directory s

abbrev pub ups : List Text → List Text
ups [] = []
ups (_ ∷ parts) = dot_dot ∷ ups parts

abbrev pub rel_parts : List Text → List Text → List Text
rel_parts [] target = target
rel_parts (b ∷ base) [] = dot_dot ∷ ups base
rel_parts (b ∷ base) (t ∷ target) =
    let deeper = rel_parts base target in
    if b == t then deeper else dot_dot ∷ (ups base ++ (t ∷ target))

-- `filepath.Rel` of two absolute paths, for which it has no error.
unfoldable pub rel : Text → Text → Text
unfolding components
rel base target = relative_text (rel_parts (components base) (components target))

-- The test that the worker makes on a relative path before it uses the target.
unfoldable pub is_outside : Text → Bool
is_outside relative = relative == dot_dot || has_prefix relative (codes "../")

-- A path up to its last slash, with it.
unfoldable pub up_to_slash : Text → Text
up_to_slash [] = []
up_to_slash (c ∷ s) =
    let rest = up_to_slash s in
    if not (is_empty rest) then c ∷ rest else if c == slash then c ∷ [] else []

-- `filepath.Dir`
unfoldable pub dir : Text → Text
unfolding up_to_slash
dir s = clean (up_to_slash s)
