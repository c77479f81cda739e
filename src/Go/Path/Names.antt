-- ===== src/Go/Path/Names.antt =====
-- `filepath.Base` and `filepath.Ext`: the last element of a path, and what follows its last dot.
use hive_worker.Base.{Text, not, ◌&&◌, [], ◌∷◌, contains, nat_eq, ◌==◌, if◌then◌else◌}
use hive_worker.Go.Text.{is_empty, trim_right}
use hive_worker.Go.Path.{slash, dot}

-- What follows the last slash.
unfoldable pub after_last_slash : Text → Text
after_last_slash [] = []
after_last_slash (c ∷ s) =
    if contains slash s then after_last_slash s else if c == slash then s else c ∷ s

unfoldable pub base_name : Text → Text
unfolding after_last_slash
base_name s =
    let t = trim_right (λ c. c == slash) s in
    if is_empty s then dot else if is_empty t then slash ∷ [] else after_last_slash t

-- The extension with its dot, or nothing.
unfoldable pub ext : Text → Text
ext [] = []
ext (c ∷ s) =
    let later = ext s in
    if not (is_empty later)
    then later
    else if c == b'.' && not (contains slash s)
    then c ∷ s
    else []
