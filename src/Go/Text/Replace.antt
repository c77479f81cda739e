-- ===== src/Go/Text/Replace.antt =====
-- `strings.ReplaceAll` of a text that is not empty.
use hive_worker.Base.{ℕ, zero, suc, ◌-◌, Text, [], ◌∷◌, ◌++◌, length, if◌then◌else◌}
use hive_worker.Go.Text.{has_prefix}

-- `skip` code points of a match are still to be left out.
replace_from : Text → Text → ℕ → Text → Text
replace_from old new skip [] = []
replace_from old new (suc skip) (c ∷ s) = replace_from old new skip s
replace_from old new zero (c ∷ s) =
    let kept = c ∷ replace_from old new zero s in
    let replaced = new ++ replace_from old new (length old - 1) s in
    if has_prefix (c ∷ s) old then replaced else kept

unfoldable pub replace_all : Text → Text → Text → Text
unfolding replace_from
replace_all s old new = replace_from old new 0 s
