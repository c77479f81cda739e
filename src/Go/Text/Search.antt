-- ===== src/Go/Text/Search.antt =====
-- `strings.Contains`
use hive_worker.Base.{Text, Bool, ◌||◌, [], ◌∷◌}
use hive_worker.Go.Text.{has_prefix, is_empty}

unfoldable pub contains_text : Text → Text → Bool
unfolding has_prefix
contains_text [] sub = is_empty sub
contains_text (c ∷ s) sub = has_prefix (c ∷ s) sub || contains_text s sub
