-- ===== src/Go/Path/Abs.antt =====
-- Absolute paths from an absolute working directory.
use hive_worker.Base.{Text, ◌≡◌, refl, ◌∙◌, true, arith}
use hive_worker.Go.Path.{is_rooted, components, clean, join_paths, abs}
use hive_worker.Go.Path.Components.{clean_rooted, absolute-join, is_rooted-absolute, is_rooted-join}

clean-is_rooted : (s : Text) → is_rooted s ≡ true → is_rooted (clean s) ≡ true
clean-is_rooted s h = rw (clean_rooted s h) (is_rooted-absolute (components s))

pub abs_rooted :
    (working_directory s : Text)
    → is_rooted working_directory ≡ true
    → is_rooted (abs working_directory s) ≡ true
unfolding abs
abs_rooted working_directory s h =
    ground (arith, clean-is_rooted s, is_rooted-join working_directory s h)

abs-clean : (working_directory s : Text) → is_rooted s ≡ true → abs working_directory s ≡ clean s
unfolding abs
abs-clean working_directory s h = rw h refl

-- A path joined to an absolute one is absolute and clean already.
pub abs-join :
    (working_directory a b : Text)
    → is_rooted a ≡ true
    → abs working_directory (join_paths a b) ≡ join_paths a b
abs-join working_directory a b h =
    abs-clean working_directory (join_paths a b) (is_rooted-join a b h)
    ∙ (clean_rooted (join_paths a b) (is_rooted-join a b h) ∙ absolute-join a b h)
