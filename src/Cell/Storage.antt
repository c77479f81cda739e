-- ===== src/Cell/Storage.antt =====
-- internal/cell/storage.go, update.go and manager.go: what the creating, changing, deleting and loading
-- of cells share. `configs` is the directory of the stored cells, from a file's name to its bytes, of
-- whatever type the JSON encoder of a cell, which is a parameter, gives them.
use hive_worker.Base.{Text, List, [], ◌∷◌, ◌++◌, Dict, insert, text_eq, Result, ok, err}
use hive_worker.Go.Text.{codes}
use hive_worker.Go.Path.{join_paths}
use hive_worker.Allocation
use hive_worker.Allocation.{Allocation, release, reserve_existing, replace_reservations}
use hive_worker.Cell.{Cell, Manager, Error, disk_failure}
use hive_worker.Cell.Request.{}

-- The manager, the directory of the stored cells, and the cells' own directories that there are.
pub record World (Bytes : Type 0) : Type 0 where
  pub manager : Manager
  pub configs : Dict Text Bytes
  pub directories : List Text

-- How `save` ends: the file is written, was not touched, or is left with other bytes.
pub data Saving (Bytes : Type 0) : Type 0 where
  written : Saving Bytes
  untouched : Saving Bytes
  spoilt : Bytes → Saving Bytes

pub data Stat : Type 0 where
  missing : Stat
  exists : Stat
  unknown : Stat

unfoldable pub cell_data_dir : Manager → Text
cell_data_dir m = join_paths m.data_dir (codes "cells")

-- The name of the file in that directory, for `cellConfigPath`.
abbrev pub config_name : Text → Text
config_name id = id ++ codes ".json"

unfoldable pub cell_config_path : Text → Manager → Text
unfolding cell_data_dir
cell_config_path id m = join_paths (cell_data_dir m) (config_name id)

unfoldable pub release_all : List Allocation → Allocation.Manager → Allocation.Manager
release_all [] a = a
release_all (item ∷ rest) a = release_all rest (release item a)

unfoldable pub release_cell_allocations : Cell → Manager → Manager
unfolding release_all
release_cell_allocations cell m = record m {
  alloc_manager = release_all cell.additional_allocations (release cell.allocation m.alloc_manager);
}

unfoldable pub reserve_each : List Allocation → Allocation.Manager → Allocation.Manager
reserve_each [] a = a
reserve_each (item ∷ rest) a = reserve_each rest (reserve_existing item a)

unfoldable pub reserve_cell_allocations : Cell → Manager → Manager
unfolding reserve_each
reserve_cell_allocations cell m = record m {
  alloc_manager =
      reserve_each cell.additional_allocations (reserve_existing cell.allocation m.alloc_manager);
}

module _ {Bytes : Type 0} (marshal : Cell → Bytes) where
  -- `save`
  unfoldable pub save :
      Cell → Saving Bytes → Dict Text Bytes → Dict Text Bytes × Result Error (Unit {0})
  save cell written configs = (insert (config_name cell.id) (marshal cell) configs, ok tt)
  save cell untouched configs = (configs, err disk_failure)
  save cell (spoilt text) configs = (insert (config_name cell.id) text configs, err disk_failure)
