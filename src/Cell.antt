-- ===== src/Cell.antt =====
-- internal/cell/cell.go: the cells of a worker and the state of their manager.
-- A `chan string` is a number that names an entry of `channels`; the manager's lock makes each
-- operation one step. What the runtime, the disk and the clock answer are arguments.
pub mod Channel
pub mod Console
pub mod Lock
pub mod Session
pub mod Request
pub mod Storage
pub mod Sync
pub mod Definition
pub mod Loading
pub mod Lifecycle
pub mod Restart
use hive_worker.Base.{ℕ, Text, Bool, false, Option, none, some, List, [], Dict, Result}
use hive_worker.Go.Int.{ℤ}
use hive_worker.Go.Json.{Fields}
use hive_worker.Allocation
use hive_worker.Allocation.{Allocation}

-- internal/runtime/runtime.go
pub record Limits : Type 0 where
  pub memory_mb : ℤ
  pub overhead_memory_mb : ℤ
  pub swap_mb : ℤ
  pub cpu_percent : ℤ
  pub cpu_pinning : Text
  pub disk_mb : ℤ
  pub io_weight : ℤ
  pub oom_killer : Bool

pub record FeatureLimits : Type 0 where
  pub database_limit : Option ℤ
  pub allocation_limit : Option ℤ
  pub backup_limit : Option ℤ
  pub backup_storage_mb : Option ℤ

pub record DockerConfig : Type 0 where
  pub image : Text

pub record StartupConfig : Type 0 where
  pub command : Text

pub record CellLock : Type 0 where
  pub locked : Bool
  pub lock_type : Text
  pub reason : Text
  pub message : Text
  pub disable_power : Bool
  pub disable_console : Bool
  pub disable_files : Bool
  pub disable_backups : Bool
  pub disable_settings : Bool
  pub disable_importer : Bool

-- The zero value of `CellLock`.
abbrev pub no_lock : CellLock
no_lock = record {
  locked = false;
  lock_type = [];
  reason = [];
  message = [];
  disable_power = false;
  disable_console = false;
  disable_files = false;
  disable_backups = false;
  disable_settings = false;
  disable_importer = false;
}

pub record Cell : Type 0 where
  pub id : Text
  pub name : Text
  pub dir : Text
  pub created_at : Text
  pub status : Text
  pub comb : Text
  pub comb_data : Option Fields
  pub variables : Dict Text Text
  pub allocation : Allocation
  pub additional_allocations : List Allocation
  pub limits : Limits
  pub feature_limits : FeatureLimits
  pub docker : DockerConfig
  pub startup : StartupConfig
  pub console : List Text
  pub subscribers : List ℕ
  pub lock : CellLock

-- A channel of strings: what is buffered, oldest first, and whether it was closed.
pub record Chan : Type 0 where
  pub buffer : List Text
  pub closed : Bool

pub record ConsoleSession : Type 0 where
  pub cell_id : Text
  pub expires_at : ℕ

-- `next_channel` is the name of the channel that `make` gives next.
pub record Manager : Type 0 where
  pub cells : Dict Text Cell
  pub data_dir : Text
  pub instances_dir : Text
  pub alloc_manager : Allocation.Manager
  pub console_sessions : Dict Text ConsoleSession
  pub channels : ℕ → Chan
  pub next_channel : ℕ

pub data Error : Type 0 where
  cell_not_found : Error
  cell_is_locked : Text → Error
  disk_failure : Error
  refused : Text → Error
