-- ===== src/Tests/Cell.antt =====
-- internal/cell: one cell, its console, its lock and its sessions.
use hive_worker.Base.{
  ℕ, ◌+◌, ◌≤◌, Text, ◌≡◌, refl, ◌&&◌, true, false, none, some, List, [], ◌∷◌, arith, lookup, map,
  ok, err, text_eq, nat_eq, leb, if◌then◌else◌, ◌==◌,
}
use hive_worker.Go.Text.{codes, is_empty}
use hive_worker.Go.Int.{pos}
use hive_worker.Cell.{Cell, Manager, no_lock, cell_is_locked}
use hive_worker.Cell.Channel.{new_chan}
use hive_worker.Cell.Console.{console}
use hive_worker.Cell.Console.Safety.{System, IsSafe, said, joined, left, deleted, run, run-IsSafe}
use hive_worker.Cell.Console.History.{console-run_said}
use hive_worker.Cell.Console.Subscriber.{Use, sent, received, Client}
use hive_worker.Cell.Lock.{power, ensure_allowed, lock_cell, fallback}
use hive_worker.Cell.Lock.Laws.{leaves, ensure_allowed-lock_cell}
use hive_worker.Cell.Session.{seconds, create_console_session, validate_console_session}
use hive_worker.Cell.Session.Laws.{Attempt, successes, successes-le-one, validate-create}

abbrev pub lobby : Cell
lobby = record {
  id = codes "a";
  name = codes "Lobby";
  dir = codes "/srv/a";
  created_at = codes "2024-01-01T00:00:00Z";
  status = codes "offline";
  comb = codes "paper";
  comb_data = none;
  variables = [];
  allocation = record { ip = codes "10.0.0.1"; port = pos 25565 };
  additional_allocations = [];
  limits = record {
    memory_mb = pos 1024;
    overhead_memory_mb = pos 0;
    swap_mb = pos 0;
    cpu_percent = pos 100;
    cpu_pinning = [];
    disk_mb = pos 0;
    io_weight = pos 0;
    oom_killer = false;
  };
  feature_limits = record {
    database_limit = none;
    allocation_limit = none;
    backup_limit = none;
    backup_storage_mb = none;
  };
  docker = record { image = [] };
  startup = record { command = [] };
  console = codes "old" ∷ [];
  subscribers = [];
  lock = no_lock;
}

abbrev pub manager : Manager
manager = record {
  cells = (codes "a", lobby) ∷ [];
  data_dir = codes "/data";
  instances_dir = codes "/srv";
  alloc_manager = record { allowed = []; used = [] };
  console_sessions = [];
  channels = λ _. new_chan;
  next_channel = 0;
}

found : lookup (codes "a") manager.cells ≡ some lobby
unfolding lookup text_eq
found = refl

abbrev system : System
system = record { manager = manager; held = [] }

not_held : (ch : ℕ) (id : Text) → lookup ch system.held ≡ some id → ⊥
unfolding lookup
not_held ch id e = ground arith

system-IsSafe : IsSafe system
unfolding lookup
system-IsSafe = record {
  registered = λ id cell ch e listed. ground arith;
  live = λ ch id e. absurd (not_held ch id e);
  made = λ ch id e. absurd (not_held ch id e);
}

run-IsSafe_example :
    let events =
      joined (codes "a") true ∷ said (codes "a") (codes "hi") ∷ deleted (codes "a") ∷ left 0 ∷ [] in
    (s : System) × (run events system ≡ some s) × IsSafe s
run-IsSafe_example =
    run-IsSafe
      (joined (codes "a") true ∷ said (codes "a") (codes "hi") ∷ deleted (codes "a") ∷ left 0 ∷ [])
      system system-IsSafe

console-run_said_example :
    (s : System) × (run (map (said (codes "a")) (codes "x" ∷ codes "y" ∷ [])) system ≡ some s)
    × (console (codes "a") s.manager ≡ ok (codes "old" ∷ codes "x" ∷ codes "y" ∷ []))
console-run_said_example =
    console-run_said system (codes "a") lobby (codes "x" ∷ codes "y" ∷ []) system-IsSafe found
      (omega arith)

abbrev client : Client
client = record { got = []; chan = record new_chan { buffer = codes "old" ∷ [] } }

abbrev uses : List Use
uses = sent (codes "x") ∷ received ∷ sent (codes "y") ∷ []

ensure_allowed-lock_cell_example :
    let id = codes "a" in
    let m = (lock_cell id (codes "maintenance") [] [] false manager).0 in
    ensure_allowed power id m ≡ (
      if id == id
      then (if leaves power (codes "maintenance")
          then ok tt
          else err (cell_is_locked (if is_empty {A = ℕ} [] then fallback power else [])))
      else ensure_allowed power id manager)
ensure_allowed-lock_cell_example =
    ensure_allowed-lock_cell power (codes "a") (codes "a") manager lobby found (codes "maintenance")
      [] [] false

abbrev attempt : Attempt
attempt = record { cell_id = codes "a"; token = codes "t"; now = 5 }

successes-le-one_example :
    successes
      (codes "t")
      (attempt ∷ attempt ∷ [])
      (create_console_session (codes "a") (codes "t") 0 manager).0
    ≤ 1
successes-le-one_example =
    successes-le-one (codes "t") (attempt ∷ attempt ∷ [])
      (create_console_session (codes "a") (codes "t") 0 manager).0

validate-create_example :
    (validate_console_session
      (codes "a")
      (codes "t")
      5
      (create_console_session (codes "a") (codes "t") 0 manager).0).1
    ≡ ((codes "a" == codes "a") && leb 5 (0 + seconds 30))
validate-create_example =
    validate-create (codes "a") (codes "t") 0 manager lobby found (codes "a") 5
