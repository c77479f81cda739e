-- ===== src/Config.antt =====
-- internal/config/config.go: the configuration of a worker, its checks and its repair.
-- The worker runs on Unix; the environment is a function from names to values, which are empty
-- where a variable is not set, and `scan_int` is `fmt.Sscanf` with %d.
pub mod Entries
pub mod Loading
pub mod Bounds
pub mod Loaded
use hive_worker.Base.{
  length, ◌*◌, ℕ, zero, suc, ◌+◌, ◌-◌, ◌≤◌, Text, Bool, true, false, not, ◌&&◌, ◌||◌, Option, none,
  some, List, [], ◌∷◌, ◌++◌, contains, text_eq, nat_eq, ◌==◌, if◌then◌else◌, Result, ok, err, ◌>>=◌,
  ◌>>◌, fail_if, leb,
}
use hive_worker.Go.Text.{codes, is_empty, trim_space, trim_right, split}
use hive_worker.Go.Int.{ℤ, pos, negsuc, leb_ℤ, pos_part, to_int64, int_eq}
use hive_worker.Go.Decimal.{itoa}
use hive_worker.Go.Net.{join_host_port}
use hive_worker.Go.Ip.{is_ip}
use hive_worker.Go.Path.{clean}
use hive_worker.Allocation.{Allocation}

pub record PanelConfig : Type 0 where
  pub url : Text

pub record WorkerConfig : Type 0 where
  pub token : Text
  pub registration_token : Text
  pub listen : Text

pub record SftpConfig : Type 0 where
  pub enabled : Bool
  pub listen : Text
  pub public_fqdn : Text
  pub public_port : ℤ
  pub host_key_path : Text
  pub auth_timeout_seconds : ℤ

pub record NodeConfig : Type 0 where
  pub id : Text

pub record Paths : Type 0 where
  pub data_dir : Text
  pub instances : Text
  pub backups : Text
  pub backup_mounts : Text

pub record RuntimeConfig : Type 0 where
  pub runtime_type : Text

pub record DockerConfig : Type 0 where
  pub network : Text

pub record AllocationConfig : Type 0 where
  pub entries : List Allocation
  pub ip : Text
  pub ips : List Text
  pub port_start : ℤ
  pub port_end : ℤ

pub record Config : Type 0 where
  pub config_path : Text
  pub panel : PanelConfig
  pub worker : WorkerConfig
  pub sftp : SftpConfig
  pub node : NodeConfig
  pub paths : Paths
  pub runtime : RuntimeConfig
  pub docker : DockerConfig
  pub allocations : AllocationConfig

abbrev pub default_config_path : Text
default_config_path = codes "/etc/hivepanel/worker.yml"

abbrev pub default_sftp_host_key_path : Text
default_sftp_host_key_path = codes "/etc/hivepanel/keys/sftp_host_ed25519"

-- `Default`
unfoldable pub default_config : Config
default_config = record {
  config_path = [];
  panel = record { url = codes "http://localhost:8000" };
  worker = record {
    token = codes "super-secret-token";
    registration_token = [];
    listen = codes "0.0.0.0:8080";
  };
  sftp = record {
    enabled = true;
    listen = codes "0.0.0.0:2022";
    public_fqdn = [];
    public_port = pos 2022;
    host_key_path = default_sftp_host_key_path;
    auth_timeout_seconds = pos 10;
  };
  node = record { id = [] };
  paths = record {
    data_dir = codes "./data";
    instances = codes "./instances";
    backups = codes "./backups";
    backup_mounts = codes "./backup_mounts";
  };
  runtime = record { runtime_type = codes "process" };
  docker = record { network = codes "hivepanel" };
  allocations = record {
    entries = [];
    ip = codes "0.0.0.0";
    ips = [];
    port_start = pos 25565;
    port_end = pos 25600;
  };
}

unfoldable pub trim_slash : Text → Text
trim_slash value = trim_right (λ c. c == 47) value

-- The texts that are not empty without the spaces around them, trimmed.
unfoldable pub trimmed_non_empty : List Text → List Text
trimmed_non_empty [] = []
trimmed_non_empty (part ∷ rest) =
    let more = trimmed_non_empty rest in
    if is_empty (trim_space part) then more else trim_space part ∷ more

unfoldable pub split_comma_separated : Text → List Text
unfolding trimmed_non_empty
split_comma_separated value = trimmed_non_empty (split 44 value)

-- The last loop of `normaliseAllocationIPs`.
unfoldable pub distinct_ips : List Text → List Text → List Text
distinct_ips seen [] = []
distinct_ips seen (text ∷ rest) =
    let ip = trim_space text in
    let skip = distinct_ips seen rest in
    let keep = ip ∷ distinct_ips (ip ∷ seen) rest in
    if is_empty ip || contains ip seen then skip else keep

unfoldable pub normalise_allocation_ips : Text → List Text → List Text
unfolding distinct_ips trimmed_non_empty
normalise_allocation_ips primary configured =
    let values = trimmed_non_empty configured in
    let ip = trim_space primary in
    distinct_ips [] (if is_empty values && not (is_empty ip) then ip ∷ [] else values)

unfoldable pub deduplicate_from : List Text → List Allocation → List Allocation
deduplicate_from seen [] = []
deduplicate_from seen (a ∷ rest) =
    let item : Allocation = record a { ip = trim_space a.ip } in
    let key = join_host_port item.ip (itoa item.port) in
    let skip = deduplicate_from seen rest in
    let keep = item ∷ deduplicate_from (key ∷ seen) rest in
    if is_empty item.ip || not (leb_ℤ (pos 1) item.port) || not (leb_ℤ item.port (pos 65535))
    then skip
    else if contains key seen
    then skip
    else keep

unfoldable pub deduplicate_allocation_entries : List Allocation → List Allocation
unfolding deduplicate_from
deduplicate_allocation_entries = deduplicate_from []

-- `count` ports of a host from a first one on.
unfoldable pub ports_from : Text → ℕ → ℕ → List Allocation
ports_from ip first zero = []
ports_from ip first (suc count) =
    record { ip = ip; port = pos first } ∷ ports_from ip (first + 1) count

unfoldable pub all_ports : List Text → ℕ → ℕ → List Allocation
unfolding ports_from
all_ports [] first count = []
all_ports (ip ∷ rest) first count = ports_from ip first count ++ all_ports rest first count

-- The capacity of the slice that is made for a range of ports, an int of 64 bits, where it is made.
unfoldable pub entries_capacity : AllocationConfig → Option ℤ
entries_capacity cfg =
    let ips = normalise_allocation_ips (trim_space cfg.ip) cfg.ips in
    let first = pos_part cfg.port_start in
    let last = pos_part cfg.port_end in
    if not (is_empty cfg.entries) || is_empty ips
    then none
    else if not (leb_ℤ (pos 1) cfg.port_start) || not (leb_ℤ cfg.port_start cfg.port_end)
    then none
    else some (to_int64 (length ips * (last + 1 - first)))

-- The entries, where there is room for the slice; without room the source panics before.
unfoldable pub normalise_allocation_entries : AllocationConfig → List Allocation
unfolding all_ports
normalise_allocation_entries cfg =
    let ips = normalise_allocation_ips (trim_space cfg.ip) cfg.ips in
    let first = pos_part cfg.port_start in
    let last = pos_part cfg.port_end in
    if not (is_empty cfg.entries)
    then deduplicate_allocation_entries cfg.entries
    else if is_empty ips
    then []
    else if not (leb_ℤ (pos 1) cfg.port_start) || not (leb_ℤ cfg.port_start cfg.port_end)
    then []
    else deduplicate_allocation_entries (all_ports ips first (last + 1 - first))

-- The text after the last colon, if there is a colon.
unfoldable pub after_last_colon : Text → Option Text
after_last_colon [] = none
after_last_colon (c ∷ s) = elim (after_last_colon s) [
  | some rest ↦ some rest
  | none ↦ if c == b':' then some s else none
]

module _ (scan_int : Text → Option ℤ) where
  abbrev scanned_port : Option ℤ → ℤ → ℤ
  scanned_port none fallback = fallback
  scanned_port (some port) fallback =
      if not (leb_ℤ (pos 1) port) || not (leb_ℤ port (pos 65535)) then fallback else port

  abbrev port_of : Option Text → ℤ → ℤ
  port_of none fallback = fallback
  port_of (some text) fallback =
      if is_empty text then fallback else scanned_port (scan_int text) fallback

  unfoldable pub port_from_listen : Text → ℤ → ℤ
  unfolding after_last_colon
  port_from_listen value fallback = port_of (after_last_colon value) fallback

  unfoldable pub normalise : Config → Config
  normalise cfg =
      let listen = trim_space cfg.sftp.listen in
      let host_key_path = trim_space cfg.sftp.host_key_path in
      record cfg {
        panel = record { url = trim_slash (trim_space cfg.panel.url) };
        worker = record cfg.worker { listen = trim_space cfg.worker.listen };
        node = record { id = trim_space cfg.node.id };
        paths = record {
          data_dir = clean cfg.paths.data_dir;
          instances = clean cfg.paths.instances;
          backups = clean cfg.paths.backups;
          backup_mounts = clean cfg.paths.backup_mounts;
        };
        allocations = record {
          entries = normalise_allocation_entries cfg.allocations;
          ip = [];
          ips = [];
          port_start = pos 0;
          port_end = pos 0;
        };
        sftp = record cfg.sftp {
          listen = listen;
          public_fqdn = trim_space cfg.sftp.public_fqdn;
          public_port =
              if cfg.sftp.public_port == pos 0
              then port_from_listen listen (pos 2022)
              else cfg.sftp.public_port;
          host_key_path =
              if is_empty host_key_path then default_sftp_host_key_path else host_key_path;
          auth_timeout_seconds =
              if leb_ℤ cfg.sftp.auth_timeout_seconds (pos 0)
              then pos 10
              else cfg.sftp.auth_timeout_seconds;
        };
      }

pub data Error : Type 0 where
  required : Text → Error
  invalid_ip : Text → Error
  port_range : Text → Error
  duplicate : Text → Error
  public_port_range : Error

-- The loop over the entries of `validate`.
unfoldable pub validate_entries : List Text → List Allocation → Result Error (Unit {0})
validate_entries seen [] = ok tt
validate_entries seen (a ∷ rest) =
    let ip = trim_space a.ip in
    let key = join_host_port ip (itoa a.port) in
    let later = validate_entries (key ∷ seen) rest in
    if is_empty ip
    then err (required (codes "allocation IP"))
    else if not (ip == codes "0.0.0.0") && not (ip == codes "::") && not (is_ip ip)
    then err (invalid_ip ip)
    else if not (leb_ℤ (pos 1) a.port) || not (leb_ℤ a.port (pos 65535))
    then err (port_range ip)
    else if contains key seen
    then err (duplicate key)
    else later

-- The checks for SFTP.
unfoldable pub validate_sftp : Config → Result Error (Unit {0})
validate_sftp cfg = do
  fail_if (is_empty cfg.sftp.listen) (required (codes "sftp.listen"))
  fail_if (not (leb_ℤ (pos 1) cfg.sftp.public_port) || not (leb_ℤ cfg.sftp.public_port (pos 65535)))
      public_port_range
  fail_if (is_empty cfg.sftp.host_key_path) (required (codes "sftp.host_key_path"))
  fail_if (is_empty cfg.worker.token) (required (codes "worker.token"))
  fail_if (is_empty cfg.node.id) (required (codes "node.id"))

unfoldable pub validate : Config → Result Error (Unit {0})
unfolding validate_sftp
validate cfg = do
  fail_if (is_empty cfg.panel.url) (required (codes "panel.url"))
  fail_if (is_empty cfg.worker.listen) (required (codes "worker.listen"))
  fail_if (is_empty cfg.paths.instances || cfg.paths.instances == codes ".")
      (required (codes "paths.instances"))
  fail_if (is_empty cfg.allocations.entries) (required (codes "allocations.entries"))
  validate_entries [] cfg.allocations.entries
  (if cfg.sftp.enabled then validate_sftp cfg else ok tt)
