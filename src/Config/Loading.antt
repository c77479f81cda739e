-- ===== src/Config/Loading.antt =====
-- internal/config/config.go: a configuration is read, overridden, registered and saved.
-- The YAML decoder, the environment, the panel's answer and what the disk does are parameters and
-- arguments; a panic of `Load` is an error.
use hive_worker.Base.{
  ℕ, Text, Bool, false, not, ◌&&◌, ◌||◌, Option, none, some, [], if◌then◌else◌, Result, ok, err,
  ◌>>=◌, ◌>>◌, fail_if, ltb, leb,
}
use hive_worker.Go.Text.{codes, is_empty}
use hive_worker.Go.Int.{ℤ}
use hive_worker.Config.{
  Config, Error, default_config, default_config_path, entries_capacity, split_comma_separated,
  normalise, validate,
}

-- Why a configuration cannot be loaded or saved.
pub data Failure : Type 0 where
  invalid : Error → Failure
  unreadable : Failure
  unparsable : Failure
  unreachable : Failure
  http_status : ℕ → Failure
  bad_response : Failure
  no_node_id : Failure
  no_token : Failure
  unwritable : Failure
  no_room : Failure

pub record RegistrationResponse : Type 0 where
  pub node_id : Text
  pub token : Text

-- The panel's answer: nothing, or a status with a body that may not decode.
pub data Answer : Type 0 where
  nothing : Answer
  answered : ℕ → Option RegistrationResponse → Answer

pub data Stored : Type 0 where
  absent : Stored
  failing : Stored
  holding : Text → Stored

abbrev checked : Result Error (Unit {0}) → Result Failure (Unit {0})
checked (ok _) = ok tt
checked (err e) = err (invalid e)

-- `has_room` tells of a capacity whether `make` gives such a slice; it panics where there is no room.
abbrev pub lacks_room : (ℤ → Bool) → Config → Bool
lacks_room has_room cfg = elim (entries_capacity cfg.allocations) [
  | none ↦ false
  | some capacity ↦ not (has_room capacity)
]

module _ (scan_int : Text → Option ℤ) (has_room : ℤ → Bool) where
  abbrev override : Text → (Text → Config → Config) → Config → Config
  override value set cfg = if is_empty value then cfg else set value cfg

  abbrev set_int : (ℤ → Config → Config) → Option ℤ → Config → Config
  set_int set none cfg = cfg
  set_int set (some n) cfg = set n cfg

  -- Each override of addresses drops the entries.
  unfoldable pub apply_environment_overrides : (Text → Text) → Config → Config
  apply_environment_overrides env c₀ =
      let c₁ =
        override (env (codes "HIVEPANEL_WORKER_TOKEN"))
          (λ v c. record c { worker = record c.worker { token = v } }) c₀ in
      let c₂ =
        override (env (codes "HIVEPANEL_PANEL_URL"))
          (λ v c. record c { panel = record { url = v } }) c₁ in
      let c₃ =
        override (env (codes "HIVEPANEL_NODE_ID")) (λ v c. record c { node = record { id = v } })
          c₂ in
      let c₄ =
        override (env (codes "HIVEPANEL_SFTP_LISTEN"))
          (λ v c. record c { sftp = record c.sftp { listen = v } }) c₃ in
      let c₅ =
        override (env (codes "HIVEPANEL_SFTP_HOST_KEY"))
          (λ v c. record c { sftp = record c.sftp { host_key_path = v } }) c₄ in
      let c₆ =
        override (env (codes "HIVEPANEL_ALLOCATION_IP"))
          (λ v c. record c { allocations = record c.allocations { ip = v; entries = [] } }) c₅ in
      let c₇ =
        override (env (codes "HIVEPANEL_ALLOCATION_IPS"))
          (λ v c. record c {
            allocations = record c.allocations { ips = split_comma_separated v; entries = [] };
          })
          c₆ in
      let c₈ =
        override (env (codes "HIVEPANEL_ALLOCATION_PORT_START"))
          (λ v.
            set_int
              (λ n c. record c {
                allocations = record c.allocations { port_start = n; entries = [] };
              })
              (scan_int v))
          c₇ in
      override (env (codes "HIVEPANEL_ALLOCATION_PORT_END"))
        (λ v.
          set_int
            (λ n c. record c { allocations = record c.allocations { port_end = n; entries = [] } })
            (scan_int v))
        c₈

  -- The configuration that `Save` writes, at its path.
  unfoldable pub save : Bool → Config → Result Failure Config
  save write_fails cfg =
      let placed =
        if is_empty cfg.config_path
        then record cfg { config_path = default_config_path }
        else cfg in
      let normal = normalise scan_int placed in
      do
        fail_if (lacks_room has_room placed) no_room
        checked (validate normal)
        fail_if write_fails unwritable
        ok normal

  abbrev pub decoded_response : Option RegistrationResponse → Result Failure RegistrationResponse
  decoded_response none = err bad_response
  decoded_response (some response) = ok response

  abbrev pub accepted : Answer → Result Failure RegistrationResponse
  accepted nothing = err unreachable
  accepted (answered status body) =
      if ltb status 200 || leb 300 status then err (http_status status) else decoded_response body

  -- The configuration after `RegisterWorker`, where it succeeds.
  unfoldable pub register_worker : Answer → Bool → Config → Result Failure Config
  register_worker answer write_fails cfg = do
    response ← accepted answer
    fail_if (is_empty response.node_id) no_node_id
    fail_if (is_empty response.token) no_token
    let registered : Config = record cfg {
      node = record { id = response.node_id };
      worker = record cfg.worker { token = response.token; registration_token = [] };
    }
    _ ← save write_fails registered
    ok registered

  abbrev pub read_config : (Text → Config → Option Config) → Config → Stored → Result Failure Config
  read_config unmarshal cfg absent = ok cfg
  read_config unmarshal cfg failing = err unreadable
  read_config unmarshal cfg (holding content) = elim (unmarshal content cfg) [
    | none ↦ err unparsable
    | some parsed ↦ ok parsed
  ]

  unfoldable pub load :
      (Text → Config → Option Config)
      → (Text → Text)
      → Text
      → Stored
      → Answer
      → Bool
      → Result Failure Config
  load unmarshal env path stored answer write_fails = do
    parsed ← read_config unmarshal (record default_config { config_path = path }) stored
    fail_if (lacks_room has_room (apply_environment_overrides env parsed)) no_room
    let cfg = normalise scan_int (apply_environment_overrides env parsed)
    registered ←
        (if not (is_empty cfg.worker.registration_token) && is_empty cfg.worker.token
          then register_worker answer write_fails cfg
          else ok cfg)
    checked (validate registered)
    ok registered
