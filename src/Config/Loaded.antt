-- ===== src/Config/Loaded.antt =====
-- internal/config/config.go: what holds of a configuration with which the worker starts.
use hive_worker.Base.{
  Text, ◌≡◌, ◌≢◌, sym, ◌∙◌, Bool, true, false, Option, List, [], ◌∷◌, All, arith, ok, Result-cases,
  Bool-cases, inl, inr, ◌⊎◌, text_eq,
}
use hive_worker.Go.Text.{codes, trim_space}
use hive_worker.Go.Int.{ℤ, pos, leb_ℤ}
use hive_worker.Go.Net.{join_host_port}
use hive_worker.Go.Decimal.{itoa}
use hive_worker.Go.Ip.{is_ip}
use hive_worker.Allocation.{Allocation, new_manager}
use hive_worker.Allocation.Normal.{IsNormal, IsNormalList, normalise_allocations_fixed}
use hive_worker.Config.{
  Config, default_config, normalise, validate, validate_entries, validate_sftp,
}
use hive_worker.Config.Entries.{normalise_allocation_entries-IsNormalList}
use hive_worker.Config.Loading.{
  Stored, Answer, load, read_config, apply_environment_overrides, register_worker,
}

abbrev pub IsHost : Allocation → Type 0
IsHost a = (a.ip ≡ codes "0.0.0.0") ⊎ ((a.ip ≡ codes "::") ⊎ (is_ip a.ip ≡ true))

validate_head :
    (seen : List Text) (a : Allocation) (rest : List Allocation)
    → trim_space a.ip ≡ a.ip
    → validate_entries seen (a ∷ rest) ≡ ok tt
    → IsHost a
unfolding validate_entries
validate_head seen a rest trimmed h = elim (text_eq.dec (trim_space a.ip) (codes "0.0.0.0")) [
  | yes any ↦ inl (sym trimmed ∙ any)
  | no other ↦ elim (text_eq.dec (trim_space a.ip) (codes "::")) [
    | yes any ↦ inr (inl (sym trimmed ∙ any))
    | no other' ↦ inr (inr (ground (arith, trimmed)))
  ]
]

validate_tail :
    (seen : List Text) (a : Allocation) (rest : List Allocation)
    → validate_entries seen (a ∷ rest) ≡ ok tt
    → validate_entries (join_host_port (trim_space a.ip) (itoa a.port) ∷ seen) rest ≡ ok tt
unfolding validate_entries
validate_tail seen a rest h = ground arith

validate_entries-IsHost :
    (seen : List Text) (xs : List Allocation)
    → All IsNormal xs
    → validate_entries seen xs ≡ ok tt
    → All IsHost xs
unfolding validate_entries
validate_entries-IsHost seen [] normal h = tt
validate_entries-IsHost seen (a ∷ rest) (n, normal) h =
    let key = join_host_port (trim_space a.ip) (itoa a.port) in
    let same = n.trimmed in
    (
      validate_head seen a rest same h,
      validate_entries-IsHost (key ∷ seen) rest normal (validate_tail seen a rest h),
    )

entries-normalise :
    (scan_int : Text → Option ℤ) (cfg : Config)
    → IsNormalList (normalise scan_int cfg).allocations.entries
unfolding normalise
entries-normalise scan_int cfg = normalise_allocation_entries-IsNormalList cfg.allocations

-- The SFTP server, if the configuration has one, has what it needs to start.
abbrev pub SftpIsReady : Config → Type 0
SftpIsReady c =
    (c.sftp.listen ≢ [])
    × (leb_ℤ (pos 1) c.sftp.public_port ≡ true)
    × (leb_ℤ c.sftp.public_port (pos 65535) ≡ true)
    × (c.sftp.host_key_path ≢ [])
    × (c.worker.token ≢ [])
    × (c.node.id ≢ [])

validate-entries_ne : (c : Config) → validate c ≡ ok tt → c.allocations.entries ≢ []
unfolding validate
validate-entries_ne c h none_left = ground arith

validate-entries :
    (c : Config) → validate c ≡ ok tt → validate_entries [] c.allocations.entries ≡ ok tt
unfolding validate
validate-entries c h = ground arith

validate-sftp : (c : Config) → validate c ≡ ok tt → c.sftp.enabled ≡ true → validate_sftp c ≡ ok tt
unfolding validate
validate-sftp c h on = ground arith

validate_sftp-ready : (c : Config) → validate_sftp c ≡ ok tt → SftpIsReady c
unfolding validate_sftp
validate_sftp-ready c h = (
  (λ e. ground arith),
  ground arith,
  ground arith,
  (λ e. ground arith),
  (λ e. ground arith),
  (λ e. ground arith),
)

validate-ready :
    (c : Config)
    → validate c ≡ ok tt
    → (c.allocations.entries ≢ [])
      × (validate_entries [] c.allocations.entries ≡ ok tt)
      × ((c.sftp.enabled ≡ false) ⊎ SftpIsReady c)
validate-ready c h = (
  (λ none_left. validate-entries_ne c h none_left),
  validate-entries c h,
  elim (Bool-cases c.sftp.enabled) [
    | inl on ↦ inr (validate_sftp-ready c (validate-sftp c h on))
    | inr off ↦ inl off
  ],
)

module _ (scan_int : Text → Option ℤ) (has_room : ℤ → Bool)
    (unmarshal : Text → Config → Option Config) (env : Text → Text) (path : Text) (stored : Stored)
    (answer : Answer) (write_fails : Bool) {cfg : Config}
    (loads : load scan_int has_room unmarshal env path stored answer write_fails ≡ ok cfg) where
  load-validate : validate cfg ≡ ok tt
  unfolding load register_worker
  load-validate = ground arith

  load-IsNormalList : IsNormalList cfg.allocations.entries
  unfolding load register_worker
  load-IsNormalList =
      elim (Result-cases (
        read_config scan_int has_room unmarshal (record default_config { config_path = path })
          stored)) [
            | inr (e, failed) ↦ absurd (ground arith)
            | inl (parsed, reads) ↦ ground (
              arith,
              entries-normalise scan_int (apply_environment_overrides scan_int has_room env parsed),
            )
          ]

  -- A configuration with which the worker starts has an address; each of its addresses is a trimmed
  -- IP host with a port from 1 to 65535, none is there twice, and the manager of addresses allows
  -- exactly these, in this order; if SFTP is on, then the address to listen on, the key, the token
  -- and the node's id are not empty and the public port lies between 1 and 65535.
  pub load_lem :
      (cfg.allocations.entries ≢ [])
      × All IsNormal cfg.allocations.entries
      × All IsHost cfg.allocations.entries
      × ((new_manager cfg.allocations.entries).allowed ≡ cfg.allocations.entries)
      × ((cfg.sftp.enabled ≡ false) ⊎ SftpIsReady cfg)
  unfolding new_manager
  load_lem =
      let (some_left, entries, ready) = validate-ready cfg load-validate in
      let normal = load-IsNormalList in
      (
        some_left,
        normal.0,
        validate_entries-IsHost [] cfg.allocations.entries normal.0 entries,
        normalise_allocations_fixed cfg.allocations.entries normal,
        ready,
      )
