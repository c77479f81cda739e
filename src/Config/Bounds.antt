-- ===== src/Config/Bounds.antt =====
-- internal/config/config.go: the numbers of a repaired configuration.
use hive_worker.Base.{Text, ◌≡◌, ◌≢◌, refl, true, Option, arith, ◌⊎◌, inl, inr}
use hive_worker.Go.Text.{trim_space}
use hive_worker.Go.Int.{ℤ, pos, leb_ℤ, int_eq}
use hive_worker.Config.{Config, port_from_listen, normalise}

abbrev pub InRange : ℤ → Type 0
InRange port = (leb_ℤ (pos 1) port ≡ true) × (leb_ℤ port (pos 65535) ≡ true)

module _ (scan_int : Text → Option ℤ) where
  port_from_listen-InRange :
      (value : Text) (fallback : ℤ)
      → InRange fallback
      → InRange (port_from_listen scan_int value fallback)
  unfolding port_from_listen
  port_from_listen-InRange value fallback h = ground arith

  -- In a repaired configuration the public port lies between 1 and 65535, or it is the number
  -- configured, which is not 0; and the timeout of the authentication is positive.
  pub normalise-InRange :
      (cfg : Config)
      → (InRange (normalise scan_int cfg).sftp.public_port
          ⊎ (((normalise scan_int cfg).sftp.public_port ≡ cfg.sftp.public_port)
              × (cfg.sftp.public_port ≢ pos 0)))
        × (leb_ℤ (pos 1) (normalise scan_int cfg).sftp.auth_timeout_seconds ≡ true)
  unfolding normalise
  normalise-InRange cfg = (
    elim (int_eq.dec cfg.sftp.public_port (pos 0)) [
      | yes zero_port ↦ inl (
          ground
            (arith, port_from_listen-InRange (trim_space cfg.sftp.listen) (pos 2022) (refl, refl)))
      | no set ↦ inr (ground arith, set)
    ],
    ground arith,
  )
