-- ===== src/Types.antt =====
-- types.go and constants.go: specifications, options, and the two kinds of numbers of a log.
pub mod Algorithm
pub mod EventType
pub mod Verbs
use tcglog_parser.Common.{ℕ, Bool}

pub data Spec : Type 0 where
  spec_unknown spec_pc_client spec_efi_1_2 spec_efi_2 : Spec

pub record LogOptions : Type 0 where
  pub enable_grub : Bool
  pub enable_systemd_efi_stub : Bool
  pub systemd_efi_stub_pcr : ℕ
