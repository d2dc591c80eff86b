-- ===== src/Validate/Check/Long.antt =====
-- What determineMeasuredBytes gives is long enough for the trailing bytes that are tried.
use tcglog_parser.Common.{
  ℕ, ◌≤◌, Bool, true, false, Option, none, some, arith, ◌==◌, if◌then◌else◌, ◌&&◌, length,
}
use tcglog_parser.Go.Reader.{Bytes}
use tcglog_parser.Types.EventType
use tcglog_parser.EventData.{
  EventData, broken, opaque, spec_id, ascii_string, unknown_no_action, separator, startup_locality,
  bim_reference_manifest, efi_variable, efi_image_load, efi_gpt, grub_string, systemd_efi_stub,
  raw_bytes,
}
use tcglog_parser.Log.Ready.{HasRoom}
use tcglog_parser.Validate.Check.{determine_measured_bytes, trailing_of}

-- What may be measured is long enough for the trailing bytes that are tried.
abbrev pub IsLong : ℕ → Option Bytes × Bool → Type 0
IsLong trailing (none, check) = Unit
IsLong trailing (some m, check) = trailing_of check trailing ≤ length m

-- No trailing bytes are tried for data that is measured as it is.
IsLong-plain :
    (trailing : ℕ) (d : Bytes) (b : Bool) → IsLong trailing (if b then some d else none, false)
IsLong-plain trailing d true = omega arith
IsLong-plain trailing d false = tt

IsLong-if :
    (trailing : ℕ) (b : Bool) (x y : Option Bytes × Bool)
    → IsLong trailing x
    → IsLong trailing y
    → IsLong trailing (if b then x else y)
IsLong-if trailing true x y p q = p
IsLong-if trailing false x y p q = q

pub determine_measured_bytes-IsLong :
    (t : ℕ) (c : EventData) (quirk : Bool) (trailing : ℕ)
    → HasRoom c trailing
    → IsLong trailing (determine_measured_bytes t c quirk)
unfolding determine_measured_bytes raw_bytes
determine_measured_bytes-IsLong t (opaque d) quirk trailing h = IsLong-plain trailing d _
determine_measured_bytes-IsLong t (separator d e) quirk trailing h = omega arith
determine_measured_bytes-IsLong t (ascii_string d) quirk trailing h = IsLong-plain trailing d _
determine_measured_bytes-IsLong t (efi_variable d) quirk trailing h =
    IsLong-if trailing (t == EventType.efi_variable_boot && quirk) _ _ (omega arith) h
determine_measured_bytes-IsLong t (efi_gpt d) quirk trailing h = rw h tt
determine_measured_bytes-IsLong t (grub_string d k s) quirk trailing h = omega arith
determine_measured_bytes-IsLong t (systemd_efi_stub d s) quirk trailing h = omega arith
determine_measured_bytes-IsLong t (broken d e) quirk trailing h = tt
determine_measured_bytes-IsLong t (spec_id d) quirk trailing h = tt
determine_measured_bytes-IsLong t (unknown_no_action d) quirk trailing h = tt
determine_measured_bytes-IsLong t (startup_locality d l) quirk trailing h = tt
determine_measured_bytes-IsLong t (bim_reference_manifest d v g) quirk trailing h = tt
determine_measured_bytes-IsLong t (efi_image_load d) quirk trailing h = tt
