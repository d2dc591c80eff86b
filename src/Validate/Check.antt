-- ===== src/Validate/Check.antt =====
-- validate.go: what was measured for an event, and checking its digests against that.
pub mod Kept
pub mod Trailing
pub mod Fits
pub mod Unreported
pub mod Long
pub mod Total
pub mod Count
use tcglog_parser.Common.{
  ℕ, zero, suc, ◌-◌, Bool, true, false, not, ◌&&◌, ◌||◌, Option, none, some, List, [], ◌∷◌, ◌++◌,
  ◌==◌, if◌then◌else◌, length, take, Map,
}
use tcglog_parser.Errors.{Result, ok, panic, ◌>>=◌}
use tcglog_parser.Go.Reader.{Bytes, le_bytes}
use tcglog_parser.Go.Runtime.{Runtime}
use tcglog_parser.Go.Text.{equal}
use tcglog_parser.Types.{Spec}
use tcglog_parser.Types.Algorithm
use tcglog_parser.Types.EventType
use tcglog_parser.EventData.{
  EventData, opaque, ascii_string, separator, efi_variable, efi_gpt, grub_string, systemd_efi_stub,
}
use tcglog_parser.Log.Format.{Event, separator_event_error_value}

pub data Behaviour : Type 0 where
  unknown full var_data_only : Behaviour

pub record IncorrectDigestValue : Type 0 where
  pub algorithm : ℕ
  pub expected : Bytes

pub record ValidatedEvent : Type 0 where
  pub event : Event
  pub measured_bytes : Bytes
  pub measured_trailing_bytes_count : ℕ
  pub incorrect_digest_values : List IncorrectDigestValue

pub record LogValidateResult : Type 0 where
  pub efi_boot_variable_behaviour : Behaviour
  pub validated_events : List ValidatedEvent
  pub spec : Spec
  pub algorithms : List ℕ
  pub expected_pcr_values : Map (Map Bytes)

-- The fields of logValidator but the log, which is passed beside it.
pub record Validator : Type 0 where
  pub expected_pcr_values : Map (Map Bytes)
  pub efi_boot_variable_behaviour : Behaviour
  pub validated_events : List ValidatedEvent

unfoldable pub does_event_type_extend_pcr : ℕ → Bool
does_event_type_extend_pcr t = not (t == EventType.no_action)

unfoldable pub perform_hash_extend_operation : Runtime → ℕ → Bytes → Bytes → Result Bytes
perform_hash_extend_operation rt alg initial event = Algorithm.hash rt alg (initial ++ event)

-- determineMeasuredBytes: the bytes, or nil, and whether trailing bytes are to be tried.
unfoldable pub determine_measured_bytes : ℕ → EventData → Bool → Option Bytes × Bool
determine_measured_bytes t (opaque d) quirk = (
  if t == EventType.event_tag
        || t == EventType.scrtm_version
        || t == EventType.platform_config_flags
        || t == EventType.table_of_devices
        || t == EventType.nonhost_info
        || t == EventType.omit_boot_device_events
      then some d
      else none,
  false,
)
determine_measured_bytes t (separator d is_error) quirk =
    (some (if is_error then le_bytes 4 separator_event_error_value else d), false)
determine_measured_bytes t (ascii_string d) quirk =
    (if t == EventType.action || t == EventType.efi_action then some d else none, false)
determine_measured_bytes t (efi_variable d) quirk =
    if t == EventType.efi_variable_boot && quirk
    then (some d.variable_data, false)
    else (some d.bytes, true)
determine_measured_bytes t (efi_gpt d) quirk = (d.bytes, true)
determine_measured_bytes t (grub_string d k str) quirk = (some str, false)
determine_measured_bytes t (systemd_efi_stub d str) quirk = (some (d ++ 0 ∷ []), false)
determine_measured_bytes t _ quirk = (none, false)

unfoldable pub is_expected_digest_value : Runtime → Bytes → ℕ → Bytes → Result (Bool × Bytes)
is_expected_digest_value rt digest alg measured = do
  expected ← Algorithm.hash rt alg measured
  ok (equal digest expected, expected)

-- The inner loop of checkEventDigests: the measured bytes and how many of them are trailing, once
-- the digest fits. A round drops the last byte; slicing below an empty slice panics.
unfoldable pub trailing_loop : Runtime → Bytes → ℕ → Bytes → ℕ → Result (Option (Bytes × ℕ))
trailing_loop rt digest alg measured zero = do
  (good, _) ← is_expected_digest_value rt digest alg measured
  ok (if good then some (measured, 0) else none)
trailing_loop rt digest alg measured (suc trailing) = do
  (good, _) ← is_expected_digest_value rt digest alg measured
  let n = length measured
  let shorter = trailing_loop rt digest alg (take (n - 1) measured) trailing
  let next = if n == 0 then panic else shorter
  if good then ok (some (measured, suc trailing)) else next

abbrev pub is_var_data_only : Behaviour → Bool
is_var_data_only var_data_only = true
is_var_data_only _ = false

abbrev pub is_unknown : Behaviour → Bool
is_unknown unknown = true
is_unknown _ = false

-- What one digest is found to be: nothing is known of the measured bytes, the digest fits some
-- bytes under a behaviour, or it fits none.
pub data Verdict : Type 0 where
  not_determined : Verdict
  fits : Behaviour → Bytes → ℕ → Verdict
  wrong : Verdict

abbrev pub trailing_of : Bool → ℕ → ℕ
trailing_of check trailing = if check then trailing else 0

-- One round of the loop `Loop`, under the behaviour that it tries.
unfoldable pub try_behaviour : Runtime → Event → ℕ → Bytes → ℕ → Behaviour → Result Verdict
try_behaviour rt e alg digest trailing behaviour =
    let (provisional, check) =
      determine_measured_bytes e.event_type e.content (is_var_data_only behaviour) in
    elim provisional [
      | none ↦ ok not_determined
      | some measured ↦ do
        found ← trailing_loop rt digest alg measured (trailing_of check trailing)
        ok (elim found [ some (b, n) ↦ fits behaviour b n | none ↦ wrong ])
    ]

-- The loop `Loop`: an EFI_VARIABLE_BOOT event that fits nothing is tried once more with its variable
-- data alone, as long as the behaviour is not known.
unfoldable pub behaviour_loop : Runtime → Event → ℕ → Bytes → ℕ → Behaviour → Result Verdict
behaviour_loop rt e alg digest trailing behaviour = do
  verdict ← try_behaviour rt e alg digest trailing behaviour
  let again = try_behaviour rt e alg digest trailing var_data_only
  elim verdict [
    | wrong ↦
        if e.event_type == EventType.efi_variable_boot && is_unknown behaviour
        then again
        else ok wrong
    | other ↦ ok other
  ]

-- What the first boot variable event shows of the behaviour.
abbrev pub learned : Behaviour → Behaviour
learned unknown = full
learned b = b

-- The state that a verdict leaves behind: the validator's behaviour and the event.
unfoldable pub record_verdict :
    Runtime → ℕ → Behaviour → ValidatedEvent → Verdict → Result (Behaviour × ValidatedEvent)
record_verdict rt alg known e not_determined = ok (known, e)
record_verdict rt alg known e (fits behaviour b n) = ok (
  if e.event.event_type == EventType.efi_variable_boot && is_unknown known
      then learned behaviour
      else known,
  record e { measured_bytes = b; measured_trailing_bytes_count = n },
)
record_verdict rt alg known e wrong = do
  let (measured, _) = determine_measured_bytes e.event.event_type e.event.content false
  let bytes : Bytes = elim measured [ some b ↦ b | none ↦ [] ]
  expected ← Algorithm.hash rt alg bytes
  ok (
    known,
    record e {
      incorrect_digest_values =
          e.incorrect_digest_values ++ (record { algorithm = alg; expected = expected } ∷ []);
    },
  )

-- The body of the loop over the digests, where the measured bytes are known already.
unfoldable pub check_known : Runtime → ℕ → Bytes → ValidatedEvent → Result ValidatedEvent
check_known rt alg digest e = do
  (good, expected) ← is_expected_digest_value rt digest alg e.measured_bytes
  ok (
      if good then e else record e {
        incorrect_digest_values =
            e.incorrect_digest_values ++ (record { algorithm = alg; expected = expected } ∷ []);
      })

-- The body where they are not. The flag is set where the function returns.
unfoldable pub check_unknown :
    Runtime
    → ℕ
    → ℕ
    → Bytes
    → Behaviour
    → ValidatedEvent
    → Result (Behaviour × ValidatedEvent × Bool)
check_unknown rt trailing alg digest known e = do
  verdict ← behaviour_loop rt e.event alg digest trailing known
  (known', e') ← record_verdict rt alg known e verdict
  ok (known', e', elim verdict [ not_determined ↦ true | _ ↦ false ])

abbrev pub is_empty : Bytes → Bool
is_empty b = length b == 0

-- One round of the loop over the digests.
unfoldable pub check_digest :
    Runtime
    → ℕ
    → ℕ
    → Bytes
    → Behaviour
    → ValidatedEvent
    → Result (Behaviour × ValidatedEvent × Bool)
check_digest rt trailing alg digest known e =
    if is_empty e.measured_bytes
    then check_unknown rt trailing alg digest known e
    else check_known rt alg digest e >>= λ e'. ok (known, e', false)

unfoldable pub check_digests_loop :
    Runtime → ℕ → Map Bytes → Behaviour → ValidatedEvent → Result (Behaviour × ValidatedEvent)
check_digests_loop rt trailing [] known e = ok (known, e)
check_digests_loop rt trailing ((alg, digest) ∷ m) known e = do
  (known', e', done) ← check_digest rt trailing alg digest known e
  let rest = check_digests_loop rt trailing m known' e'
  if done then ok (known', e') else rest

-- checkEventDigests: the digests come in the order of the `n`-th `range`.
unfoldable pub check_event_digests :
    Runtime → ℕ → Behaviour → ValidatedEvent → ℕ → Result (Behaviour × ValidatedEvent)
check_event_digests rt n known e trailing =
    check_digests_loop rt trailing (rt.range n e.event.digests) known e
