-- ===== src/Types/EventType.antt =====
-- constants.go and types.go: event types, 32-bit numbers, and their names.
use tcglog_parser.Common.{Option, some, ℕ, ◌==◌, if◌then◌else◌}
use tcglog_parser.Go.Format.{FmtState, fprintf_unused}
use tcglog_parser.Utils.{make_default_formatter}
use tcglog_parser.Go.Reader.{Bytes}
use tcglog_parser.Go.Text.{codes, hex_padded}

abbrev pub preboot_cert : ℕ
preboot_cert = 0x00000000

abbrev pub post_code : ℕ
post_code = 0x00000001

abbrev pub no_action : ℕ
no_action = 0x00000003

abbrev pub separator : ℕ
separator = 0x00000004

abbrev pub action : ℕ
action = 0x00000005

abbrev pub event_tag : ℕ
event_tag = 0x00000006

abbrev pub scrtm_contents : ℕ
scrtm_contents = 0x00000007

abbrev pub scrtm_version : ℕ
scrtm_version = 0x00000008

abbrev pub cpu_microcode : ℕ
cpu_microcode = 0x00000009

abbrev pub platform_config_flags : ℕ
platform_config_flags = 0x0000000a

abbrev pub table_of_devices : ℕ
table_of_devices = 0x0000000b

abbrev pub compact_hash : ℕ
compact_hash = 0x0000000c

abbrev pub ipl : ℕ
ipl = 0x0000000d

abbrev pub ipl_partition_data : ℕ
ipl_partition_data = 0x0000000e

abbrev pub nonhost_code : ℕ
nonhost_code = 0x0000000f

abbrev pub nonhost_config : ℕ
nonhost_config = 0x00000010

abbrev pub nonhost_info : ℕ
nonhost_info = 0x00000011

abbrev pub omit_boot_device_events : ℕ
omit_boot_device_events = 0x00000012

abbrev pub efi_event_base : ℕ
efi_event_base = 0x80000000

abbrev pub efi_variable_driver_config : ℕ
efi_variable_driver_config = 0x80000001

abbrev pub efi_variable_boot : ℕ
efi_variable_boot = 0x80000002

abbrev pub efi_boot_services_application : ℕ
efi_boot_services_application = 0x80000003

abbrev pub efi_boot_services_driver : ℕ
efi_boot_services_driver = 0x80000004

abbrev pub efi_runtime_services_driver : ℕ
efi_runtime_services_driver = 0x80000005

abbrev pub efi_gpt_event : ℕ
efi_gpt_event = 0x80000006

abbrev pub efi_action : ℕ
efi_action = 0x80000007

abbrev pub efi_platform_firmware_blob : ℕ
efi_platform_firmware_blob = 0x80000008

abbrev pub efi_handoff_tables : ℕ
efi_handoff_tables = 0x80000009

abbrev pub efi_hcrtm_event : ℕ
efi_hcrtm_event = 0x80000010

abbrev pub efi_variable_authority : ℕ
efi_variable_authority = 0x800000e0

-- EventType.String: an unknown type is printed as eight hexadecimal digits.
unfoldable pub to_string : ℕ → Bytes
unfolding hex_padded
to_string e =
    if e == preboot_cert
    then codes "EV_PREBOOT_CERT"
    else if e == post_code
    then codes "EV_POST_CODE"
    else if e == no_action
    then codes "EV_NO_ACTION"
    else if e == separator
    then codes "EV_SEPARATOR"
    else if e == action
    then codes "EV_ACTION"
    else if e == event_tag
    then codes "EV_EVENT_TAG"
    else if e == scrtm_contents
    then codes "EV_S_CRTM_CONTENTS"
    else if e == scrtm_version
    then codes "EV_S_CRTM_VERSION"
    else if e == cpu_microcode
    then codes "EV_CPU_MICROCODE"
    else if e == platform_config_flags
    then codes "EV_PLATFORM_CONFIG_FLAGS"
    else if e == table_of_devices
    then codes "EV_TABLE_OF_DEVICES"
    else if e == compact_hash
    then codes "EV_COMPACT_HASH"
    else if e == ipl
    then codes "EV_IPL"
    else if e == ipl_partition_data
    then codes "EV_IPL_PARTITION_DATA"
    else if e == nonhost_code
    then codes "EV_NONHOST_CODE"
    else if e == nonhost_config
    then codes "EV_NONHOST_CONFIG"
    else if e == nonhost_info
    then codes "EV_NONHOST_INFO"
    else if e == omit_boot_device_events
    then codes "EV_OMIT_BOOT_DEVICE_EVENTS"
    else if e == efi_variable_driver_config
    then codes "EV_EFI_VARIABLE_DRIVER_CONFIG"
    else if e == efi_variable_boot
    then codes "EV_EFI_VARIABLE_BOOT"
    else if e == efi_boot_services_application
    then codes "EV_EFI_BOOT_SERVICES_APPLICATION"
    else if e == efi_boot_services_driver
    then codes "EV_EFI_BOOT_SERVICES_DRIVER"
    else if e == efi_runtime_services_driver
    then codes "EV_EFI_RUNTIME_SERVICES_DRIVER"
    else if e == efi_gpt_event
    then codes "EF_EFI_GPT_EVENT"
    else if e == efi_action
    then codes "EV_EFI_ACTION"
    else if e == efi_platform_firmware_blob
    then codes "EV_EFI_PLATFORM_FIRMWARE_BLOB"
    else if e == efi_handoff_tables
    then codes "EV_EFI_HANDOFF_TABLES"
    else if e == efi_hcrtm_event
    then codes "EV_EFI_HCRTM_EVENT"
    else if e == efi_variable_authority
    then codes "EV_EFI_VARIABLE_AUTHORITY"
    else hex_padded 8 e

-- EventType.Format: what it writes; `none` where Fprintf would use its operand.
unfoldable pub format : FmtState → ℕ → ℕ → Option Bytes
format s f e =
    if f == b's'
    then some (to_string e)
    else fprintf_unused (make_default_formatter s f) (codes "uint32") e
