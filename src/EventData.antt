-- ===== src/EventData.antt =====
-- The event data types (eventdata.go, tcgeventdata.go, efi.go, grubeventdata.go, sdefistub.go): the
-- interface EventData as one data type with a constructor for each implementation.
use tcglog_parser.Common.{Option, none, some, ℕ, Bool, List, [], ◌++◌, take, drop}
use tcglog_parser.Errors.{Error}
use tcglog_parser.Go.Reader.{Bytes, be_bytes, be}
use tcglog_parser.Go.Text.{codes, hex_padded, hex_bytes}
use tcglog_parser.Types.{Spec}

pub record EfiGuid : Type 0 where
  pub data1 : ℕ
  pub data2 : ℕ
  pub data3 : ℕ
  pub data4 : Bytes

pub record AlgorithmSize : Type 0 where
  pub algorithm_id : ℕ
  pub digest_size : ℕ

pub record SpecIdEventData : Type 0 where
  pub bytes : Bytes
  pub spec : Spec
  pub platform_class : ℕ
  pub spec_version_minor : ℕ
  pub spec_version_major : ℕ
  pub spec_errata : ℕ
  pub uintn_size : ℕ
  pub digest_sizes : List AlgorithmSize
  pub vendor_info : Bytes

pub record EfiVariableEventData : Type 0 where
  pub bytes : Bytes
  pub variable_name : EfiGuid
  pub unicode_name : Bytes
  pub variable_data : Bytes

pub record EfiImageLoadEventData : Type 0 where
  pub bytes : Bytes
  pub location_in_memory : ℕ
  pub length_in_memory : ℕ
  pub link_time_address : ℕ
  pub path : Bytes

pub record EfiGptPartitionEntry : Type 0 where
  pub type_guid : EfiGuid
  pub unique_guid : EfiGuid
  pub name : Bytes

-- The bytes are `none` where the field is nil.
pub record EfiGptEventData : Type 0 where
  pub bytes : Option Bytes
  pub disk_guid : EfiGuid
  pub partitions : List EfiGptPartitionEntry

pub data GrubStringEventType : Type 0 where
  grub_cmd kernel_cmdline : GrubStringEventType

pub data EventData : Type 0 where
  broken : Bytes → Error → EventData
  opaque : Bytes → EventData
  spec_id : SpecIdEventData → EventData
  ascii_string : Bytes → EventData
  unknown_no_action : Bytes → EventData
  separator : Bytes → Bool → EventData
  startup_locality : Bytes → ℕ → EventData
  bim_reference_manifest : Bytes → ℕ → EfiGuid → EventData
  efi_variable : EfiVariableEventData → EventData
  efi_image_load : EfiImageLoadEventData → EventData
  efi_gpt : EfiGptEventData → EventData
  grub_string : Bytes → GrubStringEventType → Bytes → EventData
  systemd_efi_stub : Bytes → Bytes → EventData

-- The contents of a slice that may be nil.
abbrev contents : Option Bytes → Bytes
contents none = []
contents (some b) = b

-- EventData.Bytes
unfoldable pub raw_bytes : EventData → Bytes
raw_bytes (broken d e) = d
raw_bytes (opaque d) = d
raw_bytes (spec_id e) = e.bytes
raw_bytes (ascii_string d) = d
raw_bytes (unknown_no_action d) = d
raw_bytes (separator d e) = d
raw_bytes (startup_locality d l) = d
raw_bytes (bim_reference_manifest d v g) = d
raw_bytes (efi_variable e) = e.bytes
raw_bytes (efi_image_load e) = e.bytes
raw_bytes (efi_gpt e) = contents e.bytes
raw_bytes (grub_string d t s) = d
raw_bytes (systemd_efi_stub d s) = d

-- EFIGUID.String
unfoldable pub guid_to_string : EfiGuid → Bytes
guid_to_string g =
    codes "{"
    ++ (hex_padded 8 g.data1
        ++ (codes "-"
            ++ (hex_padded 4 g.data2
                ++ (codes "-"
                    ++ (hex_padded 4 g.data3
                        ++ (codes "-"
                            ++ (hex_padded 4 (be (take 2 g.data4))
                                ++ (codes "-" ++ (hex_bytes (drop 2 g.data4) ++ codes "}")))))))))

-- NewEFIGUID
unfoldable pub new_efi_guid : ℕ → ℕ → ℕ → ℕ → Bytes → EfiGuid
new_efi_guid a b c d e = record { data1 = a; data2 = b; data3 = c; data4 = be_bytes 2 d ++ e }

-- NoActionEventType
pub data NoActionEventType : Type 0 where
  unknown_no_action_event spec_id_event startup_locality_event bios_integrity_measurement :
      NoActionEventType

-- NoActionEventData.Type, of the event data that implements it; `none` for other event data.
unfoldable pub no_action_type : EventData → Option NoActionEventType
no_action_type (spec_id e) = some spec_id_event
no_action_type (unknown_no_action d) = some unknown_no_action_event
no_action_type (startup_locality d l) = some startup_locality_event
no_action_type (bim_reference_manifest d v g) = some bios_integrity_measurement
no_action_type _ = none
