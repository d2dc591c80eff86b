-- ===== src/Display/Data.antt =====
-- The String methods of the event data types (eventdata.go, tcgeventdata.go, efi.go,
-- grubeventdata.go, sdefistub.go).
use tcglog_parser.Common.{ℕ, Bool, if◌then◌else◌, [], ◌++◌}
use tcglog_parser.Errors.{Error, unexpected_eof}
use tcglog_parser.Go.Reader.{Bytes}
use tcglog_parser.Go.Text.{codes, dec, hex_padded}
use tcglog_parser.Types.{Spec, spec_unknown, spec_pc_client, spec_efi_1_2, spec_efi_2}
use tcglog_parser.Utils.{separated}
use tcglog_parser.EventData.{
  EfiGuid, AlgorithmSize, SpecIdEventData, EfiVariableEventData, EfiImageLoadEventData,
  EfiGptPartitionEntry, EfiGptEventData, GrubStringEventType, grub_cmd, kernel_cmdline, EventData,
  broken, opaque, spec_id, ascii_string, unknown_no_action, separator, startup_locality,
  bim_reference_manifest, efi_variable, efi_image_load, efi_gpt, grub_string, systemd_efi_stub,
  guid_to_string,
}
use tcglog_parser.Display.Failure.{error_text}

-- BrokenEventData.String
unfoldable pub broken_to_string : Error → Bytes
broken_to_string unexpected_eof = codes "Invalid event data: event data smaller than expected"
broken_to_string e = codes "Invalid event data: " ++ error_text e

abbrev spec_number : Spec → ℕ
spec_number spec_unknown = 0
spec_number spec_pc_client = 1
spec_number spec_efi_1_2 = 2
spec_number spec_efi_2 = 3

abbrev spec_id_name : Spec → Bytes
spec_id_name spec_unknown = []
spec_id_name spec_pc_client = codes "PCClientSpecIdEvent"
spec_id_name spec_efi_1_2 = codes "EfiSpecIDEvent"
spec_id_name spec_efi_2 = codes "EfiSpecIDEvent"

abbrev algorithm_size_to_string : AlgorithmSize → Bytes
algorithm_size_to_string a =
    codes "{ algorithmId=0x"
    ++ (hex_padded 4 a.algorithm_id ++ (codes ", digestSize=" ++ (dec a.digest_size ++ codes " }")))

-- SpecIdEventData.String
unfoldable pub spec_id_to_string : SpecIdEventData → Bytes
spec_id_to_string e =
    let sizes =
      codes ", digestSizes=[" ++ (separated algorithm_size_to_string e.digest_sizes ++ codes "]") in
    spec_id_name e.spec
    ++ (codes "{ spec="
        ++ (dec (spec_number e.spec)
            ++ (codes ", platformClass="
                ++ (dec e.platform_class
                    ++ (codes ", specVersionMinor="
                        ++ (dec e.spec_version_minor
                            ++ (codes ", specVersionMajor="
                                ++ (dec e.spec_version_major
                                    ++ (codes ", specErrata="
                                        ++ (dec e.spec_errata
                                            ++ (elim e.spec [ spec_efi_2 ↦ sizes | _ ↦ [] ]
                                                ++ codes " }")))))))))))

-- EFIVariableEventData.String
unfoldable pub efi_variable_to_string : EfiVariableEventData → Bytes
efi_variable_to_string e =
    codes "UEFI_VARIABLE_DATA{ VariableName: "
    ++ (guid_to_string e.variable_name
        ++ (codes ", UnicodeName: \"" ++ (e.unicode_name ++ codes "\" }")))

-- efiImageLoadEventData.String
unfoldable pub efi_image_load_to_string : EfiImageLoadEventData → Bytes
efi_image_load_to_string e =
    codes "UEFI_IMAGE_LOAD_EVENT{ ImageLocationInMemory: 0x"
    ++ (hex_padded 16 e.location_in_memory
        ++ (codes ", ImageLengthInMemory: "
            ++ (dec e.length_in_memory
                ++ (codes ", ImageLinkTimeAddress: 0x"
                    ++ (hex_padded 16 e.link_time_address
                        ++ (codes ", DevicePath: " ++ (e.path ++ codes " }")))))))

-- efiGPTPartitionEntry.String
unfoldable pub partition_to_string : EfiGptPartitionEntry → Bytes
partition_to_string p =
    codes "PartitionTypeGUID: "
    ++ (guid_to_string p.type_guid
        ++ (codes ", UniquePartitionGUID: "
            ++ (guid_to_string p.unique_guid ++ (codes ", Name: \"" ++ (p.name ++ codes "\"")))))

-- efiGPTEventData.String
unfoldable pub efi_gpt_to_string : EfiGptEventData → Bytes
efi_gpt_to_string e =
    codes "UEFI_GPT_DATA{ DiskGUID: "
    ++ (guid_to_string e.disk_guid
        ++ (codes ", Partitions: ["
            ++ (separated (λ p. codes "{ " ++ (partition_to_string p ++ codes " }")) e.partitions
                ++ codes "] }")))

-- grubEventTypeString; its panic is for values that are no constant of the type.
unfoldable pub grub_event_type_string : GrubStringEventType → Bytes
grub_event_type_string grub_cmd = codes "grub_cmd"
grub_event_type_string kernel_cmdline = codes "kernel_cmdline"

-- separatorEventData.String
unfoldable pub separator_to_string : Bool → Bytes
separator_to_string is_error = if is_error then codes "*ERROR*" else []

-- startupLocalityEventData.String
unfoldable pub startup_locality_to_string : ℕ → Bytes
startup_locality_to_string locality =
    codes "EfiStartupLocalityEvent{ StartupLocality: " ++ (dec locality ++ codes " }")

-- bimReferenceManifestEventData.String
unfoldable pub bim_reference_manifest_to_string : ℕ → EfiGuid → Bytes
bim_reference_manifest_to_string vendor_id guid =
    codes "Sp800_155_PlatformId_Event{ VendorId: "
    ++ (dec vendor_id ++ (codes ", ReferenceManifestGuid: " ++ (guid_to_string guid ++ codes " }")))

-- GrubStringEventData.String
unfoldable pub grub_string_to_string : GrubStringEventType → Bytes → Bytes
grub_string_to_string t str = grub_event_type_string t ++ (codes "{ " ++ (str ++ codes " }"))

-- EventData.String; the text of the other types is empty, or a text that they hold.
unfoldable pub data_to_string : EventData → Bytes
data_to_string (broken d e) = broken_to_string e
data_to_string (opaque d) = []
data_to_string (spec_id e) = spec_id_to_string e
data_to_string (ascii_string d) = d
data_to_string (unknown_no_action d) = []
data_to_string (separator d is_error) = separator_to_string is_error
data_to_string (startup_locality d locality) = startup_locality_to_string locality
data_to_string (bim_reference_manifest d vendor_id guid) =
    bim_reference_manifest_to_string vendor_id guid
data_to_string (efi_variable e) = efi_variable_to_string e
data_to_string (efi_image_load e) = efi_image_load_to_string e
data_to_string (efi_gpt e) = efi_gpt_to_string e
data_to_string (grub_string d t str) = grub_string_to_string t str
data_to_string (systemd_efi_stub d str) = str
