-- ===== src/Decode/Sound.antt =====
-- What every decoder keeps: the bytes of the event, except for GPT events, and a count of trailing
-- bytes that is at most their number.
use tcglog_parser.Common.{
  ℕ, zero, suc, ◌+◌, ◌*◌, ◌≤◌, ◌≡◌, refl, inl, inr, arith, ◌==◌, if◌then◌else◌, Bool-cases, length,
  none, drop, length-drop,
}
use tcglog_parser.Errors.{
  Result, ok, err, ◌>>=◌, bind-eq-ok, Yields, Yields-ok, Yields-bind, Yields-if,
  invalid_spec_id_event, no_algorithms,
}
use tcglog_parser.Go.Reader.{Bytes, read_full, read_uint}
use tcglog_parser.Go.Runtime.{Runtime, make}
use tcglog_parser.Go.Text.{equal}
use tcglog_parser.Go.Unicode.{within}
use tcglog_parser.EventData.{SpecIdEventData, EventData, spec_id, efi_gpt, raw_bytes}
use tcglog_parser.Decode.Guid.{read_guid}
use tcglog_parser.Decode.SpecId.{
  wrapped, read_vendor_info, parse_pc_client_spec_id_event, parse_efi_1_2_spec_id_event,
  algorithm_sizes, check_digest_sizes, parse_efi_2_spec_id_event, decode_spec_id_event,
}
use tcglog_parser.Decode.NoAction.{
  decode_startup_locality_event, decode_bim_reference_manifest_event, no_action_switch,
  decode_event_data_no_action,
}
use tcglog_parser.Decode.Variable.{
  extract_character, extract_utf16_buffer, decode_event_data_efi_variable,
}
use tcglog_parser.Decode.DevicePath.{decode_device_path}
use tcglog_parser.Decode.Image.{
  finished, decode_event_data_efi_image_load, decode_partition_entry, decode_partitions,
  decode_event_data_efi_gpt,
}
use tcglog_parser.Go.Reader.Laws.{read_full-ok, read_uint-ok}

-- The data stands for the bytes of the event; that of a GPT event holds none, a nil slice.
abbrev pub Keeps : Bytes → EventData → Type 0
Keeps bytes (efi_gpt e) = e.bytes ≡ none
Keeps bytes d = raw_bytes d ≡ bytes

-- And no more bytes are trailing than there are.
abbrev pub KeepsTrailing : Bytes → EventData × ℕ → Type 0
KeepsTrailing bytes (d, n) = Keeps bytes d × (n ≤ length bytes)

abbrev KeepsRecord : SpecIdEventData → SpecIdEventData → Type 0
KeepsRecord d d' = d'.bytes ≡ d.bytes

parse_pc_client-Keeps :
    (s : Bytes) (d : SpecIdEventData) → Yields (KeepsRecord d) (parse_pc_client_spec_id_event s d)
unfolding parse_pc_client_spec_id_event
parse_pc_client-Keeps s d = Yields-bind (read_vendor_info s) λ v e. Yields-ok refl

parse_efi_1_2-Keeps :
    (s : Bytes) (d : SpecIdEventData) → Yields (KeepsRecord d) (parse_efi_1_2_spec_id_event s d)
unfolding parse_efi_1_2_spec_id_event
parse_efi_1_2-Keeps s d = Yields-bind (read_vendor_info s) λ v e. Yields-ok refl

parse_efi_2-Keeps :
    (rt : Runtime) (s : Bytes) (d : SpecIdEventData)
    → Yields (KeepsRecord d) (parse_efi_2_spec_id_event rt s d)
unfolding parse_efi_2_spec_id_event
parse_efi_2-Keeps rt s d = Yields-bind (wrapped (read_uint 4 s)) λ (n, s1) _.
    Yields-bind (if n == 0 then err (invalid_spec_id_event no_algorithms) else ok (tt {0})) λ _ _.
      Yields-bind (make rt 4 n) λ _ _. Yields-bind (wrapped (read_full (4 * n) s1)) λ (b, s2) _.
        Yields-bind (check_digest_sizes (algorithm_sizes n b))
          λ _ _. Yields-bind (read_vendor_info s2) λ v _. Yields-ok refl

decode_spec_id_event-Keeps :
    (s bytes : Bytes) (helper : Bytes → SpecIdEventData → Result SpecIdEventData)
    → ((s' : Bytes) (d : SpecIdEventData) → Yields (KeepsRecord d) (helper s' d))
    → Yields (Keeps bytes) (decode_spec_id_event s bytes helper >>= λ d. ok (spec_id d))
unfolding decode_spec_id_event raw_bytes
decode_spec_id_event-Keeps s bytes helper keeps =
    Yields-bind (decode_spec_id_event s bytes helper) λ d e.
      let (c, _, h) = bind-eq-ok (wrapped (read_full 8 s)) _ e in
      Yields-ok ((keeps c.1 _).holds d h)

startup_locality-Keeps :
    (s bytes : Bytes) → Yields (Keeps bytes) (decode_startup_locality_event s bytes)
unfolding decode_startup_locality_event raw_bytes
startup_locality-Keeps s bytes = Yields-bind (read_uint 1 s) λ _ _. Yields-ok refl

bim_reference_manifest-Keeps :
    (s bytes : Bytes) → Yields (Keeps bytes) (decode_bim_reference_manifest_event s bytes)
unfolding decode_bim_reference_manifest_event raw_bytes
bim_reference_manifest-Keeps s bytes = Yields-bind (read_full 20 s) λ _ _. Yields-ok refl

no_action_switch-Keeps :
    (rt : Runtime) (sig s bytes : Bytes) → Yields (Keeps bytes) (no_action_switch rt sig s bytes)
unfolding no_action_switch raw_bytes
no_action_switch-Keeps rt sig s bytes =
    Yields-if (equal sig _)
      (decode_spec_id_event-Keeps s bytes parse_pc_client_spec_id_event parse_pc_client-Keeps)
      (Yields-if (equal sig _)
        (decode_spec_id_event-Keeps s bytes parse_efi_1_2_spec_id_event parse_efi_1_2-Keeps)
        (Yields-if (equal sig _)
          (decode_spec_id_event-Keeps s bytes (parse_efi_2_spec_id_event rt) (parse_efi_2-Keeps rt))
          (Yields-if (equal sig _) (bim_reference_manifest-Keeps s bytes)
            (Yields-if (equal sig _) (startup_locality-Keeps s bytes) (Yields-ok refl)))))

pub no_action-Keeps :
    (rt : Runtime) (bytes : Bytes) → Yields (Keeps bytes) (decode_event_data_no_action rt bytes)
unfolding decode_event_data_no_action
no_action-Keeps rt bytes =
    Yields-bind (read_full 16 bytes) λ (sig, s) _. no_action_switch-Keeps rt sig s bytes

read_guid-takes : (s : Bytes) → Yields (λ p. 16 + length p.1 ≡ length s) (read_guid s)
unfolding read_guid
read_guid-takes s = Yields-bind (read_full 16 s) λ (b, s') e. Yields-ok (read_full-ok 16 s e).2

abbrev Shorter : {A : Type 0} → Bytes → A × Bytes → Type 0
Shorter s (_, s') = length s' ≤ length s

extract_character-Shorter : (s : Bytes) → Yields (Shorter s) (extract_character s)
unfolding extract_character
extract_character-Shorter s = Yields-bind (read_uint 2 s) λ (c, s1) e1.
    Yields-if (within 0xd800 0xdc00 c)
      (Yields-bind (read_uint 2 s1) λ (d, s2) e2.
        Yields-ok (elim (Bool-cases (within 0xdc00 0xe000 d)) [
          | inl low ↦ rw low (omega (arith, read_uint-ok 2 s e1, read_uint-ok 2 s1 e2))
          | inr high ↦ rw high (omega (arith, read_uint-ok 2 s e1, length-drop 1 s1))
        ]))
      (Yields-ok (omega (arith, read_uint-ok 2 s e1)))

pub extract_utf16_buffer-Shorter :
    (n : ℕ) (s : Bytes) → Yields (Shorter s) (extract_utf16_buffer n s)
unfolding extract_utf16_buffer
extract_utf16_buffer-Shorter zero s = Yields-ok (omega arith)
extract_utf16_buffer-Shorter (suc n) s = Yields-bind (extract_character s) λ (c, s1) e1.
    Yields-bind (extract_utf16_buffer n s1) λ (out, s2) e2. Yields-ok (
      omega (
        arith,
        (extract_character-Shorter s).holds _ e1,
        (extract_utf16_buffer-Shorter n s1).holds _ e2,
      ))

pub efi_variable-KeepsTrailing :
    (rt : Runtime) (bytes : Bytes)
    → Yields (KeepsTrailing bytes) (decode_event_data_efi_variable rt bytes)
unfolding decode_event_data_efi_variable raw_bytes
efi_variable-KeepsTrailing rt bytes = Yields-bind (read_guid bytes) λ (guid, s1) e1.
    Yields-bind (read_uint 8 s1) λ (n, s2) e2. Yields-bind (read_uint 8 s2) λ (m, s3) e3.
      Yields-bind (extract_utf16_buffer n s3) λ (name, s4) e4. Yields-bind (make rt 1 m) λ _ _.
        Yields-bind (read_full m s4) λ (v, s5) e5. Yields-ok (
          refl,
          omega (
            arith,
            (read_guid-takes bytes).holds _ e1,
            read_uint-ok 8 s1 e2,
            read_uint-ok 8 s2 e3,
            (extract_utf16_buffer-Shorter n s3).holds _ e4,
            (read_full-ok m s4 e5).2,
          ),
        )

pub efi_image_load-Keeps :
    (rt : Runtime) (bytes : Bytes)
    → Yields (Keeps bytes) (decode_event_data_efi_image_load rt bytes)
unfolding decode_event_data_efi_image_load raw_bytes
efi_image_load-Keeps rt bytes = Yields-bind (read_uint 8 bytes) λ (_, s1) _.
    Yields-bind (read_uint 8 s1) λ (_, s2) _. Yields-bind (read_uint 8 s2) λ (_, s3) _.
      Yields-bind (read_uint 8 s3) λ (n, s4) _. Yields-bind (make rt 1 n) λ _ _.
        Yields-bind (read_full n s4)
          λ (b, _) _. Yields-bind (finished (decode_device_path b)) λ _ _. Yields-ok refl

decode_partitions-Shorter :
    (rt : Runtime) (size n : ℕ) (s : Bytes) → Yields (Shorter s) (decode_partitions rt size n s)
unfolding decode_partitions
decode_partitions-Shorter rt size zero s = Yields-ok (omega arith)
decode_partitions-Shorter rt size (suc n) s = Yields-bind (make rt 1 size) λ _ _.
    Yields-bind (read_full size s) λ (b, s1) e1. Yields-bind (decode_partition_entry b) λ _ _.
      Yields-bind (decode_partitions rt size n s1) λ _ e2. Yields-ok (
        omega
          (arith, (read_full-ok size s e1).2, (decode_partitions-Shorter rt size n s1).holds _ e2))

pub efi_gpt-KeepsTrailing :
    (rt : Runtime) (bytes : Bytes)
    → Yields (KeepsTrailing bytes) (decode_event_data_efi_gpt rt bytes)
unfolding decode_event_data_efi_gpt raw_bytes
efi_gpt-KeepsTrailing rt bytes = Yields-bind (read_guid (drop 56 bytes)) λ (_, s1) e1.
    Yields-bind (read_uint 4 (drop 12 s1)) λ (size, s2) e2.
      Yields-bind (read_uint 8 (drop 4 s2)) λ (n, s3) e3. Yields-bind (make rt 48 n) λ _ _.
        Yields-bind (decode_partitions rt size n s3) λ _ e4. Yields-ok (
          refl,
          omega (
            arith,
            (read_guid-takes (drop 56 bytes)).holds _ e1,
            read_uint-ok 4 (drop 12 s1) e2,
            read_uint-ok 8 (drop 4 s2) e3,
            (decode_partitions-Shorter rt size n s3).holds _ e4,
            length-drop 56 bytes,
            length-drop 12 s1,
            length-drop 4 s2,
          ),
        )
