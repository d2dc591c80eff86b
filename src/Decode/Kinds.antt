-- ===== src/Decode/Kinds.antt =====
-- Which kinds of data an event type can have where support for the boot loaders is disabled.
use mathlib.Core.Path.{subst}
use tcglog_parser.Common.{
  ℕ, ◌≡◌, refl, sym, ◌∙◌, ◌⊎◌, Bool, false, ◌||◌, none, some, [], arith, ◌==◌, ==_iff, drop,
}
use tcglog_parser.Errors.{
  Error, Result, ok, err, panic, Yields, Yields-ok, Yields-panic, Yields-bind, Yields-if,
  Yields-if_eq,
}
use tcglog_parser.Go.Reader.{Bytes, read_full, read_uint}
use tcglog_parser.Go.Runtime.{Runtime, make}
use tcglog_parser.Go.Text.{equal}
use tcglog_parser.Types.{LogOptions}
use tcglog_parser.Types.EventType
use tcglog_parser.EventData.{
  EventData, broken, opaque, spec_id, ascii_string, unknown_no_action, separator, startup_locality,
  bim_reference_manifest, efi_variable, efi_image_load, efi_gpt, grub_string, systemd_efi_stub,
}
use tcglog_parser.Decode.Guid.{read_guid}
use tcglog_parser.Decode.SpecId.{decode_spec_id_event}
use tcglog_parser.Decode.NoAction.{
  decode_startup_locality_event, decode_bim_reference_manifest_event, no_action_switch,
  decode_event_data_no_action,
}
use tcglog_parser.Decode.Variable.{extract_utf16_buffer, decode_event_data_efi_variable}
use tcglog_parser.Decode.DevicePath.{decode_device_path}
use tcglog_parser.Decode.Image.{
  finished, decode_event_data_efi_image_load, decode_partitions, decode_event_data_efi_gpt,
}
use tcglog_parser.Decode.Dispatch.{
  is_variable_type, is_image_type, Decoded, decode_event_data_tcg, decode_event_data_impl, settled,
  decode_event_data,
}

abbrev pub IsVariable : ℕ → Type 0
IsVariable t =
    (t ≡ EventType.efi_variable_driver_config)
    ⊎ (t ≡ EventType.efi_variable_boot)
    ⊎ (t ≡ EventType.efi_variable_authority)

abbrev pub IsImage : ℕ → Type 0
IsImage t =
    (t ≡ EventType.efi_boot_services_application)
    ⊎ (t ≡ EventType.efi_boot_services_driver)
    ⊎ (t ≡ EventType.efi_runtime_services_driver)

-- The event types with a decoder that can fail.
abbrev CanFail : ℕ → Type 0
CanFail t = (t ≡ EventType.no_action) ⊎ IsVariable t ⊎ IsImage t ⊎ (t ≡ EventType.efi_gpt_event)

-- The event types with a decoder that cannot.
abbrev CannotFail : ℕ → Type 0
CannotFail t = (t ≡ EventType.separator) ⊎ (t ≡ EventType.action) ⊎ (t ≡ EventType.efi_action)

-- The event types of each kind of data: data is opaque for the types without a decoder alone.
abbrev pub IsFor : ℕ → EventData → Type 0
IsFor t (broken _ _) = CanFail t
IsFor t (opaque _) = ¬ CanFail t × ¬ CannotFail t
IsFor t (spec_id _) = t ≡ EventType.no_action
IsFor t (unknown_no_action _) = t ≡ EventType.no_action
IsFor t (startup_locality _ _) = t ≡ EventType.no_action
IsFor t (bim_reference_manifest _ _ _) = t ≡ EventType.no_action
IsFor t (separator _ _) = t ≡ EventType.separator
IsFor t (ascii_string _) = (t ≡ EventType.action) ⊎ (t ≡ EventType.efi_action)
IsFor t (efi_variable _) = IsVariable t
IsFor t (efi_image_load _) = IsImage t
IsFor t (efi_gpt _) = t ≡ EventType.efi_gpt_event
IsFor t (grub_string _ _ _) = ⊥
IsFor t (systemd_efi_stub _ _) = ⊥

-- Only variable and GPT events have trailing bytes.
abbrev pub MayTrail : EventData → ℕ → Type 0
MayTrail (efi_variable _) n = Unit
MayTrail (efi_gpt _) n = Unit
MayTrail d n = n ≡ 0

-- The constructors that decodeEventDataNoAction can return.
abbrev IsNoAction : EventData → Type 0
IsNoAction (spec_id _) = Unit
IsNoAction (unknown_no_action _) = Unit
IsNoAction (startup_locality _ _) = Unit
IsNoAction (bim_reference_manifest _ _ _) = Unit
IsNoAction _ = ⊥

abbrev IsEfiVariable : EventData × ℕ → Type 0
IsEfiVariable (efi_variable _, _) = Unit
IsEfiVariable _ = ⊥

abbrev IsEfiGpt : EventData × ℕ → Type 0
IsEfiGpt (efi_gpt _, _) = Unit
IsEfiGpt _ = ⊥

abbrev IsEfiImageLoad : EventData → Type 0
IsEfiImageLoad (efi_image_load _) = Unit
IsEfiImageLoad _ = ⊥

decode_event_data_no_action-IsNoAction :
    (rt : Runtime) (bytes : Bytes) → Yields IsNoAction (decode_event_data_no_action rt bytes)
unfolding decode_event_data_no_action no_action_switch decode_startup_locality_event
    decode_bim_reference_manifest_event
decode_event_data_no_action-IsNoAction rt bytes = Yields-bind (read_full 16 bytes) λ (sig, s) _.
    Yields-if (equal sig _) (Yields-bind (decode_spec_id_event s bytes _) λ _ _. Yields-ok tt) (
      Yields-if (equal sig _) (Yields-bind (decode_spec_id_event s bytes _) λ _ _. Yields-ok tt) (
        Yields-if (equal sig _) (Yields-bind (decode_spec_id_event s bytes _) λ _ _. Yields-ok tt) (
          Yields-if (equal sig _) (Yields-bind (read_full 20 s) λ _ _. Yields-ok tt) (
            Yields-if (equal sig _) (Yields-bind (read_uint 1 s) λ _ _. Yields-ok tt)
              (Yields-ok tt)))))

variable-IsEfiVariable :
    (rt : Runtime) (bytes : Bytes) → Yields IsEfiVariable (decode_event_data_efi_variable rt bytes)
unfolding decode_event_data_efi_variable
variable-IsEfiVariable rt bytes = Yields-bind (read_guid bytes) λ (_, s1) _.
    Yields-bind (read_uint 8 s1) λ (n, s2) _. Yields-bind (read_uint 8 s2) λ (m, s3) _.
      Yields-bind (extract_utf16_buffer n s3) λ (_, s4) _.
        Yields-bind (make rt 1 m) λ _ _. Yields-bind (read_full m s4) λ _ _. Yields-ok tt

gpt-IsEfiGpt : (rt : Runtime) (bytes : Bytes) → Yields IsEfiGpt (decode_event_data_efi_gpt rt bytes)
unfolding decode_event_data_efi_gpt
gpt-IsEfiGpt rt bytes = Yields-bind (read_guid (drop 56 bytes)) λ (_, s1) _.
    Yields-bind (read_uint 4 (drop 12 s1)) λ (size, s2) _.
      Yields-bind (read_uint 8 (drop 4 s2)) λ (n, s3) _.
        Yields-bind (make rt 48 n)
          λ _ _. Yields-bind (decode_partitions rt size n s3) λ _ _. Yields-ok tt

image-IsEfiImageLoad :
    (rt : Runtime) (bytes : Bytes)
    → Yields IsEfiImageLoad (decode_event_data_efi_image_load rt bytes)
unfolding decode_event_data_efi_image_load
image-IsEfiImageLoad rt bytes = Yields-bind (read_uint 8 bytes) λ (_, s1) _.
    Yields-bind (read_uint 8 s1) λ (_, s2) _. Yields-bind (read_uint 8 s2) λ (_, s3) _.
      Yields-bind (read_uint 8 s3) λ (n, s4) _. Yields-bind (make rt 1 n) λ _ _.
        Yields-bind (read_full n s4)
          λ (b, _) _. Yields-bind (finished (decode_device_path b)) λ _ _. Yields-ok tt

-- The statement about what is decoded, nil included.
abbrev KindOf : ℕ → Decoded → Type 0
KindOf t none = IsFor t (opaque [])
KindOf t (some (d, n)) = IsFor t d × MayTrail d n

no_action-KindOf : (d : EventData) → IsNoAction d → KindOf EventType.no_action (some (d, 0))
no_action-KindOf (spec_id d) h = (refl, refl)
no_action-KindOf (unknown_no_action d) h = (refl, refl)
no_action-KindOf (startup_locality d l) h = (refl, refl)
no_action-KindOf (bim_reference_manifest d v g) h = (refl, refl)
no_action-KindOf _ h = absurd h

variable-KindOf : {t : ℕ} (d : EventData × ℕ) → IsVariable t → IsEfiVariable d → KindOf t (some d)
variable-KindOf (efi_variable d, n) v h = (v, tt)
variable-KindOf (_, n) v h = absurd h

gpt-KindOf : (d : EventData × ℕ) → IsEfiGpt d → KindOf EventType.efi_gpt_event (some d)
gpt-KindOf (efi_gpt d, n) h = (refl, tt)
gpt-KindOf (_, n) h = absurd h

image-KindOf : {t : ℕ} (d : EventData) → IsImage t → IsEfiImageLoad d → KindOf t (some (d, 0))
image-KindOf (efi_image_load d) v h = (v, refl)
image-KindOf _ v h = absurd h

tcg-KindOf :
    (rt : Runtime) (t : ℕ) (bytes : Bytes) (sep : Bool)
    → Yields (KindOf t) (decode_event_data_tcg rt t bytes sep)
unfolding decode_event_data_tcg
tcg-KindOf rt t bytes sep =
    Yields-if_eq (t == EventType.no_action)
      (λ h. Yields-bind (decode_event_data_no_action rt bytes) λ d e. Yields-ok (
        rw ((==_iff t EventType.no_action).0 h)
          (no_action-KindOf d ((decode_event_data_no_action-IsNoAction rt bytes).holds d e))))
      (λ n1.
        Yields-if_eq (t == EventType.separator) (λ h. Yields-ok (ground arith, refl))
          (λ n2.
            Yields-if_eq (t == EventType.action || t == EventType.efi_action)
              (λ h. Yields-ok (ground arith, refl))
              (λ n3.
                Yields-if_eq (is_variable_type t)
                  (λ h. Yields-bind (decode_event_data_efi_variable rt bytes) λ d e. Yields-ok (
                    variable-KindOf {t = t} d (ground arith)
                      ((variable-IsEfiVariable rt bytes).holds d e)))
                  (λ n4.
                    Yields-if_eq (is_image_type t)
                      (λ h. Yields-bind (decode_event_data_efi_image_load rt bytes) λ d e.
                        Yields-ok (
                          image-KindOf {t = t} d (ground arith)
                            ((image-IsEfiImageLoad rt bytes).holds d e)))
                      (λ n5.
                        Yields-if_eq (t == EventType.efi_gpt_event)
                          (λ h. Yields-bind (decode_event_data_efi_gpt rt bytes) λ d e. Yields-ok (
                            rw ((==_iff t EventType.efi_gpt_event).0 h)
                              (gpt-KindOf d ((gpt-IsEfiGpt rt bytes).holds d e))))
                          (λ n6. Yields-ok (ground arith, ground arith)))))))

-- An error comes from a decoder that can fail.
tcg-CanFail :
    (rt : Runtime) (t : ℕ) (bytes : Bytes) (sep : Bool) {e : Error}
    → decode_event_data_tcg rt t bytes sep ≡ err e
    → CanFail t
unfolding decode_event_data_tcg
tcg-CanFail rt t bytes sep h = ground arith

settled-KindOf :
    (t : ℕ) (bytes : Bytes) (r : Result Decoded)
    → Yields (KindOf t) r
    → ((e : Error) → r ≡ err e → CanFail t)
    → Yields (λ (d, n). IsFor t d × MayTrail d n) (settled bytes r)
settled-KindOf t bytes (ok none) y f = Yields-ok (y.holds none refl, refl)
settled-KindOf t bytes (ok (some d)) y f = Yields-ok (y.holds (some d) refl)
settled-KindOf t bytes (err e) y f = Yields-ok (f e refl, refl)
settled-KindOf t bytes panic y f = Yields-panic

-- The rule for a bind.
pub decode_event_data-Yields_kind :
    (rt : Runtime) (pcr t : ℕ) (bytes : Bytes) (options : LogOptions) (sep : Bool)
    → options.enable_grub ≡ false
    → options.enable_systemd_efi_stub ≡ false
    → Yields (λ (d, n). IsFor t d × MayTrail d n) (decode_event_data rt pcr t bytes options sep)
unfolding decode_event_data
decode_event_data-Yields_kind rt pcr t bytes options sep no_grub no_stub =
    settled-KindOf t bytes (decode_event_data_impl rt pcr t bytes options sep)
      (subst (Yields (KindOf t)) (sym plain) (tcg-KindOf rt t bytes sep))
      (λ e h. tcg-CanFail rt t bytes sep (sym plain ∙ h))
  where
    plain : decode_event_data_impl rt pcr t bytes options sep ≡ decode_event_data_tcg rt t bytes sep
    plain = unfold decode_event_data_impl in ground arith

-- With support for both boot loaders disabled, the kind of an event's data fits the event's type: it is
-- the kind of the type's decoder, opaque for the types without a decoder alone, and broken for the types
-- whose decoder can fail alone. Only EFI variable and GPT events have trailing bytes.
pub decode_event_data-IsFor :
    (rt : Runtime) (pcr t : ℕ) (bytes : Bytes) (options : LogOptions) (sep : Bool) {d : EventData}
    {n : ℕ}
    → options.enable_grub ≡ false
    → options.enable_systemd_efi_stub ≡ false
    → decode_event_data rt pcr t bytes options sep ≡ ok (d, n)
    → IsFor t d × MayTrail d n
decode_event_data-IsFor rt pcr t bytes options sep no_grub no_stub h =
    (decode_event_data-Yields_kind rt pcr t bytes options sep no_grub no_stub).holds _ h
