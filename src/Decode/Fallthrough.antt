-- ===== src/Decode/Fallthrough.antt =====
-- The switch of decodeEventDataImpl where GRUB support is enabled: what becomes of events in PCRs 8
-- and 9 that GRUB did not record.
use tcglog_parser.Common.{
  ℕ, ◌≡◌, refl, ap, ◌∙◌, ◌≢◌, ◌⊎◌, inl, inr, Bool, true, none, some, [], ◌∷◌, arith,
}
use tcglog_parser.Errors.{bind-ok, ok, panic}
use tcglog_parser.Go.Reader.{Bytes}
use tcglog_parser.Go.Runtime.{Runtime}
use tcglog_parser.Types.{LogOptions}
use tcglog_parser.Types.EventType
use tcglog_parser.EventData.{systemd_efi_stub}
use tcglog_parser.Decode.Boot.{
  decode_event_data_grub, stub_text, decode_event_data_systemd_efi_stub,
}
use tcglog_parser.Decode.Dispatch.{
  stub_case, grub_case, decode_event_data_impl, settled, decode_event_data,
}

-- decodeEventDataGRUB leaves alone what is no EV_IPL event, and in PCR 8 what has no known prefix.
pub grub-none_of_type :
    (pcr t : ℕ) (bytes : Bytes) → t ≢ EventType.ipl → decode_event_data_grub pcr t bytes ≡ ok none
unfolding decode_event_data_grub
grub-none_of_type pcr t bytes h = ground arith

stub_case-cons :
    (b : ℕ) (bytes : Bytes)
    → stub_case (b ∷ bytes) ≡ ok (some (systemd_efi_stub (b ∷ bytes) (stub_text (b ∷ bytes)), 0))
unfolding stub_case decode_event_data_systemd_efi_stub
stub_case-cons b bytes = ground arith

module _ (rt : Runtime) (options : LogOptions) (sep : Bool) (pcr t : ℕ)
    (enabled : options.enable_grub ≡ true) (in_pcr : (pcr ≡ 8) ⊎ (pcr ≡ 9)) where
  impl-grub_case :
      (bytes : Bytes) → decode_event_data_impl rt pcr t bytes options sep ≡ grub_case pcr t bytes
  unfolding decode_event_data_impl
  impl-grub_case bytes = ground arith

  grub_case-stub :
      (bytes : Bytes)
      → decode_event_data_grub pcr t bytes ≡ ok none
      → grub_case pcr t bytes ≡ stub_case bytes
  unfolding grub_case
  grub_case-stub bytes h = bind-ok _ h

  -- With GRUB support enabled, every event of PCR 8 or 9 that the GRUB decoder leaves alone and that
  -- has data is decoded as an event of the systemd EFI stub, whatever its type is and whether or not
  -- support for that stub is enabled; with no data it panics.
  pub decode_event_data-fallthrough :
      (bytes : Bytes)
      → decode_event_data_grub pcr t bytes ≡ ok none
      → ((bytes ≢ [])
          × (decode_event_data rt pcr t bytes options sep
              ≡ ok (systemd_efi_stub bytes (stub_text bytes), 0)))
        ⊎ ((bytes ≡ []) × (decode_event_data rt pcr t bytes options sep ≡ panic))
  unfolding decode_event_data stub_case decode_event_data_systemd_efi_stub
  decode_event_data-fallthrough [] h =
      inr (refl, ap (settled []) (impl-grub_case [] ∙ grub_case-stub [] h))
  decode_event_data-fallthrough (b ∷ bytes) h = inl (
    λ e. cc,
    ap (settled (b ∷ bytes))
        (impl-grub_case (b ∷ bytes) ∙ grub_case-stub (b ∷ bytes) h ∙ stub_case-cons b bytes),
  )
