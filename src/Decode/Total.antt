-- ===== src/Decode/Total.antt =====
-- decodeEventData as a whole: it keeps the bytes of the event, except for GPT events.
use tcglog_parser.Common.{
  ℕ, ◌≡◌, refl, Bool, true, false, not, if◌then◌else◌, ◌&&◌, ◌||◌, Option, none, some, arith, ◌==◌,
  length,
}
use tcglog_parser.Errors.{
  Result, ok, err, panic, ◌>>=◌, Yields, Yields-ok, Yields-panic, Yields-bind, Yields-if,
}
use tcglog_parser.Go.Reader.{Bytes}
use tcglog_parser.Go.Runtime.{Runtime}
use tcglog_parser.Types.{LogOptions}
use tcglog_parser.Types.EventType
use tcglog_parser.EventData.{EventData, kernel_cmdline, grub_cmd, raw_bytes, grub_string}
use tcglog_parser.Decode.Boot.{
  decode_event_data_grub, decode_event_data_systemd_efi_stub, kernel_cmdline_prefix,
  grub_cmd_prefix, grub_text,
}
use tcglog_parser.Go.Text.{has_prefix}
use tcglog_parser.Decode.Dispatch.{
  Decoded, decode_event_data_tcg, stub_case, grub_case, decode_event_data_impl, settled,
  decode_event_data,
}
use tcglog_parser.Decode.Sound.{
  Keeps, KeepsTrailing, no_action-Keeps, efi_variable-KeepsTrailing, efi_image_load-Keeps,
  efi_gpt-KeepsTrailing,
}

-- What is decoded, if anything is, keeps the bytes.
abbrev KeepsDecoded : Bytes → Decoded → Type 0
KeepsDecoded bytes none = Unit
KeepsDecoded bytes (some d) = KeepsTrailing bytes d

no_trailing-Keeps :
    {bytes : Bytes} (r : Result EventData)
    → Yields (Keeps bytes) r
    → Yields (KeepsDecoded bytes) (r >>= λ d. ok (some (d, 0)))
no_trailing-Keeps r y = Yields-bind r λ d e. Yields-ok (y.holds d e, omega arith)

with_trailing-Keeps :
    {bytes : Bytes} (r : Result (EventData × ℕ))
    → Yields (KeepsTrailing bytes) r
    → Yields (KeepsDecoded bytes) (r >>= λ d. ok (some d))
with_trailing-Keeps r y = Yields-bind r λ d e. Yields-ok (y.holds d e)

tcg-Keeps :
    (rt : Runtime) (t : ℕ) (bytes : Bytes) (sep : Bool)
    → Yields (KeepsDecoded bytes) (decode_event_data_tcg rt t bytes sep)
unfolding decode_event_data_tcg raw_bytes
tcg-Keeps rt t bytes sep =
    Yields-if (t == EventType.no_action) (no_trailing-Keeps _ (no_action-Keeps rt bytes)) (
      Yields-if (t == EventType.separator) (Yields-ok (refl, omega arith)) (
        Yields-if (t == EventType.action || t == EventType.efi_action)
          (Yields-ok (refl, omega arith))
          (Yields-if _ (with_trailing-Keeps _ (efi_variable-KeepsTrailing rt bytes)) (
            Yields-if _ (no_trailing-Keeps _ (efi_image_load-Keeps rt bytes)) (
              Yields-if _ (with_trailing-Keeps _ (efi_gpt-KeepsTrailing rt bytes))
                (Yields-ok tt))))))

stub_case-Keeps : (bytes : Bytes) → Yields (KeepsDecoded bytes) (stub_case bytes)
unfolding stub_case decode_event_data_systemd_efi_stub raw_bytes
stub_case-Keeps bytes =
    no_trailing-Keeps _ (Yields-if (length bytes == 0) Yields-panic (Yields-ok refl))

abbrev KeepsFound : Bytes → Option EventData → Type 0
KeepsFound bytes none = Unit
KeepsFound bytes (some d) = Keeps bytes d

grub-KeepsFound :
    (pcr t : ℕ) (bytes : Bytes) → Yields (KeepsFound bytes) (decode_event_data_grub pcr t bytes)
unfolding decode_event_data_grub raw_bytes
grub-KeepsFound pcr t bytes = Yields-if (not (t == EventType.ipl)) (Yields-ok tt) (
    Yields-if (pcr == 8)
      (Yields-ok (
        found (has_prefix bytes kernel_cmdline_prefix) (has_prefix bytes grub_cmd_prefix)
          (grub_text kernel_cmdline_prefix bytes) (grub_text grub_cmd_prefix bytes)))
      (Yields-if (pcr == 9) (Yields-ok refl) Yields-panic))
  where
    found :
        (a b : Bool) (x y : Bytes)
        → KeepsFound bytes (
            if a
            then some (grub_string bytes kernel_cmdline x)
            else if b
            then some (grub_string bytes grub_cmd y)
            else none)
    found true b x y = refl
    found false true x y = refl
    found false false x y = tt

grub_case-Keeps : (pcr t : ℕ) (bytes : Bytes) → Yields (KeepsDecoded bytes) (grub_case pcr t bytes)
unfolding grub_case
grub_case-Keeps pcr t bytes = Yields-bind (decode_event_data_grub pcr t bytes) λ o e. found o e
  where
    found :
        (o : Option EventData)
        → decode_event_data_grub pcr t bytes ≡ ok o
        → Yields
            (KeepsDecoded bytes)
            (elim o [ some d ↦ ok (some (d, 0)) | none ↦ stub_case bytes ])
    found none e = stub_case-Keeps bytes
    found (some d) e = Yields-ok ((grub-KeepsFound pcr t bytes).holds _ e, omega arith)

settled-Keeps :
    (bytes : Bytes) (r : Result Decoded)
    → Yields (KeepsDecoded bytes) r
    → Yields (KeepsTrailing bytes) (settled bytes r)
unfolding raw_bytes
settled-Keeps bytes (ok none) y = Yields-ok (refl, omega arith)
settled-Keeps bytes (ok (some d)) y = Yields-ok (y.holds (some d) refl)
settled-Keeps bytes (err e) y = Yields-ok (refl, omega arith)
settled-Keeps bytes panic y = Yields-panic

-- The rule for a bind.
pub decode_event_data-Yields_trailing :
    (rt : Runtime) (pcr t : ℕ) (bytes : Bytes) (options : LogOptions) (sep : Bool)
    → Yields (KeepsTrailing bytes) (decode_event_data rt pcr t bytes options sep)
unfolding decode_event_data decode_event_data_impl
decode_event_data-Yields_trailing rt pcr t bytes options sep = settled-Keeps bytes _ (
    Yields-if (options.enable_grub && (pcr == 8 || pcr == 9)) (grub_case-Keeps pcr t bytes) (
      Yields-if
        (options.enable_systemd_efi_stub
          && pcr == options.systemd_efi_stub_pcr
          && t == EventType.ipl)
        (stub_case-Keeps bytes) (tcg-Keeps rt t bytes sep)))

-- Whatever decoder an event goes to, its data keeps the event's bytes unchanged, but for the data of
-- a GPT event, which holds no bytes at all (a nil slice). At most as many bytes are counted as
-- trailing as the event has.
pub decode_event_data-KeepsTrailing :
    (rt : Runtime) (pcr t : ℕ) (bytes : Bytes) (options : LogOptions) (sep : Bool) {d : EventData}
    {n : ℕ}
    → decode_event_data rt pcr t bytes options sep ≡ ok (d, n)
    → KeepsTrailing bytes (d, n)
decode_event_data-KeepsTrailing rt pcr t bytes options sep h =
    (decode_event_data-Yields_trailing rt pcr t bytes options sep).holds _ h
