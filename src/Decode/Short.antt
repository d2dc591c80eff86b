-- ===== src/Decode/Short.antt =====
-- Event data that is shorter than the fixed fields that its decoder reads first.
use mathlib.Core.Path.{subst}
use tcglog_parser.Common.{
  ℕ, ◌+◌, ◌<◌, ◌≡◌, refl, sym, ap, ◌∙◌, ◌⊎◌, inl, inr, Bool, false, arith, length, length-drop,
  drop,
}
use tcglog_parser.Errors.{eof, unexpected_eof, Result, ok, err, panic, ◌>>=◌}
use tcglog_parser.Go.Reader.{Bytes, read_full, read_uint, le}
use tcglog_parser.Go.Reader.Laws.{read_full-ok}
use tcglog_parser.Go.Runtime.{Runtime}
use tcglog_parser.Types.{LogOptions}
use tcglog_parser.Types.EventType
use tcglog_parser.EventData.{broken}
use tcglog_parser.Decode.Guid.{read_guid, guid_of}
use tcglog_parser.Decode.NoAction.{decode_event_data_no_action}
use tcglog_parser.Decode.Variable.{decode_event_data_efi_variable}
use tcglog_parser.Decode.Image.{decode_event_data_efi_image_load, decode_event_data_efi_gpt}
use tcglog_parser.Decode.Kinds.{IsVariable, IsImage}
use tcglog_parser.Decode.Dispatch.{
  Decoded, decode_event_data_tcg, decode_event_data_impl, settled, decode_event_data,
}

-- The outcome of reading past the end.
abbrev IsCutShort {ℓ} : {A : Type ℓ} → Result A → Type ℓ
IsCutShort r = (r ≡ err eof) ⊎ (r ≡ err unexpected_eof)

-- Reading takes `n` bytes, or ends at the end of the stream.
abbrev TakesOrEnds : {A : Type 0} → ℕ → Bytes → Result (A × Bytes) → Type 0
TakesOrEnds {A} n s r = IsCutShort r ⊎ ((p : A × Bytes) × (r ≡ ok p) × (n + length p.1 ≡ length s))

IsCutShort-bind {ℓ κ} :
    {A : Type ℓ} {B : Type κ} (r : Result A) (f : A → Result B)
    → IsCutShort r
    → IsCutShort (r >>= f)
IsCutShort-bind r f (inl e) = inl (ap (λ x. x >>= f) e)
IsCutShort-bind r f (inr e) = inr (ap (λ x. x >>= f) e)

-- A stream of fewer than `n + k` bytes ends in the reading of `n` bytes, or in what reads `k` more.
IsCutShort-then :
    {A B : Type 0} (n k : ℕ) (s : Bytes) (r : Result (A × Bytes)) (f : A × Bytes → Result B)
    → TakesOrEnds n s r
    → length s < n + k
    → ((p : A × Bytes) → length p.1 < k → IsCutShort (f p))
    → IsCutShort (r >>= f)
IsCutShort-then n k s r f (inl short) h rest = IsCutShort-bind r f short
IsCutShort-then n k s r f (inr (p, e, taken)) h rest =
    subst IsCutShort (ap (λ x. x >>= f) (sym e)) (rest p (omega (arith, h, taken)))

-- The last read.
IsCutShort-last :
    {A B : Type 0} (n : ℕ) (s : Bytes) (r : Result (A × Bytes)) (f : A × Bytes → Result B)
    → TakesOrEnds n s r
    → length s < n
    → IsCutShort (r >>= f)
IsCutShort-last n s r f takes h =
    IsCutShort-then n 0 s r f takes (omega (arith, h))
      λ p none_left. absurd (omega (arith, none_left))

read_full-TakesOrEnds : (n : ℕ) (s : Bytes) → TakesOrEnds n s (read_full n s)
read_full-TakesOrEnds n s = go (read_full n s) refl
  where
    go : (r : Result (Bytes × Bytes)) → read_full n s ≡ r → TakesOrEnds n s r
    go (ok p) e = inr (p, refl, (read_full-ok n s e).2)
    go (err x) e = inl (unfold read_full in ground arith)
    go panic e = unfold read_full in ground arith

-- What is made of the bytes that were read.
TakesOrEnds-map :
    {A B : Type 0} (n : ℕ) (s : Bytes) (r : Result (A × Bytes)) (f : A → B)
    → TakesOrEnds n s r
    → TakesOrEnds n s (r >>= λ p. ok (f p.0, p.1))
TakesOrEnds-map n s r f (inl short) = inl (IsCutShort-bind r _ short)
TakesOrEnds-map n s r f (inr (p, e, taken)) =
    inr ((f p.0, p.1), ap (λ x. x >>= λ q. ok (f q.0, q.1)) e, taken)

read_uint-TakesOrEnds : (n : ℕ) (s : Bytes) → TakesOrEnds n s (read_uint n s)
unfolding read_uint
read_uint-TakesOrEnds n s = TakesOrEnds-map n s (read_full n s) le (read_full-TakesOrEnds n s)

read_guid-TakesOrEnds : (s : Bytes) → TakesOrEnds 16 s (read_guid s)
unfolding read_guid
read_guid-TakesOrEnds s = TakesOrEnds-map 16 s (read_full 16 s) guid_of (read_full-TakesOrEnds 16 s)

no_action-IsCutShort :
    (rt : Runtime) (bytes : Bytes)
    → length bytes < 16
    → IsCutShort (decode_event_data_no_action rt bytes)
unfolding decode_event_data_no_action
no_action-IsCutShort rt bytes h =
    IsCutShort-last 16 bytes (read_full 16 bytes) _ (read_full-TakesOrEnds 16 bytes) h

variable-IsCutShort :
    (rt : Runtime) (bytes : Bytes)
    → length bytes < 32
    → IsCutShort (decode_event_data_efi_variable rt bytes)
unfolding decode_event_data_efi_variable
variable-IsCutShort rt bytes h =
    IsCutShort-then 16 16 bytes (read_guid bytes) _ (read_guid-TakesOrEnds bytes) h λ (_, s1) h1.
      IsCutShort-then 8 8 s1 (read_uint 8 s1) _ (read_uint-TakesOrEnds 8 s1) h1
        λ (_, s2) h2. IsCutShort-last 8 s2 (read_uint 8 s2) _ (read_uint-TakesOrEnds 8 s2) h2

image-IsCutShort :
    (rt : Runtime) (bytes : Bytes)
    → length bytes < 32
    → IsCutShort (decode_event_data_efi_image_load rt bytes)
unfolding decode_event_data_efi_image_load
image-IsCutShort rt bytes h =
    IsCutShort-then 8 24 bytes (read_uint 8 bytes) _ (read_uint-TakesOrEnds 8 bytes) h λ (_, s1) h1.
      IsCutShort-then 8 16 s1 (read_uint 8 s1) _ (read_uint-TakesOrEnds 8 s1) h1 λ (_, s2) h2.
        IsCutShort-then 8 8 s2 (read_uint 8 s2) _ (read_uint-TakesOrEnds 8 s2) h2
          λ (_, s3) h3. IsCutShort-last 8 s3 (read_uint 8 s3) _ (read_uint-TakesOrEnds 8 s3) h3

gpt-IsCutShort :
    (rt : Runtime) (bytes : Bytes)
    → length bytes < 100
    → IsCutShort (decode_event_data_efi_gpt rt bytes)
unfolding decode_event_data_efi_gpt
gpt-IsCutShort rt bytes h =
    let s0 = drop 56 bytes in
    IsCutShort-then 16 28 s0 (read_guid s0) _ (read_guid-TakesOrEnds s0)
      (omega (arith, h, length-drop 56 bytes))
      λ (_, s1) h1.
        let r1 = drop 12 s1 in
        IsCutShort-then 4 12 r1 (read_uint 4 r1) _ (read_uint-TakesOrEnds 4 r1)
          (omega (arith, h1, length-drop 12 s1))
          λ (_, s2) h2.
            let r2 = drop 4 s2 in
            IsCutShort-last 8 r2 (read_uint 8 r2) _ (read_uint-TakesOrEnds 8 r2)
              (omega (arith, h2, length-drop 4 s2))

-- Event data of so many bytes ends within the fixed fields of the decoder of its type.
abbrev pub IsTooShort : ℕ → ℕ → Type 0
IsTooShort t n =
    ((t ≡ EventType.no_action) × (n < 16))
    ⊎ (IsVariable t × (n < 32))
    ⊎ (IsImage t × (n < 32))
    ⊎ ((t ≡ EventType.efi_gpt_event) × (n < 100))

tcg-IsCutShort :
    (rt : Runtime) (t : ℕ) (bytes : Bytes) (sep : Bool)
    → IsTooShort t (length bytes)
    → IsCutShort (decode_event_data_tcg rt t bytes sep)
unfolding decode_event_data_tcg
tcg-IsCutShort rt t bytes sep (inl (e, h)) =
    rw e (IsCutShort-bind _ _ (no_action-IsCutShort rt bytes h))
tcg-IsCutShort rt t bytes sep (inr (inl (inl e, h))) =
    rw e (IsCutShort-bind _ _ (variable-IsCutShort rt bytes h))
tcg-IsCutShort rt t bytes sep (inr (inl (inr (inl e), h))) =
    rw e (IsCutShort-bind _ _ (variable-IsCutShort rt bytes h))
tcg-IsCutShort rt t bytes sep (inr (inl (inr (inr e), h))) =
    rw e (IsCutShort-bind _ _ (variable-IsCutShort rt bytes h))
tcg-IsCutShort rt t bytes sep (inr (inr (inl (inl e, h)))) =
    rw e (IsCutShort-bind _ _ (image-IsCutShort rt bytes h))
tcg-IsCutShort rt t bytes sep (inr (inr (inl (inr (inl e), h)))) =
    rw e (IsCutShort-bind _ _ (image-IsCutShort rt bytes h))
tcg-IsCutShort rt t bytes sep (inr (inr (inl (inr (inr e), h)))) =
    rw e (IsCutShort-bind _ _ (image-IsCutShort rt bytes h))
tcg-IsCutShort rt t bytes sep (inr (inr (inr (e, h)))) =
    rw e (IsCutShort-bind _ _ (gpt-IsCutShort rt bytes h))

settled-IsCutShort :
    (bytes : Bytes) (r : Result Decoded)
    → IsCutShort r
    → settled bytes r ≡ ok (broken bytes unexpected_eof, 0)
settled-IsCutShort bytes r (inl e) = ap (settled bytes) e
settled-IsCutShort bytes r (inr e) = ap (settled bytes) e

-- With support for both boot loaders disabled, event data that ends within the fixed fields that its
-- decoder reads first (16 bytes for an EV_NO_ACTION event, 32 for an EFI variable or image event, 100 for
-- an EFI GPT event) gives broken event data with all the bytes, no trailing ones, and the error
-- io.ErrUnexpectedEOF, also where there are no bytes at all.
pub decode_event_data-too_short :
    (rt : Runtime) (pcr t : ℕ) (bytes : Bytes) (options : LogOptions) (sep : Bool)
    → options.enable_grub ≡ false
    → options.enable_systemd_efi_stub ≡ false
    → IsTooShort t (length bytes)
    → decode_event_data rt pcr t bytes options sep ≡ ok (broken bytes unexpected_eof, 0)
unfolding decode_event_data
decode_event_data-too_short rt pcr t bytes options sep no_grub no_stub h =
    ap (settled bytes) plain ∙ settled-IsCutShort bytes _ (tcg-IsCutShort rt t bytes sep h)
  where
    plain : decode_event_data_impl rt pcr t bytes options sep ≡ decode_event_data_tcg rt t bytes sep
    plain = unfold decode_event_data_impl in ground arith
