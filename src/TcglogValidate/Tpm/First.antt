-- ===== src/TcglogValidate/Tpm/First.antt =====
-- What is read from a TPM 1.2 device.
use mathlib.Core.List.Memᴰ
use mathlib.Core.List.{Memᴰ}
use tcglog_parser.Common.{
  ℕ, suc, ◌≡◌, refl, sym, ap, ◌∙◌, ◌⊎◌, inl, inr, List, [], ◌∷◌, ◌==◌, ==_iff, ==_refl, Bool-cases,
  Map, insert,
}
use tcglog_parser.Go.Reader.{Bytes}
use tcglog_parser.Types.Algorithm
use tcglog_parser.TcglogValidate.Tpm.{
  TpmLibrary, TpmDevice, answered, then_answer, value_at, pcr_response, pcr_request,
  read_pcrs_from_tpm1_device,
}
use tcglog_parser.TcglogValidate.Tpm.Values.{
  value_at-insert_other, value_at-insert_same, digest_of-insert_same,
}

-- A device that answers TPM_PCRRead of some PCRs with values that stay the same.
pub record Answers (lib : TpmLibrary) (tpm : TpmDevice) (pcrs : List ℕ) (value : ℕ → Bytes)
    : Type 0 where
  -- The PCR index as the parameter of the command.
  pub parameters : ℕ → Bytes
  pub marshals : (i : ℕ) → Memᴰ i pcrs → lib.marshal (i ∷ []) ≡ inr (parameters i)
  pub runs :
      (n i : ℕ)
      → Memᴰ i pcrs
      → tpm.run_command n 0x00c1 0x00000015 (parameters i) ≡ inr (lib.success, value i)

module _ (lib : TpmLibrary) (tpm : TpmDevice) (value : ℕ → Bytes) where
  pcr_request-answered :
      (pcrs : List ℕ) (n i : ℕ)
      → Answers lib tpm pcrs value
      → Memᴰ i pcrs
      → pcr_request lib tpm n (lib.marshal (i ∷ [])) ≡ answered (value i)
  unfolding pcr_request pcr_response
  pcr_request-answered pcrs n i a mem =
      ap (pcr_request lib tpm n) (a.marshals i mem)
      ∙ ap (pcr_response lib) (a.runs n i mem)
      ∙ rw (==_refl lib.success) refl

  -- The value of PCR `i` is the one that the device gives.
  abbrev IsLoaded : Map (Map Bytes) → ℕ → Type 0
  IsLoaded m i = value_at i Algorithm.sha1 m ≡ value i

  insert-IsLoaded :
      (i j : ℕ) (m : Map (Map Bytes))
      → (j ≡ i) ⊎ IsLoaded m i
      → IsLoaded (insert j (insert Algorithm.sha1 (value j) []) m) i
  insert-IsLoaded i j m h = elim (Bool-cases (j == i)) [
    | inl same ↦
        value_at-insert_same i Algorithm.sha1 j _ m same
        ∙ digest_of-insert_same Algorithm.sha1 Algorithm.sha1 (value j) [] (==_refl Algorithm.sha1)
        ∙ ap value ((==_iff j i).0 same)
    | inr other ↦ elim h [
      | inl e ↦ cc ((==_iff j i).1 e, other)
      | inr read ↦ value_at-insert_other i Algorithm.sha1 j _ m other ∙ read
    ]
  ]

  loop-IsLoaded :
      (pcrs l : List ℕ) (n : ℕ) (m : Map (Map Bytes))
      → Answers lib tpm pcrs value
      → ((i : ℕ) → Memᴰ i l → Memᴰ i pcrs)
      → (values : Map (Map Bytes)) × (read_pcrs_from_tpm1_device lib tpm n l m ≡ answered values)
        × ((i : ℕ) → Memᴰ i l ⊎ IsLoaded m i → IsLoaded values i)
  unfolding read_pcrs_from_tpm1_device
  loop-IsLoaded pcrs [] n m a sub =
      (m, refl, λ i h. elim h [ inl mem ↦ absurd (Memᴰ.not-nil mem) | inr read ↦ read ])
  loop-IsLoaded pcrs (j ∷ l) n m a sub =
      let m' = insert j (insert Algorithm.sha1 (value j) []) m in
      let (values, e, reads) = loop-IsLoaded pcrs l (suc n) m' a (λ i mem. sub i (Memᴰ.tail mem)) in
      (
        values,
        ap
              (λ x. then_answer x λ out.
                read_pcrs_from_tpm1_device lib tpm (suc n) l
                  (insert j (insert Algorithm.sha1 out []) m))
              (pcr_request-answered pcrs n j a (sub j (Memᴰ.head refl)))
            ∙ e,
        λ i h. elim h [
          | inl mem ↦ elim (Memᴰ.cases_cons mem) [
            | inl same ↦ reads i (inr (insert-IsLoaded i j m (inl (sym same))))
            | inr rest ↦ reads i (inl rest)
          ]
          | inr read ↦ reads i (inr (insert-IsLoaded i j m (inr read)))
        ],
      )

-- Reading the PCRs of a TPM 1.2 device, which answers each TPM_PCRRead of a PCR asked for with success and
-- with a value that stays the same, neither fails nor panics, and gives for each of these PCRs that value
-- in the SHA-1 bank.
pub read_pcrs_from_tpm1_device-IsLoaded :
    (lib : TpmLibrary) (tpm : TpmDevice) (value : ℕ → Bytes) (n : ℕ) (pcrs : List ℕ)
    → Answers lib tpm pcrs value
    → (values : Map (Map Bytes)) × (read_pcrs_from_tpm1_device lib tpm n pcrs [] ≡ answered values)
      × ((i : ℕ) → Memᴰ i pcrs → value_at i Algorithm.sha1 values ≡ value i)
read_pcrs_from_tpm1_device-IsLoaded lib tpm value n pcrs a =
    let (values, e, reads) = loop-IsLoaded lib tpm value pcrs pcrs n [] a (λ i mem. mem) in
    (values, e, λ i mem. reads i (inl mem))
