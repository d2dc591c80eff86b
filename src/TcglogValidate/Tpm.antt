-- ===== src/TcglogValidate/Tpm.antt =====
-- tcglog-validate/main.go: reading the PCRs of a TPM. The package go-tpm2 is a parameter.
pub mod Values
pub mod Read
pub mod First
use tcglog_parser.Common.{
  ℕ, suc, ◌⊎◌, inl, inr, Bool, Option, none, some, List, [], ◌∷◌, ◌++◌, ◌==◌, if◌then◌else◌, Map,
  lookup, insert,
}
use tcglog_parser.Go.Reader.{Bytes}
use tcglog_parser.Go.Text.{codes, hex_padded}
use tcglog_parser.Types.Algorithm
use tcglog_parser.Log.Format.{digest_of}

-- tpm2.PCRSelection
pub record PcrSelection : Type 0 where
  pub hash : ℕ
  pub select : List ℕ

-- A tpm2.TPMContext, as far as the program calls it; an error is its text.
pub record TpmDevice : Type 0 where
  -- Whether GetCapabilityTPMProperties(PropertyManufacturer, 1) gives no error.
  pub has_properties : Bool
  -- PCRRead: the values by bank and PCR.
  pub pcr_read : List PcrSelection → Bytes ⊎ Map (Map Bytes)
  -- The `n`-th RunCommandBytes, of a tag, a command code and parameters: the response code and bytes.
  pub run_command : ℕ → ℕ → ℕ → Bytes → Bytes ⊎ (ℕ × Bytes)

-- The package go-tpm2.
pub record TpmLibrary : Type 0 where
  -- OpenTPMDevice: an error, or the device that it opened, by a number.
  pub open_device : Bytes → Bytes ⊎ ℕ
  -- NewTPMContext on that device: nil where it gives an error, which the program drops.
  pub new_context : ℕ → Option TpmDevice
  -- MarshalToBytes of 32-bit integers
  pub marshal : List ℕ → Bytes ⊎ Bytes
  -- Success
  pub success : ℕ

-- What a function returns that can give an error, or panic.
pub data Answer {ℓ} (A : Type ℓ) : Type ℓ where
  answered : A → Answer A
  refused : Bytes → Answer A
  crashed : Answer A

abbrev pub then_answer {ℓ κ} : {A : Type ℓ} {B : Type κ} → Answer A → (A → Answer B) → Answer B
then_answer (answered a) next = next a
then_answer (refused message) next = refused message
then_answer crashed next = crashed

-- m[first][second], where a missing key gives nil.
abbrev pub inner : Option (Map Bytes) → Map Bytes
inner (some m) = m
inner none = []

abbrev pub value_at : ℕ → ℕ → Map (Map Bytes) → Bytes
value_at first second m = digest_of second (inner (lookup first m))

-- m[first][second] = value, which panics where m[first] is nil.
unfoldable pub store_in :
    Option (Map Bytes) → ℕ → ℕ → Bytes → Map (Map Bytes) → Answer (Map (Map Bytes))
store_in none first second value m = crashed
store_in (some values) first second value m = answered (insert first (insert second value values) m)

abbrev pub store : ℕ → ℕ → Bytes → Map (Map Bytes) → Answer (Map (Map Bytes))
store first second value m = store_in (lookup first m) first second value m

-- pcrIndexListToSelectionData; an int holds the 32 bits of an index.
unfoldable pub pcr_index_list_to_selection_data : List ℕ → List ℕ
pcr_index_list_to_selection_data [] = []
pcr_index_list_to_selection_data (i ∷ l) = i ∷ pcr_index_list_to_selection_data l

unfoldable pub selections_for : List ℕ → List ℕ → List PcrSelection
selections_for [] pcrs = []
selections_for (alg ∷ algorithms) pcrs =
    record { hash = alg; select = pcr_index_list_to_selection_data pcrs }
    ∷ selections_for algorithms pcrs

-- The loop that makes an empty map for each PCR.
unfoldable pub empty_values : List ℕ → Map (Map Bytes) → Map (Map Bytes)
empty_values [] m = m
empty_values (i ∷ pcrs) m = empty_values pcrs (insert i [] m)

-- The inner loop that stores the values of a bank, and the outer one.
unfoldable pub store_bank :
    Map (Map Bytes) → ℕ → List ℕ → Map (Map Bytes) → Answer (Map (Map Bytes))
store_bank digests alg [] m = answered m
store_bank digests alg (i ∷ pcrs) m =
    then_answer (store i alg (value_at alg i digests) m) (store_bank digests alg pcrs)

unfoldable pub store_banks :
    Map (Map Bytes) → List PcrSelection → Map (Map Bytes) → Answer (Map (Map Bytes))
store_banks digests [] m = answered m
store_banks digests (s ∷ selections) m =
    then_answer (store_bank digests s.hash s.select m) (store_banks digests selections)

unfoldable pub store_answer :
    List PcrSelection → List ℕ → Bytes ⊎ Map (Map Bytes) → Answer (Map (Map Bytes))
store_answer selections pcrs (inl message) = refused (codes "cannot read PCR values: " ++ message)
store_answer selections pcrs (inr digests) = store_banks digests selections (empty_values pcrs [])

-- readPCRsFromTPM2Device
unfoldable pub read_pcrs_from_tpm2_device : TpmDevice → List ℕ → List ℕ → Answer (Map (Map Bytes))
read_pcrs_from_tpm2_device tpm algorithms pcrs =
    let selections = selections_for algorithms pcrs in
    store_answer selections pcrs (tpm.pcr_read selections)

-- The response to one TPM_PCRRead.
unfoldable pub pcr_response : TpmLibrary → Bytes ⊎ (ℕ × Bytes) → Answer Bytes
pcr_response lib (inl message) = refused (codes "cannot read PCR values: " ++ message)
pcr_response lib (inr (rc, out)) =
    if rc == lib.success
    then answered out
    else refused (
        codes "cannot read PCR values: unexpected response code (0x"
        ++ (hex_padded 8 rc ++ codes ")"))

unfoldable pub pcr_request : TpmLibrary → TpmDevice → ℕ → Bytes ⊎ Bytes → Answer Bytes
pcr_request lib tpm n (inl message) =
    refused (codes "cannot read PCR values due to a marshalling error: " ++ message)
pcr_request lib tpm n (inr parameters) =
    pcr_response lib (tpm.run_command n 0x00c1 0x00000015 parameters)

-- The loop of readPCRsFromTPM1Device; `n` counts the commands.
unfoldable pub read_pcrs_from_tpm1_device :
    TpmLibrary → TpmDevice → ℕ → List ℕ → Map (Map Bytes) → Answer (Map (Map Bytes))
read_pcrs_from_tpm1_device lib tpm n [] m = answered m
read_pcrs_from_tpm1_device lib tpm n (i ∷ pcrs) m =
    then_answer (pcr_request lib tpm n (lib.marshal (i ∷ []))) λ out.
      read_pcrs_from_tpm1_device lib tpm (suc n) pcrs (insert i (insert Algorithm.sha1 out []) m)

abbrev pub is_success : TpmLibrary → Bytes ⊎ (ℕ × Bytes) → Bool
is_success lib (inl message) = Bool.false
is_success lib (inr (rc, out)) = rc == lib.success

unfoldable pub tpm1_version : TpmLibrary → TpmDevice → Bytes ⊎ Bytes → ℕ
tpm1_version lib tpm (inl message) = 0
tpm1_version lib tpm (inr parameters) =
    if is_success lib (tpm.run_command 0 0x00c1 0x00000065 parameters) then 1 else 0

-- getTPMDeviceVersion
unfoldable pub get_tpm_device_version : TpmLibrary → TpmDevice → ℕ
get_tpm_device_version lib tpm =
    if tpm.has_properties
    then 2
    else tpm1_version lib tpm (lib.marshal (0x00000005 ∷ 4 ∷ 0x00000103 ∷ []))

-- readPCRs with a context: the first call of a method of a nil context panics.
unfoldable pub read_pcrs_of :
    TpmLibrary → List ℕ → List ℕ → Option TpmDevice → Answer (Map (Map Bytes))
read_pcrs_of lib algorithms pcrs none = crashed
read_pcrs_of lib algorithms pcrs (some tpm) =
    let version = get_tpm_device_version lib tpm in
    if version == 2
    then read_pcrs_from_tpm2_device tpm algorithms pcrs
    else if version == 1
    then read_pcrs_from_tpm1_device lib tpm 1 pcrs []
    else refused (codes "not a valid TPM device")

-- readPCRs behind the opening of the device.
unfoldable pub read_pcrs_opened :
    TpmLibrary → List ℕ → List ℕ → Bytes ⊎ ℕ → Answer (Map (Map Bytes))
read_pcrs_opened lib algorithms pcrs (inl message) =
    refused (codes "could not open TPM device: " ++ message)
read_pcrs_opened lib algorithms pcrs (inr tcti) =
    read_pcrs_of lib algorithms pcrs (lib.new_context tcti)

-- readPCRs
unfoldable pub read_pcrs : TpmLibrary → Bytes → List ℕ → List ℕ → Answer (Map (Map Bytes))
read_pcrs lib tpm_path algorithms pcrs =
    read_pcrs_opened lib algorithms pcrs (lib.open_device tpm_path)
