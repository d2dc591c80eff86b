-- ===== src/TcglogValidate/Tpm/Read.antt =====
-- What is read from a TPM 2.0 device.
use mathlib.Core.Path.{subst}
use mathlib.Core.List.Memᴰ
use mathlib.Core.List.{Memᴰ}
use tcglog_parser.Common.{
  ℕ, ◌≡◌, refl, sym, ap, ◌∙◌, ◌⊎◌, inl, inr, List, [], ◌∷◌, ◌==◌, ==_iff, ==_refl, Bool-cases, Map,
  lookup, insert,
}
use tcglog_parser.Go.Reader.{Bytes}
use tcglog_parser.Log.Format.{digest_of}
use tcglog_parser.TcglogValidate.Tpm.{
  TpmDevice, Answer, answered, then_answer, inner, value_at, store_in, store,
  pcr_index_list_to_selection_data, selections_for, empty_values, store_bank, store_banks,
  store_answer, read_pcrs_from_tpm2_device,
}
use tcglog_parser.TcglogValidate.Tpm.Values.{
  HasMaps, value_at-insert_other, value_at-insert_same, digest_of-insert_same,
  digest_of-insert_other, insert-HasMaps, empty_values-HasMaps,
}

module _ (digests : Map (Map Bytes)) where
  -- The stored value of a bank is the one that was read.
  abbrev pub IsRead : Map (Map Bytes) → ℕ → ℕ → Type 0
  IsRead m i alg = value_at i alg m ≡ value_at alg i digests

  -- What storing the values of some banks leaves behind: the maps are there, what was read before
  -- still is, and the banks `P` are read.
  record IsStored (P : ℕ → ℕ → Type 0) (pcrs : List ℕ) (m : Map (Map Bytes))
      (a : Answer (Map (Map Bytes))) : Type 0 where
    result : Map (Map Bytes)
    is_answer : a ≡ answered result
    has_maps : HasMaps pcrs result
    keeps : (i alg : ℕ) → IsRead m i alg → IsRead result i alg
    reads : (i alg : ℕ) → P i alg → IsRead result i alg

  -- One store of the value that was read.
  store-IsStored :
      (i alg : ℕ) (pcrs : List ℕ) (m : Map (Map Bytes))
      → Memᴰ i pcrs
      → HasMaps pcrs m
      → IsStored (λ j a. (j ≡ i) × (a ≡ alg)) pcrs m (store i alg (value_at alg i digests) m)
  unfolding store_in
  store-IsStored i alg pcrs m mem h =
      let (values, found) = h i mem in
      let value = value_at alg i digests in
      let values' = insert alg value values in
      let m' = insert i values' m in
      let hit : IsRead m' i alg =
        value_at-insert_same i alg i values' m (==_refl i)
        ∙ digest_of-insert_same alg alg value values (==_refl alg) in
      record {
        result = m';
        is_answer = ap (λ o. store_in o i alg value m) found;
        has_maps = insert-HasMaps i values' m pcrs h;
        keeps = λ j a read. elim (Bool-cases (i == j)) [
          | inr other ↦ value_at-insert_other j a i values' m other ∙ read
          | inl same ↦ elim (Bool-cases (alg == a)) [
            | inl bank ↦
                subst (λ x. IsRead m' x a) ((==_iff i j).0 same)
                  (subst (IsRead m' i) ((==_iff alg a).0 bank) hit)
            | inr bank ↦
                value_at-insert_same j a i values' m same
                ∙ digest_of-insert_other a alg value values bank
                ∙ sym (
                    ap (λ o. digest_of a (inner o))
                      (ap (λ x. lookup x m) (sym ((==_iff i j).0 same)) ∙ found))
                ∙ read
          ]
        ];
        reads = λ j a (pcr, bank).
            subst (λ x. IsRead m' x a) (sym pcr) (subst (IsRead m' i) (sym bank) hit);
      }

  -- Two parts of the stores, one after the other.
  then-IsStored :
      {P Q : ℕ → ℕ → Type 0} (pcrs : List ℕ) (m : Map (Map Bytes)) (a : Answer (Map (Map Bytes)))
      (next : Map (Map Bytes) → Answer (Map (Map Bytes)))
      → IsStored P pcrs m a
      → ((m' : Map (Map Bytes)) → HasMaps pcrs m' → IsStored Q pcrs m' (next m'))
      → IsStored (λ i alg. P i alg ⊎ Q i alg) pcrs m (then_answer a next)
  then-IsStored pcrs m a next s h =
      let t = h s.result s.has_maps in
      record {
        result = t.result;
        is_answer = ap (λ x. then_answer x next) s.is_answer ∙ t.is_answer;
        has_maps = t.has_maps;
        keeps = λ i alg read. t.keeps i alg (s.keeps i alg read);
        reads =
            λ i alg o. elim o [ inl p ↦ t.keeps i alg (s.reads i alg p) | inr q ↦ t.reads i alg q ];
      }

  weaken-IsStored :
      {P Q : ℕ → ℕ → Type 0} {pcrs : List ℕ} {m : Map (Map Bytes)} {a : Answer (Map (Map Bytes))}
      → ((i alg : ℕ) → Q i alg → P i alg)
      → IsStored P pcrs m a
      → IsStored Q pcrs m a
  weaken-IsStored h s = record {
    result = s.result;
    is_answer = s.is_answer;
    has_maps = s.has_maps;
    keeps = s.keeps;
    reads = λ i alg q. s.reads i alg (h i alg q);
  }

  done-IsStored :
      {P : ℕ → ℕ → Type 0} (pcrs : List ℕ) (m : Map (Map Bytes))
      → ((i alg : ℕ) → ¬ (P i alg))
      → HasMaps pcrs m
      → IsStored P pcrs m (answered m)
  done-IsStored pcrs m none_of h = record {
    result = m;
    is_answer = refl;
    has_maps = h;
    keeps = λ i alg read. read;
    reads = λ i alg p. absurd (none_of i alg p);
  }

  store_bank-IsStored :
      (alg : ℕ) (l pcrs : List ℕ) (m : Map (Map Bytes))
      → ((i : ℕ) → Memᴰ i l → Memᴰ i pcrs)
      → HasMaps pcrs m
      → IsStored (λ i a. Memᴰ i l × (a ≡ alg)) pcrs m (store_bank digests alg l m)
  unfolding store_bank
  store_bank-IsStored alg [] pcrs m sub h =
      done-IsStored pcrs m (λ i a (mem, e). Memᴰ.not-nil mem) h
  store_bank-IsStored alg (i ∷ l) pcrs m sub h =
      weaken-IsStored
        (λ j a (mem, bank). elim (Memᴰ.cases_cons mem) [
          | inl same ↦ inl (same, bank)
          | inr rest ↦ inr (rest, bank)
        ])
        (then-IsStored pcrs m (store i alg (value_at alg i digests) m) (store_bank digests alg l)
          (store-IsStored i alg pcrs m (sub i (Memᴰ.head refl)) h)
          (λ m' h'. store_bank-IsStored alg l pcrs m' (λ j mem. sub j (Memᴰ.tail mem)) h'))

  selection_data : (l : List ℕ) → pcr_index_list_to_selection_data l ≡ l
  unfolding pcr_index_list_to_selection_data
  selection_data [] = refl
  selection_data (i ∷ l) = ap (◌∷◌ i) (selection_data l)

  store_banks-IsStored :
      (algorithms pcrs : List ℕ) (m : Map (Map Bytes))
      → HasMaps pcrs m
      → IsStored
          (λ i alg. Memᴰ i pcrs × Memᴰ alg algorithms)
          pcrs
          m
          (store_banks digests (selections_for algorithms pcrs) m)
  unfolding store_banks selections_for
  store_banks-IsStored [] pcrs m h = done-IsStored pcrs m (λ i a (pcr, bank). Memᴰ.not-nil bank) h
  store_banks-IsStored (alg ∷ algorithms) pcrs m h =
      weaken-IsStored
        (λ j a (pcr, bank). elim (Memᴰ.cases_cons bank) [
          | inl same ↦ inl (pcr, same)
          | inr rest ↦ inr (pcr, rest)
        ])
        (then-IsStored pcrs m (store_bank digests alg (pcr_index_list_to_selection_data pcrs) m)
          (store_banks digests (selections_for algorithms pcrs))
          (subst
            (λ l. IsStored (λ i a. Memᴰ i pcrs × (a ≡ alg)) pcrs m (store_bank digests alg l m))
            (sym (selection_data pcrs)) (store_bank-IsStored alg pcrs pcrs m (λ i mem. mem) h))
          (λ m' h'. store_banks-IsStored algorithms pcrs m' h'))

-- Once the device has answered, reading the PCRs of a TPM 2.0 device neither fails nor panics, and
-- gives for each PCR and algorithm asked for the value of the PCR in the bank of the algorithm.
pub read_pcrs_from_tpm2_device-IsRead :
    (tpm : TpmDevice) (algorithms pcrs : List ℕ) {digests : Map (Map Bytes)}
    → tpm.pcr_read (selections_for algorithms pcrs) ≡ inr digests
    → (values : Map (Map Bytes)) × (read_pcrs_from_tpm2_device tpm algorithms pcrs
        ≡ answered values)
      × ((i alg : ℕ) → Memᴰ i pcrs → Memᴰ alg algorithms → IsRead digests values i alg)
unfolding read_pcrs_from_tpm2_device store_answer
read_pcrs_from_tpm2_device-IsRead tpm algorithms pcrs {digests} h =
    let s =
      store_banks-IsStored digests algorithms pcrs (empty_values pcrs [])
        (empty_values-HasMaps pcrs [] pcrs (λ i mem. inl mem)) in
    (
      s.result,
      ap (store_answer (selections_for algorithms pcrs) pcrs) h ∙ s.is_answer,
      λ i alg pcr bank. s.reads i alg (pcr, bank),
    )
