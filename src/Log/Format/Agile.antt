-- ===== src/Log/Format/Agile.antt =====
-- Reading back an event of the crypto-agile format (TCG_PCR_EVENT2), with its list of digests.
use tcglog_parser.Common.{
  ℕ, ◌^◌, ◌<◌, ◌≡◌, refl, ap, ◌∙◌, Bool, true, false, none, some, List, [], ◌∷◌, ◌++◌, append-nil,
  append_assoc, arith, length, length-append, Map, lookup, keep_keys, IsMap, insert_fresh,
  IsMap-append_none,
}
use tcglog_parser.Errors.{bind-ok, ok, panic, ◌>>=◌}
use tcglog_parser.Go.Reader.{Bytes, le_bytes, le_at}
use tcglog_parser.Go.Runtime.{Runtime}
use tcglog_parser.Types.{LogOptions}
use tcglog_parser.Types.Algorithm
use tcglog_parser.EventData.{AlgorithmSize}
use tcglog_parser.Log.Format.{
  reading, check_pcr_index, read_event_bytes, finish_event, read_next_event_2, find_digest_size,
  read_digest, read_digests, check_digests, first_algorithm, digest_of,
  is_digest_of_separator_error_value, recognized, add_digest,
}
use tcglog_parser.Go.Reader.Laws.{read_full-append_of_eq, length-le_bytes, read_uint-le_bytes}
use tcglog_parser.Go.Reader.Fields.{le_at-skip, le_at-le_bytes, le_at-le_bytes_last}
use tcglog_parser.Decode.Dispatch.{decode_event_data}
use tcglog_parser.Log.Format.RoundTrip.{
  Stored, IsStored, encode_event, decoded_event, finish_event-append, check_pcr_index_ok,
  read_event_bytes-append,
}

-- TPML_DIGEST_VALUES behind its count.
abbrev pub encode_digests : Map Bytes → Bytes
encode_digests [] = []
encode_digests ((alg, d) ∷ m) = le_bytes 2 alg ++ (d ++ encode_digests m)

-- Each digest has the size that the Spec ID event gives for its algorithm.
abbrev pub AreSized : List AlgorithmSize → Map Bytes → Type 0
AreSized l [] = Unit
AreSized l ((alg, d) ∷ m) =
    ((alg < 2 ^ 16) × (find_digest_size l alg ≡ some (length d))) × AreSized l m

-- Each algorithm of the Spec ID event has a digest.
abbrev pub HasAll : List AlgorithmSize → Map Bytes → Type 0
HasAll [] m = Unit
HasAll (a ∷ l) m = ((d : Bytes) × (lookup a.algorithm_id m ≡ some d)) × HasAll l m

read_digest-encode :
    (l : List AlgorithmSize) (alg : ℕ) (d : Bytes) (m : Map Bytes) (s : Bytes)
    → alg < 2 ^ 16
    → find_digest_size l alg ≡ some (length d)
    → lookup alg m ≡ none
    → read_digest l m (le_bytes 2 alg ++ (d ++ s)) ≡ ok (m ++ (alg, d) ∷ [], s)
unfolding read_digest reading
read_digest-encode l alg d m s h size fresh =
    bind-ok _ (ap (reading true) (read_uint-le_bytes 2 alg (d ++ s) h))
    ∙ bind-ok _ (ap (recognized alg) size)
    ∙ bind-ok _ (ap (reading true) (read_full-append_of_eq (length d) d s refl))
    ∙ bind-ok _ (ap (add_digest alg d m) fresh ∙ ap ok (insert_fresh alg d m fresh))

read_digests-encode :
    (l : List AlgorithmSize) (ds m : Map Bytes) (s : Bytes)
    → AreSized l ds
    → IsMap (m ++ ds)
    → read_digests l (length ds) m (encode_digests ds ++ s) ≡ ok (m ++ ds, s)
unfolding read_digests
read_digests-encode l [] m s sized distinct = rw append-nil
read_digests-encode l ((alg, d) ∷ ds) m s (h, sized) distinct =
    bind-ok _ (
      ap (read_digest l m) (
        append_assoc (le_bytes 2 alg) (d ++ encode_digests ds) s
        ∙ ap (◌++◌ (le_bytes 2 alg)) (append_assoc d (encode_digests ds) s))
      ∙ read_digest-encode l alg d m _ h.0 h.1 (IsMap-append_none m alg d ds distinct))
    ∙ read_digests-encode l ds (m ++ (alg, d) ∷ []) s sized
        (rw (append_assoc m ((alg, d) ∷ []) ds) distinct)
    ∙ rw (append_assoc m ((alg, d) ∷ []) ds)

check_digests-HasAll :
    (l : List AlgorithmSize) (m : Map Bytes) → HasAll l m → check_digests l m ≡ ok tt
unfolding check_digests
check_digests-HasAll [] m h = refl
check_digests-HasAll (a ∷ l) m ((d, e), h) = rw (e, check_digests) (check_digests-HasAll l m h)

abbrev agile_header : Stored → Map Bytes → Bytes
agile_header e ds = le_bytes 4 e.pcr_index ++ (le_bytes 4 e.event_type ++ le_bytes 4 (length ds))

-- TCG_PCR_EVENT2
abbrev pub encode_2 : Stored → Map Bytes → Bytes
encode_2 e ds = agile_header e ds ++ (encode_digests ds ++ encode_event e)

length-agile_header : (e : Stored) (ds : Map Bytes) → length (agile_header e ds) ≡ 12
length-agile_header e ds =
    rw (length-append, length-append)
      (omega (
        arith,
        length-le_bytes 4 e.pcr_index,
        length-le_bytes 4 e.event_type,
        length-le_bytes 4 (length ds),
      ))

module _ {rt : Runtime} (e : Stored) (ds : Map Bytes) (v : IsStored rt e)
    (few : length ds < 2 ^ 32) where
  agile_pcr : le_at 0 4 (agile_header e ds) ≡ e.pcr_index
  agile_pcr = le_at-le_bytes 4 e.pcr_index _ (omega (arith, v.pcr_in_range))

  agile_type : le_at 4 4 (agile_header e ds) ≡ e.event_type
  agile_type =
      le_at-skip 4 0 4 (le_bytes 4 e.pcr_index) _ (length-le_bytes 4 e.pcr_index)
      ∙ le_at-le_bytes 4 e.event_type _ v.type_fits

  agile_count : le_at 8 4 (agile_header e ds) ≡ length ds
  agile_count =
      le_at-skip 4 4 4 (le_bytes 4 e.pcr_index) _ (length-le_bytes 4 e.pcr_index)
      ∙ le_at-skip 4 0 4 (le_bytes 4 e.event_type) _ (length-le_bytes 4 e.event_type)
      ∙ le_at-le_bytes_last 4 (length ds) few

encode_2_parts :
    (e : Stored) (ds : Map Bytes) (rest : Bytes)
    → encode_2 e ds ++ rest ≡ agile_header e ds ++ (encode_digests ds ++ (encode_event e ++ rest))
encode_2_parts e ds rest = simp append_assoc

-- What the crypto-agile format demands of the digests of an event.
pub record AreStored (l : List AlgorithmSize) (ds : Map Bytes) : Type 0 where
  pub few : length ds < 2 ^ 32
  pub distinct : IsMap ds
  pub sized : AreSized l ds
  pub has_all : HasAll l ds

-- The crypto-agile format up to the event size.
pub read_next_event_2-parsed :
    (rt : Runtime) (options : LogOptions) (a : AlgorithmSize) (l : List AlgorithmSize) (e : Stored)
    (ds : Map Bytes) (rest : Bytes)
    → IsStored rt e
    → AreStored (a ∷ l) ds
    → read_next_event_2 rt options (a ∷ l) (encode_2 e ds ++ rest)
      ≡ finish_event rt options e.pcr_index e.event_type
          (keep_keys Algorithm.supported ds)
          (digest_of a.algorithm_id (keep_keys Algorithm.supported ds))
          a.algorithm_id
          (encode_event e ++ rest)
unfolding read_next_event_2 reading first_algorithm
read_next_event_2-parsed rt options a l e ds rest v w =
    ap (read_next_event_2 rt options (a ∷ l)) (encode_2_parts e ds rest)
    ∙ bind-ok _ (
        ap (reading false)
          (read_full-append_of_eq 12 (agile_header e ds) _ (length-agile_header e ds)))
    ∙ bind-ok _ (
        ap check_pcr_index (agile_pcr e ds v w.few) ∙ check_pcr_index_ok e.pcr_index v.pcr_in_range)
    ∙ bind-ok _ (
        ap (λ n. read_digests (a ∷ l) n [] (encode_digests ds ++ (encode_event e ++ rest)))
          (agile_count e ds v w.few)
        ∙ read_digests-encode (a ∷ l) ds [] _ w.sized w.distinct)
    ∙ bind-ok _ (check_digests-HasAll (a ∷ l) ds w.has_all)
    ∙ rw (agile_pcr e ds v w.few, agile_type e ds v w.few)

-- `readNextEvent` of a crypto-agile log reads back an event of that format, whatever follows it:
-- where its PCR index is at most 31, its fields fit and its data can be allocated, the digests
-- belong to distinct algorithms, have the sizes of the Spec ID event and include all of its
-- algorithms, and the separator digest of the first of these can be computed, the event keeps
-- exactly the digests of supported algorithms, and its data is as `decodeEventData` decodes it.
pub read_next_event_2-encode :
    (rt : Runtime) (options : LogOptions) (a : AlgorithmSize) (l : List AlgorithmSize) (e : Stored)
    (ds : Map Bytes) (rest : Bytes) {is_error : Bool}
    → IsStored rt e
    → AreStored (a ∷ l) ds
    → is_digest_of_separator_error_value rt
        (digest_of a.algorithm_id (keep_keys Algorithm.supported ds))
        a.algorithm_id
      ≡ ok is_error
    → read_next_event_2 rt options (a ∷ l) (encode_2 e ds ++ rest) ≡ (
        decode_event_data rt e.pcr_index e.event_type e.event options is_error
        >>= decoded_event e (keep_keys Algorithm.supported ds) rest)
read_next_event_2-encode rt options a l e ds rest v w sep =
    read_next_event_2-parsed rt options a l e ds rest v w
    ∙ finish_event-append rt options e (keep_keys Algorithm.supported ds) _ a.algorithm_id rest v
        sep

-- Where the first algorithm of the Spec ID event has no hash function in the program, reading a
-- well-formed event of such a log panics.
pub read_next_event_2-unsupported :
    (rt : Runtime) (options : LogOptions) (a : AlgorithmSize) (l : List AlgorithmSize) (e : Stored)
    (ds : Map Bytes) (rest : Bytes)
    → IsStored rt e
    → AreStored (a ∷ l) ds
    → Algorithm.supported a.algorithm_id ≡ false
    → read_next_event_2 rt options (a ∷ l) (encode_2 e ds ++ rest) ≡ panic
unfolding finish_event is_digest_of_separator_error_value
read_next_event_2-unsupported rt options a l e ds rest v w un =
    read_next_event_2-parsed rt options a l e ds rest v w
    ∙ bind-ok _ (
        ap (read_event_bytes rt) (append_assoc (le_bytes 4 (length e.event)) e.event rest)
        ∙ read_event_bytes-append rt e.event rest v.size_fits v.allocates)
    ∙ rw (Algorithm.hash_unsupported rt a.algorithm_id (le_bytes 4 1) un).0
