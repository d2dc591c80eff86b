-- ===== src/Log/Format/RoundTrip.antt =====
-- Reading back an event of each log format (TCG_PCClientPCREvent and TCG_PCR_EVENT2).
use tcglog_parser.Common.{
  ℕ, ◌^◌, ◌≤◌, ◌<◌, ◌≡◌, refl, ap, ◌∙◌, Bool, true, false, [], ◌∷◌, ◌++◌, append-nil, append_assoc,
  arith, length, length-append, Map, insert,
}
use tcglog_parser.Errors.{bind-ok, Result, ok, ◌>>=◌}
use tcglog_parser.Go.Reader.{Bytes, le_bytes, le_at}
use tcglog_parser.Go.Runtime.{make_ok, Runtime, Hash, hash_sum, hash_size}
use tcglog_parser.Go.Text.{equal}
use tcglog_parser.Types.{LogOptions}
use tcglog_parser.Types.Algorithm
use tcglog_parser.EventData.{EventData}
use tcglog_parser.Go.Reader.Laws.{read_full-append_of_eq, length-le_bytes, read_uint-le_bytes}
use tcglog_parser.Go.Reader.Fields.{le_at-skip, le_at-le_bytes}
use tcglog_parser.Decode.Dispatch.{decode_event_data}
use tcglog_parser.Log.Format.{
  Event, reading, max_pcr_index, is_pcr_index_in_range, check_pcr_index, read_event_bytes,
  finish_event, read_next_event_1_2, is_digest_of_separator_error_value,
}

pub read_event_bytes-append :
    (rt : Runtime) (event rest : Bytes)
    → length event < 2 ^ 32
    → length event ≤ rt.max_alloc
    → read_event_bytes rt (le_bytes 4 (length event) ++ (event ++ rest)) ≡ ok (event, rest)
unfolding read_event_bytes reading
read_event_bytes-append rt event rest h fits = rw (
  read_uint-le_bytes 4 (length event) (event ++ rest) h,
  make_ok rt 1 (length event) (omega arith),
  read_full-append_of_eq (length event) event rest refl,
)

-- The fields of an event that a log stores.
pub record Stored : Type 0 where
  pub pcr_index : ℕ
  pub event_type : ℕ
  pub event : Bytes

pub record IsStored (rt : Runtime) (e : Stored) : Type 0 where
  pub pcr_in_range : e.pcr_index ≤ max_pcr_index
  pub type_fits : e.event_type < 2 ^ 32
  pub size_fits : length e.event < 2 ^ 32
  pub allocates : length e.event ≤ rt.max_alloc

abbrev pub encode_event : Stored → Bytes
encode_event e = le_bytes 4 (length e.event) ++ e.event

-- TCG_PCClientPCREvent
abbrev pub encode_1_2 : Stored → Bytes → Bytes
encode_1_2 e digest =
    le_bytes 4 e.pcr_index ++ (le_bytes 4 e.event_type ++ (digest ++ encode_event e))

header_fields :
    (pcr t : ℕ) (rest : Bytes)
    → pcr < 2 ^ 32
    → t < 2 ^ 32
    → (le_at 0 4 (le_bytes 4 pcr ++ (le_bytes 4 t ++ rest)) ≡ pcr)
      × (le_at 4 4 (le_bytes 4 pcr ++ (le_bytes 4 t ++ rest)) ≡ t)
header_fields pcr t rest hp ht = (
  le_at-le_bytes 4 pcr _ hp,
  le_at-skip 4 0 4 (le_bytes 4 pcr) _ (length-le_bytes 4 pcr) ∙ le_at-le_bytes 4 t rest ht,
)

abbrev pub decoded_event : Stored → Map Bytes → Bytes → EventData × ℕ → Result (Event × ℕ × Bytes)
decoded_event e digests rest (content, trailing) = ok (
  record {
    index = 0;
    pcr_index = e.pcr_index;
    event_type = e.event_type;
    digests = digests;
    content = content;
  },
  trailing,
  rest,
)

pub check_pcr_index_ok : (pcr : ℕ) → pcr ≤ max_pcr_index → check_pcr_index pcr ≡ ok tt
unfolding check_pcr_index is_pcr_index_in_range
check_pcr_index_ok pcr h = ground arith

pub finish_event-append :
    (rt : Runtime) (options : LogOptions) (e : Stored) (digests : Map Bytes) (digest : Bytes)
    (alg : ℕ) (rest : Bytes) {is_error : Bool}
    → IsStored rt e
    → is_digest_of_separator_error_value rt digest alg ≡ ok is_error
    → finish_event rt options e.pcr_index e.event_type digests digest alg (encode_event e ++ rest)
      ≡ (decode_event_data rt e.pcr_index e.event_type e.event options is_error
          >>= decoded_event e digests rest)
unfolding finish_event
finish_event-append rt options e digests digest alg rest v h =
    bind-ok _ (
      ap (read_event_bytes rt) (append_assoc (le_bytes 4 (length e.event)) e.event rest)
      ∙ read_event_bytes-append rt e.event rest v.size_fits v.allocates)
    ∙ bind-ok _ h
    ∙ refl

abbrev pub header_bytes : Stored → Bytes
header_bytes e = le_bytes 4 e.pcr_index ++ le_bytes 4 e.event_type

pub length-header_bytes : (e : Stored) → length (header_bytes e) ≡ 8
length-header_bytes e =
    length-append (le_bytes 4 e.pcr_index) (le_bytes 4 e.event_type)
    ∙ omega (arith, length-le_bytes 4 e.pcr_index, length-le_bytes 4 e.event_type)

encode_1_2_parts :
    (e : Stored) (digest rest : Bytes)
    → encode_1_2 e digest ++ rest ≡ header_bytes e ++ (digest ++ (encode_event e ++ rest))
encode_1_2_parts e digest rest = simp append_assoc

pub header_bytes_fields :
    {rt : Runtime} (e : Stored)
    → IsStored rt e
    → (le_at 0 4 (header_bytes e) ≡ e.pcr_index) × (le_at 4 4 (header_bytes e) ≡ e.event_type)
header_bytes_fields e v =
    rw append-nil at (header_fields e.pcr_index e.event_type [] (omega arith) v.type_fits)

check_stored :
    {rt : Runtime} (e : Stored)
    → IsStored rt e
    → check_pcr_index (le_at 0 4 (header_bytes e)) ≡ ok tt
check_stored e v =
    ap check_pcr_index (header_bytes_fields e v).0 ∙ check_pcr_index_ok e.pcr_index v.pcr_in_range

separator_digest :
    (rt : Runtime) (digest : Bytes)
    → is_digest_of_separator_error_value rt digest Algorithm.sha1
      ≡ ok (equal digest (rt.sum Hash.sha1 (1 ∷ 0 ∷ 0 ∷ 0 ∷ [])))
unfolding is_digest_of_separator_error_value Algorithm.hash hash_sum Algorithm.get_hash le_bytes
separator_digest rt digest = refl

abbrev finish_1_2 : Runtime → LogOptions → Stored → Bytes → Bytes → Result (Event × ℕ × Bytes)
finish_1_2 rt options e digest s =
    finish_event rt options e.pcr_index e.event_type ((Algorithm.sha1, digest) ∷ []) digest
      Algorithm.sha1 s

-- The old format behind its header.
read_next_event_1_2-header :
    (rt : Runtime) (options : LogOptions) (e : Stored) (digest s : Bytes)
    → IsStored rt e
    → length digest ≡ 20
    → read_next_event_1_2 rt options (header_bytes e ++ (digest ++ s))
      ≡ finish_1_2 rt options e digest s
unfolding read_next_event_1_2 Algorithm.size Algorithm.get_hash hash_size insert reading
read_next_event_1_2-header rt options e digest s v h =
    bind-ok _
      (ap (reading false) (read_full-append_of_eq 8 (header_bytes e) _ (length-header_bytes e)))
    ∙ bind-ok _ (check_stored e v)
    ∙ bind-ok _ (ap (reading true) (read_full-append_of_eq 20 digest s h))
    ∙ ap
        (λ p.
          finish_event rt options p (le_at 4 4 (header_bytes e)) ((Algorithm.sha1, digest) ∷ [])
            digest Algorithm.sha1 s)
        (header_bytes_fields e v).0
    ∙ ap
        (λ t.
          finish_event rt options e.pcr_index t ((Algorithm.sha1, digest) ∷ []) digest
            Algorithm.sha1 s)
        (header_bytes_fields e v).1

-- `readNextEvent` of the old format reads back an event of that format, whatever follows it, if its
-- PCR index is at most 31, its fields fit and its data can be allocated: the fields as stored, the
-- digest under SHA-1, and the data as `decodeEventData` decodes it.
pub read_next_event_1_2-encode :
    (rt : Runtime) (options : LogOptions) (e : Stored) (digest rest : Bytes)
    → IsStored rt e
    → length digest ≡ 20
    → read_next_event_1_2 rt options (encode_1_2 e digest ++ rest) ≡ (
        decode_event_data rt e.pcr_index e.event_type e.event options
          (equal digest (rt.sum Hash.sha1 (1 ∷ 0 ∷ 0 ∷ 0 ∷ [])))
        >>= decoded_event e ((Algorithm.sha1, digest) ∷ []) rest)
read_next_event_1_2-encode rt options e digest rest v h =
    ap (read_next_event_1_2 rt options) (encode_1_2_parts e digest rest)
    ∙ read_next_event_1_2-header rt options e digest (encode_event e ++ rest) v h
    ∙ finish_event-append rt options e _ digest Algorithm.sha1 rest v (separator_digest rt digest)
