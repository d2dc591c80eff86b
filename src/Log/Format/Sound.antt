-- ===== src/Log/Format/Sound.antt =====
-- What holds of every event that `readNextEvent` returns: its fields, its digests, and the bytes
-- that it takes from the stream.
use tcglog_parser.Common.{
  ℕ, ◌≤◌, ◌<◌, ◌≡◌, refl, Bool, true, false, [], ◌∷◌, arith, length, Map, insert,
}
use tcglog_parser.Errors.{Result, ok, err, panic, Yields, Yields-ok, Yields-bind}
use tcglog_parser.Go.Reader.{Bytes, read_full, le_at, read_uint}
use tcglog_parser.Go.Runtime.{Runtime, make, hash_size}
use tcglog_parser.Types.{LogOptions}
use tcglog_parser.Types.Algorithm
use tcglog_parser.Go.Reader.Laws.{read_full-ok, read_uint-ok}
use tcglog_parser.Decode.Dispatch.{decode_event_data}
use tcglog_parser.Log.Format.{
  Event, reading, max_pcr_index, is_pcr_index_in_range, check_pcr_index, read_event_bytes,
  finish_event, read_next_event_1_2, is_digest_of_separator_error_value,
}

pub reading-eq-ok {ℓ} :
    {A : Type ℓ} (partial : Bool) (r : Result A) {a : A} → reading partial r ≡ ok a → r ≡ ok a
unfolding reading
reading-eq-ok partial (ok a) h = h
reading-eq-ok partial (err e) h = cc
reading-eq-ok partial panic h = cc

-- What an event holds that was read for some fields: those fields, its data as decoded from some
-- bytes, and no more of the stream than was there.
pub record IsRead (rt : Runtime) (options : LogOptions) (pcr t : ℕ) (digests : Map Bytes)
    (s : Bytes) (e : Event) (trailing : ℕ) (s' : Bytes) : Type 0 where
  pub same_pcr : e.pcr_index ≡ pcr
  pub same_type : e.event_type ≡ t
  pub same_digests : e.digests ≡ digests
  pub bytes : Bytes
  pub is_error : Bool
  pub decodes : decode_event_data rt pcr t bytes options is_error ≡ ok (e.content, trailing)
  pub takes : length s' ≤ length s

pub reading-Yields {ℓ κ} :
    {A : Type ℓ} {P : A → Type κ} (partial : Bool) {r : Result A}
    → Yields P r
    → Yields P (reading partial r)
reading-Yields partial {r} y = record { holds = λ a h. y.holds a (reading-eq-ok partial r h) }

read_event_bytes-takes :
    (rt : Runtime) (s : Bytes) → Yields (λ p. length p.1 ≤ length s) (read_event_bytes rt s)
unfolding read_event_bytes
read_event_bytes-takes rt s = Yields-bind (reading true (read_uint 4 s)) λ p e1.
    Yields-bind (make rt 1 p.0) λ _ e2. record {
      holds = λ q h. omega (
        arith,
        read_uint-ok 4 s (reading-eq-ok true _ e1),
        (read_full-ok p.0 p.1 (reading-eq-ok true _ h)).2,
      );
    }

pub finish_event-IsRead :
    (rt : Runtime) (options : LogOptions) (pcr t : ℕ) (digests : Map Bytes) (digest : Bytes)
    (alg : ℕ) (s : Bytes)
    → Yields
        (λ r. IsRead rt options pcr t digests s r.0 r.1 r.2)
        (finish_event rt options pcr t digests digest alg s)
unfolding finish_event
finish_event-IsRead rt options pcr t digests digest alg s =
    Yields-bind (read_event_bytes rt s) λ p e1.
      Yields-bind (is_digest_of_separator_error_value rt digest alg) λ is_error e2.
        Yields-bind (decode_event_data rt pcr t p.0 options is_error) λ d e3. Yields-ok (record {
          same_pcr = refl;
          same_type = refl;
          same_digests = refl;
          bytes = p.0;
          is_error = is_error;
          decodes = e3;
          takes = (read_event_bytes-takes rt s).holds p e1;
        })

pub check_pcr_index-in_range :
    (pcr : ℕ) {u : Unit {0}} → check_pcr_index pcr ≡ ok u → pcr ≤ max_pcr_index
unfolding check_pcr_index is_pcr_index_in_range
check_pcr_index-in_range pcr h = ground arith

-- What holds of an event that was read from `s`: its PCR is one of 32, its digests satisfy `P`, its
-- data was decoded from some bytes for its own fields, and the stream is shorter behind it.
pub record IsEvent (P : Map Bytes → Type 0) (rt : Runtime) (options : LogOptions) (s : Bytes)
    (e : Event) (trailing : ℕ) (s' : Bytes) : Type 0 where
  pub in_range : e.pcr_index ≤ max_pcr_index
  pub has_digests : P e.digests
  pub bytes : Bytes
  pub is_error : Bool
  pub decodes :
      decode_event_data rt e.pcr_index e.event_type bytes options is_error
      ≡ ok (e.content, trailing)
  pub shorter : length s' < length s

-- One SHA-1 digest.
abbrev pub IsSha1 : Map Bytes → Type 0
IsSha1 m = (d : Bytes) × (m ≡ (Algorithm.sha1, d) ∷ []) × (length d ≡ 20)

pub read_next_event_1_2-Yields :
    (rt : Runtime) (options : LogOptions) (s : Bytes)
    → Yields (λ r. IsEvent IsSha1 rt options s r.0 r.1 r.2) (read_next_event_1_2 rt options s)
unfolding read_next_event_1_2 Algorithm.size Algorithm.get_hash hash_size insert
read_next_event_1_2-Yields rt options s =
    Yields-bind (reading false (read_full 8 s)) λ (header, s1) e1.
      Yields-bind (check_pcr_index (le_at 0 4 header)) λ _ e2.
        Yields-bind (reading true (read_full 20 s1)) λ (digest, s2) e3. record {
          holds = λ r h.
              let read =
                (finish_event-IsRead rt options (le_at 0 4 header) (le_at 4 4 header)
                    ((Algorithm.sha1, digest) ∷ []) digest Algorithm.sha1 s2).holds
                  r h in
              let whole = read_full-ok 8 s (reading-eq-ok false _ e1) in
              let part = read_full-ok 20 s1 (reading-eq-ok true _ e3) in
              record {
                in_range = rw read.same_pcr (check_pcr_index-in_range (le_at 0 4 header) e2);
                has_digests = (digest, read.same_digests, part.0);
                bytes = read.bytes;
                is_error = read.is_error;
                decodes = rw (read.same_pcr, read.same_type) read.decodes;
                shorter = omega (arith, read.takes, whole.2, part.2);
              };
        }

-- Every event in the old format has one SHA-1 digest of 20 bytes; its PCR index is at most 31; and
-- its data is that of some bytes, and the stream is shorter behind it.
pub read_next_event_1_2-IsEvent :
    (rt : Runtime) (options : LogOptions) (s : Bytes) {e : Event} {trailing : ℕ} {s' : Bytes}
    → read_next_event_1_2 rt options s ≡ ok (e, trailing, s')
    → IsEvent IsSha1 rt options s e trailing s'
read_next_event_1_2-IsEvent rt options s h = (read_next_event_1_2-Yields rt options s).holds _ h
