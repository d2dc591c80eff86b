-- ===== src/Log/Whole.antt =====
-- A whole log of the old format: the events that were written are returned, and then its end.
pub mod Agile
use mathlib.Core.List.{reverse_aux}
use tcglog_parser.Common.{
  ℕ, ◌+◌, ◌%◌, ◌^◌, ◌≡◌, refl, ap, ◌∙◌, List, [], ◌∷◌, ◌++◌, reverse, All, length, Map, insert,
}
use tcglog_parser.Errors.{ok, err, eof, bind-ok}
use tcglog_parser.Go.Reader.{Bytes, read_full}
use tcglog_parser.Go.Runtime.{Runtime, Hash}
use tcglog_parser.Go.Text.{equal}
use tcglog_parser.Types.{Spec, spec_unknown, spec_pc_client, spec_efi_1_2, spec_efi_2, LogOptions}
use tcglog_parser.Types.Algorithm
use tcglog_parser.EventData.{EventData, spec_id}
use tcglog_parser.Decode.Dispatch.{decode_event_data}
use tcglog_parser.Log.Format.{Event, reading, read_next_event_1_2, wrap_log_read_error}
use tcglog_parser.Log.Format.RoundTrip.{
  Stored, IsStored, encode_1_2, decoded_event, read_next_event_1_2-encode,
}
use tcglog_parser.Log.{
  Log, stream_1_2, advance, read_next_event, add_zero_digests, fixup_spec_id_event, next_index,
  accept, settle, next_event, log_1_2,
}
use tcglog_parser.Log.State.{Returned, none_yet, one_more}

-- An event as it is written, with what its data decodes to.
pub record Entry : Type 0 where
  pub stored : Stored
  pub digest : Bytes
  pub content : EventData
  pub trailing : ℕ

pub record IsEntry (rt : Runtime) (options : LogOptions) (x : Entry) : Type 0 where
  pub is_stored : IsStored rt x.stored
  pub digest_size : length x.digest ≡ 20
  pub decodes :
      decode_event_data rt x.stored.pcr_index x.stored.event_type x.stored.event options
        (equal x.digest (rt.sum Hash.sha1 (1 ∷ 0 ∷ 0 ∷ 0 ∷ [])))
      ≡ ok (x.content, x.trailing)

-- The file.
abbrev pub encode_log : List Entry → Bytes
encode_log [] = []
encode_log (x ∷ entries) = encode_1_2 x.stored x.digest ++ encode_log entries

abbrev event_of : Entry → ℕ → Event
event_of x i = record {
  index = i;
  pcr_index = x.stored.pcr_index;
  event_type = x.stored.event_type;
  digests = (Algorithm.sha1, x.digest) ∷ [];
  content = x.content;
}

-- The events of the file, with their indices, which are counted by PCR.
abbrev pub events_from : Map ℕ → List Entry → List Event
events_from tracker [] = []
events_from tracker (x ∷ entries) =
    let pcr = x.stored.pcr_index in
    let i = next_index pcr tracker in
    event_of x i ∷ events_from (insert pcr ((i + 1) % 2 ^ 64) tracker) entries

abbrev log_at : Spec → LogOptions → Bytes → Map ℕ → Log
log_at spec options s tracker = record (log_1_2 spec options s) { index_tracker = tracker }

-- A log with SHA-1 alone adds no digests.
fixup-sha1 : (c : EventData) (m : Map Bytes) → fixup_spec_id_event (Algorithm.sha1 ∷ []) c m ≡ m
unfolding fixup_spec_id_event add_zero_digests
fixup-sha1 (spec_id d) m = go d.spec
  where
    go :
        (spec : Spec)
        → (elim spec [ spec_efi_2 ↦ add_zero_digests (Algorithm.sha1 ∷ []) m | _ ↦ m ]) ≡ m
    go spec_efi_2 = refl
    go spec_unknown = refl
    go spec_pc_client = refl
    go spec_efi_1_2 = refl
fixup-sha1 _ m = refl

next_event-entry :
    (rt : Runtime) (spec : Spec) (options : LogOptions) (x : Entry) (rest : Bytes) (tracker : Map ℕ)
    → IsEntry rt options x
    → next_event rt (log_at spec options (encode_1_2 x.stored x.digest ++ rest) tracker) ≡ (
      log_at spec options rest (
          insert x.stored.pcr_index ((next_index x.stored.pcr_index tracker + 1) % 2 ^ 64) tracker),
      ok (event_of x (next_index x.stored.pcr_index tracker), x.trailing),
    )
unfolding next_event read_next_event advance settle accept
next_event-entry rt spec options x rest tracker v =
    let s = encode_1_2 x.stored x.digest ++ rest in
    let l = log_at spec options s tracker in
    let digests = (Algorithm.sha1, x.digest) ∷ [] in
    let read : read_next_event_1_2 rt options s
        ≡ decoded_event x.stored digests rest (x.content, x.trailing) =
      read_next_event_1_2-encode rt options x.stored x.digest rest v.is_stored v.digest_size
      ∙ bind-ok (decoded_event x.stored digests rest) v.decodes in
    ap (λ r. settle l (advance (stream_1_2 options) s r)) read
    ∙ ap
        (λ m. (
          log_at spec options rest (
              insert x.stored.pcr_index ((next_index x.stored.pcr_index tracker + 1) % 2 ^ 64)
                tracker),
          ok (
            record (event_of x (next_index x.stored.pcr_index tracker)) { digests = m },
            x.trailing,
          ),
        ))
        (fixup-sha1 x.content digests)

next_event-end :
    (rt : Runtime) (spec : Spec) (options : LogOptions) (tracker : Map ℕ)
    → next_event rt (log_at spec options [] tracker) ≡ (log_at spec options [] tracker, err eof)
unfolding next_event read_next_event advance settle read_next_event_1_2 reading read_full
    wrap_log_read_error
next_event-end rt spec options tracker = refl

-- A run over the rest of the file.
record IsWhole (rt : Runtime) (spec : Spec) (options : LogOptions) (start : Log)
    (events : List Event) : Type 0 where
  end_tracker : Map ℕ
  returned : Returned rt start events (log_at spec options [] end_tracker)

rest-IsWhole :
    (rt : Runtime) (spec : Spec) (options : LogOptions) (start : Log) (past : List Event)
    (tracker : Map ℕ) (entries : List Entry)
    → All (IsEntry rt options) entries
    → Returned rt start past (log_at spec options (encode_log entries) tracker)
    → IsWhole rt spec options start (reverse_aux (events_from tracker entries) past)
rest-IsWhole rt spec options start past tracker [] h r = record {
  end_tracker = tracker;
  returned = r;
}
rest-IsWhole rt spec options start past tracker (x ∷ entries) (v, h) r =
    let pcr = x.stored.pcr_index in
    let i = next_index pcr tracker in
    rest-IsWhole rt spec options start (event_of x i ∷ past) (insert pcr ((i + 1) % 2 ^ 64) tracker)
      entries h (one_more r (next_event-entry rt spec options x (encode_log entries) tracker v))

-- A log of the old format, whose file is well-formed events written one behind the other, returns
-- these events in their order, each with the count of the earlier events of its PCR as its index,
-- and then the end of the log.
pub encode_log-Returned :
    (rt : Runtime) (spec : Spec) (options : LogOptions) (entries : List Entry)
    → All (IsEntry rt options) entries
    → (end : Log) × Returned rt
        (log_1_2 spec options (encode_log entries))
        (reverse (events_from [] entries))
        end
      × (next_event rt end ≡ (end, err eof))
encode_log-Returned rt spec options entries h =
    let w =
      rest-IsWhole rt spec options (log_1_2 spec options (encode_log entries)) [] [] entries h
        none_yet in
    (log_at spec options [] w.end_tracker, w.returned, next_event-end rt spec options w.end_tracker)
