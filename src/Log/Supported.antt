-- ===== src/Log/Supported.antt =====
-- The algorithms of a log that is opened have hash functions.
use tcglog_parser.Common.{◌≡◌, refl, Bool, true, false, List, [], ◌∷◌, if◌then◌else◌}
use tcglog_parser.Errors.{ok, invalid_spec_id_event, Yields, Yields-ok, Yields-err, Yields-bind}
use tcglog_parser.Go.Reader.{Bytes}
use tcglog_parser.Go.Runtime.{Runtime}
use tcglog_parser.Types.{Spec, LogOptions, spec_unknown, spec_pc_client, spec_efi_1_2, spec_efi_2}
use tcglog_parser.Types.Algorithm
use tcglog_parser.EventData.{AlgorithmSize, EventData, broken, spec_id}
use tcglog_parser.Log.Format.{reading, read_next_event_1_2}
use tcglog_parser.Log.{Log, supported_algorithms, log_for, new_log, log_1_2, log_2}
use tcglog_parser.Log.Ready.{AllHash}

supported_algorithms-AllHash : (l : List AlgorithmSize) → AllHash (supported_algorithms l)
unfolding supported_algorithms
supported_algorithms-AllHash [] = tt
supported_algorithms-AllHash (a ∷ l) =
    go (Algorithm.supported a.algorithm_id) refl (supported_algorithms-AllHash l)
  where
    go :
        (b : Bool)
        → Algorithm.supported a.algorithm_id ≡ b
        → AllHash (supported_algorithms l)
        → AllHash (if b then a.algorithm_id ∷ supported_algorithms l else supported_algorithms l)
    go true e rest = (e, rest)
    go false e rest = rest

sha1-supported : Algorithm.supported Algorithm.sha1 ≡ true
unfolding Algorithm.supported Algorithm.get_hash
sha1-supported = refl

log_for-AllHash :
    (options : LogOptions) (file : Bytes) (d : EventData)
    → Yields (λ l. AllHash l.algorithms) (log_for options file d)
unfolding log_for
log_for-AllHash options file (spec_id d) = go d.spec
  where
    go :
        (spec : Spec)
        → Yields
            (λ l. AllHash l.algorithms)
            (elim spec [
              | spec_efi_2 ↦ ok (log_2 d.digest_sizes options file)
              | other ↦ ok (log_1_2 other options file)
            ])
    go spec_efi_2 = Yields-ok (supported_algorithms-AllHash d.digest_sizes)
    go spec_unknown = Yields-ok (sha1-supported, tt)
    go spec_pc_client = Yields-ok (sha1-supported, tt)
    go spec_efi_1_2 = Yields-ok (sha1-supported, tt)
log_for-AllHash options file (broken b (invalid_spec_id_event reason)) = Yields-err
log_for-AllHash options file _ = Yields-ok (sha1-supported, tt)

-- All algorithms of a log that is opened have hash functions.
pub new_log-AllHash :
    (rt : Runtime) (file : Bytes) (options : LogOptions) {l : Log}
    → new_log rt file options ≡ ok l
    → AllHash l.algorithms
new_log-AllHash rt file options {l} h = opened.holds l h
  where
    opened : Yields (λ l. AllHash l.algorithms) (new_log rt file options)
    opened =
        unfold new_log in
        Yields-bind (reading true (read_next_event_1_2 rt options file))
          λ (e, _, _) _. log_for-AllHash options file e.content
