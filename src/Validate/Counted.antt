-- ===== src/Validate/Counted.antt =====
-- The events of a result have no more trailing bytes than measured bytes.
use tcglog_parser.Common.{ℕ, ◌+◌, ◌*◌, ◌≡◌, some, List, All, arith, length}
use tcglog_parser.Errors.{ok, Yields, Yields-ok, Yields-bind, Yields-if}
use tcglog_parser.Go.Reader.{Bytes}
use tcglog_parser.Go.Runtime.{Runtime}
use tcglog_parser.Types.{LogOptions}
use tcglog_parser.Log.Format.{Event}
use tcglog_parser.Log.Ready.{IsReady}
use tcglog_parser.Validate.Check.{
  LogValidateResult, Validator, does_event_type_extend_pcr, check_event_digests,
}
use tcglog_parser.Validate.Check.Count.{IsCounted, check_digests_loop-IsCounted}
use tcglog_parser.Validate.Replay.{
  pcr_values, extend, unchecked, process_event, replay_and_validate_log,
}
use tcglog_parser.Validate.Every.{All-append_one, replay_and_validate_log-Every}

process_event-IsCounted :
    (rt : Runtime) (algorithms : List ℕ) (v : Validator) (e : Event) (trailing : ℕ)
    → IsReady e trailing
    → All IsCounted v.validated_events
    → Yields (λ v'. All IsCounted v'.validated_events) (process_event rt algorithms v e trailing)
unfolding process_event check_event_digests
process_event-IsCounted rt algorithms v e trailing ready counted =
    let n = length v.validated_events in
    let known = v.efi_boot_variable_behaviour in
    let order = rt.range (2 * n + 1) e.digests in
    Yields-bind (pcr_values algorithms e.pcr_index v.expected_pcr_values) λ m _.
      Yields-if (does_event_type_extend_pcr e.event_type)
        (Yields-bind (extend rt (rt.range (2 * n) e.digests) m) λ m' _.
          Yields-bind (check_event_digests rt (2 * n + 1) known (unchecked e) trailing)
            λ (known', ve) h. Yields-ok (
              All-append_one IsCounted v.validated_events _ counted (
                (check_digests_loop-IsCounted rt trailing order known (unchecked e) ready.room
                    (omega arith)).holds
                  _ h)))
        (Yields-ok (All-append_one IsCounted v.validated_events _ counted (omega arith)))

-- In the result of a replay no event counts more bytes as trailing than were measured for it.
pub replay_and_validate_log-IsCounted :
    (rt : Runtime) (file : Bytes) (options : LogOptions) {res : LogValidateResult}
    → replay_and_validate_log rt file options ≡ some (ok res)
    → All IsCounted res.validated_events
replay_and_validate_log-IsCounted rt file options =
    replay_and_validate_log-Every IsCounted rt (process_event-IsCounted rt) file options
