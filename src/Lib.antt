-- ===== src/Lib.antt =====
-- A model of tcglog-parser: a Go package that reads the event logs that firmware writes while it
-- measures a boot into the PCRs of a TPM, decodes the data of the events, and replays a log to find
-- the PCR values that it stands for.
--
-- The parts, from the bytes upwards:
--
-- - Errors.antt: the error values, and a call's outcome as one result type, in which a run-time
--   panic is a value of its own. Yields is the rule set for "each value that is returned satisfies
--   P".
-- - Go.antt and Go/: what the program uses of Go's libraries. Go/Reader is io.ReadFull and
--   binary.Read on a list of bytes; Go/Text is the formatting of numbers and the string functions;
--   Go/Unicode is the conversion between UTF-8 and UTF-16. Go/Format is the state of a verb and the
--   parsing of numbers; Go/Path is path/filepath. Go/Runtime is a record that every definition
--   takes as a parameter: the hash functions of package crypto, with the length of their sums, the
--   size limit of one allocation, and the order of each range over a map, which can be any order.
-- - Types.antt, Types/: types.go and constants.go, and ParseAlgorithm of utils.go. Utils.antt: the
--   conversions of utils.go, makeDefaultFormatter and PCRArgList. EventData.antt: the structs that
--   implement the interface EventData; a field that can be nil, as the bytes of EFI GPT event data,
--   is an Option.
-- - Decode.antt, Decode/: the decoders. Dispatch is decodeEventData, decodeEventDataImpl
--   (eventdata.go) and decodeEventDataTCG (tcgeventdata.go); SpecId and NoAction are the
--   EV_NO_ACTION events (tcgeventdata.go, efi.go); Variable, Image and DevicePath are the EFI
--   events (efi.go); Boot is grubeventdata.go and sdefistub.go.
-- - Log/Format.antt: stream_1_2.readNextEvent and stream_2.readNextEvent of log.go; each takes the
--   bytes that are left of the log and returns them behind the event. Log.antt: the struct Log with
--   nextEventInternal (next_event), NextEvent (next_event_only) and NewLog (new_log); each call
--   takes the log and returns the log behind the call.
-- - Validate/Check.antt: checkEventDigests and the functions that it uses (validate.go); its nested
--   loops are trailing_loop (over trailing bytes), behaviour_loop (the loop Loop) and
--   check_digests_loop (over the digests). Validate/Replay.antt: processEvent, run and
--   ReplayAndValidateLog (validate.go).
-- - Display.antt, Display/: the texts of errors and of event data, which are the methods Error and
--   String. Program.antt: what a run of a program leaves behind, its output and its exit status.
-- - TcglogDump.antt: tcglog-dump/main.go. The loop of main is dump_loop, and event_line is what it
--   prints.
-- - TcglogValidate.antt: tcglog-validate/main.go. TcglogValidate/Tpm reads the PCRs of a TPM
--   through the package go-tpm2, which is a record of functions, among them one that can give a nil
--   context, on which the first call panics; TcglogValidate/Report is the sections of the report,
--   in which each loop takes what follows it as its last argument.
-- - Tests.antt, Tests/: runs on small logs with a hash function made for the purpose.
--
-- A log is read by next_event, which calls the stream, which calls decode_event_data on the data of
-- the event; the validator calls next_event until the end of the log, extends its PCR values by the
-- event, and checks the digests against the decoded data. tcglog-dump calls next_event_only in a
-- loop of its own, and tcglog-validate calls the validator.
--
-- Numbers are natural numbers with the bounds of their fields, which the readers establish; the
-- index of an event wraps around at 2 ^ 64. Five loops run on fuel. The loops of a replay and of
-- tcglog-dump have one round more than the file has bytes, and every event takes a byte at least.
-- The loop over the nodes of a device path has one round more than the path has bytes, and each
-- node takes a byte at least. The formatting of a number has 64 rounds, and a number of at most 64
-- bits has no more digits than that. The decoding of UTF-8 has as many rounds as the text has
-- bytes, and a rune takes a byte at least.
--
-- Not modelled: the parsing of the command lines by package flag, whose outcome is the record Flags
-- of a program; opening a file or a TPM device, which are parameters of the programs. A log of more
-- than 2 ^ 63 - 1 bytes, the limit of the section reader, is not considered. After an error a
-- stream that is not at the end of its log has no position, since the log does not read it again.
-- Fprintf is modelled for the formats that makeDefaultFormatter makes, which use no operand.
pub mod Common
pub mod Errors
pub mod Go
pub mod Types
pub mod EventData
pub mod Utils
pub mod Display
pub mod Decode
pub mod Log
pub mod Validate
pub mod Program
pub mod TcglogDump
pub mod TcglogValidate
pub mod Tests
