-- ===== src/Validate.antt =====
-- validate.go: replaying a log into expected PCR values, and checking each digest against the data
-- recorded with its event.
pub mod Check
pub mod Replay
pub mod Terminates
pub mod Refinement
pub mod Correct
pub mod Succeeds
pub mod Live
pub mod Every
pub mod Counted
pub mod Gpt
pub mod Whole
