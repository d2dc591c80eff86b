-- ===== src/Decode.antt =====
-- The decoders of event data.
pub mod Guid
pub mod SpecId
pub mod NoAction
pub mod Variable
pub mod DevicePath
pub mod Image
pub mod Boot
pub mod Dispatch
pub mod Sound
pub mod Total
pub mod Fallthrough
pub mod Kinds
pub mod Short
