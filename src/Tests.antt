-- ===== src/Tests.antt =====
-- Runs of the program on small logs, and what the theorems say of them.
mod Data
mod Replay
mod Read
mod Log
mod Decode
mod Gpt
mod Spec
mod Variable
mod Dump
mod Report
mod Whole
mod Text
