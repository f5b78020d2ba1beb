-- ===== src/Tests.antt =====
-- Concrete inputs: the theorems at them, and runs of the code.
mod Data
mod Buffers
mod RequestLines
mod HeaderLines
mod Responses
mod Sending
mod Heaps
mod Tables
mod Nodes
mod Relay
mod Reading
mod Answers
