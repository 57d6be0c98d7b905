-- ===== src/Tests.antt =====
-- Runs of the model at concrete inputs, and the theorems at inputs that meet their hypotheses.
mod Messages
mod Pages
mod Copies
mod Lists
mod Tasks
mod Handles
mod Network
mod Transfers
mod Threads
mod Nodes
