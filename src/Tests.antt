-- ===== src/Tests.antt =====
-- Runs of the code, and its theorems at concrete inputs.
mod Data
mod Graphs
mod Versions
mod Calls
mod Broadcast
mod Service
mod Replay
mod Posts
mod Tables
mod Moves
mod Hydration
