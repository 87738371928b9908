-- ===== src/Tests.antt =====
-- Runs of the definitions on concrete inputs, and each theorem at an input that meets its
-- hypotheses.
mod Search
mod Scheduling
mod Driver
mod Sessions
mod Memory
mod Readers
mod Coroutines
mod Rounds
mod Servers
mod Platform
mod Handles
mod Promises
