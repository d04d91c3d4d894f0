-- ===== src/Tests.antt =====
-- Runs of the definitions on concrete inputs, and the theorems at inputs that meet their hypotheses.
mod Shadow
mod Accesses
mod Sampling
mod EntryPoints
mod Threads
mod Objects
mod Maps
mod Wrapped
mod Counters
mod Tracked
mod Prediction
mod Locks
mod Infos
