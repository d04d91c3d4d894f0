-- ===== src/EntryPoints.antt =====
-- src_light/libmallocprof.cpp: the functions that stand in for those of the C library. The real
-- functions are arguments: what they return, and the calls that they make in turn.
pub mod LockCalls
pub mod SystemCalls
pub mod Inner
pub mod Allocation
