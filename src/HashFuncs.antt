-- ===== src/HashFuncs.antt =====
-- src_light/hashfuncs.hh: the hash and comparison functions that the maps are given.
use mem_perf_pro.Base.{ℕ, ◌/◌, Bool, ◌==◌}

-- `addr >> 7`
abbrev pub hash_addr : ℕ → ℕ
hash_addr addr = addr / 128

abbrev pub compare_addr : ℕ → ℕ → Bool
compare_addr addr1 addr2 = addr1 == addr2

-- the same for hash8Int, hash32Int, hash64Int and the hash_uintN_t functions
abbrev pub hash_int : ℕ → ℕ
hash_int x = x

-- the same for compare8Int, compare32Int, compare64Int and the compare_uintN_t functions
abbrev pub compare_int : ℕ → ℕ → Bool
compare_int var1 var2 = var1 == var2
