-- ===== src/Tests/Sampling.antt =====
-- Records in the ring buffer, which wrap around its end.
use mem_perf_pro.Base.{
  ℕ, suc, ◌+◌, ◌%◌, ◌≡◌, refl, ap, ◌↔◌, true, false, some, List, [], ◌∷◌, length, get_or, arith,
  ◌==◌, if◌then◌else◌,
}
use mem_perf_pro.Structs.{record_a_new_sampling}
use mem_perf_pro.Predictor.{Stage}
use mem_perf_pro.ShadowMemory.CacheMapEntry as Line
use mem_perf_pro.ShadowMemory.PageMapEntry as Page
use mem_perf_pro.ShadowMemory.Access.{do_memory_access, access_line}
use mem_perf_pro.ShadowMemory.PageIndex.{get_page_index, page_index_from}
use mem_perf_pro.Sampling.{
  data_mapsize, ControlPage, PerfInfo, Counted, use_data, read_events, sampled_access, load_access,
  do_access, event_size, load,
}
use mem_perf_pro.Sampling.Buffer.{use_data-ring}
use mem_perf_pro.Sampling.Records.{Framed, record_at, finished, read_events-ends}
use mem_perf_pro.Sampling.Encoding.{Event, sample, other, encode_all}
use mem_perf_pro.Sampling.Reads.{Written, Reads, perf_mmap_read-Reads, do_accesses}
use mem_perf_pro.Sampling.Handler.{Sampler, sample_handler}
use mem_perf_pro.Sampling.Session.{
  nothing, interrupt, Counts, Session-Counts, Handled, sample_handler-Handled,
}
use mem_perf_pro.Tests.Accesses.{heap_address, busy, no_samples}

-- a load that hits in the first cache, a record of another kind, and a store that misses
abbrev records : List Event
records =
    sample 2 heap_address 0x142
    ∷ other 2 0 (1 ∷ 2 ∷ 3 ∷ 4 ∷ 5 ∷ 6 ∷ 7 ∷ 8 ∷ [])
    ∷ sample 2 0x10 0x204
    ∷ []

-- 10 bytes before the end of the ring
abbrev start : ℕ
start = 0x7_fff6

abbrev records_ring : ℕ → ℕ
records_ring i = get_or (encode_all records) ((i + 10) % data_mapsize) 0

abbrev head_page : ControlPage
head_page = record { data_head = start + 64; data_tail = start }

abbrev buffer : PerfInfo
buffer = record {
  prev_head = start;
  data_buf_copy = λ i. 0;
  ring_buf = some head_page;
  ring = records_ring;
}

abbrev before_read : Counted
before_read = record { shadow = busy; friendliness_status = no_samples }

load_hit :
    sampled_access heap_address 0x142
    ≡ some (record { intpaddr = heap_address; access_type = load_access; miss = false })
unfolding sampled_access
load_hit = refl

buffer-Written : Written buffer head_page records
buffer-Written = record {
  mapped = refl;
  fit = (
    (omega arith, omega arith, omega arith),
    (
      (omega arith, omega arith, omega arith, omega arith),
      ((omega arith, omega arith, omega arith), tt),
    ),
  );
  head = omega arith;
  word = omega arith;
  room = omega arith;
  bytes = λ i below. ap (λ j. get_or (encode_all records) j 0) (omega arith);
}

use_data-ring_here : (use_data buffer 64).1 11 ≡ records_ring ((start + 11) % data_mapsize)
use_data-ring_here = use_data-ring buffer 64 11 (omega arith) (omega arith)

perf_mmap_read-Reads_example : Reads 3 buffer head_page records before_read
perf_mmap_read-Reads_example =
    perf_mmap_read-Reads 3 buffer head_page records before_read buffer-Written

-- the friendliness status that the read of the records leaves: only the first sample is of a page in
-- use
records_read : (do_accesses 3 records before_read).friendliness_status ≡ record {
  num_of_sampling = 1;
  total_memory_usage_of_sampled_pages = 4096;
  total_memory_usage_of_sampled_cache_lines = 64;
}
unfolding do_access sampled_access do_memory_access access_line get_page_index page_index_from
    Page.get_used_bytes Line.get_used_bytes record_a_new_sampling
records_read = refl

abbrev two_records : ℕ → ℕ
two_records i = if i == 6 then 8 else if i == 14 then 9 else 0

two_records-Framed : Framed two_records 17 0
unfolding event_size load
two_records-Framed = record_at (omega arith) (record_at (omega arith) (finished (omega arith)))

read_events-ends_example :
    ((fuel : ℕ) × (c : Counted) × (read_events fuel 3 two_records 17 0 before_read ≡ some c))
    ↔ Framed two_records 17 0
read_events-ends_example =
    read_events-ends 3 two_records 17 before_read (omega arith) (λ i. ground arith)

abbrev pub idle : Stage
idle = record {
  num_of_functions = λ i. 0;
  total_function_cycles = 0;
  outside_start_cycle = 0;
  outside_stop_cycle = 0;
  outside_cycle = 0;
  outside_cycle_minus = 0;
}

abbrev sampler : Sampler
sampler = record {
  is_sampling_init = true;
  perf_info = buffer;
  stage = idle;
  counted = before_read;
}

sampler_handled :
    Handled 3 sampler head_page records
      (sample_handler (suc (length (encode_all records))) 3 true 100 200 sampler)
sampler_handled = sample_handler-Handled 3 100 200 sampler head_page records refl buffer-Written

Session-Counts_example : Counts 3 sampler records sampler_handled.s'
Session-Counts_example =
    Session-Counts 3 sampler sampler_handled.s' records refl
      (interrupt head_page records_ring 100 200 nothing buffer-Written sampler_handled.returns)
