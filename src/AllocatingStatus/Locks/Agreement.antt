-- ===== src/AllocatingStatus/Locks/Agreement.antt =====
-- src_light/allocatingstatus.{h,cpp}: the queue of lock data and the sums by lock type count the same.
use mem_perf_pro.Base.{
  ℕ, zero, suc, ◌+◌, ◌-◌, ◌%◌, ◌≤◌, ◌<◌, ◌≡◌, refl, Bool-cases, inl, inr, ltb, update, add_32,
  arith,
}
use mem_perf_pro.AllocatingStatus.Locks.{
  OverviewCounts, QueueCell, LockNotes, length_of_queue, writing_new_data_in_the_queue,
  add_a_contention, add_call_and_cycles, record_a_new_lock, init_for_writing_one_lock_data,
  record_a_lock_contention, record_lock_call_and_cycles,
}

-- the sum over the first cells
unfoldable pub queue_sum : (QueueCell → ℕ) → (ℕ → QueueCell) → ℕ → ℕ
queue_sum f queue zero = 0
queue_sum f queue (suc n) = queue_sum f queue n + f (queue n)

-- the sum over the lock types
abbrev pub overview_sum : (OverviewCounts → ℕ) → (ℕ → OverviewCounts) → ℕ
overview_sum f o = f (o 0) + f (o 1) + f (o 2) + f (o 3)

queue_sum-update_above :
    (f : QueueCell → ℕ) (queue : ℕ → QueueCell) (n i : ℕ) (cell : QueueCell)
    → n ≤ i
    → queue_sum f (update queue i cell) n ≡ queue_sum f queue n
unfolding queue_sum
queue_sum-update_above f queue zero i cell above = refl
queue_sum-update_above f queue (suc n) i cell above =
    ground (arith, queue_sum-update_above f queue n i cell)

queue_sum-update :
    (f : QueueCell → ℕ) (queue : ℕ → QueueCell) (n i : ℕ) (cell : QueueCell)
    → i < n
    → queue_sum f (update queue i cell) n + f (queue i) ≡ queue_sum f queue n + f cell
unfolding queue_sum
queue_sum-update f queue zero i cell below = absurd (omega arith)
queue_sum-update f queue (suc n) i cell below =
    ground (arith, queue_sum-update f queue n i cell, queue_sum-update_above f queue n i cell)

overview_sum-update :
    (f : OverviewCounts → ℕ) (o : ℕ → OverviewCounts) (l : ℕ) (new : OverviewCounts)
    → l < 4
    → overview_sum f (update o l new) + f (o l) ≡ overview_sum f o + f new
overview_sum-update f o l new below = ground arith

abbrev pub word_32 : ℕ
word_32 = 0x1_0000_0000

abbrev pub word_64 : ℕ
word_64 = 0x1_0000_0000_0000_0000

-- What the queue and the sums count is the same, as words; the cells that are not in use are 0.
pub record Agree (n : LockNotes) : Type 0 where
  pub calls :
      queue_sum (λ c. c.num_of_calls) n.lock_queue.queue n.lock_queue.next % word_32
      ≡ overview_sum (λ o. o.num_of_calls) n.overview % word_32
  pub contended :
      queue_sum (λ c. c.num_of_calls_with_contentions) n.lock_queue.queue n.lock_queue.next
        % word_32
      ≡ overview_sum (λ o. o.num_of_calls_with_contentions) n.overview % word_32
  pub cycles :
      queue_sum (λ c. c.cycles) n.lock_queue.queue n.lock_queue.next % word_64
      ≡ overview_sum (λ o. o.cycles) n.overview % word_64
  pub room : n.lock_queue.next ≤ length_of_queue
  pub unused_calls : (i : ℕ) → n.lock_queue.next ≤ i → (n.lock_queue.queue i).num_of_calls ≡ 0
  pub unused_contended :
      (i : ℕ) → n.lock_queue.next ≤ i → (n.lock_queue.queue i).num_of_calls_with_contentions ≡ 0
  pub unused_cycles : (i : ℕ) → n.lock_queue.next ≤ i → (n.lock_queue.queue i).cycles ≡ 0

-- A lock is being written: it has a type, and the queue a last cell.
pub record IsWriting (n : LockNotes) : Type 0 where
  pub type : n.now_running_lock_type < 4
  pub cell : 1 ≤ n.lock_queue.next

pub record_a_new_lock-Agree :
    (n : LockNotes) (l : ℕ) → l < 4 → Agree n → Agree (record_a_new_lock n l)
unfolding record_a_new_lock
record_a_new_lock-Agree n l below a =
    let o = n.overview l in
    let new : OverviewCounts = record o { num_of_locks = add_32 o.num_of_locks 1 } in
    record {
      calls =
          omega (arith, a.calls, overview_sum-update (λ o. o.num_of_calls) n.overview l new below);
      contended = omega (
        arith,
        a.contended,
        overview_sum-update (λ o. o.num_of_calls_with_contentions) n.overview l new below,
      );
      cycles = omega (arith, a.cycles, overview_sum-update (λ o. o.cycles) n.overview l new below);
      room = a.room;
      unused_calls = a.unused_calls;
      unused_contended = a.unused_contended;
      unused_cycles = a.unused_cycles;
    }

queue_sum-next :
    (f : QueueCell → ℕ) (queue : ℕ → QueueCell) (n : ℕ) (cell : QueueCell)
    → queue_sum f (update queue n cell) (n + 1) ≡ queue_sum f queue n + f cell
unfolding queue_sum
queue_sum-next f queue n cell =
    let next : n + 1 ≡ suc n = omega arith in
    rw next (ground (arith, queue_sum-update_above f queue n n cell))

pub init_for_writing_one_lock_data-Agree :
    (n : LockNotes) (l address : ℕ)
    → l < 4
    → Agree n
    → Agree (init_for_writing_one_lock_data n l address)
      × IsWriting (init_for_writing_one_lock_data n l address)
unfolding init_for_writing_one_lock_data
init_for_writing_one_lock_data-Agree n l address below a =
    elim (Bool-cases (ltb n.lock_queue.next length_of_queue)) [
      | inl free ↦
          let q = n.lock_queue in
          let cell : QueueCell = record (q.queue q.next) { address_of_hash_lock_data = address } in
          rw (free, writing_new_data_in_the_queue)
            (
              record {
                calls = omega (
                  arith,
                  a.calls,
                  a.unused_calls q.next (omega arith),
                  queue_sum-next (λ c. c.num_of_calls) q.queue q.next cell,
                );
                contended = omega (
                  arith,
                  a.contended,
                  a.unused_contended q.next (omega arith),
                  queue_sum-next (λ c. c.num_of_calls_with_contentions) q.queue q.next cell,
                );
                cycles = omega (
                  arith,
                  a.cycles,
                  a.unused_cycles q.next (omega arith),
                  queue_sum-next (λ c. c.cycles) q.queue q.next cell,
                );
                room = ground (arith, a.room);
                unused_calls = λ i above. ground (arith, a.unused_calls i);
                unused_contended = λ i above. ground (arith, a.unused_contended i);
                unused_cycles = λ i above. ground (arith, a.unused_cycles i);
              },
              record { type = below; cell = omega arith },
            )
      | inr full ↦
          rw (full, writing_new_data_in_the_queue)
            (
              record {
                calls = a.calls;
                contended = a.contended;
                cycles = a.cycles;
                room = a.room;
                unused_calls = a.unused_calls;
                unused_contended = a.unused_contended;
                unused_cycles = a.unused_cycles;
              },
              record { type = below; cell = ground (arith, a.room) },
            )
    ]

-- the last cell of the queue, and the sums of the lock type
abbrev last_cell : LockNotes → QueueCell
last_cell n = n.lock_queue.queue (n.lock_queue.next - 1)

abbrev running_overview : LockNotes → OverviewCounts
running_overview n = n.overview n.now_running_lock_type

abbrev written : LockNotes → QueueCell → OverviewCounts → LockNotes
written n cell new = record n {
  overview = update n.overview n.now_running_lock_type new;
  lock_queue = record n.lock_queue {
    queue = update n.lock_queue.queue (n.lock_queue.next - 1) cell;
  };
}

-- The cell and the sums that are written grow by the same, as words.
record GrowsAlike (old cell : QueueCell) (o new : OverviewCounts) : Type 0 where
  calls :
      (cell.num_of_calls + o.num_of_calls) % word_32
      ≡ (new.num_of_calls + old.num_of_calls) % word_32
  contended :
      (cell.num_of_calls_with_contentions + o.num_of_calls_with_contentions) % word_32
      ≡ (new.num_of_calls_with_contentions + old.num_of_calls_with_contentions) % word_32
  cycles : (cell.cycles + o.cycles) % word_64 ≡ (new.cycles + old.cycles) % word_64

written-Agree :
    (n : LockNotes) (cell : QueueCell) (new : OverviewCounts)
    → IsWriting n
    → GrowsAlike (last_cell n) cell (running_overview n) new
    → Agree n
    → Agree (written n cell new)
written-Agree n cell new w g a =
    let q = n.lock_queue in
    let i = q.next - 1 in
    let l = n.now_running_lock_type in
    let inside : i < q.next = omega (arith, w.cell) in
    record {
      calls = omega (
        arith,
        a.calls,
        g.calls,
        queue_sum-update (λ c. c.num_of_calls) q.queue q.next i cell inside,
        overview_sum-update (λ o. o.num_of_calls) n.overview l new w.type,
      );
      contended = omega (
        arith,
        a.contended,
        g.contended,
        queue_sum-update (λ c. c.num_of_calls_with_contentions) q.queue q.next i cell inside,
        overview_sum-update (λ o. o.num_of_calls_with_contentions) n.overview l new w.type,
      );
      cycles = omega (
        arith,
        a.cycles,
        g.cycles,
        queue_sum-update (λ c. c.cycles) q.queue q.next i cell inside,
        overview_sum-update (λ o. o.cycles) n.overview l new w.type,
      );
      room = a.room;
      unused_calls = λ j above. ground (arith, a.unused_calls j, inside);
      unused_contended = λ j above. ground (arith, a.unused_contended j, inside);
      unused_cycles = λ j above. ground (arith, a.unused_cycles j, inside);
    }

pub record_lock_call_and_cycles-Agree :
    (n : LockNotes) (num_of_calls cycles : ℕ)
    → IsWriting n
    → Agree n
    → Agree (record_lock_call_and_cycles n num_of_calls cycles)
unfolding record_lock_call_and_cycles add_call_and_cycles
record_lock_call_and_cycles-Agree n num_of_calls cycles w a =
    written-Agree n _ _ w
      (record { calls = omega arith; contended = omega arith; cycles = omega arith }) a

pub record_a_lock_contention-Agree :
    (n : LockNotes) → IsWriting n → Agree n → Agree (record_a_lock_contention n)
unfolding record_a_lock_contention add_a_contention
record_a_lock_contention-Agree n w a =
    written-Agree n _ _ w
      (record { calls = omega arith; contended = omega arith; cycles = omega arith }) a

pub record_a_lock_contention-IsWriting :
    (n : LockNotes) → IsWriting n → IsWriting (record_a_lock_contention n)
unfolding record_a_lock_contention add_a_contention
record_a_lock_contention-IsWriting n w = record { type = w.type; cell = w.cell }
