-- ===== src/Callsite/Book.antt =====
-- src_light/callsite.cpp: the count of the call keys is that of the keys in the book.
use mem_perf_pro.Base.{
  ℕ, ◌≤◌, ◌<◌, ◌≡◌, true, false, not, ◌&&◌, ◌==◌, update, Bool-cases, inl, inr, arith,
}
use mem_perf_pro.Base.Counts.{count_true, count_true-set, count_true-le}
use mem_perf_pro.Callsite.{Callsite, num_callkey, call_key_of, get_call_key}

-- numCallKey counts the keys in the book.
pub record IsCounted (c : Callsite) : Type 0 where
  pub count : c.num_call_key ≡ count_true c.call_key_book num_callkey

pub record Keyed (old_call_key : ℕ) (c : Callsite) (r : Callsite × ℕ) : Type 0 where
  pub counted : IsCounted r.0
  pub few : r.0.num_call_key ≤ num_callkey
  pub key : r.1 < num_callkey
  pub booked : (r.1 == old_call_key) ≡ false → r.0.call_key_book r.1 ≡ true
  pub kept : (k : ℕ) → c.call_key_book k ≡ true → r.0.call_key_book k ≡ true

-- getCallKey gives a key of 8 bits, which is the old one or in the book behind the call; the keys
-- that were in the book stay there, and numCallKey counts those in the book, so that it is at most
-- 256.
pub get_call_key-Keyed :
    (entry_size stack_offset return_addr old_call_key : ℕ) (c : Callsite)
    → IsCounted c
    → Keyed old_call_key c (get_call_key entry_size stack_offset return_addr old_call_key c)
unfolding get_call_key
get_call_key-Keyed entry_size stack_offset return_addr old_call_key c h =
    let key = call_key_of stack_offset return_addr in
    let below : key < num_callkey = omega arith in
    let set_new = count_true-set c.call_key_book num_callkey key below in
    let few = count_true-le c.call_key_book num_callkey in
    elim (Bool-cases (not (key == old_call_key) && not (c.call_key_book key))) [
      | inl new ↦
          rw (new, get_call_key)
            (record {
              counted = record { count = omega (arith, h.count, few, set_new (ground arith)) };
              few = omega (
                arith,
                h.count,
                few,
                set_new (ground arith),
                count_true-le (update c.call_key_book key true) num_callkey,
              );
              key = omega arith;
              booked = λ e. ground arith;
              kept = λ k e. ground arith;
            })
      | inr old ↦
          rw (old, get_call_key)
            (record {
              counted = h;
              few = omega (arith, h.count, count_true-le c.call_key_book num_callkey);
              key = omega arith;
              booked = λ e. ground arith;
              kept = λ k e. e;
            })
    ]
