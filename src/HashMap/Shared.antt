-- ===== src/HashMap/Shared.antt =====
-- The maps of a thread take their entries out of one memory: what is taken for one map leaves the
-- others what they hold.
use mem_perf_pro.Base.{ℕ, ◌+◌, ◌≤◌, ◌<◌, ◌≡◌, refl, ◌∙◌, Bool, inl, inr, List, [], ◌∷◌, ap, arith}
use mem_perf_pro.HashList.Ring.{AllOf-map}
use mem_perf_pro.MyMalloc.{Memory, malloc}
use mem_perf_pro.HashMap.{HashMap, with_memory, insert, insert_entry, create_new_entry}
use mem_perf_pro.HashMap.Represents.{pairs, Holds, IsEntry}
use mem_perf_pro.HashMap.Operations.{HasRoom}

-- At most so many bytes have been taken from the memory, when its addresses do not wrap.
pub record Grown (bytes : ℕ) (m m' : Memory) : Type 0 where
  pub end : m'.end_pointer ≡ m.end_pointer
  pub taken :
      m.overhead_pointer + bytes < 0x1_0000_0000_0000_0000
      → (m.overhead_pointer ≤ m'.overhead_pointer)
        × (m'.overhead_pointer ≤ m.overhead_pointer + bytes)

pub Grown-self : (bytes : ℕ) (m : Memory) → Grown bytes m m
Grown-self bytes m = record { end = refl; taken = λ fits. (omega arith, omega arith) }

pub Grown-trans : (b c : ℕ) (m m' n : Memory) → Grown b m m' → Grown c m' n → Grown (b + c) m n
Grown-trans b c m m' n g h = record {
  end = h.end ∙ g.end;
  taken = λ fits.
      let first = g.taken (omega (arith, fits)) in
      let second = h.taken (omega (arith, fits, first.1)) in
      (omega (arith, first.0, second.0), omega (arith, first.1, second.1));
}

pub malloc-Grown : (bytes : ℕ) (m : Memory) → Grown bytes m (malloc m bytes).0
unfolding malloc
malloc-Grown bytes m = record {
  end = refl;
  taken = λ fits. (omega (arith, fits), omega (arith, fits));
}

module _ {ℓ} {K V : Type ℓ} where
  pub insert-Grown :
      (hash : K → ℕ) (same_key : K → K → Bool) (entry_size : ℕ) (m : HashMap K V) (key : K)
      (value : V)
      → Grown entry_size m.memory (insert hash same_key entry_size m key value).0.memory
  unfolding insert insert_entry create_new_entry
  insert-Grown hash same_key entry_size m key value = malloc-Grown entry_size m.memory

  same_pairs :
      (m : HashMap K V) (memory : Memory) (nodes : List ℕ)
      → pairs (with_memory m memory) nodes ≡ pairs m nodes
  same_pairs m memory [] = refl
  same_pairs m memory (node ∷ nodes) =
      ap (λ rest. (m.key node, m.value node) ∷ rest) (same_pairs m memory nodes)

  pub Holds-Grown :
      (bytes : ℕ) (m : HashMap K V) (memory : Memory) (contents : ℕ → List (K × V))
      → Grown bytes m.memory memory
      → m.memory.overhead_pointer + bytes < 0x1_0000_0000_0000_0000
      → Holds m contents
      → Holds (with_memory m memory) contents
  Holds-Grown bytes m memory contents g fits h =
      let up = (g.taken fits).0 in
      record {
        nodes = h.nodes;
        owner = h.owner;
        rings = h.rings;
        counts = h.counts;
        heads = h.heads;
        entries = λ i l.
            AllOf-map (IsEntry m h.owner i) (IsEntry (with_memory m memory) h.owner i) (h.nodes i)
              (λ x k. (k.0, omega (arith, k.1, up))) (h.entries i l);
        fresh = λ i l. elim (h.fresh i l) [
          | inl below ↦ inl (omega (arith, below, up))
          | inr above ↦ inr (omega (arith, above, g.end))
        ];
        held = λ i l. same_pairs m memory (h.nodes i) ∙ h.held i l;
      }

  pub HasRoom-Grown :
      (bytes entry_size : ℕ) (m : HashMap K V) (memory : Memory)
      → Grown bytes m.memory memory
      → 0 < entry_size
      → HasRoom (bytes + entry_size) m
      → HasRoom entry_size (with_memory m memory)
  HasRoom-Grown bytes entry_size m memory g some_size r =
      let up = (g.taken (omega (arith, r.room, r.end))).1 in
      record {
        buckets = r.buckets;
        entry = some_size;
        room = omega (arith, up, r.room, g.end);
        end = omega (arith, r.end, g.end);
      }
