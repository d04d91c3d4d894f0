-- ===== src/HashMap/Change.antt =====
-- A map by addresses, one change after another: a pair is inserted, or its value is replaced.
use mem_perf_pro.Base.{
  bit_and, ℕ, zero, suc, ◌+◌, ◌-◌, ◌/◌, ◌≤◌, ◌<◌, ◌≡◌, ◌≢◌, refl, sym, subst, ◌∙◌, Option, none,
  some, List, [], ◌∷◌, ◌++◌, length, length-append, update, if◌then◌else◌, ◌==◌, ==_self, ==→eq,
  Bool-cases, inl, inr, arith,
}
use mem_perf_pro.HashFuncs.{hash_addr, compare_addr}
use mem_perf_pro.HashMap.{HashMap, find, insert, store, hash_index}
use mem_perf_pro.HashMap.Represents.{lookup, Holds}
use mem_perf_pro.HashMap.Find.{found, find-lookup}
use mem_perf_pro.HashMap.Insert.{inserted, insert_entry-inserted}
use mem_perf_pro.HashMap.Operations.{HasRoom, with_pair, insert-Holds, lookup-append}
use mem_perf_pro.HashMap.Store.{replace, store-Holds, lookup-replace, length-replace}

-- the bucket of an address among so many
abbrev pub slot : ℕ → ℕ → ℕ
slot total address = bit_and (address / 128) (total - 1)

-- the bytes of so many entries
abbrev pub bytes_of : ℕ → ℕ → ℕ
bytes_of entry_size zero = 0
bytes_of entry_size (suc count) = entry_size + bytes_of entry_size count

module _ {V : Type 0} where
  pub lookup-replace_other :
      (key other : ℕ) (value : V) (xs : List (ℕ × V))
      → other ≢ key
      → lookup compare_addr other (replace compare_addr key value xs) ≡ lookup compare_addr other xs
  lookup-replace_other key other value [] n = refl
  lookup-replace_other key other value ((k, v) ∷ xs) n =
      ground (arith, lookup-replace_other key other value xs n)

  pub lookup-append_other :
      (key other : ℕ) (value : V) (xs : List (ℕ × V))
      → other ≢ key
      → lookup compare_addr other (xs ++ (key, value) ∷ []) ≡ lookup compare_addr other xs
  lookup-append_other key other value [] n = ground arith
  lookup-append_other key other value ((k, v) ∷ xs) n =
      ground (arith, lookup-append_other key other value xs n)

  -- the abstract map: the value at an address
  abbrev pub view : ℕ → (ℕ → List (ℕ × V)) → ℕ → Option V
  view total contents address = lookup compare_addr address (contents (slot total address))

  view-change :
      (total : ℕ) (contents : ℕ → List (ℕ × V)) (address : ℕ) (value : V) (new : List (ℕ × V))
      → lookup compare_addr address new ≡ some value
      → ((other : ℕ)
          → other ≢ address
          → lookup compare_addr other new
            ≡ lookup compare_addr other (contents (slot total address)))
      → (other : ℕ)
      → view total (update contents (slot total address) new) other
        ≡ (if other == address then some value else view total contents other)
  view-change total contents address value new at_address elsewhere other =
      let i = slot total address in
      elim (Bool-cases (other == address)) [
        | inl same ↦
            let e : other ≡ address = ==→eq other address same in
            rw (e, ==_self address, ==_self i) at_address
        | inr differs ↦
            let n : other ≢ address = λ e. ground arith in
            elim (Bool-cases (slot total other == i)) [
              | inl together ↦
                  let e : slot total other ≡ i = ==→eq (slot total other) i together in
                  rw (differs, e, ==_self i) (elsewhere other n)
              | inr apart ↦ rw (differs, apart) refl
            ]
      ]

  -- There is space for so many new pairs, even in one bucket.
  pub record HasSpaceFor (entry_size count : ℕ) (m : HashMap ℕ V) (contents : ℕ → List (ℕ × V))
      : Type 0 where
    pub holds : Holds m contents
    pub few : (i : ℕ) → length (contents i) + count < 0x1_0000
    pub buckets : 0 < m.buckets_total
    pub entry : 0 < entry_size
    pub room : m.memory.overhead_pointer + bytes_of entry_size count ≤ m.memory.end_pointer
    pub end : m.memory.end_pointer < 0x1_0000_0000_0000_0000

  -- what a change of the value at an address leaves
  pub record Changed (entry_size count : ℕ) (m m' : HashMap ℕ V) (contents after : ℕ → List (ℕ × V))
      (address : ℕ) (value : V) : Type 0 where
    pub space : HasSpaceFor entry_size count m' after
    pub total : m'.buckets_total ≡ m.buckets_total
    pub values :
        (other : ℕ)
        → view m.buckets_total after other
          ≡ (if other == address then some value else view m.buckets_total contents other)

  module _ (entry_size count : ℕ) (m : HashMap ℕ V) (contents : ℕ → List (ℕ × V)) (address : ℕ)
      (value : V) (space : HasSpaceFor entry_size (suc count) m contents) where
    abbrev here : ℕ
    here = slot m.buckets_total address

    pub found-view :
        found hash_addr compare_addr m (find hash_addr compare_addr m address)
        ≡ view m.buckets_total contents address
    unfolding hash_index
    found-view =
        find-lookup hash_addr compare_addr m contents address space.holds space.buckets
          (omega (arith, space.few here))

    with_room : HasRoom entry_size m
    with_room = record {
      buckets = space.buckets;
      entry = space.entry;
      room = omega (arith, space.room);
      end = space.end;
    }

    pub insert-Changed :
        view m.buckets_total contents address ≡ none
        → Changed entry_size count m
            (insert hash_addr compare_addr entry_size m address value).0
            contents
            (with_pair contents here address value)
            address
            value
    unfolding hash_index insert
    insert-Changed new =
        let is : insert hash_addr compare_addr entry_size m address value
            ≡ (inserted entry_size m here address value, m.memory.overhead_pointer) =
          insert_entry-inserted entry_size m here address value
            (omega (arith, space.room, space.end)) in
        let after : ℕ → List (ℕ × V) = with_pair contents here address value in
        subst (λ (r : HashMap ℕ V × ℕ). Changed entry_size count m r.0 contents after address value)
          (sym is)
          (record {
            space = record {
              holds =
                  subst (λ (r : HashMap ℕ V × ℕ). Holds r.0 after) is
                    (insert-Holds hash_addr compare_addr entry_size m contents address value
                      space.holds with_room);
              few = λ i.
                  ground (arith, space.few i, length-append (contents i) ((address, value) ∷ []));
              buckets = space.buckets;
              entry = space.entry;
              room = omega (arith, space.room);
              end = space.end;
            };
            total = refl;
            values =
                view-change m.buckets_total contents address value
                  (contents here ++ (address, value) ∷ [])
                  (lookup-append compare_addr address address value (contents here)
                    ∙ rw (new, ==_self address) refl)
                  (λ other n. lookup-append_other address other value (contents here) n);
          })

    pub store-Changed :
        (entry : ℕ) (old : V)
        → find hash_addr compare_addr m address ≡ some entry
        → view m.buckets_total contents address ≡ some old
        → Changed entry_size count m
            (store m entry value)
            contents
            (update contents here (replace compare_addr address value (contents here)))
            address
            value
    unfolding hash_index store
    store-Changed entry old hit is = record {
      space = record {
        holds =
            store-Holds hash_addr compare_addr m address contents value entry space.holds
              space.buckets (omega (arith, space.few here)) hit;
        few = λ i. ground (
          arith,
          space.few i,
          space.few here,
          length-replace compare_addr address value (contents here),
        );
        buckets = space.buckets;
        entry = space.entry;
        room = omega (arith, space.room);
        end = space.end;
      };
      total = refl;
      values =
          view-change m.buckets_total contents address value
            (replace compare_addr address value (contents here))
            (lookup-replace compare_addr address value old (contents here) is)
            (λ other n. lookup-replace_other address other value (contents here) n);
    }
