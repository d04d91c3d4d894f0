-- ===== src/ObjTable/Update.antt =====
-- What the table tells of an object when it is freed: what was noted at its last allocation.
use mem_perf_pro.Base.{
  bit_and, ◌-◌, ℕ, ◌+◌, ◌/◌, ◌<◌, ◌≡◌, ◌≢◌, Bool, true, false, refl, subst, ap, sym, ◌∙◌, Option,
  none, some, List, [], ◌∷◌, length, update, ◌==◌, ==_self, Bool-cases, Option-cases, inl, inr,
  arith, ==→eq, length-append,
}
use mem_perf_pro.HashFuncs.{hash_addr, compare_addr}
use mem_perf_pro.HashMap.{
  with_memory, find, insert_entry, create_new_entry, insert, store, hash_index,
}
use mem_perf_pro.HashMap.Represents.{lookup, Holds}
use mem_perf_pro.HashMap.Find.{found, find-lookup}
use mem_perf_pro.HashMap.Operations.{HasRoom, with_pair, insert-Holds, lookup-append}
use mem_perf_pro.HashMap.Store.{replace, store-Holds, lookup-replace, length-replace}
use mem_perf_pro.HashMap.Change.{lookup-replace_other, lookup-append_other}
use mem_perf_pro.MyMalloc.{Memory}
use mem_perf_pro.HashMap.Shared.{Grown, Grown-self, malloc-Grown, Holds-Grown, HasRoom-Grown}
use mem_perf_pro.ObjTable.{
  CallKey, after_call_key, note_obj, Table, max_obj_num, new_obj, find_obj, alloc_update,
  free_update,
}
use mem_perf_pro.ShadowMemory.Lines.{ObjStat}

abbrev pub Contents : Type 0
Contents = ℕ → List (ℕ × ObjStat)

abbrev pub bucket_of : ℕ → ℕ
bucket_of address = bit_and (address / 128) (max_obj_num - 1)

-- the abstract table: what is noted of an address
abbrev pub noted : Contents → ℕ → Option ObjStat
noted contents address = lookup compare_addr address (contents (bucket_of address))

-- A table with its contents: 4194304 buckets, none of them full, and room for one more entry.
pub record IsTable (entry_size : ℕ) (t : Table) (contents : Contents) : Type 0 where
  pub holds : Holds t contents
  pub size : t.buckets_total ≡ max_obj_num
  pub few : (i : ℕ) → length (contents i) < 0xffff
  pub room : HasRoom entry_size t

abbrev pub is_noted : Option ObjStat → Bool
is_noted none = false
is_noted (some o) = true

abbrev pub old_key : Option ObjStat → ℕ
old_key none = 0
old_key (some o) = o.call_key

-- What an allocation leaves in the table.
pub record Updated (t' : Table) (contents after : Contents) (address : ℕ) (stat : ObjStat)
    : Type 0 where
  pub holds : Holds t' after
  pub total : t'.buckets_total ≡ max_obj_num
  pub at_address : noted after address ≡ some stat
  pub elsewhere : (other : ℕ) → other ≢ address → noted after other ≡ noted contents other
  pub on_free : found hash_addr compare_addr t' (free_update t' address) ≡ some stat

pub index_lem :
    (t : Table) (address : ℕ)
    → t.buckets_total ≡ max_obj_num
    → hash_index hash_addr compare_addr t address ≡ bucket_of address
unfolding hash_index
index_lem t address size = ap (λ n. bit_and (address / 128) (n - 1)) size

insert-total :
    (entry_size : ℕ) (t : Table) (address : ℕ) (stat : ObjStat)
    → (insert hash_addr compare_addr entry_size t address stat).0.buckets_total ≡ t.buckets_total
unfolding insert insert_entry create_new_entry
insert-total entry_size t address stat = refl

store-total :
    (t : Table) (entry : ℕ) (stat : ObjStat) → (store t entry stat).buckets_total ≡ t.buckets_total
unfolding store
store-total t entry stat = refl

-- The search of the detailed table gives what is noted.
pub found-noted :
    (t : Table) (contents : Contents) (address : ℕ)
    → Holds t contents
    → t.buckets_total ≡ max_obj_num
    → length (contents (bucket_of address)) < 0x1_0000
    → found hash_addr compare_addr t (find_obj t address) ≡ noted contents address
found-noted t contents address h size small =
    let e = index_lem t address size in
    subst
      (λ i.
        found hash_addr compare_addr t (find_obj t address)
        ≡ lookup compare_addr address (contents i))
      e
      (find-lookup hash_addr compare_addr t contents address h (omega (arith, size))
        (rw (← e) at small))

module _ (t : Table) (address : ℕ) (contents : Contents) (stat : ObjStat) (entry_size : ℕ)
    (it : IsTable entry_size t contents) where
  new-Updated :
      noted contents address ≡ none
      → Updated
          (insert hash_addr compare_addr entry_size t address stat).0
          contents
          (with_pair contents (bucket_of address) address stat)
          address
          stat
  unfolding free_update
  new-Updated new =
      let i = bucket_of address in
      let after = with_pair contents i address stat in
      let holds =
        rw (index_lem t address it.size) at (
          insert-Holds hash_addr compare_addr entry_size t contents address stat it.holds
            it.room) in
      let at_address : noted after address ≡ some stat = rw (==_self i) (
        lookup-append compare_addr address address stat (contents i)
        ∙ rw (new, ==_self address) refl) in
      record {
        holds = holds;
        total = insert-total entry_size t address stat ∙ it.size;
        at_address = at_address;
        elsewhere = λ other n. elim (Bool-cases (bucket_of other == i)) [
          | inl same ↦
              let e : bucket_of other ≡ i = ==→eq (bucket_of other) i same in
              rw (e, ==_self i) (lookup-append_other address other stat (contents i) n)
          | inr apart ↦ rw apart refl
        ];
        on_free =
            found-noted _ after address holds (insert-total entry_size t address stat ∙ it.size) (
              rw (==_self i)
                (omega (arith, it.few i, length-append (contents i) ((address, stat) ∷ []))))
            ∙ at_address;
      }

  old-Updated :
      (entry : ℕ) (v : ObjStat)
      → find_obj t address ≡ some entry
      → noted contents address ≡ some v
      → Updated
          (store t entry stat)
          contents
          (update contents
            (bucket_of address)
            (replace compare_addr address stat (contents (bucket_of address))))
          address
          stat
  unfolding free_update
  old-Updated entry v hit old =
      let i = bucket_of address in
      let after = update contents i (replace compare_addr address stat (contents i)) in
      let e = index_lem t address it.size in
      let few : length (contents i) < 0x1_0000 = omega (arith, it.few i) in
      let holds = rw e at (
        store-Holds hash_addr compare_addr t address contents stat entry it.holds
          (omega (arith, it.size)) (rw (← e) at few) hit) in
      let at_address : noted after address ≡ some stat =
        rw (==_self i) (lookup-replace compare_addr address stat v (contents i) old) in
      record {
        holds = holds;
        total = store-total t entry stat ∙ it.size;
        at_address = at_address;
        elsewhere = λ other n. elim (Bool-cases (bucket_of other == i)) [
          | inl same ↦
              let e : bucket_of other ≡ i = ==→eq (bucket_of other) i same in
              rw (e, ==_self i) (lookup-replace_other address other stat (contents i) n)
          | inr apart ↦ rw apart refl
        ];
        on_free =
            found-noted _ after address holds (store-total t entry stat ∙ it.size) (
              rw (==_self i)
                (omega (arith, few, length-replace compare_addr address stat (contents i))))
            ∙ at_address;
      }

module _ (entry_size : ℕ) (get_call_key : ℕ → ℕ) (tid : ℕ) (t : Table) (size address : ℕ)
    (contents : Contents) where
  note_obj-Updated :
      IsTable entry_size t contents
      → ((note_obj entry_size get_call_key tid t size address).1
          ≡ is_noted (noted contents address))
        × ((after : Contents) × Updated
              (note_obj entry_size get_call_key tid t size address).0
              contents
              after
              address
              (record {
                call_key = get_call_key (old_key (noted contents address));
                tid = tid;
                size = size;
              }))
  unfolding note_obj new_obj
  note_obj-Updated it =
      let found_is =
        found-noted t contents address it.holds it.size
          (omega (arith, it.few (bucket_of address))) in
      elim (Option-cases (find hash_addr compare_addr t address)) [
        | inl missing ↦
            let new : noted contents address ≡ none = sym (rw missing at found_is) in
            rw (missing, new, note_obj)
              (
                refl,
                (
                  with_pair contents (bucket_of address) address _,
                  new-Updated t address contents
                      (record { call_key = get_call_key 0; tid = tid; size = size }) entry_size it
                      new,
                ),
              )
        | inr (entry, hit) ↦
            let old : noted contents address ≡ some (t.value entry) = sym (rw hit at found_is) in
            rw (hit, old, note_obj)
              (
                refl,
                (
                  update contents (bucket_of address)
                      (replace compare_addr address _ (contents (bucket_of address))),
                  old-Updated t address contents _ entry_size it entry (t.value entry) hit old,
                ),
              )
      ]

after_call_key-Grown : (bytes : ℕ) (m : Memory) → Grown bytes m (after_call_key bytes m)
after_call_key-Grown bytes m = elim (Bool-cases (bytes == 0)) [
  | inl e ↦ rw e (Grown-self bytes m)
  | inr e ↦ rw e (malloc-Grown bytes m)
]

module _ (entry_size : ℕ) (call_key : CallKey) (tid : ℕ) (t : Table) (size address : ℕ)
    (contents : Contents) where
  -- allocUpdate notes the call site, the thread and the size of the object at its address, where
  -- freeUpdate then finds them; what is noted of other addresses stays; and it says whether the
  -- address was noted before, in which case the call site is computed from the old one. The hash
  -- memory must have room for a call site and an entry.
  pub alloc_update-Updated :
      0 < entry_size
      → IsTable (call_key.bytes + entry_size) t contents
      → ((alloc_update entry_size call_key tid t size address).1
          ≡ is_noted (noted contents address))
        × ((after : Contents) × Updated
              (alloc_update entry_size call_key tid t size address).0
              contents
              after
              address
              (record {
                call_key = call_key.key (old_key (noted contents address));
                tid = tid;
                size = size;
              }))
  unfolding alloc_update
  alloc_update-Updated some_size it =
      let memory = after_call_key call_key.bytes t.memory in
      let grown = after_call_key-Grown call_key.bytes t.memory in
      note_obj-Updated entry_size call_key.key tid (with_memory t memory) size address contents
        (record {
          holds =
              Holds-Grown call_key.bytes t memory contents grown
                (omega (arith, it.room.room, it.room.end, some_size)) it.holds;
          size = it.size;
          few = it.few;
          room = HasRoom-Grown call_key.bytes entry_size t memory grown some_size it.room;
        })
