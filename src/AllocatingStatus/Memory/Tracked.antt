-- ===== src/AllocatingStatus/Memory/Tracked.antt =====
-- The table of objects and the shadow memory tell of the same objects, from allocation to free.
use mem_perf_pro.Base.{
  ℕ, ◌+◌, ◌*◌, ◌/◌, ◌<◌, ◌≡◌, ◌≢◌, refl, sym, ◌∙◌, ap, Option, some, List, [], ◌∷◌, ◌++◌, length,
  arith, ne→==, Option-cases, inl, inr,
}
use mem_perf_pro.Base.Run.{Returns, Returns-bind}
use mem_perf_pro.AllocatingStatus.Memory.{
  Status, update_memory_status_after_allocation, update_memory_status_before_free,
}
use mem_perf_pro.HashMap.{find}
use mem_perf_pro.HashFuncs.{hash_addr, compare_addr}
use mem_perf_pro.HashMap.Operations.{HasRoom, contradiction}
use mem_perf_pro.HashMap.Represents.{Holds}
use mem_perf_pro.ObjTable.{CallKey, max_obj_num, free_update}
use mem_perf_pro.ObjTable.Update.{
  Contents, IsTable, noted, bucket_of, found-noted, alloc_update-Updated,
}
use mem_perf_pro.ShadowMemory.CacheMap.{max_cache_map_entries}
use mem_perf_pro.ShadowMemory.Extents.{Extent, AllApart}
use mem_perf_pro.ShadowMemory.Lines.{ObjStat}
use mem_perf_pro.ShadowMemory.Objects.Live.{
  Tracks, object_extent, malloc_update_object-Tracks, free_update_object-Tracks,
}
use mem_perf_pro.ShadowMemory.PageIndex.{num_address_range, get_page_index}

-- an object in use: its address and its size
abbrev pub Object : Type 0
Object = ℕ × ℕ

abbrev pub extents : List Object → List Extent
extents [] = []
extents ((address, size) ∷ objects) = object_extent address size ∷ extents objects

-- The table notes the size of the object at its address.
abbrev pub IsNoted : Contents → Object → Type 0
IsNoted contents (address, size) =
    (stat : ObjStat) × (noted contents address ≡ some stat) × (stat.size ≡ size)

abbrev pub AllNoted : Contents → List Object → Type 0
AllNoted contents [] = Unit
AllNoted contents (o ∷ objects) = IsNoted contents o × AllNoted contents objects

-- No object stands at the address.
abbrev pub IsNew : ℕ → List Object → Type 0
IsNew address [] = Unit
IsNew address ((other, size) ∷ objects) = (other ≢ address) × IsNew address objects

pub record IsTracked (objects : List Object) (contents : Contents) (s : Status) : Type 0 where
  pub holds : Holds s.table contents
  pub size : s.table.buckets_total ≡ max_obj_num
  pub tracks : Tracks (extents objects) s.shadow
  pub sizes : AllNoted contents objects

extents-append : (xs ys : List Object) → extents (xs ++ ys) ≡ extents xs ++ extents ys
extents-append [] ys = refl
extents-append ((address, size) ∷ xs) ys =
    ap (λ rest. object_extent address size ∷ rest) (extents-append xs ys)

AllNoted-kept :
    (contents after : Contents) (address : ℕ) (objects : List Object)
    → ((other : ℕ) → other ≢ address → noted after other ≡ noted contents other)
    → IsNew address objects
    → AllNoted contents objects
    → AllNoted after objects
AllNoted-kept contents after address [] same new all = tt
AllNoted-kept contents after address ((other, size) ∷ objects) same new ((stat, e, sz), all) =
    ((stat, same other new.0 ∙ e, sz), AllNoted-kept contents after address objects same new.1 all)

AllNoted-middle :
    (contents : Contents) (before : List Object) (o : Object) (after : List Object)
    → AllNoted contents (before ++ o ∷ after)
    → IsNoted contents o × AllNoted contents (before ++ after)
AllNoted-middle contents [] o after all = (all.0, all.1)
AllNoted-middle contents (b ∷ before) o after all =
    let m = AllNoted-middle contents before o after all.1 in (m.0, (all.0, m.1))

-- There is room for an entry in the table, and for the rows of an object in the cache map.
pub record HasSpace (entry_size size : ℕ) (contents : Contents) (s : Status) : Type 0 where
  pub few : (i : ℕ) → length (contents i) < 0xffff
  pub entries : HasRoom entry_size s.table
  pub rows : s.shadow.cache_map_bump_ptr + (size / 64 + 2) * 64 < max_cache_map_entries

same_value : {o : Option ObjStat} {a b : ObjStat} → o ≡ some b → some a ≡ o → a ≡ b
same_value e h = cc

module _ (s : Status) (contents : Contents) where
  abbrev address_of : ℕ
  address_of = s.allocating_type.object_address

  abbrev size_of : ℕ
  size_of = s.allocating_type.object_size

  -- After its allocation the object is one of those that the table and the shadow memory tell of,
  -- when it has at least one byte, stands at a new address that a range covers, apart from the
  -- others, and there is space. The call returns.
  pub update_memory_status_after_allocation-IsTracked :
      (entry_size : ℕ) (get_call_key : CallKey) (tid : ℕ) (objects : List Object)
      → IsTracked objects contents s
      → 0 < entry_size
      → HasSpace (get_call_key.bytes + entry_size) size_of contents s
      → (get_page_index address_of 0).range ≢ num_address_range
      → size_of ≢ 0
      → IsNew address_of objects
      → AllApart (object_extent address_of size_of) (extents objects)
      → (after : Contents) × Returns
          (IsTracked ((address_of, size_of) ∷ objects) after)
          (update_memory_status_after_allocation entry_size get_call_key tid s)
  unfolding update_memory_status_after_allocation
  update_memory_status_after_allocation-IsTracked entry_size get_call_key tid objects t some_size
        space covered some_bytes new apart =
      let table : IsTable (get_call_key.bytes + entry_size) s.table contents = record {
        holds = t.holds;
        size = t.size;
        few = space.few;
        room = space.entries;
      } in
      let (_, (after, u)) =
        alloc_update-Updated entry_size get_call_key tid s.table size_of address_of contents
          some_size table in
      (
        after,
        Returns-bind (Tracks (extents ((address_of, size_of) ∷ objects)))
            (IsTracked ((address_of, size_of) ∷ objects) after) _ _
            (malloc_update_object-Tracks address_of covered size_of (extents objects) some_bytes
              t.tracks apart space.rows)
            λ shadow tracks. (
              _,
              refl,
              record {
                holds = u.holds;
                size = u.total;
                tracks = tracks;
                sizes = (
                  (_, u.at_address, refl),
                  AllNoted-kept contents after address_of objects u.elsewhere new t.sizes,
                );
              },
            ),
      )

  -- Before an object is freed, the shadow memory and the table are left with the other objects, when
  -- it has at least one byte, stands at an address that a range covers, apart from the others, and
  -- there is space. The call returns, and the table itself is as before.
  pub update_memory_status_before_free-IsTracked :
      (entry_size size : ℕ) (before after : List Object)
      → IsTracked (before ++ (address_of, size) ∷ after) contents s
      → HasSpace entry_size size contents s
      → (get_page_index address_of 0).range ≢ num_address_range
      → size ≢ 0
      → AllApart (object_extent address_of size) (extents (before ++ after))
      → Returns
          (λ s'. IsTracked (before ++ after) contents s' × (s'.table ≡ s.table))
          (update_memory_status_before_free s)
  unfolding update_memory_status_before_free free_update
  update_memory_status_before_free-IsTracked entry_size size before after t space covered some_bytes
        apart =
      let ((stat, at, same), others) =
        AllNoted-middle contents before (address_of, size) after t.sizes in
      let found_is =
        found-noted s.table contents address_of t.holds t.size
          (omega (arith, space.few (bucket_of address_of))) in
      elim (Option-cases (find hash_addr compare_addr s.table address_of)) [
        | inl missing ↦ contradiction (noted contents address_of) stat at (rw missing at found_is)
        | inr (entry, hit) ↦
            let o = s.table.value entry in
            let is_stat : o ≡ stat = same_value at (rw hit at found_is) in
            let e : o.size ≡ size = ap (λ x. x.size) is_stat ∙ same in
            let nonzero : o.size ≢ 0 = λ z. some_bytes (sym e ∙ z) in
            rw (hit, ne→== o.size 0 nonzero, update_memory_status_before_free)
              (Returns-bind (Tracks (extents before ++ extents after))
                (λ s'. IsTracked (before ++ after) contents s' × (s'.table ≡ s.table)) _ _
                (free_update_object-Tracks address_of covered o (extents before) (extents after)
                  nonzero (rw (extents-append before ((address_of, size) ∷ after), ← e) at t.tracks)
                  (rw (extents-append before after, ← e) at apart) (rw (← e) at space.rows))
                λ shadow tracks. (
                  _,
                  refl,
                  (
                    record {
                      holds = t.holds;
                      size = t.size;
                      tracks = rw (extents-append before after) tracks;
                      sizes = others;
                    },
                    refl,
                  ),
                ))
      ]
