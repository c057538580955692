-- ===== src/Inode/Index.antt =====
-- Which sector holds a byte of a file, for files that need no doubly indirect block.
use operating_system_pl_nt.Prelude.{
  ℕ, zero, suc, ◌+◌, ◌-◌, ◌<◌, ◌≤◌, ◌≡◌, refl, ap, inl, inr, List, [], ◌∷◌, ltb, lt→ltb,
  if◌then◌else◌, length, get_or, get_elem?-eq-get_or, take, ok, arith, Bool-cases,
}
use operating_system_pl_nt.Block.{Bytes, block_sector_size}
use operating_system_pl_nt.Cache.{BufferCache}
use operating_system_pl_nt.Cache.Valid.{IsValid, view, view-length}
use operating_system_pl_nt.Cache.Gets.{Same, Same-refl}
use operating_system_pl_nt.Cache.Refines.{buffer_cache_read-refines}
use operating_system_pl_nt.InodeDisk.{InodeDisk, direct_count, indirect_count, words_of}
use operating_system_pl_nt.InodeDisk.Codec.{words_of-length}
use operating_system_pl_nt.Inode.{table_at, slot_at, get_index_sector}

-- The sector with number `index` of the file.
unfoldable pub sector_of : InodeDisk → BufferCache → ℕ → ℕ
sector_of disk c index =
    if ltb index direct_count
    then get_or disk.direct_blocks index 0
    else get_or (words_of indirect_count (view c disk.indirect_block)) (index - direct_count) 0

-- The first `n` sectors of the file are on the device.
pub record IsLaidOut (disk : InodeDisk) (c : BufferCache) (n : ℕ) : Type 0 where
  pub few : n ≤ direct_count + indirect_count
  pub direct_length : length disk.direct_blocks ≡ direct_count
  pub indirect_bound : direct_count < n → disk.indirect_block < c.fs_device.size
  pub bound : (index : ℕ) → index < n → sector_of disk c index < c.fs_device.size

take-all : (n : ℕ) (xs : Bytes) → length xs ≡ n → take n xs ≡ xs
take-all zero [] h = refl
take-all zero (x ∷ xs) h = absurd (omega arith)
take-all (suc n) [] h = refl
take-all (suc n) (x ∷ xs) h = ap (λ l. x ∷ l) (take-all n xs (omega arith))

table_at-view :
    {c : BufferCache} (block : ℕ)
    → IsValid c
    → block < c.fs_device.size
    → (c' : BufferCache) × (table_at block c ≡ ok (words_of indirect_count (view c block), c'))
      × Same c c'
unfolding table_at
table_at-view {c} block v bound =
    let (c', reads, same) =
      buffer_cache_read-refines {c = c} block 0 block_sector_size v bound (omega arith) in
    (c', simp (reads, take-all block_sector_size (view c block) (view-length block v)), same)

slot_at-ok : (table : List ℕ) (i : ℕ) → i < length table → slot_at table i ≡ ok (get_or table i 0)
unfolding slot_at
slot_at-ok table i h = rw (get_elem?-eq-get_or table i 0 h, slot_at)

pub get_index_sector-lem :
    {disk : InodeDisk} {c : BufferCache} {n : ℕ} (index : ℕ)
    → IsValid c
    → IsLaidOut disk c n
    → index < n
    → (c' : BufferCache) × (get_index_sector disk index c ≡ ok (sector_of disk c index, c'))
      × Same c c'
unfolding get_index_sector sector_of
get_index_sector-lem {disk} {c} index v l h = elim (Bool-cases (ltb index direct_count)) [
  | inl direct ↦ (
    c,
    simp (direct, slot_at-ok disk.direct_blocks index (ground (arith, l.direct_length))),
    Same-refl v,
  )
  | inr indirect ↦
      let table : List ℕ = words_of indirect_count (view c disk.indirect_block) in
      let (c', reads, same) =
        table_at-view {c = c} disk.indirect_block v (l.indirect_bound (ground arith)) in
      (
        c',
        simp (
          indirect,
          lt→ltb (index - direct_count) indirect_count (ground (arith, l.few)),
          reads,
          slot_at-ok table (index - direct_count)
              (ground (arith, l.few, words_of-length indirect_count (view c disk.indirect_block))),
        ),
        same,
      )
]
