-- ===== src/Fat/Chains.antt =====
-- src/fs/fat.c: the operations on a chain of clusters.
use lighth_os.Pipe.{u32}
use lighth_os.Fat.{
  Blkdev, FatState, sect_off, byte_off, entry, in_volume, next_cluster, set_cluster,
}
use lighth_os.Common.{
  ℕ, zero, suc, ◌+◌, ◌-◌, ◌*◌, ◌^◌, Bool, Option, none, some, List, ◌==◌, if◌then◌else◌, replicate,
}

-- `fat_cluster_to_lba`
pub cluster_to_lba : FatState → ℕ → ℕ
cluster_to_lba st cluster =
    u32 (st.data_start_lba + u32 (u32 (cluster + 2 ^ 32 - 2) * st.sectors_per_cluster))

-- whether the entry is free; a sector that is not read ends the search
unfoldable pub free_in : FatState → ℕ → Option (List ℕ) → Option Bool
free_in st i none = none
free_in st i (some buf) = some (entry st buf i == 0)

module _ {Disk : Type 0} (dev : Blkdev Disk) (st : FatState) where
  -- the loop that clears a cluster, over `n` sectors from `lba` on
  unfoldable pub clear : ℕ → ℕ → Disk → Disk
  clear zero lba disk = disk
  clear (suc n) lba disk = clear n (u32 (lba + 1)) (dev.write_sector lba (replicate 512 0) disk).1

  -- the state of a search at cluster `c`
  unfoldable pub free_at : ℕ → Disk → Option Bool
  free_at c disk =
      free_in st (byte_off st c) (dev.read_sector (u32 (st.fat_start_lba + sect_off st c)) disk)

  -- a free cluster that the search has found: it ends a chain, and is cleared
  unfoldable pub take_cluster : ℕ → Disk → ℕ × Disk
  take_cluster c disk =
      let r = set_cluster dev st c (if st.is_fat32 then 0x0fff_ffff else 0xffff) disk in
      if r.0 then (c, clear st.sectors_per_cluster (cluster_to_lba st c) r.1) else (0, r.1)

  -- what the search does at a cluster, and where it goes on
  unfoldable pub visit_cluster : Option Bool → ℕ × Disk → ℕ × Disk → Disk → ℕ × Disk
  visit_cluster none found rest disk = (0, disk)
  visit_cluster (some free) found rest disk = if free then found else rest

  -- the loop of `fat_alloc_cluster`, over `n` clusters from `c` on
  unfoldable pub alloc_from : ℕ → ℕ → Disk → ℕ × Disk
  alloc_from zero c disk = (0, disk)
  alloc_from (suc n) c disk =
      let rest = alloc_from n (c + 1) disk in
      visit_cluster (free_at c disk) (take_cluster c disk) rest disk

  -- `fat_alloc_cluster`: the cluster, or 0; the last one is `total_clusters + 1`.
  unfoldable pub alloc_cluster : Disk → ℕ × Disk
  alloc_cluster disk = alloc_from (u32 (st.total_clusters + 1) - 1) 2 disk

  -- `fat_free_chain`, on fuel
  unfoldable pub free_chain : ℕ → ℕ → Disk → Disk
  free_chain zero c disk = disk
  free_chain (suc fuel) c disk =
      let next = next_cluster dev st c disk in
      let cleared = (set_cluster dev st c 0 disk).1 in
      let rest = free_chain fuel next cleared in
      if in_volume st c then (if next == 0 then cleared else rest) else disk

  -- a step of `fat_walk_chain` that has found no next cluster
  unfoldable pub extend : ℕ → Bool → Disk → ℕ × Disk
  extend c alloc disk =
      let a = alloc_cluster disk in
      if alloc then (if a.0 == 0 then a else (a.0, (set_cluster dev st c a.0 a.1).1)) else (0, disk)

  -- `fat_walk_chain`: the cluster, or 0
  unfoldable pub walk_chain : ℕ → ℕ → Bool → Disk → ℕ × Disk
  walk_chain zero c alloc disk = (c, disk)
  walk_chain (suc n) c alloc disk =
      let next = next_cluster dev st c disk in
      let r = if next == 0 then extend c alloc disk else (next, disk) in
      let rest = walk_chain n r.0 alloc r.1 in if r.0 == 0 then r else rest
