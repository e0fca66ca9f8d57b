-- ===== src/Fat/First.antt =====
-- src/fs/fat.c: fat_alloc_cluster takes the first free cluster of the volume.
use lighth_os.Fat.{Blkdev, FatState}
use lighth_os.Fat.Chains.{free_at}
use lighth_os.Common.{ℕ, ◌≤◌, ◌<◌, ◌≡◌, true, false, some}

module _ {Disk : Type 0} (dev : Blkdev Disk) (st : FatState) where
  -- `a` is the first free one of the clusters from `c` up to `last`.
  pub record IsFirstFree (c last : ℕ) (disk : Disk) (a : ℕ) : Type 0 where
    pub from : c ≤ a
    pub to : a < last
    pub free : free_at dev st a disk ≡ some true
    pub taken : (j : ℕ) → c ≤ j → j < a → free_at dev st j disk ≡ some false
