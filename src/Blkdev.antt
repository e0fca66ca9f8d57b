-- ===== src/Blkdev.antt =====
-- src/fs/blkdev.c: the table of block devices, and partitions of a device. The operations of a device
-- are those that the FAT file system calls.
pub mod Window
mod Tests
use lighth_os.CString.{is_zero, strcmp, strncpy}
use lighth_os.Fat.{Blkdev}
use lighth_os.Common.{
  ℕ, zero, suc, ◌+◌, ◌-◌, ◌%◌, ◌^◌, Bool, true, false, ◌||◌, Option, none, some, List, [], ◌∷◌,
  ◌++◌, length, replicate, ◌==◌, leb, if◌then◌else◌,
}

abbrev pub max_blkdevs : ℕ
max_blkdevs = 8

-- `blkdev_t`, without what file systems note in it
pub record Device (Disk : Type 0) : Type 0 where
  pub name : List ℕ
  pub total_sectors : ℕ
  pub ops : Blkdev Disk

-- `devices`, of which there are `device_count`
module _ {Disk : Type 0} where
  unfoldable pub register : Device Disk → List (Device Disk) → List (Device Disk)
  register dev devices = if leb max_blkdevs (length devices) then devices else devices ++ (dev ∷ [])

  unfoldable pub get : List ℕ → List (Device Disk) → Option (Device Disk)
  get name [] = none
  get name (dev ∷ rest) =
      let found = get name rest in if is_zero (strcmp dev.name name) then some dev else found

  unfoldable pub nth : ℕ → List (Device Disk) → Option (Device Disk)
  nth idx [] = none
  nth zero (dev ∷ rest) = some dev
  nth (suc idx) (dev ∷ rest) = nth idx rest

  -- `part_read` and `part_write`; sectors have 32 bits
  unfoldable pub part_read : Blkdev Disk → ℕ → ℕ → ℕ → Disk → Option (List ℕ)
  part_read parent start total lba disk =
      if leb total lba then none else parent.read_sector ((start + lba) % 2 ^ 32) disk

  unfoldable pub part_write : Blkdev Disk → ℕ → ℕ → ℕ → List ℕ → Disk → Bool × Disk
  part_write parent start total lba buf disk =
      if leb total lba then (false, disk) else parent.write_sector ((start + lba) % 2 ^ 32) buf disk

  abbrev pub window : Blkdev Disk → ℕ → ℕ → Blkdev Disk
  window parent start count = record {
    read_sector = part_read parent start count;
    write_sector = part_write parent start count;
  }

  -- `blkdev_partition`: the device, the pointers that are freed, and the table. `dev` and `priv` are
  -- what `kmalloc` gives, 0 for a null pointer.
  unfoldable pub partition :
      Option (Device Disk)
      → ℕ
      → ℕ
      → List ℕ
      → ℕ
      → ℕ
      → List (Device Disk)
      → (Option (Device Disk) × List ℕ) × List (Device Disk)
  partition none start count name dev priv devices = ((none, []), devices)
  partition (some parent) start count name dev priv devices =
      if dev == 0 || priv == 0
      then (
        (none, (if dev == 0 then [] else dev ∷ []) ++ (if priv == 0 then [] else priv ∷ [])),
        devices,
      )
      else let made : Device Disk = record {
        name = strncpy (replicate 32 0) name 31;
        total_sectors = count;
        ops = window parent.ops start count;
      } in
        ((some made, []), register made devices)
