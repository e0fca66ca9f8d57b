-- ===== src/Fat.antt =====
-- src/fs/fat.c, from the names to the chains of clusters. The block device is an interface, the
-- record `Blkdev`, over its state `Disk`; a sector is the list of its bytes, which are below 256, so
-- the code's `|` of shifted bytes is a sum. `uint32_t` wraps.
pub mod Link
pub mod Chains
pub mod First
mod Tests
use lighth_os.Pipe.{u32}
use lighth_os.Common.{
  ℕ, zero, suc, ◌+◌, ◌-◌, ◌*◌, ◌/◌, ◌%◌, ◌^◌, Bool, true, false, ◌&&◌, ◌||◌, not, Option, none,
  some, List, [], ◌∷◌, ◌++◌, ◌==◌, ltb, leb, if◌then◌else◌, get_or, set, length, replicate, take,
  drop,
}

-- `blkdev_t`; a result of none or false is not 0.
pub record Blkdev (Disk : Type 0) : Type 0 where
  pub read_sector : ℕ → Disk → Option (List ℕ)
  pub write_sector : ℕ → List ℕ → Disk → Bool × Disk

-- `fat_state_t`, without the device and the root directory
pub record FatState : Type 0 where
  pub is_fat32 : Bool
  pub fat_start_lba : ℕ
  pub sectors_per_fat : ℕ
  pub num_fats : ℕ
  pub data_start_lba : ℕ
  pub sectors_per_cluster : ℕ
  pub total_clusters : ℕ

pub to_lower : ℕ → ℕ
to_lower c = if leb 65 c && leb c 90 then c + 32 else c

pub to_upper : ℕ → ℕ
to_upper c = if leb 97 c && leb c 122 then c - 32 else c

-- a loop of `fat_name_to_dot`: up to a space, while there is room
unfoldable pub lower_part : ℕ → List ℕ → List ℕ → List ℕ
lower_part room [] out = out
lower_part room (c ∷ name) out =
    let rest = lower_part room name (out ++ to_lower c ∷ []) in
    if c == 32 || leb (room - 1) (length out) then out else rest

-- `fat_name_to_dot`, without the 0 at the end
unfoldable pub name_to_dot : List ℕ → ℕ → List ℕ
name_to_dot name room =
    let out = lower_part room (take 8 name) [] in
    let dotted = if ltb (length out) (room - 1) then out ++ 46 ∷ [] else out in
    if get_or name 8 0 == 32 then out else lower_part room (take 3 (drop 8 name)) dotted

-- a loop of `fat_name_from_dot`, up to the byte `stop`: the name padded with spaces, and what follows
unfoldable pub upper_part : ℕ → ℕ → List ℕ → List ℕ × List ℕ
upper_part zero stop user = ([], user)
upper_part (suc n) stop [] = (32 ∷ replicate n 32, [])
upper_part (suc n) stop (c ∷ user) =
    let (out, rest) = upper_part n stop user in
    if c == 0 || c == stop then (32 ∷ replicate n 32, c ∷ user) else (to_upper c ∷ out, rest)

-- `fat_name_from_dot`
unfoldable pub name_from_dot : List ℕ → List ℕ
name_from_dot user =
    let (name, rest) = upper_part 8 46 user in
    let ext = if get_or rest 0 0 == 46 then drop 1 rest else rest in name ++ (upper_part 3 0 ext).0

abbrev pub entry_size : FatState → ℕ
entry_size st = if st.is_fat32 then 4 else 2

-- the sector of an entry in the first table, and the place in it
abbrev pub sect_off : FatState → ℕ → ℕ
sect_off st cluster = u32 (cluster * entry_size st) / 512

abbrev pub byte_off : FatState → ℕ → ℕ
byte_off st cluster = u32 (cluster * entry_size st) % 512

-- two or four bytes, the lowest first
unfoldable pub word16 : List ℕ → ℕ → ℕ
word16 buf i = get_or buf i 0 + 256 * get_or buf (i + 1) 0

unfoldable pub word32 : List ℕ → ℕ → ℕ
unfolding word16
word32 buf i = word16 buf i + 256 ^ 2 * word16 buf (i + 2)

-- an entry, without its top 4 bits on FAT32
unfoldable pub entry : FatState → List ℕ → ℕ → ℕ
entry st buf i = if st.is_fat32 then word32 buf i % 2 ^ 28 else word16 buf i

abbrev pub eoc_min : FatState → ℕ
eoc_min st = if st.is_fat32 then 0x0fff_fff8 else 0xfff8

-- the test for a cluster of the volume
unfoldable pub in_volume : FatState → ℕ → Bool
in_volume st cluster = leb 2 cluster && leb cluster (u32 (st.total_clusters + 1))

-- what `fat_next_cluster` makes of an entry
unfoldable pub link : FatState → ℕ → ℕ
link st next = if leb (eoc_min st) next then 0 else if in_volume st next then next else 0

unfoldable pub link_in : FatState → ℕ → Option (List ℕ) → ℕ
link_in st i none = 0
link_in st i (some buf) = link st (entry st buf i)

-- the bytes of an entry, as `fat_set_cluster` stores them
unfoldable pub put16 : List ℕ → ℕ → ℕ → List ℕ
put16 buf i value = set (set buf i (value % 256)) (i + 1) (value / 256 % 256)

unfoldable pub put_entry : FatState → List ℕ → ℕ → ℕ → List ℕ
put_entry st buf i value =
    if st.is_fat32
    then put16 (put16 buf i (value % 256 ^ 2)) (i + 2) (value / 256 ^ 2)
    else put16 buf i value

-- `value`, with the top 4 bits of the old entry on FAT32
unfoldable pub new_value : FatState → List ℕ → ℕ → ℕ → ℕ
new_value st buf i value =
    if st.is_fat32 then word32 buf i / 2 ^ 28 * 2 ^ 28 + value % 2 ^ 28 else value

module _ {Disk : Type 0} (dev : Blkdev Disk) (st : FatState) where
  unfoldable pub next_cluster : ℕ → Disk → ℕ
  next_cluster cluster disk =
      if in_volume st cluster
      then link_in st (byte_off st cluster)
          (dev.read_sector (u32 (st.fat_start_lba + sect_off st cluster)) disk)
      else 0

  -- the sector of an entry in table `f`
  unfoldable pub copy_sect : ℕ → ℕ → ℕ
  copy_sect f cluster = u32 (st.fat_start_lba + f * st.sectors_per_fat + sect_off st cluster)

  -- a round of `fat_set_cluster`, with the sector that was read: whether it succeeds, and `value`
  unfoldable pub store_in : ℕ → ℕ → ℕ → Option (List ℕ) → Disk → Bool × ℕ × Disk
  store_in f cluster value none disk = (false, value, disk)
  store_in f cluster value (some buf) disk =
      let v = new_value st buf (byte_off st cluster) value in
      let r =
        dev.write_sector (copy_sect f cluster) (put_entry st buf (byte_off st cluster) v) disk in
      (r.0, v, r.1)

  unfoldable pub store_copy : ℕ → ℕ → ℕ → Disk → Bool × ℕ × Disk
  store_copy f cluster value disk =
      store_in f cluster value (dev.read_sector (copy_sect f cluster) disk) disk

  -- the loop of `fat_set_cluster`, over `k` tables from table `f` on
  unfoldable pub set_from : ℕ → ℕ → ℕ → ℕ → Disk → Bool × Disk
  set_from zero f cluster value disk = (true, disk)
  set_from (suc k) f cluster value disk =
      let r = store_copy f cluster value disk in
      let rest = set_from k (f + 1) cluster r.1 r.2 in if r.0 then rest else (false, r.2)

  -- `fat_set_cluster`: whether it succeeds
  unfoldable pub set_cluster : ℕ → ℕ → Disk → Bool × Disk
  set_cluster cluster value disk = set_from st.num_fats 0 cluster value disk
