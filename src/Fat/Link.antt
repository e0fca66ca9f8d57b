-- ===== src/Fat/Link.antt =====
-- src/fs/fat.c: the link that fat_set_cluster stores is the one that fat_next_cluster follows.
use native.Mathlib.Nat.{mul-le-mul_right}
use lighth_os.Pipe.{u32}
use lighth_os.Fat.{
  Blkdev, FatState, entry_size, sect_off, byte_off, word16, word32, entry, eoc_min, in_volume, link,
  link_in, put16, put_entry, new_value, next_cluster, copy_sect, store_in, store_copy, set_from,
  set_cluster,
}
use lighth_os.Common.{
  ℕ, zero, suc, ◌+◌, ◌*◌, ◌/◌, ◌%◌, ◌^◌, ◌≤◌, ◌<◌, ◌≡◌, ◌≢◌, refl, ap, sym, ◌∙◌, true, Option, none,
  some, List, set, length, arith, inl, inr, Bool-cases, get_or-set_self, get_or-set_ne, length-set,
  false-true,
}

length-put16 : (buf : List ℕ) (i v : ℕ) → length (put16 buf i v) ≡ length buf
unfolding put16
length-put16 buf i v =
    length-set (set buf i (v % 256)) (i + 1) (v / 256 % 256) ∙ length-set buf i (v % 256)

word16-put16 :
    (buf : List ℕ) (i v : ℕ) → i + 1 < length buf → word16 (put16 buf i v) i ≡ v % 256 ^ 2
unfolding put16 word16
word16-put16 buf i v h = omega (
  arith,
  get_or-set_ne (set buf i (v % 256)) (i + 1) i (v / 256 % 256) 0 (omega arith),
  get_or-set_self buf i (v % 256) 0 (omega arith),
  get_or-set_self (set buf i (v % 256)) (i + 1) (v / 256 % 256) 0
      (omega (arith, length-set buf i (v % 256))),
)

word16-put_behind : (buf : List ℕ) (i v : ℕ) → word16 (put16 buf (i + 2) v) i ≡ word16 buf i
unfolding put16 word16
word16-put_behind buf i v = omega (
  arith,
  get_or-set_ne (set buf (i + 2) (v % 256)) (i + 2 + 1) i (v / 256 % 256) 0 (omega arith),
  get_or-set_ne buf (i + 2) i (v % 256) 0 (omega arith),
  get_or-set_ne (set buf (i + 2) (v % 256)) (i + 2 + 1) (i + 1) (v / 256 % 256) 0 (omega arith),
  get_or-set_ne buf (i + 2) (i + 1) (v % 256) 0 (omega arith),
)

word32-put :
    (buf : List ℕ) (i v : ℕ)
    → i + 3 < length buf
    → word32 (put16 (put16 buf i (v % 256 ^ 2)) (i + 2) (v / 256 ^ 2)) i ≡ v % 2 ^ 32
unfolding word32
word32-put buf i v h = omega (
  arith,
  word16-put_behind (put16 buf i (v % 256 ^ 2)) i (v / 256 ^ 2),
  word16-put16 buf i (v % 256 ^ 2) (omega arith),
  word16-put16 (put16 buf i (v % 256 ^ 2)) (i + 2) (v / 256 ^ 2)
      (omega (arith, length-put16 buf i (v % 256 ^ 2))),
)

entry-put_entry :
    (st : FatState) (buf : List ℕ) (i value : ℕ)
    → i + entry_size st ≤ length buf
    → value < eoc_min st
    → entry st (put_entry st buf i (new_value st buf i value)) i ≡ value
unfolding entry put_entry new_value
entry-put_entry st buf i value h l = elim (Bool-cases st.is_fat32) [
  | inl e ↦ rw e (f32 (ground (arith, e, h)) (ground (arith, e, l)))
  | inr e ↦ rw e (f16 (ground (arith, e, h)) (ground (arith, e, l)))
]
  where
    v32 : ℕ
    v32 = word32 buf i / 2 ^ 28 * 2 ^ 28 + value % 2 ^ 28

    f32 :
        i + 3 < length buf
        → value < 2 ^ 28
        → word32 (put16 (put16 buf i (v32 % 256 ^ 2)) (i + 2) (v32 / 256 ^ 2)) i % 2 ^ 28 ≡ value
    f32 h l = omega (arith, word32-put buf i v32 h)

    f16 : i + 1 < length buf → value < 256 ^ 2 → word16 (put16 buf i value) i ≡ value
    f16 h l = omega (arith, word16-put16 buf i value h)

-- what the code relies on in a block device: a sector has 512 bytes, a store that succeeds is read
-- back, and it leaves the other sectors as they are
pub record IsDevice {Disk : Type 0} (dev : Blkdev Disk) : Type 0 where
  pub sized : (s : ℕ) (d : Disk) (b : List ℕ) → dev.read_sector s d ≡ some b → length b ≡ 512
  pub reads_back :
      (s : ℕ) (d : Disk) (b : List ℕ)
      → length b ≡ 512
      → (dev.write_sector s b d).0 ≡ true
      → dev.read_sector s (dev.write_sector s b d).1 ≡ some b
  pub keeps :
      (s t : ℕ) (d : Disk) (b : List ℕ)
      → s ≢ t
      → (dev.write_sector s b d).0 ≡ true
      → dev.read_sector t (dev.write_sector s b d).1 ≡ dev.read_sector t d

-- The entry lies in the table, and the tables lie behind each other without a wrap.
pub record IsLaidOut (st : FatState) (cluster : ℕ) : Type 0 where
  pub copies : 0 < st.num_fats
  pub inside : sect_off st cluster < st.sectors_per_fat
  pub fits : st.fat_start_lba + st.num_fats * st.sectors_per_fat ≤ 2 ^ 32

length-put_entry :
    (st : FatState) (buf : List ℕ) (i v : ℕ) → length (put_entry st buf i v) ≡ length buf
unfolding put_entry
length-put_entry st buf i v = elim (Bool-cases st.is_fat32) [
  | inl e ↦ rw e (
      length-put16 (put16 buf i (v % 256 ^ 2)) (i + 2) (v / 256 ^ 2)
      ∙ length-put16 buf i (v % 256 ^ 2))
  | inr e ↦ rw e (length-put16 buf i v)
]

module _ {Disk : Type 0} (dev : Blkdev Disk) (st : FatState) (laws : IsDevice dev) where
  -- the sector of table `f`, once the entry has been stored
  record Stored (f cluster value : ℕ) (disk : Disk) : Type 0 where
    pub buf : List ℕ
    pub sized : length buf ≡ 512
    pub stored :
        dev.read_sector (copy_sect dev st f cluster) disk
        ≡ some
            (put_entry st buf (byte_off st cluster) (new_value st buf (byte_off st cluster) value))

  store_in-Stored :
      (f cluster value : ℕ) (o : Option (List ℕ)) (disk : Disk)
      → dev.read_sector (copy_sect dev st f cluster) disk ≡ o
      → (store_in dev st f cluster value o disk).0 ≡ true
      → Stored f cluster value (store_in dev st f cluster value o disk).2
  unfolding store_in
  store_in-Stored f cluster value none disk e ok = cc
  store_in-Stored f cluster value (some buf) disk e ok = record {
    buf = buf;
    sized = laws.sized _ disk buf e;
    stored =
        laws.reads_back (copy_sect dev st f cluster) disk _
          (length-put_entry st buf _ _ ∙ laws.sized _ disk buf e) ok;
  }

  store_in-keeps :
      (f cluster value t : ℕ) (o : Option (List ℕ)) (disk : Disk)
      → copy_sect dev st f cluster ≢ t
      → (store_in dev st f cluster value o disk).0 ≡ true
      → dev.read_sector t (store_in dev st f cluster value o disk).2 ≡ dev.read_sector t disk
  unfolding store_in
  store_in-keeps f cluster value t none disk ne ok = refl
  store_in-keeps f cluster value t (some buf) disk ne ok =
      laws.keeps (copy_sect dev st f cluster) t disk _ ne ok

  set_from_step :
      (k f cluster value : ℕ) (disk : Disk)
      → (set_from dev st (suc k) f cluster value disk).0 ≡ true
      → ((store_copy dev st f cluster value disk).0 ≡ true)
        × (set_from dev st (suc k) f cluster value disk
            ≡ set_from dev st k
                (f + 1)
                cluster
                (store_copy dev st f cluster value disk).1
                (store_copy dev st f cluster value disk).2)
  unfolding set_from
  set_from_step k f cluster value disk ok =
      elim (Bool-cases (store_copy dev st f cluster value disk).0) [
        | inl t ↦ (t, rw t refl)
        | inr t ↦ absurd (false-true (rw t at ok))
      ]

  set_from-nil :
      (f cluster value : ℕ) (disk : Disk) → set_from dev st 0 f cluster value disk ≡ (true, disk)
  unfolding set_from
  set_from-nil f cluster value disk = refl

  store_copy-keeps :
      (f cluster value t : ℕ) (disk : Disk)
      → copy_sect dev st f cluster ≢ t
      → (store_copy dev st f cluster value disk).0 ≡ true
      → dev.read_sector t (store_copy dev st f cluster value disk).2 ≡ dev.read_sector t disk
  unfolding store_copy
  store_copy-keeps f cluster value t disk ne ok = store_in-keeps f cluster value t _ disk ne ok

  store_copy-Stored :
      (f cluster value : ℕ) (disk : Disk)
      → (store_copy dev st f cluster value disk).0 ≡ true
      → Stored f cluster value (store_copy dev st f cluster value disk).2
  unfolding store_copy
  store_copy-Stored f cluster value disk ok = store_in-Stored f cluster value _ disk refl ok

  set_from-keeps :
      (k f cluster value t : ℕ) (disk : Disk)
      → ((g : ℕ) → f ≤ g → g < f + k → copy_sect dev st g cluster ≢ t)
      → (set_from dev st k f cluster value disk).0 ≡ true
      → dev.read_sector t (set_from dev st k f cluster value disk).1 ≡ dev.read_sector t disk
  set_from-keeps zero f cluster value t disk ne ok =
      ap (λ s. dev.read_sector t s.1) (set_from-nil f cluster value disk)
  set_from-keeps (suc k) f cluster value t disk ne ok =
      let (stored, same) = set_from_step k f cluster value disk ok in
      let r = store_copy dev st f cluster value disk in
      ap (λ s. dev.read_sector t s.1) same
      ∙ set_from-keeps k (f + 1) cluster r.1 t r.2 (λ g a b. ne g (omega arith) (omega arith))
          (sym (ap (λ s. s.0) same) ∙ ok)
      ∙ store_copy-keeps f cluster value t disk (ne f (omega arith) (omega arith)) stored

  set_from-Stored :
      (k cluster value : ℕ) (disk : Disk)
      → ((g : ℕ) → 1 ≤ g → g < 1 + k → copy_sect dev st g cluster ≢ copy_sect dev st 0 cluster)
      → (set_from dev st (suc k) 0 cluster value disk).0 ≡ true
      → Stored 0 cluster value (set_from dev st (suc k) 0 cluster value disk).1
  set_from-Stored k cluster value disk ne ok =
      let (stored, same) = set_from_step k 0 cluster value disk ok in
      let r = store_copy dev st 0 cluster value disk in
      let first : Stored 0 cluster value r.2 = store_copy-Stored 0 cluster value disk stored in
      record {
        buf = first.buf;
        sized = first.sized;
        stored =
            ap (λ s. dev.read_sector (copy_sect dev st 0 cluster) s.1) same
            ∙ set_from-keeps k 1 cluster r.1 (copy_sect dev st 0 cluster) r.2 ne
                (sym (ap (λ s. s.0) same) ∙ ok)
            ∙ first.stored;
      }

  copies-Apart :
      (cluster g : ℕ)
      → IsLaidOut st cluster
      → 0 < g
      → g < st.num_fats
      → copy_sect dev st g cluster ≢ copy_sect dev st 0 cluster
  unfolding copy_sect
  copies-Apart cluster g l h inside e = omega (
    arith,
    e,
    l.fits,
    l.inside,
    mul-le-mul_right st.sectors_per_fat last,
    mul-le-mul_right st.sectors_per_fat first,
  )
    where
      last : g + 1 ≤ st.num_fats
      last = omega (arith, inside)

      first : 1 ≤ g
      first = omega (arith, h)

  next_cluster-read :
      (cluster : ℕ) (disk : Disk) (o : Option (List ℕ))
      → in_volume st cluster ≡ true
      → dev.read_sector (copy_sect dev st 0 cluster) disk ≡ o
      → next_cluster dev st cluster disk ≡ link_in st (byte_off st cluster) o
  unfolding next_cluster copy_sect
  next_cluster-read cluster disk o v e = rw v (
      ap (link_in st (byte_off st cluster)) (
        ap (λ s. dev.read_sector (u32 s) disk)
          {y = st.fat_start_lba + 0 * st.sectors_per_fat + sect_off st cluster} (omega arith)
        ∙ e))

  link_in-entry :
      (i value : ℕ) (buf : List ℕ)
      → entry st buf i ≡ value
      → value < eoc_min st
      → in_volume st value ≡ true
      → link_in st i (some buf) ≡ value
  unfolding link_in link
  link_in-entry i value buf e l v = rw (e, v) (ground (arith, l))

  Stored-link :
      (cluster value : ℕ) (disk : Disk)
      → in_volume st cluster ≡ true
      → in_volume st value ≡ true
      → value < eoc_min st
      → Stored 0 cluster value disk
      → next_cluster dev st cluster disk ≡ value
  Stored-link cluster value disk c v l w =
      next_cluster-read cluster disk _ c w.stored
      ∙ link_in-entry (byte_off st cluster) value _
          (entry-put_entry st w.buf (byte_off st cluster) value fits l) l v
    where
      fits : byte_off st cluster + entry_size st ≤ length w.buf
      fits = elim (Bool-cases st.is_fat32) [
        | inl e ↦ rw e (omega (arith, w.sized))
        | inr e ↦ rw e (omega (arith, w.sized))
      ]

  set_from-next :
      (n cluster value : ℕ) (disk : Disk)
      → n ≡ st.num_fats
      → in_volume st cluster ≡ true
      → in_volume st value ≡ true
      → value < eoc_min st
      → IsLaidOut st cluster
      → (set_from dev st n 0 cluster value disk).0 ≡ true
      → next_cluster dev st cluster (set_from dev st n 0 cluster value disk).1 ≡ value
  set_from-next zero cluster value disk e c v l out ok = absurd (omega (arith, e, out.copies))
  set_from-next (suc k) cluster value disk e c v l out ok = Stored-link cluster value _ c v l (
      set_from-Stored k cluster value disk
        (λ g a b. copies-Apart cluster g out (omega arith) (omega (arith, e))) ok)

  -- A cluster whose entry fat_set_cluster has set, in every table, to a cluster of the volume is
  -- followed by that cluster in fat_next_cluster. The device keeps what it is given, the tables hold
  -- the entry and do not overlap, every store has succeeded, and the number is below the marks for the
  -- end of a chain.
  pub set_cluster-next_cluster :
      (cluster value : ℕ) (disk : Disk)
      → in_volume st cluster ≡ true
      → in_volume st value ≡ true
      → value < eoc_min st
      → IsLaidOut st cluster
      → (set_cluster dev st cluster value disk).0 ≡ true
      → next_cluster dev st cluster (set_cluster dev st cluster value disk).1 ≡ value
  unfolding set_cluster
  set_cluster-next_cluster cluster value disk c v l out ok =
      set_from-next st.num_fats cluster value disk refl c v l out ok
