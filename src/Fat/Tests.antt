-- ===== src/Fat/Tests.antt =====
-- A small volume, on a device that keeps its sectors in a function.
use lighth_os.Fat.{
  Blkdev, FatState, in_volume, copy_sect, store_in, store_copy, set_from, set_cluster, next_cluster,
  put16, put_entry, new_value,
}
use lighth_os.Fat.Link.{IsDevice, IsLaidOut, set_cluster-next_cluster}
use lighth_os.Common.{
  ℕ, ◌≡◌, refl, ap, sym, ◌∙◌, arith, true, false, Option, some, none, List, ◌==◌, if◌then◌else◌,
  length, replicate, inl, inr, Bool-cases, ==_self, ne→==,
}

abbrev Disk : Type 0
Disk = ℕ → List ℕ

abbrev read : ℕ → Disk → Option (List ℕ)
read s d = if length (d s) == 512 then some (d s) else none

abbrev store : ℕ → List ℕ → Disk → Disk
store s b d t = if t == s then b else d t

abbrev device : Blkdev Disk
device = record { read_sector = read; write_sector = λ s b d. (true, store s b d) }

read-store : (s : ℕ) (d : Disk) (b : List ℕ) → length b ≡ 512 → read s (store s b d) ≡ some b
read-store s d b h = rw (==_self s, h) refl

read-Sized : (s : ℕ) (d : Disk) (b : List ℕ) → read s d ≡ some b → length b ≡ 512
read-Sized s d b h = elim (Bool-cases (length (d s) == 512)) [
  | inl e ↦ ap length (sym (some_inj (rw e at h))) ∙ ground (arith, e)
  | inr e ↦ absurd (no_some (rw e at h))
]
  where
    some_inj : some (d s) ≡ some b → d s ≡ b
    some_inj x = cc

    no_some : none ≡ some b → ⊥
    no_some x = cc

device-IsDevice : IsDevice device
device-IsDevice = record {
  sized = read-Sized;
  reads_back = λ s d b h ok. read-store s d b h;
  keeps = λ s t d b ne ok. rw (ne→== t s (λ e. ne (sym e))) refl;
}

abbrev volume : FatState
volume = record {
  is_fat32 = false;
  fat_start_lba = 1;
  sectors_per_fat = 1;
  num_fats = 2;
  data_start_lba = 3;
  sectors_per_cluster = 1;
  total_clusters = 4;
}

abbrev blank : Disk
blank s = replicate 512 0

volume-IsLaidOut : IsLaidOut volume 2
volume-IsLaidOut = record { copies = omega arith; inside = omega arith; fits = omega arith }

stores : (set_cluster device volume 2 3 blank).0 ≡ true
unfolding set_cluster set_from store_copy store_in copy_sect put_entry new_value put16 replicate
stores = refl

in_volume_small : (in_volume volume 2 ≡ true) × (in_volume volume 3 ≡ true)
unfolding in_volume
in_volume_small = (refl, refl)

set_cluster-next_cluster_example :
    next_cluster device volume 2 (set_cluster device volume 2 3 blank).1 ≡ 3
set_cluster-next_cluster_example =
    set_cluster-next_cluster device volume device-IsDevice 2 3 blank in_volume_small.0
      in_volume_small.1 (omega arith) volume-IsLaidOut stores
