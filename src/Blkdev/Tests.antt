-- ===== src/Blkdev/Tests.antt =====
-- A disk that keeps its sectors in a function, and a partition of it.
use lighth_os.CString.{is_zero, strcmp, strncpy, byte_diff, fill_zero}
use lighth_os.Fat.{Blkdev}
use lighth_os.Fat.Link.{IsDevice}
use lighth_os.Blkdev.{Device, register, get, partition}
use lighth_os.Blkdev.Window.{IsPartition, window-IsPartition}
use lighth_os.Common.{
  ℕ, ◌≡◌, refl, ap, sym, ◌∙◌, arith, true, Option, some, none, List, [], ◌∷◌, ◌==◌, if◌then◌else◌,
  length, replicate, inl, inr, Bool-cases, ==_self, ne→==, ==→eq,
}

abbrev Disk : Type 0
Disk = ℕ → List ℕ

-- A sector of another size than 512 is bad.
abbrev read : ℕ → Disk → Option (List ℕ)
read s d = if length (d s) == 512 then some (d s) else none

abbrev disk : Blkdev Disk
disk = record { read_sector = read; write_sector = λ s b d. (true, λ t. if t == s then b else d t) }

disk-IsDevice : IsDevice disk
disk-IsDevice = record {
  sized = λ s d b h. elim (Bool-cases (length (d s) == 512)) [
    | inl e ↦ ap length (sym (some_inj d s b (rw e at h))) ∙ ==→eq (length (d s)) 512 e
    | inr e ↦ absurd (no_sector b (rw e at h))
  ];
  reads_back = λ s d b h ok. rw (==_self s, h) refl;
  keeps = λ s t d b ne ok. rw (ne→== t s (λ e. ne (sym e))) refl;
}
  where
    some_inj : (d : Disk) (s : ℕ) (b : List ℕ) → some (d s) ≡ some b → d s ≡ b
    some_inj d s b x = cc

    no_sector : (b : List ℕ) → none ≡ some b → ⊥
    no_sector b x = cc

window-IsPartition_example : IsPartition disk 10 20
window-IsPartition_example = window-IsPartition disk disk-IsDevice 10 20 (omega arith)

-- a partition "p" in a table with room, and its look-up
abbrev whole : Device Disk
whole = record { name = 100 ∷ 0 ∷ []; total_sectors = 100; ops = disk }

size_of : Option (Device Disk) → ℕ
size_of none = 0
size_of (some d) = d.total_sectors

partition_test :
    size_of
      (get (112 ∷ 0 ∷ []) (partition (some whole) 10 20 (112 ∷ 0 ∷ []) 4096 8192 (whole ∷ [])).1)
    ≡ 20
unfolding size_of partition register get strcmp is_zero byte_diff strncpy fill_zero replicate
partition_test = refl

-- A table that is full does not take the partition, and the caller is not told.
full_test :
    (length (partition (some whole) 10 20 (112 ∷ 0 ∷ []) 4096 8192 (replicate 8 whole)).1 ≡ 8)
unfolding partition register replicate
full_test = refl
