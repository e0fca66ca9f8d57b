-- ===== src/Blkdev/Window.antt =====
-- src/fs/blkdev.c: a partition is a device of its own, and keeps to its sectors of the parent.
use lighth_os.Fat.{Blkdev}
use lighth_os.Fat.Link.{IsDevice}
use lighth_os.Blkdev.{part_read, part_write, window}
use lighth_os.Common.{
  ℕ, ◌+◌, ◌^◌, ◌≤◌, ◌<◌, ◌≡◌, ◌≢◌, refl, ap, sym, ◌∙◌, Bool, true, false, none, some, List, leb,
  arith, ◌⊎◌, inl, inr, Bool-cases, leb→gt, true≢false,
}

-- What a partition of `count` sectors from `start` on is to its parent.
pub record IsPartition {Disk : Type 0} (parent : Blkdev Disk) (start count : ℕ) : Type 0 where
  pub device : IsDevice (window parent start count)
  pub reads :
      (lba : ℕ) (d : Disk)
      → lba < count
      → (window parent start count).read_sector lba d ≡ parent.read_sector (start + lba) d
  pub outside :
      (lba u : ℕ) (b : List ℕ) (d : Disk)
      → (u < start) ⊎ (start + count ≤ u)
      → ((window parent start count).write_sector lba b d).0 ≡ true
      → parent.read_sector u ((window parent start count).write_sector lba b d).1
        ≡ parent.read_sector u d
  pub refused :
      (lba : ℕ) (b : List ℕ) (d : Disk)
      → count ≤ lba
      → ((window parent start count).read_sector lba d ≡ none)
        × ((window parent start count).write_sector lba b d ≡ (false, d))

module _ {Disk : Type 0} (parent : Blkdev Disk) (laws : IsDevice parent) (start count : ℕ)
    (fits : start + count ≤ 2 ^ 32) where
  inside_read :
      (lba : ℕ) (d : Disk)
      → leb count lba ≡ false
      → part_read parent start count lba d ≡ parent.read_sector (start + lba) d
  unfolding part_read
  inside_read lba d h =
      rw h (ap (λ s. parent.read_sector s d) (omega (arith, fits, leb→gt count lba h)))

  inside_write :
      (lba : ℕ) (b : List ℕ) (d : Disk)
      → leb count lba ≡ false
      → part_write parent start count lba b d ≡ parent.write_sector (start + lba) b d
  unfolding part_write
  inside_write lba b d h =
      rw h (ap (λ s. parent.write_sector s b d) (omega (arith, fits, leb→gt count lba h)))

  -- A store that succeeds is in the window.
  stored :
      (lba : ℕ) (b : List ℕ) (d : Disk)
      → (part_write parent start count lba b d).0 ≡ true
      → leb count lba ≡ false
  unfolding part_write
  stored lba b d h = elim (Bool-cases (leb count lba)) [
    | inl e ↦ absurd (true≢false (sym (rw e at h)))
    | inr e ↦ e
  ]

  refused_read :
      (lba : ℕ) (d : Disk) → leb count lba ≡ true → part_read parent start count lba d ≡ none
  unfolding part_read
  refused_read lba d h = rw h refl

  refused_write :
      (lba : ℕ) (b : List ℕ) (d : Disk)
      → leb count lba ≡ true
      → part_write parent start count lba b d ≡ (false, d)
  unfolding part_write
  refused_write lba b d h = rw h refl

  no_sector : {b : List ℕ} → none ≡ some b → ⊥
  no_sector x = cc

  window-IsDevice : IsDevice (window parent start count)
  window-IsDevice = record {
    sized = λ s d b h. elim (Bool-cases (leb count s)) [
      | inl e ↦ absurd (no_sector (sym (refused_read s d e) ∙ h))
      | inr e ↦ laws.sized (start + s) d b (sym (inside_read s d e) ∙ h)
    ];
    reads_back = λ s d b l h.
        let e = stored s b d h in
        inside_read s (part_write parent start count s b d).1 e
        ∙ ap (λ (r : Bool × Disk). parent.read_sector (start + s) r.1) (inside_write s b d e)
        ∙ laws.reads_back (start + s) d b l
            (ap (λ (r : Bool × Disk). r.0) (sym (inside_write s b d e)) ∙ h);
    keeps = λ s t d b ne h.
        let e = stored s b d h in
        elim (Bool-cases (leb count t)) [
          | inl f ↦
              refused_read t (part_write parent start count s b d).1 f ∙ sym (refused_read t d f)
          | inr f ↦
              inside_read t (part_write parent start count s b d).1 f
              ∙ ap (λ (r : Bool × Disk). parent.read_sector (start + t) r.1) (inside_write s b d e)
              ∙ laws.keeps (start + s) (start + t) d b (λ x. ne (omega (arith, x)))
                  (ap (λ (r : Bool × Disk). r.0) (sym (inside_write s b d e)) ∙ h)
              ∙ sym (inside_read t d f)
        ];
  }

  -- A partition that lies in the sectors of 32 bits, of a device that reads back what it has
  -- stored and keeps its other sectors, is such a device itself; it reads the sector of the
  -- parent with the start added, a store that succeeds leaves every sector of the parent
  -- outside of the partition as it was, and a sector behind its end is refused with nothing
  -- changed.
  pub window-IsPartition : IsPartition parent start count
  window-IsPartition = record {
    device = window-IsDevice;
    reads = λ lba d l. inside_read lba d (ground (arith, l));
    outside = λ lba u b d o h.
        let e = stored lba b d h in
        ap (λ (r : Bool × Disk). parent.read_sector u r.1) (inside_write lba b d e)
        ∙ laws.keeps (start + lba) u d b (apart lba u (leb→gt count lba e) o)
            (ap (λ (r : Bool × Disk). r.0) (sym (inside_write lba b d e)) ∙ h);
    refused = λ lba b d l.
        (refused_read lba d (ground (arith, l)), refused_write lba b d (ground (arith, l)));
  }
    where
      apart : (lba u : ℕ) → lba < count → (u < start) ⊎ (start + count ≤ u) → start + lba ≢ u
      apart lba u l (inl h) e = omega (arith, h, e)
      apart lba u l (inr h) e = omega (arith, h, e, l)
