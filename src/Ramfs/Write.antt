-- ===== src/Ramfs/Write.antt =====
-- `ramfs_write` and `ramfs_read` of src/fs/ramfs.c: what a write leaves, and what a read returns.
use lighth_os.Ramfs.{
  Inode, Ramfs, Node, vfs_file, max_file, inode_at, store, read_inode, new_capacity, overwrite,
  put_bytes, moved_to, read, grown, write_until, write_inode, write,
}
use lighth_os.Ramfs.File.{
  content, IsFile, GivesBlocks, length-overwrite, overwrite_inside, overwrite_before,
  overwrite_behind,
}
use lighth_os.CString.{pos}
use lighth_os.Common.{
  ℕ, ◌+◌, ◌-◌, ◌%◌, ◌^◌, ◌≤◌, ◌<◌, ◌≡◌, ◌≢◌, refl, ap, sym, subst, ◌∙◌, Option, none, some, List,
  [], ◌∷◌, ◌==◌, ltb, leb, if◌then◌else◌, get_or, take, drop, length, ◌⊎◌, inl, inr, arith,
  Bool-cases, Option-cases, length-take, length-drop, get_or-take, get_or-drop, list_ext,
  get_or-some, get_or-set_self, ge→ltb, ltb→lt, ltb→ge, leb→le, ==→eq, ==→ne, max,
}

-- A file after a write: the new bytes in their place, every other byte of the old file, and the
-- new length.
pub record Written (bytes : List ℕ) (offset : ℕ) (old new : Inode) : Type 0 where
  pub valid : IsFile new
  pub same_kind : new.kind ≡ old.kind
  pub new_size : new.size ≡ max old.size (offset + length bytes)
  pub inside :
      (i : ℕ)
      → offset ≤ i
      → i < offset + length bytes
      → get_or (content new) i 0 ≡ get_or bytes (i - offset) 0
  pub outside :
      (i : ℕ)
      → i < old.size
      → i < offset ⊎ offset + length bytes ≤ i
      → get_or (content new) i 0 ≡ get_or (content old) i 0

new_capacity_lem : (n : ℕ) → n ≤ max_file → (n ≤ new_capacity n) × (new_capacity n ≤ max_file)
unfolding new_capacity
new_capacity_lem n h = ground arith

-- The block that the buffer moves into holds the file.
moved_to-IsFile :
    (block : List ℕ) (cap : ℕ) (inode : Inode)
    → IsFile inode
    → length block ≡ cap
    → inode.size ≤ cap
    → cap ≤ max_file
    → IsFile (moved_to block cap inode)
unfolding moved_to
moved_to-IsFile block cap inode v h l b = record {
  allocated =
      length-overwrite 0 (take inode.size inode.buffer) block
        (omega (arith, length-take inode.size inode.buffer, h))
      ∙ h;
  fits = l;
  bounded = b;
}

content-moved_to :
    (block : List ℕ) (cap : ℕ) (inode : Inode) (i : ℕ)
    → IsFile inode
    → length block ≡ cap
    → inode.size ≤ cap
    → i < inode.size
    → get_or (content (moved_to block cap inode)) i 0 ≡ get_or (content inode) i 0
unfolding moved_to content
content-moved_to block cap inode i v h l u =
    let n = length-take inode.size inode.buffer in
    get_or-take inode.size (overwrite 0 (take inode.size inode.buffer) block) i 0 u
    ∙ overwrite_inside 0 (take inode.size inode.buffer) block i (omega (arith, n, h)) (omega arith)
        (omega (arith, n, u, v.fits, v.allocated))
    ∙ ap (λ k. get_or (take inode.size inode.buffer) k 0) (omega arith)

larger_of : (a b : ℕ) → (if ltb a b then b else a) ≡ max a b
larger_of a b = ground arith

-- The bytes go into a buffer that is long enough.
put_bytes-Written :
    (bytes : List ℕ) (offset : ℕ) (inode : Inode)
    → IsFile inode
    → offset + length bytes ≤ inode.capacity
    → Written bytes offset inode (put_bytes bytes offset (offset + length bytes) inode)
unfolding put_bytes content
put_bytes-Written bytes offset inode v h =
    let end = offset + length bytes in
    let n = larger_of inode.size end in
    let size = if ltb inode.size end then end else inode.size in
    let b = overwrite offset bytes inode.buffer in
    record {
      valid = record {
        allocated =
            length-overwrite offset bytes inode.buffer (omega (arith, v.allocated)) ∙ v.allocated;
        fits = omega (arith, n, v.fits);
        bounded = v.bounded;
      };
      same_kind = refl;
      new_size = n;
      inside = λ i l u.
          get_or-take size b i 0 (omega (arith, n, u))
          ∙ overwrite_inside offset bytes inode.buffer i (omega (arith, v.allocated)) l u;
      outside = λ i l o.
          get_or-take size b i 0 (omega (arith, n, l))
          ∙ (elim o [
            | inl x ↦ overwrite_before offset bytes inode.buffer i (omega (arith, v.allocated)) x
            | inr x ↦ overwrite_behind offset bytes inode.buffer i (omega (arith, v.allocated)) x
          ])
          ∙ sym (get_or-take inode.size inode.buffer i 0 l);
    }

-- What ramfs_write does to the inode of a file, and why it fails when it fails.
pub Writes : (ℕ → Ramfs → Option (List ℕ)) → Ramfs → List ℕ → ℕ → Inode → Option Inode → Type 0
Writes kmalloc fs bytes offset old none =
    old.kind ≢ vfs_file
    ⊎ max_file < offset + length bytes
    ⊎ (old.capacity < offset + length bytes
        × (kmalloc (new_capacity (offset + length bytes)) fs ≡ none))
Writes kmalloc fs bytes offset old (some new) = (old.kind ≡ vfs_file) × Written bytes offset old new

module _ (kmalloc : ℕ → Ramfs → Option (List ℕ)) (gives : GivesBlocks kmalloc) where
  -- the inode with room, and its old bytes
  grown_lem :
      (needed : ℕ) (inode : Inode) (fs : Ramfs)
      → IsFile inode
      → needed ≤ max_file
      → (grown kmalloc needed inode fs ≡ none)
          × inode.capacity < needed
          × (kmalloc (new_capacity needed) fs ≡ none)
        ⊎ ((new : Inode) × (grown kmalloc needed inode fs ≡ some new)
            × IsFile new
            × needed ≤ new.capacity
            × (new.size ≡ inode.size)
            × (new.kind ≡ inode.kind)
            × ((i : ℕ) → i < inode.size → get_or (content new) i 0 ≡ get_or (content inode) i 0))
  unfolding grown moved_to GivesBlocks
  grown_lem needed inode fs v h = elim (Bool-cases (ltb inode.capacity needed)) [
    | inr e ↦ rw e (inr (inode, refl, v, ltb→ge inode.capacity needed e, refl, refl, λ i l. refl))
    | inl e ↦ rw e (elim (Option-cases (kmalloc (new_capacity needed) fs)) [
      | inl f ↦ rw f (inl (refl, ltb→lt inode.capacity needed e, refl))
      | inr (block, f) ↦
          let c = new_capacity_lem needed h in
          let n = gives (new_capacity needed) fs block f in
          let room : inode.size ≤ new_capacity needed =
            omega (arith, c.0, v.fits, ltb→lt inode.capacity needed e) in
          rw f (
            inr (
              moved_to block (new_capacity needed) inode,
              refl,
              moved_to-IsFile block (new_capacity needed) inode v n room c.1,
              c.0,
              refl,
              refl,
              λ i l. content-moved_to block (new_capacity needed) inode i v n room l,
            ))
    ])
  ]

  Written-grown :
      (bytes : List ℕ) (offset : ℕ) (old new : Inode)
      → IsFile new
      → offset + length bytes ≤ new.capacity
      → new.size ≡ old.size
      → new.kind ≡ old.kind
      → ((i : ℕ) → i < old.size → get_or (content new) i 0 ≡ get_or (content old) i 0)
      → Written bytes offset old (put_bytes bytes offset (offset + length bytes) new)
  Written-grown bytes offset old new v h s k c =
      let w = put_bytes-Written bytes offset new v h in
      record {
        valid = w.valid;
        same_kind = w.same_kind ∙ k;
        new_size = w.new_size ∙ ap (λ n. max n (offset + length bytes)) s;
        inside = w.inside;
        outside = λ i l o. w.outside i (omega (arith, s, l)) o ∙ c i l;
      }

  -- ramfs_write on the inode of a file puts the bytes in their place, keeps the other bytes of the
  -- file and its invariant, and fails only on something that is no file, behind the largest file
  -- size, or when memory is short; the end of the write does not wrap.
  pub write_inode-Writes :
      (bytes : List ℕ) (offset : ℕ) (inode : Inode) (fs : Ramfs)
      → IsFile inode
      → offset + length bytes < 2 ^ 64
      → Writes kmalloc fs bytes offset inode (write_inode kmalloc bytes offset inode fs)
  unfolding write_inode write_until Writes
  write_inode-Writes bytes offset inode fs v h =
      let end = offset + length bytes in
      rw (ap (λ e. write_until kmalloc e bytes offset inode fs) (no_wrap end h)) (
        rw (ge→ltb end offset (omega arith)) (elim (Bool-cases (inode.kind == vfs_file)) [
          | inr e ↦ rw e (inl (==→ne inode.kind vfs_file e))
          | inl e ↦ rw e (elim (Bool-cases (ltb max_file end)) [
            | inl f ↦ rw f (inr (inl (ltb→lt max_file end f)))
            | inr f ↦ rw f (elim (grown_lem end inode fs v (ltb→ge max_file end f)) [
              | inl g ↦ rw g.0 (inr (inr (g.1, g.2)))
              | inr g ↦ rw g.1 (
                ==→eq inode.kind vfs_file e,
                Written-grown bytes offset inode g.0 g.2 g.3 g.4 g.5 g.6,
              )
            ])
          ])
        ]))
    where
      no_wrap : (n : ℕ) → n < 2 ^ 64 → n % 2 ^ 64 ≡ n
      no_wrap n l = omega arith

  -- the bytes of a file that was just written
  read_inode-Written :
      (bytes : List ℕ) (offset : ℕ) (old new : Inode)
      → Written bytes offset old new
      → read_inode (length bytes) offset new ≡ bytes
  unfolding read_inode content
  read_inode-Written bytes offset old new w = elim (Bool-cases (leb new.size offset)) [
    | inl e ↦ rw e (nothing bytes (omega (arith, w.new_size, leb→le new.size offset e)))
    | inr e ↦ rw e (
        rw (ge→ltb (new.size - offset) (length bytes) (omega (arith, w.new_size))) (
          list_ext (take (length bytes) (drop offset new.buffer)) bytes 0 size_lem
            (λ i l. cells i (omega (arith, size_lem, l)))))
  ]
    where
      nothing : (b : List ℕ) → length b ≡ 0 → [] ≡ b
      nothing [] e = refl
      nothing (x ∷ b) e = absurd (omega arith)

      size_lem : length (take (length bytes) (drop offset new.buffer)) ≡ length bytes
      size_lem = omega (
        arith,
        length-take (length bytes) (drop offset new.buffer),
        length-drop offset new.buffer,
        w.new_size,
        w.valid.fits,
        w.valid.allocated,
      )

      cells :
          (i : ℕ)
          → i < length bytes
          → get_or (take (length bytes) (drop offset new.buffer)) i 0 ≡ get_or bytes i 0
      cells i l =
          get_or-take (length bytes) (drop offset new.buffer) i 0 l
          ∙ get_or-drop offset new.buffer i 0
          ∙ sym (get_or-take new.size new.buffer (offset + i) 0 (omega (arith, w.new_size, l)))
          ∙ w.inside (offset + i) (omega arith) (omega (arith, l))
          ∙ ap (λ k. get_or bytes k 0) (omega arith)

  -- What ramfs_write has accepted, ramfs_read returns, if the inode was a valid file and the end of
  -- the write does not wrap.
  pub read-write_inode :
      (node : Node) (bytes : List ℕ) (offset : ℕ) (fs : Ramfs) (inode : Inode)
      → inode_at node.private_data fs ≡ some inode
      → IsFile inode
      → offset + length bytes < 2 ^ 64
      → (write kmalloc node bytes (pos offset) fs).0 ≡ some (length bytes)
      → read node (length bytes) (pos offset) (write kmalloc node bytes (pos offset) fs).1
        ≡ some bytes
  unfolding write read Writes
  read-write_inode node bytes offset fs inode e v h ok =
      elim (Option-cases (write_inode kmalloc bytes offset inode fs)) [
        | inl f ↦ absurd (none-some (sym (ap (λ r. r.0) (write_fails f)) ∙ ok))
        | inr (new, f) ↦
            let w =
              subst (Writes kmalloc fs bytes offset inode) f
                (write_inode-Writes bytes offset inode fs v h) in
            rw (write_stores new f)
              (read_back new (w.1.same_kind ∙ w.0) (read_inode-Written bytes offset inode new w.1))
      ]
    where
      none-some : none ≡ some (length bytes) → ⊥
      none-some x = cc

      write_fails :
          write_inode kmalloc bytes offset inode fs ≡ none
          → write kmalloc node bytes (pos offset) fs ≡ (none, fs)
      write_fails f = rw (write, e) (rw f refl)

      write_stores :
          (new : Inode)
          → write_inode kmalloc bytes offset inode fs ≡ some new
          → write kmalloc node bytes (pos offset) fs
            ≡ (some (length bytes), store node.private_data new fs)
      write_stores new f = rw (write, e) (rw f refl)

      read_back :
          (new : Inode)
          → new.kind ≡ vfs_file
          → read_inode (length bytes) offset new ≡ bytes
          → read node (length bytes) (pos offset) (store node.private_data new fs) ≡ some bytes
      read_back new k b =
          rw
            (
              read,
              get_or-set_self fs.inodes node.private_data (some new) none
                  (get_or-some fs.inodes node.private_data inode e),
            )
            (ap (λ x. if x == vfs_file then some (read_inode (length bytes) offset new) else none) k
              ∙ ap some b)
