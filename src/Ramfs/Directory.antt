-- ===== src/Ramfs/Directory.antt =====
-- Directories of src/fs/ramfs.c: what ramfs_create and ramfs_unlink do to later lookups.
use lighth_os.Ramfs.{
  Inode, Ramfs, Node, vfs_dir, max_children, inode_at, store, blank, alloc_inode, named, find_child,
  add_child, create,
}
use lighth_os.CString.{is_zero, strcmp}
use lighth_os.CString.Text.{text, strcmp_lem}
use lighth_os.CString.Copy.{text-strncpy}
use lighth_os.Common.{
  true≢false, ℕ, ◌+◌, ◌-◌, ◌%◌, ◌^◌, ◌≤◌, ◌≡◌, ◌≢◌, refl, ap, sym, subst, ◌∙◌, Bool, true, false,
  ◌&&◌, Option, none, some, List, [], ◌∷◌, ◌++◌, ◌==◌, ltb, if◌then◌else◌, get_or, length, ◌⊎◌, inl,
  inr, arith, Bool-cases, Option-cases, All, length-append, get_or-append_left, get_or-append_right,
  get_or-some, get_or-set_self, get_or-set_ne,
}

-- The children of every directory are inodes that have not been freed, and not the directory.
unfoldable pub AllLive : List ℕ → ℕ → Ramfs → Type 0
AllLive children d fs = All (λ i. (i ≢ d) × ((c : Inode) × (inode_at i fs ≡ some c))) children

-- what lies behind a name that a directory is asked for
pub entry : ℕ → List ℕ → Ramfs → Option ℕ
entry d name fs = elim (inode_at d fs) [ none ↦ none | some dir ↦ find_child name dir.children fs ]

-- the names of children are those of `fs` when another inode changes
find_child-same :
    (name children : List ℕ) (fs fs' : Ramfs)
    → All (λ i. named name i fs' ≡ named name i fs) children
    → find_child name children fs' ≡ find_child name children fs
unfolding find_child
find_child-same name [] fs fs' h = refl
find_child-same name (i ∷ children) fs fs' (h, hs) =
    rw h (rw (find_child-same name children fs fs' hs) refl)

find_child-append :
    (name children : List ℕ) (i : ℕ) (fs : Ramfs)
    → find_child name (children ++ i ∷ []) fs
      ≡ (elim (find_child name children fs) as (λ _. Option ℕ) [
        | none ↦ if named name i fs then some i else none
        | some c ↦ some c
      ])
unfolding find_child
find_child-append name [] i fs = refl
find_child-append name (c ∷ children) i fs = elim (Bool-cases (named name c fs)) [
  | inl e ↦ rw e refl
  | inr e ↦ rw e (find_child-append name children i fs)
]

-- A name that was free is now that of a new and empty inode, and no other name changes.
pub record Created (d : ℕ) (name : List ℕ) (type : ℕ) (fs fs' : Ramfs) : Type 0 where
  pub was_free : entry d name fs ≡ none
  pub inode : Inode
  pub found : entry d name fs' ≡ some (length fs.inodes)
  pub stored : inode_at (length fs.inodes) fs' ≡ some inode
  pub kind : inode.kind ≡ type
  pub empty : inode.size ≡ 0
  pub others : (other : List ℕ) → text other ≢ text name → entry d other fs' ≡ entry d other fs

named-inode :
    (name : List ℕ) (i : ℕ) (fs : Ramfs) (inode : Inode)
    → inode_at i fs ≡ some inode
    → named name i fs ≡ is_zero (strcmp inode.name name)
unfolding named
named-inode name i fs inode e =
    ap (λ o. elim o [ none ↦ false | some c ↦ is_zero (strcmp c.name name) ]) e

entry-inode :
    (d : ℕ) (name : List ℕ) (fs : Ramfs) (dir : Inode)
    → inode_at d fs ≡ some dir
    → entry d name fs ≡ find_child name dir.children fs
unfolding entry
entry-inode d name fs dir e =
    ap (λ o. elim o as (λ _. Option ℕ) [ none ↦ none | some c ↦ find_child name c.children fs ]) e

strcmp_ne : (s t : List ℕ) → text s ≢ text t → is_zero (strcmp s t) ≡ false
strcmp_ne s t h = elim (Bool-cases (is_zero (strcmp s t))) [
  | inl e ↦ absurd (h ((strcmp_lem s t).0 e))
  | inr e ↦ e
]

no_rest : (n : ℕ) → n - n ≡ 0
no_rest n = omega arith

-- the directory with one child more, and the state that ramfs_create leaves
abbrev joined : Inode → Ramfs → Inode
joined dir fs = record dir { children = dir.children ++ length fs.inodes ∷ [] }

abbrev state_after : ℕ → Inode → Inode → Ramfs → ℕ → Ramfs
state_after d dir new fs next =
    store d (joined dir fs) (record { next_inode = next; inodes = fs.inodes ++ some new ∷ [] })

-- Adding a child to a directory whose children are there.
module _ (d : ℕ) (dir new : Inode) (fs : Ramfs) (at : inode_at d fs ≡ some dir)
    (live : AllLive dir.children d fs) where
  abbrev after : ℕ → Ramfs
  after next = state_after d dir new fs next

  inode_at-old :
      (next i : ℕ) (c : Inode) → i ≢ d → inode_at i fs ≡ some c → inode_at i (after next) ≡ some c
  inode_at-old next i c ne e =
      get_or-set_ne (fs.inodes ++ some new ∷ []) d i (some (joined dir fs)) none (λ x. ne (sym x))
      ∙ get_or-append_left fs.inodes (some new ∷ []) i none (get_or-some fs.inodes i c e)
      ∙ e

  inode_at-new : (next : ℕ) → inode_at (length fs.inodes) (after next) ≡ some new
  inode_at-new next =
      get_or-set_ne (fs.inodes ++ some new ∷ []) d (length fs.inodes) (some (joined dir fs)) none
        (λ x. omega (arith, x, get_or-some fs.inodes d dir at))
      ∙ get_or-append_right fs.inodes (some new ∷ []) (length fs.inodes) none (omega arith)
      ∙ ap (λ k. get_or (some new ∷ []) k none) (no_rest (length fs.inodes))

  inode_at-dir : (next : ℕ) → inode_at d (after next) ≡ some (joined dir fs)
  inode_at-dir next =
      get_or-set_self (fs.inodes ++ some new ∷ []) d (some (joined dir fs)) none
        (omega (arith, get_or-some fs.inodes d dir at, length-append fs.inodes (some new ∷ [])))

  names_stay :
      (next : ℕ) (name children : List ℕ)
      → AllLive children d fs
      → All (λ i. named name i (after next) ≡ named name i fs) children
  unfolding AllLive
  names_stay next name [] l = tt
  names_stay next name (i ∷ children) (l, ls) = (
    named-inode name i (after next) l.1.0 (inode_at-old next i l.1.0 l.0 l.1.1)
        ∙ sym (named-inode name i fs l.1.0 l.1.1),
    names_stay next name children ls,
  )

  entry-after :
      (next : ℕ) (name : List ℕ)
      → entry d name (after next) ≡ (elim (entry d name fs) as (λ _. Option ℕ) [
        | none ↦ if is_zero (strcmp new.name name) then some (length fs.inodes) else none
        | some c ↦ some c
      ])
  entry-after next name =
      entry-inode d name (after next) (joined dir fs) (inode_at-dir next)
      ∙ find_child-append name dir.children (length fs.inodes) (after next)
      ∙ ap
          (λ o. elim o as (λ _. Option ℕ) [
            | none ↦
                if named name (length fs.inodes) (after next) then some (length fs.inodes) else none
            | some c ↦ some c
          ])
          (find_child-same name dir.children fs (after next)
              (names_stay next name dir.children live)
            ∙ sym (entry-inode d name fs dir at))
      ∙ ap
          (λ b. elim (entry d name fs) as (λ _. Option ℕ) [
            | none ↦ if b then some (length fs.inodes) else none
            | some c ↦ some c
          ])
          (named-inode name (length fs.inodes) (after next) new (inode_at-new next))

blank-name :
    (name : List ℕ) (type : ℕ) (parent : Option ℕ) (num : ℕ)
    → length (text name) ≤ 63
    → text (blank name type parent num).name ≡ text name
unfolding blank
blank-name name type parent num h = text-strncpy name 63 64 h (omega arith)

-- the elimination in `entry-after`
add_free :
    {o : Option ℕ} {b : Bool} {n : ℕ}
    → o ≡ none
    → b ≡ true
    → (elim o as (λ _. Option ℕ) [ none ↦ if b then some n else none | some c ↦ some c ]) ≡ some n
add_free e f = rw e (rw f refl)

add_other :
    (o : Option ℕ) (b : Bool) (n : ℕ)
    → b ≡ false
    → (elim o as (λ _. Option ℕ) [ none ↦ if b then some n else none | some c ↦ some c ]) ≡ o
add_other none b n f = rw f refl
add_other (some c) b n f = refl

module _ (kmalloc : ℕ → Ramfs → Option (List ℕ)) where
  alloc_inode-none :
      (name : List ℕ) (type : ℕ) (parent : Option ℕ) (fs : Ramfs)
      → kmalloc 2152 fs ≡ none
      → alloc_inode kmalloc name type parent fs ≡ none
  unfolding alloc_inode
  alloc_inode-none name type parent fs g = rw (alloc_inode, g) refl

  alloc_inode-some :
      (name : List ℕ) (type : ℕ) (parent : Option ℕ) (fs : Ramfs) (b : List ℕ)
      → kmalloc 2152 fs ≡ some b
      → alloc_inode kmalloc name type parent fs
        ≡ some (
          length fs.inodes,
          record {
            next_inode = (fs.next_inode + 1) % 2 ^ 32;
            inodes = fs.inodes ++ some (blank name type parent fs.next_inode) ∷ [];
          },
        )
  unfolding alloc_inode
  alloc_inode-some name type parent fs b g = rw (alloc_inode, g) refl

  -- the two ways out of ramfs_create
  create_cases :
      (node : Node) (name : List ℕ) (type : ℕ) (fs : Ramfs) (dir : Inode)
      (at : inode_at node.private_data fs ≡ some dir)
      → (create kmalloc node name type fs ≡ (false, fs))
        ⊎ ((find_child name dir.children fs ≡ none)
            × (create kmalloc node name type fs ≡ (
              true,
              state_after node.private_data dir
                  (blank name type (some node.private_data) fs.next_inode)
                  fs
                  ((fs.next_inode + 1) % 2 ^ 32),
            )))
  unfolding create add_child
  create_cases node name type fs dir at =
      rw (create, at)
        (elim (Bool-cases (dir.kind == vfs_dir && ltb (length dir.children) max_children)) [
          | inr e ↦ rw e (inl refl)
          | inl e ↦ rw e (elim (Option-cases (find_child name dir.children fs)) [
            | inr (c, f) ↦ rw f (inl refl)
            | inl f ↦ rw f (elim (Option-cases (kmalloc 2152 fs)) [
              | inl g ↦ rw (alloc_inode-none name type (some node.private_data) fs g) (inl refl)
              | inr (b, g) ↦
                  rw (alloc_inode-some name type (some node.private_data) fs b g) (inr (refl, refl))
            ])
          ])
        ])

  -- A ramfs_create that succeeds adds the name to the directory: the name was free and is now that
  -- of a new and empty inode of the type, and no other name changes. The name has at most 63 bytes,
  -- and the children of the directory are inodes that have not been freed.
  pub create-Created :
      (node : Node) (name : List ℕ) (type : ℕ) (fs : Ramfs) (dir : Inode)
      → inode_at node.private_data fs ≡ some dir
      → AllLive dir.children node.private_data fs
      → length (text name) ≤ 63
      → (create kmalloc node name type fs).0 ≡ true
      → Created node.private_data name type fs (create kmalloc node name type fs).1
  unfolding blank
  create-Created node name type fs dir at live short ok =
      elim (create_cases node name type fs dir at) [
        | inl e ↦ absurd (true≢false (sym ok ∙ ap (λ r. r.0) e))
        | inr (free, e) ↦
            subst (Created node.private_data name type fs) (sym (ap (λ r. r.1) e)) (created free)
      ]
    where
      made : Inode
      made = blank name type (some node.private_data) fs.next_inode

      name_lem : text made.name ≡ text name
      name_lem = blank-name name type (some node.private_data) fs.next_inode short

      created :
          find_child name dir.children fs ≡ none
          → Created node.private_data name type fs
              (state_after node.private_data dir made fs ((fs.next_inode + 1) % 2 ^ 32))
      created free =
          let free' = entry-inode node.private_data name fs dir at ∙ free in
          let next = (fs.next_inode + 1) % 2 ^ 32 in
          record {
            was_free = free';
            inode = made;
            found =
                entry-after node.private_data dir made fs at live next name
                ∙ add_free free' ((strcmp_lem made.name name).1 name_lem);
            stored = inode_at-new node.private_data dir made fs at live next;
            kind = refl;
            empty = refl;
            others = λ other ne.
                entry-after node.private_data dir made fs at live next other
                ∙ add_other (entry node.private_data other fs) _ _
                    (strcmp_ne made.name other (λ x. ne (sym x ∙ name_lem)));
          }
