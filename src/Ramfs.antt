-- ===== src/Ramfs.antt =====
-- src/fs/ramfs.c: the file system in memory, an implementation of the interface of `Vfs`. An inode
-- is named by its place in the list of all inodes; none stands for one that has been freed.
pub mod File
pub mod Write
pub mod Directory
mod Tests
use lighth_os.CString.{ℤ, pos, negsuc, is_zero, strcmp, strncpy}
use lighth_os.Vfs.{Ops, Stat}
use lighth_os.Common.{
  ℕ, zero, suc, ◌+◌, ◌-◌, ◌*◌, ◌%◌, ◌^◌, Bool, true, false, ◌&&◌, not, Option, none, some, List, [],
  ◌∷◌, ◌++◌, ◌==◌, ltb, leb, if◌then◌else◌, get_or, set, take, drop, length, replicate,
}

abbrev pub vfs_file : ℕ
vfs_file = 1

abbrev pub vfs_dir : ℕ
vfs_dir = 2

abbrev pub max_children : ℕ
max_children = 256

abbrev pub max_file : ℕ
max_file = 0xffff_ffff

-- `ramfs_inode_t`; `child_count` is the length of `children`.
pub record Inode : Type 0 where
  pub name : List ℕ
  pub kind : ℕ
  pub inode_num : ℕ
  pub buffer : List ℕ
  pub size : ℕ
  pub capacity : ℕ
  pub children : List ℕ
  pub parent : Option ℕ

-- `next_inode`, and the inodes on the heap
pub record Ramfs : Type 0 where
  pub next_inode : ℕ
  pub inodes : List (Option Inode)

-- `vfs_node_t`; `private_data` is the inode.
pub record Node : Type 0 where
  pub name : List ℕ
  pub kind : ℕ
  pub size : ℕ
  pub inode : ℕ
  pub private_data : ℕ

abbrev pub inode_at : ℕ → Ramfs → Option Inode
inode_at i fs = get_or fs.inodes i none

-- a write through a pointer to an inode
abbrev pub store : ℕ → Inode → Ramfs → Ramfs
store i inode fs = record fs { inodes = set fs.inodes i (some inode) }

-- the fields that `ramfs_alloc_inode` sets, on cleared memory
pub blank : List ℕ → ℕ → Option ℕ → ℕ → Inode
blank name type parent num = record {
  name = strncpy (replicate 64 0) name 63;
  kind = type;
  inode_num = num;
  buffer = [];
  size = 0;
  capacity = 0;
  children = [];
  parent = parent;
}

-- the bytes that `ramfs_read` copies
pub read_inode : ℕ → ℕ → Inode → List ℕ
read_inode size offset inode =
    let avail = inode.size - offset in
    let n = if ltb avail size then avail else size in
    if leb inode.size offset then [] else take n (drop offset inode.buffer)

-- the capacity that `ramfs_write` asks for
pub new_capacity : ℕ → ℕ
new_capacity needed =
    let cap = if ltb max_file (needed * 2) then max_file else needed * 2 in
    if ltb cap 256 then 256 else cap

-- `memcpy(data + offset, bytes, …)`
pub overwrite : ℕ → List ℕ → List ℕ → List ℕ
overwrite offset bytes buffer = take offset buffer ++ bytes ++ drop (offset + length bytes) buffer

-- the end of `ramfs_write`, behind the growth of the buffer
pub put_bytes : List ℕ → ℕ → ℕ → Inode → Inode
put_bytes bytes offset needed inode = record inode {
  buffer = overwrite offset bytes inode.buffer;
  size = if ltb inode.size needed then needed else inode.size;
}

-- the buffer moves into the block that `kmalloc` gave
pub moved_to : List ℕ → ℕ → Inode → Inode
moved_to block cap inode = record inode {
  buffer = overwrite 0 (take inode.size inode.buffer) block;
  capacity = cap;
}

-- `ramfs_read`
pub read : Node → ℕ → ℤ → Ramfs → Option (List ℕ)
read node size (negsuc _) fs = none
read node size (pos offset) fs = elim (inode_at node.private_data fs) [
  | none ↦ none
  | some inode ↦ if inode.kind == vfs_file then some (read_inode size offset inode) else none
]

-- `ramfs_readdir`
pub readdir : Node → ℕ → Ramfs → Option (List ℕ × ℕ)
readdir dir index fs = elim (inode_at dir.private_data fs) [
  | none ↦ none
  | some inode ↦
      if inode.kind == vfs_dir && ltb index (length inode.children)
      then elim (inode_at (get_or inode.children index 0) fs) [
        | none ↦ none
        | some child ↦ some (strncpy (replicate 63 0) child.name 63, child.kind)
      ]
      else none
]

-- whether an inode has the name
pub named : List ℕ → ℕ → Ramfs → Bool
named name i fs = elim (inode_at i fs) [
  | none ↦ false
  | some inode ↦ is_zero (strcmp inode.name name)
]

-- the loop over the children: the first one of that name
pub find_child : List ℕ → List ℕ → Ramfs → Option ℕ
find_child name [] fs = none
find_child name (i ∷ children) fs =
    let rest = find_child name children fs in if named name i fs then some i else rest

-- the new child is the last one
pub add_child : ℕ → Inode → Option (ℕ × Ramfs) → Ramfs → Bool × Ramfs
add_child d dir none fs = (false, fs)
add_child d dir (some (i, fs')) fs =
    (true, store d (record dir { children = dir.children ++ i ∷ [] }) fs')

-- the children without the first one that is `i`
pub without : ℕ → List ℕ → List ℕ
without i [] = []
without i (c ∷ children) = let rest = without i children in if c == i then children else c ∷ rest

-- the child of `ramfs_unlink` is given back, if it is no directory with children
pub drop_child : ℕ → Inode → ℕ → Ramfs → Bool × Ramfs
drop_child d dir i fs = elim (inode_at i fs) [
  | none ↦ (false, fs)
  | some victim ↦
      if victim.kind == vfs_dir && ltb 0 (length victim.children) then (false, fs) else (
        true,
        record fs {
          inodes =
              set (set fs.inodes i none) d
                (some (record dir { children = without i dir.children }));
        },
      )
]

-- `ramfs_unlink`
pub unlink : Node → List ℕ → Ramfs → Bool × Ramfs
unlink dir name fs = elim (inode_at dir.private_data fs) [
  | none ↦ (false, fs)
  | some inode ↦
      if inode.kind == vfs_dir
      then elim (find_child name inode.children fs) [
        | none ↦ (false, fs)
        | some i ↦ drop_child dir.private_data inode i fs
      ]
      else (false, fs)
]

-- `ramfs_stat`
pub stat : Node → Ramfs → Option Stat
stat node fs = elim (inode_at node.private_data fs) [
  | none ↦ none
  | some inode ↦ some (record { inode = inode.inode_num; type_of = inode.kind; size = inode.size })
]

-- `kmalloc` is what the heap gives in a state: the bytes of the block as they happen to be, or none.
module _ (kmalloc : ℕ → Ramfs → Option (List ℕ)) where
  -- the number of a new inode
  pub alloc_inode : List ℕ → ℕ → Option ℕ → Ramfs → Option (ℕ × Ramfs)
  alloc_inode name type parent fs = elim (kmalloc 2152 fs) [
    | none ↦ none
    | some _ ↦ some (
      length fs.inodes,
      record {
        next_inode = (fs.next_inode + 1) % 2 ^ 32;
        inodes = fs.inodes ++ some (blank name type parent fs.next_inode) ∷ [];
      },
    )
  ]

  pub inode_to_vfs_node : ℕ → Ramfs → Option Node
  inode_to_vfs_node i fs = elim (inode_at i fs) [
    | none ↦ none
    | some inode ↦ elim (kmalloc 104 fs) [
      | none ↦ none
      | some _ ↦ some (record {
        name = strncpy (replicate 64 0) inode.name 63;
        kind = inode.kind;
        size = inode.size;
        inode = inode.inode_num;
        private_data = i;
      })
    ]
  ]

  -- the inode with room for `needed` bytes
  pub grown : ℕ → Inode → Ramfs → Option Inode
  grown needed inode fs =
      if ltb inode.capacity needed
      then elim (kmalloc (new_capacity needed) fs) [
        | none ↦ none
        | some block ↦ some (moved_to block (new_capacity needed) inode)
      ]
      else some inode

  -- `ramfs_write` on an inode, for bytes that end at `end`
  pub write_until : ℕ → List ℕ → ℕ → Inode → Ramfs → Option Inode
  write_until end bytes offset inode fs =
      if inode.kind == vfs_file
      then (if ltb end offset
          then none
          else if ltb max_file end
          then none
          else elim (grown end inode fs) [
            | none ↦ none
            | some inode' ↦ some (put_bytes bytes offset end inode')
          ])
      else none

  pub write_inode : List ℕ → ℕ → Inode → Ramfs → Option Inode
  write_inode bytes offset inode fs =
      write_until ((offset + length bytes) % 2 ^ 64) bytes offset inode fs

  -- `ramfs_write`
  pub write : Node → List ℕ → ℤ → Ramfs → Option ℕ × Ramfs
  write node bytes (negsuc _) fs = (none, fs)
  write node bytes (pos offset) fs = elim (inode_at node.private_data fs) [
    | none ↦ (none, fs)
    | some inode ↦ elim (write_inode bytes offset inode fs) [
      | none ↦ (none, fs)
      | some inode' ↦ (some (length bytes), store node.private_data inode' fs)
    ]
  ]

  -- `ramfs_finddir`
  pub finddir : Node → List ℕ → Ramfs → Option Node
  finddir dir name fs = elim (inode_at dir.private_data fs) [
    | none ↦ none
    | some inode ↦
        let found : Option Node = elim (find_child name inode.children fs) [
          | none ↦ none
          | some i ↦ inode_to_vfs_node i fs
        ] in
        if inode.kind == vfs_dir then found else none
  ]

  -- `ramfs_create`
  pub create : Node → List ℕ → ℕ → Ramfs → Bool × Ramfs
  create dir name type fs = elim (inode_at dir.private_data fs) [
    | none ↦ (false, fs)
    | some inode ↦
        if inode.kind == vfs_dir && ltb (length inode.children) max_children
        then elim (find_child name inode.children fs) [
          | none ↦
              add_child dir.private_data inode (alloc_inode name type (some dir.private_data) fs) fs
          | some _ ↦ (false, fs)
        ]
        else (false, fs)
  ]

  -- `ramfs_mkdir`
  pub mkdir : Node → List ℕ → Ramfs → Bool × Ramfs
  mkdir dir name fs = create dir name vfs_dir fs

  -- `ramfs_ops`
  pub ops_of : Node → Ops Ramfs Node
  ops_of _ = record {
    op_read = some read;
    op_write = some write;
    op_readdir = some readdir;
    op_finddir = some finddir;
    op_create = some create;
    op_unlink = some unlink;
    op_stat = some stat;
    op_mkdir = some mkdir;
  }

  -- `ramfs_init`
  pub init : Ramfs → Option (Node × Ramfs)
  init fs = elim (alloc_inode (47 ∷ []) vfs_dir none fs) [
    | none ↦ none
    | some (i, fs') ↦ elim (inode_to_vfs_node i fs') [ none ↦ none | some node ↦ some (node, fs') ]
  ]
