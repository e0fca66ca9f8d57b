-- ===== src/Vfs.antt =====
-- src/fs/vfs.c and vfs.h: the mount table and the walk along a path. A file system is an interface,
-- the record `Ops`; `Fs` is the state behind it and `Node` its nodes. A path is a C string, the list
-- of its bytes. Of a mount the model keeps what vfs.c reads: not `ops`, `fs_data` and `root->mount`.
pub mod Calls
pub mod Names
pub mod Walk
pub mod Find
pub mod Through
pub mod Slots
pub mod Mounting
mod Tests
use lighth_os.CString.{ℤ, is_zero, strlen, strcmp, strncmp, strncpy, strchr}
use lighth_os.Common.{
  ℕ, zero, suc, ◌+◌, ◌-◌, Bool, true, false, ◌&&◌, ◌||◌, not, Option, none, some, List, [], ◌∷◌,
  ◌==◌, ltb, leb, if◌then◌else◌, get_or, take, drop, length, map, replicate,
}

abbrev pub max_mounts : ℕ
max_mounts = 8

abbrev pub vfs_max_path : ℕ
vfs_max_path = 256

abbrev pub vfs_max_name : ℕ
vfs_max_name = 64

-- '/'
abbrev pub slash : ℕ
slash = 47

pub record Stat : Type 0 where
  pub inode : ℕ
  pub type_of : ℕ
  pub size : ℕ

-- `struct vfs_ops` but `open` and `close`, which vfs.c does not call; an operation is none for a
-- null pointer, and a result of none or false is -1.
pub record Ops (Fs Node : Type 0) : Type 0 where
  pub op_read : Option (Node → ℕ → ℤ → Fs → Option (List ℕ))
  pub op_write : Option (Node → List ℕ → ℤ → Fs → Option ℕ × Fs)
  pub op_readdir : Option (Node → ℕ → Fs → Option (List ℕ × ℕ))
  pub op_finddir : Option (Node → List ℕ → Fs → Option Node)
  pub op_create : Option (Node → List ℕ → ℕ → Fs → Bool × Fs)
  pub op_unlink : Option (Node → List ℕ → Fs → Bool × Fs)
  pub op_stat : Option (Node → Fs → Option Stat)
  pub op_mkdir : Option (Node → List ℕ → Fs → Bool × Fs)

-- `struct vfs_mount`
pub record Mount (Node : Type 0) : Type 0 where
  pub mount_point : List ℕ
  pub root : Node
  pub in_use : Bool

module _ {Node : Type 0} where
  -- `vfs_init`; the argument is what a null `root` stands for.
  pub init : Node → List (Mount Node)
  init null =
      replicate max_mounts
        (record { mount_point = replicate vfs_max_path 0; root = null; in_use = false })

  -- the test of `vfs_mount` and `vfs_umount`
  pub mounted_at : List ℕ → Mount Node → Bool
  mounted_at path m = m.in_use && is_zero (strcmp m.mount_point path)

  -- the first loop of `vfs_mount`
  unfoldable pub detach : List ℕ → List (Mount Node) → List (Mount Node)
  detach path [] = []
  detach path (m ∷ ms) =
      (if mounted_at path m then record m { in_use = false } else m) ∷ detach path ms

  -- the second loop of `vfs_mount`
  unfoldable pub attach : List ℕ → Node → List (Mount Node) → Bool × List (Mount Node)
  attach path root [] = (false, [])
  attach path root (m ∷ ms) =
      let rest = attach path root ms in
      if not m.in_use
      then (
        true,
        record {
          mount_point = strncpy m.mount_point path (vfs_max_path - 1);
          root = root;
          in_use = true;
        }
            ∷ ms,
      )
      else (rest.0, m ∷ rest.1)

  unfoldable pub mount : List ℕ → Node → List (Mount Node) → Bool × List (Mount Node)
  mount path root ms = attach path root (detach path ms)

  unfoldable pub umount : List ℕ → List (Mount Node) → Bool × List (Mount Node)
  umount path [] = (false, [])
  umount path (m ∷ ms) =
      let rest = umount path ms in
      if mounted_at path m then (true, record m { in_use = false } ∷ ms) else (rest.0, m ∷ rest.1)

  -- whether a path starts with the mount point and the next byte ends a name
  unfoldable pub covers : List ℕ → Mount Node → Bool
  covers path m =
      is_zero (strncmp path m.mount_point (strlen m.mount_point))
      && (strlen m.mount_point == 1
          || (get_or path (strlen m.mount_point) 0 == slash
              || get_or path (strlen m.mount_point) 0 == 0))

  -- the loop of `find_mount`, with `best` and `best_len`
  unfoldable pub find_from :
      List ℕ → List (Mount Node) → Option (Mount Node) → ℕ → Option (Mount Node)
  find_from path [] best best_len = best
  find_from path (m ∷ ms) best best_len =
      let found = find_from path ms (some m) (strlen m.mount_point) in
      let same = find_from path ms best best_len in
      if m.in_use && (covers path m && ltb best_len (strlen m.mount_point)) then found else same

  unfoldable pub find_mount : List ℕ → List (Mount Node) → Option (Mount Node)
  find_mount path ms = find_from path ms none 0

-- what `find_mount` makes of the path behind the mount point; none is the null pointer
unfoldable pub remainder : List ℕ → Option (List ℕ)
remainder p =
    let rest = if get_or p 0 0 == slash then drop 1 p else p in
    if get_or rest 0 0 == 0 then none else some rest

-- the length of the first component
unfoldable pub component_len : List ℕ → ℕ
component_len rem = elim (strchr rem slash) [ none ↦ strlen rem | some i ↦ i ]

-- `rem = slash ? slash + 1 : NULL`
unfoldable pub behind_slash : List ℕ → Option (List ℕ)
behind_slash rem = elim (strchr rem slash) [ none ↦ none | some i ↦ some (drop (suc i) rem) ]

-- the position of the last slash: the loop of `resolve_parent`, with `last_slash`
unfoldable pub last_slash : List ℕ → ℕ → Option ℕ → Option ℕ
last_slash [] i last = last
last_slash (c ∷ path) i last =
    let rest = last_slash path (i + 1) (if c == slash then some i else last) in
    if c == 0 then last else rest

module _ {Fs Node : Type 0} (ops : Node → Ops Fs Node) (fs : Fs) where
  -- `node->ops->finddir`, with the tests of null pointers
  unfoldable pub finddir : Node → List ℕ → Option Node
  finddir node name = elim (ops node).op_finddir [ none ↦ none | some f ↦ f node name fs ]

  -- the loop of `vfs_resolve`, on fuel
  unfoldable pub walk : ℕ → Option (List ℕ) → Node → Option Node
  walk fuel none node = some node
  walk zero (some rem) node = none
  walk (suc fuel) (some rem) node =
      let same = walk fuel (behind_slash rem) node in
      let next : Option Node = elim (finddir node (take (component_len rem) rem)) [
        | none ↦ none
        | some child ↦ walk fuel (behind_slash rem) child
      ] in
      if get_or rem 0 0 == 0
      then some node
      else if component_len rem == 0
      then same
      else if leb vfs_max_name (component_len rem)
      then none
      else next

  -- Each round but one moves past a byte of the path, so its length is enough.
  unfoldable pub resolve : List (Mount Node) → List ℕ → Option Node
  resolve ms path = elim (find_mount path ms) [
    | none ↦ none
    | some m ↦ walk (suc (length path)) (remainder (drop (strlen m.mount_point) path)) m.root
  ]

  -- the parent and the name, none for a null pointer
  unfoldable pub resolve_parent : List (Mount Node) → List ℕ → Option (Node × List ℕ)
  resolve_parent ms path = elim (last_slash path 0 none) [
    | none ↦ none
    | some i ↦
        let parent =
          if i == 0
          then resolve ms (slash ∷ [])
          else if leb vfs_max_path i
          then none
          else resolve ms (take i path) in
        elim parent [ none ↦ none | some node ↦ some (node, drop (suc i) path) ]
  ]
