-- ===== src/Ramfs/Tests.antt =====
-- A small file system in memory, and the theorems about src/fs/ramfs.c applied to it.
use lighth_os.Ramfs.{
  Inode, Ramfs, Node, read, write, write_inode, write_until, grown, create, find_child, named,
  alloc_inode, add_child, blank, unlink, drop_child, without,
}
use lighth_os.Ramfs.File.{IsFile, GivesBlocks}
use lighth_os.Ramfs.Write.{Writes, write_inode-Writes, read-write_inode}
use lighth_os.Ramfs.Directory.{AllLive, Created, create-Created}
use lighth_os.CString.{pos, strcmp, is_zero, byte_diff, strncpy, fill_zero}
use lighth_os.CString.Text.{text}
use lighth_os.Common.{
  ℕ, ◌≡◌, refl, sym, ap, ◌∙◌, true, List, [], ◌∷◌, Option, none, some, replicate, length-replicate,
  arith, length,
}

-- blocks of the length asked for, full of nines
blocks : ℕ → Ramfs → Option (List ℕ)
blocks n fs = some (replicate n 9)

blocks-GivesBlocks : GivesBlocks blocks
unfolding GivesBlocks blocks
blocks-GivesBlocks n fs block e =
    ap (λ o. elim o as (λ _. ℕ) [ none ↦ 0 | some b ↦ length b ]) (sym e) ∙ length-replicate n 9

-- a file of three bytes, and a directory that it lies in as "f"
abbrev file : Inode
file = record {
  name = 102 ∷ [];
  kind = 1;
  inode_num = 1;
  buffer = 1 ∷ 2 ∷ 3 ∷ 9 ∷ [];
  size = 3;
  capacity = 4;
  children = [];
  parent = some 0;
}

abbrev directory : Inode
directory = record {
  name = 47 ∷ [];
  kind = 2;
  inode_num = 0;
  buffer = [];
  size = 0;
  capacity = 0;
  children = 1 ∷ [];
  parent = none;
}

abbrev disk : Ramfs
disk = record { next_inode = 2; inodes = some directory ∷ some file ∷ [] }

abbrev node_of : ℕ → Node
node_of i = record { name = []; kind = 0; size = 0; inode = 0; private_data = i }

file-IsFile : IsFile file
file-IsFile = record { allocated = refl; fits = omega arith; bounded = omega arith }

-- two bytes at offset 2: the file grows by one, within its capacity
write_run : (write blocks (node_of 1) (7 ∷ 8 ∷ []) (pos 2) disk).0 ≡ some 2
unfolding write write_inode write_until grown
write_run = refl

create_run : (create blocks (node_of 0) (103 ∷ []) 1 disk).0 ≡ true
unfolding create find_child named strcmp is_zero byte_diff alloc_inode add_child blocks
create_run = refl

-- the new file is there, and can be removed
unlink_run :
    (unlink (node_of 0) (103 ∷ []) (create blocks (node_of 0) (103 ∷ []) 1 disk).1).0 ≡ true
unfolding create find_child named strcmp is_zero byte_diff alloc_inode add_child blocks unlink
    drop_child without blank strncpy fill_zero replicate
unlink_run = refl

write_inode-Writes_example :
    Writes blocks disk (7 ∷ 8 ∷ []) 9 file (write_inode blocks (7 ∷ 8 ∷ []) 9 file disk)
write_inode-Writes_example =
    write_inode-Writes blocks blocks-GivesBlocks (7 ∷ 8 ∷ []) 9 file disk file-IsFile (omega arith)

read-write_inode_example :
    read (node_of 1) 2 (pos 2) (write blocks (node_of 1) (7 ∷ 8 ∷ []) (pos 2) disk).1
    ≡ some (7 ∷ 8 ∷ [])
read-write_inode_example =
    read-write_inode blocks blocks-GivesBlocks (node_of 1) (7 ∷ 8 ∷ []) 2 disk file refl file-IsFile
      (omega arith) write_run

directory-AllLive : AllLive (1 ∷ []) 0 disk
unfolding AllLive
directory-AllLive = (((λ e. omega (arith, e)), (file, refl)), tt)

one_byte : text (103 ∷ []) ≡ 103 ∷ []
unfolding text
one_byte = refl

create-Created_example : Created 0 (103 ∷ []) 1 disk (create blocks (node_of 0) (103 ∷ []) 1 disk).1
create-Created_example =
    create-Created blocks (node_of 0) (103 ∷ []) 1 disk directory refl directory-AllLive
      (rw one_byte (omega arith)) create_run
