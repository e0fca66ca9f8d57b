-- ===== src/Vfs/Tests.antt =====
-- A small file system below the mount table: its nodes are numbers, and names lead from one to another.
use lighth_os.Vfs.{
  Ops, Mount, mount, attach, detach, mounted_at, covers, find_mount, find_from, remainder, walk,
  resolve, resolve_parent, component_len, behind_slash, finddir, last_slash,
}
use lighth_os.Vfs.Calls.{create}
use lighth_os.Vfs.Names.{split, names_of, longer}
use lighth_os.Vfs.Walk.{descend, resolve-descend}
use lighth_os.Vfs.Through.{Picks, find_mount-Picks}
use lighth_os.Vfs.Slots.{IsPath, Sized}
use lighth_os.Vfs.Mounting.{resolve-mount}
use lighth_os.CString.{strlen, strcmp, strncmp, strchr, is_zero, byte_diff}
use lighth_os.CString.Text.{text}
use lighth_os.Common.{
  ℕ, suc, ◌+◌, ◌≡◌, refl, true, false, List, [], ◌∷◌, ◌==◌, if◌then◌else◌, drop, Option, none, some,
  arith, replicate, get_or,
}

-- node 1 has a child "a", which is 2, and that a child "b", which is 3
child_of : ℕ → List ℕ → Unit {0} → Option ℕ
child_of node name _ = if get_or name 0 0 == 96 + node then some (suc node) else none

ops_of : ℕ → Ops (Unit {0}) ℕ
ops_of node = record {
  op_read = none;
  op_write = none;
  op_readdir = none;
  op_finddir = some child_of;
  op_create = some (λ parent name type fs. (parent == 3, fs));
  op_unlink = none;
  op_stat = none;
  op_mkdir = none;
}

-- "/", "/a", "/a//b" and "/a/b/c"
abbrev root_path : List ℕ
root_path = 47 ∷ []

abbrev path_a : List ℕ
path_a = 47 ∷ 97 ∷ []

abbrev path_ab : List ℕ
path_ab = 47 ∷ 97 ∷ 47 ∷ 47 ∷ 98 ∷ []

abbrev path_abc : List ℕ
path_abc = 47 ∷ 97 ∷ 47 ∷ 98 ∷ 47 ∷ 99 ∷ []

-- one mount at the root, and a free slot
abbrev table : List (Mount ℕ)
table =
    record { mount_point = 47 ∷ replicate 255 0; root = 1; in_use = true }
    ∷ record { mount_point = replicate 256 0; root = 0; in_use = false }
    ∷ []

walk_run : resolve ops_of tt table path_ab ≡ some 3
unfolding resolve find_mount find_from covers strncmp strlen is_zero byte_diff strchr walk remainder
    component_len behind_slash finddir ops_of child_of replicate
walk_run = refl

missing_run : resolve ops_of tt table (47 ∷ 98 ∷ []) ≡ none
unfolding resolve find_mount find_from covers strncmp strlen is_zero byte_diff strchr walk remainder
    component_len behind_slash finddir ops_of child_of replicate
missing_run = refl

create_run : create ops_of table path_abc 1 tt ≡ (true, tt)
unfolding create resolve_parent last_slash resolve find_mount find_from covers strncmp strlen
    is_zero byte_diff strchr walk remainder component_len behind_slash finddir ops_of child_of
    replicate
create_run = refl

names_run : names_of (split path_ab) ≡ (97 ∷ []) ∷ (98 ∷ []) ∷ []
unfolding names_of split longer
names_run = refl

mount_run : (mount path_a 7 table).0 ≡ true
unfolding mount attach detach mounted_at strcmp is_zero byte_diff replicate
mount_run = refl

path_a-IsPath : IsPath path_a
unfolding text
path_a-IsPath = record { is_text = refl; not_empty = omega arith; fits = omega arith }

table-Sized : Sized table
unfolding Sized replicate
table-Sized = (refl, (refl, tt))

resolve-mount_example : resolve ops_of tt (mount path_a 7 table).1 path_a ≡ some 7
resolve-mount_example = resolve-mount ops_of tt path_a 7 table path_a-IsPath table-Sized mount_run

-- mounts at "/", "/a" and "/ab"
abbrev three_mounts : List (Mount ℕ)
three_mounts =
    record { mount_point = 47 ∷ replicate 255 0; root = 1; in_use = true }
    ∷ record { mount_point = 47 ∷ 97 ∷ replicate 254 0; root = 2; in_use = true }
    ∷ record { mount_point = 47 ∷ 97 ∷ 98 ∷ replicate 253 0; root = 3; in_use = true }
    ∷ []

root_of : Option (Mount ℕ) → ℕ
root_of none = 0
root_of (some m) = m.root

-- "/a/b" goes through "/" and "/a"; "/abc" only through "/".
deepest_run : root_of (find_mount (47 ∷ 97 ∷ 47 ∷ 98 ∷ []) three_mounts) ≡ 2
unfolding root_of find_mount find_from covers strncmp strlen is_zero byte_diff replicate
deepest_run = refl

border_run : root_of (find_mount (47 ∷ 97 ∷ 98 ∷ 99 ∷ []) three_mounts) ≡ 1
unfolding root_of find_mount find_from covers strncmp strlen is_zero byte_diff replicate
border_run = refl

find_mount-Picks_example :
    Picks (47 ∷ 97 ∷ 47 ∷ 98 ∷ []) three_mounts (find_mount (47 ∷ 97 ∷ 47 ∷ 98 ∷ []) three_mounts)
find_mount-Picks_example = find_mount-Picks (47 ∷ 97 ∷ 47 ∷ 98 ∷ []) three_mounts

resolve-descend_example :
    resolve ops_of tt table path_ab ≡ (elim (find_mount path_ab table) as (λ _. Option ℕ) [
      | none ↦ none
      | some m ↦ descend ops_of tt (names_of (split (drop (strlen m.mount_point) path_ab))) m.root
    ])
resolve-descend_example = resolve-descend ops_of tt table path_ab
