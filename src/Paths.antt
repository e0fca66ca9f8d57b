-- ===== src/Paths.antt =====
-- src/kernel/process.c, canon_into and process_resolve_path: a path of a process, made absolute and
-- free of "." and "..", behind the root directory of the process. A path is the list of its bytes,
-- and so is what has been written to a buffer; what stands behind it is not kept.
pub mod Follow
pub mod Parent
pub mod Canon
pub mod Clean
mod Tests
use lighth_os.Common.{
  ℕ, zero, suc, ◌+◌, ◌-◌, Bool, true, false, ◌&&◌, ◌||◌, not, Option, none, some, List, [], ◌∷◌,
  ◌++◌, ◌==◌, ltb, leb, if◌then◌else◌, get_or, take, drop, length,
}

abbrev pub max_path : ℕ
max_path = 256

-- '/' and '.'
abbrev pub slash : ℕ
slash = 47

abbrev pub dot : ℕ
dot = 46

-- the loop that copies `cwd` to `tmp`
unfoldable pub copy_cwd : List ℕ → List ℕ → List ℕ
copy_cwd [] tmp = tmp
copy_cwd (c ∷ cwd) tmp =
    let rest = copy_cwd cwd (tmp ++ c ∷ []) in
    if c == 0 || leb (max_path - 1) (length tmp) then tmp else rest

-- `if (ti == 0) tmp[ti++] = '/';` and the slash behind `cwd`
unfoldable pub end_cwd : List ℕ → List ℕ
end_cwd tmp =
    let tmp' = if length tmp == 0 then slash ∷ [] else tmp in
    if not (get_or tmp' (length tmp' - 1) 0 == slash) && ltb (length tmp') (max_path - 1)
    then tmp' ++ slash ∷ []
    else tmp'

-- the loop that copies `path` to `tmp`; none is -1
unfoldable pub copy_path : List ℕ → List ℕ → Option (List ℕ)
copy_path [] tmp = some tmp
copy_path (c ∷ path) tmp =
    let rest = copy_path path (tmp ++ c ∷ []) in
    if c == 0 then some tmp else if leb (max_path - 1) (length tmp) then none else rest

-- the contents of `tmp`
unfoldable pub absolute : List ℕ → List ℕ → Option (List ℕ)
absolute path cwd =
    if get_or path 0 0 == slash
    then copy_path (drop 1 path) (slash ∷ [])
    else copy_path path (end_cwd (copy_cwd cwd []))

-- the name at the start, and what follows it
unfoldable pub segment : List ℕ → List ℕ
segment [] = []
segment (c ∷ rem) = let rest = segment rem in if c == 0 || c == slash then [] else c ∷ rest

unfoldable pub behind : List ℕ → List ℕ
behind [] = []
behind (c ∷ rem) = let rest = behind rem in if c == 0 || c == slash then c ∷ rem else rest

-- `while (oi > 1 && out[oi-1] != '/') oi--;`
unfoldable pub back : ℕ → List ℕ → ℕ
back zero out = 0
back (suc i) out =
    let rest = back i out in if ltb 1 (suc i) && not (get_or out i 0 == slash) then rest else suc i

-- `out`, one segment shorter
unfoldable pub parent : List ℕ → List ℕ
parent out = if ltb 1 (length out) then take (back (length out - 1) out) out else out

pub is_dot : List ℕ → Bool
is_dot seg = length seg == 1 && get_or seg 0 0 == dot

pub is_dotdot : List ℕ → Bool
is_dotdot seg = length seg == 2 && (get_or seg 0 0 == dot && get_or seg 1 0 == dot)

-- what a segment makes of `out`; none is -1
unfoldable pub step : ℕ → List ℕ → List ℕ → Option (List ℕ)
step cap seg out =
    if is_dot seg
    then some out
    else if is_dotdot seg
    then some (parent out)
    else if leb cap (length out + length seg + 1)
    then none
    else some (out ++ (seg ++ slash ∷ []))

-- the loop over `tmp`, on fuel
unfoldable pub canon : ℕ → ℕ → List ℕ → Option (List ℕ) → Option (List ℕ)
canon cap fuel rem none = none
canon cap zero rem (some out) = none
canon cap (suc fuel) [] (some out) = some out
canon cap (suc fuel) (c ∷ rem) (some out) =
    let next =
      canon cap fuel (if c == slash then rem else behind (c ∷ rem))
        (if c == slash then some out else step cap (segment (c ∷ rem)) out) in
    if c == 0 then some out else next

-- "Strip trailing slash except at root."
unfoldable pub strip : List ℕ → List ℕ
strip out =
    if ltb 1 (length out) && get_or out (length out - 1) 0 == slash
    then take (length out - 1) out
    else out

pub strip_some : Option (List ℕ) → Option (List ℕ)
strip_some none = none
strip_some (some out) = some (strip out)

pub canon_some : ℕ → Option (List ℕ) → Option (List ℕ)
canon_some cap none = none
canon_some cap (some tmp) =
    let rem = if get_or tmp 0 0 == slash then drop 1 tmp else tmp in
    canon cap (suc (length rem)) rem (some (slash ∷ []))

-- `canon_into`; each round passes a byte of `tmp`, so its length and one more are enough.
unfoldable pub canon_into : List ℕ → List ℕ → ℕ → Option (List ℕ)
canon_into path cwd cap = strip_some (canon_some cap (absolute path cwd))

-- a loop that copies a string to `out`, as long as there is room
unfoldable pub append_upto : ℕ → List ℕ → List ℕ → List ℕ
append_upto cap [] out = out
append_upto cap (c ∷ s) out =
    let rest = append_upto cap s (out ++ c ∷ []) in
    if c == 0 || leb (cap - 1) (length out) then out else rest

-- `process_resolve_path` behind canon_into, for a `root` that is not empty
unfoldable pub below_root : ℕ → List ℕ → Option (List ℕ) → Option (List ℕ)
below_root cap root none = none
below_root cap root (some local) =
    let prefix = append_upto cap root [] in
    let prefix' =
      if ltb 0 (length prefix) && get_or prefix (length prefix - 1) 0 == slash
      then take (length prefix - 1) prefix
      else prefix in
    if get_or root 0 0 == slash && get_or root 1 0 == 0
    then some (append_upto cap local [])
    else some (append_upto cap local prefix')

-- a directory of the process, or "/" where it has none
pub or_root : List ℕ → List ℕ
or_root dir = if get_or dir 0 0 == 0 then slash ∷ [] else dir

-- `process_resolve_path`, with the directories of the process
unfoldable pub resolve_path : List ℕ → List ℕ → List ℕ → ℕ → Option (List ℕ)
resolve_path path cwd root cap =
    below_root cap (or_root root) (canon_into path (or_root cwd) max_path)
