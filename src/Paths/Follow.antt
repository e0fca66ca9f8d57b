-- ===== src/Paths/Follow.antt =====
-- What canon_into of src/kernel/process.c is to do: a path is a list of names, followed one by one
-- from the root directory.
use lighth_os.Paths.{slash, is_dot, is_dotdot}
use lighth_os.Common.{
  ℕ, ◌+◌, ◌≢◌, ◌||◌, Option, none, some, List, [], ◌∷◌, ◌++◌, ◌==◌, leb, if◌then◌else◌, length, All,
}

-- the first name of a path, and the others
unfoldable pub split : List ℕ → List ℕ × List (List ℕ)
split [] = ([], [])
split (c ∷ rem) =
    let rest = split rem in
    if c == 0 then ([], []) else if c == slash then ([], rest.0 ∷ rest.1) else (c ∷ rest.0, rest.1)

abbrev pub names : List ℕ → List (List ℕ)
names rem = (split rem).0 ∷ (split rem).1

-- a path from the root; the last name comes first
unfoldable pub render : List (List ℕ) → List ℕ
render [] = slash ∷ []
render (s ∷ segs) = render segs ++ (s ++ slash ∷ [])

unfoldable pub up : List (List ℕ) → List (List ℕ)
up [] = []
up (s ∷ segs) = segs

-- one name more, as long as the path is shorter than `cap` with it
unfoldable pub visit : ℕ → List ℕ → Option (List (List ℕ)) → Option (List (List ℕ))
visit cap s none = none
visit cap s (some segs) =
    if length s == 0 || is_dot s
    then some segs
    else if is_dotdot s
    then some (up segs)
    else if leb cap (length (render segs) + length s + 1)
    then none
    else some (s ∷ segs)

unfoldable pub follow : ℕ → List (List ℕ) → Option (List (List ℕ)) → Option (List (List ℕ))
follow cap [] o = o
follow cap (s ∷ ss) o = follow cap ss (visit cap s o)

-- no byte of the name is a slash
abbrev pub IsName : List ℕ → Type 0
IsName s = All (λ c. c ≢ slash) s
