-- ===== src/Paths/Tests.antt =====
-- Paths that are made absolute.
use lighth_os.Paths.{
  slash, dot, max_path, canon_into, absolute, copy_path, copy_cwd, end_cwd, canon, canon_some,
  segment, behind, step, is_dot, is_dotdot, parent, back, strip, strip_some,
}
use lighth_os.Paths.Canon.{rendered, resolved, canon_into-resolved}
use lighth_os.Paths.Clean.{Stays, canon_into-Stays}
use lighth_os.Common.{ℕ, ◌≡◌, refl, arith, some, List, [], ◌∷◌}

-- "../a" from "/b/"
abbrev up_a : List ℕ
up_a = dot ∷ dot ∷ slash ∷ 97 ∷ 0 ∷ []

abbrev cwd_b : List ℕ
cwd_b = slash ∷ 98 ∷ slash ∷ []

canon_into-up_a : canon_into up_a cwd_b max_path ≡ some (slash ∷ 97 ∷ [])
unfolding canon_into absolute copy_path copy_cwd end_cwd canon canon_some segment behind step is_dot
    is_dotdot parent back strip strip_some
canon_into-up_a = refl

canon_into-resolved_example :
    canon_into up_a cwd_b max_path ≡ strip_some (rendered (resolved max_path (absolute up_a cwd_b)))
canon_into-resolved_example = canon_into-resolved up_a cwd_b max_path

canon_into-Stays_example : Stays max_path (slash ∷ 97 ∷ [])
canon_into-Stays_example =
    canon_into-Stays up_a cwd_b max_path (slash ∷ 97 ∷ []) (omega arith) canon_into-up_a
