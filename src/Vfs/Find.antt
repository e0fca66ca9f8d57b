-- ===== src/Vfs/Find.antt =====
-- The mount that `find_mount` of src/fs/vfs.c picks for a path.
use lighth_os.Vfs.{Mount, covers, find_from, find_mount}
use lighth_os.CString.{strlen}
use lighth_os.Common.{
  false-true, ℕ, ◌≤◌, ◌≡◌, refl, sym, ◌∙◌, Bool, true, false, ◌&&◌, List, [], ◌∷◌, if◌then◌else◌,
  ltb, Option, none, some, Bool-cases, ◌⊎◌, inl, inr, arith, All, Any, ltb→lt, ltb→ge,
}

module _ {Node : Type 0} where
  -- a mount in use that the path goes through
  unfoldable pub covering : List ℕ → Mount Node → Bool
  covering path m = m.in_use && covers path m

  unfoldable pub size_of : Option (Mount Node) → ℕ
  size_of none = 0
  size_of (some m) = strlen m.mount_point

  -- One of the mounts that cover the path, or none, and no shorter than any of them.
  unfoldable pub Longest : List ℕ → List (Mount Node) → Option (Mount Node) → Type 0
  Longest path ms r =
      (r ≡ none ⊎ Any (λ m. (r ≡ some m) × (covering path m ≡ true)) ms)
      × All (λ m. covering path m ≡ true → strlen m.mount_point ≤ size_of r) ms

  -- the same with a best mount from before
  Better : List ℕ → List (Mount Node) → Option (Mount Node) → Option (Mount Node) → Type 0
  Better path ms best r =
      (r ≡ best ⊎ Any (λ m. (r ≡ some m) × (covering path m ≡ true)) ms)
      × All (λ m. covering path m ≡ true → strlen m.mount_point ≤ size_of r) ms
      × size_of best ≤ size_of r

  nothing_left :
      (path : List ℕ) (best : Option (Mount Node))
      → Better path [] best (find_from path [] best (size_of best))
  unfolding Better find_from
  nothing_left path best = (inl refl, tt, omega arith)

  Better-here :
      (path : List ℕ) (m : Mount Node) (ms : List (Mount Node)) (best : Option (Mount Node))
      → covering path m ≡ true
      → size_of best ≤ strlen m.mount_point
      → (r : Option (Mount Node)) → Better path ms (some m) r
      → Better path (m ∷ ms) best r
  unfolding Better size_of
  Better-here path m ms best e h r (inl x, a, k) =
      (inr (inl (x, e)), ((λ _. k), a), omega (arith, h, k))
  Better-here path m ms best e h r (inr x, a, k) = (inr (inr x), ((λ _. k), a), omega (arith, h, k))

  Better-there :
      (path : List ℕ) (m : Mount Node) (ms : List (Mount Node)) (best : Option (Mount Node))
      → (covering path m ≡ true → strlen m.mount_point ≤ size_of best)
      → (r : Option (Mount Node)) → Better path ms best r
      → Better path (m ∷ ms) best r
  unfolding Better
  Better-there path m ms best h r (inl x, a, k) = (inl x, ((λ c. omega (arith, h c, k)), a), k)
  Better-there path m ms best h r (inr x, a, k) =
      (inr (inr x), ((λ c. omega (arith, h c, k)), a), k)

  and_if :
      (a b c : Bool) (x y : Option (Mount Node))
      → (if a && (b && c) then x else y) ≡ (if (a && b) && c then x else y)
  and_if true b c x y = refl
  and_if false b c x y = refl

  -- a round of the loop, with the tests on the mount taken together
  find_from_round :
      (path : List ℕ) (m : Mount Node) (ms : List (Mount Node)) (best : Option (Mount Node)) (n : ℕ)
      → find_from path (m ∷ ms) best n ≡ (
          if covering path m && ltb n (strlen m.mount_point)
          then find_from path ms (some m) (strlen m.mount_point)
          else find_from path ms best n)
  unfolding find_from covering
  find_from_round path m ms best n =
      and_if m.in_use (covers path m) (ltb n (strlen m.mount_point))
        (find_from path ms (some m) (strlen m.mount_point)) (find_from path ms best n)

  find_from-Better :
      (path : List ℕ) (ms : List (Mount Node)) (best : Option (Mount Node))
      → Better path ms best (find_from path ms best (size_of best))
  unfolding size_of
  find_from-Better path [] best = nothing_left path best
  find_from-Better path (m ∷ ms) best =
      rw (find_from_round path m ms best (size_of best)) (elim (Bool-cases (covering path m)) [
        | inr e ↦ rw e (
            Better-there path m ms best (λ c. absurd (false-true (sym e ∙ c)))
              (find_from path ms best (size_of best)) (find_from-Better path ms best))
        | inl e ↦ elim (Bool-cases (ltb (size_of best) (strlen m.mount_point))) [
          | inl f ↦ rw e (
              rw f (
                Better-here path m ms best e
                  (omega (arith, ltb→lt (size_of best) (strlen m.mount_point) f))
                  (find_from path ms (some m) (strlen m.mount_point))
                  (find_from-Better path ms (some m))))
          | inr f ↦ rw e (
              rw f (
                Better-there path m ms best (λ _. ltb→ge (size_of best) (strlen m.mount_point) f)
                  (find_from path ms best (size_of best)) (find_from-Better path ms best)))
        ]
      ])

  -- find_mount picks the longest of the mounts in use that the path goes through, if there is one.
  pub find_mount-Longest :
      (path : List ℕ) (ms : List (Mount Node)) → Longest path ms (find_mount path ms)
  unfolding Longest find_mount Better size_of
  find_mount-Longest path ms = let b = find_from-Better path ms none in (b.0, b.1)
