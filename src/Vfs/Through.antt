-- ===== src/Vfs/Through.antt =====
-- The paths that go through a mount point of src/fs/vfs.c, said of the texts, and what find_mount picks.
use lighth_os.Vfs.{Mount, covers, find_mount, slash}
use lighth_os.Vfs.Find.{covering, size_of, Longest, find_mount-Longest}
use lighth_os.CString.{strlen, strncmp, is_zero}
use lighth_os.CString.Text.{text, strlen-length, strncmp_lem}
use lighth_os.Common.{
  ℕ, zero, suc, ◌≤◌, ◌≡◌, refl, ap, sym, ◌∙◌, ◌⊎◌, inl, inr, Bool, true, false, ◌&&◌, ◌||◌, List,
  [], ◌∷◌, ◌++◌, ◌==◌, length, get_or, take, drop, take-all, take-append-drop, length-append,
  get_or-append_right, Option, none, some, All, Any, arith, Bool-cases, and_true, ==→eq, ==→ne,
}

-- A text goes on, behind a first part, at the border of a name: there is nothing more, or a slash.
abbrev pub AtBorder : List ℕ → Type 0
AtBorder [] = Unit
AtBorder (c ∷ rest) = c ≡ slash

-- The path is the mount point and a rest. Behind a mount point of one byte, which is the root, the
-- rest may be anything; else it starts at the border of a name.
pub record GoesThrough (path point : List ℕ) : Type 0 where
  pub rest : List ℕ
  pub at : text path ≡ text point ++ rest
  pub border : (length (text point) ≡ 1) ⊎ AtBorder rest

-- The byte behind a part of a text is that of the text, and 0 only at its end.
get_or-text : (s : List ℕ) (n : ℕ) → n ≤ length (text s) → get_or s n 0 ≡ get_or (text s) n 0
unfolding text
get_or-text [] n h = refl
get_or-text (c ∷ s) zero h = elim (Bool-cases (c == 0)) [
  | inl e ↦ rw e (==→eq c 0 e)
  | inr e ↦ rw e refl
]
get_or-text (c ∷ s) (suc n) h = elim (Bool-cases (c == 0)) [
  | inl e ↦ absurd (too_long (rw e at h))
  | inr e ↦ rw e (get_or-text s n (omega (arith, one_less e)))
]
  where
    too_long : suc n ≤ 0 → ⊥
    too_long l = omega (arith, l)

    one_less : (c == 0) ≡ false → suc n ≤ suc (length (text s))
    one_less e = rw e at h

text_end : (s : List ℕ) (n : ℕ) → get_or (text s) n 0 ≡ 0 → length (text s) ≤ n
unfolding text
text_end [] n h = omega arith
text_end (c ∷ s) zero h = elim (Bool-cases (c == 0)) [
  | inl e ↦ rw e (omega arith)
  | inr e ↦ absurd (==→ne c 0 e (rw e at h))
]
text_end (c ∷ s) (suc n) h = elim (Bool-cases (c == 0)) [
  | inl e ↦ rw e (omega arith)
  | inr e ↦ rw e (omega (arith, text_end s n (rw e at h)))
]

take-append : (a b : List ℕ) (n : ℕ) → n ≡ length a → take n (a ++ b) ≡ a
take-append [] b zero e = refl
take-append [] b (suc n) e = absurd (omega (arith, e))
take-append (x ∷ a) b zero e = absurd (omega (arith, e))
take-append (x ∷ a) b (suc n) e = ap (λ l. x ∷ l) (take-append a b n (omega (arith, e)))

or_true : (a : Bool) → (a || true) ≡ true
or_true true = refl
or_true false = refl

-- a text and its parts
module _ (path point rest : List ℕ) (at : text path ≡ text point ++ rest) where
  long_enough : strlen point ≤ length (text path)
  long_enough = omega (arith, strlen-length point, ap length at, length-append (text point) rest)

  byte_behind : get_or path (strlen point) 0 ≡ get_or rest 0 0
  byte_behind =
      get_or-text path (strlen point) long_enough
      ∙ ap (λ t. get_or t (strlen point) 0) at
      ∙ get_or-append_right (text point) rest (strlen point) 0 (omega (arith, strlen-length point))
      ∙ ap (λ k. get_or rest k 0) (omega (arith, strlen-length point))

  -- The byte is 0 only where the text ends.
  nothing_behind : get_or rest 0 0 ≡ 0 → length rest ≡ 0
  nothing_behind z = omega (
    arith,
    text_end path (strlen point)
        (sym (get_or-text path (strlen point) long_enough) ∙ byte_behind ∙ z),
    strlen-length point,
    ap length at,
    length-append (text point) rest,
  )

border-byte :
    (rest : List ℕ) → AtBorder rest → (get_or rest 0 0 == slash || get_or rest 0 0 == 0) ≡ true
border-byte [] b = refl
border-byte (c ∷ rest) b = rw b refl

byte-border :
    (rest : List ℕ)
    → (get_or rest 0 0 ≡ 0 → length rest ≡ 0)
    → (get_or rest 0 0 == slash || get_or rest 0 0 == 0) ≡ true
    → AtBorder rest
byte-border [] n h = tt
byte-border (c ∷ rest) n h = elim (Bool-cases (c == slash)) [
  | inl e ↦ ==→eq c slash e
  | inr e ↦ absurd (omega (arith, n (==→eq c 0 (rw e at h))))
]

module _ {Node : Type 0} (path : List ℕ) (m : Mount Node) where
  starts : Bool
  starts = is_zero (strncmp path m.mount_point (strlen m.mount_point))

  ends_name : Bool
  ends_name =
      strlen m.mount_point == 1
      || (get_or path (strlen m.mount_point) 0 == slash
          || get_or path (strlen m.mount_point) 0 == 0)

  parts : covers path m ≡ true → (starts ≡ true) × (ends_name ≡ true)
  unfolding covers starts ends_name
  parts c = and_true starts ends_name c

  -- A path goes through a mount exactly when the tests of find_mount say so.
  covers-GoesThrough : covers path m ≡ true → GoesThrough path m.mount_point
  unfolding covers starts ends_name
  covers-GoesThrough c = record {
    rest = drop n (text path);
    at = whole;
    border = elim (Bool-cases (n == 1)) [
      | inl e ↦ inl (sym (strlen-length m.mount_point) ∙ ==→eq n 1 e)
      | inr e ↦ inr (
          byte-border (drop n (text path))
            (nothing_behind path m.mount_point (drop n (text path)) whole)
            (ap (λ b. b == slash || b == 0)
                (sym (byte_behind path m.mount_point (drop n (text path)) whole))
              ∙ (rw e at (parts c).1)))
    ];
  }
    where
      n : ℕ
      n = strlen m.mount_point

      whole : text path ≡ text m.mount_point ++ drop n (text path)
      whole =
          sym (take-append-drop n (text path))
          ∙ ap (λ t. t ++ drop n (text path))
              ((strncmp_lem path m.mount_point n).0 (parts c).0
                ∙ take-all n (text m.mount_point) (omega (arith, strlen-length m.mount_point)))

  GoesThrough-covers : GoesThrough path m.mount_point → covers path m ≡ true
  unfolding covers
  GoesThrough-covers g =
      rw
        ((strncmp_lem path m.mount_point n).1 (
          ap (take n) g.at
          ∙ take-append (text m.mount_point) g.rest n (strlen-length m.mount_point)
          ∙ sym (take-all n (text m.mount_point) (omega (arith, strlen-length m.mount_point)))))
        (elim g.border [
          | inl e ↦ root_ends (strlen-length m.mount_point ∙ e)
          | inr b ↦ name_ends (
              ap (λ b. b == slash || b == 0) (byte_behind path m.mount_point g.rest g.at)
              ∙ border-byte g.rest b)
        ])
    where
      n : ℕ
      n = strlen m.mount_point

      root_ends : n ≡ 1 → (n == 1 || (get_or path n 0 == slash || get_or path n 0 == 0)) ≡ true
      root_ends e = rw e refl

      name_ends :
          (get_or path n 0 == slash || get_or path n 0 == 0) ≡ true
          → (n == 1 || (get_or path n 0 == slash || get_or path n 0 == 0)) ≡ true
      name_ends e = rw e (or_true (n == 1))

both : (a b : Bool) → a ≡ true → b ≡ true → (a && b) ≡ true
both a b e f = rw (e, f) refl

-- the mounts in use that a path goes through
abbrev pub IsCovering : {Node : Type 0} → List ℕ → Mount Node → Type 0
IsCovering path m = (m.in_use ≡ true) × GoesThrough path m.mount_point

abbrev pub point_size : {Node : Type 0} → Option (Mount Node) → ℕ
point_size none = 0
point_size (some m) = length (text m.mount_point)

-- One of the mounts in use that the path goes through, or none, and none of them has a longer mount
-- point.
pub Picks : {Node : Type 0} → List ℕ → List (Mount Node) → Option (Mount Node) → Type 0
Picks path ms r =
    (r ≡ none ⊎ Any (λ m. (r ≡ some m) × IsCovering path m) ms)
    × All (λ m. IsCovering path m → length (text m.mount_point) ≤ point_size r) ms

module _ {Node : Type 0} (path : List ℕ) (r : Option (Mount Node)) where
  covering-IsCovering : (m : Mount Node) → covering path m ≡ true → IsCovering path m
  unfolding covering
  covering-IsCovering m c =
      let h = and_true m.in_use (covers path m) c in (h.0, covers-GoesThrough path m h.1)

  IsCovering-covering : (m : Mount Node) → IsCovering path m → covering path m ≡ true
  unfolding covering
  IsCovering-covering m (u, g) = both m.in_use (covers path m) u (GoesThrough-covers path m g)

  point_size-size_of : point_size r ≡ size_of r
  unfolding size_of
  point_size-size_of = elim r as (λ o. point_size o ≡ size_of o) [
    | none ↦ refl
    | some m ↦ sym (strlen-length m.mount_point)
  ]

  Any-covering :
      (ms : List (Mount Node))
      → Any (λ m. (r ≡ some m) × (covering path m ≡ true)) ms
      → Any (λ m. (r ≡ some m) × IsCovering path m) ms
  Any-covering [] a = a
  Any-covering (m ∷ ms) (inl (e, c)) = inl (e, covering-IsCovering m c)
  Any-covering (m ∷ ms) (inr a) = inr (Any-covering ms a)

  all_shorter :
      (ms : List (Mount Node))
      → All (λ m. covering path m ≡ true → strlen m.mount_point ≤ size_of r) ms
      → All (λ m. IsCovering path m → length (text m.mount_point) ≤ point_size r) ms
  all_shorter [] a = tt
  all_shorter (m ∷ ms) (h, hs) = (
    λ c.
        omega (arith, h (IsCovering-covering m c), strlen-length m.mount_point, point_size-size_of),
    all_shorter ms hs,
  )

  Longest-Picks : (ms : List (Mount Node)) → Longest path ms r → Picks path ms r
  unfolding Longest Picks
  Longest-Picks ms (inl e, a) = (inl e, all_shorter ms a)
  Longest-Picks ms (inr c, a) = (inr (Any-covering ms c), all_shorter ms a)

-- find_mount picks one of the mounts in use that the path goes through, and none of these has a longer
-- mount point; it picks none only if the mount points of all of these are empty. A path goes through
-- a mount point if the text of the path is that of the mount point and a rest, which is empty or
-- starts with a slash, unless the mount point has one byte, as that of the root has.
pub find_mount-Picks :
    {Node : Type 0} (path : List ℕ) (ms : List (Mount Node)) → Picks path ms (find_mount path ms)
find_mount-Picks path ms = Longest-Picks path (find_mount path ms) ms (find_mount-Longest path ms)
