-- ===== src/Paths/Clean.antt =====
-- src/kernel/process.c: a path that canon_into returns stays below the root directory and fits into
-- the buffer.
use lighth_os.Paths.{slash, is_dot, is_dotdot, absolute, strip, strip_some, canon_into}
use lighth_os.Paths.Follow.{split, names, render, up, visit, follow, IsName}
use lighth_os.Paths.Canon.{rendered, resolved, canon_into-resolved}
use lighth_os.Common.{
  ℕ, ◌+◌, ◌-◌, ◌≤◌, ◌<◌, ◌≡◌, sym, subst, ◌∙◌, false, ◌&&◌, ◌||◌, Option, none, some, List, [], ◌∷◌,
  ◌++◌, ◌==◌, ltb, leb, get_or, length, length-append, length-take, arith, inl, inr, All,
  Bool-cases,
}

-- A name of a directory or a file: neither empty nor "." nor "..", and with no slash.
pub record IsProper (s : List ℕ) : Type 0 where
  pub nonempty : (length s == 0) ≡ false
  pub no_dot : is_dot s ≡ false
  pub no_dotdot : is_dotdot s ≡ false
  pub name : IsName s

-- A path of proper names that is shorter than the buffer.
pub record IsClean (room : ℕ) (segs : List (List ℕ)) : Type 0 where
  pub proper : All IsProper segs
  pub fits : length (render segs) < room

split-IsName : (rem : List ℕ) → All IsName (names rem)
unfolding split
split-IsName [] = (tt, tt)
split-IsName (c ∷ rem) = elim (Bool-cases (c == 0)) [
  | inl z ↦ rw z (tt, tt)
  | inr z ↦ elim (Bool-cases (c == slash)) [
    | inl e ↦ rw (z, e) (tt, split-IsName rem)
    | inr e ↦ let (n, ns) = split-IsName rem in rw (z, e) ((ground (arith, e), n), ns)
  ]
]

length-up : (segs : List (List ℕ)) → length (render (up segs)) ≤ length (render segs)
unfolding up render
length-up [] = omega arith
length-up (s ∷ segs) = omega (arith, length-append (render segs) (s ++ slash ∷ []))

length-render :
    (s : List ℕ) (segs : List (List ℕ))
    → length (render (s ∷ segs)) ≡ length (render segs) + length s + 1
unfolding render
length-render s segs =
    length-append (render segs) (s ++ slash ∷ []) ∙ omega (arith, length-append s (slash ∷ []))

up-IsProper : (segs : List (List ℕ)) → All IsProper segs → All IsProper (up segs)
unfolding up
up-IsProper [] n = tt
up-IsProper (s ∷ segs) (n, ns) = ns

abbrev Clean : ℕ → Option (List (List ℕ)) → Type 0
Clean room none = Unit
Clean room (some segs) = IsClean room segs

visit-Clean :
    (room : ℕ) (s : List ℕ) (segs : List (List ℕ))
    → IsName s
    → IsClean room segs
    → Clean room (visit room s (some segs))
unfolding visit
visit-Clean room s segs n c = elim (Bool-cases (length s == 0 || is_dot s)) [
  | inl d ↦ rw d c
  | inr d ↦ elim (Bool-cases (is_dotdot s)) [
    | inl e ↦
        rw (d, e)
          (record {
            proper = up-IsProper segs c.proper;
            fits = omega (arith, length-up segs, c.fits);
          })
    | inr e ↦ elim (Bool-cases (leb room (length (render segs) + length s + 1))) [
      | inl l ↦ rw (d, e, l) tt
      | inr l ↦
          rw (d, e, l)
            (record {
              proper = (
                record {
                  nonempty = ground (arith, d);
                  no_dot = ground (arith, d);
                  no_dotdot = e;
                  name = n;
                },
                c.proper,
              );
              fits = longer l;
            })
    ]
  ]
]
  where
    longer :
        leb room (length (render segs) + length s + 1) ≡ false → length (render (s ∷ segs)) < room
    longer l = subst (λ k. k < room) (sym (length-render s segs)) (ground (arith, l))

follow-Clean :
    (room : ℕ) (ss : List (List ℕ)) (o : Option (List (List ℕ)))
    → All IsName ss
    → Clean room o
    → Clean room (follow room ss o)
unfolding follow visit
follow-Clean room [] o n c = c
follow-Clean room (s ∷ ss) none (n, ns) c = follow-Clean room ss none ns tt
follow-Clean room (s ∷ ss) (some segs) (n, ns) c =
    follow-Clean room ss (visit room s (some segs)) ns (visit-Clean room s segs n c)

-- What canon_into has written, if it succeeds.
pub record Stays (room : ℕ) (out : List ℕ) : Type 0 where
  pub segs : List (List ℕ)
  pub path : out ≡ strip (render segs)
  pub clean : IsClean room segs
  pub fits : length out < room

length-strip : (out : List ℕ) → length (strip out) ≤ length out
unfolding strip
length-strip out =
    elim (Bool-cases (ltb 1 (length out) && get_or out (length out - 1) 0 == slash)) [
      | inl e ↦ rw e (omega (arith, length-take (length out - 1) out))
      | inr e ↦ rw e (omega arith)
    ]

resolved-Clean : (room : ℕ) (tmp : Option (List ℕ)) → 1 < room → Clean room (resolved room tmp)
unfolding resolved render
resolved-Clean room none h = tt
resolved-Clean room (some tmp) h =
    follow-Clean room (names tmp) (some []) (split-IsName tmp) (record { proper = tt; fits = h })

strip-Stays :
    (room : ℕ) (o : Option (List (List ℕ))) (out : List ℕ)
    → Clean room o
    → strip_some (rendered o) ≡ some out
    → Stays room out
unfolding strip_some
strip-Stays room none out c h = cc
strip-Stays room (some segs) out c h = record {
  segs = segs;
  path = same;
  clean = c;
  fits =
      subst (λ l. length l < room) (sym same) (omega (arith, length-strip (render segs), c.fits));
}
  where
    same : out ≡ strip (render segs)
    same = cc

-- Every path that canon_into writes to a buffer of 2 bytes or more is "/" followed by proper names,
-- none of which leads out of the root directory, and it leaves room for the byte that ends it.
pub canon_into-Stays :
    (path cwd : List ℕ) (room : ℕ) (out : List ℕ)
    → 1 < room
    → canon_into path cwd room ≡ some out
    → Stays room out
canon_into-Stays path cwd room out h e =
    strip-Stays room (resolved room (absolute path cwd)) out
      (resolved-Clean room (absolute path cwd) h) (sym (canon_into-resolved path cwd room) ∙ e)
