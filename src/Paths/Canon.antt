-- ===== src/Paths/Canon.antt =====
-- src/kernel/process.c: canon_into follows the names of a path from the root directory.
use lighth_os.Paths.{
  slash, segment, behind, parent, is_dot, is_dotdot, step, canon, canon_some, absolute, strip_some,
  canon_into,
}
use lighth_os.Paths.Follow.{split, names, render, up, visit, follow, IsName}
use lighth_os.Paths.Parent.{parent-render}
use lighth_os.Common.{
  ℕ, zero, suc, ◌+◌, ◌≤◌, ◌<◌, ◌≡◌, refl, ap, sym, ◌∙◌, true, false, ◌||◌, Option, none, some, List,
  [], ◌∷◌, ◌==◌, leb, length, arith, inl, inr, All, Bool-cases,
}

module _ (c : ℕ) (rem : List ℕ) where
  split-end : (c == 0) ≡ true → split (c ∷ rem) ≡ ([], [])
  unfolding split
  split-end z = rw z refl

  split-slash : (c == 0) ≡ false → (c == slash) ≡ true → split (c ∷ rem) ≡ ([], names rem)
  unfolding split
  split-slash z e = rw (z, e) refl

  split-more :
      (c == 0) ≡ false → (c == slash) ≡ false → split (c ∷ rem) ≡ (c ∷ (split rem).0, (split rem).1)
  unfolding split
  split-more z e = rw (z, e) refl

  behind-stays : (c == 0 || c == slash) ≡ true → behind (c ∷ rem) ≡ c ∷ rem
  unfolding behind
  behind-stays e = rw e refl

  behind-more : (c == 0) ≡ false → (c == slash) ≡ false → behind (c ∷ rem) ≡ behind rem
  unfolding behind
  behind-more z e = rw (z, e) refl

abbrev front : List ℕ × List (List ℕ) → List (List ℕ)
front r = r.0 ∷ r.1

abbrev empty_front : List ℕ × List (List ℕ) → List (List ℕ)
empty_front r = [] ∷ r.1

pub segment-split : (rem : List ℕ) → (split rem).0 ≡ segment rem
unfolding split segment
segment-split [] = refl
segment-split (c ∷ rem) = elim (Bool-cases (c == 0)) [
  | inl z ↦ rw z refl
  | inr z ↦ elim (Bool-cases (c == slash)) [
    | inl e ↦ rw (z, e) refl
    | inr e ↦ rw (z, e) (ap (λ s. c ∷ s) (segment-split rem))
  ]
]

no_names : names (behind []) ≡ [] ∷ (split []).1
unfolding behind split
no_names = refl

names-behind : (rem : List ℕ) → names (behind rem) ≡ [] ∷ (split rem).1
names-behind [] = no_names
names-behind (c ∷ rem) = elim (Bool-cases (c == 0)) [
  | inl z ↦
      ap names (behind-stays c rem (ground (arith, z)))
      ∙ ap front (split-end c rem z)
      ∙ sym (ap empty_front (split-end c rem z))
  | inr z ↦ elim (Bool-cases (c == slash)) [
    | inl e ↦
        ap names (behind-stays c rem (ground (arith, e)))
        ∙ ap front (split-slash c rem z e)
        ∙ sym (ap empty_front (split-slash c rem z e))
    | inr e ↦
        ap names (behind-more c rem z e)
        ∙ names-behind rem
        ∙ sym (ap empty_front (split-more c rem z e))
  ]
]

pub segment-IsName : (rem : List ℕ) → IsName (segment rem)
unfolding segment
segment-IsName [] = tt
segment-IsName (c ∷ rem) = elim (Bool-cases (c == 0 || c == slash)) [
  | inl e ↦ rw e tt
  | inr e ↦ rw e (ground (arith, e), segment-IsName rem)
]

length-behind : (rem : List ℕ) → length (behind rem) ≤ length rem
unfolding behind
length-behind [] = omega arith
length-behind (c ∷ rem) = elim (Bool-cases (c == 0 || c == slash)) [
  | inl e ↦ rw e (omega arith)
  | inr e ↦ rw e (omega (arith, length-behind rem))
]

abbrev pub rendered : Option (List (List ℕ)) → Option (List ℕ)
rendered none = none
rendered (some segs) = some (render segs)

abbrev pub Names : Option (List (List ℕ)) → Type 0
Names none = Unit
Names (some segs) = All IsName segs

root : parent (render []) ≡ render []
unfolding parent render
root = refl

parent-up : (segs : List (List ℕ)) → All IsName segs → parent (render segs) ≡ render (up segs)
unfolding up render
parent-up [] n = root
parent-up (s ∷ segs) (n, ns) = parent-render s segs n

-- one segment
step-visit :
    (room : ℕ) (seg : List ℕ) (segs : List (List ℕ))
    → (length seg == 0) ≡ false
    → All IsName segs
    → step room seg (render segs) ≡ rendered (visit room seg (some segs))
unfolding step visit render
step-visit room seg segs h n = elim (Bool-cases (is_dot seg)) [
  | inl d ↦ rw (h, d) refl
  | inr d ↦ elim (Bool-cases (is_dotdot seg)) [
    | inl e ↦ rw (h, d, e) (ap some (parent-up segs n))
    | inr e ↦ elim (Bool-cases (leb room (length (render segs) + length seg + 1))) [
      | inl l ↦ rw (h, d, e, l) refl
      | inr l ↦ rw (h, d, e, l) refl
    ]
  ]
]

visit-Names :
    (room : ℕ) (s : List ℕ) (segs : List (List ℕ))
    → IsName s
    → All IsName segs
    → Names (visit room s (some segs))
unfolding visit up
visit-Names room s segs n ns = elim (Bool-cases (length s == 0 || is_dot s)) [
  | inl d ↦ rw d ns
  | inr d ↦ elim (Bool-cases (is_dotdot s)) [
    | inl e ↦ rw (d, e) (up-Names segs ns)
    | inr e ↦ elim (Bool-cases (leb room (length (render segs) + length s + 1))) [
      | inl l ↦ rw (d, e, l) tt
      | inr l ↦ rw (d, e, l) (n, ns)
    ]
  ]
]
  where
    up-Names : (segs : List (List ℕ)) → All IsName segs → All IsName (up segs)
    up-Names [] n = tt
    up-Names (s ∷ segs) (n, ns) = ns

visit-empty : (room : ℕ) (o : Option (List (List ℕ))) → visit room [] o ≡ o
unfolding visit
visit-empty room none = refl
visit-empty room (some segs) = refl

follow-none : (room : ℕ) (ss : List (List ℕ)) → follow room ss none ≡ none
unfolding follow visit
follow-none room [] = refl
follow-none room (s ∷ ss) = follow-none room ss

follow-empty :
    (room : ℕ) (ss : List (List ℕ)) (o : Option (List (List ℕ)))
    → follow room ([] ∷ ss) o ≡ follow room ss o
unfolding follow
follow-empty room ss o = ap (follow room ss) (visit-empty room o)

follow-end : (room : ℕ) (o : Option (List (List ℕ))) → follow room ([] ∷ []) o ≡ o
unfolding follow
follow-end room o = visit-empty room o

follow-first :
    (room : ℕ) (s : List ℕ) (ss : List (List ℕ)) (o : Option (List (List ℕ)))
    → follow room (s ∷ ss) o ≡ follow room ss (visit room s o)
unfolding follow
follow-first room s ss o = refl

names-nil : names [] ≡ [] ∷ []
unfolding split
names-nil = refl

canon-none : (room n : ℕ) (rem : List ℕ) → canon room n rem none ≡ none
unfolding canon
canon-none room n rem = refl

canon-nil : (room n : ℕ) (out : List ℕ) → canon room (suc n) [] (some out) ≡ some out
unfolding canon
canon-nil room n out = refl

segment-nonempty :
    (c : ℕ) (rem : List ℕ)
    → (c == 0) ≡ false
    → (c == slash) ≡ false
    → (length (segment (c ∷ rem)) == 0) ≡ false
unfolding segment
segment-nonempty c rem z e = rw (z, e) (ground arith)

-- a round of the loop, for each byte that may come
module _ (room n c : ℕ) (rem out : List ℕ) where
  canon-end : (c == 0) ≡ true → canon room (suc n) (c ∷ rem) (some out) ≡ some out
  unfolding canon
  canon-end z = rw z refl

  canon-slash :
      (c == 0) ≡ false
      → (c == slash) ≡ true
      → canon room (suc n) (c ∷ rem) (some out) ≡ canon room n rem (some out)
  unfolding canon
  canon-slash z e = rw (z, e) refl

  canon-segment :
      (c == 0) ≡ false
      → (c == slash) ≡ false
      → canon room (suc n) (c ∷ rem) (some out)
        ≡ canon room n (behind (c ∷ rem)) (step room (segment (c ∷ rem)) out)
  unfolding canon
  canon-segment z e = rw (z, e) refl

canon-follow :
    (room n : ℕ) (rem : List ℕ) (o : Option (List (List ℕ)))
    → length rem < n
    → Names o
    → canon room n rem (rendered o) ≡ rendered (follow room (names rem) o)
canon-follow room n rem none l ns =
    canon-none room n rem ∙ sym (ap rendered (follow-none room (names rem)))
canon-follow room zero rem (some segs) l ns = absurd (omega arith)
canon-follow room (suc n) [] (some segs) l ns =
    canon-nil room n (render segs)
    ∙ sym (
        ap (λ ss. rendered (follow room ss (some segs))) names-nil
        ∙ ap rendered (follow-end room (some segs)))
canon-follow room (suc n) (c ∷ rem) (some segs) l ns = elim (Bool-cases (c == 0)) [
  | inl z ↦
      canon-end room n c rem (render segs) z
      ∙ sym (
          ap (λ r. rendered (follow room (front r) (some segs))) (split-end c rem z)
          ∙ ap rendered (follow-end room (some segs)))
  | inr z ↦ elim (Bool-cases (c == slash)) [
    | inl e ↦
        canon-slash room n c rem (render segs) z e
        ∙ canon-follow room n rem (some segs) (omega arith) ns
        ∙ sym (
            ap (λ r. rendered (follow room (front r) (some segs))) (split-slash c rem z e)
            ∙ ap rendered (follow-empty room (names rem) (some segs)))
    | inr e ↦
        let seg = segment (c ∷ rem) in
        let others = (split (c ∷ rem)).1 in
        let rest = behind (c ∷ rem) in
        let next = visit room seg (some segs) in
        canon-segment room n c rem (render segs) z e
        ∙ ap (canon room n rest) (step-visit room seg segs (segment-nonempty c rem z e) ns)
        ∙ canon-follow room n rest next (shorter z e)
            (visit-Names room seg segs (segment-IsName (c ∷ rem)) ns)
        ∙ ap (λ ss. rendered (follow room ss next)) (names-behind (c ∷ rem))
        ∙ ap rendered (follow-empty room others next)
        ∙ sym (
            ap rendered (follow-first room (split (c ∷ rem)).0 others (some segs))
            ∙ ap (λ s. rendered (follow room others (visit room s (some segs))))
                (segment-split (c ∷ rem)))
  ]
]
  where
    shorter : (c == 0) ≡ false → (c == slash) ≡ false → length (behind (c ∷ rem)) < n
    shorter z e = omega (arith, l, length-behind rem, ap length (behind-more c rem z e))

-- the names of `tmp`, followed from the root directory
unfoldable pub resolved : ℕ → Option (List ℕ) → Option (List (List ℕ))
resolved room none = none
resolved room (some tmp) = follow room (names tmp) (some [])

canon_some-resolved :
    (room : ℕ) (tmp : Option (List ℕ)) → canon_some room tmp ≡ rendered (resolved room tmp)
unfolding canon_some resolved render
canon_some-resolved room none = refl
canon_some-resolved room (some []) = canon-follow room 1 [] (some []) (omega arith) tt
canon_some-resolved room (some (c ∷ tmp)) = elim (Bool-cases (c == slash)) [
  | inl e ↦ rw e (
      canon-follow room (suc (length tmp)) tmp (some []) (omega arith) tt
      ∙ sym (
          ap (λ r. rendered (follow room (front r) (some [])))
            (split-slash c tmp (ground (arith, e)) e)
          ∙ ap rendered (follow-empty room (names tmp) (some []))))
  | inr e ↦ rw e (canon-follow room (suc (length (c ∷ tmp))) (c ∷ tmp) (some []) (omega arith) tt)
]

-- canon_into returns the path that the names lead to, one by one from the root directory, with no
-- slash at its end, and -1 exactly where `tmp` or the path of a name has no room; its loops end.
pub canon_into-resolved :
    (path cwd : List ℕ) (room : ℕ)
    → canon_into path cwd room ≡ strip_some (rendered (resolved room (absolute path cwd)))
unfolding canon_into
canon_into-resolved path cwd room = ap strip_some (canon_some-resolved room (absolute path cwd))
