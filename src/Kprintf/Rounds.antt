-- ===== src/Kprintf/Rounds.antt =====
-- src/lib/kprintf.c: the loop of kvprintf ends within as many rounds as the format has characters.
use lighth_os.Kprintf.{
  Arg, read_width, read_long, read_conversion, convert, round, format, kvprintf,
}
use lighth_os.Common.{
  ℕ, zero, suc, ◌+◌, ◌-◌, ◌*◌, ◌≤◌, ◌<◌, ◌≡◌, refl, ap, Option, none, some, List, [], ◌∷◌, ◌++◌,
  length, get_or, drop, length-drop, ◌==◌, ◌>>=◌, arith, inl, inr, Bool-cases,
}

width_short : (fmt : List ℕ) (w : ℕ) → length (read_width fmt w).1 ≤ length fmt
unfolding read_width
width_short [] w = omega arith
width_short (c ∷ fmt) w = ground (arith, width_short fmt (w * 10 + (c - 48)))

long_short : (w p : ℕ) (fmt : List ℕ) → length (read_long w p fmt).rest ≤ length fmt
unfolding read_long
long_short w p fmt = elim (Bool-cases (get_or fmt 0 0 == 108)) [
  | inr a ↦ rw a (omega arith)
  | inl a ↦ elim (Bool-cases (get_or fmt 1 0 == 108)) [
    | inl b ↦ rw (a, b) (omega (arith, length-drop 2 fmt))
    | inr b ↦ rw (a, b) (omega (arith, length-drop 1 fmt))
  ]
]

conversion_short : (fmt : List ℕ) → length (read_conversion fmt).rest ≤ length fmt
unfolding read_conversion
conversion_short fmt = elim (Bool-cases (get_or fmt 0 0 == 48)) [
  | inl a ↦ rw a (
      omega (
        arith,
        long_short (read_width (drop 1 fmt) 0).0 48 (read_width (drop 1 fmt) 0).1,
        width_short (drop 1 fmt) 0,
        length-drop 1 fmt,
      ))
  | inr a ↦
      rw a
        (omega (arith, long_short (read_width fmt 0).0 32 (read_width fmt 0).1, width_short fmt 0))
]

-- A round looks only at what is shorter than its format.
round-agree :
    (f g : List ℕ → List Arg → Option (List ℕ)) (fmt : List ℕ) (args : List Arg)
    → ((s : List ℕ) (a : List Arg) → length s < length fmt → f s a ≡ g s a)
    → round f fmt args ≡ round g fmt args
unfolding round
round-agree f g [] args h = refl
round-agree f g (c ∷ fmt) args h = elim (Bool-cases (c == 0)) [
  | inl z ↦ rw z refl
  | inr z ↦ elim (Bool-cases (c == 37)) [
    | inr p ↦ rw (z, p) (ap (λ o. o >>= λ out. some (c ∷ out)) (h fmt args (omega arith)))
    | inl p ↦ elim (Bool-cases (get_or (read_conversion fmt).rest 0 0 == 0)) [
      | inl e ↦ rw (z, p, e) refl
      | inr e ↦
          rw (z, p, e)
            (then_agree
              (convert (get_or (read_conversion fmt).rest 0 0) (read_conversion fmt) args))
    ]
  ]
]
  where
    then_agree :
        (o : Option (List ℕ × List Arg))
        → (o >>= λ (r : List ℕ × List Arg).
            f (drop 1 (read_conversion fmt).rest) r.1 >>= λ more. some (r.0 ++ more))
          ≡ (o >>= λ (r : List ℕ × List Arg).
              g (drop 1 (read_conversion fmt).rest) r.1 >>= λ more. some (r.0 ++ more))
    then_agree none = refl
    then_agree (some (out, rest)) =
        ap (λ o. o >>= λ more. some (out ++ more))
          (h (drop 1 (read_conversion fmt).rest) rest
            (omega (arith, conversion_short fmt, length-drop 1 (read_conversion fmt).rest)))

format-agree :
    (n m : ℕ) (fmt : List ℕ) (args : List Arg)
    → length fmt ≤ n
    → length fmt ≤ m
    → format n fmt args ≡ format m fmt args
unfolding format round
format-agree zero zero fmt args a b = refl
format-agree zero (suc m) [] args a b = refl
format-agree zero (suc m) (c ∷ fmt) args a b = absurd (omega (arith, a))
format-agree (suc n) zero [] args a b = refl
format-agree (suc n) zero (c ∷ fmt) args a b = absurd (omega (arith, b))
format-agree (suc n) (suc m) fmt args a b =
    round-agree (format n) (format m) fmt args
      (λ s r h. format-agree n m s r (omega (arith, a, h)) (omega (arith, b, h)))

-- More fuel changes nothing.
kvprintf-format :
    (n : ℕ) (fmt : List ℕ) (args : List Arg)
    → length fmt ≤ n
    → format n fmt args ≡ kvprintf fmt args
unfolding kvprintf
kvprintf-format n fmt args h = format-agree n (length fmt) fmt args h (omega arith)
