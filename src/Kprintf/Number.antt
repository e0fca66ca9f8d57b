-- ===== src/Kprintf/Number.antt =====
-- src/lib/kprintf.c: the numbers that print_u prints.
use lighth_os.Kprintf.{digit, digits, all_digits, emit, print_u}
use lighth_os.Common.{
  ℕ, zero, suc, ◌+◌, ◌-◌, ◌*◌, ◌/◌, ◌%◌, ◌^◌, ◌≤◌, ◌<◌, ◌≡◌, ◌≢◌, refl, ap, sym, subst, ◌∙◌, Option,
  none, some, List, [], ◌∷◌, ◌++◌, length, get_or, replicate, ◌==◌, ltb, if◌then◌else◌, arith, ◌⊎◌,
  inl, inr, Bool-cases, ==→eq, ==→ne, ne→==,
}

-- the number of a digit, and that of a text in a base, read from the left
abbrev pub digit_value : ℕ → ℕ
digit_value c = if ltb c 58 then c - 48 else c - 87

unfoldable pub read_number : ℕ → ℕ → List ℕ → ℕ
read_number base n [] = n
read_number base n (c ∷ s) = read_number base (n * base + digit_value c) s

-- the number of digits with the lowest first
unfoldable low_value : ℕ → List ℕ → ℕ
low_value base [] = 0
low_value base (c ∷ s) = digit_value c + base * low_value base s

abbrev pub IsBase : ℕ → Type 0
IsBase base = (base ≡ 10) ⊎ (base ≡ 16)

divides :
    (base v : ℕ)
    → IsBase base
    → (digit_value (digit (v % base)) + base * (v / base) ≡ v) × (v / base ≤ v / 2)
unfolding digit
divides base v (inl e) = rw e (ground arith, omega arith)
divides base v (inr e) = rw e (ground arith, omega arith)

low_value-digits : (n base v : ℕ) → IsBase base → v < 2 ^ n → low_value base (digits n base v) ≡ v
unfolding low_value digits
low_value-digits zero base v b h = omega (arith, h)
low_value-digits (suc n) base v b h = elim (Bool-cases (v == 0)) [
  | inl z ↦ rw z (sym (==→eq v 0 z))
  | inr z ↦ rw z (
      ap (λ x. digit_value (digit (v % base)) + base * x)
        (low_value-digits n base (v / base) b (omega (arith, h, (divides base v b).1)))
      ∙ (divides base v b).0)
]

-- The loop that prints from the end turns the digits around.
read-emit :
    (base : ℕ) (s out : List ℕ)
    → read_number base 0 (emit s out) ≡ read_number base (low_value base s) out
unfolding read_number low_value emit
read-emit base [] out = refl
read-emit base (c ∷ s) out =
    read-emit base s (c ∷ out) ∙ ap (λ x. read_number base x out) (swap (low_value base s))
  where
    swap : (v : ℕ) → v * base + digit_value c ≡ digit_value c + base * v
    swap v = grind arith

emit-append : (a b out : List ℕ) → emit (a ++ b) out ≡ emit b (emit a out)
unfolding emit
emit-append [] b out = refl
emit-append (c ∷ a) b out = emit-append a b (c ∷ out)

emit-replicate : (n c : ℕ) (out : List ℕ) → emit (replicate n c) out ≡ replicate n c ++ out
unfolding emit replicate
emit-replicate zero c out = refl
emit-replicate (suc n) c out = emit-replicate n c (c ∷ out) ∙ shift n
  where
    shift : (k : ℕ) → replicate k c ++ (c ∷ out) ≡ c ∷ (replicate k c ++ out)
    shift zero = refl
    shift (suc k) = ap (λ x. c ∷ x) (shift k)

-- the last of a list, or what stands before it
unfoldable top : ℕ → List ℕ → ℕ
top d [] = d
top d (c ∷ s) = top c s

emit-top : (s out : List ℕ) (d : ℕ) → get_or (emit s (d ∷ out)) 0 0 ≡ top d s
unfolding emit top
emit-top [] out d = refl
emit-top (c ∷ s) out d = emit-top s (d ∷ out) c

emit-first : (s : List ℕ) → get_or (emit s []) 0 0 ≡ top 0 s
unfolding emit top
emit-first [] = refl
emit-first (c ∷ s) = emit-top s [] c

digits-zero : (n base : ℕ) → digits n base 0 ≡ []
unfolding digits
digits-zero zero base = refl
digits-zero (suc n) base = refl

digits_some : (n base v : ℕ) → v ≢ 0 → 0 < length (digits (suc n) base v)
unfolding digits
digits_some n base v ne = rw (ne→== v 0 ne) (omega arith)

last_digit : (base v : ℕ) → IsBase base → v ≢ 0 → v / base ≡ 0 → digit (v % base) ≢ 48
unfolding digit
last_digit base v (inl e) ne z h = ne (
    ground (
      arith,
      e,
      z,
      h,
      ap (λ b. v / b) (sym e) ∙ z,
      ap (λ b. if ltb (v % b) 10 then 48 + v % b else 87 + v % b) (sym e) ∙ h,
    ))
last_digit base v (inr e) ne z h = ne (
    ground (
      arith,
      e,
      z,
      h,
      ap (λ b. v / b) (sym e) ∙ z,
      ap (λ b. if ltb (v % b) 10 then 48 + v % b else 87 + v % b) (sym e) ∙ h,
    ))

top-digits : (n base v d : ℕ) → IsBase base → v < 2 ^ n → v ≢ 0 → top d (digits n base v) ≢ 48
unfolding digits top
top-digits zero base v d b h ne = absurd (omega (arith, h, ne))
top-digits (suc n) base v d b h ne = rw (ne→== v 0 ne) (elim (Bool-cases (v / base == 0)) [
  | inl z ↦
      subst (λ x. top (digit (v % base)) (digits n base x) ≢ 48) (sym (==→eq (v / base) 0 z))
        (subst (λ l. top (digit (v % base)) l ≢ 48) (sym (digits-zero n base))
          (last_digit base v b ne (==→eq (v / base) 0 z)))
  | inr z ↦
      top-digits n base (v / base) (digit (v % base)) b (omega (arith, h, (divides base v b).1))
        (==→ne (v / base) 0 z)
])

-- A number as it is printed: the padding and a numeral of one digit at least, which reads as the number and starts with 0
-- for 0 only.
pub record Printed (val base width pad : ℕ) (out : List ℕ) : Type 0 where
  pub numeral : List ℕ
  pub some_digit : 0 < length numeral
  pub shape : out ≡ replicate (width - length numeral) pad ++ numeral
  pub reads : read_number base 0 numeral ≡ val
  pub short : val ≢ 0 → get_or numeral 0 0 ≢ 48

length-emit : (s out : List ℕ) → length (emit s out) ≡ length s + length out
unfolding emit
length-emit [] out = omega arith
length-emit (c ∷ s) out = omega (arith, length-emit s (c ∷ out))

-- What print_u prints: nothing that is defined for a width of more than its buffer.
pub Outcome : ℕ → ℕ → ℕ → ℕ → Option (List ℕ) → Type 0
Outcome val base width pad none = 32 < width
Outcome val base width pad (some out) = Printed val base width pad out

module _ (val base width pad : ℕ) (b : IsBase base) (small : val < 2 ^ 64) where
  zero_or :
      ((val ≡ 0) × (all_digits base val ≡ 48 ∷ []))
      ⊎ ((val ≢ 0) × (all_digits base val ≡ digits 64 base val))
  unfolding all_digits
  zero_or = elim (Bool-cases (val == 0)) [
    | inl z ↦ inl (==→eq val 0 z, rw z refl)
    | inr z ↦ inr (==→ne val 0 z, rw z refl)
  ]

  value_of : low_value base (all_digits base val) ≡ val
  unfolding low_value
  value_of = elim zero_or [
    | inl (z, e) ↦ ap (low_value base) e ∙ grind (arith, z)
    | inr (ne, e) ↦ ap (low_value base) e ∙ low_value-digits 64 base val b small
  ]

  digit_there : 0 < length (all_digits base val)
  digit_there = elim zero_or [
    | inl (z, e) ↦ rw e (omega arith)
    | inr (ne, e) ↦ rw e (digits_some 63 base val ne)
  ]

  first_digit : val ≢ 0 → get_or (emit (all_digits base val) []) 0 0 ≢ 48
  first_digit ne = elim zero_or [
    | inl (z, e) ↦ absurd (ne z)
    | inr (n, e) ↦
        subst (λ x. x ≢ 48) (sym (emit-first (all_digits base val) ∙ ap (top 0) e))
          (top-digits 64 base val 0 b small ne)
  ]

  -- For a number of 64 bits in base 10 or 16, print_u writes behind its buffer only if the
  -- width is more than 32; else it prints the padding that the width asks for and a numeral
  -- of one digit at least, which reads as the number in that base and starts with 0 for 0
  -- only.
  pub print_u-Printed : Outcome val base width pad (print_u val base width pad)
  unfolding print_u Outcome read_number
  print_u-Printed = elim (Bool-cases (ltb 32 width)) [
    | inl w ↦ rw w (ground (arith, w))
    | inr w ↦ rw w (record {
      numeral = emit ds [];
      some_digit = omega (arith, length-emit ds [], digit_there);
      shape =
          emit-append ds (replicate (width - length ds) pad) []
          ∙ emit-replicate (width - length ds) pad (emit ds [])
          ∙ ap (λ n. replicate (width - n) pad ++ emit ds [])
              (sym (length-emit ds [] ∙ omega arith));
      reads = read-emit base ds [] ∙ value_of;
      short = first_digit;
    })
  ]
    where
      ds : List ℕ
      ds = all_digits base val
