-- ===== src/Common/Bits.antt =====
-- The bits of a word, and what `|` and `&` do to them.
use Prim.Native.Nat.{
  ℕ, zero, suc, ◌+◌, ◌-◌, ◌*◌, ◌/◌, ◌%◌, ◌^◌, ◌≤◌, ◌<◌, max, min, digits, bit_and, bit_or,
  bit_and-bitwise, bit_or-bitwise,
}
use mathlib.Core.Path.{◌≡◌, refl, sym, ap, ◌∙◌}
use mathlib.Core.Bool.{Bool, true, false, not, ◌&&◌, ◌||◌, false≢true}
use native.Mathlib.Omega.{arith}
use native.Mathlib.Nat.{div-div-eq-div-mul, pow-succ', le_refl}
use lighth_os.Common.Tests.{◌==◌, ==_self, ==→eq, ne→==, Bool-cases}
use mathlib.Core.Logic.{inl, inr}

-- `(w >> i) & 1`
unfoldable pub bit : ℕ → ℕ → Bool
bit w i = w / 2 ^ i % 2 == 1

bit_at : ℕ → ℕ → Bool
bit_at zero w = w % 2 == 1
bit_at (suc i) w = bit_at i (w / 2)

bit-bit_at : (i w : ℕ) → bit w i ≡ bit_at i w
unfolding bit bit_at
bit-bit_at zero w = ap (λ v. v % 2 == 1) {x = w / 1} {y = w} (omega arith)
bit-bit_at (suc i) w = rw (pow-succ' 2 i, ← div-div-eq-div-mul w 2 (2 ^ i)) (bit-bit_at i (w / 2))

bit_at-zero : (i : ℕ) → bit_at i 0 ≡ false
unfolding bit_at
bit_at-zero zero = refl
bit_at-zero (suc i) = bit_at-zero i

-- how a digit-wise operation shows in the bits
bit_at_step : (i w x d : ℕ) → d < 2 → w ≡ x * 2 + d → bit_at (suc i) w ≡ bit_at i x
unfolding bit_at
bit_at_step i w x d h e = ap (bit_at i) (omega arith)

low_max : (x u v : ℕ) → ((x * 2 + max (u % 2) (v % 2)) % 2 == 1) ≡ ((u % 2 == 1) || (v % 2 == 1))
low_max x u v = ground arith

low_min : (x u v : ℕ) → ((x * 2 + min (u % 2) (v % 2)) % 2 == 1) ≡ ((u % 2 == 1) && (v % 2 == 1))
low_min x u v = ground arith

bit_at-or_digits :
    (i n a b : ℕ) → a ≤ n → bit_at i (digits (λ y. y) max n a b) ≡ (bit_at i a || bit_at i b)
unfolding bit_at
bit_at-or_digits i zero zero b h = rw (bit_at-zero i)
bit_at-or_digits i zero (suc a) b h = absurd (omega arith)
bit_at-or_digits i (suc n) zero b h = rw (bit_at-zero i)
bit_at-or_digits zero (suc n) (suc a) b h =
    low_max (digits (λ y. y) max n (suc a / 2) (b / 2)) (suc a) b
bit_at-or_digits (suc i) (suc n) (suc a) b h =
    bit_at_step i _ (digits (λ y. y) max n (suc a / 2) (b / 2)) (max (suc a % 2) (b % 2))
      (omega arith) refl
    ∙ bit_at-or_digits i n (suc a / 2) (b / 2) (omega arith)

bit_at-and_digits :
    (i n a b : ℕ) → a ≤ n → bit_at i (digits (λ y. 0) min n a b) ≡ (bit_at i a && bit_at i b)
unfolding bit_at
bit_at-and_digits i zero zero b h = rw (bit_at-zero i)
bit_at-and_digits i zero (suc a) b h = absurd (omega arith)
bit_at-and_digits i (suc n) zero b h = rw (bit_at-zero i)
bit_at-and_digits zero (suc n) (suc a) b h =
    low_min (digits (λ y. 0) min n (suc a / 2) (b / 2)) (suc a) b
bit_at-and_digits (suc i) (suc n) (suc a) b h =
    bit_at_step i _ (digits (λ y. 0) min n (suc a / 2) (b / 2)) (min (suc a % 2) (b % 2))
      (omega arith) refl
    ∙ bit_at-and_digits i n (suc a / 2) (b / 2) (omega arith)

pub bit-bit_or : (a b i : ℕ) → bit (bit_or a b) i ≡ (bit a i || bit b i)
bit-bit_or a b i =
    rw (bit-bit_at i (bit_or a b), bit-bit_at i a, bit-bit_at i b, bit_or-bitwise a b)
      (bit_at-or_digits i a a b (le_refl a))

pub bit-bit_and : (a b i : ℕ) → bit (bit_and a b) i ≡ (bit a i && bit b i)
bit-bit_and a b i =
    rw (bit-bit_at i (bit_and a b), bit-bit_at i a, bit-bit_at i b, bit_and-bitwise a b)
      (bit_at-and_digits i a a b (le_refl a))

and_false : (b : Bool) → (b && false) ≡ false
and_false true = refl
and_false false = refl

-- Every value of a small range, by evaluation.
check_below : ℕ → (ℕ → Bool) → Bool
check_below zero p = true
check_below (suc n) p = p n && check_below n p

check_below-true : (n : ℕ) (p : ℕ → Bool) (x : ℕ) → check_below n p ≡ true → x < n → p x ≡ true
unfolding check_below
check_below-true zero p x h l = absurd (omega arith)
check_below-true (suc n) p x h l = ground (arith, check_below-true n p x)

abbrev pub same : Bool → Bool → Bool
same true b = b
same false b = not b

pub same-eq : (a b : Bool) → same a b ≡ true → a ≡ b
same-eq true true h = refl
same-eq true false h = cc
same-eq false true h = cc
same-eq false false h = refl

-- `1u << k` and `~(1u << k)`
abbrev pub one_bit : ℕ → ℕ
one_bit k = 2 ^ k % 2 ^ 32

abbrev pub all_but : ℕ → ℕ
all_but k = 2 ^ 32 - 1 - one_bit k

one_bit_table : check_below 32 (λ k. check_below 32 (λ i. same (bit (one_bit k) i) (i == k))) ≡ true
unfolding check_below bit
one_bit_table = refl

all_but_table :
    check_below 32 (λ k. check_below 32 (λ i. same (bit (all_but k) i) (not (i == k)))) ≡ true
unfolding check_below bit
all_but_table = refl

all_ones_table : check_below 32 (λ i. bit 0xffff_ffff i) ≡ true
unfolding check_below bit
all_ones_table = refl

pub bit-all_ones : (i : ℕ) → i < 32 → bit 0xffff_ffff i ≡ true
bit-all_ones i h = check_below-true 32 _ i all_ones_table h

pub bit-one_bit : (k i : ℕ) → k < 32 → i < 32 → bit (one_bit k) i ≡ (i == k)
bit-one_bit k i hk hi =
    same-eq _ _ (check_below-true 32 _ i (check_below-true 32 _ k one_bit_table hk) hi)

pub bit-all_but : (k i : ℕ) → k < 32 → i < 32 → bit (all_but k) i ≡ not (i == k)
bit-all_but k i hk hi =
    same-eq _ _ (check_below-true 32 _ i (check_below-true 32 _ k all_but_table hk) hi)

bit_at-pow : (i k : ℕ) → bit_at i (2 ^ k) ≡ (i == k)
unfolding bit_at
bit_at-pow zero zero = refl
bit_at-pow zero (suc k) = ground (arith, pow-succ' 2 k)
bit_at-pow (suc i) zero = bit_at-zero i ∙ ground arith
bit_at-pow (suc i) (suc k) =
    ap (bit_at i) {y = 2 ^ k} (omega (arith, pow-succ' 2 k)) ∙ bit_at-pow i k ∙ ground arith

pub bit-zero : (i : ℕ) → bit 0 i ≡ false
bit-zero i = bit-bit_at i 0 ∙ bit_at-zero i

zero_of_bits : (n w : ℕ) → w ≤ n → ((i : ℕ) → bit_at i w ≡ false) → w ≡ 0
unfolding bit_at
zero_of_bits zero w h e = omega arith
zero_of_bits (suc n) w h e =
    let low : (w % 2 == 1) ≡ false = e 0 in
    let high = zero_of_bits n (w / 2) (omega arith) (λ i. e (suc i)) in ground arith

-- `!(w & (1u << k))`
pub clear-bit : (w k : ℕ) → (bit_and w (2 ^ k) == 0) ≡ not (bit w k)
clear-bit w k = elim (Bool-cases (bit w k)) [
  | inl e ↦ rw e (ne→== _ 0 λ z. nonzero e z)
  | inr e ↦ rw e (
      let z : bit_and w (2 ^ k) ≡ 0 = zero_of_bits (bit_and w (2 ^ k)) _ (le_refl _) (off e) in
      rw z refl)
]
  where
    here : (i : ℕ) → bit_at i (bit_and w (2 ^ k)) ≡ (bit w i && (i == k))
    here i =
        rw
          (
            ← bit-bit_at i (bit_and w (2 ^ k)),
            bit-bit_and w (2 ^ k) i,
            bit-bit_at i (2 ^ k),
            bit_at-pow i k,
          )
          refl

    nonzero : bit w k ≡ true → bit_and w (2 ^ k) ≡ 0 → ⊥
    nonzero e z =
        let on : bit_at k (bit_and w (2 ^ k)) ≡ true = here k ∙ rw (e, ==_self k) refl in
        let off' : bit_at k 0 ≡ true = rw z at on in false≢true (sym (bit_at-zero k) ∙ off')

    off : bit w k ≡ false → (i : ℕ) → bit_at i (bit_and w (2 ^ k)) ≡ false
    off e i = elim (Bool-cases (i == k)) [
      | inl q ↦ here i ∙ (let eq : i ≡ k = ==→eq i k q in rw eq (rw e refl))
      | inr q ↦ here i ∙ rw q (and_false (bit w i))
    ]
