-- ===== src/Pmm/Frames.antt =====
-- What the accessors of the bitmap do to the bit of each frame.
use Prim.Native.Nat.{bit_and, bit_or}
use lighth_os.Common.{
  ℕ, ◌/◌, ◌%◌, ◌<◌, ◌≡◌, refl, ◌∙◌, ◌+◌, ◌≤◌, zero, suc, ℕ_discrete, if◌then◌else◌, Bool, true,
  false, ◌&&◌, ◌||◌, not, List, arith, ◌==◌, ne→==, get_or, length, get_or-set_self, get_or-set_ne,
  length-set,
}
use lighth_os.Common.Bits.{bit, one_bit, all_but, bit-bit_or, bit-bit_and, bit-one_bit, bit-all_but}
use lighth_os.Pmm.{bitmap_set, bitmap_clear, bitmap_test}

same_place : (f g : ℕ) → f / 32 ≡ g / 32 → (g % 32 == f % 32) ≡ (g == f)
same_place f g e = ground arith

or_comm : (a b : Bool) → (a || b) ≡ (b || a)
or_comm a b = ground arith

and_comm : (a b : Bool) → (a && b) ≡ (b && a)
and_comm a b = ground arith

module _ (bitmap : List ℕ) (f g : ℕ) (fits : f / 32 < length bitmap) where
  abbrev word : ℕ
  word = get_or bitmap (f / 32) 0

  pub test-set : bitmap_test (bitmap_set f bitmap) g ≡ ((g == f) || bitmap_test bitmap g)
  unfolding bitmap_test bitmap_set
  test-set = elim (ℕ_discrete (f / 32) (g / 32)) [
    | yes e ↦
        rw
          (
            ← e,
            get_or-set_self bitmap (f / 32) (bit_or word (one_bit (f % 32))) 0 fits,
            bit-bit_or word (one_bit (f % 32)) (g % 32),
            bit-one_bit (f % 32) (g % 32) (omega arith) (omega arith),
            same_place f g e,
          )
          (or_comm (bit word (g % 32)) (g == f))
    | no ne ↦
        rw
          (
            get_or-set_ne bitmap (f / 32) (g / 32) (bit_or word (one_bit (f % 32))) 0 ne,
            ne→== g f (λ e. ne (omega arith)),
          )
          refl
  ]

  pub test-clear : bitmap_test (bitmap_clear f bitmap) g ≡ (not (g == f) && bitmap_test bitmap g)
  unfolding bitmap_test bitmap_clear
  test-clear = elim (ℕ_discrete (f / 32) (g / 32)) [
    | yes e ↦
        rw
          (
            ← e,
            get_or-set_self bitmap (f / 32) (bit_and word (all_but (f % 32))) 0 fits,
            bit-bit_and word (all_but (f % 32)) (g % 32),
            bit-all_but (f % 32) (g % 32) (omega arith) (omega arith),
            same_place f g e,
          )
          (and_comm (bit word (g % 32)) (not (g == f)))
    | no ne ↦
        rw
          (
            get_or-set_ne bitmap (f / 32) (g / 32) (bit_and word (all_but (f % 32))) 0 ne,
            ne→== g f (λ e. ne (omega arith)),
          )
          refl
  ]

pub length-bitmap_set : (f : ℕ) (bitmap : List ℕ) → length (bitmap_set f bitmap) ≡ length bitmap
unfolding bitmap_set
length-bitmap_set f bitmap = length-set bitmap (f / 32) _

pub length-bitmap_clear : (f : ℕ) (bitmap : List ℕ) → length (bitmap_clear f bitmap) ≡ length bitmap
unfolding bitmap_clear
length-bitmap_clear f bitmap = length-set bitmap (f / 32) _

-- how many of the first `n` frames are used
unfoldable pub count_used : ℕ → List ℕ → ℕ
unfolding bitmap_test
count_used zero bitmap = 0
count_used (suc n) bitmap = (if bitmap_test bitmap n then 1 else 0) + count_used n bitmap

pub count_used-le : (n : ℕ) (bitmap : List ℕ) → count_used n bitmap ≤ n
unfolding count_used
count_used-le zero bitmap = omega arith
count_used-le (suc n) bitmap = ground (arith, count_used-le n bitmap)

pub count_used-same :
    (n : ℕ) (a b : List ℕ)
    → ((g : ℕ) → g < n → bitmap_test a g ≡ bitmap_test b g)
    → count_used n a ≡ count_used n b
unfolding count_used
count_used-same zero a b h = refl
count_used-same (suc n) a b h =
    ground (arith, h n, count_used-same n a b (λ g l. h g (omega arith)))

-- one more bit set below `n`
pub count_used-add :
    (n f : ℕ) (a b : List ℕ)
    → f < n
    → bitmap_test a f ≡ false
    → ((g : ℕ) → bitmap_test b g ≡ ((g == f) || bitmap_test a g))
    → count_used n b ≡ count_used n a + 1
unfolding count_used
count_used-add zero f a b l e h = absurd (omega arith)
count_used-add (suc n) f a b l e h = elim (ℕ_discrete n f) [
  | yes q ↦
      let below = count_used-same n b a (λ g k. h g ∙ rw (ne→== g f (omega arith)) refl) in
      ground (arith, h n, below)
  | no q ↦ ground (arith, h n, count_used-add n f a b (omega arith) e h)
]

pub count_used-full :
    (n : ℕ) (bitmap : List ℕ)
    → ((g : ℕ) → g < n → bitmap_test bitmap g ≡ true)
    → count_used n bitmap ≡ n
unfolding count_used
count_used-full zero bitmap h = refl
count_used-full (suc n) bitmap h =
    ground (arith, h n, count_used-full n bitmap (λ g l. h g (omega arith)))
