-- ===== src/Kprintf/Tests.antt =====
-- Numbers and a format, and what is printed of them.
use lighth_os.Kprintf.{
  word, text, digit, digits, all_digits, emit, print_u, read_width, read_long, read_conversion,
  word_arg, text_arg, cut, print_d, null_text, convert, round, format, kvprintf,
}
use lighth_os.Kprintf.Number.{Outcome, print_u-Printed}
use lighth_os.Common.{◌-◌, ◌^◌, ◌≡◌, refl, none, some, [], ◌∷◌, replicate, arith, inr}

print_u-Printed_example : Outcome 0x1f 16 4 48 (print_u 0x1f 16 4 48)
print_u-Printed_example = print_u-Printed 0x1f 16 4 48 (inr refl) (omega arith)

-- "%04x|%d|%s" of 31, -7 and a null pointer
format_test :
    kvprintf
      (37 ∷ 48 ∷ 52 ∷ 120 ∷ 124 ∷ 37 ∷ 100 ∷ 124 ∷ 37 ∷ 115 ∷ [])
      (word 31 ∷ word (2 ^ 32 - 7) ∷ text none ∷ [])
    ≡ some (48 ∷ 48 ∷ 49 ∷ 102 ∷ 124 ∷ 45 ∷ 55 ∷ 124 ∷ 40 ∷ 110 ∷ 117 ∷ 108 ∷ 108 ∷ 41 ∷ [])
unfolding kvprintf format round convert read_conversion read_width read_long word_arg text_arg cut
    print_d print_u all_digits digits digit emit null_text replicate
format_test = refl

-- A width of more than the buffer writes behind it.
wide_test : kvprintf (37 ∷ 51 ∷ 51 ∷ 117 ∷ []) (word 1 ∷ []) ≡ none
unfolding kvprintf format round convert read_conversion read_width read_long word_arg cut print_u
    all_digits digits digit
wide_test = refl
