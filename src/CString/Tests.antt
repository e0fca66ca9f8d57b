-- ===== src/CString/Tests.antt =====
-- The string functions on concrete bytes, and the theorems applied to them.
use lighth_os.CString.{
  memcpy, copy_down, memmove, strncpy, strcpy, strcat, strchr, strcmp, strncmp, is_zero,
}
use lighth_os.CString.Memory.{Moved, memmove-Moved}
use lighth_os.CString.Text.{text, strcmp_lem, strncmp_lem}
use lighth_os.CString.Copy.{strncpy_lem, text-strcat, Found, strchr-Found}
use lighth_os.Common.{
  ℕ, ◌-◌, ◌≡◌, refl, ◌↔◌, true, List, [], ◌∷◌, ◌++◌, take, drop, length, replicate, arith,
}

-- "cat", "car" and room for more
abbrev cat : List ℕ
cat = 99 ∷ 97 ∷ 116 ∷ 0 ∷ 7 ∷ 7 ∷ 7 ∷ 7 ∷ []

abbrev car : List ℕ
car = 99 ∷ 97 ∷ 114 ∷ 0 ∷ []

-- overlapping ranges, both ways
up_run : memmove 2 0 4 cat ≡ 99 ∷ 97 ∷ 99 ∷ 97 ∷ 116 ∷ 0 ∷ 7 ∷ 7 ∷ []
unfolding memmove memcpy copy_down
up_run = refl

down_run : memmove 0 1 4 cat ≡ 97 ∷ 116 ∷ 0 ∷ 7 ∷ 7 ∷ 7 ∷ 7 ∷ 7 ∷ []
unfolding memmove memcpy copy_down
down_run = refl

strcat_run : strcat cat car ≡ 99 ∷ 97 ∷ 116 ∷ 99 ∷ 97 ∷ 114 ∷ 0 ∷ 7 ∷ []
unfolding strcat strcpy
strcat_run = refl

memmove-Moved_example : Moved 2 0 4 cat (memmove 2 0 4 cat)
memmove-Moved_example = memmove-Moved 2 0 4 cat (omega arith)

strcmp_test : (is_zero (strcmp cat car) ≡ true) ↔ (text cat ≡ text car)
strcmp_test = strcmp_lem cat car

strncmp_test : (is_zero (strncmp cat car 2) ≡ true) ↔ (take 2 (text cat) ≡ take 2 (text car))
strncmp_test = strncmp_lem cat car 2

strncpy_test :
    strncpy cat car 6 ≡ take 6 (text car) ++ replicate (6 - length (text car)) 0 ++ drop 6 cat
strncpy_test = strncpy_lem cat car 6 (omega arith)

text-strcat_test : text (strcat cat car) ≡ text cat ++ text car
unfolding text
text-strcat_test = text-strcat cat car (omega arith)

strchr-Found_test : Found cat 97 (strchr cat 97)
strchr-Found_test = strchr-Found cat 97 (omega arith) (omega arith)
