-- ===== src/Kprintf.antt =====
-- src/lib/kprintf.c: the formats of kprintf and serial_printf, as the characters that go to kputchar. A
-- result of none stands for what the language does not define: an argument that is not there or of
-- another kind, and a store behind the buffer of print_u.
pub mod Number
mod Rounds
mod Tests
use lighth_os.BootLog.{BootLog, puts}
use lighth_os.Common.{
  ℕ, zero, suc, ◌+◌, ◌-◌, ◌*◌, ◌/◌, ◌%◌, ◌^◌, Bool, true, false, ◌&&◌, not, Option, none, some,
  List, [], ◌∷◌, ◌++◌, length, get_or, drop, replicate, ◌==◌, ltb, leb, ◌>>=◌, if◌then◌else◌,
}

-- an argument: a word of 64 bits, or a text, none for a null pointer
pub data Arg : Type 0 where
  word : ℕ → Arg
  text : Option (List ℕ) → Arg

-- `dig`
unfoldable pub digit : ℕ → ℕ
digit d = if ltb d 10 then 48 + d else 87 + d

-- the digits of print_u, the lowest first, on fuel
unfoldable pub digits : ℕ → ℕ → ℕ → List ℕ
digits zero base val = []
digits (suc n) base val =
    let rest = digits n base (val / base) in if val == 0 then [] else digit (val % base) ∷ rest

-- `buf[i++] = '0'` for 0, and the other digits; 64 rounds are enough for 64 bits.
unfoldable pub all_digits : ℕ → ℕ → List ℕ
all_digits base val = if val == 0 then 48 ∷ [] else digits 64 base val

-- the last loop: the buffer from its end
unfoldable pub emit : List ℕ → List ℕ → List ℕ
emit [] out = out
emit (c ∷ buf) out = emit buf (c ∷ out)

unfoldable pub print_u : ℕ → ℕ → ℕ → ℕ → Option (List ℕ)
print_u val base width pad =
    let ds = all_digits base val in
    if ltb 32 width then none else some (emit (ds ++ replicate (width - length ds) pad) [])

-- the width of a format, and what follows
unfoldable pub read_width : List ℕ → ℕ → ℕ × List ℕ
read_width [] width = (width, [])
read_width (c ∷ fmt) width =
    let rest = read_width fmt (width * 10 + (c - 48)) in
    if leb 48 c && leb c 57 then rest else (width, c ∷ fmt)

-- a format behind its `%`, up to the letter of the conversion
pub record Conversion : Type 0 where
  pub width : ℕ
  pub pad : ℕ
  pub is_long : Bool
  pub rest : List ℕ

unfoldable pub read_long : ℕ → ℕ → List ℕ → Conversion
read_long width pad fmt =
    if get_or fmt 0 0 == 108
    then record {
      width = width;
      pad = pad;
      is_long = true;
      rest = if get_or fmt 1 0 == 108 then drop 2 fmt else drop 1 fmt;
    }
    else record { width = width; pad = pad; is_long = false; rest = fmt }

unfoldable pub read_conversion : List ℕ → Conversion
read_conversion fmt =
    let pad = if get_or fmt 0 0 == 48 then 48 else 32 in
    let r = read_width (if get_or fmt 0 0 == 48 then drop 1 fmt else fmt) 0 in read_long r.0 pad r.1

-- va_arg
unfoldable pub word_arg : List Arg → Option (ℕ × List Arg)
word_arg [] = none
word_arg (word w ∷ args) = some (w, args)
word_arg (text t ∷ args) = none

unfoldable pub text_arg : List Arg → Option (Option (List ℕ) × List Arg)
text_arg [] = none
text_arg (word w ∷ args) = none
text_arg (text t ∷ args) = some (t, args)

-- the bits of an argument that are read
unfoldable pub cut : Bool → ℕ → ℕ
cut is_long w = if is_long then w % 2 ^ 64 else w % 2 ^ 32

-- the sign and the magnitude of a word of 2^bits numbers
unfoldable pub print_d : ℕ → ℕ → ℕ → ℕ → Option (List ℕ)
print_d half w width pad =
    if leb half w
    then (print_u (half + half - w) 10 width pad >>= λ out. some (45 ∷ out))
    else print_u w 10 width pad

unfoldable pub null_text : Option (List ℕ) → List ℕ
null_text none = 40 ∷ 110 ∷ 117 ∷ 108 ∷ 108 ∷ 41 ∷ []
null_text (some s) = s

-- the switch of kvprintf, for the letter `c`
unfoldable pub convert : ℕ → Conversion → List Arg → Option (List ℕ × List Arg)
convert c v args =
    if c == b'd'
    then (do
      (w, rest) ← word_arg args
      out ← print_d (if v.is_long then 2 ^ 63 else 2 ^ 31) (cut v.is_long w) v.width v.pad
      some (out, rest))
    else if c == b'u'
    then (do
      (w, rest) ← word_arg args
      out ← print_u (cut v.is_long w) 10 v.width v.pad
      some (out, rest))
    else if c == b'x'
    then (do
      (w, rest) ← word_arg args
      out ← print_u (cut v.is_long w) 16 v.width v.pad
      some (out, rest))
    else if c == b'p'
    then (do
      (w, rest) ← word_arg args
      out ← print_u (w % 2 ^ 64) 16 16 48
      some (48 ∷ 120 ∷ out, rest))
    else if c == b's'
    then (do (s, rest) ← text_arg args; some (null_text s, rest))
    else if c == b'c'
    then (do (w, rest) ← word_arg args; some ((w % 256) ∷ [], rest))
    else if c == b'%'
    then some (37 ∷ [], args)
    else some (37 ∷ c ∷ [], args)

-- a round of the loop of kvprintf, before the rounds behind it
unfoldable pub round : (List ℕ → List Arg → Option (List ℕ)) → List ℕ → List Arg → Option (List ℕ)
round next fmt args =
    let c = get_or fmt 0 0 in
    let v = read_conversion (drop 1 fmt) in
    if c == 0
    then some []
    else if not (c == 37)
    then (next (drop 1 fmt) args >>= λ out. some (c ∷ out))
    else if get_or v.rest 0 0 == 0
    then some []
    else (do
      (out, args') ← convert (get_or v.rest 0 0) v args
      more ← next (drop 1 v.rest) args'
      some (out ++ more))

-- the loop, on fuel
unfoldable pub format : ℕ → List ℕ → List Arg → Option (List ℕ)
format zero fmt args = some []
format (suc n) fmt args = round (format n) fmt args

unfoldable pub kvprintf : List ℕ → List Arg → Option (List ℕ)
kvprintf fmt args = format (length fmt) fmt args

-- `kprintf` and `serial_printf`, as the boot log sees them
unfoldable pub kprintf : List ℕ → List Arg → BootLog → Option BootLog
kprintf fmt args log = kvprintf fmt args >>= λ out. some (puts out log)
