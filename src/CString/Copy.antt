-- ===== src/CString/Copy.antt =====
-- What the copying functions of src/lib/string.c leave in the target, and what strchr finds.
use lighth_os.CString.{fill_zero, strncpy, strcpy, strcat, strchr}
use lighth_os.CString.Text.{text, text_nul, text_cons}
use lighth_os.Common.{
  append_assoc, length-replicate, take-all, ℕ, zero, suc, ◌+◌, ◌-◌, ◌%◌, ◌<◌, ◌≤◌, ◌≡◌, ◌≢◌, refl,
  ap, ◌∙◌, false, List, [], ◌∷◌, ◌++◌, ◌==◌, get_or, take, drop, length, replicate, Option, none,
  some, Bool-cases, ==→eq, ==→ne, ne→==, inl, inr, arith,
}

fill_zero_lem :
    (dest : List ℕ) (n : ℕ) → n ≤ length dest → fill_zero dest n ≡ replicate n 0 ++ drop n dest
unfolding fill_zero replicate
fill_zero_lem [] zero h = refl
fill_zero_lem [] (suc n) h = absurd (omega arith)
fill_zero_lem (d ∷ dest) zero h = refl
fill_zero_lem (d ∷ dest) (suc n) h = ap (λ l. 0 ∷ l) (fill_zero_lem dest n (omega arith))

zero_sub : (n : ℕ) → 0 - n ≡ 0
zero_sub n = omega arith

sub_zero : (n : ℕ) → n - 0 ≡ n
sub_zero n = omega arith

zero_add : (n : ℕ) → 0 + n ≡ n
zero_add n = omega arith

suc_add : (m n : ℕ) → suc m + n ≡ suc (m + n)
suc_add m n = omega arith

suc_sub : (m n : ℕ) → suc m - suc n ≡ m - n
suc_sub m n = omega arith

-- strncpy fills exactly `n` bytes: the text of the source, cut off after `n` bytes, and then zeros;
-- what lies behind stays. The target must have `n` bytes.
pub strncpy_lem :
    (dest src : List ℕ) (n : ℕ)
    → n ≤ length dest
    → strncpy dest src n ≡ take n (text src) ++ replicate (n - length (text src)) 0 ++ drop n dest
unfolding strncpy text replicate
strncpy_lem [] src zero h = rw (zero_sub (length (text src))) refl
strncpy_lem [] src (suc n) h = absurd (omega arith)
strncpy_lem (d ∷ dest) src zero h = rw (zero_sub (length (text src))) refl
strncpy_lem (d ∷ dest) [] (suc n) h = rw (sub_zero (suc n)) (fill_zero_lem (d ∷ dest) (suc n) h)
strncpy_lem (d ∷ dest) (c ∷ src) (suc n) h = elim (Bool-cases (c == 0)) [
  | inl e ↦ rw e (rw (sub_zero (suc n)) (fill_zero_lem (d ∷ dest) (suc n) h))
  | inr e ↦
      rw e (
        rw (suc_sub n (length (text src))) (ap (λ l. c ∷ l) (strncpy_lem dest src n (omega arith))))
]

-- strcpy writes the text of the source and its NUL, and leaves what lies behind.
pub strcpy_lem :
    (dest src : List ℕ)
    → length (text src) < length dest
    → strcpy dest src ≡ text src ++ 0 ∷ drop (suc (length (text src))) dest
unfolding strcpy text
strcpy_lem [] src h = absurd (omega arith)
strcpy_lem (d ∷ dest) [] h = refl
strcpy_lem (d ∷ dest) (c ∷ src) h = elim (Bool-cases (c == 0)) [
  | inl e ↦ rw e refl
  | inr e ↦
      let h' : length (text src) < length dest = omega (arith, ap length (text_cons c src e)) in
      rw e (ap (λ l. c ∷ l) (strcpy_lem dest src h'))
]

pub strcat_lem :
    (dest src : List ℕ)
    → length (text dest) + length (text src) < length dest
    → strcat dest src
      ≡ text dest ++ text src ++ 0 ∷ drop (suc (length (text dest) + length (text src))) dest
unfolding strcat text
strcat_lem [] src h = absurd (omega arith)
strcat_lem (d ∷ dest) src h = elim (Bool-cases (d == 0)) [
  | inl e ↦
      let h' : length (text src) < length (d ∷ dest) =
        omega (arith, ap length (text_nul d dest e)) in
      rw e (rw (zero_add (length (text src))) (strcpy_lem (d ∷ dest) src h'))
  | inr e ↦
      let h' : length (text dest) + length (text src) < length dest =
        omega (arith, ap length (text_cons d dest e)) in
      rw e (
        rw (suc_add (length (text dest)) (length (text src)))
          (ap (λ l. d ∷ l) (strcat_lem dest src h')))
]

text-nul_tail : (t rest : List ℕ) → text (text t ++ 0 ∷ rest) ≡ text t
unfolding text
text-nul_tail [] rest = refl
text-nul_tail (b ∷ t) rest = elim (Bool-cases (b == 0)) [
  | inl e ↦ rw e refl
  | inr e ↦ rw e (rw e (ap (λ l. b ∷ l) (text-nul_tail t rest)))
]

text-append_nul : (s t rest : List ℕ) → text (text s ++ text t ++ 0 ∷ rest) ≡ text s ++ text t
unfolding text
text-append_nul [] t rest = text-nul_tail t rest
text-append_nul (a ∷ s) t rest = elim (Bool-cases (a == 0)) [
  | inl e ↦ rw e (text-nul_tail t rest)
  | inr e ↦ rw e (rw e (ap (λ l. a ∷ l) (text-append_nul s t rest)))
]

-- strcat leaves the two texts one behind the other, if the target has room for both and a NUL.
pub text-strcat :
    (dest src : List ℕ)
    → length (text dest) + length (text src) < length dest
    → text (strcat dest src) ≡ text dest ++ text src
text-strcat dest src h = ap text (strcat_lem dest src h) ∙ text-append_nul dest src _

-- the position of the first `c` of the text, if there is one
unfoldable pub Found : List ℕ → ℕ → Option ℕ → Type 0
Found s c none = (i : ℕ) → i < length (text s) → get_or s i 0 ≢ c
Found s c (some i) = i < length (text s) × (get_or s i 0 ≡ c) × ((j : ℕ) → j < i → get_or s j 0 ≢ c)

absent_later :
    (b c n : ℕ) (s : List ℕ)
    → b ≢ c
    → ((i : ℕ) → i < n → get_or s i 0 ≢ c)
    → (i : ℕ) → i < suc n
    → get_or (b ∷ s) i 0 ≢ c
absent_later b c n s f h zero l = f
absent_later b c n s f h (suc i) l = h i (omega (arith, l))

Found-later :
    (b c : ℕ) (s : List ℕ) (o : Option ℕ)
    → (b == 0) ≡ false
    → (b == c) ≡ false
    → Found s c o
    → Found (b ∷ s) c (elim o [ none ↦ none | some i ↦ some (suc i) ])
unfolding Found
Found-later b c s none e f h =
    rw (text_cons b s e) (absent_later b c (length (text s)) s (==→ne b c f) h)
Found-later b c s (some i) e f h =
    rw (text_cons b s e) (omega (arith, h.0), h.1, absent_later b c i s (==→ne b c f) h.2)

small : (c : ℕ) → c < 256 → c % 256 ≡ c
small c h = omega arith

-- strchr finds the first place of a character of the text, and none only when there is none;
-- the character is from 1 to 255.
pub strchr-Found : (s : List ℕ) (c : ℕ) → 0 < c → c < 256 → Found s c (strchr s c)
unfolding strchr Found text
strchr-Found [] c p h = rw (ne→== c 0 (λ e. omega (arith, e, p))) (λ i l. absurd (omega (arith, l)))
strchr-Found (b ∷ s) c p h = elim (Bool-cases (b == 0)) [
  | inl e ↦ rw e (
      rw (ne→== c 0 (λ e'. omega (arith, e', p)))
        (λ i l. absurd (omega (arith, l, ap length (text_nul b s e)))))
  | inr e ↦ rw e (
      rw (small c h) (elim (Bool-cases (b == c)) [
        | inl f ↦ rw f (
          omega (arith, ap length (text_cons b s e)),
          ==→eq b c f,
          λ j l. absurd (omega (arith, l)),
        )
        | inr f ↦ rw f (Found-later b c s (strchr s c) e f (strchr-Found s c p h))
      ]))
]

text-zeros : (n : ℕ) (rest : List ℕ) → text (replicate n 0 ++ 0 ∷ rest) ≡ []
unfolding text replicate
text-zeros zero rest = refl
text-zeros (suc n) rest = refl

text-behind : (s rest : List ℕ) → text rest ≡ [] → text (text s ++ rest) ≡ text s
unfolding text
text-behind [] rest e = e
text-behind (c ∷ s) rest e = elim (Bool-cases (c == 0)) [
  | inl f ↦ rw f e
  | inr f ↦ rw f (rw f (ap (λ l. c ∷ l) (text-behind s rest e)))
]

drop-replicate : (m n : ℕ) → m < n → drop {A = ℕ} m (replicate n 0) ≡ 0 ∷ replicate (n - suc m) 0
unfolding replicate
drop-replicate m zero h = absurd (omega arith)
drop-replicate zero (suc n) h = rw (suc_sub n 0) (rw (sub_zero n) refl)
drop-replicate (suc m) (suc n) h = rw (suc_sub n (suc m)) (drop-replicate m n (omega arith))

-- A cleared buffer that is longer than `n` holds the text that strncpy copies, if it has at most
-- `n` bytes.
pub text-strncpy :
    (src : List ℕ) (n m : ℕ)
    → length (text src) ≤ n
    → n < m
    → text (strncpy (replicate m 0) src n) ≡ text src
text-strncpy src n m h l =
    ap text (strncpy_lem (replicate m 0) src n (omega (arith, length-replicate {A = ℕ} m 0, l)))
    ∙ ap (λ x. text (x ++ replicate (n - length (text src)) 0 ++ drop n (replicate m 0)))
        (take-all n (text src) h)
    ∙ ap (λ x. text (text src ++ replicate (n - length (text src)) 0 ++ x)) (drop-replicate n m l)
    ∙ ap text (
        append_assoc (text src) (replicate (n - length (text src)) 0) (0 ∷ replicate (m - suc n) 0))
    ∙ text-behind src (replicate (n - length (text src)) 0 ++ 0 ∷ replicate (m - suc n) 0)
        (text-zeros (n - length (text src)) (replicate (m - suc n) 0))
