-- ===== src/CString/Text.antt =====
-- The text that a C string holds, and what the comparisons of src/lib/string.c say of it.
use lighth_os.CString.{byte_diff, is_zero, strlen, memcmp, strcmp, strncmp}
use lighth_os.Common.{
  ℕ, zero, suc, ◌≤◌, ◌≡◌, refl, ap, true, false, List, [], ◌∷◌, ◌==◌, if◌then◌else◌, take, length,
  Bool-cases, ◌↔◌, inl, inr, arith,
}

-- the bytes before the first NUL
unfoldable pub text : List ℕ → List ℕ
text [] = []
text (c ∷ s) = let rest = text s in if c == 0 then [] else c ∷ rest

pub text_nul : (c : ℕ) (s : List ℕ) → (c == 0) ≡ true → text (c ∷ s) ≡ []
unfolding text
text_nul c s e = rw e refl

pub text_cons : (c : ℕ) (s : List ℕ) → (c == 0) ≡ false → text (c ∷ s) ≡ c ∷ text s
unfolding text
text_cons c s e = rw e refl

pub strlen-length : (s : List ℕ) → strlen s ≡ length (text s)
unfolding strlen text
strlen-length [] = refl
strlen-length (c ∷ s) = elim (Bool-cases (c == 0)) [
  | inl e ↦ rw e refl
  | inr e ↦ rw e (ap suc (strlen-length s))
]

pub length-text : (s : List ℕ) → length (text s) ≤ length s
unfolding text
length-text [] = omega arith
length-text (c ∷ s) = elim (Bool-cases (c == 0)) [
  | inl e ↦ rw e (omega arith)
  | inr e ↦ rw e (omega (arith, length-text s))
]

byte_diff-zero : (a b : ℕ) → is_zero (byte_diff a b) ≡ (a == b)
unfolding byte_diff is_zero
byte_diff-zero a b = ground arith

-- strcmp returns 0 exactly for strings of the same text.
pub strcmp_lem : (s t : List ℕ) → (is_zero (strcmp s t) ≡ true) ↔ (text s ≡ text t)
unfolding strcmp text byte_diff is_zero
strcmp_lem [] [] = (λ _. refl, λ _. refl)
strcmp_lem [] (c ∷ t) = (λ h. grind arith, λ h. grind arith)
strcmp_lem (b ∷ s) [] = (λ h. grind arith, λ h. grind arith)
strcmp_lem (b ∷ s) (c ∷ t) =
    let ih = strcmp_lem s t in
    elim (Bool-cases (b == 0)) [
      | inl e ↦ (λ h. grind arith, λ h. grind arith)
      | inr e ↦ elim (Bool-cases (b == c)) [
        | inl f ↦ (λ h. grind (arith, ih), λ h. grind (arith, ih))
        | inr f ↦ (λ h. grind arith, λ h. grind arith)
      ]
    ]

-- strncmp returns 0 exactly for strings whose texts have the same first `n` bytes.
pub strncmp_lem :
    (s t : List ℕ) (n : ℕ) → (is_zero (strncmp s t n) ≡ true) ↔ (take n (text s) ≡ take n (text t))
unfolding strncmp text byte_diff is_zero
strncmp_lem s t zero = (λ _. refl, λ _. refl)
strncmp_lem [] [] (suc n) = (λ _. refl, λ _. refl)
strncmp_lem [] (c ∷ t) (suc n) = (λ h. grind arith, λ h. grind arith)
strncmp_lem (b ∷ s) [] (suc n) = (λ h. grind arith, λ h. grind arith)
strncmp_lem (b ∷ s) (c ∷ t) (suc n) =
    let ih = strncmp_lem s t n in
    elim (Bool-cases (b == c)) [
      | inr f ↦ (λ h. grind arith, λ h. grind arith)
      | inl f ↦ elim (Bool-cases (b == 0)) [
        | inl e ↦ (λ h. grind arith, λ h. grind arith)
        | inr e ↦ (λ h. grind (arith, ih), λ h. grind (arith, ih))
      ]
    ]

-- memcmp returns 0 exactly when the `n` bytes agree.
pub memcmp_lem :
    (s t : List ℕ) (n : ℕ)
    → n ≤ length s
    → n ≤ length t
    → (is_zero (memcmp s t n) ≡ true) ↔ (take n s ≡ take n t)
unfolding memcmp byte_diff is_zero
memcmp_lem s t zero h k = (λ _. refl, λ _. refl)
memcmp_lem [] t (suc n) h k = absurd (omega arith)
memcmp_lem (b ∷ s) [] (suc n) h k = absurd (omega arith)
memcmp_lem (b ∷ s) (c ∷ t) (suc n) h k =
    let ih = memcmp_lem s t n (omega arith) (omega arith) in
    elim (Bool-cases (b == c)) [
      | inr f ↦ (λ h. grind arith, λ h. grind arith)
      | inl f ↦ (λ h. grind (arith, ih), λ h. grind (arith, ih))
    ]
