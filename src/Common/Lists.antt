-- ===== src/Common/Lists.antt =====
-- Lists measured and indexed by native numbers, under the library's names: C arrays and buffers.
use Prim.Native.Nat.{ℕ, zero, suc, ◌+◌, ◌-◌, ◌≤◌, ◌<◌, min}
use mathlib.Core.Path.{◌≡◌, refl, sym, ap, ◌∙◌}
use mathlib.Core.Logic.{◌≢◌, ◌⊎◌, inl, inr}
use mathlib.Core.Option.{Option, none, some}
use mathlib.Core.List.{List, [], ◌∷◌, ◌++◌}
use native.Mathlib.Omega.{arith}

module _ {ℓ} {A : Type ℓ} where
  abbrev pub length : List A → ℕ
  length [] = 0
  length (x ∷ xs) = suc (length xs)

  abbrev pub get_or : List A → ℕ → A → A
  get_or [] i d = d
  get_or (x ∷ xs) zero d = x
  get_or (x ∷ xs) (suc i) d = get_or xs i d

  -- A write out of bounds changes nothing.
  abbrev pub set : List A → ℕ → A → List A
  set [] i v = []
  set (x ∷ xs) zero v = v ∷ xs
  set (x ∷ xs) (suc i) v = x ∷ set xs i v

  abbrev pub take : ℕ → List A → List A
  take zero xs = []
  take (suc n) [] = []
  take (suc n) (x ∷ xs) = x ∷ take n xs

  abbrev pub drop : ℕ → List A → List A
  drop zero xs = xs
  drop (suc n) [] = []
  drop (suc n) (x ∷ xs) = drop n xs

  -- shut, since some of the arrays are long
  unfoldable pub replicate : ℕ → A → List A
  replicate zero a = []
  replicate (suc n) a = a ∷ replicate n a

module _ {ℓ} {A : Type ℓ} where
  pub length-append : (xs ys : List A) → length (xs ++ ys) ≡ length xs + length ys
  length-append [] ys = omega arith
  length-append (x ∷ xs) ys = omega (arith, length-append xs ys)

  pub length-set : (xs : List A) (i : ℕ) (v : A) → length (set xs i v) ≡ length xs
  length-set [] i v = refl
  length-set (x ∷ xs) zero v = refl
  length-set (x ∷ xs) (suc i) v = ap suc (length-set xs i v)

  pub get_or-set_self :
      (xs : List A) (i : ℕ) (v d : A) → i < length xs → get_or (set xs i v) i d ≡ v
  get_or-set_self [] i v d h = absurd (omega arith)
  get_or-set_self (x ∷ xs) zero v d h = refl
  get_or-set_self (x ∷ xs) (suc i) v d h = get_or-set_self xs i v d (omega arith)

  pub get_or-set_ne :
      (xs : List A) (i j : ℕ) (v d : A) → i ≢ j → get_or (set xs i v) j d ≡ get_or xs j d
  get_or-set_ne [] i j v d h = refl
  get_or-set_ne (x ∷ xs) zero zero v d h = absurd (h refl)
  get_or-set_ne (x ∷ xs) zero (suc j) v d h = refl
  get_or-set_ne (x ∷ xs) (suc i) zero v d h = refl
  get_or-set_ne (x ∷ xs) (suc i) (suc j) v d h = get_or-set_ne xs i j v d (λ e. h (ap suc e))

  pub length-replicate : (n : ℕ) (a : A) → length (replicate n a) ≡ n
  unfolding replicate
  length-replicate zero a = refl
  length-replicate (suc n) a = ap suc (length-replicate n a)

  pub get_or-replicate : (n i : ℕ) (v d : A) → i < n → get_or (replicate n v) i d ≡ v
  unfolding replicate
  get_or-replicate zero i v d h = absurd (omega arith)
  get_or-replicate (suc n) zero v d h = refl
  get_or-replicate (suc n) (suc i) v d h = get_or-replicate n i v d (omega arith)

  pub length-take : (n : ℕ) (xs : List A) → length (take n xs) ≡ min n (length xs)
  length-take zero xs = omega arith
  length-take (suc n) [] = omega arith
  length-take (suc n) (x ∷ xs) = omega (arith, length-take n xs)

  pub length-drop : (n : ℕ) (xs : List A) → length (drop n xs) ≡ length xs - n
  length-drop zero xs = omega arith
  length-drop (suc n) [] = omega arith
  length-drop (suc n) (x ∷ xs) = omega (arith, length-drop n xs)

  pub take-append-drop : (n : ℕ) (xs : List A) → take n xs ++ drop n xs ≡ xs
  take-append-drop zero xs = refl
  take-append-drop (suc n) [] = refl
  take-append-drop (suc n) (x ∷ xs) = ap (λ l. x ∷ l) (take-append-drop n xs)

  pub take-all : (n : ℕ) (xs : List A) → length xs ≤ n → take n xs ≡ xs
  take-all zero [] h = refl
  take-all zero (x ∷ xs) h = absurd (omega arith)
  take-all (suc n) [] h = refl
  take-all (suc n) (x ∷ xs) h = ap (λ l. x ∷ l) (take-all n xs (omega arith))

  pub drop-all : (n : ℕ) (xs : List A) → length xs ≤ n → drop n xs ≡ []
  drop-all zero [] h = refl
  drop-all zero (x ∷ xs) h = absurd (omega arith)
  drop-all (suc n) [] h = refl
  drop-all (suc n) (x ∷ xs) h = drop-all n xs (omega arith)

  pub take-nil : (n : ℕ) → take {A = A} n [] ≡ []
  take-nil zero = refl
  take-nil (suc n) = refl

  pub drop-nil : (n : ℕ) → drop {A = A} n [] ≡ []
  drop-nil zero = refl
  drop-nil (suc n) = refl

  pub take-min : (n k : ℕ) (xs : List A) → k ≡ min n (length xs) → take k xs ≡ take n xs
  take-min n zero [] e = sym (take-nil n)
  take-min n (suc k) [] e = sym (take-nil n)
  take-min zero zero (x ∷ xs) e = refl
  take-min zero (suc k) (x ∷ xs) e = absurd (omega arith)
  take-min (suc n) zero (x ∷ xs) e = absurd (omega arith)
  take-min (suc n) (suc k) (x ∷ xs) e = ap (λ l. x ∷ l) (take-min n k xs (omega arith))

  pub drop-min : (n k : ℕ) (xs : List A) → k ≡ min n (length xs) → drop k xs ≡ drop n xs
  drop-min n zero [] e = sym (drop-nil n)
  drop-min n (suc k) [] e = sym (drop-nil n)
  drop-min zero zero (x ∷ xs) e = refl
  drop-min zero (suc k) (x ∷ xs) e = absurd (omega arith)
  drop-min (suc n) zero (x ∷ xs) e = absurd (omega arith)
  drop-min (suc n) (suc k) (x ∷ xs) e = drop-min n k xs (omega arith)

-- A predicate that every element has.
abbrev pub All {ℓ κ} : {A : Type ℓ} → (A → Type κ) → List A → Type κ
All P [] = Unit
All P (x ∷ xs) = P x × All P xs

-- A predicate that some element has.
abbrev pub Any {ℓ} : {A : Type ℓ} → (A → Type 0) → List A → Type 0
Any P [] = ⊥
Any P (x ∷ xs) = P x ⊎ Any P xs

-- An element that one predicate finds has what all the elements have.
pub pick {ℓ κ} :
    {A : Type ℓ} {P : A → Type 0} {Q : A → Type κ} {C : Type 0} (xs : List A)
    → Any P xs
    → All Q xs
    → ((x : A) → P x → Q x → C)
    → C
pick [] a (q) f = absurd a
pick (x ∷ xs) (inl p) (q, qs) f = f x p q
pick (x ∷ xs) (inr a) (q, qs) f = pick xs a qs f

module _ {ℓ} {A : Type ℓ} where
  pub get_or-append_left :
      (a b : List A) (i : ℕ) (d : A) → i < length a → get_or (a ++ b) i d ≡ get_or a i d
  get_or-append_left [] b i d h = absurd (omega arith)
  get_or-append_left (x ∷ a) b zero d h = refl
  get_or-append_left (x ∷ a) b (suc i) d h = get_or-append_left a b i d (omega arith)

  pub get_or-append_right :
      (a b : List A) (i : ℕ) (d : A)
      → length a ≤ i
      → get_or (a ++ b) i d ≡ get_or b (i - length a) d
  get_or-append_right [] b i d h = ap (λ k. get_or b k d) (sub_zero i)
    where
      sub_zero : (i : ℕ) → i ≡ i - 0
      sub_zero i = omega arith
  get_or-append_right (x ∷ a) b zero d h = absurd (omega arith)
  get_or-append_right (x ∷ a) b (suc i) d h =
      get_or-append_right a b i d (omega arith) ∙ ap (λ k. get_or b k d) (sub_suc i (length a))
    where
      sub_suc : (i n : ℕ) → i - n ≡ suc i - suc n
      sub_suc i n = omega arith

  pub get_or-take :
      (n : ℕ) (a : List A) (i : ℕ) (d : A) → i < n → get_or (take n a) i d ≡ get_or a i d
  get_or-take zero a i d h = absurd (omega arith)
  get_or-take (suc n) [] i d h = refl
  get_or-take (suc n) (x ∷ a) zero d h = refl
  get_or-take (suc n) (x ∷ a) (suc i) d h = get_or-take n a i d (omega arith)

  pub get_or-drop :
      (n : ℕ) (a : List A) (i : ℕ) (d : A) → get_or (drop n a) i d ≡ get_or a (n + i) d
  get_or-drop zero a i d = ap (λ k. get_or a k d) (zero_add i)
    where
      zero_add : (i : ℕ) → i ≡ 0 + i
      zero_add i = omega arith
  get_or-drop (suc n) [] i d = refl
  get_or-drop (suc n) (x ∷ a) i d = get_or-drop n a i d ∙ ap (λ k. get_or (x ∷ a) k d) (suc_add n i)
    where
      suc_add : (n i : ℕ) → suc (n + i) ≡ suc n + i
      suc_add n i = omega arith

  -- Two lists of one length with the same elements are equal.
  pub list_ext :
      (a b : List A) (d : A)
      → length a ≡ length b
      → ((i : ℕ) → i < length a → get_or a i d ≡ get_or b i d)
      → a ≡ b
  list_ext [] [] d e h = refl
  list_ext [] (y ∷ b) d e h = absurd (omega arith)
  list_ext (x ∷ a) [] d e h = absurd (omega arith)
  list_ext (x ∷ a) (y ∷ b) d e h =
      ap (λ z. z ∷ a) (h zero (omega arith))
      ∙ ap (λ l. y ∷ l) (list_ext a b d (omega arith) (λ i l. h (suc i) (omega arith)))

  pub get_or-some :
      (xs : List (Option A)) (i : ℕ) (x : A) → get_or xs i none ≡ some x → i < length xs
  get_or-some [] i x h = absurd (none-some h)
    where
      none-some : none ≡ some x → ⊥
      none-some e = cc
  get_or-some (y ∷ xs) zero x h = omega arith
  get_or-some (y ∷ xs) (suc i) x h = omega (arith, get_or-some xs i x h)
