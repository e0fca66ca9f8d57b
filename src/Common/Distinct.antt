-- ===== src/Common/Distinct.antt =====
-- Lists without repetition, and predicates on the parts of a list.
use lighth_os.Common.{ℕ, ◌≢◌, sym, subst, List, [], ◌∷◌, ◌++◌, All, append-nil}

module _ {ℓ κ} {A : Type ℓ} (P : A → Type κ) where
  pub All-append : (a b : List A) → All P a → All P b → All P (a ++ b)
  All-append [] b h k = k
  All-append (x ∷ a) b (h, hs) k = (h, All-append a b hs k)

  pub All-split : (a b : List A) → All P (a ++ b) → All P a × All P b
  All-split [] b h = (tt, h)
  All-split (x ∷ a) b (h, hs) = let r = All-split a b hs in ((h, r.0), r.1)

  pub All-insert : (a b : List A) (x : A) → P x → All P (a ++ b) → All P (a ++ x ∷ b)
  All-insert [] b x p h = (p, h)
  All-insert (y ∷ a) b x p (h, hs) = (h, All-insert a b x p hs)

  pub All-swap : (a b : List A) → All P (a ++ b) → All P (b ++ a)
  All-swap a b h = let r = All-split a b h in All-append b a r.1 r.0

unfoldable pub Distinct : List ℕ → Type 0
Distinct [] = Unit
Distinct (x ∷ xs) = All (λ y. y ≢ x) xs × Distinct xs

Distinct-insert :
    (a b : List ℕ) (x : ℕ) → All (λ y. y ≢ x) (a ++ b) → Distinct (a ++ b) → Distinct (a ++ x ∷ b)
unfolding Distinct
Distinct-insert [] b x h d = (h, d)
Distinct-insert (y ∷ a) b x (h, hs) (d, ds) =
    (All-insert (λ z. z ≢ y) a b x (λ e. h (sym e)) d, Distinct-insert a b x hs ds)

pub Distinct-swap : (a b : List ℕ) → Distinct (a ++ b) → Distinct (b ++ a)
unfolding Distinct
Distinct-swap [] b d = subst Distinct (sym (append-nil b)) d
Distinct-swap (x ∷ a) b (h, d) =
    Distinct-insert b a x (All-swap (λ z. z ≢ x) a b h) (Distinct-swap a b d)
