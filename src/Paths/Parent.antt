-- ===== src/Paths/Parent.antt =====
-- src/kernel/process.c, canon_into: the walk back over the last segment of `out`.
use lighth_os.Paths.{slash, back, parent}
use lighth_os.Paths.Follow.{render, IsName}
use lighth_os.Common.{
  ℕ, zero, suc, ◌+◌, ◌≤◌, ◌<◌, ◌≡◌, ◌≢◌, refl, ap, sym, ◌∙◌, List, [], ◌∷◌, ◌++◌, get_or, take,
  length, arith, ne→==, lt→ltb, length-append, get_or-append_left, get_or-append_right,
}

back-stop : (i : ℕ) (out : List ℕ) → get_or out i 0 ≡ slash → back (suc i) out ≡ suc i
unfolding back
back-stop i out e = rw e (ground arith)

back-pass : (i : ℕ) (out : List ℕ) → 0 < i → get_or out i 0 ≢ slash → back (suc i) out ≡ back i out
unfolding back
back-pass i out l h = rw (ne→== (get_or out i 0) slash h, lt→ltb 1 (suc i) (omega arith)) refl

name_at : (s : List ℕ) (i : ℕ) → IsName s → i < length s → get_or s i 0 ≢ slash
name_at [] i n h = absurd (omega arith)
name_at (c ∷ s) zero (n, ns) h = n
name_at (c ∷ s) (suc i) (n, ns) h = name_at s i ns (omega arith)

take_front : (a b : List ℕ) → take (length a) (a ++ b) ≡ a
take_front [] b = refl
take_front (x ∷ a) b = ap (λ l. x ∷ l) (take_front a b)

-- a list that ends in a slash
pub record Ends (out : List ℕ) : Type 0 where
  pub before : ℕ
  pub long : length out ≡ suc before
  pub last : get_or out before 0 ≡ slash

pub render-Ends : (segs : List (List ℕ)) → Ends (render segs)
unfolding render
render-Ends [] = record { before = 0; long = refl; last = refl }
render-Ends (s ∷ segs) = record {
  before = length (render segs) + length s;
  long =
      length-append (render segs) (s ++ slash ∷ []) ∙ omega (arith, length-append s (slash ∷ []));
  last =
      get_or-append_right (render segs) (s ++ slash ∷ []) (length (render segs) + length s) 0
        (omega arith)
      ∙ ap (λ k. get_or (s ++ slash ∷ []) k 0) {y = length s} (omega arith)
      ∙ get_or-append_right s (slash ∷ []) (length s) 0 (omega arith)
      ∙ ap (λ k. get_or (slash ∷ []) k 0) {y = 0} (omega arith);
}

module _ (base s : List ℕ) (ends : Ends base) (name : IsName s) where
  back-base :
      (k : ℕ) → k ≤ length s → back (length base + k) (base ++ (s ++ slash ∷ [])) ≡ length base
  back-base zero l =
      ap (λ n. back n (base ++ (s ++ slash ∷ []))) {y = suc ends.before} (omega (arith, ends.long))
      ∙ back-stop ends.before _ (
          get_or-append_left base (s ++ slash ∷ []) ends.before 0 (omega (arith, ends.long))
          ∙ ends.last)
      ∙ sym ends.long
  back-base (suc k) l =
      ap (λ n. back n (base ++ (s ++ slash ∷ []))) {y = suc (length base + k)} (omega arith)
      ∙ back-pass (length base + k) _ (omega (arith, ends.long))
          (λ e. name_at s k name l (sym at ∙ e))
      ∙ back-base k (omega arith)
    where
      at : get_or (base ++ (s ++ slash ∷ [])) (length base + k) 0 ≡ get_or s k 0
      at =
          get_or-append_right base (s ++ slash ∷ []) (length base + k) 0 (omega arith)
          ∙ ap (λ j. get_or (s ++ slash ∷ []) j 0) {y = k} (omega arith)
          ∙ get_or-append_left s (slash ∷ []) k 0 (omega arith)

  pub parent-append : parent (base ++ (s ++ slash ∷ [])) ≡ base
  unfolding parent
  parent-append =
      rw (lt→ltb 1 (length (base ++ (s ++ slash ∷ []))) (omega (arith, long, ends.long))) (
        ap (λ n. take (back n (base ++ (s ++ slash ∷ []))) (base ++ (s ++ slash ∷ [])))
          {y = length base + length s} (omega (arith, long))
        ∙ ap (λ n. take n (base ++ (s ++ slash ∷ []))) (back-base (length s) (omega arith))
        ∙ take_front base (s ++ slash ∷ []))
    where
      long : length (base ++ (s ++ slash ∷ [])) ≡ length base + length s + 1
      long = length-append base (s ++ slash ∷ []) ∙ omega (arith, length-append s (slash ∷ []))

-- The walk back drops the last name.
pub parent-render :
    (s : List ℕ) (segs : List (List ℕ)) → IsName s → parent (render (s ∷ segs)) ≡ render segs
unfolding render
parent-render s segs n = parent-append (render segs) s (render-Ends segs) n
