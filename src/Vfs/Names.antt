-- ===== src/Vfs/Names.antt =====
-- The components of a path, as a list of names, and where strchr splits it.
use lighth_os.Vfs.{slash, component_len, behind_slash}
use lighth_os.CString.{strlen, strchr}
use lighth_os.CString.Text.{length-text, strlen-length}
use lighth_os.CString.Copy.{Found, strchr-Found}
use lighth_os.Common.{
  ℕ, suc, ◌≤◌, ◌≡◌, refl, ap, ◌∙◌, true, false, List, [], ◌∷◌, ◌==◌, if◌then◌else◌, length-drop,
  length-take, take, drop, length, Option, none, some, Bool-cases, Option-cases, ==→eq, inl, inr,
  arith,
}

-- a byte in front of the first piece
unfoldable pub longer : ℕ → List (List ℕ) → List (List ℕ)
longer c [] = []
longer c (piece ∷ pieces) = (c ∷ piece) ∷ pieces

-- the text cut at its slashes
unfoldable pub split : List ℕ → List (List ℕ)
split [] = [] ∷ []
split (c ∷ s) =
    let rest = split s in
    if c == 0 then [] ∷ [] else if c == slash then [] ∷ rest else longer c rest

-- the pieces that are not empty
unfoldable pub names_of : List (List ℕ) → List (List ℕ)
names_of [] = []
names_of ([] ∷ pieces) = names_of pieces
names_of ((c ∷ piece) ∷ pieces) = (c ∷ piece) ∷ names_of pieces

-- the pieces behind the first one
unfoldable pub pieces_behind : Option (List ℕ) → List (List ℕ)
pieces_behind none = []
pieces_behind (some s) = split s

-- the pieces, given what strchr says of a slash
piece_at : List ℕ → Option ℕ → List (List ℕ)
piece_at s none = take (strlen s) s ∷ []
piece_at s (some i) = take i s ∷ split (drop (suc i) s)

later : Option ℕ → Option ℕ
later none = none
later (some i) = some (suc i)

strchr-later :
    (c : ℕ) (s : List ℕ)
    → (c == 0) ≡ false
    → (c == slash) ≡ false
    → strchr (c ∷ s) slash ≡ later (strchr s slash)
unfolding strchr later
strchr-later c s e f = elim (Option-cases (strchr s slash)) [
  | inl g ↦ rw e (rw f (rw g refl))
  | inr (i, g) ↦ rw e (rw f (rw g refl))
]

piece_at-later :
    (c : ℕ) (s : List ℕ) (o : Option ℕ)
    → (c == 0) ≡ false
    → piece_at (c ∷ s) (later o) ≡ longer c (piece_at s o)
unfolding piece_at later longer strlen
piece_at-later c s none e = rw e refl
piece_at-later c s (some i) e = refl

strchr_nul : (c : ℕ) (s : List ℕ) → (c == 0) ≡ true → strchr (c ∷ s) slash ≡ none
unfolding strchr
strchr_nul c s e = rw e refl

strchr-slash :
    (c : ℕ) (s : List ℕ) → (c == 0) ≡ false → (c == slash) ≡ true → strchr (c ∷ s) slash ≡ some 0
unfolding strchr
strchr-slash c s e f = rw e (rw f refl)

strlen_nul : (c : ℕ) (s : List ℕ) → (c == 0) ≡ true → strlen (c ∷ s) ≡ 0
unfolding strlen
strlen_nul c s e = rw e refl

pub split_nul : (c : ℕ) (s : List ℕ) → (c == 0) ≡ true → split (c ∷ s) ≡ [] ∷ []
unfolding split
split_nul c s e = rw e refl

pub split-slash : (c : ℕ) (s : List ℕ) → (c == slash) ≡ true → split (c ∷ s) ≡ [] ∷ split s
unfolding split
split-slash c s e = rw (==→eq c slash e) refl

pub split_empty : split [] ≡ [] ∷ []
unfolding split
split_empty = refl

split_nil : split [] ≡ piece_at [] (strchr [] slash)
unfolding split piece_at strchr strlen
split_nil = refl

split_at : (s : List ℕ) → split s ≡ piece_at s (strchr s slash)
unfolding split piece_at
split_at [] = split_nil
split_at (c ∷ s) = elim (Bool-cases (c == 0)) [
  | inl e ↦ rw (strchr_nul c s e) (rw (strlen_nul c s e) (rw e refl))
  | inr e ↦ elim (Bool-cases (c == slash)) [
    | inl f ↦ rw (strchr-slash c s e f) (rw e (rw f refl))
    | inr f ↦
        rw (strchr-later c s e f)
          (rw (piece_at-later c s (strchr s slash) e) (rw e (rw f (ap (longer c) (split_at s)))))
  ]
]

component_len-none : (s : List ℕ) → strchr s slash ≡ none → component_len s ≡ strlen s
unfolding component_len
component_len-none s g = ap (λ o. elim o [ none ↦ strlen s | some i ↦ i ]) g

component_len-some : (s : List ℕ) (i : ℕ) → strchr s slash ≡ some i → component_len s ≡ i
unfolding component_len
component_len-some s i g = ap (λ o. elim o [ none ↦ strlen s | some i ↦ i ]) g

behind_slash-none : (s : List ℕ) → strchr s slash ≡ none → behind_slash s ≡ none
unfolding behind_slash
behind_slash-none s g = ap (λ o. elim o [ none ↦ none | some i ↦ some (drop (suc i) s) ]) g

behind_slash-some :
    (s : List ℕ) (i : ℕ) → strchr s slash ≡ some i → behind_slash s ≡ some (drop (suc i) s)
unfolding behind_slash
behind_slash-some s i g = ap (λ o. elim o [ none ↦ none | some i ↦ some (drop (suc i) s) ]) g

-- strchr and strlen cut off the first piece.
pub split_lem : (s : List ℕ) → split s ≡ take (component_len s) s ∷ pieces_behind (behind_slash s)
unfolding pieces_behind piece_at
split_lem s = elim (Option-cases (strchr s slash)) [
  | inl g ↦
      rw (component_len-none s g) (rw (behind_slash-none s g) (split_at s ∙ ap (piece_at s) g))
  | inr (i, g) ↦
      rw (component_len-some s i g) (rw (behind_slash-some s i g) (split_at s ∙ ap (piece_at s) g))
]

unfoldable pub rest_length : Option (List ℕ) → ℕ
rest_length none = 0
rest_length (some s) = suc (length s)

-- What lies behind the first slash is shorter.
pub rest_length-behind_slash :
    (c : ℕ) (s : List ℕ) → rest_length (behind_slash (c ∷ s)) ≤ length (c ∷ s)
unfolding rest_length
rest_length-behind_slash c s = elim (Option-cases (strchr (c ∷ s) slash)) [
  | inl g ↦ rw (behind_slash-none (c ∷ s) g) (omega arith)
  | inr (i, g) ↦ rw (behind_slash-some (c ∷ s) i g) (omega (arith, length-drop i s))
]

component_bound :
    (s : List ℕ) (o : Option ℕ)
    → Found s slash o
    → (elim o as (λ _. ℕ) [ none ↦ strlen s | some i ↦ i ]) ≤ length s
unfolding Found
component_bound s none h = omega (arith, strlen-length s, length-text s)
component_bound s (some i) h = omega (arith, h.0, length-text s)

component_len_le : (s : List ℕ) → component_len s ≤ length s
unfolding component_len
component_len_le s =
    component_bound s (strchr s slash) (strchr-Found s slash (omega arith) (omega arith))

pub length-take-component_len : (s : List ℕ) → length (take (component_len s) s) ≡ component_len s
length-take-component_len s = omega (arith, length-take (component_len s) s, component_len_le s)
