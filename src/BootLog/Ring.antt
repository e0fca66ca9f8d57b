-- ===== src/BootLog/Ring.antt =====
-- The boot log of src/lib/kprintf.c keeps the last characters.
use lighth_os.BootLog.{BootLog, boot_log_max, Write}
use lighth_os.Common.{
  ℕ, zero, suc, ◌+◌, ◌-◌, ◌≤◌, ◌<◌, ◌≡◌, refl, ap, sym, ◌∙◌, Bool, true, false, List, [], ◌∷◌, ◌++◌,
  if◌then◌else◌, set, take, drop, length, length-append, length-take, length-drop, length-set,
  take-all, drop-all, append-nil, append_assoc, arith, ltb, lt→ltb, ge→ltb,
}

-- the last characters of a text, as many as the ring holds
unfoldable pub last_of : List ℕ → List ℕ
last_of s = drop (length s - boot_log_max) s

-- a file after a write that starts inside it or at its end
unfoldable pub write_at : Write → List ℕ → List ℕ
write_at w file = take w.offset file ++ w.bytes ++ drop (w.offset + length w.bytes) file

-- the file that the writes make of an empty one
unfoldable pub file_of : List Write → List ℕ → List ℕ
file_of [] file = file
file_of (w ∷ ws) file = file_of ws (write_at w file)

-- the characters of a ring, the oldest first
unfoldable pub ring : Bool → List ℕ → ℕ → List ℕ
ring true buf head = drop head buf ++ take head buf
ring false buf head = take head buf

unfoldable pub contents : BootLog → List ℕ
contents log = ring log.wrapped log.buf log.head

pub record IsValid (log : BootLog) : Type 0 where
  pub sized : length log.buf ≡ boot_log_max
  pub inside : log.head < boot_log_max

add_one : (n : ℕ) → n + 1 ≡ suc n
add_one n = omega arith

take-set : (h v : ℕ) (xs : List ℕ) → h < length xs → take (suc h) (set xs h v) ≡ take h xs ++ v ∷ []
take-set h v [] l = absurd (omega arith)
take-set zero v (x ∷ xs) l = refl
take-set (suc h) v (x ∷ xs) l = ap (λ s. x ∷ s) (take-set h v xs (omega arith))

drop-set : (h v : ℕ) (xs : List ℕ) → drop (suc h) (set xs h v) ≡ drop 1 (drop h xs)
drop-set h v [] = refl_nil h
  where
    refl_nil : (h : ℕ) → [] ≡ drop 1 (drop {A = ℕ} h [])
    refl_nil zero = refl
    refl_nil (suc h) = refl
drop-set zero v (x ∷ xs) = refl
drop-set (suc h) v (x ∷ xs) = drop-set h v xs

-- Leaving out the oldest of a ring that is full.
pub drop-append_one : (a b : List ℕ) → 0 < length a → drop 1 (a ++ b) ≡ drop 1 a ++ b
drop-append_one [] b l = absurd (omega arith)
drop-append_one (x ∷ a) b l = refl

-- a character more, and the oldest one less when there is no room
unfoldable pub pushed : List ℕ → ℕ → List ℕ
pushed l c = if ltb (length l) boot_log_max then l ++ c ∷ [] else drop 1 l ++ c ∷ []

pub pushed_room : (l : List ℕ) (c : ℕ) → length l < boot_log_max → pushed l c ≡ l ++ c ∷ []
unfolding pushed
pushed_room l c h = rw (lt→ltb (length l) boot_log_max h) refl

pub pushed_full : (l : List ℕ) (c : ℕ) → boot_log_max ≤ length l → pushed l c ≡ drop 1 l ++ c ∷ []
unfolding pushed
pushed_full l c h = rw (ge→ltb (length l) boot_log_max h) refl

pub ring_next :
    (w : Bool) (b : List ℕ) (h c : ℕ)
    → length b ≡ boot_log_max
    → h < boot_log_max
    → h + 1 < boot_log_max
    → ring w (set b h c) (h + 1) ≡ pushed (ring w b h) c
unfolding ring
ring_next false b h c e l m =
    rw (pushed_room (take h b) c (omega (arith, length-take h b)))
      (rw (add_one h) (take-set h c b (omega arith)))
ring_next true b h c e l m =
    rw
      (pushed_full (drop h b ++ take h b) c
        (omega (arith, length-append (drop h b) (take h b), length-take h b, length-drop h b)))
      (rw (add_one h) (
        rw (take-set h c b (omega arith), drop-set h c b)
          (sym (append_assoc (drop 1 (drop h b)) (take h b) (c ∷ []))
            ∙ ap (λ s. s ++ c ∷ [])
                (sym (drop-append_one (drop h b) (take h b) (omega (arith, length-drop h b)))))))

pub ring_turn :
    (w : Bool) (b : List ℕ) (h c : ℕ)
    → length b ≡ boot_log_max
    → h < boot_log_max
    → boot_log_max ≤ h + 1
    → ring true (set b h c) 0 ≡ pushed (ring w b h) c
unfolding ring
ring_turn false b h c e l m =
    rw (pushed_room (take h b) c (omega (arith, length-take h b))) (append-nil (set b h c) ∙ whole)
  where
    whole : set b h c ≡ take h b ++ c ∷ []
    whole =
        sym (take-all (suc h) (set b h c) (omega (arith, length-set b h c, e, m)))
        ∙ take-set h c b (omega (arith, e, l))
ring_turn true b h c e l m =
    rw
      (pushed_full (drop h b ++ take h b) c
        (omega (arith, length-append (drop h b) (take h b), length-take h b, length-drop h b)))
      (append-nil (set b h c) ∙ whole ∙ ap (λ s. s ++ c ∷ []) (sym rest))
  where
    whole : set b h c ≡ take h b ++ c ∷ []
    whole =
        sym (take-all (suc h) (set b h c) (omega (arith, length-set b h c, e, m)))
        ∙ take-set h c b (omega (arith, e, l))

    rest : drop 1 (drop h b ++ take h b) ≡ take h b
    rest =
        drop-append_one (drop h b) (take h b) (omega (arith, length-drop h b, e, l))
        ∙ ap (λ s. s ++ take h b) (drop-all 1 (drop h b) (omega (arith, length-drop h b, e, m)))
