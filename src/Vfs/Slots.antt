-- ===== src/Vfs/Slots.antt =====
-- What the two loops of `vfs_mount` in src/fs/vfs.c leave in the mount table.
use lighth_os.Vfs.{Mount, mounted_at, detach, attach, vfs_max_path}
use lighth_os.CString.{strncpy}
use lighth_os.CString.Text.{text}
use lighth_os.CString.Copy.{strncpy_lem}
use lighth_os.Common.{
  false-true, ℕ, zero, suc, ◌-◌, ◌<◌, ◌≡◌, refl, ap, sym, ◌∙◌, Bool, true, false, not, List, [],
  ◌∷◌, ◌++◌, ◌==◌, if◌then◌else◌, take, drop, length, replicate, take-all, Bool-cases, inl, inr,
  arith, All, Any,
}

-- a path as the callers pass it: no NUL in it, not empty, and room for a NUL in the mount's buffer
pub record IsPath (path : List ℕ) : Type 0 where
  pub is_text : text path ≡ path
  pub not_empty : 0 < length path
  pub fits : length path < vfs_max_path - 1

-- the buffers are as long as vfs.h declares them
unfoldable pub Sized : {Node : Type 0} → List (Mount Node) → Type 0
Sized ms = All (λ m. length m.mount_point ≡ vfs_max_path) ms

text-append_nul : (s rest : List ℕ) (n : ℕ) → text (text s ++ replicate (suc n) 0 ++ rest) ≡ text s
unfolding text replicate
text-append_nul [] rest n = refl
text-append_nul (c ∷ s) rest n = elim (Bool-cases (c == 0)) [
  | inl e ↦ rw e refl
  | inr e ↦ rw e (rw e (ap (λ l. c ∷ l) (text-append_nul s rest n)))
]

-- the mount point that `attach` writes
text-mount_point :
    (buffer path : List ℕ)
    → IsPath path
    → length buffer ≡ vfs_max_path
    → text (strncpy buffer path (vfs_max_path - 1)) ≡ path
text-mount_point buffer path p h =
    ap text (strncpy_lem buffer path (vfs_max_path - 1) (omega (arith, h)))
    ∙ zeros_behind (255 - length (text path)) (omega (arith, p.fits, ap length p.is_text))
    ∙ p.is_text
  where
    zeros_behind :
        (n : ℕ)
        → 0 < n
        → text (take 255 (text path) ++ replicate n 0 ++ drop 255 buffer) ≡ text path
    zeros_behind zero l = absurd (omega arith)
    zeros_behind (suc n) l =
        rw (take-all 255 (text path) (omega (arith, p.fits, ap length p.is_text)))
          (text-append_nul path (drop 255 buffer) n)

module _ {Node : Type 0} where
  -- After `detach` no mount in use has the path.
  pub detach_free :
      (path : List ℕ) (ms : List (Mount Node))
      → All (λ m. mounted_at path m ≡ false) (detach path ms)
  unfolding detach mounted_at
  detach_free path [] = tt
  detach_free path (m ∷ ms) = (one (mounted_at path m) refl, detach_free path ms)
    where
      one :
          (b : Bool)
          → mounted_at path m ≡ b
          → mounted_at path (if b then record m { in_use = false } else m) ≡ false
      one true e = refl
      one false e = e

  pub detach-Sized : (path : List ℕ) (ms : List (Mount Node)) → Sized ms → Sized (detach path ms)
  unfolding detach Sized
  detach-Sized path [] h = tt
  detach-Sized path (m ∷ ms) (h, hs) = (one (mounted_at path m), detach-Sized path ms hs)
    where
      one :
          (b : Bool)
          → length (if b then record m { in_use = false } else m).mount_point ≡ vfs_max_path
      one true = h
      one false = h

  no_other :
      (path : List ℕ) (root : Node) (ms : List (Mount Node))
      → All (λ m. mounted_at path m ≡ false) ms
      → All (λ m. mounted_at path m ≡ true → m.root ≡ root) ms
  no_other path root [] h = tt
  no_other path root (m ∷ ms) (h, hs) =
      ((λ e. absurd (false-true (sym h ∙ e))), no_other path root ms hs)

  -- the slot that `attach` fills
  filled : List ℕ → Node → Mount Node → Mount Node
  filled path root m = record {
    mount_point = strncpy m.mount_point path (vfs_max_path - 1);
    root = root;
    in_use = true;
  }

  attach_free :
      (path : List ℕ) (root : Node) (m : Mount Node) (ms : List (Mount Node))
      → m.in_use ≡ false
      → attach path root (m ∷ ms) ≡ (true, filled path root m ∷ ms)
  unfolding attach filled
  attach_free path root m ms e =
      ap
        (λ u.
          if not u
          then (true, filled path root m ∷ ms)
          else ((attach path root ms).0, m ∷ (attach path root ms).1))
        e

  attach_used :
      (path : List ℕ) (root : Node) (m : Mount Node) (ms : List (Mount Node))
      → m.in_use ≡ true
      → attach path root (m ∷ ms) ≡ ((attach path root ms).0, m ∷ (attach path root ms).1)
  unfolding attach filled
  attach_used path root m ms e =
      ap
        (λ u.
          if not u
          then (true, filled path root m ∷ ms)
          else ((attach path root ms).0, m ∷ (attach path root ms).1))
        e

  attach_nil : (path : List ℕ) (root : Node) → attach path root [] ≡ (false, [])
  unfolding attach
  attach_nil path root = refl

  -- The mounts at the path are the new one.
  pub attach_only :
      (path : List ℕ) (root : Node) (ms : List (Mount Node))
      → All (λ m. mounted_at path m ≡ false) ms
      → All (λ m. mounted_at path m ≡ true → m.root ≡ root) (attach path root ms).1
  unfolding filled
  attach_only path root [] h = rw (attach_nil path root) tt
  attach_only path root (m ∷ ms) (h, hs) = elim (Bool-cases m.in_use) [
    | inr e ↦ rw (attach_free path root m ms e) ((λ _. refl), no_other path root ms hs)
    | inl e ↦
        rw (attach_used path root m ms e)
          ((λ e'. absurd (false-true (sym h ∙ e'))), attach_only path root ms hs)
  ]

  -- If `attach` succeeds, a mount in use has the path.
  pub attach_some :
      (path : List ℕ) (root : Node) (ms : List (Mount Node))
      → IsPath path
      → Sized ms
      → (attach path root ms).0 ≡ true
      → Any (λ m. (m.in_use ≡ true) × (text m.mount_point ≡ path)) (attach path root ms).1
  unfolding Sized filled
  attach_some path root [] p s h =
      absurd (false-true (sym (ap (λ x. x.0) (attach_nil path root)) ∙ h))
  attach_some path root (m ∷ ms) p (s, ss) h = elim (Bool-cases m.in_use) [
    | inr e ↦
        rw (attach_free path root m ms e) (inl (refl, text-mount_point m.mount_point path p s))
    | inl e ↦ rw (attach_used path root m ms e) (
        inr
          (attach_some path root ms p ss (sym (ap (λ x. x.0) (attach_used path root m ms e)) ∙ h)))
  ]
