-- ===== src/Vfs/Mounting.antt =====
-- What `vfs_mount` of src/fs/vfs.c does to later calls of `vfs_resolve`.
use lighth_os.Vfs.{
  Ops, Mount, mounted_at, detach, attach, mount, covers, find_mount, remainder, resolve, walk,
}
use lighth_os.Vfs.Find.{covering, size_of, Longest, find_mount-Longest}
use lighth_os.CString.{strlen, strcmp, strncmp, is_zero}
use lighth_os.CString.Text.{text, strlen-length, strcmp_lem, strncmp_lem}
use lighth_os.Vfs.Slots.{IsPath, Sized, detach_free, detach-Sized, attach_only, attach_some}
use lighth_os.Common.{
  and_true, ℕ, zero, suc, ◌≤◌, ◌≡◌, refl, ap, sym, ◌∙◌, Bool, true, false, ◌&&◌, ◌||◌, List, [],
  ◌∷◌, ◌==◌, get_or, take, drop, length, take-all, drop-all, Option, none, some, inl, inr, arith,
  All, Any, pick,
}

and_or : (u x a b c : Bool) → u ≡ true → x ≡ true → c ≡ true → (u && (x && (a || (b || c)))) ≡ true
and_or u x a b c e f g = rw e (rw f (rw g (or_true a b)))
  where
    or_true : (a b : Bool) → (a || (b || true)) ≡ true
    or_true true b = refl
    or_true false true = refl
    or_true false false = refl

get_or_end : (xs : List ℕ) (k : ℕ) → length xs ≤ k → get_or xs k 0 ≡ 0
get_or_end [] k h = refl
get_or_end (x ∷ xs) zero h = absurd (omega arith)
get_or_end (x ∷ xs) (suc k) h = get_or_end xs k (omega arith)

module _ {Node : Type 0} where
  -- A mount in use with the path covers it.
  covering_self :
      (path : List ℕ) (m : Mount Node)
      → IsPath path
      → m.in_use ≡ true
      → text m.mount_point ≡ path
      → (covering path m ≡ true) × (strlen m.mount_point ≡ length path)
  unfolding covering covers
  covering_self path m p u e =
      let k : strlen m.mount_point ≡ length path = strlen-length m.mount_point ∙ ap length e in
      let s : is_zero (strncmp path m.mount_point (strlen m.mount_point)) ≡ true =
        (strncmp_lem path m.mount_point (strlen m.mount_point)).1
          (ap (take (strlen m.mount_point)) (p.is_text ∙ sym e)) in
      let z : (get_or path (strlen m.mount_point) 0 == 0) ≡ true =
        rw (get_or_end path (strlen m.mount_point) (omega (arith, k))) refl in
      (and_or m.in_use _ _ _ _ u s z, k)

  -- A mount that covers the path and is no shorter has the path.
  covering_only :
      (path : List ℕ) (m : Mount Node)
      → IsPath path
      → covering path m ≡ true
      → length path ≤ strlen m.mount_point
      → (mounted_at path m ≡ true) × (strlen m.mount_point ≡ length path)
  unfolding covering covers mounted_at
  covering_only path m p c h =
      let starts = is_zero (strncmp path m.mount_point (strlen m.mount_point)) in
      let u = and_true m.in_use (covers path m) c in
      let x = and_true starts _ u.1 in
      let e : take (strlen m.mount_point) (text path)
          ≡ take (strlen m.mount_point) (text m.mount_point) =
        (strncmp_lem path m.mount_point (strlen m.mount_point)).0 x.0 in
      let e' : path ≡ text m.mount_point =
        sym (take-all (strlen m.mount_point) path h)
        ∙ ap (take (strlen m.mount_point)) (sym p.is_text)
        ∙ e
        ∙ take-all (strlen m.mount_point) (text m.mount_point)
            (omega (arith, strlen-length m.mount_point)) in
      let z : is_zero (strcmp m.mount_point path) ≡ true =
        (strcmp_lem m.mount_point path).1 (sym e' ∙ sym p.is_text) in
      (rw u.0 z, strlen-length m.mount_point ∙ ap length (sym e'))

  -- the mount that vfs_resolve goes through
  found_root :
      (path : List ℕ) (root : Node) (ms : List (Mount Node))
      → IsPath path
      → Any (λ m. (m.in_use ≡ true) × (text m.mount_point ≡ path)) ms
      → All (λ m. mounted_at path m ≡ true → m.root ≡ root) ms
      → (r : Option (Mount Node)) → Longest path ms r
      → (m : Mount Node) × (r ≡ some m) × (m.root ≡ root) × (strlen m.mount_point ≡ length path)
  unfolding Longest size_of
  found_root path root ms p s o r (inl e, a) = pick ms s a (λ m q h.
      let c = covering_self path m p q.0 q.1 in
      absurd (omega (arith, h c.0, c.1, ap size_of e, p.not_empty)))
  found_root path root ms p s o r (inr x, a) = pick ms s a (λ m q h. pick ms x o (λ m' q' o'.
      let c = covering_self path m p q.0 q.1 in
      let d = covering_only path m' p q'.1 (omega (arith, h c.0, c.1, ap size_of q'.0)) in
      (m', q'.0, o' d.0, d.1)))

module _ {Fs Node : Type 0} (ops : Node → Ops Fs Node) (fs : Fs) where
  -- After a vfs_mount that succeeds, the path resolves to the root of the new file system, whatever
  -- was mounted before, even at the same path. The path is a text of 1 to 254 bytes, and the buffers
  -- of the mount table have 256 bytes.
  pub resolve-mount :
      (path : List ℕ) (root : Node) (ms : List (Mount Node))
      → IsPath path
      → Sized ms
      → (mount path root ms).0 ≡ true
      → resolve ops fs (mount path root ms).1 path ≡ some root
  unfolding mount resolve walk remainder
  resolve-mount path root ms p s h =
      let ms' = (attach path root (detach path ms)).1 in
      let f =
        found_root path root ms' p
          (attach_some path root (detach path ms) p (detach-Sized path ms s) h)
          (attach_only path root (detach path ms) (detach_free path ms)) (find_mount path ms')
          (find_mount-Longest path ms') in
      let k = strlen f.0.mount_point in
      ap
        (λ found. elim found as (λ _. Option Node) [
          | none ↦ none
          | some m ↦
              walk ops fs (suc (length path)) (remainder (drop (strlen m.mount_point) path)) m.root
        ])
        f.1
      ∙ rw (drop-all k path (omega (arith, f.3))) (ap some f.2)
