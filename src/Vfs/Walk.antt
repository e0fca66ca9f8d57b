-- ===== src/Vfs/Walk.antt =====
-- The walk of `vfs_resolve` in src/fs/vfs.c follows the names of the path one by one.
use lighth_os.Vfs.{
  Ops, Mount, finddir, walk, resolve, find_mount, remainder, component_len, behind_slash, slash,
  vfs_max_name,
}
use lighth_os.Vfs.Names.{
  split, names_of, pieces_behind, split_lem, split_nul, split-slash, split_empty,
  length-take-component_len, rest_length, rest_length-behind_slash,
}
use lighth_os.CString.{strlen}
use lighth_os.Common.{
  ℕ, zero, suc, ◌≤◌, ◌≡◌, refl, ap, sym, ◌∙◌, true, false, List, [], ◌∷◌, ◌==◌, if◌then◌else◌,
  get_or, take, drop, length, length-drop, Option, none, some, Bool-cases, Option-cases, ==→ne,
  ==→eq, inl, inr, arith, leb,
}

module _ {Fs Node : Type 0} (ops : Node → Ops Fs Node) (fs : Fs) where
  -- Following a list of names: a name of 64 bytes or more, or one that is missing, ends it.
  pub descend : List (List ℕ) → Node → Option Node
  descend [] node = some node
  descend (name ∷ names) node =
      let next : Option Node = elim (finddir ops fs node name) [
        | none ↦ none
        | some child ↦ descend names child
      ] in
      if leb vfs_max_name (length name) then none else next

  take_none : (s : List ℕ) → (component_len s == 0) ≡ true → take (component_len s) s ≡ []
  take_none s f = rw (==→eq (component_len s) 0 f) refl

  -- the first name, as `walk` takes it
  descend_first :
      (s : List ℕ) (pieces : List (List ℕ)) (node : Node)
      → (component_len s == 0) ≡ false
      → descend (names_of (take (component_len s) s ∷ pieces)) node
        ≡ descend (take (component_len s) s ∷ names_of pieces) node
  unfolding names_of
  descend_first s pieces node e =
      first (take (component_len s) s)
        (λ z. ==→ne (component_len s) 0 e (sym (length-take-component_len s) ∙ z))
    where
      first :
          (x : List ℕ)
          → (length x ≡ 0 → ⊥)
          → descend (names_of (x ∷ pieces)) node ≡ descend (x ∷ names_of pieces) node
      first [] h = absurd (h refl)
      first (c ∷ x) h = refl

  -- one round of the loop at a byte that is not NUL
  walk_round :
      (fuel : ℕ) (s : List ℕ) (names : List (List ℕ)) (node : Node)
      → (component_len s == 0) ≡ false
      → (get_or s 0 0 == 0) ≡ false
      → ((n : Node) → walk ops fs fuel (behind_slash s) n ≡ descend names n)
      → walk ops fs (suc fuel) (some s) node ≡ descend (take (component_len s) s ∷ names) node
  unfolding walk descend
  walk_round fuel s names node f e ih =
      elim (Option-cases (finddir ops fs node (take (component_len s) s))) [
        | inl g ↦ rw e (rw f (rw (length-take-component_len s) (rw g refl)))
        | inr (child, g) ↦
            rw e (rw f (rw (length-take-component_len s) (rw g (rw (ih child) refl))))
      ]

  -- With a round for each byte and one more, the loop follows the names of the path.
  pub walk-descend :
      (fuel : ℕ) (rem : Option (List ℕ)) (node : Node)
      → rest_length rem ≤ fuel
      → walk ops fs fuel rem node ≡ descend (names_of (pieces_behind rem)) node
  unfolding walk rest_length pieces_behind names_of descend
  walk-descend fuel none node h = refl
  walk-descend zero (some rem) node h = absurd (omega arith)
  walk-descend (suc fuel) (some []) node h = rw split_empty refl
  walk-descend (suc fuel) (some (c ∷ s)) node h =
      let le = rest_length-behind_slash c s in
      let ih : (n : Node)
          → walk ops fs fuel (behind_slash (c ∷ s)) n
            ≡ descend (names_of (pieces_behind (behind_slash (c ∷ s)))) n =
        λ n. walk-descend fuel (behind_slash (c ∷ s)) n (omega (arith, h, le)) in
      elim (Bool-cases (c == 0)) [
        | inl e ↦ rw e (rw (split_nul c s e) refl)
        | inr e ↦ elim (Bool-cases (component_len (c ∷ s) == 0)) [
          | inl f ↦ rw e (rw f (rw (split_lem (c ∷ s)) (rw (take_none (c ∷ s) f) (ih node))))
          | inr f ↦ rw (split_lem (c ∷ s)) (
              walk_round fuel (c ∷ s) (names_of (pieces_behind (behind_slash (c ∷ s)))) node f e ih
              ∙ sym (descend_first (c ∷ s) (pieces_behind (behind_slash (c ∷ s))) node f))
        ]
      ]

  remainder-length : (p : List ℕ) → rest_length (remainder p) ≤ suc (length p)
  unfolding remainder rest_length
  remainder-length [] = omega arith
  remainder-length (c ∷ p) = elim (Bool-cases (c == slash)) [
    | inl e ↦ rw e (elim (Bool-cases (get_or p 0 0 == 0)) [
      | inl f ↦ rw f (omega arith)
      | inr f ↦ rw f (omega arith)
    ])
    | inr e ↦
        rw e
          (elim (Bool-cases (c == 0)) [ inl f ↦ rw f (omega arith) | inr f ↦ rw f (omega arith) ])
  ]

  -- the end of the path, tested before its first byte is read
  stop_or :
      (q : List ℕ)
      → names_of (pieces_behind (if get_or q 0 0 == 0 then none else some q)) ≡ names_of (split q)
  unfolding pieces_behind names_of
  stop_or [] = rw split_empty refl
  stop_or (c ∷ q) = elim (Bool-cases (c == 0)) [
    | inl e ↦ rw e (rw (split_nul c q e) refl)
    | inr e ↦ rw e refl
  ]

  -- Skipping the slash behind the mount point loses no name.
  names-remainder : (p : List ℕ) → names_of (pieces_behind (remainder p)) ≡ names_of (split p)
  unfolding remainder names_of
  names-remainder [] = stop_or []
  names-remainder (c ∷ p) = elim (Bool-cases (c == slash)) [
    | inl e ↦ rw (split-slash c p e) (rw e (stop_or p))
    | inr e ↦ rw e (stop_or (c ∷ p))
  ]

  -- vfs_resolve returns the node that the names of the path lead to, from the root of the mount
  -- that find_mount picks, and a null pointer when there is no such mount or node.
  pub resolve-descend :
      (ms : List (Mount Node)) (path : List ℕ)
      → resolve ops fs ms path ≡ (elim (find_mount path ms) as (λ _. Option Node) [
        | none ↦ none
        | some m ↦ descend (names_of (split (drop (strlen m.mount_point) path))) m.root
      ])
  unfolding resolve
  resolve-descend ms path = from_mount (find_mount path ms)
    where
      from_mount :
          (found : Option (Mount Node))
          → (elim found as (λ _. Option Node) [
            | none ↦ none
            | some m ↦
                walk ops fs
                  (suc (length path))
                  (remainder (drop (strlen m.mount_point) path))
                  m.root
          ])
            ≡ (elim found as (λ _. Option Node) [
              | none ↦ none
              | some m ↦ descend (names_of (split (drop (strlen m.mount_point) path))) m.root
            ])
      from_mount none = refl
      from_mount (some m) =
          let k = strlen m.mount_point in
          walk-descend (suc (length path)) (remainder (drop k path)) m.root
            (omega (arith, remainder-length (drop k path), length-drop k path))
          ∙ ap (λ names. descend names m.root) (names-remainder (drop k path))
