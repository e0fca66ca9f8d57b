-- ===== src/Vfs/Calls.antt =====
-- The calls of src/fs/vfs.c that go through a path to the operations of a file system. A result of
-- none or false is -1.
use lighth_os.Vfs.{Ops, Stat, Mount, resolve, resolve_parent}
use lighth_os.CString.{ℤ, strlen}
use lighth_os.Common.{ℕ, Bool, false, Option, none, some, List, ◌==◌, if◌then◌else◌}

module _ {Fs Node : Type 0} (ops : Node → Ops Fs Node) (ms : List (Mount Node)) where
  unfoldable pub read : List ℕ → ℕ → ℤ → Fs → Option (List ℕ)
  read path size offset fs = elim (resolve ops fs ms path) [
    | none ↦ none
    | some node ↦ elim (ops node).op_read [ none ↦ none | some f ↦ f node size offset fs ]
  ]

  pub write : List ℕ → List ℕ → ℤ → Fs → Option ℕ × Fs
  write path bytes offset fs = elim (resolve ops fs ms path) [
    | none ↦ (none, fs)
    | some node ↦ elim (ops node).op_write [ none ↦ (none, fs) | some f ↦ f node bytes offset fs ]
  ]

  pub readdir : List ℕ → ℕ → Fs → Option (List ℕ × ℕ)
  readdir path index fs = elim (resolve ops fs ms path) [
    | none ↦ none
    | some node ↦ elim (ops node).op_readdir [ none ↦ none | some f ↦ f node index fs ]
  ]

  pub stat : List ℕ → Fs → Option Stat
  stat path fs = elim (resolve ops fs ms path) [
    | none ↦ none
    | some node ↦ elim (ops node).op_stat [ none ↦ none | some f ↦ f node fs ]
  ]

  unfoldable pub create : List ℕ → ℕ → Fs → Bool × Fs
  create path type fs = elim (resolve_parent ops fs ms path) [
    | none ↦ (false, fs)
    | some (parent, name) ↦ elim (ops parent).op_create [
      | none ↦ (false, fs)
      | some f ↦ if strlen name == 0 then (false, fs) else f parent name type fs
    ]
  ]

  pub unlink : List ℕ → Fs → Bool × Fs
  unlink path fs = elim (resolve_parent ops fs ms path) [
    | none ↦ (false, fs)
    | some (parent, name) ↦ elim (ops parent).op_unlink [
      | none ↦ (false, fs)
      | some f ↦ f parent name fs
    ]
  ]

  pub mkdir : List ℕ → Fs → Bool × Fs
  mkdir path fs = elim (resolve_parent ops fs ms path) [
    | none ↦ (false, fs)
    | some (parent, name) ↦ elim (ops parent).op_mkdir [
      | none ↦ (false, fs)
      | some f ↦ f parent name fs
    ]
  ]
