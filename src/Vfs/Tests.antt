-- ===== src/Vfs/Tests.antt =====
-- A root directory with a mounted filesystem under `m`, which holds the file `f`.
use nos.Prelude.{ℕ, ◌==◌, ◌≡◌, refl, List, [], ◌∷◌, none, some, if◌then◌else◌, arith}
use nos.Vfs.{
  FsNode, Vfs, vfs_resolve, resolve_loop, component, skip_slashes, vfs_finddir, vfs_follow,
  is_empty,
}
use nos.Vfs.Paths.{names, descend}
use nos.Vfs.Resolve.{vfs_resolve-descend}

abbrev letter : List ℕ → ℕ
letter [] = 0
letter (c ∷ cs) = c

abbrev node_at : ℕ → FsNode
node_at a =
    if a == 10
    then record {
      flags = 2;
      finddir = some (λ name. if letter name == b'm' then 20 else 0);
      ptr = 0;
    }
    else if a == 20
    then record { flags = 10; finddir = none; ptr = 30 }
    else if a == 30
    then record {
      flags = 2;
      finddir = some (λ name. if letter name == b'f' then 40 else 0);
      ptr = 0;
    }
    else record { flags = 1; finddir = none; ptr = 0 }

abbrev mounted : Vfs
mounted = record { fs_root = 10; node = node_at }

abbrev path : List ℕ
path = b'/' ∷ b'm' ∷ b'/' ∷ b'/' ∷ b'f' ∷ []

vfs_resolve_run : vfs_resolve mounted path ≡ 40
unfolding vfs_resolve resolve_loop component skip_slashes vfs_finddir vfs_follow
vfs_resolve_run = refl

vfs_resolve-descend_example : vfs_resolve mounted path ≡ (
    if is_empty (skip_slashes path)
    then 10
    else descend mounted (vfs_follow mounted 10) (names path))
vfs_resolve-descend_example = vfs_resolve-descend mounted path (omega arith)
