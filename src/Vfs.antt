-- ===== src/Vfs.antt =====
-- kernel/vfs.c: path resolution. A node stands at its address, 0 is the null pointer, and the
-- finddir callback of a filesystem is a function of the node and the name.
pub mod Paths
pub mod Resolve
mod Tests
use nos.Prelude.{
  ℕ, zero, suc, ◌==◌, ltb, List, [], ◌∷◌, Option, none, some, Bool, true, false, not, ◌&&◌, ◌||◌,
  if◌then◌else◌, length, bit_and,
}

-- `struct fs_node`, as far as names are resolved
pub record FsNode : Type 0 where
  pub flags : ℕ
  pub finddir : Option (List ℕ → ℕ)
  pub ptr : ℕ

-- `fs_root` and the nodes
pub record Vfs : Type 0 where
  pub fs_root : ℕ
  pub node : ℕ → FsNode

abbrev pub slash : ℕ
slash = b'/'

-- `FS_DIRECTORY` and `FS_MOUNTPOINT`
abbrev pub fs_directory : ℕ
fs_directory = 0x02

abbrev pub fs_mountpoint : ℕ
fs_mountpoint = 0x08

unfoldable pub vfs_finddir : Vfs → ℕ → List ℕ → ℕ
vfs_finddir v node name = elim (v.node node).finddir [
  | none ↦ 0
  | some find ↦ if bit_and (v.node node).flags 0x7 == fs_directory then find name else 0
]

unfoldable pub vfs_follow : Vfs → ℕ → ℕ
vfs_follow v node =
    if not (node == 0)
      && (not (bit_and (v.node node).flags fs_mountpoint == 0) && not ((v.node node).ptr == 0))
    then (v.node node).ptr
    else node

-- `while (*path == '/') path++`
unfoldable pub skip_slashes : List ℕ → List ℕ
skip_slashes [] = []
skip_slashes (c ∷ path) = if c == slash then skip_slashes path else c ∷ path

-- `*path && *path != '/'`
abbrev pub starts : List ℕ → Bool
starts [] = false
starts (c ∷ path) = not (c == slash)

-- The loop that copies at most `room` bytes into `comp`: these and the path behind them.
unfoldable pub component : ℕ → List ℕ → List ℕ × List ℕ
component zero path = ([], path)
component (suc room) [] = ([], [])
component (suc room) (c ∷ path) =
    let (comp, behind) = component room path in
    if c == slash then ([], c ∷ path) else (c ∷ comp, behind)

abbrev pub is_empty : List ℕ → Bool
is_empty [] = true
is_empty (c ∷ path) = false

-- The loop over the components; 0 also where the rounds run out.
unfoldable pub resolve_loop : ℕ → Vfs → ℕ → List ℕ → ℕ
resolve_loop zero v node path = 0
resolve_loop (suc f) v node path =
    let (comp, behind) = component 127 path in
    let next = skip_slashes behind in
    let child = vfs_finddir v node comp in
    let rest = resolve_loop f v (vfs_follow v child) next in
    if starts behind
    then 0
    else if length comp == 0
    then node
    else if child == 0
    then 0
    else if is_empty next
    then vfs_follow v child
    else rest

-- A path is the bytes in front of its closing 0. A round takes a byte at least.
unfoldable pub vfs_resolve : Vfs → List ℕ → ℕ
vfs_resolve v path =
    if v.fs_root == 0
    then 0
    else if is_empty (skip_slashes path)
    then v.fs_root
    else resolve_loop (suc (length path)) v (vfs_follow v v.fs_root) (skip_slashes path)
