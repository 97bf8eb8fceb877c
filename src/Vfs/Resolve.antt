-- ===== src/Vfs/Resolve.antt =====
-- Path resolution is a walk along the names in the path.
use nos.Prelude.{
  ℕ, zero, suc, ◌≤◌, ◌<◌, ◌≡◌, ◌≢◌, refl, sym, ap, ◌∙◌, ◌==◌, List, [], ◌∷◌, true, false,
  if◌then◌else◌, length, Bool-cases, inl, inr, arith,
}
use nos.Vfs.{
  Vfs, slash, vfs_finddir, vfs_follow, skip_slashes, starts, component, is_empty, resolve_loop,
  vfs_resolve,
}
use nos.Vfs.Paths.{
  names, descend, skip-names, length-skip, skip-starts, component-name, component-Long,
  component-step, component-bound, length-component,
}

names-empty : (p : List ℕ) → is_empty p ≡ true → names p ≡ []
names-empty [] h = refl
names-empty (c ∷ p) h = absurd (ground arith)

module _ (v : Vfs) where
  module _ (f node : ℕ) (p : List ℕ) where
    abbrev behind : List ℕ
    behind = (component 127 p).1

    abbrev child : ℕ
    child = vfs_finddir v node (component 127 p).0

    loop-long : starts behind ≡ true → resolve_loop (suc f) v node p ≡ 0
    unfolding resolve_loop
    loop-long h = rw h refl

    loop-step :
        starts behind ≡ false
        → (length (component 127 p).0 == 0) ≡ false
        → resolve_loop (suc f) v node p ≡ (
            if child == 0
            then 0
            else if is_empty (skip_slashes behind)
            then vfs_follow v child
            else resolve_loop f v (vfs_follow v child) (skip_slashes behind))
    unfolding resolve_loop
    loop-step h k = rw h (rw k refl)

  descend-step :
      (node : ℕ) (name : List ℕ) (more : List (List ℕ))
      → length name ≤ 127
      → descend v node (name ∷ more) ≡ (
          if vfs_finddir v node name == 0
          then 0
          else descend v (vfs_follow v (vfs_finddir v node name)) more)
  descend-step node name more h = ground arith

  descend-long :
      (node : ℕ) (name : List ℕ) (more : List (List ℕ))
      → 127 < length name
      → descend v node (name ∷ more) ≡ 0
  descend-long node name more h = ground arith

  loop-end : (f node : ℕ) → resolve_loop (suc f) v node [] ≡ node
  unfolding resolve_loop component skip_slashes
  loop-end f node = refl

  tail-descend :
      (g n : ℕ) (q : List ℕ)
      → resolve_loop g v n q ≡ descend v n (names q)
      → (if is_empty q then n else resolve_loop g v n q) ≡ descend v n (names q)
  tail-descend g n [] e = refl
  tail-descend g n (d ∷ q) e = e

  resolve_loop-descend :
      (f node : ℕ) (p : List ℕ)
      → length p < f
      → (is_empty p ≡ false → starts p ≡ true)
      → resolve_loop f v node p ≡ descend v node (names p)
  resolve_loop-descend zero node p room s = absurd (omega arith)
  resolve_loop-descend (suc f) node [] room s = loop-end f node
  resolve_loop-descend (suc f) node (c ∷ p) room s =
      let h : (c == slash) ≡ false = let t = s refl in ground arith in
      elim (Bool-cases (starts (behind f node (c ∷ p)))) [
        | inl e ↦
            let (w, ws, k, lt) = component-Long 127 (c ∷ p) e in
            loop-long f node (c ∷ p) e ∙ sym (ap (descend v node) k ∙ descend-long node w ws lt)
        | inr e ↦
            let some_byte = ap (λ q. length q.0) (component-step 126 c p h) in
            let size = length-component 127 (c ∷ p) in
            let at = vfs_follow v (child f node (c ∷ p)) in
            let next = skip_slashes (behind f node (c ∷ p)) in
            let shorter = length-skip (behind f node (c ∷ p)) in
            let ih = resolve_loop-descend f at next (omega arith) (skip-starts _) in
            let found : ℕ → ℕ = λ n. if child f node (c ∷ p) == 0 then 0 else n in
            loop-step f node (c ∷ p) e (ground arith)
            ∙ ap found (tail-descend f at next ih)
            ∙ ap (λ ns. found (descend v at ns)) (skip-names (behind f node (c ∷ p)))
            ∙ sym (
                descend-step node (component 127 (c ∷ p)).0 (names (behind f node (c ∷ p)))
                  (component-bound 127 (c ∷ p)))
            ∙ sym (ap (descend v node) (component-name 127 (c ∷ p) (s refl) e))
      ]

-- With a root, vfs_resolve of any path returns the root itself where the path consists of
-- slashes, and otherwise the node that a walk along the names of the path reaches from where the
-- root leads to: each name is looked up in the directory reached so far and a mount point is
-- followed, and the result is 0 at the first name that is not found or has more than 127 bytes.
pub vfs_resolve-descend :
    (v : Vfs) (path : List ℕ)
    → v.fs_root ≢ 0
    → vfs_resolve v path ≡ (
        if is_empty (skip_slashes path)
        then v.fs_root
        else descend v (vfs_follow v v.fs_root) (names path))
unfolding vfs_resolve
vfs_resolve-descend v path nz =
    let shorter = length-skip path in
    let walk =
      resolve_loop-descend v (suc (length path)) (vfs_follow v v.fs_root) (skip_slashes path)
        (omega arith) (skip-starts path) in
    let same = ap (descend v (vfs_follow v v.fs_root)) (skip-names path) in
    let both = walk ∙ same in ground arith
