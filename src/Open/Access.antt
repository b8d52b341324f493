-- ===== src/Open/Access.antt =====
-- What `sys_open` lets through.
use os_cpp.Base.{
  ◌==◌, if◌then◌else◌, Bool-cases, ℕ, ◌≡◌, refl, ◌∙◌, ◌⊎◌, inl, inr, true, false, not, ◌&&◌, arith,
}
use os_cpp.Content.{Dinode}
use os_cpp.Open.{
  State, check_permission_for_file, has_create, may_open, bad_device, give_up_open, take_file,
  with_inode,
}

-- The bits of the file's mask that a mode needs: reading has 4, writing 2.
abbrev pub needed : ℕ → ℕ
needed mode = if mode == 0 then 4 else if mode == 2 then 6 else 2

-- One of the modes that are tested: reading, writing, both, or truncating alone.
abbrev pub Tested : ℕ → Type 0
Tested mode = ((mode ≡ 0) ⊎ (mode ≡ 1)) ⊎ ((mode ≡ 2) ⊎ (mode ≡ 0x400))

may_open-Tested :
    (uid gid mode : ℕ) (ip : Dinode)
    → Tested mode
    → may_open uid gid mode ip ≡ check_permission_for_file uid gid ip (needed mode)
unfolding may_open
may_open-Tested uid gid mode ip (inl (inl e)) = rw (may_open, e) refl
may_open-Tested uid gid mode ip (inl (inr e)) = rw (may_open, e) refl
may_open-Tested uid gid mode ip (inr (inl e)) = rw (may_open, e) refl
may_open-Tested uid gid mode ip (inr (inr e)) = rw (may_open, e) refl

-- Without the permission that one of the tested modes needs, sys_open gives up the locked inode.
pub with_inode_denied :
    (mode ip : ℕ) (s : State)
    → Tested mode
    → check_permission_for_file s.sys.uid s.sys.gid (s.sys.volume.copy ip) (needed mode) ≡ false
    → with_inode mode ip s ≡ give_up_open ip s
unfolding with_inode
with_inode_denied mode ip s tested lacks =
    let c : Dinode = s.sys.volume.copy ip in
    let denied : may_open s.sys.uid s.sys.gid mode c ≡ false =
      may_open-Tested s.sys.uid s.sys.gid mode c tested ∙ lacks in
    elim (Bool-cases (not (has_create mode) && (c.type == 1 && not (mode == 0)))) [
      | inl q ↦ rw (with_inode, q) refl
      | inr q ↦ rw (with_inode, q, denied) refl
    ]

may_open-untested :
    (uid gid mode : ℕ) (ip : Dinode) → ¬ Tested mode → may_open uid gid mode ip ≡ true
unfolding may_open
may_open-untested uid gid mode ip untested =
    let a : (mode == 0) ≡ false = bool_no (λ e. untested (inl (inl e))) in
    let b : (mode == 1) ≡ false = bool_no (λ e. untested (inl (inr e))) in
    let c : (mode == 2) ≡ false = bool_no (λ e. untested (inr (inl e))) in
    let d : (mode == 0x400) ≡ false = bool_no (λ e. untested (inr (inr e))) in
    rw (may_open, a, b, d, c) refl
  where
    bool_no : {n : ℕ} → ¬ (mode ≡ n) → (mode == n) ≡ false
    bool_no ne = ground (arith, ne)

-- A mode that is none of the tested ones, as truncating a file to write it, needs no permission:
-- sys_open goes on to allocate the file whatever the masks are.
pub with_inode_unchecked :
    (mode ip : ℕ) (s : State)
    → ¬ Tested mode
    → (s.sys.volume.copy ip).type ≡ 2
    → with_inode mode ip s ≡ take_file mode ip s
unfolding with_inode
with_inode_unchecked mode ip s untested file =
    let c : Dinode = s.sys.volume.copy ip in
    let no_dir : (not (has_create mode) && (c.type == 1 && not (mode == 0))) ≡ false =
      ground (arith, file) in
    let no_device : bad_device c ≡ false = ground (arith, file) in
    rw (with_inode, no_dir, may_open-untested s.sys.uid s.sys.gid mode c untested, no_device) refl
