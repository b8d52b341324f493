-- ===== src/Sysfile/Balance.antt =====
-- The transactions of the calls on directories.
use os_cpp.Base.{
  ◌==◌, if◌then◌else◌, Outcome, Ensures, Ensures-bind, Ensures-after, Ensures-option, Ensures-bool,
  ℕ, ◌+◌, ◌%◌, ◌^◌, ◌≡◌, refl, false, List, arith,
}
use os_cpp.Vm.Copy.{copyinstr}
use os_cpp.Content.{ndirect, nindirect, ilock, iunlock, iput, iunlockput}
use os_cpp.Content.Dirs.{namex}
use os_cpp.Sysfile.{Sys, begin_op, maxpath, get_argu, chars, fetch_str, create, create_for}
use os_cpp.Sysfile.Calls.{sys_chdir, sys_mkdir, sys_mknod}

-- The call leaves `n` transactions open.
abbrev pub Leaves {ℓ} : {A : Type ℓ} → ℕ → Outcome (A × Sys) → Type 0
Leaves n o = Ensures (λ r. r.1.ops ≡ n) o

chdir_ops : (s : Sys) → Leaves s.ops (sys_chdir s)
unfolding sys_chdir
chdir_ops s = Ensures-after _ (get_argu 0 _) _ (λ addr.
    Ensures-after _ (fetch_str addr maxpath _) _ (λ fetched.
      Ensures-option _ fetched _ _ (omega arith) (λ path.
        Ensures-after _ (namex _ path false _ _) _ (λ r.
          Ensures-option _ r.0 _ _ (omega arith) (λ ip. Ensures-after _ (ilock ip r.2) _ (λ v.
            Ensures-bool _ ((v.copy ip).type == 1) _ _
              (Ensures-after _ (iunlockput ip v) _ (λ w. omega arith))
              (Ensures-after _ (iunlock ip v) _
                (λ v1. Ensures-after _ (iput _ v1) _ (λ w. omega arith)))))))))

-- `create` opens and closes no transaction.
pub create_ops :
    (path : List ℕ) (type major minor : ℕ) (s : Sys)
    → Leaves s.ops (create_for path type major minor s)
unfolding create_for
create_ops path type major minor s =
    Ensures-after _ (create _ _ _ path type major minor _) _ (λ r. refl)

mkdir_ops : (s : Sys) → Leaves s.ops (sys_mkdir s)
unfolding sys_mkdir
mkdir_ops s = Ensures-after _ (get_argu 0 _) _ (λ addr.
    Ensures-after _ (fetch_str addr maxpath _) _ (λ fetched.
      Ensures-option _ fetched _ _ (omega arith) (λ path.
        Ensures-bind _ _ (create_for path 1 0 0 _) _ (create_ops path 1 0 0 (begin_op s)) (λ r e.
          Ensures-option _ r.0 _ _ (omega (arith, e))
            (λ ip. Ensures-after _ (iunlockput ip _) _ (λ w. omega (arith, e)))))))

mknod_ops : (s : Sys) → Ensures (λ r. r.1.ops ≡ (if r.0 then s.ops else s.ops + 1)) (sys_mknod s)
unfolding sys_mknod
mknod_ops s = Ensures-after _ (get_argu 1 _) _ (λ major. Ensures-after _ (get_argu 2 _) _ (λ minor.
    Ensures-after _ (get_argu 0 _) _ (λ addr.
      Ensures-after _ (copyinstr _ _ addr (ndirect + nindirect) _) _ (λ fetched.
        Ensures-bool _ (fetched.1 maxpath == 256) _ _ tt (
          Ensures-bool _ fetched.0 _ _ refl (
            Ensures-bind _ _
              (create_for (chars maxpath fetched.1) 3 (major % 2 ^ 16) (minor % 2 ^ 16) _) _
              (create_ops (chars maxpath fetched.1) 3 (major % 2 ^ 16) (minor % 2 ^ 16)
                (begin_op s))
              (λ r e.
                Ensures-option _ r.0 _ _ e
                  (λ ip. Ensures-after _ (iunlockput ip _) _ (λ w. omega (arith, e))))))))))

-- However sys_chdir and sys_mkdir return, the transaction that they have begun is ended. sys_mknod
-- ends it if it returns 0; if it returns -1 the transaction stays open.
pub sys_ops :
    (s : Sys)
    → Leaves s.ops (sys_chdir s)
      × Leaves s.ops (sys_mkdir s)
      × Ensures (λ r. r.1.ops ≡ (if r.0 then s.ops else s.ops + 1)) (sys_mknod s)
sys_ops s = (chdir_ops s, mkdir_ops s, mknod_ops s)
