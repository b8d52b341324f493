-- ===== src/Sysfile/Calls.antt =====
-- kernel/sysfile.cpp: `sys_chdir`, `sys_mkdir`, `sys_mknod`, `sys_setuid` and `sys_setgid`.
use os_cpp.Base.{◌==◌, ok, fault, Outcome, ◌>>=◌, ◌+◌, ◌%◌, ◌^◌, Bool, true, false, none, some}
use os_cpp.Vm.Copy.{copyinstr}
use os_cpp.Fs.{dirsiz}
use os_cpp.Content.{ndirect, nindirect, set_copy, ilock, iunlock, iput, iunlockput}
use os_cpp.Content.Dirs.{namex}
use os_cpp.Sysfile.{
  Sys, begin_op, end_op, set_volume, maxpath, get_argu, chars, fetch_str, zeros, create_for,
}

-- The result of a call: true is 0, false is -1.
unfoldable pub sys_chdir : Sys → Outcome (Bool × Sys)
sys_chdir s =
    let s0 = begin_op s in
    get_argu 0 s0 >>= λ addr. fetch_str addr maxpath s0 >>= λ fetched. elim fetched [
      | none ↦ ok (false, end_op s0)
      | some path ↦ namex s0.cwd path false (zeros dirsiz) s0.volume >>= λ r. elim r.0 [
        | none ↦ ok (false, end_op (set_volume r.2 s0))
        | some ip ↦ ilock ip r.2 >>= λ v. elim ((v.copy ip).type == 1) [
          | false ↦ iunlockput ip v >>= λ w. ok (false, end_op (set_volume w s0))
          | true ↦ iunlock ip v >>= λ v1.
              iput s0.cwd v1 >>= λ w. ok (true, record (end_op (set_volume w s0)) { cwd = ip })
        ]
      ]
    ]

unfoldable pub sys_mkdir : Sys → Outcome (Bool × Sys)
sys_mkdir s =
    let s0 = begin_op s in
    get_argu 0 s0 >>= λ addr. fetch_str addr maxpath s0 >>= λ fetched. elim fetched [
      | none ↦ ok (false, end_op s0)
      | some path ↦ create_for path 1 0 0 s0 >>= λ r. elim r.0 [
        | none ↦ ok (false, end_op r.1)
        | some ip ↦
            let v = r.1.volume in
            let c = record (v.copy ip) {
              uid = s.uid;
              gid = s.gid;
              mask_user = 7;
              mask_group = 7;
              mask_other = 7;
            } in
            iunlockput ip (set_copy ip c v) >>= λ w. ok (true, end_op (set_volume w r.1))
      ]
    ]

-- The path is read with the bound MAXFILE, 268, into an array of MAXPATH characters: 256 stands for a
-- character that is not written, so `fetched` tells whether the first one past the array is. The two
-- ways out with -1 do not call `end_op`. The numbers of the device are cut to 16 bits.
unfoldable pub sys_mknod : Sys → Outcome (Bool × Sys)
sys_mknod s =
    let s0 = begin_op s in
    get_argu 1 s0 >>= λ major. get_argu 2 s0 >>= λ minor. get_argu 0 s0 >>= λ addr.
    copyinstr s0.pagetable (λ j. 256) addr (ndirect + nindirect) s0.mem >>= λ fetched.
    elim (fetched.1 maxpath == 256) [
      | false ↦ fault
      | true ↦ elim fetched.0 [
        | false ↦ ok (false, s0)
        | true ↦
            create_for (chars maxpath fetched.1) 3 (major % 2 ^ 16) (minor % 2 ^ 16) s0 >>= λ r.
            elim r.0 [
              | none ↦ ok (false, r.1)
              | some ip ↦ iunlockput ip r.1.volume >>= λ w. ok (true, end_op (set_volume w r.1))
            ]
      ]
    ]

unfoldable pub sys_setuid : Sys → Outcome (Bool × Sys)
sys_setuid s = get_argu 0 s >>= λ id. ok (true, record s { uid = id % 2 ^ 32 })

unfoldable pub sys_setgid : Sys → Outcome (Bool × Sys)
sys_setgid s = get_argu 0 s >>= λ id. ok (true, record s { gid = id % 2 ^ 32 })
