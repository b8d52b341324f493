-- ===== src/Open/Balance.antt =====
-- What `sys_open` leaves of the transaction, the open files and the descriptors.
use os_cpp.Base.{
  ◌==◌, Bool-cases, get_elem?, update, update_self, ◌>>=◌, Ensures, Ensures-bind, Ensures-after,
  Ensures-Returns, Ensures-option, Ensures-bool, ℕ, ◌+◌, ◌%◌, ◌^◌, ◌≡◌, refl, sym, ap, ◌∙◌, subst,
  inl, inr, false, Option, none, some, List, ◌∷◌, arith,
}
use os_cpp.Files.{fd_none, fd_inode, fd_device, File, Ftable, alloc, close, Files, fd_alloc}
use os_cpp.Files.Counts.{refers, count, Counted, Placed, fd_alloc-Placed, Closed, close-Counted}
use os_cpp.Files.Fresh.{Fresh, alloc-Fresh, Puts, fd_alloc-Puts}
use os_cpp.Content.{Dinode, ilock, iunlock, iunlockput}
use os_cpp.Content.Dirs.{namex}
use os_cpp.Sysfile.{Sys, begin_op, maxpath, get_argu, fetch_str}
use os_cpp.Sysfile.Balance.{Leaves, create_ops}
use os_cpp.Open.{
  State, has_create, may_open, bad_device, give_up_open, opened, fill_file, take_fd, take_file,
  with_inode, find_inode, sys_open,
}
use native.Mathlib.Decide.{ℕ_discrete}

-- The descriptor was free and now names `f`, which nobody else refers to.
pub record NamesFresh (others : ℕ → ℕ) (s s' : Files) (fd f : ℕ) : Type 0 where
  pub free : get_elem? s.ofile fd ≡ some none
  pub taken : get_elem? s'.ofile fd ≡ some (some f)
  pub fresh : others f + count f s.ofile ≡ 0
  pub known : ¬ ((s'.table f).kind ≡ fd_none)

-- The descriptors after the call: as before if it fails.
abbrev pub Descriptors : (ℕ → ℕ) → Files → Option ℕ → Files → Type 0
Descriptors others s none s' = s'.ofile ≡ s.ofile
Descriptors others s (some fd) s' = (f : ℕ) × NamesFresh others s s' fd f

-- The transaction is over, the counts are right, and a descriptor is taken exactly on success.
pub record Settled (others : ℕ → ℕ) (n : ℕ) (s : Files) (r : Option ℕ × State) : Type 0 where
  pub ops : r.1.sys.ops ≡ n
  pub counted : Counted others r.1.files
  pub descriptors : Descriptors others s r.0 r.1.files

module _ (others : ℕ → ℕ) (n : ℕ) (s : Files) where
  -- Nothing is open for the caller when the call gives up.
  give_up_open-Settled :
      (ip : ℕ) (t : State)
      → t.sys.ops ≡ n + 1
      → Counted others t.files
      → t.files.ofile ≡ s.ofile
      → Ensures (Settled others n s) (give_up_open ip t)
  unfolding give_up_open
  give_up_open-Settled ip t e counted same =
      Ensures-after (Settled others n s) (iunlockput ip t.sys.volume) _
        (λ v. record { ops = omega (arith, e); counted = counted; descriptors = same })

  opened-known : (mode ip : ℕ) (c : Dinode) (f : File) → ¬ ((opened mode c ip f).kind ≡ fd_none)
  opened-known mode ip c f e = elim (Bool-cases (c.type == 3)) [
    | inl q ↦ device (sym (rw q refl) ∙ e)
    | inr q ↦ inode (sym (rw q refl) ∙ e)
  ]
    where
      device : fd_device ≡ fd_none → ⊥
      device q = ground (arith, q)

      inode : fd_inode ≡ fd_none → ⊥
      inode q = ground (arith, q)

  fill_file-Settled :
      (mode ip f fd : ℕ) (t : State)
      → t.sys.ops ≡ n + 1
      → Counted others t.files
      → get_elem? s.ofile fd ≡ some none
      → get_elem? t.files.ofile fd ≡ some (some f)
      → others f + count f s.ofile ≡ 0
      → Ensures (Settled others n s) (fill_file mode ip f fd t)
  unfolding fill_file
  fill_file-Settled mode ip f fd t e counted free taken fresh =
      let c : Dinode = t.sys.volume.copy ip in
      let ff : File = opened mode c ip (t.files.table f) in
      Ensures-after (Settled others n s) _ _ (λ v1.
        Ensures-after (Settled others n s) (iunlock ip v1) _ (λ v2. record {
          ops = omega (arith, e);
          counted = same_counts ff refl;
          descriptors = (
            f,
            record {
              free = free;
              taken = taken;
              fresh = fresh;
              known = λ q.
                  opened-known mode ip c (t.files.table f)
                    (sym (ap (λ (x : File). x.kind) (update_self t.files.table f ff)) ∙ q);
            },
          );
        }))
    where
      same_counts :
          (ff : File)
          → ff.ref ≡ (t.files.table f).ref
          → Counted others (record t.files { table = update t.files.table f ff })
      same_counts ff r g = elim (ℕ_discrete f g) [
        | yes p ↦
            subst (λ k. (update t.files.table f ff k).ref ≡ others k + count k t.files.ofile) p
              (ground (arith, r, counted f))
        | no p ↦ ground (arith, counted g)
      ]

  take_fd-Settled :
      (mode ip f : ℕ) (t : State)
      → t.sys.ops ≡ n + 1
      → t.files.ofile ≡ s.ofile
      → Counted others (record t.files { ofile = some f ∷ t.files.ofile })
      → others f + count f s.ofile ≡ 0
      → Ensures (Settled others n s) (take_fd mode ip f t)
  unfolding take_fd
  take_fd-Settled mode ip f t e same counted fresh =
      go (fd_alloc f t.files.ofile) (fd_alloc-Placed f t.files.ofile)
        (fd_alloc-Puts f t.files.ofile)
    where
      both : Files
      both = record t.files { ofile = some f ∷ t.files.ofile }

      go :
          (o : Option (ℕ × List (Option ℕ)))
          → Placed f t.files.ofile o
          → Puts f t.files.ofile o
          → Ensures (Settled others n s) (elim o [
            | none ↦ close f t.files.table >>= λ r.
                give_up_open ip (record t { files = record t.files { table = r.1 }; closed = r.0 })
            | some (fd, ofile) ↦
                fill_file mode ip f fd (record t { files = record t.files { ofile = ofile } })
          ])
      go none placed puts =
          Ensures-bind (Closed others (t.files.table f) f t.files.ofile) (Settled others n s)
            (close f t.files.table)
            (λ r.
              give_up_open ip (record t { files = record t.files { table = r.1 }; closed = r.0 }))
            (Ensures-Returns (Closed others (t.files.table f) f t.files.ofile)
              (close f t.files.table)
              (close-Counted others both f t.files.ofile counted (λ g. refl)))
            (λ r h.
              give_up_open-Settled ip
                (record t { files = record t.files { table = r.1 }; closed = r.0 }) e h.0 same)
      go (some (fd, ofile)) placed puts =
          fill_file-Settled mode ip f fd (record t { files = record t.files { ofile = ofile } }) e
            (λ g. counted g ∙ ap (λ k. others g + k) (sym (placed g)))
            (ap (λ fds. get_elem? fds fd) (sym same) ∙ puts.0) puts.1 fresh

  take_file-Settled :
      (mode ip : ℕ) (t : State)
      → t.sys.ops ≡ n + 1
      → t.files ≡ s
      → Counted others s
      → Ensures (Settled others n s) (take_file mode ip t)
  unfolding take_file
  take_file-Settled mode ip t e same counted =
      go (alloc t.files.table)
        (subst (λ x. Fresh others s (alloc x.table)) (sym same) (alloc-Fresh others s counted))
    where
      same_fds : t.files.ofile ≡ s.ofile
      same_fds = ap (λ (x : Files). x.ofile) same

      go :
          (o : Option (ℕ × Ftable))
          → Fresh others s o
          → Ensures (Settled others n s) (elim o [
            | none ↦ give_up_open ip t
            | some (f, table) ↦
                take_fd mode ip f (record t { files = record t.files { table = table } })
          ])
      go none fresh =
          give_up_open-Settled ip t e (subst (Counted others) (sym same) counted) same_fds
      go (some (f, table)) (fresh, one) =
          take_fd-Settled mode ip f (record t { files = record t.files { table = table } }) e
            same_fds (λ g. joined g) fresh
        where
          joined : (g : ℕ) → (table g).ref ≡ others g + (refers g (some f) + count g t.files.ofile)
          joined g = elim (ℕ_discrete f g) [
            | yes p ↦ ground (
              arith,
              one g,
              fresh,
              ap (count g) same_fds,
              p,
              ap others p,
              ap (λ k. count k s.ofile) p,
            )
            | no p ↦ ground (arith, one g, ap (count g) same_fds, p)
          ]

  with_inode-Settled :
      (mode ip : ℕ) (t : State)
      → t.sys.ops ≡ n + 1
      → t.files ≡ s
      → Counted others s
      → Ensures (Settled others n s) (with_inode mode ip t)
  unfolding with_inode
  with_inode-Settled mode ip t e same counted =
      Ensures-bool (Settled others n s) _ _ _
        (Ensures-bool (Settled others n s) (may_open t.sys.uid t.sys.gid mode _) _ _ out (
          Ensures-bool (Settled others n s) (bad_device (t.sys.volume.copy ip)) _ _
            (take_file-Settled mode ip t e same counted) out))
        out
    where
      out : Ensures (Settled others n s) (give_up_open ip t)
      out =
          give_up_open-Settled ip t e (subst (Counted others) (sym same) counted)
            (ap (λ (x : Files). x.ofile) same)

-- The search for the inode opens and closes no transaction.
find_inode_ops : (mode : ℕ) (path : List ℕ) (s : Sys) → Leaves s.ops (find_inode mode path s)
unfolding find_inode
find_inode_ops mode path s =
    Ensures-bool _ (has_create mode) _ _
      (Ensures-after _ (namex s.cwd path false _ s.volume) _
        (λ r. Ensures-option _ r.0 _ _ refl (λ ip. Ensures-after _ (ilock ip _) _ (λ v. refl))))
      (create_ops path 2 0 0 s)

-- Let the reference count of every open file be the number of references to it. However sys_open
-- returns, errors included, it has ended its transaction, and the counts are still right. If it
-- returns -1 the descriptors are as they were; if it returns a descriptor, that was free, and now
-- names an open file with a type that nobody referred to before.
pub sys_open-Settled :
    (others : ℕ → ℕ) (s : State)
    → Counted others s.files
    → Ensures (Settled others s.sys.ops s.files) (sys_open s)
unfolding sys_open
sys_open-Settled others s counted = Ensures-after _ (get_argu 1 s.sys) _ (λ arg.
    Ensures-after _ (get_argu 0 s.sys) _ (λ addr.
      Ensures-after _ (fetch_str addr maxpath s.sys) _ (λ fetched.
        Ensures-option _ fetched _ _ (record { ops = refl; counted = counted; descriptors = refl })
          (λ path.
            Ensures-bind (λ r. r.1.ops ≡ s.sys.ops + 1) _
              (find_inode (arg % 2 ^ 32) path (begin_op s.sys)) _
              (find_inode_ops (arg % 2 ^ 32) path (begin_op s.sys))
              (λ r e.
                Ensures-option _ r.0 _ _
                  (record { ops = omega (arith, e); counted = counted; descriptors = refl })
                  (λ ip.
                    with_inode-Settled others s.sys.ops s.files (arg % 2 ^ 32) ip _ e refl
                      counted))))))
