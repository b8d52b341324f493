-- ===== src/Log/Atomic.antt =====
-- A commit is atomic: whatever write a crash follows, recovery finds the home blocks all as they
-- were on the disk before, or all as the commit was to leave them.
use os_cpp.Base.{
  ltb, Bool-cases, ℕ, ◌+◌, ◌≤◌, ◌<◌, ◌≡◌, refl, sym, ap, ◌∙◌, subst, ◌⊎◌, inl, inr, false, [],
  arith,
}
use os_cpp.Log.{Block, Disk, Machine, Log, whead, install_trans, write_log, commit}
use os_cpp.Log.Replay.{replay, IsHome, replay_block_cong}
use os_cpp.Log.Install.{All, Installed, Progress, install_loop-Progress}
use os_cpp.Log.Header.{whead_count, whead_block, whead-disk, whead-cache, whead-crashes}
use os_cpp.Log.Recover.{
  count_on, block_on, HasTargets, recovered, home_ne_start, Installed-recovered, Installed-block,
  recovered-cleared,
}
use os_cpp.Log.Commit.{committed, LogTargets, replay-committed, Written, Before, write_loop-Written}

-- Recovery of the disk `e` yields the old home blocks, or the new ones.
abbrev pub IsOld : Log → Machine → Disk → Type 0
IsOld l m e = (b : ℕ) → IsHome l.start l.block l.n b → recovered l e b ≡ m.disk b

abbrev pub IsNew : Log → Machine → Disk → Type 0
IsNew l m e =
    (b : ℕ)
    → IsHome l.start l.block l.n b
    → recovered l e b ≡ committed l.block m.cache m.disk l.n b

abbrev pub IsAtomic : Log → Machine → Disk → Type 0
IsAtomic l m e = IsOld l m e ⊎ IsNew l m e

module _ (l : Log) (m : Machine) (t : LogTargets l) (idle : m.disk l.start 0 ≡ 0)
    (fresh : m.crashes ≡ []) where
  Before-IsAtomic : (e : Disk) → Before l m.disk e → IsAtomic l m e
  Before-IsAtomic e (header, home) = inl (λ b h.
      recovered-cleared l e b (ap (λ (hd : Block). hd 0) header ∙ idle)
        (home_ne_start l.start l.block l.n b h)
      ∙ home b h)

  logged : Machine
  logged = write_log l m

  logged-Written : Written l m (IsAtomic l m) l.n logged
  unfolding logged write_log
  logged-Written =
      write_loop-Written l m t (IsAtomic l m) Before-IsAtomic 0 l.n m (omega arith) (record {
        header = refl;
        home = λ b h. refl;
        cached_home = λ b h. refl;
        slots = λ i h. absurd (omega arith);
        cached_slots = λ i h. absurd (omega arith);
        safe = rw fresh tt;
      })

  headed : Machine
  headed = whead l logged

  headed_slots : (i : ℕ) → i < l.n → headed.disk (l.start + i + 1) ≡ m.cache (l.block i)
  unfolding headed
  headed_slots i lt =
      whead-disk l logged (l.start + i + 1) (omega arith) ∙ logged-Written.slots i lt

  headed_count : count_on l headed.disk ≡ l.n
  unfolding headed
  headed_count = whead_count l logged

  headed_block : (i : ℕ) → i < l.n → l.block i ≡ block_on l headed.disk i
  unfolding headed
  headed_block i lt = sym (whead_block l logged i lt)

  headed-HasTargets : HasTargets l headed.disk
  headed-HasTargets i lt =
      let e = headed_block i (omega (arith, headed_count)) in
      rw (← e) (omega (arith, headed_count, t i (omega (arith, headed_count))))

  Installed-IsNew :
      (k : ℕ) (e : Disk)
      → k ≤ l.n
      → Installed l.start l.block l.n headed.disk m.disk k e
      → IsNew l m e
  Installed-IsNew k e le inst b h =
      Installed-recovered l headed.disk m.disk e k headed-HasTargets (omega (arith, headed_count))
        (subst (λ n. Installed l.start (block_on l headed.disk) n headed.disk m.disk k e)
          (sym headed_count)
          (Installed-block l.start l.block (block_on l headed.disk) l.n headed.disk m.disk k e
            headed_block le inst))
        b (omega (arith, headed_count))
      ∙ ap (λ n. replay l.start (block_on l headed.disk) headed.disk n m.disk b) headed_count
      ∙ sym (
          replay_block_cong l.start l.block (block_on l headed.disk) headed.disk m.disk l.n b
            headed_block)
      ∙ replay-committed l.start l.block headed.disk m.cache m.disk l.n b headed_slots

  headed-Installed : Installed l.start l.block l.n headed.disk m.disk 0 headed.disk
  headed-Installed = record {
    header = refl;
    slots = λ i lt. refl;
    home = λ b h.
        unfold headed in
        (whead-disk l logged b (home_ne_start l.start l.block l.n b h) ∙ logged-Written.home b h);
  }

  headed-Progress : Progress l.start l.block l.n headed.disk m.disk (IsAtomic l m) 0 headed
  headed-Progress = record {
    cached = λ i lt.
        unfold headed in
        (whead-cache l logged (l.start + i + 1) (omega arith)
          ∙ logged-Written.cached_slots i lt
          ∙ sym (headed_slots i lt));
    on_disk = headed-Installed;
    safe =
        unfold headed in
        whead-crashes (IsAtomic l m) l logged
          (inr (Installed-IsNew 0 _ (omega arith) headed-Installed)) logged-Written.safe;
  }

  installed : Machine
  installed = install_trans false l headed

  installed-Progress : Progress l.start l.block l.n headed.disk m.disk (IsAtomic l m) l.n installed
  unfolding installed install_trans
  installed-Progress =
      install_loop-Progress l.start l.block l.n headed.disk m.disk (IsAtomic l m)
        (λ k e le inst. inr (Installed-IsNew k e le inst)) false 0 l.n headed (omega arith) t
        headed-Progress

  cleared : Log
  cleared = record l { n = 0 }

  final_home :
      (b : ℕ)
      → IsHome l.start l.block l.n b
      → (whead cleared installed).disk b ≡ committed l.block m.cache m.disk l.n b
  unfolding cleared
  final_home b h =
      whead-disk (record l { n = 0 }) installed b (home_ne_start l.start l.block l.n b h)
      ∙ installed-Progress.on_disk.home b h
      ∙ replay-committed l.start l.block headed.disk m.cache m.disk l.n b headed_slots

  final-IsNew : IsNew l m (whead cleared installed).disk
  unfolding cleared
  final-IsNew b h =
      recovered-cleared l _ b (whead_count (record l { n = 0 }) installed)
        (home_ne_start l.start l.block l.n b h)
      ∙ final_home b h

  -- Take a log whose entries are home blocks, and a disk whose header counts no blocks. Whichever
  -- write of the commit a crash follows, recovery of the disk that it leaves gives the home blocks
  -- all as they were on the disk, or all as the cache had them where the log names them.
  pub commit-IsAtomic : All (IsAtomic l m) (commit l m).1.crashes
  unfolding commit logged headed installed cleared
  commit-IsAtomic = elim (Bool-cases (ltb 0 l.n)) [
    | inl some_blocks ↦
        rw (some_blocks, All)
          (whead-crashes (IsAtomic l m) cleared installed (inr final-IsNew) installed-Progress.safe)
    | inr e ↦ rw (e, All) (rw fresh tt)
  ]

  -- A commit that runs to its end leaves each home block that the log names as the cache has it, the
  -- others as they were, and an empty log in memory and, as before, on the disk.
  pub commit_lem :
      ((b : ℕ)
        → IsHome l.start l.block l.n b
        → (commit l m).1.disk b ≡ committed l.block m.cache m.disk l.n b)
      × ((commit l m).0.n ≡ 0)
      × ((commit l m).1.disk l.start 0 ≡ 0)
  unfolding commit logged headed installed cleared
  commit_lem = elim (Bool-cases (ltb 0 l.n)) [
    | inl e ↦ rw e (final_home, refl, whead_count (record l { n = 0 }) installed)
    | inr e ↦
        let none_yet : l.n ≡ 0 = ground arith in
        rw e (λ b h. ap (λ n. committed l.block m.cache m.disk n b) (sym none_yet), none_yet, idle)
  ]
