-- ===== src/Loader/Segments.antt =====
-- The state after the reading of headers and of segments.
use os_cpp.Base.{
  ◌==◌, if◌then◌else◌, ok, Ensures, Ensures-mono, Ensures-bind, Ensures-after, Ensures-option,
  Ensures-bool, ℕ, zero, suc, ◌+◌, ◌%◌, ◌^◌, ◌≡◌, refl, ◌∙◌, none, some, arith,
}
use os_cpp.Vm.{Mem}
use os_cpp.Vm.User.{uvm_alloc}
use os_cpp.Content.{Volume}
use os_cpp.Content.Data.{readi}
use os_cpp.Content.Dirs.{to_array}
use os_cpp.Sysfile.{Sys, set_volume}
use os_cpp.Loader.{loadseg, field, read_header, bad_segment, load_segments}

-- The same transactions but `n`, the same memory of the process.
pub record Same (n : ℕ) (s s' : Sys) : Type 0 where
  pub ops : s'.ops + n ≡ s.ops
  pub pagetable : s'.pagetable ≡ s.pagetable
  pub sz : s'.sz ≡ s.sz

Same-refl : (s : Sys) → Same 0 s s
Same-refl s = record { ops = omega arith; pagetable = refl; sz = refl }

pub Same-trans : (s s' s'' : Sys) → Same 0 s s' → Same 0 s' s'' → Same 0 s s''
Same-trans s s' s'' h k = record {
  ops = omega (arith, h.ops, k.ops);
  pagetable = k.pagetable ∙ h.pagetable;
  sz = k.sz ∙ h.sz;
}

pub read_header-mem :
    (ip off n : ℕ) (s : Sys)
    → Ensures (λ r. Same 0 s r.1 × (r.1.mem ≡ s.mem)) (read_header ip off n s)
unfolding read_header
read_header-mem ip off n s =
    Ensures-after (λ r. Same 0 s r.1 × (r.1.mem ≡ s.mem))
      (readi to_array ip 0 (off % 2 ^ 32) n s.volume (λ j. 0))
      (λ r. ok (if r.0 == n then some r.2 else none, set_volume r.1 s))
      (λ r. (same_volume r.1, refl))
  where
    same_volume : (v : Volume) → Same 0 s (set_volume v s)
    same_volume v = record { ops = omega arith; pagetable = refl; sz = refl }

read_header-Same : (ip off n : ℕ) (s : Sys) → Ensures (λ r. Same 0 s r.1) (read_header ip off n s)
read_header-Same ip off n s =
    Ensures-mono _ (λ r. Same 0 s r.1) _ (λ r h. h.0) (read_header-mem ip off n s)

pub load_segments-Same :
    (left pt ip off sz : ℕ) (s : Sys)
    → Ensures (λ r. Same 0 s r.2) (load_segments left pt ip off sz s)
unfolding load_segments
load_segments-Same zero pt ip off sz s = Same-refl s
load_segments-Same (suc left) pt ip off sz s =
    Ensures-bind (λ r. Same 0 s r.1) _ _ _ (read_header-Same ip off 56 s)
      (λ h e. Ensures-option _ h.0 _ _ e (λ ph.
        Ensures-bool _ (field ph 0 4 == 1) _ _
          (Ensures-mono (λ r. Same 0 h.1 r.2) (λ r. Same 0 s r.2) _
            (λ r k. Same-trans s h.1 r.2 e k) (load_segments-Same left pt ip _ sz h.1))
          (Ensures-bool _ (bad_segment ph) _ _
            (Ensures-after _ (uvm_alloc pt sz _ _ h.1.mem) _ (λ a.
              Ensures-bool _ (a.0 == 0) _ _
                (Ensures-after _ (loadseg pt _ ip _ _ h.1.volume a.1) _ (λ l.
                  Ensures-bool _ l.0 _ _ (with_mem e) (
                    Ensures-mono (λ r. Same 0 (record h.1 { volume = l.1; mem = l.2 }) r.2)
                      (λ r. Same 0 s r.2) _ (λ r k. Same-trans s _ r.2 (with_mem e) k)
                      (load_segments-Same left pt ip _ a.0 _))))
                (with_mem e)))
            e)))
  where
    with_mem :
        {s s' : Sys} {v : Volume} {m : Mem}
        → Same 0 s s'
        → Same 0 s (record s' { volume = v; mem = m })
    with_mem e = record { ops = e.ops; pagetable = e.pagetable; sz = e.sz }
