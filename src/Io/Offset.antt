-- ===== src/Io/Offset.antt =====
-- The offset of a file, and the transactions of a write.
use os_cpp.Base.{
  ltb, leb, ◌==◌, if◌then◌else◌, ==_iff, Bool-cases, ok, Outcome, Ensures, Ensures-mono,
  Ensures-bind, Ensures-after, Ensures-if, ℕ, zero, suc, ◌+◌, ◌-◌, ◌%◌, ◌^◌, ◌≤◌, ◌<◌, ◌≡◌, refl,
  ap, ◌∙◌, ◌⊎◌, inl, inr, Bool, true, false, Option, none, some, List, [], ◌∷◌, arith,
}
use os_cpp.Content.{Volume, ilock, iunlock}
use os_cpp.Content.Data.{either_copyin, writei}
use os_cpp.Sysfile.{Sys, begin_op, end_op, set_volume}
use os_cpp.Io.{
  File, advance, max_write, write_some, Turn, take_turn, later, write_loop, write_inode,
}

-- The transactions are as before; if all `n` bytes are written, and `undisturbed`, the offset is `n`
-- further.
pub record Moves (undisturbed : Type 0) (n : ℕ) (f : File) (s : Sys) (r : Bool × File × Sys)
    : Type 0 where
  pub ops : r.2.ops ≡ s.ops
  pub off : undisturbed → r.0 ≡ true → r.1.off ≡ (f.off + n) % 2 ^ 32

abbrev Alone : List Turn → Type 0
Alone turns = turns ≡ []

write_some-Moves :
    (f : File) (addr n1 : ℕ) (s : Sys) → Ensures (Moves Unit n1 f s) (write_some f addr n1 s)
unfolding write_some
write_some-Moves f addr n1 s = Ensures-after (Moves Unit n1 f s) (ilock f.ip s.volume) _ (λ v.
    Ensures-after (Moves Unit n1 f s)
      (writei (either_copyin true s.pagetable) f.ip addr f.off n1 v s.mem) _
      (λ r. Ensures-after (Moves Unit n1 f s) (iunlock f.ip r.1) _ (λ w. moved r.0 w)))
  where
    moved :
        (o : Option ℕ) (w : Volume)
        → Moves Unit n1 f s (elim o [
          | none ↦ (false, f, end_op (set_volume w (begin_op s)))
          | some m ↦ (m == n1, advance m f, end_op (set_volume w (begin_op s)))
        ])
    moved none w = record { ops = omega arith; off = λ a q. absurd (ground (arith, q)) }
    moved (some m) w = record {
      ops = omega arith;
      off = λ a q. ap (λ k. (f.off + k) % 2 ^ 32) ((==_iff m n1).0 q);
    }

take_turn-ops : (turns : List Turn) (f : File) (s : Sys) → (take_turn turns f s).1.ops ≡ s.ops
take_turn-ops [] f s = refl
take_turn-ops (t ∷ turns) f s = refl

take_turn_alone :
    (turns : List Turn) (f : File) (s : Sys) → Alone turns → (take_turn turns f s).0 ≡ f
take_turn_alone turns f s e = ap (λ ts. (take_turn ts f s).0) e

round :
    (turns : List Turn) (f : File) (n n1 : ℕ) (s : Sys) (r : Bool × File × Sys)
    (next : File → Sys → Outcome (Bool × File × Sys))
    → n1 ≤ n
    → Moves Unit n1 f s r
    → ((g : File) (s' : Sys)
        → Ensures (Moves (Alone (later turns) × (g.off < 2 ^ 32)) (n - n1) g s') (next g s'))
    → Ensures
        (Moves (Alone turns) n f s)
        (elim r.0 [ false ↦ ok r | true ↦ let (g, s') = take_turn turns r.1 r.2 in next g s' ])
round turns f n n1 s (false, g, s') next few h k = record {
  ops = h.ops;
  off = λ a q. absurd (ground (arith, q));
}
round turns f n n1 s (true, g, s') next few h k =
    let (g', s2) : File × Sys = take_turn turns g s' in
    Ensures-mono (Moves (Alone (later turns) × (g'.off < 2 ^ 32)) (n - n1) g' s2)
      (Moves (Alone turns) n f s) (next g' s2)
      (λ q m. record {
        ops = m.ops ∙ take_turn-ops turns g s' ∙ h.ops;
        off = λ a e.
            let same : g'.off ≡ g.off = ap (λ x. x.off) (take_turn_alone turns g s' a) in
            let moved : g.off ≡ (f.off + n1) % 2 ^ 32 = h.off tt refl in
            omega (arith, m.off (ap later a, omega (arith, same, moved)) e, same, moved, few);
      })
      (k g' s2)

write_loop-Moves :
    (turns : List Turn) (fuel : ℕ) (f : File) (addr left : ℕ) (s : Sys)
    → left ≤ fuel
    → Ensures
        (Moves (Alone turns × (f.off < 2 ^ 32)) left f s)
        (write_loop turns fuel f addr left s)
unfolding write_loop
write_loop-Moves turns zero f addr zero s le = record {
  ops = refl;
  off = λ a q. omega (arith, a.1);
}
write_loop-Moves turns (suc fuel) f addr zero s le = record {
  ops = refl;
  off = λ a q. omega (arith, a.1);
}
write_loop-Moves turns zero f addr (suc left) s le = absurd (omega arith)
write_loop-Moves turns (suc fuel) f addr (suc left) s le =
    let n1 : ℕ = if ltb max_write (suc left) then max_write else suc left in
    let some_bytes : 0 < n1 = ground arith in
    let few : n1 ≤ suc left = ground arith in
    Ensures-mono (Moves (Alone turns) (suc left) f s)
      (Moves (Alone turns × (f.off < 2 ^ 32)) (suc left) f s) _
      (λ r h. record { ops = h.ops; off = λ a q. h.off a.0 q })
      (Ensures-bind (Moves Unit n1 f s) (Moves (Alone turns) (suc left) f s) _ _
        (write_some-Moves f addr n1 s)
        (λ r h. round turns f (suc left) n1 s r _ few h (λ g s'.
          write_loop-Moves (later turns) fuel g ((addr + n1) % 2 ^ 64) (suc left - n1) s'
            (omega (arith, some_bytes)))))

-- A write to an inode leaves no transaction open, whatever others who share the file do between its
-- rounds, and it returns `n` or -1. If it returns `n` and nobody came in between, the offset of the
-- file is `n` bytes further.
pub write_inode_lem :
    (turns : List Turn) (f : File) (addr n : ℕ) (s : Sys)
    → f.off < 2 ^ 32
    → Ensures
        (λ r.
          (r.2.ops ≡ s.ops)
          × ((r.0 ≡ none) ⊎ ((r.0 ≡ some n) × (turns ≡ [] → r.1.off ≡ (f.off + n) % 2 ^ 32))))
        (write_inode turns f addr n s)
unfolding write_inode
write_inode_lem turns f addr n s small =
    Ensures-if _ (leb (2 ^ 31) n) _ _ (refl, inl refl)
      (Ensures-bind (Moves (Alone turns × (f.off < 2 ^ 32)) n f s) _ (write_loop turns n f addr n s)
        _ (write_loop-Moves turns n f addr n s (omega arith))
        (λ r h. (h.ops, outcome r h (Bool-cases r.0))))
  where
    outcome :
        (r : Bool × File × Sys)
        → Moves (Alone turns × (f.off < 2 ^ 32)) n f s r
        → (r.0 ≡ true) ⊎ (r.0 ≡ false)
        → ((if r.0 then some n else none) ≡ none)
          ⊎ (((if r.0 then some n else none) ≡ some n)
              × (turns ≡ [] → r.1.off ≡ (f.off + n) % 2 ^ 32))
    outcome r h (inl e) = inr (rw e refl, λ a. h.off (a, small) e)
    outcome r h (inr e) = inl (rw e refl)
