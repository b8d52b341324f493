-- ===== src/Log/Reserve.antt =====
-- The blocks that the operations in progress may still write fit into the log.
use os_cpp.Base.{
  ltb, leb, ◌==◌, Bool-cases, length, ok, Ensures, Returns, Ensures-if, ℕ, suc, ◌+◌, ◌-◌, ◌*◌, ◌%◌,
  ◌^◌, ◌≤◌, ◌<◌, ◌≡◌, refl, ◌∙◌, subst, inl, inr, Bool, true, false, ◌||◌, List, [], ◌∷◌, arith,
}
use os_cpp.Log.{log_size, max_op_blocks, Machine, Log, commit, begin_op, end_op, absorb, lwrite}

-- One operation writes a block: what each has left of its MAXOPBLOCKS blocks, before and after.
pub data Spends : List ℕ → List ℕ → Type 0 where
  here : (k : ℕ) (bs : List ℕ) → Spends (suc k ∷ bs) (k ∷ bs)
  there : (b : ℕ) (bs cs : List ℕ) → Spends bs cs → Spends (b ∷ bs) (b ∷ cs)

-- One operation ends, whatever it has left.
pub data Ends : List ℕ → List ℕ → Type 0 where
  first : (b : ℕ) (bs : List ℕ) → Ends (b ∷ bs) bs
  later : (b : ℕ) (bs cs : List ℕ) → Ends bs cs → Ends (b ∷ bs) (b ∷ cs)

-- The log, the disk with its cache, and what each operation in progress has left.
pub record System : Type 0 where
  pub log : Log
  pub machine : Machine
  pub left : List ℕ

-- What an operation does. A commit is a part of the `end_op` that runs it.
pub data Step : System → System → Type 0 where
  begins :
      (s : System) (l : Log)
      → begin_op [] s.log ≡ ok l
      → Step s (record s { log = l; left = max_op_blocks ∷ s.left })
  writes :
      (s : System) (b : ℕ) (r : Log × Bool) (cs : List ℕ)
      → Spends s.left cs
      → lwrite b s.log ≡ ok r
      → Step s (record s { log = r.0; left = cs })
  ends :
      (s : System) (r : Log × Machine × ℕ) (cs : List ℕ)
      → Ends s.left cs
      → end_op s.log s.machine ≡ ok r
      → Step s (record { log = r.0; machine = r.1; left = cs })
  changes : (s : System) (m : Machine) → Step s (record s { machine = m })

pub data Reach (s : System) : System → Type 0 where
  start : Reach s s
  step : (t u : System) → Reach s t → Step t u → Reach s u

abbrev total : List ℕ → ℕ
total [] = 0
total (b ∷ bs) = b + total bs

abbrev Small : List ℕ → Type 0
Small [] = Unit
Small (b ∷ bs) = (b ≤ max_op_blocks) × Small bs

-- The entries of the log, and what the operations may add to them, fit into its LOGSIZE blocks, and
-- these into the log's part of the disk.
pub record Reserved (l : Log) (left : List ℕ) : Type 0 where
  pub count : l.outstanding ≡ length left
  pub room : l.n + total left ≤ log_size
  pub few : l.outstanding ≤ 3
  pub small : Small left
  pub size : log_size < l.size

total_small : (bs : List ℕ) → Small bs → total bs ≤ length bs * max_op_blocks
total_small [] p = omega arith
total_small (b ∷ bs) (le, p) = omega (arith, total_small bs p, le)

Spends-total : (bs cs : List ℕ) → Spends bs cs → total bs ≡ total cs + 1
Spends-total _ _ (here k bs) = omega arith
Spends-total _ _ (there b bs cs p) = omega (arith, Spends-total bs cs p)

Spends-length : (bs cs : List ℕ) → Spends bs cs → length bs ≡ length cs
Spends-length _ _ (here k bs) = refl
Spends-length _ _ (there b bs cs p) = omega (arith, Spends-length bs cs p)

Spends-Small : (bs cs : List ℕ) → Spends bs cs → Small bs → Small cs
Spends-Small _ _ (here k bs) (le, q) = (omega (arith, le), q)
Spends-Small _ _ (there b bs cs p) (le, q) = (le, Spends-Small bs cs p q)

Ends-total : (bs cs : List ℕ) → Ends bs cs → total cs ≤ total bs
Ends-total _ _ (first b bs) = omega arith
Ends-total _ _ (later b bs cs p) = omega (arith, Ends-total bs cs p)

Ends-length : (bs cs : List ℕ) → Ends bs cs → length bs ≡ length cs + 1
Ends-length _ _ (first b bs) = omega arith
Ends-length _ _ (later b bs cs p) = omega (arith, Ends-length bs cs p)

Ends-Small : (bs cs : List ℕ) → Ends bs cs → Small bs → Small cs
Ends-Small _ _ (first b bs) (le, q) = q
Ends-Small _ _ (later b bs cs p) (le, q) = (le, Ends-Small bs cs p q)

begin_op-Reserved :
    (l : Log) (left : List ℕ)
    → Reserved l left
    → Ensures (λ l'. Reserved l' (max_op_blocks ∷ left)) (begin_op [] l)
unfolding begin_op
begin_op-Reserved l left r =
    let most : total left ≤ length left * max_op_blocks = total_small left r.small in
    elim (Bool-cases
      (l.committing || ltb log_size ((l.n + (l.outstanding + 1) * max_op_blocks) % 2 ^ 32))) [
        | inl q ↦ rw (begin_op, q) tt
        | inr q ↦
            let fits : l.n + (l.outstanding + 1) * max_op_blocks ≤ log_size =
              ground (arith, q, r.room, r.few) in
            rw (begin_op, q)
              (record {
                count = omega (arith, r.count, r.few);
                room = omega (arith, fits, most, r.count);
                few = omega (arith, fits, r.few);
                small = (omega arith, r.small);
                size = r.size;
              })
      ]

lwrite-Reserved :
    (b : ℕ) (l : Log) (left cs : List ℕ)
    → Reserved l left
    → Spends left cs
    → Returns (λ r. Reserved r.0 cs × (r.0.n ≤ log_size)) (lwrite b l)
unfolding lwrite
lwrite-Reserved b l left cs r p =
    let less : total left ≡ total cs + 1 = Spends-total left cs p in
    let same : length left ≡ length cs = Spends-length left cs p in
    let nonempty : 0 < length left = positive p in
    let room_left : (leb log_size l.n || leb l.size (l.n + 1)) ≡ false =
      ground (arith, less, r.room, r.size) in
    let open_op : ltb l.outstanding 1 ≡ false = ground (arith, nonempty, r.count) in
    elim (Bool-cases (absorb b l.block 0 l.n == l.n)) [
      | inl q ↦
          rw (lwrite, room_left, open_op, q)
            (
              record {
                count = r.count ∙ same;
                room = omega (arith, less, r.room);
                few = r.few;
                small = Spends-Small left cs p r.small;
                size = r.size;
              },
              omega (arith, less, r.room),
            )
      | inr q ↦
          rw (lwrite, room_left, open_op, q)
            (
              record {
                count = r.count ∙ same;
                room = omega (arith, less, r.room);
                few = r.few;
                small = Spends-Small left cs p r.small;
                size = r.size;
              },
              omega (arith, less, r.room),
            )
    ]
  where
    positive : {bs cs : List ℕ} → Spends bs cs → 0 < length bs
    positive (here k bs) = omega arith
    positive (there b bs cs p) = omega arith

end_op-Reserved :
    (l : Log) (m : Machine) (left cs : List ℕ)
    → Reserved l left
    → Ends left cs
    → Ensures (λ r. Reserved r.0 cs) (end_op l m)
unfolding end_op commit
end_op-Reserved l m left cs r p =
    let fewer : length left ≡ length cs + 1 = Ends-length left cs p in
    let small : Small cs = Ends-Small left cs p r.small in
    let most : total cs ≤ length cs * max_op_blocks = total_small cs small in
    let down : (l.outstanding + 2 ^ 32 - 1) % 2 ^ 32 ≡ length cs =
      omega (arith, fewer, r.count, r.few) in
    rw (end_op, down)
      (Ensures-if (λ q. Reserved q.0 cs) l.committing _ _ tt
        (elim (Bool-cases (length cs == 0)) [
          | inl q ↦
              rw q
                (committed (record l { outstanding = length cs; committing = true }) refl r.size q)
          | inr q ↦ rw q (record {
            count = refl;
            room = omega (arith, Ends-total left cs p, r.room);
            few = omega (arith, fewer, r.count, r.few);
            small = small;
            size = r.size;
          })
        ]))
  where
    none_left : (bs : List ℕ) → (length bs == 0) ≡ true → total bs ≡ 0
    none_left [] e = refl
    none_left (b ∷ bs) e = absurd (ground (arith, e))

    committed :
        (k : Log)
        → k.outstanding ≡ length cs
        → log_size < k.size
        → (length cs == 0) ≡ true
        → Reserved (record (commit k m).0 { committing = false }) cs
    committed k e big q = elim (Bool-cases (ltb 0 k.n)) [
      | inl p' ↦
          rw (commit, p')
            (record {
              count = e;
              room = omega (arith, none_left cs q);
              few = ground (arith, e, q);
              small = Ends-Small left cs p r.small;
              size = big;
            })
      | inr p' ↦
          let empty : k.n ≡ 0 = ground (arith, p') in
          rw (commit, p')
            (record {
              count = e;
              room = omega (arith, none_left cs q, empty);
              few = ground (arith, e, q);
              small = Ends-Small left cs p r.small;
              size = big;
            })
    ]

Step-Reserved : (s t : System) → Reserved s.log s.left → Step s t → Reserved t.log t.left
Step-Reserved _ _ r (begins s l e) =
    subst (Ensures (λ l'. Reserved l' (max_op_blocks ∷ s.left))) e
      (begin_op-Reserved s.log s.left r)
Step-Reserved _ _ r (writes s b q cs p e) =
    (subst (Returns (λ w. Reserved w.0 cs × (w.0.n ≤ log_size))) e
      (lwrite-Reserved b s.log s.left cs r p)).0
Step-Reserved _ _ r (ends s q cs p e) =
    subst (Ensures (λ w. Reserved w.0 cs)) e (end_op-Reserved s.log s.machine s.left cs r p)
Step-Reserved _ _ r (changes s m) = r

Reach-Reserved : (s t : System) → Reserved s.log s.left → Reach s t → Reserved t.log t.left
Reach-Reserved s _ r start = r
Reach-Reserved s _ r (step t u p q) = Step-Reserved t u (Reach-Reserved s t r p) q

-- Start with a log whose part of the disk has more than LOGSIZE blocks, and whose entries and the
-- blocks that the operations in progress, three at most, may still write come to LOGSIZE at most. Let
-- operations begin, write blocks and end in any order, each of them writing no more than MAXOPBLOCKS
-- blocks. Then a write by an operation that has blocks left returns: the log is never too small for
-- it, and holds at most LOGSIZE blocks after it.
pub lwrite_fits :
    (s t : System) (b : ℕ) (cs : List ℕ)
    → Reserved s.log s.left
    → Reach s t
    → Spends t.left cs
    → Returns (λ r. Reserved r.0 cs × (r.0.n ≤ log_size)) (lwrite b t.log)
lwrite_fits s t b cs r p q = lwrite-Reserved b t.log t.left cs (Reach-Reserved s t r p) q
