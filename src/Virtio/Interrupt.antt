-- ===== src/Virtio/Interrupt.antt =====
-- kernel/virtio_disk.cpp: `virtio_disk_intr`.
-- The used ring that the device has written, its index and the index up to which the driver has come
-- are arguments. `woken` records the calls of `proc::wakeup`, the latest first.
use os_cpp.Base.{
  ◌==◌, if◌then◌else◌, ==_iff, update, update_self, ok, panic, blocked, fault, Outcome, Returns,
  Returns-mono, ℕ, zero, suc, ◌+◌, ◌-◌, ◌%◌, ◌^◌, ◌<◌, ◌≡◌, sym, ap, ◌∙◌, subst, ◌⊎◌, inl, inr,
  true, false, none, some, List, [], ◌∷◌, arith,
}
use os_cpp.Virtio.{num, Disk}

-- The loop of `virtio_disk_intr`, with a round for each request between the two indices.
pub intr_loop : ℕ → (ℕ → ℕ) → ℕ → ℕ → Disk → List ℕ → Outcome (ℕ × Disk × List ℕ)
intr_loop zero used idx used_idx d woken =
    if used_idx == idx then ok (used_idx, d, woken) else blocked
intr_loop (suc fuel) used idx used_idx d woken = elim (used_idx == idx) [
  | true ↦ ok (used_idx, d, woken)
  | false ↦
      let id = used (used_idx % num) in
      elim (d.status id == 0) [
        | false ↦ panic "virtio_disk_intr status"
        | true ↦ elim (d.info_b id) [
          | none ↦ fault
          | some b ↦
              intr_loop fuel used idx ((used_idx + 1) % 2 ^ 16)
                (record d { owned = update d.owned b false }) (b ∷ woken)
        ]
      ]
]

pub virtio_disk_intr : (ℕ → ℕ) → ℕ → ℕ → Disk → Outcome (ℕ × Disk × List ℕ)
virtio_disk_intr used idx used_idx d =
    intr_loop ((idx + 2 ^ 16 - used_idx) % 2 ^ 16) used idx used_idx d []

-- The device has served the `n` requests in the ring from `u` on, each of a buffer.
abbrev pub Served : (ℕ → ℕ) → ℕ → ℕ → Disk → Type 0
Served used u n d =
    (k : ℕ)
    → k < n
    → (d.status (used ((u + k) % num)) ≡ 0) × ((b : ℕ) × (d.info_b (used ((u + k) % num)) ≡ some b))

abbrev pub In : ℕ → List ℕ → Type 0
In b [] = ⊥
In b (x ∷ xs) = (b ≡ x) ⊎ In b xs

-- What has become of these requests.
pub record Woken (used : ℕ → ℕ) (idx u n : ℕ) (d : Disk) (woken : List ℕ) (r : ℕ × Disk × List ℕ)
    : Type 0 where
  pub index : r.0 ≡ idx
  pub all :
      (k b : ℕ)
      → k < n
      → d.info_b (used ((u + k) % num)) ≡ some b
      → In b r.2 × (r.1.owned b ≡ false)
  pub before : (b : ℕ) → In b woken → In b r.2
  pub given : (b : ℕ) → d.owned b ≡ false → r.1.owned b ≡ false

some-eq : {a b : ℕ} → some a ≡ some b → a ≡ b
some-eq e = ground (arith, e)

Woken-round :
    (used : ℕ → ℕ) (idx u n b : ℕ) (d : Disk) (woken : List ℕ) (r : ℕ × Disk × List ℕ)
    → d.info_b (used (u % num)) ≡ some b
    → Woken used idx
        ((u + 1) % 2 ^ 16)
        n
        (record d { owned = update d.owned b false })
        (b ∷ woken)
        r
    → Woken used idx u (suc n) d woken r
Woken-round used idx u n b d woken r e h = record {
  index = h.index;
  all = all;
  before = λ c i. h.before c (inr i);
  given = λ c q. h.given c (released c q);
}
  where
    released : (c : ℕ) → d.owned c ≡ false → update d.owned b false c ≡ false
    released c q = ground (arith, q)

    all :
        (k c : ℕ)
        → k < suc n
        → d.info_b (used ((u + k) % num)) ≡ some c
        → In c r.2 × (r.1.owned c ≡ false)
    all zero c lt q =
        let same : b ≡ c = some-eq (sym e ∙ ap (λ j. d.info_b (used j)) (omega arith) ∙ q) in
        (
          h.before c (inl (sym same)),
          h.given c
              (subst (λ x. update d.owned b false x ≡ false) same (update_self d.owned b false)),
        )
    all (suc k) c lt q =
        let place : (u + suc k) % num ≡ ((u + 1) % 2 ^ 16 + k) % num = omega arith in
        h.all k c (omega arith) (ap (λ j. d.info_b (used j)) (sym place) ∙ q)

intr_loop-Woken :
    (n : ℕ) (used : ℕ → ℕ) (idx u : ℕ) (d : Disk) (woken : List ℕ)
    → u < 2 ^ 16
    → idx ≡ (u + n) % 2 ^ 16
    → n < 2 ^ 16
    → Served used u n d
    → Returns (Woken used idx u n d woken) (intr_loop n used idx u d woken)
unfolding intr_loop
intr_loop-Woken zero used idx u d woken small e few served =
    let stop : (u == idx) ≡ true = ground arith in
    rw (intr_loop, stop)
      (record {
        index = omega arith;
        all = λ k b lt q. absurd (omega arith);
        before = λ b i. i;
        given = λ b q. q;
      })
intr_loop-Woken (suc n) used idx u d woken small e few served =
    let go_on : (u == idx) ≡ false = ground arith in
    let first : (u + 0) % num ≡ u % num = omega arith in
    let (done, (b, buffer)) =
      subst (λ j. (d.status (used j) ≡ 0) × ((b : ℕ) × (d.info_b (used j) ≡ some b))) first
        (served 0 (omega arith)) in
    let fine : (d.status (used (u % num)) == 0) ≡ true = (==_iff _ 0).1 done in
    rw (intr_loop, go_on, fine, buffer)
      (Returns-mono
        (Woken used idx ((u + 1) % 2 ^ 16) n (record d { owned = update d.owned b false })
          (b ∷ woken))
        (Woken used idx u (suc n) d woken) _ (λ r h. Woken-round used idx u n b d woken r buffer h)
        (intr_loop-Woken n used idx ((u + 1) % 2 ^ 16) _ (b ∷ woken) (omega arith) (omega arith)
          (omega arith)
          (λ k lt.
            subst (λ j. (d.status (used j) ≡ 0) × ((b : ℕ) × (d.info_b (used j) ≡ some b)))
              (omega arith) (served (suc k) (omega arith)))))

-- The device has served the requests in its ring from the driver's index up to its own, each of a
-- buffer. The interrupt returns: it wakes who waits for any of these buffers, gives each of them back
-- to the driver, and catches up with the device; the bound on its loop is enough, also where the
-- indices wrap around.
pub virtio_disk_intr-Woken :
    (used : ℕ → ℕ) (idx u : ℕ) (d : Disk)
    → u < 2 ^ 16
    → idx < 2 ^ 16
    → Served used u ((idx + 2 ^ 16 - u) % 2 ^ 16) d
    → Returns (Woken used idx u ((idx + 2 ^ 16 - u) % 2 ^ 16) d []) (virtio_disk_intr used idx u d)
unfolding virtio_disk_intr
virtio_disk_intr-Woken used idx u d small small' served =
    intr_loop-Woken ((idx + 2 ^ 16 - u) % 2 ^ 16) used idx u d [] small (omega arith) (omega arith)
      served
