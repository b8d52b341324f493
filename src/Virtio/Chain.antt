-- ===== src/Virtio/Chain.antt =====
-- The chain of a request, from its making to its end.
use os_cpp.Base.{
  ◌==◌, if◌then◌else◌, update, update_self, update_ne, ok, Returns, ℕ, suc, ◌%◌, ◌<◌, ◌≡◌, refl,
  sym, ap, ◌∙◌, ◌≢◌, Bool, true, false, none,
}
use os_cpp.Virtio.{
  request, data_of, status_of, num, Desc, Disk, zero_desc, Triple, free_chain, enqueue, finish,
}
use os_cpp.Virtio.Descs.{free_desc_lem}

-- The three descriptors of a request as `disk_rw` fills them in, and while it waits.
abbrev pub IsChain : Triple → Disk → Type 0
IsChain (i, j, k) d =
    ((((d.desc i).flags % 2 == 1) ≡ true) × ((d.desc i).next ≡ j))
    × ((((d.desc j).flags % 2 == 1) ≡ true) × ((d.desc j).next ≡ k))
    × (((d.desc k).flags % 2 == 1) ≡ false)

-- The three are descriptors, all different.
abbrev pub Different : Triple → Type 0
Different (i, j, k) = ((i < num) × (j < num) × (k < num)) × ((i ≢ j) × (i ≢ k) × (j ≢ k))

-- None of the three is free.
abbrev pub InUse : Triple → Disk → Type 0
InUse (i, j, k) d = (d.free i ≡ false) × (d.free j ≡ false) × (d.free k ≡ false)

-- What `finish` leaves: the three are free, the others are as they were.
abbrev pub given_back : Triple → (ℕ → Bool) → ℕ → Bool
given_back (i, j, k) free = update (update (update free i true) j true) k true

module _ {ℓ} {A : Type ℓ} (f : ℕ → A) (i j k : ℕ) (a b c : A) where
  update_first : i ≢ j → i ≢ k → update (update (update f i a) j b) k c i ≡ a
  update_first ij ik =
      update_ne (update (update f i a) j b) k i c (λ q. ik (sym q))
      ∙ update_ne (update f i a) j i b (λ q. ij (sym q))
      ∙ update_self f i a

  update_second : j ≢ k → update (update (update f i a) j b) k c j ≡ b
  update_second jk =
      update_ne (update (update f i a) j b) k j c (λ q. jk (sym q)) ∙ update_self (update f i a) j b

  update_third : update (update (update f i a) j b) k c k ≡ c
  update_third = update_self (update (update f i a) j b) k c

freed : ℕ → Disk → Disk
freed i d = record d { desc = update d.desc i zero_desc; free = update d.free i true }

free_chain_more :
    (fuel i : ℕ) (d : Disk)
    → i < num
    → d.free i ≡ false
    → ((d.desc i).flags % 2 == 1) ≡ true
    → free_chain (suc fuel) i d ≡ free_chain fuel (d.desc i).next (freed i d)
unfolding free_chain freed
free_chain_more fuel i d lt q more_flag = rw (free_chain, free_desc_lem i d lt q, more_flag) refl

free_chain_last :
    (fuel i : ℕ) (d : Disk)
    → i < num
    → d.free i ≡ false
    → ((d.desc i).flags % 2 == 1) ≡ false
    → free_chain (suc fuel) i d ≡ ok (freed i d)
unfolding free_chain freed
free_chain_last fuel i d lt q last_flag = rw (free_chain, free_desc_lem i d lt q, last_flag) refl

freed_desc : (i n : ℕ) (d : Disk) → i ≢ n → (freed i d).desc n ≡ d.desc n
unfolding freed
freed_desc i n d ne = update_ne d.desc i n zero_desc ne

freed_free : (i n : ℕ) (d : Disk) → i ≢ n → (freed i d).free n ≡ d.free n
unfolding freed
freed_free i n d ne = update_ne d.free i n true ne

-- The flags of a descriptor tell that another follows.
abbrev pub has_next : Desc → Bool
has_next x = x.flags % 2 == 1

free_chain_three :
    (t : Triple) (d : Disk)
    → Different t
    → InUse t d
    → IsChain t d
    → free_chain num t.0 d ≡ ok (freed t.2 (freed t.1 (freed t.0 d)))
free_chain_three (i, j, k) d ((li, lj, lk), (ij, ik, jk)) (fi, fj, fk) ((mi, ni), (mj, nj), lst) =
    free_chain_more 7 i d li fi mi
    ∙ ap (λ n. free_chain 7 n (freed i d)) ni
    ∙ free_chain_more 6 j (freed i d) lj (freed_free i j d ij ∙ fj)
        (ap has_next (freed_desc i j d ij) ∙ mj)
    ∙ ap (λ n. free_chain 6 n (freed j (freed i d))) (ap (λ x. x.next) (freed_desc i j d ij) ∙ nj)
    ∙ free_chain_last 5 k (freed j (freed i d)) lk
        (freed_free j k (freed i d) jk ∙ freed_free i k d ik ∙ fk)
        (ap has_next (freed_desc j k (freed i d) jk ∙ freed_desc i k d ik) ∙ lst)

enqueue-IsChain :
    (b sector : ℕ) (write : Bool) (t : Triple) (d : Disk)
    → Different t
    → IsChain t (enqueue b sector write t d)
unfolding enqueue
enqueue-IsChain b sector write (i, j, k) d (bounds, (ij, ik, jk)) = (
  (ap has_next first, ap (λ (x : Desc). x.next) first),
  (ap has_next second ∙ both write, ap (λ (x : Desc). x.next) second),
  ap has_next third,
)
  where
    first :
        (enqueue b sector write (i, j, k) d).desc i
        ≡ record { addr = request i; len = 16; flags = 1; next = j }
    first = update_first d.desc i j k _ _ _ ij ik

    second :
        (enqueue b sector write (i, j, k) d).desc j
        ≡ record { addr = data_of b; len = 1024; flags = if write then 1 else 3; next = k }
    second = update_second d.desc i j k _ _ _ jk

    third :
        (enqueue b sector write (i, j, k) d).desc k
        ≡ record { addr = status_of i; len = 1; flags = 2; next = 0 }
    third = update_third d.desc i j k _ _ _

    both : (w : Bool) → ((if w then 1 else 3) % 2 == 1) ≡ true
    both true = refl
    both false = refl

-- The three descriptors are the same in both.
abbrev pub Same : Triple → Disk → Disk → Type 0
Same (i, j, k) d d' =
    ((d'.desc i ≡ d.desc i) × (d'.desc j ≡ d.desc j) × (d'.desc k ≡ d.desc k))
    × ((d'.free i ≡ d.free i) × (d'.free j ≡ d.free j) × (d'.free k ≡ d.free k))

still-InUse : (t : Triple) (d d' : Disk) → InUse t d → Same t d d' → InUse t d'
still-InUse (i, j, k) d d' (fi, fj, fk) (descs, (si, sj, sk)) = (si ∙ fi, sj ∙ fj, sk ∙ fk)

still-IsChain : (t : Triple) (d d' : Disk) → IsChain t d → Same t d d' → IsChain t d'
still-IsChain (i, j, k) d d' ((mi, ni), (mj, nj), lst) ((si, sj, sk), frees) = (
  (ap has_next si ∙ mi, ap (λ (x : Desc). x.next) si ∙ ni),
  (ap has_next sj ∙ mj, ap (λ (x : Desc). x.next) sj ∙ nj),
  ap has_next sk ∙ lst,
)

-- What the device and other requests do while `disk_rw` sleeps leaves its descriptors alone.
abbrev pub Spares : Triple → (Disk → Disk) → Type 0
Spares t act = (d : Disk) → Same t d (act d)

-- A request is queued on three different descriptors in use. Once it is served, disk_rw gives back
-- these three and no other, and comes to its end without a panic, if others left the three alone
-- while it slept.
pub finish-enqueue :
    (b sector : ℕ) (write : Bool) (t : Triple) (act : Disk → Disk) (d : Disk)
    → Different t
    → InUse t d
    → Spares t act
    → Returns
        (λ d'. (n : ℕ) → d'.free n ≡ given_back t (act (enqueue b sector write t d)).free n)
        (finish t (act (enqueue b sector write t d)))
unfolding finish freed enqueue
finish-enqueue b sector write (i, j, k) act d different used spares =
    let queued : Disk = enqueue b sector write (i, j, k) d in
    let woken : Disk = record (act queued) { info_b = update (act queued).info_b i none } in
    let busy : InUse (i, j, k) woken =
      still-InUse (i, j, k) queued (act queued) used (spares queued) in
    let chain : IsChain (i, j, k) woken =
      still-IsChain (i, j, k) queued (act queued)
        (enqueue-IsChain b sector write (i, j, k) d different) (spares queued) in
    rw (finish, free_chain_three (i, j, k) woken different busy chain) (λ n. refl)
