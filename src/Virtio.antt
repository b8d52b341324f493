-- ===== src/Virtio.antt =====
-- kernel/virtio_disk.cpp: the descriptors of the disk's queue, from `alloc_desc` to `free_chain`.
-- `vdisk_lock` is held through each routine but where `disk_rw` sleeps. An address is the object
-- that it points to. The device's own ring is in Virtio.Interrupt.
pub mod Descs
pub mod Chain
pub mod Interrupt
mod Tests
use os_cpp.Base.{
  leb, ◌==◌, if◌then◌else◌, update, ok, panic, blocked, Outcome, ◌>>=◌, ℕ, zero, suc, ◌+◌, ◌%◌, ◌^◌,
  Bool, true, false, Option, none, some,
}

-- NUM
abbrev pub num : ℕ
num = 8

-- What a descriptor points to: nothing, a request, the data of a buffer, or a status byte.
pub data Target : Type 0 where
  nothing : Target
  request : ℕ → Target
  data_of : ℕ → Target
  status_of : ℕ → Target

-- `struct virtq_desc`
pub record Desc : Type 0 where
  pub addr : Target
  pub len : ℕ
  pub flags : ℕ
  pub next : ℕ

-- `disk`, with the available ring: `info` is the buffer of a request and its status, `ops` the
-- request's direction and sector, and `owned` is the field `disk` of the buffers.
pub record Disk : Type 0 where
  pub desc : ℕ → Desc
  pub free : ℕ → Bool
  pub info_b : ℕ → Option ℕ
  pub status : ℕ → ℕ
  pub ops : ℕ → Bool × ℕ
  pub ring : ℕ → ℕ
  pub idx : ℕ
  pub owned : ℕ → Bool

abbrev pub zero_desc : Desc
zero_desc = record { addr = nothing; len = 0; flags = 0; next = 0 }

pub alloc_loop : ℕ → ℕ → Disk → Option (ℕ × Disk)
alloc_loop i zero d = none
alloc_loop i (suc left) d =
    let rest = alloc_loop (i + 1) left d in
    if d.free i then some (i, record d { free = update d.free i false }) else rest

pub alloc_desc : Disk → Option (ℕ × Disk)
alloc_desc d = alloc_loop 0 num d

pub free_desc : ℕ → Disk → Outcome Disk
free_desc i d =
    if leb num i
    then panic "free_desc: 1"
    else if d.free i
    then panic "free_desc: 2"
    else ok (record d { desc = update d.desc i zero_desc; free = update d.free i true })

-- The three descriptors of a request.
abbrev pub Triple : Type 0
Triple = ℕ × ℕ × ℕ

-- `alloc3_desc`, after its third, second and first call of `alloc_desc`; -1 is `none`.
pub third_desc : ℕ → ℕ → Disk → Option (ℕ × Disk) → Outcome (Option Triple × Disk)
third_desc i j d none = free_desc i d >>= λ e. free_desc j e >>= λ e'. ok (none, e')
third_desc i j d (some (k, d')) = ok (some (i, j, k), d')

pub second_desc : ℕ → Disk → Option (ℕ × Disk) → Outcome (Option Triple × Disk)
second_desc i d none = free_desc i d >>= λ e. ok (none, e)
second_desc i d (some (j, d')) = third_desc i j d' (alloc_desc d')

pub alloc3_desc : Disk → Outcome (Option Triple × Disk)
alloc3_desc d = elim (alloc_desc d) [
  | none ↦ ok (none, d)
  | some (i, d') ↦ second_desc i d' (alloc_desc d')
]

-- The loop of `free_chain`, for at most `fuel` descriptors; VRING_DESC_F_NEXT is the lowest bit.
pub free_chain : ℕ → ℕ → Disk → Outcome Disk
free_chain zero i d = blocked
free_chain (suc fuel) i d = free_desc i d >>= λ e. elim ((d.desc i).flags % 2 == 1) [
  | true ↦ free_chain fuel (d.desc i).next e
  | false ↦ ok e
]

-- `disk_rw` from the test of `write` to the notification: buffer `b` of sector `sector`.
pub enqueue : ℕ → ℕ → Bool → Triple → Disk → Disk
enqueue b sector write (i, j, k) d =
    let first : Desc = record { addr = request i; len = 16; flags = 1; next = j } in
    let second : Desc = record {
      addr = data_of b;
      len = 1024;
      flags = if write then 1 else 3;
      next = k;
    } in
    let third : Desc = record { addr = status_of i; len = 1; flags = 2; next = 0 } in
    record d {
      desc = update (update (update d.desc i first) j second) k third;
      ops = update d.ops i (write, sector);
      status = update d.status i 0xff;
      info_b = update d.info_b i (some b);
      ring = update d.ring (d.idx % num) i;
      idx = (d.idx + 1) % 2 ^ 16;
      owned = update d.owned b true;
    }

-- `disk_rw` once `b->disk` is 0.
pub finish : Triple → Disk → Outcome Disk
finish (i, j, k) d = free_chain num i (record d { info_b = update d.info_b i none })
