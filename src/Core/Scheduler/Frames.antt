-- ===== src/Core/Scheduler/Frames.antt =====
-- `PacketScheduler::frames_for_ms`: when it throws, its value and its range.
use foobar_universal_multiro.Base.{ℕ, ◌≡◌, ◌≤◌, ◌<◌, ◌-◌, ◌+◌, ◌*◌, ◌/◌, ◌^◌, arith}
use foobar_universal_multiro.Base.Int.{ℤ, pos, negsuc, ◌*ℤ◌, ◌≤ℤ◌, quot_ℤ, pos_part, neg_part}
use foobar_universal_multiro.Base.Outcome.{ok}
use foobar_universal_multiro.Core.Scheduler.{frames_for_ms}

-- The value, with the division towards zero.
abbrev pub frames_of : ℤ → ℕ → ℤ
frames_of ms rate = quot_ℤ (ms *ℤ pos rate) 1000

pub frames_for_ms-frames_of :
    (ms : ℤ) (rate : ℕ) → 0 < rate → frames_for_ms ms rate ≡ ok (frames_of ms rate)
unfolding frames_for_ms
frames_for_ms-frames_of ms rate h = ground arith

mul_bound : (a b c d : ℕ) → a ≤ b → c < d → a * c ≤ b * d
mul_bound a b c d h k = grind arith

pub frames_of-parts :
    (ms : ℤ) (rate : ℕ)
    → (pos_part (frames_of ms rate) ≡ pos_part ms * rate / 1000)
      × (neg_part (frames_of ms rate) ≡ neg_part ms * rate / 1000)
frames_of-parts (pos m) rate = (ground arith, ground arith)
frames_of-parts (negsuc m) rate = (ground arith, ground arith)

product-parts :
    (ms : ℤ) (rate : ℕ)
    → (pos_part (ms *ℤ pos rate) ≡ pos_part ms * rate)
      × (neg_part (ms *ℤ pos rate) ≡ neg_part ms * rate)
product-parts (pos m) rate = (ground arith, ground arith)
product-parts (negsuc m) rate = (ground arith, ground arith)

int_parts :
    (ms : ℤ)
    → negsuc (2 ^ 31 - 1) ≤ℤ ms
    → ms ≤ℤ pos (2 ^ 31 - 1)
    → (pos_part ms ≤ 2 ^ 31 - 1) × (neg_part ms ≤ 2 ^ 31)
int_parts (pos m) lo hi = omega arith
int_parts (negsuc m) lo hi = omega arith

-- For an `int` of milliseconds and a non-zero `uint32_t` rate no int64_t operation overflows, and the
-- result is the number of frames rounded towards zero.
pub frames_for_ms_exact :
    (ms : ℤ) (rate : ℕ)
    → negsuc (2 ^ 31 - 1) ≤ℤ ms
    → ms ≤ℤ pos (2 ^ 31 - 1)
    → 0 < rate
    → rate < 2 ^ 32
    → (frames : ℤ) × (frames_for_ms ms rate ≡ ok frames)
      × (negsuc (2 ^ 63 - 1) ≤ℤ ms *ℤ pos rate)
      × (ms *ℤ pos rate ≤ℤ pos (2 ^ 63 - 1))
      × (1000 * pos_part frames ≤ pos_part ms * rate)
      × (pos_part ms * rate < 1000 * pos_part frames + 1000)
      × (1000 * neg_part frames ≤ neg_part ms * rate)
      × (neg_part ms * rate < 1000 * neg_part frames + 1000)
frames_for_ms_exact ms rate lo hi nz fits =
    let q = product-parts ms rate in
    let (p, n) = frames_of-parts ms rate in
    let bp = mul_bound (pos_part ms) (2 ^ 31 - 1) rate (2 ^ 32) (int_parts ms lo hi).0 fits in
    let bn = mul_bound (neg_part ms) (2 ^ 31) rate (2 ^ 32) (int_parts ms lo hi).1 fits in
    (
      frames_of ms rate,
      frames_for_ms-frames_of ms rate nz,
      omega (arith, bp, bn, q),
      omega (arith, bp, bn, q),
      omega (arith, p),
      omega (arith, p),
      omega (arith, n),
      omega (arith, n),
    )
