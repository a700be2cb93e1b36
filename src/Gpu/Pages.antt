-- ===== src/Gpu/Pages.antt =====
-- The size of a chunk of GPU memory, in allocateBlock of gpu/src/gpu.cpp.
use Prim.Native.Nat.{digits, bit_and-bitwise}
use fpga.Prelude.{
  ℕ, zero, suc, ◌+◌, ◌-◌, ◌*◌, ◌/◌, ◌%◌, ◌^◌, ◌≤◌, ◌<◌, bit_and, min, ◌≡◌, refl, sym, ap, arith,
}
use native.Mathlib.Nat.{mul_assoc}

-- GpuAllocator::GpuPageSize
abbrev pub gpu_page_size : ℕ
gpu_page_size = 65536

-- chunkSize, in a size_t
unfoldable pub chunk_size : ℕ → ℕ
chunk_size size = (size + 2 ^ 64 - bit_and size (gpu_page_size - 1) + gpu_page_size) % 2 ^ 64

-- The digits of both numbers that are left.
abbrev common_digits : ℕ → ℕ → ℕ → ℕ
common_digits n a b = digits (λ b. zero) min n a b

common_digits-zero : (n b : ℕ) → common_digits n 0 b ≡ 0
common_digits-zero zero b = refl
common_digits-zero (suc n) b = refl

-- `low` is what `a` has below a multiple of `p`.
abbrev pub Low : ℕ → ℕ → ℕ → Type 0
Low p a low = (q : ℕ) × (a ≡ q * p + low) × (low < p)

-- The masks of k ones, and the powers of two above them.
abbrev ones : ℕ → ℕ
ones zero = 0
ones (suc k) = ones k * 2 + 1

abbrev power : ℕ → ℕ
power zero = 1
power (suc k) = power k * 2

power-positive : (k : ℕ) → 0 < power k
power-positive zero = omega arith
power-positive (suc k) = omega (arith, power-positive k)

common_digits-none : (n a : ℕ) → common_digits n a 0 ≡ 0
common_digits-none zero a = refl
common_digits-none (suc n) zero = refl
common_digits-none (suc n) (suc a) = omega (arith, common_digits-none n (suc a / 2))

half-ones : (k : ℕ) → (ones k * 2 + 1) / 2 ≡ ones k
half-ones k = omega arith

-- One digit more.
Low-digit :
    (p a low n k : ℕ)
    → Low p (a / 2) low
    → common_digits n (a / 2) (ones k) ≡ low
    → Low
        (p * 2)
        a
        (common_digits n (a / 2) ((ones k * 2 + 1) / 2) * 2 + min (a % 2) ((ones k * 2 + 1) % 2))
Low-digit p a low n k (q, e, l) d = (
  q,
  omega (arith, sym (mul_assoc q p 2), ap (λ t. common_digits n (a / 2) t) (half-ones k)),
  omega (arith, ap (λ t. common_digits n (a / 2) t) (half-ones k)),
)

common_digits-Low : (k n a : ℕ) → a ≤ n → Low (power k) a (common_digits n a (ones k))
common_digits-Low zero n a h =
    (a, omega (arith, common_digits-none n a), omega (arith, common_digits-none n a))
common_digits-Low (suc k) zero zero h = (0, omega arith, power-positive (suc k))
common_digits-Low (suc k) zero (suc a) h = absurd (omega arith)
common_digits-Low (suc k) (suc n) zero h = (0, omega arith, power-positive (suc k))
common_digits-Low (suc k) (suc n) (suc a) h =
    Low-digit (power k) (suc a) (common_digits n (suc a / 2) (ones k)) n k
      (common_digits-Low k n (suc a / 2) (omega arith)) refl

page-Low : (size : ℕ) → Low 65536 size (bit_and size 65535)
page-Low size =
    let (q, e, l) = common_digits-Low 16 size size (omega arith) in
    (q, omega (arith, bit_and-bitwise size 65535), omega (arith, bit_and-bitwise size 65535))

-- Where a size of at most 2 ^ 64 - 65537 is asked for, a chunk is larger than it by at most a page,
-- and a whole number of pages; for a greater size the sum wraps around to 0.
pub chunk_size-pages :
    (size : ℕ)
    → size < 2 ^ 64
    → (size < 2 ^ 64 - 65536
        → (size < chunk_size size)
          × (chunk_size size ≤ size + gpu_page_size)
          × ((q : ℕ) × (chunk_size size ≡ q * gpu_page_size)))
      × (2 ^ 64 - 65536 ≤ size → chunk_size size ≡ 0)
unfolding chunk_size
chunk_size-pages size fits =
    let (q, e, l) = page-Low size in
    (λ small. (omega arith, omega arith, (q + 1, omega arith)), λ large. omega arith)
