-- ===== src/Ips/RtdsGpu.antt =====
-- lib/ips/rtds2gpu/rtds2gpu.cpp and gpu2rtds.cpp: the two HLS cores between RTDS and GPU, with the layouts of
-- include/villas/fpga/ips/rtds2gpu/register_types.hpp. The generated driver, the registers of Gpu2Rtds, the
-- memory manager and memset are parameters; a wait without a bound has fuel.
use fpga.Prelude.{
  ℕ, zero, suc, ◌*◌, ◌/◌, ◌%◌, ◌^◌, Bool, true, false, Option, none, some, if◌then◌else◌, ltb, ◌==◌,
  ◌+◌, ◌≤◌, ◌<◌, ◌≡◌, ◌↔◌, ap, ◌∙◌, dec_lt, arith, M, pure, throw, hang, run, modify, gets, focus,
  ◌>>=◌, ◌>>◌, out_of_range,
}
use native.Mathlib.Nat.{mul-le-mul_right, mod-eq_of_lt}
use fpga.Card.{MemoryBlock}
use fpga.Ips.Hls.{Hls, HlsRegisters, init, start, is_finished}

-- axilite_reg_status_t, the lowest bits first
pub record FrameStatus : Type 0 where
  pub last_seq_nr : ℕ
  pub last_count : ℕ
  pub max_frame_size : ℕ
  pub invalid_frame_size : Bool
  pub frame_too_short : Bool
  pub frame_too_long : Bool
  pub is_running : Bool

abbrev pub bit_at : ℕ → ℕ → Bool
bit_at i word = word / 2 ^ i % 2 == 1

unfoldable pub status_of : ℕ → FrameStatus
status_of word = record {
  last_seq_nr = word % 2 ^ 16;
  last_count = word / 2 ^ 16 % 2 ^ 6;
  max_frame_size = word / 2 ^ 22 % 2 ^ 6;
  invalid_frame_size = bit_at 28 word;
  frame_too_short = bit_at 29 word;
  frame_too_long = bit_at 30 word;
  is_running = bit_at 31 word;
}

-- Rtds2Gpu::doorbellIsValid, of reg_doorbell_t
unfoldable pub doorbell_is_valid : ℕ → Bool
doorbell_is_valid word = bit_at 22 word

-- Rtds2Gpu::doorbellReset, with what it writes
abbrev pub doorbell_reset : ℕ → ℕ
doorbell_reset word = 0

-- Rtds2GpuMemoryBuffer<N, T>: sizeof(data) for N values of `size` bytes, and its two constants
abbrev pub sizeof_data : ℕ → ℕ → ℕ
sizeof_data n size = n * size

abbrev pub data_offset : ℕ
data_offset = 0

unfoldable pub doorbell_offset : ℕ → ℕ → ℕ
doorbell_offset n size = n * sizeof_data n size % 2 ^ 64

-- Where the member doorbell stands, a union over a uint32_t: behind data, on the next multiple of 4.
abbrev pub doorbell_place : ℕ → ℕ → ℕ
doorbell_place n size = data_offset + (sizeof_data n size + 3) / 4 * 4

-- What both cores call, over the state of the hardware. `read_status` is the status register,
-- `status_vld` the flag that it is valid; a translation is a local address.
pub record Platform (H : Type 0) : Type 0 where
  pub set_baseaddr : ℕ → H → H
  pub set_doorbell_offset : ℕ → H → H
  pub set_data_offset : ℕ → H → H
  pub set_frame_size : ℕ → H → H
  pub status_vld : H → Bool × H
  pub read_status : H → ℕ × H
  pub memset_zero : ℕ → ℕ → H → H
  pub translation_from_ip : ℕ → H → Option ℕ
  pub translation_from_process : ℕ → H → Option ℕ

-- Rtds2Gpu and Gpu2Rtds: the HLS core, the status and the maximum frame size.
pub record Frames (H : Type 0) : Type 0 where
  pub hls : Hls H
  pub status : ℕ
  pub max_frame_size : ℕ
  pub started : Bool

module _ {H : Type 0} (registers : HlsRegisters H) (platform : Platform H) where
  unfoldable pub in_hls : {A : Type 0} → M (Hls H) A → M (Frames H) A
  in_hls m = focus (λ s. s.hls) (λ h s. record s { hls = h }) m

  unfoldable pub call : {A : Type 0} → (H → A × H) → M (Frames H) A
  unfolding in_hls
  call f = in_hls (run (λ s. let r = f s.hw in (r.0, record s { hw = r.1 })))

  unfoldable pub act : (H → H) → M (Frames H) (Unit {0})
  unfolding in_hls
  act f = in_hls (modify (λ s. record s { hw = f s.hw }))

  unfoldable pub translated : (H → Option ℕ) → M (Frames H) ℕ
  translated f = do
    answer ← gets (λ s. f s.hls.hw)
    elim answer [ none ↦ throw out_of_range | some addr ↦ pure addr ]

  -- `while (not isFinished());`
  unfoldable pub await_finished : ℕ → M (Frames H) (Unit {0})
  unfolding in_hls
  await_finished zero = hang
  await_finished (suc fuel) = do
    finished ← in_hls (is_finished registers)
    elim finished [ true ↦ pure tt | false ↦ await_finished fuel ]

  -- `while (not registerStatusCtrl->status_ap_vld);`
  unfoldable pub await_status : ℕ → M (Frames H) (Unit {0})
  unfolding call
  await_status zero = hang
  await_status (suc fuel) = do
    valid ← call platform.status_vld
    elim valid [ true ↦ pure tt | false ↦ await_status fuel ]

  -- Rtds2Gpu::init
  unfoldable pub rtds2gpu_init : M (Frames H) Bool
  unfolding in_hls
  rtds2gpu_init = do
    _ ← in_hls (init registers)
    modify (λ s. record s { status = 0; started = false; max_frame_size = 16 })
    pure true

  -- Rtds2Gpu::startOnce
  unfoldable pub rtds2gpu_start_once : MemoryBlock → ℕ → ℕ → ℕ → M (Frames H) Bool
  unfolding in_hls act translated
  rtds2gpu_start_once mem frame_size data_off doorbell_off = do
    max ← gets (λ s. s.max_frame_size)
    if ltb max frame_size then pure false else (do
      base ← translated (platform.translation_from_ip mem.addr_space_id)
      act (platform.set_baseaddr (base % 2 ^ 32))
      act (platform.set_doorbell_offset (doorbell_off % 2 ^ 32))
      act (platform.set_data_offset (data_off % 2 ^ 32))
      act (platform.set_frame_size (frame_size % 2 ^ 32))
      memory ← translated (platform.translation_from_process mem.addr_space_id)
      act (platform.memset_zero memory mem.size)
      in_hls (start registers))

  -- Rtds2Gpu::updateStatus
  unfoldable pub rtds2gpu_update_status : M (Frames H) Bool
  unfolding call
  rtds2gpu_update_status = do
    valid ← call platform.status_vld
    if valid
        then (do
          word ← call platform.read_status
          modify (λ s. record s { status = word })
          pure true)
        else pure false

  -- Rtds2Gpu::getMaxFrameSize
  unfoldable pub rtds2gpu_get_max_frame_size : ℕ → M (Frames H) ℕ
  unfolding in_hls act await_finished rtds2gpu_update_status status_of
  rtds2gpu_get_max_frame_size fuel = do
    act (platform.set_frame_size 0)
    _ ← in_hls (start registers)
    await_finished fuel
    _ ← rtds2gpu_update_status
    gets (λ s. (status_of s.status).max_frame_size)

  -- Gpu2Rtds::getMaxFrameSize
  unfoldable pub gpu2rtds_get_max_frame_size : ℕ → M (Frames H) ℕ
  unfolding in_hls act call await_finished await_status status_of
  gpu2rtds_get_max_frame_size fuel = do
    act (platform.set_frame_size 0)
    _ ← in_hls (start registers)
    await_finished fuel
    await_status fuel
    word ← call platform.read_status
    pure (status_of word).max_frame_size

  -- Gpu2Rtds::init, behind the addresses of the registers
  unfoldable pub gpu2rtds_init : ℕ → M (Frames H) Bool
  unfolding in_hls gpu2rtds_get_max_frame_size
  gpu2rtds_init fuel = do
    _ ← in_hls (init registers)
    max ← gpu2rtds_get_max_frame_size fuel
    modify (λ s. record s { max_frame_size = max })
    pure true

  -- Gpu2Rtds::startOnce
  unfoldable pub gpu2rtds_start_once : ℕ → M (Frames H) Bool
  unfolding in_hls act
  gpu2rtds_start_once frame_size = do
    act (platform.set_frame_size (frame_size % 2 ^ 32))
    _ ← in_hls (start registers)
    pure true

twice_more : (n words : ℕ) → 2 ≤ n → 1 ≤ words → n * (4 * words) < n * (n * (4 * words))
twice_more n words many some_word =
    let twice : 2 * (n * (4 * words)) ≤ n * (n * (4 * words)) =
      mul-le-mul_right (n * (4 * words)) many in
    let once : 1 * (4 * words) ≤ n * (4 * words) = mul-le-mul_right (4 * words) (omega arith) in
    omega (arith, twice, once)

rounded : (n words : ℕ) → (n * (4 * words) + 3) / 4 * 4 ≡ n * (4 * words)
rounded n words = omega (arith, fourfold)
  where
    fourfold : n * (4 * words) ≡ 4 * (n * words)
    fourfold = ground arith

-- For values of whole words, as uint32_t and float are, and at least one of them, the buffer's constant is the
-- place of the doorbell exactly where there is one value only. The product in it must not wrap around.
pub doorbell_offset-doorbell_place :
    (n words : ℕ)
    → 1 ≤ n
    → 1 ≤ words
    → n * (n * (4 * words)) < 2 ^ 64
    → (doorbell_offset n (4 * words) ≡ doorbell_place n (4 * words)) ↔ (n ≡ 1)
unfolding doorbell_offset
doorbell_offset-doorbell_place n words some_value some_word fits = (right, left)
  where
    small : n * (n * (4 * words)) % 2 ^ 64 ≡ n * (n * (4 * words))
    small = mod-eq_of_lt fits

    right : n * (n * (4 * words)) % 2 ^ 64 ≡ 0 + (n * (4 * words) + 3) / 4 * 4 → n ≡ 1
    right e = elim (dec_lt n 2) [
      | yes few ↦ omega arith
      | no many ↦
          absurd
            (omega (arith, e, small, rounded n words, twice_more n words (omega arith) some_word))
    ]

    left : n ≡ 1 → n * (n * (4 * words)) % 2 ^ 64 ≡ 0 + (n * (4 * words) + 3) / 4 * 4
    left one = small ∙ (ap (λ k. k * (n * (4 * words))) one ∙ omega (arith, rounded n words))
