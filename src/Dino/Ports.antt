-- ===== src/Dino/Ports.antt =====
-- Dino::IoextPorts: the byte of the I/O expander and its fields, and the gain that two of them hold.
use fpga.Prelude.{
  ℕ, ◌+◌, ◌*◌, ◌/◌, ◌%◌, ◌<◌, bit_and, bit_or, Bool, true, false, not, ◌==◌, ◌≡◌, refl, ap, ◌∙◌,
  arith, if◌then◌else◌,
}

-- The bit-fields, from the lowest bit up.
pub record IoextPorts : Type 0 where
  pub clk_dir : Bool
  pub data_dir : Bool
  pub status_led : Bool
  pub n_we : Bool
  pub input_zero : Bool
  pub sat_detect : Bool
  pub gain_lsb : Bool
  pub gain_msb : Bool

abbrev pub bit_of : Bool → ℕ
bit_of b = if b then 1 else 0

-- A byte with a lowest bit and the bits above it.
abbrev pub with_bit : Bool → ℕ → ℕ
with_bit b n = bit_of b + n * 2

-- IoextPorts::raw of given fields
unfoldable pub raw : IoextPorts → ℕ
raw p = with_bit p.clk_dir (
    with_bit p.data_dir (
      with_bit p.status_led (
        with_bit p.n_we (
          with_bit p.input_zero
            (with_bit p.sat_detect (with_bit p.gain_lsb (with_bit p.gain_msb 0)))))))

abbrev pub odd : ℕ → Bool
odd n = n % 2 == 1

-- IoextPorts::fields of a given byte
unfoldable pub fields : ℕ → IoextPorts
fields byte = record {
  clk_dir = odd byte;
  data_dir = odd (byte / 2);
  status_led = odd (byte / 2 / 2);
  n_we = odd (byte / 2 / 2 / 2);
  input_zero = odd (byte / 2 / 2 / 2 / 2);
  sat_detect = odd (byte / 2 / 2 / 2 / 2 / 2);
  gain_lsb = odd (byte / 2 / 2 / 2 / 2 / 2 / 2);
  gain_msb = odd (byte / 2 / 2 / 2 / 2 / 2 / 2 / 2);
}

-- Dino::Gain
pub data Gain : Type 0 where
  gain_1 gain_2 gain_5 gain_10 : Gain

abbrev pub gain_value : Gain → ℕ
gain_value gain_1 = 0
gain_value gain_2 = 1
gain_value gain_5 = 2
gain_value gain_10 = 3

-- The assignments of setGain to the two fields; a bool of a number is whether it is not 0.
unfoldable pub with_gain : Gain → IoextPorts → IoextPorts
with_gain gain p = record p {
  gain_lsb = not (bit_and (gain_value gain) 1 == 0);
  gain_msb = not (bit_and (gain_value gain) 2 == 0);
}

-- The number that getGain casts to a gain.
unfoldable pub gain_of : IoextPorts → ℕ
gain_of p = bit_or (bit_of p.gain_msb * 2) (bit_of p.gain_lsb)

odd-with_bit : (b : Bool) (n : ℕ) → odd (with_bit b n) ≡ b
odd-with_bit true n = ground arith
odd-with_bit false n = ground arith

half-with_bit : (b : Bool) (n : ℕ) → with_bit b n / 2 ≡ n
half-with_bit true n = omega arith
half-with_bit false n = omega arith

-- The fields of the byte of some fields are those fields.
pub fields-raw : (p : IoextPorts) → fields (raw p) ≡ p
unfolding fields raw
fields-raw p = simp (odd-with_bit, half-with_bit)

-- The byte of the fields of a byte is that byte.
pub raw-fields : (byte : ℕ) → byte < 256 → raw (fields byte) ≡ byte
unfolding fields raw
raw-fields byte small = ground arith

gain_of-with_gain : (gain : Gain) (p : IoextPorts) → gain_of (with_gain gain p) ≡ gain_value gain
unfolding gain_of with_gain
gain_of-with_gain gain_1 p = refl
gain_of-with_gain gain_2 p = refl
gain_of-with_gain gain_5 p = refl
gain_of-with_gain gain_10 p = refl

-- Through the byte that setGain writes and getGain reads, the gain comes back, and every field but
-- the gain's two is the one from before.
pub gain_of-fields-raw :
    (gain : Gain) (p : IoextPorts)
    → (gain_of (fields (raw (with_gain gain p))) ≡ gain_value gain)
      × ((old : Gain) → with_gain old (fields (raw (with_gain gain p))) ≡ with_gain old p)
unfolding with_gain
gain_of-fields-raw gain p = (
  ap gain_of (fields-raw (with_gain gain p)) ∙ gain_of-with_gain gain p,
  λ old. ap (with_gain old) (fields-raw (with_gain gain p)),
)
