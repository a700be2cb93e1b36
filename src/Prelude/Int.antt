-- ===== src/Prelude/Int.antt =====
-- Signed integers, and std::stoi.
use Prim.Native.Nat.{ℕ, zero, suc, ◌+◌, ◌-◌, ◌*◌, ◌%◌, ◌^◌}
use mathlib.Core.Path.{◌≡◌, refl}
use mathlib.Core.Bool.{Bool, true, false, ◌&&◌, ◌||◌}
use mathlib.Core.Option.{Option, none, some}
use mathlib.Core.List.{[], ◌∷◌}
use fpga.Prelude.Tests.{ltb, leb, ◌==◌, if◌then◌else◌}
use fpga.Prelude.Texts.{Text, codes}

-- `negsuc n` is -(n + 1).
pub data ℤ : Type 0 where
  pos : ℕ → ℤ
  negsuc : ℕ → ℤ

-- -n
abbrev pub neg : ℕ → ℤ
neg zero = pos 0
neg (suc n) = negsuc n

-- The cast of an int to uint8_t.
abbrev pub to_u8 : ℤ → ℕ
to_u8 (pos n) = n % 256
to_u8 (negsuc n) = 255 - n % 256

pub data StoiResult : Type 0 where
  value : ℤ → StoiResult
  no_digits : StoiResult
  too_large : StoiResult

abbrev pub is_digit : ℕ → Bool
is_digit c = leb b'0' c && leb c b'9'

-- The white space that strtol skips.
abbrev pub is_space : ℕ → Bool
is_space c = c == 32 || (leb 9 c && leb c 13)

-- Whether digits were read, and their value.
pub digits_value : Bool → ℕ → Text → Option ℕ
digits_value seen acc [] = if seen then some acc else none
digits_value seen acc (c ∷ s) =
    let rest = digits_value true (acc * 10 + (c - b'0')) s in
    if is_digit c then rest else (if seen then some acc else none)

-- The range of int.
int_of : Bool → ℕ → StoiResult
int_of true n = if leb n (2 ^ 31) then value (neg n) else too_large
int_of false n = if ltb n (2 ^ 31) then value (pos n) else too_large

signed : Bool → Option ℕ → StoiResult
unfolding int_of
signed minus none = no_digits
signed minus (some n) = int_of minus n

stoi_sign : Text → StoiResult
unfolding digits_value signed
stoi_sign [] = no_digits
stoi_sign (c ∷ s) =
    if c == b'-'
    then signed true (digits_value false 0 s)
    else (if c == b'+'
        then signed false (digits_value false 0 s)
        else signed false (digits_value false 0 (c ∷ s)))

unfoldable pub stoi : Text → StoiResult
unfolding stoi_sign
stoi [] = no_digits
stoi (c ∷ s) = let rest = stoi s in if is_space c then rest else stoi_sign (c ∷ s)

test_stoi : stoi (codes " 07_AXIS") ≡ value (pos 7)
unfolding stoi
test_stoi = refl

test_stoi_minus : stoi (codes "-12") ≡ value (negsuc 11)
unfolding stoi
test_stoi_minus = refl

test_stoi_none : stoi (codes "x1") ≡ no_digits
unfolding stoi
test_stoi_none = refl

-- `~` of a uint32_t
abbrev pub not32 : ℕ → ℕ
not32 x = 2 ^ 32 - 1 - x
