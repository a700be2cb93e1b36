-- ===== src/Dino/Examples.antt =====
-- The theorems of lib/ips/dino.cpp at a board's output byte.
use fpga.Prelude.{true, ◌≡◌, refl}
use fpga.Dino.Ports.{IoextPorts, Gain, gain_5, raw, fields, with_gain, gain_of, gain_of-fields-raw}
use fpga.Dino.Board.{no_ports}

abbrev led : IoextPorts
led = record no_ports { status_led = true; input_zero = true }

test_raw : raw led ≡ 0x14
unfolding raw
test_raw = refl

gain_of-fields-raw_example :
    (gain_of (fields (raw (with_gain gain_5 led))) ≡ 2)
    × ((old : Gain) → with_gain old (fields (raw (with_gain gain_5 led))) ≡ with_gain old led)
gain_of-fields-raw_example = gain_of-fields-raw gain_5 led
