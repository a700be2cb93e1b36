-- ===== src/Crossbar/Examples.antt =====
-- Tests of ConnectString of lib/utils.cpp, and its theorems at lines that it reads.
use fpga.Prelude.{
  true, List, [], ◌∷◌, some, codes, ◌≡◌, refl, Ensures, returned, threw, stuck, ◌>>=◌, stoi,
  Text-discrete, plain_exception,
}
use fpga.Crossbar.{
  aurora, dma, dino, ConnectString, unparsed, parse_string, Device, aurora_channel, dino_dac,
  dino_adc, Crossbar, config_cross_bar,
}
use fpga.Crossbar.Valid.{EndsValid, Throws, parse_string-Valid}
use fpga.Crossbar.Connections.{connections, config_cross_bar-connects}

-- A card that has every core and lists the connections, the newest first.
abbrev card : Crossbar (List (Device × Device))
card = record {
  has = λ device h. true;
  connect_loopback = λ h. returned true h;
  connect = λ src dest h. returned true ((src, dest) ∷ h);
}

abbrev both_ways : ConnectString
both_ways = record (unparsed 7) {
  bidirectional = true;
  src_type = aurora;
  dst_type = dino;
  src_as_int = some 3;
}

test_parse : parse_string (codes "3<->dino") (unparsed 7) ≡ returned tt both_ways
unfolding parse_string ◌>>=◌ stoi Text-discrete
test_parse = refl

test_parse_back :
    parse_string (codes "stdout<-7") (unparsed 7)
    ≡ returned tt (record (unparsed 7) {
      invert = true;
      src_type = aurora;
      dst_type = dma;
      src_as_int = some 7;
    })
unfolding parse_string ◌>>=◌ stoi Text-discrete
test_parse_back = refl

test_out_of_range : parse_string (codes "8->dma") (unparsed 7) ≡ threw plain_exception (unparsed 7)
unfolding parse_string ◌>>=◌ stoi Text-discrete
test_out_of_range = refl

test_no_match : parse_string (codes "dma") (unparsed 7) ≡ threw plain_exception (unparsed 7)
unfolding parse_string ◌>>=◌ stoi Text-discrete
test_no_match = refl

test_config :
    config_cross_bar card both_ways []
    ≡ returned tt ((dino_adc, aurora_channel 3) ∷ (aurora_channel 3, dino_dac) ∷ [])
unfolding config_cross_bar ◌>>=◌
test_config = refl

-- A port that the parser takes and that no channel has.
test_missing_channel :
    config_cross_bar card (record both_ways { src_as_int = some 5 }) [] ≡ stuck []
unfolding config_cross_bar ◌>>=◌
test_missing_channel = refl

parse_string-Valid_example :
    Ensures (λ _. EndsValid 7) Throws (parse_string (codes "3<->dino") (unparsed 7))
parse_string-Valid_example = parse_string-Valid 7 (codes "3<->dino")

config_cross_bar-connects_example :
    config_cross_bar card both_ways [] ≡ connections card both_ways []
config_cross_bar-connects_example =
    config_cross_bar-connects card both_ways [] (λ device. refl) refl
