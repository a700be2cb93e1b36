-- ===== src/Vlnv/Examples.antt =====
-- Tests of lib/vlnv.cpp, and its theorems at concrete tags.
use fpga.Prelude.{true, false, ◌≡◌, refl, subst, ◌↔◌, codes, Text-discrete}
use fpga.Vlnv.{Vlnv, vlnv_eq, wildcard, parse_from_string, print}
use fpga.Vlnv.Match.{Matches, vlnv_eq-Matches}
use fpga.Vlnv.RoundTrip.{IsPrintable, parse_from_string-print, parse_from_string-IsPrintable}

abbrev dma : Vlnv
dma = record {
  vendor = codes "xilinx.com";
  library = codes "ip";
  name = codes "axi_dma";
  version = codes "";
}

test_parse : parse_from_string (codes "xilinx.com:ip:axi_dma:") ≡ dma
unfolding parse_from_string Text-discrete
test_parse = refl

test_parse_star : parse_from_string (codes "*:ip") ≡ record wildcard { library = codes "ip" }
unfolding parse_from_string Text-discrete
test_parse_star = refl

test_print : print dma ≡ codes "xilinx.com:ip:axi_dma:*"
unfolding print
test_print = refl

test_eq : vlnv_eq dma (parse_from_string (codes "xilinx.com:ip:axi_dma:7.1")) ≡ true
unfolding vlnv_eq parse_from_string Text-discrete
test_eq = refl

test_ne : vlnv_eq dma (parse_from_string (codes "xilinx.com:ip:axi_iic:")) ≡ false
unfolding vlnv_eq parse_from_string Text-discrete
test_ne = refl

vlnv_eq-Matches_example : (vlnv_eq dma wildcard ≡ true) ↔ Matches dma wildcard
vlnv_eq-Matches_example = vlnv_eq-Matches dma wildcard

dma-IsPrintable : IsPrintable dma
dma-IsPrintable = parsed
  where
    parsed : IsPrintable dma
    parsed =
        subst IsPrintable test_parse
          (parse_from_string-IsPrintable (codes "xilinx.com:ip:axi_dma:"))

parse_from_string-print_example : parse_from_string (print dma) ≡ dma
parse_from_string-print_example = parse_from_string-print dma dma-IsPrintable
