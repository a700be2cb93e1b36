-- ===== src/Core/Examples.antt =====
-- Tests of CoreFactory::make and Card::lookupIp, and their theorems at concrete cores.
use mathlib.Core.List.{Perm}
use fpga.Prelude.{
  ◌≢◌, threw, runtime_error, List, Option, ℕ, ◌+◌, true, false, not, [], ◌∷◌, ◌++◌, none, some, ◌≡◌,
  refl, Text, codes, Text-discrete, text_eq, is_empty, returned, Ensures, map, pos, pure, ◌>>=◌,
}
use fpga.Vlnv.{Vlnv, vlnv_eq, wildcard}
use fpga.Core.{IpIdentifier, lookup_ip_id, initialization_order, vlnv_initialization_order}
use fpga.Core.Order.{initialization_order-perm}
use fpga.Core.Config.{ConfigPlatform, configure_ips}
use fpga.Core.Configured.{Sound, Anything, with_factory, configure_ips-Sound}
use fpga.Core.Make.{make_cores, Complete, Partly, make_cores-Complete}
use fpga.Core.Start.{Platform, CardState}

abbrev ip_of : Vlnv → Text → IpIdentifier
ip_of vlnv name = record { vlnv = vlnv; name = name }

abbrev ip_tag : Text → Vlnv
ip_tag name = record wildcard { name = name }

abbrev switch_tag : Vlnv
switch_tag = ip_tag (codes "sw")

abbrev dma_tag : Vlnv
dma_tag = ip_tag (codes "dma")

abbrev switch_0 : IpIdentifier
switch_0 = ip_of switch_tag (codes "s0")

abbrev switch_1 : IpIdentifier
switch_1 = ip_of switch_tag (codes "s1")

abbrev dma_0 : IpIdentifier
dma_0 = ip_of dma_tag (codes "d0")

abbrev other_0 : IpIdentifier
other_0 = ip_of (ip_tag (codes "other")) (codes "o0")

test_order :
    initialization_order (switch_tag ∷ []) (dma_0 ∷ switch_0 ∷ dma_0 ∷ [])
    ≡ some (switch_0 ∷ dma_0 ∷ dma_0 ∷ [])
unfolding initialization_order vlnv_eq Text-discrete
test_order = refl

-- The tag that is named first is the first in the order.
test_order_reversed :
    initialization_order (switch_tag ∷ dma_tag ∷ []) (dma_0 ∷ other_0 ∷ switch_0 ∷ other_0 ∷ [])
    ≡ some (switch_0 ∷ dma_0 ∷ other_0 ∷ other_0 ∷ [])
unfolding initialization_order vlnv_eq Text-discrete
test_order_reversed = refl

test_lookup : lookup_ip_id (dma_0 ∷ switch_0 ∷ []) (ip_of dma_tag (codes "s0")) ≡ some switch_0
unfolding lookup_ip_id vlnv_eq Text-discrete
test_lookup = refl

initialization_order-perm_example :
    Perm (switch_0 ∷ dma_0 ∷ dma_0 ∷ []) (dma_0 ∷ switch_0 ∷ dma_0 ∷ [])
initialization_order-perm_example =
    initialization_order-perm (switch_tag ∷ []) (dma_0 ∷ switch_0 ∷ dma_0 ∷ [])
      (switch_0 ∷ dma_0 ∷ dma_0 ∷ []) test_order

-- A world in which cores count their calls; a core without a name fails to initialise.
abbrev counting : Platform ℕ ℕ
counting = record {
  memory_blocks = λ id. codes "Reg" ∷ [];
  slave_addr_space_name = λ ip block. ip ++ block;
  find_address_space = λ name n. returned 7 n;
  translation_from_process = λ space n. returned (space + n) n;
  init = λ id n. returned (not (is_empty id.name)) (n + 1);
  check = λ id n. returned true n;
}

abbrev fresh_card : CardState ℕ ℕ
fresh_card = record { world = 0; ips = [] }

-- Two factories, for an interrupt controller and for a DMA controller with an interrupt; the strings
-- of the interrupts are numbers of the one controller.
abbrev intc_tag : Vlnv
intc_tag = ip_tag (codes "intc")

abbrev intc_0 : IpIdentifier
intc_0 = ip_of intc_tag (codes "i0")

abbrev config_platform : ConfigPlatform ℕ Vlnv ℕ
config_platform = record {
  plugins = intc_tag ∷ dma_tag ∷ [];
  compatible_vlnv = λ f. f;
  makes = λ f. true;
  makes_interrupt_controller = λ f. text_eq f.name (codes "intc");
  config_of = λ name. record {
    irqs = some ((codes "mm2s", some (codes "3")) ∷ []);
    memory_view = none;
    rest = 0;
  };
  tokenize = λ s sep. codes "i0" ∷ s ∷ [];
  master_addr_space_name = λ name bus. name ++ bus;
  slave_addr_space_name = λ name block. name ++ block;
  get_or_create_address_space = λ name n. (n, n + 1);
  create_mapping = λ src dest size bus from to n. n;
  parse = λ f ip config. pure tt;
  configure_polling_mode = λ f id. pure tt;
}

test_configure :
    configure_ips config_platform (intc_0 ∷ switch_0 ∷ dma_0 ∷ []) [] 0
    ≡ returned
        (record {
          id = intc_0;
          is_interrupt_controller = true;
          irqs = [];
          bus_master_interfaces = [];
        }
          ∷ record {
            id = dma_0;
            is_interrupt_controller = false;
            irqs = (codes "mm2s", record { num = pos 3; controller = codes "i0" }) ∷ [];
            bus_master_interfaces = [];
          }
          ∷ [])
        0
unfolding configure_ips Text-discrete vlnv_eq ◌>>=◌
test_configure = refl

configure_ips-Sound_example :
    Ensures
      (λ ips _.
        Sound [] ips
        × (map (λ ip. ip.id) ips ≡ with_factory config_platform (intc_0 ∷ switch_0 ∷ dma_0 ∷ [])))
      (Anything config_platform)
      (configure_ips config_platform (intc_0 ∷ switch_0 ∷ dma_0 ∷ []) [] 0)
configure_ips-Sound_example =
    (configure_ips-Sound config_platform (intc_0 ∷ switch_0 ∷ dma_0 ∷ [])).at 0 tt

-- A core without a factory is left out.
abbrev entries : List (Text × Option Text)
entries = (codes "d0", some (codes "::dma:")) ∷ ((codes "s0", some (codes "::sw:")) ∷ [])

make_cores-Complete_example :
    ((fresh_card.ips ≡ [])
      → Ensures
          (λ _. Complete config_platform counting entries)
          (λ _. Partly config_platform counting entries)
          (make_cores config_platform counting vlnv_initialization_order entries fresh_card))
    × ((fresh_card.ips ≢ [])
        → make_cores config_platform counting vlnv_initialization_order entries fresh_card
          ≡ threw runtime_error fresh_card)
make_cores-Complete_example =
    make_cores-Complete config_platform counting vlnv_initialization_order entries fresh_card
