-- ===== src/Pcie/Examples.antt =====
-- Tests of PCIeCardFactory::make, and its theorems, on a card with a DMA controller and an Aurora core
-- that are connected.
use fpga.Prelude.{
  ℕ, if◌then◌else◌, Ensures, Bool, true, false, [], ◌∷◌, ◌++◌, none, some, ◌≡◌, refl, Text, codes,
  text_eq, text_eq_refl, Text-discrete, returned, threw, pure, List, text_key, Spec-pure,
  config_error, ◌>>=◌, modify, Outcome, stuck, map, ap, Spec,
}
use fpga.Node.{StreamVertex, Streams}
use fpga.Pcie.{PathConfig, path_array, CardConfig, object, node, Platform, make}
use fpga.Pcie.BridgeMaps.{BridgeLaws, MapsAll, bridge_init-MapsAll}
use fpga.Pcie.Bridge.{Bridge, BridgePlatform, bridge_init, bridge_parse, BridgeMapping}
use fpga.Pcie.Cards.{fpgas, Files, setup_fpga_card, setup_fpga_card-NeverReturns}
use fpga.Pcie.Make.{Anything, OwnPorts}

abbrev port_of : ℕ → Text → Bool → StreamVertex
port_of identifier name is_master = record {
  identifier = identifier;
  node_name = name;
  port_name = codes "m_axis";
  is_master = is_master;
}

-- Every vertex is connected with every other one, over no edge that is to be made.
abbrev wired : Streams ℕ
wired = record {
  get_path = λ from to. some [];
  get_edge = λ edge. none;
  get_vertex = λ vertex. none;
  is_node = λ name. true;
  connect_internal = λ self slave master. pure true;
}

abbrev platform : Platform ℕ ℕ
platform = record {
  lookup_device = λ id slot h. (true, h);
  attach_device = λ h. h;
  pci_enable = λ h. (true, h);
  pci_hot_reset = λ h. (true, h);
  join = λ path file. path ++ file;
  load_file = λ path h. elim path [ none ↦ (none, h) | some _ ↦ (some (object 0), h) ];
  make_cores = λ config ips. pure (codes "dma" ∷ codes "aurora" ∷ []);
  lookup_ip = λ name h. node;
  default_master = λ name. pure (port_of 0 name true);
  default_slave = λ name. pure (port_of 1 name false);
  streams = wired;
}

platform-OwnPorts : OwnPorts platform
platform-OwnPorts = record { slave-own = λ name. Spec-pure _ (λ h _. text_eq_refl name) }

abbrev path_of : Bool → PathConfig
path_of reverse = record { from = codes "dma"; to = codes "aurora"; reverse = reverse }

abbrev card_config : Bool → CardConfig
card_config reverse = record {
  ips = some (codes "ips.json");
  affinity = 0;
  do_reset = true;
  slot = none;
  id = none;
  polling = false;
  paths = path_array (some (path_of reverse) ∷ []);
}

test_make : make platform 3 (some (codes "etc/")) (some (card_config false)) 0 ≡ returned true 0
unfolding make Text-discrete ◌>>=◌
test_make = refl

test_make_reverse :
    make platform 3 (some (codes "etc/")) (some (card_config true)) 0 ≡ threw config_error 0
unfolding make Text-discrete ◌>>=◌
test_make_reverse = refl

test_apart : text_eq (codes "aurora") (codes "dma") ≡ false
unfolding Text-discrete
test_apart = refl

-- A device with one region, at BAR 0, over the list of the mappings.
abbrev one_region : BridgePlatform (List BridgeMapping)
one_region = record {
  bus_master_interface = λ name. some 1;
  set_host_to_device = λ space w. w;
  set_device_to_host = λ space w. w;
  region_map = pure (some 4096);
  region_get_size = pure 1048576;
  process_address_space = 2;
  pci_address_space = 3;
  slave_addr_space_name = λ name. name;
  get_or_create_address_space = λ name. pure 4;
  create_mapping = λ m. modify (λ w. w ++ (m ∷ []));
  get_regions = pure (record { num = 0; start = 65536; end = 131071 } ∷ []);
}

one_region-laws : BridgeLaws one_region
unfolding pure modify
one_region-laws = record {
  made = λ w. w;
  bar0 = some 4096;
  bar0_size = 1048576;
  space_of = λ name. 4;
  regions = record { num = 0; start = 65536; end = 131071 } ∷ [];
  set_host_to_device-made = λ space w. refl;
  set_device_to_host-made = λ space w. refl;
  region_map-made = λ ms. record { at = λ w e. (e, refl) };
  region_get_size-made = λ ms. record { at = λ w e. (e, refl) };
  get_or_create-made = λ name ms. record { at = λ w e. (e, refl) };
  get_regions-made = λ ms. record { at = λ w e. (e, refl) };
  create_mapping-made = λ m ms. record { at = λ w e. ap (λ l. l ++ (m ∷ [])) e };
}

abbrev one_bar : Bridge
one_bar = record {
  axi_to_pcie_translations = [];
  pcie_to_axi_translations = (codes "BAR0", record { translation = 0 }) ∷ [];
}

test_bridge_parse :
    bridge_parse
      (some [])
      (some ((codes "BAR0", record { translation = some 0; numbers = none }) ∷ []))
      (record { axi_to_pcie_translations = []; pcie_to_axi_translations = [] })
    ≡ returned tt one_bar
unfolding bridge_parse ◌>>=◌
test_bridge_parse = refl

abbrev sources : {A : Type 0} → Outcome (List BridgeMapping) A → List ℕ
sources (returned a w) = map (λ (m : BridgeMapping). m.src) w
sources (threw e w) = []
sources (stuck w) = []

test_bridge_init : sources (bridge_init one_region one_bar []) ≡ 4096 ∷ 65536 ∷ []
unfolding bridge_init ◌>>=◌ Text-discrete pure modify
test_bridge_init = refl

bridge_init-MapsAll_example :
    Spec
      (λ w. one_region-laws.made w ≡ [])
      (bridge_init one_region one_bar)
      (MapsAll one_region one_region-laws one_bar [])
      (λ e w. Unit {0})
bridge_init-MapsAll_example = bridge_init-MapsAll one_region one_region-laws one_bar []

-- One file, which is named with its directory or without it.
abbrev one_file : Files ℕ
one_file = record {
  parent_path = λ file. if text_eq file (codes "etc/fpgas.json") then some (codes "etc/") else none;
  load_config = λ file h. (
    some (
        fpgas (
          record {
            name = codes "vc707";
            interface = some (codes "pcie");
            config = some (card_config false);
          }
          ∷ [])),
    h,
  );
}

test_setup :
    setup_fpga_card platform 3 one_file (codes "etc/fpgas.json") (codes "vc707") 0
    ≡ returned (codes "vc707") 0
unfolding setup_fpga_card Text-discrete ◌>>=◌ make
test_setup = refl

test_no_directory : one_file.parent_path (codes "fpgas.json") ≡ none
unfolding Text-discrete
test_no_directory = refl

setup_fpga_card-NeverReturns_example :
    Ensures
      (λ _ _. ⊥)
      Anything
      (setup_fpga_card platform 3 one_file (codes "fpgas.json") (codes "vc707") 0)
setup_fpga_card-NeverReturns_example =
    (setup_fpga_card-NeverReturns platform 3 one_file (codes "fpgas.json") (codes "vc707")
        test_no_directory).at
      0 tt
