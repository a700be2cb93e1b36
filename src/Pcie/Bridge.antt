-- ===== src/Pcie/Bridge.antt =====
-- lib/ips/pcie.cpp: the bridge between PCI Express and AXI. jansson, VFIO and the memory manager are
-- parameters.
use fpga.Prelude.{
  ℕ, ◌+◌, ◌-◌, ◌%◌, ◌^◌, Bool, true, false, List, [], ◌∷◌, ◌++◌, Option, none, some, ℤ, Text, codes,
  text_key, Map, find, assign, M, pure, throw, modify, ◌>>=◌, ◌>>◌, config_error, out_of_range,
}
use fpga.Core.Config.{to_uintptr}

-- AxiBar
pub record AxiBar : Type 0 where
  pub base : ℕ
  pub size : ℕ
  pub translation : ℕ

-- PciBar
pub record PciBar : Type 0 where
  pub translation : ℕ

-- A region of the PCI device
pub record Region : Type 0 where
  pub num : ℕ
  pub start : ℕ
  pub end : ℕ

-- The members of AxiPciExpressBridge that parse fills
pub record Bridge : Type 0 where
  pub axi_to_pcie_translations : Map Text AxiBar
  pub pcie_to_axi_translations : Map Text PciBar

-- A BAR of the configuration: its translation, and the three numbers of an AXI BAR, where json_unpack_ex
-- reads them.
pub record BarConfig : Type 0 where
  pub translation : Option ℕ
  pub numbers : Option (ℤ × ℤ × ℤ)

-- A call of createMapping
pub record BridgeMapping : Type 0 where
  pub src : ℕ
  pub dest : ℕ
  pub size : ℕ
  pub name : Text
  pub from_space : ℕ
  pub to_space : ℕ

-- VFIO, the memory manager and the card's two address spaces; a call may throw. `bus_master_interface` looks into
-- busMasterInterfaces, and a mapping of BAR0 is `none` where it is MAP_FAILED.
pub record BridgePlatform (W : Type 0) : Type 0 where
  pub bus_master_interface : Text → Option ℕ
  pub set_host_to_device : ℕ → W → W
  pub set_device_to_host : ℕ → W → W
  pub region_map : M W (Option ℕ)
  pub region_get_size : M W ℕ
  pub process_address_space : ℕ
  pub pci_address_space : ℕ
  pub slave_addr_space_name : Text → Text
  pub get_or_create_address_space : Text → M W ℕ
  pub create_mapping : BridgeMapping → M W (Unit {0})
  pub get_regions : M W (List Region)

-- `barName[3] = '0' + region.num`, in a char
abbrev pub bar_name : ℕ → Text
bar_name num = codes "BAR" ++ ((b'0' + num) % 256 ∷ [])

module _ {W : Type 0} (p : BridgePlatform W) where
  -- The three mappings of init
  abbrev pub bar0_mapping : ℕ → ℕ → ℕ → BridgeMapping
  bar0_mapping host_to_device bar0_mapped bar0_size = record {
    src = bar0_mapped;
    dest = 0;
    size = bar0_size;
    name = codes "vfio-h2d";
    from_space = p.process_address_space;
    to_space = host_to_device;
  }

  abbrev pub region_mapping : ℕ → Region → PciBar → BridgeMapping
  region_mapping host_to_device region pci_bar = record {
    src = region.start;
    dest = pci_bar.translation;
    size = (region.end + 2 ^ 64 - region.start + 1) % 2 ^ 64;
    name = codes "PCI-" ++ bar_name region.num;
    from_space = p.pci_address_space;
    to_space = host_to_device;
  }

  abbrev pub axi_mapping : Text → AxiBar → ℕ → BridgeMapping
  axi_mapping name axi_bar space = record {
    src = 0;
    dest = axi_bar.translation;
    size = axi_bar.size;
    name = codes "AXI-" ++ name;
    from_space = space;
    to_space = p.pci_address_space;
  }

  -- std::map::at
  unfoldable pub at_key : {V : Type 0} → Option V → M W V
  at_key none = throw out_of_range
  at_key (some v) = pure v

  -- The loop over the regions of the device.
  unfoldable pub map_regions : Bridge → ℕ → List Region → M W (Unit {0})
  unfolding at_key
  map_regions bridge host_to_device [] = pure tt
  map_regions bridge host_to_device (region ∷ regions) = do
    pci_bar ← at_key (find (bar_name region.num) bridge.pcie_to_axi_translations)
    p.create_mapping (region_mapping host_to_device region pci_bar)
    map_regions bridge host_to_device regions

  -- The loop over the AXI BARs.
  unfoldable pub map_axi_bars : Map Text AxiBar → M W (Unit {0})
  map_axi_bars [] = pure tt
  map_axi_bars ((name, axi_bar) ∷ bars) = do
    space ← p.get_or_create_address_space (p.slave_addr_space_name name)
    p.create_mapping (axi_mapping name axi_bar space)
    map_axi_bars bars

  -- init, behind the mapping of BAR0
  unfoldable pub map_bars : Bridge → ℕ → ℕ → M W Bool
  unfolding map_regions map_axi_bars
  map_bars bridge host_to_device bar0_mapped = do
    bar0_size ← p.region_get_size
    p.create_mapping (bar0_mapping host_to_device bar0_mapped bar0_size)
    device_to_host ← p.get_or_create_address_space (p.slave_addr_space_name (codes "BAR0"))
    modify (p.set_device_to_host device_to_host)
    regions ← p.get_regions
    map_regions bridge host_to_device regions
    map_axi_bars bridge.axi_to_pcie_translations
    pure true

  -- AxiPciExpressBridge::init
  unfoldable pub bridge_init : Bridge → M W Bool
  unfolding at_key map_bars
  bridge_init bridge = do
    host_to_device ← at_key (p.bus_master_interface (codes "M_AXI"))
    modify (p.set_host_to_device host_to_device)
    mapped ← p.region_map
    elim mapped [ none ↦ pure false | some bar0 ↦ map_bars bridge host_to_device bar0 ]

-- A BAR of the kind `axi_bars`.
unfoldable pub parse_axi_bar : Text → BarConfig → M Bridge (Unit {0})
parse_axi_bar name bar = elim bar.translation [
  | none ↦ throw config_error
  | some translation ↦ elim bar.numbers [
    | none ↦ throw config_error
    | some (base, high, size) ↦ modify (λ bridge. record bridge {
      axi_to_pcie_translations =
          assign name
            (record { base = to_uintptr base; size = to_uintptr size; translation = translation })
            bridge.axi_to_pcie_translations;
    })
  ]
]

-- A BAR of the kind `pcie_bars`.
unfoldable pub parse_pcie_bar : Text → BarConfig → M Bridge (Unit {0})
parse_pcie_bar name bar = elim bar.translation [
  | none ↦ throw config_error
  | some translation ↦ modify (λ bridge. record bridge {
    pcie_to_axi_translations =
        assign name (record { translation = translation }) bridge.pcie_to_axi_translations;
  })
]

unfoldable pub parse_bars :
    (Text → BarConfig → M Bridge (Unit {0})) → List (Text × BarConfig) → M Bridge (Unit {0})
parse_bars parse_bar [] = pure tt
parse_bars parse_bar ((name, bar) ∷ bars) = do parse_bar name bar; parse_bars parse_bar bars

-- `none` stands for a value that is no object.
unfoldable pub parse_kind :
    (Text → BarConfig → M Bridge (Unit {0}))
    → Option (List (Text × BarConfig))
    → M Bridge (Unit {0})
unfolding parse_bars
parse_kind parse_bar none = throw config_error
parse_kind parse_bar (some bars) = parse_bars parse_bar bars

-- AxiPciExpressBridgeFactory::parse, of `axi_bars` and `pcie_bars`
unfoldable pub bridge_parse :
    Option (List (Text × BarConfig)) → Option (List (Text × BarConfig)) → M Bridge (Unit {0})
unfolding parse_kind parse_axi_bar parse_pcie_bar
bridge_parse axi_bars pcie_bars =
    parse_kind parse_axi_bar axi_bars >> parse_kind parse_pcie_bar pcie_bars
