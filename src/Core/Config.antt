-- ===== src/Core/Config.antt =====
-- CoreFactory::make, its first loop: the cores are made by their factories, and their interrupts and
-- memory views are read from the configuration. jansson, utils::tokenize, the memory manager and the
-- factories are parameters.
use fpga.Prelude.{
  ℕ, ◌-◌, ◌^◌, Bool, false, List, [], ◌∷◌, ◌++◌, Option, none, some, if◌then◌else◌, Text, codes,
  text_eq, text_key, Map, find, assign, ℤ, pos, negsuc, stoi, StoiResult, value, no_digits,
  too_large, M, pure, throw, hang, modify, run, ◌>>=◌, ◌>>◌, out_of_range, config_error,
}
use fpga.Vlnv.{Vlnv}
use fpga.Core.{IpIdentifier, lookup_by, lookup_factory}

-- An address block of a memory view, where json_unpack_ex reads its three numbers.
pub record BlockConfig : Type 0 where
  pub base : ℤ
  pub high : ℤ
  pub size : ℤ

-- The blocks of an instance, by their names.
abbrev pub InstanceConfig : Type 0
InstanceConfig = List (Text × Option BlockConfig)

-- The configuration of a core: its interrupts, where `irqs` is an object, each with its string or a
-- null pointer; its buses, where `memory-view` is an object; and the rest.
pub record IpConfig (J : Type 0) : Type 0 where
  pub irqs : Option (List (Text × Option Text))
  pub memory_view : Option (List (Text × List (Text × InstanceConfig)))
  pub rest : J

-- IrqPort, with the name of its controller.
pub record IrqPort : Type 0 where
  pub num : ℤ
  pub controller : Text

-- A core that is configured, and whether it is an InterruptController.
pub record ConfiguredIp : Type 0 where
  pub id : IpIdentifier
  pub is_interrupt_controller : Bool
  pub irqs : Map Text IrqPort
  pub bus_master_interfaces : Map Text ℕ

-- What the loop calls, over the state `W` of the memory manager and the cores.
pub record ConfigPlatform (W F J : Type 0) : Type 0 where
  pub plugins : List F
  pub compatible_vlnv : F → Vlnv
  -- Whether the factory makes a core, and whether that is an interrupt controller.
  pub makes : F → Bool
  pub makes_interrupt_controller : F → Bool
  pub config_of : Text → IpConfig J
  pub tokenize : Text → Text → List Text
  pub master_addr_space_name : Text → Text → Text
  pub slave_addr_space_name : Text → Text → Text
  pub get_or_create_address_space : Text → W → ℕ × W
  pub create_mapping : ℕ → ℕ → ℕ → Text → ℕ → ℕ → W → W
  pub parse : F → ConfiguredIp → J → M W (Unit {0})
  pub configure_polling_mode : F → IpIdentifier → M W (Unit {0})

-- The cast of a json_int_t to uintptr_t.
abbrev pub to_uintptr : ℤ → ℕ
to_uintptr (pos n) = n
to_uintptr (negsuc n) = 2 ^ 64 - 1 - n

-- The loop over the configured cores for the controller of an interrupt: the first core of the name
-- decides.
unfoldable pub has_controller : List ConfiguredIp → Text → Bool
unfolding lookup_by
has_controller configured name = elim (lookup_by (λ ip. text_eq ip.id.name name) configured) [
  | none ↦ false
  | some ip ↦ ip.is_interrupt_controller
]

module _ {W F J : Type 0} (p : ConfigPlatform W F J) where
  -- An interrupt whose controller is there.
  unfoldable pub add_irq : Text → Text → StoiResult → Map Text IrqPort → M W (Map Text IrqPort)
  add_irq name controller (value num) irqs =
      pure (assign name (record { num = num; controller = controller }) irqs)
  add_irq name controller no_digits irqs = pure irqs
  add_irq name controller too_large irqs = throw out_of_range

  -- An interrupt, from the tokens of its string.
  unfoldable pub parse_irq :
      List ConfiguredIp → Text → List Text → Map Text IrqPort → M W (Map Text IrqPort)
  unfolding has_controller stoi add_irq
  parse_irq configured name [] irqs = pure irqs
  parse_irq configured name (a ∷ []) irqs = pure irqs
  parse_irq configured name (controller ∷ num ∷ []) irqs =
      if has_controller configured controller
      then add_irq name controller (stoi num) irqs
      else pure irqs
  parse_irq configured name (a ∷ b ∷ c ∷ tokens) irqs = pure irqs

  -- The loop over the interrupts.
  unfoldable pub parse_irqs :
      List ConfiguredIp → List (Text × Option Text) → Map Text IrqPort → M W (Map Text IrqPort)
  unfolding parse_irq
  parse_irqs configured [] irqs = pure irqs
  parse_irqs configured ((name, none) ∷ entries) irqs = hang
  parse_irqs configured ((name, some entry) ∷ entries) irqs = do
    added ← parse_irq configured name (p.tokenize entry (codes ":")) irqs
    parse_irqs configured entries added

  -- The loop over the blocks of an instance, for a bus with the address space `master`.
  unfoldable pub map_blocks : Text → ℕ → Text → InstanceConfig → M W (Unit {0})
  map_blocks bus master instance_name [] = pure tt
  map_blocks bus master instance_name ((block, none) ∷ blocks) = throw config_error
  map_blocks bus master instance_name ((block, some config) ∷ blocks) = do
    slave ← run (p.get_or_create_address_space (p.slave_addr_space_name instance_name block))
    modify (p.create_mapping (to_uintptr config.base) 0 (to_uintptr config.size) bus master slave)
    map_blocks bus master instance_name blocks

  unfoldable pub map_instances : Text → ℕ → List (Text × InstanceConfig) → M W (Unit {0})
  unfolding map_blocks
  map_instances bus master [] = pure tt
  map_instances bus master ((instance_name, blocks) ∷ instances) = do
    map_blocks bus master instance_name blocks
    map_instances bus master instances

  -- The loop over the buses of a memory view.
  unfoldable pub parse_memory_view :
      Text → List (Text × List (Text × InstanceConfig)) → Map Text ℕ → M W (Map Text ℕ)
  unfolding map_instances
  parse_memory_view name [] buses = pure buses
  parse_memory_view name ((bus, instances) ∷ views) buses = do
    master ← run (p.get_or_create_address_space (p.master_addr_space_name name bus))
    map_instances bus master instances
    parse_memory_view name views (assign bus master buses)

  -- `if (json_is_object(...))`
  unfoldable pub irqs_of :
      List ConfiguredIp → Option (List (Text × Option Text)) → M W (Map Text IrqPort)
  unfolding parse_irqs
  irqs_of configured none = pure []
  irqs_of configured (some entries) = parse_irqs configured entries []

  unfoldable pub buses_of :
      Text → Option (List (Text × List (Text × InstanceConfig))) → M W (Map Text ℕ)
  unfolding parse_memory_view
  buses_of name none = pure []
  buses_of name (some views) = parse_memory_view name views []

  -- One round of the loop, with its factory.
  unfoldable pub configure_ip : List ConfiguredIp → IpIdentifier → F → M W (List ConfiguredIp)
  unfolding irqs_of buses_of
  configure_ip configured id f = do
    irqs ← irqs_of configured (p.config_of id.name).irqs
    buses ← buses_of id.name (p.config_of id.name).memory_view
    p.parse f
        (record {
          id = id;
          is_interrupt_controller = p.makes_interrupt_controller f;
          irqs = irqs;
          bus_master_interfaces = buses;
        })
        (p.config_of id.name).rest
    p.configure_polling_mode f id
    pure (
        configured
        ++ (record {
          id = id;
          is_interrupt_controller = p.makes_interrupt_controller f;
          irqs = irqs;
          bus_master_interfaces = buses;
        }
            ∷ []))

  -- The factory that makes the core; without one the core is left out.
  unfoldable pub factory_for : IpIdentifier → Option F
  unfolding lookup_factory
  factory_for id = elim (lookup_factory p.compatible_vlnv p.plugins id.vlnv) [
    | none ↦ none
    | some f ↦ if p.makes f then some f else none
  ]

  -- The loop over the ordered cores.
  unfoldable pub configure_ips : List IpIdentifier → List ConfiguredIp → M W (List ConfiguredIp)
  unfolding configure_ip factory_for
  configure_ips [] configured = pure configured
  configure_ips (id ∷ ids) configured = elim (factory_for id) [
    | none ↦ configure_ips ids configured
    | some f ↦ do more ← configure_ip configured id f; configure_ips ids more
  ]

-- Core::getInterruptController
unfoldable pub get_interrupt_controller : Map Text IrqPort → Text → Option Text
get_interrupt_controller irqs name = elim (find name irqs) [
  | none ↦ none
  | some irq ↦ some irq.controller
]
