-- ===== src/Pcie.antt =====
-- lib/pcie_card.cpp: how a card is made from its configuration. jansson, the PCI and VFIO calls, the
-- making of the cores and the nodes' ports are parameters; the connections of the paths are those of
-- `Node`.
pub mod Make
pub mod Bridge
pub mod BridgeMaps
pub mod Cards
mod Examples
use fpga.Prelude.{
  ℕ, Bool, true, false, not, ◌==◌, List, [], ◌∷◌, ◌++◌, Option, none, some, if◌then◌else◌, Text, M,
  pure, throw, modify, gets, run, ◌>>=◌, ◌>>◌, config_error, runtime_error,
}
use fpga.Node.{StreamVertex, Streams, connect_reverse}

-- A path of the switch, where json_unpack_ex reads it.
pub record PathConfig : Type 0 where
  pub from : Text
  pub to : Text
  pub reverse : Bool

-- The value of `paths`; `none` stands for a path that cannot be read.
pub data PathsConfig : Type 0 where
  no_paths : PathsConfig
  no_path_array : PathsConfig
  path_array : List (Option PathConfig) → PathsConfig

-- The configuration of a card; `ips` is the name of a file, or `none` for a value of another type.
pub record CardConfig : Type 0 where
  pub ips : Option Text
  pub affinity : ℕ
  pub do_reset : Bool
  pub slot : Option Text
  pub id : Option Text
  pub polling : Bool
  pub paths : PathsConfig

-- What a file holds: an object or another value.
pub data Loaded (J : Type 0) : Type 0 where
  object : J → Loaded J
  no_object : Loaded J

-- What the card finds under a name: an IP that is not there, a core, or a core that is a node.
pub data LookedUp : Type 0 where
  missing : LookedUp
  no_node : LookedUp
  node : LookedUp

-- The calls, over their state `H`; `load_file none` is json_load_file with a null pointer, `join` puts
-- a name behind a path.
pub record Platform (H J : Type 0) : Type 0 where
  pub lookup_device : Option Text → Option Text → H → Bool × H
  pub attach_device : H → H
  pub pci_enable : H → Bool × H
  pub pci_hot_reset : H → Bool × H
  pub join : Text → Text → Text
  pub load_file : Option Text → H → Option (Loaded J) × H
  pub make_cores : CardConfig → J → M H (List Text)
  pub lookup_ip : Text → H → LookedUp
  pub default_master : Text → M H StreamVertex
  pub default_slave : Text → M H StreamVertex
  pub streams : Streams H

module _ {H J : Type 0} (p : Platform H J) where
  -- Node::connect of two nodes, by their default ports
  unfoldable pub connect_nodes : ℕ → Text → Text → Bool → M H Bool
  unfolding connect_reverse
  connect_nodes fuel master slave reverse = do
    from ← p.default_master master
    to ← p.default_slave slave
    connect_reverse p.streams fuel master from to reverse

  -- `if (!ip) throw ConfigError(...); ... if (!node) throw ConfigError(...);`
  unfoldable pub is_found : LookedUp → Bool
  is_found missing = false
  is_found no_node = true
  is_found node = true

  unfoldable pub is_a_node : LookedUp → Bool
  is_a_node missing = false
  is_a_node no_node = false
  is_a_node node = true

  unfoldable pub require : Bool → M H (Unit {0})
  require true = pure tt
  require false = throw config_error

  -- One round of the loop over the paths.
  unfoldable pub connect_path : ℕ → Option PathConfig → M H (Unit {0})
  unfolding connect_nodes is_found is_a_node require
  connect_path fuel none = throw config_error
  connect_path fuel (some path) = do
    master ← gets (p.lookup_ip path.from)
    require (is_found master)
    slave ← gets (p.lookup_ip path.to)
    require (is_found slave)
    require (is_a_node master)
    require (is_a_node slave)
    connected ← connect_nodes fuel path.from path.to path.reverse
    require connected

  unfoldable pub connect_all : ℕ → List (Option PathConfig) → M H (Unit {0})
  unfolding connect_path
  connect_all fuel [] = pure tt
  connect_all fuel (path ∷ paths) = do connect_path fuel path; connect_all fuel paths

  -- The static paths of the switch.
  unfoldable pub connect_paths : ℕ → PathsConfig → M H (Unit {0})
  unfolding connect_all
  connect_paths fuel no_paths = pure tt
  connect_paths fuel no_path_array = throw config_error
  connect_paths fuel (path_array paths) = connect_all fuel paths

  -- PCIeCard::init; PCIeCard::reset answers true.
  unfoldable pub init : Bool → M H Bool
  init do_reset = do
    modify p.attach_device
    enabled ← run p.pci_enable
    if not enabled then pure false else (if do_reset then run p.pci_hot_reset else pure true)

  -- The second attempt: where nothing was loaded from the search path, the null pointer has taken the
  -- place of the name of the file.
  unfoldable pub load_again : Option (Loaded J) → M H (Option (Loaded J))
  load_again none = run (p.load_file none)
  load_again (some loaded) = pure (some loaded)

  -- The value that stands for the cores: without a search path it stays the string.
  unfoldable pub load_ips : Option Text → Text → M H (Option (Loaded J))
  unfolding load_again
  load_ips none file = pure (some no_object)
  load_ips (some search_path) file = do
    loaded ← run (p.load_file (some (p.join search_path file)))
    load_again loaded

  -- The cores, from what was loaded, and the paths.
  unfoldable pub make_card : ℕ → CardConfig → Option (Loaded J) → M H (Unit {0})
  unfolding connect_paths
  make_card fuel config none = throw config_error
  make_card fuel config (some no_object) = throw config_error
  make_card fuel config (some (object ips)) = do
    cores ← p.make_cores config ips
    elim cores [ [] ↦ throw config_error | _ ∷ _ ↦ connect_paths fuel config.paths ]

  unfoldable pub load_and_make : ℕ → Option Text → CardConfig → Option Text → M H Bool
  unfolding load_ips make_card
  load_and_make fuel search_path config none = throw config_error
  load_and_make fuel search_path config (some file) = do
    loaded ← load_ips search_path file
    make_card fuel config loaded
    pure true

  -- PCIeCardFactory::make: whether it gives a card or a null pointer. `none` is a configuration that
  -- json_unpack_ex does not read, and an empty search path.
  unfoldable pub make : ℕ → Option Text → Option CardConfig → M H Bool
  unfolding init load_and_make
  make fuel search_path none = throw config_error
  make fuel search_path (some config) = do
    found ← run (p.lookup_device config.id config.slot)
    if not found then pure false else (do
      started ← init config.do_reset
      if not started then pure false else load_and_make fuel search_path config config.ips)
