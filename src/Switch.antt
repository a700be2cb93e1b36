-- ===== src/Switch.antt =====
-- lib/ips/switch.cpp: the AXI Stream switch. The Xilinx driver (xilinx/xaxis_switch.h) is a parameter:
-- its calls act on a hardware state `H`.
pub mod Exclusive
pub mod Routes
mod Examples
use fpga.Prelude.{
  ℕ, Bool, true, false, not, ◌&&◌, ◌||◌, List, [], ◌∷◌, ◌++◌, Option, none, some, if◌then◌else◌,
  Text, codes, text_eq, take, drop, StoiResult, value, no_digits, too_large, stoi, to_u8, Map, find,
  assign, text_key, M, pure, throw, modify, run, gets, ◌>>=◌, ◌>>◌, out_of_range, invalid_argument,
}

pub record SwitchDriver (H : Type 0) : Type 0 where
  pub cfg_initialize : ℕ → H → Bool × H
  pub reg_update_disable : H → H
  pub reg_update_enable : H → H
  pub mi_port_disable_all : H → H
  pub mi_port_disable : ℕ → H → H
  pub mi_port_enable : ℕ → ℕ → H → H

-- `edges` are the calls of StreamGraph::addDefaultEdge, from a slave port to a master port.
pub record AxiStreamSwitch (H : Type 0) : Type 0 where
  pub hw : H
  pub base_addr : ℕ
  pub ports_master : List Text
  pub ports_slave : List Text
  pub port_mapping : Map Text Text
  pub edges : List (Text × Text)

-- PORT_DISABLED
abbrev pub port_disabled : Text
port_disabled = codes "DISABLED"

-- Whether getSlavePort or getMasterPort finds a port.
abbrev pub has_port : Text → List Text → Bool
has_port port [] = false
has_port port (p ∷ ports) = text_eq p port || has_port port ports

-- `name.substr(0, 1) == c`
abbrev pub starts_with : ℕ → Text → Bool
starts_with c [] = false
starts_with c (d ∷ _) = text_eq (d ∷ []) (c ∷ [])

-- The text that portNameToNum reads as a number: two characters behind the first.
abbrev pub port_digits : Text → Text
port_digits name = take 2 (drop 1 name)

-- AxiStreamSwitch::portNameToNum, with the cast to the driver's u8. `substr(1, 2)` throws on the empty
-- name.
unfoldable pub number_or_throw : {S : Type 0} → StoiResult → M S ℕ
number_or_throw (value z) = pure (to_u8 z)
number_or_throw no_digits = throw invalid_argument
number_or_throw too_large = throw out_of_range

unfoldable pub port_name_to_num : {S : Type 0} → Text → M S ℕ
unfolding number_or_throw
port_name_to_num [] = throw out_of_range
port_name_to_num (c ∷ name) = number_or_throw (stoi (port_digits (c ∷ name)))

abbrev pub on_hw : {H : Type 0} → (H → H) → AxiStreamSwitch H → AxiStreamSwitch H
on_hw f sw = record sw { hw = f sw.hw }

abbrev pub map_port : {H : Type 0} → Text → Text → AxiStreamSwitch H → AxiStreamSwitch H
map_port master slave sw = record sw { port_mapping = assign master slave sw.port_mapping }

-- `portMapping[master]`, which puts the empty string where there is no entry.
abbrev pub touch : {H : Type 0} → Text → AxiStreamSwitch H → Text × AxiStreamSwitch H
touch master sw = elim (find master sw.port_mapping) [
  | none ↦ ([], map_port master [] sw)
  | some slave ↦ (slave, sw)
]

-- The checks of connectInternal, in the order in which they are made.
unfoldable pub ports_ok : {H : Type 0} → Text → Text → AxiStreamSwitch H → Bool
ports_ok port_slave port_master sw =
    has_port port_slave sw.ports_slave
    && has_port port_master sw.ports_master
    && starts_with b'S' port_slave
    && starts_with b'M' port_master

module _ {H : Type 0} (drv : SwitchDriver H) where
  -- The inner loop of `init`: an edge from each slave port to the master port.
  abbrev slave_edges : Text → List Text → List (Text × Text) → List (Text × Text)
  slave_edges master [] edges = edges
  slave_edges master (slave ∷ slaves) edges =
      slave_edges master slaves (edges ++ ((slave, master) ∷ []))

  unfoldable pub init_ports : List Text → AxiStreamSwitch H → AxiStreamSwitch H
  init_ports [] sw = sw
  init_ports (master ∷ masters) sw = init_ports masters (record sw {
    port_mapping = assign master port_disabled sw.port_mapping;
    edges = slave_edges master sw.ports_slave sw.edges;
  })

  -- AxiStreamSwitch::init
  unfoldable pub init : M (AxiStreamSwitch H) Bool
  unfolding init_ports
  init = do
    initialized ← run (λ sw. (
      (drv.cfg_initialize sw.base_addr sw.hw).0,
      on_hw (λ h. (drv.cfg_initialize sw.base_addr h).1) sw,
    ))
    if initialized
        then (do
          modify (on_hw drv.reg_update_disable)
          modify (on_hw drv.mi_port_disable_all)
          modify (on_hw drv.reg_update_enable)
          modify (λ sw. init_ports sw.ports_master sw)
          pure true)
        else pure false

  -- One turn of the loop over the mapping, at an entry for the slave.
  unfoldable pub disable_master : Text → M (AxiStreamSwitch H) (Unit {0})
  unfolding port_name_to_num
  disable_master master = do
    modify (on_hw drv.reg_update_disable)
    num ← port_name_to_num master
    modify (on_hw (drv.mi_port_disable num))
    modify (on_hw drv.reg_update_enable)
    modify (map_port master port_disabled)

  -- The loop over the entries that the mapping has when it starts. It adds none, and writes only to
  -- the entry at hand.
  unfoldable pub disable_slave : Text → Map Text Text → M (AxiStreamSwitch H) (Unit {0})
  unfolding disable_master
  disable_slave port_slave [] = pure tt
  disable_slave port_slave ((master, slave) ∷ entries) =
      let rest = disable_slave port_slave entries in
      if text_eq slave port_slave then disable_master master >> rest else rest

  unfoldable pub enable_port : Text → Text → M (AxiStreamSwitch H) (Unit {0})
  unfolding port_name_to_num
  enable_port port_slave port_master = do
    modify (on_hw drv.reg_update_disable)
    master ← port_name_to_num port_master
    slave ← port_name_to_num port_slave
    modify (on_hw (drv.mi_port_enable master slave))
    modify (on_hw drv.reg_update_enable)
    modify (map_port port_master port_slave)

  -- The part of connectInternal behind its checks.
  unfoldable pub reroute : Text → Text → M (AxiStreamSwitch H) Bool
  unfolding disable_slave enable_port
  reroute port_slave port_master = do
    connected ← run (touch port_master)
    if text_eq connected port_slave then pure true else (do
      entries ← gets (λ sw. sw.port_mapping)
      disable_slave port_slave entries
      enable_port port_slave port_master
      pure true)

  -- AxiStreamSwitch::connectInternal
  unfoldable pub connect_internal : Text → Text → M (AxiStreamSwitch H) Bool
  unfolding ports_ok reroute
  connect_internal port_slave port_master = do
    ok ← gets (ports_ok port_slave port_master)
    if ok then reroute port_slave port_master else pure false
