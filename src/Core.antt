-- ===== src/Core.antt =====
-- include/villas/fpga/core.hpp and lib/core.cpp: the identity of an IP core, and the order in which
-- the cores of a card are initialised. lib/card.cpp: looking a core up.
pub mod Lookup
pub mod Order
pub mod Start
pub mod Make
pub mod Config
pub mod Configured
mod Examples
use fpga.Prelude.{
  ℕ, Bool, true, false, not, ◌&&◌, ◌||◌, List, [], ◌∷◌, ◌++◌, Option, none, some, if◌then◌else◌,
  Text, codes, text_eq, is_empty,
}
use fpga.Vlnv.{Vlnv, vlnv_eq, wildcard, parse_from_string}

pub record IpIdentifier : Type 0 where
  pub vlnv : Vlnv
  pub name : Text

-- IpIdentifier::operator==
unfoldable pub identifier_eq : IpIdentifier → IpIdentifier → Bool
identifier_eq id other = vlnv_match && name_match
  where
    vlnv_wildcard : Bool
    vlnv_wildcard = vlnv_eq other.vlnv wildcard

    name_wildcard : Bool
    name_wildcard = is_empty id.name || is_empty other.name

    vlnv_match : Bool
    vlnv_match = vlnv_wildcard || vlnv_eq id.vlnv other.vlnv

    name_match : Bool
    name_match = name_wildcard || text_eq id.name other.name

-- The first element that passes a test; `none` is nullptr.
unfoldable pub lookup_by : {A : Type 0} → (A → Bool) → List A → Option A
lookup_by test [] = none
lookup_by test (ip ∷ ips) = if test ip then some ip else lookup_by test ips

-- CoreFactory::lookup, over the tags that the registered factories give as compatible.
unfoldable pub lookup_factory : {F : Type 0} → (F → Vlnv) → List F → Vlnv → Option F
unfolding lookup_by
lookup_factory compatible_vlnv plugins vlnv =
    lookup_by (λ f. vlnv_eq (compatible_vlnv f) vlnv) plugins

-- Card::lookupIp by instance name
unfoldable pub lookup_ip_name : List IpIdentifier → Text → Option IpIdentifier
unfolding lookup_by
lookup_ip_name ips name = lookup_by (λ ip. text_eq ip.name name) ips

-- Card::lookupIp by tag
unfoldable pub lookup_ip_vlnv : List IpIdentifier → Vlnv → Option IpIdentifier
unfolding lookup_by
lookup_ip_vlnv ips vlnv = lookup_by (λ ip. vlnv_eq ip.vlnv vlnv) ips

-- Card::lookupIp by identifier
unfoldable pub lookup_ip_id : List IpIdentifier → IpIdentifier → Option IpIdentifier
unfolding lookup_by identifier_eq
lookup_ip_id ips id = lookup_by (λ ip. identifier_eq ip id) ips

-- vlnvInitializationOrder
abbrev pub vlnv_initialization_order : List Vlnv
vlnv_initialization_order =
    parse_from_string (codes "xilinx.com:ip:axi_pcie:")
    ∷ parse_from_string (codes "xilinx.com:module_ref:axi_pcie_intc:")
    ∷ parse_from_string (codes "xilinx.com:ip:axis_switch:")
    ∷ parse_from_string (codes "xilinx.com:ip:axi_iic:")
    ∷ []

-- The two lists of CoreFactory::make while the special cores are picked out.
pub record Queues : Type 0 where
  pub all_ips : List IpIdentifier
  pub ordered_ips : List IpIdentifier

-- An element that the iterator leaves in `allIps`.
unfoldable pub put_back : IpIdentifier → Option Queues → Option Queues
put_back ip none = none
put_back ip (some q) = some (record q { all_ips = ip ∷ q.all_ips })

-- The inner loop over `allIps` from an iterator on. A match is moved to the front of the ordered
-- list; the iterator that `erase` returns is then advanced once more by the loop, past the core
-- behind the match. `none` is that advance at the end of the list, which is undefined.
unfoldable pub pick : Vlnv → List IpIdentifier → List IpIdentifier → Option Queues
unfolding put_back
pick vlnv [] ordered = some (record { all_ips = []; ordered_ips = ordered })
pick vlnv (ip ∷ []) ordered =
    if vlnv_eq vlnv ip.vlnv
    then none
    else some (record { all_ips = ip ∷ []; ordered_ips = ordered })
pick vlnv (ip ∷ ip' ∷ ips) ordered =
    let skipped = pick vlnv ips (ip ∷ ordered) in
    let passed = pick vlnv (ip' ∷ ips) ordered in
    if vlnv_eq vlnv ip.vlnv then put_back ip' skipped else put_back ip passed

-- The outer loop, over the tags that rbegin and rend give.
unfoldable pub pick_all : List Vlnv → Queues → Option Queues
unfolding pick
pick_all [] q = some q
pick_all (vlnv ∷ vlnvs) q = elim (pick vlnv q.all_ips q.ordered_ips) [
  | none ↦ none
  | some q' ↦ pick_all vlnvs q'
]

-- orderedIps.splice(orderedIps.end(), allIps)
unfoldable pub splice : Option Queues → Option (List IpIdentifier)
splice none = none
splice (some q) = some (q.ordered_ips ++ q.all_ips)

-- The tags from the last to the first, in front of `done`
abbrev pub reversed_onto : List Vlnv → List Vlnv → List Vlnv
reversed_onto [] done = done
reversed_onto (vlnv ∷ vlnvs) done = reversed_onto vlnvs (vlnv ∷ done)

-- The order of initialisation that CoreFactory::make works out, with vlnvInitializationOrder.
unfoldable pub initialization_order : List Vlnv → List IpIdentifier → Option (List IpIdentifier)
unfolding pick_all splice
initialization_order vlnvs all_ips =
    splice (pick_all (reversed_onto vlnvs []) (record { all_ips = all_ips; ordered_ips = [] }))
