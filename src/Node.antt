-- ===== src/Node.antt =====
-- lib/node.cpp and include/villas/fpga/node.hpp: the graph of the streams, and how a node connects
-- two of its vertices. villas::graph::DirectedGraph, jansson and the connections inside the other IPs
-- are parameters.
pub mod Paths
pub mod Loopback
pub mod Ports
pub mod Vertices
mod Examples
use fpga.Prelude.{
  ℕ, zero, suc, Bool, true, false, not, ◌&&◌, ◌||◌, List, [], ◌∷◌, Option, none, some,
  if◌then◌else◌, Text, codes, text_eq, is_empty, Map, find, text_key, M, returned, threw, stuck,
  pure, throw, hang, ◌>>=◌, ◌>>◌, out_of_range, plain_exception,
}

-- StreamVertex, with the identifier that graph::Vertex keeps
pub record StreamVertex : Type 0 where
  pub identifier : ℕ
  pub node_name : Text
  pub port_name : Text
  pub is_master : Bool

abbrev pub same_bool : Bool → Bool → Bool
same_bool true b = b
same_bool false b = not b

-- The test of the loop in getOrCreateStreamVertex.
unfoldable pub is_vertex : Text → Text → Bool → StreamVertex → Bool
is_vertex node port is_master vertex =
    (text_eq vertex.node_name node && text_eq vertex.port_name port)
    && same_bool vertex.is_master is_master

-- DirectedGraph: the vertices in the order of its map, and a new one, which gets its identifier.
pub record Graph (G : Type 0) : Type 0 where
  pub vertices : G → List StreamVertex
  pub add_vertex : Text → Text → Bool → G → StreamVertex × G
  pub add_default_edge : ℕ → ℕ → G → G

-- The loop over the vertices.
unfoldable pub search_vertex : Text → Text → Bool → List StreamVertex → Option StreamVertex
unfolding is_vertex
search_vertex node port is_master [] = none
search_vertex node port is_master (vertex ∷ vertices) =
    if is_vertex node port is_master vertex
    then some vertex
    else search_vertex node port is_master vertices

-- StreamGraph::getOrCreateStreamVertex
unfoldable pub get_or_create_stream_vertex :
    {G : Type 0} → Graph G → Text → Text → Bool → G → StreamVertex × G
unfolding search_vertex
get_or_create_stream_vertex graph node port is_master g =
    elim (search_vertex node port is_master (graph.vertices g)) [
      | some vertex ↦ (vertex, g)
      | none ↦ graph.add_vertex node port is_master g
    ]

-- What connecting asks of the graph and of the other nodes, over the state `W` of their hardware.
-- `none` stands for an edge or a vertex that is not there, where the graph throws. `is_node` is
-- whether the card has an IP of a name and it is a node.
pub record Streams (W : Type 0) : Type 0 where
  pub get_path : ℕ → ℕ → Option (List ℕ)
  pub get_edge : ℕ → Option ℕ
  pub get_vertex : ℕ → Option StreamVertex
  pub is_node : Text → Bool
  pub connect_internal : Text → Text → Text → M W Bool

-- Node, with the pointers of its ports; `none` is null.
pub record Node : Type 0 where
  pub instance_name : Text
  pub ports_master : Map Text (Option StreamVertex)
  pub ports_slave : Map Text (Option StreamVertex)

-- Node::connectInternal of a node that has no connections inside
unfoldable pub connect_internal_default : {W : Type 0} → Text → Text → M W Bool
connect_internal_default slave_port master_port = pure false

-- Node::getDefaultSlavePort and Node::getDefaultMasterPort of a node that has none
unfoldable pub get_default_port : {W : Type 0} → M W StreamVertex
get_default_port = throw plain_exception

-- getMasterPort and getSlavePort: std::map::at, and a pointer that must not be null.
unfoldable pub get_port : {W : Type 0} → Map Text (Option StreamVertex) → Text → M W StreamVertex
get_port ports name w = elim (find name ports) [
  | none ↦ threw out_of_range w
  | some none ↦ stuck w
  | some (some vertex) ↦ returned vertex w
]

abbrev pub is_nil : {A : Type 0} → List A → Bool
is_nil [] = true
is_nil (_ ∷ _) = false

module _ {W : Type 0} (streams : Streams W) where
  unfoldable pub at_least : {A : Type 0} → Option A → M W A
  at_least none = throw out_of_range
  at_least (some a) = pure a

  -- The vertex that an edge leads to.
  unfoldable pub hop : ℕ → M W StreamVertex
  unfolding at_least
  hop edge = do to ← at_least (streams.get_edge edge); at_least (streams.get_vertex to)

  -- The end of connect: the node of the next vertex goes on, where it is one of the card's.
  unfoldable pub next_node : (Text → StreamVertex → M W Bool) → StreamVertex → M W Bool
  next_node call next =
      if streams.is_node next.node_name then call next.node_name next else pure false

  -- What follows an internal connection.
  unfoldable pub advance : (StreamVertex → M W Bool) → List ℕ → Bool → M W Bool
  unfolding hop
  advance next edges false = pure false
  advance next [] true = pure true
  advance next (second ∷ _) true = do vertex ← hop second; next vertex

  -- connect, from the path that it has found
  unfoldable pub take_path : (StreamVertex → M W Bool) → Text → StreamVertex → List ℕ → M W Bool
  unfolding hop advance
  take_path next self from [] = pure true
  take_path next self from (edge ∷ edges) = do
    first ← hop edge
    if text_eq first.node_name self
        then (do
          made ← streams.connect_internal self from.port_name first.port_name
          advance next edges made)
        else next first

  -- Node::connect of the node `self`; `fuel` bounds the nodes that call each other.
  unfoldable pub connect : ℕ → Text → StreamVertex → StreamVertex → M W Bool
  unfolding next_node take_path
  connect zero self from to = hang
  connect (suc fuel) self from to =
      if not (text_eq from.node_name self)
      then pure false
      else elim (streams.get_path from.identifier to.identifier) [
        | none ↦ pure false
        | some path ↦
            take_path (next_node (λ name vertex. connect fuel name vertex to)) self from path
      ]

  -- Node::connect with `reverse`
  unfoldable pub connect_reverse : ℕ → Text → StreamVertex → StreamVertex → Bool → M W Bool
  unfolding connect
  connect_reverse fuel self from to reverse = do
    ret ← connect fuel self from to
    if reverse then connect fuel self to from >>= (λ back. pure (ret && back)) else pure ret

  -- The inner loop of getLoopbackPorts; a null pointer is used all the same.
  unfoldable pub first_slave : StreamVertex → Map Text (Option StreamVertex) → M W (Option Text)
  first_slave master [] = pure none
  first_slave master ((name, none) ∷ ports) = hang
  first_slave master ((name, some slave) ∷ ports) =
      let rest = first_slave master ports in
      elim (streams.get_path master.identifier slave.identifier) [
        | none ↦ rest
        | some _ ↦ pure (some name)
      ]

  -- The outer one.
  unfoldable pub first_pair :
      Map Text (Option StreamVertex) → Map Text (Option StreamVertex) → M W (Text × Text)
  unfolding first_slave
  first_pair [] slaves = pure (codes "", codes "")
  first_pair ((name, none) ∷ masters) slaves =
      if is_nil slaves then first_pair masters slaves else hang
  first_pair ((name, some master) ∷ masters) slaves = do
    found ← first_slave master slaves
    elim found [ none ↦ first_pair masters slaves | some slave ↦ pure (name, slave) ]

  -- Node::getLoopbackPorts
  unfoldable pub get_loopback_ports : Node → M W (Text × Text)
  unfolding first_pair
  get_loopback_ports node = first_pair node.ports_master node.ports_slave

  -- Node::loopbackPossible
  unfoldable pub loopback_possible : Node → M W Bool
  unfolding get_loopback_ports
  loopback_possible node = do
    ports ← get_loopback_ports node
    pure (not (is_empty ports.0) && not (is_empty ports.1))

  -- `*p` for an entry of a map, where a missing one is made null
  unfoldable pub deref : Option (Option StreamVertex) → M W StreamVertex
  deref none = hang
  deref (some none) = hang
  deref (some (some vertex)) = pure vertex

  -- `*ports[name]`
  unfoldable pub pointed : Map Text (Option StreamVertex) → Text → M W StreamVertex
  unfolding deref
  pointed ports name = deref (find name ports)

  -- Node::connectLoopback
  unfoldable pub connect_loopback : ℕ → Node → M W Bool
  unfolding get_loopback_ports pointed connect
  connect_loopback fuel node = do
    ports ← get_loopback_ports node
    master ← pointed node.ports_master ports.0
    slave ← pointed node.ports_slave ports.1
    connect fuel node.instance_name master slave
