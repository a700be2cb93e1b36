-- ===== src/Node/Ports.antt =====
-- NodeFactory::parse of lib/node.cpp, behind CoreFactory::parse: the ports of a node. jansson and
-- utils::tokenize are parameters.
use fpga.Prelude.{
  Bool, not, ◌||◌, List, [], ◌∷◌, Option, none, some, if◌then◌else◌, Text, codes, text_eq, assign,
  text_key, M, pure, throw, modify, run, ◌>>=◌, ◌>>◌, config_error,
}
use fpga.Node.{StreamVertex, Graph, Node, get_or_create_stream_vertex}

-- The strings of a port, where json_unpack_ex finds all three.
pub record PortStrings : Type 0 where
  pub role : Text
  pub target : Text
  pub name : Text

pub record JsonPort : Type 0 where
  pub is_object : Bool
  pub strings : Option PortStrings

-- The value of `ports` in the configuration.
pub data JsonPorts : Type 0 where
  absent : JsonPorts
  no_array : JsonPorts
  array : List JsonPort → JsonPorts

-- The static graph, and the node whose ports are read.
pub record Parsing (G : Type 0) : Type 0 where
  pub graph : G
  pub node : Node

-- `role == "master" or role == "initiator"`
abbrev pub is_master_role : Text → Bool
is_master_role role = text_eq role (codes "master") || text_eq role (codes "initiator")

module _ {G : Type 0} (graph : Graph G) where
  unfoldable pub vertex_of : Text → Text → Bool → M (Parsing G) StreamVertex
  unfolding get_or_create_stream_vertex
  vertex_of node port is_master = run (λ s.
      let found = get_or_create_stream_vertex graph node port is_master s.graph in
      (found.0, record s { graph = found.1 }))

  -- The vertices and the edge of one port.
  unfoldable pub add_port : PortStrings → Text → Text → Bool → M (Parsing G) (Unit {0})
  unfolding vertex_of
  add_port port node other is_master s =
      (do
        this_vertex ← vertex_of s.node.instance_name port.name is_master
        connected_vertex ← vertex_of node other (not is_master)
        if is_master
            then (modify (λ s. record s {
              graph =
                  graph.add_default_edge this_vertex.identifier connected_vertex.identifier s.graph;
            })
                >> modify (λ s. record s {
                  node = record s.node {
                    ports_master = assign port.name (some this_vertex) s.node.ports_master;
                  };
                }))
            else modify (λ s. record s {
              node = record s.node {
                ports_slave = assign port.name (some this_vertex) s.node.ports_slave;
              };
            }))
        s

  -- The check of the target.
  unfoldable pub parse_target : PortStrings → List Text → M (Parsing G) (Unit {0})
  unfolding add_port
  parse_target port (node ∷ other ∷ []) = add_port port node other (is_master_role port.role)
  parse_target port [] = throw config_error
  parse_target port (node ∷ []) = throw config_error
  parse_target port (node ∷ other ∷ more ∷ tokens) = throw config_error

module _ {G : Type 0} (graph : Graph G) (tokenize : Text → Text → List Text) where
  -- One round of the loop.
  unfoldable pub parse_port : JsonPort → M (Parsing G) (Unit {0})
  unfolding parse_target
  parse_port json_port =
      if not json_port.is_object then throw config_error else elim json_port.strings [
        | none ↦ throw config_error
        | some port ↦ parse_target graph port (tokenize port.target (codes ":"))
      ]

  unfoldable pub parse_array : List JsonPort → M (Parsing G) (Unit {0})
  unfolding parse_port
  parse_array [] = pure tt
  parse_array (port ∷ ports) = do parse_port port; parse_array ports

  -- NodeFactory::parse
  unfoldable pub parse_ports : JsonPorts → M (Parsing G) (Unit {0})
  unfolding parse_array
  parse_ports absent = pure tt
  parse_ports no_array = throw config_error
  parse_ports (array ports) = parse_array ports
