-- ===== src/Node/Examples.antt =====
-- Tests of lib/node.cpp, and its theorems, on a card with a DMA controller and a switch: the stream
-- of the controller runs through the switch and back.
use fpga.Prelude.{
  ℕ, zero, suc, ◌-◌, leb, get_elem?, ◌+◌, Bool, true, false, [], ◌∷◌, ◌++◌, List, none, some,
  if◌then◌else◌, ◌≡◌, refl, ap, ◌⊎◌, Text, Text-discrete, codes, text_eq, text_key, returned, threw,
  hang, pure, ◌>>=◌, Ensures, config_error, length, arith, text_eq_refl, ◌==◌, subst,
}
use fpga.Node.{
  StreamVertex, Graph, Streams, Node, is_vertex, connect, connect_reverse, connect_loopback,
  get_loopback_ports,
}
use fpga.Node.Paths.{follow, connect-follow, connect_reverse-false}
use fpga.Node.Ports.{JsonPorts, array, Parsing, parse_ports}
use fpga.Node.Vertices.{GraphLaws, UniqueVertices, parse_ports-Unique}
use fpga.Node.Loopback.{Pair, AllUnconnected, connect_loopback-Pair}

abbrev vertex : ℕ → Text → Text → Bool → StreamVertex
vertex identifier node port is_master = record {
  identifier = identifier;
  node_name = node;
  port_name = port;
  is_master = is_master;
}

abbrev dma_out : StreamVertex
dma_out = vertex 0 (codes "dma") (codes "MM2S") true

abbrev switch_in : StreamVertex
switch_in = vertex 1 (codes "switch") (codes "S00") false

abbrev switch_out : StreamVertex
switch_out = vertex 2 (codes "switch") (codes "M00") true

abbrev dma_in : StreamVertex
dma_in = vertex 3 (codes "dma") (codes "S2MM") false

abbrev range : ℕ → ℕ → List ℕ
range i zero = []
range i (suc n) = i ∷ range (suc i) n

-- The edge i leads from vertex i to the next one. The state is the connections that were made.
abbrev round : Streams (List (Text × Text × Text))
round = record {
  get_path = λ from to. if leb from to then some (range from (to - from)) else none;
  get_edge = λ edge. some (edge + 1);
  get_vertex = get_elem? (dma_out ∷ switch_in ∷ switch_out ∷ dma_in ∷ []);
  is_node = λ name. true;
  connect_internal = λ node slave master w. returned true (w ++ ((node, slave, master) ∷ []));
}

test_connect :
    connect round 5 (codes "dma") dma_out dma_in []
    ≡ returned true ((codes "switch", codes "S00", codes "M00") ∷ [])
unfolding connect Text-discrete ◌>>=◌
test_connect = refl

test_foreign : text_eq (codes "switch") (codes "dma") ≡ false
unfolding Text-discrete
test_foreign = refl

onward :
    (edge : ℕ) (there : StreamVertex) (edges : List ℕ)
    → round.get_vertex (edge + 1) ≡ some there
    → round.get_path there.identifier 3 ≡ some edges
    → (v : StreamVertex) (i : ℕ) → round.get_edge edge ≡ some i
    → round.get_vertex i ≡ some v
    → round.get_path v.identifier 3 ≡ some edges
onward edge there edges at found v i e e' =
    subst (λ w. round.get_path w.identifier 3 ≡ some edges) same found
  where
    same : there ≡ v
    same = cc

connect-follow_example :
    connect round 5 (codes "dma") dma_out dma_in
    ≡ follow round (codes "dma") dma_out (0 ∷ 1 ∷ 2 ∷ [])
connect-follow_example =
    connect-follow round 5 (codes "dma") dma_out dma_in (0 ∷ 1 ∷ 2 ∷ []) (omega arith)
      (text_eq_refl (codes "dma")) refl
      (
        onward 0 switch_in (1 ∷ 2 ∷ []) refl refl,
        (onward 1 switch_out (2 ∷ []) refl refl, (onward 2 dma_in [] refl refl, tt)),
      )

connect_reverse-false_example :
    connect_reverse round 5 (codes "dma") dma_out switch_in true
    ≡ (connect round 5 (codes "dma") dma_out switch_in >>= λ _. pure false)
connect_reverse-false_example =
    connect_reverse-false round 4 (codes "dma") dma_out switch_in test_foreign

test_unnamed : text_eq (codes "MM2S") (codes "") ≡ false
unfolding Text-discrete
test_unnamed = refl

-- The node of the controller, with its two ports.
abbrev dma_node : Node
dma_node = record {
  instance_name = codes "dma";
  ports_master = (codes "MM2S", some dma_out) ∷ [];
  ports_slave = (codes "S2MM", some dma_in) ∷ [];
}

connect_loopback-Pair_example :
    ((pair : Pair round dma_node.ports_master dma_node.ports_slave
        (get_loopback_ports round dma_node))
      × (connect_loopback round 5 dma_node
          ≡ connect round 5 dma_node.instance_name pair.master pair.slave))
    ⊎ (AllUnconnected round dma_node.ports_master dma_node.ports_slave
        × (connect_loopback round 5 dma_node ≡ hang))
connect_loopback-Pair_example =
    connect_loopback-Pair round 5 dma_node ((dma_out, refl), tt) (refl, tt) ((dma_in, refl), tt)
      (refl, tt) (ap (λ b. if b then some (some dma_out) else none) test_unnamed)

-- A graph that keeps its vertices and its edges.
abbrev listed : Graph (List StreamVertex × List (ℕ × ℕ))
listed = record {
  vertices = λ g. g.0;
  add_vertex = λ node port is_master g.
      let v = vertex (length g.0) node port is_master in (v, (g.0 ++ (v ∷ []), g.1));
  add_default_edge = λ from to g. (g.0, (from, to) ∷ g.1);
}

made_alike :
    (identifier : ℕ) (node port : Text) (is_master : Bool)
    → is_vertex node port is_master (vertex identifier node port is_master) ≡ true
unfolding is_vertex
made_alike identifier node port true = rw (text_eq_refl node, text_eq_refl port)
made_alike identifier node port false = rw (text_eq_refl node, text_eq_refl port)

listed-laws : GraphLaws listed
listed-laws = record {
  add-vertices = λ node port is_master g. refl;
  add-is_vertex = λ node port is_master g. made_alike (length g.0) node port is_master;
  edge-vertices = λ from to g. refl;
}

split : ℕ → Text → List Text
split c [] = [] ∷ []
split c (d ∷ s) = attach (c == d) d (split c s)
  where
    attach : Bool → ℕ → List Text → List Text
    attach true d tokens = [] ∷ tokens
    attach false d [] = (d ∷ []) ∷ []
    attach false d (token ∷ tokens) = (d ∷ token) ∷ tokens

abbrev dma_ports : JsonPorts
dma_ports = array (
    record {
      is_object = true;
      strings =
          some
            (record { role = codes "initiator"; target = codes "switch:S00"; name = codes "MM2S" });
    }
    ∷ record { is_object = false; strings = none }
    ∷ [])

abbrev start : Parsing (List StreamVertex × List (ℕ × ℕ))
start = record {
  graph = ([], []);
  node = record { instance_name = codes "dma"; ports_master = []; ports_slave = [] };
}

abbrev half_way : Parsing (List StreamVertex × List (ℕ × ℕ))
half_way = record {
  graph = (dma_out ∷ switch_in ∷ [], (0, 1) ∷ []);
  node = record {
    instance_name = codes "dma";
    ports_master = (codes "MM2S", some dma_out) ∷ [];
    ports_slave = [];
  };
}

test_parse : parse_ports listed (λ s sep. split 58 s) dma_ports start ≡ threw config_error half_way
unfolding parse_ports Text-discrete ◌>>=◌ split
test_parse = refl

parse_ports-Unique_example :
    Ensures
      (λ _. UniqueVertices listed listed-laws)
      (λ _. UniqueVertices listed listed-laws)
      (parse_ports listed (λ s sep. split 58 s) dma_ports start)
parse_ports-Unique_example =
    (parse_ports-Unique listed listed-laws (λ s sep. split 58 s) dma_ports).at start tt
