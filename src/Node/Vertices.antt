-- ===== src/Node/Vertices.antt =====
-- The vertices of the stream graph, as getOrCreateStreamVertex and the parsing of ports leave them.
use fpga.Prelude.{
  ℕ, Bool, true, false, not, List, [], ◌∷◌, ◌++◌, Option, none, some, if◌then◌else◌, ◌≡◌, refl, sym,
  ap, ◌∙◌, subst, All, Text, M, Spec, Spec-bind, Spec-pure, Spec-if, Spec-throw, run-keeps,
  modify-keeps, arith, config_error, throw, codes,
}
use fpga.Node.{StreamVertex, Graph, is_vertex, search_vertex, get_or_create_stream_vertex}
use fpga.Node.Ports.{
  PortStrings, JsonPort, JsonPorts, absent, no_array, array, Parsing, vertex_of, add_port,
  parse_target, parse_port, parse_array, parse_ports,
}

-- What DirectedGraph documents: a new vertex gets the highest identifier, so that it comes last, and
-- an edge changes no vertex.
pub record GraphLaws {G : Type 0} (graph : Graph G) : Type 0 where
  pub add-vertices :
      (node port : Text) (is_master : Bool) (g : G)
      → graph.vertices (graph.add_vertex node port is_master g).1
        ≡ graph.vertices g ++ ((graph.add_vertex node port is_master g).0 ∷ [])
  pub add-is_vertex :
      (node port : Text) (is_master : Bool) (g : G)
      → is_vertex node port is_master (graph.add_vertex node port is_master g).0 ≡ true
  pub edge-vertices :
      (from to : ℕ) (g : G) → graph.vertices (graph.add_default_edge from to g) ≡ graph.vertices g

-- Whether two vertices are the same port of the same node.
abbrev pub alike : StreamVertex → StreamVertex → Bool
alike v w = is_vertex v.node_name v.port_name v.is_master w

-- No two vertices are alike.
abbrev pub Unique : List StreamVertex → Type 0
Unique [] = Unit
Unique (v ∷ vs) = All (λ w. alike v w ≡ false) vs × Unique vs

if_none :
    {A : Type 0} (b : Bool) (a : A) (o : Option A)
    → (if b then some a else o) ≡ none
    → (b ≡ false) × (o ≡ none)
if_none true a o e = absurd cc
if_none false a o e = (refl, e)

search-none :
    (node port : Text) (is_master : Bool) (vs : List StreamVertex)
    → search_vertex node port is_master vs ≡ none
    → All (λ v. is_vertex node port is_master v ≡ false) vs
unfolding search_vertex
search-none node port is_master [] e = tt
search-none node port is_master (v ∷ vs) e =
    let (differs, later) = if_none (is_vertex node port is_master v) v _ e in
    (differs, search-none node port is_master vs later)

search-append :
    (node port : Text) (is_master : Bool) (vs : List StreamVertex) (v : StreamVertex)
    → search_vertex node port is_master vs ≡ none
    → is_vertex node port is_master v ≡ true
    → search_vertex node port is_master (vs ++ (v ∷ [])) ≡ some v
unfolding search_vertex
search-append node port is_master [] v e same = rw (same)
search-append node port is_master (w ∷ vs) v e same =
    let (differs, later) = if_none (is_vertex node port is_master w) w _ e in
    rw (differs, search-append node port is_master vs v later same)

-- A vertex that is a port of a node is alike to what that port is alike to.
alike-sym :
    (node port : Text) (is_master : Bool) (v new : StreamVertex)
    → is_vertex node port is_master v ≡ false
    → is_vertex node port is_master new ≡ true
    → alike v new ≡ false
unfolding is_vertex
alike-sym node port is_master v new differs same = grind arith

Unique-append :
    (new : StreamVertex) (vs : List StreamVertex)
    → Unique vs
    → All (λ v. alike v new ≡ false) vs
    → Unique (vs ++ (new ∷ []))
Unique-append new [] u d = (tt, tt)
Unique-append new (v ∷ vs) (others, u) (differs, d) =
    (All-append _ vs new others differs, Unique-append new vs u d)
  where
    All-append :
        (P : StreamVertex → Type 0) (vs : List StreamVertex) (new : StreamVertex)
        → All P vs
        → P new
        → All P (vs ++ (new ∷ []))
    All-append P [] new all p = (p, tt)
    All-append P (v ∷ vs) new (here, all) p = (here, All-append P vs new all p)

module _ {G : Type 0} (graph : Graph G) (laws : GraphLaws graph) where
  -- Asking for a vertex again gives the same one, and changes nothing.
  pub get_or_create_stream_vertex-again :
      (node port : Text) (is_master : Bool) (g : G)
      → let made = get_or_create_stream_vertex graph node port is_master g in
        get_or_create_stream_vertex graph node port is_master made.1 ≡ made
  unfolding get_or_create_stream_vertex
  get_or_create_stream_vertex-again node port is_master g =
      again (search_vertex node port is_master (graph.vertices g)) refl
    where
      answer : G → Option StreamVertex → StreamVertex × G
      answer g o = elim o [
        | some vertex ↦ (vertex, g)
        | none ↦ graph.add_vertex node port is_master g
      ]

      again :
          (o : Option StreamVertex)
          → search_vertex node port is_master (graph.vertices g) ≡ o
          → answer
              (answer g o).1
              (search_vertex node port is_master (graph.vertices (answer g o).1))
            ≡ answer g o
      again (some v) e = ap (answer g) e
      again none e = ap (answer (graph.add_vertex node port is_master g).1) (
          ap (search_vertex node port is_master) (laws.add-vertices node port is_master g)
          ∙ search-append node port is_master (graph.vertices g) _ e
              (laws.add-is_vertex node port is_master g))

  get_or_create-Unique :
      (node port : Text) (is_master : Bool) (g : G)
      → Unique (graph.vertices g)
      → Unique (graph.vertices (get_or_create_stream_vertex graph node port is_master g).1)
  unfolding get_or_create_stream_vertex
  get_or_create-Unique node port is_master g u =
      kept (search_vertex node port is_master (graph.vertices g)) refl
    where
      new : StreamVertex
      new = (graph.add_vertex node port is_master g).0

      different :
          (vs : List StreamVertex) (new : StreamVertex)
          → is_vertex node port is_master new ≡ true
          → All (λ v. is_vertex node port is_master v ≡ false) vs
          → All (λ v. alike v new ≡ false) vs
      different [] new same all = tt
      different (v ∷ vs) new same (here, all) =
          (alike-sym node port is_master v new here same, different vs new same all)

      kept :
          (o : Option StreamVertex)
          → search_vertex node port is_master (graph.vertices g) ≡ o
          → Unique (
              graph.vertices
                (elim o as (λ _. StreamVertex × G) [
                  | some vertex ↦ (vertex, g)
                  | none ↦ graph.add_vertex node port is_master g
                ]).1)
      kept (some v) e = u
      kept none e = subst Unique (sym (laws.add-vertices node port is_master g)) (
          Unique-append new (graph.vertices g) u (
            different (graph.vertices g) new (laws.add-is_vertex node port is_master g)
              (search-none node port is_master (graph.vertices g) e)))

  abbrev pub UniqueVertices : Parsing G → Type 0
  UniqueVertices s = Unique (graph.vertices s.graph)

  -- What a call keeps, also where it throws.
  abbrev Keeps : {A : Type 0} → M (Parsing G) A → Type 0
  Keeps m = Spec UniqueVertices m (λ _. UniqueVertices) (λ _. UniqueVertices)

  vertex_of-Keeps :
      (node port : Text) (is_master : Bool) → Keeps (vertex_of graph node port is_master)
  unfolding vertex_of
  vertex_of-Keeps node port is_master =
      run-keeps _ (λ s u. get_or_create-Unique node port is_master s.graph u)

  add_port-Keeps :
      (port : PortStrings) (node other : Text) (is_master : Bool)
      → Keeps (add_port graph port node other is_master)
  unfolding add_port
  add_port-Keeps port node other is_master = record {
    at = λ s u.
        (Spec-bind _ _ (vertex_of-Keeps s.node.instance_name port.name is_master) λ this.
            Spec-bind _ _ (vertex_of-Keeps node other (not is_master)) λ connected.
              Spec-if is_master _ _
                (λ e.
                  Spec-bind _ _
                    (modify-keeps _ (λ s u.
                      subst Unique
                        (sym (laws.edge-vertices this.identifier connected.identifier s.graph)) u))
                    λ _. modify-keeps _ (λ s u. u))
                (λ e. modify-keeps _ (λ s u. u))).at
          s u;
  }

  parse_target-Keeps :
      (port : PortStrings) (tokens : List Text) → Keeps (parse_target graph port tokens)
  unfolding parse_target
  parse_target-Keeps port (node ∷ other ∷ []) = add_port-Keeps port node other _
  parse_target-Keeps port [] = Spec-throw config_error (λ s u. u)
  parse_target-Keeps port (node ∷ []) = Spec-throw config_error (λ s u. u)
  parse_target-Keeps port (node ∷ other ∷ more ∷ tokens) = Spec-throw config_error (λ s u. u)

module _ {G : Type 0} (graph : Graph G) (laws : GraphLaws graph)
    (tokenize : Text → Text → List Text) where
  parse_port-Keeps : (port : JsonPort) → Keeps graph laws (parse_port graph tokenize port)
  unfolding parse_port
  parse_port-Keeps port =
      Spec-if (not port.is_object) _ _ (λ e. Spec-throw config_error (λ s u. u))
        (λ e. with_strings port.strings)
    where
      with_strings :
          (strings : Option PortStrings)
          → Keeps graph laws (elim strings as (λ _. M (Parsing G) (Unit {0})) [
            | none ↦ throw config_error
            | some port ↦ parse_target graph port (tokenize port.target (codes ":"))
          ])
      with_strings none = Spec-throw config_error (λ s u. u)
      with_strings (some port) = parse_target-Keeps graph laws port _

  -- Reading the ports of a node, which may throw half way, leaves each port of each node with one
  -- vertex at most.
  pub parse_ports-Unique :
      (ports : JsonPorts)
      → Spec
          (UniqueVertices graph laws)
          (parse_ports graph tokenize ports)
          (λ _. UniqueVertices graph laws)
          (λ _. UniqueVertices graph laws)
  unfolding parse_ports
  parse_ports-Unique absent = Spec-pure tt (λ s u. u)
  parse_ports-Unique no_array = Spec-throw config_error (λ s u. u)
  parse_ports-Unique (array ports) = all ports
    where
      all : (ports : List JsonPort) → Keeps graph laws (parse_array graph tokenize ports)
      all [] = Spec-pure tt (λ s u. u)
      all (port ∷ ports) = Spec-bind _ _ (parse_port-Keeps port) λ _. all ports
