-- ===== src/Node/Paths.antt =====
-- Node::connect along a path of the stream graph.
use fpga.Prelude.{
  ℕ, zero, suc, ◌<◌, Bool, true, false, List, [], ◌∷◌, Option, none, some, if◌then◌else◌, ◌≡◌, refl,
  ap, ap₂, ◌∙◌, ◌&&◌, fun_ext, Text, text_eq, text_eq_refl, length, M, pure, throw, ◌>>=◌, arith,
}
use fpga.Node.{
  StreamVertex, Streams, at_least, hop, next_node, advance, take_path, connect, connect_reverse,
}

module _ {W : Type 0} (streams : Streams W) where
  -- From the vertices that the edges of a path lead to, the graph finds the rest of the path.
  abbrev pub Onward : StreamVertex → List ℕ → Type 0
  Onward to [] = Unit
  Onward to (edge ∷ edges) =
      ((vertex : StreamVertex)
        → (i : ℕ) → streams.get_edge edge ≡ some i
        → streams.get_vertex i ≡ some vertex
        → streams.get_path vertex.identifier to.identifier ≡ some edges)
      × Onward to edges

  unfoldable mutual
    unfolding hop next_node

    -- The connections along a path, without looking for it again. `self` is the node of `from`.
    pub follow : Text → StreamVertex → List ℕ → M W Bool
    follow self from [] = pure true
    follow self from (edge ∷ edges) = do
      first ← hop streams edge
      if text_eq first.node_name self
          then (do
            made ← streams.connect_internal self from.port_name first.port_name
            leave made edges)
          else next_node streams (λ name vertex. follow name vertex edges) first

    -- The same behind an internal connection.
    pub leave : Bool → List ℕ → M W Bool
    leave false edges = pure false
    leave true [] = pure true
    leave true (edge ∷ edges) = do
      second ← hop streams edge
      next_node streams (λ name vertex. follow name vertex edges) second

  -- Two continuations that agree at the vertex of an edge.
  hop_agree :
      {A : Type 0} (edge : ℕ) (f g : StreamVertex → M W A)
      → ((vertex : StreamVertex) (i : ℕ)
          → streams.get_edge edge ≡ some i
          → streams.get_vertex i ≡ some vertex
          → f vertex ≡ g vertex)
      → (hop streams edge >>= f) ≡ (hop streams edge >>= g)
  unfolding hop at_least ◌>>=◌ pure throw
  hop_agree {A} edge f g same = to (streams.get_edge edge) refl
    where
      vertex_at :
          (i : ℕ)
          → streams.get_edge edge ≡ some i
          → (o : Option StreamVertex) → streams.get_vertex i ≡ o
          → (at_least streams o >>= f) ≡ (at_least streams o >>= g)
      vertex_at i e none e' = refl
      vertex_at i e (some vertex) e' = same vertex i e e'

      to :
          (o : Option ℕ)
          → streams.get_edge edge ≡ o
          → ((at_least streams o >>= (λ i. at_least streams (streams.get_vertex i))) >>= f)
            ≡ ((at_least streams o >>= (λ i. at_least streams (streams.get_vertex i))) >>= g)
      to none e = refl
      to (some i) e = vertex_at i e (streams.get_vertex i) refl

  next_node-agree :
      (f g : Text → StreamVertex → M W Bool) (vertex : StreamVertex)
      → f vertex.node_name vertex ≡ g vertex.node_name vertex
      → next_node streams f vertex ≡ next_node streams g vertex
  unfolding next_node
  next_node-agree f g vertex e =
      ap (λ m. if streams.is_node vertex.node_name then m else pure false) e

  -- From a vertex of the node's own, to which the graph finds a path, and the rest of it from the
  -- vertices on it, `connect` with more fuel than the path has edges makes the connections along the
  -- path, and nothing else.
  pub connect-follow :
      (fuel : ℕ) (self : Text) (from to : StreamVertex) (path : List ℕ)
      → length path < fuel
      → text_eq from.node_name self ≡ true
      → streams.get_path from.identifier to.identifier ≡ some path
      → Onward to path
      → connect streams fuel self from to ≡ follow self from path
  unfolding connect leave pure
  connect-follow zero self from to path short own found onward = absurd (omega arith)
  connect-follow (suc fuel) self from to path short own found onward =
      rw (own, found) (along path short onward (connect-follow fuel))
    where
      Later : Type 0
      Later =
          (self : Text) (from to : StreamVertex) (path : List ℕ)
          → length path < fuel
          → text_eq from.node_name self ≡ true
          → streams.get_path from.identifier to.identifier ≡ some path
          → Onward to path
          → connect streams fuel self from to ≡ follow self from path

      onwards :
          (edges : List ℕ) (vertex : StreamVertex)
          → length edges < fuel
          → streams.get_path vertex.identifier to.identifier ≡ some edges
          → Onward to edges
          → Later
          → next_node streams (λ name v. connect streams fuel name v to) vertex
            ≡ next_node streams (λ name v. follow name v edges) vertex
      onwards edges vertex short found onward later =
          next_node-agree (λ name v. connect streams fuel name v to) (λ name v. follow name v edges)
            vertex
            (later vertex.node_name vertex to edges short (text_eq_refl vertex.node_name) found
              onward)

      left :
          (edges : List ℕ)
          → length edges < fuel
          → Onward to edges
          → Later
          → (made : Bool)
          → advance streams
              (next_node streams (λ name v. connect streams fuel name v to))
              edges
              made
            ≡ leave made edges
      left edges short onward later false = refl
      left [] short onward later true = refl
      left (edge ∷ edges) short on_path later true =
          hop_agree edge (next_node streams (λ name v. connect streams fuel name v to))
            (next_node streams (λ name v. follow name v edges))
            λ vertex i e e'.
              onwards edges vertex (omega arith) (on_path.0 vertex i e e') on_path.1 later

      along :
          (path : List ℕ)
          → length path < suc fuel
          → Onward to path
          → Later
          → take_path streams
              (next_node streams (λ name v. connect streams fuel name v to))
              self
              from
              path
            ≡ follow self from path
      along [] short onward later = refl
      along (edge ∷ edges) short (there, onward) later =
          hop_agree edge
            (λ first.
              if text_eq first.node_name self
              then streams.connect_internal self from.port_name first.port_name
                >>= advance streams (next_node streams (λ name v. connect streams fuel name v to))
                    edges
              else next_node streams (λ name v. connect streams fuel name v to) first)
            (λ first.
              if text_eq first.node_name self
              then streams.connect_internal self from.port_name first.port_name
                >>= (λ made. leave made edges)
              else next_node streams (λ name v. follow name v edges) first)
            λ vertex i e e'.
              ap₂
                (λ inside outside.
                  if text_eq vertex.node_name self
                  then streams.connect_internal self from.port_name vertex.port_name >>= inside
                  else outside)
                (fun_ext (left edges (omega arith) onward later))
                (onwards edges vertex (omega arith) (there vertex i e e') onward later)

  connect_foreign :
      (fuel : ℕ) (self : Text) (from to : StreamVertex)
      → text_eq from.node_name self ≡ false
      → connect streams (suc fuel) self from to ≡ pure false
  unfolding connect leave pure
  connect_foreign fuel self from to foreign = rw (foreign)

  -- Connecting back too never succeeds where the other vertex is another node's: the node is asked to
  -- connect a vertex that is not its own, after the first connection was made.
  pub connect_reverse-false :
      (fuel : ℕ) (self : Text) (from to : StreamVertex)
      → text_eq to.node_name self ≡ false
      → connect_reverse streams (suc fuel) self from to true
        ≡ (connect streams (suc fuel) self from to >>= λ _. pure false)
  unfolding connect_reverse pure ◌>>=◌
  connect_reverse-false fuel self from to foreign =
      ap (λ m. connect streams (suc fuel) self from to >>= λ ret. m >>= λ back. pure (ret && back))
        (connect_foreign fuel self to from foreign)
      ∙ ap (λ f. connect streams (suc fuel) self from to >>= f)
          (fun_ext λ ret. ap (λ b. pure b) (never ret))
    where
      never : (ret : Bool) → ret && false ≡ false
      never true = refl
      never false = refl
