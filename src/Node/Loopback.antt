-- ===== src/Node/Loopback.antt =====
-- Node::getLoopbackPorts and Node::connectLoopback: which ports are connected.
use fpga.Prelude.{
  ℕ, Bool, List, [], ◌∷◌, Option, none, some, if◌then◌else◌, ◌≡◌, refl, ap, ◌∙◌, ◌⊎◌, inl, inr, All,
  Text, codes, Map, find, Distinct, same_key_refl, text_key, M, pure, hang, ◌>>=◌, arith,
}
use fpga.Node.{
  StreamVertex, Streams, Node, first_slave, first_pair, get_loopback_ports, deref, pointed, connect,
  connect_loopback,
}

-- The pointers of some ports.
abbrev pub Ports : Type 0
Ports = Map Text (Option StreamVertex)

-- None of them is null.
abbrev pub NoNull : Ports → Type 0
NoNull ports = All (λ port. (vertex : StreamVertex) × (port.1 ≡ some vertex)) ports

-- A name that stands behind others in a map.
find_behind :
    (name other : Text) (v w : Option StreamVertex) (ports : Ports)
    → find other ports ≡ none
    → find name ports ≡ some v
    → find name ((other, w) ∷ ports) ≡ some v
find_behind name other v w ports fresh e = grind arith

module _ {W : Type 0} (streams : Streams W) where
  -- No path leads from a vertex to any of the ports.
  abbrev pub Unconnected : StreamVertex → Ports → Type 0
  Unconnected master slaves =
      All
        (λ port. elim port.1 [
          | none ↦ Unit
          | some slave ↦ streams.get_path master.identifier slave.identifier ≡ none
        ])
        slaves

  abbrev pub AllUnconnected : Ports → Ports → Type 0
  AllUnconnected masters slaves =
      All (λ port. elim port.1 [ none ↦ Unit | some master ↦ Unconnected master slaves ]) masters

  -- A call that answers a slave port with a path from a vertex to it.
  record Reached (master : StreamVertex) (slaves : Ports) (m : M W (Option Text)) : Type 0 where
    name : Text
    slave : StreamVertex
    path : List ℕ
    has : find name slaves ≡ some (some slave)
    connected : streams.get_path master.identifier slave.identifier ≡ some path
    answer : m ≡ pure (some name)

  -- A call that answers a master port and a slave port with a path between them.
  pub record Pair (masters slaves : Ports) (m : M W (Text × Text)) : Type 0 where
    pub names : Text × Text
    pub master : StreamVertex
    pub slave : StreamVertex
    pub path : List ℕ
    pub has_master : find names.0 masters ≡ some (some master)
    pub has_slave : find names.1 slaves ≡ some (some slave)
    pub connected : streams.get_path master.identifier slave.identifier ≡ some path
    pub answer : m ≡ pure names

  first_slave-Reached :
      (master : StreamVertex) (slaves : Ports)
      → NoNull slaves
      → Distinct slaves
      → Reached master slaves (first_slave streams master slaves)
        ⊎ (Unconnected master slaves × (first_slave streams master slaves ≡ pure none))
  unfolding first_slave
  first_slave-Reached master [] null distinct = inr (tt, refl)
  first_slave-Reached master ((name, none) ∷ slaves) ((v, e), null) distinct = absurd cc
  first_slave-Reached master ((name, some slave) ∷ slaves) (_, null) (fresh, distinct) =
      here (streams.get_path master.identifier slave.identifier) refl
        (first_slave-Reached master slaves null distinct)
    where
      here :
          (o : Option (List ℕ))
          → streams.get_path master.identifier slave.identifier ≡ o
          → Reached master slaves (first_slave streams master slaves)
            ⊎ (Unconnected master slaves × (first_slave streams master slaves ≡ pure none))
          → Reached master
              ((name, some slave) ∷ slaves)
              (elim o [ none ↦ first_slave streams master slaves | some _ ↦ pure (some name) ])
            ⊎ (Unconnected master ((name, some slave) ∷ slaves)
                × (elim o as (λ _. M W (Option Text)) [
                  | none ↦ first_slave streams master slaves
                  | some _ ↦ pure (some name)
                ]
                    ≡ pure none))
      here (some path) e rest = inl (record {
        name = name;
        slave = slave;
        path = path;
        has = ap (λ b. if b then some (some slave) else find name slaves) (same_key_refl name);
        connected = e;
        answer = refl;
      })
      here none e (inl r) = inl (record {
        name = r.name;
        slave = r.slave;
        path = r.path;
        has = find_behind r.name name (some r.slave) (some slave) slaves fresh r.has;
        connected = r.connected;
        answer = r.answer;
      })
      here none e (inr (unconnected, answer)) = inr ((e, unconnected), answer)

  first_pair-Pair :
      (masters slaves : Ports)
      → NoNull masters
      → Distinct masters
      → NoNull slaves
      → Distinct slaves
      → Pair masters slaves (first_pair streams masters slaves)
        ⊎ (AllUnconnected masters slaves
            × (first_pair streams masters slaves ≡ pure (codes "", codes "")))
  unfolding first_pair ◌>>=◌ pure
  first_pair-Pair [] slaves null distinct null' distinct' = inr (tt, refl)
  first_pair-Pair ((name, none) ∷ masters) slaves ((v, e), null) distinct null' distinct' =
      absurd cc
  first_pair-Pair ((name, some master) ∷ masters) slaves (_, null) (fresh, distinct) null'
        distinct' =
      here (first_slave-Reached master slaves null' distinct')
        (first_pair-Pair masters slaves null distinct null' distinct')
    where
      both : M W (Option Text) → M W (Text × Text)
      both m = m >>= λ found. elim found [
        | none ↦ first_pair streams masters slaves
        | some slave ↦ pure (name, slave)
      ]

      here :
          Reached master slaves (first_slave streams master slaves)
            ⊎ (Unconnected master slaves × (first_slave streams master slaves ≡ pure none))
          → Pair masters slaves (first_pair streams masters slaves)
            ⊎ (AllUnconnected masters slaves
                × (first_pair streams masters slaves ≡ pure (codes "", codes "")))
          → Pair ((name, some master) ∷ masters) slaves (both (first_slave streams master slaves))
            ⊎ (AllUnconnected ((name, some master) ∷ masters) slaves
                × (both (first_slave streams master slaves) ≡ pure (codes "", codes "")))
      here (inl r) later = inl (record {
        names = (name, r.name);
        master = master;
        slave = r.slave;
        path = r.path;
        has_master =
            ap (λ b. if b then some (some master) else find name masters) (same_key_refl name);
        has_slave = r.has;
        connected = r.connected;
        answer = ap both r.answer;
      })
      here (inr (unconnected, none_here)) (inl p) = inl (record {
        names = p.names;
        master = p.master;
        slave = p.slave;
        path = p.path;
        has_master =
            find_behind p.names.0 name (some p.master) (some master) masters fresh p.has_master;
        has_slave = p.has_slave;
        connected = p.connected;
        answer = ap both none_here ∙ p.answer;
      })
      here (inr (unconnected, none_here)) (inr (later, answer)) =
          inr ((unconnected, later), ap both none_here ∙ answer)

  pointed-there :
      {A : Type 0} (ports : Ports) (name : Text) (vertex : StreamVertex) (f : StreamVertex → M W A)
      → find name ports ≡ some (some vertex)
      → (pointed streams ports name >>= f) ≡ f vertex
  unfolding pointed ◌>>=◌ pure
  pointed-there ports name vertex f e = ap (λ o. deref streams o >>= f) e

  pointed-missing :
      {A : Type 0} (ports : Ports) (name : Text) (f : StreamVertex → M W A)
      → find name ports ≡ none
      → (pointed streams ports name >>= f) ≡ hang
  unfolding pointed ◌>>=◌ hang
  pointed-missing ports name f e = ap (λ o. deref streams o >>= f) e

  -- connectLoopback connects two ports of the node that have a path between them. Where there are
  -- none, it uses a null pointer, unless a port has the empty name. The pointers of the ports are
  -- other than null, and no name stands twice.
  pub connect_loopback-Pair :
      (fuel : ℕ) (node : Node)
      → NoNull node.ports_master
      → Distinct node.ports_master
      → NoNull node.ports_slave
      → Distinct node.ports_slave
      → find (codes "") node.ports_master ≡ none
      → ((pair : Pair node.ports_master node.ports_slave (get_loopback_ports streams node))
          × (connect_loopback streams fuel node
              ≡ connect streams fuel node.instance_name pair.master pair.slave))
        ⊎ (AllUnconnected node.ports_master node.ports_slave
            × (connect_loopback streams fuel node ≡ hang))
  unfolding connect_loopback get_loopback_ports ◌>>=◌ pure
  connect_loopback-Pair fuel node null distinct null' distinct' unnamed =
      answer (first_pair-Pair node.ports_master node.ports_slave null distinct null' distinct')
    where
      go_on : Text × Text → M W Bool
      go_on names = pointed streams node.ports_master names.0 >>= λ master.
          pointed streams node.ports_slave names.1 >>= λ slave.
          connect streams fuel node.instance_name master slave

      answer :
          Pair node.ports_master node.ports_slave
              (first_pair streams node.ports_master node.ports_slave)
            ⊎ (AllUnconnected node.ports_master node.ports_slave
                × (first_pair streams node.ports_master node.ports_slave
                    ≡ pure (codes "", codes "")))
          → ((pair : Pair node.ports_master node.ports_slave
                (first_pair streams node.ports_master node.ports_slave))
              × (connect_loopback streams fuel node
                  ≡ connect streams fuel node.instance_name pair.master pair.slave))
            ⊎ (AllUnconnected node.ports_master node.ports_slave
                × (connect_loopback streams fuel node ≡ hang))
      answer (inl pair) = inl (
        pair,
        ap (λ m. m >>= go_on) pair.answer
            ∙ (pointed-there node.ports_master pair.names.0 pair.master _ pair.has_master
                ∙ pointed-there node.ports_slave pair.names.1 pair.slave _ pair.has_slave),
      )
      answer (inr (none_there, e)) = inr (
        none_there,
        ap (λ m. m >>= go_on) e ∙ pointed-missing node.ports_master (codes "") _ unnamed,
      )
