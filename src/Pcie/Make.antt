-- ===== src/Pcie/Make.antt =====
-- PCIeCardFactory::make of lib/pcie_card.cpp without a search path, and with paths to be connected
-- both ways.
use fpga.Prelude.{
  ℕ, zero, suc, Bool, true, false, not, List, [], ◌∷◌, ◌++◌, Option, none, some, ◌≡◌, refl, sym,
  subst, Text, text_eq, M, Outcome, returned, threw, stuck, Ensures, Spec, Spec-bind, Spec-pure,
  Spec-if, Spec-throw, Spec-pre, Spec-each, pure, throw, hang, ◌>>=◌, config_error, arith,
}
use fpga.Node.{StreamVertex, connect, connect_reverse}
use fpga.Node.Paths.{connect_reverse-false}
use fpga.Pcie.{
  PathConfig, path_array, CardConfig, Platform, connect_nodes, require, connect_path, connect_all,
  connect_paths, load_ips, make_card, load_and_make, make,
}

module _ {H : Type 0} where
  abbrev pub Anything : {A : Type 0} → A → H → Type 0
  Anything a h = Unit

  abbrev Always : H → Type 0
  Always h = Unit

  -- A call that does not give a result.
  abbrev pub NeverReturns : {A : Type 0} → M H A → Type 0
  NeverReturns m = Spec Always m (λ _ _. ⊥) Anything

  pub any : {A : Type 0} (m : M H A) → Spec Always m Anything Anything
  any {A} m = record { at = λ h _. ends (m h) }
    where
      ends : (o : Outcome H A) → Ensures Anything Anything o
      ends (returned a h) = tt
      ends (threw e h) = tt
      ends (stuck h) = tt

module _ {H J : Type 0} (p : Platform H J) where
  -- The default ports of a node are its own.
  pub record OwnPorts : Type 0 where
    pub slave-own :
        (name : Text)
        → Spec Always (p.default_slave name) (λ v _. text_eq v.node_name name ≡ true) Anything

  connect_reverse-refused :
      (fuel : ℕ) (self : Text) (from to : StreamVertex)
      → text_eq to.node_name self ≡ false
      → Spec Always (connect_reverse p.streams fuel self from to true) (λ b _. b ≡ false) Anything
  unfolding connect_reverse connect hang ◌>>=◌
  connect_reverse-refused zero self from to foreign = record { at = λ h _. tt }
  connect_reverse-refused (suc fuel) self from to foreign =
      subst (λ m. Spec Always m (λ b _. b ≡ false) Anything)
        (sym (connect_reverse-false p.streams fuel self from to foreign))
        (Spec-bind _ _ (any (connect p.streams (suc fuel) self from to))
          λ _. Spec-pure false (λ h _. refl))

  require-false : (b : Bool) → Spec (λ (h : H). b ≡ false) (require p b) (λ _ _. ⊥) Anything
  unfolding require
  require-false true = record { at = λ h e. absurd cc }
  require-false false = Spec-throw config_error (λ h _. tt)

  other_node :
      (name to from : Text)
      → text_eq name to ≡ true
      → text_eq to from ≡ false
      → text_eq name from ≡ false
  other_node name to from same apart = ground arith

  connect_nodes-refused :
      OwnPorts
      → (fuel : ℕ) (master slave : Text) → text_eq slave master ≡ false
      → Spec Always (connect_nodes p fuel master slave true) (λ b _. b ≡ false) Anything
  unfolding connect_nodes
  connect_nodes-refused own fuel master slave apart =
      Spec-bind _ _ (any (p.default_master master)) λ from.
        Spec-bind _ _ (own.slave-own slave) λ to. Spec-each λ h same.
          Spec-pre
            (connect_reverse-refused fuel master from to
              (other_node to.node_name slave master same apart))
            (λ _ _. tt)

  -- A path that is to be connected both ways is refused, where its ends are two nodes.
  connect_path-refused :
      OwnPorts
      → (fuel : ℕ) (path : PathConfig) → path.reverse ≡ true
      → text_eq path.to path.from ≡ false
      → NeverReturns (connect_path p fuel (some path))
  unfolding connect_path
  connect_path-refused own fuel path reverse apart = Spec-bind _ _ (any _) λ master.
      Spec-bind _ _ (any _) λ _. Spec-bind _ _ (any _) λ slave. Spec-bind _ _ (any _) λ _.
        Spec-bind _ _ (any _) λ _. Spec-bind _ _ (any _) λ _.
          Spec-bind _ _
            (subst
              (λ r.
                Spec Always (connect_nodes p fuel path.from path.to r) (λ b _. b ≡ false) Anything)
              (sym reverse) (connect_nodes-refused own fuel path.from path.to apart))
            require-false

  -- A configuration with a path that is to be connected both ways, between two nodes, is never taken:
  -- connecting the paths does not come to its end. The default ports of a node are its own.
  pub connect_paths-refused :
      OwnPorts
      → (fuel : ℕ) (before after : List (Option PathConfig)) (path : PathConfig)
      → path.reverse ≡ true
      → text_eq path.to path.from ≡ false
      → NeverReturns (connect_paths p fuel (path_array (before ++ (some path ∷ after))))
  unfolding connect_paths connect_all
  connect_paths-refused own fuel [] after path reverse apart =
      Spec-bind {Q = λ _ _. ⊥} _ _ (connect_path-refused own fuel path reverse apart)
        λ _. record { at = λ h e. absurd e }
  connect_paths-refused own fuel (first ∷ before) after path reverse apart =
      Spec-bind _ _ (any _) λ _. connect_paths-refused own fuel before after path reverse apart

  load_and_make-refused :
      (fuel : ℕ) (config : CardConfig) (ips : Option Text)
      → Spec Always (load_and_make p fuel none config ips) (λ b _. b ≡ false) Anything
  unfolding load_and_make load_ips make_card pure throw ◌>>=◌
  load_and_make-refused fuel config none = Spec-throw config_error (λ h _. tt)
  load_and_make-refused fuel config (some file) = record { at = λ h _. tt }

  -- Without a search path no card is made: the name of the file of the cores is taken for their
  -- description, and refused. The call gives a null pointer, throws, or does not come back.
  pub make-no_search_path :
      (fuel : ℕ) (config : Option CardConfig)
      → Spec Always (make p fuel none config) (λ b _. b ≡ false) Anything
  unfolding make
  make-no_search_path fuel none = Spec-throw config_error (λ h _. tt)
  make-no_search_path fuel (some config) = Spec-bind _ _ (any _) λ found.
      Spec-if (not found) _ _ (λ _. Spec-pure false (λ h _. refl))
        λ _. Spec-bind _ _ (any _) λ started.
          Spec-if (not started) _ _ (λ _. Spec-pure false (λ h _. refl))
            λ _. load_and_make-refused fuel config config.ips
