-- ===== src/Switch/Exclusive.antt =====
-- No slave port of the switch feeds two master ports.
use fpga.Prelude.{
  Bool, true, false, [], ◌∷◌, Option, some, ◌≡◌, refl, ◌≢◌, Text, text_eq, StoiResult, value,
  no_digits, too_large, Map, find, assign, find-assign, text_key, Spec, Spec-bind, Spec-run,
  Spec-pure, Spec-throw, Spec-modify, Spec-if, modify-keeps, gets-keeps, Ensures, Ensures-map, sym,
  ◌∙◌, arith, Text-discrete, Option-cases, inl, inr, run, Error, ◌&&◌, ◌||◌,
}
use fpga.Switch.{
  SwitchDriver, AxiStreamSwitch, port_disabled, starts_with, number_or_throw, port_name_to_num,
  touch, disable_master, disable_slave, enable_port, reroute, ports_ok, connect_internal,
}

-- At most one master port has a given slave port.
abbrev pub Exclusive : Map Text Text → Type 0
Exclusive m =
    (i j slave : Text)
    → starts_with b'S' slave ≡ true
    → find i m ≡ some slave
    → find j m ≡ some slave
    → i ≡ j

abbrev pub IsExclusive : {H : Type 0} → AxiStreamSwitch H → Type 0
IsExclusive sw = Exclusive sw.port_mapping

-- No master port has the slave port.
abbrev Free : Text → Map Text Text → Type 0
Free slave m = (i : Text) → find i m ≢ some slave

assign-Exclusive :
    (master slave : Text) (m : Map Text Text)
    → starts_with b'S' slave ≡ false
    → Exclusive m
    → Exclusive (assign master slave m)
assign-Exclusive master slave m n h i j s p e f =
    ground (arith, find-assign master i slave m, find-assign master j slave m, h i j s)

assign-Free-Exclusive :
    (master slave : Text) (m : Map Text Text)
    → Free slave m
    → Exclusive m
    → Exclusive (assign master slave m)
assign-Free-Exclusive master slave m free h i j s p e f =
    ground
      (arith, find-assign master i slave m, find-assign master j slave m, h i j s, free i, free j)

-- The entry of a master port for the slave port is among those that the loop has still to visit.
abbrev has_entry : Text → Text → Map Text Text → Bool
has_entry i slave [] = false
has_entry i slave ((j, s) ∷ es) = (text_eq j i && text_eq s slave) || has_entry i slave es

abbrev Pending : Text → Map Text Text → Map Text Text → Type 0
Pending slave es m = (i : Text) → find i m ≡ some slave → has_entry i slave es ≡ true

find-has_entry : (slave : Text) (m : Map Text Text) → Pending slave m m
find-has_entry slave [] i e = cc
find-has_entry slave ((j, s) ∷ m) i e = ground (arith, find-has_entry slave m i)

module _ {S : Type 0} {P : S → Type 0} {X : Option Error → S → Type 0} where
  number_or_throw-keeps :
      (r : StoiResult)
      → ((e : Option Error) (s : S) → P s → X e s)
      → Spec P (number_or_throw r) (λ _ s. P s) X
  unfolding number_or_throw
  number_or_throw-keeps (value z) x = Spec-pure _ (λ s p. p)
  number_or_throw-keeps no_digits x = Spec-throw _ (λ s p. x _ s p)
  number_or_throw-keeps too_large x = Spec-throw _ (λ s p. x _ s p)

  -- Reading a port's number changes no state.
  pub port_name_to_num-keeps :
      (name : Text)
      → ((e : Option Error) (s : S) → P s → X e s)
      → Spec P (port_name_to_num name) (λ _ s. P s) X
  unfolding port_name_to_num
  port_name_to_num-keeps [] x = Spec-throw _ (λ s p. x _ s p)
  port_name_to_num-keeps (c ∷ name) x = number_or_throw-keeps _ x

module _ {H : Type 0} (drv : SwitchDriver H) (slave : Text)
    (prefixed : starts_with b'S' slave ≡ true) where
  abbrev Turn : Map Text Text → AxiStreamSwitch H → Type 0
  Turn es sw = IsExclusive sw × Pending slave es sw.port_mapping

  disable_master-Turn :
      (master : Text) (es : Map Text Text)
      → Spec
          (Turn ((master, slave) ∷ es))
          (disable_master drv master)
          (λ _. Turn es)
          (λ _. IsExclusive)
  unfolding disable_master
  disable_master-Turn master es = Spec-bind _ _ (modify-keeps _ (λ s p. p)) λ _.
      Spec-bind _ _ (port_name_to_num-keeps master (λ e s p. p.0)) λ num.
        Spec-bind _ _ (modify-keeps _ (λ s p. p)) λ _.
          Spec-bind _ _ (modify-keeps _ (λ s p. p)) λ _. Spec-modify _ λ s p. (
            assign-Exclusive master port_disabled s.port_mapping disabled_prefix p.0,
            λ i e.
                ground
                  (arith, find-assign master i port_disabled s.port_mapping, p.1 i, not_disabled),
          )
    where
      disabled_prefix : starts_with b'S' port_disabled ≡ false
      disabled_prefix = unfold Text-discrete in refl

      not_disabled : port_disabled ≢ slave
      not_disabled e = ground (arith, prefixed, disabled_prefix)

  disable_slave-Free :
      (es : Map Text Text)
      → Spec
          (Turn es)
          (disable_slave drv slave es)
          (λ _ sw. IsExclusive sw × Free slave sw.port_mapping)
          (λ _. IsExclusive)
  unfolding disable_slave
  disable_slave-Free [] = Spec-pure tt (λ s p. (p.0, λ i e. ground (arith, p.1 i e)))
  disable_slave-Free ((master, s) ∷ es) =
      Spec-if (text_eq s slave) _ _ (λ t. Spec-bind _ _ (first t) (λ _. disable_slave-Free es))
        (λ f. record {
          at = λ sw p. (disable_slave-Free es).at sw (p.0, λ i e. ground (arith, p.1 i e));
        })
    where
      first :
          text_eq s slave ≡ true
          → Spec
              (Turn ((master, s) ∷ es))
              (disable_master drv master)
              (λ _. Turn es)
              (λ _. IsExclusive)
      first t = record {
        at = λ sw p. (disable_master-Turn master es).at sw (p.0, λ i e. ground (arith, p.1 i e));
      }

  enable_port-Exclusive :
      (master : Text)
      → Spec
          (λ sw. IsExclusive sw × Free slave sw.port_mapping)
          (enable_port drv slave master)
          (λ _ sw. IsExclusive sw × (find master sw.port_mapping ≡ some slave))
          (λ _. IsExclusive)
  unfolding enable_port
  enable_port-Exclusive master = Spec-bind _ _ (modify-keeps _ (λ s p. p)) λ _.
      Spec-bind _ _ (port_name_to_num-keeps master (λ e s p. p.0)) λ m.
        Spec-bind _ _ (port_name_to_num-keeps slave (λ e s p. p.0)) λ n.
          Spec-bind _ _ (modify-keeps _ (λ s p. p)) λ _.
            Spec-bind _ _ (modify-keeps _ (λ s p. p)) λ _. Spec-modify _ λ s p. (
              assign-Free-Exclusive master slave s.port_mapping p.1 p.0,
              ground (arith, find-assign master master slave s.port_mapping),
            )

  touch-keeps :
      (master : Text)
      → Spec IsExclusive
          (run (touch {H = H} master))
          (λ connected sw. IsExclusive sw × (find master sw.port_mapping ≡ some connected))
          (λ _. IsExclusive)
  touch-keeps master = Spec-run _ λ sw p. elim (Option-cases (find master sw.port_mapping)) [
    | inl e ↦
        rw (e, touch)
          (
            assign-Exclusive master [] sw.port_mapping refl p,
            ground (arith, find-assign master master [] sw.port_mapping),
          )
    | inr (s, e) ↦ rw (e, touch) (p, e)
  ]

  reroute-Exclusive :
      (master : Text)
      → Spec IsExclusive
          (reroute drv slave master)
          (λ b sw. IsExclusive sw × (find master sw.port_mapping ≡ some slave))
          (λ _. IsExclusive)
  unfolding reroute
  reroute-Exclusive master = Spec-bind _ _ (touch-keeps master) λ connected.
      Spec-if (text_eq connected slave) _ _
        (λ t. Spec-pure true (λ sw p. (p.0, ground (arith, p.1))))
        (λ _.
          Spec-bind {P = Touched connected} _ _ (gets-keeps {P = Touched connected} _) λ entries.
            Spec-bind _ _ (visit entries connected)
              λ _. Spec-bind _ _ (enable_port-Exclusive master) λ _. Spec-pure true (λ sw p. p))
    where
      Touched : Text → AxiStreamSwitch H → Type 0
      Touched connected sw = IsExclusive sw × (find master sw.port_mapping ≡ some connected)

      visit :
          (entries : Map Text Text) (connected : Text)
          → Spec
              (λ sw. Touched connected sw × (entries ≡ sw.port_mapping))
              (disable_slave drv slave entries)
              (λ _ sw. IsExclusive sw × Free slave sw.port_mapping)
              (λ _. IsExclusive)
      visit entries connected = record {
        at = λ sw p.
            (disable_slave-Free entries).at sw
              (p.0.0, rw p.1 (find-has_entry slave sw.port_mapping));
      }

module _ {H : Type 0} (drv : SwitchDriver H) (slave master : Text) where
  -- From a mapping in which no slave port feeds two master ports, whatever connectInternal does on the
  -- way, an exception included, none comes to feed two; and when it answers true, the master port has
  -- the slave port.
  pub connect_internal-Exclusive :
      (sw : AxiStreamSwitch H)
      → IsExclusive sw
      → Ensures
          (λ b t. IsExclusive t × (b ≡ true → find master t.port_mapping ≡ some slave))
          (λ _. IsExclusive)
          (connect_internal drv slave master sw)
  unfolding connect_internal
  connect_internal-Exclusive sw p = whole.at sw p
    where
      Done : Bool → AxiStreamSwitch H → Type 0
      Done b t = IsExclusive t × (b ≡ true → find master t.port_mapping ≡ some slave)

      prefixed :
          (t : AxiStreamSwitch H) → true ≡ ports_ok slave master t → starts_with b'S' slave ≡ true
      prefixed t e = unfold ports_ok in ground arith

      whole : Spec IsExclusive (connect_internal drv slave master) Done (λ _. IsExclusive)
      whole = Spec-bind {P = IsExclusive} _ _ (gets-keeps {P = IsExclusive} _) λ ok.
          Spec-if ok _ _
            (λ t. record {
              at = λ u q.
                  Ensures-map {X = λ _. IsExclusive} {X' = λ _. IsExclusive}
                    (reroute drv slave master u) (λ _ v r. (r.0, λ _. r.1)) (λ _ v r. r)
                    ((reroute-Exclusive drv slave (prefixed u (sym t ∙ q.1)) master).at u q.0);
            })
            (λ _. Spec-pure false (λ u q. (q.0, λ e. cc)))
