-- ===== src/Switch/Routes.antt =====
-- The routes of the switch hardware follow the port mapping.
use fpga.Prelude.{
  ℕ, true, false, List, [], ◌∷◌, Option, none, some, if◌then◌else◌, ◌≡◌, refl, sym, ap, subst,
  modify, ◌∙◌, ◌≢◌, Text, text_eq, StoiResult, value, no_digits, too_large, stoi, to_u8, Map, find,
  assign, find-assign, text_key, Spec, Spec-bind, Spec-run, Spec-pure, Spec-throw, Spec-modify,
  Spec-if, modify-keeps, gets-keeps, Ensures, Error, All, arith, Text-discrete, Option-cases, inl,
  inr, run, ◌==◌,
}
use fpga.Switch.{
  SwitchDriver, AxiStreamSwitch, port_disabled, port_digits, starts_with, has_port, number_or_throw,
  port_name_to_num, on_hw, map_port, touch, disable_master, disable_slave, enable_port, reroute,
  ports_ok, connect_internal,
}

-- What the driver documents: `route h i` is the slave port that feeds master port `i`.
pub record SwitchLaws {H : Type 0} (drv : SwitchDriver H) : Type 0 where
  pub route : H → ℕ → Option ℕ
  pub route-disable :
      (h : H) (m i : ℕ) → route (drv.mi_port_disable m h) i ≡ (if m == i then none else route h i)
  pub route-enable :
      (h : H) (m s i : ℕ)
      → route (drv.mi_port_enable m s h) i ≡ (if m == i then some s else route h i)
  pub route-update_disable : (h : H) (i : ℕ) → route (drv.reg_update_disable h) i ≡ route h i
  pub route-update_enable : (h : H) (i : ℕ) → route (drv.reg_update_enable h) i ≡ route h i

-- The number of a port, as portNameToNum gives it; `none` where that throws.
abbrev pub number_of : StoiResult → Option ℕ
number_of (value z) = some (to_u8 z)
number_of no_digits = none
number_of too_large = none

abbrev pub port_number : Text → Option ℕ
port_number name = number_of (stoi (port_digits name))

module _ {S : Type 0} {P : S → Type 0} {X : Option Error → S → Type 0}
    (x : (e : Option Error) (s : S) → P s → X e s) where
  number_or_throw-number :
      (r : StoiResult) → Spec P (number_or_throw r) (λ n s. P s × (number_of r ≡ some n)) X
  unfolding number_or_throw
  number_or_throw-number (value z) = Spec-pure _ (λ s p. (p, refl))
  number_or_throw-number no_digits = Spec-throw _ (λ s p. x _ s p)
  number_or_throw-number too_large = Spec-throw _ (λ s p. x _ s p)

  port_name_to_num-number :
      (name : Text) → Spec P (port_name_to_num name) (λ n s. P s × (port_number name ≡ some n)) X
  unfolding port_name_to_num
  port_name_to_num-number [] = Spec-throw _ (λ s p. x _ s p)
  port_name_to_num-number (c ∷ name) = number_or_throw-number _

-- The master ports of a switch have numbers of their own.
abbrev pub Distinct : List Text → Type 0
Distinct masters =
    (m m' : Text) (i : ℕ)
    → has_port m masters ≡ true
    → has_port m' masters ≡ true
    → port_number m ≡ some i
    → port_number m' ≡ some i
    → m ≡ m'

module _ {H : Type 0} {drv : SwitchDriver H} (laws : SwitchLaws drv) (masters : List Text) where
  open laws use {route, route-disable, route-enable, route-update_disable, route-update_enable}

  -- The hardware feeds the master port from the slave port.
  abbrev pub Routed : Text → Text → H → Type 0
  Routed m s h =
      (i : ℕ) × (j : ℕ) × (port_number m ≡ some i) × (port_number s ≡ some j) × (route h i ≡ some j)

  -- The mapping names no slave port for a master port: it has no entry, or DISABLED or the empty text.
  abbrev pub Off : Option Text → Type 0
  Off none = Unit {0}
  Off (some s) = starts_with b'S' s ≡ false

  -- No slave port feeds the master port.
  abbrev pub Unrouted : Text → H → Type 0
  Unrouted m h = (i : ℕ) → port_number m ≡ some i → route h i ≡ none

  -- Every slave port of the mapping is routed to its master port, and nothing to the other ones.
  pub record Agrees (sw : AxiStreamSwitch H) : Type 0 where
    pub ports : sw.ports_master ≡ masters
    pub keyed : (m s : Text) → find m sw.port_mapping ≡ some s → has_port m masters ≡ true
    pub routed :
        (m s : Text)
        → starts_with b'S' s ≡ true
        → find m sw.port_mapping ≡ some s
        → Routed m s sw.hw
    pub off :
        (m : Text) → has_port m masters ≡ true → Off (find m sw.port_mapping) → Unrouted m sw.hw

  -- The same but for one master port.
  record AgreesBut (x : Text) (sw : AxiStreamSwitch H) : Type 0 where
    ports : sw.ports_master ≡ masters
    keyed : (m s : Text) → find m sw.port_mapping ≡ some s → has_port m masters ≡ true
    routed :
        (m s : Text)
        → m ≢ x
        → starts_with b'S' s ≡ true
        → find m sw.port_mapping ≡ some s
        → Routed m s sw.hw
    off :
        (m : Text)
        → m ≢ x
        → has_port m masters ≡ true
        → Off (find m sw.port_mapping)
        → Unrouted m sw.hw

  -- A step of the hardware that leaves the routes alone.
  same_routes :
      (f : H → H)
      → ((h : H) (i : ℕ) → route (f h) i ≡ route h i)
      → (sw : AxiStreamSwitch H) → Agrees sw
      → Agrees (on_hw f sw)
  same_routes f same sw a = record {
    ports = a.ports;
    keyed = a.keyed;
    routed = λ m s p e. let (i, j, mi, sj, r) = a.routed m s p e in (i, j, mi, sj, same _ i ∙ r);
    off = λ m hm o i mi. same _ i ∙ a.off m hm o i mi;
  }

  same_routes_but :
      (f : H → H)
      → ((h : H) (i : ℕ) → route (f h) i ≡ route h i)
      → (x : Text) (sw : AxiStreamSwitch H) → AgreesBut x sw
      → AgreesBut x (on_hw f sw)
  same_routes_but f same x sw a = record {
    ports = a.ports;
    keyed = a.keyed;
    routed =
        λ m s ne p e. let (i, j, mi, sj, r) = a.routed m s ne p e in (i, j, mi, sj, same _ i ∙ r);
    off = λ m ne hm o i mi. same _ i ∙ a.off m ne hm o i mi;
  }

  module _ (distinct : Distinct masters) where
    -- Switching the port of one master leaves the routes of the others alone.
    other_routes :
        (f : H → H) (x : Text) (n : ℕ)
        → ((h : H) (i : ℕ) → n ≢ i → route (f h) i ≡ route h i)
        → has_port x masters ≡ true
        → port_number x ≡ some n
        → (sw : AxiStreamSwitch H) → Agrees sw
        → AgreesBut x (on_hw f sw)
    other_routes f x n same hx nx sw a = record {
      ports = a.ports;
      keyed = a.keyed;
      routed = λ m s ne p e.
          let (i, j, mi, sj, r) = a.routed m s p e in
          (
            i,
            j,
            mi,
            sj,
            same _ i (λ ni. ne (distinct m x i (a.keyed m s e) hx mi (nx ∙ ap some ni))) ∙ r,
          );
      off = λ m ne hm o i mi.
          same _ i (λ ni. ne (distinct m x i hm hx mi (nx ∙ ap some ni))) ∙ a.off m hm o i mi;
    }

    -- Writing the entry of the master that was left out, with a slave port that is routed to it or
    -- with none.
    assign-Agrees :
        (x slave : Text) (sw : AxiStreamSwitch H)
        → has_port x masters ≡ true
        → (starts_with b'S' slave ≡ true → Routed x slave sw.hw)
        → (starts_with b'S' slave ≡ false → Unrouted x sw.hw)
        → AgreesBut x sw
        → Agrees (map_port x slave sw)
    assign-Agrees x slave sw hx r u a = record {
      ports = a.ports;
      keyed = λ m s e. ground (arith, find-assign x m slave sw.port_mapping, a.keyed m s);
      routed = λ m s p e. elim (Text-discrete x m) [
        | yes same ↦
            let e' : slave ≡ s = ground (arith, find-assign x m slave sw.port_mapping) in
            subst (λ t. Routed m t sw.hw) e' (subst (λ t. Routed t slave sw.hw) same (r (rw e' p)))
        | no other ↦
            a.routed m s (λ q. other (sym q)) p
              (ground (arith, find-assign x m slave sw.port_mapping))
      ];
      off = λ m hm o. elim (Text-discrete x m) [
        | yes same ↦
            let e : find m (assign x slave sw.port_mapping) ≡ some slave =
              ground (arith, find-assign x m slave sw.port_mapping) in
            subst (λ t. Unrouted t sw.hw) same (u (subst Off e o))
        | no other ↦
            let e : find m (assign x slave sw.port_mapping) ≡ find m sw.port_mapping =
              ground (arith, find-assign x m slave sw.port_mapping) in
            a.off m (λ q. other (sym q)) hm (subst Off e o)
      ];
    }

    abbrev Kept : Option Error → AxiStreamSwitch H → Type 0
    Kept _ = Agrees

    disable_master-Agrees :
        (master : Text)
        → has_port master masters ≡ true
        → Spec Agrees (disable_master drv master) (λ _. Agrees) Kept
    unfolding disable_master
    disable_master-Agrees master hm =
        Spec-bind _ _ (modify-keeps _ (same_routes _ route-update_disable)) λ _.
          Spec-bind _ _ (port_name_to_num-number {X = Kept} (λ e s p. p) master) λ num.
            Spec-bind _ _ (switched num) λ _. Spec-bind _ _ settled λ _. Spec-modify _ λ sw a.
              assign-Agrees master port_disabled sw hm (λ p. absurd (cc (disabled_prefix, p)))
                (λ _. a.1) a.0
      where
        disabled_prefix : starts_with b'S' port_disabled ≡ false
        disabled_prefix = unfold Text-discrete in refl

        some_number : (a b : ℕ) → some a ≡ some b → a ≡ b
        some_number a b e = cc

        Switched : AxiStreamSwitch H → Type 0
        Switched sw = AgreesBut master sw × Unrouted master sw.hw

        switched :
            (num : ℕ)
            → Spec
                (λ sw. Agrees sw × (port_number master ≡ some num))
                (modify (on_hw (drv.mi_port_disable num)))
                (λ _. Switched)
                Kept
        switched num = Spec-modify _ λ sw p. (
          other_routes (drv.mi_port_disable num) master num
              (λ h i ne. ground (arith, route-disable h num i)) hm p.1 sw p.0,
          λ i mi. ground (arith, route-disable sw.hw num i, some_number num i (sym p.1 ∙ mi)),
        )

        settled : Spec Switched (modify (on_hw drv.reg_update_enable)) (λ _. Switched) Kept
        settled = modify-keeps _ λ sw p. (
          same_routes_but _ route-update_enable master sw p.0,
          λ i mi. route-update_enable sw.hw i ∙ p.1 i mi,
        )

    disable_slave-Agrees :
        (slave : Text) (es : Map Text Text)
        → All (λ entry. has_port entry.0 masters ≡ true) es
        → Spec Agrees (disable_slave drv slave es) (λ _. Agrees) Kept
    unfolding disable_slave
    disable_slave-Agrees slave [] all = Spec-pure tt (λ s p. p)
    disable_slave-Agrees slave ((master, s) ∷ es) all =
        Spec-if (text_eq s slave) _ _
          (λ _.
            Spec-bind _ _ (disable_master-Agrees master all.0)
              λ _. disable_slave-Agrees slave es all.1)
          (λ _. disable_slave-Agrees slave es all.1)

    enable_port-Agrees :
        (slave master : Text)
        → has_port master masters ≡ true
        → starts_with b'S' slave ≡ true
        → Spec Agrees (enable_port drv slave master) (λ _. Agrees) Kept
    unfolding enable_port
    enable_port-Agrees slave master hm is_slave =
        Spec-bind _ _ (modify-keeps _ (same_routes _ route-update_disable)) λ _.
          Spec-bind _ _ (port_name_to_num-number {X = Kept} (λ e s p. p) master) λ m.
            Spec-bind _ _ (port_name_to_num-number {X = Kept} (λ e s p. p.0) slave) λ n.
              Spec-bind _ _ (switched m n) λ _. Spec-bind _ _ (settled m n) λ _.
                Spec-modify _ λ sw p.
                  assign-Agrees master slave sw hm (λ _. p.1) (λ none. absurd (cc (is_slave, none)))
                    p.0
      where
        Switched : AxiStreamSwitch H → Type 0
        Switched sw = AgreesBut master sw × Routed master slave sw.hw

        switched :
            (m n : ℕ)
            → Spec
                (λ sw. (Agrees sw × (port_number master ≡ some m)) × (port_number slave ≡ some n))
                (modify (on_hw (drv.mi_port_enable m n)))
                (λ _. Switched)
                Kept
        switched m n = Spec-modify _ λ sw p. (
          other_routes (drv.mi_port_enable m n) master m
              (λ h i ne. ground (arith, route-enable h m n i)) hm p.0.1 sw p.0.0,
          (m, n, p.0.1, p.1, ground (arith, route-enable sw.hw m n m)),
        )

        settled :
            (m n : ℕ) → Spec Switched (modify (on_hw drv.reg_update_enable)) (λ _. Switched) Kept
        settled m n = modify-keeps _ λ sw p.
            let (i, j, mi, sj, r) = p.1 in
            (
              same_routes_but _ route-update_enable master sw p.0,
              (i, j, mi, sj, route-update_enable sw.hw i ∙ r),
            )

    All-keyed :
        (es : Map Text Text)
        → ((m s : Text) → find m es ≡ some s → has_port m masters ≡ true)
        → All (λ entry. has_port entry.0 masters ≡ true) es
    All-keyed [] k = tt
    All-keyed ((j, s) ∷ es) k = (
      k j s (ground arith),
      All-keyed es (λ m t e. elim (Text-discrete j m) [
        | yes same ↦ k m s (ground arith)
        | no other ↦ k m t (ground arith)
      ]),
    )

    touch-Agrees :
        (master : Text)
        → has_port master masters ≡ true
        → Spec Agrees (run (touch {H = H} master)) (λ _. Agrees) Kept
    touch-Agrees master hm = Spec-run _ λ sw a. elim (Option-cases (find master sw.port_mapping)) [
      | inl e ↦
          rw (e, touch)
            (assign-Agrees master [] sw hm (λ p. cc) (λ _. a.off master hm (rw (e) tt)) (but sw a))
      | inr (s, e) ↦ rw (e, touch) a
    ]
      where
        but : (sw : AxiStreamSwitch H) → Agrees sw → AgreesBut master sw
        but sw a = record {
          ports = a.ports;
          keyed = a.keyed;
          routed = λ m s _ p e. a.routed m s p e;
          off = λ m _ hm o. a.off m hm o;
        }

    reroute-Agrees :
        (slave master : Text)
        → has_port master masters ≡ true
        → starts_with b'S' slave ≡ true
        → Spec Agrees (reroute drv slave master) (λ _. Agrees) Kept
    unfolding reroute
    reroute-Agrees slave master hm is_slave = Spec-bind _ _ (touch-Agrees master hm) λ connected.
        Spec-if (text_eq connected slave) _ _ (λ _. Spec-pure true (λ s p. p))
          (λ _. Spec-bind {P = Agrees} _ _ (gets-keeps {P = Agrees} _) λ entries.
            Spec-bind _ _ (visit entries) λ _.
              Spec-bind _ _ (enable_port-Agrees slave master hm is_slave)
                λ _. Spec-pure true (λ s p. p))
      where
        visit :
            (entries : Map Text Text)
            → Spec
                (λ sw. Agrees sw × (entries ≡ sw.port_mapping))
                (disable_slave drv slave entries)
                (λ _. Agrees)
                Kept
        visit entries = record {
          at = λ sw p.
              (disable_slave-Agrees slave entries
                  (All-keyed entries (λ m s e. p.0.keyed m s (rw (← p.1) e)))).at
                sw p.0;
        }

    -- From a switch whose hardware routes to each master port the slave port that the mapping names, and
    -- none where the mapping names none, whatever connectInternal does on the way, an exception
    -- included, it does so afterwards, provided that the driver's calls act on the routes as documented and the master ports have different
    -- numbers.
    pub connect_internal-Agrees :
        (slave master : Text) (sw : AxiStreamSwitch H)
        → Agrees sw
        → Ensures (λ _. Agrees) (λ _. Agrees) (connect_internal drv slave master sw)
    unfolding connect_internal
    connect_internal-Agrees slave master sw a = whole.at sw a
      where
        is_master :
            (t : AxiStreamSwitch H)
            → true ≡ ports_ok slave master t
            → has_port master t.ports_master ≡ true
        is_master t e = unfold ports_ok in ground arith

        is_slave :
            (t : AxiStreamSwitch H) → true ≡ ports_ok slave master t → starts_with b'S' slave ≡ true
        is_slave t e = unfold ports_ok in ground arith

        whole : Spec Agrees (connect_internal drv slave master) (λ _. Agrees) Kept
        whole = Spec-bind {P = Agrees} _ _ (gets-keeps {P = Agrees} _) λ ok.
            Spec-if ok _ _
              (λ t. record {
                at = λ u q.
                    (reroute-Agrees slave master
                        (subst (λ ms. has_port master ms ≡ true) q.0.ports
                          (is_master u (sym t ∙ q.1)))
                        (is_slave u (sym t ∙ q.1))).at
                      u q.0;
              })
              (λ _. Spec-pure false (λ u q. q.0))
