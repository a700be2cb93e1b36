-- ===== src/Switch/Examples.antt =====
-- Tests of lib/ips/switch.cpp, and its theorems at a switch with two master ports.
use fpga.Prelude.{
  ℕ, Bool, true, List, [], ◌∷◌, Option, none, some, if◌then◌else◌, ◌≡◌, refl, Text, codes, Map,
  find, text_key, M, Ensures, arith, Text-discrete, text_before, sym, ◌∙◌, ◌⊎◌, ◌>>=◌, ◌==◌, stoi,
  final, inl, inr,
}
use fpga.Switch.{SwitchDriver, AxiStreamSwitch, port_disabled, has_port, init, connect_internal}
use fpga.Switch.Exclusive.{IsExclusive, connect_internal-Exclusive}
use fpga.Switch.Routes.{SwitchLaws, Distinct, Agrees, connect_internal-Agrees, port_number}

-- A switch that is its routing table.
abbrev table : SwitchDriver (ℕ → Option ℕ)
table = record {
  cfg_initialize = λ base h. (true, h);
  reg_update_disable = λ h. h;
  reg_update_enable = λ h. h;
  mi_port_disable_all = λ h i. none;
  mi_port_disable = λ m h i. if m == i then none else h i;
  mi_port_enable = λ m s h i. if m == i then some s else h i;
}

abbrev table_laws : SwitchLaws table
table_laws = record {
  route = λ h. h;
  route-disable = λ h m i. refl;
  route-enable = λ h m s i. refl;
  route-update_disable = λ h i. refl;
  route-update_enable = λ h i. refl;
}

abbrev masters : List Text
masters = codes "M00_AXIS" ∷ codes "M01_AXIS" ∷ []

abbrev fresh : AxiStreamSwitch (ℕ → Option ℕ)
fresh = record {
  hw = λ i. none;
  base_addr = 0;
  ports_master = masters;
  ports_slave = codes "S00_AXIS" ∷ codes "S01_AXIS" ∷ [];
  port_mapping = (codes "M00_AXIS", port_disabled) ∷ (codes "M01_AXIS", port_disabled) ∷ [];
  edges = [];
}

abbrev state_of : M (AxiStreamSwitch (ℕ → Option ℕ)) Bool → Map Text Text
state_of m = (final (m fresh)).port_mapping

test_connect :
    state_of (do
      _ ← connect_internal table (codes "S01_AXIS") (codes "M00_AXIS")
      connect_internal table (codes "S01_AXIS") (codes "M01_AXIS"))
    ≡ (codes "M00_AXIS", port_disabled) ∷ (codes "M01_AXIS", codes "S01_AXIS") ∷ []
unfolding connect_internal Text-discrete ◌>>=◌ stoi text_before
test_connect = refl

test_init : state_of (init table) ≡ fresh.port_mapping
unfolding init Text-discrete ◌>>=◌ text_before
test_init = refl

fresh-IsExclusive : IsExclusive fresh
unfolding Text-discrete
fresh-IsExclusive i j slave p e f = ground arith

connect_internal-Exclusive_example :
    Ensures
      (λ b t.
        IsExclusive t
        × (b ≡ true → find (codes "M01_AXIS") t.port_mapping ≡ some (codes "S01_AXIS")))
      (λ _. IsExclusive)
      (connect_internal table (codes "S01_AXIS") (codes "M01_AXIS") fresh)
connect_internal-Exclusive_example =
    connect_internal-Exclusive table (codes "S01_AXIS") (codes "M01_AXIS") fresh fresh-IsExclusive

master_cases :
    (m : Text) → has_port m masters ≡ true → (codes "M00_AXIS" ≡ m) ⊎ (codes "M01_AXIS" ≡ m)
master_cases m h = ground arith

number_0 : port_number (codes "M00_AXIS") ≡ some 0
unfolding stoi
number_0 = refl

number_1 : port_number (codes "M01_AXIS") ≡ some 1
unfolding stoi
number_1 = refl

masters-Distinct : Distinct masters
masters-Distinct m m' i h h' e e' = elim (master_cases m h) [
  | inl p ↦ elim (master_cases m' h') [ inl q ↦ sym p ∙ q | inr q ↦ cc (number_0, number_1) ]
  | inr p ↦ elim (master_cases m' h') [ inl q ↦ cc (number_0, number_1) | inr q ↦ sym p ∙ q ]
]

fresh-Agrees : Agrees table_laws masters fresh
unfolding Text-discrete
fresh-Agrees = record {
  ports = refl;
  keyed = λ m s e. ground arith;
  routed = λ m s p e. ground arith;
  off = λ m hm o i mi. refl;
}

connect_internal-Agrees_example :
    Ensures
      (λ _. Agrees table_laws masters)
      (λ _. Agrees table_laws masters)
      (connect_internal table (codes "S01_AXIS") (codes "M01_AXIS") fresh)
connect_internal-Agrees_example =
    connect_internal-Agrees table_laws masters masters-Distinct (codes "S01_AXIS")
      (codes "M01_AXIS") fresh fresh-Agrees
