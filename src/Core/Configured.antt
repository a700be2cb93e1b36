-- ===== src/Core/Configured.antt =====
-- What the configuring loop of CoreFactory::make leaves.
use fpga.Prelude.{
  Bool, true, false, List, [], ◌∷◌, ◌++◌, map, Option, none, some, if◌then◌else◌, ◌≡◌, refl, sym,
  ap, subst, ◌∙◌, All, keep_if, Text, text_eq, text_key, Map, assign, same_key, ℤ, StoiResult,
  value, no_digits, too_large, stoi, M, Ensures, Spec, Spec-bind, Spec-pure, Spec-if, Spec-throw,
  Spec-pre, Spec-weaken, Spec-each, hang, Outcome, returned, threw, stuck, out_of_range, codes,
  ◌>>=◌,
}
use fpga.Core.{IpIdentifier, lookup_by}
use fpga.Core.Config.{
  IrqPort, ConfiguredIp, ConfigPlatform, has_controller, add_irq, parse_irq, parse_irqs, irqs_of,
  buses_of, configure_ip, factory_for, configure_ips,
}

-- The first of some cores that has the name of an interrupt's controller is a controller.
abbrev pub Controls : List ConfiguredIp → IrqPort → Type 0
Controls ips irq =
    (ip : ConfiguredIp) × (lookup_by (λ ip. text_eq ip.id.name irq.controller) ips ≡ some ip)
    × (ip.is_interrupt_controller ≡ true)

abbrev pub AllControlled : List ConfiguredIp → Map Text IrqPort → Type 0
AllControlled ips irqs = All (λ irq. Controls ips irq.1) irqs

-- The interrupts of each core lead to controllers in front of it; `before` is what stands before.
abbrev pub Sound : List ConfiguredIp → List ConfiguredIp → Type 0
Sound before [] = Unit
Sound before (ip ∷ ips) = AllControlled before ip.irqs × Sound (before ++ (ip ∷ [])) ips

All-assign :
    {V : Type 0} (P : Text × V → Type 0) (j : Text) (v : V) (m : Map Text V)
    → ((i : Text) → P (i, v))
    → All P m
    → All P (assign j v m)
All-assign P j v [] new all = (new j, tt)
All-assign P j v ((i, w) ∷ m) new (here, all) =
    go (same_key i j) (text_key.before j i) (All-assign P j v m new all)
  where
    go :
        (b c : Bool)
        → All P (assign j v m)
        → All P
            (if b then (i, v) ∷ m else (if c then (j, v) ∷ (i, w) ∷ m else (i, w) ∷ assign j v m))
    go true c rest = (new i, all)
    go false true rest = (new j, (here, all))
    go false false rest = (here, rest)

append_nil : {A : Type 0} (before : List A) → before ++ [] ≡ before
append_nil [] = refl
append_nil (a ∷ before) = ap (◌∷◌ a) (append_nil before)

append_one :
    {A : Type 0} (before xs : List A) (a : A) → (before ++ (a ∷ [])) ++ xs ≡ before ++ (a ∷ xs)
append_one [] xs a = refl
append_one (b ∷ before) xs a = ap (◌∷◌ b) (append_one before xs a)

Sound-append :
    (before ips : List ConfiguredIp) (ip : ConfiguredIp)
    → Sound before ips
    → AllControlled (before ++ ips) ip.irqs
    → Sound before (ips ++ (ip ∷ []))
Sound-append before [] ip sound new =
    (subst (λ l. AllControlled l ip.irqs) (append_nil before) new, tt)
Sound-append before (first ∷ ips) ip (here, sound) new = (
  here,
  Sound-append (before ++ (first ∷ [])) ips ip sound
      (subst (λ l. AllControlled l ip.irqs) (sym (append_one before ips first)) new),
)

map-append :
    (ips : List ConfiguredIp) (ip : ConfiguredIp)
    → map (λ ip. ip.id) (ips ++ (ip ∷ [])) ≡ map (λ ip. ip.id) ips ++ (ip.id ∷ [])
map-append [] ip = refl
map-append (first ∷ ips) ip = ap (◌∷◌ first.id) (map-append ips ip)

abbrev pub is_some : {A : Type 0} → Option A → Bool
is_some none = false
is_some (some a) = true

module _ {W F J : Type 0} (p : ConfigPlatform W F J) where
  abbrev Always : W → Type 0
  Always w = Unit

  abbrev pub Anything : {A : Type 0} → A → W → Type 0
  Anything a w = Unit

  any : {A : Type 0} (m : M W A) → Spec Always m Anything Anything
  any {A} m = record { at = λ w _. ends (m w) }
    where
      ends : (o : Outcome W A) → Ensures Anything Anything o
      ends (returned a w) = tt
      ends (threw e w) = tt
      ends (stuck w) = tt

  has_controller-Controls :
      (ips : List ConfiguredIp) (name : Text)
      → has_controller ips name ≡ true
      → (num : ℤ) → Controls ips (record { num = num; controller = name })
  unfolding has_controller
  has_controller-Controls ips name e num =
      found (lookup_by (λ ip. text_eq ip.id.name name) ips) refl e
    where
      found :
          (o : Option ConfiguredIp)
          → lookup_by (λ ip. text_eq ip.id.name name) ips ≡ o
          → elim o as (λ _. Bool) [ none ↦ false | some ip ↦ ip.is_interrupt_controller ] ≡ true
          → Controls ips (record { num = num; controller = name })
      found none e' e = absurd cc
      found (some ip) e' e = (ip, e', e)

  -- Interrupts read so far, all with controllers.
  abbrev IrqsSpec : List ConfiguredIp → M W (Map Text IrqPort) → Type 0
  IrqsSpec ips m = Spec Always m (λ irqs _. AllControlled ips irqs) Anything

  parse_irq-Controlled :
      (ips : List ConfiguredIp) (name : Text) (tokens : List Text) (irqs : Map Text IrqPort)
      → AllControlled ips irqs
      → IrqsSpec ips (parse_irq p ips name tokens irqs)
  unfolding parse_irq
  parse_irq-Controlled ips name [] irqs all = Spec-pure irqs (λ w _. all)
  parse_irq-Controlled ips name (a ∷ []) irqs all = Spec-pure irqs (λ w _. all)
  parse_irq-Controlled ips name (controller ∷ num ∷ []) irqs all =
      Spec-if (has_controller ips controller) _ _ (λ e. added (stoi num) e)
        (λ e. Spec-pure irqs (λ w _. all))
    where
      added :
          (r : StoiResult)
          → has_controller ips controller ≡ true
          → IrqsSpec ips (add_irq p name controller r irqs)
      added (value num) e = Spec-pure _ (λ w _.
          All-assign (λ irq. Controls ips irq.1) name _ irqs
            (λ i. has_controller-Controls ips controller e num) all)
      added no_digits e = Spec-pure irqs (λ w _. all)
      added too_large e = Spec-throw out_of_range (λ w _. tt)
  parse_irq-Controlled ips name (a ∷ b ∷ c ∷ tokens) irqs all = Spec-pure irqs (λ w _. all)

  parse_irqs-Controlled :
      (ips : List ConfiguredIp) (entries : List (Text × Option Text)) (irqs : Map Text IrqPort)
      → AllControlled ips irqs
      → IrqsSpec ips (parse_irqs p ips entries irqs)
  unfolding parse_irqs hang
  parse_irqs-Controlled ips [] irqs all = Spec-pure irqs (λ w _. all)
  parse_irqs-Controlled ips ((name, none) ∷ entries) irqs all = record { at = λ w _. tt }
  parse_irqs-Controlled ips ((name, some entry) ∷ entries) irqs all =
      Spec-bind _ _ (parse_irq-Controlled ips name (p.tokenize entry (codes ":")) irqs all) λ added.
        Spec-each λ w all'. Spec-pre (parse_irqs-Controlled ips entries added all') (λ _ _. tt)

  irqs_of-Controlled :
      (ips : List ConfiguredIp) (entries : Option (List (Text × Option Text)))
      → IrqsSpec ips (irqs_of p ips entries)
  unfolding irqs_of
  irqs_of-Controlled ips none = Spec-pure [] (λ w _. tt)
  irqs_of-Controlled ips (some entries) = parse_irqs-Controlled ips entries [] tt

  -- One core more, with its interrupts.
  abbrev Extends : List ConfiguredIp → IpIdentifier → List ConfiguredIp → Type 0
  Extends ips id more =
      Sound [] more × (map (λ ip. ip.id) more ≡ map (λ ip. ip.id) ips ++ (id ∷ []))

  configure_ip-Extends :
      (ips : List ConfiguredIp) (id : IpIdentifier) (f : F)
      → Sound [] ips
      → Spec Always (configure_ip p ips id f) (λ more _. Extends ips id more) Anything
  unfolding configure_ip
  configure_ip-Extends ips id f sound =
      Spec-bind _ _ (irqs_of-Controlled ips (p.config_of id.name).irqs) λ irqs. Spec-each λ w all.
        Spec-pre
          (Spec-bind _ _ (any (buses_of p id.name (p.config_of id.name).memory_view)) λ buses.
            Spec-bind _ _ (any _) λ _.
              Spec-bind _ _ (any _)
                λ _. Spec-pure _ (λ w _. (Sound-append [] ips _ sound all, map-append ips _)))
          (λ _ _. tt)

  -- The identifiers of the cores that a factory is found for.
  abbrev pub with_factory : List IpIdentifier → List IpIdentifier
  with_factory ids = keep_if (λ id. is_some (factory_for p id)) ids

  abbrev ids_of : List ConfiguredIp → List IpIdentifier
  ids_of ips = map (λ ip. ip.id) ips

  configure_from :
      (ids : List IpIdentifier) (ips : List ConfiguredIp)
      → Sound [] ips
      → Spec Always
          (configure_ips p ids ips)
          (λ more _. Sound [] more × (ids_of more ≡ ids_of ips ++ with_factory ids))
          Anything
  unfolding configure_ips
  configure_from [] ips sound = Spec-pure ips (λ w _. (sound, sym (append_nil (ids_of ips))))
  configure_from (id ∷ ids) ips sound =
      step (factory_for p id) (λ more sound'. configure_from ids more sound')
    where
      step :
          (o : Option F)
          → ((more : List ConfiguredIp)
              → Sound [] more
              → Spec Always
                  (configure_ips p ids more)
                  (λ all _. Sound [] all × (ids_of all ≡ ids_of more ++ with_factory ids))
                  Anything)
          → Spec Always
              (elim o [
                | none ↦ configure_ips p ids ips
                | some f ↦ configure_ip p ips id f >>= λ more. configure_ips p ids more
              ])
              (λ all _.
                Sound [] all
                × (ids_of all
                    ≡ ids_of ips
                      ++ (if is_some o then id ∷ with_factory ids else with_factory ids)))
              Anything
      step none later = later ips sound
      step (some f) later = Spec-bind _ _ (configure_ip-Extends ips id f sound) λ more.
          Spec-each λ w (sound', e).
            Spec-weaken (later more sound') (λ _ _. tt)
              (λ all w (s, e'). (
                s,
                e'
                    ∙ (ap (λ l. l ++ with_factory ids) e
                        ∙ append_one (ids_of ips) (with_factory ids) id),
              ))
              (λ _ _ _. tt)

  -- The configured cores stand in the order of the identifiers, those without a factory left out, and
  -- the interrupts of each lead to an interrupt controller that was configured before it.
  pub configure_ips-Sound :
      (ids : List IpIdentifier)
      → Spec Always
          (configure_ips p ids [])
          (λ ips _. Sound [] ips × (map (λ ip. ip.id) ips ≡ with_factory ids))
          Anything
  configure_ips-Sound ids = configure_from ids [] tt
