-- ===== src/Core/Make.antt =====
-- CoreFactory::make of lib/core.cpp as a whole: the names and tags of the configuration, the order, the
-- configuration and the start.
use mathlib.Core.List.{Perm}
use fpga.Prelude.{
  List, [], ◌∷◌, ◌++◌, Option, none, some, map, ◌≡◌, ◌⊎◌, inl, inr, refl, sym, ap, subst, ◌≢◌, ◌∙◌,
  Text, M, Outcome, Ensures, Ensures-map, Spec, Spec-bind, returned, threw, stuck, throw, hang,
  gets, ◌>>=◌, config_error, runtime_error,
}
use fpga.Vlnv.{Vlnv, parse_from_string}
use fpga.Core.{IpIdentifier, initialization_order}
use fpga.Core.Order.{initialization_order-perm}
use fpga.Core.Config.{ConfigPlatform, ConfiguredIp, configure_ips}
use fpga.Core.Configured.{Sound, with_factory, configure_ips-Sound}
use fpga.Core.Start.{Platform, Core, CardState, on_world, start_cores}
use fpga.Core.Start.Prefix.{ids_of, Stopped, start_cores-prefix}

-- The cores of the configuration; `none` stands for one without a tag.
unfoldable pub parse_identifiers : List (Text × Option Text) → Option (List IpIdentifier)
parse_identifiers [] = some []
parse_identifiers ((name, none) ∷ entries) = none
parse_identifiers ((name, some vlnv) ∷ entries) = elim (parse_identifiers entries) [
  | none ↦ none
  | some ids ↦ some (record { vlnv = parse_from_string vlnv; name = name } ∷ ids)
]

module _ {W T F J : Type 0} (config : ConfigPlatform W F J) (start : Platform W T) where
  -- make, behind the order
  unfoldable pub configure_and_start : Option (List IpIdentifier) → M (CardState W T) (Unit {0})
  configure_and_start none = hang
  configure_and_start (some order) = do
    configured ← on_world (configure_ips config order [])
    start_cores start (map (λ ip. ip.id) configured)

  -- make, behind the identifiers
  unfoldable pub make_identified :
      List Vlnv → Option (List IpIdentifier) → M (CardState W T) (Unit {0})
  unfolding configure_and_start
  make_identified vlnvs none = throw config_error
  make_identified vlnvs (some ids) = configure_and_start (initialization_order vlnvs ids)

  -- The first test of make
  unfoldable pub unless_there :
      List (Core T) → M (CardState W T) (Unit {0}) → M (CardState W T) (Unit {0})
  unless_there [] m = m
  unless_there (_ ∷ _) m = throw runtime_error

  -- CoreFactory::make, for an order of initialization
  unfoldable pub make_cores : List Vlnv → List (Text × Option Text) → M (CardState W T) (Unit {0})
  unfolding unless_there make_identified
  make_cores vlnvs entries = do
    ips ← gets (λ s. s.ips)
    unless_there ips (make_identified vlnvs (parse_identifiers entries))

  -- The cores that are to be on the card: those with a factory, in an order of all of them.
  abbrev pub Wanted : Option (List IpIdentifier) → List IpIdentifier → Type 0
  Wanted none wanted = ⊥
  Wanted (some ids) wanted =
      (order : List IpIdentifier) × Perm order ids × (wanted ≡ with_factory config order)

  -- All of them are on the card.
  abbrev pub Complete : List (Text × Option Text) → CardState W T → Type 0
  Complete entries s = Wanted (parse_identifiers entries) (ids_of s.ips)

  -- Only those in front of one that failed are, or none.
  abbrev pub Partly : List (Text × Option Text) → CardState W T → Type 0
  Partly entries s =
      (s.ips ≡ [])
      ⊎ ((wanted : List IpIdentifier) × Wanted (parse_identifiers entries) wanted
          × Stopped [] wanted s)

  abbrev Half : Option (List IpIdentifier) → CardState W T → Type 0
  Half ids s =
      (s.ips ≡ []) ⊎ ((wanted : List IpIdentifier) × Wanted ids wanted × Stopped [] wanted s)

  started-Complete :
      (ids order : List IpIdentifier) (configured : List ConfiguredIp) (s : CardState W T)
      → s.ips ≡ []
      → Perm order ids
      → map (λ ip. ip.id) configured ≡ with_factory config order
      → Ensures
          (λ _ t. Wanted (some ids) (ids_of t.ips))
          (λ _ t. Half (some ids) t)
          (start_cores start (map (λ ip. ip.id) configured) s)
  started-Complete ids order configured s e perm same =
      Ensures-map {Q' = λ _ t. Wanted (some ids) (ids_of t.ips)} {X' = λ _ t. Half (some ids) t}
        (start_cores start (map (λ ip. ip.id) configured) s)
        (λ _ t f. (
          order,
          perm,
          f ∙ (ap (λ l. l ++ map (λ (ip : ConfiguredIp). ip.id) configured) (ap ids_of e) ∙ same),
        ))
        (λ _ t stopped. inr (
          map (λ ip. ip.id) configured,
          (order, perm, same),
          subst (λ l. Stopped l (map (λ ip. ip.id) configured) t) (ap ids_of e) stopped,
        ))
        (start_cores-prefix start (map (λ ip. ip.id) configured) s)

  ordered-Complete :
      (ids : List IpIdentifier) (o : Option (List IpIdentifier)) (s : CardState W T)
      → s.ips ≡ []
      → ((order : List IpIdentifier) → o ≡ some order → Perm order ids)
      → Ensures
          (λ _ t. Wanted (some ids) (ids_of t.ips))
          (λ _ t. Half (some ids) t)
          (configure_and_start o s)
  unfolding configure_and_start hang ◌>>=◌
  ordered-Complete ids none s e perm = inl e
  ordered-Complete ids (some order) s e perm = sequence.at s e
    where
      configured-Same :
          Spec
            (λ t. t.ips ≡ [])
            (on_world (configure_ips config order []))
            (λ ips t. (t.ips ≡ []) × (map (λ ip. ip.id) ips ≡ with_factory config order))
            (λ _ t. Half (some ids) t)
      configured-Same = record {
        at = λ t none_there.
            answer t none_there (configure_ips config order [] t.world)
              ((configure_ips-Sound config order).at t.world tt);
      }
        where
          answer :
              (t : CardState W T)
              → t.ips ≡ []
              → (o : Outcome W (List ConfiguredIp))
              → Ensures
                  (λ ips _. Sound [] ips × (map (λ ip. ip.id) ips ≡ with_factory config order))
                  (λ _ _. Unit {0})
                  o
              → Ensures
                  (λ ips t. (t.ips ≡ []) × (map (λ ip. ip.id) ips ≡ with_factory config order))
                  (λ _ t. Half (some ids) t)
                  (elim o [
                    | returned a w ↦ returned a (record t { world = w })
                    | threw x w ↦ threw x (record t { world = w })
                    | stuck w ↦ stuck (record t { world = w })
                  ])
          answer t none_there (returned configured w) (sound, same) = (none_there, same)
          answer t none_there (threw x w) h = inl none_there
          answer t none_there (stuck w) h = inl none_there

      sequence :
          Spec
            (λ t. t.ips ≡ [])
            (configure_and_start (some order))
            (λ _ t. Wanted (some ids) (ids_of t.ips))
            (λ _ t. Half (some ids) t)
      sequence = Spec-bind _ _ configured-Same λ configured. record {
        at = λ t (none_there, same).
            started-Complete ids order configured t none_there (perm order refl) same;
      }

  identified-Complete :
      (vlnvs : List Vlnv) (o : Option (List IpIdentifier)) (s : CardState W T)
      → s.ips ≡ []
      → Ensures (λ _ t. Wanted o (ids_of t.ips)) (λ _ t. Half o t) (make_identified vlnvs o s)
  unfolding make_identified throw
  identified-Complete vlnvs none s e = inl e
  identified-Complete vlnvs (some ids) s e =
      ordered-Complete ids (initialization_order vlnvs ids) s e
        λ order h. initialization_order-perm vlnvs ids order h

  -- From a card without cores, `make_cores` puts the cores of the configuration that have a factory on it,
  -- in one order of all of them, and when it throws or does not come back, either none is on the card,
  -- or exactly those in front of one that failed. From a card with cores it throws runtime_error and
  -- leaves the card as it is.
  pub make_cores-Complete :
      (vlnvs : List Vlnv) (entries : List (Text × Option Text)) (s : CardState W T)
      → (s.ips ≡ []
          → Ensures (λ _. Complete entries) (λ _. Partly entries) (make_cores vlnvs entries s))
        × (s.ips ≢ [] → make_cores vlnvs entries s ≡ threw runtime_error s)
  unfolding make_cores unless_there gets throw ◌>>=◌
  make_cores-Complete vlnvs entries s = (
    λ e.
        subst
          (λ l.
            Ensures (λ _. Complete entries) (λ _. Partly entries)
              (unless_there l (make_identified vlnvs (parse_identifiers entries)) s))
          (sym e) (identified-Complete vlnvs (parse_identifiers entries) s e),
    λ some_ip. refused s.ips some_ip,
  )
    where
      refused :
          (l : List (Core T))
          → l ≢ []
          → unless_there l (make_identified vlnvs (parse_identifiers entries)) s
            ≡ threw runtime_error s
      refused [] some_ip = absurd (some_ip refl)
      refused (ip ∷ ips) some_ip = refl
