-- ===== src/Core/Start/Prefix.antt =====
-- Which cores CoreFactory::make has put on the card when it returns, throws or does not return.
use mathlib.Core.List.{append_assoc, append-nil, map-append}
use fpga.Prelude.{
  Bool, true, false, List, [], ◌∷◌, ◌++◌, map, ◌≡◌, refl, ◌∙◌, ap, Text, M, Ensures, Ensures-map,
  Spec, Spec-bind, Spec-pure, Spec-throw, Spec-modify, arith,
}
use fpga.Core.{IpIdentifier}
use fpga.Core.Start.{
  Platform, Core, CardState, on_world, cache_blocks, require, start_core, start_cores,
}

abbrev pub ids_of : {T : Type 0} → List (Core T) → List IpIdentifier
ids_of = map (λ core. core.id)

-- Part of the configured cores, up to the one that failed.
abbrev pub Stopped : {W T : Type 0} → List IpIdentifier → List IpIdentifier → CardState W T → Type 0
Stopped on_card ids s =
    (done : List IpIdentifier) × (failed : IpIdentifier) × (rest : List IpIdentifier) × (ids
      ≡ done ++ (failed ∷ rest))
    × (ids_of s.ips ≡ on_card ++ done)

module _ {W T : Type 0} (p : Platform W T) (ips : List (Core T)) where
  -- The card's cores are `ips`, whatever the result.
  abbrev On : {A : Type 0} → A → CardState W T → Type 0
  On _ s = s.ips ≡ ips

  on_world-On : {A : Type 0} (m : M W A) → Spec (On tt) (on_world m) On On
  on_world-On m = record { at = λ s e. ground arith }

  abbrev Cached : IpIdentifier → Core T → CardState W T → Type 0
  Cached id core s = (s.ips ≡ ips) × (core.id ≡ id)

  cache_blocks-Cached :
      (blocks : List Text) (core : Core T)
      → Spec (On tt) (cache_blocks p blocks core) (Cached core.id) On
  unfolding cache_blocks
  cache_blocks-Cached [] core = Spec-pure core (λ s e. (e, refl))
  cache_blocks-Cached (block ∷ blocks) core =
      Spec-bind _ _ (on_world-On _)
        λ space. Spec-bind _ _ (on_world-On _) λ translation. cache_blocks-Cached blocks _

  require-On : (b : Bool) → Spec (On tt) (require p b) On On
  unfolding require
  require-On true = Spec-pure tt (λ s e. e)
  require-On false = Spec-throw _ (λ s e. e)

  abbrev Added : IpIdentifier → Unit {0} → CardState W T → Type 0
  Added id _ s = ids_of s.ips ≡ ids_of ips ++ (id ∷ [])

  -- A core that starts is put behind the others; a core that fails leaves the list alone.
  start_core-Added : (id : IpIdentifier) → Spec (On tt) (start_core p id) (Added id) On
  unfolding start_core
  start_core-Added id = Spec-bind _ _ (cache_blocks-Cached _ _) λ core.
      Spec-bind _ _ (keep core (on_world-On _)) λ initialized.
        Spec-bind _ _ (keep core (require-On _)) λ _.
          Spec-bind _ _ (keep core (on_world-On _)) λ checked.
            Spec-bind _ _ (keep core (require-On _))
              λ _. Spec-modify _ (λ s e. rw (e.0, map-append, e.1))
    where
      keep :
          (core : Core T) {A : Type 0} {m : M (CardState W T) A}
          → Spec (On tt) m On On
          → Spec (Cached id core) m (λ _. Cached id core) On
      keep core h = record { at = λ s e. ground (arith, h.at s e.0) }

module _ {W T : Type 0} (p : Platform W T) where
  stop_later :
      (on_card : List IpIdentifier) (id : IpIdentifier) (ids : List IpIdentifier)
      (s : CardState W T)
      → Stopped (on_card ++ (id ∷ [])) ids s
      → Stopped on_card (id ∷ ids) s
  stop_later on_card id ids s (done, failed, rest, e, f) =
      (id ∷ done, failed, rest, ap (◌∷◌ id) e, f ∙ append_assoc on_card (id ∷ []) done)

  start_cores-Spec :
      (ids on_card : List IpIdentifier)
      → Spec
          (λ s. ids_of s.ips ≡ on_card)
          (start_cores p ids)
          (λ _ s. ids_of s.ips ≡ on_card ++ ids)
          (λ _ s. Stopped on_card ids s)
  unfolding start_cores
  start_cores-Spec [] on_card = Spec-pure tt (λ s e. rw (e, append-nil))
  start_cores-Spec (id ∷ ids) on_card = Spec-bind _ _ first λ _. record {
    at = λ s e.
        Ensures-map (start_cores p ids s) (λ _ t f. f ∙ append_assoc on_card (id ∷ []) ids)
          (λ _ t f. stop_later on_card id ids t f)
          ((start_cores-Spec ids (on_card ++ (id ∷ []))).at s e);
  }
    where
      first :
          Spec
            (λ s. ids_of s.ips ≡ on_card)
            (start_core p id)
            (λ _ s. ids_of s.ips ≡ on_card ++ (id ∷ []))
            (λ _ s. Stopped on_card (id ∷ ids) s)
      first = record {
        at = λ s e.
            Ensures-map {X' = λ _ t. Stopped on_card (id ∷ ids) t} (start_core p id s)
              (λ _ t f. rw (← e) f) (λ _ t f. ([], id, ids, refl, rw append-nil (ap ids_of f ∙ e)))
              ((start_core-Added p s.ips id).at s refl);
      }

  -- When every core starts, all stand on the card, in order. When one fails, by an exception or by not
  -- returning, exactly the cores configured before it do.
  pub start_cores-prefix :
      (ids : List IpIdentifier) (s : CardState W T)
      → Ensures
          (λ _ t. ids_of t.ips ≡ ids_of s.ips ++ ids)
          (λ _ t. Stopped (ids_of s.ips) ids t)
          (start_cores p ids s)
  start_cores-prefix ids s = (start_cores-Spec ids (ids_of s.ips)).at s refl
