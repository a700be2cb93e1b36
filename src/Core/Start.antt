-- ===== src/Core/Start.antt =====
-- CoreFactory::make, its last loop: the configured cores are initialised, checked and put on the
-- card, one after the other. What a core does on `init` and `check`, and the memory manager, are
-- parameters.
pub mod Prefix
use fpga.Prelude.{
  ℕ, Bool, true, false, List, [], ◌∷◌, ◌++◌, Option, none, some, if◌then◌else◌, Text, codes, Map,
  find, assign, M, Outcome, returned, threw, stuck, pure, throw, ◌>>=◌, ◌>>◌, modify, runtime_error,
  text_key,
}
use fpga.Core.{IpIdentifier}

-- `W` is the rest of the world, `T` the memory manager's translations.
pub record Platform (W T : Type 0) : Type 0 where
  pub memory_blocks : IpIdentifier → List Text
  pub slave_addr_space_name : Text → Text → Text
  pub find_address_space : Text → M W ℕ
  pub translation_from_process : ℕ → M W T
  pub init : IpIdentifier → M W Bool
  pub check : IpIdentifier → M W Bool

-- A core on the card, with the translations that were cached in it.
pub record Core (T : Type 0) : Type 0 where
  pub id : IpIdentifier
  pub slave_address_spaces : Map Text ℕ
  pub address_translations : Map Text T

pub record CardState (W T : Type 0) : Type 0 where
  pub world : W
  pub ips : List (Core T)

-- std::map::emplace keeps an entry that is there.
abbrev pub emplace : {V : Type 0} → Text → V → Map Text V → Map Text V
emplace k v m = elim (find k m) [ none ↦ assign k v m | some _ ↦ m ]

module _ {W T : Type 0} where
  -- A call on the rest of the world.
  abbrev pub on_world : {A : Type 0} → M W A → M (CardState W T) A
  on_world m s = elim (m s.world) [
    | returned a w ↦ returned a (record s { world = w })
    | threw e w ↦ threw e (record s { world = w })
    | stuck w ↦ stuck (record s { world = w })
  ]

module _ {W T : Type 0} (p : Platform W T) where
  -- The loop over the memory blocks of a core.
  unfoldable pub cache_blocks : List Text → Core T → M (CardState W T) (Core T)
  cache_blocks [] core = pure core
  cache_blocks (block ∷ blocks) core = do
    space ← on_world (p.find_address_space (p.slave_addr_space_name core.id.name block))
    translation ← on_world (p.translation_from_process space)
    cache_blocks blocks (record core {
      slave_address_spaces = emplace block space core.slave_address_spaces;
      address_translations = emplace block translation core.address_translations;
    })

  unfoldable pub require : Bool → M (CardState W T) (Unit {0})
  require true = pure tt
  require false = throw runtime_error

  -- One round of the loop.
  unfoldable pub start_core : IpIdentifier → M (CardState W T) (Unit {0})
  unfolding cache_blocks require
  start_core id = do
    core ←
        cache_blocks (p.memory_blocks id)
          (record { id = id; slave_address_spaces = []; address_translations = [] })
    initialized ← on_world (p.init id)
    require initialized
    checked ← on_world (p.check id)
    require checked
    modify (λ s. record s { ips = s.ips ++ (core ∷ []) })

  unfoldable pub start_cores : List IpIdentifier → M (CardState W T) (Unit {0})
  unfolding start_core
  start_cores [] = pure tt
  start_cores (id ∷ ids) = do start_core id; start_cores ids
