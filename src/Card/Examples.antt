-- ===== src/Card/Examples.antt =====
-- Tests of lib/card.cpp on an IOMMU that has one window, at 4096, and its theorems there.
use fpga.Prelude.{
  ℕ, ◌*◌, nat_key, Bool, true, false, [], ◌∷◌, Option, none, some, if◌then◌else◌, ◌==◌, ◌≡◌, refl,
  inl, inr, ◌⊎◌, ◌≢◌, ap, Bool-cases, Ensures, returned, threw, pure, plain_exception, arith,
  Spec-pure, subst, ◌>>=◌, ℕ_discrete,
}
use fpga.Card.{
  MemoryBlock, uintptr_max, Driver, Card, IpMethods, map_memory_block, unmap_memory_block, destroy,
}
use fpga.Card.Ownership.{updated}
use fpga.Card.Memory.{
  DriverLaws, Owns, Mapped, Unmapped, Refused, map_memory_block-Owns, unmap_memory_block-Owns,
}
use fpga.Card.End.{IpLaws, Closed, destroy-Closed}

record Iommu : Type 0 where
  slot : Option ℕ
  translations : ℕ → Option (ℕ × ℕ)

abbrev one_window : Driver Iommu
one_window = record {
  is_iommu_enabled = λ h. true;
  memory_map = λ base iova len h. elim h.slot [
    | none ↦ (4096, record h { slot = some len })
    | some n ↦ (uintptr_max, h)
  ];
  memory_unmap = λ iova size h. if iova == 4096 then record h { slot = none } else h;
  get_translation_from_process = λ space h. some (space * 65536);
  get_translation = λ from to h. h.translations to;
  create_mapping = λ src dest size from to h. record h {
    translations = updated to (some (src, size)) h.translations;
  };
}

abbrev window_of : ℕ → Iommu → Option ℕ
window_of i h = if i == 4096 then h.slot else none

abbrev MapLaw : ℕ → Iommu → Type 0
MapLaw len h =
    (((one_window.memory_map 0 0 len h).0 ≡ uintptr_max)
      × ((i : ℕ) → window_of i (one_window.memory_map 0 0 len h).1 ≡ window_of i h))
    ⊎ (((one_window.memory_map 0 0 len h).0 ≢ uintptr_max)
        × (window_of (one_window.memory_map 0 0 len h).0 h ≡ none)
        × ((i : ℕ)
            → window_of i (one_window.memory_map 0 0 len h).1
              ≡ updated (one_window.memory_map 0 0 len h).0 (some len) (λ j. window_of j h) i))

unmap_window :
    (iova size i : ℕ) (h : Iommu)
    → window_of iova h ≡ some size
    → window_of i (one_window.memory_unmap iova size h) ≡ updated iova none (λ j. window_of j h) i
unmap_window iova size i h w = elim (Bool-cases (iova == 4096)) [
  | inl at ↦ ground arith
  | inr off ↦ absurd (ground arith)
]

unmap_translations :
    (b : Bool) (h : Iommu)
    → (if b then record h { slot = none } else h).translations ≡ h.translations
unmap_translations true h = refl
unmap_translations false h = refl

map_law :
    (len : ℕ) (translations : ℕ → Option (ℕ × ℕ)) (slot : Option ℕ)
    → MapLaw len (record { slot = slot; translations = translations })
map_law len translations none = inr (omega arith, refl, λ i. grind arith)
map_law len translations (some n) = inl (refl, λ i. refl)

same_translation :
    (len to : ℕ) (translations : ℕ → Option (ℕ × ℕ)) (slot : Option ℕ)
    → one_window.get_translation 0 to
        (one_window.memory_map 0 0 len (record { slot = slot; translations = translations })).1
      ≡ translations to
same_translation len to translations none = refl
same_translation len to translations (some n) = refl

abbrev one_window-laws : DriverLaws one_window
one_window-laws = record {
  window = window_of;
  map-window = λ base iova len h. map_law len h.translations h.slot;
  map-translation = λ base iova len from to h. same_translation len to h.translations h.slot;
  unmap-window = unmap_window;
  unmap-translation = λ iova size from to h. ap (λ f. f to) (unmap_translations (iova == 4096) h);
  create-window = λ src dest size from to i h. refl;
  create-translation = λ src size from to i h new. refl;
}

abbrev block : MemoryBlock
block = record { addr_space_id = 7; size = 8192 }

-- A card on whose IOMMU nothing is mapped.
abbrev fresh_card : Card Iommu ℕ
fresh_card = record {
  hw = record { slot = none; translations = λ space. none };
  addr_space_id_device_to_host = 1;
  ips = 5 ∷ 6 ∷ [];
  memory_blocks_mapped = [];
}

-- The same card with one block mapped.
abbrev mapped_card : Card Iommu ℕ
mapped_card = record fresh_card {
  hw = record { slot = some 8192; translations = updated 7 (some (4096, 8192)) (λ space. none) };
  memory_blocks_mapped = (7, block) ∷ [];
}

test_map : map_memory_block one_window block fresh_card ≡ returned true mapped_card
unfolding map_memory_block ◌>>=◌
test_map = refl

fresh_card-Owns : Owns one_window one_window-laws fresh_card
fresh_card-Owns = record {
  distinct = tt;
  owned = record {
    owned = λ space block e. absurd cc;
    every = λ iova size e. absurd (ground arith);
    apart = λ iova size size' space space' b b' m m' t t'. absurd cc;
  };
}

map_memory_block-Owns_example :
    Ensures
      (λ b card.
        Owns one_window one_window-laws card
        × (b ≡ true → Mapped one_window one_window-laws 7 card))
      (λ e. Owns one_window one_window-laws)
      (map_memory_block one_window block fresh_card)
map_memory_block-Owns_example =
    (map_memory_block-Owns one_window one_window-laws block).at fresh_card
      (fresh_card-Owns, λ e. refl)

mapped_card-Owns : Owns one_window one_window-laws mapped_card
mapped_card-Owns =
    (subst
      (Ensures
        (λ b card.
          Owns one_window one_window-laws card
          × (b ≡ true → Mapped one_window one_window-laws 7 card))
        (λ e. Owns one_window one_window-laws))
      test_map
      ((map_memory_block-Owns one_window one_window-laws block).at fresh_card
        (fresh_card-Owns, λ e. refl))).0

test_unmap :
    unmap_memory_block one_window block mapped_card
    ≡ returned true (record fresh_card {
      hw = record { slot = none; translations = mapped_card.hw.translations };
    })
unfolding unmap_memory_block ◌>>=◌ ℕ_discrete
test_unmap = refl

test_unmap_unknown :
    unmap_memory_block one_window block fresh_card ≡ threw plain_exception fresh_card
unfolding unmap_memory_block ◌>>=◌ ℕ_discrete
test_unmap_unknown = refl

unmap_memory_block-Owns_example :
    Ensures
      (Unmapped one_window one_window-laws block mapped_card)
      (Refused one_window one_window-laws block mapped_card)
      (unmap_memory_block one_window block mapped_card)
unmap_memory_block-Owns_example =
    unmap_memory_block-Owns one_window one_window-laws block mapped_card mapped_card-Owns

-- IPs that only answer.
abbrev idle : IpMethods Iommu ℕ
idle = record { stop = λ ip. pure true; release = λ ip. pure tt }

idle-laws : IpLaws one_window one_window-laws idle
idle-laws = record {
  stop-Owns = λ ip. Spec-pure true (λ card o. o);
  release-Owns = λ ip. Spec-pure tt (λ card o. o);
}

destroy-Closed_example :
    Ensures
      (λ _. Closed one_window one_window-laws idle)
      (λ e card. ⊥)
      (destroy idle one_window mapped_card)
destroy-Closed_example =
    (destroy-Closed one_window one_window-laws idle idle-laws).at mapped_card mapped_card-Owns
