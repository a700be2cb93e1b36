-- ===== src/Pcie/Cards.antt =====
-- createCard, createCards and setupFpgaCard of lib/utils.cpp: the cards of a configuration file.
use fpga.Prelude.{
  ℕ, ◌+◌, Bool, false, List, [], ◌∷◌, ◌++◌, Option, none, some, if◌then◌else◌, Text, codes, text_eq,
  M, pure, throw, hang, run, ◌>>=◌, config_error, runtime_error, ◌≡◌, refl, sym, subst, Spec,
  Spec-bind, Spec-pure, Spec-if, Spec-throw, Spec-pre, Spec-each,
}
use fpga.Core.{lookup_by}
use fpga.Pcie.{CardConfig, Platform, make}
use fpga.Pcie.Make.{Anything, NeverReturns, any, make-no_search_path}

-- A card of the section `fpgas`: its name, its interface, where that is a string, and the rest, where
-- the card's factory reads it.
pub record CardEntry : Type 0 where
  pub name : Text
  pub interface : Option Text
  pub config : Option CardConfig

-- A configuration file that is parsed, without a section `fpgas` or with its cards.
pub data ConfigFile : Type 0 where
  no_fpgas : ConfigFile
  fpgas : List CardEntry → ConfigFile

-- std::filesystem and jansson: the directory of a file, `none` being the empty path, and what a file
-- holds, `none` where it cannot be opened or parsed.
pub record Files (H : Type 0) : Type 0 where
  pub parent_path : Text → Option Text
  pub load_config : Text → H → Option ConfigFile × H

module _ {H J : Type 0} (p : Platform H J) (fuel : ℕ) where
  -- createCard: whether it gives a card.
  unfoldable pub create_card : Option Text → CardEntry → M H Bool
  create_card search_path entry = elim entry.interface [
    | none ↦ throw config_error
    | some interface ↦
        if text_eq interface (codes "pcie")
        then make p fuel search_path entry.config
        else throw runtime_error
  ]

  -- The loop of createCards, with the names of the cards so far, and their number.
  unfoldable pub create_all : Option Text → List CardEntry → ℕ → List Text → M H (ℕ × List Text)
  unfolding create_card
  create_all search_path [] num_fpgas cards = pure (num_fpgas, cards)
  create_all search_path (entry ∷ entries) num_fpgas cards = do
    made ← create_card search_path entry
    if made
        then create_all search_path entries (num_fpgas + 1) (cards ++ (entry.name ∷ []))
        else create_all search_path entries num_fpgas cards

  -- createCards; without a section `fpgas` it ends the process.
  unfoldable pub create_cards : Option Text → ConfigFile → M H (ℕ × List Text)
  unfolding create_all
  create_cards search_path no_fpgas = hang
  create_cards search_path (fpgas entries) = create_all search_path entries 0 []

  -- setupFpgaCard, behind the reading of the file
  unfoldable pub set_up_card : Option Text → Text → Option ConfigFile → M H Text
  unfolding create_cards lookup_by
  set_up_card config_dir fpga_name none = throw runtime_error
  set_up_card config_dir fpga_name (some config) = do
    created ← create_cards config_dir config
    elim (lookup_by (λ name. text_eq name fpga_name) created.1) [
      | none ↦ throw runtime_error
      | some card ↦ pure card
    ]

  -- setupFpgaCard
  unfoldable pub setup_fpga_card : Files H → Text → Text → M H Text
  unfolding set_up_card
  setup_fpga_card files config_file fpga_name = do
    loaded ← run (files.load_config config_file)
    set_up_card (files.parent_path config_file) fpga_name loaded

  create_card-none :
      (entry : CardEntry)
      → Spec (λ _. Unit {0}) (create_card none entry) (λ b _. b ≡ false) Anything
  unfolding create_card
  create_card-none entry = of_interface entry.interface
    where
      of_interface :
          (interface : Option Text)
          → Spec
              (λ _. Unit {0})
              (elim interface as (λ _. M H Bool) [
                | none ↦ throw config_error
                | some interface ↦
                    if text_eq interface (codes "pcie")
                    then make p fuel none entry.config
                    else throw runtime_error
              ])
              (λ b _. b ≡ false)
              Anything
      of_interface none = Spec-throw config_error (λ h _. tt)
      of_interface (some interface) =
          Spec-if _ _ _ (λ _. make-no_search_path p fuel entry.config)
            (λ _. Spec-throw runtime_error (λ h _. tt))

  create_all-none :
      (entries : List CardEntry) (num : ℕ)
      → Spec (λ _. Unit {0}) (create_all none entries num []) (λ r _. r.1 ≡ []) Anything
  unfolding create_all
  create_all-none [] num = Spec-pure _ (λ h _. refl)
  create_all-none (entry ∷ entries) num = Spec-bind _ _ (create_card-none entry) λ made.
      Spec-if made _ _ (λ yes_made. Spec-each λ h e. absurd cc)
        (λ _. Spec-pre (create_all-none entries num) (λ _ _. tt))

  create_cards-none :
      (config : ConfigFile)
      → Spec (λ _. Unit {0}) (create_cards none config) (λ r _. r.1 ≡ []) Anything
  unfolding create_cards hang
  create_cards-none no_fpgas = record { at = λ h _. tt }
  create_cards-none (fpgas entries) = create_all-none entries 0

  set_up_card-none :
      (fpga_name : Text) (loaded : Option ConfigFile)
      → NeverReturns (set_up_card none fpga_name loaded)
  unfolding set_up_card lookup_by
  set_up_card-none fpga_name none = Spec-throw runtime_error (λ h _. tt)
  set_up_card-none fpga_name (some config) =
      Spec-bind _ _ (create_cards-none config)
        λ created. Spec-each λ h e. Spec-pre (chosen created.1 e) (λ _ _. tt)
    where
      chosen :
          (cards : List Text)
          → cards ≡ []
          → NeverReturns
              (elim (lookup_by (λ name. text_eq name fpga_name) cards) as (λ _. M H Text) [
                | none ↦ throw runtime_error
                | some card ↦ pure card
              ])
      chosen [] e = Spec-throw runtime_error (λ h _. tt)
      chosen (card ∷ cards) e = absurd cc

  -- A configuration file that is named without a directory gives no card: there is no search path, and
  -- `make` makes none. setupFpgaCard throws, ends the process, or does not come back.
  pub setup_fpga_card-NeverReturns :
      (files : Files H) (config_file fpga_name : Text)
      → files.parent_path config_file ≡ none
      → NeverReturns (setup_fpga_card files config_file fpga_name)
  unfolding setup_fpga_card
  setup_fpga_card-NeverReturns files config_file fpga_name no_directory =
      Spec-bind _ _ (any _) λ loaded.
        subst (λ d. NeverReturns (set_up_card d fpga_name loaded)) (sym no_directory)
          (set_up_card-none fpga_name loaded)
