-- ===== src/Gpu/Calls.antt =====
-- The calls of gpu/src/gpu.cpp that come back whatever the hardware does.
use fpga.Prelude.{
  ℕ, true, false, not, List, [], ◌∷◌, Option, none, some, ◌==◌, ◌≢◌, M, Outcome, Ensures, Spec,
  Spec-bind, Spec-run, Spec-pure, Spec-if, Spec-modify, Spec-weaken, Spec-option, gets-keeps,
  returned, threw, stuck, pure, run, modify, gets, out_of_range,
}
use fpga.Gpu.{
  Block, Platform, Gpu, required, add_bus_mapping, map_dma, map_pinned, pin_and_map,
  make_accessible_to_pcie_and_va,
}
use fpga.Gpu.Allocator.{owning}

abbrev pub Anywhere : {S : Type 0} → S → Type 0
Anywhere s = Unit

-- A call that comes back, with a result or an exception.
abbrev pub ComesBack : {S A : Type 0} → M S A → Type 0
ComesBack m = Spec Anywhere m (λ _ _. Unit) (λ e _. e ≢ none)

module _ {W : Type 0} where
  pub run-ComesBack : {A : Type 0} (f : W → A × W) → ComesBack (run f)
  run-ComesBack f = Spec-run f λ w u. tt

  pub pure-ComesBack : {A : Type 0} (a : A) → ComesBack {S = W} (pure a)
  pure-ComesBack a = Spec-pure a λ w u. tt

  pub modify-ComesBack : (f : W → W) → ComesBack (modify f)
  modify-ComesBack f = Spec-modify f λ w u. tt

  pub gets-ComesBack : {A : Type 0} (f : W → A) → ComesBack (gets f)
  gets-ComesBack f = Spec-weaken (gets-keeps {P = Anywhere} f) (λ w u. u) (λ a w h. tt) (λ e w h. h)

module _ {W : Type 0} (p : Platform W) (gpu : Gpu) (mem : Block) where
  required-ComesBack : {A : Type 0} (f : W → Option A) → ComesBack (required p f)
  unfolding required
  required-ComesBack {A} f = record { at = λ w u. answer w (f w) }
    where
      answer :
          (w : W) (o : Option A)
          → Ensures
              (λ _ _. Unit {0})
              (λ e (_ : W). e ≢ none)
              (elim o [ none ↦ threw out_of_range w | some a ↦ returned a w ])
      answer w none = λ e. absurd cc
      answer w (some a) = tt

  map_dma-ComesBack : (handle : ℕ) → ComesBack (map_dma p gpu mem handle)
  unfolding map_dma add_bus_mapping
  map_dma-ComesBack handle = Spec-bind _ _ (run-ComesBack _) answer
    where
      answer : (addresses : List ℕ) → ComesBack (add_bus_mapping p gpu mem addresses)
      answer [] = pure-ComesBack false
      answer (a ∷ []) = Spec-bind _ _ (modify-ComesBack _) λ _. pure-ComesBack true
      answer (a ∷ b ∷ others) = pure-ComesBack false

  pub make_accessible_to_pcie_and_va-ComesBack :
      ComesBack (make_accessible_to_pcie_and_va p gpu mem)
  unfolding make_accessible_to_pcie_and_va pin_and_map map_pinned
  make_accessible_to_pcie_and_va-ComesBack =
      Spec-if (not gpu.gdr) _ _ (λ e. pure-ComesBack false)
        λ e. Spec-bind _ _ (gets-ComesBack _) λ hop. Spec-option hop (pure-ComesBack false) λ space.
          Spec-if (space == p.pci_address_space) _ _ (λ e. pure-ComesBack false)
            λ e. Spec-bind _ _ (required-ComesBack _) λ translation.
              Spec-bind _ _ (run-ComesBack _) λ synced.
                Spec-bind _ _ (Spec-if synced _ _ (λ e. run-ComesBack _) (λ e. pure-ComesBack none))
                  λ handle. Spec-option handle (pure-ComesBack false) λ mh.
                    Spec-bind _ _ (run-ComesBack _) λ bar.
                      Spec-option bar (pure-ComesBack false) λ bar_address.
                        Spec-bind _ _ (run-ComesBack _) λ info.
                          Spec-option info (pure-ComesBack false)
                            λ fields. Spec-bind _ _ (modify-ComesBack _) λ _. map_dma-ComesBack mh

pub owning-ComesBack :
    {W A : Type 0} (release : W → W) (m : M W A) → ComesBack m → ComesBack (owning release m)
unfolding owning
owning-ComesBack {W} {A} release m back = record { at = λ w u. answer (m w) (back.at w tt) }
  where
    answer :
        (o : Outcome W A)
        → Ensures (λ _ _. Unit {0}) (λ e (_ : W). e ≢ none) o
        → Ensures
            (λ _ _. Unit {0})
            (λ e (_ : W). e ≢ none)
            (elim o [
              | returned a w' ↦ returned a w'
              | threw e w' ↦ threw e (release w')
              | stuck w' ↦ stuck w'
            ])
    answer (returned a w) h = h
    answer (threw e w) h = h
    answer (stuck w) h = h
