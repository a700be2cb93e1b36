-- ===== src/CInterface/Handles.antt =====
-- What the handles of villasfpga_init are good for.
use fpga.Prelude.{
  ℕ, false, [], ◌∷◌, Option, none, some, ◌≡◌, refl, Text, M, Outcome, returned, threw, stuck, hang,
  ◌>>=◌, Ensures, Spec, Spec-bind, Spec-pure,
}
use fpga.Crossbar.{Crossbar}
use fpga.CInterface.{
  Handle, Memory, DmaMethods, or_null, set_up, villasfpga_init, villasfpga_register,
  villasfpga_read, villasfpga_write, villasfpga_read_complete, villasfpga_write_complete,
}

module _ {H : Type 0} where
  abbrev Always : H → Type 0
  Always h = Unit

  abbrev Anything : {A : Type 0} → A → H → Type 0
  Anything a h = Unit

  any : {A : Type 0} (m : M H A) → Spec Always m Anything Anything
  any {A} m = record { at = λ h _. ends (m h) }
    where
      ends : (o : Outcome H A) → Ensures Anything Anything o
      ends (returned a h) = tt
      ends (threw e h) = tt
      ends (stuck h) = tt

module _ {H : Type 0} (card : Crossbar H) (methods : DmaMethods H) where
  -- Every call of a method of the DMA controller uses a null pointer.
  abbrev pub Unusable : Handle → Type 0
  Unusable handle =
      ((mem : Memory) → villasfpga_register card methods handle mem ≡ hang)
      × ((mem : Memory) (size : ℕ) → villasfpga_read card methods handle mem size ≡ hang)
      × ((mem : Memory) (size : ℕ) → villasfpga_write card methods handle mem size ≡ hang)
      × (villasfpga_read_complete card methods handle ≡ hang)
      × (villasfpga_write_complete card methods handle ≡ hang)

  without_dma : Unusable (record { has_dma = false })
  unfolding villasfpga_register villasfpga_read villasfpga_write villasfpga_read_complete
      villasfpga_write_complete hang ◌>>=◌
  without_dma = (λ mem. refl, λ mem size. refl, λ mem size. refl, refl, refl)

  -- A null pointer, or a handle that is good for nothing.
  abbrev pub NoDma : Option Handle → Type 0
  NoDma none = Unit
  NoDma (some handle) = Unusable handle

  set_up-NoDma : (file : Text) → Spec Always (set_up card methods file) (λ o _. NoDma o) Anything
  unfolding set_up
  set_up-NoDma file = Spec-bind _ _ (any _) λ _. Spec-bind _ _ (any _) λ channels.
      Spec-bind _ _ (any _)
        λ _. Spec-bind _ _ (any _) λ cs. Spec-bind _ _ (any _) λ _. Spec-pure _ (λ h _. without_dma)

  -- villasfpga_init does not throw, and each handle that it gives has no DMA controller: registering,
  -- reading, writing and both completions use a null pointer.
  pub villasfpga_init-NoDma :
      (config_file : Option Text)
      → Spec Always (villasfpga_init card methods config_file) (λ o _. NoDma o) (λ e _. e ≡ none)
  unfolding villasfpga_init or_null
  villasfpga_init-NoDma none = Spec-pure none (λ h _. tt)
  villasfpga_init-NoDma (some []) = Spec-pure none (λ h _. tt)
  villasfpga_init-NoDma (some (c ∷ file)) = record {
    at = λ h _. caught (set_up card methods (c ∷ file) h) ((set_up-NoDma (c ∷ file)).at h tt);
  }
    where
      caught :
          (o : Outcome H (Option Handle))
          → Ensures (λ o _. NoDma o) Anything o
          → Ensures
              (λ o _. NoDma o)
              (λ e _. e ≡ none)
              (elim o [
                | returned a h' ↦ returned a h'
                | threw e h' ↦ returned none h'
                | stuck h' ↦ stuck h'
              ])
      caught (returned a h) e = e
      caught (threw x h) e = tt
      caught (stuck h) e = refl
