-- ===== src/Registers/Memory.antt =====
-- Register::check of lib/ips/register.cpp.
use fpga.Prelude.{
  ℕ, zero, suc, ◌+◌, ◌<◌, ◌≤◌, Bool, true, false, not, ◌==◌, ltb, if◌then◌else◌, ◌≡◌, refl, ap, ◌↔◌,
  Ensures-map, ℕ_discrete, Spec-each, Spec-weaken, Spec-pre, sym, subst, ◌∙◌, M, Error, Option,
  Ensures, Spec, Spec-bind, Spec-pure, Spec-if, Spec-modify, Spec-run, throw, out_of_range, arith,
}
use fpga.Registers.{
  register_num, register_out, Bus, set_register, get_register, reset_all_registers, write_numbers,
  compare_numbers, read_all, configure, check,
}

-- Reading a register changes none. `reads h i` is what register `i` would give.
pub record Quiet {H : Type 0} (bus : Bus H) : Type 0 where
  pub reads : H → ℕ → ℕ
  pub reads-in : (i offset : ℕ) (h : H) → reads (bus.in32 offset h).1 i ≡ reads h i
  pub in-reads : (i : ℕ) (h : H) → i < register_num → (bus.in32 (register_out i) h).0 ≡ reads h i

-- How a call fails: not at all.
abbrev pub FailsNever : {H : Type 0} → Option Error → H → Type 0
FailsNever e h = ⊥

module _ {H : Type 0} (bus : Bus H) (quiet : Quiet bus) where
  -- A call on a register that exists.
  in_bounds :
      {A : Type 0} {P : H → Type 0} {Q : A → H → Type 0} (reg : ℕ) (m : M H A)
      → reg < register_num
      → Spec P m Q FailsNever
      → Spec P (if not (ltb reg register_num) then throw out_of_range else m) Q FailsNever
  in_bounds reg m small h =
      Spec-if (not (ltb reg register_num)) _ _ (λ e. absurd (ground arith)) (λ e. h)

  -- The hardware behind writes of `n` numbers, from `i` on, each to the register with that number.
  abbrev pub written : ℕ → ℕ → H → H
  written zero i h = h
  written (suc n) i h = written n (suc i) (bus.out32 (register_out i) i h)

  -- `n` registers, from `i` on, give their numbers.
  abbrev pub Numbered : ℕ → ℕ → H → Type 0
  Numbered n i h = (j : ℕ) → i ≤ j → j < i + n → quiet.reads h j ≡ j

  write_numbers-written :
      (n i : ℕ) (h : H)
      → i + n ≤ register_num
      → Spec (λ s. s ≡ h) (write_numbers bus n i) (λ _ s. s ≡ written n i h) FailsNever
  unfolding write_numbers set_register
  write_numbers-written zero i h fits = Spec-pure tt λ s e. e
  write_numbers-written (suc n) i h fits =
      Spec-bind _ _
        (in_bounds i _ (omega arith) (
          Spec-modify _ {Q = λ _ s. s ≡ bus.out32 (register_out i) i h}
            λ s e. ap (bus.out32 (register_out i) i) e))
        λ _. write_numbers-written n (suc i) (bus.out32 (register_out i) i h) (omega arith)

  -- The registers give what they give at `h`.
  abbrev Same : H → H → Type 0
  Same h s = (j : ℕ) → quiet.reads s j ≡ quiet.reads h j

  compare_numbers-Numbered :
      (n i : ℕ) (h : H)
      → i + n ≤ register_num
      → Spec (Same h) (compare_numbers bus n i) (λ ok _. (ok ≡ true) ↔ Numbered n i h) FailsNever
  unfolding compare_numbers get_register
  compare_numbers-Numbered zero i h fits =
      Spec-pure true λ s p. (λ _ j l u. absurd (omega arith), λ _. refl)
  compare_numbers-Numbered (suc n) i h fits =
      Spec-bind _ _
        (in_bounds i _ (omega arith) (
          Spec-run _ {Q = λ buf s. (buf ≡ quiet.reads h i) × Same h s}
            λ s p. (quiet.in-reads i s (omega arith) ∙ p i, λ j. quiet.reads-in j _ s ∙ p j)))
        λ buf.
          Spec-if (buf == i) _ _
            (λ e. record {
              at = λ s p.
                  Ensures-map {S = H} {X = FailsNever} (compare_numbers bus n (suc i) s)
                    (λ ok _ rest. more ok (sym p.0 ∙ ==→≡ buf i e) rest) (λ _ _ bad. bad)
                    ((compare_numbers-Numbered n (suc i) h (omega arith)).at s p.1);
            })
            (λ e. Spec-pure false λ s p. (
              λ bad. absurd cc,
              λ all. absurd (differs buf (p.0 ∙ all i (omega arith) (omega arith)) e),
            ))
    where
      ==→≡ : (a b : ℕ) → a == b ≡ true → a ≡ b
      ==→≡ a b e = ground arith

      differs : (buf : ℕ) → buf ≡ i → buf == i ≡ false → ⊥
      differs buf e ne = ground arith

      more :
          (ok : Bool)
          → quiet.reads h i ≡ i
          → (ok ≡ true) ↔ Numbered n (suc i) h
          → (ok ≡ true) ↔ Numbered (suc n) i h
      more ok here (to, from) = (
        λ e j l u. elim (ℕ_discrete i j) [
          | yes same ↦ subst (λ k. quiet.reads h k ≡ k) same here
          | no other ↦ to e j (omega arith) (omega arith)
        ],
        λ all. from (λ j l u. all j (omega arith) (omega arith)),
      )

  -- Of registers that exist, any state will do.
  any_get :
      {P : H → Type 0} (reg : ℕ)
      → reg < register_num
      → Spec P (get_register bus reg) (λ _ _. Unit {0}) FailsNever
  unfolding get_register
  any_get reg small = in_bounds reg _ small (Spec-run _ λ h p. tt)

  any_set :
      {P : H → Type 0} (reg value : ℕ)
      → reg < register_num
      → Spec P (set_register bus reg value) (λ _ _. Unit {0}) FailsNever
  unfolding set_register
  any_set reg value small = in_bounds reg _ small (Spec-modify _ λ h p. tt)

  read_all-Reads :
      (n i : ℕ)
      → i + n ≤ register_num
      → Spec (λ (h : H). Unit {0}) (read_all bus n i) (λ _ _. Unit {0}) FailsNever
  unfolding read_all
  read_all-Reads zero i fits = Spec-pure tt λ h p. tt
  read_all-Reads (suc n) i fits =
      Spec-bind _ _ (any_get i (omega arith)) λ _. read_all-Reads n (suc i) (omega arith)

  configure-true :
      {P : H → Type 0} (scale offset : ℕ)
      → Spec P (configure bus scale offset) (λ ok _. ok ≡ true) FailsNever
  unfolding configure reset_all_registers
  configure-true scale offset = Spec-bind _ _ (Spec-modify _ {Q = λ _ _. Unit {0}} λ h p. tt) λ _.
      Spec-bind _ _ (read_all-Reads register_num 0 (omega arith)) λ _.
        Spec-bind _ _ (any_set 0 100000 (omega arith)) λ _.
          Spec-bind _ _ (any_set 1 scale (omega arith)) λ _.
            Spec-bind _ _ (any_set 2 offset (omega arith)) λ _.
              Spec-bind _ _ (any_get 0 (omega arith)) λ _.
                Spec-bind _ _ (any_get 1 (omega arith))
                  λ _. Spec-bind _ _ (any_get 2 (omega arith)) λ _. Spec-pure true λ h p. refl

  always_checks :
      (scale offset : ℕ) (h : H)
      → Spec
          (λ s. s ≡ h)
          (check bus scale offset)
          (λ ok _. (ok ≡ true) ↔ Numbered 7 1 (written 7 1 h))
          FailsNever
  unfolding check
  always_checks scale offset h = Spec-bind _ _ (write_numbers-written 7 1 h (omega arith)) λ _.
      Spec-bind _ _
        (Spec-pre (compare_numbers-Numbered 7 1 (written 7 1 h) (omega arith))
          λ s e j. ap (λ t. quiet.reads t j) e)
        λ same.
          Spec-if same _ _
            (λ e. Spec-each λ s0 iff.
              Spec-weaken (configure-true {P = λ s. s ≡ s0} scale offset) (λ s p. p)
                (λ ok s done. (λ _. iff.0 e, λ _. done)) (λ _ _ bad. bad))
            (λ e. Spec-pure false λ s iff. (λ bad. absurd cc, λ all. absurd (cc (iff.1 all, e))))

  -- Over a bus where reading a register changes none, `check` comes back without an exception, and it
  -- returns true exactly where each register from 1 to 7 gives its number once the seven
  -- numbers are written.
  pub check-Numbered :
      (scale offset : ℕ) (h : H)
      → Ensures
          (λ ok _. (ok ≡ true) ↔ Numbered 7 1 (written 7 1 h))
          FailsNever
          (check bus scale offset h)
  check-Numbered scale offset h = (always_checks scale offset h).at h refl
