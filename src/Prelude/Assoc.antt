-- ===== src/Prelude/Assoc.antt =====
-- A std::map: an association list in the order of its keys.
use Prim.Native.Nat.{ℕ}
use mathlib.Core.Path.{◌≡◌, refl}
use mathlib.Core.Bool.{Bool, true, false}
use mathlib.Core.Option.{Option, none, some}
use mathlib.Core.List.{List, [], ◌∷◌}
use native.Mathlib.Decide.{ℕ_discrete}
use native.Mathlib.Omega.{arith}
use fpga.Prelude.Tests.{ltb, ◌==◌, if◌then◌else◌}
use fpga.Prelude.Texts.{Text, Text-discrete}

-- What std::map needs of its keys.
pub record Key (K : Type 0) : Type 0 where
  pub same : Discrete K
  pub before : K → K → Bool

-- The order of std::string, by character codes.
unfoldable pub text_before : Text → Text → Bool
text_before [] [] = false
text_before [] (_ ∷ _) = true
text_before (_ ∷ _) [] = false
text_before (c ∷ s) (d ∷ t) =
    let rest = text_before s t in if ltb c d then true else (if c == d then rest else false)

instance abbrev pub text_key : Key Text
text_key = record { same = Text-discrete; before = text_before }

instance abbrev pub nat_key : Key ℕ
nat_key = record { same = ℕ_discrete; before = ltb }

abbrev pub same_key : {K : Type 0} ⦃k : Key K⦄ → K → K → Bool
same_key ⦃k⦄ a b = elim (k.same a b) [ yes _ ↦ true | no _ ↦ false ]

abbrev pub Map : Type 0 → Type 0 → Type 0
Map K V = List (K × V)

module _ {K V : Type 0} ⦃k : Key K⦄ where
  abbrev pub find : K → Map K V → Option V
  find j [] = none
  find j ((i, v) ∷ m) = if same_key i j then some v else find j m

  -- `map[j] = v`
  abbrev pub assign : K → V → Map K V → Map K V
  assign j v [] = (j, v) ∷ []
  assign j v ((i, w) ∷ m) =
      if same_key i j
      then (i, v) ∷ m
      else (if k.before j i then (j, v) ∷ (i, w) ∷ m else (i, w) ∷ assign j v m)

  abbrev pub erase : K → Map K V → Map K V
  erase j [] = []
  erase j ((i, w) ∷ m) = let rest = erase j m in if same_key i j then rest else (i, w) ∷ rest

  -- `insert` and `emplace` keep an entry that is there.
  abbrev pub insert : K → V → Map K V → Map K V
  insert j v m = elim (find j m) [ none ↦ assign j v m | some _ ↦ m ]

  -- No key stands twice.
  abbrev pub Distinct : Map K V → Type 0
  Distinct [] = Unit
  Distinct ((j, v) ∷ m) = (find j m ≡ none) × Distinct m

  pub find-assign :
      (j i : K) (v : V) (m : Map K V)
      → find i (assign j v m) ≡ (if same_key j i then some v else find i m)
  find-assign j i v [] = refl
  find-assign j i v ((l, w) ∷ m) = ground (arith, find-assign j i v m)

  pub find-erase :
      (j i : K) (m : Map K V) → find i (erase j m) ≡ (if same_key j i then none else find i m)
  find-erase j i [] = ground arith
  find-erase j i ((l, w) ∷ m) = ground (arith, find-erase j i m)

pub same_key_refl : {K : Type 0} ⦃k : Key K⦄ (j : K) → same_key j j ≡ true
same_key_refl j = ground arith

module _ {K V : Type 0} ⦃k : Key K⦄ where
  -- A new key leaves every key standing once.
  pub assign-Distinct :
      (j : K) (v : V) (m : Map K V) → find j m ≡ none → Distinct m → Distinct (assign j v m)
  assign-Distinct j v [] new d = (refl, tt)
  assign-Distinct j v ((l, w) ∷ m) new (fresh, d) =
      go (same_key l j) refl (k.before j l) (λ missing. assign-Distinct j v m missing d)
    where
      go :
          (b : Bool)
          → same_key l j ≡ b
          → (c : Bool) → (find j m ≡ none → Distinct (assign j v m))
          → Distinct
              (if b then (l, v) ∷ m else (if c then (j, v) ∷ (l, w) ∷ m else (l, w) ∷ assign j v m))
      go true e c rest = (fresh, d)
      go false e true rest = (new, (fresh, d))
      go false e false rest = (ground (arith, find-assign j l v m), rest (ground arith))

  pub erase-Distinct : (j : K) (m : Map K V) → Distinct m → Distinct (erase j m)
  erase-Distinct j [] d = tt
  erase-Distinct j ((l, w) ∷ m) (fresh, d) = go (same_key l j) (erase-Distinct j m d)
    where
      lost : find l (erase j m) ≡ none
      lost = ground (arith, find-erase j l m)

      go :
          (b : Bool) → Distinct (erase j m) → Distinct (if b then erase j m else (l, w) ∷ erase j m)
      go true rest = rest
      go false rest = (lost, rest)

  pub find-insert :
      (j i : K) (v : V) (m : Map K V)
      → find j m ≡ none
      → find i (insert j v m) ≡ (if same_key j i then some v else find i m)
  find-insert j i v m new = go (find j m) refl
    where
      go :
          (o : Option V)
          → find j m ≡ o
          → find i (elim o [ none ↦ assign j v m | some _ ↦ m ])
            ≡ (if same_key j i then some v else find i m)
      go none e = find-assign j i v m
      go (some w) e = absurd cc

  pub insert-Distinct : (j : K) (v : V) (m : Map K V) → Distinct m → Distinct (insert j v m)
  insert-Distinct j v m d = go (find j m) refl
    where
      go : (o : Option V) → find j m ≡ o → Distinct (elim o [ none ↦ assign j v m | some _ ↦ m ])
      go none e = assign-Distinct j v m e d
      go (some w) e = d

-- Keys that are numbers are compared with `==`.
pub same_key_nat :
    {A : Type 0} (j i : ℕ) (a b : A) → (if same_key j i then a else b) ≡ (if j == i then a else b)
same_key_nat j i a b = ground arith
