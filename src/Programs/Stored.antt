-- ===== src/Programs/Stored.antt =====
-- What the loop over the values of a line leaves in the block, in src/villas-fpga-ctrl.cpp and
-- src/villas-fpga-pipe.cpp.
use fpga.Prelude.{
  ℕ, zero, suc, ◌+◌, ◌-◌, ◌<◌, Bool, true, false, ◌&&◌, ◌||◌, List, [], ◌∷◌, some, if◌then◌else◌,
  ltb, leb, ◌==◌, ◌≡◌, ◌⊎◌, inl, inr, refl, ap, ◌∙◌, arith, Text, length, get_elem?, set, Error,
  Outcome, returned, threw, pure, throw, modify, ◌>>=◌, ◌>>◌,
}
use fpga.Programs.Transfers.{Values, with_number, store_at, store_values}

-- The numbers of the texts that are not empty, or the exception of the first that is none.
abbrev pub numbers : {F : Type 0} → (Text → F ⊎ Error) → List Text → List F ⊎ Error
numbers parse [] = inl []
numbers parse ([] ∷ texts) = numbers parse texts
numbers parse ((c ∷ cs) ∷ texts) = elim (parse (c ∷ cs)) [
  | inr e ↦ inr e
  | inl x ↦ elim (numbers parse texts) [ inl xs ↦ inl (x ∷ xs) | inr e ↦ inr e ]
]

-- `xs` stands in the block from `i` on, as far as the block goes; else it is as in `old`.
abbrev pub Placed : {F : Type 0} → ℕ → List F → List F → List F → Type 0
Placed i xs old mem =
    (length mem ≡ length old)
    × ((j : ℕ)
        → j < length old
        → get_elem? mem j
          ≡ (if leb i j && ltb j (i + length xs) then get_elem? xs (j - i) else get_elem? old j))

-- How the loop ends, from the numbers and a block.
abbrev pub Stored : {F : Type 0} → ℕ → Values F → List F ⊎ Error → Outcome (Values F) ℕ → Type 0
Stored {F} i v (inl xs) o =
    (v' : Values F) × (o ≡ returned (i + length xs) v')
    × Placed i xs v.mem v'.mem
    × (v'.overrun ≡ (v.overrun || (ltb i (i + length xs) && ltb (length v.mem) (i + length xs))))
Stored {F} i v (inr e) o = (v' : Values F) × (o ≡ threw e v')

length-set : {F : Type 0} (mem : List F) (i : ℕ) (x : F) → length (set mem i x) ≡ length mem
length-set [] i x = refl
length-set (y ∷ mem) zero x = refl
length-set (y ∷ mem) (suc i) x = ap suc (length-set mem i x)

get_elem?-set :
    {F : Type 0} (mem : List F) (i j : ℕ) (x : F)
    → j < length mem
    → get_elem? (set mem i x) j ≡ (if leb i j && leb j i then some x else get_elem? mem j)
get_elem?-set [] i j x h = absurd (omega arith)
get_elem?-set (y ∷ mem) zero zero x h = refl
get_elem?-set (y ∷ mem) zero (suc j) x h = ground arith
get_elem?-set (y ∷ mem) (suc i) zero x h = ground arith
get_elem?-set (y ∷ mem) (suc i) (suc j) x h = get_elem?-set mem i j x (omega arith) ∙ ground arith

get_elem?-cons :
    {F : Type 0} (x : F) (xs : List F) (k : ℕ)
    → get_elem? (x ∷ xs) k ≡ (if k == 0 then some x else get_elem? xs (k - 1))
get_elem?-cons x xs zero = refl
get_elem?-cons x xs (suc k) = ground arith

-- One number more in front.
Placed-step :
    {F : Type 0} (i : ℕ) (x : F) (xs old mem : List F)
    → Placed (i + 1) xs (set old i x) mem
    → Placed i (x ∷ xs) old mem
Placed-step i x xs old mem (len, at) = (
  len ∙ length-set old i x,
  λ j h.
      at j (omega (arith, length-set old i x))
      ∙ here j (get_elem?-set old i j x h) (get_elem?-cons x xs (j - i))
          (ap (get_elem? xs) (omega arith)),
)
  where
    here :
        (j : ℕ)
        → get_elem? (set old i x) j ≡ (if leb i j && leb j i then some x else get_elem? old j)
        → get_elem? (x ∷ xs) (j - i) ≡ (if (j - i) == 0 then some x else get_elem? xs (j - i - 1))
        → get_elem? xs (j - (i + 1)) ≡ get_elem? xs (j - i - 1)
        → (if leb (i + 1) j && ltb j (i + 1 + length xs)
            then get_elem? xs (j - (i + 1))
            else get_elem? (set old i x) j)
          ≡ (if leb i j && ltb j (i + suc (length xs))
              then get_elem? (x ∷ xs) (j - i)
              else get_elem? old j)
    here j a b c = ground arith

overrun_step :
    (o : Bool) (i n size : ℕ)
    → ((o || leb size i) || (ltb (i + 1) (i + 1 + n) && ltb size (i + 1 + n)))
      ≡ (o || (ltb i (i + suc n) && ltb size (i + suc n)))
overrun_step true i n size = refl
overrun_step false i n size = ground arith

-- From any place of a block of any length, and any texts: where every text that is not empty is a number,
-- `store_values` answers the place behind them all, has put them into the block in their order from its
-- first place on, has left the rest of the block, and has left the block itself exactly where the numbers
-- go beyond its end. Otherwise it throws the exception of the first text that is no number.
pub store_values-Stored :
    {F : Type 0} (parse : Text → F ⊎ Error) (texts : List Text) (i : ℕ) (v : Values F)
    → Stored i v (numbers parse texts) (store_values parse texts i v)
unfolding store_values modify throw pure ◌>>=◌
store_values-Stored parse [] i v =
    (v, ap (λ k. returned k v) (omega arith), (refl, λ j h. ground arith), ground arith)
store_values-Stored parse ([] ∷ texts) i v = store_values-Stored parse texts i v
store_values-Stored {F} parse ((c ∷ cs) ∷ texts) i v =
    stored (parse (c ∷ cs)) λ x. store_values-Stored parse texts (i + 1) (after x)
  where
    after : F → Values F
    after x = record { mem = set v.mem i x; overrun = v.overrun || leb (length v.mem) i }

    longer :
        (x : F) (r : List F ⊎ Error) (o : Outcome (Values F) ℕ)
        → Stored (i + 1) (after x) r o
        → Stored i v (elim r [ inl xs ↦ inl (x ∷ xs) | inr e ↦ inr e ]) o
    longer x (inl xs) o (v', e, placed, over) = (
      v',
      e ∙ ap (λ k. returned k v') (omega arith),
      Placed-step i x xs v.mem v'.mem placed,
      over
          ∙ (ap
                (λ n.
                  (v.overrun || leb (length v.mem) i)
                  || (ltb (i + 1) (i + 1 + length xs) && ltb n (i + 1 + length xs)))
                (length-set v.mem i x)
              ∙ overrun_step v.overrun i (length xs) (length v.mem)),
    )
    longer x (inr e) o h = h

    stored :
        (r : F ⊎ Error)
        → ((x : F)
            → Stored
                (i + 1)
                (after x)
                (numbers parse texts)
                (store_values parse texts (i + 1) (after x)))
        → Stored i v
            (elim r [
              | inr e ↦ inr e
              | inl x ↦ elim (numbers parse texts) [ inl xs ↦ inl (x ∷ xs) | inr e ↦ inr e ]
            ])
            (with_number r (λ x. modify (store_at i x) >> store_values parse texts (i + 1)) v)
    stored (inr e) rest = (v, refl)
    stored (inl x) rest = longer x (numbers parse texts) _ (rest x)
