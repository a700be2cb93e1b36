-- ===== src/Programs/Bounds.antt =====
-- Where the formatters of include/villas/fpga/utils.hpp write in their buffer.
use fpga.Prelude.{
  ℕ, zero, suc, ◌+◌, ◌*◌, ◌≤◌, ◌<◌, Bool, true, false, ◌||◌, List, [], ◌∷◌, ◌++◌, Option, some,
  if◌then◌else◌, ltb, ◌≡◌, refl, sym, ap, ap₂, ◌∙◌, arith, Text, codes, text_eq, length,
  length-append, take, replicate, M, Ensures, Error, returned, threw, stuck, Outcome, pure, throw,
  ◌>>=◌, inl, inr, Bool-cases, runtime_error, ltb→lt, lt→ltb,
}
use native.Mathlib.Nat.{mul-le-mul_right, add-mul}
use fpga.Programs.Formatter.{
  Formatter, Printf, new_formatter, short_size, long_size, format_short, format_long,
  get_buffered_sample_formatter, format_all,
}
use fpga.Programs.Sample.{
  Each, advanced, Prints, Fits, counter_end, fits_test, short-Prints, long-Prints, length-write_at,
  take-all,
}

length-replicate : (n a : ℕ) → length (replicate n a) ≡ n
length-replicate zero a = refl
length-replicate (suc n) a = ap suc (length-replicate n a)

not_below : (n samples : ℕ) → ltb n samples ≡ false → samples ≤ n
not_below n samples full = ground arith

or-true : (b : Bool) → (b || true) ≡ true
or-true true = refl
or-true false = refl

-- One more sample: it leaves the buffer where no place for a sample is left.
overrun_step :
    (samples n size chars : ℕ)
    → 1 ≤ chars
    → chars ≤ size
    → (ltb samples n || ltb (samples * size + 1) (n * size + (chars + 1))) ≡ ltb samples (n + 1)
overrun_step samples n size chars some_chars fit = elim (Bool-cases (ltb n samples)) [
  | inl room ↦
      let below : (n + 1) * size ≤ samples * size =
        mul-le-mul_right size (omega (arith, ltb→lt n samples room)) in
      ap₂ (λ a b. a || b) (fits_test samples n (omega (arith, ltb→lt n samples room)))
        (fits_test (samples * size + 1) (n * size + (chars + 1))
          (omega (arith, below, add-mul n 1 size)))
      ∙ sym (fits_test samples (n + 1) (omega (arith, ltb→lt n samples room)))
  | inr full ↦
      let above : samples * size ≤ n * size = mul-le-mul_right size (not_below n samples full) in
      ap (λ b. ltb samples n || b)
        (lt→ltb (samples * size + 1) (n * size + (chars + 1)) (omega (arith, above)))
      ∙ (or-true (ltb samples n)
          ∙ sym (lt→ltb samples (n + 1) (omega (arith, not_below n samples full))))
]

module _ {F : Type 0} (size samples : ℕ) {good : F → Type 0} {format : F → M Formatter (Unit {0})}
    (p : Prints size good format) where
  -- The formatter has taken `n` values.
  abbrev Taken : ℕ → Formatter → Type 0
  Taken n f =
      (f.buf_sample_size ≡ size)
      × (length f.buf ≡ samples * size + 1)
      × (f.current_buf_loc ≡ n)
      × (f.overrun ≡ ltb samples n)
      × (f.sample_cnt < counter_end)

  Taken-step :
      (n : ℕ) (v : F) (f : Formatter)
      → good v
      → Taken n f
      → (f' : Formatter) × (format v f ≡ returned tt f') × Taken (n + 1) f'
  Taken-step n v f ok (e, len, at, over, small) = (
    advanced (p.text v f) (p.count f) f,
    p.prints v f ok small e,
    (
      e,
      length-write_at (f.current_buf_loc * f.buf_sample_size)
            (take f.buf_sample_size (p.text v f) ++ (0 ∷ [])) f.buf
          ∙ len,
      omega arith,
      over',
      p.counts f,
    ),
  )
    where
      written : length (take f.buf_sample_size (p.text v f) ++ (0 ∷ [])) ≡ length (p.text v f) + 1
      written =
          length-append (take f.buf_sample_size (p.text v f)) (0 ∷ [])
          ∙ ap (λ t. length t + 1)
              (take-all f.buf_sample_size (p.text v f) (omega (arith, (p.fits v f ok small).1)))

      places : f.current_buf_loc * f.buf_sample_size ≡ n * size
      places = ap₂ (λ a b. a * b) at e

      over' : (advanced (p.text v f) (p.count f) f).overrun ≡ ltb samples (n + 1)
      over' =
          ap₂ (λ a b. a || b) over (ap₂ (λ a b. ltb a b) len (ap₂ (λ a b. a + b) places written))
          ∙ overrun_step samples n size (length (p.text v f)) (p.fits v f ok small).0
              (p.fits v f ok small).1

  pub format_all-Taken :
      (n : ℕ) (values : List F) (f : Formatter)
      → Each good values
      → Taken n f
      → (f' : Formatter) × (format_all format values f ≡ returned tt f')
        × (f'.overrun ≡ ltb samples (n + length values))
  unfolding format_all pure ◌>>=◌
  format_all-Taken n [] f ok t = (f, refl, t.3 ∙ ap (λ k. ltb samples k) (omega arith))
  format_all-Taken n (v ∷ values) f ok t =
      let (g, e, t') = Taken-step n v f ok.0 t in
      let (h, e', o) = format_all-Taken (n + 1) values g ok.1 t' in
      (
        h,
        ap
              (λ (o : Outcome Formatter (Unit {0})). elim o [
                | returned a f' ↦ format_all format values f'
                | threw x f' ↦ threw x f'
                | stuck f' ↦ stuck f'
              ])
              e
            ∙ e',
        o ∙ ap (λ k. ltb samples k) (omega arith),
      )

-- All values are formatted, and outside the buffer exactly where there are more than `samples`.
abbrev pub Formats : {F : Type 0} → ℕ → List F → Formatter × (F → M Formatter (Unit {0})) → Type 0
Formats samples values made =
    (f : Formatter) × (format_all made.1 values made.0 ≡ returned tt f)
    × (f.overrun ≡ ltb samples (length values))

-- The exception for a format that is not known.
abbrev pub Unknown : Text → Option Error → Type 0
Unknown format e =
    (e ≡ some runtime_error)
    × (text_eq format (codes "long") ≡ false)
    × (text_eq format (codes "short") ≡ false)

Each-map :
    {F : Type 0} {P Q : F → Type 0} (values : List F)
    → ((v : F) → P v → Q v)
    → Each P values
    → Each Q values
Each-map [] f all = tt
Each-map (v ∷ values) f all = (f v all.0, Each-map values f all.1)

module _ {F : Type 0} (printf : Printf F) where
  -- Where both texts of each of the values have at least one character and not more than a sample has, the long one
  -- with any counter below 100000, `get_buffered_sample_formatter` throws runtime_error for a format other
  -- than "long" and "short", and otherwise makes a formatter that formats the values without an exception,
  -- and that writes outside its buffer exactly where there are more values than it was made for.
  pub format_all-overrun :
      {S : Type 0} (format : Text) (samples : ℕ) (values : List F) (s : S)
      → Each (Fits printf) values
      → Ensures
          (λ made _. Formats samples values made)
          (λ e _. Unknown format e)
          (get_buffered_sample_formatter printf format samples s)
  unfolding get_buffered_sample_formatter pure throw
  format_all-overrun format samples values s fits =
      answer (text_eq format (codes "long")) refl (text_eq format (codes "short")) refl
    where
      fresh : (size : ℕ) → length {A = ℕ} (replicate (samples * size + 1) 0) ≡ samples * size + 1
      fresh size = length-replicate (samples * size + 1) 0

      made :
          (size : ℕ) {good : F → Type 0} {fmt : F → M Formatter (Unit {0})}
          → Prints size good fmt
          → Each good values
          → Formats samples values (new_formatter samples size, fmt)
      made size p ok =
          let (f, e, o) =
            format_all-Taken size samples p 0 values (new_formatter samples size) ok
              (refl, fresh size, refl, sym (fits_test samples 0 (omega arith)), omega arith) in
          (f, e, o ∙ ap (λ k. ltb samples k) (omega arith))

      answer :
          (long : Bool)
          → text_eq format (codes "long") ≡ long
          → (short : Bool) → text_eq format (codes "short") ≡ short
          → Ensures {A = Formatter × (F → M Formatter (Unit {0}))}
              (λ made _. Formats samples values made)
              (λ e _. Unknown format e)
              ((if long
                  then pure (new_formatter samples long_size, format_long printf)
                  else (if short
                      then pure (new_formatter samples short_size, format_short printf)
                      else throw runtime_error))
                s)
      answer true l short e =
          made long_size (long-Prints printf) (Each-map values (λ v h. h.1) fits)
      answer false l true e =
          made short_size (short-Prints printf) (Each-map values (λ v h. h.0) fits)
      answer false l false e = (refl, l, e)
