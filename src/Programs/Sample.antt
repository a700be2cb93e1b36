-- ===== src/Programs/Sample.antt =====
-- One call of format, of the formatters of include/villas/fpga/utils.hpp.
use fpga.Prelude.{
  ℕ, zero, suc, ◌+◌, ◌*◌, ◌%◌, ◌≤◌, ◌<◌, false, ◌||◌, List, [], ◌∷◌, ◌++◌, if◌then◌else◌, ltb, ◌≡◌,
  refl, ap, ◌∙◌, arith, Text, length, take, M, returned, threw, stuck, Outcome, pure, throw, modify,
  gets, ◌>>=◌, runtime_error,
}
use fpga.Programs.Formatter.{
  Formatter, Printf, short_size, long_size, overlay, write_at, print_sample, format_text,
  format_short, format_long,
}

-- The formatter behind a text that fits into a sample, and with a counter.
abbrev pub advanced : Text → ℕ → Formatter → Formatter
advanced text count f =
    let written = take f.buf_sample_size text ++ (0 ∷ []) in
    record f {
      buf = write_at (f.current_buf_loc * f.buf_sample_size) written f.buf;
      current_buf_loc = f.current_buf_loc + 1;
      sample_cnt = count;
      overrun =
          f.overrun || ltb (length f.buf) (f.current_buf_loc * f.buf_sample_size + length written);
    }

-- The long formatter's counter goes back to 0 at this number.
abbrev pub counter_end : ℕ
counter_end = 100000

-- A format that prints texts of 1 to `size` characters, of values that are `good`.
pub record Prints {F : Type 0} (size : ℕ) (good : F → Type 0) (format : F → M Formatter (Unit {0}))
    : Type 0 where
  pub text : F → Formatter → Text
  pub count : Formatter → ℕ
  pub counts : (f : Formatter) → count f < counter_end
  pub fits :
      (v : F) (f : Formatter)
      → good v
      → f.sample_cnt < counter_end
      → (1 ≤ length (text v f)) × (length (text v f) ≤ size)
  pub prints :
      (v : F) (f : Formatter)
      → good v
      → f.sample_cnt < counter_end
      → f.buf_sample_size ≡ size
      → format v f ≡ returned tt (advanced (text v f) (count f) f)

-- Both texts of a float have at least one character, and at most as many as a sample, the long one with any
-- counter that the formatter counts to.
abbrev pub Fits : {F : Type 0} → Printf F → F → Type 0
Fits printf v =
    ((1 ≤ length (printf.short v)) × (length (printf.short v) ≤ short_size))
    × ((count : ℕ)
        → count < counter_end
        → (1 ≤ length (printf.long count v)) × (length (printf.long count v) ≤ long_size))

-- A property of each value.
abbrev pub Each : {F : Type 0} → (F → Type 0) → List F → Type 0
Each P [] = Unit {0}
Each P (v ∷ values) = P v × Each P values

pub fits_test : (size chars : ℕ) → chars ≤ size → ltb size chars ≡ false
fits_test size chars h = ground arith

pub format_text-advanced :
    (text : Text) (f : Formatter)
    → length text ≤ f.buf_sample_size
    → format_text text f ≡ returned tt (advanced text f.sample_cnt f)
unfolding format_text print_sample modify gets pure throw ◌>>=◌
format_text-advanced text f h =
    ap (λ b. (if b then throw runtime_error else pure tt) (advanced text f.sample_cnt f))
      (fits_test f.buf_sample_size (length text) h)

module _ {F : Type 0} (printf : Printf F) where
  pub short-Prints :
      Prints short_size
        (λ v. (1 ≤ length (printf.short v)) × (length (printf.short v) ≤ short_size))
        (format_short printf)
  unfolding format_short
  short-Prints = record {
    text = λ v f. printf.short v;
    count = λ f. f.sample_cnt % counter_end;
    counts = λ f. omega arith;
    fits = λ v f good small. good;
    prints = λ v f good small e.
        format_text-advanced (printf.short v) f (omega (arith, good.1))
        ∙ ap (λ n. returned tt (advanced (printf.short v) n f)) (omega arith);
  }

  pub long-Prints :
      Prints long_size
        (λ v.
          (count : ℕ)
          → count < counter_end
          → (1 ≤ length (printf.long count v)) × (length (printf.long count v) ≤ long_size))
        (format_long printf)
  unfolding format_long modify gets ◌>>=◌
  long-Prints = record {
    text = λ v f. printf.long f.sample_cnt v;
    count = λ f. (f.sample_cnt + 1) % counter_end;
    counts = λ f. omega arith;
    fits = λ v f good small. good f.sample_cnt small;
    prints = λ v f good small e.
        ap
          (λ (o : Outcome Formatter (Unit {0})). elim o [
            | returned a f' ↦ returned tt (record f' { sample_cnt = (f'.sample_cnt + 1) % 100000 })
            | threw x f' ↦ threw x f'
            | stuck f' ↦ stuck f'
          ])
          (format_text-advanced (printf.long f.sample_cnt v) f
            (omega (arith, (good f.sample_cnt small).1)));
  }

  pub long-Prints-text : (v : F) (f : Formatter) → long-Prints.text v f ≡ printf.long f.sample_cnt v
  unfolding long-Prints
  long-Prints-text v f = refl

length-overlay : (text : Text) (buf : List ℕ) → length (overlay text buf) ≡ length buf
length-overlay [] buf = refl
length-overlay (c ∷ text) [] = refl
length-overlay (c ∷ text) (b ∷ buf) = omega (arith, length-overlay text buf)

pub length-write_at :
    (i : ℕ) (text : Text) (buf : List ℕ) → length (write_at i text buf) ≡ length buf
length-write_at zero text buf = length-overlay text buf
length-write_at (suc i) text [] = refl
length-write_at (suc i) text (b ∷ buf) = omega (arith, length-write_at i text buf)

pub take-all : (n : ℕ) (text : Text) → length text ≤ n → take n text ≡ text
take-all zero [] h = refl
take-all zero (c ∷ text) h = absurd (omega arith)
take-all (suc n) [] h = refl
take-all (suc n) (c ∷ text) h = ap (λ t. c ∷ t) (take-all n text (omega arith))
