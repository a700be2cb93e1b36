-- ===== src/Programs/PrintedLong.antt =====
-- What the long formatter of include/villas/fpga/utils.hpp prints.
use fpga.Prelude.{
  ℕ, ◌+◌, ◌*◌, ◌≤◌, ◌<◌, List, [], ◌∷◌, ◌++◌, ◌≡◌, refl, sym, ap, ap₂, ◌∙◌, arith, Text, length,
  take, drop, returned, pure,
}
use native.Mathlib.Nat.{mul-le-mul_right}
use fpga.Programs.Formatter.{
  Formatter, Printf, long_size, write_at, format_long, buffered_output, format_all,
}
use fpga.Programs.Sample.{
  Each, advanced, Prints, counter_end, long-Prints, long-Prints-text, length-write_at,
}
use fpga.Programs.Buffer.{NonZero, write_sample, write_at-behind, Clear, buffered_output-prints}
use fpga.Programs.Printed.{then_all}

-- What "%05zd: %013.6f\n" prints, with a counter of up to 5 digits, of a float whose digits do not outgrow the
-- field: 5 + 2 + 13 characters and the end of the line, none of them 0.
abbrev pub LongText : {F : Type 0} → Printf F → F → Type 0
LongText printf v =
    (count : ℕ)
    → count < counter_end
    → (length (printf.long count v) ≡ 21) × NonZero (printf.long count v)

module _ {F : Type 0} (printf : Printf F) where
  -- The buffer starts with one text that has less than a sample's characters.
  abbrev Starts : Text → Formatter → Formatter → Type 0
  Starts first f0 f =
      (rest : List ℕ) × (f.buf ≡ first ++ (0 ∷ rest))
      × (1 ≤ f.current_buf_loc)
      × (f.buf_sample_size ≡ long_size)
      × (f.buf_samples ≡ f0.buf_samples)
      × (length f.buf ≡ length f0.buf)
      × (f.sample_cnt < counter_end)

  good_text :
      (v : F)
      → LongText printf v
      → (count : ℕ) → count < counter_end
      → (1 ≤ length (printf.long count v)) × (length (printf.long count v) ≤ long_size)
  good_text v text count small =
      (omega (arith, (text count small).0), omega (arith, (text count small).0))

  Starts-step :
      (first : Text) (f0 f : Formatter) (v : F)
      → length first < long_size
      → LongText printf v
      → Starts first f0 f
      → (g : Formatter) × (format_long printf v f ≡ returned tt g) × Starts first f0 g
  Starts-step first f0 f v short ok (rest, e, later, size, same, kept, small) =
      let (rest', e') =
        write_at-behind first (f.current_buf_loc * f.buf_sample_size) written rest behind in
      (
        advanced (long.text v f) (long.count f) f,
        long.prints v f (good_text v ok) small size,
        (
          rest',
          ap (λ b. write_at (f.current_buf_loc * f.buf_sample_size) written b) e ∙ e',
          omega arith,
          size,
          same,
          length-write_at (f.current_buf_loc * f.buf_sample_size) written f.buf ∙ kept,
          long.counts f,
        ),
      )
    where
      long :
          Prints long_size
            (λ v.
              (count : ℕ)
              → count < counter_end
              → (1 ≤ length (printf.long count v)) × (length (printf.long count v) ≤ long_size))
            (format_long printf)
      long = long-Prints printf

      written : Text
      written = take f.buf_sample_size (long.text v f) ++ (0 ∷ [])

      behind : length first < f.current_buf_loc * f.buf_sample_size
      behind = omega (arith, mul-le-mul_right f.buf_sample_size later, ap (λ s. 1 * s) size)

  Starts-all :
      (first : Text) (f0 f : Formatter) (values : List F)
      → length first < long_size
      → Each (LongText printf) values
      → Starts first f0 f
      → (g : Formatter) × (format_all (format_long printf) values f ≡ returned tt g)
        × Starts first f0 g
  unfolding format_all pure
  Starts-all first f0 f [] short ok starts = (f, refl, starts)
  Starts-all first f0 f (v ∷ values) short ok starts =
      let (g, e, starts') = Starts-step first f0 f v short ok.0 starts in
      let (h, e', all) = Starts-all first f0 g values short ok.1 starts' in
      (h, then_all (format_long printf) v values f g h e e', all)

  -- Where the long text of each of the values has exactly 21 characters, none of them 0, with any counter below
  -- 100000, as "%05zd: %013.6f\n" prints it of numbers that do not outgrow the field, a formatter that is clear
  -- and for at least one sample formats the values without an exception, but `output` prints the text of the
  -- first one only; it leaves the formatter clear.
  pub format_long-buffered_output :
      (f : Formatter) (v : F) (values : List F)
      → Each (LongText printf) (v ∷ values)
      → f.sample_cnt < counter_end
      → Clear f
      → f.buf_sample_size ≡ long_size
      → 0 < f.buf_samples
      → (g : Formatter) × (format_all (format_long printf) (v ∷ values) f ≡ returned tt g)
        × ((h : Formatter) × (buffered_output g ≡ returned (printf.long f.sample_cnt v) h)
            × Clear h)
  format_long-buffered_output f v values texts small clear size some_samples =
      let (rest, e) = clear.empty in
      let (g, ran, (rest', e', later, size', same, kept, _)) =
        Starts-all text f (advanced text' (long.count f) f) values
          (omega (arith, (texts.0 f.sample_cnt small).0)) texts.1 (first rest e) in
      (
        g,
        then_all (format_long printf) v values f (advanced text' (long.count f) f) g
            (long.prints v f (good_text v texts.0) small size) ran,
        buffered_output-prints g text rest' e' (texts.0 f.sample_cnt small).1 (omega arith)
            (kept ∙ (clear.room ∙ ap₂ (λ a b. a * b + 1) (sym same) (size ∙ sym size'))),
      )
    where
      long :
          Prints long_size
            (λ v.
              (count : ℕ)
              → count < counter_end
              → (1 ≤ length (printf.long count v)) × (length (printf.long count v) ≤ long_size))
            (format_long printf)
      long = long-Prints printf

      text : Text
      text = printf.long f.sample_cnt v

      text' : Text
      text' = long.text v f

      first : (rest : List ℕ) → f.buf ≡ 0 ∷ rest → Starts text f (advanced text' (long.count f) f)
      first rest e = (
        drop (length text) rest,
        ap
              (λ t.
                write_at (f.current_buf_loc * f.buf_sample_size)
                  (take f.buf_sample_size t ++ (0 ∷ [])) f.buf)
              (long-Prints-text printf v f)
            ∙ write_sample [] text rest f.buf (f.current_buf_loc * f.buf_sample_size)
                f.buf_sample_size e (ap (λ n. n * f.buf_sample_size) clear.start ∙ omega arith)
                (omega (arith, (texts.0 f.sample_cnt small).0))
                (omega (
                  arith,
                  (texts.0 f.sample_cnt small).0,
                  clear.room,
                  ap (λ (l : List ℕ). length l) e,
                  mul-le-mul_right f.buf_sample_size some_samples,
                  ap (λ s. 1 * s) size,
                )),
        omega arith,
        size,
        refl,
        length-write_at (f.current_buf_loc * f.buf_sample_size)
            (take f.buf_sample_size text' ++ (0 ∷ [])) f.buf,
        long.counts f,
      )
