-- ===== src/Programs/Formatter.antt =====
-- BufferedSampleFormatter and its two kinds, of include/villas/fpga/utils.hpp, and their maker in
-- lib/utils.cpp. What snprintf prints of a float is a parameter.
use fpga.Prelude.{
  ℕ, zero, suc, ◌+◌, ◌*◌, ◌%◌, Bool, false, ◌||◌, List, [], ◌∷◌, ◌++◌, none, some, if◌then◌else◌,
  ltb, ◌==◌, Text, codes, text_eq, length, get_elem?, set, take, replicate, M, pure, throw, modify,
  gets, ◌>>=◌, ◌>>◌, runtime_error,
}

-- BufferedSampleFormatter, with the counter of the long one. `overrun` is set by a write that leaves
-- buf; what it does to other memory has no part in the model.
pub record Formatter : Type 0 where
  pub buf : List ℕ
  pub buf_samples : ℕ
  pub buf_sample_size : ℕ
  pub current_buf_loc : ℕ
  pub sample_cnt : ℕ
  pub overrun : Bool

-- What snprintf prints of a float: "%013.6f\n", and "%05zd: %013.6f\n" with a counter.
pub record Printf (F : Type 0) : Type 0 where
  pub short : F → Text
  pub long : ℕ → F → Text

-- BufferedSampleFormatter's constructor
abbrev pub new_formatter : ℕ → ℕ → Formatter
new_formatter samples sample_size = record {
  buf = replicate (samples * sample_size + 1) 0;
  buf_samples = samples;
  buf_sample_size = sample_size;
  current_buf_loc = 0;
  sample_cnt = 0;
  overrun = false;
}

-- BufferedSampleFormatterShort's and BufferedSampleFormatterLong's formatStringSize
abbrev pub short_size : ℕ
short_size = 14

abbrev pub long_size : ℕ
long_size = 22

-- A text over the start of a buffer, as far as the buffer goes.
abbrev pub overlay : Text → List ℕ → List ℕ
overlay [] buf = buf
overlay (c ∷ text) [] = []
overlay (c ∷ text) (_ ∷ buf) = c ∷ overlay text buf

abbrev pub write_at : ℕ → Text → List ℕ → List ℕ
write_at zero text buf = overlay text buf
write_at (suc i) text [] = []
write_at (suc i) text (b ∷ buf) = b ∷ write_at i text buf

-- nextBufPos, and snprintf of a text to there: at most a sample's characters, and the final 0. It gives
-- the length that the whole text has.
unfoldable pub print_sample : Text → M Formatter ℕ
print_sample text = do
  modify (λ f.
      let pos = f.current_buf_loc * f.buf_sample_size in
      let written = take f.buf_sample_size text ++ (0 ∷ []) in
      record f {
        buf = write_at pos written f.buf;
        current_buf_loc = f.current_buf_loc + 1;
        overrun = f.overrun || ltb (length f.buf) (pos + length written);
      })
  pure (length text)

-- format of both formatters, up to the counter
unfoldable pub format_text : Text → M Formatter (Unit {0})
unfolding print_sample
format_text text = do
  chars ← print_sample text
  sample_size ← gets (λ f. f.buf_sample_size)
  if ltb sample_size chars then throw runtime_error else pure tt

module _ {F : Type 0} (printf : Printf F) where
  -- BufferedSampleFormatterShort::format
  unfoldable pub format_short : F → M Formatter (Unit {0})
  unfolding format_text
  format_short number = format_text (printf.short number)

  -- BufferedSampleFormatterLong::format
  unfoldable pub format_long : F → M Formatter (Unit {0})
  unfolding format_text
  format_long number = do
    count ← gets (λ f. f.sample_cnt)
    format_text (printf.long count number)
    modify (λ f. record f { sample_cnt = (f.sample_cnt + 1) % 100000 })

  -- getBufferedSampleFormatter: the formatter and its format.
  unfoldable pub get_buffered_sample_formatter :
      {S : Type 0} → Text → ℕ → M S (Formatter × (F → M Formatter (Unit {0})))
  unfolding format_short format_long
  get_buffered_sample_formatter format samples =
      if text_eq format (codes "long")
      then pure (new_formatter samples long_size, format_long)
      else (if text_eq format (codes "short")
          then pure (new_formatter samples short_size, format_short)
          else throw runtime_error)

-- The loop of clearBuf, with the samples that are left; buf has a place for each.
unfoldable pub clear_samples : ℕ → ℕ → ℕ → List ℕ → List ℕ
clear_samples zero sample_size i buf = buf
clear_samples (suc left) sample_size i buf =
    let rest = clear_samples left sample_size (i + 1) (set buf (i * sample_size) 0) in
    elim (get_elem? buf (i * sample_size)) [ none ↦ buf | some c ↦ if c == 0 then buf else rest ]

-- clearBuf
unfoldable pub clear_buf : M Formatter (Unit {0})
unfolding clear_samples
clear_buf = modify (λ f. record f {
  buf = clear_samples f.buf_samples f.buf_sample_size 0 f.buf;
  current_buf_loc = 0;
})

-- `out << buf.data()`: the characters before the first 0.
abbrev pub c_string : List ℕ → Text
c_string [] = []
c_string (c ∷ buf) = let rest = c_string buf in if c == 0 then [] else c ∷ rest

-- output, with what it prints
unfoldable pub buffered_output : M Formatter Text
unfolding clear_buf
buffered_output = do text ← gets (λ f. c_string f.buf); clear_buf; pure text

-- The calls of format for several values.
unfoldable pub format_all :
    {F : Type 0} → (F → M Formatter (Unit {0})) → List F → M Formatter (Unit {0})
format_all format [] = pure tt
format_all format (v ∷ values) = format v >> format_all format values
