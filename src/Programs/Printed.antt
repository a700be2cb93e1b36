-- ===== src/Programs/Printed.antt =====
-- What the short formatter of include/villas/fpga/utils.hpp prints.
use fpga.Prelude.{
  ℕ, zero, suc, ◌+◌, ◌*◌, ◌≤◌, ◌<◌, List, [], ◌∷◌, ◌++◌, map, ◌≡◌, refl, sym, ap, ap₂, ◌∙◌, arith,
  Text, length, length-append, take, drop, M, Outcome, returned, threw, stuck, pure, ◌>>=◌, subst,
}
use mathlib.Core.List.{append_assoc, append-nil}
use native.Mathlib.Nat.{add-mul}
use fpga.Programs.Formatter.{
  Formatter, Printf, short_size, write_at, format_short, buffered_output, format_all,
}
use fpga.Programs.Sample.{Each, advanced, format_text-advanced, length-write_at}
use fpga.Programs.Buffer.{
  NonZero, write_sample, length-drop, NonZero-append, Clear, buffered_output-prints,
}

-- All texts, one after the other.
abbrev pub join : List Text → Text
join [] = []
join (text ∷ texts) = text ++ join texts

-- What "%013.6f\n" prints of a float whose digits do not outgrow the field: 13 characters and the end of the
-- line, none of them 0.
abbrev pub Whole : {F : Type 0} → Printf F → F → Type 0
Whole printf v = (length (printf.short v) ≡ 14) × NonZero (printf.short v)

-- A call of a format, and those behind it.
pub then_all :
    {F : Type 0} (format : F → M Formatter (Unit {0})) (v : F) (values : List F) (f g h : Formatter)
    → format v f ≡ returned tt g
    → format_all format values g ≡ returned tt h
    → format_all format (v ∷ values) f ≡ returned tt h
unfolding format_all ◌>>=◌
then_all format v values f g h e e' =
    ap
      (λ (o : Outcome Formatter (Unit {0})). elim o [
        | returned a f' ↦ format_all format values f'
        | threw x f' ↦ threw x f'
        | stuck f' ↦ stuck f'
      ])
      e
    ∙ e'

module _ {F : Type 0} (printf : Printf F) where
  -- The buffer starts with `done`, and has places for `left` samples more.
  abbrev Holds : Text → ℕ → ℕ → Formatter → Formatter → Type 0
  Holds done n left f0 f =
      (rest : List ℕ) × (f.buf ≡ done ++ (0 ∷ rest))
      × (length done ≡ n * short_size)
      × (left * short_size ≤ length rest)
      × (f.current_buf_loc ≡ n)
      × (f.buf_sample_size ≡ short_size)
      × NonZero done
      × (f.buf_samples ≡ f0.buf_samples)
      × (length f.buf ≡ length f0.buf)

  Holds-step :
      (done : Text) (n left : ℕ) (f0 f : Formatter) (v : F)
      → Whole printf v
      → Holds done n (suc left) f0 f
      → (g : Formatter) × (format_short printf v f ≡ returned tt g)
        × Holds (done ++ printf.short v) (n + 1) left f0 g
  unfolding format_short
  Holds-step done n left f0 f v whole (rest, e, len, room, at, size, nz, same, kept) = (
    advanced text f.sample_cnt f,
    format_text-advanced text f (omega (arith, whole.0)),
    (
      drop (length text) rest,
      written,
      length-append done text ∙ omega (arith, whole.0, add-mul n 1 short_size),
      omega (arith, length-drop (length text) rest, whole.0, add-mul 1 left short_size),
      omega arith,
      size,
      NonZero-append done text nz whole.1,
      same,
      length-write_at (f.current_buf_loc * f.buf_sample_size)
            (take f.buf_sample_size text ++ (0 ∷ [])) f.buf
          ∙ kept,
    ),
  )
    where
      text : Text
      text = printf.short v

      written :
          write_at
            (f.current_buf_loc * f.buf_sample_size)
            (take f.buf_sample_size text ++ (0 ∷ []))
            f.buf
          ≡ (done ++ text) ++ (0 ∷ drop (length text) rest)
      written =
          write_sample done text rest f.buf (f.current_buf_loc * f.buf_sample_size)
            f.buf_sample_size e (ap₂ (λ a b. a * b) at size ∙ sym len) (omega (arith, whole.0))
            (omega (arith, whole.0, add-mul 1 left short_size))
          ∙ sym (append_assoc done text (0 ∷ drop (length text) rest))

  Holds-all :
      (done : Text) (n left : ℕ) (f0 f : Formatter) (values : List F)
      → Each (Whole printf) values
      → length values ≤ left
      → Holds done n left f0 f
      → (g : Formatter) × (format_all (format_short printf) values f ≡ returned tt g)
        × ((m k : ℕ) × Holds (done ++ join (map printf.short values)) m k f0 g)
  unfolding format_all pure
  Holds-all done n left f0 f [] all h holds =
      (f, refl, (n, left, subst (λ d. Holds d n left f0 f) (sym (append-nil done)) holds))
  Holds-all done n zero f0 f (v ∷ values) all h holds = absurd (omega arith)
  Holds-all done n (suc left) f0 f (v ∷ values) all h holds =
      let (g, e, holds') = Holds-step done n left f0 f v all.0 holds in
      let (g', e', (m, k, held)) =
        Holds-all (done ++ printf.short v) (n + 1) left f0 g values all.1 (omega arith) holds' in
      (
        g',
        then_all (format_short printf) v values f g g' e e',
        (
          m,
          k,
          subst (λ d. Holds d m k f0 g')
              (append_assoc done (printf.short v) (join (map printf.short values))) held,
        ),
      )

  -- Where the short text of each of the values has exactly 14 characters, none of them 0, as "%013.6f\n" prints
  -- it of numbers that do not outgrow the field, a formatter that is clear and for at least one sample formats as
  -- many values as it is for, and `buffered_output` prints their texts, in their order and complete, and leaves
  -- the formatter clear.
  pub format_short-buffered_output :
      (f : Formatter) (values : List F)
      → Each (Whole printf) values
      → Clear f
      → f.buf_sample_size ≡ short_size
      → 0 < f.buf_samples
      → length values ≤ f.buf_samples
      → (g : Formatter) × (format_all (format_short printf) values f ≡ returned tt g)
        × ((h : Formatter) × (buffered_output g ≡ returned (join (map printf.short values)) h)
            × Clear h)
  format_short-buffered_output f values whole clear size some_samples enough =
      let (rest, e) = clear.empty in
      let (g, ran, (m, k, (rest', e', len, room, at, size', nz, same, kept))) =
        Holds-all [] 0 f.buf_samples f f values whole enough
          (rest, e, omega arith, room_left rest e, clear.start, size, tt, refl, refl) in
      (
        g,
        ran,
        buffered_output-prints g (join (map printf.short values)) rest' e' nz (omega arith)
            (kept ∙ (clear.room ∙ ap₂ (λ a b. a * b + 1) (sym same) (size ∙ sym size'))),
      )
    where
      room_left : (rest : List ℕ) → f.buf ≡ 0 ∷ rest → f.buf_samples * short_size ≤ length rest
      room_left rest e =
          omega
            (arith, clear.room, ap (λ (l : List ℕ). length l) e, ap (λ s. f.buf_samples * s) size)
