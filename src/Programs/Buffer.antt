-- ===== src/Programs/Buffer.antt =====
-- The buffer of the formatters of include/villas/fpga/utils.hpp: what a write leaves in it, and clearBuf.
use fpga.Prelude.{
  ℕ, zero, suc, ◌+◌, ◌*◌, ◌≤◌, ◌<◌, Bool, true, false, List, [], ◌∷◌, ◌++◌, Option, none, some,
  if◌then◌else◌, ◌==◌, ◌≡◌, ◌≢◌, refl, sym, ap, ap₂, ◌∙◌, arith, Text, length, take, drop, set,
  get_elem?, All, returned, ==_iff, pure, modify, gets, ◌>>=◌, subst,
}
use fpga.Programs.Formatter.{
  Formatter, overlay, write_at, clear_samples, clear_buf, c_string, buffered_output,
}
use fpga.Programs.Sample.{take-all}

-- No character of a text is the final 0.
abbrev pub NonZero : Text → Type 0
NonZero text = All (λ c. c ≢ 0) text

overlay-text :
    (text : Text) (b : ℕ) (rest : List ℕ)
    → length text ≤ length rest
    → overlay (text ++ (0 ∷ [])) (b ∷ rest) ≡ text ++ (0 ∷ drop (length text) rest)
overlay-text [] b rest h = refl
overlay-text (c ∷ text) b [] h = absurd (omega arith)
overlay-text (c ∷ text) b (d ∷ rest) h = ap (λ l. c ∷ l) (overlay-text text d rest (omega arith))

write_at-append :
    (before : Text) (written : Text) (buf : List ℕ)
    → write_at (length before) written (before ++ buf) ≡ before ++ overlay written buf
write_at-append [] written buf = refl
write_at-append (c ∷ before) written buf = ap (λ l. c ∷ l) (write_at-append before written buf)

-- The text of a sample, written behind those that are there.
pub write_sample :
    (before text : Text) (rest buf : List ℕ) (pos n : ℕ)
    → buf ≡ before ++ (0 ∷ rest)
    → pos ≡ length before
    → length text ≤ n
    → length text ≤ length rest
    → write_at pos (take n text ++ (0 ∷ [])) buf ≡ before ++ (text ++ (0 ∷ drop (length text) rest))
write_sample before text rest buf pos n e at fit room =
    ap₂ (λ i b. write_at i (take n text ++ (0 ∷ [])) b) at e
    ∙ (ap (λ t. write_at (length before) (t ++ (0 ∷ [])) (before ++ (0 ∷ rest)))
          (take-all n text fit)
        ∙ (write_at-append before (text ++ (0 ∷ [])) (0 ∷ rest)
            ∙ ap (λ l. before ++ l) (overlay-text text 0 rest room)))

-- A write behind the first text leaves it.
pub write_at-behind :
    (first : Text) (i : ℕ) (written : Text) (rest : List ℕ)
    → length first < i
    → (rest' : List ℕ) × (write_at i written (first ++ (0 ∷ rest)) ≡ first ++ (0 ∷ rest'))
write_at-behind [] zero written rest h = absurd (omega arith)
write_at-behind [] (suc i) written rest h = (write_at i written rest, refl)
write_at-behind (c ∷ first) zero written rest h = absurd (omega arith)
write_at-behind (c ∷ first) (suc i) written rest h =
    let (rest', e) = write_at-behind first i written rest (omega arith) in
    (rest', ap (λ l. c ∷ l) e)

c_string-append :
    (text : Text) (rest : List ℕ) → NonZero text → c_string (text ++ (0 ∷ rest)) ≡ text
c_string-append [] rest h = refl
c_string-append (c ∷ text) rest (nz, h) = ground (arith, c_string-append text rest h)

pub length-drop : (n : ℕ) (l : List ℕ) → length l ≤ n + length (drop n l)
length-drop zero l = omega arith
length-drop (suc n) [] = omega arith
length-drop (suc n) (b ∷ l) = omega (arith, length-drop n l)

pub NonZero-append : (a b : Text) → NonZero a → NonZero b → NonZero (a ++ b)
NonZero-append [] b ha hb = hb
NonZero-append (c ∷ a) b (nz, ha) hb = (nz, NonZero-append a b ha hb)

-- The buffer's first character is 0.
abbrev pub Empty : List ℕ → Type 0
Empty buf = (rest : List ℕ) × (buf ≡ 0 ∷ rest)

set-Empty : (buf : List ℕ) (i : ℕ) → Empty buf → Empty (set buf i 0)
set-Empty buf i (rest, e) = subst (λ b. Empty (set b i 0)) (sym e) (at i)
  where
    at : (i : ℕ) → Empty (set (0 ∷ rest) i 0)
    at zero = (rest, refl)
    at (suc i) = (set rest i 0, refl)

either : (b : Bool) {x y : List ℕ} → Empty x → Empty y → Empty (if b then x else y)
either true h k = h
either false h k = k

clear_samples-Empty :
    (left size i : ℕ) (buf : List ℕ) → Empty buf → Empty (clear_samples left size i buf)
unfolding clear_samples
clear_samples-Empty zero size i buf h = h
clear_samples-Empty (suc left) size i buf h =
    go (get_elem? buf (i * size))
      (clear_samples-Empty left size (i + 1) (set buf (i * size) 0) (set-Empty buf (i * size) h))
  where
    go :
        (o : Option ℕ)
        → Empty (clear_samples left size (i + 1) (set buf (i * size) 0))
        → Empty (elim o [
          | none ↦ buf
          | some c ↦ if c == 0 then buf else clear_samples left size (i + 1) (set buf (i * size) 0)
        ])
    go none rest = h
    go (some c) rest = either (c == 0) h rest

-- clearBuf empties a buffer, unless it is for no samples.
clear_samples-empties :
    (left size : ℕ) (c : ℕ) (buf : List ℕ) → 0 < left → Empty (clear_samples left size 0 (c ∷ buf))
unfolding clear_samples
clear_samples-empties zero size c buf h = absurd (omega arith)
clear_samples-empties (suc left) size c buf h =
    subst
      (λ k. Empty (elim (get_elem? (c ∷ buf) k) [
        | none ↦ c ∷ buf
        | some d ↦ if d == 0 then c ∷ buf else clear_samples left size (0 + 1) (set (c ∷ buf) k 0)
      ]))
      start (first (c == 0) refl)
  where
    start : ◌≡◌ {A = ℕ} 0 (0 * size)
    start = omega arith

    first :
        (b : Bool)
        → (c == 0) ≡ b
        → Empty (if b then c ∷ buf else clear_samples left size (0 + 1) (0 ∷ buf))
    first true e = (buf, ap (λ k. k ∷ buf) ((==_iff c 0).0 e))
    first false e = clear_samples-Empty left size (0 + 1) (0 ∷ buf) (buf, refl)

-- A formatter that is made, or whose output has been printed.
pub record Clear (f : Formatter) : Type 0 where
  pub empty : Empty f.buf
  pub room : length f.buf ≡ f.buf_samples * f.buf_sample_size + 1
  pub start : f.current_buf_loc ≡ 0

length-set : (buf : List ℕ) (i : ℕ) → length (set buf i 0) ≡ length buf
length-set [] i = refl
length-set (b ∷ buf) zero = refl
length-set (b ∷ buf) (suc i) = ap suc (length-set buf i)

length-clear_samples :
    (left size i : ℕ) (buf : List ℕ) → length (clear_samples left size i buf) ≡ length buf
unfolding clear_samples
length-clear_samples zero size i buf = refl
length-clear_samples (suc left) size i buf =
    go (get_elem? buf (i * size))
      (length-clear_samples left size (i + 1) (set buf (i * size) 0) ∙ length-set buf (i * size))
  where
    same :
        (b : Bool) (l : List ℕ) → length l ≡ length buf → length (if b then buf else l) ≡ length buf
    same true l h = refl
    same false l h = h

    go :
        (o : Option ℕ)
        → length (clear_samples left size (i + 1) (set buf (i * size) 0)) ≡ length buf
        → length (elim o [
          | none ↦ buf
          | some c ↦ if c == 0 then buf else clear_samples left size (i + 1) (set buf (i * size) 0)
        ])
          ≡ length buf
    go none rest = refl
    go (some c) rest = same (c == 0) (clear_samples left size (i + 1) (set buf (i * size) 0)) rest

-- What output prints, and that it leaves the formatter clear.
pub buffered_output-prints :
    (f : Formatter) (text : Text) (rest : List ℕ)
    → f.buf ≡ text ++ (0 ∷ rest)
    → NonZero text
    → 0 < f.buf_samples
    → length f.buf ≡ f.buf_samples * f.buf_sample_size + 1
    → (f' : Formatter) × (buffered_output f ≡ returned text f') × Clear f'
unfolding buffered_output clear_buf gets modify pure ◌>>=◌
buffered_output-prints f text rest e nz some_samples len = (
  record f { buf = clear_samples f.buf_samples f.buf_sample_size 0 f.buf; current_buf_loc = 0 },
  ap
      (λ t. returned t (record f {
        buf = clear_samples f.buf_samples f.buf_sample_size 0 f.buf;
        current_buf_loc = 0;
      }))
      (ap c_string e ∙ c_string-append text rest nz),
  record {
    empty = empties f.buf (omega arith);
    room = length-clear_samples f.buf_samples f.buf_sample_size 0 f.buf ∙ len;
    start = refl;
  },
)
  where
    empties :
        (buf : List ℕ)
        → 0 < length buf
        → Empty (clear_samples f.buf_samples f.buf_sample_size 0 buf)
    empties [] h = absurd (omega arith)
    empties (c ∷ buf) h = clear_samples-empties f.buf_samples f.buf_sample_size c buf some_samples
