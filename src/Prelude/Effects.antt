-- ===== src/Prelude/Effects.antt =====
-- What a call does: it returns, it throws, or it never comes back; each with the state it leaves.
use mathlib.Core.Path.{◌≡◌, refl, ap}
use mathlib.Core.Option.{Option, none, some}
use mathlib.Core.Bool.{Bool, true, false}
use fpga.Prelude.Tests.{if◌then◌else◌}

-- The exceptions that the code throws or lets through, without their messages.
pub data Error : Type 0 where
  runtime_error config_error out_of_range invalid_argument bad_alloc plain_exception : Error

-- `stuck` stands for a call that does not come back: a mutex locked twice by its holder, or a
-- wait that hardware never ends.
pub data Outcome (S : Type 0) (A : Type 0) : Type 0 where
  returned : A → S → Outcome S A
  threw : Error → S → Outcome S A
  stuck : S → Outcome S A

-- A method over a state.
abbrev pub M : Type 0 → Type 0 → Type 0
M S A = S → Outcome S A

unfoldable pub pure : {S A : Type 0} → A → M S A
pure a s = returned a s

unfoldable pub throw : {S A : Type 0} → Error → M S A
throw e s = threw e s

-- A call that does not come back.
unfoldable pub hang : {S A : Type 0} → M S A
hang s = stuck s

unfoldable pub modify : {S : Type 0} → (S → S) → M S (Unit {0})
modify f s = returned tt (f s)

unfoldable pub gets : {S A : Type 0} → (S → A) → M S A
gets f s = returned (f s) s

-- A step of hardware or of a library: a result, and the next state.
unfoldable pub run : {S A : Type 0} → (S → A × S) → M S A
run f s = returned (f s).0 (f s).1

-- Opening this opens the other ways to build a call too.
infixl 5 ◌>>=◌ ◌>>◌
unfoldable pub ◌>>=◌ : {S A B : Type 0} → M S A → (A → M S B) → M S B
unfolding pure throw hang modify gets run
◌>>=◌ m f s = elim (m s) [ returned a s' ↦ f a s' | threw e s' ↦ threw e s' | stuck s' ↦ stuck s' ]

abbrev pub ◌>>◌ : {S B : Type 0} → M S (Unit {0}) → M S B → M S B
m >> k = m >>= λ _. k

-- A call over a part of the state.
unfoldable pub focus : {S W A : Type 0} → (S → W) → (W → S → S) → M W A → M S A
focus part put m s = elim (m (part s)) [
  | returned a w ↦ returned a (put w s)
  | threw e w ↦ threw e (put w s)
  | stuck w ↦ stuck (put w s)
]

-- A sequence of two calls where the first one returns.
pub bind_returned :
    {S A B : Type 0} (m : M S A) (f : A → M S B) {s s' : S} {a : A}
    → m s ≡ returned a s'
    → (m >>= f) s ≡ f a s'
unfolding ◌>>=◌
bind_returned m f e =
    ap (λ o. elim o [ returned a s' ↦ f a s' | threw x s' ↦ threw x s' | stuck s' ↦ stuck s' ]) e

pub focus_returned :
    {S W A : Type 0} (part : S → W) (put : W → S → S) (m : M W A) {s : S} {w : W} {a : A}
    → m (part s) ≡ returned a w
    → focus part put m s ≡ returned a (put w s)
unfolding focus
focus_returned part put m {s} e =
    ap
      (λ o. elim o [
        | returned a w ↦ returned a (put w s)
        | threw x w ↦ threw x (put w s)
        | stuck w ↦ stuck (put w s)
      ])
      e

-- The state that a call leaves.
abbrev pub final : {S A : Type 0} → Outcome S A → S
final (returned a s) = s
final (threw e s) = s
final (stuck s) = s

-- What holds after a call: `P` of a result and its state, `X` where the call throws (`some`) or does
-- not come back (`none`).
abbrev pub Ensures :
    {S A : Type 0} → (A → S → Type 0) → (Option Error → S → Type 0) → Outcome S A → Type 0
Ensures P X (returned a s) = P a s
Ensures P X (threw e s) = X (some e) s
Ensures P X (stuck s) = X none s

-- From a state with `P`, the call `m` ends with `Q`, or fails with `X`.
pub record Spec {S A : Type 0} (P : S → Type 0) (m : M S A) (Q : A → S → Type 0)
    (X : Option Error → S → Type 0) : Type 0 where
  pub at : (s : S) → P s → Ensures Q X (m s)

module _ {S A B : Type 0} {Q : A → S → Type 0} {R : B → S → Type 0}
    {X : Option Error → S → Type 0} where
  after_outcome :
      (f : A → M S B) (o : Outcome S A)
      → Ensures Q X o
      → ((a : A) → Spec (Q a) (f a) R X)
      → Ensures R X
          (elim o [ returned a s' ↦ f a s' | threw e s' ↦ threw e s' | stuck s' ↦ stuck s' ])
  after_outcome f (returned a s) h k = (k a).at s h
  after_outcome f (threw e s) h k = h
  after_outcome f (stuck s) h k = h

  -- The rule for a sequence of two calls.
  pub Spec-bind :
      {P : S → Type 0} (m : M S A) (f : A → M S B)
      → Spec P m Q X
      → ((a : A) → Spec (Q a) (f a) R X)
      → Spec P (m >>= f) R X
  unfolding ◌>>=◌
  Spec-bind m f h k = record { at = λ s p. after_outcome f (m s) (h.at s p) k }

module _ {S A : Type 0} {P : S → Type 0} {X : Option Error → S → Type 0} where
  -- A call that never fails and does the same to every state.
  pub Spec-run :
      (f : S → A × S) {Q : A → S → Type 0}
      → ((s : S) → P s → Q (f s).0 (f s).1)
      → Spec P (run f) Q X
  unfolding run
  Spec-run f h = record { at = h }

  pub Spec-throw :
      (e : Error) {Q : A → S → Type 0}
      → ((s : S) → P s → X (some e) s)
      → Spec P (throw {A = A} e) Q X
  unfolding throw
  Spec-throw e h = record { at = h }

  pub Spec-pure : (a : A) {Q : A → S → Type 0} → ((s : S) → P s → Q a s) → Spec P (pure a) Q X
  unfolding pure
  Spec-pure a h = record { at = h }

  pub Spec-if :
      (b : Bool) (m n : M S A) {Q : A → S → Type 0}
      → (b ≡ true → Spec P m Q X)
      → (b ≡ false → Spec P n Q X)
      → Spec P (if b then m else n) Q X
  Spec-if true m n hm hn = hm refl
  Spec-if false m n hm hn = hn refl

module _ {S : Type 0} {P : S → Type 0} {X : Option Error → S → Type 0} where
  pub Spec-modify :
      (f : S → S) {Q : Unit {0} → S → Type 0} → ((s : S) → P s → Q tt (f s)) → Spec P (modify f) Q X
  unfolding modify
  Spec-modify f h = record { at = h }

module _ {S A : Type 0} {Q Q' : A → S → Type 0} {X X' : Option Error → S → Type 0} where
  pub Ensures-map :
      (o : Outcome S A)
      → ((a : A) (s : S) → Q a s → Q' a s)
      → ((e : Option Error) (s : S) → X e s → X' e s)
      → Ensures Q X o
      → Ensures Q' X' o
  Ensures-map (returned a s) q x h = q a s h
  Ensures-map (threw e s) q x h = x (some e) s h
  Ensures-map (stuck s) q x h = x none s h

module _ {S A : Type 0} {P P' : S → Type 0} {Q Q' : A → S → Type 0}
    {X X' : Option Error → S → Type 0} where
  -- A stronger start and weaker ends.
  pub Spec-weaken :
      {m : M S A}
      → Spec P m Q X
      → ((s : S) → P' s → P s)
      → ((a : A) (s : S) → Q a s → Q' a s)
      → ((e : Option Error) (s : S) → X e s → X' e s)
      → Spec P' m Q' X'
  Spec-weaken {m} h p q x = record { at = λ s p'. Ensures-map (m s) q x (h.at s (p s p')) }

module _ {S A : Type 0} {P P' : S → Type 0} {Q : A → S → Type 0}
    {X : Option Error → S → Type 0} where
  pub Spec-pre : {m : M S A} → Spec P m Q X → ((s : S) → P' s → P s) → Spec P' m Q X
  Spec-pre h p = record { at = λ s p'. h.at s (p s p') }

module _ {S A : Type 0} {P : S → Type 0} {Q : A → S → Type 0} {X : Option Error → S → Type 0} where
  -- What holds from every state by itself.
  pub Spec-each : {m : M S A} → ((s : S) → P s → Spec (λ s'. s' ≡ s) m Q X) → Spec P m Q X
  Spec-each h = record { at = λ s p. (h s p).at s refl }

-- The same rules for what a call keeps.
module _ {S : Type 0} {P : S → Type 0} {X : Option Error → S → Type 0} where
  pub modify-keeps : (f : S → S) → ((s : S) → P s → P (f s)) → Spec P (modify f) (λ _. P) X
  modify-keeps f h = Spec-modify f h

  pub run-keeps :
      {A : Type 0} (f : S → A × S) → ((s : S) → P s → P (f s).1) → Spec P (run f) (λ _. P) X
  run-keeps f h = Spec-run f h

  pub gets-keeps : {A : Type 0} (f : S → A) → Spec P (gets f) (λ a s. P s × (a ≡ f s)) X
  unfolding gets
  gets-keeps f = record { at = λ s p. (p, refl) }

module _ {S A B : Type 0} {P : S → Type 0} {Q : A → S → Type 0}
    {X : Option Error → S → Type 0} where
  pub Spec-option :
      (o : Option B) {m : M S A} {f : B → M S A}
      → Spec P m Q X
      → ((b : B) → Spec P (f b) Q X)
      → Spec P (elim o [ none ↦ m | some b ↦ f b ]) Q X
  Spec-option none hm hf = hm
  Spec-option (some b) hm hf = hf b

module _ {S W A : Type 0} {P : W → Type 0} {Q : A → W → Type 0} {X : Option Error → W → Type 0}
    {R : S → Type 0} {T : A → S → Type 0} {Y : Option Error → S → Type 0} where
  -- What a call over a part of the state does there, put into the whole.
  pub Spec-focus :
      (part : S → W) (put : W → S → S) (m : M W A)
      → Spec P m Q X
      → ((s : S) → R s → P (part s))
      → ((s : S) (a : A) (w : W) → R s → Q a w → T a (put w s))
      → ((s : S) (e : Option Error) (w : W) → R s → X e w → Y e (put w s))
      → Spec R (focus part put m) T Y
  unfolding focus
  Spec-focus part put m h pre post fails = record {
    at = λ s r. answer s r (m (part s)) (h.at (part s) (pre s r));
  }
    where
      answer :
          (s : S)
          → R s
          → (o : Outcome W A) → Ensures Q X o
          → Ensures T Y (elim o [
            | returned a w ↦ returned a (put w s)
            | threw e w ↦ threw e (put w s)
            | stuck w ↦ stuck (put w s)
          ])
      answer s r (returned a w) q = post s a w r q
      answer s r (threw e w) x = fails s (some e) w r x
      answer s r (stuck w) x = fails s none w r x
