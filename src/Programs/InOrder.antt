-- ===== src/Programs/InOrder.antt =====
-- The two blocks of readFromDmaToStdOut in src/villas-fpga-ctrl.cpp, over a controller that completes the
-- reads in their order.
use fpga.Prelude.{
  ℕ, zero, suc, ◌+◌, ◌*◌, ◌/◌, ◌%◌, ◌<◌, List, [], ◌∷◌, ◌++◌, Option, some, ◌≡◌, ◌≢◌, refl, sym, ap,
  ap₂, ◌∙◌, arith, Text, M, Error, Outcome, Ensures, Spec, Spec-bind, Spec-modify, Spec-pure,
  Spec-pre, Spec-weaken, Spec-each, Spec-focus, gets-keeps, subst, pure, focus, modify, ◌>>=◌,
  returned, threw, stuck, ◌>>◌,
}
use fpga.Programs.Formatter.{Formatter}
use fpga.Programs.Transfers.{
  Calls, block_values, Stdout, at_hw, at_formatter, format_words, print_word, print_block, or_warn,
  receive, read_round, read_rounds, read_from_dma,
}

abbrev Whatever : {W : Type 0} → Option Error → W → Type 0
Whatever e w = Unit

-- The controller has a queue of the blocks that it is to fill: a read puts its block behind the others, and
-- a completion takes the first one, which is then the last that was completed. Printing leaves it and the
-- memory alone. `printed` are the words that printf has printed since the last completion.
pub record QueueLaws {W : Type 0} (calls : Calls W) : Type 0 where
  pub pending : W → List ℕ
  pub completed : W → Option ℕ
  pub printed : W → List ℕ
  pub read-pending :
      (block bytes : ℕ) (blocks : List ℕ)
      → Spec
          (λ w. pending w ≡ blocks)
          (calls.read block bytes)
          (λ _ w. pending w ≡ blocks ++ (block ∷ []))
          (λ e w. Unit {0})
  pub read_complete-pending :
      (block : ℕ) (blocks : List ℕ)
      → Spec
          (λ w. pending w ≡ block ∷ blocks)
          calls.read_complete
          (λ _ w. (pending w ≡ blocks) × (completed w ≡ some block) × (printed w ≡ []))
          (λ e w. Unit {0})
  pub print-pending : (text : Text) (w : W) → pending (calls.print text w) ≡ pending w
  pub print-completed : (text : Text) (w : W) → completed (calls.print text w) ≡ completed w
  pub print-printed : (text : Text) (w : W) → printed (calls.print text w) ≡ printed w
  pub print-word :
      (text : Text) (w : W) (block i : ℕ)
      → calls.word block i (calls.print text w) ≡ calls.word block i w
  pub printf-pending : (n word : ℕ) (w : W) → pending (calls.printf n word w) ≡ pending w
  pub printf-completed : (n word : ℕ) (w : W) → completed (calls.printf n word w) ≡ completed w
  pub printf-printed :
      (n word : ℕ) (w : W) → printed (calls.printf n word w) ≡ printed w ++ (word ∷ [])
  pub printf-word :
      (n word : ℕ) (w : W) (block i : ℕ)
      → calls.word block i (calls.printf n word w) ≡ calls.word block i w

module _ {W F : Type 0} (calls : Calls W) (laws : QueueLaws calls) (float_of : ℕ → F)
    (format : F → M Formatter (Unit {0})) where
  -- The controller is to fill the blocks `blocks`, and the loop stands at `cur` and `next`.
  abbrev pub Stands : List ℕ → ℕ → ℕ → Stdout W → Type 0
  Stands blocks cur next s = (laws.pending s.hw ≡ blocks) × (s.cur ≡ cur) × (s.next ≡ next)

  -- Between two rounds: the controller fills one of the two blocks.
  abbrev pub Between : Stdout W → Type 0
  Between s = (laws.pending s.hw ≡ s.cur ∷ []) × (s.cur < 2) × (s.next ≡ (s.cur + 1) % 2)

  -- Behind the completion of a round: the loop's current block was completed last, and the controller
  -- fills the other one.
  abbrev pub Received : Stdout W → Type 0
  Received s =
      (laws.completed s.hw ≡ some s.cur)
      × (laws.pending s.hw ≡ s.next ∷ [])
      × (s.cur < 2)
      × (s.next ≡ (s.cur + 1) % 2)
      × (s.next ≢ s.cur)
      × (laws.printed s.hw ≡ [])

  any_end : {A : Type 0} (o : Outcome Formatter A) → Ensures (λ _ _. Unit {0}) (λ _ _. Unit {0}) o
  any_end (returned a f) = tt
  any_end (threw e f) = tt
  any_end (stuck f) = tt

  -- The formatter is no part of it.
  at_formatter-Stands :
      {A : Type 0} (blocks : List ℕ) (cur next : ℕ) (m : M Formatter A)
      → Spec
          (Stands blocks cur next)
          (at_formatter calls float_of format m)
          (λ _. Stands blocks cur next)
          (λ _. Stands blocks cur next)
  unfolding at_formatter
  at_formatter-Stands blocks cur next m =
      Spec-focus {P = λ f. Unit {0}} {Q = λ _ _. Unit {0}} {X = λ _ _. Unit {0}} _ _ m
        (record { at = λ f u. any_end (m f) }) (λ s h. tt) (λ s a f h u. h) (λ s e f h u. h)

  format_words-Stands :
      (blocks : List ℕ) (cur next left i : ℕ)
      → Spec
          (Stands blocks cur next)
          (format_words calls float_of format left i)
          (λ _. Stands blocks cur next)
          (λ _. Stands blocks cur next)
  unfolding format_words print_word
  format_words-Stands blocks cur next zero i = Spec-pure tt λ s h. h
  format_words-Stands blocks cur next (suc left) i = Spec-bind _ _ (gets-keeps _) λ word.
      Spec-bind _ _ (Spec-pre (at_formatter-Stands blocks cur next _) λ s h. h.0) λ _.
        Spec-bind {Q = λ _. Stands blocks cur next} _ _
          (Spec-modify _ λ s h. (laws.printf-pending s.cnt word s.hw ∙ h.0, h.1, h.2))
          λ _. format_words-Stands blocks cur next left (i + 1)

  print_block-Stands :
      (blocks : List ℕ) (cur next bytes : ℕ)
      → Spec
          (Stands blocks cur next)
          (print_block calls float_of format bytes)
          (λ _. Stands blocks cur next)
          (λ _. Stands blocks cur next)
  unfolding print_block at_hw
  print_block-Stands blocks cur next bytes =
      Spec-bind _ _ (format_words-Stands blocks cur next ((bytes + 3) / 4) 0) λ _.
        Spec-bind _ _ (at_formatter-Stands blocks cur next _) λ text.
          Spec-focus {P = λ w. laws.pending w ≡ blocks} {Q = λ _ w. laws.pending w ≡ blocks}
            {X = λ _ w. laws.pending w ≡ blocks} _ _ _
            (Spec-modify _ λ w h. laws.print-pending text w ∙ h) (λ s h. h.0)
            (λ s a w h q. (q, h.1, h.2)) (λ s e w h q. (q, h.1, h.2))

  or_warn-Stands :
      (blocks : List ℕ) (cur next : ℕ) (m : M (Stdout W) (Unit {0}))
      → Spec (Stands blocks cur next) m (λ _. Stands blocks cur next) (λ _. Stands blocks cur next)
      → Spec
          (Stands blocks cur next)
          (or_warn calls float_of format m)
          (λ _. Stands blocks cur next)
          Whatever
  unfolding or_warn
  or_warn-Stands blocks cur next m h = record { at = λ s p. answer (m s) (h.at s p) }
    where
      answer :
          (o : Outcome (Stdout W) (Unit {0}))
          → Ensures (λ _. Stands blocks cur next) (λ _. Stands blocks cur next) o
          → Ensures
              (λ _. Stands blocks cur next)
              Whatever
              (elim o [
                | returned a s' ↦ returned a s'
                | threw e s' ↦ returned tt s'
                | stuck s' ↦ stuck s'
              ])
      answer (returned a s) k = k
      answer (threw e s) k = k
      answer (stuck s) k = tt

  receive-Stands :
      (cur next : ℕ)
      → Spec
          (Stands (cur ∷ []) cur next)
          (receive calls float_of format)
          (λ _ s.
            Stands (next ∷ []) cur next s
            × (laws.completed s.hw ≡ some cur)
            × (laws.printed s.hw ≡ []))
          Whatever
  unfolding receive at_hw
  receive-Stands cur next =
      Spec-bind {Q = λ block s. Stands (cur ∷ []) cur next s × (block ≡ next)} _ _
        (Spec-weaken {X = Whatever} (gets-keeps {P = Stands (cur ∷ []) cur next} (λ s. s.next))
          (λ s h. h) (λ block s (h, e). (h, e ∙ h.2)) (λ e s h. tt))
        λ block.
          Spec-bind {Q = λ _. Stands (cur ∷ (next ∷ [])) cur next} _ _
            (Spec-focus _ _ _ (laws.read-pending block (block_values * 4) (cur ∷ [])) (λ s h. h.0.0)
              (λ s a w (h, e) q. (q ∙ ap (λ b. cur ∷ (b ∷ [])) e, h.1, h.2)) (λ s e w h q. tt))
            λ _.
              Spec-focus _ _ _ (laws.read_complete-pending cur (next ∷ [])) (λ s h. h.0)
                (λ s a w h q. ((q.0, h.1, h.2), q.1, q.2)) (λ s e w h q. tt)

  flips : (cur : ℕ) → cur < 2 → (cur + 1) % 2 ≢ cur
  flips cur h e = absurd (omega arith)

  receive-Received : Spec Between (receive calls float_of format) (λ _. Received) Whatever
  receive-Received = Spec-each λ s0 (one, below, flip).
      Spec-weaken (receive-Stands s0.cur s0.next)
        (λ s e. (
          ap (λ (t : Stdout W). laws.pending t.hw) e ∙ one,
          ap (λ (t : Stdout W). t.cur) e,
          ap (λ (t : Stdout W). t.next) e,
        ))
        (λ c s ((filled, cur, next), done, none_printed). (
          done ∙ ap some (sym cur),
          filled ∙ ap (λ b. b ∷ []) (sym next),
          omega (arith, cur),
          omega (arith, cur, next, flip),
          λ same. flips s0.cur below (omega (arith, cur, next, flip, same)),
          none_printed,
        ))
        (λ e s h. tt)

  read_round-Between : Spec Between (read_round calls float_of format) (λ _. Between) Whatever
  unfolding read_round
  read_round-Between = Spec-bind _ _ receive-Received λ c.
      Spec-each λ s0 (done, filled, below, flip, differ, none_printed).
        Spec-bind _ _
          (Spec-pre
            (or_warn-Stands (s0.next ∷ []) s0.cur s0.next _
              (print_block-Stands (s0.next ∷ []) s0.cur s0.next c.bytes))
            (λ s e. (
              ap (λ (t : Stdout W). laws.pending t.hw) e ∙ filled,
              ap (λ (t : Stdout W). t.cur) e,
              ap (λ (t : Stdout W). t.next) e,
            )))
          λ _. Spec-modify _ λ s (fill, cur, next).
            (fill ∙ ap (λ b. b ∷ []) (sym next), omega (arith, next, flip), refl)

  read_rounds-Between :
      (rounds : ℕ) → Spec Between (read_rounds calls float_of format rounds) (λ _. Between) Whatever
  unfolding read_rounds
  read_rounds-Between zero = Spec-pure tt λ s h. h
  read_rounds-Between (suc rounds) =
      Spec-bind _ _ read_round-Between λ _. read_rounds-Between rounds

  -- The first `n` words of a block
  abbrev pub words : W → ℕ → ℕ → List ℕ
  words w block zero = []
  words w block (suc n) = words w block n ++ (calls.word block n w ∷ [])

  -- The loop has printed the first `i` words that its current block has at `w`.
  abbrev Printing : W → Stdout W → ℕ → Stdout W → Type 0
  Printing w s0 i s =
      (laws.completed s.hw ≡ some s0.cur)
      × (laws.pending s.hw ≡ s0.next ∷ [])
      × ((s.cur ≡ s0.cur) × (s.next ≡ s0.next))
      × ((block j : ℕ) → calls.word block j s.hw ≡ calls.word block j w)
      × (laws.printed s.hw ≡ words w s0.cur i)

  stays : (a : ℕ) → a ≡ a + 0
  stays a = omega arith

  at_formatter-Printing :
      {A : Type 0} (w : W) (s0 : Stdout W) (i : ℕ) (m : M Formatter A)
      → Spec
          (Printing w s0 i)
          (at_formatter calls float_of format m)
          (λ _. Printing w s0 i)
          Whatever
  unfolding at_formatter
  at_formatter-Printing w s0 i m =
      Spec-focus {P = λ f. Unit {0}} {Q = λ _ _. Unit {0}} {X = λ _ _. Unit {0}} _ _ m
        (record { at = λ f u. any_end (m f) }) (λ s h. tt) (λ s a f h u. h) (λ s e f h u. tt)

  print_text-Printing :
      (w : W) (s0 : Stdout W) (i : ℕ) (text : Text)
      → Spec
          (Printing w s0 i)
          (at_hw calls float_of format (modify (calls.print text)))
          (λ _. Printing w s0 i)
          Whatever
  unfolding at_hw focus modify
  print_text-Printing w s0 i text = record {
    at = λ s h. (
      laws.print-completed text s.hw ∙ h.0,
      laws.print-pending text s.hw ∙ h.1,
      h.2,
      λ block j. laws.print-word text s.hw block j ∙ h.3 block j,
      laws.print-printed text s.hw ∙ h.4,
    );
  }

  format_words-Printing :
      (w : W) (s0 : Stdout W) (left i : ℕ)
      → Spec
          (Printing w s0 i)
          (format_words calls float_of format left i)
          (λ _. Printing w s0 (i + left))
          Whatever
  unfolding format_words print_word
  format_words-Printing w s0 zero i = Spec-pure tt λ s h. subst (λ n. Printing w s0 n s) (stays i) h
  format_words-Printing w s0 (suc left) i =
      Spec-bind {Q = λ word s. Printing w s0 i s × (word ≡ calls.word s0.cur i w)} _ _
        (Spec-weaken {X = Whatever}
          (gets-keeps {P = Printing w s0 i} (λ s. calls.word s.cur i s.hw)) (λ s h. h)
          (λ word s (h, e). (h, e ∙ (ap (λ b. calls.word b i s.hw) h.2.0 ∙ h.3 s0.cur i)))
          (λ e s h. tt))
        λ word.
          Spec-bind {Q = λ _ s. Printing w s0 i s × (word ≡ calls.word s0.cur i w)} _ _
            (Spec-each λ s1 (h, e).
              Spec-weaken (at_formatter-Printing w s0 i (format (float_of word)))
                (λ s same. subst (Printing w s0 i) (sym same) h) (λ a s h'. (h', e)) (λ e s x. tt))
            λ _.
              Spec-bind {Q = λ _. Printing w s0 (suc i)} _ _
                (Spec-modify _ λ s (h, e). (
                  laws.printf-completed s.cnt word s.hw ∙ h.0,
                  laws.printf-pending s.cnt word s.hw ∙ h.1,
                  h.2,
                  λ block j. laws.printf-word s.cnt word s.hw block j ∙ h.3 block j,
                  laws.printf-printed s.cnt word s.hw
                      ∙ (ap (λ l. l ++ (word ∷ [])) h.4 ∙ ap (λ v. words w s0.cur i ++ (v ∷ [])) e),
                ))
                λ _.
                  subst
                    (λ k.
                      Spec (Printing w s0 (suc i)) (format_words calls float_of format left (i + 1))
                        (λ _. Printing w s0 k) Whatever)
                    (moved i left)
                    (subst
                      (λ n.
                        Spec (Printing w s0 n) (format_words calls float_of format left (i + 1))
                          (λ _. Printing w s0 (i + 1 + left)) Whatever)
                      (after i) (format_words-Printing w s0 left (i + 1)))
    where
      moved : (a b : ℕ) → a + 1 + b ≡ a + suc b
      moved a b = omega arith

      after : (a : ℕ) → a + 1 ≡ suc a
      after a = omega arith

  print_block-Printing :
      (w : W) (s0 : Stdout W) (bytes : ℕ)
      → Spec
          (Printing w s0 0)
          (print_block calls float_of format bytes)
          (λ _. Printing w s0 ((bytes + 3) / 4))
          Whatever
  unfolding print_block
  print_block-Printing w s0 bytes =
      subst
        (λ n.
          Spec (Printing w s0 0) (print_block calls float_of format bytes) (λ _. Printing w s0 n)
            Whatever)
        (none_before ((bytes + 3) / 4))
        (Spec-bind _ _ (format_words-Printing w s0 ((bytes + 3) / 4) 0) λ _.
          Spec-bind _ _ (at_formatter-Printing w s0 (0 + (bytes + 3) / 4) _)
            λ text. print_text-Printing w s0 (0 + (bytes + 3) / 4) text)
    where
      none_before : (n : ℕ) → 0 + n ≡ n
      none_before n = omega arith

  -- A round without what is done behind its printing, with the number of bytes that were completed
  abbrev pub next_block : M (Stdout W) ℕ
  next_block = do
    c ← receive calls float_of format
    print_block calls float_of format c.bytes
    pure c.bytes

  -- Exactly the words of the loop's current block are printed, which was completed last, and the controller fills
  -- the other block.
  abbrev pub PrintedBlock : ℕ → Stdout W → Type 0
  PrintedBlock bytes s =
      (laws.completed s.hw ≡ some s.cur)
      × (laws.pending s.hw ≡ s.next ∷ [])
      × (s.next ≢ s.cur)
      × (laws.printed s.hw ≡ words s.hw s.cur ((bytes + 3) / 4))

  words-same :
      (w w' : W) (block n : ℕ)
      → ((b j : ℕ) → calls.word b j w ≡ calls.word b j w')
      → words w block n ≡ words w' block n
  words-same w w' block zero same = refl
  words-same w w' block (suc n) same =
      ap₂ (λ l v. l ++ (v ∷ [])) (words-same w w' block n same) (same block n)

  next_block-PrintedBlock : Spec Between next_block PrintedBlock Whatever
  next_block-PrintedBlock = Spec-bind _ _ receive-Received λ c.
      Spec-each λ s0 (done, filled, below, flip, differ, none_printed).
        Spec-pre
          (Spec-bind _ _ (print_block-Printing s0.hw s0 c.bytes) λ _.
            Spec-pure c.bytes λ s (last, fills, (cur, next), same, printed). (
              last ∙ ap some (sym cur),
              fills ∙ ap (λ b. b ∷ []) (sym next),
              λ e. differ (sym next ∙ (e ∙ cur)),
              printed
                  ∙ (ap (λ b. words s0.hw b ((c.bytes + 3) / 4)) (sym cur)
                      ∙ sym (words-same s.hw s0.hw s.cur ((c.bytes + 3) / 4) same)),
            ))
          (λ s e.
            subst (Printing s0.hw s0 0) (sym e)
              (done, filled, (refl, refl), (λ block j. refl), none_printed))

  pub read_from_dma-PrintedBlock :
      (rounds : ℕ)
      → Spec
          (λ s. laws.pending s.hw ≡ [])
          (read_from_dma calls float_of format rounds >> next_block)
          PrintedBlock
          (λ e s. Unit {0})
  unfolding read_from_dma at_hw
  read_from_dma-PrintedBlock rounds =
      Spec-bind _ _
        (Spec-bind {Q = λ _. Stands [] 0 1} _ _ (Spec-modify _ λ s h. (h, refl, refl)) λ _.
          Spec-bind {Q = λ _. Between} _ _
            (Spec-focus _ _ _ (laws.read-pending 0 (block_values * 4) []) (λ s h. h.0)
              (λ s a w h q.
                (q ∙ ap (λ b. b ∷ []) (sym h.1), omega (arith, h.1), omega (arith, h.1, h.2)))
              (λ s e w h q. tt))
            λ _. read_rounds-Between rounds)
        λ _. next_block-PrintedBlock
