-- ===== src/Programs/Transfers.antt =====
-- The loops of src/villas-fpga-ctrl.cpp that move values between the DMA controller and the standard
-- streams. The controller's calls, the streams and std::stof are parameters. A loop without an end has
-- the rounds that it runs as its fuel.
use fpga.Prelude.{
  ℕ, zero, suc, ◌+◌, ◌*◌, ◌/◌, ◌%◌, Bool, ◌||◌, List, [], ◌∷◌, leb, ◌⊎◌, inl, inr, Text, length,
  set, M, Error, returned, threw, stuck, pure, throw, modify, gets, run, focus, ◌>>=◌, ◌>>◌,
}
use fpga.Dma.{Completion}
use fpga.Programs.Formatter.{Formatter, buffered_output}

-- The DMA controller on blocks that are given by a number, the standard streams, and the memory that the
-- controller writes to: `word block i` is its i-th word. `print` writes to std::cout, and `printf` a counter and a
-- word to stdout.
pub record Calls (W : Type 0) : Type 0 where
  pub write : ℕ → ℕ → M W Bool
  pub read : ℕ → ℕ → M W Bool
  pub write_complete : M W Completion
  pub read_complete : M W Completion
  pub getline : W → Text × W
  pub print : Text → W → W
  pub printf : ℕ → ℕ → W → W
  pub tokenize : Text → List Text
  pub word : ℕ → ℕ → W → ℕ

-- The number of values in a block
abbrev pub block_values : ℕ
block_values = 512

-- A block that values are stored in; `overrun` is set by a store outside of it.
pub record Values (F : Type 0) : Type 0 where
  pub mem : List F
  pub overrun : Bool

-- A number that is parsed, or the exception.
unfoldable pub with_number : {S F A : Type 0} → F ⊎ Error → (F → M S A) → M S A
with_number (inr e) f = throw e
with_number (inl number) f = f number

-- `mem[i] = number`
unfoldable pub store_at : {F : Type 0} → ℕ → F → Values F → Values F
store_at i number v = record {
  mem = set v.mem i number;
  overrun = v.overrun || leb (length v.mem) i;
}

-- The loop over the values of a line, with the number of values that it stores; `parse` is std::stof or
-- std::stoi, and its exception.
unfoldable pub store_values : {F : Type 0} → (Text → F ⊎ Error) → List Text → ℕ → M (Values F) ℕ
unfolding with_number store_at
store_values parse [] i = pure i
store_values parse ([] ∷ values) i = store_values parse values i
store_values parse ((c ∷ cs) ∷ values) i =
    with_number (parse (c ∷ cs))
      λ number. modify (store_at i number) >> store_values parse values (i + 1)

-- A program's state: what it calls, and the block.
pub record Stdin (W F : Type 0) : Type 0 where
  pub hw : W
  pub values : Values F

module _ {W F : Type 0} (calls : Calls W) (parse : Text → F ⊎ Error) where
  unfoldable pub in_hw : {A : Type 0} → M W A → M (Stdin W F) A
  in_hw m = focus (λ s. s.hw) (λ w s. record s { hw = w }) m

  unfoldable pub in_values : {A : Type 0} → M (Values F) A → M (Stdin W F) A
  in_values m = focus (λ s. s.values) (λ v s. record s { values = v }) m

  -- A round of writeToDmaFromStdIn, with the block's number
  unfoldable pub write_round : ℕ → M (Stdin W F) (Unit {0})
  unfolding store_values in_hw in_values
  write_round block = do
    line ← in_hw (run calls.getline)
    count ← in_values (store_values parse (calls.tokenize line) 0)
    _ ← in_hw (calls.write block (count * 4))
    _ ← in_hw calls.write_complete
    pure tt

  -- writeToDmaFromStdIn, for some rounds
  unfoldable pub write_rounds : ℕ → ℕ → M (Stdin W F) (Unit {0})
  unfolding write_round
  write_rounds zero block = pure tt
  write_rounds (suc rounds) block = do write_round block; write_rounds rounds block

-- The state of readFromDmaToStdOut
pub record Stdout (W : Type 0) : Type 0 where
  pub hw : W
  pub formatter : Formatter
  pub cur : ℕ
  pub next : ℕ
  pub cnt : ℕ

module _ {W F : Type 0} (calls : Calls W) (float_of : ℕ → F)
    (format : F → M Formatter (Unit {0})) where
  unfoldable pub at_hw : {A : Type 0} → M W A → M (Stdout W) A
  at_hw m = focus (λ s. s.hw) (λ w s. record s { hw = w }) m

  unfoldable pub at_formatter : {A : Type 0} → M Formatter A → M (Stdout W) A
  at_formatter m = focus (λ s. s.formatter) (λ f s. record s { formatter = f }) m

  -- `printf("%d: %#x\n", cnt++, ival)`
  unfoldable pub print_word : ℕ → M (Stdout W) (Unit {0})
  print_word word = modify (λ s. record s { hw = calls.printf s.cnt word s.hw; cnt = s.cnt + 1 })

  -- The loop over the words of a block, with the number of words left
  unfoldable pub format_words : ℕ → ℕ → M (Stdout W) (Unit {0})
  unfolding at_formatter print_word
  format_words zero i = pure tt
  format_words (suc left) i = do
    word ← gets (λ s. calls.word s.cur i s.hw)
    at_formatter (format (float_of word))
    print_word word
    format_words left (i + 1)

  -- The block that is tried; the loop runs while i * 4 < bytes.
  unfoldable pub print_block : ℕ → M (Stdout W) (Unit {0})
  unfolding format_words at_hw at_formatter
  print_block bytes = do
    format_words ((bytes + 3) / 4) 0
    text ← at_formatter buffered_output
    at_hw (modify (calls.print text))

  -- `catch (const std::exception &e)`
  unfoldable pub or_warn : M (Stdout W) (Unit {0}) → M (Stdout W) (Unit {0})
  or_warn m s = elim (m s) [
    | returned a s' ↦ returned a s'
    | threw e s' ↦ returned tt s'
    | stuck s' ↦ stuck s'
  ]

  -- The start of a round: the next read, and the completion of the one before
  unfoldable pub receive : M (Stdout W) Completion
  unfolding at_hw
  receive = do
    next ← gets (λ s. s.next)
    _ ← at_hw (calls.read next (block_values * 4))
    at_hw calls.read_complete

  -- A round of readFromDmaToStdOut
  unfoldable pub read_round : M (Stdout W) (Unit {0})
  unfolding receive print_block or_warn
  read_round = do
    c ← receive
    or_warn (print_block c.bytes)
    modify (λ s. record s { cur = s.next; next = (s.next + 1) % 2 })

  unfoldable pub read_rounds : ℕ → M (Stdout W) (Unit {0})
  unfolding read_round
  read_rounds zero = pure tt
  read_rounds (suc rounds) = do read_round; read_rounds rounds

  -- readFromDmaToStdOut, for some rounds
  unfoldable pub read_from_dma : ℕ → M (Stdout W) (Unit {0})
  unfolding at_hw read_rounds
  read_from_dma rounds = do
    modify (λ s. record s { cur = 0; next = 1; cnt = 0 })
    _ ← at_hw (calls.read 0 (block_values * 4))
    read_rounds rounds
