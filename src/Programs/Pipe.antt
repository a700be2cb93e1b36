-- ===== src/Programs/Pipe.antt =====
-- main of src/villas-fpga-pipe.cpp, behind the parsing of the arguments.
use fpga.Prelude.{
  ℕ, zero, suc, ◌+◌, ◌*◌, ◌/◌, Bool, true, false, not, List, [], ◌∷◌, ◌++◌, if◌then◌else◌, ◌⊎◌, inl,
  inr, ℤ, pos, negsuc, value, no_digits, too_large, StoiResult, stoi, Text, codes, is_empty, M,
  Error, returned, threw, stuck, pure, modify, gets, run, ◌>>=◌, ◌>>◌, runtime_error,
  invalid_argument, out_of_range,
}
use fpga.Crossbar.{Crossbar, Device, aurora_channel, dma_device}
use fpga.Programs.Transfers.{Calls, block_values, Stdin, store_values, in_hw, in_values}
use fpga.Programs.Main.{CardCalls, dump_channels, Exit, exit_code, terminated}

-- std::stoi, with its exceptions
unfoldable pub number_of : StoiResult → ℤ ⊎ Error
number_of (value n) = inl n
number_of no_digits = inr invalid_argument
number_of too_large = inr out_of_range

unfoldable pub parse_int : Text → ℤ ⊎ Error
unfolding number_of
parse_int text = number_of (stoi text)

module _ {W : Type 0} (calls : Calls W) (show_word : ℕ → Text) where
  -- The values that are read, each with a ';' behind it.
  unfoldable pub show_words : ℕ → ℕ → ℕ → W → Text
  show_words block zero i w = codes "\n"
  show_words block (suc left) i w =
      show_word (calls.word block i w) ++ (codes ";" ++ show_words block left (i + 1) w)

  -- A round of main: the read and the written block
  unfoldable pub pipe_round : ℕ → ℕ → M (Stdin W ℤ) (Unit {0})
  unfolding store_values parse_int in_hw in_values show_words
  pipe_round read_block write_block = do
    _ ← in_hw calls parse_int (calls.read read_block (block_values * 4))
    line ← in_hw calls parse_int (run calls.getline)
    count ← in_values calls parse_int (store_values parse_int (calls.tokenize line) 0)
    _ ← in_hw calls parse_int (calls.write write_block (count * 4))
    _ ← in_hw calls parse_int calls.write_complete
    c ← in_hw calls parse_int calls.read_complete
    in_hw calls parse_int (modify (λ w. calls.print (show_words read_block (c.bytes / 4) 0 w) w))

  -- The loop of main, for some rounds
  unfoldable pub pipe_rounds : ℕ → ℕ → ℕ → M (Stdin W ℤ) (Unit {0})
  unfolding pipe_round
  pipe_rounds zero read_block write_block = pure tt
  pipe_rounds (suc rounds) read_block write_block = do
    pipe_round read_block write_block
    pipe_rounds rounds read_block write_block

  module _ (crossbar : Crossbar W) (card : CardCalls W) (unset : List ℤ) where
    -- The loop over the Aurora channels, `false` where one is missing
    unfoldable pub all_there : List Device → W → Bool
    all_there [] w = true
    all_there (device ∷ devices) w =
        let rest = all_there devices w in if crossbar.has device w then rest else false

    -- main from the configuration of the crossbar on; after `rounds` rounds it goes on.
    unfoldable pub pipe : ℕ → M W Exit
    unfolding pipe_rounds
    pipe rounds = do
      _ ← card.connect_by_default_ports (aurora_channel 3) dma_device
      _ ← card.connect_by_default_ports dma_device (aurora_channel 3)
      read_block ← card.allocate_block
      write_block ← card.allocate_block
      _ ← card.make_accesible_from_va read_block
      _ ← card.make_accesible_from_va write_block
      modify card.dump_graph
      λ w.
          elim (pipe_rounds rounds read_block write_block
            (record { hw = w; values = record { mem = unset; overrun = false } })) [
              | returned u s ↦ stuck s.hw
              | threw e s ↦ threw e s.hw
              | stuck s ↦ stuck s.hw
            ]

    -- The handlers of main: a RuntimeError ends it with -1, and any other exception terminates it.
    unfoldable pub handle : Error → Exit
    handle e = elim e [ runtime_error ↦ exit_code (negsuc 0) | other ↦ terminated ]

    unfoldable pub handled : M W Exit → M W Exit
    unfolding handle
    handled m w = elim (m w) [
      | returned x w' ↦ returned x w'
      | threw e w' ↦ returned (handle e) w'
      | stuck w' ↦ stuck w'
    ]

    -- main of villas-fpga-pipe
    unfoldable pub pipe_main : ℕ → Text → M W Exit
    unfolding all_there dump_channels pipe handled
    pipe_main rounds config_file = handled (
        if is_empty config_file then pure (exit_code (pos 1)) else (do
          let channels =
              aurora_channel 0 ∷ (aurora_channel 1 ∷ (aurora_channel 2 ∷ (aurora_channel 3 ∷ [])))
          card.setup_fpga_card config_file
          found ← gets (all_there channels)
          has_dma ← gets (crossbar.has dma_device)
          if not found
              then pure (exit_code (pos 1))
              else (if not has_dma
                  then pure (exit_code (pos 1))
                  else (dump_channels crossbar card channels >> pipe rounds))))
