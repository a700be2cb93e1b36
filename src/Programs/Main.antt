-- ===== src/Programs/Main.antt =====
-- The two main functions, of src/villas-fpga-ctrl.cpp and src/villas-fpga-pipe.cpp, behind the parsing of
-- the arguments. The crossbar is configured as in `Crossbar`; the card, the cores that are looked up
-- and std::stof are parameters.
use fpga.Prelude.{
  ℕ, Bool, true, false, not, ◌&&◌, ◌||◌, List, [], ◌∷◌, if◌then◌else◌, ◌⊎◌, ℤ, pos, negsuc, Text,
  is_empty, M, Error, returned, threw, stuck, pure, throw, modify, gets, ◌>>=◌, ◌>>◌,
  plain_exception,
}
use fpga.Crossbar.{
  ConnectString, ConnectType, dma, Crossbar, Device, dma_device, get_aurora_channels,
  config_cross_bar,
}
use fpga.CInterface.{parsed_connect_string}
use fpga.Programs.Formatter.{Formatter, Printf, get_buffered_sample_formatter}
use fpga.Programs.Transfers.{Calls, write_rounds}

-- The options of villas-fpga-ctrl; --dump-aurora is set whether it is given or not.
pub record Options : Type 0 where
  pub config_file : Text
  pub connect_str : List Text
  pub no_dma : Bool
  pub output_format : Text
  pub dump_graph : Bool

-- What the programs call of the card and its cores.
pub record CardCalls (W : Type 0) : Type 0 where
  pub setup_fpga_card : Text → M W (Unit {0})
  pub dump_graph : W → W
  pub dump_aurora : Device → M W (Unit {0})
  pub connect_by_default_ports : Device → Device → M W Bool
  pub allocate_block : M W ℕ
  pub start_reader : Formatter → M W (Unit {0})
  pub make_accesible_from_va : ℕ → M W Bool

-- How a program ends: with an exit code, or by std::terminate.
pub data Exit : Type 0 where
  exit_code : ℤ → Exit
  terminated : Exit

abbrev pub is_dma_type : ConnectType → Bool
is_dma_type dma = true
is_dma_type kind = false

-- ConnectString::isSrcStdin and ConnectString::isDstStdout
abbrev pub is_src_stdin : ConnectString → Bool
is_src_stdin cs = is_dma_type cs.src_type

abbrev pub is_dst_stdout : ConnectString → Bool
is_dst_stdout cs = is_dma_type cs.dst_type

-- writeToStdout and readFromStdin
pub record UsedStreams : Type 0 where
  pub write_to_stdout : Bool
  pub read_from_stdin : Bool

-- The two tests of main for a connection
unfoldable pub add_streams : ConnectString → UsedStreams → UsedStreams
add_streams cs streams =
    let first =
      if is_src_stdin cs
      then record {
        write_to_stdout = if cs.bidirectional then true else streams.write_to_stdout;
        read_from_stdin = true;
      }
      else streams in
    if is_dst_stdout cs
    then record {
      write_to_stdout = true;
      read_from_stdin = if cs.bidirectional then true else first.read_from_stdin;
    }
    else first

module _ {W : Type 0} (crossbar : Crossbar W) (card : CardCalls W) where
  -- The loop of main over the connections.
  unfoldable pub connect_strings : List Text → UsedStreams → M W UsedStreams
  unfolding add_streams
  connect_strings [] streams = pure streams
  connect_strings (text ∷ texts) streams = do
    cs ← parsed_connect_string text
    config_cross_bar crossbar cs
    connect_strings texts (add_streams cs streams)

  unfoldable pub dump_channels : List Device → M W (Unit {0})
  dump_channels [] = pure tt
  dump_channels (channel ∷ channels) = do card.dump_aurora channel; dump_channels channels

  -- main of villas-fpga-ctrl, as far as the streams that it has to serve
  unfoldable pub set_up_streams : Options → M W UsedStreams
  unfolding connect_strings dump_channels
  set_up_streams options = do
    card.setup_fpga_card options.config_file
    if options.dump_graph then modify card.dump_graph else pure tt
    channels ← get_aurora_channels crossbar
    dump_channels channels
    connect_strings options.connect_str
        (record { write_to_stdout = false; read_from_stdin = false })

  -- The look-up of the DMA controller
  unfoldable pub require_dma : M W (Unit {0})
  require_dma = do
    there ← gets (crossbar.has dma_device)
    if there then pure tt else throw plain_exception

  -- The handlers of main: every exception ends it with -1.
  unfoldable pub or_exit : M W Exit → M W Exit
  or_exit m w = elim (m w) [
    | returned x w' ↦ returned x w'
    | threw e w' ↦ returned (exit_code (negsuc 0)) w'
    | stuck w' ↦ stuck w'
  ]

  -- An exception that destroys the thread of the reader, which nobody has joined
  unfoldable pub or_terminate : Bool → M W Exit → M W Exit
  or_terminate reading m w = elim (m w) [
    | returned x w' ↦ returned x w'
    | threw e w' ↦ if reading then returned terminated w' else threw e w'
    | stuck w' ↦ stuck w'
  ]

  module _ {F : Type 0} (calls : Calls W) (stof : Text → F ⊎ Error) (printf : Printf F)
      (unset : List F) where
    -- writeToDmaFromStdIn: after `rounds` rounds it goes on.
    unfoldable pub write_to_dma_from_std_in : ℕ → M W Exit
    unfolding write_rounds
    write_to_dma_from_std_in rounds = do
      block ← card.allocate_block
      _ ← card.make_accesible_from_va block
      λ w.
          elim (write_rounds calls stof rounds block
            (record { hw = w; values = record { mem = unset; overrun = false } })) [
              | returned u s ↦ stuck s.hw
              | threw e s ↦ threw e s.hw
              | stuck s ↦ stuck s.hw
            ]

    -- main of villas-fpga-ctrl, behind the look-up of the DMA controller
    unfoldable pub serve : ℕ → Options → UsedStreams → M W Exit
    unfolding write_to_dma_from_std_in or_terminate
    serve rounds options streams = do
      reading ←
          (if not options.no_dma && streams.write_to_stdout
            then (do
              made ← get_buffered_sample_formatter printf options.output_format 16
              card.start_reader made.0
              pure true)
            else pure false)
      or_terminate reading (
          if not options.no_dma && streams.read_from_stdin
          then write_to_dma_from_std_in rounds
          else (if reading then (λ w. stuck w) else pure (exit_code (pos 0))))

    -- main of villas-fpga-ctrl
    unfoldable pub ctrl_main : ℕ → Options → M W Exit
    unfolding or_exit set_up_streams require_dma serve
    ctrl_main rounds options = or_exit (
        if is_empty options.config_file then pure (exit_code (pos 1)) else (do
          streams ← set_up_streams options
          if streams.write_to_stdout || streams.read_from_stdin
              then (require_dma >> serve rounds options streams)
              else pure (exit_code (pos 0))))
