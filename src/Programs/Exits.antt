-- ===== src/Programs/Exits.antt =====
-- How main of src/villas-fpga-ctrl.cpp ends.
use fpga.Prelude.{
  ℕ, Bool, true, false, not, ◌&&◌, ◌||◌, List, none, if◌then◌else◌, ◌≡◌, ◌⊎◌, inl, inr, refl, sym,
  ◌∙◌, pos, negsuc, Text, is_empty, All, M, Error, Outcome, Ensures, Spec, Spec-bind, Spec-pure,
  Spec-if, Spec-pre, Spec-weaken, returned, threw, stuck, pure, ◌>>=◌, ◌>>◌,
}
use fpga.Crossbar.{Crossbar}
use fpga.Programs.Formatter.{Printf, get_buffered_sample_formatter}
use fpga.Programs.Transfers.{Calls, Stdin, write_rounds}
use fpga.Programs.Main.{
  CardCalls, Exit, exit_code, terminated, Options, UsedStreams, set_up_streams, require_dma,
  or_exit, or_terminate, write_to_dma_from_std_in, serve, ctrl_main,
}
use fpga.Programs.Streams.{NoDma, any_stream, Anywhere, Fails, any, set_up_streams-NoDma}

module _ {W : Type 0} (crossbar : Crossbar W) (card : CardCalls W) where
  module _ {F : Type 0} (calls : Calls W) (stof : Text → F ⊎ Error) (printf : Printf F)
      (unset : List F) (rounds : ℕ) (options : Options) where
    -- The exit code is 0 only without DMA.
    abbrev ZeroNoDma : Exit → W → Type 0
    ZeroNoDma x w = x ≡ exit_code (pos 0) → options.no_dma ≡ true

    abbrev Never : Exit → W → Type 0
    Never x w = ⊥

    write-Never :
        Spec Anywhere
          (write_to_dma_from_std_in crossbar card calls stof printf unset rounds)
          Never
          Fails
    unfolding write_to_dma_from_std_in
    write-Never = Spec-bind _ _ (any card.allocate_block) λ block.
        Spec-bind _ _ (any (card.make_accesible_from_va block))
          λ _. record { at = λ w u. goes_on (write_rounds calls stof rounds block _) }
      where
        goes_on :
            (o : Outcome (Stdin W F) (Unit {0}))
            → Ensures Never Fails (elim o [
              | returned u s ↦ stuck s.hw
              | threw e s ↦ threw e s.hw
              | stuck s ↦ stuck s.hw
            ])
        goes_on (returned u s) = tt
        goes_on (threw e s) = tt
        goes_on (stuck s) = tt

    or_terminate-Zero :
        (reading : Bool) (m : M W Exit)
        → Spec Anywhere m ZeroNoDma Fails
        → Spec Anywhere (or_terminate crossbar card reading m) ZeroNoDma Fails
    unfolding or_terminate
    or_terminate-Zero reading m h = record { at = λ w u. answer reading (m w) (h.at w u) }
      where
        answer :
            (reading : Bool) (o : Outcome W Exit)
            → Ensures ZeroNoDma Fails o
            → Ensures ZeroNoDma Fails (elim o [
              | returned x w' ↦ returned x w'
              | threw e w' ↦ if reading then returned terminated w' else threw e w'
              | stuck w' ↦ stuck w'
            ])
        answer reading (returned x w) k = k
        answer true (threw e w) k = λ same. absurd cc
        answer false (threw e w) k = tt
        answer reading (stuck w) k = tt

    serve-Zero :
        (streams : UsedStreams)
        → any_stream streams ≡ true
        → Spec Anywhere
            (serve crossbar card calls stof printf unset rounds options streams)
            ZeroNoDma
            Fails
    unfolding serve
    serve-Zero streams some_stream =
        Spec-bind {Q = λ reading _. reading ≡ (not options.no_dma && streams.write_to_stdout)} _ _
          started λ reading. record { at = λ w e. (behind reading e).at w tt }
      where
        idle :
            (no_dma write read : Bool)
            → (write || read) ≡ true
            → (not no_dma && read) ≡ false
            → (not no_dma && write) ≡ false
            → no_dma ≡ true
        idle true write read a b c = refl
        idle false true read a b c = absurd cc
        idle false false true a b c = absurd cc
        idle false false false a b c = absurd cc

        behind :
            (reading : Bool)
            → reading ≡ (not options.no_dma && streams.write_to_stdout)
            → Spec Anywhere
                (or_terminate crossbar card reading (
                  if not options.no_dma && streams.read_from_stdin
                  then write_to_dma_from_std_in crossbar card calls stof printf unset rounds
                  else (if reading then (λ w. stuck w) else pure (exit_code (pos 0)))))
                ZeroNoDma
                Fails
        behind reading e = or_terminate-Zero reading _ (
            Spec-if (not options.no_dma && streams.read_from_stdin) _ _
              (λ yes_read. Spec-weaken write-Never (λ w u. u) (λ x w bad. absurd bad) (λ x w u. u))
              (λ no_read.
                Spec-if reading _ _ (λ r. record { at = λ w u. tt })
                  (λ r. Spec-pure _ λ w u same.
                    idle options.no_dma streams.write_to_stdout streams.read_from_stdin some_stream
                      no_read (sym e ∙ r))))

        started :
            Spec Anywhere
              (if not options.no_dma && streams.write_to_stdout
                then (get_buffered_sample_formatter printf options.output_format 16 >>= λ made.
                    card.start_reader made.0 >> pure true)
                else pure false)
              (λ reading _. reading ≡ (not options.no_dma && streams.write_to_stdout))
              Fails
        started =
            Spec-if (not options.no_dma && streams.write_to_stdout) _ _
              (λ e. Spec-bind _ _ (any _) λ made.
                Spec-bind _ _ (any (card.start_reader made.0)) λ _. Spec-pure true λ w u. sym e)
              (λ e. Spec-pure false λ w u. sym e)

    -- No exception leaves `ctrl_main`, and when it returns 0, a configuration file was given, and either
    -- DMA was switched off, or every connection was parsed and has neither its source nor its destination
    -- at the DMA controller.
    pub ctrl_main-exits :
        Spec
          (λ w. Unit {0})
          (ctrl_main crossbar card calls stof printf unset rounds options)
          (λ x w.
            x ≡ exit_code (pos 0)
            → (is_empty options.config_file ≡ false)
              × ((options.no_dma ≡ true) ⊎ All NoDma options.connect_str))
          (λ e w. e ≡ none)
    unfolding ctrl_main or_exit
    ctrl_main-exits = record { at = λ w u. answer _ (body.at w tt) }
      where
        Zero : Exit → W → Type 0
        Zero x w =
            x ≡ exit_code (pos 0)
            → (is_empty options.config_file ≡ false)
              × ((options.no_dma ≡ true) ⊎ All NoDma options.connect_str)

        answer :
            (o : Outcome W Exit)
            → Ensures Zero Fails o
            → Ensures Zero
                (λ e w. e ≡ none)
                (elim o [
                  | returned x w' ↦ returned x w'
                  | threw e w' ↦ returned (exit_code (negsuc 0)) w'
                  | stuck w' ↦ stuck w'
                ])
        answer (returned x w) k = k
        answer (threw e w) k = λ same. absurd cc
        answer (stuck w) k = refl

        body :
            Spec Anywhere
              (if is_empty options.config_file
                then pure (exit_code (pos 1))
                else (set_up_streams crossbar card options >>= λ streams.
                    if streams.write_to_stdout || streams.read_from_stdin
                    then (require_dma crossbar card
                        >> serve crossbar card calls stof printf unset rounds options streams)
                    else pure (exit_code (pos 0))))
              Zero
              Fails
        body =
            Spec-if (is_empty options.config_file) _ _ (λ e. Spec-pure _ λ w u same. absurd cc)
              λ given. Spec-bind _ _ (set_up_streams-NoDma crossbar card options) λ streams.
                Spec-if (any_stream streams) _ _
                  (λ some_stream.
                    Spec-bind {Q = λ _. Anywhere} _ _ (Spec-pre (any _) λ w h. tt) λ _.
                      Spec-weaken (serve-Zero streams some_stream) (λ w u. u)
                        (λ x w zero_code same. (given, inl (zero_code same))) (λ x w u. u))
                  (λ none_left. Spec-pure _ λ w all same. (given, inr (all none_left)))
