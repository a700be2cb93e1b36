-- ===== src/Programs/Streams.antt =====
-- The connections of main of src/villas-fpga-ctrl.cpp, and the streams that they need.
use fpga.Prelude.{
  Bool, true, false, ◌||◌, List, [], ◌∷◌, Option, if◌then◌else◌, ◌≡◌, refl, Text, All, M, Error,
  Outcome, Ensures, Spec, Spec-bind, Spec-pure, Spec-weaken, returned, threw, stuck, ◌>>◌, arith,
}
use fpga.Crossbar.{
  ConnectString, Crossbar, unparsed, parse_string, config_cross_bar, get_aurora_channels,
}
use fpga.CInterface.{parsed_connect_string}
use fpga.Programs.Main.{
  CardCalls, Options, UsedStreams, is_src_stdin, is_dst_stdout, add_streams, connect_strings,
  set_up_streams, dump_channels,
}

-- The text is a connection that has nothing to do with the DMA controller.
abbrev pub NoDma : Text → Type 0
NoDma text =
    (cs : ConnectString) × (parse_string text (unparsed 7) ≡ returned tt cs)
    × (is_src_stdin cs ≡ false)
    × (is_dst_stdout cs ≡ false)

abbrev pub any_stream : UsedStreams → Bool
any_stream streams = streams.write_to_stdout || streams.read_from_stdin

add_streams-none :
    (cs : ConnectString) (streams : UsedStreams)
    → any_stream (add_streams cs streams) ≡ false
    → (any_stream streams ≡ false) × (is_src_stdin cs ≡ false) × (is_dst_stdout cs ≡ false)
unfolding add_streams
add_streams-none cs streams h = go (is_src_stdin cs) (is_dst_stdout cs) cs.bidirectional h
  where
    go :
        (src dst both : Bool)
        → any_stream (
            let first =
              if src
              then record {
                write_to_stdout = if both then true else streams.write_to_stdout;
                read_from_stdin = true;
              }
              else streams in
            if dst
            then record {
              write_to_stdout = true;
              read_from_stdin = if both then true else first.read_from_stdin;
            }
            else first)
          ≡ false
        → (any_stream streams ≡ false) × (src ≡ false) × (dst ≡ false)
    go false false both h = (h, refl, refl)
    go true false true h = absurd cc
    go true false false h = absurd (ground arith)
    go src true both h = absurd cc

module _ {W : Type 0} where
  abbrev pub Anywhere : W → Type 0
  Anywhere w = Unit

  abbrev pub Fails : Option Error → W → Type 0
  Fails e w = Unit

  any_end : {A : Type 0} (o : Outcome W A) → Ensures (λ _ _. Unit {0}) (λ _ _. Unit {0}) o
  any_end (returned a f) = tt
  any_end (threw e f) = tt
  any_end (stuck f) = tt

  pub any : {A : Type 0} (m : M W A) → Spec Anywhere m (λ _ _. Unit {0}) Fails
  any m = record { at = λ w u. any_end (m w) }

module _ {W : Type 0} (crossbar : Crossbar W) (card : CardCalls W) where
  parsed :
      (text : Text)
      → Spec {S = W} Anywhere
          (parsed_connect_string text)
          (λ cs _. parse_string text (unparsed 7) ≡ returned tt cs)
          Fails
  unfolding parsed_connect_string
  parsed text = record { at = λ w u. answer w (parse_string text (unparsed 7)) refl }
    where
      answer :
          (w : W) (o : Outcome ConnectString (Unit {0}))
          → parse_string text (unparsed 7) ≡ o
          → Ensures
              (λ cs (_ : W). parse_string text (unparsed 7) ≡ returned tt cs)
              Fails
              (elim o [
                | returned _ cs ↦ returned cs w
                | threw e cs ↦ threw e w
                | stuck cs ↦ stuck w
              ])
      answer w (returned u cs) e = e
      answer w (threw x cs) e = tt
      answer w (stuck cs) e = tt

  connect_strings-NoDma :
      (texts : List Text) (streams : UsedStreams)
      → Spec Anywhere
          (connect_strings crossbar card texts streams)
          (λ streams' _.
            any_stream streams' ≡ false → (any_stream streams ≡ false) × All NoDma texts)
          Fails
  unfolding connect_strings
  connect_strings-NoDma [] streams = Spec-pure streams λ w u h. (h, tt)
  connect_strings-NoDma (text ∷ texts) streams = Spec-bind _ _ (parsed text) λ cs. record {
    at = λ w e. (rest cs e (connect_strings-NoDma texts (add_streams cs streams))).at w tt;
  }
    where
      Quiet : UsedStreams → List Text → UsedStreams → W → Type 0
      Quiet before connections after w =
          any_stream after ≡ false → (any_stream before ≡ false) × All NoDma connections

      rest :
          (cs : ConnectString)
          → parse_string text (unparsed 7) ≡ returned tt cs
          → Spec Anywhere
              (connect_strings crossbar card texts (add_streams cs streams))
              (Quiet (add_streams cs streams) texts)
              Fails
          → Spec Anywhere
              (config_cross_bar crossbar cs
                >> connect_strings crossbar card texts (add_streams cs streams))
              (Quiet streams (text ∷ texts))
              Fails
      rest cs e ih = Spec-bind _ _ (any (config_cross_bar crossbar cs)) λ _.
          Spec-weaken ih (λ w u. u)
            (λ after w quiet h.
              let (none_before, all) = quiet h in
              let (none_first, src, dst) = add_streams-none cs streams none_before in
              (none_first, ((cs, e, src, dst), all)))
            (λ x w u. u)

  pub set_up_streams-NoDma :
      (options : Options)
      → Spec Anywhere
          (set_up_streams crossbar card options)
          (λ streams _. any_stream streams ≡ false → All NoDma options.connect_str)
          Fails
  unfolding set_up_streams
  set_up_streams-NoDma options = Spec-bind _ _ (any (card.setup_fpga_card options.config_file)) λ _.
      Spec-bind _ _ (any _) λ _. Spec-bind _ _ (any (get_aurora_channels crossbar)) λ channels.
        Spec-bind _ _ (any (dump_channels crossbar card channels)) λ _.
          Spec-weaken
            (connect_strings-NoDma options.connect_str
              (record { write_to_stdout = false; read_from_stdin = false }))
            (λ w u. u) (λ streams w quiet h. (quiet h).1) (λ x w u. u)
