-- ===== src/Crossbar.antt =====
-- lib/utils.cpp and include/villas/fpga/utils.hpp: ConnectString, which reads a line such as "1->dma" and
-- configures the crossbar.
pub mod Valid
pub mod Connections
mod Examples
use fpga.Prelude.{
  ℕ, zero, suc, Bool, true, false, not, ◌&&◌, ◌||◌, List, [], ◌∷◌, Option, none, some, get_elem?,
  map, ℤ, pos, negsuc, if◌then◌else◌, ltb, ◌==◌, Text, codes, text_eq, is_empty, is_digit, stoi,
  value, no_digits, too_large, StoiResult, M, pure, throw, hang, modify, gets, ◌>>=◌, ◌>>◌,
  runtime_error, plain_exception, out_of_range, invalid_argument,
}

-- ConnectString::ConnectType
pub data ConnectType : Type 0 where
  aurora dma dino loopback : ConnectType

-- ConnectString's members; a port is `none` where the member is -1.
pub record ConnectString : Type 0 where
  pub max_port_num : ℕ
  pub bidirectional : Bool
  pub invert : Bool
  pub src_type : ConnectType
  pub dst_type : ConnectType
  pub src_as_int : Option ℕ
  pub dst_as_int : Option ℕ

-- The constructor's initialisers.
abbrev pub unparsed : ℕ → ConnectString
unparsed max_port_num = record {
  max_port_num = max_port_num;
  bidirectional = false;
  invert = false;
  src_type = loopback;
  dst_type = loopback;
  src_as_int = none;
  dst_as_int = none;
}

abbrev pub keywords : List Text
keywords = codes "stdin" ∷ codes "stdout" ∷ codes "pipe" ∷ codes "dma" ∷ codes "dino" ∷ []

unfoldable pub is_one_of : Text → List Text → Bool
is_one_of text [] = false
is_one_of text (word ∷ words) = text_eq text word || is_one_of text words

unfoldable pub all_digits : Text → Bool
all_digits [] = true
all_digits (c ∷ cs) = is_digit c && all_digits cs

-- `[0-9]+|stdin|stdout|pipe|dma|dino`
unfoldable pub is_endpoint : Text → Bool
unfolding is_one_of all_digits
is_endpoint text = (not (is_empty text) && all_digits text) || is_one_of text keywords

-- `<`, `-` and `>`
abbrev pub is_arrow : ℕ → Bool
is_arrow c = c == 60 || (c == 45 || c == 62)

-- The longest prefix of arrow characters (or of others), and what is behind it.
unfoldable pub span_arrow : Bool → Text → Text × Text
span_arrow arrow [] = ([], [])
span_arrow arrow (c ∷ cs) =
    let rest = span_arrow arrow cs in
    if is_arrow c
    then (if arrow then (c ∷ rest.0, rest.1) else ([], c ∷ cs))
    else (if arrow then ([], c ∷ cs) else (c ∷ rest.0, rest.1))

-- The match of the regular expression: no endpoint has an arrow's character, so that the three groups
-- are the text before the first of them, the run of them, and the text behind it.
unfoldable pub regex_match : Text → Option (Text × (Text × Text))
unfolding is_endpoint span_arrow
regex_match text =
    let first = span_arrow false text in
    let second = span_arrow true first.1 in
    if is_endpoint first.0 && (not (is_empty second.0) && is_endpoint second.1)
    then some (first.0, (second.0, second.1))
    else none

-- The number of portStringToInt, and its range; std::runtime_error is a plain exception here.
unfoldable pub port_in_range : ℕ → StoiResult → M ConnectString (Option ℕ)
port_in_range max_port no_digits = throw invalid_argument
port_in_range max_port too_large = throw out_of_range
port_in_range max_port (value (negsuc n)) = throw plain_exception
port_in_range max_port (value (pos n)) =
    if ltb max_port n then throw plain_exception else pure (some n)

-- ConnectString::portStringToInt
unfoldable pub port_string_to_int : Text → M ConnectString (Option ℕ)
unfolding is_one_of port_in_range
port_string_to_int text =
    if is_one_of text keywords
    then pure none
    else (do max_port ← gets (λ cs. cs.max_port_num); port_in_range max_port (stoi text))

-- The type of an end of the connection.
unfoldable pub type_of : Text → Option ℕ → M ConnectString ConnectType
unfolding is_one_of
type_of text (some port) = pure aurora
type_of text none =
    if text_eq text (codes "dino")
    then pure dino
    else (if is_one_of text (codes "dma" ∷ codes "pipe" ∷ codes "stdin" ∷ codes "stdout" ∷ [])
        then pure dma
        else throw plain_exception)

-- parseString behind the match: both ports, then both types.
unfoldable pub set_ends : Text → Text → M ConnectString (Unit {0})
unfolding port_string_to_int type_of
set_ends src dst = do
  src_port ← port_string_to_int src
  modify (λ cs. record cs { src_as_int = src_port })
  dst_port ← port_string_to_int dst
  modify (λ cs. record cs { dst_as_int = dst_port })
  src_kind ← type_of src src_port
  modify (λ cs. record cs { src_type = src_kind })
  dst_kind ← type_of dst dst_port
  modify (λ cs. record cs { dst_type = dst_kind })

unfoldable pub set_arrow : Text → Text → Text → M ConnectString (Unit {0})
unfolding set_ends
set_arrow left arrow right =
    if text_eq arrow (codes "<->")
    then modify (λ cs. record cs { bidirectional = true }) >> set_ends left right
    else (if text_eq arrow (codes "<-")
        then modify (λ cs. record cs { invert = true }) >> set_ends right left
        else set_ends left right)

unfoldable pub matched : Option (Text × (Text × Text)) → M ConnectString (Unit {0})
unfolding set_arrow
matched none = throw plain_exception
matched (some groups) = set_arrow groups.0 groups.1.0 groups.1.1

-- ConnectString::parseString, as the constructor calls it: `invert` is false.
unfoldable pub parse_string : Text → M ConnectString (Unit {0})
unfolding regex_match matched
parse_string text =
    if is_empty text
    then pure tt
    else (if text_eq text (codes "loopback")
        then modify
            (λ cs. record cs { src_type = loopback; dst_type = loopback; bidirectional = true })
        else matched (regex_match text))

-- The cores that configCrossBar looks up: the DMA controller, the Aurora channels by their number, and
-- the two Dino boards.
pub data Device : Type 0 where
  dma_device : Device
  aurora_channel : ℕ → Device
  dino_dac dino_adc : Device

-- The card: its lookups, and the connection of two cores by their default ports.
pub record Crossbar (H : Type 0) : Type 0 where
  pub has : Device → H → Bool
  pub connect_loopback : M H Bool
  pub connect : Device → Device → M H Bool

module _ {H : Type 0} (card : Crossbar H) where
  unfoldable pub look_up : Device → M H (Unit {0})
  look_up device = do
    found ← gets (card.has device)
    if found then pure tt else throw plain_exception

  -- getAuroraChannels
  unfoldable pub get_aurora_channels : M H (List Device)
  unfolding look_up
  get_aurora_channels = do
    look_up (aurora_channel 0)
    look_up (aurora_channel 1)
    look_up (aurora_channel 2)
    look_up (aurora_channel 3)
    pure (map aurora_channel (0 ∷ 1 ∷ 2 ∷ 3 ∷ []))

  -- `(*aurora_channels)[port]`; beyond the vector, or at -1, the code has no defined behaviour, which is
  -- `hang` here.
  unfoldable pub channel_at : List Device → Option ℕ → M H Device
  channel_at channels none = hang
  channel_at channels (some port) = elim (get_elem? channels port) [ none ↦ hang | some d ↦ pure d ]

  -- The core of a type, with the Dino board that serves the direction.
  unfoldable pub device_of : Device → List Device → ConnectType → Option ℕ → M H Device
  unfolding channel_at
  device_of board channels dino port = pure board
  device_of board channels dma port = pure dma_device
  device_of board channels aurora port = channel_at channels port
  device_of board channels loopback port = channel_at channels port

  -- A core's board for the way back.
  abbrev pub swap_board : Device → ConnectType → Device → Device
  swap_board board dino device = board
  swap_board board kind device = device

  -- The end of configCrossBar: the results of the connections are dropped.
  unfoldable pub connect_both : ConnectString → Device → Device → M H (Unit {0})
  connect_both cs src dest = do
    _ ← card.connect src dest
    if cs.bidirectional
        then (do
          _ ←
              card.connect (swap_board dino_adc cs.dst_type dest)
                (swap_board dino_dac cs.src_type src)
          pure tt)
        else pure tt

  -- ConnectString::isDmaLoopback
  abbrev pub is_dma_loopback : ConnectString → Bool
  is_dma_loopback cs = elim cs.src_type [ loopback ↦ true | _ ↦ false ]

  -- ConnectString::configCrossBar
  unfoldable pub config_cross_bar : ConnectString → M H (Unit {0})
  unfolding look_up get_aurora_channels device_of connect_both
  config_cross_bar cs = do
    look_up dma_device
    if is_dma_loopback cs then (do _ ← card.connect_loopback; pure tt) else (do
      channels ← get_aurora_channels
      look_up dino_dac
      look_up dino_adc
      src ← device_of dino_adc channels cs.src_type cs.src_as_int
      dest ← device_of dino_dac channels cs.dst_type cs.dst_as_int
      connect_both cs src dest)
