-- ===== src/Programs/Examples.antt =====
-- Tests of the formatters and of the command line programs on small values and a controller with a queue,
-- and their theorems there.
use fpga.Prelude.{
  ℕ, ◌*◌, ◌+◌, true, false, List, [], ◌∷◌, ◌++◌, Option, none, some, neg, ap, ◌≡◌, refl, inr, arith,
  Text, codes, replicate, map, pos, ℤ, Outcome, Ensures, Spec, Error, Spec-run, pure, run, returned,
  threw, stuck, ◌>>=◌, ◌>>◌, focus, invalid_argument, stoi, Text-discrete, ◌⊎◌, is_empty, All,
}
use fpga.Crossbar.{Crossbar, get_aurora_channels, config_cross_bar}
use fpga.CInterface.{parsed_connect_string}
use fpga.Programs.Formatter.{
  Formatter, Printf, new_formatter, short_size, long_size, format_short, format_long,
  get_buffered_sample_formatter, buffered_output, format_all,
}
use fpga.Programs.Sample.{Fits}
use fpga.Programs.Bounds.{Formats, Unknown, format_all-overrun}
use fpga.Programs.Buffer.{Clear}
use fpga.Programs.Printed.{Whole, join, format_short-buffered_output}
use fpga.Programs.PrintedLong.{LongText, format_long-buffered_output}
use fpga.Programs.Transfers.{
  Calls, Values, Stdout, store_values, receive, print_block, read_from_dma,
}
use fpga.Programs.Stored.{Stored, store_values-Stored, numbers}
use fpga.Programs.InOrder.{QueueLaws, next_block, PrintedBlock, read_from_dma-PrintedBlock}
use fpga.Programs.Main.{CardCalls, exit_code, terminated, Options, ctrl_main}
use fpga.Programs.Pipe.{parse_int}
use fpga.Programs.Streams.{NoDma}
use fpga.Programs.Exits.{ctrl_main-exits}

-- A short text of 14 characters, and a long one of 21.
abbrev digits : Printf ℕ
digits = record {
  short = λ d. codes "000000" ++ ((d + 48) ∷ codes ".00000\n");
  long = λ n d. (n + 48) ∷ ((d + 48) ∷ codes "0000000000000000.0\n");
}

digits-Fits : (v : ℕ) → Fits digits v
digits-Fits v = ((omega arith, omega arith), λ count small. (omega arith, omega arith))

digits-Whole : (v : ℕ) → Whole digits v
digits-Whole v = (omega arith, omega arith)

digits-LongText : (v : ℕ) → LongText digits v
digits-LongText v = λ count small. (omega arith, omega arith)

short-Clear : Clear (new_formatter 2 short_size)
short-Clear = record { empty = (replicate 28 0, refl); room = refl; start = refl }

long-Clear : Clear (new_formatter 2 long_size)
long-Clear = record { empty = (replicate 44 0, refl); room = refl; start = refl }

abbrev printed : Outcome Formatter Text → Text
printed (returned text f) = text
printed (threw e f) = []
printed (stuck f) = []

test_short :
    printed (
      (format_all (format_short digits) (1 ∷ 2 ∷ []) >> buffered_output)
        (new_formatter 2 short_size))
    ≡ codes "0000001.00000\n0000002.00000\n"
unfolding format_all buffered_output ◌>>=◌ format_short
test_short = refl

test_long :
    printed (
      (format_all (format_long digits) (1 ∷ 2 ∷ []) >> buffered_output) (new_formatter 2 long_size))
    ≡ codes "010000000000000000.0\n"
unfolding format_all buffered_output ◌>>=◌ format_long
test_long = refl

abbrev empty_block : Values ℤ
empty_block = record { mem = pos 0 ∷ pos 0 ∷ []; overrun = false }

abbrev mem_of : Outcome (Values ℤ) ℕ → List ℤ
mem_of (returned n v) = v.mem
mem_of (threw e v) = v.mem
mem_of (stuck v) = v.mem

test_store :
    mem_of (store_values parse_int (codes "7" ∷ [] ∷ codes "-3" ∷ []) 0 empty_block)
    ≡ pos 7 ∷ neg 3 ∷ []
unfolding store_values parse_int stoi ◌>>=◌
test_store = refl

test_store_fails :
    store_values parse_int (codes "7" ∷ codes "x" ∷ []) 0 empty_block
    ≡ threw invalid_argument (record { mem = pos 7 ∷ pos 0 ∷ []; overrun = false })
unfolding store_values parse_int stoi ◌>>=◌
test_store_fails = refl

store_values-Stored_example :
    Stored 0 empty_block
      (numbers parse_int (codes "7" ∷ codes "x" ∷ []))
      (store_values parse_int (codes "7" ∷ codes "x" ∷ []) 0 empty_block)
store_values-Stored_example =
    store_values-Stored parse_int (codes "7" ∷ codes "x" ∷ []) 0 empty_block

abbrev fresh_state : ℕ
fresh_state = 0

format_all-overrun_example :
    Ensures
      (λ made s. Formats 2 (1 ∷ 2 ∷ 3 ∷ []) made)
      (λ e s. Unknown (codes "short") e)
      (get_buffered_sample_formatter digits (codes "short") 2 fresh_state)
format_all-overrun_example =
    format_all-overrun digits (codes "short") 2 (1 ∷ 2 ∷ 3 ∷ []) fresh_state
      (digits-Fits 1, (digits-Fits 2, (digits-Fits 3, tt)))

format_short-buffered_output_example :
    (g : Formatter) × (format_all (format_short digits) (1 ∷ 2 ∷ []) (new_formatter 2 short_size)
      ≡ returned tt g)
    × ((h : Formatter) × (buffered_output g ≡ returned (join (map digits.short (1 ∷ 2 ∷ []))) h)
        × Clear h)
format_short-buffered_output_example =
    format_short-buffered_output digits (new_formatter 2 short_size) (1 ∷ 2 ∷ [])
      (digits-Whole 1, (digits-Whole 2, tt)) short-Clear refl (omega arith) (omega arith)

format_long-buffered_output_example :
    (g : Formatter) × (format_all (format_long digits) (1 ∷ 2 ∷ []) (new_formatter 2 long_size)
      ≡ returned tt g)
    × ((h : Formatter) × (buffered_output g ≡ returned (codes "010000000000000000.0\n") h)
        × Clear h)
format_long-buffered_output_example =
    format_long-buffered_output digits (new_formatter 2 long_size) 1 (2 ∷ [])
      (digits-LongText 1, (digits-LongText 2, tt)) (omega arith) long-Clear refl (omega arith)

-- A controller with a queue of blocks, and the block that it has completed.
record Queue : Type 0 where
  waiting : List ℕ
  last : Option ℕ
  shown : List ℕ

abbrev take_first : Queue → Queue
take_first q = elim q.waiting [
  | [] ↦ q
  | b ∷ blocks ↦ record { waiting = blocks; last = some b; shown = [] }
]

abbrev queue : Calls Queue
queue = record {
  write = λ block bytes. pure true;
  read = λ block bytes. run (λ q. (true, record q { waiting = q.waiting ++ (block ∷ []) }));
  write_complete = pure (record { bytes = 0; bds = 0; interrupts = 0 });
  read_complete = run (λ q. (record { bytes = 8; bds = 1; interrupts = 1 }, take_first q));
  getline = λ q. (codes "1", q);
  print = λ text q. q;
  printf = λ n word q. record q { shown = q.shown ++ (word ∷ []) };
  tokenize = λ line. line ∷ [];
  word = λ block i q. 100 * block + i;
}

queue_laws : QueueLaws queue
queue_laws = record {
  pending = λ q. q.waiting;
  completed = λ q. q.last;
  printed = λ q. q.shown;
  read-pending = λ block bytes blocks. Spec-run _ λ q h. ap (λ l. l ++ (block ∷ [])) h;
  read_complete-pending = λ block blocks. Spec-run _ λ q h. ground arith;
  print-pending = λ text q. refl;
  print-completed = λ text q. refl;
  print-printed = λ text q. refl;
  print-word = λ text q block i. refl;
  printf-pending = λ n word q. refl;
  printf-completed = λ n word q. refl;
  printf-printed = λ n word q. refl;
  printf-word = λ n word q block i. refl;
}

abbrev started : Stdout Queue
started = record {
  hw = record { waiting = []; last = none; shown = [] };
  formatter = new_formatter 2 short_size;
  cur = 0;
  next = 0;
  cnt = 0;
}

read_from_dma-PrintedBlock_example :
    Spec
      (λ s. s.hw.waiting ≡ [])
      (read_from_dma queue (λ w. w) (format_short digits) 3
        >> next_block queue queue_laws (λ w. w) (format_short digits))
      (PrintedBlock queue queue_laws (λ w. w) (format_short digits))
      (λ e s. Unit {0})
unfolding queue_laws
read_from_dma-PrintedBlock_example =
    read_from_dma-PrintedBlock queue queue_laws (λ w. w) (format_short digits) 3

abbrev blocks_of : {A : Type 0} → Outcome (Stdout Queue) A → List ℕ
blocks_of (returned a s) = s.cur ∷ s.hw.shown
blocks_of (threw e s) = []
blocks_of (stuck s) = []

test_rounds :
    blocks_of (
      (read_from_dma queue (λ w. w) (format_short digits) 3
          >> next_block queue queue_laws (λ w. w) (format_short digits))
        started)
    ≡ 1 ∷ 100 ∷ 101 ∷ []
unfolding read_from_dma receive print_block ◌>>=◌ format_short focus buffered_output
test_rounds = refl

abbrev full_card : Crossbar Queue
full_card = record {
  has = λ device h. true;
  connect_loopback = λ h. returned true h;
  connect = λ src dest h. returned true h;
}

abbrev card_calls : CardCalls Queue
card_calls = record {
  setup_fpga_card = λ file. pure tt;
  dump_graph = λ q. q;
  dump_aurora = λ device. pure tt;
  connect_by_default_ports = λ src dest. pure true;
  allocate_block = pure 1;
  start_reader = λ f. pure tt;
  make_accesible_from_va = λ block. pure true;
}

abbrev looped : Options
looped = record {
  config_file = codes "f";
  connect_str = codes "1->2" ∷ [];
  no_dma = false;
  output_format = codes "short";
  dump_graph = false;
}

abbrev no_float : Text → ℕ ⊎ Error
no_float text = inr invalid_argument

test_ctrl :
    ctrl_main full_card card_calls queue no_float digits [] 2 looped started.hw
    ≡ returned (exit_code (pos 0)) started.hw
unfolding ctrl_main ◌>>=◌ stoi Text-discrete get_aurora_channels parsed_connect_string
    config_cross_bar
test_ctrl = refl

-- The reader's thread runs when std::stof throws.
test_ctrl_terminated :
    ctrl_main full_card card_calls queue no_float digits [] 2
      (record looped { connect_str = codes "1<->dma" ∷ [] })
      started.hw
    ≡ returned terminated started.hw
unfolding ctrl_main ◌>>=◌ stoi Text-discrete get_aurora_channels parsed_connect_string
    config_cross_bar get_buffered_sample_formatter focus
test_ctrl_terminated = refl

ctrl_main-exits_example :
    Spec
      (λ w. Unit {0})
      (ctrl_main full_card card_calls queue no_float digits [] 2 looped)
      (λ x w.
        x ≡ exit_code (pos 0)
        → (is_empty looped.config_file ≡ false)
          × ((looped.no_dma ≡ true) ⊎ All NoDma looped.connect_str))
      (λ e w. e ≡ none)
ctrl_main-exits_example = ctrl_main-exits full_card card_calls queue no_float digits [] 2 looped
