-- ===== src/Crossbar/Connections.antt =====
-- What configCrossBar of lib/utils.cpp connects.
use fpga.Prelude.{
  ℕ, zero, suc, Bool, true, false, List, [], ◌∷◌, Option, none, some, map, if◌then◌else◌, ltb, ◌≡◌,
  refl, sym, ap, ap₂, ◌∙◌, throw, threw, plain_exception, M, Outcome, returned, stuck, ◌>>=◌, pure,
  arith,
}
use fpga.Crossbar.{
  ConnectType, aurora, dma, dino, loopback, ConnectString, Device, dma_device, aurora_channel,
  dino_dac, dino_adc, Crossbar, look_up, get_aurora_channels, channel_at, swap_board, device_of,
  connect_both, is_dma_loopback, config_cross_bar,
}

-- The Aurora channel of a port; there are four of them.
unfoldable pub numbered : Option ℕ → Option Device
numbered none = none
numbered (some port) = if ltb port 4 then some (aurora_channel port) else none

-- The core that serves an end of a connection.
unfoldable pub end_of : Device → ConnectType → Option ℕ → Option Device
unfolding numbered
end_of board dino port = some board
end_of board dma port = some dma_device
end_of board aurora port = numbered port
end_of board loopback port = numbered port

module _ {H : Type 0} (card : Crossbar H) where
  -- Every lookup of configCrossBar succeeds.
  abbrev pub AllFound : H → Type 0
  AllFound h = (device : Device) → card.has device h ≡ true

  -- What configCrossBar does with the cores of its two ends; a missing one is an access outside the
  -- vector of the channels.
  unfoldable pub connect_ends : ConnectString → Option Device → Option Device → M H (Unit {0})
  connect_ends cs (some src) (some dest) h = connect_both card cs src dest h
  connect_ends cs (some src) none h = stuck h
  connect_ends cs none dest h = stuck h

  four : List Device
  four = map aurora_channel (0 ∷ 1 ∷ 2 ∷ 3 ∷ [])

  channel_of_port :
      (port : Option ℕ) (f : Device → M H (Unit {0})) (h : H)
      → (channel_at card four port >>= f) h
        ≡ elim (numbered port) [ none ↦ stuck h | some d ↦ f d h ]
  unfolding channel_at numbered ◌>>=◌ four
  channel_of_port none f h = refl
  channel_of_port (some zero) f h = refl
  channel_of_port (some (suc zero)) f h = refl
  channel_of_port (some (suc (suc zero))) f h = refl
  channel_of_port (some (suc (suc (suc zero)))) f h = refl
  channel_of_port (some (suc (suc (suc (suc n))))) f h = rw (beyond n) refl
    where
      beyond : (k : ℕ) → ltb (suc (suc (suc (suc k)))) 4 ≡ false
      beyond k = ground arith

  device_at :
      (board : Device) (kind : ConnectType) (port : Option ℕ) (f : Device → M H (Unit {0})) (h : H)
      → (device_of card board four kind port >>= f) h
        ≡ elim (end_of board kind port) [ none ↦ stuck h | some d ↦ f d h ]
  unfolding device_of end_of ◌>>=◌
  device_at board dino port f h = refl
  device_at board dma port f h = refl
  device_at board aurora port f h = channel_of_port port f h
  device_at board loopback port f h = channel_of_port port f h

  found_at :
      {A : Type 0} (b : Bool) (m : M H A) (h : H)
      → b ≡ true
      → ((if b then pure tt else throw plain_exception) >>= λ _. m) h ≡ m h
  unfolding ◌>>=◌
  found_at true m h e = refl
  found_at false m h e = absurd cc

  found_then :
      {A : Type 0} (device : Device) (m : M H A) (h : H)
      → card.has device h ≡ true
      → (look_up card device >>= λ _. m) h ≡ m h
  unfolding look_up ◌>>=◌
  found_then device m h found = found_at (card.has device h) m h found

  found_in :
      {A B : Type 0} (device : Device) (m : M H A) (f : A → M H B) (h : H)
      → card.has device h ≡ true
      → ((look_up card device >>= λ _. m) >>= f) h ≡ (m >>= f) h
  unfolding ◌>>=◌
  found_in device m f h found =
      ap (λ o. elim o [ returned a s ↦ f a s | threw e s ↦ threw e s | stuck s ↦ stuck s ])
        (found_then device m h found)

  all_channels :
      {B : Type 0} (f : List Device → M H B) (h : H)
      → AllFound h
      → (get_aurora_channels card >>= f) h ≡ f four h
  unfolding get_aurora_channels ◌>>=◌ four
  all_channels f h all =
      found_in (aurora_channel 0) _ f h (all (aurora_channel 0))
      ∙ (found_in (aurora_channel 1) _ f h (all (aurora_channel 1))
          ∙ (found_in (aurora_channel 2) _ f h (all (aurora_channel 2))
              ∙ found_in (aurora_channel 3) _ f h (all (aurora_channel 3))))

  -- The two cores, one behind the other.
  both_ends :
      (cs : ConnectString) (h : H)
      → (device_of card dino_adc four cs.src_type cs.src_as_int >>= λ src.
            device_of card dino_dac four cs.dst_type cs.dst_as_int >>= λ dest.
            connect_both card cs src dest)
          h
        ≡ connect_ends cs
            (end_of dino_adc cs.src_type cs.src_as_int)
            (end_of dino_dac cs.dst_type cs.dst_as_int)
            h
  unfolding connect_ends
  both_ends cs h =
      device_at dino_adc cs.src_type cs.src_as_int _ h
      ∙ source (end_of dino_adc cs.src_type cs.src_as_int)
    where
      dest_of :
          (src : Device) (found : Option Device)
          → elim found as (λ _. Outcome H (Unit {0})) [
            | none ↦ stuck h
            | some d ↦ connect_both card cs src d h
          ]
            ≡ connect_ends cs (some src) found h
      dest_of src none = refl
      dest_of src (some d) = refl

      source :
          (found : Option Device)
          → elim found as (λ _. Outcome H (Unit {0})) [
            | none ↦ stuck h
            | some src ↦
                (device_of card dino_dac four cs.dst_type cs.dst_as_int >>= λ dest.
                connect_both card cs src dest)
                  h
          ]
            ≡ connect_ends cs found (end_of dino_dac cs.dst_type cs.dst_as_int) h
      source none = refl
      source (some src) =
          device_at dino_dac cs.dst_type cs.dst_as_int (connect_both card cs src) h
          ∙ dest_of src (end_of dino_dac cs.dst_type cs.dst_as_int)

  -- A connection of one direction: the ADC serves a source on the Dino boards, the DAC a destination.
  -- A missing core is an access outside the vector of the channels.
  unfoldable pub between : Option Device → Option Device → M H Bool
  between none dest h = stuck h
  between (some src) none h = stuck h
  between (some src) (some dest) h = card.connect src dest h

  unfoldable pub directed : ConnectType → Option ℕ → ConnectType → Option ℕ → M H Bool
  unfolding between
  directed src_type src_port dst_type dst_port =
      between (end_of dino_adc src_type src_port) (end_of dino_dac dst_type dst_port)

  -- The connection from the source to the destination, and then the one back where there are both.
  unfoldable pub connections : ConnectString → M H (Unit {0})
  unfolding directed
  connections cs = do
    _ ← directed cs.src_type cs.src_as_int cs.dst_type cs.dst_as_int
    if cs.bidirectional
        then (do _ ← directed cs.dst_type cs.dst_as_int cs.src_type cs.src_as_int; pure tt)
        else pure tt

  -- The core of an end for the way back
  back_end :
      (board other : Device) (kind : ConnectType) (port : Option ℕ) (d : Device)
      → end_of other kind port ≡ some d
      → end_of board kind port ≡ some (swap_board card board kind d)
  unfolding end_of
  back_end board other dino port d e = refl
  back_end board other dma port d e = e
  back_end board other aurora port d e = e
  back_end board other loopback port d e = e

  directed_at :
      (src_type dst_type : ConnectType) (src_port dst_port : Option ℕ) (src dest : Option Device)
      → end_of dino_adc src_type src_port ≡ src
      → end_of dino_dac dst_type dst_port ≡ dest
      → directed src_type src_port dst_type dst_port ≡ between src dest
  unfolding directed
  directed_at src_type dst_type src_port dst_port src dest e e' = ap₂ between e e'

  both_ways :
      (cs : ConnectString) (h : H)
      → connect_ends cs
          (end_of dino_adc cs.src_type cs.src_as_int)
          (end_of dino_dac cs.dst_type cs.dst_as_int)
          h
        ≡ connections cs h
  unfolding connect_ends connections connect_both between ◌>>=◌
  both_ways cs h =
      ends (end_of dino_adc cs.src_type cs.src_as_int) (end_of dino_dac cs.dst_type cs.dst_as_int)
        refl refl
    where
      back : M H Bool → M H (Unit {0})
      back m = if cs.bidirectional then (m >>= λ _. pure tt) else pure tt

      forth :
          (src dest : Option Device)
          → end_of dino_adc cs.src_type cs.src_as_int ≡ src
          → end_of dino_dac cs.dst_type cs.dst_as_int ≡ dest
          → connections cs h
            ≡ (between src dest >>= λ _.
                  back (directed cs.dst_type cs.dst_as_int cs.src_type cs.src_as_int))
                h
      forth src dest e e' =
          ap
            (λ m.
              (m >>= λ _. back (directed cs.dst_type cs.dst_as_int cs.src_type cs.src_as_int)) h)
            (directed_at cs.src_type cs.dst_type cs.src_as_int cs.dst_as_int src dest e e')

      ends :
          (src dest : Option Device)
          → end_of dino_adc cs.src_type cs.src_as_int ≡ src
          → end_of dino_dac cs.dst_type cs.dst_as_int ≡ dest
          → connect_ends cs src dest h ≡ connections cs h
      ends none dest e e' = sym (forth none dest e e')
      ends (some src) none e e' = sym (forth (some src) none e e')
      ends (some src) (some dest) e e' = sym (
          forth (some src) (some dest) e e'
          ∙ ap (λ m. (card.connect src dest >>= λ _. back m) h)
              (directed_at cs.dst_type cs.src_type cs.dst_as_int cs.src_as_int
                (some (swap_board card dino_adc cs.dst_type dest))
                (some (swap_board card dino_dac cs.src_type src))
                (back_end dino_adc dino_dac cs.dst_type cs.dst_as_int dest e')
                (back_end dino_dac dino_adc cs.src_type cs.src_as_int src e)))

  -- Where every core is found and the line is not a loopback, `configCrossBar` connects the core of the
  -- source to the core of the destination, and for a bidirectional line then connects as for the line
  -- with its ends exchanged. It reads outside the vector of the four channels where an end is an
  -- Aurora channel with a port from 4 on.
  pub config_cross_bar-connects :
      (cs : ConnectString) (h : H)
      → AllFound h
      → is_dma_loopback card cs ≡ false
      → config_cross_bar card cs h ≡ connections cs h
  unfolding config_cross_bar
  config_cross_bar-connects cs h all straight =
      found_then dma_device _ h (all dma_device)
      ∙ (branch (is_dma_loopback card cs) _ _ straight
          ∙ (all_channels _ h all
              ∙ (found_then dino_dac _ h (all dino_dac)
                  ∙ (found_then dino_adc _ h (all dino_adc) ∙ (both_ends cs h ∙ both_ways cs h)))))
    where
      branch : (b : Bool) (m n : M H (Unit {0})) → b ≡ false → (if b then m else n) h ≡ n h
      branch true m n e = absurd cc
      branch false m n e = refl
