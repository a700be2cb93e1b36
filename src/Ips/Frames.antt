-- ===== src/Ips/Frames.antt =====
-- The waits of Gpu2Rtds::getMaxFrameSize in lib/ips/rtds2gpu/gpu2rtds.cpp.
use fpga.Prelude.{
  ℕ, zero, suc, ◌<◌, Bool, true, false, not, if◌then◌else◌, ◌≡◌, refl, ap, ◌∙◌, arith, returned,
  pure, modify, gets, run, bind_returned, focus_returned, focus, ◌>>=◌,
}
use fpga.Ips.Hls.{Hls, HlsRegisters, start, is_finished}
use fpga.Ips.RtdsGpu.{
  Platform, Frames, status_of, in_hls, call, act, await_finished, await_status,
  gpu2rtds_get_max_frame_size,
}

module _ {H : Type 0} (read : H → Bool × H) where
  -- The first `n` reads of a flag answer false, and the next one true.
  abbrev pub Shows : ℕ → H → Type 0
  Shows zero h = (read h).0 ≡ true
  Shows (suc n) h = ((read h).0 ≡ false) × Shows n (read h).1

  -- The hardware behind those reads.
  abbrev pub behind : ℕ → H → H
  behind zero h = (read h).1
  behind (suc n) h = behind n (read h).1

module _ {H : Type 0} (registers : HlsRegisters H) (platform : Platform H) where
  is_finished-running :
      (h : H) (b : Bool)
      → (registers.get_ap_idle h).0 ≡ b
      → is_finished registers (record { hw = h; running = true })
        ≡ returned b (record { hw = (registers.get_ap_idle h).1; running = not b })
  unfolding is_finished run modify gets pure ◌>>=◌
  is_finished-running h b e =
      read (registers.get_ap_idle h).0
      ∙ ap (λ c. returned c (record { hw = (registers.get_ap_idle h).1; running = not c })) e
    where
      read :
          (c : Bool)
          → ((if c then modify (λ (s : Hls H). record s { running = false }) else pure tt) >>= λ _.
                gets (λ s. not s.running))
              (record { hw = (registers.get_ap_idle h).1; running = true })
            ≡ returned c (record { hw = (registers.get_ap_idle h).1; running = not c })
      read true = refl
      read false = refl

  await_finished-returns :
      (n fuel : ℕ) (s : Frames H) (h : H)
      → n < fuel
      → Shows registers.get_ap_idle n h
      → await_finished registers platform fuel
          (record s { hls = record { hw = h; running = true } })
        ≡ returned tt
            (record s { hls = record { hw = behind registers.get_ap_idle n h; running = false } })
  unfolding await_finished in_hls pure
  await_finished-returns n zero s h l shows = absurd (omega arith)
  await_finished-returns zero (suc fuel) s h l shows =
      bind_returned (in_hls registers platform (is_finished registers)) _
        (focus_returned _ _ _ (is_finished-running h true shows))
  await_finished-returns (suc n) (suc fuel) s h l (waits, shows) =
      bind_returned (in_hls registers platform (is_finished registers)) _
        (focus_returned _ _ _ (is_finished-running h false waits))
      ∙ await_finished-returns n fuel s (registers.get_ap_idle h).1 (omega arith) shows

  call_returned :
      {A : Type 0} (f : H → A × H) (s : Frames H) (a : A)
      → (f s.hls.hw).0 ≡ a
      → call registers platform f s
        ≡ returned a (record s { hls = record s.hls { hw = (f s.hls.hw).1 } })
  unfolding call in_hls run focus
  call_returned f s a e =
      ap (λ b. returned b (record s { hls = record s.hls { hw = (f s.hls.hw).1 } })) e

  await_status-returns :
      (n fuel : ℕ) (s : Frames H)
      → n < fuel
      → Shows platform.status_vld n s.hls.hw
      → await_status registers platform fuel s
        ≡ returned tt
            (record s { hls = record s.hls { hw = behind platform.status_vld n s.hls.hw } })
  unfolding await_status pure
  await_status-returns n zero s l shows = absurd (omega arith)
  await_status-returns zero (suc fuel) s l shows =
      bind_returned (call registers platform platform.status_vld) _
        (call_returned platform.status_vld s true shows)
  await_status-returns (suc n) (suc fuel) s l (waits, shows) =
      bind_returned (call registers platform platform.status_vld) _
        (call_returned platform.status_vld s false waits)
      ∙ await_status-returns n fuel
          (record s { hls = record s.hls { hw = (platform.status_vld s.hls.hw).1 } }) (omega arith)
          shows

  -- The hardware behind the start of a frame of length 0.
  abbrev pub asked : Frames H → H
  asked s = registers.set_ap_start true (platform.set_frame_size 0 s.hls.hw)

  act_returned :
      (s : Frames H)
      → act registers platform (platform.set_frame_size 0) s
        ≡ returned tt (record s { hls = record s.hls { hw = platform.set_frame_size 0 s.hls.hw } })
  unfolding act in_hls focus modify
  act_returned s = refl

  start_returned :
      (s : Frames H)
      → in_hls registers platform
          (start registers)
          (record s { hls = record s.hls { hw = platform.set_frame_size 0 s.hls.hw } })
        ≡ returned true (record s { hls = record { hw = asked s; running = true } })
  unfolding in_hls focus start modify pure ◌>>=◌
  start_returned s = refl

  -- Where the core, once it is started with the frame size 0, shows after some reads that it is idle, and
  -- after some more that its status is valid, `gpu2rtds_get_max_frame_size` comes back, with any fuel
  -- above both numbers of reads. It answers the maximum frame size that the status register then
  -- shows, leaves the core not running, and changes no other member.
  pub gpu2rtds_get_max_frame_size-returns :
      (idle_reads valid_reads fuel : ℕ) (s : Frames H)
      → idle_reads < fuel
      → valid_reads < fuel
      → Shows registers.get_ap_idle idle_reads (asked s)
      → Shows platform.status_vld valid_reads (behind registers.get_ap_idle idle_reads (asked s))
      → let ready =
          behind platform.status_vld valid_reads
            (behind registers.get_ap_idle idle_reads (asked s)) in
        gpu2rtds_get_max_frame_size registers platform fuel s
        ≡ returned
            (status_of (platform.read_status ready).0).max_frame_size
            (record s { hls = record { hw = (platform.read_status ready).1; running = false } })
  unfolding gpu2rtds_get_max_frame_size pure
  gpu2rtds_get_max_frame_size-returns n m fuel s ln lm idle valid =
      bind_returned (act registers platform (platform.set_frame_size 0)) _ (set_size s)
      ∙ (bind_returned (in_hls registers platform (start registers)) _ (started s)
          ∙ (bind_returned (await_finished registers platform fuel) _
                (await_finished-returns n fuel s (asked s) ln idle)
              ∙ (bind_returned (await_status registers platform fuel) _
                    (await_status-returns m fuel (idled s) lm valid)
                  ∙ bind_returned (call registers platform platform.read_status) _
                      (call_returned platform.read_status (shown s) _ refl))))
    where
      sized : Frames H → Frames H
      sized s = record s { hls = record s.hls { hw = platform.set_frame_size 0 s.hls.hw } }

      set_size :
          (s : Frames H)
          → act registers platform (platform.set_frame_size 0) s ≡ returned tt (sized s)
      set_size s = act_returned s

      started :
          (s : Frames H)
          → in_hls registers platform (start registers) (sized s)
            ≡ returned true (record s { hls = record { hw = asked s; running = true } })
      started s = start_returned s

      idled : Frames H → Frames H
      idled s = record s {
        hls = record { hw = behind registers.get_ap_idle n (asked s); running = false };
      }

      shown : Frames H → Frames H
      shown s = record s {
        hls = record {
          hw = behind platform.status_vld m (behind registers.get_ap_idle n (asked s));
          running = false;
        };
      }
