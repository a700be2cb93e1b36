-- ===== src/Registers/Examples.antt =====
-- The theorems of lib/ips/register.cpp at a bus that is the words at its offsets.
use fpga.Prelude.{ℕ, true, false, ◌==◌, ◌>>=◌, if◌then◌else◌, ◌≡◌, ◌↔◌, refl, Ensures}
use fpga.Registers.{Bus, register_out, check}
use fpga.Registers.Memory.{Quiet, FailsNever, Numbered, written, check-Numbered}

abbrev words : Bus (ℕ → ℕ)
words = record {
  in32 = λ offset h. (h offset, h);
  out32 = λ offset value h i. if offset == i then value else h i;
}

abbrev zeros : ℕ → ℕ
zeros i = 0

-- The second register always gives 5.
abbrev stuck_at_5 : Bus (ℕ → ℕ)
stuck_at_5 = record {
  in32 = λ offset h. (if offset == 8 then 5 else h offset, h);
  out32 = λ offset value h i. if offset == i then value else h i;
}

test_stuck : Ensures (λ ok _. ok ≡ false) FailsNever (check stuck_at_5 7 8 zeros)
unfolding check ◌>>=◌
test_stuck = refl

words_quiet : Quiet words
words_quiet = record {
  reads = λ h i. h (register_out i);
  reads-in = λ i offset h. refl;
  in-reads = λ i h small. refl;
}

check-Numbered_example :
    Ensures
      (λ ok _. (ok ≡ true) ↔ Numbered words words_quiet 7 1 (written words words_quiet 7 1 zeros))
      FailsNever
      (check words 7 8 zeros)
check-Numbered_example = check-Numbered words words_quiet 7 8 zeros
