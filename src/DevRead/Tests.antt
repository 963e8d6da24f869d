-- ===== src/DevRead/Tests.antt =====
-- Runs of dev_read.c, on a device of four bytes and on a file whose first read fails.
use mad_devicedriver.Prelude.{
  ℕ, zero, suc, ◌≡◌, refl, arith, min, if◌then◌else◌, some, List, [], ◌∷◌, ◌==◌, ◌<◌, ◌∙◌, length,
  slice,
}
use mad_devicedriver.Prelude.Text.{span, length-span}
use mad_devicedriver.Prelude.Int.{ℤ, pos, negsuc}
use mad_devicedriver.Kernel.{Outcome, done, overrun, Uaccess, UaccessLaws}
use mad_devicedriver.Pcd.Transfer.{IsPlaced}
use mad_devicedriver.PcdPlatform.{PcdevPrivateData}
use mad_devicedriver.DevRead.{Answer, main, read_loop, max_size, open_pcdev_0, program}
use mad_devicedriver.DevRead.Total.{prints_what_is_there}

-- Memory by its address, all of it there.
abbrev written : (ℕ → ℕ) → ℕ → List ℕ → ℕ → ℕ
written m a [] = m
written m a (b ∷ bs) = written (λ i. if i == a then b else m i) (suc a) bs

abbrev open_memory : Uaccess (ℕ → ℕ)
open_memory = record {
  peek = span;
  copy_to_user = λ m a bs. (0, written m a bs);
  copy_from_user = λ m a n. (0, span m a n);
}

written-below : (m : ℕ → ℕ) (a : ℕ) (bs : List ℕ) (i : ℕ) → i < a → written m a bs i ≡ m i
written-below m a [] i h = refl
written-below m a (b ∷ bs) i h =
    written-below (λ j. if j == a then b else m j) (suc a) bs i (omega arith) ∙ ground arith

written-there : (m : ℕ → ℕ) (a : ℕ) (bs : List ℕ) → span (written m a bs) a (length bs) ≡ bs
written-there m a [] = refl
written-there m a (b ∷ bs) =
    let first : written m a (b ∷ bs) a ≡ b =
      written-below (λ j. if j == a then b else m j) (suc a) bs a (omega arith) ∙ ground arith in
    rw (first, written-there (λ j. if j == a then b else m j) (suc a) bs) refl

open_memory_laws : UaccessLaws open_memory
open_memory_laws = record {
  to_user_all = λ m a bs h. written-there m a bs;
  from_user_all = λ m a n h. refl;
  from_user_length = length-span;
}

abbrev four : PcdevPrivateData
four = record {
  pdata = record { size = 4; perm = 0x11; serial_number = "PCDEV1" };
  buffer = 1 ∷ 2 ∷ 3 ∷ 4 ∷ [];
  dev_num = 0;
}

abbrev other : PcdevPrivateData
other = record four { dev_num = 1 }

opens_four : open_pcdev_0 (other ∷ four ∷ []) ≡ some four
unfolding open_pcdev_0
opens_four = refl

four-IsPlaced : IsPlaced (max_size four) four.buffer 0
four-IsPlaced = record { fits_int = omega arith; backed = omega arith; within = omega arith }

prints_what_is_there_example :
    program open_memory 4096 2 (other ∷ four ∷ []) (λ i. 0) (pos 3000)
    ≡ done (record { ret = pos 0; printed = slice four.buffer 0 (min 3000 (max_size four)) })
prints_what_is_there_example =
    prints_what_is_there open_memory four 4096 (λ m a bs. refl) open_memory_laws (λ m a. refl)
      (other ∷ four ∷ []) (λ i. 0) 3000 opens_four four-IsPlaced (omega arith) (omega arith)

-- The first read fails, and each later one gives a byte; the state counts the reads.
abbrev flaky : ℕ → ℤ → ℤ → Outcome (Answer ℕ)
flaky zero at count = done (record { ret = negsuc 0; put = 0; after = 1 })
flaky (suc s) at count = done (record { ret = pos 1; put = 1; after = suc (suc s) })

flaky_runs : main flaky 0 (pos 10) ≡ overrun
unfolding main read_loop
flaky_runs = refl
