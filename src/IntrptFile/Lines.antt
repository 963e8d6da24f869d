-- ===== src/IntrptFile/Lines.antt =====
-- What the module of intrpt_drv.c holds, whatever the kernel grants.
use mad_devicedriver.Prelude.{ℕ, ◌+◌, ◌*◌, ◌≡◌, arith, [], ◌++◌, true, Option, none, some, length}
use mad_devicedriver.Kernel.{Errno, value}
use mad_devicedriver.Setup.{replay, nothing}
use mad_devicedriver.IntrptFile.{Answers, intrpt_init, intrpt_exit}

-- 1 for a request that was refused.
abbrev pub refusals : Option Errno → ℕ
refusals none = 0
refusals (some e) = 1

-- With the file created, the init function returns 0 whatever becomes of the lines and the
-- interrupts, and the exit function leaves nothing held; but it gives back each line and interrupt
-- that was refused, which the module does not hold.
pub exit_releases_refused :
    (k : Answers)
    → k.proc_create ≡ true
    → let l = replay ((intrpt_init k).1 ++ intrpt_exit) nothing in
      ((intrpt_init k).0 ≡ value 0)
      × (l.held ≡ [])
      × (length l.stray
          ≡ refusals (k.request_irq 0)
            + refusals (k.request_irq 1)
            + 2 * refusals k.gpio_request_array)
unfolding intrpt_init intrpt_exit
exit_releases_refused k created = ground arith
