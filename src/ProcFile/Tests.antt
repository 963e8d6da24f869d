-- ===== src/ProcFile/Tests.antt =====
-- Runs of blocking_drv.c's file: two processes at the gate, and a text written and read.
use mad_devicedriver.Prelude.{
  ℕ, zero, suc, ◌<◌, ◌≡◌, refl, arith, [], ◌∷◌, true, false, some, length, take, replicate,
  get_elem?,
}
use mad_devicedriver.Kernel.{error, enomem}
use mad_devicedriver.Setup.{proc_file, release}
use mad_devicedriver.ProcFile.{
  State, message_length, output_msg_size, module_output, module_input, sleep_init,
}
use mad_devicedriver.ProcFile.Waiting.{
  outside, looking, waiting, opened, enter, exchange, queue_up, sleep, System, Step, pick, Reach,
  here, next,
}
use mad_devicedriver.ProcFile.Exclusion.{Inv, loaded, one_opener}
use mad_devicedriver.ProcFile.Progress.{sleeper_gets_in}
use mad_devicedriver.ProcFile.Echo.{echoed, text_given_back}

-- The first process has the file open, and the second sleeps.
abbrev contended : System
contended = record { gate = record { already_open = 1; refs = 2 }; pcs = opened ∷ waiting ∷ [] }

Reach-contended : Reach (loaded 2) contended
Reach-contended =
    next
      (next
        (next
          (next (next here (pick [] (outside ∷ []) refl enter))
            (pick [] (outside ∷ []) refl (exchange refl)))
          (pick (opened ∷ []) [] refl enter))
        (pick (opened ∷ []) [] refl (queue_up (omega arith))))
      (pick (opened ∷ []) [] refl (sleep (omega arith)))

one_opener_example : Inv contended
one_opener_example = one_opener 2 Reach-contended

sleeper_gets_in_example :
    (j : ℕ) × (get_elem? contended.pcs j ≡ some opened)
    × (t : System) × Step contended t
    × (t.gate.already_open ≡ 0)
    × (get_elem? t.pcs 1 ≡ some looking)
    × (u : System) × Reach t u
    × (get_elem? u.pcs 1 ≡ some opened)
sleeper_gets_in_example = sleeper_gets_in 2 Reach-contended 1 refl

abbrev fresh : State
fresh = record { message = replicate 80 0; finished = false }

-- "ab", and then whatever lies behind it.
abbrev user : ℕ → ℕ
user zero = b'a'
user (suc zero) = b'b'
user (suc (suc i)) = 7

text_given_back_example :
    let e' = module_input fresh user 2 in
    let text = echoed user 2 in
    (length e'.message ≡ message_length)
    × (length text < output_msg_size)
    × (module_output e' 100
        ≡ (length (take 100 text), take 100 text, record e' { finished = true }))
    × (module_output (record e' { finished = true }) 100 ≡ (0, [], record e' { finished = false }))
text_given_back_example = text_given_back fresh user 2 100 100 refl refl

echoed_runs :
    echoed user 2
    ≡ b'L' ∷ b'a' ∷ b's' ∷ b't' ∷ b' ' ∷ b'i' ∷ b'n' ∷ b'p' ∷ b'u' ∷ b't' ∷ b':' ∷ b'a' ∷ b'b'
      ∷ b'\n' ∷ []
echoed_runs = refl

refused_init : sleep_init false ≡ (error enomem, release proc_file ∷ [])
unfolding sleep_init
refused_init = refl
