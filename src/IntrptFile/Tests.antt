-- ===== src/IntrptFile/Tests.antt =====
-- Runs of intrpt_drv.c: a short read, and an init with one interrupt refused.
use mad_devicedriver.Prelude.{
  ◌≡◌, refl, [], ◌∷◌, true, false, none, some, ◌==◌, replicate, if◌then◌else◌,
}
use mad_devicedriver.ProcFile.{State}
use mad_devicedriver.IntrptFile.{Answers, gpio_set_value, put_user, intrpt_output}

abbrev fresh : State
fresh = record { message = replicate 80 0; finished = false }

read_two :
    (intrpt_output fresh 2).1
    ≡ gpio_set_value 299 0 ∷ put_user b'L' ∷ gpio_set_value 299 1 ∷ put_user b'a' ∷ []
unfolding intrpt_output
read_two = refl

abbrev second_refused : Answers
second_refused = record {
  proc_create = true;
  gpio_request_array = none;
  request_irq = λ i. if i == 1 then some 22 else none;
}
