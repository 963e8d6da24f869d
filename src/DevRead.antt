-- ===== src/DevRead.antt =====
-- custom_drivers/003_pseudo_char_driver_multiple/dev_read.c: a program that reads a number of bytes, given
-- by its argument, from /dev/pcdev-0 in at most two reads. The driver beside it, pcd_n.c, names its
-- devices pcdev-1 to pcdev-4; a device of this name is the first one that the driver of
-- custom_drivers/005_pcd_platform_driver_dt binds, so the program is modelled on devices of that driver.
pub mod Rounds
pub mod Total
pub mod Failure
pub mod Names
mod Tests
use mad_devicedriver.Prelude.{
  ℕ, zero, suc, ◌+◌, ◌-◌, ◌^◌, List, [], ◌∷◌, Bool, true, false, Option, none, some, ◌==◌, ◌&&◌,
  ◌||◌, not, leb, ltb, if◌then◌else◌, sext32,
}
use mad_devicedriver.Prelude.Int.{ℤ, pos, negsuc, ◌+ℤ◌}
use mad_devicedriver.Kernel.{Ret, value, error, Outcome, done, overrun, Uaccess}
use mad_devicedriver.PcdPlatform.{PcdevPrivateData, pcd_open, pcd_read}

-- The size of `buffer`.
abbrev pub buffer_size : ℕ
buffer_size = 2048

abbrev pub is_zero : ℤ → Bool
is_zero (pos n) = n == 0
is_zero (negsuc n) = false

abbrev pub le_ℤ : ℤ → ℤ → Bool
le_ℤ (pos m) (pos n) = leb m n
le_ℤ (pos m) (negsuc n) = false
le_ℤ (negsuc m) (pos n) = true
le_ℤ (negsuc m) (negsuc n) = leb n m

abbrev pub negate : ℤ → ℤ
negate (pos zero) = pos zero
negate (pos (suc n)) = negsuc n
negate (negsuc n) = pos (suc n)

-- What a call of `read` gives: what is returned, how many bytes were put, and all else afterwards.
pub record Answer (S : Type 0) : Type 0 where
  pub ret : ℤ
  pub put : ℕ
  pub after : S

-- Whether `n` bytes from `buffer[at]` on lie in the buffer.
abbrev pub inside : ℤ → ℕ → Bool
inside (pos at) n = leb (at + n) buffer_size
inside (negsuc at) n = n == 0

-- `total_read`, `remaining`, and all else, at the end of the loop.
pub record End (S : Type 0) : Type 0 where
  pub total_read : ℤ
  pub remaining : ℤ
  pub rest : S

-- The body of the loop behind the call of `read`; `later` is the rest of the loop.
abbrev pub after_read :
    {S : Type 0} → (S → ℤ → ℤ → Outcome (End S)) → ℤ → ℤ → Outcome (Answer S) → Outcome (End S)
after_read later total_read remaining overrun = overrun
after_read later total_read remaining (done a) =
    let stop : End _ = record { total_read = total_read; remaining = remaining; rest = a.after } in
    if not (inside total_read a.put)
    then overrun
    else if is_zero a.ret
    then done stop
    else if le_ℤ a.ret remaining
    then later a.after (total_read +ℤ a.ret) (remaining +ℤ negate a.ret)
    else done stop

module _ {S : Type 0} (sys_read : S → ℤ → ℤ → Outcome (Answer S)) where
  -- The loop over `n != 2 && remaining`, with `rounds` to go; `sys_read s at count` is
  -- `read(fd, &buffer[at], count)`.
  unfoldable pub read_loop : ℕ → S → ℤ → ℤ → Outcome (End S)
  read_loop zero s total_read remaining =
      done (record { total_read = total_read; remaining = remaining; rest = s })
  read_loop (suc rounds) s total_read remaining =
      if is_zero remaining
      then done (record { total_read = total_read; remaining = remaining; rest = s })
      else after_read (read_loop rounds) total_read remaining (sys_read s total_read remaining)

  -- From the loop on; `requested` is the argument, which `atoi` makes an `int`.
  unfoldable pub main : S → ℤ → Outcome (End S)
  unfolding read_loop
  main s requested = read_loop 2 s (pos 0) requested

-- The file: its position, and user memory.
pub record Opened (Mem : Type 0) : Type 0 where
  pub f_pos : ℕ
  pub mem : Mem

-- What the program gets of a read by the driver. Bytes before a fault are not counted.
abbrev pub answer_of : {Mem : Type 0} → Outcome (Ret × ℕ × Mem) → Outcome (Answer (Opened Mem))
answer_of overrun = overrun
answer_of (done (value n, f_pos, mem)) =
    done (record { ret = pos n; put = n; after = record { f_pos = f_pos; mem = mem } })
answer_of (done (error e, f_pos, mem)) =
    done (record { ret = negsuc 0; put = 0; after = record { f_pos = f_pos; mem = mem } })

-- What the program exits with, and the bytes of the buffer that it prints.
pub record Exit : Type 0 where
  pub ret : ℤ
  pub printed : List ℕ

-- `max_size` of the driver.
abbrev pub max_size : PcdevPrivateData → ℕ
max_size d = sext32 d.pdata.size

-- `open("/dev/pcdev-0", O_RDONLY)`: the device with the number 0, if its permission lets it be read.
unfoldable pub open_pcdev_0 : List PcdevPrivateData → Option PcdevPrivateData
unfolding pcd_open
open_pcdev_0 [] = none
open_pcdev_0 (d ∷ ds) =
    let later = open_pcdev_0 ds in
    if d.dev_num == 0 then elim (pcd_open d 1) [ value _ ↦ some d | error _ ↦ none ] else later

-- `read` of the program on a device, with `buffer` at address `base`: a negative count is
-- refused before the driver is called, and every error is a -1 to the program.
module _ {Mem : Type 0} (u : Uaccess Mem) (d : PcdevPrivateData) (base : ℕ) where
  abbrev pub address : ℤ → ℕ
  address (pos at) = base + at
  address (negsuc n) = base - suc n

  unfoldable pub pcd_sys_read : Opened Mem → ℤ → ℤ → Outcome (Answer (Opened Mem))
  unfolding pcd_read
  pcd_sys_read s at (negsuc n) = done (record { ret = negsuc 0; put = 0; after = s })
  pcd_sys_read s at (pos count) = answer_of (pcd_read u d s.f_pos s.mem (address at) count)

-- The loop that prints `buffer[i]` for each `i < total_read`.
abbrev pub dump_buffer : {Mem : Type 0} → Uaccess Mem → ℕ → Mem → ℤ → Outcome (List ℕ)
dump_buffer u base mem (negsuc n) = done []
dump_buffer u base mem (pos n) = if leb n buffer_size then done (u.peek mem base n) else overrun

-- Behind the loop: what is printed, and 0.
abbrev pub finish : {Mem : Type 0} → Uaccess Mem → ℕ → Outcome (End (Opened Mem)) → Outcome Exit
finish u base overrun = overrun
finish u base (done end) = elim (dump_buffer u base end.rest.mem end.total_read) [
  | overrun ↦ overrun
  | done bytes ↦ done (record { ret = pos 0; printed = bytes })
]

-- The program, with `devices` bound to the driver; the descriptor is -1 where open gives none. What of
-- the output is not a message.
unfoldable pub program :
    {Mem : Type 0} → Uaccess Mem → ℕ → ℕ → List PcdevPrivateData → Mem → ℤ → Outcome Exit
unfolding main pcd_sys_read open_pcdev_0
program u base argc devices mem requested =
    if not (argc == 2)
    then done (record { ret = pos 0; printed = [] })
    else elim (open_pcdev_0 devices) [
      | none ↦ done (record { ret = negsuc 0; printed = [] })
      | some d ↦
          finish u base (main (pcd_sys_read u d base) (record { f_pos = 0; mem = mem }) requested)
    ]
