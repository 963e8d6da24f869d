-- ===== src/DevRead/Total.antt =====
-- What dev_read.c reads and prints of its device.
use mad_devicedriver.Prelude.{
  ℕ, zero, suc, ◌+◌, ◌-◌, ◌^◌, ◌≤◌, ◌<◌, min, ◌≡◌, refl, ap, sym, subst, ◌∙◌, arith, Bool-cases,
  inl, inr, leb, ltb, true, some, List, [], length, length-slice, slice,
}
use mad_devicedriver.Prelude.Int.{ℤ, pos}
use mad_devicedriver.Kernel.{Outcome, done, Uaccess, UaccessLaws}
use mad_devicedriver.Pcd.Transfer.{IsPlaced, read_at-read_spec}
use mad_devicedriver.PcdPlatform.{PcdevPrivateData, pcd_read}
use mad_devicedriver.DevRead.Rounds.{
  le→leb, after_read-none, after_read-some, read_loop-zero, read_loop-suc,
}
use mad_devicedriver.DevRead.{
  buffer_size, End, after_read, read_loop, main, Opened, address, answer_of, pcd_sys_read, max_size,
  open_pcdev_0, finish, program,
}

module _ {Mem : Type 0} (u : Uaccess Mem) (d : PcdevPrivateData) (base : ℕ)
    (granted : (m : Mem) (a : ℕ) (bs : List ℕ) → (u.copy_to_user m a bs).0 ≡ 0) where
  -- User memory behind a read of `n` bytes into `buffer[at]`.
  abbrev copied : Opened Mem → ℤ → ℕ → Mem
  copied s at n = (u.copy_to_user s.mem (address u d base at) (slice d.buffer s.f_pos n)).1

  pcd_sys_read-value :
      (s : Opened Mem) (at : ℤ) (count : ℕ)
      → IsPlaced (max_size d) d.buffer s.f_pos
      → count < 2 ^ 63
      → let n = min count (max_size d - s.f_pos) in
        pcd_sys_read u d base s at (pos count)
        ≡ done (record {
          ret = pos n;
          put = n;
          after = record { f_pos = s.f_pos + n; mem = copied s at n };
        })
  unfolding pcd_sys_read pcd_read
  pcd_sys_read-value s at count placed c =
      let n : ℕ = min count (max_size d - s.f_pos) in
      let spec =
        read_at-read_spec u (max_size d) d.buffer s.f_pos s.mem (address u d base at) count placed
          c in
      let all = granted s.mem (address u d base at) (slice d.buffer s.f_pos n) in
      ap answer_of spec ∙ (rw all refl)

  -- One round with bytes still to read: the device is at its end, or gives some.
  module _ (s : Opened Mem) (rounds t r : ℕ) (placed : IsPlaced (max_size d) d.buffer s.f_pos)
      (small : r < 2 ^ 63) (room : t + (max_size d - s.f_pos) ≤ buffer_size) (more : 0 < r) where
    round_at_end :
        max_size d ≡ s.f_pos
        → let n = min r (max_size d - s.f_pos) in
          read_loop (pcd_sys_read u d base) (suc rounds) s (pos t) (pos r)
          ≡ done (record {
            total_read = pos t;
            remaining = pos r;
            rest = record { f_pos = s.f_pos + n; mem = copied s (pos t) n };
          })
    round_at_end ended =
        let read = pcd_sys_read-value s (pos t) r placed small in
        let n : ℕ = min r (max_size d - s.f_pos) in
        let later = read_loop (pcd_sys_read u d base) rounds in
        read_loop-suc (pcd_sys_read u d base) s rounds r (pos t) more
        ∙ (ap (after_read later (pos t) (pos r)) read
            ∙ after_read-none _ later t r n (omega arith) (omega arith))

    round_takes :
        s.f_pos < max_size d
        → let n = min r (max_size d - s.f_pos) in
          read_loop (pcd_sys_read u d base) (suc rounds) s (pos t) (pos r)
          ≡ read_loop
              (pcd_sys_read u d base)
              rounds
              (record { f_pos = s.f_pos + n; mem = copied s (pos t) n })
              (pos (t + n))
              (pos (r - n))
    round_takes left =
        let read = pcd_sys_read-value s (pos t) r placed small in
        let n : ℕ = min r (max_size d - s.f_pos) in
        let later = read_loop (pcd_sys_read u d base) rounds in
        read_loop-suc (pcd_sys_read u d base) s rounds r (pos t) more
        ∙ (ap (after_read later (pos t) (pos r)) read
            ∙ after_read-some _ later t r n (omega arith) (omega arith) (omega arith))

  module _ (laws : UaccessLaws u) (empty : (m : Mem) (a : ℕ) → (u.copy_to_user m a []).1 ≡ m) where
    -- A read of nothing.
    copied-none : (s : Opened Mem) (at : ℤ) (n : ℕ) → n ≡ 0 → copied s at n ≡ s.mem
    copied-none s at n z = ap (λ k. copied s at k) z ∙ empty s.mem (address u d base at)

    peek-none : (m : Mem) (n i : ℕ) → n ≡ 0 → u.peek m base n ≡ slice d.buffer i n
    peek-none m n i z =
        let none_there : u.peek m base 0 ≡ [] =
          subst (λ k. u.peek k base 0 ≡ []) (empty m base)
            (laws.to_user_all m base [] (granted m base [])) in
        subst (λ k. u.peek m base k ≡ slice d.buffer i k) (sym z) none_there

    copied-there :
        (s : Opened Mem) (n : ℕ)
        → s.f_pos + n ≤ length d.buffer
        → u.peek (copied s (pos 0) n) base n ≡ slice d.buffer s.f_pos n
    copied-there s n h =
        let bytes : List ℕ = slice d.buffer s.f_pos n in
        let size : length bytes ≡ n = length-slice d.buffer s.f_pos n h in
        let start : base ≡ base + 0 = omega arith in
        subst (λ a. u.peek (u.copy_to_user s.mem a bytes).1 base n ≡ bytes) start
          (subst (λ k. u.peek (u.copy_to_user s.mem base bytes).1 base k ≡ bytes) size
            (laws.to_user_all s.mem base bytes (granted s.mem base bytes)))

    -- How the two rounds end.
    Ends : Opened Mem → ℕ → Outcome (End (Opened Mem)) → Type 0
    Ends s r run =
        let n = min r (max_size d - s.f_pos) in
        (end : End (Opened Mem)) × (run ≡ done end)
        × (end.total_read ≡ pos n)
        × (end.remaining ≡ pos (r - n))
        × (end.rest.f_pos ≡ s.f_pos + n)
        × (u.peek end.rest.mem base n ≡ slice d.buffer s.f_pos n)

    -- The second round, after one that took `n` bytes: there is nothing left to ask for, or to read.
    second_round :
        (s : Opened Mem) (mem : Mem) (r : ℕ)
        → IsPlaced (max_size d) d.buffer s.f_pos
        → max_size d ≤ buffer_size
        → r < 2 ^ 31
        → let n = min r (max_size d - s.f_pos) in
          u.peek mem base n ≡ slice d.buffer s.f_pos n
          → Ends s r (
              read_loop
                (pcd_sys_read u d base)
                1
                (record { f_pos = s.f_pos + n; mem = mem })
                (pos (0 + n))
                (pos (r - n)))
    unfolding Ends
    second_round s mem r placed fits int there =
        let n : ℕ = min r (max_size d - s.f_pos) in
        let t : Opened Mem = record { f_pos = s.f_pos + n; mem = mem } in
        elim (Bool-cases (leb r (max_size d - s.f_pos))) [
          | inl e ↦
              let none_asked : r - n ≡ 0 = ground arith in
              (
                _,
                ap (λ k. read_loop (pcd_sys_read u d base) 1 t (pos (0 + n)) (pos k)) none_asked
                    ∙ read_loop-zero (pcd_sys_read u d base) t 1 (pos (0 + n)),
                ap pos (omega arith),
                ap pos (omega (arith, none_asked)),
                refl,
                there,
              )
          | inr e ↦
              let over : max_size d - s.f_pos < r = ground arith in
              let ended : max_size d ≡ s.f_pos + n = omega arith in
              let run =
                round_at_end t 0 (0 + n) (r - n)
                  (record {
                    fits_int = placed.fits_int;
                    backed = placed.backed;
                    within = omega arith;
                  })
                  (omega arith) (omega arith) (omega arith) ended in
              let same =
                copied-none t (pos (0 + n)) (min (r - n) (max_size d - (s.f_pos + n)))
                  (omega (arith, ended)) in
              (
                _,
                run,
                ap pos (omega arith),
                refl,
                omega (arith, ended),
                subst (λ m. u.peek m base n ≡ slice d.buffer s.f_pos n) (sym same) there,
              )
        ]

    -- Copies to the program's buffer are granted in full, and one of nothing changes nothing. A device of
    -- at most 2048 bytes, backed by memory, at a position up to its size, and a number of bytes to read
    -- that an `int` holds: the program ends with all of its reads inside its buffer, and has read the
    -- lesser of that number and what the device has from the position on. The buffer starts with these
    -- bytes of the device; the position of the file has moved by as much, and what the program counts as
    -- remaining is the rest of the request.
    pub reads_what_is_there :
        (s : Opened Mem) (r : ℕ)
        → IsPlaced (max_size d) d.buffer s.f_pos
        → max_size d ≤ buffer_size
        → r < 2 ^ 31
        → let n = min r (max_size d - s.f_pos) in
          (end : End (Opened Mem)) × (main (pcd_sys_read u d base) s (pos r) ≡ done end)
          × (end.total_read ≡ pos n)
          × (end.remaining ≡ pos (r - n))
          × (end.rest.f_pos ≡ s.f_pos + n)
          × (u.peek end.rest.mem base n ≡ slice d.buffer s.f_pos n)
    unfolding main Ends
    reads_what_is_there s zero placed fits int = (
      _,
      read_loop-zero (pcd_sys_read u d base) s 2 (pos 0),
      ap pos (omega arith),
      ap pos (omega arith),
      omega arith,
      peek-none s.mem _ s.f_pos (omega arith),
    )
    reads_what_is_there s (suc r) placed fits int = elim (Bool-cases (ltb s.f_pos (max_size d))) [
      | inl e ↦
          let left : s.f_pos < max_size d = ground arith in
          let run =
            round_takes s 1 0 (suc r) placed (omega arith) (omega arith) (omega arith) left in
          let there =
            copied-there s (min (suc r) (max_size d - s.f_pos))
              (omega (arith, placed.backed, placed.within)) in
          subst (Ends s (suc r)) (sym run) (second_round s _ (suc r) placed fits int there)
      | inr e ↦
          let over : max_size d ≡ s.f_pos = ground arith in
          let run =
            round_at_end s 1 0 (suc r) placed (omega arith) (omega arith) (omega arith) over in
          (
            _,
            run,
            ap pos (omega arith),
            ap pos (omega arith),
            refl,
            copied-there s (min (suc r) (max_size d - s.f_pos))
                (omega (arith, placed.backed, placed.within)),
          )
    ]

    finish-done :
        (end : End (Opened Mem)) (n : ℕ)
        → end.total_read ≡ pos n
        → leb n buffer_size ≡ true
        → finish u base (done end)
          ≡ done (record { ret = pos 0; printed = u.peek end.rest.mem base n })
    finish-done end n total room = ground arith

    -- Copies to the program's buffer are granted in full, and one of nothing changes nothing. The device
    -- that /dev/pcdev-0 opens, of at most 2048 bytes, backed by memory, and a number of bytes to read that
    -- an `int` holds: the program, called with one argument, makes all of its reads inside its buffer,
    -- prints just the bytes that the device starts with, as many as were asked for or are there, and exits
    -- with 0.
    pub prints_what_is_there :
        (devices : List PcdevPrivateData) (mem : Mem) (r : ℕ)
        → open_pcdev_0 devices ≡ some d
        → IsPlaced (max_size d) d.buffer 0
        → max_size d ≤ buffer_size
        → r < 2 ^ 31
        → program u base 2 devices mem (pos r)
          ≡ done (record { ret = pos 0; printed = slice d.buffer 0 (min r (max_size d)) })
    unfolding program
    prints_what_is_there devices mem r opens placed fits int =
        let s : Opened Mem = record { f_pos = 0; mem = mem } in
        let (end, run, total, _, _, there) = reads_what_is_there s r placed fits int in
        let room : leb (min r (max_size d - 0)) buffer_size ≡ true = le→leb _ _ (omega arith) in
        let all : max_size d - 0 ≡ max_size d = omega arith in
        let stop = finish-done end (min r (max_size d - 0)) total room in
        rw opens (
          ap (finish u base) run
          ∙ (stop
              ∙ (ap (λ l. done (record { ret = pos 0; printed = l })) there
                  ∙ ap (λ k. done (record { ret = pos 0; printed = slice d.buffer 0 (min r k) }))
                      all)))
