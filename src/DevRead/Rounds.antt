-- ===== src/DevRead/Rounds.antt =====
-- One round of the loop of dev_read.c.
use mad_devicedriver.Prelude.{
  ℕ, zero, suc, ◌+◌, ◌-◌, ◌≤◌, ◌<◌, ◌≡◌, refl, arith, ◌==◌, leb, true, false,
}
use mad_devicedriver.Prelude.Int.{ℤ, pos, ◌+ℤ◌}
use mad_devicedriver.Kernel.{Outcome, done}
use mad_devicedriver.DevRead.{buffer_size, negate, Answer, End, after_read, read_loop}

pub le→leb : (a b : ℕ) → a ≤ b → leb a b ≡ true
le→leb a b h = ground arith

less : (r n : ℕ) → n ≤ r → pos r +ℤ negate (pos n) ≡ pos (r - n)
less r zero h = ground arith
less r (suc n) h = ground arith

module _ {S : Type 0} (s' : S) (later : S → ℤ → ℤ → Outcome (End S)) (t r n : ℕ) where
  pub after_read-none :
      n ≡ 0
      → t ≤ buffer_size
      → after_read later (pos t) (pos r) (done (record { ret = pos n; put = n; after = s' }))
        ≡ done (record { total_read = pos t; remaining = pos r; rest = s' })
  after_read-none e h = ground arith

  pub after_read-some :
      0 < n
      → n ≤ r
      → t + n ≤ buffer_size
      → after_read later (pos t) (pos r) (done (record { ret = pos n; put = n; after = s' }))
        ≡ later s' (pos (t + n)) (pos (r - n))
  after_read-some e h k =
      let room : leb (t + n) buffer_size ≡ true = ground arith in
      let taken : (n == 0) ≡ false = ground arith in
      let asked : leb n r ≡ true = ground arith in
      let more : pos t +ℤ pos n ≡ pos (t + n) = ground arith in
      rw (room, taken, asked, more, less r n h) refl

module _ {S : Type 0} (sys_read : S → ℤ → ℤ → Outcome (Answer S)) where
  pub read_loop-zero :
      (s : S) (rounds : ℕ) (total : ℤ)
      → read_loop sys_read rounds s total (pos 0)
        ≡ done (record { total_read = total; remaining = pos 0; rest = s })
  unfolding read_loop
  read_loop-zero s zero total = refl
  read_loop-zero s (suc rounds) total = refl

  pub read_loop-suc :
      (s : S) (rounds r : ℕ) (total : ℤ)
      → 0 < r
      → read_loop sys_read (suc rounds) s total (pos r)
        ≡ after_read (read_loop sys_read rounds) total (pos r) (sys_read s total (pos r))
  unfolding read_loop
  read_loop-suc s rounds r total more = ground arith
