-- ===== src/DevRead/Failure.antt =====
-- What dev_read.c does after a read that fails.
use mad_devicedriver.Prelude.{ℕ, ◌+◌, ◌<◌, ◌≡◌, ap, ◌∙◌, arith}
use mad_devicedriver.Prelude.Int.{ℤ, pos, negsuc, ◌+ℤ◌}
use mad_devicedriver.Kernel.{Outcome, done, overrun}
use mad_devicedriver.DevRead.{negate, Answer, End, after_read, read_loop, main}
use mad_devicedriver.DevRead.Rounds.{read_loop-suc}

module _ {S : Type 0} (sys_read : S → ℤ → ℤ → Outcome (Answer S)) where
  one_more : (r : ℕ) → pos r +ℤ negate (negsuc 0) ≡ pos (r + 1)
  one_more r = ground arith

  after_failure :
      (s' : S) (later : S → ℤ → ℤ → Outcome (End S)) (r : ℕ)
      → after_read later (pos 0) (pos r) (done (record { ret = negsuc 0; put = 0; after = s' }))
        ≡ later s' (negsuc 0) (pos (r + 1))
  after_failure s' later r = ap (λ k. later s' (negsuc 0) k) (one_more r)

  after_bytes_before :
      (s' : S) (later : S → ℤ → ℤ → Outcome (End S)) (remaining : ℤ) (n : ℕ)
      → 0 < n
      → after_read later (negsuc 0) remaining (done (record { ret = pos n; put = n; after = s' }))
        ≡ overrun
  after_bytes_before s' later remaining n some_put = ground arith

  -- A first read that returns -1 is counted as data, since -1 is not above what remains: one byte less
  -- is counted as read, one more is asked for, and the second read is given the address one byte before
  -- the buffer. If it puts any bytes, they run outside the buffer.
  pub failed_read_overruns :
      (s s' s'' : S) (r n : ℕ)
      → 0 < r
      → sys_read s (pos 0) (pos r) ≡ done (record { ret = negsuc 0; put = 0; after = s' })
      → sys_read s' (negsuc 0) (pos (r + 1)) ≡ done (record { ret = pos n; put = n; after = s'' })
      → 0 < n
      → main sys_read s (pos r) ≡ overrun
  unfolding main
  failed_read_overruns s s' s'' r n more failed second some_put =
      let one = read_loop sys_read 1 in
      let none_left = read_loop sys_read 0 in
      read_loop-suc sys_read s 1 r (pos 0) more
      ∙ (ap (after_read one (pos 0) (pos r)) failed
          ∙ (after_failure s' one r
              ∙ (read_loop-suc sys_read s' 0 (r + 1) (negsuc 0) (omega arith)
                  ∙ (ap (after_read none_left (negsuc 0) (pos (r + 1))) second
                      ∙ after_bytes_before s'' none_left (pos (r + 1)) n some_put))))
