-- ===== src/CharDrv/Message.antt =====
-- The message of char_drv.c, set and fetched through ioctl and read through the file.
use mad_devicedriver.Prelude.{
  take-all, ℕ, zero, suc, ◌+◌, ◌<◌, ◌≡◌, ◌∙◌, refl, ap, subst, arith, List, [], ◌∷◌, ◌++◌, true,
  false, some, ◌==◌, leb, length, take, drop, splice, get_elem?, length-splice,
}
use mad_devicedriver.Prelude.Text.{span}
use mad_devicedriver.Kernel.{done, overrun}
use mad_devicedriver.CharDrv.{
  buf_len, has_nul, test_write, read_loop, test_read, ioctl_set_msg, ioctl_get_msg, count_loop,
  test_ioctl,
}

-- The text `cs` stands at address `p` of user memory, and is terminated there.
abbrev pub TextAt : (ℕ → ℕ) → ℕ → List ℕ → Type 0
TextAt user p [] = user p ≡ 0
TextAt user p (c ∷ cs) = (user p ≡ c) × (0 < c) × TextAt user (suc p) cs

count_loop-text :
    (rounds : ℕ) (user : ℕ → ℕ) (ch p : ℕ) (cs : List ℕ)
    → 0 < ch
    → TextAt user p cs
    → length cs < rounds
    → count_loop rounds user ch p ≡ suc (length cs)
count_loop-text zero user ch p cs more t h = absurd (omega arith)
count_loop-text (suc zero) user ch p [] more t h = ground arith
count_loop-text (suc (suc r)) user ch p [] more t h = ground arith
count_loop-text (suc r) user ch p (c ∷ cs) more t h =
    ground (arith, count_loop-text r user (user p) (suc p) cs)

span-text :
    (user : ℕ → ℕ) (p : ℕ) (cs : List ℕ)
    → TextAt user p cs
    → span user p (suc (length cs)) ≡ cs ++ 0 ∷ []
span-text user p [] t = ap (λ c. c ∷ []) t
span-text user p (c ∷ cs) t = rw (t.0, span-text user (suc p) cs t.2) refl

has_nul-splice : (m cs : List ℕ) → length cs < length m → has_nul (splice m 0 (cs ++ 0 ∷ [])) ≡ true
has_nul-splice [] cs h = absurd (omega arith)
has_nul-splice (x ∷ m) [] h = refl
has_nul-splice (x ∷ m) (c ∷ cs) h = ground (arith, has_nul-splice m cs)

-- A read out of a buffer that begins with a text and its terminator.
read_loop-text :
    (n : ℕ) (user : ℕ → ℕ) (p : ℕ) (m cs : List ℕ)
    → TextAt user p cs
    → length cs < length m
    → read_loop n (splice m 0 (cs ++ 0 ∷ [])) ≡ done (take n cs)
read_loop-text zero user p m cs t h = refl
read_loop-text (suc n) user p [] cs t h = absurd (omega arith)
read_loop-text (suc n) user p (x ∷ m) [] t h = refl
read_loop-text (suc n) user p (x ∷ m) (c ∷ cs) t h =
    ground (arith, read_loop-text n user (suc p) m cs)

-- The same from a position inside the text, and the character found there.
read_loop-drop :
    (n : ℕ) (user : ℕ → ℕ) (p : ℕ) (m cs : List ℕ) (offset : ℕ)
    → TextAt user p cs
    → length cs < length m
    → offset < length cs
    → read_loop n (drop offset (splice m 0 (cs ++ 0 ∷ []))) ≡ done (take n (drop offset cs))
read_loop-drop n user p m cs zero t h i = read_loop-text n user p m cs t h
read_loop-drop n user p [] cs (suc o) t h i = absurd (omega arith)
read_loop-drop n user p (x ∷ m) [] (suc o) t h i = absurd (omega arith)
read_loop-drop n user p (x ∷ m) (c ∷ cs) (suc o) t h i =
    read_loop-drop n user (suc p) m cs o t.2 (omega arith) (omega arith)

get_elem?-text :
    (user : ℕ → ℕ) (p : ℕ) (m cs : List ℕ) (offset : ℕ)
    → TextAt user p cs
    → length cs < length m
    → offset < length cs
    → (c : ℕ) × ((c == 0) ≡ false) × (get_elem? (splice m 0 (cs ++ 0 ∷ [])) offset ≡ some c)
get_elem?-text user p [] cs offset t h i = absurd (omega arith)
get_elem?-text user p (x ∷ m) [] offset t h i = absurd (omega arith)
get_elem?-text user p (x ∷ m) (c ∷ cs) zero t h i = (c, ground arith, refl)
get_elem?-text user p (x ∷ m) (c ∷ cs) (suc o) t h i =
    get_elem?-text user (suc p) m cs o t.2 (omega arith) (omega arith)

get_elem?-end :
    (m cs : List ℕ)
    → length cs < length m
    → get_elem? (splice m 0 (cs ++ 0 ∷ [])) (length cs) ≡ some 0
get_elem?-end [] cs h = absurd (omega arith)
get_elem?-end (x ∷ m) [] h = refl
get_elem?-end (x ∷ m) (c ∷ cs) h = get_elem?-end m cs (omega arith)

test_read-text :
    (n : ℕ) (user : ℕ → ℕ) (p : ℕ) (m cs : List ℕ) (offset : ℕ)
    → TextAt user p cs
    → length cs < length m
    → offset < length cs
    → let part = take n (drop offset cs) in
      test_read (splice m 0 (cs ++ 0 ∷ [])) n offset
      ≡ done (length part, part, offset + length part)
unfolding test_read
test_read-text n user p m cs offset t h i =
    let (c, more, found) = get_elem?-text user p m cs offset t h i in
    let loop = read_loop-drop n user p m cs offset t h i in rw (found, more, loop, test_read) refl

test_read-end :
    (n : ℕ) (m cs : List ℕ)
    → length cs < length m
    → test_read (splice m 0 (cs ++ 0 ∷ [])) n (length cs) ≡ done (0, [], 0)
unfolding test_read
test_read-end n m cs h = rw (get_elem?-end m cs h, test_read) refl

test_ioctl-set :
    (message : List ℕ) (user : ℕ → ℕ) (p c : ℕ) (cs : List ℕ)
    → length message ≡ buf_len
    → length (c ∷ cs) < buf_len
    → TextAt user p (c ∷ cs)
    → test_ioctl message user ioctl_set_msg p ≡ done (0, [], splice message 0 ((c ∷ cs) ++ 0 ∷ []))
unfolding test_ioctl test_write
test_ioctl-set message user p c cs full fits t =
    let counted = count_loop-text buf_len user (user p) p (c ∷ cs) (omega arith) t fits in
    let copied = span-text user p (c ∷ cs) t in
    let ends = has_nul-splice message (c ∷ cs) (omega arith) in
    let room : leb (suc (length (c ∷ cs))) (length message) ≡ true = ground arith in
    rw (counted, test_write, copied, room, ends, test_ioctl) refl

test_ioctl-get :
    (user : ℕ → ℕ) (p q c : ℕ) (m cs : List ℕ) (other : ℕ → ℕ)
    → length (c ∷ cs) < length m
    → length (c ∷ cs) < buf_len
    → TextAt user p (c ∷ cs)
    → let m' = splice m 0 ((c ∷ cs) ++ 0 ∷ []) in
      test_ioctl m' other ioctl_get_msg q ≡ done (0, (c ∷ cs) ++ 0 ∷ [], m')
unfolding test_ioctl
test_ioctl-get user p q c m cs other h i t =
    let whole = take-all 98 cs (omega arith) in
    let read = test_read-text 99 user p m (c ∷ cs) 0 t h (omega arith) in
    rw (test_ioctl, read, whole) refl

-- A text of 1 to 79 characters that stands terminated in user memory, set as the message of 80 bytes
-- by IOCTL_SET_MSG: the call returns 0 and the buffer keeps its size. After it IOCTL_GET_MSG gives
-- just this text and a terminator, a read of `n` bytes from a position inside the text gives the next
-- `n` characters of it, or as many as are left, and moves the position behind them, and a read at the
-- end of the text returns 0 and moves the position back to the start.
pub message_given_back :
    (message : List ℕ) (user other : ℕ → ℕ) (p q : ℕ) (cs : List ℕ) (n offset : ℕ)
    → length message ≡ buf_len
    → length cs < buf_len
    → TextAt user p cs
    → offset < length cs
    → let m = splice message 0 (cs ++ 0 ∷ []) in
      let part = take n (drop offset cs) in
      (test_ioctl message user ioctl_set_msg p ≡ done (0, [], m))
      × (length m ≡ buf_len)
      × (test_ioctl m other ioctl_get_msg q ≡ done (0, cs ++ 0 ∷ [], m))
      × (test_read m n offset ≡ done (length part, part, offset + length part))
      × (test_read m n (length cs) ≡ done (0, [], 0))
message_given_back message user other p q [] n offset full fits t h = absurd (omega arith)
message_given_back message user other p q (c ∷ cs) n offset full fits t h =
    let room : length (c ∷ cs) < length message = omega (arith, full) in
    (
      test_ioctl-set message user p c cs full fits t,
      length-splice message 0 ((c ∷ cs) ++ 0 ∷ []) ∙ full,
      test_ioctl-get user p q c message cs other room fits t,
      test_read-text n user p message (c ∷ cs) offset t room h,
      test_read-end n message (c ∷ cs) room,
    )

-- `n` characters from address `p` on, none of them a NUL.
abbrev pub Unterminated : (ℕ → ℕ) → ℕ → ℕ → Type 0
Unterminated user p zero = Unit
Unterminated user p (suc n) = (0 < user p) × Unterminated user (suc p) n

count_loop-full :
    (rounds : ℕ) (user : ℕ → ℕ) (ch p : ℕ)
    → 0 < ch
    → Unterminated user p rounds
    → count_loop rounds user ch p ≡ rounds
count_loop-full zero user ch p more u = refl
count_loop-full (suc r) user ch p more u =
    ground (arith, count_loop-full r user (user p) (suc p) u.0 u.1)

has_nul-full :
    (m : List ℕ) (user : ℕ → ℕ) (p : ℕ)
    → Unterminated user p (length m)
    → has_nul (splice m 0 (span user p (length m))) ≡ false
has_nul-full [] user p u = refl
has_nul-full (x ∷ m) user p u = ground (arith, has_nul-full m user (suc p) u.1)

test_write-full :
    (m : List ℕ) (user : ℕ → ℕ) (p : ℕ)
    → Unterminated user p (length m)
    → test_write m user p (length m) ≡ overrun
unfolding test_write
test_write-full m user p u = rw (has_nul-full m user p u, test_write) ground arith

-- IOCTL_SET_MSG bounds the text by the size of the buffer, which leaves no room for a terminator: with
-- 80 characters and no NUL among them, the 80 bytes of the buffer are all text, and the log message
-- that prints them runs past its end.
pub long_message_overruns :
    (message : List ℕ) (user : ℕ → ℕ) (p : ℕ)
    → length message ≡ buf_len
    → Unterminated user p buf_len
    → test_ioctl message user ioctl_set_msg p ≡ overrun
unfolding test_ioctl
long_message_overruns message user p full u =
    let counted = count_loop-full buf_len user (user p) p u.0 u in
    let over =
      subst (λ n. Unterminated user p n → test_write message user p n ≡ overrun) full
        (test_write-full message user p) in
    rw (test_ioctl, counted, over u) refl
