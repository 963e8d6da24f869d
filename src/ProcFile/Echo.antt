-- ===== src/ProcFile/Echo.antt =====
-- What a reader of blocking_drv.c's file is given after a write.
use mathlib.Core.List.{append_assoc}
use mad_devicedriver.Prelude.{
  ℕ, zero, suc, ◌-◌, ◌<◌, ◌≡◌, refl, ap, sym, subst, ◌∙◌, arith, List, [], ◌∷◌, ◌++◌, true, false,
  min, length, take, drop, splice, length-append, length-splice,
}
use mad_devicedriver.Prelude.Text.{
  c_string, span, length-span, splice-one, c_string-append, length-c_string, NoNul, NoNul-append,
  c_string-NoNul,
}
use mad_devicedriver.ProcFile.{
  State, message_length, last_input, output_msg, output_msg_size, put_loop, get_loop, module_output,
  module_input,
}

-- The loop of `module_input` fills a stretch, and ends it.
get_loop-fills :
    (n : ℕ) (user : ℕ → ℕ) (pre rest : List ℕ)
    → n < length rest
    → get_loop n (length pre) user (pre ++ rest)
      ≡ pre ++ (span user (length pre) n ++ 0 ∷ drop (suc n) rest)
get_loop-fills n user pre [] h = absurd (omega arith)
get_loop-fills zero user pre (x ∷ rest) h = splice-one pre rest x 0
get_loop-fills (suc n) user pre (x ∷ rest) h =
    let u : ℕ = user (length pre) in
    let i : length (pre ++ u ∷ []) ≡ suc (length pre) = omega (arith, length-append pre (u ∷ [])) in
    let ih = get_loop-fills n user (pre ++ u ∷ []) rest (omega arith) in
    let ih' =
      subst
        (λ k.
          get_loop n k user ((pre ++ u ∷ []) ++ rest)
          ≡ (pre ++ u ∷ []) ++ (span user k n ++ 0 ∷ drop (suc n) rest))
        i ih in
    let e = splice-one pre rest x u in
    ap (get_loop n (suc (length pre)) user) (e ∙ sym (append_assoc pre (u ∷ []) rest))
    ∙ (ih' ∙ append_assoc pre (u ∷ []) (span user (suc (length pre)) n ++ 0 ∷ drop (suc n) rest))

put_loop-take : (len : ℕ) (xs : List ℕ) → NoNul xs → put_loop len xs ≡ take len xs
put_loop-take zero xs h = refl
put_loop-take (suc len) [] h = refl
put_loop-take (suc len) (x ∷ xs) h = ground (arith, put_loop-take len xs h.1)

output_msg-NoNul : (m : List ℕ) → NoNul (output_msg m)
output_msg-NoNul m =
    NoNul-append last_input (c_string m ++ b'\n' ∷ []) (omega arith)
      (NoNul-append (c_string m) (b'\n' ∷ []) (c_string-NoNul m) (omega arith))

-- The text that a reader is to get after `size` bytes of `user` were written.
abbrev pub echoed : (ℕ → ℕ) → ℕ → List ℕ
echoed user size =
    last_input ++ (c_string (span user 0 (min (message_length - 1) size)) ++ b'\n' ∷ [])

output_msg-module_input :
    (e : State) (user : ℕ → ℕ) (size : ℕ)
    → length e.message ≡ message_length
    → output_msg (module_input e user size).message ≡ echoed user size
unfolding module_input
output_msg-module_input e user size full =
    let n : ℕ = min (message_length - 1) size in
    let filled = get_loop-fills n user [] e.message (omega (arith, full)) in
    ap (λ m. last_input ++ (m ++ b'\n' ∷ []))
      (ap c_string filled ∙ c_string-append (span user 0 n) (drop (suc n) e.message))

module_output-eq :
    (e : State) (len : ℕ)
    → e.finished ≡ false
    → let text = take len (output_msg e.message) in
      module_output e len ≡ (length text, text, record e { finished = true })
unfolding module_output
module_output-eq e len h =
    rw (h, module_output)
      (ap (λ t. (length t, t, record e { finished = true }))
        (put_loop-take len (output_msg e.message) (output_msg-NoNul e.message)))

length-get_loop : (n i : ℕ) (user : ℕ → ℕ) (m : List ℕ) → length (get_loop n i user m) ≡ length m
length-get_loop zero i user m = length-splice m i (0 ∷ [])
length-get_loop (suc n) i user m =
    length-get_loop n (suc i) user (splice m i (user i ∷ [])) ∙ length-splice m i (user i ∷ [])

-- After a write of any size to the 80 bytes of the file, with no read half done: the memory keeps its
-- size, and the formatted text fits its buffer with its terminator. The next read gives "Last input:",
-- the first 79 bytes written up to their first NUL, and a newline, cut to the length asked for, and
-- returns how many bytes that is; the read after that returns 0, and reading starts again.
pub text_given_back :
    (e : State) (user : ℕ → ℕ) (size len later : ℕ)
    → length e.message ≡ message_length
    → e.finished ≡ false
    → let e' = module_input e user size in
      let text = echoed user size in
      (length e'.message ≡ message_length)
      × (length text < output_msg_size)
      × (module_output e' len
          ≡ (length (take len text), take len text, record e' { finished = true }))
      × (module_output (record e' { finished = true }) later
          ≡ (0, [], record e' { finished = false }))
unfolding module_output module_input
text_given_back e user size len later full ready =
    let n : ℕ = min (message_length - 1) size in
    let e' = module_input e user size in
    (
      length-get_loop n 0 user e.message ∙ full,
      omega (
        arith,
        length-append (c_string (span user 0 n)) (b'\n' ∷ []),
        length-c_string (span user 0 n),
        length-span user 0 n,
      ),
      module_output-eq e' len ready
          ∙ ap (λ t. (length (take len t), take len t, record e' { finished = true }))
              (output_msg-module_input e user size full),
      refl,
    )
