-- ===== src/Sha256.antt =====
-- device_driver/sha256_drv.c: a module that hashes a text when it is loaded, and logs the digest.
mod Tests
use mad_devicedriver.Prelude.{
  ◌⊎◌, ℕ, suc, ◌+◌, ◌≤◌, ◌≡◌, refl, ap, ◌∙◌, arith, Bool, true, false, List, [], ◌∷◌, ◌++◌, length,
  map, splice, Option, none, some, if◌then◌else◌, ltb, leb, ◌/◌, ◌%◌, inl, inr, Bool-cases,
}
use mad_devicedriver.Kernel.{Outcome, done, overrun, Errno, Ret, value, error, eperm, enomem}
use mad_devicedriver.Setup.{memory, transform, Call, acquire, release, replay, nothing}

abbrev hex_digit : ℕ → ℕ
hex_digit d = if ltb d 10 then 48 + d else 87 + d

-- What "%x" prints of a byte: no zero goes before a single digit.
unfoldable hex : ℕ → List ℕ
hex b = if ltb b 16 then hex_digit b ∷ [] else hex_digit ((b / 16)) ∷ hex_digit ((b % 16)) ∷ []

-- Bytes put at an index of an array.
unfoldable put : List ℕ → ℕ → List ℕ → Outcome (List ℕ)
put str i bytes = if leb (i + length bytes) (length str) then done (splice str i bytes) else overrun

abbrev and_then : Outcome (List ℕ) → (List ℕ → Outcome (List ℕ)) → Outcome (List ℕ)
and_then (done str) f = f str
and_then overrun f = overrun

-- The loop of `show_hash_result` and the terminator behind it: `bytes` is what is left of the digest.
unfoldable show_digits : List ℕ → ℕ → List ℕ → Outcome (List ℕ)
show_digits str i [] = put str i (0 ∷ [])
show_digits str i (b ∷ bytes) =
    and_then (put str i (hex b ++ 0 ∷ [])) (λ str'. show_digits str' (suc i) bytes)

-- `str` has 65 bytes, with whatever the stack holds; the digest is the 32 bytes of `hash_sha256`.
pub show_hash_result : List ℕ → List ℕ → Outcome (List ℕ)
show_hash_result str hash_sha256 = show_digits str 0 hash_sha256

abbrev pub first_digit : ℕ → ℕ
first_digit b = hex_digit (if ltb b 16 then b else b / 16)

abbrev push : ℕ → Outcome (List ℕ) → Outcome (List ℕ)
push x (done str) = done (x ∷ str)
push x overrun = overrun

put-suc :
    (x : ℕ) (str : List ℕ) (i : ℕ) (bytes : List ℕ)
    → put (x ∷ str) (suc i) bytes ≡ push x (put str i bytes)
unfolding put
put-suc x str i bytes = ground arith

and_then-push :
    (x : ℕ) (o : Outcome (List ℕ)) (f g : List ℕ → Outcome (List ℕ))
    → ((str : List ℕ) → f (x ∷ str) ≡ push x (g str))
    → and_then (push x o) f ≡ push x (and_then o g)
and_then-push x (done str) f g h = h str
and_then-push x overrun f g h = refl

show_digits-suc :
    (x : ℕ) (str : List ℕ) (i : ℕ) (bytes : List ℕ)
    → show_digits (x ∷ str) (suc i) bytes ≡ push x (show_digits str i bytes)
unfolding show_digits
show_digits-suc x str i [] = put-suc x str i (0 ∷ [])
show_digits-suc x str i (b ∷ bytes) = rw (put-suc x str i (hex b ++ 0 ∷ [])) (
    and_then-push x (put str i (hex b ++ 0 ∷ [])) (λ s. show_digits s (suc (suc i)) bytes)
      (λ s. show_digits s (suc i) bytes) (λ s. show_digits-suc x s (suc i) bytes))

splice-none : (str : List ℕ) → splice str 0 [] ≡ str
splice-none [] = refl
splice-none (x ∷ str) = refl

-- The digit that is left of a byte, once the next one has been written over the rest.
put_hex :
    (b x y z : ℕ) (str : List ℕ)
    → (s : List ℕ) × (put (x ∷ y ∷ z ∷ str) 0 (hex b ++ 0 ∷ []) ≡ done (first_digit b ∷ s))
      × (length s ≡ length str + 2)
unfolding put hex
put_hex b x y z str = elim (Bool-cases (ltb b 16)) [
  | inl one ↦ rw one (0 ∷ z ∷ str, ground arith, ground arith)
  | inr two ↦ rw two (hex_digit (b % 16) ∷ 0 ∷ str, ground (arith, splice-none str), ground arith)
]

digits_shown :
    (str bytes : List ℕ)
    → length bytes + 2 ≤ length str
    → (rest : List ℕ) × (show_digits str 0 bytes ≡ done (map first_digit bytes ++ 0 ∷ rest))
unfolding show_digits put
digits_shown [] bytes h = absurd (omega arith)
digits_shown (x ∷ str) [] h = (str, ground (arith, splice-none str))
digits_shown (x ∷ []) (b ∷ bytes) h = absurd (omega arith)
digits_shown (x ∷ y ∷ []) (b ∷ bytes) h = absurd (omega arith)
digits_shown (x ∷ y ∷ z ∷ str) (b ∷ bytes) h =
    let (s, put_b, len) = put_hex b x y z str in
    let (rest, shown) = digits_shown s bytes (omega arith) in
    (rest, rw put_b (show_digits-suc (first_digit b) s 0 bytes ∙ ap (push (first_digit b)) shown))

-- The text that is logged for a digest: 32 digits, the first one of each byte, of which a byte below 16
-- has only one and every other two. Nothing is written outside the array.
pub half_is_shown :
    (str hash_sha256 : List ℕ)
    → length str ≡ 65
    → length hash_sha256 ≡ 32
    → (rest : List ℕ) × (show_hash_result str hash_sha256
        ≡ done (map first_digit hash_sha256 ++ 0 ∷ rest))
unfolding show_hash_result
half_is_shown str hash_sha256 array digest = digits_shown str hash_sha256 (omega arith)

-- The answers of the kernel to the calls of `cryptosha256_init`, and the hash function.
record Answers : Type 0 where
  pub no_shash : Bool
  pub no_memory : Bool
  pub init_fails : Bool
  pub update_fails : Bool
  pub final_fails : Bool
  pub sha256 : List ℕ → List ℕ

-- "This    is    a    test".
abbrev plaintext : List ℕ
plaintext =
    84 ∷ 104 ∷ 105 ∷ 115 ∷ 32 ∷ 32 ∷ 32 ∷ 32 ∷ 105 ∷ 115 ∷ 32 ∷ 32 ∷ 32 ∷ 32 ∷ 97 ∷ 32 ∷ 32 ∷ 32
    ∷ 32 ∷ 116 ∷ 101 ∷ 115 ∷ 116 ∷ []

-- What is returned, the calls, and the array of `show_hash_result` where it is called.
unfoldable cryptosha256_init : Answers → List ℕ → Ret × List Call × Option (Outcome (List ℕ))
cryptosha256_init k str =
    if k.no_shash
    then (error eperm, [], none)
    else if k.no_memory
    then (error enomem, acquire transform ∷ [], none)
    else if k.init_fails
    then (error eperm, acquire transform ∷ acquire memory ∷ [], none)
    else if k.update_fails
    then (error eperm, acquire transform ∷ acquire memory ∷ [], none)
    else if k.final_fails
    then (error eperm, acquire transform ∷ acquire memory ∷ [], none)
    else (
      value 0,
      acquire transform ∷ acquire memory ∷ release memory ∷ release transform ∷ [],
      some (show_hash_result str (k.sha256 plaintext)),
    )

abbrev cryptosha256_exit : List Call
cryptosha256_exit = []

abbrev SettlesOrLeaks : Answers → List ℕ → Type 0
SettlesOrLeaks k str =
    let (ret, calls, shown) = cryptosha256_init k str in
    ((ret ≡ value 0)
      × (replay (calls ++ cryptosha256_exit) nothing ≡ nothing)
      × (shown ≡ some (show_hash_result str (k.sha256 plaintext))))
    ⊎ ((e : Errno) × (ret ≡ error e)
        × (shown ≡ none)
        × ((k.no_shash ≡ true)
            ⊎ (((replay (calls ++ cryptosha256_exit) nothing).held ≡ transform ∷ [])
                ⊎ ((replay (calls ++ cryptosha256_exit) nothing).held ≡ memory ∷ transform ∷ []))))

by_answers :
    (no_shash no_memory init_fails update_fails final_fails : Bool) (sha256 : List ℕ → List ℕ)
    (str : List ℕ)
    → SettlesOrLeaks
        (record {
          no_shash = no_shash;
          no_memory = no_memory;
          init_fails = init_fails;
          update_fails = update_fails;
          final_fails = final_fails;
          sha256 = sha256;
        })
        str
unfolding cryptosha256_init
by_answers true _ _ _ _ f str = inr (eperm, refl, refl, inl refl)
by_answers false true _ _ _ f str = inr (enomem, refl, refl, inr (inl refl))
by_answers false false true _ _ f str = inr (eperm, refl, refl, inr (inr refl))
by_answers false false false true _ f str = inr (eperm, refl, refl, inr (inr refl))
by_answers false false false false true f str = inr (eperm, refl, refl, inr (inr refl))
by_answers false false false false false f str = inl (refl, refl, refl)

-- An init that returns 0 gives back what it took, and has shown the digest; one that fails behind the
-- allocation of the hash gives nothing back, and neither does the exit function.
settles_or_leaks : (k : Answers) (str : List ℕ) → SettlesOrLeaks k str
settles_or_leaks k str =
    by_answers k.no_shash k.no_memory k.init_fails k.update_fails k.final_fails k.sha256 str
