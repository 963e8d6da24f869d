-- ===== src/PcdSysfs/Resize.antt =====
-- The attribute max_size: what a new size means for the files that are open.
use mad_devicedriver.Prelude.{
  ℕ, ◌^◌, ◌≤◌, ◌<◌, ◌≡◌, refl, ap, sym, subst, ◌∙◌, arith, List, [], ◌∷◌, ◌++◌, Option, none, some,
  length, sext32,
}
use mad_devicedriver.Prelude.Int.{pos}
use mad_devicedriver.Prelude.Decimal.{decimal}
use mad_devicedriver.Kernel.{value, done, overrun, Uaccess, TextApi, parsed}
use mad_devicedriver.Pcd.Transfer.{
  IsPlaced, read_spec, write_spec, read_at-read_spec, write_at-write_spec,
}
use mad_devicedriver.Pcd.Core.{read_at, write_at}
use mad_devicedriver.PcdPlatform
use mad_devicedriver.PcdPlatform.{PcdevPrivateData}
use mad_devicedriver.PcdSysfs.{
  Krealloc, KreallocLaws, memory, int_word, signed32, store_max_size, show_max_size, pcd_read,
  pcd_write,
}

sext32-int_word : (n : ℕ) → n < 2 ^ 31 → sext32 (int_word (pos n)) ≡ n
sext32-int_word n h = ground arith

int_word-fits : (n : ℕ) → n < 2 ^ 31 → int_word (pos n) ≡ n
int_word-fits n h = ground arith

sext32-small : (n : ℕ) → n < 2 ^ 31 → sext32 n ≡ n
sext32-small n h = ground arith

signed32-pos : (n : ℕ) → n < 2 ^ 31 → signed32 n ≡ pos n
signed32-pos n h = ground arith

-- A device that says it has `n` bytes, with `buffer` as its memory.
abbrev of_size : PcdevPrivateData → ℕ → List ℕ → PcdevPrivateData
of_size d n buffer =
    let pdata = d.pdata in record d { pdata = record pdata { size = n }; buffer = buffer }

-- Reads and writes at `f_pos` as of a device of `n` bytes that are `buffer`.
abbrev Transfers :
    {Mem : Type 0} → Uaccess Mem → ℕ → List ℕ → ℕ → Mem → ℕ → ℕ → PcdevPrivateData → Type 0
Transfers u n buffer f_pos mem buff size d =
    (pcd_read u d f_pos mem buff size ≡ done (read_spec u n buffer f_pos mem buff size))
    × (pcd_write u d f_pos mem buff size ≡ done (write_spec u n buffer f_pos mem buff size))

-- Reads and writes at `f_pos` leave the memory.
abbrev Escapes : {Mem : Type 0} → Uaccess Mem → ℕ → Mem → ℕ → ℕ → PcdevPrivateData → Type 0
Escapes u f_pos mem buff size d =
    (pcd_read u d f_pos mem buff size ≡ overrun) × (pcd_write u d f_pos mem buff size ≡ overrun)

of_size-shown :
    (d : PcdevPrivateData) (n : ℕ) (buffer : List ℕ)
    → n < 2 ^ 31
    → (show_max_size (of_size d n buffer)).1 ≡ decimal (pos n) ++ b'\n' ∷ []
unfolding show_max_size
of_size-shown d n buffer h = ap (λ i. decimal i ++ b'\n' ∷ []) (signed32-pos n h)

module _ {Mem : Type 0} (u : Uaccess Mem) (d : PcdevPrivateData) (n : ℕ) (buffer : List ℕ)
    (f_pos : ℕ) (mem : Mem) (buff size : ℕ) (sized : length buffer ≡ n) where
  module _ (int : n < 2 ^ 31) (within : f_pos ≤ n) (c : size < 2 ^ 63) where
    of_size-IsPlaced : IsPlaced n buffer f_pos
    of_size-IsPlaced = record { fits_int = int; backed = omega arith; within = within }

    of_size-reads :
        pcd_read u (of_size d n buffer) f_pos mem buff size
        ≡ done (read_spec u n buffer f_pos mem buff size)
    unfolding PcdPlatform.pcd_read
    of_size-reads =
        rw (sext32-small n int)
          (read_at-read_spec u n buffer f_pos mem buff size of_size-IsPlaced c)

    of_size-writes :
        pcd_write u (of_size d n buffer) f_pos mem buff size
        ≡ done (write_spec u n buffer f_pos mem buff size)
    unfolding PcdPlatform.pcd_write
    of_size-writes =
        rw (sext32-small n int)
          (write_at-write_spec u n buffer f_pos mem buff size of_size-IsPlaced c)

  module _ (past : n < f_pos) (fits : f_pos < 2 ^ 31) (some_byte : 0 < size)
      (c : size < 2 ^ 63) where
    of_size-reads_past : pcd_read u (of_size d n buffer) f_pos mem buff size ≡ overrun
    unfolding PcdPlatform.pcd_read read_at
    of_size-reads_past = ground arith

    of_size-writes_past : pcd_write u (of_size d n buffer) f_pos mem buff size ≡ overrun
    unfolding PcdPlatform.pcd_write write_at
    of_size-writes_past = ground arith

module _ {Mem : Type 0} (u : Uaccess Mem) (d : PcdevPrivateData) (n f_pos : ℕ) (mem : Mem)
    (buff size : ℕ) (int : n < 2 ^ 31) (within : f_pos < n) (some_byte : 0 < size)
    (c : size < 2 ^ 63) where
  of_size-reads_nothing : pcd_read u (of_size d n []) f_pos mem buff size ≡ overrun
  unfolding PcdPlatform.pcd_read read_at
  of_size-reads_nothing = ground arith

  of_size-writes_nothing : pcd_write u (of_size d n []) f_pos mem buff size ≡ overrun
  unfolding PcdPlatform.pcd_write write_at
  of_size-writes_nothing = ground arith

module _ (api : TextApi) (krealloc : Krealloc) (d : PcdevPrivateData) (buf : List ℕ) (count n : ℕ)
    (parse : api.kstrtol buf 10 ≡ parsed (pos n)) (int : n < 2 ^ 31) where
  -- The device afterwards.
  abbrev resized : PcdevPrivateData
  resized = (store_max_size api krealloc d buf count).1

  store_max_size-parsed :
      store_max_size api krealloc d buf count
      ≡ (value count, of_size d n (memory (krealloc d.buffer n)))
  unfolding store_max_size
  store_max_size-parsed =
      rw (parse, store_max_size) (rw (sext32-int_word n int, int_word-fits n int) refl)

  resized-of_size :
      {r : Option (List ℕ)} → krealloc d.buffer n ≡ r → resized ≡ of_size d n (memory r)
  resized-of_size e = ap (λ p. p.1) store_max_size-parsed ∙ ap (λ r. of_size d n (memory r)) e

  -- A number below 2^31 written to max_size: the whole write is taken, and the number is what
  -- max_size shows from then on; if krealloc gives the memory, a read or write with a count below
  -- 2^63 at a position up to the new size moves the bytes that lie between the position and the new
  -- size, inside the new memory.
  pub resize_serves :
      {Mem : Type 0} (u : Uaccess Mem) (laws : KreallocLaws krealloc) {new : List ℕ} (f_pos : ℕ)
      (mem : Mem) (buff size : ℕ)
      → krealloc d.buffer n ≡ some new
      → f_pos ≤ n
      → size < 2 ^ 63
      → ((store_max_size api krealloc d buf count).0 ≡ value count)
        × ((show_max_size resized).1 ≡ decimal (pos n) ++ b'\n' ∷ [])
        × Transfers u n new f_pos mem buff size resized
  resize_serves u laws {new} f_pos mem buff size e within c = (
    ap (λ p. p.0) store_max_size-parsed,
    ap (λ x. (show_max_size x).1) (resized-of_size e) ∙ of_size-shown d n new int,
    subst (Transfers u n new f_pos mem buff size) (sym (resized-of_size e)) (
      of_size-reads u d n new f_pos mem buff size (laws.sized d.buffer n e) int within c,
      of_size-writes u d n new f_pos mem buff size (laws.sized d.buffer n e) int within c,
    ),
  )

  -- A number below 2^31 written to max_size, with memory given for it: at a position past the new
  -- size, itself below 2^31, every read and write that asks for at least one byte, and fewer than
  -- 2^63, leaves the memory, since the adjusted count wraps.
  pub stale_position_overruns :
      {Mem : Type 0} (u : Uaccess Mem) (laws : KreallocLaws krealloc) {new : List ℕ} (f_pos : ℕ)
      (mem : Mem) (buff size : ℕ)
      → krealloc d.buffer n ≡ some new
      → n < f_pos
      → f_pos < 2 ^ 31
      → 0 < size
      → size < 2 ^ 63
      → Escapes u f_pos mem buff size resized
  stale_position_overruns u laws {new} f_pos mem buff size e past fits some_byte c =
      let sized = laws.sized d.buffer n e in
      subst (Escapes u f_pos mem buff size) (sym (resized-of_size e)) (
        of_size-reads_past u d n new f_pos mem buff size sized past fits some_byte c,
        of_size-writes_past u d n new f_pos mem buff size sized past fits some_byte c,
      )

  -- A number below 2^31 written to max_size for which krealloc gives no memory: at a position below
  -- the new size every read and write that asks for at least one byte, and fewer than 2^63, leaves
  -- the memory.
  pub failed_resize_overruns :
      {Mem : Type 0} (u : Uaccess Mem) (f_pos : ℕ) (mem : Mem) (buff size : ℕ)
      → krealloc d.buffer n ≡ none
      → f_pos < n
      → 0 < size
      → size < 2 ^ 63
      → Escapes u f_pos mem buff size resized
  failed_resize_overruns u f_pos mem buff size e within some_byte c =
      subst (Escapes u f_pos mem buff size) (sym (resized-of_size e)) (
        of_size-reads_nothing u d n f_pos mem buff size int within some_byte c,
        of_size-writes_nothing u d n f_pos mem buff size int within some_byte c,
      )
