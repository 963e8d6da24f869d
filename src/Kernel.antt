-- ===== src/Kernel.antt =====
-- What the drivers see of the kernel: error numbers, what a file operation returns, and the user
-- space accessors, which are code outside the repository and enter as a parameter.
pub mod Flat
use mad_devicedriver.Prelude.{
  ℕ, zero, suc, Option, none, some, ◌≢◌, ◌⊎◌, inl, inr, refl, arith, List, Bool, ◌≡◌, length,
}
use mad_devicedriver.Prelude.Int.{ℤ}

-- `-E...` values by their number in <uapi/asm-generic/errno-base.h>.
abbrev pub Errno : Type 0
Errno = ℕ

abbrev pub eperm : Errno
eperm = 1

abbrev pub eintr : Errno
eintr = 4

abbrev pub enomem : Errno
enomem = 12

abbrev pub efault : Errno
efault = 14

abbrev pub ebusy : Errno
ebusy = 16

abbrev pub einval : Errno
einval = 22

-- What a file operation returns: a count or a position, or a negated error number.
pub data Ret : Type 0 where
  value : ℕ → Ret
  error : Errno → Ret

-- What holds of a return of 0, and what of every other return.
pub by_return {ℓ κ} :
    {A : Type ℓ} {B : Type κ} (r : Ret)
    → (r ≡ value 0 → A)
    → (r ≢ value 0 → B)
    → ((r ≡ value 0) × A) ⊎ ((r ≢ value 0) × B)
by_return (value zero) f g = inl (refl, f refl)
by_return (value (suc n)) f g = let h : value (suc n) ≢ value 0 = λ e. ground arith in inr (h, g h)
by_return (error e) f g = let h : error e ≢ value 0 = λ e'. ground arith in inr (h, g h)

-- `overrun` stands for an access outside a buffer, or for a copy that the driver asks for outside it.
pub data Outcome {ℓ} (A : Type ℓ) : Type ℓ where
  done : A → Outcome A
  overrun : Outcome A

-- <linux/uaccess.h>. Both copies return the number of bytes that could not be copied;
-- `copy_from_user` also gives what it left in the kernel's buffer. `peek m a n` names the `n` bytes
-- of user memory at address `a`.
pub record Uaccess (Mem : Type 0) : Type 0 where
  pub peek : Mem → ℕ → ℕ → List ℕ
  pub copy_to_user : Mem → ℕ → List ℕ → ℕ × Mem
  pub copy_from_user : Mem → ℕ → ℕ → ℕ × List ℕ

-- The documented behaviour of the accessors: when nothing is left uncopied, the bytes are there;
-- the kernel's buffer is always filled to the requested size (padded with zeros on a fault).
pub record UaccessLaws {Mem : Type 0} (u : Uaccess Mem) : Type 0 where
  pub to_user_all :
      (m : Mem) (a : ℕ) (bs : List ℕ)
      → (u.copy_to_user m a bs).0 ≡ 0
      → u.peek (u.copy_to_user m a bs).1 a (length bs) ≡ bs
  pub from_user_all :
      (m : Mem) (a n : ℕ)
      → (u.copy_from_user m a n).0 ≡ 0
      → (u.copy_from_user m a n).1 ≡ u.peek m a n
  pub from_user_length : (m : Mem) (a n : ℕ) → length (u.copy_from_user m a n).1 ≡ n

-- <linux/kernel.h> kstrtol, by its text and base.
pub data Parsed : Type 0 where
  parsed : ℤ → Parsed
  refused : Errno → Parsed

pub Option-cases : (o : Option Errno) → (o ≡ none) ⊎ ((e : Errno) × (o ≡ some e))
Option-cases none = inl refl
Option-cases (some e) = inr (e, refl)

pub Parsed-cases : (p : Parsed) → ((n : ℤ) × (p ≡ parsed n)) ⊎ ((e : Errno) × (p ≡ refused e))
Parsed-cases (parsed n) = inl (n, refl)
Parsed-cases (refused e) = inr (e, refl)

-- The text functions that the sysfs attributes call: kstrtol, and sysfs_streq, which compares up to a
-- final newline.
pub record TextApi : Type 0 where
  pub kstrtol : List ℕ → ℕ → Parsed
  pub sysfs_streq : List ℕ → List ℕ → Bool
