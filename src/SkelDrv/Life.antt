-- ===== src/SkelDrv/Life.antt =====
-- device_driver/usb_skel_drv.c: the probe, the open and release of files, and the disconnect, with what
-- they hold and the use count of the device's structure.
use mad_devicedriver.Prelude.{
  ℕ, ◌+◌, ◌-◌, ◌≡◌, ◌≢◌, List, [], ◌∷◌, ◌++◌, Bool, true, false, not, Option, none, some, ◌==◌,
  if◌then◌else◌,
}
use mad_devicedriver.Kernel.{Errno, enomem, Ret, value, error}
use mad_devicedriver.Setup.{
  memory, minor, urb, buffer, usb_device, interface, intfdata, Call, acquire, release, Ledger,
  replay, nothing,
}
use mad_devicedriver.SkelDrv.{enodev}

-- How the kernel answers a probe: `false` stands for a NULL.
pub record Answers : Type 0 where
  pub alloc_dev : Bool
  pub find_common_endpoints : Option Errno
  pub alloc_buffer : Bool
  pub alloc_urb : Bool
  pub register_dev : Option Errno

-- kfree and usb_free_urb of a NULL do nothing.
abbrev pub skel_delete : Bool → Bool → List Call
skel_delete has_urb has_buffer =
    (if has_urb then release urb ∷ [] else [])
    ++ release interface ∷ release usb_device ∷ []
    ++ (if has_buffer then release buffer ∷ [] else [])
    ++ release memory ∷ []

-- The structure with its URB and buffer.
abbrev pub delete_all : List Call
delete_all = skel_delete true true

abbrev taken : List Call
taken = acquire memory ∷ acquire usb_device ∷ acquire interface ∷ []

abbrev ready : List Call
ready = taken ++ (acquire buffer ∷ acquire urb ∷ acquire intfdata ∷ [])

-- The label `error` puts the only use of the structure.
unfoldable pub skel_probe : Answers → Ret × List Call
skel_probe k = if not k.alloc_dev then (error enomem, []) else elim k.find_common_endpoints [
  | some e ↦ (error e, taken ++ skel_delete false false)
  | none ↦
      if not k.alloc_buffer
      then (error enomem, taken ++ skel_delete false false)
      else if not k.alloc_urb
      then (error enomem, taken ++ (acquire buffer ∷ skel_delete false true))
      else elim k.register_dev [
        | some e ↦ (error e, ready ++ (release intfdata ∷ delete_all))
        | none ↦ (value 0, ready ++ (acquire minor ∷ []))
      ]
]

-- The structure behind an interface: whether the interface still names it, its uses, the open files,
-- the uses of usb_autopm_get_interface, and what is held of the kernel.
pub record Life : Type 0 where
  pub named : Bool
  pub kref : ℕ
  pub files : ℕ
  pub autopm : ℕ
  pub ledger : Ledger

-- Behind a probe that returned 0.
unfoldable pub attached : Answers → Life
attached k = record {
  named = true;
  kref = 1;
  files = 0;
  autopm = 0;
  ledger = replay (skel_probe k).1 nothing;
}

abbrev pub kref_put : Life → Life
kref_put l = record l {
  kref = l.kref - 1;
  ledger = replay (if l.kref == 1 then delete_all else []) l.ledger;
}

-- `found` is whether usb_find_interface finds the interface by its minor.
unfoldable pub skel_open : Life → Bool → Option Errno → Ret × Life
skel_open l found autopm_get =
    if not found
    then (error enodev, l)
    else if not l.named
    then (error enodev, l)
    else elim autopm_get [
      | some e ↦ (error e, l)
      | none ↦ (value 0, record l { kref = l.kref + 1; files = l.files + 1; autopm = l.autopm + 1 })
    ]

-- Of a file whose private data is the structure.
unfoldable pub skel_release : Life → Ret × Life
skel_release l = (value 0, kref_put (record l { files = l.files - 1; autopm = l.autopm - 1 }))

unfoldable pub skel_disconnect : Life → Life
skel_disconnect l =
    kref_put
      (record l { named = false; ledger = replay (release intfdata ∷ release minor ∷ []) l.ledger })

-- Files are opened and released, and the device is disconnected once, in any order.
pub data Step (l : Life) : Life → Type 0 where
  opens : (found : Bool) (autopm_get : Option Errno) → Step l (skel_open l found autopm_get).1
  releases : l.files ≢ 0 → Step l (skel_release l).1
  disconnects : l.named ≡ true → Step l (skel_disconnect l)

pub data Reach (l : Life) : Life → Type 0 where
  here : Reach l l
  next : {m n : Life} → Reach l m → Step m n → Reach l n
