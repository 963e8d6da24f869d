-- ===== src/PcdN/Safety.antt =====
-- pcd_n.c in every reachable state: no call leaves a device's memory, and what the permission of a
-- device forbids does not happen to it.
use mad_devicedriver.Prelude.{
  ℕ, ◌^◌, ◌≤◌, ◌<◌, ◌≡◌, ◌⊎◌, inl, inr, refl, ◌∙◌, arith, false, some, leb, Bool-cases,
}
use mad_devicedriver.Kernel.{done, overrun, Uaccess}
use mad_devicedriver.Pcd.Core.{fmode_read, fmode_write, check_permission, rdonly, wronly}
use mad_devicedriver.Pcd.Transfer.{read_spec, write_spec}
use mad_devicedriver.PcdN.{PcdevPrivateData, File, pcdev_data, pcd_read, pcd_write}
use mad_devicedriver.PcdN.System.{
  System, Step, open_file, lseek, read, write, pread, pwrite, close, user, Reach, here, next,
  loaded,
}
use mad_devicedriver.PcdN.Invariant.{
  Inv, Reach-Inv, loaded-Inv, DeviceOk, read_runs, write_runs, read_overruns, write_overruns,
}

le_or_gt : (m n : ℕ) → (m ≤ n) ⊎ (n < m)
le_or_gt m n = elim (Bool-cases (leb m n)) [
  | inl h ↦ inl (ground arith)
  | inr h ↦ inr (ground arith)
]

module _ {Mem : Type 0} (u : Uaccess Mem) where
  -- Reads and writes of `count` bytes at `pos` end inside the memory of device `d`, with what the
  -- specifications say.
  abbrev Serves : PcdevPrivateData → Mem → ℕ → ℕ → ℕ → Type 0
  Serves d mem buff count pos =
      (pcd_read u d pos mem buff count ≡ done (read_spec u d.size d.buffer pos mem buff count))
      × (pcd_write u d pos mem buff count ≡ done (write_spec u d.size d.buffer pos mem buff count))

  -- They ask for a copy outside it.
  abbrev Escapes : PcdevPrivateData → Mem → ℕ → ℕ → ℕ → Type 0
  Escapes d mem buff count pos =
      (pcd_read u d pos mem buff count ≡ overrun) × (pcd_write u d pos mem buff count ≡ overrun)

  -- In a state reached from the loaded module, for an open file and a count below 2^63: a read and a
  -- write at the position of the file come to an end inside the memory of its device, with what
  -- `read_spec` and `write_spec` say. So do pread64 and pwrite64, which take a position of the caller's
  -- choice, where it is at most the size; at every one past it, below 2^63, both ask for a copy outside
  -- the memory, whatever the count.
  pub no_overrun :
      {mem₀ : Mem} {s : System Mem}
      → Reach u (loaded mem₀) s
      → (fd buff count pos : ℕ) (f : File) → s.files fd ≡ some f
      → count < 2 ^ 63
      → pos < 2 ^ 63
      → let d = s.devs f.private_data in
        Serves d s.mem buff count f.f_pos
        × (((pos ≤ d.size) × Serves d s.mem buff count pos)
            ⊎ ((d.size < pos) × Escapes d s.mem buff count pos))
  no_overrun {mem₀} {s} r fd buff count pos f e c p =
      (serves f.f_pos (v.opened fd f e).within, at_choice)
    where
      v : Inv s
      v = Reach-Inv u (loaded-Inv mem₀) r

      d : PcdevPrivateData
      d = s.devs f.private_data

      ok : DeviceOk d (pcdev_data f.private_data)
      ok = v.devices f.private_data

      serves : (k : ℕ) → k ≤ d.size → Serves d s.mem buff count k
      serves k h = (read_runs ok u k s.mem buff count h c, write_runs ok u k s.mem buff count h c)

      at_choice :
          ((pos ≤ d.size) × Serves d s.mem buff count pos)
          ⊎ ((d.size < pos) × Escapes d s.mem buff count pos)
      at_choice = elim (le_or_gt pos d.size) [
        | inl h ↦ inl (h, serves pos h)
        | inr h ↦ inr (
          h,
          (
            read_overruns ok u pos s.mem buff count h p c,
            write_overruns ok u pos s.mem buff count h p c,
          ),
        )
      ]

  -- A device that was declared read-only never changes.
  Step-rdonly :
      {s t : System Mem}
      → Step u s t
      → Inv s
      → (i : ℕ) → (pcdev_data i).perm ≡ rdonly
      → (t.devs i).buffer ≡ (s.devs i).buffer
  unfolding check_permission
  Step-rdonly (open_file fd i f_mode lt e) v j p = refl
  Step-rdonly (lseek fd offset whence f e w) v j p = refl
  Step-rdonly (read fd buff count f e mode c run) v j p = refl
  Step-rdonly {s} (write fd buff count f e mode c run) v j p =
      ground (arith, v.opened fd f e, v.devices j)
  Step-rdonly (pread fd buff count pos f e mode c p run) v j perm = refl
  Step-rdonly {s} (pwrite fd buff count pos f e mode c p run) v j perm =
      ground (arith, v.opened fd f e, v.devices j)
  Step-rdonly (close fd) v j p = refl
  Step-rdonly (user mem) v j p = refl

  Reach-rdonly :
      {s t : System Mem}
      → Inv s
      → Reach u s t
      → (i : ℕ) → (pcdev_data i).perm ≡ rdonly
      → (t.devs i).buffer ≡ (s.devs i).buffer
  Reach-rdonly v here i p = refl
  Reach-rdonly v (next r st) i p = Step-rdonly st (Reach-Inv u v r) i p ∙ Reach-rdonly v r i p

  -- In every state reached from the loaded module, a device that is declared RDONLY holds what it
  -- held at the load.
  pub rdonly_untouched :
      {mem₀ : Mem} {s : System Mem}
      → Reach u (loaded mem₀) s
      → (i : ℕ) → (pcdev_data i).perm ≡ rdonly
      → (s.devs i).buffer ≡ (pcdev_data i).buffer
  rdonly_untouched {mem₀} r i p = Reach-rdonly (loaded-Inv mem₀) r i p

  -- In every state reached from the loaded module: an open file of a device declared WRONLY has a
  -- mode without FMODE_READ, and one of a device declared RDONLY a mode without FMODE_WRITE.
  pub modes_permitted :
      {mem₀ : Mem} {s : System Mem}
      → Reach u (loaded mem₀) s
      → (fd : ℕ) (f : File) → s.files fd ≡ some f
      → ((pcdev_data f.private_data).perm ≡ wronly → fmode_read f.f_mode ≡ false)
        × ((pcdev_data f.private_data).perm ≡ rdonly → fmode_write f.f_mode ≡ false)
  unfolding check_permission
  modes_permitted {mem₀} r fd f e =
      let v = Reach-Inv u (loaded-Inv mem₀) r in
      ground (arith, v.opened fd f e, v.devices f.private_data)
