-- ===== src/PcdN/Invariant.antt =====
-- pcd_n.c: the invariant of its devices and open files, kept by every step.
use mad_devicedriver.Prelude.{
  ℕ, ◌-◌, ◌^◌, ◌≤◌, ◌<◌, min, ◌≡◌, ap, ◌∙◌, arith, List, some, length, length-replicate,
  length-splice,
}
use mad_devicedriver.Kernel.{Ret, value, done, overrun, Uaccess}
use mad_devicedriver.Pcd.Core.{check_permission, adjust_count, read_at, write_at}
use mad_devicedriver.Pcd.Transfer.{
  IsPlaced, read_spec, write_spec, read_at-read_spec, write_at-write_spec,
}
use mad_devicedriver.PcdN.{
  PcdevPrivateData, File, pcdev_data, zeroed, max_size, pcd_open, pcd_lseek, pcd_read, pcd_write,
}
use mad_devicedriver.PcdN.System.{
  System, Step, open_file, lseek, read, write, pread, pwrite, close, user, Reach, here, next,
  loaded,
}

-- A device keeps the size and the permission it was declared with, and all of its memory.
pub record DeviceOk (d declared : PcdevPrivateData) : Type 0 where
  pub size_kept : d.size ≡ declared.size
  pub perm_kept : d.perm ≡ declared.perm
  pub small : d.size < 2 ^ 31
  pub filled : length d.buffer ≡ d.size

-- An open file stands inside its device, and was opened with a mode that the device permits.
pub record FileOk (devs : ℕ → PcdevPrivateData) (f : File) : Type 0 where
  pub within : f.f_pos ≤ (devs f.private_data).size
  pub allowed : check_permission (devs f.private_data).perm f.f_mode ≡ value 0

pub record Inv {Mem : Type 0} (s : System Mem) : Type 0 where
  pub devices : (i : ℕ) → DeviceOk (s.devs i) (pcdev_data i)
  pub opened : (fd : ℕ) (f : File) → s.files fd ≡ some f → FileOk s.devs f

length-zeroed : (n : ℕ) → length (zeroed n) ≡ n
unfolding zeroed
length-zeroed n = length-replicate n 0

pcdev_data-DeviceOk : (i : ℕ) → DeviceOk (pcdev_data i) (pcdev_data i)
unfolding pcdev_data
pcdev_data-DeviceOk i = ground (arith, length-zeroed 1024, length-zeroed 512)

pub loaded-Inv : {Mem : Type 0} (mem : Mem) → Inv (loaded mem)
loaded-Inv mem = record { devices = pcdev_data-DeviceOk; opened = λ fd f e. cc }

module _ {d declared : PcdevPrivateData} (ok : DeviceOk d declared) where
  lseek_within :
      (f_pos offset whence : ℕ)
      → f_pos ≤ d.size
      → offset < 2 ^ 64
      → (pcd_lseek d f_pos offset whence).1 ≤ d.size
  unfolding pcd_lseek
  lseek_within f_pos offset whence h w = ground (arith, ok.small)

  max_size-eq : max_size d ≡ d.size
  max_size-eq = ground (arith, ok.small)

  DeviceOk-IsPlaced : (f_pos : ℕ) → f_pos ≤ d.size → IsPlaced (max_size d) d.buffer f_pos
  DeviceOk-IsPlaced f_pos h = ground (arith, ok.small, ok.filled)

  module _ {Mem : Type 0} (u : Uaccess Mem) (f_pos : ℕ) (mem : Mem) (buff count : ℕ)
      (h : f_pos ≤ d.size) (c : count < 2 ^ 63) where
    -- The calls come to an end inside the memory of the device.
    pub read_runs :
        pcd_read u d f_pos mem buff count ≡ done (read_spec u d.size d.buffer f_pos mem buff count)
    unfolding pcd_read
    read_runs =
        read_at-read_spec u (max_size d) d.buffer f_pos mem buff count (DeviceOk-IsPlaced f_pos h) c
        ∙ ap (λ k. done (read_spec u k d.buffer f_pos mem buff count)) max_size-eq

    pub write_runs :
        pcd_write u d f_pos mem buff count
        ≡ done (write_spec u d.size d.buffer f_pos mem buff count)
    unfolding pcd_write
    write_runs =
        write_at-write_spec u (max_size d) d.buffer f_pos mem buff count (DeviceOk-IsPlaced f_pos h)
          c
        ∙ ap (λ k. done (write_spec u k d.buffer f_pos mem buff count)) max_size-eq

    read_within :
        {r : Ret} {f_pos' : ℕ} {mem' : Mem}
        → pcd_read u d f_pos mem buff count ≡ done (r, f_pos', mem')
        → f_pos' ≤ d.size
    read_within e = ground (arith, read_runs)

    write_within :
        {r : Ret} {f_pos' : ℕ} {buffer : List ℕ}
        → pcd_write u d f_pos mem buff count ≡ done (r, f_pos', buffer)
        → (f_pos' ≤ d.size) × (length buffer ≡ length d.buffer)
    write_within e =
        let bytes : List ℕ = (u.copy_from_user mem buff (min count (d.size - f_pos))).1 in
        ground (arith, write_runs, length-splice d.buffer f_pos bytes)

  module _ {Mem : Type 0} (u : Uaccess Mem) (pos : ℕ) (mem : Mem) (buff count : ℕ)
      (past : d.size < pos) (p : pos < 2 ^ 63) (c : count < 2 ^ 63) where
    -- Past the size the adjusted count wraps, also that of a call for no bytes: the driver asks for a
    -- copy outside the memory of the device.
    pub read_overruns : pcd_read u d pos mem buff count ≡ overrun
    unfolding pcd_read read_at
    read_overruns = ground (arith, max_size-eq, ok.small, ok.filled)

    pub write_overruns : pcd_write u d pos mem buff count ≡ overrun
    unfolding pcd_write write_at
    write_overruns = ground (arith, max_size-eq, ok.small, ok.filled)

-- A write that comes to an end, wherever it is, leaves the size of the memory.
write_length :
    {Mem : Type 0} (u : Uaccess Mem) (d : PcdevPrivateData) (pos : ℕ) (mem : Mem) (buff count : ℕ)
    {r : Ret} {f_pos : ℕ} {buffer : List ℕ}
    → pcd_write u d pos mem buff count ≡ done (r, f_pos, buffer)
    → length buffer ≡ length d.buffer
unfolding pcd_write write_at
write_length u d pos mem buff count e =
    let bytes : List ℕ = (u.copy_from_user mem buff (adjust_count (max_size d) pos count)).1 in
    ground (arith, length-splice d.buffer pos bytes)

module _ {Mem : Type 0} (u : Uaccess Mem) where
  -- Every step of the system keeps the invariant.
  pub Step-Inv : {s t : System Mem} → Step u s t → Inv s → Inv t
  unfolding pcd_open
  Step-Inv {s} (open_file fd i f_mode lt e) v = record {
    devices = v.devices;
    opened = λ fd' f' e'. ground (arith, v.opened fd' f');
  }
  Step-Inv {s} (lseek fd offset whence f e w) v = record {
    devices = v.devices;
    opened = λ fd' f' e'. ground (
      arith,
      v.opened fd f e,
      v.opened fd' f',
      lseek_within (v.devices f.private_data) f.f_pos offset whence,
    );
  }
  Step-Inv {s} (read fd buff count f e mode c run) v = record {
    devices = v.devices;
    opened = λ fd' f' e'. ground (
      arith,
      v.opened fd f e,
      v.opened fd' f',
      read_within (v.devices f.private_data) u f.f_pos s.mem buff count (v.opened fd f e).within c
          run,
    );
  }
  Step-Inv {s} (write fd buff count f e mode c run) v = record {
    devices = λ i. ground (
      arith,
      v.devices i,
      v.devices f.private_data,
      write_within (v.devices f.private_data) u f.f_pos s.mem buff count (v.opened fd f e).within c
          run,
    );
    opened = λ fd' f' e'. ground (
      arith,
      v.opened fd f e,
      v.opened fd' f',
      write_within (v.devices f.private_data) u f.f_pos s.mem buff count (v.opened fd f e).within c
          run,
    );
  }
  Step-Inv (pread fd buff count pos f e mode c p run) v = record {
    devices = v.devices;
    opened = v.opened;
  }
  Step-Inv {s} (pwrite fd buff count pos f e mode c p run) v = record {
    devices = λ i. ground (
      arith,
      v.devices i,
      v.devices f.private_data,
      write_length u (s.devs f.private_data) pos s.mem buff count run,
    );
    opened = λ fd' f' e'. ground (arith, v.opened fd' f');
  }
  Step-Inv {s} (close fd) v = record {
    devices = v.devices;
    opened = λ fd' f' e'. ground (arith, v.opened fd' f');
  }
  Step-Inv {s} (user mem) v = record { devices = v.devices; opened = v.opened }

  pub Reach-Inv : {s t : System Mem} → Inv s → Reach u s t → Inv t
  Reach-Inv v here = v
  Reach-Inv v (next r st) = Step-Inv st (Reach-Inv v r)
