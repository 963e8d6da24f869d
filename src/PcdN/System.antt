-- ===== src/PcdN/System.antt =====
-- The four devices of pcd_n.c under the system calls of any number of processes, in any order. The
-- premises of a step are what the VFS sees to before it calls the driver: a file is open, its mode
-- allows the call, and the count is not negative as a `ssize_t`. read and write take the position of
-- the file and move it; pread64 and pwrite64 take one of the caller's choice that is not negative as a
-- `loff_t`, and leave the file's.
use mad_devicedriver.Prelude.{ℕ, ◌^◌, ◌<◌, ◌≡◌, List, true, Option, none, some, ◌==◌, if◌then◌else◌}
use mad_devicedriver.Kernel.{Ret, value, done, Uaccess}
use mad_devicedriver.Pcd.Core.{fmode_read, fmode_write}
use mad_devicedriver.PcdN.{
  PcdevPrivateData, File, no_of_devices, pcdev_data, pcd_lseek, pcd_read, pcd_write, pcd_open,
}

abbrev pub update {ℓ} : {A : Type ℓ} → (ℕ → A) → ℕ → A → ℕ → A
update f i a j = if i == j then a else f j

-- `files` are the open files by their descriptor, `devs` the devices by their number.
pub record System (Mem : Type 0) : Type 0 where
  pub devs : ℕ → PcdevPrivateData
  pub files : ℕ → Option File
  pub mem : Mem

abbrev pub with_buffer : PcdevPrivateData → List ℕ → PcdevPrivateData
with_buffer d b = record d { buffer = b }

abbrev pub at_pos : File → ℕ → File
at_pos f p = record f { f_pos = p }

module _ {Mem : Type 0} (u : Uaccess Mem) where
  pub data Step (s : System Mem) : System Mem → Type 0 where
    open_file :
        (fd i f_mode : ℕ)
        → i < no_of_devices
        → (pcd_open s.devs i f_mode).0 ≡ value 0
        → Step s (record s { files = update s.files fd (some (pcd_open s.devs i f_mode).1) })
    lseek :
        (fd offset whence : ℕ) (f : File)
        → s.files fd ≡ some f
        → offset < 2 ^ 64
        → Step s (record s {
          files =
              update s.files fd
                (some (at_pos f (pcd_lseek (s.devs f.private_data) f.f_pos offset whence).1));
        })
    read :
        (fd buff count : ℕ) (f : File) {r : Ret} {f_pos : ℕ} {mem : Mem}
        → s.files fd ≡ some f
        → fmode_read f.f_mode ≡ true
        → count < 2 ^ 63
        → pcd_read u (s.devs f.private_data) f.f_pos s.mem buff count ≡ done (r, f_pos, mem)
        → Step s (record s { files = update s.files fd (some (at_pos f f_pos)); mem = mem })
    write :
        (fd buff count : ℕ) (f : File) {r : Ret} {f_pos : ℕ} {buffer : List ℕ}
        → s.files fd ≡ some f
        → fmode_write f.f_mode ≡ true
        → count < 2 ^ 63
        → pcd_write u (s.devs f.private_data) f.f_pos s.mem buff count ≡ done (r, f_pos, buffer)
        → Step s (record s {
          devs = update s.devs f.private_data (with_buffer (s.devs f.private_data) buffer);
          files = update s.files fd (some (at_pos f f_pos));
        })
    pread :
        (fd buff count pos : ℕ) (f : File) {r : Ret} {f_pos : ℕ} {mem : Mem}
        → s.files fd ≡ some f
        → fmode_read f.f_mode ≡ true
        → count < 2 ^ 63
        → pos < 2 ^ 63
        → pcd_read u (s.devs f.private_data) pos s.mem buff count ≡ done (r, f_pos, mem)
        → Step s (record s { mem = mem })
    pwrite :
        (fd buff count pos : ℕ) (f : File) {r : Ret} {f_pos : ℕ} {buffer : List ℕ}
        → s.files fd ≡ some f
        → fmode_write f.f_mode ≡ true
        → count < 2 ^ 63
        → pos < 2 ^ 63
        → pcd_write u (s.devs f.private_data) pos s.mem buff count ≡ done (r, f_pos, buffer)
        → Step s (record s {
          devs = update s.devs f.private_data (with_buffer (s.devs f.private_data) buffer);
        })
    close : (fd : ℕ) → Step s (record s { files = update s.files fd none })
    user : (mem : Mem) → Step s (record s { mem = mem })

  pub data Reach (s : System Mem) : System Mem → Type 0 where
    here : Reach s s
    next : {t v : System Mem} → Reach s t → Step t v → Reach s v

-- After the module is loaded: the devices as they are declared, and no file open.
abbrev pub loaded : {Mem : Type 0} → Mem → System Mem
loaded mem = record { devs = pcdev_data; files = λ fd. none; mem = mem }
