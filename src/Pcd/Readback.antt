-- ===== src/Pcd/Readback.antt =====
-- What a completed `pcd_write` leaves in the device, and what a `pcd_read` of it delivers.
use mad_devicedriver.Prelude.{
  ℕ, ◌+◌, ◌-◌, ◌^◌, ◌≤◌, ◌<◌, min, ◌≡◌, ◌⊎◌, arith, List, length, get_elem?, slice, splice,
  length-slice, length-splice, slice-splice, get_elem?-splice_before, get_elem?-splice_after,
}
use mad_devicedriver.Kernel.{Ret, value, done, Uaccess, UaccessLaws}
use mad_devicedriver.Pcd.Core.{read_at, write_at}
use mad_devicedriver.Pcd.Transfer.{IsPlaced, read_at-read_spec, write_at-write_spec}

module _ {Mem : Type 0} (u : Uaccess Mem) (laws : UaccessLaws u) where
  -- A write of `n` bytes, inverted.
  record Wrote (buffer : List ℕ) (f_pos : ℕ) (mem : Mem) (src n f_pos' : ℕ) (buffer' : List ℕ)
      : Type 0 where
    moved : f_pos' ≡ f_pos + n
    stored : buffer' ≡ splice buffer f_pos (u.copy_from_user mem src n).1
    copied : (u.copy_from_user mem src n).1 ≡ u.peek mem src n
    filled : length (u.copy_from_user mem src n).1 ≡ n

  write_at-Wrote :
      (max_size : ℕ) (buffer : List ℕ) (f_pos : ℕ) (mem : Mem) (src count n f_pos' : ℕ)
      (buffer' : List ℕ)
      → IsPlaced max_size buffer f_pos
      → count < 2 ^ 63
      → write_at u max_size buffer f_pos mem src count ≡ done (value n, f_pos', buffer')
      → (n ≡ min count (max_size - f_pos)) × Wrote buffer f_pos mem src n f_pos' buffer'
  write_at-Wrote max_size buffer f_pos mem src count n f_pos' buffer' v c e =
      let k : ℕ = min count (max_size - f_pos) in
      ground (
        arith,
        write_at-write_spec u max_size buffer f_pos mem src count v c,
        laws.from_user_all mem src k,
        laws.from_user_length mem src k,
      )

  -- For a backed device and a count below 2^63, whatever a write returns: the device keeps its
  -- size, and no byte before the position, or after the bytes that the count and the room allow,
  -- changes.
  pub write_at_footprint :
      (max_size : ℕ) (buffer : List ℕ) (f_pos : ℕ) (mem : Mem) (src count : ℕ) {r : Ret}
      {f_pos' : ℕ} {buffer' : List ℕ}
      → IsPlaced max_size buffer f_pos
      → count < 2 ^ 63
      → write_at u max_size buffer f_pos mem src count ≡ done (r, f_pos', buffer')
      → (length buffer' ≡ length buffer)
        × ((j : ℕ)
            → (j < f_pos) ⊎ (f_pos + min count (max_size - f_pos) ≤ j)
            → get_elem? buffer' j ≡ get_elem? buffer j)
  write_at_footprint max_size buffer f_pos mem src count v c e =
      let k : ℕ = min count (max_size - f_pos) in
      let bytes : List ℕ = (u.copy_from_user mem src k).1 in
      (
        ground (
          arith,
          write_at-write_spec u max_size buffer f_pos mem src count v c,
          length-splice buffer f_pos bytes,
        ),
        λ j side. ground (
          arith,
          write_at-write_spec u max_size buffer f_pos mem src count v c,
          laws.from_user_length mem src k,
          get_elem?-splice_before buffer f_pos bytes j,
          get_elem?-splice_after buffer f_pos bytes j,
        ),
      )

  -- A read of `m` bytes, inverted.
  pub read_at_delivers :
      (max_size : ℕ) (buffer : List ℕ) (f_pos : ℕ) (mem : Mem) (dst count : ℕ) {m f_pos' : ℕ}
      {mem' : Mem}
      → IsPlaced max_size buffer f_pos
      → count < 2 ^ 63
      → read_at u max_size buffer f_pos mem dst count ≡ done (value m, f_pos', mem')
      → (m ≡ min count (max_size - f_pos))
        × (f_pos' ≡ f_pos + m)
        × (u.peek mem' dst m ≡ slice buffer f_pos m)
  read_at_delivers max_size buffer f_pos mem dst count v c e =
      let k : ℕ = min count (max_size - f_pos) in
      let bytes : List ℕ = slice buffer f_pos k in
      ground (
        arith,
        read_at-read_spec u max_size buffer f_pos mem dst count v c,
        laws.to_user_all mem dst bytes,
        length-slice buffer f_pos k,
      )

  stored_back :
      {buffer : List ℕ} {f_pos : ℕ} {mem : Mem} {src n f_pos' : ℕ} {buffer' : List ℕ}
      → f_pos + n ≤ length buffer
      → Wrote buffer f_pos mem src n f_pos' buffer'
      → (slice buffer' f_pos n ≡ u.peek mem src n) × (length buffer' ≡ length buffer)
  stored_back {buffer} {f_pos} {mem} {src} {n} h wr =
      let bytes : List ℕ = (u.copy_from_user mem src n).1 in
      ground (arith, slice-splice buffer f_pos bytes, length-splice buffer f_pos bytes)

  -- For a backed device and a count below 2^63: when a write returns n and a read of n bytes at the
  -- same position (into any user memory) then succeeds, the read returns n too and ends at the same
  -- position, and the bytes that the reader gets are those that the writer passed.
  pub write_read_back :
      (max_size : ℕ) (buffer : List ℕ) (f_pos : ℕ) (mem : Mem) (src count n : ℕ) {f_pos' : ℕ}
      {buffer' : List ℕ} (mem' : Mem) (dst : ℕ) {m f_pos'' : ℕ} {mem'' : Mem}
      → IsPlaced max_size buffer f_pos
      → count < 2 ^ 63
      → write_at u max_size buffer f_pos mem src count ≡ done (value n, f_pos', buffer')
      → read_at u max_size buffer' f_pos mem' dst n ≡ done (value m, f_pos'', mem'')
      → (m ≡ n) × (f_pos'' ≡ f_pos') × (u.peek mem'' dst n ≡ u.peek mem src n)
  write_read_back max_size buffer f_pos mem src count n {f_pos'} {buffer'} mem' dst v c w r =
      let (n_eq, wr) = write_at-Wrote max_size buffer f_pos mem src count n f_pos' buffer' v c w in
      let (back, len) = stored_back (omega arith) wr in
      let v' : IsPlaced max_size buffer' f_pos = omega arith in
      let d = read_at_delivers max_size buffer' f_pos mem' dst n v' (omega arith) r in
      ground (arith, d, back, wr.moved)
