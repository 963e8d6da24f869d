-- ===== src/PenDrv/Bulk.antt =====
-- What a reader of usb_drv.c gets of a packet, and what a packet has of a write.
use mad_devicedriver.Prelude.{
  take-all, ℕ, zero, suc, ◌≤◌, ◌≡◌, refl, ap, ◌∙◌, subst, arith, List, [], ◌∷◌, some, min, length,
  take, splice, length-splice, length-take,
}
use mad_devicedriver.Kernel.{Errno, value, Uaccess, UaccessLaws}
use mad_devicedriver.PenDrv.{max_pkt_size, min_of, pen_read, pen_write}

take-splice :
    (n : ℕ) (xs ys : List ℕ)
    → n ≤ length ys
    → length ys ≤ length xs
    → take n (splice xs 0 ys) ≡ take n ys
take-splice zero xs ys h k = refl
take-splice (suc n) xs [] h k = absurd (omega arith)
take-splice (suc n) [] (y ∷ ys) h k = absurd (omega arith)
take-splice (suc n) (x ∷ xs) (y ∷ ys) h k =
    ap (λ l. y ∷ l) (take-splice n xs ys (omega arith) (omega arith))

min_of-eq-min : (a b : ℕ) → min_of a b ≡ min a b
min_of-eq-min a b = ground arith

module _ {Mem : Type 0} (u : Uaccess Mem) where
  -- With a packet of at most 512 bytes received into the buffer of 512 bytes, and the copy to the user
  -- done in full: a read returns the lesser of the count and the size of the packet, the user has that
  -- many bytes from the start of the packet, and the buffer keeps its size.
  pub packet_received :
      (bulk_buf received : List ℕ) (mem : Mem) (buf cnt : ℕ)
      → UaccessLaws u
      → length bulk_buf ≡ max_pkt_size
      → length received ≤ max_pkt_size
      → (u.copy_to_user mem buf (take (min cnt (length received)) received)).0 ≡ 0
      → let (ret, mem', bulk_buf') = pen_read u bulk_buf (0, received) mem buf cnt in
        let n = min cnt (length received) in
        (ret ≡ value n) × (u.peek mem' buf n ≡ take n received) × (length bulk_buf' ≡ max_pkt_size)
  unfolding pen_read
  packet_received bulk_buf received mem buf cnt laws full fits whole =
      let n : ℕ = min cnt (length received) in
      let asked = min_of-eq-min cnt (length received) in
      let filled = take-splice n bulk_buf received (omega arith) (omega (arith, full)) in
      let size : length (take n received) ≡ n = omega (arith, length-take n received) in
      let there =
        subst (λ k. u.peek (u.copy_to_user mem buf (take n received)).1 buf k ≡ take n received)
          size (laws.to_user_all mem buf (take n received) whole) in
      rw (pen_read, asked, filled, whole) (refl, there, length-splice bulk_buf 0 received ∙ full)

  -- With the copy from the user done in full: the packet that is sent has the first bytes of the user's,
  -- as many as the count says and at most 512, and the write returns the number of bytes that
  -- usb_bulk_msg says went out, whether it fails or not.
  pub packet_sent :
      (bulk_buf : List ℕ) (send : List ℕ → Errno × ℕ) (mem : Mem) (buf cnt : ℕ)
      → UaccessLaws u
      → length bulk_buf ≡ max_pkt_size
      → (u.copy_from_user mem buf (min cnt max_pkt_size)).0 ≡ 0
      → let packet = u.peek mem buf (min cnt max_pkt_size) in
        let (ret, sent, bulk_buf') = pen_write u bulk_buf send mem buf cnt in
        (sent ≡ some packet) × (ret ≡ value (send packet).1) × (length bulk_buf' ≡ max_pkt_size)
  unfolding pen_write
  packet_sent bulk_buf send mem buf cnt laws full whole =
      let n : ℕ = min cnt max_pkt_size in
      let asked = min_of-eq-min cnt max_pkt_size in
      let bytes : List ℕ = (u.copy_from_user mem buf n).1 in
      let size = laws.from_user_length mem buf n in
      let sent : take n (splice bulk_buf 0 bytes) ≡ u.peek mem buf n =
        take-splice n bulk_buf bytes (omega (arith, size)) (omega (arith, size, full))
        ∙ (take-all n bytes (omega (arith, size)) ∙ laws.from_user_all mem buf n whole) in
      rw (pen_write, asked, whole, sent) (refl, refl, length-splice bulk_buf 0 bytes ∙ full)
