-- ===== src/SkelDrv/History.antt =====
-- Whatever happens to a device of usb_skel_drv.c: its calls, one after another, and the ends of its
-- transfers between them.
use mathlib.Core.List.{append-nil, append_assoc}
use mad_devicedriver.Prelude.{
  ℕ, ◌+◌, ◌≤◌, ◌≡◌, ◌≢◌, refl, sym, ap, ◌∙◌, arith, List, [], ◌++◌, Bool, true, false, subst, some,
  length, replicate, length-replicate, if◌then◌else◌, inl, inr, Bool-cases,
}
use mad_devicedriver.Kernel.{Errno, Ret}
use mad_devicedriver.SkelDrv.{
  epipe, Skel, Transfer, Request, Pass, Progress, brought, complete, skel_read, skel_draw_down,
  skel_flush, skel_suspend, skel_pre_reset, skel_post_reset, stop_io,
}
use mad_devicedriver.SkelDrv.Buffer.{unread, IsValid, AllFit, steady, Keeps, complete_lem}
use mad_devicedriver.SkelDrv.Stream.{skel_read_lem}
use mad_devicedriver.SkelDrv.Write.{
  Answers, skel_write, skel_write-Settles, skel_write_bulk_callback, writes_in_flight,
}

-- The device, with all the bytes that its transfers have brought and all those that its reads have
-- handed to copy_to_user, in order.
pub record Trace : Type 0 where
  pub dev : Skel
  pub arrived : List ℕ
  pub handed : List ℕ

-- As the probe leaves it, with an endpoint of packets of `n` bytes.
abbrev pub fresh : ℕ → Trace
fresh n = record {
  dev = record {
    bulk_in_buffer = replicate n 0;
    bulk_in_size = n;
    bulk_in_filled = 0;
    bulk_in_copied = 0;
    transfer_size = 0;
    errors = 0;
    ongoing_read = false;
    disconnected = false;
    limit_sem = writes_in_flight;
    submitted = 0;
  };
  arrived = [];
  handed = [];
}

-- The read under way, if there is one, ends with `t`, and `dev'` is the device behind.
abbrev drained : Trace → Transfer → Skel → Trace
drained s t dev' = record s {
  dev = dev';
  arrived = s.arrived ++ (if s.dev.ongoing_read then brought t else []);
}

-- A read that has come to its end.
abbrev served : Trace → Progress → Trace
served s p = record { dev = p.dev; arrived = s.arrived ++ p.arrived; handed = s.handed ++ p.handed }

-- The USB core brings at most the bytes that a transfer was filled for, and so no more than the buffer
-- has. The calls that come to an end; what a flush, a suspend or a disconnect does to the writes are
-- steps `written`.
pub data Step (page_size : ℕ) (s : Trace) : Trace → Type 0 where
  reads :
      (r : Request) (ps : List Pass) {ret : Ret}
      → AllFit s.dev.bulk_in_size ps
      → (skel_read s.dev r ps).ret ≡ some ret
      → Step page_size s (served s (skel_read s.dev r ps))
  writes :
      (k : Answers) (nonblock : Bool) (count : ℕ) {ret : Ret}
      → (skel_write page_size s.dev k nonblock count).0 ≡ some ret
      → Step page_size s (record s { dev = (skel_write page_size s.dev k nonblock count).2 })
  written :
      (status : Errno)
      → s.dev.submitted ≢ 0
      → Step page_size s (record s { dev = (skel_write_bulk_callback s.dev status).1 })
  arrives :
      (t : Transfer)
      → length t.received ≤ s.dev.bulk_in_size
      → s.dev.ongoing_read ≡ true
      → Step page_size s (drained s t (complete s.dev t))
  flushes :
      (t : Transfer)
      → length t.received ≤ s.dev.bulk_in_size
      → Step page_size s (drained s t (skel_flush s.dev t).1)
  suspends :
      (t : Transfer)
      → length t.received ≤ s.dev.bulk_in_size
      → Step page_size s (drained s t (skel_suspend s.dev t))
  resets :
      (t : Transfer)
      → length t.received ≤ s.dev.bulk_in_size
      → Step page_size s (drained s t (skel_post_reset (skel_pre_reset s.dev t)))
  disconnects :
      (t : Transfer)
      → length t.received ≤ s.dev.bulk_in_size
      → Step page_size s (drained s t (stop_io s.dev t))

pub data Reach (page_size : ℕ) (s : Trace) : Trace → Type 0 where
  here : Reach page_size s s
  next : {t u : Trace} → Reach page_size s t → Step page_size t u → Reach page_size s u

-- What every state has.
pub record Inv (s : Trace) : Type 0 where
  pub valid : IsValid s.dev
  pub bytes : s.arrived ≡ s.handed ++ unread s.dev
  pub credits : s.dev.limit_sem + s.dev.submitted ≡ writes_in_flight

-- A step that keeps the buffer.
Keeps-Inv :
    (s : Trace) (arrived handed : List ℕ) (dev' : Skel)
    → Inv s
    → Keeps s.dev arrived handed dev'
    → Inv (record { dev = dev'; arrived = s.arrived ++ arrived; handed = s.handed ++ handed })
Keeps-Inv s arrived handed dev' i (v, e, k) = record {
  valid = v;
  bytes =
      ap (λ l. l ++ arrived) i.bytes
      ∙ (append_assoc s.handed (unread s.dev) arrived
          ∙ (ap (λ l. s.handed ++ l) e ∙ sym (append_assoc s.handed handed (unread dev'))));
  credits = k.credits ∙ i.credits;
}

-- The end of the read under way, if there is one.
draw_down_lem :
    (dev : Skel) (t : Transfer)
    → IsValid dev
    → length t.received ≤ dev.bulk_in_size
    → Keeps dev (if dev.ongoing_read then brought t else []) [] (skel_draw_down dev t)
draw_down_lem dev t v h = elim (Bool-cases dev.ongoing_read) [
  | inl busy ↦ let (w, e, _, k) = complete_lem dev t v h busy in simp busy (w, e, k)
  | inr idle ↦ simp idle (v, append-nil _, steady refl refl)
]

-- A device that differs in nothing that the invariant reads but the semaphore and the anchor.
settled-Inv :
    (s : Trace) (errors : Errno) (disconnected : Bool) (limit_sem submitted : ℕ)
    → Inv s
    → limit_sem + submitted ≡ s.dev.limit_sem + s.dev.submitted
    → Inv (record s {
      dev = record (s.dev) {
        errors = errors;
        disconnected = disconnected;
        limit_sem = limit_sem;
        submitted = submitted;
      };
    })
settled-Inv s errors disconnected limit_sem submitted i e = record {
  valid = record {
    sized = i.valid.sized;
    fits = i.valid.fits;
    behind = i.valid.behind;
    asked = i.valid.asked;
    empty = i.valid.empty;
  };
  bytes = i.bytes;
  credits = e ∙ i.credits;
}

drained-Inv :
    (s : Trace) (t : Transfer)
    → Inv s
    → length t.received ≤ s.dev.bulk_in_size
    → Inv (drained s t (skel_draw_down s.dev t))
drained-Inv s t i h =
    subst (λ l. Inv (record (drained s t (skel_draw_down s.dev t)) { handed = l }))
      (append-nil s.handed) (Keeps-Inv s _ [] _ i (draw_down_lem s.dev t i.valid h))

Step-Inv : (page_size : ℕ) (s t : Trace) → Step page_size s t → Inv s → Inv t
unfolding skel_write_bulk_callback
Step-Inv page_size s _ (reads r ps h e) i = Keeps-Inv s _ _ _ i (skel_read_lem s.dev r ps i.valid h)
Step-Inv page_size s _ (writes k nonblock count e) i =
    let (x, l, m, sum, same) = skel_write-Settles page_size s.dev k nonblock count in
    subst (λ d. Inv (record s { dev = d })) (sym same)
      (settled-Inv s x s.dev.disconnected l m i sum)
Step-Inv page_size s _ (written status h) i = settled-Inv s _ _ _ _ i (omega arith)
Step-Inv page_size s _ (arrives t h busy) i =
    let ended : skel_draw_down s.dev t ≡ complete s.dev t = simp busy refl in
    subst (λ d. Inv (drained s t d)) ended (drained-Inv s t i h)
Step-Inv page_size s _ (flushes t h) i = settled-Inv _ 0 _ _ _ (drained-Inv s t i h) refl
Step-Inv page_size s _ (suspends t h) i = drained-Inv s t i h
Step-Inv page_size s _ (resets t h) i = settled-Inv _ epipe _ _ _ (drained-Inv s t i h) refl
Step-Inv page_size s _ (disconnects t h) i =
    drained-Inv (record s { dev = record (s.dev) { disconnected = true } }) t
      (settled-Inv s _ true _ _ i refl) h

Reach-Inv : (page_size : ℕ) (s t : Trace) → Reach page_size s t → Inv s → Inv t
Reach-Inv page_size s _ here i = i
Reach-Inv page_size s t (next {t = u} path last) i =
    Step-Inv page_size u t last (Reach-Inv page_size s u path i)

fresh-Inv : (n : ℕ) → Inv (fresh n)
fresh-Inv n = record {
  valid = record {
    sized = length-replicate n 0;
    fits = omega arith;
    behind = omega arith;
    asked = omega arith;
    empty = λ e. refl;
  };
  bytes = refl;
  credits = refl;
}

-- In every state reached from the probe on, whatever the calls and the transfers between them: the
-- bytes that the transfers have brought are those that the reads have handed out, in order, followed by
-- those unread in the buffer.
pub bytes_in_order :
    (page_size n : ℕ) (s : Trace)
    → Reach page_size (fresh n) s
    → s.arrived ≡ s.handed ++ unread s.dev
bytes_in_order page_size n s path = (Reach-Inv page_size (fresh n) s path (fresh-Inv n)).bytes

-- In every state reached from the probe on: the semaphore has a unit for each of the eight writes that
-- is not under way, so no more than eight are.
pub eight_in_flight :
    (page_size n : ℕ) (s : Trace)
    → Reach page_size (fresh n) s
    → (s.dev.limit_sem + s.dev.submitted ≡ writes_in_flight) × (s.dev.submitted ≤ writes_in_flight)
eight_in_flight page_size n s path =
    let i = Reach-Inv page_size (fresh n) s path (fresh-Inv n) in
    (i.credits, omega (arith, i.credits))
