-- ===== src/ProcFile/Waiting.antt =====
-- `module_open` and `module_close` of blocking_drv.c, run by any number of processes: the steps of one
-- process between two points at which another may run.
use mad_devicedriver.Prelude.{ℕ, ◌+◌, ◌-◌, ◌≡◌, ◌≢◌, List, [], ◌∷◌, ◌++◌}

-- Where a process stands: outside the file; at the `atomic_cmpxchg`, the module taken; in
-- `wait_event_interruptible`, on the wait queue and runnable, before it looks at the condition; asleep
-- there; behind it, before the signals are looked at; with the file open.
pub data Pc : Type 0 where
  outside trying looking waiting woken opened : Pc

-- `already_open`, and the module's reference count.
pub record Gate : Type 0 where
  pub already_open : ℕ
  pub refs : ℕ

-- One step of one process, but for `module_close`. `try_module_get` succeeds, as it does on a module
-- that is not being unloaded. (A process that is put on the queue looks at the condition before it
-- sleeps, and sleeps only if nobody has made it runnable since: `sleep` is one step.)
pub data Move (g : Gate) : Pc → Gate → Pc → Type 0 where
  -- O_NONBLOCK on a file that is open: -EAGAIN.
  refuse : g.already_open ≢ 0 → Move g outside g outside
  enter : Move g outside (record g { refs = g.refs + 1 }) trying
  exchange : g.already_open ≡ 0 → Move g trying (record g { already_open = 1 }) opened
  queue_up : g.already_open ≢ 0 → Move g trying g looking
  sleep : g.already_open ≢ 0 → Move g looking g waiting
  -- The wait ends where a process that is awake finds the file free, or on a signal.
  find_free : g.already_open ≡ 0 → Move g looking g woken
  notice_signal : Move g looking g woken
  wake_signal : Move g waiting g woken
  -- A signal is pending: -EINTR, and the module is given back.
  interrupt : Move g woken (record g { refs = g.refs - 1 }) outside
  again : Move g woken g trying

-- `wake_up(&waitq)`: every process that sleeps is made runnable, and looks at the condition again.
abbrev pub wake : Pc → Pc
wake waiting = looking
wake p = p

unfoldable pub wake_up : List Pc → List Pc
wake_up [] = []
wake_up (p ∷ ps) = wake p ∷ wake_up ps

-- `already_open` and the module's reference count behind `module_close`.
unfoldable pub module_close : Gate → Gate
module_close g = record { already_open = 0; refs = g.refs - 1 }

pub record System : Type 0 where
  pub gate : Gate
  pub pcs : List Pc

-- Any process may make the next step; one that has the file open may close it.
pub data Step (s : System) : System → Type 0 where
  pick :
      (before after : List Pc) {p q : Pc} {g : Gate}
      → s.pcs ≡ before ++ p ∷ after
      → Move s.gate p g q
      → Step s (record { gate = g; pcs = before ++ q ∷ after })
  close :
      (before after : List Pc)
      → s.pcs ≡ before ++ opened ∷ after
      → Step s (record { gate = module_close s.gate; pcs = wake_up (before ++ outside ∷ after) })

pub data Reach (s : System) : System → Type 0 where
  here : Reach s s
  next : {t u : System} → Reach s t → Step t u → Reach s u
