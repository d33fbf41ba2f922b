-- ===== src/Posix.antt =====
-- The system calls with which the example programs set themselves up. What they return is up to the system.
pub mod Stops
use tinyhan.Base.{ℕ, ◌*◌, Option, none, some, List, ◌∷◌, if◌then◌else◌}
use tinyhan.Base.Int.{ℤ, is_neg}
use tinyhan.Mac.Wire.{tick_ms}

-- A call with what matters of its arguments: an `epoll_event` is its data, an address its port, and an
-- interval is in nanoseconds.
pub data Call : Type 0 where
  epoll_create : ℕ → Call
  epoll_add : ℤ → ℤ → ℕ → Call
  socket : Call
  bind : ℤ → ℕ → Call
  timerfd_create : Call
  timerfd_settime : ℤ → ℕ → Call

-- The result of a call, after the calls so far (the newest first).
abbrev pub System : Type 0
System = List Call → Call → ℤ

-- A part of `main`, from the calls so far to the calls behind it; without a result `main` has returned 1.
abbrev pub Action : Type 0 → Type 0
Action A = List Call → Option A × List Call

abbrev pub pure : {A : Type 0} → A → Action A
pure a calls = (some a, calls)

infixl 5 ◌>>=◌ ◌>>◌
abbrev pub ◌>>=◌ : {A B : Type 0} → Action A → (A → Action B) → Action B
◌>>=◌ m f calls =
    let (r, calls') = m calls in elim r [ none ↦ (none, calls') | some a ↦ f a calls' ]

abbrev pub ◌>>◌ : {A B : Type 0} → Action A → Action B → Action B
m >> k = m >>= λ _. k

-- A call, with `if (rc < 0) { perror(...); return 1; }` behind it.
unfoldable pub call : System → Call → Action ℤ
call system c calls = let rc = system calls c in (if is_neg rc then none else some rc, c ∷ calls)

-- The timer for `tinymac_tick_handler`, watched under a number.
unfoldable pub watch_ticks : System → ℤ → ℕ → Action ℤ
watch_ticks system epoll_fd number = do
  timer_fd ← call system timerfd_create
  call system (timerfd_settime timer_fd (1000000 * tick_ms))
  call system (epoll_add epoll_fd timer_fd number)
  pure timer_fd
