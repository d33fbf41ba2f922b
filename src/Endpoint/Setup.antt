-- ===== src/Endpoint/Setup.antt =====
-- The set-up of examples/mqttsn-client/main.c.
use tinyhan.Base.{◌≡◌, List, ◌∷◌}
use tinyhan.Base.Int.{ℤ}
use tinyhan.Posix.{
  Call, System, Action, pure, ◌>>=◌, ◌>>◌, call, epoll_create, epoll_add, watch_ticks,
}
use tinyhan.Posix.Stops.{
  Ensures, tick_calls, pure-Ensures, call_then-Ensures, >>=-Ensures, watch_ticks-Ensures,
}
use tinyhan.Endpoint.{set_up, max_events}

-- The calls of the set-up, for its two descriptors.
abbrev pub IsSetUp : ℤ → List Call → ℤ × ℤ → List Call → Type 0
IsSetUp phy_fd calls (epoll_fd, timer_fd) later =
    later
    ≡ tick_calls epoll_fd 1 timer_fd (epoll_add epoll_fd phy_fd 0 ∷ epoll_create max_events ∷ calls)

-- Whatever the system calls return, the client's set-up ends with the first that fails, and `main` returns
-- 1; or none fails, and then it has made exactly these calls, in order: an epoll that watches the
-- driver as 0, and a timer of 250 ms that is watched as 1.
pub set_up-IsSetUp :
    (system : System) (phy_fd : ℤ) (calls : List Call)
    → Ensures system calls (set_up system phy_fd) (IsSetUp phy_fd calls)
unfolding set_up
set_up-IsSetUp system phy_fd calls =
    let Q = IsSetUp phy_fd calls in
    let made : ℤ → ℤ → Action (ℤ × ℤ) = λ e t. pure (e, t) in
    let timer : ℤ → Action (ℤ × ℤ) = λ e. watch_ticks system e 1 >>= made e in
    let driver : ℤ → Action (ℤ × ℤ) = λ e. call system (epoll_add e phy_fd 0) >> timer e in
    call_then-Ensures system calls Q (epoll_create max_events) driver (λ e.
      let l1 = epoll_create max_events ∷ calls in
      let l2 = epoll_add e phy_fd 0 ∷ l1 in
      call_then-Ensures system l1 Q (epoll_add e phy_fd 0) (λ _. timer e)
        (λ rc.
          >>=-Ensures system l2 (λ t l. l ≡ tick_calls e 1 t l2) Q (watch_ticks system e 1) (made e)
            (watch_ticks-Ensures system e 1 l2) (λ t l q. pure-Ensures system l (e, t) Q q)))
