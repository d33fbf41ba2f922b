-- ===== src/Gateway/Setup.antt =====
-- The set-up of examples/mqttsn-simple-gateway/main.c.
use tinyhan.Base.{ap, ℕ, zero, suc, ◌+◌, ◌%◌, ◌^◌, ◌≡◌, refl, ◌∙◌, List, [], ◌∷◌, length}
use tinyhan.Base.Int.{ℤ}
use tinyhan.Posix.{
  Call, System, Action, pure, ◌>>=◌, ◌>>◌, call, epoll_create, epoll_add, socket, bind, watch_ticks,
}
use tinyhan.Posix.Stops.{
  tick_calls, watch_ticks-Ensures, Ensures, pure-Ensures, call_then-Ensures, >>=-Ensures,
}
use tinyhan.Gateway.{Files, open_sockets, set_up, max_devices, max_events, device_port_base}

-- The calls for the sockets from number `n` on, behind earlier calls: each is opened, bound to the port of
-- its number and watched under this number.
abbrev pub socket_calls : ℤ → ℕ → List ℤ → List Call → List Call
socket_calls epoll_fd n [] calls = calls
socket_calls epoll_fd n (sock ∷ socks) calls =
    socket_calls epoll_fd (n + 1) socks
      (epoll_add epoll_fd sock n ∷ bind sock ((device_port_base + n) % 2 ^ 16) ∷ socket ∷ calls)

-- What the sockets of `k` devices require.
abbrev Opens : ℤ → ℕ → ℕ → List Call → List ℤ → List Call → Type 0
Opens epoll_fd k n calls socks later =
    (length socks ≡ k) × (later ≡ socket_calls epoll_fd n socks calls)

open_sockets-Ensures :
    (system : System) (epoll_fd : ℤ) (k n : ℕ) (calls : List Call)
    → Ensures system calls (open_sockets system epoll_fd k n) (Opens epoll_fd k n calls)
unfolding open_sockets
open_sockets-Ensures system epoll_fd zero n calls =
    pure-Ensures system calls [] (Opens epoll_fd 0 n calls) (refl, refl)
open_sockets-Ensures system epoll_fd (suc k) n calls =
    let Q = Opens epoll_fd (suc k) n calls in
    let port = (device_port_base + n) % 2 ^ 16 in
    let others : ℤ → Action (List ℤ) =
      λ sock. open_sockets system epoll_fd k (n + 1) >>= (λ socks. pure (sock ∷ socks)) in
    let watch : ℤ → Action (List ℤ) =
      λ sock. call system (epoll_add epoll_fd sock n) >> others sock in
    let begin : ℤ → Action (List ℤ) = λ sock. call system (bind sock port) >> watch sock in
    call_then-Ensures system calls Q socket begin (λ sock.
      let l1 = socket ∷ calls in
      let l2 = bind sock port ∷ l1 in
      let l3 = epoll_add epoll_fd sock n ∷ l2 in
      call_then-Ensures system l1 Q (bind sock port) (λ _. watch sock)
        (λ rc.
          call_then-Ensures system l2 Q (epoll_add epoll_fd sock n) (λ _. others sock)
            (λ rc'.
              >>=-Ensures system l3 (Opens epoll_fd k (n + 1) l3) Q
                (open_sockets system epoll_fd k (n + 1)) (λ socks. pure (sock ∷ socks))
                (open_sockets-Ensures system epoll_fd k (n + 1) l3)
                (λ socks later (len, e).
                  pure-Ensures system later (sock ∷ socks) Q (ap suc len, e)))))

-- The calls of the whole set-up, for its descriptors.
abbrev pub set_up_calls : Files → ℤ → List Call → List Call
set_up_calls files phy_fd calls = tick_calls files.epoll_fd (max_devices + 1) files.timer_fd (
    socket_calls files.epoll_fd 0 files.socks
      (epoll_add files.epoll_fd phy_fd max_devices ∷ epoll_create max_events ∷ calls))

abbrev pub IsSetUp : ℤ → List Call → Files → List Call → Type 0
IsSetUp phy_fd calls files later =
    (length files.socks ≡ max_devices) × (later ≡ set_up_calls files phy_fd calls)

-- Whatever the system calls return, the gateway's set-up ends with the first that fails, and `main` returns
-- 1; or none fails, and then it has made exactly these calls, in order: an epoll that watches the
-- driver as 256, a socket for each of the 256 devices, bound to the port 11000 and its number and
-- watched under its number, and a timer of 250 ms that is watched as 257.
pub set_up-Ensures :
    (system : System) (phy_fd : ℤ) (calls : List Call)
    → Ensures system calls (set_up system phy_fd) (IsSetUp phy_fd calls)
unfolding set_up
set_up-Ensures system phy_fd calls =
    let Q = IsSetUp phy_fd calls in
    let made : ℤ → List ℤ → ℤ → Action Files =
      λ e socks t. pure (record { epoll_fd = e; socks = socks; timer_fd = t }) in
    let timer : ℤ → List ℤ → Action Files =
      λ e socks. watch_ticks system e (max_devices + 1) >>= made e socks in
    let sockets : ℤ → Action Files = λ e. open_sockets system e max_devices 0 >>= timer e in
    let driver : ℤ → Action Files =
      λ e. call system (epoll_add e phy_fd max_devices) >> sockets e in
    call_then-Ensures system calls Q (epoll_create max_events) driver (λ e.
      let l1 = epoll_create max_events ∷ calls in
      let l2 = epoll_add e phy_fd max_devices ∷ l1 in
      call_then-Ensures system l1 Q (epoll_add e phy_fd max_devices) (λ _. sockets e)
        (λ rc.
          >>=-Ensures system l2 (Opens e max_devices 0 l2) Q (open_sockets system e max_devices 0)
            (timer e) (open_sockets-Ensures system e max_devices 0 l2)
            (λ socks later (len, p).
              >>=-Ensures system later (λ t l. l ≡ tick_calls e (max_devices + 1) t later) Q
                (watch_ticks system e (max_devices + 1)) (made e socks)
                (watch_ticks-Ensures system e (max_devices + 1) later)
                (λ t l q.
                  pure-Ensures system l (record { epoll_fd = e; socks = socks; timer_fd = t }) Q
                    (len, q ∙ ap (tick_calls e (max_devices + 1) t) p)))))
