-- ===== src/Posix/Stops.antt =====
-- A sequence of system calls that ends with the first one that fails.
use mathlib.Core.Path.{subst}
use tinyhan.Base.{
  ℕ, ◌≡◌, refl, sym, inl, inr, true, false, Option, none, some, List, ◌∷◌, Bool-cases,
}
use tinyhan.Base.Int.{ℤ, is_neg}
use tinyhan.Posix.{
  Call, System, Action, pure, ◌>>=◌, ◌>>◌, call, epoll_add, timerfd_create, timerfd_settime,
  watch_ticks,
}

-- The calls from one point to a later one, of which none failed.
pub data Succeed (system : System) (calls : List Call) : List Call → Type 0 where
  start : Succeed system calls calls
  next :
      {later : List Call} (c : Call)
      → Succeed system calls later
      → is_neg (system later c) ≡ false
      → Succeed system calls (c ∷ later)

-- The calls up to one that failed.
pub data Fails (system : System) (calls : List Call) : List Call → Type 0 where
  last :
      {later : List Call} (c : Call)
      → Succeed system calls later
      → is_neg (system later c) ≡ true
      → Fails system calls (c ∷ later)

-- The outcome of an action: with a result, no call failed, and the result and the calls are as required;
-- without, the last call failed, and only that.
abbrev pub Outcome :
    {A : Type 0} → System → List Call → (A → List Call → Type 0) → Option A × List Call → Type 0
Outcome system calls P (none, later) = Fails system calls later
Outcome system calls P (some a, later) = Succeed system calls later × P a later

abbrev pub Ensures :
    {A : Type 0} → System → List Call → Action A → (A → List Call → Type 0) → Type 0
Ensures system calls m P = Outcome system calls P (m calls)

then-Succeed :
    {system : System} {a b c : List Call}
    → Succeed system a b
    → Succeed system b c
    → Succeed system a c
then-Succeed s start = s
then-Succeed s (next d t h) = next d (then-Succeed s t) h

then-Fails :
    {system : System} {a b c : List Call} → Succeed system a b → Fails system b c → Fails system a c
then-Fails s (last d t h) = last d (then-Succeed s t) h

pub pure-Ensures :
    {A : Type 0} (system : System) (calls : List Call) (a : A) (P : A → List Call → Type 0)
    → P a calls
    → Ensures system calls (pure a) P
pure-Ensures system calls a P h = (start, h)

-- A call that does not fail is made once.
pub call-Ensures :
    (system : System) (calls : List Call) (c : Call)
    → Ensures system calls (call system c) (λ rc later. later ≡ c ∷ calls)
unfolding call
call-Ensures system calls c = elim (Bool-cases (is_neg (system calls c))) [
  | inl f ↦ rw (call, f) (last c start f)
  | inr s ↦ rw (call, s) (next c start s, refl)
]

after-Outcome :
    {B : Type 0} {system : System} {a b : List Call} (P : B → List Call → Type 0)
    (r : Option B × List Call)
    → Succeed system a b
    → Outcome system b P r
    → Outcome system a P r
after-Outcome P (none, later) s h = then-Fails s h
after-Outcome P (some x, later) s (h, p) = (then-Succeed s h, p)

then-Outcome :
    {A B : Type 0} (system : System) (calls : List Call) (P : A → List Call → Type 0)
    (Q : B → List Call → Type 0) (r : Option A × List Call) (f : A → Action B)
    → Outcome system calls P r
    → ((a : A) (later : List Call) → P a later → Ensures system later (f a) Q)
    → Outcome system calls Q
        (elim (r.0) as (λ _. Option B × List Call) [ none ↦ (none, r.1) | some a ↦ f a (r.1) ])
then-Outcome system calls P Q (none, later) f h k = h
then-Outcome system calls P Q (some a, later) f (h, p) k =
    after-Outcome Q (f a later) h (k a later p)

pub >>=-Ensures :
    {A B : Type 0} (system : System) (calls : List Call) (P : A → List Call → Type 0)
    (Q : B → List Call → Type 0) (m : Action A) (f : A → Action B)
    → Ensures system calls m P
    → ((a : A) (later : List Call) → P a later → Ensures system later (f a) Q)
    → Ensures system calls (m >>= f) Q
>>=-Ensures system calls P Q m f h k = then-Outcome system calls P Q (m calls) f h k

-- A call, and what follows it.
pub call_then-Ensures :
    {B : Type 0} (system : System) (calls : List Call) (Q : B → List Call → Type 0) (c : Call)
    (f : ℤ → Action B)
    → ((rc : ℤ) → Ensures system (c ∷ calls) (f rc) Q)
    → Ensures system calls (call system c >>= f) Q
call_then-Ensures system calls Q c f k =
    >>=-Ensures system calls (λ rc later. later ≡ c ∷ calls) Q (call system c) f
      (call-Ensures system calls c)
      (λ rc later e. subst (λ l. Ensures system l (f rc) Q) (sym e) (k rc))

-- The calls for a timer of 250 ms.
abbrev pub tick_calls : ℤ → ℕ → ℤ → List Call → List Call
tick_calls epoll_fd number timer_fd calls =
    epoll_add epoll_fd timer_fd number ∷ timerfd_settime timer_fd 250000000 ∷ timerfd_create ∷ calls

pub watch_ticks-Ensures :
    (system : System) (epoll_fd : ℤ) (number : ℕ) (calls : List Call)
    → Ensures system calls
        (watch_ticks system epoll_fd number)
        (λ timer_fd later. later ≡ tick_calls epoll_fd number timer_fd calls)
unfolding watch_ticks
watch_ticks-Ensures system epoll_fd number calls =
    let Q : ℤ → List Call → Type 0 =
      λ timer_fd later. later ≡ tick_calls epoll_fd number timer_fd calls in
    let watch : ℤ → Action ℤ =
      λ timer_fd. call system (epoll_add epoll_fd timer_fd number) >> pure timer_fd in
    let arm : ℤ → Action ℤ =
      λ timer_fd. call system (timerfd_settime timer_fd 250000000) >> watch timer_fd in
    call_then-Ensures system calls Q timerfd_create arm (λ timer_fd.
      let l1 = timerfd_create ∷ calls in
      let l2 = timerfd_settime timer_fd 250000000 ∷ l1 in
      let l3 = epoll_add epoll_fd timer_fd number ∷ l2 in
      call_then-Ensures system l1 Q (timerfd_settime timer_fd 250000000) (λ _. watch timer_fd)
        (λ rc.
          call_then-Ensures system l2 Q (epoll_add epoll_fd timer_fd number) (λ _. pure timer_fd)
            (λ rc'. pure-Ensures system l3 timer_fd Q refl)))
