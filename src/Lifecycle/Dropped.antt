-- ===== src/Lifecycle/Dropped.antt =====
-- Requests in flight when a signal arrives.
use namespace_lister.Base.{ℕ, zero, suc, Bool, true, false, some, ◌≡◌, refl}
use namespace_lister.Lifecycle.{
  exit_code, shutting, Process, server_closed, signal, arrived, shut, closed, run_returned,
  main_ended, serving, Reach, here, next, is_orderly,
}

-- The server with requests in flight.
abbrev loaded : Bool → ℕ → Process
loaded metrics n = record (serving metrics false) { in_flight = n }

loaded-Reach :
    (metrics : Bool) (n : ℕ)
    → (h : Reach (serving metrics false) (loaded metrics n)) × (is_orderly h ≡ true)
loaded-Reach metrics zero = (here, refl)
loaded-Reach metrics (suc n) =
    let (h, o) = loaded-Reach metrics n in (next h refl (arrived refl refl), o)

-- A signal does not wait for the requests in flight: however many there are, the process can end, with
-- code 1, while all of them are without an answer, although neither the listener nor `Shutdown` nor
-- the resource cache fails and `Shutdown` has not returned.
pub Reach-drops :
    (metrics : Bool) (n : ℕ)
    → (p : Process) × (h : Reach (serving metrics false) p) × (is_orderly h ≡ true)
      × (p.exited ≡ some 1)
      × (p.in_flight ≡ n)
      × (p.shutdown ≡ shutting)
unfolding exit_code
Reach-drops metrics n =
    let (h, o) = loaded-Reach metrics n in
    (
      _,
      next
          (next
            (next (next (next h refl signal) refl (shut refl refl)) refl (closed refl (λ w. cc)))
            refl (run_returned (some server_closed) refl))
          refl (main_ended (some server_closed) refl),
      o,
      refl,
      refl,
      refl,
    )
