-- ===== src/Supervisor/Services/Backoff.antt =====
-- src/supervisor.rs: how long a restart waits.
use irc2torrent.Prelude.{
  ℕ, suc, ◌+◌, ◌^◌, ◌≡◌, ◌∙◌, refl, ap, min, List, [], ◌∷◌, length, some, arith, Text,
}
use native.Mathlib.Nat.{pow-suc}
use irc2torrent.Supervisor.Services.{Service, new_service, exited}

-- A service that exits at each of some instants.
abbrev pub exits : List ℕ → Service → Service
exits [] svc = svc
exits (now ∷ times) svc = exits times (exited now svc)

exits-backoff_from :
    (times : List ℕ) (svc : Service) (n : ℕ)
    → svc.backoff ≡ min (2 ^ n) 60
    → (exits times svc).backoff ≡ min (2 ^ (n + length times)) 60
unfolding exited
exits-backoff_from [] svc n h = h ∙ ap (λ k. min (2 ^ k) 60) (omega arith)
exits-backoff_from (now ∷ times) svc n h =
    let step : (exited now svc).backoff ≡ min (2 ^ suc n) 60 = omega (arith, h, pow-suc 2 n) in
    exits-backoff_from times (exited now svc) (suc n) step ∙ ap (λ k. min (2 ^ k) 60) (omega arith)

-- A service that has exited n times waits min(2 ^ n, 60) seconds for its restart the next time: the
-- wait doubles from one second up to a minute, and is never reset.
pub exits-backoff :
    (times : List ℕ) (now : ℕ) (name : Text)
    → (exited now (exits times (new_service name))).restart_at
      ≡ some (now + min (2 ^ length times) 60)
unfolding new_service exited
exits-backoff times now name =
    ap (λ b. some (now + b))
      (exits-backoff_from times (new_service name) 0 refl ∙ ap (λ k. min (2 ^ k) 60) (omega arith))
