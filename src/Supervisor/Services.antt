-- ===== src/Supervisor/Services.antt =====
-- src/supervisor.rs: exits and restarts of the services. An `Instant` is a number of seconds; whether
-- a program starts, and with which pid, is an argument.
pub mod Backoff
pub mod Abandoned
use irc2torrent.Prelude.{
  ℕ, zero, suc, ◌+◌, ◌*◌, ◌≡◌, min, ◌==◌, Bool, true, false, List, [], ◌∷◌, ◌++◌, Text, Option,
  none, some, if◌then◌else◌, leb, get_elem?,
}
use irc2torrent.Notify.Events.{Event, service_restarted}

abbrev pub restart_backoff_min : ℕ
restart_backoff_min = 1

abbrev pub restart_backoff_max : ℕ
restart_backoff_max = 60

-- A service without its command line; `child` is the pid.
pub record Service : Type 0 where
  pub name : Text
  pub child : Option ℕ
  pub backoff : ℕ
  pub restart_at : Option ℕ

unfoldable pub new_service : Text → Service
new_service name = record {
  name = name;
  child = none;
  backoff = restart_backoff_min;
  restart_at = none;
}

-- `HashMap<i32, usize>`
abbrev pub lookup_pid : ℕ → List (ℕ × ℕ) → Option ℕ
lookup_pid pid [] = none
lookup_pid pid ((p, index) ∷ by_pid) = if p == pid then some index else lookup_pid pid by_pid

abbrev pub remove_pid : ℕ → List (ℕ × ℕ) → List (ℕ × ℕ)
remove_pid pid [] = []
remove_pid pid ((p, index) ∷ by_pid) =
    let rest = remove_pid pid by_pid in if p == pid then rest else (p, index) ∷ rest

abbrev pub insert_pid : ℕ → ℕ → List (ℕ × ℕ) → List (ℕ × ℕ)
insert_pid pid index by_pid = (pid, index) ∷ remove_pid pid by_pid

pub record Supervisor : Type 0 where
  pub services : List Service
  pub by_pid : List (ℕ × ℕ)

-- `services[index] = ..`
abbrev pub update_at {ℓ} : {A : Type ℓ} → ℕ → (A → A) → List A → List A
update_at i f [] = []
update_at zero f (x ∷ xs) = f x ∷ xs
update_at (suc i) f (x ∷ xs) = x ∷ update_at i f xs

-- What is done to a service that has exited.
unfoldable pub exited : ℕ → Service → Service
exited now svc = record svc {
  child = none;
  restart_at = some (now + svc.backoff);
  backoff = min (svc.backoff * 2) restart_backoff_max;
}

abbrev pub restarted_event : Option Service → List Event
restarted_event none = []
restarted_event (some svc) = service_restarted svc.name ∷ []

pub exit_of : ℕ → ℕ → Option ℕ → Supervisor → List Event × Supervisor
unfolding exited
exit_of pid now none s = ([], s)
exit_of pid now (some index) s = (
  restarted_event (get_elem? s.services index),
  record { services = update_at index (exited now) s.services; by_pid = remove_pid pid s.by_pid },
)

-- A child was reaped: a service, or an orphan that nothing more is done about.
unfoldable pub reap : ℕ → ℕ → Supervisor → List Event × Supervisor
unfolding exit_of
reap pid now s = exit_of pid now (lookup_pid pid s.by_pid) s

-- `is_some_and(|at| at <= now)`
abbrev pub is_due : ℕ → Option ℕ → Bool
is_due now none = false
is_due now (some at) = leb at now

unfoldable pub started_with : Option ℕ → Service → Service
started_with none svc = record svc { restart_at = none }
started_with (some pid) svc = record svc { restart_at = none; child = some pid }

abbrev pub known_as : ℕ → Option ℕ → List (ℕ × ℕ) → List (ℕ × ℕ)
known_as index none by_pid = by_pid
known_as index (some pid) by_pid = insert_pid pid index by_pid

-- The loop over the indices, from one on: the services after it, and the pids.
abbrev pub restart_from :
    (ℕ → Option ℕ) → ℕ → ℕ → List Service → List (ℕ × ℕ) → List Service × List (ℕ × ℕ)
restart_from spawn now index [] by_pid = ([], by_pid)
restart_from spawn now index (svc ∷ services) by_pid =
    let due = restart_from spawn now (suc index) services (known_as index (spawn index) by_pid) in
    let rest = restart_from spawn now (suc index) services by_pid in
    if is_due now svc.restart_at
    then (started_with (spawn index) svc ∷ due.0, due.1)
    else (svc ∷ rest.0, rest.1)

unfoldable pub restart : (ℕ → Option ℕ) → ℕ → Supervisor → Supervisor
restart spawn now s =
    let done = restart_from spawn now 0 s.services s.by_pid in
    record { services = done.0; by_pid = done.1 }

pub data Step : Supervisor → Supervisor → Type 0 where
  reaped : (s : Supervisor) (pid now : ℕ) → Step s (reap pid now s).1
  restarted : (s : Supervisor) (spawn : ℕ → Option ℕ) (now : ℕ) → Step s (restart spawn now s)

pub data Run (start : Supervisor) : Supervisor → Type 0 where
  here : Run start start
  next : {s t : Supervisor} → Run start s → Step s t → Run start t
