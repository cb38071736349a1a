-- ===== src/Supervisor/Shutdown.antt =====
-- src/supervisor.rs: stopping the services, and the lock that a session leaves behind.
pub mod Signals
use irc2torrent.Prelude.{
  ℕ, suc, ◌==◌, Bool, true, false, not, ◌||◌, List, [], ◌∷◌, ◌++◌, map, Text, codes, Option, none,
  some, if◌then◌else◌, keep_if, any, trim, text_eq, is_empty,
}
use irc2torrent.Supervisor.Services.{Service}

pub data Signal : Type 0 where
  terminate kill : ℕ → Signal

-- The pids of the services that have one.
abbrev pub with_pid : Option ℕ → List ℕ → List ℕ
with_pid none pids = pids
with_pid (some pid) pids = pid ∷ pids

unfoldable pub live_pids : List Service → List ℕ
live_pids [] = []
live_pids (svc ∷ services) = with_pid svc.child (live_pids services)

abbrev pub has_pid : ℕ → List ℕ → Bool
has_pid pid = any (λ p. p == pid)

-- The exits that are reported within the grace period, in order; the loop ends early once nothing is
-- outstanding.
abbrev pub await_exits : List ℕ → List ℕ → List ℕ
await_exits [] outstanding = outstanding
await_exits (pid ∷ reports) [] = []
await_exits (pid ∷ reports) (p ∷ outstanding) =
    await_exits reports (keep_if (λ q. not (q == pid)) (p ∷ outstanding))

unfoldable pub shutdown : List Service → List ℕ → List Signal
unfolding live_pids
shutdown services reports =
    let live = live_pids services in
    let outstanding = await_exits reports live in
    map terminate live ++ map kill (keep_if (λ pid. has_pid pid outstanding) live)

-- `rsplit_once(":+")`, the part before
abbrev pub starts_with_mark : Text → Bool
starts_with_mark [] = false
starts_with_mark (c ∷ []) = false
starts_with_mark (c ∷ d ∷ cs) = if c == 58 then d == 43 else false

abbrev pub later_or : Option Text → ℕ → Bool → Option Text
later_or (some before) c is_mark = some (c ∷ before)
later_or none c true = some []
later_or none c false = none

abbrev pub rsplit_mark : Text → Option Text
rsplit_mark [] = none
rsplit_mark (c ∷ cs) = later_or (rsplit_mark cs) c (starts_with_mark (c ∷ cs))

unfoldable pub removes_lock : Text → Option Text → Bool
removes_lock ours none = false
removes_lock ours (some host) = not (is_empty ours || not (text_eq host ours))

-- Whether the lock is removed: its contents, when the file can be read, and the host's own name.
unfoldable pub clear_stale_session_lock : Option Text → Text → Bool
unfolding removes_lock
clear_stale_session_lock none ours = false
clear_stale_session_lock (some contents) ours = removes_lock ours (rsplit_mark (trim contents))
