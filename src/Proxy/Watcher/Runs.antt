-- ===== src/Proxy/Watcher/Runs.antt =====
-- All runs of the watcher: events are read and tasks run in any order, and a task sees whatever
-- `docker inspect` then prints.
use dip_rust.Base.{◌≤◌, ◌≡◌, Option, none, some, List, ◌∷◌, ◌++◌, arith, length}
use dip_rust.Text.{Text}
use dip_rust.Proxy.Config.{Route}
use dip_rust.Proxy.Watcher.Table.{
  upstreams, last_port, handle_start-published, handle_stop-upstreams,
}
use dip_rust.Proxy.Watcher.{
  DockerEvent, dip_host_entries, handle_start, handle_stop, Watch, receive,
}

-- A line is read, or one of the waiting tasks runs.
pub data Step (w : Watch) : Watch → Type 0 where
  read : (line : Option DockerEvent) → Step w (receive line w)
  run :
      (earlier later : List DockerEvent) (event : DockerEvent) (inspected : Option Text) {u : Watch}
      → w.pending ≡ earlier ++ (event ∷ later)
      → u ≡ record { routes = handle_start event inspected w.routes; pending = earlier ++ later }
      → Step w u

pub data Reach (w : Watch) : Watch → Type 0 where
  here : Reach w w
  next : {u v : Watch} → Reach w u → Step u v → Reach w v

-- No domain has two upstreams.
abbrev pub IsUnique : List Route → Type 0
IsUnique rs = (d : Text) → length (upstreams rs d) ≤ 1

handle_start-IsUnique :
    (event : DockerEvent) (inspected : Option Text) (rs : List Route)
    → IsUnique rs
    → IsUnique (handle_start event inspected rs)
handle_start-IsUnique event inspected rs h d =
    rw handle_start-published (ground (arith, h d, last_port (dip_host_entries event.attributes) d))

handle_stop-IsUnique :
    (event : DockerEvent) (rs : List Route) → IsUnique rs → IsUnique (handle_stop event rs)
handle_stop-IsUnique event rs h d = rw handle_stop-upstreams (ground (arith, h d))

receive-IsUnique :
    (line : Option DockerEvent) (w : Watch) → IsUnique w.routes → IsUnique (receive line w).routes
unfolding receive
receive-IsUnique none w h d = h d
receive-IsUnique (some event) w h d = ground (arith, h d, handle_stop-IsUnique event w.routes h d)

Step-IsUnique : {w u : Watch} → Step w u → IsUnique w.routes → IsUnique u.routes
Step-IsUnique {w} (read line) h = receive-IsUnique line w h
Step-IsUnique {w} (run earlier later event inspected e u) h =
    λ d. rw u (handle_start-IsUnique event inspected w.routes h d)

-- Whatever happens, no domain ever gets a second upstream.
pub Reach-IsUnique : {w u : Watch} → Reach w u → IsUnique w.routes → IsUnique u.routes
Reach-IsUnique here h = h
Reach-IsUnique (next r s) h = Step-IsUnique s (Reach-IsUnique r h)
