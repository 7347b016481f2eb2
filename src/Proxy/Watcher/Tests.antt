-- ===== src/Proxy/Watcher/Tests.antt =====
-- The watcher at concrete events.
use dip_rust.Base.{◌≡◌, refl, Option, none, some, List, [], ◌∷◌, arith, if◌then◌else◌, is_some}
use dip_rust.Proxy.Config.{Route}
use dip_rust.Proxy.Watcher.Runs.{read, run, Reach, here, next, IsUnique, Reach-IsUnique}
use dip_rust.Proxy.Watcher.Table.{
  upstreams, last_port, published, handle_start-published, handle_stop-upstreams,
}
use dip_rust.Proxy.Watcher.{
  DockerEvent, dip_host_entries, container_ip, handle_start, handle_stop, Watch, receive,
}
use dip_rust.Text.{Text, codes}

abbrev started : DockerEvent
started = record {
  action = codes "start";
  id = codes "4f2a";
  attributes =
      (codes "dip.host", codes "\"app.test:3000\"")
      ∷ (codes "com.docker.compose.project", codes "shop")
      ∷ (codes "dip.host.api", codes "api.test")
      ∷ [];
}

abbrev shown : Option Text
shown = some (codes " 172.18.0.4\n")

abbrev old_table : List Route
old_table =
    record { domain = codes "app.test"; upstream = codes "172.18.0.9:80" }
    ∷ record { domain = codes "db.test"; upstream = codes "172.18.0.2:80" }
    ∷ []

entries_of_labels :
    dip_host_entries started.attributes
    ≡ (codes "app.test", codes "3000") ∷ (codes "api.test", codes "80") ∷ []
unfolding dip_host_entries dip_rust.Proxy.Watcher.is_host_label dip_rust.Text.text_eq
    dip_rust.Proxy.Watcher.parse_host_value dip_rust.Text.starts_with dip_rust.Text.split_once
    dip_rust.Text.trim_end_by dip_rust.Text.trim_start_by dip_rust.Text.is_whitespace
entries_of_labels = refl

start_replaces :
    handle_start started shown old_table
    ≡ record { domain = codes "db.test"; upstream = codes "172.18.0.2:80" }
      ∷ record { domain = codes "app.test"; upstream = codes "172.18.0.4:3000" }
      ∷ record { domain = codes "api.test"; upstream = codes "172.18.0.4:80" }
      ∷ []
unfolding handle_start dip_host_entries dip_rust.Proxy.Watcher.is_host_label dip_rust.Text.text_eq
    container_ip dip_rust.Text.trim_end_by dip_rust.Text.trim_start_by dip_rust.Text.is_whitespace
    dip_rust.Proxy.Watcher.publish dip_rust.Text.starts_with dip_rust.Proxy.Watcher.parse_host_value
    dip_rust.Text.split_once
start_replaces = refl

handle_start-published_example :
    upstreams (handle_start started shown old_table) (codes "app.test")
    ≡ elim (container_ip shown) [
      | none ↦ upstreams old_table (codes "app.test")
      | some ip ↦
          published ip
            (last_port (dip_host_entries started.attributes) (codes "app.test"))
            (upstreams old_table (codes "app.test"))
    ]
handle_start-published_example = handle_start-published started shown old_table (codes "app.test")

handle_stop-upstreams_example : upstreams (handle_stop started old_table) (codes "app.test") ≡ (
    if is_some (last_port (dip_host_entries started.attributes) (codes "app.test"))
    then []
    else upstreams old_table (codes "app.test"))
handle_stop-upstreams_example = handle_stop-upstreams started old_table (codes "app.test")

abbrev idle : Watch
idle = record { routes = []; pending = [] }

abbrev waiting : Watch
waiting = receive (some started) idle

pending_one : waiting.pending ≡ started ∷ []
unfolding receive dip_rust.Text.text_eq
pending_one = refl

started_run :
    Reach idle (record { routes = handle_start started shown waiting.routes; pending = [] })
started_run = next (next here (read (some started))) (run [] [] started shown pending_one refl)

empty_IsUnique : IsUnique []
unfolding upstreams
empty_IsUnique d = omega arith

Reach-IsUnique_example : IsUnique (handle_start started shown waiting.routes)
Reach-IsUnique_example = Reach-IsUnique started_run empty_IsUnique
