-- ===== src/Apple/Tests.antt =====
-- Runs on small configurations, and witnesses.
use dip_rust.Base.{
  subst, some_inj, ◌<◌, ◌≡◌, refl, sym, inl, inr, true, none, some, List, [], ◌∷◌, arith,
  if◌then◌else◌, Bool-cases, is_some, length, Has,
}
use dip_rust.Text.{Text, codes, text_eq}
use dip_rust.Json.{null, string, array, object, no_items, item, no_fields, field}
use dip_rust.Text.Equality.{text_eq_iff}
use dip_rust.Compose.Services.{ServiceConfig}
use dip_rust.Apple.Order.{Config, done, service_in, start_order}
use dip_rust.Apple.Order.Dependencies.{Depends}
use dip_rust.Apple.Order.Visiting.{Starts, start_order-Ordered}
use dip_rust.Apple.Arguments.{sanitize_name, run_args, replace_run_network}
use dip_rust.Apple.Arguments.Exec.{ExecParse, parse_exec_service}
use dip_rust.Apple.Arguments.Exec.Spelling.{
  ExecOption, flag, setting, joined, interactive_tty, short_env, joined_cwd,
}

abbrev service_with : List Text → ServiceConfig
service_with depends_on = record {
  build = none;
  image = some (codes "nginx");
  labels = object no_fields;
  volumes = [];
  ports = array (item (string (codes "80:80")) no_items);
  environment = object (field (codes "A") (string (codes "1")) no_fields);
  env_file = array no_items;
  command = null;
  entrypoint = null;
  working_dir = none;
  depends_on = depends_on;
  healthcheck = null;
}

abbrev two_services : Config
two_services =
    (codes "db", service_with [])
    ∷ (codes "web", service_with (codes "db" ∷ codes "gone" ∷ []))
    ∷ []

dependencies_first :
    start_order two_services (some (codes "web")) ≡ done (codes "db" ∷ codes "web" ∷ [])
unfolding start_order
dependencies_first = refl

-- A circle is cut where it is entered.
circle :
    start_order
      ((codes "a", service_with (codes "b" ∷ [])) ∷ (codes "b", service_with (codes "a" ∷ [])) ∷ [])
      none
    ≡ done (codes "b" ∷ codes "a" ∷ [])
unfolding start_order
circle = refl

safe_name : sanitize_name (codes "-My  App/x.y-") ≡ codes "my-app-x.y"
unfolding sanitize_name
safe_name = refl

retried_on_default :
    replace_run_network
      (codes "default")
      (run_args (λ t. t) (codes "p") (codes "web") (service_with []) (codes "dip-p"))
    ≡ run_args (λ t. t) (codes "p") (codes "web") (service_with []) (codes "default")
unfolding replace_run_network run_args
retried_on_default = refl

longer_names : (name d : Text) → Depends two_services name d → length d < length name
unfolding service_in
longer_names name d (service, e, h, k) = elim (Bool-cases (text_eq name (codes "db"))) [
  | inl t ↦
      first (
        subst (λ b. (if b then some (service_with []) else service_in name rest) ≡ some service) t
          e)
  | inr t ↦
      second (
        subst (λ b. (if b then some (service_with []) else service_in name rest) ≡ some service) t
          e)
]
  where
    rest : Config
    rest = (codes "web", service_with (codes "db" ∷ codes "gone" ∷ [])) ∷ []

    no_service : none ≡ some service → length d < length name
    no_service q = cc

    unknown : is_some (service_in (codes "gone") two_services) ≡ true → length d < length name
    unknown q = cc

    dependency :
        Has d (codes "db" ∷ codes "gone" ∷ []) → name ≡ codes "web" → length d < length name
    dependency (inl t) n = rw (t, n) (omega arith)
    dependency (inr (inr m)) n = elim m [ ]
    dependency (inr (inl t)) n =
        unknown (subst (λ x. is_some (service_in x two_services) ≡ true) t k)

    third :
        name ≡ codes "web"
        → service_with (codes "db" ∷ codes "gone" ∷ []) ≡ service
        → length d < length name
    third n s = dependency (subst (λ s. Has d (ServiceConfig.depends_on s)) (sym s) h) n

    first : some (service_with []) ≡ some service → length d < length name
    first q = elim (subst (λ s. Has d (ServiceConfig.depends_on s)) (sym (some_inj q)) h) [ ]

    second : service_in name rest ≡ some service → length d < length name
    second q = elim (Bool-cases (text_eq name (codes "web"))) [
      | inl t ↦ third ((text_eq_iff name (codes "web")).0 t) (
          some_inj (
            subst
              (λ b.
                (if b then some (service_with (codes "db" ∷ codes "gone" ∷ [])) else none)
                ≡ some service)
              t q))
      | inr t ↦ no_service (
          subst
            (λ b.
              (if b then some (service_with (codes "db" ∷ codes "gone" ∷ [])) else none)
              ≡ some service)
            t q)
    ]

start_order-Ordered_example :
    Starts two_services (some (codes "web")) (start_order two_services (some (codes "web")))
unfolding service_in text_eq
start_order-Ordered_example =
    start_order-Ordered two_services length longer_names (some (codes "web")) refl

abbrev exec_line : List Text
exec_line = codes "exec" ∷ codes "-it" ∷ codes "-e" ∷ codes "A=1" ∷ codes "app" ∷ codes "sh" ∷ []

abbrev exec_parsed : ExecParse
exec_parsed = record {
  service = codes "app";
  command_start = 5;
  options = codes "--interactive" ∷ codes "--tty" ∷ codes "--env" ∷ codes "A=1" ∷ [];
}

exec_parses : parse_exec_service exec_line ≡ some exec_parsed
unfolding parse_exec_service
exec_parses = refl

abbrev exec_options : List ExecOption
exec_options =
    flag interactive_tty ∷ setting short_env (codes "A=1") ∷ joined joined_cwd (codes "/app") ∷ []
