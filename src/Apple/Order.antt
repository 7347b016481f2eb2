-- ===== src/Apple/Order.antt =====
-- The order in which services start: `selected_services`, `start_order` and `visit_service`, which
-- costs a unit of fuel for each call.
pub mod Ending
pub mod Dependencies
pub mod Visiting
use dip_rust.Compose.Services.{ServiceConfig}
use dip_rust.Base.{
  length-map, ℤ, pos, negsuc, any_of_Has, any_sound, le→ltb-false, is_nil, subst, some_inj, ltb→lt,
  ltb-false→le, leb→le, ℕ, zero, suc, ◌+◌, ◌-◌, ◌*◌, ◌/◌, ◌%◌, ◌^◌, ◌≤◌, ◌<◌, min, ◌≡◌, refl, sym,
  ap, ◌∙◌, ◌≢◌, ◌↔◌, ◌⊎◌, inl, inr, Bool, true, false, not, ◌&&◌, ◌||◌, Option, none, some, List,
  [], ◌∷◌, ◌++◌, map, append_assoc, append-nil, arith, ltb, leb, ◌==◌, if◌then◌else◌, ==_iff,
  Bool-cases, &&-true, Option-cases, unwrap_or, or_else, is_some, length, get_elem?, take, drop,
  filter, any, find, Has, Has-append_left, Has-append_right, All, All-append, All-Has, All_of_Has,
  length-append, take-append-drop, take-length-append, drop-length-append, length-take, length-drop,
  get_elem?-lt,
}
use dip_rust.Text.{
  Text, codes, char_len, byte_len, text_eq, is_empty, strip_prefix, starts_with, ends_with,
  contains_char, contains, is_whitespace, trim_start_by, keep_unless, trim_end_by, trim_start,
  trim_end, trim, trim_char, split_once, cons_to_first, split, before, join, drop_cr, lines_from,
  lines, replace_char, ascii_lower, to_ascii_lowercase, eq_ignore_ascii_case,
}

abbrev pub Config : Type 0
Config = List (Text × ServiceConfig)

-- `not_found` is the error that there is no such service.
pub data Outcome (A : Type 0) : Type 0 where
  done : A → Outcome A
  not_found : Text → Outcome A
  exhausted : Outcome A

infixl 5 ◌>>=◌
abbrev pub ◌>>=◌ : {A B : Type 0} → Outcome A → (A → Outcome B) → Outcome B
done a >>= f = f a
not_found name >>= f = not_found name
exhausted >>= f = exhausted

unfoldable pub service_in : Text → Config → Option ServiceConfig
unfolding text_eq
service_in name [] = none
service_in name ((n, service) ∷ config) =
    if text_eq name n then some service else service_in name config

unfoldable pub member : Text → List Text → Bool
unfolding text_eq
member name [] = false
member name (n ∷ names) = text_eq name n || member name names

-- The services that were seen, and the order so far.
pub record Visit : Type 0 where
  pub seen : List Text
  pub order : List Text

abbrev pub see : Text → Visit → Visit
see name st = record { seen = name ∷ Visit.seen st; order = Visit.order st }

abbrev pub push_service : Text → Visit → Visit
push_service name st = record { seen = Visit.seen st; order = Visit.order st ++ name ∷ [] }

module _ (config : Config) where
  -- The parts of `visit_service`, on what the next calls do.
  module _ (self : Text → Visit → Outcome Visit) where
    unfoldable pub visit_known : (known : Bool) → Text → Visit → Outcome Visit
    visit_known true name st = self name st
    visit_known false name st = done st

    unfoldable pub visit_all : List Text → Visit → Outcome Visit
    unfolding visit_known service_in
    visit_all [] st = done st
    visit_all (name ∷ names) st =
        visit_known (is_some (service_in name config)) name st >>= λ st. visit_all names st

    unfoldable pub visit_found : Option ServiceConfig → Text → Visit → Outcome Visit
    unfolding visit_all
    visit_found none name st = not_found name
    visit_found (some service) name st =
        visit_all (ServiceConfig.depends_on service) st >>= λ st. done (push_service name st)

    unfoldable pub visit_new : (seen : Bool) → Text → Visit → Outcome Visit
    unfolding visit_found service_in
    visit_new true name st = done st
    visit_new false name st = visit_found (service_in name config) name (see name st)

  unfoldable pub visit_service : ℕ → Text → Visit → Outcome Visit
  unfolding visit_new member
  visit_service zero name st = exhausted
  visit_service (suc n) name st = visit_new (visit_service n) (member name (Visit.seen st)) name st

  unfoldable pub visit_roots : ℕ → List Text → Visit → Outcome Visit
  unfolding visit_service
  visit_roots n [] st = done st
  visit_roots n (name ∷ names) st = visit_service n name st >>= λ st. visit_roots n names st

abbrev pub names_of : Config → List Text
names_of [] = []
names_of ((name, service) ∷ config) = name ∷ names_of config

unfoldable pub selected_services : Config → Option Text → Outcome (List Text)
unfolding service_in
selected_services config (some name) =
    if is_some (service_in name config) then done (name ∷ []) else not_found name
selected_services config none = done (names_of config)

-- A unit more than there are services is enough.
unfoldable pub start_order : Config → Option Text → Outcome (List Text)
unfolding selected_services visit_roots
start_order config service = selected_services config service >>= λ roots.
    visit_roots config (suc (length config)) roots (record { seen = []; order = [] }) >>= λ st.
    done (Visit.order st)
