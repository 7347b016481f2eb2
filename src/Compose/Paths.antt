-- ===== src/Compose/Paths.antt =====
-- Paths: `resolve_path_string` and `normalize_path`, with the parts of `std::path` that they use, on
-- Unix. A path under construction is its root and the stack of its names.
pub mod Normal
pub mod Dots
pub mod Absolute
use dip_rust.Base.{
  length-map, ℤ, pos, negsuc, any_of_Has, any_sound, le→ltb-false, is_nil, subst, some_inj, ltb→lt,
  ltb-false→le, leb→le, ℕ, zero, suc, ◌+◌, ◌-◌, ◌*◌, ◌/◌, ◌%◌, ◌^◌, ◌≤◌, ◌<◌, min, ◌≡◌, refl, sym,
  ap, ◌∙◌, ◌≢◌, ◌↔◌, ◌⊎◌, inl, inr, Bool, true, false, not, ◌&&◌, ◌||◌, Option, none, some, List,
  [], ◌∷◌, ◌++◌, map, append_assoc, append-nil, arith, ltb, leb, ◌==◌, if◌then◌else◌, ==_iff,
  Bool-cases, &&-true, Option-cases, unwrap_or, or_else, is_some, length, get_elem?, take, drop,
  filter, any, find, Has, Has-append_left, Has-append_right, All, All-append, All-Has, All_of_Has,
  length-append, take-append-drop, take-length-append, drop-length-append, length-take, length-drop,
  get_elem?-lt,
}
use dip_rust.Text.{
  Text, codes, char_len, byte_len, text_eq, is_empty, strip_prefix, starts_with, ends_with,
  contains_char, contains, is_whitespace, trim_start_by, keep_unless, trim_end_by, trim_start,
  trim_end, trim, trim_char, split_once, cons_to_first, split, before, join, drop_cr, lines_from,
  lines, replace_char, ascii_lower, to_ascii_lowercase, eq_ignore_ascii_case,
}
use dip_rust.Json.{
  Value, Items, Fields, null, bool, int, float, string, array, object, no_items, item, no_fields,
  field, get, insert, insert_new, insert_all, insert_all_new, items_of, values_of, entries_of,
  as_str, as_object, as_array, as_bool, text_lt,
}

-- `Component`, and `Path::components`: empty parts are passed over, and so is `.`, except at the
-- front of a relative path.
pub data Component : Type 0 where
  root_dir : Component
  cur_dir : Component
  parent_dir : Component
  normal : Text → Component

unfoldable pub component : Text → List Component → List Component
unfolding text_eq
component part later =
    if is_empty part || text_eq part (codes ".")
    then later
    else if text_eq part (codes "..")
    then parent_dir ∷ later
    else normal part ∷ later

unfoldable pub parts_components : List Text → List Component
unfolding component
parts_components [] = []
parts_components (part ∷ parts) = component part (parts_components parts)

abbrev pub is_absolute : Text → Bool
is_absolute [] = false
is_absolute (c ∷ s) = c == b'/'

-- The first part of a relative path.
unfoldable pub front : List Text → List Component
unfolding text_eq
front [] = []
front (part ∷ parts) = if text_eq part (codes ".") then cur_dir ∷ [] else []

unfoldable pub components : Text → List Component
unfolding split front parts_components
components path =
    let parts = split b'/' path in
    (if is_absolute path then root_dir ∷ [] else front parts) ++ parts_components parts

-- `PathBuf`, with the last name first.
pub record Buf : Type 0 where
  pub rooted : Bool
  pub names : List Text

abbrev pub pop_name : List Text → List Text
pop_name [] = []
pop_name (name ∷ names) = names

unfoldable pub push : Component → Buf → Buf
push root_dir out = record { rooted = true; names = [] }
push cur_dir out = out
push parent_dir out = record { rooted = Buf.rooted out; names = pop_name (Buf.names out) }
push (normal name) out = record { rooted = Buf.rooted out; names = name ∷ Buf.names out }

unfoldable pub push_all : List Component → Buf → Buf
unfolding push
push_all [] out = out
push_all (c ∷ cs) out = push_all cs (push c out)

abbrev pub backwards : List Text → List Text → List Text
backwards [] out = out
backwards (name ∷ names) out = backwards names (name ∷ out)

unfoldable pub show_path : Buf → Text
unfolding join
show_path out =
    let names = join (codes "/") (backwards (Buf.names out) []) in
    if Buf.rooted out then b'/' ∷ names else names

unfoldable pub normalize_path : Text → Text
unfolding components push_all show_path
normalize_path path = show_path (push_all (components path) (record { rooted = false; names = [] }))

-- `Path::join` of a relative path.
abbrev pub ends_in_slash : Text → Bool
ends_in_slash [] = true
ends_in_slash (c ∷ []) = c == b'/'
ends_in_slash (c ∷ d ∷ s) = ends_in_slash (d ∷ s)

unfoldable pub join_path : Text → Text → Text
join_path base path = if ends_in_slash base then base ++ path else base ++ b'/' ∷ path

unfoldable pub resolve_path_string : Text → Text → Text
unfolding join_path normalize_path
resolve_path_string base_dir path =
    normalize_path (if is_absolute path then path else join_path base_dir path)

unfoldable pub is_bind_source : Text → Bool
unfolding starts_with
is_bind_source source =
    starts_with (codes "/") source
    || starts_with (codes "./") source
    || starts_with (codes "../") source
    || starts_with (codes "~") source
