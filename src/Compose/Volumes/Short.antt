-- ===== src/Compose/Volumes/Short.antt =====
-- The sources of bind mounts.
use dip_rust.Base.{
  ◌>>=◌, ◌≡◌, Bool, true, false, Option, none, some, List, [], ◌∷◌, if◌then◌else◌, unwrap_or, All,
}
use dip_rust.Text.{Text, codes, text_eq, contains, split}
use dip_rust.Json.{
  Value, Fields, null, bool, int, float, string, array, object, get, values_of, as_str,
}
use mathlib.Core.Option
use dip_rust.Compose.Paths.Absolute.{is_absolute-resolve_path_string}
use dip_rust.Compose.Paths.{is_absolute, is_bind_source, resolve_path_string}
use dip_rust.Compose.Volumes.{
  VolumeConfig, mount, short_parts, parse_short_volume, text_at, long_volume, parse_volume,
  cons_some, volumes_from, parse_volumes,
}

-- A source that is there is absolute.
abbrev AbsoluteSource : Option Text → Type 0
AbsoluteSource none = Unit
AbsoluteSource (some source) = is_absolute source ≡ true

abbrev is_bind : Option Text → Bool
is_bind none = false
is_bind (some kind) = text_eq kind (codes "bind")

-- A bind mount's source is absolute.
abbrev pub AbsoluteBind : VolumeConfig → Type 0
AbsoluteBind v = is_bind (VolumeConfig.kind v) ≡ true → AbsoluteSource (VolumeConfig.source v)

module _ (base_dir : Text) (h : is_absolute base_dir ≡ true) where
  AbsoluteBind-mount :
      (source target : Text) (read_only : Option Bool)
      → AbsoluteBind (mount base_dir source target read_only)
  unfolding mount text_eq
  AbsoluteBind-mount source target read_only = chosen (is_bind_source source)
    where
      chosen :
          (b : Bool)
          → text_eq (if b then codes "bind" else codes "volume") (codes "bind") ≡ true
          → is_absolute (if b then resolve_path_string base_dir source else source) ≡ true
      chosen true k = is_absolute-resolve_path_string base_dir source h
      chosen false k = cc

  abbrev AbsoluteBindIf : Option VolumeConfig → Type 0
  AbsoluteBindIf none = Unit
  AbsoluteBindIf (some v) = AbsoluteBind v

  AbsoluteBind-short : (parts : List Text) → AbsoluteBindIf (short_parts base_dir parts)
  unfolding short_parts text_eq
  AbsoluteBind-short [] = tt
  AbsoluteBind-short (target ∷ []) = λ k. tt
  AbsoluteBind-short (source ∷ target ∷ []) = AbsoluteBind-mount source target none
  AbsoluteBind-short (source ∷ target ∷ mode ∷ []) =
      AbsoluteBind-mount source target (some (contains (codes "ro") mode))
  AbsoluteBind-short (a ∷ b ∷ c ∷ d ∷ parts) = tt

  AbsoluteBind-long : (known : Fields) → AbsoluteBind (long_volume base_dir known)
  unfolding long_volume
  AbsoluteBind-long known =
      resolved (text_at (codes "source") (codes "src") known)
        (text_eq (unwrap_or (get (codes "type") known >>= as_str) (codes "volume")) (codes "bind"))
    where
      resolved :
          (source : Option Text) (b : Bool)
          → b ≡ true
          → AbsoluteSource (
              Option.map
                (λ source. if b then resolve_path_string base_dir source else source)
                source)
      resolved none b k = tt
      resolved (some source) true k = is_absolute-resolve_path_string base_dir source h
      resolved (some source) false k = cc

  AbsoluteBind-volume : (v : Value) → AbsoluteBindIf (parse_volume base_dir v)
  unfolding parse_volume parse_short_volume
  AbsoluteBind-volume (string raw) = AbsoluteBind-short (split b':' raw)
  AbsoluteBind-volume (object known) = AbsoluteBind-long known
  AbsoluteBind-volume null = tt
  AbsoluteBind-volume (bool b) = tt
  AbsoluteBind-volume (int i) = tt
  AbsoluteBind-volume (float t) = tt
  AbsoluteBind-volume (array items) = tt

  All-cons_some :
      (o : Option VolumeConfig) (vs : List VolumeConfig)
      → AbsoluteBindIf o
      → All AbsoluteBind vs
      → All AbsoluteBind (cons_some o vs)
  All-cons_some none vs k hs = hs
  All-cons_some (some v) vs k hs = (k, hs)

  AbsoluteBind-volumes : (values : List Value) → All AbsoluteBind (volumes_from base_dir values)
  unfolding volumes_from
  AbsoluteBind-volumes [] = tt
  AbsoluteBind-volumes (v ∷ values) =
      All-cons_some (parse_volume base_dir v) (volumes_from base_dir values) (AbsoluteBind-volume v)
        (AbsoluteBind-volumes values)

-- With an absolute base directory, each volume of the list that is a bind mount, in the short form
-- or in the long one, has an absolute source, if it has one.
pub parse_volumes-AbsoluteBind :
    (base_dir : Text) (value : Value)
    → is_absolute base_dir ≡ true
    → All AbsoluteBind (parse_volumes base_dir value)
unfolding parse_volumes
parse_volumes-AbsoluteBind base_dir (array items) h =
    AbsoluteBind-volumes base_dir h (values_of items)
parse_volumes-AbsoluteBind base_dir null h = tt
parse_volumes-AbsoluteBind base_dir (bool b) h = tt
parse_volumes-AbsoluteBind base_dir (int i) h = tt
parse_volumes-AbsoluteBind base_dir (float t) h = tt
parse_volumes-AbsoluteBind base_dir (string s) h = tt
parse_volumes-AbsoluteBind base_dir (object known) h = tt
