-- ===== src/Compose/Paths/Absolute.antt =====
-- Absolute paths under `normalize_path` and `resolve_path_string`.
use dip_rust.Base.{◌≡◌, refl, Bool, true, false, List, [], ◌∷◌, ◌++◌, if◌then◌else◌}
use dip_rust.Text.{Text, split}
use dip_rust.Compose.Paths.{
  ends_in_slash, join_path, show_path, normalize_path, resolve_path_string, Component, root_dir,
  cur_dir, parent_dir, normal, parts_components, is_absolute, components, Buf, push, push_all,
}

rooted-push : (c : Component) (out : Buf) → Buf.rooted out ≡ true → Buf.rooted (push c out) ≡ true
unfolding push
rooted-push root_dir out h = refl
rooted-push cur_dir out h = h
rooted-push parent_dir out h = h
rooted-push (normal name) out h = h

rooted-push_all :
    (cs : List Component) (out : Buf) → Buf.rooted out ≡ true → Buf.rooted (push_all cs out) ≡ true
unfolding push_all
rooted-push_all [] out h = h
rooted-push_all (c ∷ cs) out h = rooted-push_all cs (push c out) (rooted-push c out h)

-- An absolute path stays absolute.
pub is_absolute-normalize_path :
    (path : Text) → is_absolute path ≡ true → is_absolute (normalize_path path) ≡ true
unfolding normalize_path components push_all push show_path
is_absolute-normalize_path path h =
    rw
      (
        h,
        rooted-push_all (parts_components (split b'/' path)) (record { rooted = true; names = [] })
            refl,
      )
      refl

is_absolute-append :
    (base path : Text) → is_absolute base ≡ true → is_absolute (base ++ path) ≡ true
is_absolute-append [] path h = cc
is_absolute-append (c ∷ base) path h = h

pub is_absolute-resolve_path_string :
    (base_dir path : Text)
    → is_absolute base_dir ≡ true
    → is_absolute (resolve_path_string base_dir path) ≡ true
unfolding resolve_path_string join_path
is_absolute-resolve_path_string base_dir path h =
    is_absolute-normalize_path
      (if is_absolute path
        then path
        else if ends_in_slash base_dir
        then base_dir ++ path
        else base_dir ++ b'/' ∷ path)
      (joined (is_absolute path) refl (ends_in_slash base_dir))
  where
    joined :
        (b : Bool)
        → is_absolute path ≡ b
        → (slash : Bool)
        → is_absolute
            (if b then path else if slash then base_dir ++ path else base_dir ++ b'/' ∷ path)
          ≡ true
    joined true e slash = e
    joined false e true = is_absolute-append base_dir path h
    joined false e false = is_absolute-append base_dir (b'/' ∷ path) h
