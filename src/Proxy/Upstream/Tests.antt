-- ===== src/Proxy/Upstream/Tests.antt =====
-- The header rewriting over headers kept in an association list.
use dip_rust.Base.{
  ◌≡◌, refl, Bool, true, ◌&&◌, Option, none, some, List, [], ◌∷◌, arith, if◌then◌else◌,
}
use dip_rust.Proxy.Headers.{Headers, is_visible}
use dip_rust.Proxy.Upstream.{forward_headers, forwarded_for}
use dip_rust.Text.Equality.{text_eq_iff}
use dip_rust.Text.{Text, codes, text_eq}

abbrev Fields : Type 0
Fields = List (Text × Text)

abbrev get_field : Text → Fields → Option Text
get_field k [] = none
get_field k ((j, v) ∷ m) = if text_eq j k then some v else get_field k m

abbrev remove_field : Text → Fields → Fields
remove_field k [] = []
remove_field k ((j, v) ∷ m) =
    let rest = remove_field k m in if text_eq k j then rest else (j, v) ∷ rest

abbrev insert_field : Text → Text → Fields → Fields
insert_field k v m = (k, v) ∷ remove_field k m

abbrev all_visible : Text → Bool
all_visible [] = true
all_visible (c ∷ s) = is_visible c && all_visible s

get-remove_field :
    (k j : Text) (m : Fields)
    → get_field j (remove_field k m) ≡ (if text_eq k j then none else get_field j m)
get-remove_field k j [] = ground arith
get-remove_field k j ((i, v) ∷ m) =
    ground (arith, get-remove_field k j m, text_eq_iff k i, text_eq_iff i j, text_eq_iff k j)

get-insert_field :
    (k j : Text) (v : Text) (m : Fields)
    → get_field j (insert_field k v m) ≡ (if text_eq k j then some v else get_field j m)
get-insert_field k j v m = ground (arith, get-remove_field k j m)

abbrev fields : Headers
fields = record {
  Map = Fields;
  Value = Text;
  get = get_field;
  insert = insert_field;
  remove = remove_field;
  from_str = λ s. if all_visible s then some s else none;
  to_str = λ v. some v;
  from_static = λ s. s;
  get-insert = get-insert_field;
  get-remove = get-remove_field;
  to_str-from_str = λ s v h. ground arith;
  to_str-from_static = λ s h. refl;
}

abbrev sent_by_client : Fields
sent_by_client =
    (codes "connection", codes "upgrade")
    ∷ (codes "x-real-ip", codes "6.6.6.6")
    ∷ (codes "x-forwarded-for", codes "10.0.0.1")
    ∷ (codes "accept", codes "text/html")
    ∷ []

rewritten :
    (get_field
        (codes "connection")
        (forward_headers fields sent_by_client (codes "app.test") (codes "127.0.0.1"))
      ≡ none)
    × (get_field
          (codes "x-real-ip")
          (forward_headers fields sent_by_client (codes "app.test") (codes "127.0.0.1"))
        ≡ some (codes "127.0.0.1"))
    × (get_field
          (codes "x-forwarded-for")
          (forward_headers fields sent_by_client (codes "app.test") (codes "127.0.0.1"))
        ≡ some (codes "10.0.0.1, 127.0.0.1"))
    × (get_field
          (codes "host")
          (forward_headers fields sent_by_client (codes "app.test") (codes "127.0.0.1"))
        ≡ some (codes "app.test"))
unfolding forward_headers dip_rust.Proxy.Upstream.insert_str text_eq forwarded_for
    dip_rust.Proxy.Upstream.inject_host dip_rust.Proxy.Upstream.remove_all
rewritten = (refl, refl, refl, refl)
