-- ===== src/Yaml/Witnesses.antt =====
-- Witnesses: the theorems on the YAML reader at concrete inputs.
use dip_rust.Base.{pos, negsuc, ◌≡◌, refl, ◌≢◌, true, false, [], ◌∷◌, arith}
use dip_rust.Text.{codes}
use dip_rust.Json.{Fields, int, no_fields, field}
use dip_rust.Yaml.Result.{ok, out_of_fuel}
use dip_rust.Yaml.Scan.{take_quoted}
use dip_rust.Yaml.Scalar.{plain_scalar}
use dip_rust.Yaml.Flow.{External}
use dip_rust.Yaml.Parser.{from_str}
use dip_rust.Yaml.Parser.Ending.{from_str-out_of_fuel}
use dip_rust.Yaml.Scan.Quotes.{in_single_quotes, in_double_quotes, take_quoted_round_trip}
use dip_rust.Yaml.Scalar.Numbers.{plain_scalar-signed_decimal}
use dip_rust.Yaml.Block.Merging.{Entries}
use dip_rust.Text.Decimal.{signed_decimal}

abbrev plain_external : External
plain_external = record { is_f64 = λ s. false; display = λ v. []; debug = λ c. [] }

from_str-out_of_fuel_example :
    from_str plain_external (codes "a:\n  - [b, {c: 'd'}]\n  - x: |\n      y\n") ≢ out_of_fuel
from_str-out_of_fuel_example =
    from_str-out_of_fuel plain_external (codes "a:\n  - [b, {c: 'd'}]\n  - x: |\n      y\n")

take_quoted_round_trip_example :
    (take_quoted 1 (b'\'' ∷ in_single_quotes (codes "it's") (codes ": x"))
      ≡ ok (codes "it's", codes ": x"))
    × (take_quoted 1 (b'"' ∷ in_double_quotes (codes "it's") (codes ": x"))
        ≡ ok (codes "it's", codes ": x"))
take_quoted_round_trip_example = take_quoted_round_trip 1 (codes "it's") (codes ": x") refl

plain_scalar-signed_decimal_example :
    plain_scalar (λ s. true) (signed_decimal (negsuc 41)) ≡ int (negsuc 41)
plain_scalar-signed_decimal_example =
    plain_scalar-signed_decimal (λ s. true) (negsuc 41) (omega arith)

abbrev defaults : Fields
defaults = field (codes "a") (int (pos 1)) (field (codes "b") (int (pos 2)) no_fields)

abbrev before_merge : Entries
before_merge = (codes "b", int (pos 3)) ∷ []

abbrev after_merge : Entries
after_merge = (codes "c", int (pos 4)) ∷ []
