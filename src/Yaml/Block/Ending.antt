-- ===== src/Yaml/Block/Ending.antt =====
-- The fuel of the block parser of src/utils/yaml.rs.
use dip_rust.Base.{ℕ, zero, suc, ◌+◌, ◌-◌, ◌*◌, ◌≤◌, ◌<◌, arith, length}
use dip_rust.Text.{Text}
use dip_rust.Yaml.Result.{Ends}
use dip_rust.Yaml.Flow.{External}
use dip_rust.Yaml.Lines.{State, skip_blank}
use dip_rust.Yaml.Block.{Maps, parse_node, parse_mapping, parse_sequence, parse_value_after_key}
use dip_rust.Yaml.Block.Sizes.{size, Fits, lines_size-skip_blank}
use dip_rust.Yaml.Block.Steps.{
  Small, Small-node_at, Small-mapping_at, Small-sequence_at, Small-after_text,
}

module _ (ext : External) where
  below_zero : (n : ℕ) → n < 0 → ⊥
  below_zero n h = omega arith

  too_little : (n k : ℕ) → 2 * suc k ≤ 1 → ⊥
  too_little n k h = omega arith

  mutual
    unfolding parse_node

    pub Small-parse_node :
        (n k : ℕ) → 2 * k ≤ n → (min_indent : ℕ) → Small k (parse_node ext n min_indent)
    Small-parse_node zero zero le min_indent st h = elim (below_zero (size st) h) [ ]
    Small-parse_node zero (suc k) le min_indent st h = elim (too_little 0 k (omega arith)) [ ]
    Small-parse_node (suc n) k le min_indent st h =
        Small-node_at ext (parse_mapping ext n) (parse_sequence ext n) k
          (λ indent maps. Small-parse_mapping n k (omega arith) indent maps)
          (λ indent. Small-parse_sequence n k (omega arith) indent) min_indent
          (skip_blank (State.left st)) st (lines_size-skip_blank (State.left st)) h

    Small-parse_mapping :
        (n k : ℕ)
        → 2 * k ≤ suc n
        → (indent : ℕ) (maps : Maps) → Small k (parse_mapping ext n indent maps)
    Small-parse_mapping zero zero le indent maps st h = elim (below_zero (size st) h) [ ]
    Small-parse_mapping zero (suc k) le indent maps st h = elim (too_little 0 k le) [ ]
    Small-parse_mapping (suc n) zero le indent maps st h = elim (below_zero (size st) h) [ ]
    Small-parse_mapping (suc n) (suc k) le indent maps st h =
        Small-mapping_at ext (parse_mapping ext n indent)
          (λ rest line_no. parse_value_after_key ext n rest indent line_no) k
          (λ maps. Small-parse_mapping n k (omega arith) indent maps)
          (λ rest line_no st b.
            Small-parse_value_after_key n (k - 2) (omega arith) rest indent line_no st
              (omega arith))
          indent maps (skip_blank (State.left st)) st (lines_size-skip_blank (State.left st)) h

    Small-parse_sequence :
        (n k : ℕ) → 2 * k ≤ suc n → (indent : ℕ) → Small k (parse_sequence ext n indent)
    Small-parse_sequence zero zero le indent st h = elim (below_zero (size st) h) [ ]
    Small-parse_sequence zero (suc k) le indent st h = elim (too_little 0 k le) [ ]
    Small-parse_sequence (suc n) zero le indent st h = elim (below_zero (size st) h) [ ]
    Small-parse_sequence (suc n) (suc k) le indent st h =
        Small-sequence_at ext (parse_sequence ext n indent) (parse_node ext n (suc indent)) k
          (Small-parse_sequence n k (omega arith) indent)
          (Small-parse_node n k (omega arith) (suc indent)) indent (skip_blank (State.left st)) st
          (lines_size-skip_blank (State.left st)) h

    Small-parse_value_after_key :
        (n k : ℕ)
        → 2 * k < n
        → (rest : Text) (key_indent line_no : ℕ) (st : State) → size st + length rest < k
        → Ends (Fits (size st)) (parse_value_after_key ext n rest key_indent line_no st)
    Small-parse_value_after_key zero k le rest key_indent line_no st h =
        elim (below_zero (2 * k) le) [ ]
    Small-parse_value_after_key (suc n) zero le rest key_indent line_no st h =
        elim (below_zero (size st + length rest) h) [ ]
    Small-parse_value_after_key (suc n) (suc k) le rest key_indent line_no st h =
        Small-after_text ext (parse_node ext n (suc key_indent))
          (λ more. parse_value_after_key ext n more key_indent line_no) key_indent line_no k
          (Small-parse_node n (suc k) (omega arith) (suc key_indent))
          (λ more st b. Small-parse_value_after_key n k (omega arith) more key_indent line_no st b)
          rest st h
