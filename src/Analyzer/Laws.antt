-- ===== src/Analyzer/Laws.antt =====
-- What the classification makes of EXPLAIN.
use Prim.Native.Nat.{ℕ}
use omnibase.Prelude.{◌≡◌, refl, false, Option, [], ◌∷◌, ◌++◌}
use omnibase.Text.{upper_unit, Text, codes, is_space, to_upper, strip_prefix}
use omnibase.Text.Laws.{trim_of_visible}
use omnibase.Values.{Value}
use omnibase.Types.{read}
use omnibase.Analyzer.{is_explain, classify_query}

-- An EXPLAIN ANALYZE of any statement, also of one that modifies data, is classified as a read,
-- whatever the parser says of it.
pub explain_analyze_is_read :
    (astify : Text → Option Value) (inner : Text) (last : ℕ)
    → is_space last ≡ false
    → classify_query astify (codes "EXPLAIN ANALYZE " ++ (inner ++ last ∷ [])) ≡ read
unfolding classify_query
explain_analyze_is_read astify inner last h =
    rw (trim_of_visible b'E' last (codes "XPLAIN ANALYZE " ++ inner) (unfold is_space in refl) h)
      (unfold is_explain to_upper upper_unit strip_prefix is_space in refl)
