-- ===== src/Text/Tests.antt =====
-- Go's text functions at concrete inputs.
use punch.Common.{◌≡◌, refl, true, some, [], ◌∷◌}
use punch.Text.{text}
use punch.Text.Fields.{fields, scan_lines, trim_suffix, contains_text, atoi, pos}

fields_two : fields (text " a  bc ") ≡ text "a" ∷ text "bc" ∷ []
unfolding fields
fields_two = refl

lines_two : scan_lines (97 ∷ 13 ∷ 10 ∷ 98 ∷ 10 ∷ []) ≡ text "a" ∷ text "b" ∷ []
unfolding scan_lines
lines_two = refl

trim_colon : trim_suffix (text ":") (text "wg0::") ≡ text "wg0:"
unfolding trim_suffix
trim_colon = refl

contains_inner : contains_text (text "inet ") (text "  inet 1.2.3.4") ≡ true
unfolding contains_text
contains_inner = refl

atoi_mtu : atoi (text "1420") ≡ some (pos 1420)
unfolding atoi
atoi_mtu = refl
