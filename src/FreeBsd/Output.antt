-- ===== src/FreeBsd/Output.antt =====
-- iface/freebsd/iface.go: what parseIfconfigOutput finds, said of the output as a whole.
use punch.Common.{
  ◌≡◌, ◌≢◌, inl, inr, refl, sym, ap, ◌∙◌, Bool, true, false, Option, none, some, List, [], ◌∷◌,
  ◌++◌, ◌==◌, nat_eq, arith, if◌then◌else◌, Bool-cases,
}
use mathlib.Core.List.{append_assoc, append-nil}
use punch.Text.{Text, text_eq, same_text_iff}
use punch.Text.Fields.{scan_lines, atoi, ℤ}
use punch.Common.Panics.{ok, err, panic}
use punch.FreeBsd.{
  Outcome, Found, Iface, nothing_found, parse_line, no_name, parse_mtu, read_line, read_lines,
  to_iface, parse_ifconfig_output,
}
use punch.FreeBsd.Lines.{
  name_in, mtu_in, group_in, ip_in, has_fields, all_have_fields, add_some, collect, last_or,
  last_or-add_some, step, found, is_refused, bind-refused, read_line-step, read_line-refused,
}

append-add_some :
    (xs : List Text) (o : Option Text) (ws : List Text)
    → (xs ++ add_some o []) ++ ws ≡ xs ++ add_some o ws
append-add_some xs none ws = rw (append-nil xs)
append-add_some xs (some w) ws = append_assoc xs (w ∷ []) ws

found-step :
    (line : Text) (lines : List Text) (f : Found)
    → found lines (step line f) ≡ found (line ∷ lines) f
unfolding found step collect
found-step line lines f = ground (
  arith,
  last_or-add_some f.name (name_in line) (collect name_in lines),
  last_or-add_some f.mtu (mtu_in line) (collect mtu_in lines),
  last_or-add_some f.group (group_in line) (collect group_in lines),
  append-add_some f.ips (ip_in line) (collect ip_in lines),
)

read_lines-found :
    (lines : List Text) (f : Found)
    → all_have_fields lines ≡ true
    → read_lines lines f ≡ ok (found lines f)
unfolding read_lines all_have_fields found last_or collect
read_lines-found [] f h = ground (arith, append-nil f.ips)
read_lines-found (line ∷ lines) f h = rw (read_line-step line f (ground (arith, h))) (
    read_lines-found lines (step line f) (ground (arith, h))
    ∙ ap (λ (g : Found). ok g) (found-step line lines f))

read_lines-refused :
    (lines : List Text) (f : Found)
    → all_have_fields lines ≡ false
    → is_refused (read_lines lines f) ≡ true
unfolding read_lines all_have_fields
read_lines-refused [] f h = cc
read_lines-refused (line ∷ lines) f h = elim (Bool-cases (has_fields line)) [
  | inr a ↦ bind-refused (read_line line f) (read_lines lines) (read_line-refused line f a)
  | inl a ↦
      rw (read_line-step line f a) (read_lines-refused lines (step line f) (ground (arith, h, a)))
]

-- All that parseIfconfigOutput can give, said of all lines of the output.
abbrev pub Described : List Text → Outcome Iface → Type 0
Described lines (ok i) =
    (all_have_fields lines ≡ true)
    × (i.name ≢ [])
    × (i.name ≡ last_or [] (collect name_in lines))
    × (atoi (last_or [] (collect mtu_in lines)) ≡ some i.mtu)
    × (i.group ≡ last_or [] (collect group_in lines))
    × (i.ip_addrs ≡ collect ip_in lines)
Described lines (err no_name) =
    (all_have_fields lines ≡ true) × (last_or [] (collect name_in lines) ≡ [])
Described lines (err parse_mtu) =
    (all_have_fields lines ≡ true)
    × (last_or [] (collect name_in lines) ≢ [])
    × (atoi (last_or [] (collect mtu_in lines)) ≡ none)
Described lines (err e) = (all_have_fields lines ≡ false) × (e ≡ parse_line)
Described lines panic = all_have_fields lines ≡ false

refused-Described :
    (lines : List Text) (o : Outcome Iface)
    → all_have_fields lines ≡ false
    → is_refused o ≡ true
    → Described lines o
refused-Described lines (ok i) h r = absurd (cc)
refused-Described lines (err parse_line) h r = (h, refl)
refused-Described lines (err other) h r = absurd (cc)
refused-Described lines panic h r = h

read_atoi :
    (f : Found) (mtu : Option ℤ) (lines : List Text)
    → all_have_fields lines ≡ true
    → f ≡ found lines nothing_found
    → f.name ≢ []
    → atoi f.mtu ≡ mtu
    → Described lines (elim mtu [
      | none ↦ err parse_mtu
      | some m ↦ ok (record { name = f.name; mtu = m; group = f.group; ip_addrs = f.ips })
    ])
unfolding found
read_atoi f none lines h e named m =
    (h, λ n. named (ap (λ (g : Found). g.name) e ∙ n), ap (λ (g : Found). atoi g.mtu) (sym e) ∙ m)
read_atoi f (some mtu) lines h e named m = (
  h,
  named,
  ap (λ (g : Found). g.name) e,
  ap (λ (g : Found). atoi g.mtu) (sym e) ∙ m,
  ap (λ (g : Found). g.group) e,
  ap (λ (g : Found). g.ips) e,
)

to_iface-Described :
    (f : Found) (lines : List Text) (nameless : Bool)
    → all_have_fields lines ≡ true
    → f ≡ found lines nothing_found
    → (f.name == []) ≡ nameless
    → Described lines (
        if nameless then err no_name else elim (atoi f.mtu) [
          | none ↦ err parse_mtu
          | some m ↦ ok (record { name = f.name; mtu = m; group = f.group; ip_addrs = f.ips })
        ])
unfolding found
to_iface-Described f lines true h e n =
    (h, sym (ap (λ (g : Found). g.name) e) ∙ (same_text_iff f.name []).0 n)
to_iface-Described f lines false h e n =
    read_atoi f (atoi f.mtu) lines h e (λ same. ground (arith, n, (same_text_iff f.name []).1 same))
      refl

-- parseIfconfigOutput takes each part of the interface from the last line that has its word,
-- and an address from every line with "inet ", in their order; it gives an error
-- or a panic exactly where a line with such a word lacks its fields, where no line names the
-- interface, or where the last MTU is no number; no name and no MTU are told apart.
pub parse_ifconfig_output-Described :
    (output : Text) → Described (scan_lines output) (parse_ifconfig_output output)
unfolding parse_ifconfig_output to_iface
parse_ifconfig_output-Described output = elim (Bool-cases (all_have_fields (scan_lines output))) [
  | inl h ↦ rw (read_lines-found (scan_lines output) nothing_found h) (
      to_iface-Described (found (scan_lines output) nothing_found) (scan_lines output) _ h refl
        refl)
  | inr h ↦ refused-Described (scan_lines output) _ h (
      bind-refused (read_lines (scan_lines output) nothing_found) to_iface
        (read_lines-refused (scan_lines output) nothing_found h))
]
