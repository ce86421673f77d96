-- ===== src/FreeBsd/Creation.antt =====
-- iface/freebsd/link.go: which commands Add and Recreate run, and what they leave.
use punch.Common.{
  ◌≡◌, ◌≢◌, ◌⊎◌, inl, inr, refl, sym, ap, subst, ◌∙◌, Bool, true, false, List, [], ◌∷◌, ◌++◌, ◌==◌,
  nat_eq, length, arith, if◌then◌else◌,
}
use punch.Text.{Text, text_eq, split_lines, same_text_iff}
use punch.Text.Fields.{fields, All, IsWord, fields-IsWord}
use punch.Common.Panics.{ok, err, panic, ◌>>=◌}
use punch.FreeBsd.{
  Error, Outcome, Command, Answer, Iface, does_not_exist, create_link, del_link, rename_link,
  is_exist, no_output, first_line, only_field, parse_if_name, parse_error, parse_ifconfig_output,
  create_command, rename_command, destroy_command, checked_name, or_error, command_run,
  link_by_name, naming, command, del, del_ended, after_rename, after_create, add, exists, after_del,
  recreate_if, recreate,
}

-- Output whose first line has white space only.
abbrev pub Blank : Text → Type 0
Blank output =
    (first_line (split_lines output) ≢ []) × (fields (first_line (split_lines output)) ≡ [])

-- A name that was read is not empty; a panic comes from a blank line.
abbrev pub Read : Text → Outcome Text → Type 0
Read output (ok name) = (parse_if_name output ≡ ok name) × (name ≢ [])
Read output (err e) = Unit {0}
Read output panic = Blank output

abbrev One : List Text → Outcome Text → Type 0
One ws (ok name) = name ≢ []
One ws (err e) = Unit {0}
One ws panic = ws ≡ []

only_field-One : (ws : List Text) → All IsWord ws → One ws (only_field ws)
only_field-One [] w = refl
only_field-One (name ∷ []) w = λ e. omega (arith, w.0, ap (λ (s : Text). length s) e)
only_field-One (name ∷ more ∷ rest) w = tt

parsed-Read :
    (output : Text) (empty : Bool) (o : Outcome Text)
    → (first_line (split_lines output) == []) ≡ empty
    → o ≡ parse_if_name output
    → One (fields (first_line (split_lines output))) o
    → Read output o
unfolding parse_if_name
parsed-Read output empty (ok name) e r one = (sym r, one)
parsed-Read output empty (err x) e r one = tt
parsed-Read output true panic e r one = absurd (ground (arith, e, r))
parsed-Read output false panic e r one =
    (λ same. ground (arith, e, same, same_text_iff (first_line (split_lines output)) []), one)

if-One :
    (ws : List Text) (empty : Bool)
    → One ws (only_field ws)
    → One ws (if empty then err no_output else only_field ws)
if-One ws true one = tt
if-One ws false one = one

parse-One : (output : Text) → One (fields (first_line (split_lines output))) (parse_if_name output)
unfolding parse_if_name
parse-One output =
    let line = first_line (split_lines output) in
    if-One (fields line) (line == []) (only_field-One (fields line) (fields-IsWord line))

parse-Read : (output : Text) → Read output (parse_if_name output)
parse-Read output = parsed-Read output _ (parse_if_name output) refl refl (parse-One output)

module _ (ifconfig : List Command → Command → Answer) where
  -- The command works and prints the name.
  pub record IsNamed (h : List Command) (c : Command) (name : Text) : Type 0 where
    pub works : (ifconfig h c).failed ≡ false
    pub names : parse_if_name (ifconfig h c).output ≡ ok name
    pub is_name : name ≢ []

  -- The command fails, or prints no name.
  abbrev pub Fails : List Command → Command → Type 0
  Fails h c =
      ((ifconfig h c).failed ≡ true) ⊎ ((e : Error) × (parse_if_name (ifconfig h c).output ≡ err e))

  abbrev NamedBy : List Command → Command → Outcome Text → Type 0
  NamedBy h c (ok name) = IsNamed h c name
  NamedBy h c (err e) = Fails h c
  NamedBy h c panic = Blank (ifconfig h c).output

  Read-NamedBy :
      (h : List Command) (c : Command) (o : Outcome Text)
      → (ifconfig h c).failed ≡ false
      → parse_if_name (ifconfig h c).output ≡ o
      → Read (ifconfig h c).output o
      → NamedBy h c o
  Read-NamedBy h c (ok name) f p r = record { works = f; names = r.0; is_name = r.1 }
  Read-NamedBy h c (err e) f p r = inr (e, p)
  Read-NamedBy h c panic f p r = r

  if-NamedBy :
      (h : List Command) (c : Command) (e : Error) (failed : Bool)
      → (ifconfig h c).failed ≡ failed
      → NamedBy h c (if failed then err e else parse_if_name (ifconfig h c).output)
  if-NamedBy h c e true f = inl f
  if-NamedBy h c e false f =
      Read-NamedBy h c (parse_if_name (ifconfig h c).output) f refl
        (parse-Read (ifconfig h c).output)

  naming-NamedBy :
      (h : List Command) (c : Command) (e : Error) → NamedBy h c (naming ifconfig c e h).1
  unfolding naming
  naming-NamedBy h c e = if-NamedBy h c e _ refl

  -- The commands with one more.
  abbrev pub and_then : List Command → Command → List Command
  and_then h c = h ++ c ∷ []

  abbrev Created : Text → List Command → Text → Type 0
  Created name h n = IsNamed h create_command n × (n ≢ name)

  -- What Add ran and what came of it. At an error of the renaming it asks for the removal of an
  -- interface with no name.
  abbrev pub Added : Text → List Command → List Command × Outcome (Unit {0}) → Type 0
  Added name h (h', ok _) =
      (IsNamed h create_command name × (h' ≡ and_then h create_command))
      ⊎ ((n m : Text) × IsNamed h create_command n
          × (n ≢ name)
          × IsNamed (and_then h create_command) (rename_command n name) m
          × (h' ≡ and_then (and_then h create_command) (rename_command n name)))
  Added name h (h', err create_link) = Fails h create_command × (h' ≡ and_then h create_command)
  Added name h (h', err e) =
      (n : Text) × IsNamed h create_command n
      × (n ≢ name)
      × Fails (and_then h create_command) (rename_command n name)
      × (h'
          ≡ and_then (and_then (and_then h create_command) (rename_command n name))
              (destroy_command []))
  Added name h (h', panic) =
      Blank (ifconfig h create_command).output
      ⊎ ((n : Text) × Blank (ifconfig (and_then h create_command) (rename_command n name)).output)

  deleted-Added :
      (name n : Text) (h : List Command) (o : Outcome (Unit {0}))
      → o ≢ panic
      → IsNamed h create_command n
      → n ≢ name
      → Fails (and_then h create_command) (rename_command n name)
      → Added name h (
          del_ended ifconfig (
            and_then
                (and_then (and_then h create_command) (rename_command n name))
                (destroy_command []),
            o,
          ))
  deleted-Added name n h (ok _) p c ne f = (n, c, ne, f, refl)
  deleted-Added name n h (err e) p c ne f = (n, c, ne, f, refl)
  deleted-Added name n h panic p c ne f = absurd (p refl)

  command-ne-panic :
      (h : List Command) (c : Command) (e : Error) → (command ifconfig c e h).1 ≢ panic
  unfolding command
  command-ne-panic h c e p = ground (arith, p)

  renamed-Added :
      (name n : Text) (h : List Command) (o : Outcome Text)
      → NamedBy (and_then h create_command) (rename_command n name) o
      → IsNamed h create_command n
      → n ≢ name
      → Added name h
          (after_rename ifconfig (and_then (and_then h create_command) (rename_command n name), o))
  unfolding del command
  renamed-Added name n h (ok m) r c ne = inr (n, m, c, ne, r, refl)
  renamed-Added name n h (err e) r c ne =
      deleted-Added name n h _
        (command-ne-panic (and_then (and_then h create_command) (rename_command n name))
          (destroy_command []) del_link)
        c ne r
  renamed-Added name n h panic r c ne = inr (n, r)

  created-Added :
      (name : Text) (h : List Command) (o : Outcome Text)
      → NamedBy h create_command o
      → Added name h (after_create ifconfig name (and_then h create_command, o))
  created-Added name h (ok n) c = named-Added (n == name) refl
    where
      named-Added :
          (same : Bool)
          → (n == name) ≡ same
          → Added name h (
              if same
              then (and_then h create_command, ok tt)
              else after_rename ifconfig
                  (naming ifconfig (rename_command n name) rename_link (and_then h create_command)))
      named-Added true e =
          inl
            (subst (λ (m : Text). IsNamed h create_command m) ((same_text_iff n name).0 e) c, refl)
      named-Added false e =
          unfold naming in
          renamed-Added name n h _
            (naming-NamedBy (and_then h create_command) (rename_command n name) rename_link) c
            (λ same. ground (arith, e, same_text_iff n name, same))
  created-Added name h (err e) c = (c, refl)
  created-Added name h panic c = inl c

  add-Added : (name : Text) (h : List Command) → Added name h (add ifconfig name h)
  unfolding add naming
  add-Added name h = created-Added name h _ (naming-NamedBy h create_command create_link)

  -- How the way is made free for a new interface: ifconfig knows none of the name, or the one
  -- that has it is destroyed.
  abbrev pub Cleared : Text → List Command → List Command → Type 0
  Cleared name h h' =
      ((h' ≡ and_then h (name ∷ [])) × ((link_by_name ifconfig name h).1 ≡ err does_not_exist))
      ⊎ ((h' ≡ and_then (and_then h (name ∷ [])) (destroy_command name))
          × ((link_by_name ifconfig name h).1 ≡ ok name)
          × ((ifconfig (and_then h (name ∷ [])) (destroy_command name)).failed ≡ false))

  -- The interface is looked up, but whether it is there is not known; or it is there, and cannot be
  -- destroyed.
  abbrev pub Refused : Text → List Command → List Command × Outcome (Unit {0}) → Type 0
  Refused name h (h', o) =
      ((h' ≡ and_then h (name ∷ []))
        × (((o ≡ err is_exist)
              × ((e : Error) × ((link_by_name ifconfig name h).1 ≡ err e) × (e ≢ does_not_exist)))
            ⊎ ((o ≡ panic) × ((link_by_name ifconfig name h).1 ≡ panic))))
      ⊎ ((h' ≡ and_then (and_then h (name ∷ [])) (destroy_command name))
          × (o ≡ err del_link)
          × ((link_by_name ifconfig name h).1 ≡ ok name)
          × ((ifconfig (and_then h (name ∷ [])) (destroy_command name)).failed ≡ true))

  abbrev pub Recreated : Text → List Command → List Command × Outcome (Unit {0}) → Type 0
  Recreated name h r =
      Refused name h r ⊎ ((h' : List Command) × Cleared name h h' × Added name h' r)

  deleted-Recreated :
      (name : Text) (h : List Command) (failed : Bool)
      → (link_by_name ifconfig name h).1 ≡ ok name
      → (ifconfig (and_then h (name ∷ [])) (destroy_command name)).failed ≡ failed
      → Recreated name h (
          after_del ifconfig name (
            and_then (and_then h (name ∷ [])) (destroy_command name),
            if failed then err del_link else ok tt,
          ))
  deleted-Recreated name h true e f = inl (inr (refl, refl, e, f))
  deleted-Recreated name h false e f = inr (
    and_then (and_then h (name ∷ [])) (destroy_command name),
    inr (refl, e, f),
    add-Added name (and_then (and_then h (name ∷ [])) (destroy_command name)),
  )

  found-Recreated :
      (name : Text) (h : List Command) (o : Outcome Text)
      → (link_by_name ifconfig name h).1 ≡ o
      → ((n : Text) → o ≡ ok n → n ≡ name)
      → Recreated name h (recreate_if ifconfig name (and_then h (name ∷ [])) (exists ifconfig o))
  unfolding del command
  found-Recreated name h (ok n) e k =
      deleted-Recreated name h _ (e ∙ ap (λ (m : Text). ok m) (k n refl)) refl
  found-Recreated name h (err does_not_exist) e k =
      inr (and_then h (name ∷ []), inl (refl, e), add-Added name (and_then h (name ∷ [])))
  found-Recreated name h (err other) e k =
      inl (inl (refl, inl (refl, (other, e, λ same. ground (arith, same)))))
  found-Recreated name h panic e k = inl (inl (refl, inr (refl, e)))

  checked-name :
      (name : Text) (o : Outcome Iface) (n : Text) → (o >>= checked_name name) ≡ ok n → n ≡ name
  checked-name name (ok i) n e = ground (arith, e)
  checked-name name (err x) n e = cc
  checked-name name panic n e = cc

  found-name :
      (name : Text) (a : Answer) (failed : Bool) (n : Text)
      → (if failed
          then err (or_error (parse_error a.output) command_run)
          else (parse_ifconfig_output a.output >>= checked_name name))
        ≡ ok n
      → n ≡ name
  found-name name a true n e = cc
  found-name name a false n e = checked-name name (parse_ifconfig_output a.output) n e

  pub recreate-Recreated :
      (name : Text) (h : List Command) → Recreated name h (recreate ifconfig name h)
  unfolding recreate link_by_name
  recreate-Recreated name h =
      found-Recreated name h _ refl
        λ n e. found-name name (ifconfig h (name ∷ [])) (ifconfig h (name ∷ [])).failed n e
