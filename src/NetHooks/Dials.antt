-- ===== src/NetHooks/Dials.antt =====
-- util/net/dialer_nonios.go: which hooks a connection has called, from its dialling to its close.
use punch.Common.{
  ℕ, ◌≡◌, refl, not, ◌&&◌, ◌||◌, none, some, List, [], ◌∷◌, ◌++◌, map, Result, ok, err, arith, inl,
  inr, Option-cases, if◌then◌else◌,
}
use mathlib.Core.List.{append-nil}
use punch.NetHooks.{
  Call, Hooks, Error, Dialled, Dialling, bare, with_id, dial_failed, wrong_type, call_all,
  dial_context, close_dialled, dial_udp,
}

-- Every hook of the list once, in order, with the id and the addresses.
abbrev pub called : {I : Type 0} → ℕ → List I → List ℕ → List (Call I)
called id addresses hooks =
    map (λ hook. record { hook = hook; conn_id = id; addresses = addresses }) hooks

call_all-called :
    {I : Type 0} (id : ℕ) (addresses : List I) (hooks : List ℕ)
    → call_all id addresses hooks ≡ called id addresses hooks
call_all-called id addresses [] = refl
call_all-called id addresses (hook ∷ hooks) = rw (call_all-called id addresses hooks)

module _ {I : Type 0} where
  -- The dial hooks: none without custom routing, nor where the host is not found.
  abbrev pub dial_hooks_called : Hooks → ℕ → Dialling I → List (Call I)
  dial_hooks_called hs id d = elim d.lookup [
    | none ↦ []
    | some ips ↦ if d.disabled then [] else called id ips hs.dialer_dial
  ]

  -- All hooks that a connection has called, where it is closed once it is dialled, with the hooks
  -- of then.
  abbrev pub over_life : Hooks → List (Call I) × Result Error Dialled → List (Call I)
  over_life later (calls, err e) = calls
  over_life later (calls, ok c) = calls ++ close_dialled later c

  -- Dialling by DialContext and by DialUDP: the result, and the hooks over the connection's life.
  pub record IsHooked (hs : Hooks) (id : ℕ) (d : Dialling I) : Type 0 where
    pub dialled :
        (dial_context hs id d).1
        ≡ (if not d.works then err dial_failed else if d.disabled then ok bare else ok (with_id id))
    pub calls :
        (later : Hooks)
        → over_life later (dial_context hs id d)
          ≡ dial_hooks_called hs id d
            ++ (if d.works && not d.disabled then called id [] later.dialer_close else [])
    pub udp_dialled : (dial_udp hs id d).1 ≡ (
        if not d.works
        then err dial_failed
        else if d.disabled || d.right_type
        then ok bare
        else err wrong_type)
    pub udp_calls :
        (later : Hooks)
        → over_life later (dial_udp hs id d)
          ≡ dial_hooks_called hs id d
            ++ (if d.works && not d.disabled && not d.right_type
                then called id [] hs.dialer_close
                else [])

  dial_calls :
      (hs : Hooks) (id : ℕ) (d : Dialling I) → (dial_context hs id d).0 ≡ dial_hooks_called hs id d
  unfolding dial_context
  dial_calls hs id d = elim (Option-cases d.lookup) [
    | inl e ↦ ground (arith, e)
    | inr (ips, e) ↦ ground (arith, e, call_all-called id ips hs.dialer_dial)
  ]

  -- DialContext with custom routing calls every dial hook once, in order, if the host is found, and
  -- closing its connection calls every close hook of that time, all with the one id. DialUDP, and
  -- DialTCP alike, call the same dial hooks, but closing the connection that they return calls no
  -- hook: only where it has the wrong type, and they close it themselves, are the close hooks
  -- called. Without custom routing, no hook is ever called.
  pub dials-IsHooked : (hs : Hooks) (id : ℕ) (d : Dialling I) → IsHooked hs id d
  unfolding dial_context dial_udp close_dialled
  dials-IsHooked hs id d = record {
    dialled = ground arith;
    calls = λ later. ground (
      arith,
      dial_calls hs id d,
      call_all-called {I = I} id [] later.dialer_close,
      append-nil (dial_hooks_called hs id d),
    );
    udp_dialled = ground arith;
    udp_calls = λ later. ground (
      arith,
      dial_calls hs id d,
      call_all-called {I = I} id [] hs.dialer_close,
      append-nil (dial_hooks_called hs id d),
    );
  }
