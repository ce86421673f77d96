-- ===== src/Engine/Lifecycle.antt =====
-- client/internal/engine.go, Start and Stop: the interface and the proxies that they hold.
use punch.Common.{
  ℕ, arith, ◌≡◌, ◌≢◌, refl, Bool, true, false, Option, none, some, if◌then◌else◌, subst,
}
use punch.Ebpf.{GeneralManager}
use punch.Ebpf.Features.{FeatureSet, Holds, free_wg-Holds}
use punch.WgProxy.{Host, WgEbpfProxy, Factory, Error, new_factory, new_wg_ebpf_proxy, listen, free}
use punch.WgProxy.Startup.{Runs, Started, listen-Started}

-- The engine's `wgInterface`: not made yet, or how far it is.
pub data WgIface : Type 0 where
  absent made created up closed : WgIface

-- The parts of the engine that Start sets; `polling` is whether `receiveManagementEvents` runs.
pub record Running (C : Type 0) : Type 0 where
  pub wg_interface : WgIface
  pub wg_proxy_factory : Option (Factory C)
  pub polling : Bool

pub data StartError : Type 0 where
  new_wg_interface create_wg_interface up_wg_interface : StartError

-- The interface's Close, and whether it works: where it does not, the interface stays.
close_iface : Bool → WgIface → WgIface
close_iface works absent = absent
close_iface works i = if works then closed else i

-- The answers of the interface's calls during one Start.
pub record Answers : Type 0 where
  pub new_iface_ok : Bool
  pub is_userspace_bind : Bool
  pub create_ok : Bool
  pub up_ok : Bool
  pub close_ok : Bool

module _ {C : Type 0} where
  -- Factory.Free
  free_factory : Host → Factory C → Factory C
  free_factory h f = record f { ebpf = elim f.ebpf [ none ↦ none | some p ↦ some (free h p).0 ] }

  -- `close`: errors are logged only. `close_ok` is whether the interface's Close works.
  unfoldable pub close : Host → Bool → Running C → Running C
  unfolding free_factory close_iface
  close h close_ok r = record r {
    wg_proxy_factory = elim r.wg_proxy_factory [ none ↦ none | some f ↦ some (free_factory h f) ];
    wg_interface = close_iface close_ok r.wg_interface;
  }

  bring_up : Host → Answers → Running C → Running C × Option StartError
  unfolding close
  bring_up h a r =
      if a.create_ok
      then if a.up_ok
        then (record r { wg_interface = up; polling = true }, none)
        else (close h a.close_ok (record r { wg_interface = created }), some up_wg_interface)
      else (close h a.close_ok r, some create_wg_interface)

  -- `shared` is the eBPF manager of the process.
  unfoldable pub start :
      Host → GeneralManager → Answers → ℕ → Running C → Running C × Option StartError
  unfolding bring_up
  start h shared a wg_port r =
      if a.new_iface_ok
      then bring_up h a (record r {
        wg_interface = made;
        wg_proxy_factory = some (new_factory h shared a.is_userspace_bind wg_port);
      })
      else (r, some new_wg_interface)

module _ {C : Type 0} where
  InOption : (WgEbpfProxy C → Type 0) → Option (WgEbpfProxy C) → Type 0
  InOption P none = Unit {0}
  InOption P (some p) = P p

  InFactory : (WgEbpfProxy C → Type 0) → Option (Factory C) → Type 0
  unfolding InOption
  InFactory P none = Unit {0}
  InFactory P (some f) = InOption P f.ebpf

module _ {C : Type 0} (h : Host) (s : FeatureSet) where
  -- The feature of whatever eBPF proxy there is satisfies `P`.
  abbrev pub OfProxy : (WgEbpfProxy C → Type 0) → Option (Factory C) → Type 0
  OfProxy P factory = (f : Factory C) (p : WgEbpfProxy C) → factory ≡ some f → f.ebpf ≡ some p → P p

  abbrev pub IsOff : WgEbpfProxy C → Type 0
  IsOff p = Holds (record s { wg = false }) p.ebpf_manager

  -- There is a factory, and the eBPF proxy that it kept satisfies `P`.
  abbrev pub HasFactory : (WgEbpfProxy C → Type 0) → Running C → Type 0
  HasFactory P r = (r.wg_proxy_factory ≢ none) × OfProxy P r.wg_proxy_factory

  -- What Start leaves.
  abbrev pub Begun : Answers → Running C → Running C × Option StartError → Type 0
  Begun a r (r', none) = (r'.wg_interface ≡ up) × (r'.polling ≡ true) × HasFactory (Runs h s) r'
  Begun a r (r', some new_wg_interface) = (a.new_iface_ok ≡ false) × (r' ≡ r)
  Begun a r (r', some create_wg_interface) =
      (a.create_ok ≡ false)
      × (r'.wg_interface ≡ (if a.close_ok then closed else made))
      × (r'.polling ≡ r.polling)
      × HasFactory IsOff r'
  Begun a r (r', some up_wg_interface) =
      (a.up_ok ≡ false)
      × (r'.wg_interface ≡ (if a.close_ok then closed else created))
      × (r'.polling ≡ r.polling)
      × HasFactory IsOff r'

  listened-Runs :
      (p q : WgEbpfProxy C) (failure : Option Error)
      → Started h s p (q, failure)
      → InOption (Runs h s) (elim failure [ none ↦ some q | some _ ↦ none ])
  unfolding InOption
  listened-Runs p q none runs = runs
  listened-Runs p q (some e) runs = tt

  freed-IsOff :
      (o : Option (WgEbpfProxy C))
      → InOption (Runs h s) o
      → InOption IsOff (elim o [ none ↦ none | some p ↦ some (free h p).0 ])
  unfolding InOption free
  freed-IsOff none runs = tt
  freed-IsOff (some p) runs =
      free_wg-Holds h.kernel p.ebpf_manager (record s { wg = true }) runs.feature_on

  of_proxy : (P : WgEbpfProxy C → Type 0) (f : Factory C) → InOption P f.ebpf → OfProxy P (some f)
  unfolding InOption InFactory
  of_proxy P f h' g p same e =
      subst (InOption P) e (subst (λ (x : Option (Factory C)). InFactory P x) same h')

module _ (C : Type 0) (h : Host) (s : FeatureSet) where
  new_factory-Runs :
      (shared : GeneralManager) (userspace : Bool) (wg_port : ℕ)
      → Holds s shared
      → InOption (Runs h s) (new_factory {C = C} h shared userspace wg_port).ebpf
  unfolding new_factory new_wg_ebpf_proxy
  new_factory-Runs shared true wg_port holds = unfold InOption in tt
  new_factory-Runs shared false wg_port holds =
      let p = new_wg_ebpf_proxy shared wg_port in
      listened-Runs h s p (listen h p).0 (listen h p).1 (listen-Started h s p holds)

module _ {C : Type 0} (h : Host) (s : FeatureSet) where
  answers-Begun :
      (shared : GeneralManager) (new_ok userspace create_ok up_ok close_ok : Bool) (wg_port : ℕ)
      (r : Running C)
      → Holds s shared
      → let a : Answers = record {
        new_iface_ok = new_ok;
        is_userspace_bind = userspace;
        create_ok = create_ok;
        up_ok = up_ok;
        close_ok = close_ok;
      } in
        Begun h s a r (start h shared a wg_port r)
  unfolding start bring_up close free_factory close_iface
  answers-Begun shared false userspace create_ok up_ok close_ok wg_port r holds = (refl, refl)
  answers-Begun shared true userspace true true close_ok wg_port r holds = (
    refl,
    refl,
    (
      λ e. absurd (ground (arith, e)),
      of_proxy h s (Runs h s) (new_factory h shared userspace wg_port)
          (new_factory-Runs C h s shared userspace wg_port holds),
    ),
  )
  answers-Begun shared true userspace true false close_ok wg_port r holds = (
    refl,
    refl,
    refl,
    (
      λ e. absurd (ground (arith, e)),
      of_proxy h s (IsOff h s) (free_factory h (new_factory h shared userspace wg_port))
          (freed-IsOff h s _ (new_factory-Runs C h s shared userspace wg_port holds)),
    ),
  )
  answers-Begun shared true userspace false up_ok close_ok wg_port r holds = (
    refl,
    refl,
    refl,
    (
      λ e. absurd (ground (arith, e)),
      of_proxy h s (IsOff h s) (free_factory h (new_factory h shared userspace wg_port))
          (freed-IsOff h s _ (new_factory-Runs C h s shared userspace wg_port holds)),
    ),
  )

  -- Start of an engine, with the manager at the features `s`: where it returns no error the
  -- interface is up, the server is polled, and an eBPF proxy that the factory kept, if there is
  -- one, runs. Where the interface cannot be made nothing has happened. Where it cannot be created
  -- or brought up, it is closed, or, if that fails, is left as far as it was; the polling is not
  -- started; and an eBPF proxy that the factory kept has turned its feature off again.
  pub start-Begun :
      (shared : GeneralManager) (a : Answers) (wg_port : ℕ) (r : Running C)
      → Holds s shared
      → Begun h s a r (start h shared a wg_port r)
  start-Begun shared a wg_port r holds =
      answers-Begun shared a.new_iface_ok a.is_userspace_bind a.create_ok a.up_ok a.close_ok wg_port
        r holds
