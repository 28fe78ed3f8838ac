-- ===== src/Integrations/Global.antt =====
-- middleware.py: the global installation. LangChain is third-party: whether it is there, and whether
-- the registration of the handler goes through, are parameters.
use langgraph_lens.Prelude.{
  ℕ, ◌≡◌, refl, ap, Bool, false, ◌&&◌, List, [], ◌∷◌, Option, none, some, All, if◌then◌else◌,
}
use langgraph_lens.Runtime.{Runtime}
use langgraph_lens.Metrics.{Exporter}
use langgraph_lens.Lens.{Lens, LensConfig, construct}
use langgraph_lens.Middleware.Callback
use langgraph_lens.Middleware.Callback.{Callback}
use langgraph_lens.Integrations.Classes.{ClassTable, Patches, install}
use langgraph_lens.Integrations.Installed.{install_store_auto_protection}

-- What a process holds: `_GLOBAL_LENS`, the wrapped classes of savers and of stores, the metrics
-- server, and the handlers that are registered at LangChain, each with its lens.
pub record Process : Type 0 where
  pub global : Option Lens
  pub savers : Patches
  pub stores : Patches
  pub exporter : Exporter
  pub handlers : List (Lens × Callback)

-- An installation, whose count is not used; the walk within has the fuel that it needs.
abbrev patches_or : Patches → Option (ℕ × Patches) → Patches
patches_or ps none = ps
patches_or ps (some (n, ps')) = ps'

-- What the installation finds: the switch that opts out, LangChain and whether it takes the handler,
-- and the classes of savers and stores.
pub record Surroundings : Type 0 where
  pub opted_out : Bool
  pub langchain_available : Bool
  pub registers : Bool
  pub saver_base : Option ℕ
  pub savers : ClassTable
  pub store_base : Option ℕ
  pub stores : ClassTable

-- `register_configure_hook` with a new `LensCallback(lens)`; an exception is printed and dropped.
unfoldable pub register_handler :
    Surroundings → Lens → List (Lens × Callback) → List (Lens × Callback)
register_handler s l handlers =
    if s.langchain_available && s.registers then (l, Callback.init false) ∷ handlers else handlers

-- What the first installation leaves.
abbrev first_process : Runtime → Surroundings → LensConfig → Process → Process
first_process rt s config p =
    let (l, exporter) = construct rt config p.exporter in
    record {
      global = some l;
      savers =
          patches_or p.savers
            (install s.opted_out (some l) (some l) s.saver_base s.savers p.savers);
      stores = patches_or p.stores (
          install_store_auto_protection s.opted_out (some l) (some l) s.store_base s.stores
            p.stores);
      exporter = exporter;
      handlers = register_handler s l p.handlers;
    }

-- `install_global_callback`
unfoldable pub install_global_callback :
    Runtime → Surroundings → LensConfig → Process → Lens × Process
install_global_callback rt s config p = elim p.global [
  | some old ↦ (old, p)
  | none ↦ ((construct rt config p.exporter).0, first_process rt s config p)
]

-- Installations one after the other, with the lenses that they return.
pub installs : Runtime → List (Surroundings × LensConfig) → Process → List Lens × Process
installs rt [] p = ([], p)
installs rt ((s, config) ∷ calls) p =
    let (l, p1) = install_global_callback rt s config p in
    let (ls, p2) = installs rt calls p1 in (l ∷ ls, p2)

install_global_callback_again :
    (rt : Runtime) (s : Surroundings) (config : LensConfig) (l : Lens) (p : Process)
    → p.global ≡ some l
    → install_global_callback rt s config p ≡ (l, p)
unfolding install_global_callback
install_global_callback_again rt s config l p h = rw h refl

install_global_callback_first :
    (rt : Runtime) (s : Surroundings) (config : LensConfig) (p : Process)
    → p.global ≡ none
    → install_global_callback rt s config p
      ≡ ((construct rt config p.exporter).0, first_process rt s config p)
unfolding install_global_callback
install_global_callback_first rt s config p h = rw h refl

-- With a global lens there, every installation returns it and changes nothing.
installed-installs :
    (rt : Runtime) (calls : List (Surroundings × LensConfig)) (l : Lens) (p : Process)
    → p.global ≡ some l
    → ((installs rt calls p).1 ≡ p) × All (λ x. x ≡ l) (installs rt calls p).0
unfolding installs
installed-installs rt [] l p h = (refl, tt)
installed-installs rt ((s, config) ∷ calls) l p h =
    rw (install_global_callback_again rt s config l p h)
      (let (same, all) = installed-installs rt calls l p h in (same, (refl, all)))

-- However often and with whatever configurations the global callback is installed in a process without
-- a global lens, every call returns the lens that the first has made, the process is afterwards what
-- the first call alone makes of it (savers, stores, exporter and handlers), and at most one handler is
-- registered, that of this lens.
pub installs_once :
    (rt : Runtime) (s : Surroundings) (config : LensConfig)
    (calls : List (Surroundings × LensConfig)) (p : Process)
    → p.global ≡ none
    → let (l, x) = construct rt config p.exporter in
      let (ls, p') = installs rt ((s, config) ∷ calls) p in
      All (λ y. y ≡ l) ls
      × (p' ≡ (installs rt ((s, config) ∷ []) p).1)
      × (p'.global ≡ some l)
      × (p'.exporter ≡ x)
      × (p'.handlers ≡ (
          if s.langchain_available && s.registers
          then (l, Callback.init false) ∷ p.handlers
          else p.handlers))
unfolding installs register_handler
installs_once rt s config calls p h = rw (install_global_callback_first rt s config p h) (
    let l = (construct rt config p.exporter).0 in
    let (same, all) = installed-installs rt calls l (first_process rt s config p) refl in
    (
      (refl, all),
      same,
      ap (λ q. q.global) same,
      ap (λ q. q.exporter) same,
      ap (λ q. q.handlers) same,
    ))
