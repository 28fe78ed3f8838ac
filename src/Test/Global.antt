-- ===== src/Test/Global.antt =====
-- The global callback, installed twice.
use langgraph_lens.Prelude.{◌≡◌, refl, false, true, none, some, [], ◌∷◌, All}
use langgraph_lens.Middleware.Callback
use langgraph_lens.Lens.{construct}
use langgraph_lens.Integrations.Classes.{ClassTable}
use langgraph_lens.Integrations.Global.{Process, Surroundings, installs, installs_once}
use langgraph_lens.Test.Detectors.{runtime}
use langgraph_lens.Test.Lens.{idle}

abbrev no_classes : ClassTable
no_classes = record { classes = []; subclasses = λ c. []; mro = λ c. [] }

-- LangChain is there and takes the handler; there are neither savers nor stores.
abbrev bare_process : Surroundings
bare_process = record {
  opted_out = false;
  langchain_available = true;
  registers = true;
  saver_base = none;
  savers = no_classes;
  store_base = none;
  stores = no_classes;
}

abbrev before : Process
before = record {
  global = none;
  savers = record { patched = []; hooked = false };
  stores = record { patched = []; hooked = false };
  exporter = record { started = false; binds = [] };
  handlers = [];
}

installs_once_example :
    let (l, x) = construct runtime idle.config before.exporter in
    let (ls, p) =
      installs runtime ((bare_process, idle.config) ∷ (bare_process, idle.config) ∷ []) before in
    All (λ y. y ≡ l) ls
    × (p ≡ (installs runtime ((bare_process, idle.config) ∷ []) before).1)
    × (p.global ≡ some l)
    × (p.exporter ≡ x)
    × (p.handlers ≡ (l, Callback.init false) ∷ [])
installs_once_example =
    installs_once runtime bare_process idle.config ((bare_process, idle.config) ∷ []) before refl
