-- ===== src/Lens/Server.antt =====
-- lens.py, `Lens(config)`, and metrics.py: how often the metrics server of a process is started.
use langgraph_lens.Prelude.{ℕ, String, ◌≡◌, refl, arith, true, false, List, [], ◌∷◌, if◌then◌else◌}
use langgraph_lens.Runtime.{Runtime}
use langgraph_lens.Metrics.{Exporter, maybe_start_server}
use langgraph_lens.Lens.{LensConfig, construct}

-- The orchestrators of a process, made one after the other.
unfoldable pub constructs : Runtime → List LensConfig → Exporter → Exporter
constructs rt [] x = x
constructs rt (c ∷ cs) x = constructs rt cs (construct rt c x).1

-- The port and the address of the first configuration with the server on.
abbrev pub first_served : List LensConfig → List (ℕ × String)
first_served [] = []
first_served (c ∷ cs) =
    let rest = first_served cs in
    if c.prometheus.enabled then (c.prometheus.port, c.prometheus.bind_address) ∷ [] else rest

-- Nothing was started.
abbrev pub idle : Exporter
idle = record { started = false; binds = [] }

started_stays :
    (rt : Runtime) (cs : List LensConfig) (x : Exporter) → x.started ≡ true → constructs rt cs x ≡ x
unfolding constructs construct maybe_start_server
started_stays rt [] x h = refl
started_stays rt (c ∷ cs) x h = ground (arith, h, started_stays rt cs x h)

-- Whatever orchestrators a process makes, the library is asked to listen at most once: on the port and
-- the address of the first one with the server on, and not at all in multiprocess mode.
pub constructs_binds :
    (rt : Runtime) (cs : List LensConfig)
    → (constructs rt cs idle).binds
      ≡ (if rt.env_set "PROMETHEUS_MULTIPROC_DIR" then [] else first_served cs)
unfolding constructs construct maybe_start_server
constructs_binds rt [] = ground arith
constructs_binds rt (c ∷ cs) =
    let served : ℕ × String = (c.prometheus.port, c.prometheus.bind_address) in
    ground (
      arith,
      constructs_binds rt cs,
      started_stays rt cs (record { started = true; binds = [] }),
      started_stays rt cs (record { started = true; binds = served ∷ [] }),
    )
