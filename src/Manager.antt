-- ===== src/Manager.antt =====
-- cmd/main.go: the options of the manager, and the order in which the program sets it up. The
-- manager and what it answers are a parameter, `Host`; log lines are left out.
pub mod Setup
pub mod Order
pub mod Http
use dbchan.Base.{ℕ, Bool, true, false, List, [], ◌∷◌, if◌then◌else◌}
use dbchan.Base.Text.{String}
use dbchan.Cluster.{Kind, Done}

-- The values of the command line flags.
pub record Flags : Type 0 where
  pub metrics_addr : String
  pub probe_addr : String
  pub enable_leader_election : Bool
  pub secure_metrics : Bool
  pub enable_http2 : Bool

-- The flags of an empty command line.
abbrev pub default_flags : Flags
default_flags = record {
  metrics_addr = "0";
  probe_addr = ":8081";
  enable_leader_election = false;
  secure_metrics = false;
  enable_http2 = false;
}

-- The one field of `tls.Config` that the program sets.
pub record TlsConfig : Type 0 where
  pub next_protos : List String

unfoldable pub disable_http2 : TlsConfig → TlsConfig
disable_http2 c = record c { next_protos = "http/1.1" ∷ [] }

unfoldable pub tls_opts : Flags → List (TlsConfig → TlsConfig)
tls_opts flags = if flags.enable_http2 then [] else disable_http2 ∷ []

-- `ctrl.Options`, with the options of the metrics server and of the webhook server.
pub record Options : Type 0 where
  pub metrics_bind_address : String
  pub metrics_secure_serving : Bool
  pub metrics_tls_opts : List (TlsConfig → TlsConfig)
  pub webhook_tls_opts : List (TlsConfig → TlsConfig)
  pub health_probe_bind_address : String
  pub leader_election : Bool
  pub leader_election_id : String

abbrev pub manager_options : Flags → Options
manager_options flags = record {
  metrics_bind_address = flags.metrics_addr;
  metrics_secure_serving = flags.secure_metrics;
  metrics_tls_opts = tls_opts flags;
  webhook_tls_opts = tls_opts flags;
  health_probe_bind_address = flags.probe_addr;
  leader_election = flags.enable_leader_election;
  leader_election_id = "eee7a862.fatiudeen.dev";
}

-- What the manager runs: a reconciler for the objects of a kind, their validator, a check.
pub data Part : Type 0 where
  reconciler : Kind → Part
  validator : Kind → Part
  healthz : Part
  readyz : Part

-- A call of the manager, with its answer.
pub data Step : Type 0 where
  made : Options → Done → Step
  added : Part → Done → Step
  started : Done → Step

-- The newest call first.
abbrev pub History : Type 0
History = List Step

-- The answers of the manager, which may depend on what happened before.
pub record Host : Type 0 where
  pub new_manager : Options → History → Done
  pub add : Part → History → Done
  pub start : History → Done
