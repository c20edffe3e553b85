-- ===== src/History.antt =====
-- The daemons of a cluster at work: the hooks that microovn/cmd/microovnd/main.go hands to microcluster, and the
-- endpoints of microovn/api/endpoints.go, run by one member after the other.
pub mod Actions
pub mod HookFrames
pub mod EndpointFrames
pub mod Members
pub mod Guarded
use microovn.Prelude.{String, Bool, Option, List, [], ◌∷◌, ◌⊎◌, inl, inr, false}
use microovn.Types.{ExtraBgpConfig}
use microovn.Node.Bgp.{BgpService}
use microovn.Api.{Replies}
use microovn.ApiConfig.{handle_set, handle_get, handle_delete}
use microovn.ApiServices.{services_get, enable_service_put, disable_service_delete}
use microovn.ApiCertificates.{
  issue_certificates_put, issue_certificates_all_put, info_ca_get, regenerate_ca_put, set_ca_post,
}
use microovn.ApiBgp.{SetupBgpRequest, setup_bgp_handler, check_interface_handler}
use microovn.ApiRefresh.{refresh_logged, regenerate_env_post}
use microovn.Hooks.{leave}
use microovn.Hooks.Bootstrap.{HookLibraries, bootstrap}
use microovn.Hooks.Join.{join_cluster}
use microovn.Hooks.Start.{start_daemon}
use microovn.Effect.{Env, World, M, ret, ◌>>=◌}

-- A member's daemon: its host, its BGP service, and what the libraries do for it.
pub record Daemon : Type 0 where
  pub env : Env
  pub bgp : BgpService
  pub libs : HookLibraries
  pub replies : Replies
  pub parse_ip : String → Bool

-- The fields of `state.Hooks` that `Run` sets.
pub data Hook : Type 0 where
  post_bootstrap pre_join : List (String × String) → Hook
  on_new_member pre_remove post_remove on_start : Hook

-- A request to one of the endpoints, decoded. A flag that comes first is whether it is a notification. The three
-- endpoints for the schemas of the databases are left out: the members that they ask are a parameter.
pub data Request : Type 0 where
  list_services regenerate_ca_info issue_all : Request
  enable : String → Option (Option ExtraBgpConfig) → Request
  disable : String → Bool ⊎ String → Request
  regenerate_env regenerate_ca : Bool → Request
  issue_one : String → Request
  set_ca : Bool → Option (String × String) → Request
  set_config : String → String → Request
  get_config delete_config : String → Request
  setup_bgp : Bool → Option SetupBgpRequest → Request
  check_interface : String → Request

pub data Event : Type 0 where
  hook : Hook → Event
  request : Request → Event

abbrev pub drop_result : {A : Type 0} → M A → M (Unit {0})
drop_result m = m >>= λ a. ret tt

-- The body of a request to disable a service decodes to a confirmation that the last central node may go.
abbrev pub is_confirmed : Bool ⊎ String → Bool
is_confirmed (inl allow) = allow
is_confirmed (inr m) = false

-- A request to disable a service that confirms that the last central node may go.
abbrev pub confirms_removal : Event → Bool
confirms_removal (Event.request (Request.disable s body)) = is_confirmed body
confirms_removal e = false

module _ (d : Daemon) where
  unfoldable pub run_hook : Hook → M (Unit {0})
  run_hook (Hook.post_bootstrap init) = bootstrap d.env d.bgp d.libs init
  run_hook (Hook.pre_join init) = join_cluster d.env d.bgp d.libs init
  run_hook Hook.on_new_member = refresh_logged d.env
  run_hook Hook.pre_remove = leave d.env d.bgp
  run_hook Hook.post_remove = refresh_logged d.env
  run_hook Hook.on_start = drop_result (start_daemon d.env)

  unfoldable pub serve : Request → M (Unit {0})
  serve Request.list_services = drop_result (services_get d.env)
  serve Request.regenerate_ca_info = drop_result (info_ca_get d.env)
  serve Request.issue_all = drop_result (issue_certificates_all_put d.env)
  serve (Request.enable s body) = drop_result (enable_service_put d.env d.bgp s body)
  serve (Request.disable s body) = drop_result (disable_service_delete d.env d.bgp s body)
  serve (Request.regenerate_env b) = drop_result (regenerate_env_post d.env d.replies b)
  serve (Request.regenerate_ca b) = drop_result (regenerate_ca_put d.env d.replies b)
  serve (Request.issue_one s) = drop_result (issue_certificates_put d.env s)
  serve (Request.set_ca b body) = drop_result (set_ca_post d.env d.replies d.libs.x509 b body)
  serve (Request.set_config key value) = drop_result (handle_set d.env d.parse_ip key value)
  serve (Request.get_config key) = drop_result (handle_get d.env d.parse_ip key)
  serve (Request.delete_config key) = drop_result (handle_delete d.env d.parse_ip key)
  serve (Request.setup_bgp b body) = drop_result (setup_bgp_handler d.env d.bgp d.replies b body)
  serve (Request.check_interface name) =
      drop_result (check_interface_handler d.env d.bgp d.replies name)

  unfoldable pub handle_event : Event → M (Unit {0})
  unfolding run_hook serve
  handle_event (Event.hook h) = run_hook h
  handle_event (Event.request r) = serve r

-- Events one after the other, each at the daemon of some member, whatever the one before returned.
unfoldable pub run_history : List (Daemon × Event) → World → World
unfolding handle_event
run_history [] w = w
run_history ((d, e) ∷ history) w = run_history history (handle_event d e w).1
