-- ===== src/History/Members.antt =====
-- The members of a cluster and their services in every history of it.
use microovn.Prelude.{
  ◌&&◌, not, all, refl, arith, ◌∙◌, ◌==◌, String, Bool, List, [], ◌∷◌, true, false, ◌≡◌,
}
use microovn.History.Guarded.{Guarded, guarded, guarding}
use microovn.ApiRefresh.{
  RegenerateEnvResponse, refresh_logged, regenerate_members, regenerate_local, regenerate_env_post,
}
use microovn.Api.{Replies, cluster}
use microovn.Database.{unique_members}
use microovn.Database.Services.View.{enabled}
use microovn.History.{
  Daemon, Hook, Request, Event, confirms_removal, run_hook, serve, handle_event, run_history,
}
use microovn.History.HookFrames.{
  start-Guarded, refresh-Guarded, leave-Guarded, join-Guarded, bootstrap-Guarded,
}
use microovn.History.EndpointFrames.{
  handle_set-Guarded, handle_get-Guarded, handle_delete-Guarded, services_get-Guarded,
  issue_put-Guarded, issue_all_put-Guarded, info_ca-Guarded, regenerate_ca-Guarded,
  set_ca_post-Guarded, enable_put-Guarded, disable_delete-Guarded, setup_bgp-Guarded,
  check_interface-Guarded,
}
use microovn.Effect.{Env, World}
use microovn.Effect.Keeps.{Keeps, Keeps-bind}

module _ (env : Env) where
  refresh_logged-Guarded : {strict : Bool} → Keeps (Guarded env.name strict) (refresh_logged env)
  unfolding refresh_logged
  refresh_logged-Guarded = search (guarding, refresh-Guarded) depth 8

  members-Guarded :
      {strict : Bool} (urls : List String)
      → Keeps (Guarded env.name strict) (regenerate_members env urls)
  unfolding regenerate_members
  members-Guarded [] = search guarding
  members-Guarded (url ∷ urls) = Keeps-bind guarded _ _ (search guarding) λ r.
      Keeps-bind guarded _ _ (search guarding)
        λ e. Keeps-bind guarded _ _ (members-Guarded urls) λ rest. search guarding

  local-Guarded :
      {strict : Bool} (r : RegenerateEnvResponse)
      → Keeps (Guarded env.name strict) (regenerate_local env r)
  unfolding regenerate_local
  local-Guarded r = search (guarding, refresh_logged-Guarded)

  env_post-Guarded :
      {strict : Bool} (replies : Replies) (b : Bool)
      → Keeps (Guarded env.name strict) (regenerate_env_post env replies b)
  unfolding regenerate_env_post cluster
  env_post-Guarded replies true = local-Guarded _
  env_post-Guarded replies false = search (guarding, members-Guarded, local-Guarded) depth 16

module _ (d : Daemon) where
  run_hook-Guarded : {strict : Bool} (h : Hook) → Keeps (Guarded d.env.name strict) (run_hook d h)
  unfolding run_hook
  run_hook-Guarded (Hook.post_bootstrap init) = bootstrap-Guarded d.env d.bgp d.libs init
  run_hook-Guarded (Hook.pre_join init) = join-Guarded d.env d.bgp d.libs init
  run_hook-Guarded Hook.on_new_member = refresh_logged-Guarded d.env
  run_hook-Guarded Hook.pre_remove = leave-Guarded d.env d.bgp
  run_hook-Guarded Hook.post_remove = refresh_logged-Guarded d.env
  run_hook-Guarded Hook.on_start = search (guarding, start-Guarded)

  serve-Guarded :
      {strict : Bool} (r : Request)
      → (strict && confirms_removal (Event.request r)) ≡ false
      → Keeps (Guarded d.env.name strict) (serve d r)
  unfolding serve
  serve-Guarded Request.list_services c = search (guarding, services_get-Guarded)
  serve-Guarded Request.regenerate_ca_info c = search (guarding, info_ca-Guarded)
  serve-Guarded Request.issue_all c = search (guarding, issue_all_put-Guarded)
  serve-Guarded (Request.enable s body) c = search (guarding, enable_put-Guarded)
  serve-Guarded (Request.disable s body) c = search (guarding, disable_delete-Guarded, c)
  serve-Guarded (Request.regenerate_env b) c = search (guarding, env_post-Guarded)
  serve-Guarded (Request.regenerate_ca b) c = search (guarding, regenerate_ca-Guarded)
  serve-Guarded (Request.issue_one s) c = search (guarding, issue_put-Guarded)
  serve-Guarded (Request.set_ca b body) c = search (guarding, set_ca_post-Guarded)
  serve-Guarded (Request.set_config key value) c = search (guarding, handle_set-Guarded)
  serve-Guarded (Request.get_config key) c = search (guarding, handle_get-Guarded)
  serve-Guarded (Request.delete_config key) c = search (guarding, handle_delete-Guarded)
  serve-Guarded (Request.setup_bgp b body) c = search (guarding, setup_bgp-Guarded)
  serve-Guarded (Request.check_interface name) c = search (guarding, check_interface-Guarded)

  handle_event-Guarded :
      {strict : Bool} (e : Event)
      → (strict && confirms_removal e) ≡ false
      → Keeps (Guarded d.env.name strict) (handle_event d e)
  unfolding handle_event
  handle_event-Guarded (Event.hook h) c = run_hook-Guarded h
  handle_event-Guarded (Event.request r) c = serve-Guarded r c

-- The events are those of members with other names.
abbrev pub spares : String → List (Daemon × Event) → Bool
spares m history = all (λ (p : Daemon × Event). not (p.0.env.name == m)) history

-- No request of the history confirms that the last central node may go.
abbrev pub is_unconfirmed : List (Daemon × Event) → Bool
is_unconfirmed history = all (λ (p : Daemon × Event). not (confirms_removal p.1)) history

-- If members have unique names and ids, then the members are the same after every sequence of hooks and requests, and a
-- member at which none of them ran has the services that it had, whatever they returned and whichever calls failed.
pub run_history-others :
    (history : List (Daemon × Event)) (w : World) (m s : String)
    → unique_members w.db.members ≡ true
    → spares m history ≡ true
    → ((run_history history w).db.members ≡ w.db.members)
      × (enabled (run_history history w).db m s ≡ enabled w.db m s)
unfolding run_history
run_history-others [] w m s u h = (refl, refl)
run_history-others ((d, e) ∷ history) w m s u h =
    let v = (handle_event d e w).1 in
    let g = (handle_event-Guarded d {strict = false} e refl).at w in
    let i = g.same_members u in
    let (j, k) = run_history-others history v m s (rw i u) (ground arith) in
    (j ∙ i, k ∙ g.same_others u m s (ground arith))
