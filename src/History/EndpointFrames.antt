-- ===== src/History/EndpointFrames.antt =====
-- The endpoints leave the services of other members alone.
use microovn.Prelude.{
  ◌&&◌, ◌≡◌, String, Bool, true, false, none, some, Option, List, [], ◌∷◌, ◌⊎◌, inl, inr,
}
use microovn.History.Guarded.{
  Guarded, guarded, guarding, enable_service-Guarded, disable_service-Guarded,
}
use microovn.History.Actions.{
  set_config-Guarded, delete_config-Guarded, new_ca-Guarded, set_ca-Guarded,
}
use microovn.History.HookFrames.{from_config-Guarded}
use microovn.Config.Map.{get_config-SameDb}
use microovn.Types.{ExtraBgpConfig}
use microovn.Certificates.{is_ca_renewable, read_renewable}
use microovn.Certificates.Custom.{X509}
use microovn.Node.{service_warnings, list_services}
use microovn.Node.Bgp.{BgpService}
use microovn.Node.Frame.{
  get_config_item-SameDb, get_services-SameDb, has_service_active-SameDb, find_service-SameDb,
  certificate-SameDb,
}
use microovn.Hooks.Started.{dump_ca-SameDb}
use microovn.Api.{Replies, cluster}
use microovn.ApiConfig.{ovn_central_ips_updated, handle_set, handle_get, handle_delete}
use microovn.ApiServices.{with_warnings, services_get, enable_service_put, disable_service_delete}
use microovn.ApiCertificates.{
  RegenerateCaResponse, enabled_ovn_services, reissue_each, reissue_all_certificates,
  issue_certificates_put, issue_certificates_all_put, info_ca_get, reissue_local, notify_members,
  update_first, update_ovn_cluster_certificates, after_store, regenerate_ca_put, set_ca_post,
}
use microovn.ApiBgp.{
  SetupBgpRequest, save, check_members, set_up_members, set_up_local, set_up_all, set_up_cluster,
  set_up_first, setup_bgp_handler, check_interface_handler, interface_exists,
}
use microovn.History.{is_confirmed}
use microovn.Effect.{Env, Result}
use microovn.Effect.Keeps.{Keeps, Keeps-bind, Keeps-attempt, Keeps-on_error}
use microovn.Effect.Quiet.{SameDb, same_db, quiet}

module _ (env : Env) (parse_ip : String → Bool) where
  updated-SameDb : (key : String) → Keeps SameDb (ovn_central_ips_updated env parse_ip key)
  unfolding ovn_central_ips_updated
  updated-SameDb key = search quiet depth 8

  pub handle_set-Guarded :
      {strict : Bool} (key value : String)
      → Keeps (Guarded env.name strict) (handle_set env parse_ip key value)
  unfolding handle_set
  handle_set-Guarded key value = search (guarding, set_config-Guarded, updated-SameDb) depth 20

  pub handle_get-Guarded :
      {strict : Bool} (key : String) → Keeps (Guarded env.name strict) (handle_get env parse_ip key)
  unfolding handle_get
  handle_get-Guarded key = search (guarding, get_config-SameDb) depth 20

  pub handle_delete-Guarded :
      {strict : Bool} (key : String)
      → Keeps (Guarded env.name strict) (handle_delete env parse_ip key)
  unfolding handle_delete
  handle_delete-Guarded key = search (guarding, delete_config-Guarded, updated-SameDb) depth 20

module _ (env : Env) where
  warnings-SameDb : (m : String) → Keeps SameDb (with_warnings env m)
  unfolding with_warnings service_warnings
  warnings-SameDb m = search (quiet, find_service-SameDb) depth 12

  pub services_get-Guarded : {strict : Bool} → Keeps (Guarded env.name strict) (services_get env)
  unfolding services_get list_services
  services_get-Guarded = search (guarding, get_services-SameDb) depth 12

  -- The certificates.
  enabled-SameDb : Keeps SameDb (enabled_ovn_services env)
  unfolding enabled_ovn_services
  enabled-SameDb = search (quiet, has_service_active-SameDb) depth 12

  reissue_each-SameDb : (ss : List String) → Keeps SameDb (reissue_each env ss)
  unfolding reissue_each
  reissue_each-SameDb [] = search quiet
  reissue_each-SameDb (s ∷ ss) =
      Keeps-bind same_db _ _ (Keeps-attempt same_db _ (certificate-SameDb env s _))
        λ r. Keeps-bind same_db _ _ (reissue_each-SameDb ss) λ rest. search quiet

  reissue_all-SameDb : Keeps SameDb (reissue_all_certificates env)
  unfolding reissue_all_certificates
  reissue_all-SameDb = search (quiet, enabled-SameDb, reissue_each-SameDb)

  pub issue_put-Guarded :
      {strict : Bool} (s : String) → Keeps (Guarded env.name strict) (issue_certificates_put env s)
  unfolding issue_certificates_put
  issue_put-Guarded s = search (guarding, enabled-SameDb, certificate-SameDb) depth 16

  pub issue_all_put-Guarded :
      {strict : Bool} → Keeps (Guarded env.name strict) (issue_certificates_all_put env)
  unfolding issue_certificates_all_put
  issue_all_put-Guarded = search (guarding, reissue_all-SameDb) depth 12

  pub info_ca-Guarded : {strict : Bool} → Keeps (Guarded env.name strict) (info_ca_get env)
  unfolding info_ca_get is_ca_renewable read_renewable
  info_ca-Guarded = search (guarding, get_config_item-SameDb) depth 16

  reissue_local-SameDb : (r : RegenerateCaResponse) → Keeps SameDb (reissue_local env r)
  unfolding reissue_local
  reissue_local-SameDb r = search (quiet, dump_ca-SameDb, reissue_all-SameDb) depth 14

  module _ (replies : Replies) where
    notify-SameDb :
        (r : RegenerateCaResponse) (urls : List String)
        → Keeps SameDb (notify_members env replies r urls)
    unfolding notify_members
    notify-SameDb r [] = search quiet
    notify-SameDb r (url ∷ urls) =
        Keeps-bind same_db _ _ (search quiet)
          λ x. Keeps-bind same_db _ _ (search quiet) λ n. notify-SameDb n urls

    update_first-SameDb : (r : RegenerateCaResponse) → Keeps SameDb (update_first env replies r)
    unfolding update_first cluster
    update_first-SameDb r = search (quiet, notify-SameDb, reissue_local-SameDb) depth 20

    after_store-SameDb : (r : Result Bool) → Keeps SameDb (after_store env replies r)
    unfolding after_store
    after_store-SameDb r = search (quiet, update_first-SameDb)

    pub regenerate_ca-Guarded :
        {strict : Bool} (b : Bool)
        → Keeps (Guarded env.name strict) (regenerate_ca_put env replies b)
    unfolding regenerate_ca_put update_ovn_cluster_certificates
    regenerate_ca-Guarded true = search (guarding, reissue_local-SameDb)
    regenerate_ca-Guarded false = search (guarding, new_ca-Guarded, after_store-SameDb) depth 8

    pub set_ca_post-Guarded :
        {strict : Bool} (x : X509) (b : Bool) (body : Option (String × String))
        → Keeps (Guarded env.name strict) (set_ca_post env replies x b body)
    unfolding set_ca_post update_ovn_cluster_certificates
    set_ca_post-Guarded x true body = search (guarding, reissue_local-SameDb)
    set_ca_post-Guarded x false none = search guarding
    set_ca_post-Guarded x false (some (cert, key)) =
        search (guarding, set_ca-Guarded, after_store-SameDb) depth 8

module _ (env : Env) (bgp : BgpService) where
  pub enable_put-Guarded :
      {strict : Bool} (s : String) (body : Option (Option ExtraBgpConfig))
      → Keeps (Guarded env.name strict) (enable_service_put env bgp s body)
  unfolding enable_service_put
  enable_put-Guarded s none = search guarding
  enable_put-Guarded s (some c) =
      search (guarding, enable_service-Guarded, warnings-SameDb) depth 12

  pub disable_delete-Guarded :
      {strict : Bool} (s : String) (body : Bool ⊎ String)
      → (strict && is_confirmed body) ≡ false
      → Keeps (Guarded env.name strict) (disable_service_delete env bgp s body)
  unfolding disable_service_delete
  disable_delete-Guarded s (inl allow) h =
      search (guarding, disable_service-Guarded, h, warnings-SameDb) depth 20
  disable_delete-Guarded s (inr m) h = search guarding depth 8

  -- BGP on the cluster.
  save-Guarded :
      {strict : Bool} (ss : List (String × String × String))
      → Keeps (Guarded env.name strict) (save env ss)
  unfolding save
  save-Guarded [] = search guarding
  save-Guarded ((key, value, name) ∷ rest) =
      Keeps-bind guarded _ _ (Keeps-on_error guarded _ _ (set_config-Guarded env key value))
        λ u. save-Guarded rest

  set_up_local-Guarded :
      {strict : Bool} (errs : List String)
      → Keeps (Guarded env.name strict) (set_up_local env bgp errs)
  unfolding set_up_local
  set_up_local-Guarded errs = search (guarding, from_config-Guarded) depth 10

  module _ (replies : Replies) where
    check_members-SameDb :
        (i : String) (urls : List String) → Keeps SameDb (check_members env replies i urls)
    unfolding check_members
    check_members-SameDb i [] = search quiet
    check_members-SameDb i (url ∷ urls) = Keeps-bind same_db _ _ (search quiet) λ r.
        Keeps-bind same_db _ _ (search quiet)
          λ e. Keeps-bind same_db _ _ (check_members-SameDb i urls) λ rest. search quiet

    set_up_members-SameDb : (urls : List String) → Keeps SameDb (set_up_members env replies urls)
    unfolding set_up_members
    set_up_members-SameDb [] = search quiet
    set_up_members-SameDb (url ∷ urls) = Keeps-bind same_db _ _ (search quiet) λ r.
        Keeps-bind same_db _ _ (search quiet)
          λ e. Keeps-bind same_db _ _ (set_up_members-SameDb urls) λ rest. search quiet

    set_up_all-Guarded :
        {strict : Bool} (clients missing : List String)
        → Keeps (Guarded env.name strict) (set_up_all env bgp replies clients missing)
    unfolding set_up_all
    set_up_all-Guarded clients (e ∷ errs) = search guarding
    set_up_all-Guarded clients [] =
        search (guarding, set_up_members-SameDb, set_up_local-Guarded) depth 12

    set_up_cluster-Guarded :
        {strict : Bool} (req : SetupBgpRequest) (clients : List String)
        → Keeps (Guarded env.name strict) (set_up_cluster env bgp replies req clients)
    unfolding set_up_cluster
    set_up_cluster-Guarded req clients =
        search (guarding, check_members-SameDb, set_up_all-Guarded) depth 12

    set_up_first-Guarded :
        {strict : Bool} (req : SetupBgpRequest)
        → Keeps (Guarded env.name strict) (set_up_first env bgp replies req)
    unfolding set_up_first cluster
    set_up_first-Guarded req = search (guarding, save-Guarded, set_up_cluster-Guarded) depth 20

    pub setup_bgp-Guarded :
        {strict : Bool} (b : Bool) (body : Option SetupBgpRequest)
        → Keeps (Guarded env.name strict) (setup_bgp_handler env bgp replies b body)
    unfolding setup_bgp_handler
    setup_bgp-Guarded true body = set_up_local-Guarded []
    setup_bgp-Guarded false none = search guarding
    setup_bgp-Guarded false (some req) = search (guarding, set_up_first-Guarded)

    pub check_interface-Guarded :
        {strict : Bool} (name : String)
        → Keeps (Guarded env.name strict) (check_interface_handler env bgp replies name)
    unfolding check_interface_handler interface_exists
    check_interface-Guarded name = search guarding depth 10
