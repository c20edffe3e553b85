-- ===== src/History/Actions.antt =====
-- The actions on a node and on the options leave the services of other members alone.
use microovn.Prelude.{arith, String, Bool, false, List, [], ◌∷◌}
use microovn.History.Guarded.{
  Guarded, guarded, guarding, disable_service-Guarded, delete_item-SameServices,
}
use microovn.Hooks.Bootstrapped.{create_item-SameServices, update_item-SameServices}
use microovn.Database.Config.Ops.{config_item_exists-db}
use microovn.Database.Config.{config_item_exists}
use microovn.Config.{set_config, delete_config}
use microovn.Certificates.{upsert, upsert_ca, store_ca, generate_new_ca_certificate}
use microovn.Certificates.Custom.{X509, check_chain-SameDb, set_new_ca_certificate}
use microovn.Node.Bgp.{BgpService}
use microovn.Node.Frame.{get_config_item-SameDb, issue_certificate-SameDb}
use microovn.Node.Lifecycle.{disable_each, disable_all_services}
use microovn.Effect.{Env}
use microovn.Effect.Keeps.{Keeps, Keeps-bind, Keeps-attempt}
use microovn.Effect.Quiet.{SameDb}

module _ (env : Env) where
  config_item_exists-SameDb : (k : String) → Keeps SameDb (config_item_exists env k)
  config_item_exists-SameDb k = record { at = config_item_exists-db env k }

  pub set_config-Guarded :
      {strict : Bool} (k v : String) → Keeps (Guarded env.name strict) (set_config env k v)
  unfolding set_config
  set_config-Guarded k v =
      search
        (guarding, config_item_exists-SameDb, create_item-SameServices, update_item-SameServices)
        depth 12

  pub delete_config-Guarded :
      {strict : Bool} (k : String) → Keeps (Guarded env.name strict) (delete_config env k)
  unfolding delete_config
  delete_config-Guarded k =
      search (guarding, config_item_exists-SameDb, delete_item-SameServices) depth 12

  -- The CA.
  upsert-Guarded :
      {strict : Bool} (label k v : String) → Keeps (Guarded env.name strict) (upsert env label k v)
  unfolding upsert
  upsert-Guarded label k v =
      search (guarding, get_config_item-SameDb, create_item-SameServices, update_item-SameServices)
        depth 12

  store_ca-Guarded :
      {strict : Bool} (cert key : String) (b : Bool)
      → Keeps (Guarded env.name strict) (store_ca env cert key b)
  unfolding store_ca upsert_ca
  store_ca-Guarded cert key b = search (guarding, upsert-Guarded) depth 12

  pub new_ca-Guarded :
      {strict : Bool} → Keeps (Guarded env.name strict) (generate_new_ca_certificate env)
  unfolding generate_new_ca_certificate
  new_ca-Guarded = search (guarding, issue_certificate-SameDb, store_ca-Guarded) depth 8

  pub set_ca-Guarded :
      {strict : Bool} (x : X509) (cert key : String)
      → Keeps (Guarded env.name strict) (set_new_ca_certificate env x cert key)
  unfolding set_new_ca_certificate
  set_ca-Guarded x cert key = search (guarding, check_chain-SameDb, store_ca-Guarded) depth 8

module _ (env : Env) (bgp : BgpService) where
  disable_each-Guarded :
      {strict : Bool} (services : List String)
      → Keeps (Guarded env.name strict) (disable_each env bgp services)
  unfolding disable_each
  disable_each-Guarded [] = search guarding
  disable_each-Guarded (s ∷ services) =
      Keeps-bind guarded _ _
        (Keeps-attempt guarded _ (disable_service-Guarded env bgp s false (ground arith)))
        λ r. disable_each-Guarded services

  pub disable_all-Guarded :
      {strict : Bool} → Keeps (Guarded env.name strict) (disable_all_services env bgp)
  unfolding disable_all_services
  disable_all-Guarded = disable_each-Guarded _
