-- ===== src/Ovsdb.antt =====
-- microovn/ovn/ovsdb/ovsdb.go: the upgrade of the schema of the OVN databases, which the members of the
-- cluster coordinate by waiting.
pub mod BackOff
pub mod Leader
pub mod Members
pub mod Progress
pub mod Waiting
pub mod Rounds
use microovn.Prelude.{
  ℕ, zero, suc, ◌*◌, String, Bool, true, false, not, List, [], ◌∷◌, ◌==◌, ltb, all, if◌then◌else◌,
}
use microovn.Text.{◌<>◌, trim_space, format}
use microovn.Database.{Member}
use microovn.Commands.{OvsdbSpec, OvsdbType, new_ovsdb_spec, ovsdb_client}
use microovn.Node.{has_service_active, find_service}
use microovn.Environment.{is_ok}
use microovn.Types.{srv_central}
use microovn.Effect.{
  Env, Error, Result, ok, err, panic, M, ret, raise, panics, lift, attempt, either, call, command,
  issue, ◌>>=◌, ◌>>◌, on_error, errorf,
}

-- `schemaStatus`
pub record SchemaStatus : Type 0 where
  pub local_version : String
  pub target_version : String
  pub upgrade_required : Bool

-- The end of the loop: backOffMsMultiplier, then backOffMsMax.
unfoldable pub next_back_off : ℕ → ℕ
next_back_off b = let c = if ltb b 2000 then b * 2 else b in if ltb 2000 c then 2000 else c

-- `sort.Slice` by the ids of the members.
unfoldable pub insert_member : Member → List Member → List Member
insert_member m [] = m ∷ []
insert_member m (n ∷ ns) = if ltb n.id m.id then n ∷ insert_member m ns else m ∷ n ∷ ns

unfoldable pub sort_members : List Member → List Member
sort_members [] = []
sort_members (m ∷ ms) = insert_member m (sort_members ms)

-- `s.Name() == membersWithCentral[0].Name`
unfoldable pub leads : String → List Member → Result Bool
leads name [] = panic
leads name (m ∷ ms) = ok (name == m.name)

-- How a round of the loop ends.
pub data Round : Type 0 where
  up_to_date converted again : Round

-- `peers` asks every member of the cluster for the schema version that it expects, through the client
-- of microcluster.
module _ (env : Env) (peers : OvsdbSpec → M (List String)) where
  -- `ExpectedOvsdbSchemaVersion`
  unfoldable pub expected_schema_version : OvsdbSpec → M String
  expected_schema_version db = do
    version ←
        on_error
          (λ e. errorf (
            "failed to get DB schema version from file '" <> db.schema <> "': '" <> e.message
            <> "'"))
          (call env (command "ovsdb-tool" ("schema-version" ∷ db.schema ∷ [])))
    ret (trim_space version)

  -- `getLiveSchemaStatus`
  unfoldable pub get_live_schema_status : OvsdbSpec → M SchemaStatus
  get_live_schema_status db = do
    live ←
        on_error (λ e. errorf ("failed to get local DB schema version: '" <> e.message <> "'"))
          (ovsdb_client env db 10 5 ("get-schema-version" ∷ db.socket_url ∷ db.name ∷ []))
    target ←
        on_error (λ e. errorf ("failed to get expected DB schema version: '" <> e.message <> "'"))
          (expected_schema_version db)
    same ← attempt (
        call env (command "ovsdb-tool" ("compare-versions" ∷ trim_space live ∷ "==" ∷ target ∷ [])))
    ret (record {
      local_version = trim_space live;
      target_version = target;
      upgrade_required = not (is_ok same);
    })

  -- `isNodeUpgradeLeader`
  unfoldable pub is_node_upgrade_leader : M Bool
  is_node_upgrade_leader = do
    centrals ←
        on_error
          (λ e. errorf (
            "failed to determine which member is OVSDB cluster upgrade leader: '" <> e.message
            <> "'"))
          (find_service env srv_central)
    lift (leads env.name (sort_members centrals))

  -- `isClusterUpgradeReady`
  unfoldable pub is_cluster_upgrade_ready : OvsdbSpec → String → M Bool
  is_cluster_upgrade_ready db target = do
    versions ←
        on_error
          (λ e. errorf (
            "failed to assess overall cluster readiness for OVN cluster DB upgrade: '" <> e.message
            <> "'"))
          (peers db)
    ret (all (λ v. v == target) versions)

  -- The leader's part of a round.
  unfoldable pub convert_if_ready : OvsdbSpec → String → M Round
  convert_if_ready db target = do
    ready ← attempt (is_cluster_upgrade_ready db target)
    either ready
        (λ r.
          if r
          then ovsdb_client env db 10 60 ("convert" ∷ db.socket_url ∷ db.schema ∷ [])
            >> ret Round.converted
          else ret Round.again)
        (λ e. ret Round.again)

  -- The part of a round after the schema status is known.
  unfoldable pub upgrade_step : OvsdbSpec → SchemaStatus → M Round
  upgrade_step db status = if not status.upgrade_required then ret Round.up_to_date else (do
    leader ← attempt is_node_upgrade_leader
    either leader (λ l. if l then convert_if_ready db status.target_version else ret Round.again)
        (λ e. ret Round.again))

  -- One round of the loop of `UpgradeCentralDB`, up to the sleep.
  unfoldable pub upgrade_round : OvsdbSpec → M Round
  upgrade_round db = do
    status ← attempt (get_live_schema_status db)
    either status (upgrade_step db) (λ e. ret Round.again)

  -- The loop, for `fuel` rounds: whether it has ended. `time.Sleep` is a call whose answer is dropped.
  unfoldable pub upgrade_loop : ℕ → ℕ → OvsdbSpec → M Bool
  upgrade_loop zero back_off db = ret false
  upgrade_loop (suc fuel) back_off db = do
    r ← upgrade_round db
    elim r [
      | Round.up_to_date ↦ ret true
      | Round.converted ↦ ret true
      | Round.again ↦ do
        attempt (call env (issue "time.Sleep" (format back_off ∷ [])))
        upgrade_loop fuel (next_back_off back_off) db
    ]

  -- `UpgradeCentralDB`
  unfoldable pub upgrade_central_db : ℕ → OvsdbType → M Bool
  upgrade_central_db fuel db_type = do
    db ←
        on_error (λ e. errorf ("failed create DB specification: '" <> e.message <> "'"))
          (lift (new_ovsdb_spec env db_type))
    if not db.is_central
        then raise
            (errorf "MicroOVN handles upgrades only for Northbound and Southbound clustered DBs")
        else do
          active ←
              on_error (λ e. errorf ("failed to query local services: " <> e.message))
                (has_service_active env srv_central)
          if not active then ret true else upgrade_loop fuel 100 db
