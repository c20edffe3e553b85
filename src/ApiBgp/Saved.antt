-- ===== src/ApiBgp/Saved.antt =====
-- The settings that setupBgpHandler of microovn/api/bgp/endpoints.go leaves in the options of the cluster.
use microovn.Prelude.{
  String, Bool, true, false, not, ◌||◌, Option, some, List, [], ◌∷◌, ◌++◌, ◌==◌, eqb, eq_iff,
  Bool-cases, if◌then◌else◌, ◌≡◌, refl, sym, ap, ◌∙◌, inl, inr,
}
use microovn.Text.{◌<>◌, format}
use microovn.Config.{set_config}
use microovn.Config.Map.{option, set_config-option}
use microovn.Effect.{Env, World, ok, wrapf, ret, on_error}
use microovn.Effect.Outcome.{>>=-ok, on_error-ok, on_error-world}
use microovn.ApiBgp.{
  SetupBgpRequest, settings, save, key_cluster, key_interface, key_bridge, key_asn, key_asn_range,
  key_ip4_range,
}

-- The value of an option once all settings have been written.
unfoldable pub written : List (String × String × String) → String → Option String → Option String
written [] k o = o
written ((key, value, name) ∷ rest) k o = written rest k (if key == k then some value else o)

-- A setting that is left as it is unless the request has a value.
abbrev pub kept_unless : Bool → String → Option String → Option String
kept_unless given value o = if given then some value else o

module _ (env : Env) where
  save-option :
      (ss : List (String × String × String)) (w : World) (k : String)
      → (save env ss w).0 ≡ ok tt
      → option (save env ss w).1 k ≡ written ss k (option w k)
  unfolding save written
  save-option [] w k h = unfold ret in refl
  save-option ((key, value, name) ∷ rest) w k h =
      let f = wrapf ("failed to save BGP " <> name <> " config: ") in
      let (a, p, q, r) = >>=-ok (on_error f (set_config env key value)) _ w h in
      let x = on_error-world f (set_config env key value) w in
      let y = set_config-option env key value w k (on_error-ok f (set_config env key value) w p) in
      rw (r, x, ← y) (save-option rest (set_config env key value w).1 k (rw (← x) q))

-- What a setting that is written only under the condition `given` does to the option `k`.
abbrev put : Bool → String → String → String → Option String → Option String
put given key value k o = if key == k then kept_unless given value o else o

written-append :
    (xs ys : List (String × String × String)) (k : String) (o : Option String)
    → written (xs ++ ys) k o ≡ written ys k (written xs k o)
unfolding written
written-append [] ys k o = refl
written-append ((key, value, name) ∷ xs) ys k o = written-append xs ys k _

same_branches : (b : Bool) (o : Option String) → (if b then o else o) ≡ o
same_branches true o = refl
same_branches false o = refl

written-if :
    (b : Bool) (key value name k : String) (o : Option String)
    → written (if b then (key, value, name) ∷ [] else []) k o ≡ put b key value k o
unfolding written
written-if true key value name k o = refl
written-if false key value name k o = sym (same_branches (key == k) o)

written-unless :
    (b : Bool) (key value name k : String) (o : Option String)
    → written (if b then [] else (key, value, name) ∷ []) k o ≡ put (not b) key value k o
unfolding written
written-unless true key value name k o = sym (same_branches (key == k) o)
written-unless false key value name k o = refl

-- One of two settings with different keys is written.
written-either :
    (b : Bool) (key value other k text name : String) (o : Option String)
    → other == key ≡ false
    → written ((if b then (key, value, name) else (other, text, name)) ∷ []) k o
      ≡ put b key value k (put (not b) other text k o)
unfolding written
written-either true key value other k text name o h = rw (same_branches (other == k) o) refl
written-either false key value other k text name o h = elim (Bool-cases (key == k)) [
  | inl e ↦
      let x : key ≡ k = (eq_iff key k).0 e in
      let y : other == k ≡ false = rw (← x) h in rw (e, y) refl
  | inr e ↦ rw e refl
]

not-not : (b : Bool) → not (not b) ≡ b
not-not true = refl
not-not false = refl

module _ (env : Env) (r : SetupBgpRequest) where
  settings-written :
      (k : String) (o : Option String)
      → written (settings env r) k o
        ≡ put (not (r.connection_ip4_range == "")) key_ip4_range r.connection_ip4_range k (
            put
              (not (eqb r.config.asn_min 0) || not (eqb r.config.asn_max 0))
              key_asn_range
              (format r.config.asn_min <> "-" <> format r.config.asn_max)
              k
              (put (not (r.config.asn == "")) key_asn r.config.asn k (
                put
                  (not (r.config.external_connection == ""))
                  key_interface
                  r.config.external_connection
                  k
                  (put
                    (not (not (r.config.external_connection == "")))
                    key_bridge
                    r.config.bridge
                    k
                    (if key_cluster == k then some "true" else o)))))
  unfolding settings written
  settings-written k o =
      rw (written-append, written-append, written-unless, written-unless, written-if)
        (ap
          (λ x. put (not (r.connection_ip4_range == "")) key_ip4_range r.connection_ip4_range k (
            put (not (eqb r.config.asn_min 0) || not (eqb r.config.asn_max 0)) key_asn_range
              (format r.config.asn_min <> "-" <> format r.config.asn_max) k
              (put (not (r.config.asn == "")) key_asn r.config.asn k x)))
          (written-either (not (r.config.external_connection == "")) key_interface
            r.config.external_connection key_bridge k r.config.bridge "interface/bridge" _ refl))

  module _ (w : World) where
    -- When the settings of a request have been saved, BGP is recorded for the cluster, each value of the request is the
    -- value of its option, and an option of which the request has no value keeps the value that it had before. Of
    -- the interface and the bridge one alone is written.
    pub save-settings :
        (save env (settings env r) w).0 ≡ ok tt
        → (option (save env (settings env r) w).1 key_cluster ≡ some "true")
          × (option (save env (settings env r) w).1 key_interface
              ≡ kept_unless
                  (not (r.config.external_connection == ""))
                  r.config.external_connection
                  (option w key_interface))
          × (option (save env (settings env r) w).1 key_bridge
              ≡ kept_unless
                  (r.config.external_connection == "")
                  r.config.bridge
                  (option w key_bridge))
          × (option (save env (settings env r) w).1 key_asn
              ≡ kept_unless (not (r.config.asn == "")) r.config.asn (option w key_asn))
          × (option (save env (settings env r) w).1 key_asn_range
              ≡ kept_unless
                  (not (eqb r.config.asn_min 0) || not (eqb r.config.asn_max 0))
                  (format r.config.asn_min <> "-" <> format r.config.asn_max)
                  (option w key_asn_range))
          × (option (save env (settings env r) w).1 key_ip4_range
              ≡ kept_unless
                  (not (r.connection_ip4_range == ""))
                  r.connection_ip4_range
                  (option w key_ip4_range))
    save-settings h =
        let at = λ (k : String).
          save-option env (settings env r) w k h ∙ settings-written k (option w k) in
        (
          at key_cluster,
          at key_interface,
          at key_bridge ∙ ap (λ b. kept_unless b r.config.bridge (option w key_bridge)) (not-not _),
          at key_asn,
          at key_asn_range,
          at key_ip4_range,
        )
