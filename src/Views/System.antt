-- ===== src/Views/System.antt =====
-- `v1_system` of nix/gateway.py, with `auth_schemes`: what the gateway says of itself.
use rebekah.Prelude.{Bool, true, false, List, [], ◌∷◌, ◌++◌, if◌then◌else◌, map}
use rebekah.Prelude.Text.{Text, codes, text_eq}
use rebekah.Prelude.Dict.{Dict, has_key}
use rebekah.Prelude.Sort.{sorted}
use rebekah.Json.{Json, null, str, boolean, object, array}
use rebekah.Config.Validate.{Settings, token_enabled, oidc_enabled, dash_enabled}

-- `password_active` is whether there is a store of passwords.
unfoldable pub auth_schemes : Settings → Bool → List Text
unfolding token_enabled oidc_enabled
auth_schemes cfg password_active =
    (if token_enabled cfg then codes "token" ∷ [] else [])
    ++ ((if password_active then codes "password" ∷ [] else [])
        ++ (if oidc_enabled cfg then codes "oidc" ∷ [] else []))

abbrev pub route_of : Text → Text
route_of name =
    if text_eq name (codes "frog")
    then codes "/frog/api/v1/kanban"
    else codes "/" ++ name ++ codes "/"

-- The names of a dict, as `sorted(cfg.backends)` takes them.
abbrev pub names_of : {V : Type 0} → Dict V → List Text
names_of d = sorted (map (λ kv. kv.0) d)

abbrev pub routes_of : List Text → Dict Json
routes_of names = map (λ name. (name, str (route_of name))) names

abbrev pub backends_of : List Text → Dict Json
backends_of names = map (λ name. (name, object ((codes "route", str (route_of name)) ∷ []))) names

-- `v1_system`, at a time and with what `runtime_snapshot` returned; `ephor` is `cfg.ephor_state`.
unfoldable pub system : Text → Json → Text → Bool → Bool → Settings → Json
unfolding auth_schemes dash_enabled text_eq sorted
system now runtime ephor ui_enabled password_active cfg =
    let names = names_of cfg.backends in
    object (
      (codes "schema", str (codes "rebekah.system.v1"))
      ∷ (codes "observed_at", str now)
      ∷ (codes "source", str (codes "rebekah-gateway"))
      ∷ (codes "service", str (codes "rebekah-gateway"))
      ∷ (codes "auth", array (map str (auth_schemes cfg password_active)))
      ∷ (codes "ui", boolean ui_enabled)
      ∷ (codes "backends", object (backends_of names))
      ∷ (codes "runtime", runtime)
      ∷ (
        codes "urls",
        object (
            (codes "console", if ui_enabled then str (codes "/") else null)
            ∷ (codes "backends", object (routes_of names))
            ∷ []),
      )
      ∷ (
        codes "workflows",
        object (
            (codes "native_review", boolean (has_key (codes "weftmark") cfg.backends))
            ∷ (
              codes "hitl",
              object (
                  (codes "surface", str (codes "dash"))
                  ∷ (codes "configured", boolean (dash_enabled cfg))
                  ∷ (codes "governed_holds", boolean (text_eq ephor (codes "enabled")))
                  ∷ []),
            )
            ∷ (
              codes "attestation",
              str (
                  codes
                    "human-only Nostoi CLI; verify with allowed signers and pinned fingerprint"),
            )
            ∷ (
              codes "web",
              object (
                  (codes "local", boolean ui_enabled)
                  ∷ (codes "host_status", str (codes "live read of mounted snapshot"))
                  ∷ (
                    codes "dash",
                    str (
                        if dash_enabled cfg
                        then codes "outbound projection"
                        else codes "not-configured"),
                  )
                  ∷ (codes "reads_logged", boolean false)
                  ∷ (codes "mutation_audit", str (codes "Nostoi intent and result required"))
                  ∷ (codes "delivery_receipt", boolean false)
                  ∷ []),
            )
            ∷ []),
      )
      ∷ (
        codes "ephor",
        object (
            (codes "state", str ephor)
            ∷ (codes "exposed", boolean (has_key (codes "ephor") cfg.backends))
            ∷ (codes "optional", boolean true)
            ∷ []),
      )
      ∷ [])

-- The names of the backends, in the order of the configuration.
abbrev pub keys_of : {V : Type 0} → Dict V → List Text
keys_of d = map (λ kv. kv.0) d
