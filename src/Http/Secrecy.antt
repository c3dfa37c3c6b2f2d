-- ===== src/Http/Secrecy.antt =====
-- What a request without a principal can learn from the handler of nix/gateway.py.
use rebekah.Prelude.{◌≡◌, refl, Bool, true, false, Option, none, some, arith}
use rebekah.Prelude.Text.{Text, codes}
use rebekah.Prelude.Dict.{lookup}
use rebekah.Prelude.Exec.{Result, ok, Raised, Exec}
use rebekah.Auth.Principal
use rebekah.Http.Message.{Request, Response, header}
use rebekah.Http.Upstream.{Backend}
use rebekah.Http.Routes.{Route, route}
use rebekah.Http.Handler.{
  Config, Machine, Private, Server, authed, guarded, serve, proxy, proxy_to, handle,
}

abbrev pub is_someone : Result Raised (Option Text) → Bool
is_someone (ok (some name)) = true
is_someone _ = false

-- Whether the request's header speaks for anyone.
abbrev pub speaks : Machine → Request → Server → Bool
speaks m r s =
    is_someone
      (Principal.principal m.hashes m.now (header (codes "Authorization") r.headers) s.auth).0

module _ (m : Machine) (cfg : Config) (r : Request) (s : Server) where
  -- Without a principal it does not matter what is guarded.
  guarded_alike :
      (f g : Text → Exec Server Response)
      → speaks m r s ≡ false
      → guarded m cfg r f s ≡ guarded m cfg r g s
  unfolding guarded authed
  guarded_alike f g h = ground arith

  module _ (p q : Private) (h : speaks m r s ≡ false) where
    proxy_alike :
        (first : Text) (b : Option Backend)
        → proxy_to m cfg r p first b s ≡ proxy_to m cfg r q first b s
    proxy_alike first none = refl
    proxy_alike first (some b) = guarded_alike _ _ h

    serve_alike : (to : Route) → serve m cfg r p to s ≡ serve m cfg r q to s
    unfolding serve proxy
    serve_alike Route.healthz = refl
    serve_alike Route.index = refl
    serve_alike (Route.ui rel) = refl
    serve_alike Route.auth = refl
    serve_alike Route.login = refl
    serve_alike Route.logout = refl
    serve_alike Route.session = refl
    serve_alike Route.system = guarded_alike _ _ h
    serve_alike Route.oversight = guarded_alike _ _ h
    serve_alike Route.daily_agenda = guarded_alike _ _ h
    serve_alike Route.frog_kanban = guarded_alike _ _ h
    serve_alike Route.attention = guarded_alike _ _ h
    serve_alike Route.change_sets = guarded_alike _ _ h
    serve_alike Route.change_requests = guarded_alike _ _ h
    serve_alike (Route.change_set id) = guarded_alike _ _ h
    serve_alike Route.info = refl
    serve_alike Route.unknown = refl
    serve_alike (Route.backend first) = proxy_alike first (lookup first cfg.backends)

    -- Where the Authorization header of a request speaks for nobody, the response and the state
    -- behind it are the same whatever the views of the other components hold and whatever the
    -- backends would answer.
    pub handle_private : handle m cfg r p s ≡ handle m cfg r q s
    unfolding handle
    handle_private = serve_alike (route cfg.ui_enabled m.unquote r.path)
