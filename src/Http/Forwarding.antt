-- ===== src/Http/Forwarding.antt =====
-- What the proxy of nix/gateway.py passes to a backend, and for whom.
use rebekah.Prelude.{length, ◌≡◌, refl, false, Option, none, some, ◌∷◌, inl, ◌⊎◌}
use rebekah.Prelude.Int.{ℤ, pos, ◌≤ℤ◌, ◌<ℤ◌}
use rebekah.Prelude.Text.{Text, codes, text_eq}
use rebekah.Prelude.Dict.{lookup}
use rebekah.Prelude.Exec.{Result, ok, err, Raised, Exec, continue}
use rebekah.Auth.Principal
use rebekah.Http.Message.{Request, Response, header, content_length, read}
use rebekah.Http.Upstream.{Backend, Call, call_of}
use rebekah.Http.Routes.{Route, route}
use rebekah.Http.Handler.{Config, Machine, Private, Server, authed, guarded, let_in}

-- A call that was made for a principal, to an exposed backend other than Frog. A length that was
-- announced and is not negative bounds the body by the limit; a negative one reads the whole stream.
pub record Forwarded (m : Machine) (cfg : Config) (r : Request) (s : Server) (call : Call)
    : Type 0 where
  pub name : Text
  pub spoken :
      (Principal.principal m.hashes m.now (header (codes "Authorization") r.headers) s.auth).0
      ≡ ok (some name)
  pub first : Text
  pub routed : route cfg.ui_enabled m.unquote r.path ≡ Route.backend first
  pub bounded : text_eq first (codes "frog") ≡ false
  pub to : Backend
  pub exposed : lookup first cfg.backends ≡ some to
  pub size : ℤ
  pub announced : content_length r ≡ ok size
  pub allowed : size ≤ℤ cfg.max_body
  pub sent : call ≡ call_of to first r (read size r.stream)
  pub bounded_body : (size <ℤ pos 0) ⊎ (pos (length (read size r.stream)) ≤ℤ cfg.max_body)

-- What a run does to the calls: nothing, or one call that has a property.
abbrev Sends : (Call → Type 0) → Server → Server → Type 0
Sends P s t = (t.calls ≡ s.calls) ⊎ ((call : Call) × (t.calls ≡ call ∷ s.calls) × P call)

module _ (m : Machine) (cfg : Config) (r : Request) (s : Server) where
  let_in_calls :
      (f : Text → Exec Server Response) (who : Result Raised (Option Text)) (t : Server)
      → ((name : Text) (t : Server) → (f name t).1.calls ≡ t.calls)
      → (continue who (let_in m cfg r f) t).1.calls ≡ t.calls
  let_in_calls f (err e) t quiet = refl
  let_in_calls f (ok none) t quiet = refl
  let_in_calls f (ok (some name)) t quiet = quiet name t

  guarded_calls :
      (f : Text → Exec Server Response)
      → ((name : Text) (t : Server) → (f name t).1.calls ≡ t.calls)
      → (guarded m cfg r f s).1.calls ≡ s.calls
  unfolding guarded authed
  guarded_calls f quiet = let_in_calls f _ _ quiet

module _ (m : Machine) (cfg : Config) (r : Request) (p : Private) (s : Server) where
  quiet :
      (f : Text → Exec Server Response)
      → ((name : Text) (t : Server) → (f name t).1.calls ≡ t.calls)
      → Sends (Forwarded m cfg r s) s (guarded m cfg r f s).1
  quiet f h = inl (guarded_calls m cfg r s f h)
