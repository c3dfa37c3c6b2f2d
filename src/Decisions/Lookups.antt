-- ===== src/Decisions/Lookups.antt =====
-- Looking a hold up (nix/gateway.py) changes nothing: it only reads.
use rebekah.Prelude.{Bool, true, Option, none, some, List, [], ◌∷◌, ◌++◌, sym, not}
use mathlib.Core.Path.{subst}
use rebekah.Prelude.Text.{Text, codes}
use rebekah.Prelude.Dict.{Dict}
use rebekah.Prelude.Sort.{quote}
use rebekah.Prelude.Exec.{Exec}
use rebekah.Json.{Json}
use rebekah.Decisions.Calls.{
  Trace, Event, http, gate, audit, World, Config, internal_json, gate_rpc,
}
use rebekah.Decisions.Hold.{
  Lookup, Seen, crashed, down, elsewhere, here, read_list, after_gate, search_gates, or_search,
  on_bridge, is_reached, gate_names, find_hold,
}
use rebekah.Decisions.Events.{
  Adds, same, more, AtMostOne, nothing, one, IsLookup, Http, Asks, internal_json-AtMostOne,
  gate_rpc-AtMostOne,
}

module _ (cfg : Config) (w : World) where
  Adds-once :
      {t u v : Trace} {P : Event → Type 0}
      → ((e : Event) → P e → IsLookup e)
      → Adds IsLookup t u
      → AtMostOne P u v
      → Adds IsLookup t v
  Adds-once f a (nothing e) = subst (Adds IsLookup _) (sym e) a
  Adds-once f a (one e p q) = subst (Adds IsLookup _) (sym q) (more e a (f e p))

  get-IsLookup : (e : Event) → Http (codes "GET") e → IsLookup e
  get-IsLookup (http r) p = p
  get-IsLookup (gate g) p = absurd p
  get-IsLookup (audit a b) p = absurd p

  list-IsLookup : (e : Event) → Asks (codes "oversight.list") e → IsLookup e
  list-IsLookup (http r) p = absurd p
  list-IsLookup (gate g) p = p
  list-IsLookup (audit a b) p = absurd p

  after_gate-Adds :
      (seen : Seen) (name : Text) (go_on : Bool → Exec Trace Lookup) (unreachable : Bool)
      (t u : Trace)
      → ((b : Bool) → Adds IsLookup t (go_on b u).1)
      → Adds IsLookup t u
      → Adds IsLookup t (after_gate cfg w seen name go_on unreachable u).1
  after_gate-Adds (crashed e) name go_on unreachable t u h a = a
  after_gate-Adds down name go_on unreachable t u h a = h true
  after_gate-Adds elsewhere name go_on unreachable t u h a = h unreachable
  after_gate-Adds (here d) name go_on unreachable t u h a = a

  listed :
      (t u : Trace) (name : Text)
      → Adds IsLookup t u
      → Adds IsLookup t (gate_rpc cfg w name (codes "oversight.list") [] u).1
  listed t u name a =
      Adds-once list-IsLookup a (gate_rpc-AtMostOne cfg w name (codes "oversight.list") [] u)

  search_gates-Adds :
      (request_id : Text) (names : List Text) (unreachable : Bool) (t u : Trace)
      → Adds IsLookup t u
      → Adds IsLookup t (search_gates cfg w request_id names unreachable u).1
  unfolding search_gates
  search_gates-Adds request_id [] unreachable t u a = a
  search_gates-Adds request_id (name ∷ names) unreachable t u a =
      after_gate-Adds (read_list request_id (gate_rpc cfg w name (codes "oversight.list") [] u).0)
        name (search_gates cfg w request_id names) unreachable t
        (gate_rpc cfg w name (codes "oversight.list") [] u).1
        (λ b.
          search_gates-Adds request_id names b t
            (gate_rpc cfg w name (codes "oversight.list") [] u).1 (listed t u name a))
        (listed t u name a)

  or_search-Adds :
      (found : Option (Dict Json)) (search : Exec Trace Lookup) (t u : Trace)
      → Adds IsLookup t u
      → Adds IsLookup t (search u).1
      → Adds IsLookup t (or_search cfg w found search u).1
  or_search-Adds none search t u a b = b
  or_search-Adds (some d) search t u a b = a

  pub find_hold-Adds :
      (request_id : Text) (t : Trace) → Adds IsLookup t (find_hold cfg w request_id t).1
  unfolding find_hold
  find_hold-Adds request_id t =
      let asked =
        internal_json cfg w (codes "ephor") (codes "GET")
          (codes "/oversight/fetch/" ++ quote request_id) none none [] t in
      let a : Adds IsLookup t asked.1 = Adds-once get-IsLookup same (
        internal_json-AtMostOne cfg w (codes "ephor") (codes "GET")
          (codes "/oversight/fetch/" ++ quote request_id) none none [] t) in
      or_search-Adds (on_bridge cfg w asked.0.0 asked.0.1)
        (search_gates cfg w request_id (gate_names cfg w) (not (is_reached cfg w asked.0.0))) t
        asked.1 a
        (search_gates-Adds request_id (gate_names cfg w) (not (is_reached cfg w asked.0.0)) t
          asked.1 a)
