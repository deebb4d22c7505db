-- ===== src/Http/Routes.antt =====
-- The route table: `http_add_route`, `http_remove_route`, `http_clear_routes` and the search of
-- `find_matching_route`, each under `routes_mutex`, and the module's start and end. The module is
-- initialized; `malloc` for a route answers by an argument. A handler with its data is of a type `H`.
use net_serve.Prelude.{
  ℕ, ◌+◌, ◌-◌, Bool, true, false, ◌&&◌, Option, none, some, List, [], ◌∷◌, Bytes, str_eq,
  if◌then◌else◌,
}
use net_serve.Http.Request.{Method, Request, get, post, put, delete, patch, head, options, unknown}

pub record Route (H : Type 0) : Type 0 where
  pub method : Method
  pub path : Bytes
  pub handler : H

-- The linked list of routes, with `route_count`.
pub record Table (H : Type 0) : Type 0 where
  pub routes : List (Route H)
  pub route_count : ℕ

-- `==` on `http_method_t`.
abbrev pub same_method : Method → Method → Bool
same_method get get = true
same_method post post = true
same_method put put = true
same_method delete delete = true
same_method patch patch = true
same_method head head = true
same_method options options = true
same_method unknown unknown = true
same_method _ _ = false

module _ {H : Type 0} where
  abbrev pub matches : Method → Bytes → Route H → Bool
  matches m p r = same_method r.method m && str_eq r.path p

  pub empty_table : Table H
  empty_table = record { routes = []; route_count = 0 }

  -- The flag is the return of 0.
  unfoldable pub add_route : Bool → Method → Bytes → H → Table H → Bool × Table H
  add_route memory_ok m p h t =
      if memory_ok
      then (
        true,
        record {
          routes = record { method = m; path = p; handler = h } ∷ t.routes;
          route_count = t.route_count + 1;
        },
      )
      else (false, t)

  -- The list without its first match, or none.
  unfoldable pub unlink : Method → Bytes → List (Route H) → Option (List (Route H))
  unlink m p [] = none
  unlink m p (r ∷ rs) =
      let rest = unlink m p rs in
      if matches m p r then some rs else elim rest [ none ↦ none | some rs' ↦ some (r ∷ rs') ]

  unfoldable pub remove_route : Method → Bytes → Table H → Bool × Table H
  remove_route m p t = elim (unlink m p t.routes) [
    | none ↦ (false, t)
    | some rs ↦ (true, record { routes = rs; route_count = t.route_count - 1 })
  ]

  unfoldable pub clear_routes : Table H → Table H
  clear_routes t = record { routes = []; route_count = 0 }

  unfoldable pub find_route : Method → Bytes → List (Route H) → Option (Route H)
  find_route m p [] = none
  find_route m p (r ∷ rs) = if matches m p r then some r else find_route m p rs

  unfoldable pub find_matching_route : Request → Table H → Option (Route H)
  unfolding find_route
  find_matching_route q t = find_route q.method q.path t.routes
