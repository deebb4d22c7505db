-- ===== src/Http/Dispatch.antt =====
-- The route table as a stack for each method and path.
use net_serve.Prelude.{
  ◌+◌, ◌≡◌, ◌↔◌, refl, true, false, ◌&&◌, Option, none, some, List, [], ◌∷◌, Bytes, str_eq,
  str_eq_iff, length, if◌then◌else◌, arith, Option-cases, inl, inr,
}
use net_serve.Http.Request.{Method, get, post, put, delete, patch, head, options, unknown}
use net_serve.Http.Routes.{
  Route, Table, same_method, matches, add_route, remove_route, unlink, find_route,
}

same_method_iff : (a b : Method) → (same_method a b ≡ true) ↔ (a ≡ b)
same_method_iff get b = ground arith
same_method_iff post b = ground arith
same_method_iff put b = ground arith
same_method_iff delete b = ground arith
same_method_iff patch b = ground arith
same_method_iff head b = ground arith
same_method_iff options b = ground arith
same_method_iff unknown b = ground arith

module _ {H : Type 0} where
  -- The routes of one method and path, the newest first.
  unfoldable pub stack : Method → Bytes → List (Route H) → List (Route H)
  stack m p [] = []
  stack m p (r ∷ rs) = let rest = stack m p rs in if matches m p r then r ∷ rest else rest

  abbrev pub top : List (Route H) → Option (Route H)
  top [] = none
  top (r ∷ rs) = some r

  abbrev pub pop : List (Route H) → List (Route H)
  pop [] = []
  pop (r ∷ rs) = rs

  find_route-stack :
      (m : Method) (p : Bytes) (rs : List (Route H)) → find_route m p rs ≡ top (stack m p rs)
  unfolding find_route stack
  find_route-stack m p [] = refl
  find_route-stack m p (r ∷ rs) = ground (arith, find_route-stack m p rs)

  -- What removing makes of the list, if it finds anything.
  abbrev after_unlink : List (Route H) → Option (List (Route H)) → List (Route H)
  after_unlink rs none = rs
  after_unlink rs (some rs') = rs'

  matches_key :
      (m k : Method) (p q : Bytes) (r : Route H)
      → ((same_method m k && str_eq p q) ≡ true → matches m p r ≡ matches k q r)
        × ((same_method m k && str_eq p q) ≡ false → matches m p r ≡ true → matches k q r ≡ false)
  matches_key m k p q r = (
    λ e. ground (
      arith,
      same_method_iff m k,
      same_method_iff r.method m,
      same_method_iff r.method k,
      str_eq_iff p q,
      str_eq_iff r.path p,
      str_eq_iff r.path q,
    ),
    λ e f. ground (
      arith,
      same_method_iff m k,
      same_method_iff r.method m,
      same_method_iff r.method k,
      str_eq_iff p q,
      str_eq_iff r.path p,
      str_eq_iff r.path q,
    ),
  )

  stack-unlink :
      (m k : Method) (p q : Bytes) (rs : List (Route H))
      → stack k q (after_unlink rs (unlink m p rs))
        ≡ (if same_method m k && str_eq p q then pop (stack k q rs) else stack k q rs)
  unfolding stack unlink
  stack-unlink m k p q [] = ground arith
  stack-unlink m k p q (r ∷ rs) = elim (Option-cases (unlink m p rs)) [
    | inl e ↦ ground (arith, e, stack-unlink m k p q rs, matches_key m k p q r)
    | inr (rs', e) ↦ ground (arith, e, stack-unlink m k p q rs, matches_key m k p q r)
  ]

  length-unlink :
      (m : Method) (p : Bytes) (rs : List (Route H)) {rs' : List (Route H)}
      → unlink m p rs ≡ some rs'
      → length rs ≡ length rs' + 1
  unfolding unlink
  length-unlink m p [] h = cc
  length-unlink m p (r ∷ rs) h = elim (Option-cases (unlink m p rs)) [
    | inl e ↦ ground arith
    | inr (ss, e) ↦ ground (arith, length-unlink m p rs e)
  ]

  unlink-none :
      (m : Method) (p : Bytes) (rs : List (Route H)) → (unlink m p rs ≡ none) ↔ (stack m p rs ≡ [])
  unfolding unlink stack
  unlink-none m p [] = ground arith
  unlink-none m p (r ∷ rs) = elim (Option-cases (unlink m p rs)) [
    | inl e ↦ ground (arith, e, unlink-none m p rs)
    | inr (ss, e) ↦ ground (arith, e, unlink-none m p rs)
  ]

  -- The count of the routes is their number.
  abbrev pub IsCounted : Table H → Type 0
  IsCounted t = t.route_count ≡ length t.routes

  remove_stack :
      (m k : Method) (p q : Bytes) (t : Table H)
      → stack k q (remove_route m p t).1.routes
        ≡ (if same_method m k && str_eq p q then pop (stack k q t.routes) else stack k q t.routes)
  unfolding remove_route
  remove_stack m k p q t = elim (Option-cases (unlink m p t.routes)) [
    | inl e ↦ ground (arith, e, stack-unlink m k p q t.routes)
    | inr (rs, e) ↦ ground (arith, e, stack-unlink m k p q t.routes)
  ]

  remove-IsCounted :
      (m : Method) (p : Bytes) (t : Table H) → IsCounted t → IsCounted (remove_route m p t).1
  unfolding remove_route
  remove-IsCounted m p t c = elim (Option-cases (unlink m p t.routes)) [
    | inl e ↦ ground (arith, e)
    | inr (rs, e) ↦ ground (arith, e, length-unlink m p t.routes e)
  ]

  remove_fails :
      (m : Method) (p : Bytes) (t : Table H)
      → ((remove_route m p t).0 ≡ false) ↔ (stack m p t.routes ≡ [])
  unfolding remove_route
  remove_fails m p t = elim (Option-cases (unlink m p t.routes)) [
    | inl e ↦ ground (arith, e, unlink-none m p t.routes)
    | inr (rs, e) ↦ ground (arith, e, unlink-none m p t.routes)
  ]

  -- The table holds a stack of routes for each method and path. A request gets the top of its stack.
  -- Adding pushes on the stack of its method and path, and on no other; removing pops that one and no
  -- other, and fails just if it is empty. Both keep the count of the routes.
  pub route_table_lem :
      (m k : Method) (p q : Bytes) (h : H) (t : Table H)
      → IsCounted t
      → (find_route k q t.routes ≡ top (stack k q t.routes))
        × (stack k q (add_route true m p h t).1.routes ≡ (
            if same_method m k && str_eq p q
            then record { method = m; path = p; handler = h } ∷ stack k q t.routes
            else stack k q t.routes))
        × IsCounted (add_route true m p h t).1
        × (stack k q (remove_route m p t).1.routes ≡ (
            if same_method m k && str_eq p q then pop (stack k q t.routes) else stack k q t.routes))
        × IsCounted (remove_route m p t).1
        × (((remove_route m p t).0 ≡ false) ↔ (stack m p t.routes ≡ []))
  unfolding add_route remove_route stack
  route_table_lem m k p q h t c = (
    find_route-stack k q t.routes,
    refl,
    omega (arith, c),
    remove_stack m k p q t,
    remove-IsCounted m p t c,
    remove_fails m p t,
  )
