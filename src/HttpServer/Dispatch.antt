-- ===== src/HttpServer/Dispatch.antt =====
-- src/http_server.c: `http_server_callback_dispatch` runs the callback of the first route that answers
-- for the address.
use mathlib.Core.List.{append_assoc}
use mathlib.Core.Path.{subst}
use sleepytext.Prelude.{
  ℕ, suc, ◌+◌, ◌^◌, ◌<◌, ◌≡◌, refl, sym, ap, ◌∙◌, true, false, some, List, [], ◌∷◌, ◌++◌, ◌&&◌, ltb,
  leb, ◌==◌, length, length-append, get_elem?, set, if◌then◌else◌, inl, inr, Bool-cases, arith,
}
use sleepytext.Memory.{Mem}
use sleepytext.Memory.Holds.{Holds}
use sleepytext.Bytes.{bs}
use sleepytext.Bytes.Find.First.{Lacks}
use sleepytext.Http.{HttpRequest, http_result, http_not_found}
use sleepytext.System.{return, done}
use sleepytext.HttpServer.{
  Handler, HttpCallbackPair, HttpServer, slot, dispatch_loop, http_server_callback_dispatch,
  http_server_add_callback,
}
use sleepytext.HttpServer.Routes.{is_prefix, route_matches, bsame-address, bsame-slice}

-- A path with its callback.
pub record Route (W : Type 0) : Type 0 where
  pub path : List ℕ
  pub fun : Handler W

-- The paths hold no space, and their lengths fit in `size_t`.
abbrev pub AreRoutes : {W : Type 0} → List (Route W) → Type 0
AreRoutes [] = Unit
AreRoutes (r ∷ routes) = (Lacks b' ' r.path × (length r.path < 2 ^ 64)) × AreRoutes routes

module _ {W : Type 0} where
  -- The callback of the first route that answers for the address.
  abbrev pub answer : List (Route W) → List ℕ → Handler W
  answer [] addr request = return (http_result http_not_found)
  answer (r ∷ routes) addr request =
      let rest = answer routes addr request in
      if route_matches r.path addr then r.fun request else rest

  abbrev pub table : List (Route W) → List (HttpCallbackPair W)
  table [] = []
  table (r ∷ routes) = record { fun = r.fun; addr = bs r.path } ∷ table routes

  get_elem?-table :
      (front : List (HttpCallbackPair W)) (x : HttpCallbackPair W)
      (back : List (HttpCallbackPair W))
      → get_elem? (front ++ x ∷ back) (length front) ≡ some x
  get_elem?-table [] x back = refl
  get_elem?-table (y ∷ front) x back = get_elem?-table front x back

  slot_found :
      (s : HttpServer W) (i : ℕ) (x : HttpCallbackPair W) (m : Mem) (w : W)
      → get_elem? s.callback i ≡ some x
      → slot s i m w ≡ done x m w
  unfolding slot
  slot_found s i x m w e = rw (slot, e) refl

  dispatch_loop-answer :
      (routes : List (Route W)) (front rest : List (HttpCallbackPair W)) (s : HttpServer W)
      (request : HttpRequest) (addr : List ℕ) (i : ℕ) {m : Mem} (w : W)
      → AreRoutes routes
      → Holds m request.addr.ptr (addr ++ b' ' ∷ [])
      → request.addr.len ≡ length addr
      → s.callback ≡ front ++ (table routes ++ rest)
      → i ≡ length front
      → dispatch_loop (length routes) s request i m w ≡ answer routes addr request m w
  unfolding dispatch_loop
  dispatch_loop-answer [] front rest s request addr i w good h n is at = refl
  dispatch_loop-answer (r ∷ routes) front rest s request addr i {m} w good h n is at =
      let x : HttpCallbackPair W = record { fun = r.fun; addr = bs r.path } in
      let found =
        slot_found s i x m w (rw (is, at) (get_elem?-table front x (table routes ++ rest))) in
      let ih =
        dispatch_loop-answer routes (front ++ x ∷ []) rest s request addr (i + 1) {m = m} w good.1 h
          n (is ∙ sym (append_assoc front (x ∷ []) (table routes ++ rest)))
          (rw (at, length-append) (omega arith)) in
      let (z, ran, is_z) = bsame-address r.path addr request.addr good.0.0 h n in
      elim (Bool-cases (is_prefix r.path addr && length addr == length r.path)) [
        | inl same ↦
            let matches : route_matches r.path addr ≡ true = ground arith in
            rw (found, ran, is_z, same, matches) refl
        | inr other ↦ elim (Bool-cases (ltb 1 (length r.path))) [
          | inl long ↦
              let (z', ran', is_z') =
                bsame-slice r.path addr request.addr good.0.0 h n (ground arith) good.0.1 in
              let not_short : leb (length r.path) 1 ≡ false = ground arith in
              let matches : route_matches r.path addr ≡ is_prefix r.path addr = ground arith in
              rw (found, ran, is_z, other, not_short, ran', is_z', matches)
                (elim (Bool-cases (is_prefix r.path addr)) [ inl p ↦ rw p refl | inr p ↦ rw p ih ])
          | inr short ↦
              let is_short : leb (length r.path) 1 ≡ true = ground arith in
              let matches : route_matches r.path addr ≡ false = ground arith in
              rw (found, ran, is_z, other, is_short, matches) ih
        ]
      ]

  -- Where the callbacks of a server are those of a list of routes, whose paths hold no space, and a
  -- space stands behind the address of the request, http_server_callback_dispatch runs the callback
  -- of the first route whose path is the address, or has two bytes or more and begins it; where
  -- there is none, it answers that nothing was found.
  pub http_server_callback_dispatch-answer :
      (routes : List (Route W)) (rest : List (HttpCallbackPair W)) (s : HttpServer W)
      (request : HttpRequest) (addr : List ℕ) {m : Mem} (w : W)
      → AreRoutes routes
      → s.callback ≡ table routes ++ rest
      → s.callbacks ≡ length routes
      → Holds m request.addr.ptr (addr ++ b' ' ∷ [])
      → request.addr.len ≡ length addr
      → http_server_callback_dispatch s request m w ≡ answer routes addr request m w
  unfolding http_server_callback_dispatch
  http_server_callback_dispatch-answer routes rest s request addr {m} w good is count h n =
      subst (λ k. dispatch_loop k s request 0 m w ≡ answer routes addr request m w) (sym count)
        (dispatch_loop-answer routes [] rest s request addr 0 w good h n is refl)

  set-table :
      (front : List (HttpCallbackPair W)) (old new : HttpCallbackPair W)
      (back : List (HttpCallbackPair W))
      → set (front ++ old ∷ back) (length front) new ≡ front ++ new ∷ back
  set-table [] old new back = refl
  set-table (y ∷ front) old new back = ap (◌∷◌ y) (set-table front old new back)

  table-append :
      (routes : List (Route W)) (r : Route W) (back : List (HttpCallbackPair W))
      → table routes ++ record { fun = r.fun; addr = bs r.path } ∷ back
        ≡ table (routes ++ r ∷ []) ++ back
  table-append [] r back = refl
  table-append (x ∷ routes) r back =
      ap (◌∷◌ (record { fun = x.fun; addr = bs x.path })) (table-append routes r back)

  length-table : (routes : List (Route W)) → length (table routes) ≡ length routes
  length-table [] = refl
  length-table (r ∷ routes) = ap suc (length-table routes)

  -- The array of the server begins with the routes and goes on with `rest`.
  abbrev pub IsFilled : HttpServer W → List (Route W) → List (HttpCallbackPair W) → Type 0
  IsFilled s routes rest = (s.callback ≡ table routes ++ rest) × (s.callbacks ≡ length routes)

  pub http_server_add_callback-IsFilled :
      (routes : List (Route W)) (r : Route W) (old : HttpCallbackPair W)
      (rest : List (HttpCallbackPair W)) (s : HttpServer W) (m : Mem) (w : W)
      → IsFilled s routes (old ∷ rest)
      → (s' : HttpServer W) × (http_server_add_callback s
            (record { fun = r.fun; addr = bs r.path })
            m
            w
          ≡ done s' m w)
        × IsFilled s' (routes ++ r ∷ []) rest
  unfolding http_server_add_callback
  http_server_add_callback-IsFilled routes r old rest s m w (is, count) =
      let new : HttpCallbackPair W = record { fun = r.fun; addr = bs r.path } in
      let place : s.callbacks ≡ length (table routes) = count ∙ sym (length-table routes) in
      let free : get_elem? s.callback s.callbacks ≡ some old =
        rw (is, place) (get_elem?-table (table routes) old rest) in
      let s' : HttpServer W = record {
        callback = set s.callback s.callbacks new;
        callbacks = s.callbacks + 1;
      } in
      (
        s',
        rw (http_server_add_callback, free) refl,
        (
          rw (is, place) (set-table (table routes) old new rest ∙ table-append routes r rest),
          rw (count, length-append) (omega arith),
        ),
      )

  AreRoutes-append :
      (routes : List (Route W)) (r : Route W)
      → AreRoutes routes
      → AreRoutes (r ∷ [])
      → AreRoutes (routes ++ r ∷ [])
  AreRoutes-append [] r good one = one
  AreRoutes-append (x ∷ routes) r good one = (good.0, AreRoutes-append routes r good.1 one)

  -- Where a slot of the array is free, http_server_add_callback puts a route behind those that are
  -- there: the server answers as the longer list of routes does.
  pub http_server_add_callback-answer :
      (routes : List (Route W)) (r : Route W) (old : HttpCallbackPair W)
      (rest : List (HttpCallbackPair W)) (s : HttpServer W) (request : HttpRequest) (addr : List ℕ)
      {m : Mem} (w : W)
      → AreRoutes routes
      → AreRoutes (r ∷ [])
      → s.callback ≡ table routes ++ old ∷ rest
      → s.callbacks ≡ length routes
      → Holds m request.addr.ptr (addr ++ b' ' ∷ [])
      → request.addr.len ≡ length addr
      → (s' : HttpServer W) × (http_server_add_callback s
            (record { fun = r.fun; addr = bs r.path })
            m
            w
          ≡ done s' m w)
        × (http_server_callback_dispatch s' request m w
            ≡ answer (routes ++ r ∷ []) addr request m w)
  http_server_add_callback-answer routes r old rest s request addr {m} w good one is count h n =
      let (s', ran, filled) =
        http_server_add_callback-IsFilled routes r old rest s m w (is, count) in
      (
        s',
        ran,
        http_server_callback_dispatch-answer (routes ++ r ∷ []) rest s' request addr {m = m} w
            (AreRoutes-append routes r good one) filled.0 filled.1 h n,
      )
