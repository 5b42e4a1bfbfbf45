-- ===== src/Start/Table.antt =====
-- src/server.c: the table of callbacks that `main` fills, and the callback that answers an address.
use mathlib.Core.List.{append_assoc, append-nil}
use sleepytext.Prelude.{ℕ, ◌≤◌, ◌≡◌, refl, true, List, [], ◌∷◌, ◌++◌, ltb, length, arith}
use sleepytext.Prelude.Int.{ℤ}
use sleepytext.Prelude.Text.{codes}
use sleepytext.Memory.{Mem}
use sleepytext.Memory.Holds.{Holds}
use sleepytext.Http.{HttpRequest}
use sleepytext.HttpServer.{HttpCallbackPair, HttpServer, http_server_callback_dispatch}
use sleepytext.HttpServer.Dispatch.{
  Route, AreRoutes, table, answer, IsFilled, http_server_add_callback-IsFilled,
  http_server_callback_dispatch-answer,
}
use sleepytext.Server.Branches.{http_callback_branches, http_callback_newbranch}
use sleepytext.Server.Feed.{http_callback_feed}
use sleepytext.Server.Pages.{http_callback_root, http_callback_branch, http_callback_void}
use sleepytext.Server.Sql.{Sqlite}
use sleepytext.Server.Users.{http_callback_login, http_callback_user}
use sleepytext.Start.{add_callbacks, pairs}
use sleepytext.System.{done}
use sleepytext.System.Files.{Files}

module _ {W : Type 0} where
  -- The paths are not empty.
  abbrev AreNamed : List (Route W) → Type 0
  AreNamed [] = Unit
  AreNamed (r ∷ routes) = (ltb 0 (length r.path) ≡ true) × AreNamed routes

  -- The pair with an empty path
  abbrev end_pair : Route W
  end_pair = record { path = []; fun = http_callback_void }

  pub add_callbacks-IsFilled :
      (todo before : List (Route W)) (slots : List (HttpCallbackPair W)) (s : HttpServer W)
      (m : Mem) (w : W)
      → AreNamed todo
      → length todo ≤ length slots
      → IsFilled s before slots
      → (s' : HttpServer W) × (add_callbacks (table (todo ++ end_pair ∷ [])) s m w ≡ done s' m w)
        × (rest : List (HttpCallbackPair W)) × IsFilled s' (before ++ todo) rest
  unfolding add_callbacks
  add_callbacks-IsFilled [] before slots s m w named room filled =
      (s, refl, slots, rw (append-nil before) filled)
  add_callbacks-IsFilled (r ∷ todo) before [] s m w named room filled = absurd (omega arith)
  add_callbacks-IsFilled (r ∷ todo) before (old ∷ slots) s m w named room filled =
      let (s1, ran, filled1) = http_server_add_callback-IsFilled before r old slots s m w filled in
      let (s', ran', rest, filled') =
        add_callbacks-IsFilled todo (before ++ r ∷ []) slots s1 m w named.1 (omega arith) filled1 in
      (s', rw (named.0, ran) ran', rest, rw (append_assoc before (r ∷ []) todo) at filled')

  module _ (files : Files W) (db : Sqlite W) (scan : List ℕ → List ℤ) (stack : ℕ → ℤ)
      (fuel : ℕ) where
    -- What `main` promises: which callback stands behind which path.
    abbrev pub main_routes : List (Route W)
    main_routes =
        record { path = codes "/"; fun = http_callback_root files }
        ∷ record { path = codes "/api/0/newbranch"; fun = http_callback_newbranch db scan stack }
        ∷ record { path = codes "/api/0/branch/"; fun = http_callback_branch files }
        ∷ record { path = codes "/api/0/branches"; fun = http_callback_branches db fuel }
        ∷ record { path = codes "/api/0/feed"; fun = http_callback_feed files fuel }
        ∷ record { path = codes "/api/0/user"; fun = http_callback_user db }
        ∷ record { path = codes "/api/0/login"; fun = http_callback_login db }
        ∷ []

    pub main_AreRoutes : AreRoutes main_routes
    main_AreRoutes = ground arith

    -- On a new server with no callbacks and 7 free slots or more, `main` adds the callbacks of its list,
    -- and the server then answers a request, behind whose address a space stands, by the first callback
    -- of the list whose path is the address, or has two bytes or more and begins it; where there is none,
    -- it answers that nothing was found.
    pub add_callbacks-answer :
        (s : HttpServer W) (request : HttpRequest) (addr : List ℕ) {m : Mem} (w : W)
        → s.callbacks ≡ 0
        → 7 ≤ length s.callback
        → Holds m request.addr.ptr (addr ++ b' ' ∷ [])
        → request.addr.len ≡ length addr
        → (s' : HttpServer W) × (add_callbacks (pairs files db scan stack fuel) s m w ≡ done s' m w)
          × (http_server_callback_dispatch s' request m w ≡ answer main_routes addr request m w)
    unfolding pairs
    add_callbacks-answer s request addr {m} w none_yet room h n =
        let (s', ran, rest, filled) =
          add_callbacks-IsFilled main_routes [] s.callback s m w (ground arith) room
            (refl, none_yet) in
        (
          s',
          ran,
          http_server_callback_dispatch-answer main_routes rest s' request addr {m = m} w
              main_AreRoutes filled.0 filled.1 h n,
        )
