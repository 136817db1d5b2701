-- ===== src/Tree/Default/Named.antt =====
-- src/handler/tree_router.rs, src/handler/variables.rs: routes of a `DefaultRouter` with named variables.
use rustful.Base.{List, Bytes, length}
use rustful.Route.{RouteState}
use rustful.Tree.Search.Loop.{state}
use rustful.Tree.Build.Kept.{kept, count}

-- the route state at the end of a request with the segments `r` that fits the pattern `p`
abbrev pub fitted : List Bytes → List Bytes → RouteState
fitted p r = state r (kept p 0) (length r) (count p 0)
