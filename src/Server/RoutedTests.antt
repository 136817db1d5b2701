-- ===== src/Server/RoutedTests.antt =====
-- A server with a default router of two routes at a concrete request.
use rustful.Base.{ℕ, ◌+◌, map, none, [], ◌∷◌, Bytes}
use rustful.Sample.{world, shifted}
use rustful.Tree.Default.{DefaultRouter}
use rustful.Server.{Request, absolute_path, ServerInstance}
use rustful.Tree.DefaultTests.{after}
use rustful.Server.Tests.{pass, get_root}

abbrev routing_server : ServerInstance world (DefaultRouter world ℕ)
routing_server = record {
  handlers = after.node;
  threads = 4;
  keep_alive = none;
  threads_in_use = 0;
  context_filters = pass ∷ [];
  response_filters = [];
  global = tt;
}

-- "/a/c", in the code of the sample
abbrev a_c_path : Bytes
a_c_path = map (λ b. b + 100) (b'/' ∷ b'a' ∷ b'/' ∷ b'c' ∷ [])

abbrev get_a_c : Request world shifted
get_a_c = record get_root { uri = absolute_path a_c_path; method = 2 }
