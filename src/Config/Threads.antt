-- ===== src/Config/Threads.antt =====
-- src/server/mod.rs and src/server/instance.rs: the number of threads of a server.
use rustful.Base.{ℕ, ◌*◌, ◌≤◌, ◌<◌, ◌≡◌, none, arith}
use rustful.Http.{World}
use rustful.Server.{word}
use rustful.Config.{Server, build, default_threads}

default_threads-bounds :
    (cpus : ℕ)
    → cpus * 5 < word
    → (cpus ≤ default_threads cpus) × (default_threads cpus * 4 ≤ cpus * 5)
unfolding default_threads
default_threads-bounds cpus lt = (omega arith, omega arith)

-- A server without a number of threads gets at least as many threads as there are processors, and at most
-- five for four processors, if five times the number of processors is a machine word.
pub build-threads :
    {w : World} {Mime Duration T : Type 0} (cpus : ℕ) (config : Server w Mime Duration T)
    → config.threads ≡ none
    → cpus * 5 < word
    → (cpus ≤ (build cpus config).instance_of.threads)
      × ((build cpus config).instance_of.threads * 4 ≤ cpus * 5)
unfolding build
build-threads cpus config e lt = rw e (default_threads-bounds cpus lt)
