-- ===== src/Config.antt =====
-- src/server/config.rs and src/server/mod.rs: hosts, global data, and the configuration of a server.
pub mod Globals
pub mod Threads
mod Tests
use rustful.Base.{ℕ, ◌*◌, ◌/◌, ◌%◌, ◌≡◌, Option, none, some, List, [], ◌∷◌, Bytes, subst}
use rustful.Http.{World, ResponseFilter}
use rustful.Base.{Result, ok, err}
use rustful.Server.{ServerInstance, ContextFilter, word}

-- `SocketAddr` of the standard library; addresses are numbers
pub data SocketAddr : Type 0 where
  v4 : ℕ → ℕ → SocketAddr
  v6 : ℕ → ℕ → ℕ → ℕ → SocketAddr

abbrev pub Host : Type 0
Host = SocketAddr

unfoldable pub any_v4 : ℕ → Host
any_v4 port = v4 0 port

-- `Host::port`
unfoldable pub with_port : Host → ℕ → Host
with_port (v4 ip _) port = v4 ip port
with_port (v6 ip _ flowinfo scope_id) port = v6 ip port flowinfo scope_id

unfoldable pub from_pair : ℕ × ℕ → Host
from_pair (ip, port) = v4 ip port

unfoldable pub host_from_str : {E : Type 0} → (Bytes → Result SocketAddr E) → Bytes → Result Host E
host_from_str parse s = elim (parse s) [ ok addr ↦ ok addr | err e ↦ err e ]

-- The types that global data may have, by their ids, and the crate anymap, a map with at most one value of
-- each type. `raw_insert` takes the id beside the value. The laws are those of a map.
pub record AnyMaps : Type 1 where
  pub TypeId : Type 0
  pub id_discrete : Discrete TypeId
  pub Value : TypeId → Type 0
  pub Map : Type 0
  pub new_map : Map
  pub map_get : Map → (t : TypeId) → Option (Value t)
  pub map_insert : Map → (t : TypeId) → Value t → Option (Value t) × Map
  pub raw_insert : Map → (t : TypeId) → Value t → Map
  pub map_get-new : (t : TypeId) → map_get new_map t ≡ none
  pub map_insert-old : (m : Map) (t : TypeId) (v : Value t) → (map_insert m t v).0 ≡ map_get m t
  pub map_get-insert :
      (m : Map) (t : TypeId) (v : Value t) → map_get (map_insert m t v).1 t ≡ some v
  pub map_get-insert_other :
      (m : Map) (t s : TypeId) (v : Value t)
      → ¬ (t ≡ s)
      → map_get (map_insert m t v).1 s ≡ map_get m s
  pub map_get-raw : (m : Map) (t : TypeId) (v : Value t) → map_get (raw_insert m t v) t ≡ some v
  pub map_get-raw_other :
      (m : Map) (t s : TypeId) (v : Value t)
      → ¬ (t ≡ s)
      → map_get (raw_insert m t v) s ≡ map_get m s

module _ (a : AnyMaps) where
  -- `GlobalState`
  pub data Global : Type 0 where
    nothing : Global
    one : (t : a.TypeId) → a.Value t → Global
    many : a.Map → Global

module _ (a : AnyMaps) where
  -- a `downcast` to the type with the same id
  abbrev pub downcast : {t s : a.TypeId} → t ≡ s → a.Value t → a.Value s
  downcast p v = subst (λ x. a.Value x) p v

  unfoldable pub get : Global a → (t : a.TypeId) → Option (a.Value t)
  get nothing t = none
  get (one id v) t = elim (a.id_discrete id t) [ yes p ↦ some (downcast p v) | no p ↦ none ]
  get (many m) t = a.map_get m t

  abbrev pub insert_many : a.Map → (t : a.TypeId) → a.Value t → Option (a.Value t) × Global a
  insert_many m t v = ((a.map_insert m t v).0, many (a.map_insert m t v).1)

  -- The previous value of the type, and the new state; where the ids are equal, so are the types.
  unfoldable pub insert : Global a → (t : a.TypeId) → a.Value t → Option (a.Value t) × Global a
  insert nothing t v = (none, one t v)
  insert (one id previous) t v = elim (a.id_discrete id t) [
    | yes p ↦ (some (downcast p previous), one t v)
    | no p ↦ insert_many (a.raw_insert a.new_map id previous) t v
  ]
  insert (many m) t v = insert_many m t v

  -- `From` for tuples of up to twelve values, by their number
  abbrev pub insert_all : a.Map → List ((t : a.TypeId) × a.Value t) → a.Map
  insert_all m [] = m
  insert_all m ((t, v) ∷ tuple) = insert_all (a.map_insert m t v).1 tuple

  unfoldable pub from_tuple : List ((t : a.TypeId) × a.Value t) → Global a
  from_tuple [] = nothing
  from_tuple ((t, v) ∷ []) = one t v
  from_tuple (first ∷ second ∷ tuple) = many (insert_all a.new_map (first ∷ second ∷ tuple))

pub record KeepAlive (Duration : Type 0) : Type 0 where
  pub timeout : Duration
  pub free_threads : ℕ

-- five threads for four processors; the product wraps around
unfoldable pub default_threads : ℕ → ℕ
default_threads cpus = (cpus * 5) % word / 4

abbrev pub or_default : ℕ → Option ℕ → ℕ
or_default cpus none = default_threads cpus
or_default cpus (some threads) = threads

abbrev pub map_keep_alive :
    {Duration B : Type 0} → (KeepAlive Duration → B) → Option (KeepAlive Duration) → Option B
map_keep_alive f none = none
map_keep_alive f (some k) = some (f k)

-- The configuration. `text_html` is the content type `text/html; charset=UTF-8` of the crate mime.
module _ (w : World) (Mime Duration T : Type 0) where
  pub record Server : Type 0 where
    pub handlers : T
    pub host : Host
    pub threads : Option ℕ
    pub keep_alive : Option (KeepAlive Duration)
    pub server : Bytes
    pub content_type : Mime
    pub global : w.Global
    pub context_filters : List (ContextFilter w)
    pub response_filters : List (ResponseFilter w)

  -- A `ServerInstance` with the parts of it that only hyper and the default headers use.
  pub record Built : Type 0 where
    pub instance_of : ServerInstance w T
    pub address : SocketAddr
    pub timeout : Option Duration
    pub server_name : Bytes
    pub default_type : Mime

module _ {w : World} {Mime Duration T : Type 0} where
  -- `Server::new`
  unfoldable pub new_server : Mime → w.Global → T → Server w Mime Duration T
  unfolding any_v4
  new_server text_html default_global handlers = record {
    handlers = handlers;
    host = any_v4 80;
    threads = none;
    keep_alive = none;
    server = b'r' ∷ b'u' ∷ b's' ∷ b't' ∷ b'f' ∷ b'u' ∷ b'l' ∷ [];
    content_type = text_html;
    global = default_global;
    context_filters = [];
    response_filters = [];
  }

  -- `Server::build`, which is `ServerInstance::new`
  unfoldable pub build : ℕ → Server w Mime Duration T → Built w Mime Duration T
  unfolding default_threads
  build cpus config = record {
    instance_of = record {
      handlers = config.handlers;
      threads = or_default cpus config.threads;
      keep_alive = map_keep_alive (λ k. k.free_threads) config.keep_alive;
      threads_in_use = 0;
      context_filters = config.context_filters;
      response_filters = config.response_filters;
      global = config.global;
    };
    address = config.host;
    timeout = map_keep_alive (λ k. k.timeout) config.keep_alive;
    server_name = config.server;
    default_type = config.content_type;
  }
