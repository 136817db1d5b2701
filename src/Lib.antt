-- ===== src/Lib.antt =====
-- rustful: the routing and sending core of the web framework.
--
-- A request goes through these parts. The server parses its URI, lets the context filters change
-- its context and hands an environment (context, response and route state) to its handler, in
-- general a tree of routers. `TreeRouter` walks the segments of the path, `MethodRouter` and
-- `StatusRouter` choose by method and by status, `OrElse` tries a second handler, and `Variables`
-- names the segments that the walk kept. A handler sends a `Response`, whose headers and body pass
-- through the response filters.
--
-- Files and the code that they model:
--   Text (src/context/maybe_utf8.rs): `MaybeUtf8` and its buffer. A Rust string is its bytes;
--     Text/Utf8 states UTF-8 as the standard library has it, Text/Truth is about the constructor
--     and the bytes, Text/Conversions about strings.
--   Route (src/handler/routing.rs): `segments`, `RouteState`, `VariableIter`. The iterator of
--     pieces is the list of pieces that it yields.
--   Http (src/context/mod.rs, src/context/hypermedia.rs, src/response.rs, src/filter.rs,
--     src/handler/mod.rs): the data of a request, the state of a response, filters, the
--     environment; Http/Order is the order of hyperlinks and of texts, their equality and
--     which links a handler gets.
--   Handler (src/handler/mod.rs): the traits of handlers as records, with the instances for plain
--     handlers and for `Option`; Handler/Factories is `ContentFactory`.
--   Tree (src/handler/tree_router.rs): `TreeRouter` and `handle_request`. The hash map of static
--     routes is a list of entries in the order of iteration. Tree/Search is the reference search,
--     Tree/Search/Loop relates the loop to it, Tree/Search/Reach says which nodes a path leads to,
--     Tree/Search/Gather collects all findings for a router that looks for hyperlinks, and
--     Tree/Request has `handle_request` with its fuel; Tree/Request/Asking is the reference for the
--     links that are offered and the handlers that are asked.
--     Tree/Traverse is `apply_context`, `prepend_context` and `merge`, Tree/Build the builder.
--     Tree/Default is `DefaultRouter`, the tree of method routers with named variables, and
--     Tree/Default/Reference the table of paths and methods that a list of routes stands for.
--     Where a builder lends out a node, the model takes the change of the node as a function.
--   Method, Status, OrElse, Names (src/handler/method_router.rs, status_router.rs, or_else.rs,
--     variables.rs): the other handlers.
--   Response (src/response.rs): the passes through the filters; Response/Sized is `send_sized`, its
--     callers and the drop of a response, Response/Chunked and Response/Writers a response that is
--     sent in chunks, Response/Raw one of a fixed length, Response/Contents what can be sent, and
--     Response/Files sending of files and its errors.
--   File (src/file.rs): `check_path` on the components of Unix paths, and `ext_to_mime`.
--   MimeTable (build/mime.rs): the table of MIME types that the build script makes of a file, up to
--     `ext_to_mime` in it.
--   Examples (examples/): the programs that use the library. Examples/Filters (examples/filters.rs)
--     has filters of requests and of responses, Examples/Todo (examples/todo.rs) a table behind requests.
--   Parameters (src/context/parameters.rs): the map of parameters and its conversions. A key is its
--     bytes.
--   Body (src/context/body.rs): `BodyReader`, `read_query_body` and the request for a form.
--   Config (src/server/config.rs, src/server/mod.rs): `Host`, `Global`, `Server` and the
--     `ServerInstance` that is built from it.
--   Uri (src/server/instance.rs, src/utils.rs): `parse_path`, `parse_url` and `parse_parameters`.
--   Server (src/server/instance.rs, src/filter.rs): `ServerInstance`, the context filters and
--     `handle`; Server/Routed and Server/Listed are servers with a default router.
--   Sample: a small instance of everything, for the files called Tests.
--   Base: shared helpers. Base/Maps is a hash map as a list of entries.
--
-- Hyper, anymap and the handlers of users are parameters, in the record `World` of Http, `Handles`
-- and `BuilderContexts` of Handler, `Sending` and `Streaming` of Response, `UrlLibrary` of Uri and
-- `HeaderLibrary` of Server; so are the file system (`FileSystem`), the readers of bodies
-- (`BodyLibrary`), typed maps (`AnyMaps`), MIME types with the generated table (`MimeLibrary`), what
-- the compiler makes of generated string literals (`MimeCrate`) and `FromStr`. `BuilderContexts`,
-- `AnyMaps`, `FreshLaws`, `StatusLaw`, `Encoder`, `Collects`, `LossyLaws` and `LiteralLaw` state what
-- is used of them: a typed map gives back what was put in, writing back what was read changes
-- nothing, a status that was set is read back, what an encoder writes is decoded, a stream has got
-- what was written to it, a lossy conversion borrows the valid bytes and makes valid ones of others,
-- and text without special characters stands for itself in a string literal.
--
-- Assertions of debug builds are left out of the definitions; the one of `VariableIter` on its
-- indices is a hypothesis of the theorem on it.
--
-- Bounds. The loop of the tree router runs on fuel, one unit for each frame that is popped; the
-- fuel is `cost_all` of the number of segments plus one, which counts the frames that can come from
-- a node with that many segments to go. `variables` runs its iterator once more than there are
-- values. Reading a body to its end runs on fuel, one unit for each call of the reader. Lengths and
-- indices are natural numbers, since a path in memory is shorter than the largest machine integer.
--
-- Not modelled: the start of a server, which calls hyper; the texts of errors; macros, and
-- the other examples.
pub mod Base
pub mod Body
pub mod Config
pub mod Examples
pub mod File
pub mod Handler
pub mod Http
pub mod Method
pub mod MimeTable
pub mod Names
pub mod OrElse
pub mod Parameters
pub mod Response
pub mod Route
pub mod Sample
pub mod Server
pub mod Status
pub mod Text
pub mod Tree
pub mod Uri
