-- ===== src/Sample.antt =====
-- A small program around the library, for the tests and examples: numbers for methods, handlers,
-- statuses and headers; a handler shows its number and the variables that it got.
use rustful.Base.{
  ℕ, ◌-◌, map, suc, refl, Option, none, some, List, [], ◌∷◌, Bytes, ℕ_discrete, false,
}
use rustful.Route.{route_state}
use rustful.Http.{
  World, Parameters, Response, Environment, asterisk, new_response, ResponseFilter, next,
}
use rustful.Handler.{
  BuilderContexts, VariableNames, Handles, HandleRequest, handler_request, handler_hyperlinks,
  option_request, option_hyperlinks, ApplyContext, FromHandler, Merge, Default,
}
use rustful.Response.{Sending}
use rustful.Uri.{UrlLibrary}

abbrev pub world : World
world = record {
  Headers = ℕ;
  Method = ℕ;
  Version = Unit;
  Address = Unit;
  Body = Unit;
  Global = Unit;
  Storage = ℕ;
  Fresh = ℕ × ℕ;
  Handler = ℕ;
  Effect = ℕ × Parameters;
  method_discrete = ℕ_discrete;
  method_name = λ m. m ∷ [];
  no_headers = 0;
  no_storage = 0;
  fresh_status = λ r. r.0;
  set_fresh_status = λ r code. (code, r.1);
  fresh_headers = λ r. r.1;
  set_fresh_headers = λ r headers. (r.0, headers);
}

-- A context is the names that it holds.
abbrev pub contexts : BuilderContexts
contexts = record {
  BuilderContext = Option VariableNames;
  empty = none;
  insert = λ c names. some names;
  remove = λ c. (c, none);
  remove-empty = refl;
  remove-insert = λ c names. refl;
  remove-remove = λ c. refl;
}

abbrev pub handles : Handles world
handles = record { handle = λ h context response. (h, context.variables) }

abbrev pub plain : HandleRequest world ℕ
plain = record { handle_request = handler_request handles; hyperlinks = handler_hyperlinks handles }

abbrev pub optional : HandleRequest world (Option ℕ)
optional = record { handle_request = option_request plain; hyperlinks = option_hyperlinks plain }

abbrev pub keep_context : ApplyContext contexts (Option ℕ)
keep_context = record { apply_context = λ h context. h; prepend_context = λ h context. h }

abbrev pub some_handler : FromHandler contexts (Option ℕ) ℕ
some_handler = record { from_handler = λ context h. some h }

abbrev pub last_wins : Merge (Option ℕ)
last_wins = record { merge = λ this other. other }

abbrev pub no_handler : Default (Option ℕ)
no_handler = record { default = none }

abbrev pub response_at : ℕ → Response world
response_at code = new_response (code, 0) [] tt false

abbrev pub request : ℕ → ℕ → List Bytes → Environment world
request method code segments = record {
  context = record {
    headers = 0;
    http_version = tt;
    address = tt;
    method = method;
    uri_path = asterisk;
    hyperlinks = [];
    variables = [];
    query = [];
    fragment = none;
    global = tt;
    body = tt;
  };
  response = response_at code;
  route_state = route_state segments;
}

-- `f` counts the chunks in the storage and lets everything through.
abbrev pub counting : ResponseFilter world
counting = record {
  begin = λ s g code headers. record {
    status = code;
    action = next none;
    headers = headers;
    storage = s;
  };
  write = λ s g content. (next content, suc s);
  end = λ s g. (next none, s);
}

abbrev pub sending : Sending world
sending = record { IoError = ℕ; send = λ r body. none; set_close = λ headers. suc headers }

-- A code for bytes in place of the percent encoding: each byte is shifted by 100.
abbrev pub shifted : UrlLibrary
shifted = record {
  percent_decode = λ s. map (λ b. b - 100) s;
  Url = Unit;
  url_path = λ url. [];
  query_pairs = λ url. [];
  host_str = λ url. none;
  port = λ url. none;
  url_fragment = λ url. none;
}
