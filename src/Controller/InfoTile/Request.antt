-- ===== src/Controller/InfoTile/Request.antt =====
-- `doHTTPRequest` of internal/controller/dashboard/infotile_controller.go. Package `net/url`, the
-- HTTP client and JSON are parameters.
use cupboard.Prelude.{List, [], ◌∷◌, Option, none, some, Result, ok, err, if◌then◌else◌, ◌++◌}
use cupboard.Prelude.Int.{ℤ}
use cupboard.Text.{Text, codes, ◌==◌}
use cupboard.Text.Search.{contains}
use cupboard.Any.{Any}
use cupboard.GoMap.{GoMap, lookup, insert}
use cupboard.Kube.InfoTile.{InfoTileHttpRequest, NameValue}

-- `processorResponse`
pub record ProcessorResponse : Type 0 where
  pub code : ℤ
  pub body : Text
  pub data_value : Option Any

-- A parsed `url.URL`: `Query()`, and `String()` once `RawQuery` is set.
pub record Url : Type 0 where
  pub query : GoMap (List Text)
  pub with_query : Text → Text

-- The request, with the headers that are added to it, and the answer of a server, with what reading
-- its body returns.
pub record TileRequest : Type 0 where
  pub method : Text
  pub url : Text
  pub body : Option Text
  pub headers : List NameValue

pub record TileAnswer : Type 0 where
  pub status_code : ℤ
  pub content_type : Text
  pub body : Result Text Text

pub record TileClient : Type 0 where
  -- `strings.ToUpper`, and the verb %q
  pub to_upper : Text → Text
  pub quote : Text → Text
  pub parse_url : Text → Result Text Url
  -- `Encode` of `url.Values`
  pub encode : GoMap (List Text) → Text
  -- the error of `NewRequestWithContext`, and `Do`
  pub request_error : TileRequest → Option Text
  pub send : TileRequest → Result Text TileAnswer
  -- `none` for an error and for null
  pub unmarshal : Text → Option Any

unfoldable pub values_of : Option (List Text) → List Text
values_of none = []
values_of (some values) = values

-- The loop of `q.Add`.
unfoldable pub add_params : List NameValue → GoMap (List Text) → GoMap (List Text)
add_params [] q = q
add_params (p ∷ ps) q =
    add_params ps (insert p.name (values_of (lookup p.name q) ++ p.value ∷ []) q)

unfoldable pub queried : TileClient → Text → List NameValue → Result Text Url → Result Text Text
queried c raw params (err e) = err (codes "parse URL " ++ c.quote raw ++ codes ": " ++ e)
queried c raw params (ok parsed) =
    ok (parsed.with_query (c.encode (add_params params parsed.query)))

unfoldable pub url_with : TileClient → Text → List NameValue → Result Text Text
unfolding queried
url_with c raw [] = ok raw
url_with c raw (p ∷ ps) = queried c raw (p ∷ ps) (c.parse_url raw)

-- The request to a URL.
unfoldable pub tile_request : TileClient → InfoTileHttpRequest → Text → TileRequest
tile_request c req url = record {
  method = let upper = c.to_upper req.method in if upper == codes "" then codes "GET" else upper;
  url = url;
  body = if req.body == codes "" then none else some req.body;
  headers = req.headers;
}

unfoldable pub read_answer :
    TileClient → TileAnswer → Result Text Text → Result Text ProcessorResponse
read_answer c answer (err e) = err (codes "read response body: " ++ e)
read_answer c answer (ok body) = ok (record {
  code = answer.status_code;
  body = body;
  data_value =
      if contains answer.content_type (codes "application/json") then c.unmarshal body else none;
})

unfoldable pub answered : TileClient → Result Text TileAnswer → Result Text ProcessorResponse
unfolding read_answer
answered c (err e) = err (codes "do request: " ++ e)
answered c (ok answer) = read_answer c answer answer.body

-- `NewRequestWithContext`, and then `Do`.
unfoldable pub sent : TileClient → TileRequest → Option Text → Result Text ProcessorResponse
unfolding answered
sent c req (some e) = err (codes "build request: " ++ e)
sent c req none = answered c (c.send req)

unfoldable pub asked :
    TileClient → InfoTileHttpRequest → Result Text Text → Result Text ProcessorResponse
unfolding sent
asked c req (err e) = err e
asked c req (ok url) = sent c (tile_request c req url) (c.request_error (tile_request c req url))

-- `doHTTPRequest`
unfoldable pub do_http_request : TileClient → InfoTileHttpRequest → Result Text ProcessorResponse
unfolding asked
do_http_request c req = asked c req (url_with c req.url req.query_params)
