-- ===== src/Controller/InfoTile/Laws.antt =====
-- The query of the request of a tile, and the response to it.
use cupboard.Prelude.{
  List, [], ◌∷◌, Option, none, some, Result, ok, err, if◌then◌else◌, ◌++◌, ◌≡◌, refl, arith,
  Bool-cases, inl, inr, sym, ◌∙◌, append_assoc, append-nil,
}
use cupboard.Text.{Text, ◌==◌, eq_iff}
use cupboard.GoMap.{GoMap, lookup, insert, lookup-insert}
use cupboard.Kube.InfoTile.{InfoTileHttpRequest, NameValue}
use cupboard.Controller.InfoTile.Request.{
  sent, asked, url_with, TileRequest, ProcessorResponse, TileClient, TileAnswer, Url, values_of,
  add_params, queried, tile_request, answered, read_answer, do_http_request,
}

-- The values of the parameters of a name.
abbrev pub named : Text → List NameValue → List Text
named key [] = []
named key (p ∷ ps) = let rest = named key ps in if p.name == key then p.value ∷ rest else rest

lookup-add_params :
    (key : Text) (ps : List NameValue) (q : GoMap (List Text))
    → values_of (lookup key (add_params ps q)) ≡ values_of (lookup key q) ++ named key ps
unfolding add_params values_of
lookup-add_params key [] q = sym (append-nil (values_of (lookup key q)))
lookup-add_params key (p ∷ ps) q =
    let values = values_of (lookup p.name q) ++ p.value ∷ [] in
    elim (Bool-cases (p.name == key)) [
      | inl e ↦
          let same : p.name ≡ key = (eq_iff p.name key).0 e in
          lookup-add_params key ps (insert p.name values q)
          ∙ rw (lookup-insert p.name key values q, e, same)
              (append_assoc (values_of (lookup key q)) (p.value ∷ []) (named key ps))
      | inr e ↦
          lookup-add_params key ps (insert p.name values q)
          ∙ rw (lookup-insert p.name key values q, e) refl
    ]

-- A query that has, for each name, the values of another and then those of the parameters.
abbrev pub IsQuery : GoMap (List Text) → List NameValue → GoMap (List Text) → Type 0
IsQuery before ps q =
    (key : Text) → values_of (lookup key q) ≡ values_of (lookup key before) ++ named key ps

-- A URL is the given one, or has such a query if there are parameters.
abbrev pub IsUrl : TileClient → Text → List NameValue → Text → Type 0
IsUrl c raw [] url = url ≡ raw
IsUrl c raw (p ∷ ps) url =
    (parsed : Url) × ((q : GoMap (List Text)) × ((c.parse_url raw ≡ ok parsed)
        × (IsQuery parsed.query (p ∷ ps) q × (url ≡ parsed.with_query (c.encode q)))))

queried-IsUrl :
    (c : TileClient) (raw : Text) (p : NameValue) (ps : List NameValue) (parsed : Result Text Url)
    (url : Text)
    → c.parse_url raw ≡ parsed
    → queried c raw (p ∷ ps) parsed ≡ ok url
    → IsUrl c raw (p ∷ ps) url
unfolding queried
queried-IsUrl c raw p ps (err e) url k h = absurd (ground arith)
queried-IsUrl c raw p ps (ok parsed) url k h = (
  parsed,
  (
    add_params (p ∷ ps) parsed.query,
    (k, (λ key. lookup-add_params key (p ∷ ps) parsed.query, ground arith)),
  ),
)

url_with-IsUrl :
    (c : TileClient) (raw : Text) (ps : List NameValue) (url : Text)
    → url_with c raw ps ≡ ok url
    → IsUrl c raw ps url
unfolding url_with
url_with-IsUrl c raw [] url h = ground arith
url_with-IsUrl c raw (p ∷ ps) url h = queried-IsUrl c raw p ps (c.parse_url raw) url refl h

-- A response is that of an answer of the client.
abbrev pub IsResponse : Result Text TileAnswer → ProcessorResponse → Type 0
IsResponse got response =
    (answer : TileAnswer) × ((got ≡ ok answer)
      × ((answer.status_code ≡ response.code) × (answer.body ≡ ok response.body)))

read_answer-ok :
    (c : TileClient) (answer : TileAnswer) (body : Result Text Text) (response : ProcessorResponse)
    → read_answer c answer body ≡ ok response
    → (answer.status_code ≡ response.code) × (body ≡ ok response.body)
unfolding read_answer
read_answer-ok c answer (err e) response h = absurd (ground arith)
read_answer-ok c answer (ok body) response h = (ground arith, ground arith)

answered-IsResponse :
    (c : TileClient) (got : Result Text TileAnswer) (response : ProcessorResponse)
    → answered c got ≡ ok response
    → IsResponse got response
unfolding answered
answered-IsResponse c (err e) response h = absurd (ground arith)
answered-IsResponse c (ok answer) response h =
    (answer, (refl, read_answer-ok c answer answer.body response h))

sent-IsResponse :
    (c : TileClient) (req : TileRequest) (e : Option Text) (response : ProcessorResponse)
    → sent c req e ≡ ok response
    → IsResponse (c.send req) response
unfolding sent
sent-IsResponse c req (some e) response h = absurd (ground arith)
sent-IsResponse c req none response h = answered-IsResponse c (c.send req) response h

asked-IsUrl :
    (c : TileClient) (req : InfoTileHttpRequest) (found : Result Text Text)
    (response : ProcessorResponse)
    → url_with c req.url req.query_params ≡ found
    → asked c req found ≡ ok response
    → (url : Text) × (IsUrl c req.url req.query_params url
        × IsResponse (c.send (tile_request c req url)) response)
unfolding asked
asked-IsUrl c req (err e) response k h = absurd (ground arith)
asked-IsUrl c req (ok url) response k h = (
  url,
  (
    url_with-IsUrl c req.url req.query_params url k,
    sent-IsResponse c (tile_request c req url) (c.request_error (tile_request c req url)) response
        h,
  ),
)

-- A response is that of the client's answer to a request for the tile's URL. If the tile has query
-- parameters, the query of that request has, for each name, the values of the tile's URL and then
-- the parameters of that name, in their order.
pub do_http_request-IsUrl :
    (c : TileClient) (req : InfoTileHttpRequest) (response : ProcessorResponse)
    → do_http_request c req ≡ ok response
    → (url : Text) × (IsUrl c req.url req.query_params url
        × IsResponse (c.send (tile_request c req url)) response)
unfolding do_http_request
do_http_request-IsUrl c req response h =
    asked-IsUrl c req (url_with c req.url req.query_params) response refl h
