-- ===== src/Web/Answer.antt =====
-- What a handler writes to its `http.ResponseWriter`.
use cupboard.Prelude.{ℕ, Bool, List, Option, none}
use cupboard.Any.{Any}
use cupboard.Text.{Text, codes, ◌==◌}
use cupboard.Dashboard.Types.{DashboardGroup, DashboardResponse}
use cupboard.Auth.Session.{AuthSession, Cookie}

-- `pageTemplateData`
pub record PageTemplateData : Type 0 where
  pub title : Text
  pub favicon_url : Text
  pub content_layout : Text
  pub groups : List DashboardGroup

pub data Body : Type 0 where
  empty : Body
  -- a message of `http.Error`
  message : Text → Body
  -- the JSON of a value
  session : AuthSession → Body
  dashboard : DashboardResponse → Body
  openapi : Any → Body
  -- a document that is there as it is, and one that a template renders
  html : Text → Body
  page : PageTemplateData → Body
  -- the target of a redirect, and a file that a file server serves
  location file : Text → Body
  -- what an upstream server answered
  upstream : Text → Body
  -- a WebSocket
  upgraded : Body
  -- nothing: the handler panics, and the connection is closed
  panic : Body

pub record Answer : Type 0 where
  pub status : ℕ
  pub cookie : Option Cookie
  pub body : Body

abbrev pub answer : ℕ → Body → Answer
answer status body = record { status = status; cookie = none; body = body }

-- The answer to a method that a handler does not take, and to a request without a session.
abbrev pub method_not_allowed : Answer
method_not_allowed = answer 405 (Body.message (codes "Method Not Allowed"))

abbrev pub unauthorized : Answer
unauthorized = answer 401 (Body.message (codes "Unauthorized"))

abbrev pub not_found : Answer
not_found = answer 404 (Body.message (codes "404 page not found"))

-- The guard `r.Method != http.MethodGet`.
abbrev pub is_get : Text → Bool
is_get method = method == codes "GET"
