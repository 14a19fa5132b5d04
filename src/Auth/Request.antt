-- ===== src/Auth/Request.antt =====
-- What the program reads of an `http.Request`, and the functions that read it:
-- `bearerTokenFromRequest` and `requestBaseURL`.
use cupboard.Prelude.{Bool, ◌++◌, Option, none, some, if◌then◌else◌}
use cupboard.Text.{Text, codes, ◌==◌}
use cupboard.Text.Trim.{trim_space}
use cupboard.Text.Split.{cut}
use cupboard.Text.Case.{Unicode, equal_fold}

pub record Request : Type 0 where
  pub method : Text
  -- `URL.Path`
  pub path : Text
  pub host : Text
  -- `TLS != nil`
  pub tls : Bool
  -- `Header.Get` of "Origin", "Authorization", "X-Forwarded-Proto" and "X-Forwarded-Host"
  pub origin : Text
  pub authorization : Text
  pub forwarded_proto : Text
  pub forwarded_host : Text
  -- `Cookie(name)`
  pub cookie : Text → Option Text

module _ ⦃u : Unicode⦄ where
  -- `bearerTokenFromRequest`
  unfoldable pub bearer_token_from_request : Request → Text
  bearer_token_from_request r = elim (cut (trim_space r.authorization) b' ') [
    | none ↦ codes ""
    | some parts ↦ if equal_fold parts.0 (codes "Bearer") then trim_space parts.1 else codes ""
  ]

-- The part of a header before the first comma.
first_value : Text → Text
first_value header = elim (cut (trim_space header) b',') [
  | none ↦ trim_space (trim_space header)
  | some parts ↦ trim_space parts.0
]

or_else : Text → Text → Text
or_else value default = if value == codes "" then default else value

-- `requestBaseURL`
unfoldable pub request_base_url : Request → Text
unfolding first_value or_else
request_base_url r =
    or_else (first_value r.forwarded_proto) (if r.tls then codes "https" else codes "http")
    ++ codes "://"
    ++ or_else (first_value r.forwarded_host) r.host
