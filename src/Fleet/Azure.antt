-- ===== src/Fleet/Azure.antt =====
-- internal/foreigncluster/azure.go: the source of access tokens. A time is in nanoseconds, and a
-- `time.Duration` a 64-bit number of them.
use cupboard.Prelude.{
  ℕ, ◌+◌, [], ◌∷◌, ◌++◌, Option, none, some, Result, ok, err, if◌then◌else◌, ltb,
}
use cupboard.Prelude.Int.{plus, ◌*ℤ◌, ltb_ℤ, ℤ, pos, negsuc}
use cupboard.Text.{Text, codes, ◌==◌}
use cupboard.Text.Trim.{trim_space}
use cupboard.GoMap.{GoMap}

pub data AzureError : Type 0 where
  -- "... environment variable not set"
  unset : Text → AzureError
  unreadable_token request_failed unreadable_response unparsable : Text → AzureError
  -- "azure token error %s: %s", and "azure token response contained no access_token"
  refused : Text → Text → AzureError
  no_token : AzureError

pub record AzureCachedToken : Type 0 where
  pub value : Text
  pub expires_at : ℤ

-- `azureWITokenSource`
pub record AzureTokenSource : Type 0 where
  pub tenant_id : Text
  pub client_id : Text
  pub token_file : Text
  pub scope : Text
  pub cached : Option AzureCachedToken

-- The fields of the answer.
pub record TokenResult : Type 0 where
  pub access_token : Text
  pub expires_in : ℤ
  pub error : Text
  pub description : Text

-- What the environment, the file system and the endpoint answer during a call.
pub record Azure : Type 0 where
  pub getenv : Text → Text
  pub read_file : Text → Result Text Text
  -- `PostForm`, and `io.ReadAll` of the body
  pub post_form : Text → GoMap Text → Result Text Text
  pub read_body : Text → Result Text Text
  pub unmarshal : Text → Result Text TokenResult

-- `newAzureWITokenSource`
unfoldable pub new_azure_token_source : Azure → Text → Result AzureError AzureTokenSource
new_azure_token_source z scope =
    let tenant_id = z.getenv (codes "AZURE_TENANT_ID") in
    let client_id = z.getenv (codes "AZURE_CLIENT_ID") in
    let token_file = z.getenv (codes "AZURE_FEDERATED_TOKEN_FILE") in
    if tenant_id == codes ""
    then err (unset (codes "AZURE_TENANT_ID"))
    else if client_id == codes ""
    then err (unset (codes "AZURE_CLIENT_ID"))
    else if token_file == codes ""
    then err (unset (codes "AZURE_FEDERATED_TOKEN_FILE"))
    else ok (record {
      tenant_id = tenant_id;
      client_id = client_id;
      token_file = token_file;
      scope = scope;
      cached = none;
    })

unfoldable pub token_endpoint : Text → Text
token_endpoint tenant_id =
    codes "https://login.microsoftonline.com/" ++ (tenant_id ++ codes "/oauth2/v2.0/token")

unfoldable pub token_form : AzureTokenSource → Text → GoMap Text
token_form s federated_token =
    (codes "grant_type", codes "client_credentials")
    ∷ (codes "client_id", s.client_id)
    ∷ (
      codes "client_assertion_type",
      codes "urn:ietf:params:oauth:client-assertion-type:jwt-bearer",
    )
    ∷ (codes "client_assertion", trim_space federated_token)
    ∷ (codes "scope", s.scope)
    ∷ []

-- The seconds of a token; what is not positive is an hour.
unfoldable pub expires_in_or_hour : ℤ → ℤ
expires_in_or_hour (pos n) = if ltb 0 n then pos n else pos 3600
expires_in_or_hour (negsuc n) = pos 3600

-- `time.Duration(expiresIn) * time.Second`, which wraps around.
unfoldable pub lifetime : ℤ → ℤ
lifetime n = expires_in_or_hour n *ℤ 1000000000

unfoldable pub token_of : ℕ → Result Text TokenResult → Result AzureError AzureCachedToken
unfolding lifetime
token_of now (err e) = err (unparsable e)
token_of now (ok result) =
    if result.error == codes ""
    then (if result.access_token == codes ""
        then err no_token
        else ok (record {
          value = result.access_token;
          expires_at = plus now (lifetime result.expires_in);
        }))
    else err (refused result.error result.description)

unfoldable pub token_in : Azure → ℕ → Result Text Text → Result AzureError AzureCachedToken
token_in z now (err e) = err (unreadable_response e)
token_in z now (ok raw) = token_of now (z.unmarshal raw)

unfoldable pub token_answer : Azure → ℕ → Result Text Text → Result AzureError AzureCachedToken
token_answer z now (err e) = err (request_failed e)
token_answer z now (ok resp) = token_in z now (z.read_body resp)

unfoldable pub token_for :
    Azure → ℕ → AzureTokenSource → Result Text Text → Result AzureError AzureCachedToken
token_for z now s (err e) = err (unreadable_token e)
token_for z now s (ok federated_token) =
    token_answer z now (z.post_form (token_endpoint s.tenant_id) (token_form s federated_token))

-- `exchangeToken`
unfoldable pub exchange_token : Azure → ℕ → AzureTokenSource → Result AzureError AzureCachedToken
exchange_token z now s = token_for z now s (z.read_file s.token_file)

-- `time.Now().Before(expiresAt.Add(-30 * time.Second))`
unfoldable pub is_fresh : ℕ → Option AzureCachedToken → Option Text
is_fresh now none = none
is_fresh now (some token) =
    if ltb_ℤ (pos (now + 30000000000)) token.expires_at then some token.value else none

unfoldable pub refreshed :
    AzureTokenSource
    → Result AzureError AzureCachedToken
    → AzureTokenSource × Result AzureError Text
refreshed s (err e) = (s, err e)
refreshed s (ok token) = (record s { cached = some token }, ok token.value)

unfoldable pub token_or_refresh :
    Azure → ℕ → AzureTokenSource → Option Text → AzureTokenSource × Result AzureError Text
token_or_refresh z now s (some value) = (s, ok value)
token_or_refresh z now s none = refreshed s (exchange_token z now s)

-- `Token`
unfoldable pub token : Azure → ℕ → AzureTokenSource → AzureTokenSource × Result AzureError Text
token z now s = token_or_refresh z now s (is_fresh now s.cached)
