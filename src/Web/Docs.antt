-- ===== src/Web/Docs.antt =====
-- What "/api/docs" and "/api/openapi.json" serve.
use cupboard.Prelude.{◌++◌}
use cupboard.Text.{Text, codes}
use cupboard.Any.{Any, Fields, no_items, item, no_fields, field, string, array, object}

-- The page of the handler of "/api/docs".
abbrev pub api_docs : Text
api_docs =
    codes "<!doctype html>\n"
    ++ codes "<html>\n"
    ++ codes "  <head>\n"
    ++ codes "    <meta charset=\"utf-8\" />\n"
    ++ codes "    <title>cupboard API docs</title>\n"
    ++ codes
        "    <link rel=\"stylesheet\" href=\"https://unpkg.com/swagger-ui-dist@5/swagger-ui.css\" />\n"
    ++ codes "  </head>\n"
    ++ codes "  <body>\n"
    ++ codes "    <div id=\"swagger-ui\"></div>\n"
    ++ codes
        "    <script src=\"https://unpkg.com/swagger-ui-dist@5/swagger-ui-bundle.js\"></script>\n"
    ++ codes "    <script>\n"
    ++ codes
        "      window.ui = SwaggerUIBundle({ url: '/api/openapi.json', dom_id: '#swagger-ui' })\n"
    ++ codes "    </script>\n"
    ++ codes "  </body>\n"
    ++ codes "</html>"

-- An object with one key, and one with texts.
abbrev only : Text → Any → Any
only key value = object (field key value no_fields)

abbrev summary : Text → Fields → Any
summary text fields = object (field (codes "summary") (string text) fields)

-- `[]map[string]any{{"bearerAuth": []string{}}}`
abbrev secured : Fields
secured =
    field (codes "security") (array (item (only (codes "bearerAuth") (array no_items)) no_items))
      no_fields

abbrev session_path : Any
session_path = object (
    field (codes "get") (summary (codes "Get session userinfo from cookie") no_fields) (
      field (codes "post") (summary (codes "Create backend session from bearer token") secured) (
        field (codes "delete") (summary (codes "Clear backend session cookie") no_fields)
          no_fields)))

-- `openAPISpec`
abbrev pub open_api_spec : Any
open_api_spec = object (
    field (codes "openapi") (string (codes "3.0.3")) (
      field (codes "info")
        (object (
          field (codes "title") (string (codes "cupboard API"))
            (field (codes "version") (string (codes "v1")) no_fields)))
        (field (codes "components")
          (only (codes "securitySchemes") (
            only (codes "bearerAuth") (
              object (
                field (codes "type") (string (codes "http"))
                  (field (codes "scheme") (string (codes "bearer")) no_fields)))))
          (field (codes "paths")
            (object (
              field (codes "/api/session") session_path (
                field (codes "/api/dashboard")
                  (only (codes "get") (summary (codes "Get grouped dashboard links") secured))
                  no_fields)))
            no_fields))))
