-- ===== src/Controller/InfoTile.antt =====
-- internal/controller/dashboard/infotile_controller.go. Package `text/template` is a parameter.
pub mod Laws
pub mod Request
use cupboard.Prelude.{
  ℕ, Bool, false, not, Option, none, some, Result, ok, err, if◌then◌else◌, ◌++◌, ◌≡◌,
  ◌==◌ as nat_eq, refl, arith,
}
use cupboard.Prelude.Int.{ℤ, pos, negsuc}
use cupboard.Text.{eq_refl, Text, codes, ◌==◌, eq_refl}
use cupboard.Controller.InfoTile.Request.{ProcessorResponse, TileClient, do_http_request}
use cupboard.Kube.{KubeError}
use cupboard.Kube.InfoTile.{InfoTile, InfoTileSpec, InfoTileHttpRequest}
use cupboard.Controller.{Outcome}

-- The client for `doHTTPRequest`, and `Parse` and `Execute` of a template.
pub record Renderer : Type 0 where
  pub client : TileClient
  pub parse : Text → Option Text
  pub execute : Text → ProcessorResponse → Result Text Text

abbrev pub no_response : ProcessorResponse
no_response = record { code = pos 0; body = codes ""; data_value = none }

-- The response for the template.
response_of : Renderer → InfoTileSpec → Result Text ProcessorResponse
response_of r spec = elim spec.http_request [
  | none ↦ ok no_response
  | some req ↦ elim (do_http_request r.client req) [
    | err e ↦ err (codes "http request: " ++ e)
    | ok response ↦ ok response
  ]
]

processed : Renderer → Text → ProcessorResponse → Result Text Text
processed r processor response = elim (r.parse processor) [
  | some e ↦ err (codes "parse processor template: " ++ e)
  | none ↦ elim (r.execute processor response) [
    | err e ↦ err (codes "execute processor template: " ++ e)
    | ok content ↦ ok content
  ]
]

-- `renderContent`
unfoldable pub render_content : Renderer → InfoTile → Result Text Text
unfolding response_of processed
render_content r tile = elim (response_of r tile.spec) [
  | err e ↦ err e
  | ok response ↦
      if tile.spec.processor == codes ""
      then ok response.body
      else processed r tile.spec.processor response
]

-- `defaultInfoTileInterval`
abbrev pub default_info_tile_interval : ℕ
default_info_tile_interval = 60000000000

-- The interval after which the tile is due again.
unfoldable pub requeue_interval : InfoTile → ℕ
requeue_interval tile = elim tile.spec.interval [
  | none ↦ default_info_tile_interval
  | some interval ↦ elim interval [
    | pos n ↦ if nat_eq n 0 then default_info_tile_interval else n
    | negsuc n ↦ default_info_tile_interval
  ]
]

-- The tile after rendering at a time.
unfoldable pub rendered_tile : ℕ → Result Text Text → InfoTile → InfoTile
rendered_tile now (err e) tile = record tile {
  status = record tile.status { last_fetched_at = some now; last_error = e };
}
rendered_tile now (ok content) tile = record tile {
  status = record tile.status {
    last_fetched_at = some now;
    last_error = codes "";
    content = content;
  };
}

-- Whether the dashboard is notified: the content is new.
unfoldable pub is_notified : Result Text Text → InfoTile → Bool
is_notified (err e) tile = false
is_notified (ok content) tile = not (tile.status.content == content)

-- `Reconcile`, and whether it called `Notify`, on what `Get` and `Status().Update` return.
unfoldable pub reconcile_tile :
    Renderer
    → ℕ
    → Result KubeError InfoTile
    → (InfoTile → Option KubeError)
    → Outcome InfoTile × Bool
reconcile_tile r now (err e) update = (
  record { requeue_after = 0; error = if e.not_found then none else some e; written = none },
  false,
)
reconcile_tile r now (ok tile) update =
    let rendered = render_content r tile in
    let tile_new = rendered_tile now rendered tile in
    let notified = is_notified rendered tile in
    elim (update tile_new) [
      | some e ↦ (record { requeue_after = 0; error = some e; written = some tile_new }, notified)
      | none ↦ (
        record { requeue_after = requeue_interval tile; error = none; written = some tile_new },
        notified,
      )
    ]

-- The dashboard is notified exactly if the written content is not the one that was read.
rendered_tile-notified :
    (now : ℕ) (rendered : Result Text Text) (tile : InfoTile)
    → is_notified rendered tile
      ≡ not (tile.status.content == (rendered_tile now rendered tile).status.content)
unfolding is_notified rendered_tile
rendered_tile-notified now (err e) tile = ground (arith, eq_refl tile.status.content)
rendered_tile-notified now (ok content) tile = refl
