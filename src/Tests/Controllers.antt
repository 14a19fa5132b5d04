-- ===== src/Tests/Controllers.antt =====
-- The reconcilers, the webhook and the notifier on small inputs.
use cupboard.Prelude.{if◌then◌else◌, ◌≤◌, true, false, [], none, some, ok, ◌≡◌, ◌↔◌, refl}
use cupboard.Prelude.Lists.{keep}
use cupboard.Text.{Text, codes, ◌==◌}
use cupboard.Text.Trim.{trim_space, is_blank}
use cupboard.Kube.Bookmark.{Bookmark}
use cupboard.Controller.Bookmark.{
  Http, Clock, raw_url, needs_url_check, updated_bookmark, check_url, resolve_and_check_url,
  with_check,
}
use cupboard.Controller.Bookmark.Laws.{IsReachable, updated_bookmark-IsReachable}
use cupboard.Webhook.Validator.{ParseRequestUri, validate_bookmark}
use cupboard.Webhook.Validator.Laws.{IsAdmissible, validate_bookmark_iff}
use cupboard.Notifier.{
  Step, Run, Notifier, new_notifier, notify, register, tick, broadcasts_on_tick,
}
use cupboard.Notifier.Laws.{Run-broadcasts}
use cupboard.Prelude.{◌∷◌, ◌++◌, map}
use cupboard.Prelude.Int.{pos}
use cupboard.GoMap.{insert, lookup}
use cupboard.Text.Search.{contains, index}
use cupboard.Web.Path.{join_slash}
use cupboard.Kube.InfoTile.{InfoTileHttpRequest}
use cupboard.Controller.InfoTile.Request.{
  TileClient, ProcessorResponse, tile_request, do_http_request, asked, sent, answered, read_answer,
  url_with, queried, add_params, values_of,
}
use cupboard.Controller.InfoTile.Laws.{IsUrl, IsResponse, do_http_request-IsUrl}
use cupboard.Tests.Fixtures.{reader, bookmark}

abbrev git : Bookmark
git = bookmark (codes "git") (codes "tools") [] none

-- HEAD is not allowed, and GET answers.
abbrev http : Http
http = record {
  refuses = λ method url. none;
  send = λ method url. if method == codes "HEAD" then ok 405 else ok 200;
  status_text = λ status. codes "";
  quote = λ text. text;
}

abbrev clock : Clock
clock = record { since = 1000; checked = 1001; synced = 1002 }

updated_bookmark-IsReachable_example :
    (url : Text) × ((raw_url http reader git ≡ ok (some url)) × IsReachable http url)
unfolding updated_bookmark needs_url_check resolve_and_check_url raw_url check_url with_check ◌==◌
    is_blank trim_space
updated_bookmark-IsReachable_example = updated_bookmark-IsReachable reader http clock git refl refl

abbrev parse : ParseRequestUri
parse = λ raw. ok (codes "https")

validate_bookmark_iff_example : (validate_bookmark parse git ≡ none) ↔ IsAdmissible parse git
validate_bookmark_iff_example = validate_bookmark_iff parse git

-- A client registers, two changes come before a tick, and one broadcast is made.
abbrev after_register : Notifier
after_register = register 1 new_notifier

abbrev taken : Notifier
taken = record (notify (notify after_register)) { signal = false; pending = true }

burst : Run new_notifier 2 1 (tick (λ conn. false) taken)
unfolding notify register keep tick broadcasts_on_tick
burst = Run.goes (Step.registers 1 new_notifier) (
    Run.goes (Step.notifies after_register) (
      Run.goes (Step.notifies (notify after_register)) (
        Run.goes (Step.receives (notify (notify after_register)) refl refl) (
          Run.goes (Step.ticks (λ conn. false) taken refl)
            (Run.stays (tick (λ conn. false) taken))))))

Run-broadcasts_example : 1 ≤ 2
Run-broadcasts_example = Run-broadcasts 2 1 (tick (λ conn. false) taken) burst

abbrev weather : InfoTileHttpRequest
weather = record {
  method = codes "get";
  url = codes "http://weather.example/now?day=today";
  query_params = record { name = codes "city"; value = codes "Bonn" } ∷ [];
  headers = [];
  body = codes "";
}

-- The query is written as its keys.
abbrev tile_client : TileClient
tile_client = record {
  to_upper = λ s. codes "GET";
  quote = λ s. s;
  parse_url = λ raw. ok (record {
    query = (codes "day", codes "today" ∷ []) ∷ [];
    with_query = λ q. codes "http://weather.example/now?" ++ q;
  });
  encode = λ q. join_slash (map (λ entry. entry.0) q);
  request_error = λ req. none;
  send = λ req.
      ok (record { status_code = pos 200; content_type = codes "text/plain"; body = ok req.url });
  unmarshal = λ body. none;
}

abbrev rainy : ProcessorResponse
rainy = record {
  code = pos 200;
  body = codes "http://weather.example/now?day/city";
  data_value = none;
}

do_http_request-IsUrl_example :
    (url : Text) × (IsUrl tile_client weather.url weather.query_params url
      × IsResponse (tile_client.send (tile_request tile_client weather url)) rainy)
unfolding do_http_request asked sent answered read_answer url_with queried add_params values_of
    insert lookup tile_request join_slash ◌==◌ contains index
do_http_request-IsUrl_example = do_http_request-IsUrl tile_client weather rainy refl
