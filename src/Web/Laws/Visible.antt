-- ===== src/Web/Laws/Visible.antt =====
-- What a client of the dashboard can see.
use cupboard.Prelude.{true, false, List, ◌≡◌, subst}
use cupboard.Prelude.Lists.{All, All-mono}
use cupboard.Text.{Text}
use cupboard.Text.Case.{Unicode}
use cupboard.Dashboard.Types.{DashboardGroup, DashboardResponse}
use cupboard.Dashboard.Groups.Access.{CanSee}
use cupboard.Dashboard.Response.Visible.{collect_dashboard_sound}
use cupboard.Auth.Request.{Request}
use cupboard.Auth.Session.{AuthSession}
use cupboard.Web.Answer.{Body}
use cupboard.Web.Server.{Server, World}
use cupboard.Web.Routes.{serve_http}
use cupboard.Web.Laws.Granted.{Grants, IsAllowed}
use cupboard.Web.Laws.Guarded.{serve_http-IsGuarded}

module _ ⦃u : Unicode⦄ where
  -- All links of a response can be seen by a user of some groups.
  abbrev pub AllVisible : List Text → DashboardResponse → Type 0
  AllVisible groups payload = All (λ g. All (CanSee groups) g.links) payload.groups

  -- With authentication enabled, a dashboard that the server sends holds only links that the groups of
  -- a session can see, and a token or a cookie of the request grants that session.
  pub serve_http-AllVisible :
      (w : World) (r : Request) (s : Server) (payload : DashboardResponse)
      → s.auth.enabled ≡ true
      → (serve_http w r s).1.body ≡ Body.dashboard payload
      → (session : AuthSession) × (Grants w r s session × AllVisible session.groups payload)
  serve_http-AllVisible w r s payload enabled sent =
      let (session, (granted, collected)) =
        subst (IsAllowed w r s) sent (serve_http-IsGuarded w r s enabled).allowed in
      (
        session,
        (
          granted,
          All-mono _ (λ (g : DashboardGroup). All (CanSee session.groups) g.links)
              (λ g. All-mono _ (CanSee session.groups) (λ link k. k.1) g.links) payload.groups
              (collect_dashboard_sound w.collector session.groups false payload collected),
        ),
      )
