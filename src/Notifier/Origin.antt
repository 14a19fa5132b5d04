-- ===== src/Notifier/Origin.antt =====
-- `CheckOrigin` of the upgrader in `NewDashboardNotifier`.
use cupboard.Prelude.{Bool, true, false, Result, ok, err, if◌then◌else◌}
use cupboard.Text.{Text, codes, ◌==◌}
use cupboard.Text.Case.{Unicode, equal_fold}

module _ ⦃u : Unicode⦄ where
  -- On the host of the parsed origin, or the error of the parser.
  is_same_host : Text → Result Text Text → Bool
  is_same_host host (err e) = false
  is_same_host host (ok origin_host) = equal_fold origin_host host

  -- `CheckOrigin`, on `Host` of `url.Parse`, the header "Origin" and the host of the request.
  unfoldable pub check_origin : (Text → Result Text Text) → Text → Text → Bool
  unfolding is_same_host
  check_origin parse origin host =
      if origin == codes "" then true else is_same_host host (parse origin)
