-- ===== src/Examples/Memory.antt =====
-- Login grants and limits of attempts.
use stumpfworks_identity.Server.Grants.{Grants, save_login_grant, redeem_login_grant}
use stumpfworks_identity.Server.Grants.SingleUse.{redeem_once, save, run}
use stumpfworks_identity.Server.Limiter.{is_recent}
use stumpfworks_identity.Server.Limiter.Window.{limit_in_window, five_failures}
use stumpfworks_identity.Server.Limiter.Window
use stumpfworks_identity.Base.{◌≤◌, ◌≡◌, refl, none, [], ◌∷◌, arith, codes, text_eq, count}

abbrev grants : Grants
grants = save_login_grant (codes "g") (codes "alice") (codes "kiosk") 0 []

redeem_once_example :
    (redeem_login_grant (codes "g") (codes "kiosk") 20 (
      run
        (save (codes "h") (codes "bob") (codes "kiosk") 15 ∷ [])
        (redeem_login_grant (codes "g") (codes "kiosk") 10 grants).0)).1
    ≡ none
unfolding text_eq
redeem_once_example =
    redeem_once (codes "g") (codes "kiosk") (codes "kiosk") 10 20
      (save (codes "h") (codes "bob") (codes "kiosk") 15 ∷ []) grants (refl, tt)

limit_in_window_example : count (is_recent 9) (Window.run 2 (1 ∷ 2 ∷ 3 ∷ []) [] []).1 ≤ 2
limit_in_window_example = limit_in_window 2 0 (1 ∷ 2 ∷ 3 ∷ []) 9 (ground arith) (omega arith)
