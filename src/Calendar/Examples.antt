-- ===== src/Calendar/Examples.antt =====
-- Nights and changes of a stay at concrete dates.
use yop_pms.Prelude.{◌*◌, ◌+◌, ◌≡◌, refl, [], ◌∷◌}
use yop_pms.Calendar.{day, second, date_of, nights_between}
use yop_pms.Calendar.Nights.{nights_between-days_from, days_from}

three_nights : nights_between (10 * day + second) (13 * day) ≡ 10 * day ∷ 11 * day ∷ 12 * day ∷ []
unfolding nights_between
three_nights = refl

nights_between-days_from_example :
    nights_between (10 * day + second) (13 * day) ≡ days_from (date_of (10 * day + second)) 3
nights_between-days_from_example = nights_between-days_from (10 * day + second) (13 * day)
