-- ===== src/Booking/Response.antt =====
-- internal/booking/include.go: the answer to a request for a reservation, and what the client asks
-- to have in it.
use yop_pms.Prelude.{
  ℕ, Bool, true, false, not, ◌&&◌, Option, none, some, List, [], ◌∷◌, if◌then◌else◌,
}
use yop_pms.Store.{Env, Item, Reservation, Guest, Result, ok, err}
use yop_pms.Store.Tx.{Tx, ◌>>=◌, return, attempt}
use yop_pms.Store.Reservations.{find_guest}
use yop_pms.Store.Items.{find_items}

-- IncludeFlags, less the folio summary, which nothing reads.
pub record IncludeFlags : Type 0 where
  pub items : Bool
  pub guest : Bool
  pub omit : Bool

pub record ReservationResponse : Type 0 where
  pub row : Reservation
  pub items : List Item
  pub guest : Option Guest

-- expandInclude: what cannot be fetched is left out.
abbrev fetched : {A : Type 0} → A → Result A → A
fetched old (ok new) = new
fetched old (err e) = old

abbrev is_empty : {A : Type 0} → List A → Bool
is_empty [] = true
is_empty (x ∷ xs) = false

unfoldable pub expand_items : Env → ReservationResponse → IncludeFlags → Tx (List Item)
expand_items env response include =
    if include.items && not include.omit && is_empty response.items
    then (do
      items ← attempt (find_items env 3 response.row.id)
      return (fetched response.items items))
    else return response.items

abbrev fetched_guest : Result Guest → Option Guest
fetched_guest (ok g) = some g
fetched_guest (err e) = none

unfoldable pub expand_guest : Env → IncludeFlags → Option ℕ → Tx (Option Guest)
expand_guest env include none = return none
expand_guest env include (some g) =
    if include.guest
    then (do guest ← attempt (find_guest env g); return (fetched_guest guest))
    else return none

unfoldable pub expand_include :
    Env → ReservationResponse → IncludeFlags → Option ℕ → Tx ReservationResponse
unfolding expand_items expand_guest
expand_include env response include primary_guest = do
  items ← expand_items env response include
  guest ← expand_guest env include primary_guest
  return (record { row = response.row; items = items; guest = guest })
