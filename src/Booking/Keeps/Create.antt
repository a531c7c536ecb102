-- ===== src/Booking/Keeps/Create.antt =====
-- The requests of Booking/Create.antt and Booking/Confirm.antt.
use yop_pms.Prelude.{ℕ, String, refl, Option, none, some, List, [], ◌∷◌}
use yop_pms.Status.{ReservationStatus, ItemStatus}
use yop_pms.Store.{Db, Env, Reservation, insert_ledger}
use yop_pms.Store.Tx.Keeps.{
  Keeps, Keeps-attempt, keeps_rules, Keeps-bind, Keeps-return, Keeps-statement,
}
use yop_pms.Store.Keeps.Interface.{KeptByStatements}
use yop_pms.Booking.Response.{IncludeFlags, ReservationResponse, expand_include}
use yop_pms.Booking.Create.{
  CreateItemInput, CreateInput, Initial, new_item, GuestInline, resolve_guest, choose_room,
  sell_nights, insert_single_item, insert_all_items, enqueue_unless_hold, create_reservation_in_tx,
  not_before, check_arrivals, create_reservation_tx,
}
use yop_pms.Booking.Confirm.{
  confirm_other, confirm_reservation_tx, metadata_guest, update_metadata_tx,
}
use yop_pms.Booking.Keeps.Inventory.{rates_of-Keeps}

module _ {env : Env} {P : Db → Type 0} (k : KeptByStatements env P) where
  pub expand_include-Keeps :
      (r : ReservationResponse) (f : IncludeFlags) (g : Option ℕ)
      → Keeps P (expand_include env r f g)
  unfolding expand_include
  expand_include-Keeps r f none =
      search (keeps_rules, Keeps-attempt k.blind, k.find_items_keeps) depth 14
  expand_include-Keeps r f (some g) =
      search (keeps_rules, Keeps-attempt k.blind, k.find_items_keeps, k.find_guest_keeps) depth 14

  resolve_guest-Keeps :
      (g : Option ℕ) (inline : Option GuestInline) → Keeps P (resolve_guest env g inline)
  unfolding resolve_guest
  resolve_guest-Keeps (some g) inline = search keeps_rules
  resolve_guest-Keeps none none = search keeps_rules
  resolve_guest-Keeps none (some g) = search (keeps_rules, k.insert_guest_keeps) depth 8

  choose_room-Keeps :
      (room_type : ℕ) (room : Option ℕ) (dates : List ℕ)
      → Keeps P (choose_room env room_type room dates)
  unfolding choose_room
  choose_room-Keeps room_type none dates = k.auto_pin_keeps room_type dates
  choose_room-Keeps room_type (some room) dates = search keeps_rules

  sell_nights-Keeps :
      (room reservation item : ℕ) (dates : List ℕ)
      → Keeps P (sell_nights env room reservation item dates)
  unfolding sell_nights
  sell_nights-Keeps room reservation item [] =
      Keeps-statement env insert_ledger 0 _ (record { at = λ db h. tt })
  sell_nights-Keeps room reservation item (d ∷ dates) = k.bulk_insert_keeps room reservation item _

  pub insert_single_item-Keeps :
      (input : CreateItemInput) (status : ItemStatus) (reservation : ℕ)
      → Keeps P (insert_single_item env input status reservation)
  unfolding insert_single_item
  insert_single_item-Keeps input status reservation =
      search
        (
          keeps_rules,
          k.occupancy_keeps,
          rates_of-Keeps k,
          λ (rate : ℕ).
              k.insert_item_keeps (new_item env input status reservation rate) (λ id. refl),
          choose_room-Keeps,
          sell_nights-Keeps,
        )
        depth 20

  insert_all_items-Keeps :
      (inputs : List CreateItemInput) (status : ItemStatus) (reservation : ℕ)
      → Keeps P (insert_all_items env inputs status reservation)
  unfolding insert_all_items
  insert_all_items-Keeps [] status reservation = search keeps_rules
  insert_all_items-Keeps (input ∷ inputs) status reservation =
      Keeps-bind _ _ (insert_single_item-Keeps input status reservation) λ item.
        Keeps-bind _ _ (insert_all_items-Keeps inputs status reservation) λ items. Keeps-return _

  enqueue_unless_hold-Keeps :
      (status : ReservationStatus) (id : ℕ) → Keeps P (enqueue_unless_hold env status id)
  unfolding enqueue_unless_hold
  enqueue_unless_hold-Keeps status id =
      search (keeps_rules, Keeps-attempt k.blind, k.enqueue_keeps) depth 10

  create_reservation_in_tx-Keeps :
      (input : CreateInput) (initial : Initial) (f : IncludeFlags)
      → Keeps P (create_reservation_in_tx env input initial f)
  unfolding create_reservation_in_tx
  create_reservation_in_tx-Keeps input initial f =
      search
        (
          keeps_rules, resolve_guest-Keeps, k.insert_reservation_keeps, insert_all_items-Keeps,
          k.notify_keeps, enqueue_unless_hold-Keeps, expand_include-Keeps,
        )
        depth 20

  not_before-Keeps :
      (midnight : Option ℕ) (items : List CreateItemInput) → Keeps P (not_before midnight items)
  unfolding not_before
  not_before-Keeps none items = search keeps_rules
  not_before-Keeps (some midnight) items = search keeps_rules

  check_arrivals-Keeps : (input : CreateInput) → Keeps P (check_arrivals env input)
  unfolding check_arrivals
  check_arrivals-Keeps input = search (keeps_rules, not_before-Keeps) depth 8

  pub create_reservation-Keeps :
      (input : CreateInput) (initial : Initial) (f : IncludeFlags)
      → Keeps P (create_reservation_tx env input initial f)
  unfolding create_reservation_tx
  create_reservation-Keeps input initial f =
      search (keeps_rules, check_arrivals-Keeps, create_reservation_in_tx-Keeps) depth 10

  confirm_other-Keeps :
      (id : ℕ) (f : IncludeFlags) (res : Reservation) → Keeps P (confirm_other env id f res)
  unfolding confirm_other
  confirm_other-Keeps id f res =
      search
        (
          keeps_rules,
          k.update_status_keeps,
          k.find_reservation_keeps,
          expand_include-Keeps,
          k.notify_keeps,
          k.enqueue_keeps,
          Keeps-attempt k.blind,
        )
        depth 30

  pub confirm_reservation-Keeps :
      (id : ℕ) (f : IncludeFlags) → Keeps P (confirm_reservation_tx env id f)
  unfolding confirm_reservation_tx
  confirm_reservation-Keeps id f =
      search (keeps_rules, k.find_reservation_keeps, expand_include-Keeps, confirm_other-Keeps)
        depth 10

  metadata_guest-Keeps : (id : ℕ) (g : Option ℕ) → Keeps P (metadata_guest env id g)
  unfolding metadata_guest
  metadata_guest-Keeps id none = search (keeps_rules, k.find_reservation_keeps) depth 10
  metadata_guest-Keeps id (some g) = search keeps_rules

  pub update_metadata-Keeps :
      (id : ℕ) (notes : Option String) (g : Option ℕ) → Keeps P (update_metadata_tx env id notes g)
  unfolding update_metadata_tx
  update_metadata-Keeps id notes g =
      search
        (
          keeps_rules,
          metadata_guest-Keeps,
          k.update_metadata_keeps,
          k.notify_keeps,
          Keeps-attempt k.blind,
        )
        depth 14
