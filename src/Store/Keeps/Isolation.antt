-- ===== src/Store/Keeps/Isolation.antt =====
-- The rows of the other properties, through the statements of internal/store.
use yop_pms.Prelude.{
  ℕ, ◌≡◌, Bool, not, some, none, List, [], ◌∷◌, inl, inr, Option-cases, select_where, select-update,
  select-delete, select-append, arith,
}
use yop_pms.Store.{Db, Env, Item, LedgerRow}
use yop_pms.Store.Tx.Keeps.{Keeps}
use yop_pms.Store.Reservations.{
  visible, find_reservation, update_reservation_status, update_reservation_metadata,
  UpdateMetadataParams, new_reservation, insert_reservation, insert_guest, find_guest, is_version,
  with_status, with_metadata,
}
use yop_pms.Store.Items.{
  UpdateItemParams, find_item, find_items, update_reservation_item, insert_item, is_item_version,
  with_params, is_cancellable, as_cancelled, is_reactivable, as_booked, is_item_of, as_deleted,
  cancel_reservation_items, reactivate_reservation_items, archive_reservation_items,
}
use yop_pms.Store.Ledger.{
  insert_rows, sold_row, is_row_of_item, is_row_from, is_row_of_reservation, in_room,
  conflict_check_on_ledger, select_room_for_auto_pin, bulk_insert_ledger_rows,
  update_ledger_row_room, delete_ledger_rows_by_item, delete_ledger_rows_by_item_from_date,
  delete_ledger_for_reservation, get_room_type_occupancy, get_rate,
}
use yop_pms.Store.Events.{notify_reservation_change, enqueue_confirmation}
use yop_pms.Store.Keeps.Interface.{KeptByStatements}

abbrev pub foreign : Env → ℕ → Bool
foreign env property = not (visible env property)

-- The rows of the other properties in `db` are those in `old`.
pub record Isolated (env : Env) (old db : Db) : Type 0 where
  pub reservations :
      select_where (λ r. foreign env r.property) db.reservations
      ≡ select_where (λ r. foreign env r.property) old.reservations
  pub items :
      select_where (λ i. foreign env i.property) db.items
      ≡ select_where (λ i. foreign env i.property) old.items
  pub ledger :
      select_where (λ r. foreign env r.property) db.ledger
      ≡ select_where (λ r. foreign env r.property) old.ledger
  pub guests :
      select_where (λ g. foreign env g.property) db.guests
      ≡ select_where (λ g. foreign env g.property) old.guests

insert_rows-foreign :
    (env : Env) (r v i : ℕ) (dates : List ℕ) (l l' : List LedgerRow)
    → insert_rows (sold_row env r v i) dates l ≡ some l'
    → select_where (λ r. foreign env r.property) l' ≡ select_where (λ r. foreign env r.property) l
unfolding insert_rows select_where
insert_rows-foreign env r v i [] l l' e = ground arith
insert_rows-foreign env r v i (d ∷ dates) l l' e =
    ground (arith, insert_rows-foreign env r v i dates (sold_row env r v i d ∷ l) l')

module _ (env : Env) (old : Db) where
  abbrev hides_item : Item → Bool
  hides_item i = foreign env i.property

  abbrev hides_row : LedgerRow → Bool
  hides_row r = foreign env r.property

  bulk_insert-Isolated :
      (r v i : ℕ) (dates : List ℕ)
      → Keeps (Isolated env old) (bulk_insert_ledger_rows env (sold_row env r v i) dates)
  unfolding bulk_insert_ledger_rows
  bulk_insert-Isolated r v i dates = record {
    at = λ db h. elim (Option-cases (insert_rows (sold_row env r v i) dates db.ledger)) [
      | inl e ↦ ground arith
      | inr (l', e) ↦ ground (arith, insert_rows-foreign env r v i dates db.ledger l' e)
    ];
  }

  update_item-Isolated :
      (k : ℕ) (p : UpdateItemParams) → Keeps (Isolated env old) (update_reservation_item env k p)
  unfolding update_reservation_item
  update_item-Isolated k p = record {
    at = λ db h. ground (
      arith,
      select-update hides_item (is_item_version env p.id p.version) (with_params env p) db.items
          (λ i e. ground arith),
    );
  }

  update_metadata-Isolated :
      (p : UpdateMetadataParams) → Keeps (Isolated env old) (update_reservation_metadata env p)
  unfolding update_reservation_metadata
  update_metadata-Isolated p = record {
    at = λ db h. ground (
      arith,
      select-update (λ r. foreign env r.property) (is_version env p.id p.version)
          (with_metadata env p) db.reservations (λ r e. ground arith),
    );
  }

  insert_item-Isolated :
      (new_item : ℕ → Item)
      → ((id : ℕ) → (new_item id).property ≡ env.property)
      → Keeps (Isolated env old) (insert_item env new_item)
  unfolding insert_item
  insert_item-Isolated new_item e = record {
    at = λ db h.
        let id = env.new_id db.drawn in
        ground (arith, e id, select-append hides_item db.items (new_item id));
  }

  reactivate_items-Isolated :
      (id : ℕ) → Keeps (Isolated env old) (reactivate_reservation_items env id)
  unfolding reactivate_reservation_items
  reactivate_items-Isolated id = record {
    at = λ db h. ground (
      arith,
      select-update hides_item (is_reactivable env id) as_booked db.items (λ i e. ground arith),
    );
  }

  -- Every statement keeps it.
  pub statements-Isolated : KeptByStatements env (Isolated env old)
  unfolding find_reservation update_reservation_status insert_reservation insert_guest find_guest
      find_item find_items cancel_reservation_items archive_reservation_items
      conflict_check_on_ledger select_room_for_auto_pin update_ledger_row_room
      delete_ledger_rows_by_item delete_ledger_rows_by_item_from_date delete_ledger_for_reservation
      get_room_type_occupancy get_rate notify_reservation_change enqueue_confirmation
  statements-Isolated = record {
    blind = λ db b h. record {
      reservations = h.reservations;
      items = h.items;
      ledger = h.ledger;
      guests = h.guests;
    };
    find_reservation_keeps = λ k id. record { at = λ db h. ground arith };
    update_status_keeps = λ id version s. record {
      at = λ db h. ground (
        arith,
        select-update (λ r. foreign env r.property) (is_version env id version) (with_status env s)
            db.reservations (λ r e. ground arith),
      );
    };
    update_metadata_keeps = update_metadata-Isolated;
    insert_reservation_keeps = λ p. record {
      at = λ db h. ground (
        arith,
        select-append (λ r. foreign env r.property) db.reservations
            (new_reservation env p (env.new_id db.drawn)),
      );
    };
    insert_guest_keeps = λ first last. record {
      at = λ db h. ground (
        arith,
        select-append (λ g. foreign env g.property) db.guests
            (record {
              id = env.new_id db.drawn;
              property = env.property;
              first_name = first;
              last_name = last;
              deleted_at = none;
            }),
      );
    };
    find_guest_keeps = λ id. record { at = λ db h. ground arith };
    find_item_keeps = λ id. record { at = λ db h. ground arith };
    find_items_keeps = λ k id. record { at = λ db h. ground arith };
    update_item_keeps = update_item-Isolated;
    insert_item_keeps = insert_item-Isolated;
    cancel_items_keeps = λ id. record {
      at = λ db h. ground (
        arith,
        select-update hides_item (is_cancellable env id) (as_cancelled env) db.items
            (λ i e. ground arith),
      );
    };
    reactivate_items_keeps = reactivate_items-Isolated;
    archive_items_keeps = λ id. record {
      at = λ db h. ground (
        arith,
        select-update hides_item (is_item_of env id) (as_deleted env) db.items
            (λ i e. ground arith),
      );
    };
    conflict_check_keeps = λ r dates exclude. record { at = λ db h. ground arith };
    auto_pin_keeps = λ t dates. record { at = λ db h. ground arith };
    bulk_insert_keeps = bulk_insert-Isolated;
    update_ledger_room_keeps = λ id room. record {
      at = λ db h. ground (
        arith,
        select-update hides_row (is_row_of_item env id) (in_room room) db.ledger
            (λ r e. ground arith),
      );
    };
    delete_by_item_keeps = λ id. record {
      at = λ db h.
          ground (
            arith,
            select-delete hides_row (is_row_of_item env id) db.ledger (λ r e. ground arith),
          );
    };
    delete_from_date_keeps = λ id from. record {
      at = λ db h. ground (
        arith,
        select-delete hides_row (is_row_from env id from) db.ledger (λ r e. ground arith),
      );
    };
    delete_by_reservation_keeps = λ id. record {
      at = λ db h. ground (
        arith,
        select-delete hides_row (is_row_of_reservation env id) db.ledger (λ r e. ground arith),
      );
    };
    occupancy_keeps = λ id. record { at = λ db h. ground arith };
    rate_keeps = λ d t p w. record { at = λ db h. ground arith };
    notify_keeps = λ action id. record { at = λ db h. ground arith };
    enqueue_keeps = λ id. record { at = λ db h. ground arith };
  }
