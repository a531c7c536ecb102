-- ===== src/Store/Keeps/NoDouble.antt =====
-- The rows of the ledger for a room and a date, through the statements of internal/store.
use yop_pms.Prelude.{
  ℕ, ◌≤◌, ◌≡◌, refl, Bool, true, false, ◌&&◌, some, List, [], ◌∷◌, ltb, ◌==◌, inl, inr, Bool-cases,
  Option-cases, count_where, any_where, update_where, delete_where, arith,
}
use yop_pms.Store.{Db, Env, LedgerRow}
use yop_pms.Store.Tx.Keeps.{Keeps}
use yop_pms.Store.Reservations.{
  find_reservation, update_reservation_status, update_reservation_metadata, insert_reservation,
  insert_guest, find_guest,
}
use yop_pms.Store.Items.{
  find_item, find_items, update_reservation_item, insert_item, cancel_reservation_items,
  reactivate_reservation_items, archive_reservation_items,
}
use yop_pms.Store.Ledger.{
  same_slot, insert_rows, sold_row, is_row_of_item, is_row_from, is_row_of_reservation, in_room,
  conflict_check_on_ledger, select_room_for_auto_pin, bulk_insert_ledger_rows,
  update_ledger_row_room, delete_ledger_rows_by_item, delete_ledger_rows_by_item_from_date,
  delete_ledger_for_reservation, get_room_type_occupancy, get_rate,
}
use yop_pms.Store.Events.{notify_reservation_change, enqueue_confirmation}
use yop_pms.Store.Keeps.Interface.{KeptByStatements}

abbrev pub rows_at : ℕ → ℕ → List LedgerRow → ℕ
rows_at room date ledger = count_where (same_slot room date) ledger

-- At most one row for the room and the date.
abbrev pub Single : ℕ → ℕ → Db → Type 0
Single room date db = rows_at room date db.ledger ≤ 1

count-delete :
    (q p : LedgerRow → Bool) (l : List LedgerRow)
    → count_where q (delete_where p l) ≤ count_where q l
unfolding count_where delete_where
count-delete q p [] = omega arith
count-delete q p (r ∷ l) = ground (arith, count-delete q p l)

any-count_none :
    (q : LedgerRow → Bool) (l : List LedgerRow) → any_where q l ≡ false → count_where q l ≡ 0
unfolding any_where count_where
any-count_none q [] h = refl
any-count_none q (r ∷ l) h = ground (arith, any-count_none q l)

slot_eq :
    (room date to d : ℕ) (l : List LedgerRow)
    → to ≡ room
    → d ≡ date
    → rows_at to d l ≡ rows_at room date l
slot_eq room date to d l e f = rw (e, f) refl

module _ (room date : ℕ) where
  insert_rows-single :
      (env : Env) (r v i : ℕ) (dates : List ℕ) (l l' : List LedgerRow)
      → rows_at room date l ≤ 1
      → insert_rows (sold_row env r v i) dates l ≡ some l'
      → rows_at room date l' ≤ 1
  unfolding insert_rows count_where
  insert_rows-single env r v i [] l l' h e = ground arith
  insert_rows-single env r v i (d ∷ dates) l l' h e = ground (
    arith,
    any-count_none (same_slot r d) l,
    slot_eq room date r d l,
    insert_rows-single env r v i dates (sold_row env r v i d ∷ l) l',
  )

  -- A row that is moved into the slot, and the check that its slot is not shared.
  moved_in :
      (m : LedgerRow → Bool) (to : ℕ) (after l : List LedgerRow)
      → any_where (λ r. m r && ltb 1 (count_where (same_slot to r.date) after)) l ≡ false
      → any_where (λ r. m r && (to == room && r.date == date)) l ≡ true
      → rows_at room date after ≤ 1
  unfolding any_where
  moved_in m to after [] h k = cc
  moved_in m to after (r ∷ l) h k =
      ground (arith, slot_eq room date to r.date after, moved_in m to after l)

  not_moved_in :
      (m : LedgerRow → Bool) (to : ℕ) (l : List LedgerRow)
      → any_where (λ r. m r && (to == room && r.date == date)) l ≡ false
      → rows_at room date (update_where m (in_room to) l) ≤ rows_at room date l
  unfolding any_where update_where count_where
  not_moved_in m to [] h = omega arith
  not_moved_in m to (r ∷ l) h = ground (arith, not_moved_in m to l)

  update-single :
      (m : LedgerRow → Bool) (to : ℕ) (l : List LedgerRow)
      → rows_at room date l ≤ 1
      → any_where
          (λ r. m r && ltb 1 (count_where (same_slot to r.date) (update_where m (in_room to) l)))
          l
        ≡ false
      → rows_at room date (update_where m (in_room to) l) ≤ 1
  update-single m to l h k =
      elim (Bool-cases (any_where (λ r. m r && (to == room && r.date == date)) l)) [
        | inl e ↦ moved_in m to (update_where m (in_room to) l) l k e
        | inr e ↦ omega (arith, not_moved_in m to l e)
      ]

  module _ (env : Env) where
    bulk_insert-Single :
        (r v i : ℕ) (dates : List ℕ)
        → Keeps (Single room date) (bulk_insert_ledger_rows env (sold_row env r v i) dates)
    unfolding bulk_insert_ledger_rows
    bulk_insert-Single r v i dates = record {
      at = λ db h. elim (Option-cases (insert_rows (sold_row env r v i) dates db.ledger)) [
        | inl e ↦ ground arith
        | inr (l', e) ↦ ground (arith, insert_rows-single env r v i dates db.ledger l' h e)
      ];
    }

    update_ledger_room-Single :
        (id to : ℕ) → Keeps (Single room date) (update_ledger_row_room env id to)
    unfolding update_ledger_row_room
    update_ledger_room-Single id to = record {
      at = λ db h. ground (arith, update-single (is_row_of_item env id) to db.ledger h);
    }

    -- Every statement keeps it.
    pub statements-Single : KeptByStatements env (Single room date)
    unfolding find_reservation update_reservation_status update_reservation_metadata
        insert_reservation insert_guest find_guest find_item find_items update_reservation_item
        insert_item cancel_reservation_items reactivate_reservation_items archive_reservation_items
        conflict_check_on_ledger select_room_for_auto_pin delete_ledger_rows_by_item
        delete_ledger_rows_by_item_from_date delete_ledger_for_reservation get_room_type_occupancy
        get_rate notify_reservation_change enqueue_confirmation
    statements-Single = record {
      blind = λ db b h. h;
      find_reservation_keeps = λ k id. record { at = λ db h. ground arith };
      update_status_keeps = λ id version s. record { at = λ db h. ground arith };
      update_metadata_keeps = λ p. record { at = λ db h. ground arith };
      insert_reservation_keeps = λ p. record { at = λ db h. ground arith };
      insert_guest_keeps = λ first last. record { at = λ db h. ground arith };
      find_guest_keeps = λ id. record { at = λ db h. ground arith };
      find_item_keeps = λ id. record { at = λ db h. ground arith };
      find_items_keeps = λ k id. record { at = λ db h. ground arith };
      update_item_keeps = λ k p. record { at = λ db h. ground arith };
      insert_item_keeps = λ new_item e. record { at = λ db h. ground arith };
      cancel_items_keeps = λ id. record { at = λ db h. ground arith };
      reactivate_items_keeps = λ id. record { at = λ db h. ground arith };
      archive_items_keeps = λ id. record { at = λ db h. ground arith };
      conflict_check_keeps = λ r dates exclude. record { at = λ db h. ground arith };
      auto_pin_keeps = λ t dates. record { at = λ db h. ground arith };
      bulk_insert_keeps = bulk_insert-Single;
      update_ledger_room_keeps = update_ledger_room-Single;
      delete_by_item_keeps = λ id. record {
        at = λ db h.
            ground (arith, count-delete (same_slot room date) (is_row_of_item env id) db.ledger);
      };
      delete_from_date_keeps = λ id from. record {
        at = λ db h.
            ground (arith, count-delete (same_slot room date) (is_row_from env id from) db.ledger);
      };
      delete_by_reservation_keeps = λ id. record {
        at = λ db h.
            ground
              (arith, count-delete (same_slot room date) (is_row_of_reservation env id) db.ledger);
      };
      occupancy_keeps = λ id. record { at = λ db h. ground arith };
      rate_keeps = λ d t p w. record { at = λ db h. ground arith };
      notify_keeps = λ action id. record { at = λ db h. ground arith };
      enqueue_keeps = λ id. record { at = λ db h. ground arith };
    }
