-- ===== src/Booking/Keeps/Workers.antt =====
-- The transactions of Booking/Workers.antt.
use yop_pms.Prelude.{ℕ, String, Bool, true, false, inl, inr, Bool-cases, Option-cases}
use yop_pms.Store.{
  Db, Env, Item, Reservation, Result, ok, err, begin, commit, set_property, get_item,
}
use yop_pms.Store.Tx.{Tx}
use yop_pms.Store.Tx.Keeps.{Keeps, After, Keeps-attempt, keeps_rules, Keeps-statement}
use yop_pms.Store.Keeps.Interface.{KeptByStatements}
use yop_pms.Booking.Workers.{
  settle, worker_tx, announce, cancel_hold_body, current_status, mark_overstay_body,
  archive_reservation_body,
}

settle_keeps :
    (P : Db → Type 0) (env : Env) (db : Db) (r : Result (Bool × Db))
    → P db
    → After P r
    → P (settle env db r).db
unfolding settle
settle_keeps P env db (err e) h k = h
settle_keeps P env db (ok (false, db')) h k = h
settle_keeps P env db (ok (true, db')) h k = elim (Option-cases (env.fault commit 0)) [
  | inl e ↦ elim (Bool-cases db'.aborted) [
    | inl b ↦ rw (e, b, settle) h
    | inr b ↦ rw (e, settle) (simp b k)
  ]
  | inr (x, e) ↦ rw (e, settle) h
]

-- A worker's transaction keeps what its body keeps.
pub worker_tx-keeps :
    (P : Db → Type 0) (env : Env) (body : Tx Bool) (db : Db)
    → Keeps P body
    → P db
    → P (worker_tx env body db).db
unfolding worker_tx
worker_tx-keeps P env body db kb h = elim (Option-cases (env.fault begin 0)) [
  | inl e ↦ elim (Option-cases (env.fault set_property 0)) [
    | inl f ↦ rw (e, f, worker_tx) (settle_keeps P env db (body db) h (kb.at db h))
    | inr (x, f) ↦ rw (e, f, worker_tx) h
  ]
  | inr (x, e) ↦ rw (e, worker_tx) h
]

module _ {env : Env} {P : Db → Type 0} (k : KeptByStatements env P) where
  announce-Keeps : (action : String) (id rows : ℕ) → Keeps P (announce env action id rows)
  announce-Keeps action id rows =
      search (keeps_rules, Keeps-attempt k.blind, k.notify_keeps) depth 10

  pub cancel_hold-Keeps : (res : Reservation) → Keeps P (cancel_hold_body env res)
  unfolding cancel_hold_body
  cancel_hold-Keeps res =
      search
        (
          keeps_rules, k.cancel_items_keeps, k.delete_by_reservation_keeps, k.update_status_keeps,
          announce-Keeps,
        )
        depth 14

  current_status-Keeps : (id : ℕ) → Keeps P (current_status env id)
  unfolding current_status
  current_status-Keeps id = Keeps-statement env get_item 0 _ (record { at = λ db h. h })

  pub mark_overstay-Keeps : (item : Item) → Keeps P (mark_overstay_body env item)
  unfolding mark_overstay_body
  mark_overstay-Keeps item =
      search
        (
          keeps_rules,
          current_status-Keeps,
          k.update_item_keeps,
          Keeps-attempt k.blind,
          k.notify_keeps,
        )
        depth 14

  pub archive-Keeps : (res : Reservation) → Keeps P (archive_reservation_body env res)
  unfolding archive_reservation_body
  archive-Keeps res =
      search (keeps_rules, k.archive_items_keeps, k.update_status_keeps, announce-Keeps) depth 14
