-- ===== src/Availability.antt =====
-- internal/booking/availability.go: the free rooms of a type for each night, behind a cache in Redis.
pub mod Count
pub mod Range
pub mod Coherence
pub mod Answers
pub mod Shared
pub mod Created
mod Examples
use yop_pms.Prelude.{
  ℕ, zero, suc, ◌+◌, ◌-◌, Bool, true, false, not, ◌&&◌, ◌||◌, Option, none, some, List, [], ◌∷◌,
  map, leb, ltb, ◌==◌, if◌then◌else◌, is_none, coalesce, any_where, count_where, select_where,
}
use yop_pms.Calendar.{date_of, nights_between}
use yop_pms.Store.{Db, LedgerRow, Room, Result, ok, err, api, plain, invalid_dates}
use yop_pms.Store.Ledger.{blocks}
use yop_pms.Redis.{Key, availability, Redis}

pub data ℤ : Type 0 where
  pos negsuc : ℕ → ℤ

-- The difference of two counts.
unfoldable pub minus : ℕ → ℕ → ℤ
minus a b = if leb b a then pos (a - b) else negsuc (b - a - 1)

-- The text of a number in the cache, by strconv.ParseInt and the client's formatting.
pub record Decimal (V : Type 0) : Type 0 where
  pub parse : V → Option ℤ
  pub print : ℤ → V

-- DateAvailability
pub record DateAvailability : Type 0 where
  pub night : ℕ
  pub available : ℤ

-- The property and the room type that are asked for.
pub record Scope : Type 0 where
  pub property : ℕ
  pub room_type : ℕ

abbrev pub is_room_of : Scope → Room → Bool
is_room_of s r = r.room_type == s.room_type && r.property == s.property

-- room_id IN (SELECT id …)
abbrev pub is_in : Scope → List Room → ℕ → Bool
is_in s rooms id = any_where (λ r. r.id == id && is_room_of s r) rooms

abbrev pub takes : Scope → List Room → ℕ → LedgerRow → Bool
takes s rooms date l = l.date == date && (blocks l.status && is_in s rooms l.room)

-- A row of `availQuery`: the rooms of the type less the ledger rows that block one of them.
unfoldable pub available_on : Db → Scope → ℕ → ℤ
unfolding minus
available_on db s date =
    minus (count_where (is_room_of s) db.rooms) (count_where (takes s db.rooms date) db.ledger)

-- generate_series($3, $4, '1 day'): `n` days from the first.
unfoldable pub series : ℕ → ℕ → List ℕ
series first zero = []
series first (suc n) = first ∷ series (suc first) n

-- The map that the rows are read into; a date that is not there has the value 0.
unfoldable pub value_on : Db → Scope → List ℕ → ℕ → ℤ
unfolding available_on
value_on db s [] date = pos 0
value_on db s (d ∷ dates) date =
    let rest = value_on db s dates date in if d == date then available_on db s d else rest

abbrev pub last_of : ℕ → List ℕ → ℕ
last_of d [] = d
last_of d (e ∷ dates) = last_of e dates

-- The dates from that of the first night to that of the last.
abbrev pub queried : List ℕ → List ℕ
queried [] = []
queried (night ∷ nights) =
    series (date_of night) (suc (date_of (last_of night nights)) - date_of night)

-- What `CheckAvailability` answers, and the cache after it.
pub record Answer (R : Type 0) : Type 0 where
  pub result : Result (List DateAvailability)
  pub store : R

-- What can fail: the MGET and the query, where the field is true, and the SET of a night, where it is false.
pub record Faults : Type 0 where
  pub mget : Bool
  pub query : Bool
  pub writes : ℕ → Bool

module _ {V R : Type 0} (redis : Redis V R) (decimal : Decimal V) where
  abbrev parsed : Option V → Option ℤ
  parsed none = none
  parsed (some v) = decimal.parse v

  abbrev pub key_of : Scope → ℕ → Key
  key_of s night = availability s.property s.room_type (date_of night)

  -- The number that the cache holds for a night, if it holds one that parses.
  abbrev pub cached : R → Scope → ℕ → Option ℤ
  cached r s night = parsed (redis.get (key_of s night) r)

  -- The pipeline of SETs; some may fail.
  unfoldable pub store_all : (ℕ → Bool) → Scope → (ℕ → ℤ) → List ℕ → R → R
  store_all writes s value [] r = r
  store_all writes s value (night ∷ nights) r = store_all writes s value nights (
      if writes night
      then redis.set (key_of s night) (decimal.print (value (date_of night))) r
      else r)

  abbrev pub uncached : R → Scope → List ℕ → List ℕ
  uncached r s nights = select_where (λ night. is_none (cached r s night)) nights

  -- buildAvailabilityResult
  unfoldable pub build_result : R → Scope → (ℕ → ℤ) → List ℕ → List DateAvailability
  build_result r s value nights =
      map
        (λ night. record {
          night = night;
          available = coalesce (cached r s night) (value (date_of night));
        })
        nights

  abbrev pub value_of : Db → R → Scope → List ℕ → ℕ → ℤ
  value_of db r s nights = value_on db s (queried (uncached r s nights))

  -- The part of `CheckAvailability` for the nights that the cache has not.
  unfoldable pub fill : Faults → Db → R → Scope → List ℕ → Answer R
  unfolding value_on build_result store_all
  fill f db r s nights = if f.query then record { result = err plain; store = r } else record {
    result = ok (build_result r s (value_of db r s nights) nights);
    store = store_all f.writes s (value_of db r s nights) (uncached r s nights) r;
  }

  -- CheckAvailability; without a night to look up it asks the database nothing. `f.mget` says that the MGET fails,
  -- as it does without keys, which takes two instants of one day: the handler passes dates.
  unfoldable pub check_availability : Faults → Db → R → Scope → ℕ → ℕ → Answer R
  unfolding fill build_result
  check_availability f db r s start end =
      let nights = nights_between start end in
      if not (ltb start end)
      then record { result = err (api invalid_dates); store = r }
      else if f.mget
      then record { result = err plain; store = r }
      else elim (uncached r s nights) [
        | [] ↦ record { result = ok (build_result r s (λ d. pos 0) nights); store = r }
        | _ ∷ _ ↦ fill f db r s nights
      ]

  -- InvalidateAvailabilityCache; a DEL that fails is logged.
  unfoldable pub delete_all : (ℕ → Bool) → Scope → List ℕ → R → R
  delete_all deletes s [] r = r
  delete_all deletes s (night ∷ nights) r =
      delete_all deletes s nights (if deletes night then redis.del (key_of s night) r else r)

  unfoldable pub invalidate_availability_cache : (ℕ → Bool) → Scope → ℕ → ℕ → R → R
  unfolding delete_all
  invalidate_availability_cache deletes s arrival departure r =
      delete_all deletes s (nights_between arrival departure) r
