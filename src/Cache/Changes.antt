-- ===== src/Cache/Changes.antt =====
-- What a notification of a changed reservation leaves of the cache, and which keys of the planner it takes for
-- those of the stay.
use text.Mathlib.Text.{starts_with, find?}
use Prim.Native.String.{len, slice}
use yop_pms.Prelude.{
  ℕ, ◌+◌, ◌-◌, ◌≤◌, ◌<◌, ◌≡◌, refl, String, Bool, true, false, ◌&&◌, ◌||◌, Option, none, some, List,
  [], ◌∷◌, ltb, if◌then◌else◌, any_where, is_none, arith, inl, inr, Option-cases, ◌↔◌, Bool-cases,
  ==_iff, ◌==◌, zero, suc,
}
use yop_pms.Prelude.Dict.{contains_text}
use yop_pms.Cache.{Server, IsServer, Round, invalidate}
use yop_pms.Cache.Invalidation.{
  Payload, Change, Dates, nights_from, parse_reservation_change, planner_key_overlaps,
  planner_prefix, is_overlap, night_pattern, record_pattern, planner_pattern, planner_doomed,
  invalidate_nights, invalidate_availability, invalidate_planner, on_reservation_change,
}
use yop_pms.Cache.Described.{Evicted, IsRange, Scans}
use yop_pms.Cache.Evictions.{
  scanned, all_answered, invalidate_if-get, invalidate-if_true, invalidate_if-ends,
}

abbrev later_of : ℕ → ℕ → ℕ
later_of a b = if ltb a b then b else a

shares :
    (a b s e : ℕ)
    → a < b
    → s < e
    → ((ltb a e && ltb s b) ≡ true) ↔ ((d : ℕ) × (a ≤ d) × (d < b) × (s ≤ d) × (d < e))
shares a b s e h k = (
  λ o. (
    later_of a s,
    ground (arith, h, k, o),
    ground (arith, h, k, o),
    ground (arith, h, k, o),
    ground (arith, h, k, o),
  ),
  λ (d, p, q, u, v). ground (arith, p, q, u, v),
)

module _ (dates : Dates) where
  -- A planner key whose dates can be read is taken for the stay's exactly if a night of the stay lies in
  -- its range. Neither of them is empty.
  pub planner_key_overlaps-shares :
      (key property_id : String) (check_in check_out key_start key_end i : ℕ)
      → let rest = slice key (len (planner_prefix property_id)) (len key) in
        starts_with key (planner_prefix property_id) ≡ true
        → find? rest ":" ≡ some i
        → dates.parse (slice rest 0 i) ≡ some key_start
        → dates.parse (slice rest (i + 1) (len rest)) ≡ some key_end
        → check_in < check_out
        → key_start < key_end
        → (is_overlap (planner_key_overlaps dates key property_id check_in check_out) ≡ true)
          ↔ ((d : ℕ) × (check_in ≤ d) × (d < check_out) × (key_start ≤ d) × (d < key_end))
  unfolding planner_key_overlaps
  planner_key_overlaps-shares key property_id check_in check_out key_start key_end i p f s e hc hk =
      rw (p, f, s, e) (shares check_in check_out key_start key_end hc hk)

abbrev nights_of : Change → List ℕ
nights_of change = nights_from (change.check_out - change.check_in) change.check_in

any-nights :
    (p : ℕ → Bool) (n d : ℕ)
    → any_where p (nights_from n d) ≡ true
    → (x : ℕ) × (d ≤ x) × (x < d + n) × (p x ≡ true)
unfolding any_where nights_from
any-nights p zero d h = cc
any-nights p (suc n) d h = elim (Bool-cases (p d)) [
  | inl l ↦ (d, omega arith, omega arith, l)
  | inr l ↦
      let (x, u, v, w) = any-nights p n (d + 1) (ground (arith, h, l)) in
      (x, omega (arith, u), omega (arith, v), w)
]

nights-any :
    (p : ℕ → Bool) (n d x : ℕ)
    → d ≤ x
    → x < d + n
    → p x ≡ true
    → any_where p (nights_from n d) ≡ true
unfolding any_where nights_from
nights-any p zero d x l u h = absurd (omega (arith, l, u))
nights-any p (suc n) d x l u h = elim (Bool-cases (d == x)) [
  | inl e ↦ rw ((==_iff d x).0 e) (rw h refl)
  | inr e ↦
      let later = nights-any p n (d + 1) x (ground (arith, l, e)) (ground (arith, u)) h in
      ground (arith, later)
]

module _ (dates : Dates) (change : Change) (k : String) where
  abbrev property : String
  property = change.payload.property_id

  abbrev suffix : String
  suffix = slice k (len (planner_prefix property)) (len k)

  doomed-IsRange :
      planner_doomed dates change k ≡ true
      → (s : ℕ) × (e : ℕ) × IsRange dates property s e k
        × (s < change.check_out)
        × (change.check_in < e)
  unfolding planner_key_overlaps
  doomed-IsRange h = elim (Bool-cases (starts_with k (planner_prefix property))) [
    | inr p ↦ ground (arith, h, p)
    | inl p ↦ elim (Option-cases (find? suffix ":")) [
      | inl f ↦ ground (arith, h, p, f)
      | inr (i, f) ↦ elim (Option-cases (dates.parse (slice suffix 0 i))) [
        | inl a ↦ ground (arith, h, p, f, a)
        | inr (s, a) ↦ elim (Option-cases (dates.parse (slice suffix (i + 1) (len suffix)))) [
          | inl b ↦ ground (arith, h, p, f, a, b)
          | inr (e, b) ↦ (
            s,
            e,
            (p, (i, f, a, b)),
            ground (arith, h, p, f, a, b),
            ground (arith, h, p, f, a, b),
          )
        ]
      ]
    ]
  ]

  IsRange-doomed :
      (s e : ℕ)
      → IsRange dates property s e k
      → s < change.check_out
      → change.check_in < e
      → planner_doomed dates change k ≡ true
  unfolding planner_key_overlaps
  IsRange-doomed s e (p, (i, f, a, b)) l u = rw (p, f, a, b) (ground (arith, l, u))

module _ (dates : Dates) {V R : Type 0} (server : Server V R) (laws : IsServer server)
    (script : String → List Round) (answers : (p : String) → all_answered (script p) ≡ true) where
  invalidate-get :
      (p k : String) (r : R)
      → server.get k ((invalidate server (script p) r).1)
        ≡ (if contains_text k (scanned (script p)) then none else server.get k r)
  invalidate-get p k r = ground (
    arith,
    invalidate-if_true server laws (script p) r,
    invalidate_if-get server laws (λ j. true) (script p) k r
        (invalidate_if-ends server laws (λ j. true) (script p) r (answers p)),
  )

  invalidate_nights-get :
      (change : Change) (nights : List ℕ) (k : String) (r : R)
      → server.get k (invalidate_nights dates server script change nights r) ≡ (
          if any_where
            (λ d. contains_text k (scanned (script (night_pattern dates change d))))
            nights
          then none
          else server.get k r)
  unfolding invalidate_nights any_where
  invalidate_nights-get change [] k r = refl
  invalidate_nights-get change (d ∷ nights) k r = ground (
    arith,
    invalidate-get (night_pattern dates change d) k r,
    invalidate_nights-get change nights k
        ((invalidate server (script (night_pattern dates change d)) r).1),
  )

  -- The keys that the scans find, of those that are to go.
  abbrev is_found : Change → String → Bool
  is_found change k =
      any_where (λ d. contains_text k (scanned (script (night_pattern dates change d))))
        (nights_of change)
      || contains_text k (scanned (script (record_pattern change)))
      || (contains_text k (scanned (script (planner_pattern change)))
          && planner_doomed dates change k)

  changed-get :
      (change : Change) (k : String) (r : R)
      → server.get k (
          invalidate_planner dates server script change
            (invalidate_availability dates server script change r))
        ≡ (if is_found change k then none else server.get k r)
  unfolding invalidate_planner invalidate_availability
  changed-get change k r =
      let nights = invalidate_nights dates server script change (nights_of change) r in
      let r' = (invalidate server (script (record_pattern change)) nights).1 in
      ground (
        arith,
        invalidate_nights-get change (nights_of change) k r,
        invalidate-get (record_pattern change) k nights,
        invalidate_if-get server laws (planner_doomed dates change)
            (script (planner_pattern change)) k r'
            (invalidate_if-ends server laws (planner_doomed dates change)
              (script (planner_pattern change)) r' (answers (planner_pattern change))),
      )

  module _ (change : Change) (k : String) (r : R)
      (finds : Scans dates server.get script change.payload.property_id change.payload.record_id r)
      (there : is_none (server.get k r) ≡ false) where
    abbrev is_found_for : ℕ → Bool
    is_found_for d = contains_text k (scanned (script (night_pattern dates change d)))

    found-Evicted : is_found change k ≡ true → Evicted dates change k
    found-Evicted h = elim (Bool-cases (any_where is_found_for (nights_of change))) [
      | inl a ↦
          let (d, l, u, f) =
            any-nights is_found_for (change.check_out - change.check_in) change.check_in a in
          inl (d, l, ground (arith, l, u), ground (arith, f, finds.nights d k there))
      | inr a ↦ elim (Bool-cases (contains_text k (scanned (script (record_pattern change))))) [
        | inl b ↦ inr (inl (ground (arith, b, finds.entry k there)))
        | inr b ↦ inr (inr (doomed-IsRange dates change k (ground (arith, h, a, b))))
      ]
    ]

    Evicted-found : Evicted dates change k → is_found change k ≡ true
    Evicted-found (inl (d, l, u, f)) =
        let a =
          nights-any is_found_for (change.check_out - change.check_in) change.check_in d l
            (ground (arith, l, u)) (ground (arith, f, finds.nights d k there)) in
        ground (arith, a)
    Evicted-found (inr (inl e)) = ground (arith, e, finds.entry k there)
    Evicted-found (inr (inr (s, e, x, l, u))) =
        ground (arith, x.0, finds.planner k there, IsRange-doomed dates change k s e x l u)

  -- A notification that can be read leaves no key that its change is to evict: the availability of the stay's
  -- nights for any room type, the reservation, and the planner's ranges that overlap the stay. Every other key is
  -- as it was. Redis answers, and each scan finds, of the keys that are there, those that its pattern describes.
  pub on_reservation_change-get :
      (payload : Option Payload) (change : Change) (r : R)
      → parse_reservation_change dates payload ≡ some change
      → Scans dates server.get script change.payload.property_id change.payload.record_id r
      → (k : String)
      → (Evicted dates change k
          → server.get k ((on_reservation_change dates server script payload r).1) ≡ none)
        × (¬ Evicted dates change k
            → server.get k ((on_reservation_change dates server script payload r).1)
              ≡ server.get k r)
  unfolding on_reservation_change
  on_reservation_change-get payload change r e finds k =
      rw e (elim (Option-cases (server.get k r)) [
        | inl n ↦
            let c = changed-get change k r in (λ x. ground (arith, n, c), λ x. ground (arith, n, c))
        | inr (v, n) ↦
            let c = changed-get change k r in
            let there : is_none (server.get k r) ≡ false = ground (arith, n) in
            (
              λ x. ground (arith, c, Evicted-found change k r finds there x),
              λ x. elim (Bool-cases (is_found change k)) [
                | inl f ↦ absurd (x (found-Evicted change k r finds there f))
                | inr f ↦ ground (arith, c, f)
              ],
            )
      ])
