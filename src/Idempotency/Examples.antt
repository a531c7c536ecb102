-- ===== src/Idempotency/Examples.antt =====
-- The middleware of internal/platform/middleware/idempotency.go at concrete requests.
use yop_pms.Prelude.{
  true, ◌+◌, ◌≤◌, ◌≡◌, refl, String, false, none, some, List, [], ◌∷◌, delete_where,
}
use yop_pms.Redis.{Key, idempotency}
use yop_pms.Redis.Table.{table, table-IsRedis, get, del, set_nx}
use yop_pms.Idempotency.Capture.{
  set_header, write_header, write_body, capture, capture_all, handle_call, write_status,
}
use yop_pms.Idempotency.{
  Incoming, SavedRecord, Codec, IsCodec, replayed, refused, reserve, request_fingerprint,
}
use yop_pms.Idempotency.Guard.{Round, Wait, Run, deadline, guard}
use yop_pms.Idempotency.Replays.{guard-conflict, guard-replays}
use yop_pms.Idempotency.Exclusion.{
  World, starts, fails_open, expires, Reach, start, later, running_under, lapses_of, failures_of,
  Reach-exclusive,
}

abbrev plain_texts : Codec SavedRecord
plain_texts = record {
  write = λ s. s;
  read = some;
  encode = λ s. s;
  decode = some;
  digest = λ s. s;
}

plain_texts-IsCodec : IsCodec plain_texts
plain_texts-IsCodec = record { read-write = λ s. refl; decode-encode = λ s. refl }

abbrev Store : Type 0
Store = List (Key × SavedRecord)

abbrev quiet : Round Store
quiet = record { others = λ r. r; get_down = false; set_down = false; abandoned = false }

abbrev patient : Wait Store
patient = record { first = quiet; ticks = quiet ∷ []; ending = deadline }

abbrev created_run : Run Store
created_run = record {
  calls = set_header "Content-Type" "application/json" ∷ write_header 201 ∷ write_body "{}" ∷ [];
  meanwhile = λ r. r;
  save_down = false;
}

abbrev refused_run : Run Store
refused_run = record created_run { calls = write_header 422 ∷ [] }

abbrev post : Incoming
post = record {
  method = "POST";
  key = "k1";
  uri = "/v1/reservations";
  authorization = "";
  body = some "{}";
}

guard-replays_example :
    guard table plain_texts false patient created_run post
      (guard table plain_texts false patient created_run post []).store
    ≡ record {
      sent = replayed 201 (("Content-Type", "application/json") ∷ []) "{}";
      ran = false;
      store = (guard table plain_texts false patient created_run post []).store;
    }
unfolding get capture capture_all handle_call write_status delete_where
guard-replays_example =
    guard-replays table plain_texts table-IsRedis plain_texts-IsCodec patient patient created_run
      created_run post "{}" [] (refl, refl, refl) refl refl refl refl (λ x. refl)

abbrev held_by : String → Store
held_by fingerprint =
    (idempotency "k1", record { state = "processing"; fingerprint = fingerprint; response = none })
    ∷ []

guard-conflict_example :
    guard table plain_texts false patient created_run post (held_by "another") ≡ record {
      sent = refused 409 "Idempotency-Key was already used for a different request";
      ran = false;
      store = held_by "another";
    }
unfolding get request_fingerprint
guard-conflict_example =
    guard-conflict table plain_texts table-IsRedis plain_texts-IsCodec patient created_run post "{}"
      (record { state = "processing"; fingerprint = "another"; response = none })
      (held_by "another") (refl, refl, refl) refl refl refl refl

abbrev three_runs : World Store
three_runs = record {
  store = held_by "f";
  running =
      record { key = "k1"; fingerprint = "f"; guarded = false }
      ∷ record { key = "k1"; fingerprint = "f"; guarded = true }
      ∷ record { key = "k1"; fingerprint = "f"; guarded = true }
      ∷ [];
  lapsed = "k1" ∷ [];
  let_through = "k1" ∷ [];
}

-- A request starts, its lock expires, the same request starts again, and once more while Redis is away.
three_started : Reach table plain_texts [] three_runs
unfolding get reserve del set_nx delete_where
three_started =
    later
      (later (later (later start (starts "k1" "f" (held_by "f") refl)) (expires "k1"))
        (starts "k1" "f" (held_by "f") refl))
      (fails_open "k1" "f")

Reach-exclusive_example :
    running_under table plain_texts "k1" three_runs
    ≤ 1
      + lapses_of table plain_texts "k1" three_runs
      + failures_of table plain_texts "k1" three_runs
Reach-exclusive_example =
    Reach-exclusive table plain_texts table-IsRedis plain_texts-IsCodec [] three_runs "k1"
      three_started
