-- ===== src/Gateway/Examples.antt =====
-- Requests over HTTP (internal/booking, internal/platform/middleware, cmd/server/api.go) at concrete texts.
use yop_pms.Prelude.{◌≡◌, ◌⊎◌, refl, true, false, none, some, [], ◌∷◌, if◌then◌else◌}
use text.Mathlib.Text.{◌==◌ as str_eq}
use yop_pms.Availability.{pos}
use yop_pms.Store.{Db, Env, holds}
use yop_pms.Store.Keeps.Isolation.{Isolated}
use yop_pms.Service.{Request, serve}
use yop_pms.Gateway.{cancel_route, HttpRequest, Formats, permission_of, permissions_of}
use yop_pms.Gateway.Handlers.{respond}
use yop_pms.Gateway.Effects.{respond-serve, respond-Isolated}

-- Parsers that know the texts of the example.
abbrev plain_formats : Formats
plain_formats = record {
  parse_uuid = λ s. if str_eq s "1" then some 1 else none;
  split_commas = λ s. s ∷ [];
  trim_space = λ s. s;
  trim_quotes = λ s. s;
  atoi = λ s. some (pos 1);
  create_body = λ s. none;
  item_body = λ s. none;
  metadata_body = λ s. none;
  room_body = λ s. none;
  is_cancel_body = λ s. true;
  is_valid_create = λ i. true;
  is_valid_item = λ i. true;
  is_valid_room = λ i. true;
  is_valid_cancel = λ s. true;
}

abbrev cancel_request : HttpRequest
cancel_request = record {
  property_header = "1";
  permissions_header = "reservations:cancel";
  if_match_header = "1";
  id = "1";
  include = "";
  body = "{}";
}

abbrev no_rows_yet : Db
no_rows_yet = record {
  reservations = [];
  items = [];
  ledger = [];
  rooms = [];
  room_types = [];
  base_rates = [];
  guests = [];
  outbox = [];
  notices = [];
  drawn = 0;
  aborted = false;
}

abbrev noon : Env
noon = record {
  property = 1;
  user = 0;
  permissions = [];
  if_match = 0;
  now = 5;
  midnight_today = some 0;
  new_id = λ n. n;
  locked = λ room. false;
  fault = λ q k. none;
}

respond-serve_example :
    ((respond plain_formats cancel_route cancel_request noon no_rows_yet).db ≡ no_rows_yet)
    ⊎ ((r : Request) × (e : Env) × ((respond plain_formats cancel_route cancel_request noon
            no_rows_yet).db
          ≡ serve r e no_rows_yet)
        × (plain_formats.parse_uuid "1" ≡ some e.property)
        × (holds (permissions_of plain_formats "reservations:cancel") (permission_of cancel_route)
            ≡ true))
respond-serve_example = respond-serve plain_formats cancel_route cancel_request noon no_rows_yet

respond-Isolated_example :
    Isolated noon no_rows_yet
      (respond plain_formats cancel_route cancel_request noon no_rows_yet).db
respond-Isolated_example =
    respond-Isolated plain_formats cancel_route cancel_request noon no_rows_yet refl
