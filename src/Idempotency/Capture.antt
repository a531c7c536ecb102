-- ===== src/Idempotency/Capture.antt =====
-- `responseCapture` of internal/platform/middleware/idempotency.go: the writer that passes a response on and
-- keeps it.
use Prim.Native.String.{◌++◌ as append}
use text.Mathlib.Text.{◌==◌ as str_eq}
use text.Mathlib.TextLemmas.{nil-append, append-nil, append_assoc}
use yop_pms.Prelude.{
  ℕ, ◌≡◌, refl, ap, sym, ◌∙◌, String, Bool, true, false, List, [], ◌∷◌, ◌++◌, if◌then◌else◌,
  delete_where, append-empty, arith,
}

-- What a handler does with its writer: set a header, write the status, write a part of the body.
pub data Call : Type 0 where
  set_header : String → String → Call
  write_header : ℕ → Call
  write_body : String → Call

-- responseCapture; `header` is the live header of the wrapped writer, by first values, and
-- `forwarded` what the wrapped writer is asked to do.
pub record Captured : Type 0 where
  pub status : ℕ
  pub body : String
  pub written : Bool
  pub headers_copy : List (String × String)
  pub header : List (String × String)
  pub forwarded : List Call

-- newResponseCapture
abbrev pub new_response_capture : Captured
new_response_capture = record {
  status = 0;
  body = "";
  written = false;
  headers_copy = [];
  header = [];
  forwarded = [];
}

-- WriteHeader
unfoldable pub write_status : ℕ → Captured → Captured
write_status status rc = if rc.written then rc else record rc {
  written = true;
  status = status;
  headers_copy = rc.header;
  forwarded = rc.forwarded ++ (write_header status ∷ []);
}

-- Header().Set
abbrev set_to : String → String → List (String × String) → List (String × String)
set_to k v header = (k, v) ∷ delete_where (λ h. str_eq h.0 k) header

-- Write, after the WriteHeader that it may do.
abbrev write_part : String → Captured → Captured
write_part part rc = record rc {
  body = append rc.body part;
  forwarded = rc.forwarded ++ (write_body part ∷ []);
}

unfoldable pub handle_call : Call → Captured → Captured
unfolding write_status delete_where
handle_call (set_header k v) rc = record rc {
  header = set_to k v rc.header;
  forwarded = rc.forwarded ++ (set_header k v ∷ []);
}
handle_call (write_header status) rc = write_status status rc
handle_call (write_body part) rc = write_part part (write_status 200 rc)

unfoldable pub capture_all : List Call → Captured → Captured
capture_all [] rc = rc
capture_all (c ∷ calls) rc = capture_all calls (handle_call c rc)

unfoldable pub capture : List Call → Captured
unfolding capture_all
capture calls = capture_all calls new_response_capture

-- The statuses that the wrapped writer is given, and the body that it writes.
abbrev pub statuses : List Call → List ℕ
statuses [] = []
statuses (set_header k v ∷ calls) = statuses calls
statuses (write_header n ∷ calls) = n ∷ statuses calls
statuses (write_body part ∷ calls) = statuses calls

abbrev pub bodies : List Call → String
bodies [] = ""
bodies (set_header k v ∷ calls) = bodies calls
bodies (write_header n ∷ calls) = bodies calls
bodies (write_body part ∷ calls) = append part (bodies calls)

abbrev pub told : Bool → ℕ → List ℕ
told false n = []
told true n = n ∷ []

statuses-append : (a b : List Call) → statuses (a ++ b) ≡ statuses a ++ statuses b
statuses-append [] b = refl
statuses-append (set_header k v ∷ a) b = statuses-append a b
statuses-append (write_header n ∷ a) b = ap (λ l. n ∷ l) (statuses-append a b)
statuses-append (write_body part ∷ a) b = statuses-append a b

bodies-append : (a b : List Call) → bodies (a ++ b) ≡ append (bodies a) (bodies b)
bodies-append [] b = sym (nil-append (bodies b))
bodies-append (set_header k v ∷ a) b = bodies-append a b
bodies-append (write_header n ∷ a) b = bodies-append a b
bodies-append (write_body part ∷ a) b =
    ap (append part) (bodies-append a b) ∙ sym (append_assoc part (bodies a) (bodies b))

-- What is kept is what has been passed on.
abbrev Passed : Captured → Type 0
Passed rc = (bodies rc.forwarded ≡ rc.body) × (statuses rc.forwarded ≡ told rc.written rc.status)

write_status-Passed : (n : ℕ) (rc : Captured) → Passed rc → Passed (write_status n rc)
unfolding write_status
write_status-Passed n rc (b, s) = ground (
  arith,
  b,
  s,
  bodies-append rc.forwarded (write_header n ∷ []),
  append-nil (bodies rc.forwarded),
  statuses-append rc.forwarded (write_header n ∷ []),
)

write_part-Passed : (part : String) (rc : Captured) → Passed rc → Passed (write_part part rc)
write_part-Passed part rc (b, s) = (
  bodies-append rc.forwarded (write_body part ∷ []) ∙ rw (b, append-nil part) refl,
  statuses-append rc.forwarded (write_body part ∷ []) ∙ append-empty (statuses rc.forwarded) ∙ s,
)

handle_call-Passed : (c : Call) (rc : Captured) → Passed rc → Passed (handle_call c rc)
unfolding handle_call
handle_call-Passed (set_header k v) rc (b, s) = (
  bodies-append rc.forwarded (set_header k v ∷ []) ∙ append-nil (bodies rc.forwarded) ∙ b,
  statuses-append rc.forwarded (set_header k v ∷ []) ∙ append-empty (statuses rc.forwarded) ∙ s,
)
handle_call-Passed (write_header n) rc p = write_status-Passed n rc p
handle_call-Passed (write_body part) rc p =
    write_part-Passed part (write_status 200 rc) (write_status-Passed 200 rc p)

capture_all-Passed : (calls : List Call) (rc : Captured) → Passed rc → Passed (capture_all calls rc)
unfolding capture_all
capture_all-Passed [] rc p = p
capture_all-Passed (c ∷ calls) rc p =
    capture_all-Passed calls (handle_call c rc) (handle_call-Passed c rc p)

-- What is kept of a response is what the client was sent: the body that was written through, and
-- the one status that was, if any was.
pub capture-forwarded :
    (calls : List Call)
    → (bodies (capture calls).forwarded ≡ (capture calls).body)
      × (statuses (capture calls).forwarded ≡ told (capture calls).written (capture calls).status)
unfolding capture
capture-forwarded calls = capture_all-Passed calls new_response_capture (refl, refl)
