-- ===== src/Admin.antt =====
-- apps/admin/src/proxy.ts: the gate of the staff application, which refreshes a session at most once
-- for the requests that arrive together.
--
-- A token is a number, and a cookie that is empty is none. A request waits for an exchange of its
-- refresh token; the answer of the API to an exchange is an argument of the step that settles it, and
-- none is every failure. The address of the API is set.
pub mod Exchanges
pub mod Ownership
mod Tests
use real_estate_webapp.Prelude.{
  ℕ, ◌*◌, ◌≡◌, Bool, true, false, not, Option, none, some, List, [], ◌∷◌, ◌++◌, map, ◌==◌, any,
  find, rows_where,
}

pub record Tokens : Type 0 where
  pub access_token : ℕ
  pub refresh_token : ℕ

pub record Request : Type 0 where
  pub id : ℕ
  pub access : Option ℕ
  pub refresh : Option ℕ

pub data Answer : Type 0 where
  next to_login : Answer
  renewed : Tokens → Answer

-- A promise in the map `inFlight`, under its refresh token.
pub record Attempt : Type 0 where
  pub id : ℕ
  pub token : ℕ

-- A request that waits for a promise, with its own refresh token.
pub record Waiting : Type 0 where
  pub request_id : ℕ
  pub attempt_id : ℕ
  pub token : ℕ

pub record Answered : Type 0 where
  pub request_id : ℕ
  pub token : Option ℕ
  pub answer : Answer

-- An exchange that the API granted.
pub record Grant : Type 0 where
  pub token : ℕ
  pub tokens : Tokens

-- `sent` are the calls of the API that are not answered yet.
pub record World : Type 0 where
  pub in_flight : List Attempt
  pub sent : List Attempt
  pub waiting : List Waiting
  pub answered : List Answered
  pub grants : List Grant

abbrev pub has_token : ℕ → Attempt → Bool
has_token t a = a.token == t

abbrev pub has_id : ℕ → Attempt → Bool
has_id n a = a.id == n

abbrev pub waits_for : Attempt → Waiting → Bool
waits_for a w = w.attempt_id == a.id

abbrev pub reply : Request → Answer → World → World
reply r answer w = record w {
  answered = record { request_id = r.id; token = r.refresh; answer = answer } ∷ w.answered;
}

-- `exchange`: the promise that is there, or a new call of the API.
abbrev pub exchange : (fresh : ℕ) → Request → (token : ℕ) → Option Attempt → World → World
exchange fresh r token (some a) w = record w {
  waiting = record { request_id = r.id; attempt_id = a.id; token = token } ∷ w.waiting;
}
exchange fresh r token none w = record w {
  in_flight = record { id = fresh; token = token } ∷ w.in_flight;
  sent = record { id = fresh; token = token } ∷ w.sent;
  waiting = record { request_id = r.id; attempt_id = fresh; token = token } ∷ w.waiting;
}

abbrev pub by_refresh : (fresh : ℕ) → Request → Option ℕ → World → World
by_refresh fresh r none w = reply r to_login w
by_refresh fresh r (some t) w = exchange fresh r t (find (has_token t) w.in_flight) w

abbrev pub by_access : (fresh : ℕ) → Request → Option ℕ → World → World
by_access fresh r (some a) w = reply r next w
by_access fresh r none w = by_refresh fresh r r.refresh w

-- `proxy`, until it waits.
unfoldable pub arrive : (fresh : ℕ) → Request → World → World
arrive fresh r w = by_access fresh r r.access w

abbrev pub answer_of : Option Tokens → Answer
answer_of none = to_login
answer_of (some ts) = renewed ts

abbrev pub granted : Attempt → Option Tokens → List Grant → List Grant
granted a none gs = gs
granted a (some ts) gs = record { token = a.token; tokens = ts } ∷ gs

-- The end of an exchange: its entry goes, and every request that waited for it is answered.
unfoldable pub settle : Attempt → Option Tokens → World → World
settle a result w = record {
  in_flight = rows_where (λ b. not (has_token a.token b)) w.in_flight;
  sent = rows_where (λ b. not (has_id a.id b)) w.sent;
  waiting = rows_where (λ v. not (waits_for a v)) w.waiting;
  answered =
      map
        (λ (v : Waiting). record {
          request_id = v.request_id;
          token = some v.token;
          answer = answer_of result;
        })
        (rows_where (waits_for a) w.waiting)
      ++ w.answered;
  grants = granted a result w.grants;
}

pub data Step : World → World → Type 0 where
  arrived :
      (w : World) (fresh : ℕ) (r : Request)
      → any (has_id fresh) w.sent ≡ false
      → Step w (arrive fresh r w)
  settled :
      (w : World) (a : Attempt) (result : Option Tokens)
      → find (has_id a.id) w.sent ≡ some a
      → Step w (settle a result w)

pub data Reach (w : World) : World → Type 0 where
  here : Reach w w
  after : {u v : World} → Reach w u → Step u v → Reach w v

abbrev pub idle : World
idle = record { in_flight = []; sent = []; waiting = []; answered = []; grants = [] }

-- The cookies of the browser with their ages in seconds.
pub record Cookies : Type 0 where
  pub access : Option (ℕ × ℕ)
  pub refresh : Option (ℕ × ℕ)

abbrev pub access_max_age : ℕ
access_max_age = 13 * 60

abbrev pub refresh_max_age : ℕ
refresh_max_age = 30 * 24 * 60 * 60

abbrev pub cookies_after : Answer → Cookies → Cookies
cookies_after next c = c
cookies_after to_login c = record { access = none; refresh = none }
cookies_after (renewed ts) c = record {
  access = some (ts.access_token, access_max_age);
  refresh = some (ts.refresh_token, refresh_max_age);
}
