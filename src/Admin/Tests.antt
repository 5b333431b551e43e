-- ===== src/Admin/Tests.antt =====
-- Two requests of one user and one of another, and the theorems about the gate there.
use real_estate_webapp.Prelude.{◌≡◌, refl, none, some, All, any, find, rows_where, length}
use real_estate_webapp.Admin.{
  Request, Attempt, World, Tokens, arrive, settle, Reach, here, after, arrived, settled, idle,
}
use real_estate_webapp.Admin.Ownership.{IsOwn, Reach-IsOwn}

service : Unit {0}
unfolding any find rows_where arrive settle
service = tt

abbrev first : Request
first = record { id = 1; access = none; refresh = some 50 }

abbrev second : Request
second = record { id = 2; access = none; refresh = some 50 }

abbrev other : Request
other = record { id = 3; access = none; refresh = some 60 }

abbrev crowded : World
crowded = arrive 12 other (arrive 11 second (arrive 10 first idle))

-- The two requests of one user share a call.
two_calls : length crowded.sent ≡ 2
unfolding service
two_calls = refl

abbrev call : Attempt
call = record { id = 10; token = 50 }

abbrev fresh_tokens : Tokens
fresh_tokens = record { access_token = 70; refresh_token = 51 }

abbrev finished : World
finished = settle call (some fresh_tokens) crowded

both_answered : length finished.answered ≡ 2
unfolding service
both_answered = refl

way : Reach idle finished
unfolding service
way =
    after
      (after
        (after (after here (arrived idle 10 first refl))
          (arrived (arrive 10 first idle) 11 second refl))
        (arrived (arrive 11 second (arrive 10 first idle)) 12 other refl))
      (settled crowded call (some fresh_tokens) refl)

Reach-IsOwn_example : All (IsOwn finished.grants) finished.answered
Reach-IsOwn_example = Reach-IsOwn {w = finished} way
