-- ===== src/Admin/Ownership.antt =====
-- Whose tokens a request gets.
use real_estate_webapp.Prelude.{
  All-both, All-map_of, All-append, ℕ, suc, ◌≡◌, ◌∙◌, sym, ap, true, Option, none, some,
  some-injective, List, map, ==_iff, arith, get_elem?, All, All-map, All-rows_where,
  All-rows_where_kept, find, rows_where,
}
use real_estate_webapp.Admin.{
  Tokens, Request, renewed, Attempt, Waiting, Answered, Grant, World, has_token, has_id, waits_for,
  exchange, by_refresh, by_access, arrive, answer_of, granted, settle, arrived, settled, Reach,
  here, after, idle,
}
use real_estate_webapp.Admin.Exchanges.{IsServed, IsSound, Reach-IsSound}

-- New tokens come from a grant for the request's own refresh token.
abbrev pub IsOwn : List Grant → Answered → Type 0
IsOwn grants x =
    (ts : Tokens)
    → x.answer ≡ renewed ts
    → (t : ℕ) × (i : ℕ) × (x.token ≡ some t)
      × (get_elem? grants i ≡ some record { token = t; tokens = ts })

granted-IsOwn :
    (a : Attempt) (result : Option Tokens) (grants : List Grant) (x : Answered)
    → IsOwn grants x
    → IsOwn (granted a result grants) x
granted-IsOwn a none grants x h us renewal = h us renewal
granted-IsOwn a (some ts) grants x h us renewal =
    let (t, i, own, there) = h us renewal in (t, suc i, own, there)

answered-IsOwn :
    (a : Attempt) (result : Option Tokens) (grants : List Grant) (v : Waiting)
    → v.token ≡ a.token
    → IsOwn
        (granted a result grants)
        record { request_id = v.request_id; token = some v.token; answer = answer_of result }
answered-IsOwn a none grants v same ts e = absurd (cc)
answered-IsOwn a (some us) grants v same ts e = (a.token, 0, ap some same, ground (arith, e))

-- The call that a request waits for exchanges the request's own token.
waits_own :
    (a : Attempt) (sent : List Attempt)
    → find (has_id a.id) sent ≡ some a
    → (v : Waiting) → IsServed sent v × (waits_for a v ≡ true)
    → v.token ≡ a.token
waits_own a sent found v ((b, there, own), waits) =
    let id : v.attempt_id ≡ a.id = (==_iff v.attempt_id a.id).0 waits in
    let b_is_a : b ≡ a =
      some-injective b a (sym there ∙ ap (λ n. find (has_id n) sent) id ∙ found) in
    sym own ∙ ap (λ (x : Attempt). x.token) b_is_a

settle-IsOwn :
    (a : Attempt) (result : Option Tokens) (w : World)
    → IsSound w
    → find (has_id a.id) w.sent ≡ some a
    → All (IsOwn w.grants) w.answered
    → All (IsOwn (settle a result w).grants) (settle a result w).answered
unfolding settle
settle-IsOwn a result w good found h =
    let waiters = rows_where (waits_for a) w.waiting in
    All-append (IsOwn (granted a result w.grants))
      (map
        (λ (v : Waiting). record {
          request_id = v.request_id;
          token = some v.token;
          answer = answer_of result;
        })
        waiters)
      w.answered
      (All-map_of (IsOwn (granted a result w.grants))
        (λ (v : Waiting). record {
          request_id = v.request_id;
          token = some v.token;
          answer = answer_of result;
        })
        waiters
        (All-map (λ v. IsServed w.sent v × (waits_for a v ≡ true)) _
          (λ v served. answered-IsOwn a result w.grants v (waits_own a w.sent found v served))
          waiters
          (All-both _ _ waiters
            (All-rows_where_kept (IsServed w.sent) (waits_for a) w.waiting good.served)
            (All-rows_where (waits_for a) w.waiting))))
      (All-map (IsOwn w.grants) (IsOwn (granted a result w.grants))
        (granted-IsOwn a result w.grants) w.answered h)

exchange-IsOwn :
    (fresh : ℕ) (r : Request) (t : ℕ) (o : Option Attempt) (w : World)
    → All (IsOwn w.grants) w.answered
    → All (IsOwn (exchange fresh r t o w).grants) (exchange fresh r t o w).answered
exchange-IsOwn fresh r t (some a) w h = h
exchange-IsOwn fresh r t none w h = h

by_refresh-IsOwn :
    (fresh : ℕ) (r : Request) (o : Option ℕ) (w : World)
    → All (IsOwn w.grants) w.answered
    → All (IsOwn (by_refresh fresh r o w).grants) (by_refresh fresh r o w).answered
by_refresh-IsOwn fresh r none w h = ((λ ts e. absurd (cc)), h)
by_refresh-IsOwn fresh r (some t) w h =
    exchange-IsOwn fresh r t (find (has_token t) w.in_flight) w h

by_access-IsOwn :
    (fresh : ℕ) (r : Request) (o : Option ℕ) (w : World)
    → All (IsOwn w.grants) w.answered
    → All (IsOwn (by_access fresh r o w).grants) (by_access fresh r o w).answered
by_access-IsOwn fresh r (some a) w h = ((λ ts e. absurd (cc)), h)
by_access-IsOwn fresh r none w h = by_refresh-IsOwn fresh r r.refresh w h

-- No request gets the tokens of another user: whoever is let through with new tokens gets those that
-- the API granted for the refresh token of the request's own cookie, whichever requests share the call.
pub Reach-IsOwn : {w : World} → Reach idle w → All (IsOwn w.grants) w.answered
unfolding arrive
Reach-IsOwn here = tt
Reach-IsOwn (after way (arrived w fresh r unused)) =
    by_access-IsOwn fresh r r.access w (Reach-IsOwn way)
Reach-IsOwn (after way (settled w a result found)) =
    settle-IsOwn a result w (Reach-IsSound way) found (Reach-IsOwn way)
