-- ===== src/Admin/Exchanges.antt =====
-- The exchanges of refresh tokens while requests come and go.
use real_estate_webapp.Prelude.{
  any-false-All, All-any-false, find-none-All, All-find, IsKeyed-rows_where, rows_where_cong,
  find-rows_where, find_cong, All-both, ℕ, ◌≡◌, ◌∙◌, sym, ap, subst, refl, inl, inr, true, false,
  not, Option, none, some, List, ◌∷◌, ◌==◌, arith, All, All-map, All-rows_where_kept, any, find,
  find_holds, rows_where, IsKeyed, ==_iff, All-rows_where, Bool-cases,
}
use real_estate_webapp.Admin.{
  Tokens, Request, Answer, next, to_login, Attempt, Waiting, World, has_token, has_id, waits_for,
  reply, exchange, by_refresh, by_access, arrive, settle, arrived, settled, Reach, here, after,
  idle,
}

-- The id and the token of an attempt are those of another one, or neither is.
abbrev AreOne : Attempt → Attempt → Type 0
AreOne a b = (b.id == a.id) ≡ (b.token == a.token)

-- A request waits for a call that is on its way, for its own token.
abbrev pub IsServed : List Attempt → Waiting → Type 0
IsServed sent v = (a : Attempt) × (find (has_id v.attempt_id) sent ≡ some a) × (a.token ≡ v.token)

pub record IsSound (w : World) : Type 0 where
  pub same : w.in_flight ≡ w.sent
  pub single : IsKeyed (λ a. a.token) w.sent
  pub apart : All (λ a. All (AreOne a) w.sent) w.sent
  pub served : All (IsServed w.sent) w.waiting

neither :
    (n t : ℕ) (b : Attempt)
    → (has_id n b ≡ false) × (has_token t b ≡ false)
    → AreOne (record { id = n; token = t }) b × AreOne b (record { id = n; token = t })
neither n t b (h, k) = (h ∙ sym k, ground (arith, h, k))

still_served :
    (n t : ℕ) (sent : List Attempt) (v : Waiting)
    → All (λ b. has_id n b ≡ false) sent
    → IsServed sent v
    → IsServed (record { id = n; token = t } ∷ sent) v
unfolding find
still_served n t sent v fresh (a, found, own) = elim (Bool-cases (n == v.attempt_id)) [
  | inr other ↦ (a, rw (other) found, own)
  | inl clash ↦
      let absent : (a.id == n) ≡ false = All-find (λ b. has_id n b ≡ false) _ sent a fresh found in
      let present = find_holds (has_id v.attempt_id) sent a found in
      ground (arith, clash, absent, present)
]

join-IsSound :
    (fresh : ℕ) (r : Request) (t : ℕ) (a : Attempt) (w : World)
    → IsSound w
    → find (has_token t) w.in_flight ≡ some a
    → IsSound (exchange fresh r t (some a) w)
join-IsSound fresh r t a w good found =
    let there : find (has_token t) w.sent ≡ some a =
      subst (λ xs. find (has_token t) xs ≡ some a) good.same found in
    let own : a.token ≡ t = (==_iff a.token t).0 (find_holds (has_token t) w.sent a there) in
    let one = All-find (λ x. All (AreOne x) w.sent) (has_token t) w.sent a good.apart there in
    record {
      same = good.same;
      single = good.single;
      apart = good.apart;
      served = (
        (
          a,
          find_cong (has_id a.id) (has_token t) w.sent (
                All-map (AreOne a) (λ b. has_id a.id b ≡ has_token t b)
                  (λ b h. h ∙ ap (λ n. b.token == n) own) w.sent one)
              ∙ there,
          own,
        ),
        good.served,
      );
    }

start-IsSound :
    (fresh : ℕ) (r : Request) (t : ℕ) (w : World)
    → IsSound w
    → any (has_id fresh) w.sent ≡ false
    → find (has_token t) w.in_flight ≡ none
    → IsSound (exchange fresh r t none w)
unfolding find
start-IsSound fresh r t w good unused absent =
    let a : Attempt = record { id = fresh; token = t } in
    let ids = any-false-All (has_id fresh) w.sent unused in
    let tokens =
      find-none-All (has_token t) w.sent
        (subst (λ xs. find (has_token t) xs ≡ none) good.same absent) in
    let others =
      All-map (λ b. (has_id fresh b ≡ false) × (has_token t b ≡ false))
        (λ b. AreOne a b × AreOne b a) (neither fresh t) w.sent (All-both _ _ w.sent ids tokens) in
    record {
      same = ap (◌∷◌ a) good.same;
      single = (All-any-false (has_token t) w.sent tokens, good.single);
      apart = (
        (
          ground arith,
          All-map (λ b. AreOne a b × AreOne b a) (AreOne a) (λ b h. h.0) w.sent others,
        ),
        All-map (λ b. (AreOne a b × AreOne b a) × All (AreOne b) w.sent)
            (λ b. All (AreOne b) (a ∷ w.sent)) (λ b h. (h.0.1, h.1)) w.sent
            (All-both _ _ w.sent others good.apart),
      );
      served = (
        (a, ground arith, refl),
        All-map (IsServed w.sent) (IsServed (a ∷ w.sent)) (λ v. still_served fresh t w.sent v ids)
            w.waiting good.served,
      );
    }

reply-IsSound : (r : Request) (answer : Answer) (w : World) → IsSound w → IsSound (reply r answer w)
reply-IsSound r answer w good = record {
  same = good.same;
  single = good.single;
  apart = good.apart;
  served = good.served;
}

exchange-IsSound :
    (fresh : ℕ) (r : Request) (t : ℕ) (o : Option Attempt) (w : World)
    → IsSound w
    → any (has_id fresh) w.sent ≡ false
    → find (has_token t) w.in_flight ≡ o
    → IsSound (exchange fresh r t o w)
exchange-IsSound fresh r t (some a) w good unused there = join-IsSound fresh r t a w good there
exchange-IsSound fresh r t none w good unused absent = start-IsSound fresh r t w good unused absent

by_refresh-IsSound :
    (fresh : ℕ) (r : Request) (o : Option ℕ) (w : World)
    → IsSound w
    → any (has_id fresh) w.sent ≡ false
    → IsSound (by_refresh fresh r o w)
by_refresh-IsSound fresh r none w good unused = reply-IsSound r to_login w good
by_refresh-IsSound fresh r (some t) w good unused =
    exchange-IsSound fresh r t (find (has_token t) w.in_flight) w good unused refl

by_access-IsSound :
    (fresh : ℕ) (r : Request) (o : Option ℕ) (w : World)
    → IsSound w
    → any (has_id fresh) w.sent ≡ false
    → IsSound (by_access fresh r o w)
by_access-IsSound fresh r (some a) w good unused = reply-IsSound r next w good
by_access-IsSound fresh r none w good unused = by_refresh-IsSound fresh r r.refresh w good unused

other_attempt :
    (a : Attempt) (sent : List Attempt) (v : Waiting)
    → IsServed sent v × (not (waits_for a v) ≡ true)
    → IsServed (rows_where (λ b. not (has_id a.id b)) sent) v
other_attempt a sent v ((b, found, own), differs) =
    let mine = find_holds (has_id v.attempt_id) sent b found in
    (
      b,
      find-rows_where (has_id v.attempt_id) (λ x. not (has_id a.id x)) sent b found
          (ground (arith, mine, differs)),
      own,
    )

settle-IsSound :
    (a : Attempt) (result : Option Tokens) (w : World)
    → IsSound w
    → find (has_id a.id) w.sent ≡ some a
    → IsSound (settle a result w)
unfolding settle
settle-IsSound a result w good found =
    let one = All-find (λ x. All (AreOne x) w.sent) (has_id a.id) w.sent a good.apart found in
    let keep = λ (b : Attempt). not (has_id a.id b) in
    let stays = λ (v : Waiting). not (waits_for a v) in
    record {
      same =
          ap (rows_where (λ b. not (has_token a.token b))) good.same
          ∙ rows_where_cong (λ b. not (has_token a.token b)) keep w.sent
              (All-map (AreOne a) (λ b. not (has_token a.token b) ≡ keep b) (λ b h. ap not (sym h))
                w.sent one);
      single = IsKeyed-rows_where (λ b. b.token) keep w.sent good.single;
      apart =
          All-rows_where_kept (λ b. All (AreOne b) (rows_where keep w.sent)) keep w.sent
            (All-map (λ b. All (AreOne b) w.sent) (λ b. All (AreOne b) (rows_where keep w.sent))
              (λ b h. All-rows_where_kept (AreOne b) keep w.sent h) w.sent good.apart);
      served =
          All-map (λ v. IsServed w.sent v × (stays v ≡ true)) (IsServed (rows_where keep w.sent))
            (other_attempt a w.sent) (rows_where stays w.waiting)
            (All-both _ _ (rows_where stays w.waiting)
              (All-rows_where_kept (IsServed w.sent) stays w.waiting good.served)
              (All-rows_where stays w.waiting));
    }

pub Reach-IsSound : {w : World} → Reach idle w → IsSound w
unfolding arrive
Reach-IsSound here = record { same = refl; single = tt; apart = tt; served = tt }
Reach-IsSound (after way (arrived w fresh r unused)) =
    by_access-IsSound fresh r r.access w (Reach-IsSound way) unused
Reach-IsSound (after way (settled w a result found)) =
    settle-IsSound a result w (Reach-IsSound way) found
