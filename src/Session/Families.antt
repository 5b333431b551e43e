-- ===== src/Session/Families.antt =====
-- Token families: which rows belong to one, and that a revoked family stays revoked.
use real_estate_webapp.Prelude.{
  ℕ, ◌≡◌, ◌∙◌, refl, Bool, true, false, some, List, ◌==◌, arith, any, update_where,
  any-update_where, any-update_where-false, any-update_where_self,
}
use real_estate_webapp.Identity.{
  TokenRow, insert_token, is_live_in, revoke_row, auth_revoke_token_family,
}
use real_estate_webapp.Session.{stamp_used}

-- The family has a row, and none that is not revoked.
pub record IsDead (family : ℕ) (rows : List TokenRow) : Type 0 where
  pub known : any (λ r. r.family_id == family) rows ≡ true
  pub spent : any (is_live_in family) rows ≡ false

revoke_row-not_live :
    (f g now : ℕ) (r : TokenRow) → is_live_in f r ≡ false → is_live_in f (revoke_row now r) ≡ false
revoke_row-not_live f g now r h = ground arith

revoke_row-not_live_self : (f now : ℕ) (r : TokenRow) → is_live_in f (revoke_row now r) ≡ false
revoke_row-not_live_self f now r = ground arith

-- After a revocation no row of the family is live.
pub revoke_all :
    (family now : ℕ) (rows : List TokenRow)
    → any (is_live_in family) (auth_revoke_token_family family now rows).0 ≡ false
unfolding auth_revoke_token_family
revoke_all family now rows =
    any-update_where_self (is_live_in family) (revoke_row now) (revoke_row-not_live_self family now)
      rows

pub revoke-IsDead :
    (f g now : ℕ) (rows : List TokenRow)
    → IsDead f rows
    → IsDead f (auth_revoke_token_family g now rows).0
unfolding auth_revoke_token_family
revoke-IsDead f g now rows d = record {
  known =
      any-update_where (λ r. r.family_id == f) (is_live_in g) (revoke_row now) (λ r. refl) rows
      ∙ d.known;
  spent =
      any-update_where-false (is_live_in f) (is_live_in g) (revoke_row now)
        (revoke_row-not_live f g now) rows d.spent;
}

pub stamp-IsDead :
    (f now : ℕ) (p : TokenRow → Bool) (rows : List TokenRow)
    → IsDead f rows
    → IsDead f (update_where p (stamp_used now) rows)
stamp-IsDead f now p rows d = record {
  known = any-update_where (λ r. r.family_id == f) p (stamp_used now) (λ r. refl) rows ∙ d.known;
  spent = any-update_where (is_live_in f) p (stamp_used now) (λ r. refl) rows ∙ d.spent;
}

pub insert-IsDead :
    (f : ℕ) (row : TokenRow) (rows after : List TokenRow)
    → (row.family_id == f) ≡ false
    → insert_token row rows ≡ some after
    → IsDead f rows
    → IsDead f after
unfolding insert_token any
insert-IsDead f row rows after other e d = ground arith
