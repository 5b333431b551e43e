-- ===== src/Session/Snapshots.antt =====
-- What a rotation knows of the row that it read, and which updates of the table keep it true.
use mathlib.Core.Path.{fun_ext}
use real_estate_webapp.Prelude.{
  ℕ, ◌≡◌, refl, ap, Bool, true, false, ◌&&◌, not, some, List, [], ◌∷◌, ◌==◌, if◌then◌else◌, arith,
  find, any, update_where, subst, inl, inr, Option-cases, some-injective, any-update_where,
  find-update_where, find_of_any-false, find_holds,
}
use real_estate_webapp.Identity.{
  TokenRow, Db, RefreshTokenRecord, insert_token, revoke_row, auth_lookup_refresh_token, record_of,
  conflicts,
}
use real_estate_webapp.Session.{stamp_used}

-- The record was read from a row of the table: the same family and principal.
pub record IsSnapshot (rows : List TokenRow) (presented : RefreshTokenRecord) : Type 0 where
  pub row : TokenRow
  pub found : find (λ r. r.id == presented.id) rows ≡ some row
  pub same_family : row.family_id ≡ presented.family_id
  pub same_user : row.user_id ≡ presented.user_id
  pub same_contact : row.contact_id ≡ presented.contact_id

unfoldable pub distinct : List TokenRow → Bool
unfolding conflicts
distinct [] = true
distinct (r ∷ rs) = not (any (conflicts r) rs) && distinct rs

abbrev pub is_of : ℕ → TokenRow → Bool
is_of family r = r.family_id == family

-- A row that is found by its digest is the one that is found by its id.
pub find_by_id :
    (h : ℕ) (rows : List TokenRow) (r : TokenRow)
    → distinct rows ≡ true
    → find (λ x. x.token_hash == h) rows ≡ some r
    → find (λ x. x.id == r.id) rows ≡ some r
unfolding distinct find any
find_by_id h [] r d e = ground arith
find_by_id h (x ∷ rows) r d e = ground (arith, find_by_id h rows r, clash)
  where
    clash :
        any (conflicts x) rows ≡ false
        → find (λ y. y.token_hash == h) rows ≡ some r
        → conflicts x r ≡ false
    clash n f = find_of_any-false (conflicts x) (λ y. y.token_hash == h) rows r n f

-- The row behind a record that `findRefreshToken` returned.
pub lookup_row :
    (h : ℕ) (db : Db) (presented : RefreshTokenRecord)
    → distinct db.tokens ≡ true
    → auth_lookup_refresh_token h db ≡ some presented
    → (r : TokenRow) × (find (λ x. x.token_hash == h) db.tokens ≡ some r)
      × (find (λ x. x.id == presented.id) db.tokens ≡ some r)
      × (record_of db r ≡ presented)
unfolding auth_lookup_refresh_token
lookup_row h db presented d e = elim (Option-cases (find (λ r. r.token_hash == h) db.tokens)) [
  | inl missing ↦ absurd (ground arith)
  | inr (r, f) ↦
      let p : record_of db r ≡ presented = some-injective (record_of db r) presented (rw f at e) in
      (
        r,
        f,
        subst (λ x. find (λ y. y.id == x.id) db.tokens ≡ some r) p (find_by_id h db.tokens r d f),
        p,
      )
]

pub lookup-IsSnapshot :
    (h : ℕ) (db : Db) (presented : RefreshTokenRecord)
    → distinct db.tokens ≡ true
    → auth_lookup_refresh_token h db ≡ some presented
    → IsSnapshot db.tokens presented
lookup-IsSnapshot h db presented d e =
    let (r, _, found, p) = lookup_row h db presented d e in
    record {
      row = r;
      found = found;
      same_family = ap (λ x. x.family_id) p;
      same_user = ap (λ x. x.user_id) p;
      same_contact = ap (λ x. x.contact_id) p;
    }

-- An update that keeps what a snapshot and the uniqueness constraints read.
pub record Keeps (f : TokenRow → TokenRow) : Type 0 where
  pub id : (r : TokenRow) → (f r).id ≡ r.id
  pub token_hash : (r : TokenRow) → (f r).token_hash ≡ r.token_hash
  pub family_id : (r : TokenRow) → (f r).family_id ≡ r.family_id
  pub user_id : (r : TokenRow) → (f r).user_id ≡ r.user_id
  pub contact_id : (r : TokenRow) → (f r).contact_id ≡ r.contact_id

pub stamp_used-Keeps : (now : ℕ) → Keeps (stamp_used now)
stamp_used-Keeps now = record {
  id = λ r. refl;
  token_hash = λ r. refl;
  family_id = λ r. refl;
  user_id = λ r. refl;
  contact_id = λ r. refl;
}

pub revoke_row-Keeps : (now : ℕ) → Keeps (revoke_row now)
revoke_row-Keeps now = record {
  id = λ r. refl;
  token_hash = λ r. refl;
  family_id = λ r. refl;
  user_id = λ r. refl;
  contact_id = λ r. refl;
}

module _ (f : TokenRow → TokenRow) (k : Keeps f) (p : TokenRow → Bool) where
  conflicts-update : (x : TokenRow) → (y : TokenRow) → conflicts x (f y) ≡ conflicts x y
  unfolding conflicts
  conflicts-update x y = rw (k.id y, k.token_hash y) refl

  conflicts-update_left : (x y : TokenRow) → conflicts (if p x then f x else x) y ≡ conflicts x y
  unfolding conflicts
  conflicts-update_left x y = ground (arith, k.id x, k.token_hash x)

  pub distinct-update : (rows : List TokenRow) → distinct (update_where p f rows) ≡ distinct rows
  unfolding distinct update_where
  distinct-update [] = refl
  distinct-update (r ∷ rows) = rw (
    distinct-update rows,
    any-update_where (conflicts (if p r then f r else r)) p f
        (conflicts-update (if p r then f r else r)) rows,
    fun_ext (conflicts-update_left r),
  )

  pub update-IsSnapshot :
      (rows : List TokenRow) (presented : RefreshTokenRecord)
      → IsSnapshot rows presented
      → IsSnapshot (update_where p f rows) presented
  update-IsSnapshot rows presented s = record {
    row = if p s.row then f s.row else s.row;
    found =
        find-update_where (λ r. r.id == presented.id) p f (λ r. rw (k.id r) refl) rows s.row
          s.found;
    same_family = ground (arith, k.family_id s.row, s.same_family);
    same_user = ground (arith, k.user_id s.row, s.same_user);
    same_contact = ground (arith, k.contact_id s.row, s.same_contact);
  }

pub insert-distinct :
    (row : TokenRow) (rows after : List TokenRow)
    → insert_token row rows ≡ some after
    → distinct rows ≡ true
    → distinct after ≡ true
unfolding insert_token distinct
insert-distinct row rows after e d = ground arith

-- A new row has an id of its own, so a search by id finds what it found.
pub insert-find :
    (row : TokenRow) (rows after : List TokenRow) (i : ℕ) (r : TokenRow)
    → insert_token row rows ≡ some after
    → find (λ x. x.id == i) rows ≡ some r
    → find (λ x. x.id == i) after ≡ some r
unfolding insert_token find conflicts
insert-find row rows after i r e f = ground (arith, apart, find_holds (λ x. x.id == i) rows r f)
  where
    apart : any (conflicts row) rows ≡ false → conflicts row r ≡ false
    apart n = find_of_any-false (conflicts row) (λ x. x.id == i) rows r n f

pub insert-IsSnapshot :
    (row : TokenRow) (rows after : List TokenRow) (presented : RefreshTokenRecord)
    → insert_token row rows ≡ some after
    → IsSnapshot rows presented
    → IsSnapshot after presented
insert-IsSnapshot row rows after presented e s = record {
  row = s.row;
  found = insert-find row rows after presented.id s.row e s.found;
  same_family = s.same_family;
  same_user = s.same_user;
  same_contact = s.same_contact;
}
