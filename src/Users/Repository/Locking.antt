-- ===== src/Users/Repository/Locking.antt =====
-- The optimistic lock of `SqlAlchemyUserRepository.update`: the version column.
use fast_api_scaff.Prelude.{
  ◌≡◌, refl, Bool, true, ◌&&◌, none, some, List, [], ◌∷◌, arith, ◌==◌, any, if◌then◌else◌, ok,
  ◌>>=◌, Result-cases, Bool-cases, inl, inr, Option-cases,
}
use fast_api_scaff.Users.Errors.{DriverError}
use fast_api_scaff.Users.User.{User, advance_version}
use fast_api_scaff.Users.Tables.{UserRow, user_update_values}
use fast_api_scaff.Users.Sql.{Constraint, first, map_where, update_user}
use fast_api_scaff.Users.Transaction.{TxState, execute, flush, run, query, send_all}
use fast_api_scaff.Users.Repository.{updated, not_found, conflict, report, update}

module _ (u : User) where
  -- The rows that an update of `u` looks for.
  abbrev current : UserRow → Bool
  current row = row.id == u.id && row.version == u.version

  first-replaced :
      (users : List UserRow) → first current (map_where current (user_update_values u) users) ≡ none
  unfolding user_update_values
  first-replaced [] = refl
  first-replaced (row ∷ users) = ground (arith, first-replaced users)

  any-replaced :
      (users : List UserRow) (old : UserRow)
      → first current users ≡ some old
      → any (λ row. row.id == u.id) (map_where current (user_update_values u) users) ≡ true
  unfolding user_update_values
  any-replaced [] old h = cc
  any-replaced (row ∷ users) old h = ground (arith, any-replaced users old)

module _ (driver : Constraint → DriverError) where
  update-stale :
      (u : User) (s : TxState)
      → s.pending ≡ []
      → first (current u) s.working.users ≡ none
      → update driver u s
        ≡ (ok (if any (λ row. row.id == u.id) s.working.users then conflict else not_found, u), s)
  unfolding update report execute query flush run send_all update_user ◌>>=◌
  update-stale u s p h = ground arith

  update-eq_updated :
      (u v : User) (s s' : TxState)
      → update driver u s ≡ (ok (updated, v), s')
      → (v ≡ advance_version u)
        × (s'.pending ≡ [])
        × (first (current u) s'.working.users ≡ none)
        × (any (λ row. row.id == u.id) s'.working.users ≡ true)
  unfolding update report execute query flush run send_all update_user ◌>>=◌
  update-eq_updated u v s s' h = elim (Result-cases (send_all s.pending s.working)) [
    | inr (c, e) ↦ ground arith
    | inl (db, e) ↦ elim (Option-cases (first (current u) db.users)) [
      | inl absent ↦ ground (arith, Bool-cases (any (λ row. row.id == u.id) db.users))
      | inr (old, found) ↦
          ground (arith, first-replaced u db.users, any-replaced u db.users old found)
    ]
  ]

  -- After an update of an aggregate that succeeds, an update of another state of it at the same
  -- version is refused as a conflict, and the session stays as it is.
  pub update-update :
      (u v stale : User) (s s' : TxState)
      → update driver u s ≡ (ok (updated, v), s')
      → (stale.id ≡ u.id) × (stale.version ≡ u.version)
      → update driver stale s' ≡ (ok (conflict, stale), s')
  update-update u v stale s s' h (id, version) =
      let (advanced, p, gone, there) = update-eq_updated u v s s' h in
      let gone' : first (current stale) s'.working.users ≡ none = rw id (rw version gone) in
      let there' : any (λ row. row.id == stale.id) s'.working.users ≡ true = rw id there in
      rw there' at (update-stale stale s' p gone')
