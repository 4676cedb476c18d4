-- ===== src/Router/Admission.antt =====
-- Whom the router lets through, and where to.
use ne_xt_server.Destination.Filter.{private_address}
use ne_xt_server.Base.Int.{ℤ}
use ne_xt_server.Destination.Check.{check_destination, public_address, check_destination_sound}
use ne_xt_server.Audit.Auditor.{Auditor}
use ne_xt_server.Base.{
  ap, subst, ◌∙◌, ◌⊎◌, refl, arith, All, false, true, some, none, ℕ, ◌≡◌, refl, Bool, Option, arith,
  none, false, some,
}
use ne_xt_server.Base.Result.{Result, ok, err}
use ne_xt_server.Metadata.{Metadata, Refusal}
use ne_xt_server.Users.Table.{get, Table}
use ne_xt_server.Router.Route.{
  user_found, RouterApi, checked, looked_up, route_connection, with_user, connection_user, passed,
  admit, Routed, audited, resolve,
}

module _ {L : Type 0} (api : RouterApi) (resolve_domain allow_private : Bool) (t : Table L) where
  checked_refused :
      (p now : ℕ) (r : Result Refusal Metadata) (e : Refusal)
      → (checked api resolve_domain allow_private t p now r).1 ≡ err e
      → (checked api resolve_domain allow_private t p now r).0 ≡ t
  unfolding checked
  checked_refused p now (ok m) e h = absurd (cc h)
  checked_refused p now (err x) e h = refl

  looked_up_refused :
      (p now : ℕ) (r : Result Refusal Metadata) (e : Refusal)
      → (looked_up api resolve_domain allow_private t p now r).1 ≡ err e
      → (looked_up api resolve_domain allow_private t p now r).0 ≡ t
  unfolding looked_up
  looked_up_refused p now (ok m) e h =
      checked_refused p now (check_destination api.methods allow_private m) e h
  looked_up_refused p now (err x) e h = refl

  pub passed_refused :
      (p now : ℕ) (m : Metadata) (o : Option Refusal) (e : Refusal)
      → (passed api resolve_domain allow_private t p now m o).1 ≡ err e
      → (passed api resolve_domain allow_private t p now m o).0 ≡ t
  unfolding passed
  passed_refused p now m none e h = looked_up_refused p now (resolve api resolve_domain m) e h
  passed_refused p now m (some x) e h = refl

  with_user_refused :
      (a : Auditor api.matching.Regexp) (m : Metadata) (now : ℕ) (r : Result Refusal ℕ)
      (e : Refusal)
      → (with_user api resolve_domain allow_private t a m now r).2 ≡ err e
      → (with_user api resolve_domain allow_private t a m now r).0 ≡ t
  unfolding with_user
  with_user_refused a m now (ok p) e h =
      let x = audited api (t.states p).id a m in passed_refused p now (x.1) (x.2) e h
  with_user_refused a m now (err x) e h = refl

  -- A connection that the router refuses is not opened: the users' table stays as it is, whatever the
  -- reason for the refusal.
  pub route_connection_refused :
      (a : Auditor api.matching.Regexp) (user_id : Option ℤ) (m : Metadata) (now : ℕ) (e : Refusal)
      → (route_connection api resolve_domain allow_private t a user_id m now).2 ≡ err e
      → (route_connection api resolve_domain allow_private t a user_id m now).0 ≡ t
  unfolding route_connection
  route_connection_refused a user_id m now e h =
      with_user_refused a m now (connection_user t user_id) e h

  checked_ok :
      (p now : ℕ) (r : Result Refusal Metadata) (routed : Routed api)
      → (checked api resolve_domain allow_private t p now r).1 ≡ ok routed
      → (r ≡ ok routed.metadata) × (p ≡ routed.state)
  unfolding checked admit
  checked_ok p now (ok m) routed h = ground arith
  checked_ok p now (err x) routed h = absurd (cc h)

  looked_up_ok :
      (p now : ℕ) (r : Result Refusal Metadata) (routed : Routed api)
      → (looked_up api resolve_domain allow_private t p now r).1 ≡ ok routed
      → (m : Metadata) × (r ≡ ok m)
        × (check_destination api.methods allow_private m ≡ ok routed.metadata)
        × (p ≡ routed.state)
  unfolding looked_up
  looked_up_ok p now (ok m) routed h =
      let x = checked_ok p now (check_destination api.methods allow_private m) routed h in
      (m, refl, x.0, x.1)
  looked_up_ok p now (err x) routed h = absurd (cc h)

  -- What is known of an admitted connection: no rule refused it, its destination was resolved and
  -- checked, and it counts in the state of its user.
  pub record Admits (a : Auditor api.matching.Regexp) (m : Metadata) (p : ℕ) (routed : Routed api)
      : Type 0 where
    pub state : p ≡ routed.state
    pub unblocked : (audited api (t.states p).id a m).2 ≡ none
    pub target : Metadata
    pub resolves : resolve api resolve_domain (audited api (t.states p).id a m).1 ≡ ok target
    pub checks : check_destination api.methods allow_private target ≡ ok routed.metadata

  pub passed_ok :
      (p now : ℕ) (m : Metadata) (o : Option Refusal) (routed : Routed api)
      → (passed api resolve_domain allow_private t p now m o).1 ≡ ok routed
      → (o ≡ none)
        × ((m' : Metadata) × (resolve api resolve_domain m ≡ ok m')
            × (check_destination api.methods allow_private m' ≡ ok routed.metadata)
            × (p ≡ routed.state))
  unfolding passed
  passed_ok p now m none routed h =
      (refl, looked_up_ok p now (resolve api resolve_domain m) routed h)
  passed_ok p now m (some x) routed h = absurd (cc h)

  with_user_ok :
      (a : Auditor api.matching.Regexp) (m : Metadata) (now : ℕ) (r : Result Refusal ℕ)
      (routed : Routed api)
      → (with_user api resolve_domain allow_private t a m now r).2 ≡ ok routed
      → (p : ℕ) × (r ≡ ok p) × Admits a m p routed
  unfolding with_user
  with_user_ok a m now (ok p) routed h =
      let x = audited api (t.states p).id a m in
      let (clear, (m', res, chk, st)) = passed_ok p now (x.1) (x.2) routed h in
      (p, refl, record { state = st; unblocked = clear; target = m'; resolves = res; checks = chk })
  with_user_ok a m now (err x) routed h = absurd (cc h)

  pub user_of :
      (user_id : Option ℤ) (p : ℕ)
      → connection_user t user_id ≡ ok p
      → (id : ℤ) × (user_id ≡ some id) × (get t id ≡ some p)
  unfolding connection_user user_found
  user_of none p h = absurd (cc h)
  user_of (some id) p h = (id, refl, ground arith)

  -- With private destinations refused: a connection that the router lets through belongs to a user
  -- who is served, counts in that user's state, was refused by no detect rule, does not go to a private
  -- address, and keeps only public ones of its resolved addresses.
  pub route_connection_sound :
      (a : Auditor api.matching.Regexp) (user_id : Option ℤ) (m : Metadata) (now : ℕ)
      (routed : Routed api)
      → allow_private ≡ false
      → (route_connection api resolve_domain allow_private t a user_id m now).2 ≡ ok routed
      → (id : ℤ) × (user_id ≡ some id)
        × (get t id ≡ some routed.state)
        × ((audited api (t.states routed.state).id a m).2 ≡ none)
        × ((api.methods.is_ip routed.metadata.destination ≡ false)
            ⊎ (private_address routed.metadata.destination.addr ≡ false))
        × All (λ x. public_address x ≡ true) routed.metadata.destination_addresses
  unfolding route_connection
  route_connection_sound a user_id m now routed off h =
      let (p, found, k) = with_user_ok a m now (connection_user t user_id) routed h in
      let (id, same, served) = user_of user_id p found in
      let (plain, publics, some_left, dest) =
        check_destination_sound api.methods allow_private k.target routed.metadata off k.checks in
      (
        id,
        same,
        served ∙ ap some k.state,
        subst (λ q. (audited api (t.states q).id a m).2 ≡ none) k.state k.unblocked,
        rw dest plain,
        publics,
      )
