-- ===== src/Server/Attribution.antt =====
-- From a credential to the counters: proxy/trojan/server.go, router.go and users.go together.
use ne_xt_server.Server.Steps.{user-tracked}
use ne_xt_server.Base.Sums.{occurrences}
use ne_xt_server.Users.Restore.Count.{part, count_pending}
use ne_xt_server.Users.Update.Valid.{update-IsValid}
use ne_xt_server.Base.Assoc.{lookup_All}
use ne_xt_server.Users.Update.Outcome.{update_adds, update_keeps}
use ne_xt_server.Base.Int.{ℤ, ℤ_discrete}
use ne_xt_server.Users.Pending.{IsValid, Direction, pending, IsServed, tracked}
use ne_xt_server.Proxy.Handlers.{
  TypeNames, InboundMetadata, routed_user, new_trojan_connection, user_id, handlers_user,
}
use ne_xt_server.Adapter.{User}
use Prim.Native.String.{String}
use ne_xt_server.Users.Table.{Table, update, get, modify}
use ne_xt_server.Users.State.{LimiterOps, add_traffic}
use ne_xt_server.Router.Route.{connection_user, user_found}
use ne_xt_server.Users.Update.Served.{is_listed}
use ne_xt_server.Base.{
  ℕ, ◌+◌, ◌%◌, ◌^◌, ◌≤◌, ◌≡◌, refl, subst, ◌∙◌, ◌≢◌, inl, inr, ite, Bool, true, false, some, List,
  [], ◌∷◌, arith, Option-cases,
}
use ne_xt_server.Proxy.Trojan.{count, credentials, owner, first_with, trojan-first_with}
use ne_xt_server.Base.Result.{ok}

-- A user who is listed is served after an update, by a state of their own.
module _ (ops : LimiterOps) (t : Table ops.Limiter) (users : List User) (node_limit : ℕ)
    (v : IsValid t) (id : ℤ) (listed : is_listed id users ≡ true) where
  abbrev updated : Table ops.Limiter
  updated = update ops t users node_limit

  found : (p : ℕ) × (get updated id ≡ some p)
  found = elim (Option-cases (get t id)) [
    | inl new ↦ let x = update_adds ops t users node_limit v id new listed in (x.0, x.1)
    | inr (p, old) ↦ (p, (update_keeps ops t users node_limit v id p old listed).0)
  ]

  pub update_serves : (p : ℕ) × (get updated id ≡ some p) × IsServed updated (id, p)
  unfolding get
  update_serves =
      let (p, e) = found in
      (
        p,
        e,
        lookup_All ℤ_discrete (IsServed updated) id p updated.current
            (update-IsValid ops t users node_limit v).served e,
      )

  -- What is carried for the state that the router finds is pending for that user, and for nobody else.
  pub carried_pending :
      (p a b : ℕ) (d : Direction) (j : ℤ)
      → connection_user updated (some id) ≡ ok p
      → (updated.states p).id ≡ id
      → pending d j (modify updated p (add_traffic a b)) % 2 ^ 64
        ≡ (pending d j updated + ite (ℤ_discrete id j) (part d a b) 0) % 2 ^ 64
  carried_pending p a b d j routed own =
      let once : occurrences p (tracked updated) ≡ 1 = omega (
        arith,
        user-tracked ops updated (some id) p routed,
        (update-IsValid ops t users node_limit v).once p,
      ) in
      subst
        (λ k.
          pending d j (modify updated p (add_traffic a b)) % 2 ^ 64
          ≡ (pending d j updated + ite (ℤ_discrete k j) (part d a b) 0) % 2 ^ 64)
        own (count_pending updated p a b d j once)

first_with-is_listed :
    (uuid : String) (users : List User) (id : ℤ)
    → first_with uuid users ≡ some id
    → is_listed id users ≡ true
unfolding first_with is_listed
first_with-is_listed uuid [] id h = absurd (cc h)
first_with-is_listed uuid (user ∷ users) id h = ground (arith, first_with-is_listed uuid users id)

-- After a pull's list of users is applied: a UUID authenticates the first user of the list who has it,
-- and only that user; a Trojan connection that is authenticated so is routed to that user's state, which is not canceled;
-- and what the connection carries becomes pending for that user, and for nobody else, modulo 2^64, the
-- range of the counters.
pub trojan_counts :
    (ops : LimiterOps) (t : Table ops.Limiter) (users : List User) (node_limit : ℕ)
    (types : TypeNames) (packets : Bool) (metadata : InboundMetadata) (uuid : String) (id : ℤ)
    (a b : ℕ) (d : Direction) (j : ℤ)
    → IsValid t
    → uuid ≢ ""
    → first_with uuid users ≡ some id
    → let t' = update ops t users node_limit in
      let c = credentials (λ s. false) users in
      (owner uuid c.ids c.passwords ≡ some id)
      × (count uuid c.passwords ≤ 1)
      × ((p : ℕ) × (connection_user t'
              (routed_user (new_trojan_connection types packets (user_id id) metadata))
            ≡ ok p)
          × ((t'.states p).canceled ≡ false)
          × (pending d j (modify t' p (add_traffic a b)) % 2 ^ 64
              ≡ (pending d j t' + ite (ℤ_discrete id j) (part d a b) 0) % 2 ^ 64))
unfolding connection_user user_found
trojan_counts ops t users node_limit types packets metadata uuid id a b d j v ne first =
    let listed = first_with-is_listed uuid users id first in
    let (p, e, served) = update_serves ops t users node_limit v id listed in
    let named =
      (handlers_user types id packets metadata "" metadata.base.source metadata.base.source
        metadata.base.source).0.0 in
    let routed : connection_user (update ops t users node_limit) (some id) ≡ ok p = rw e refl in
    (
      (trojan-first_with uuid users ne).0 ∙ first,
      (trojan-first_with uuid users ne).1,
      (
        p,
        rw named routed,
        served.1,
        carried_pending ops t users node_limit v id listed p a b d j routed served.0,
      ),
    )
