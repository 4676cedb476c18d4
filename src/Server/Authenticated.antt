-- ===== src/Server/Authenticated.antt =====
-- proxy/*/server.go, router.go and users.go together: whom a protocol's service authenticates, the
-- router serves.
use ne_xt_server.Server.Given.{
  IsRouted, kept-IsListed, trojan-IsListed, ids-IsRouted, names-IsRouted, given, handled,
}
use ne_xt_server.Base.Int.{ℤ, ℤ_discrete}
use ne_xt_server.Adapter.{User}
use ne_xt_server.Metadata.{Socksaddr}
use Prim.Native.String.{String}
use ne_xt_server.Panel.Config.{
  NodeType, trojan, shadowsocks2022, vmess, tuic, hysteria2, any_tls, snell, naive, other,
}
use ne_xt_server.Proxy.Decimal.{IsInt}
use ne_xt_server.Proxy.Handlers.{
  user_id, TypeNames, InboundMetadata, routed_user, handlers_user, new_trojan_connection,
  new_shadowsocks_connection, new_vmess_connection, new_vmess_packet_connection,
  new_tuic_connection, new_hysteria2_connection, any_tls_round_trip, IsNamed,
}
use ne_xt_server.Proxy.Hysteria2
use ne_xt_server.Proxy.Shadowsocks
use ne_xt_server.Proxy.Tuic
use ne_xt_server.Proxy.Vmess
use ne_xt_server.Router.Route.{connection_user, user_found}
use ne_xt_server.Server.Attribution.{update_serves, carried_pending}
use ne_xt_server.Users.Pending.{IsValid, Direction, pending}
use ne_xt_server.Users.Restore.Count.{part}
use ne_xt_server.Users.State.{LimiterOps, add_traffic}
use ne_xt_server.Users.Table.{Table, update, modify}
use ne_xt_server.Users.Update.Served.{is_listed}
use ne_xt_server.Base.{
  ℕ, ◌+◌, ◌%◌, ◌^◌, ◌≡◌, refl, inl, inr, ite, Bool, true, false, Option, some, List, [], ◌∷◌, All,
  All-mono, Bool-cases,
}
use ne_xt_server.Base.Result.{ok}

module _ (is_uuid : String → Bool) (decode_string : String → Option (List ℕ)) (key_len : ℕ)
    {Uuid : Type 0} (from_string : String → Option Uuid) (types : TypeNames) (magic : String)
    (udp_addr : Socksaddr) (unwrap : Socksaddr → Socksaddr) (packets : Bool)
    (metadata : InboundMetadata) where
  abbrev source : Socksaddr
  source = metadata.base.source

  abbrev destination : Socksaddr
  destination = metadata.base.destination

  handlers :
      (id : ℤ)
      → All
          (λ h. (routed_user h ≡ some id) × IsNamed h)
          (new_trojan_connection types packets (user_id id) metadata
            ∷ new_shadowsocks_connection types packets (user_id id) metadata
            ∷ new_vmess_connection types (user_id id) metadata
            ∷ new_vmess_packet_connection types magic (user_id id) metadata
            ∷ new_tuic_connection types packets udp_addr (user_id id) source destination
            ∷ new_hysteria2_connection types packets udp_addr (user_id id) source destination
            ∷ [])
  handlers id =
      handlers_user types id packets metadata magic udp_addr metadata.base.source
        metadata.base.destination

  vmess_routes :
      (id : ℤ)
      → routed_user (handled types magic udp_addr unwrap packets metadata vmess (user_id id))
        ≡ some id
  vmess_routes id = elim (Bool-cases packets) [
    | inl e ↦ rw e (handlers id).1.1.1.0.0
    | inr e ↦ rw e (handlers id).1.1.0.0
  ]

  given-IsRouted :
      (type : NodeType) (users : List User)
      → All (λ u. IsInt u.id) users
      → All
          (IsRouted users (handled types magic udp_addr unwrap packets metadata type))
          (given is_uuid decode_string key_len from_string type users)
  given-IsRouted trojan users ints =
      ids-IsRouted _ users _ (λ id. (handlers id).0.0) (trojan-IsListed (λ s. false) users)
  given-IsRouted shadowsocks2022 users ints =
      ids-IsRouted _ users _ (λ id. (handlers id).1.0.0)
        (rw (Shadowsocks.shadowsocks-of_users decode_string key_len users) (kept-IsListed _ users))
  given-IsRouted vmess users ints =
      ids-IsRouted _ users _ vmess_routes
        (rw (Vmess.vmess-of_users is_uuid users) (kept-IsListed _ users))
  given-IsRouted hysteria2 users ints =
      ids-IsRouted _ users _ (λ id. (handlers id).1.1.1.1.1.0.0)
        (rw (Hysteria2.hysteria2-of_users users) (kept-IsListed _ users))
  given-IsRouted tuic users ints =
      ids-IsRouted _ users _ (λ id. (handlers id).1.1.1.1.0.0)
        (rw ((Tuic.tuic_accounts from_string users).0) (kept-IsListed _ users))
  given-IsRouted any_tls users ints =
      names-IsRouted _ users _ _
        (any_tls_round_trip types unwrap users metadata.base.source metadata.base.destination ints)
        (kept-IsListed _ users)
  given-IsRouted snell users ints = tt
  given-IsRouted naive users ints = tt
  given-IsRouted (other n) users ints = tt

  -- After a pull's list of users is applied, and if the panel's IDs are `int`s: for every protocol, a
  -- connection of anyone whom the service was given is routed, with the ID of a user of the list, to a
  -- state of that user that is not canceled; and what it carries becomes pending for that user, and for
  -- nobody else, modulo 2^64, the range of the counters.
  pub authenticated_counts :
      (ops : LimiterOps) (t : Table ops.Limiter) (users : List User) (node_limit : ℕ)
      (type : NodeType) (a b : ℕ) (d : Direction) (j : ℤ)
      → IsValid t
      → All (λ u. IsInt u.id) users
      → let t' = update ops t users node_limit in
        All
          (λ ctx.
            let user =
              routed_user (handled types magic udp_addr unwrap packets metadata type ctx) in
            (id : ℤ) × (user ≡ some id)
            × (is_listed id users ≡ true)
            × ((p : ℕ) × (connection_user t' user ≡ ok p)
                × ((t'.states p).canceled ≡ false)
                × (pending d j (modify t' p (add_traffic a b)) % 2 ^ 64
                    ≡ (pending d j t' + ite (ℤ_discrete id j) (part d a b) 0) % 2 ^ 64)))
          (given is_uuid decode_string key_len from_string type users)
  unfolding connection_user user_found
  authenticated_counts ops t users node_limit type a b d j v ints =
      All-mono (given is_uuid decode_string key_len from_string type users)
        (λ ctx (id, listed, routes).
          let (p, e, served) = update_serves ops t users node_limit v id listed in
          let found : connection_user (update ops t users node_limit) (some id) ≡ ok p =
            rw e refl in
          (
            id,
            routes,
            listed,
            (
              p,
              rw routes found,
              served.1,
              carried_pending ops t users node_limit v id listed p a b d j found served.0,
            ),
          ))
        (given-IsRouted type users ints)
