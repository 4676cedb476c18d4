-- ===== src/Users/Limits/Served.antt =====
-- What `update` makes of the panel's speed limits.
use ne_xt_server.Users.Limits.Round.{HasLimiters, serve_user-Sets, limit_for}
use ne_xt_server.Users.Update.Outcome.{get-update}
use ne_xt_server.Users.Update.Valid.{map', built, update_lem}
use ne_xt_server.Users.Update.Frame.{serve_user_frame, Extends-IsServed}
use ne_xt_server.Users.Pending.{IsBlank, IsServed, IsValid, Extends-IsBlank}
use ne_xt_server.Base.{
  ℕ, ◌≡◌, sym, ap, subst, ◌∙◌, ◌≢◌, ite, List, [], ◌∷◌, some, ◌≤◌, All, if_pos, if_neg, Option,
  All-mono, refl, none,
}
use ne_xt_server.Adapter.{User}
use ne_xt_server.Base.Int.{ℤ, ℤ_discrete}
use ne_xt_server.Base.Assoc.{lookup, insert, lookup-insert, lookup_All, insert_All}
use ne_xt_server.Base.Sums.{put_same}
use ne_xt_server.Users.State.{LimiterOps, UserState, cancel}
use ne_xt_server.Users.Table.{
  Table, effective_limit, serve_user, retire, serve, retire_user, update, get,
}
use ne_xt_server.Users.Update.Balance.{Entries}
use ne_xt_server.Users.Limits.Set.{HasLimiter, LimitedTo, LimitedTo-same}

-- The limits after one more entry of the list.
abbrev pub after_user : (ℤ → ℕ) → User → ℤ → ℕ
after_user f user id = ite (ℤ_discrete user.id id) user.speed_limit (f id)

-- The limit that a list of users gives an ID: that of its last entry.
unfoldable pub limits_of : (ℤ → ℕ) → List User → ℤ → ℕ
limits_of f [] = f
limits_of f (user ∷ users) = limits_of (after_user f user) users

module _ (ops : LimiterOps) (node_limit : ℕ) (previous : Entries) where
  -- What the lists so far have set: each entry's state allows the limit of its ID.
  abbrev Allowed : (ℤ → ℕ) → Table ops.Limiter → Entries → Type 0
  Allowed f t next =
      (id : ℤ) (q : ℕ)
      → lookup ℤ_discrete id next ≡ some q
      → LimitedTo ops (effective_limit node_limit (f id)) (t.states q)

  serve_user-Allowed :
      (f : ℤ → ℕ) (t : Table ops.Limiter) (next : Entries) (user : User)
      → HasLimiters t
      → ((p : ℕ) → t.next ≤ p → IsBlank (t.states p))
      → All (IsServed t) previous
      → All (IsServed t) next
      → Allowed f t next
      → let (t', p) = serve_user ops node_limit previous t user in
        Allowed (after_user f user) t' (insert ℤ_discrete user.id p next)
  serve_user-Allowed f t next user has blank served all allowed id q h =
      let (t', p) = serve_user ops node_limit previous t user in
      let x = serve_user-Sets ops node_limit previous t user has in
      let (ext, same, here) = serve_user_frame ops node_limit previous t user blank served in
      elim (ℤ_discrete user.id id) [
        | yes e ↦
            let found : some p ≡ some q =
              sym
                (lookup-insert ℤ_discrete user.id id p next ∙ if_pos (ℤ_discrete user.id id) e _ _)
              ∙ h in
            let at_p : p ≡ q = cc in
            rw (if_pos _ e) (
              subst (λ r. LimitedTo ops (limit_for ops node_limit previous user) (t'.states r)) at_p
                x.allowed)
        | no ne ↦
            let found : lookup ℤ_discrete id next ≡ some q =
              sym
                (lookup-insert ℤ_discrete user.id id p next ∙ if_neg (ℤ_discrete user.id id) ne _ _)
              ∙ h in
            let known = lookup_All ℤ_discrete (IsServed t) id q next all found in
            let apart : q ≢ p = λ e.
              ne (
                sym here.0
                ∙ ap (λ r. (t'.states r).id) (sym e)
                ∙ ext.same_id q known.2
                ∙ known.0) in
            rw (if_neg _ ne) (
              subst (LimitedTo ops (effective_limit node_limit (f id)))
                (sym (x.others q apart known.2)) (allowed id q found))
      ]

  serve-Allowed :
      (f : ℤ → ℕ) (t : Table ops.Limiter) (next : Entries) (users : List User)
      → HasLimiters t
      → ((p : ℕ) → t.next ≤ p → IsBlank (t.states p))
      → All (IsServed t) previous
      → All (IsServed t) next
      → Allowed f t next
      → let (t', next') = serve ops node_limit previous t next users in
        HasLimiters t' × Allowed (limits_of f users) t' next'
  unfolding serve limits_of
  serve-Allowed f t next [] has blank served all allowed = (has, allowed)
  serve-Allowed f t next (user ∷ users) has blank served all allowed =
      let t' = (serve_user ops node_limit previous t user).0 in
      let p = (serve_user ops node_limit previous t user).1 in
      let (x, c, here) = serve_user_frame ops node_limit previous t user blank served in
      let still = Extends-IsServed t t' x c in
      serve-Allowed (after_user f user) t' (insert ℤ_discrete user.id p next) users
        (serve_user-Sets ops node_limit previous t user has).has (Extends-IsBlank t t' x blank)
        (All-mono previous still served)
        (insert_All ℤ_discrete (IsServed t') user.id p next here (All-mono next still all))
        (serve_user-Allowed f t next user has blank served all allowed)

retire_user_limiters :
    {L : Type 0} (t : Table L) (p q : ℕ) (o : Option ℕ)
    → (((retire_user t p o).states q).limiter ≡ (t.states q).limiter)
      × (((retire_user t p o).states q).limiters ≡ (t.states q).limiters)
unfolding retire_user
retire_user_limiters t p q none = (
  put_same (λ u. u.limiter) t.states p (cancel (t.states p)) refl q,
  put_same (λ u. u.limiters) t.states p (cancel (t.states p)) refl q,
)
retire_user_limiters t p q (some _) = (refl, refl)

-- The second loop leaves the limiters alone.
retire_limiters :
    {L : Type 0} (next : Entries) (t : Table L) (previous : Entries) (q : ℕ)
    → (((retire next t previous).states q).limiter ≡ (t.states q).limiter)
      × (((retire next t previous).states q).limiters ≡ (t.states q).limiters)
unfolding retire
retire_limiters next t [] q = (refl, refl)
retire_limiters next t ((id, p) ∷ previous) q =
    let (a, b) = retire_limiters next (retire_user t p (lookup ℤ_discrete id next)) previous q in
    let (c, d) = retire_user_limiters t p q (lookup ℤ_discrete id next) in (a ∙ c, b ∙ d)

pub HasLimiter-same :
    {L : Type 0} (u u' : UserState L)
    → u'.limiter ≡ u.limiter
    → u'.limiters ≡ u.limiters
    → HasLimiter u
    → HasLimiter u'
HasLimiter-same u u' a b has p e =
    let (l, found) = has p (sym a ∙ e) in (l, ap (λ s. s p) b ∙ found)

module _ (ops : LimiterOps) (t : Table ops.Limiter) (users : List User) (node_limit : ℕ)
    (v : IsValid t) (has : HasLimiters t) where
  nothing_yet : Allowed ops node_limit t.current (λ _. 0) t []
  unfolding lookup
  nothing_yet id q h = absurd (cc h)

  pub update-HasLimiters : HasLimiters (update ops t users node_limit)
  update-HasLimiters p =
      let (kept, allowed) =
        serve-Allowed ops node_limit t.current (λ _. 0) t [] users has v.blank v.served tt
          nothing_yet in
      let (a, b) =
        retire_limiters (map' ops t users node_limit) (built ops t users node_limit) t.current p in
      subst (λ (u : Table ops.Limiter). HasLimiter (u.states p))
        (sym (update_lem ops t users node_limit))
        (HasLimiter-same ((built ops t users node_limit).states p)
          ((retire (map' ops t users node_limit) (built ops t users node_limit) t.current).states p)
          a b (kept p))

  -- Whoever is served after `update` has the stricter of the node's limit and the limit of the user's
  -- last entry in the list, in a limiter that allows it; and no limiter where both are 0.
  pub update-LimitedTo :
      (id : ℤ) (p : ℕ)
      → get (update ops t users node_limit) id ≡ some p
      → LimitedTo ops
          (effective_limit node_limit (limits_of (λ _. 0) users id))
          ((update ops t users node_limit).states p)
  update-LimitedTo id p h =
      let (kept, allowed) =
        serve-Allowed ops node_limit t.current (λ _. 0) t [] users has v.blank v.served tt
          nothing_yet in
      let (a, b) =
        retire_limiters (map' ops t users node_limit) (built ops t users node_limit) t.current p in
      LimitedTo-same ops (effective_limit node_limit (limits_of (λ _. 0) users id))
        ((built ops t users node_limit).states p) ((update ops t users node_limit).states p)
        (ap (λ x. (x.states p).limiter) (update_lem ops t users node_limit) ∙ a)
        (ap (λ x. (x.states p).limiters) (update_lem ops t users node_limit) ∙ b)
        (allowed id p (sym (get-update ops t users node_limit v id) ∙ h))
