-- ===== src/Server/Order.antt =====
-- server.go: `pushOnce` visits the map of the users, in an order that Go leaves open.
use ne_xt_server.Base.Int.{ℤ, ℤ_discrete}
use ne_xt_server.Base.Sums.{values, put_ne, sum, one_at, occurrences}
use ne_xt_server.Adapter.{UserOnline}
use ne_xt_server.Netip.{Addr}
use Prim.Native.String.{String}
use ne_xt_server.Users.State.{LimiterOps, UserState, online_ips}
use ne_xt_server.Users.Pending.{IsValid}
use ne_xt_server.Users.Table.{Table, modify, collect_traffic}
use ne_xt_server.Users.Collect.Order.{reordered, modify_comm, collect_traffic_order}
use ne_xt_server.Server.State.{NodeApi, Server}
use ne_xt_server.Server.Push.{is_nil, online_users, push_once, push_traffic}
use ne_xt_server.Base.Sums.{sum-append}
use ne_xt_server.Base.{
  ℕ, ◌+◌, ◌≤◌, ◌≡◌, refl, sym, ap, ◌∙◌, subst, ◌≢◌, Bool, true, List, [], ◌∷◌, ◌++◌, map, arith,
  if◌then◌else◌, inl, inr, Bool-cases,
}
use mathlib.Core.List.{Permᴰ, append_assoc}
use mathlib.Core.List.Permᴰ

sum-Permᴰ :
    {m n : List (ℤ × ℕ)} (w : ℕ → ℕ)
    → Permᴰ m n
    → sum w (values ℤ_discrete m) ≡ sum w (values ℤ_discrete n)
sum-Permᴰ w Permᴰ.nil = refl
sum-Permᴰ w (Permᴰ.cons e h) = omega (arith, ap (λ x. w x.1) e, sum-Permᴰ w h)
sum-Permᴰ w (Permᴰ.swap e e') = omega (arith, ap (λ x. w x.1) e, ap (λ x. w x.1) e')
sum-Permᴰ w (Permᴰ.trans h k) = sum-Permᴰ w h ∙ sum-Permᴰ w k

append_swap {ℓ} : {A : Type ℓ} (xs ys zs : List A) → Permᴰ (xs ++ (ys ++ zs)) (ys ++ (xs ++ zs))
append_swap xs ys zs =
    subst (λ l. Permᴰ l (ys ++ (xs ++ zs))) (append_assoc xs ys zs)
      (subst (Permᴰ (xs ++ ys ++ zs)) (append_assoc ys xs zs)
        (Permᴰ.append_right zs (Permᴰ.append_comm xs ys)))

module _ {L : Type 0} (addr_string : Addr → String) (since : ℕ) where
  -- What the loop of `pushOnce` reports of one user.
  abbrev reported_of : ℤ → UserState L → List UserOnline
  reported_of id u = map (λ a. record { user_id = id; ip = addr_string a }) (online_ips u since).0

  abbrev counted : UserState L → ℕ
  counted u = if is_nil (online_ips u since).0 then 0 else 1

  abbrev looked_at : UserState L → UserState L
  looked_at u = (online_ips u since).1

  -- What two orders of a visit leave, count and report.
  abbrev SameOnline : Table L → List (ℤ × ℕ) → List (ℤ × ℕ) → Type 0
  SameOnline t m n =
      let r = online_users addr_string t since m in
      let r' = online_users addr_string t since n in (r.0 ≡ r'.0) × (r.1 ≡ r'.1) × Permᴰ r.2 r'.2

  online_two :
      (t : Table L) (a b : ℤ × ℕ) (l : List (ℤ × ℕ))
      → a.1 ≢ b.1
      → let r = online_users addr_string (modify (modify t a.1 looked_at) b.1 looked_at) since l in
        online_users addr_string t since (a ∷ b ∷ l) ≡ (
          r.0,
          counted (t.states a.1) + (counted (t.states b.1) + r.1),
          reported_of a.0 (t.states a.1) ++ (reported_of b.0 (t.states b.1) ++ r.2),
        )
  unfolding online_users
  online_two t a b l ne =
      let r = online_users addr_string (modify (modify t a.1 looked_at) b.1 looked_at) since l in
      ap
        (λ u. (
          r.0,
          counted (t.states a.1) + (counted u + r.1),
          reported_of a.0 (t.states a.1) ++ (reported_of b.0 u ++ r.2),
        ))
        (put_ne t.states a.1 (looked_at (t.states a.1)) b.1 ne)

  online_swap :
      (t : Table L) (a b : ℤ × ℕ) (l : List (ℤ × ℕ))
      → a.1 ≢ b.1
      → SameOnline t (a ∷ b ∷ l) (b ∷ a ∷ l)
  online_swap t a b l ne =
      let u = t.states a.1 in
      let v = t.states b.1 in
      let e =
        online_two t a b l ne
        ∙ ap
            (λ x.
              let r = online_users addr_string x since l in
              (r.0, counted u + (counted v + r.1), reported_of a.0 u ++ (reported_of b.0 v ++ r.2)))
            (modify_comm t a.1 b.1 looked_at ne) in
      let e' = online_two t b a l (λ h. ne (sym h)) in
      (
        ap (λ x. x.0) e ∙ sym (ap (λ x. x.0) e'),
        omega (arith, ap (λ x. x.1) e, ap (λ x. x.1) e'),
        subst (λ x. Permᴰ x (online_users addr_string t since (b ∷ a ∷ l)).2)
            (sym (ap (λ x. x.2) e))
            (subst (Permᴰ _) (sym (ap (λ x. x.2) e'))
              (append_swap (reported_of a.0 u) (reported_of b.0 v) _)),
      )

  online_order :
      {m n : List (ℤ × ℕ)}
      → Permᴰ m n
      → (t : Table L) → ((q : ℕ) → occurrences q (values ℤ_discrete m) ≤ 1)
      → SameOnline t m n
  unfolding online_users
  online_order Permᴰ.nil t once = (refl, refl, Permᴰ.nil)
  online_order (Permᴰ.cons {a} {b} {l₁} {l₂} e h) t once =
      subst (λ c. SameOnline t (a ∷ l₁) (c ∷ l₂)) e
        (let (same, count, online) =
            online_order h (modify t a.1 looked_at) (λ q. let k = once q in omega arith) in
          (
            same,
            ap (λ c. counted (t.states a.1) + c) count,
            Permᴰ.append_left (reported_of a.0 (t.states a.1)) online,
          ))
  online_order (Permᴰ.swap {a} {b} {a'} {b'} {l} e e') t once =
      let ne : a.1 ≢ b.1 = λ h. (let k = once b.1 in ground arith) in
      subst (λ c. SameOnline t (a ∷ b ∷ l) (a' ∷ c ∷ l)) e
        (subst (λ c. SameOnline t (a ∷ b ∷ l) (c ∷ a ∷ l)) e' (online_swap t a b l ne))
  online_order (Permᴰ.trans h k) t once =
      let (same, count, online) = online_order h t once in
      let (same', count', online') =
        online_order k t (λ q. omega (arith, once q, sum-Permᴰ (one_at q) h)) in
      (same ∙ same', count ∙ count', Permᴰ.trans online online')

  online-reordered :
      (t : Table L) (n m : List (ℤ × ℕ))
      → let r = online_users addr_string t since m in
        online_users addr_string (reordered t n) since m ≡ (reordered r.0 n, r.1, r.2)
  unfolding online_users
  online-reordered t n [] = refl
  online-reordered t n (a ∷ m) =
      let u = t.states a.1 in
      ap (λ r. (r.0, counted u + r.1, reported_of a.0 u ++ r.2))
        (online-reordered (modify t a.1 looked_at) n m)

  online_current :
      (t : Table L) (m : List (ℤ × ℕ)) → (online_users addr_string t since m).0.current ≡ t.current
  unfolding online_users
  online_current t [] = refl
  online_current t (a ∷ m) = online_current (modify t a.1 looked_at) m

push_accepted : {L : Type 0} (t : Table L) → (push_traffic t true).0 ≡ (collect_traffic t).0
unfolding push_traffic
push_accepted t = elim (Bool-cases (is_nil (collect_traffic t).1)) [
  | inl e ↦ rw e refl
  | inr e ↦ rw e refl
]

module _ (ops : LimiterOps) (api : NodeApi) (addr_string : Addr → String) (s : Server ops api) where
  abbrev seen : List (ℤ × ℕ) → Table ops.Limiter
  seen m = (online_users addr_string s.users s.last_push m).0

  -- If Go visits the users in another order, a push counts as many users online, and reports the same
  -- traffic and the same online addresses, in some order, and the same hits; and if the panel takes the
  -- traffic, it leaves the same table, up to the order of the users.
  pub push_once_order :
      (n : List (ℤ × ℕ)) (now : ℕ) (traffic_accepted logs_accepted : Bool)
      → Permᴰ s.users.current n
      → IsValid s.users
      → let other : Server ops api = record s { users = reordered s.users n } in
        let sent = (push_once ops api addr_string s now traffic_accepted logs_accepted).1 in
        let sent' = (push_once ops api addr_string other now traffic_accepted logs_accepted).1 in
        (sent.online_users ≡ sent'.online_users)
        × Permᴰ sent.traffic sent'.traffic
        × Permᴰ sent.online sent'.online
        × (sent.logs ≡ sent'.logs)
        × ((push_once ops api addr_string other now true logs_accepted).0.users
            ≡ reordered (push_once ops api addr_string s now true logs_accepted).0.users n)
  unfolding push_once push_traffic
  push_once_order n now traffic_accepted logs_accepted h v =
      let m = s.users.current in
      let (same, count, online) = online_order addr_string s.last_push h s.users (λ q. omega (
        arith,
        v.once q,
        sum-append (one_at q) (values ℤ_discrete s.users.current) s.users.retired,
      )) in
      let moved = online-reordered addr_string s.last_push s.users n n in
      let table : (online_users addr_string (reordered s.users n) s.last_push n).0
          ≡ reordered (seen m) n =
        ap (λ x. x.0) moved ∙ sym (ap (λ t. reordered t n) same) in
      let (left, items) =
        collect_traffic_order (seen m) n
          (subst (λ l. Permᴰ l n) (sym (online_current addr_string s.last_push s.users m)) h) in
      (
        count ∙ sym (ap (λ x. x.1) moved),
        subst (λ t. Permᴰ (collect_traffic (seen m)).1 (collect_traffic t).1) (sym table) items,
        subst (Permᴰ _) (sym (ap (λ x. x.2) moved)) online,
        refl,
        push_accepted (online_users addr_string (reordered s.users n) s.last_push n).0
            ∙ ap (λ t. (collect_traffic t).0) table
            ∙ left
            ∙ sym (ap (λ t. reordered t n) (push_accepted (seen m))),
      )
