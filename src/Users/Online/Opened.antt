-- ===== src/Users/Online/Opened.antt =====
-- Every event keeps the counts.
use ne_xt_server.Base.{
  ℕ, suc, ◌+◌, ◌-◌, ◌<◌, ◌≡◌, refl, ap, ◌∙◌, inl, inr, if_pos, true, none, some, List, [], ◌∷◌,
  ◌++◌, arith, ℕ_discrete, Option-cases, length, All, All-×, keep-All_of,
}
use ne_xt_server.Base.{All-mono, length-append}
use ne_xt_server.Netip.{Addr, Addr_discrete}
use ne_xt_server.Base.Int.{pos}
use ne_xt_server.Base.Assoc.{lookup, lookup-insert, insert_All, lookup_All, lookup-keep}
use ne_xt_server.Base.Sums.{one_at}
use ne_xt_server.Users.State.{
  UserState, activity_for, begin_activity, close_connection, is_online, online_entries, online_ips,
}
use ne_xt_server.Users.Online.Session.{holders, holders-append, Counts}

length-middle :
    (xs ys : List (Addr × ℕ)) (c : Addr × ℕ) → length (xs ++ (c ∷ ys)) ≡ suc (length (xs ++ ys))
length-middle xs ys c = omega (arith, length-append xs (c ∷ ys), length-append xs ys)

holders-middle :
    (p : ℕ) (xs ys : List (Addr × ℕ)) (c : Addr × ℕ)
    → holders p (xs ++ (c ∷ ys)) ≡ one_at p c.1 + holders p (xs ++ ys)
holders-middle p xs ys c = omega (arith, holders-append p xs (c ∷ ys), holders-append p xs ys)

All-drop :
    (P : Addr × ℕ → Type 0) (xs ys : List (Addr × ℕ)) (c : Addr × ℕ)
    → All P (xs ++ (c ∷ ys))
    → All P (xs ++ ys)
All-drop P [] ys c h = h.1
All-drop P (x ∷ xs) ys c h = (h.0, All-drop P xs ys c h.1)

pub holders_self : (opened : List (Addr × ℕ)) → All (λ c. 0 < holders c.1 opened) opened
holders_self [] = tt
holders_self (c ∷ cs) = (ground arith, All-mono cs (λ x h. omega arith) (holders_self cs))

module _ {L : Type 0} where
  -- A connection begins on an activity that the map has for its address.
  begin-Counts :
      (u : UserState L) (opened : List (Addr × ℕ)) (a : Addr) (p now : ℕ)
      → Counts u opened
      → lookup Addr_discrete a u.ips ≡ some p
      → p < u.next_activity
      → Counts (begin_activity u p now) ((a, p) ∷ opened)
  unfolding begin_activity
  begin-Counts u opened a p now k found below = record {
    total = rw (k.total) refl;
    counted = λ q. elim (ℕ_discrete p q) [
      | yes e ↦ ground (arith, k.counted q, k.counted p)
      | no ne ↦ ground (arith, k.counted q)
    ];
    kept = (found, k.kept);
    unused = λ q h. ground (arith, k.unused q);
    made = k.made;
  }

  -- An activity is made for an address that has none.
  make-Counts :
      (u : UserState L) (opened : List (Addr × ℕ)) (a : Addr)
      → Counts u opened
      → lookup Addr_discrete a u.ips ≡ none
      → Counts (activity_for u a none).0 opened
  unfolding activity_for
  make-Counts u opened a k missing = record {
    total = k.total;
    counted = λ q. ground (arith, k.counted q, k.unused q);
    kept =
        All-mono opened
          (λ c h. ground (arith, lookup-insert Addr_discrete a c.0 u.next_activity u.ips)) k.kept;
    unused = λ q h. k.unused q (omega arith);
    made =
        insert_All Addr_discrete (λ e. e.1 < u.next_activity + 1) a u.next_activity u.ips
          (omega arith) (All-mono u.ips (λ e h. omega arith) k.made);
  }

  pub opened-Counts :
      (u : UserState L) (opened : List (Addr × ℕ)) (a : Addr) (now : ℕ)
      → Counts u opened
      → let (u', p) = activity_for u a (lookup Addr_discrete a u.ips) in
        Counts (begin_activity u' p now) ((a, p) ∷ opened)
  unfolding activity_for
  opened-Counts u opened a now k = elim (Option-cases (lookup Addr_discrete a u.ips)) [
    | inl e ↦
        let u' = (activity_for u a none).0 in
        rw e (
          begin-Counts u' opened a u.next_activity now (make-Counts u opened a k e)
            (lookup-insert Addr_discrete a a u.next_activity u.ips
              ∙ if_pos (Addr_discrete a a) refl _ _)
            (omega arith))
    | inr (p, e) ↦ rw e (
        begin-Counts u opened a p now k e
          (lookup_All Addr_discrete (λ x. x.1 < u.next_activity) a p u.ips k.made e))
  ]

  pub closed-Counts :
      (u : UserState L) (xs ys : List (Addr × ℕ)) (c : Addr × ℕ) (now : ℕ)
      → Counts u (xs ++ (c ∷ ys))
      → Counts (close_connection u c.1 now) (xs ++ ys)
  unfolding close_connection
  closed-Counts u xs ys c now k = record {
    total =
        let t : u.active ≡ pos (suc (length (xs ++ ys))) =
          k.total ∙ ap pos (length-middle xs ys c) in
        rw t refl;
    counted = λ q. elim (ℕ_discrete c.1 q) [
      | yes e ↦
          let t : (u.activities q).active ≡ pos (suc (holders q (xs ++ ys))) =
            k.counted q ∙ ap pos (ground (arith, holders-middle q xs ys c)) in
          ground (arith, t)
      | no ne ↦
          let t : (u.activities q).active ≡ pos (holders q (xs ++ ys)) =
            k.counted q ∙ ap pos (ground (arith, holders-middle q xs ys c)) in
          ground (arith, t)
    ];
    kept = All-drop (λ x. lookup Addr_discrete x.0 u.ips ≡ some x.1) xs ys c k.kept;
    unused = λ q h. omega (arith, k.unused q h, holders-middle q xs ys c);
    made = k.made;
  }

  -- An activity that an open connection holds is online, at any time.
  pub held_online :
      (u : UserState L) (opened : List (Addr × ℕ)) (since p : ℕ)
      → Counts u opened
      → 0 < holders p opened
      → is_online since (u.activities p) ≡ true
  held_online u opened since p k h =
      let n = holders p opened - 1 in
      let t : (u.activities p).active ≡ pos (suc n) = k.counted p ∙ ap pos (omega arith) in
      rw t refl

  pub looked-Counts :
      (u : UserState L) (opened : List (Addr × ℕ)) (since : ℕ)
      → Counts u opened
      → Counts (online_ips u since).1 opened
  unfolding online_ips online_entries
  looked-Counts u opened since k =
      let online = λ (e : Addr × ℕ). is_online since (u.activities e.1) in
      record {
        total = k.total;
        counted = k.counted;
        kept =
            All-mono opened
              (λ c h.
                lookup-keep Addr_discrete online c.0 c.1 u.ips h.0
                  (held_online u opened since c.1 k h.1))
              (All-× (λ c. lookup Addr_discrete c.0 u.ips ≡ some c.1) (λ c. 0 < holders c.1 opened)
                opened k.kept (holders_self opened));
        unused = k.unused;
        made = keep-All_of online (λ e. e.1 < u.next_activity) (λ e h _. h) u.ips k.made;
      }
