-- ===== src/Reporter/Window.antt =====
-- common/reporter/limit.go: how often one problem is sent, in every run of calls.
use ne_xt_server.Reporter.Limit.{
  SeenMessage, suppress, pruned, is_recent, max_tracked, count_suppressed,
}
use ne_xt_server.Reporter.History.{
  Call, latest, Tracks, Tracks-sent, Tracks-missed, Tracks-other, Tracks-dropped, Tracks-held,
}
use ne_xt_server.Base.{
  ℕ, ◌≤◌, ◌≡◌, sym, subst, ◌≢◌, inl, inr, if_pos, if_neg, Bool, true, false, Option, none, some,
  List, ◌∷◌, leb, Bool-cases, Option-cases, length,
}
use ne_xt_server.Base.Assoc.{lookup, insert, lookup-insert, lookup-keep, lookup-keep-none}
use ne_xt_server.Base.Keys.{Distinct, insert-Distinct, keep-Distinct, lookup-keep_dropped}

module _ {K : Type 0} (dec : Discrete K) where
  -- The map is right about every key.
  pub record Holds (seen : List (K × SeenMessage)) (h : List (Call K)) : Type 0 where
    pub distinct : Distinct dec seen
    pub tracks : (k : K) → Tracks dec (lookup dec k seen) k h

  pruned-Distinct :
      (now : ℕ) (seen : List (K × SeenMessage)) → Distinct dec seen → Distinct dec (pruned now seen)
  pruned-Distinct now seen d = elim (Bool-cases (leb max_tracked (length seen))) [
    | inl e ↦ rw e (keep-Distinct dec (λ x. is_recent now x.1) seen d)
    | inr e ↦ rw e d
  ]

  -- The pruned map is right about every key but that of the new call.
  pruned-Tracks :
      (c : Call K) (h : List (Call K)) (seen : List (K × SeenMessage)) (k : K)
      → Holds seen h
      → latest h ≤ c.at
      → c.key ≢ k
      → Tracks dec (lookup dec k (pruned c.at seen)) k (c ∷ h)
  pruned-Tracks c h seen k holds later ne =
      let known = holds.tracks k in
      let recent : K × SeenMessage → Bool = λ e. is_recent c.at e.1 in
      elim (Bool-cases (leb max_tracked (length seen))) [
        | inr e ↦ rw e (Tracks-other dec c h (lookup dec k seen) k ne later (holds.tracks k))
        | inl e ↦ rw e (elim (Option-cases (lookup dec k seen)) [
          | inl f ↦
              rw (lookup-keep-none dec recent k seen f)
                (Tracks-other dec c h none k ne later (rw f at known))
          | inr (m, f) ↦ elim (Bool-cases (is_recent c.at m)) [
            | inl r ↦
                rw (lookup-keep dec recent k m seen f r)
                  (Tracks-other dec c h (some m) k ne later (rw f at known))
            | inr r ↦
                rw (lookup-keep_dropped dec recent k m seen holds.distinct f r)
                  (Tracks-dropped dec c h m k ne r (rw f at known))
          ]
        ])
      ]

  -- The new entry of the call's key, in a map that is right about the other keys.
  inserted-Holds :
      (c : Call K) (h : List (Call K)) (seen : List (K × SeenMessage)) (m : SeenMessage)
      → Distinct dec seen
      → ((k : K) → c.key ≢ k → Tracks dec (lookup dec k seen) k (c ∷ h))
      → Tracks dec (some m) c.key (c ∷ h)
      → Holds (insert dec c.key m seen) (c ∷ h)
  inserted-Holds c h seen m d others own = record {
    distinct = insert-Distinct dec c.key m seen d;
    tracks = λ k.
        subst (λ o. Tracks dec o k (c ∷ h)) (sym (lookup-insert dec c.key k m seen))
          (elim (dec c.key k) [
            | yes e ↦ rw (if_pos (dec c.key k) e) (subst (λ x. Tracks dec (some m) x (c ∷ h)) e own)
            | no ne ↦ rw (if_neg (dec c.key k) ne) (others k ne)
          ]);
  }

  -- A call that is not sent.
  pub suppress-Holds :
      (c : Call K) (h : List (Call K)) (seen : List (K × SeenMessage)) (o : Option SeenMessage)
      → Holds seen h
      → latest h ≤ c.at
      → c.was_sent ≡ false
      → lookup dec c.key seen ≡ o
      → Holds (suppress dec c.key o seen) (c ∷ h)
  unfolding suppress
  suppress-Holds c h seen none holds later unsent e =
      let known = holds.tracks c.key in
      record {
        distinct = holds.distinct;
        tracks = λ k. elim (dec c.key k) [
          | yes same ↦
              subst (λ x. Tracks dec (lookup dec x seen) x (c ∷ h)) same
                (rw e (Tracks-missed dec c h unsent later (rw e at known)))
          | no ne ↦ Tracks-other dec c h (lookup dec k seen) k ne later (holds.tracks k)
        ];
      }
  suppress-Holds c h seen (some m) holds later unsent e =
      let known = holds.tracks c.key in
      inserted-Holds c h seen (count_suppressed m) holds.distinct
        (λ k ne. Tracks-other dec c h (lookup dec k seen) k ne later (holds.tracks k))
        (Tracks-held dec c h m unsent (rw e at known))

  pub sent-Holds :
      (c : Call K) (h : List (Call K)) (seen : List (K × SeenMessage))
      → Holds seen h
      → latest h ≤ c.at
      → c.was_sent ≡ true
      → Holds (insert dec c.key (record { sent = c.at; suppressed = 0 }) (pruned c.at seen)) (c ∷ h)
  sent-Holds c h seen holds later sent =
      inserted-Holds c h (pruned c.at seen) (record { sent = c.at; suppressed = 0 })
        (pruned-Distinct c.at seen holds.distinct) (λ k ne. pruned-Tracks c h seen k holds later ne)
        (Tracks-sent dec c h sent)
