-- ===== src/Users/Atomic/Account.antt =====
-- What all the states that were ever made count of a user, and what the goroutine of the pushes has
-- taken of it.
use ne_xt_server.Users.Atomic.{
  Phase, resting, serving, served_up, retiring, retired_up, checking, restoring, missing, adding,
  adding_down, add_upload, add_download, take_upload, take_download, collected,
}
use ne_xt_server.Users.Atomic.Frame.{Grows, IsBounded}
use ne_xt_server.Adapter.{UserTraffic}
use ne_xt_server.Base.Int.{ℤ, ℤ_discrete}
use ne_xt_server.Base.Sums.{put_self, put_ne, sum, sum-ext, sum_at, occurrences}
use ne_xt_server.Users.State.{UserState}
use ne_xt_server.Users.Pending.{
  Direction, up, down, weight, counter, reported, reported_item, IsBlank, Extends, Extends-weight,
  weight_blank,
}
use ne_xt_server.Users.Restore.Count.{part}
use ne_xt_server.Users.Table.{Table, modify}
use ne_xt_server.Base.{
  ℕ, zero, suc, ◌≤◌, ◌<◌, ◌+◌, ◌%◌, ◌^◌, ◌≡◌, refl, ap, ◌∙◌, ite, List, [], ◌∷◌, arith, ℕ_discrete,
}

abbrev pub upto : ℕ → List ℕ
upto zero = []
upto (suc n) = n ∷ upto n

upto_off : (n p : ℕ) → n ≤ p → occurrences p (upto n) ≡ 0
upto_off zero p h = refl
upto_off (suc n) p h = ground (arith, upto_off n p)

upto_once : (n p : ℕ) → p < n → occurrences p (upto n) ≡ 1
upto_once zero p h = absurd (omega arith)
upto_once (suc n) p h = ground (arith, upto_once n p, upto_off n p)

sum-upto :
    (w : ℕ → ℕ) (n m : ℕ) → n ≤ m → ((q : ℕ) → n ≤ q → w q ≡ 0) → sum w (upto m) ≡ sum w (upto n)
sum-upto w n zero le h = let same : zero ≡ n = omega arith in ap (λ k. sum w (upto k)) same
sum-upto w n (suc m) le h = elim (ℕ_discrete (suc m) n) [
  | yes e ↦ ap (λ k. sum w (upto k)) e
  | no ne ↦ omega (arith, sum-upto w n m (omega arith) h, h m (omega arith))
]

-- What an item of an ID would report of a user.
abbrev pub share : Direction → ℤ → ℤ → ℕ → ℕ → ℕ
share d id owner a b = ite (ℤ_discrete owner id) (part d a b) 0

pub reported-collected :
    (d : Direction) (id owner : ℤ) (a b : ℕ)
    → reported d id (collected owner a b) ≡ share d id owner a 0 + share d id owner 0 b
unfolding reported
reported-collected up id owner a b = ground arith
reported-collected down id owner a b = ground arith

pub item_shares :
    (d : Direction) (id : ℤ) (item : UserTraffic)
    → reported_item d id item
      ≡ share d id item.user_id item.upload 0 + share d id item.user_id 0 item.download
item_shares up id item = ground arith
item_shares down id item = ground arith

module _ {L : Type 0} where
  unfoldable pub counted : Direction → ℤ → Table L → ℕ
  counted d id t = sum (weight d id t.states) (upto t.next)

  -- What a state counts of a user.
  abbrev pub own : Direction → ℤ → UserState L → ℕ
  own d id u = ite (ℤ_discrete u.id id) (counter d u) 0

  pub counted-modify :
      (d : Direction) (id : ℤ) (t : Table L) (p : ℕ) (f : UserState L → UserState L)
      → p < t.next
      → counted d id (modify t p f) + own d id (t.states p)
        ≡ counted d id t + own d id (f (t.states p))
  unfolding counted
  counted-modify d id t p f made =
      let put = put_self t.states p (f (t.states p)) in
      omega (
        arith,
        ap (own d id) put,
        sum_at (weight d id (modify t p f).states) (weight d id t.states) p (upto t.next)
            (λ q ne. ap (own d id) (put_ne t.states p (f (t.states p)) q ne))
            (upto_once t.next p made),
      )

  -- New states count nothing.
  pub counted-Extends :
      (d : Direction) (id : ℤ) (t t' : Table L)
      → Extends t t'
      → ((p : ℕ) → t.next ≤ p → IsBlank (t.states p))
      → counted d id t' ≡ counted d id t
  unfolding counted
  counted-Extends d id t t' x blank =
      sum-ext _ _ (upto t'.next) (Extends-weight d id t t' x blank)
      ∙ sum-upto (weight d id t.states) t.next t'.next x.grown
          (λ q h. weight_blank d id t.states q (blank q h))

  own-add_upload :
      (d : Direction) (id : ℤ) (u : UserState L) (n : ℕ)
      → own d id (add_upload n u) % 2 ^ 64 ≡ (own d id u + share d id u.id n 0) % 2 ^ 64
  own-add_upload up id u n = ground arith
  own-add_upload down id u n = ground arith

  own-add_download :
      (d : Direction) (id : ℤ) (u : UserState L) (n : ℕ)
      → own d id (add_download n u) % 2 ^ 64 ≡ (own d id u + share d id u.id 0 n) % 2 ^ 64
  own-add_download up id u n = ground arith
  own-add_download down id u n = ground arith

  own-take_upload :
      (d : Direction) (id : ℤ) (u : UserState L)
      → own d id (take_upload u) + share d id u.id u.upload 0 ≡ own d id u
  own-take_upload up id u = ground arith
  own-take_upload down id u = ground arith

  own-take_download :
      (d : Direction) (id : ℤ) (u : UserState L)
      → own d id (take_download u) + share d id u.id 0 u.download ≡ own d id u
  own-take_download up id u = ground arith
  own-take_download down id u = ground arith

  module _ (d : Direction) (id : ℤ) (t : Table L) (p : ℕ) (made : p < t.next) where
    pub counted-add_upload :
        (n : ℕ)
        → counted d id (modify t p (add_upload n)) % 2 ^ 64
          ≡ (counted d id t + share d id (t.states p).id n 0) % 2 ^ 64
    counted-add_upload n =
        omega
          (arith, counted-modify d id t p (add_upload n) made, own-add_upload d id (t.states p) n)

    pub counted-add_download :
        (n : ℕ)
        → counted d id (modify t p (add_download n)) % 2 ^ 64
          ≡ (counted d id t + share d id (t.states p).id 0 n) % 2 ^ 64
    counted-add_download n =
        omega (
          arith,
          counted-modify d id t p (add_download n) made,
          own-add_download d id (t.states p) n,
        )

    pub counted-take_upload :
        counted d id (modify t p take_upload) + share d id (t.states p).id (t.states p).upload 0
        ≡ counted d id t
    counted-take_upload =
        omega (arith, counted-modify d id t p take_upload made, own-take_upload d id (t.states p))

    pub counted-take_download :
        counted d id (modify t p take_download) + share d id (t.states p).id 0 (t.states p).download
        ≡ counted d id t
    counted-take_download =
        omega
          (arith, counted-modify d id t p take_download made, own-take_download d id (t.states p))

  -- What the goroutine of the pushes has taken from a counter and not yet put into an item, or has yet
  -- to give back.
  abbrev pub held : Direction → ℤ → Table L → Phase → ℕ
  held d id t (served_up p n todo) = share d id (t.states p).id n 0
  held d id t (retired_up p n todo kept) = share d id (t.states p).id n 0
  held d id t (restoring items) = reported d id items
  held d id t (missing item items) = reported_item d id item + reported d id items
  held d id t (adding p item items) = reported_item d id item + reported d id items
  held d id t (adding_down p item items) =
      share d id item.user_id 0 item.download + reported d id items
  held d id t _ = 0

  pub held-Grows :
      (d : Direction) (id : ℤ) (t t' : Table L) (phase : Phase)
      → Grows t t'
      → IsBounded t phase
      → held d id t' phase ≡ held d id t phase
  held-Grows d id t t' resting g h = refl
  held-Grows d id t t' (serving todo) g h = refl
  held-Grows d id t t' (served_up p n todo) g h = ap (λ i. share d id i n 0) (g.same_id p h.0)
  held-Grows d id t t' (retiring todo kept) g h = refl
  held-Grows d id t t' (retired_up p n todo kept) g h = ap (λ i. share d id i n 0) (g.same_id p h.0)
  held-Grows d id t t' (checking p todo kept) g h = refl
  held-Grows d id t t' (restoring items) g h = refl
  held-Grows d id t t' (missing item items) g h = refl
  held-Grows d id t t' (adding p item items) g h = refl
  held-Grows d id t t' (adding_down p item items) g h = refl
