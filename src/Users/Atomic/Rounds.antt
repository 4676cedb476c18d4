-- ===== src/Users/Atomic/Rounds.antt =====
-- All steps of the goroutine of the pushes keep the account.
use ne_xt_server.Users.Atomic.{
  World, Phase, resting, serving, served_up, retiring, retired_up, checking, restoring, missing,
  adding, adding_down, take_download, found, push_step,
}
use ne_xt_server.Users.Atomic.Frame.{IsBounded, IsMade, IsOwned}
use ne_xt_server.Users.Atomic.Account.{share, counted, held}
use ne_xt_server.Users.Atomic.Pushing.{
  Keeps, kept_id, rephased, appended, taken-Keeps, collected-Keeps, add_upload-Keeps,
  add_download-Keeps,
}
use ne_xt_server.Adapter.{UserTraffic}
use ne_xt_server.Base.Assoc.{lookup_All}
use ne_xt_server.Base.Int.{ℤ, ℤ_discrete, is_positive}
use ne_xt_server.Users.Pending.{Direction, reported, reported-append}
use ne_xt_server.Users.Table.{Table, modify, get}
use ne_xt_server.Base.{
  ℕ, ◌<◌, ◌≡◌, refl, sym, ap, subst, ◌∙◌, Bool, true, false, ◌&&◌, Option, none, some, List, [],
  ◌∷◌, ◌++◌, arith, All, ◌==◌, if◌then◌else◌,
}
use ne_xt_server.Users.Atomic.Restoring.{missing-Keeps}

module _ {L : Type 0} where
  phase-Keeps :
      (w : World L) (phase' : Phase)
      → IsBounded w.table phase'
      → ((d : Direction) (id : ℤ) → held d id w.table phase' ≡ held d id w.table w.phase)
      → Keeps w
      → Keeps (record w { phase = phase' })
  phase-Keeps w phase' bounded same k = record {
    frame = rephased phase' bounded k.frame;
    balance = λ d id. omega (arith, same d id, k.balance d id);
  }

  found-IsBounded :
      (t : Table L) (item : UserTraffic) (items : List UserTraffic) (o : Option ℕ)
      → All (IsOwned t) t.current
      → get t item.user_id ≡ o
      → IsBounded t (found o item items)
  unfolding get
  found-IsBounded t item items none owned e = tt
  found-IsBounded t item items (some p) owned e =
      lookup_All ℤ_discrete (IsOwned t) item.user_id p t.current owned e

  held-found :
      (d : Direction) (id : ℤ) (t : Table L) (item : UserTraffic) (items : List UserTraffic)
      (o : Option ℕ)
      → held d id t (found o item items) ≡ held d id t (restoring (item ∷ items))
  unfolding reported
  held-found d id t item items none = refl
  held-found d id t item items (some p) = refl

  kept-IsMade :
      (t : Table L) (b : Bool) (kept : List ℕ) (p : ℕ)
      → All (IsMade t) kept
      → p < t.next
      → All (IsMade t) (if b then kept ++ (p ∷ []) else kept)
  kept-IsMade t true kept p h made = appended t kept p h made
  kept-IsMade t false kept p h made = h

  -- Where `collectTraffic` goes after a retired state's counters are taken.
  after_taken-IsBounded :
      (t : Table L) (b : Bool) (p : ℕ) (todo kept : List ℕ)
      → p < t.next
      → All (IsMade t) todo
      → All (IsMade t) kept
      → IsBounded t (if b then checking p todo kept else retiring todo (kept ++ (p ∷ [])))
  after_taken-IsBounded t true p todo kept made a c = (made, a, c)
  after_taken-IsBounded t false p todo kept made a c = (a, appended t kept p c made)

  after_taken_held :
      (d : Direction) (id : ℤ) (t : Table L) (b : Bool) (p : ℕ) (todo kept : List ℕ)
      → held d id t (if b then checking p todo kept else retiring todo (kept ++ (p ∷ []))) ≡ 0
  after_taken_held d id t true p todo kept = refl
  after_taken_held d id t false p todo kept = refl

  pub push_step-Keeps :
      (w : World L) (phase : Phase) → w.phase ≡ phase → Keeps w → Keeps (push_step w phase)
  unfolding push_step
  push_step-Keeps w resting e k = k
  push_step-Keeps w (serving []) e k =
      phase-Keeps w (retiring w.table.retired []) (k.frame.retired, tt)
        (λ d id. sym (ap (held d id w.table) e)) k
  push_step-Keeps w (serving (p ∷ todo)) e k =
      let (made, rest) = subst (IsBounded w.table) e k.frame.bounded in
      taken-Keeps w p (served_up p (w.table.states p).upload todo) made (made, rest)
        (λ d id. omega (
          arith,
          ap (λ i. share d id i (w.table.states p).upload 0) (kept_id w.table p),
          ap (held d id w.table) e,
        ))
        k
  push_step-Keeps w (served_up p n todo) e k =
      let (made, rest) = subst (IsBounded w.table) e k.frame.bounded in
      collected-Keeps w p n (serving todo) made rest
        (λ d id. omega (arith, ap (held d id w.table) e)) k
  push_step-Keeps w (retiring [] kept) e k =
      let (rest, made) = subst (IsBounded w.table) e k.frame.bounded in
      record {
        frame = record {
          blank = k.frame.blank;
          current = k.frame.current;
          retired = made;
          bounded = tt;
          pulled = k.frame.pulled;
        };
        balance = λ d id.
            let same : counted d id (record (w.table) { retired = kept }) ≡ counted d id w.table =
              unfold counted in refl in
            let nothing : reported d id [] ≡ 0 = unfold reported in refl in
            omega (
              arith,
              k.balance d id,
              same,
              nothing,
              ap (held d id w.table) e,
              reported-append d id w.items w.in_flight,
            );
      }
  push_step-Keeps w (retiring (p ∷ todo) kept) e k =
      let ((made, rest), c) = subst (IsBounded w.table) e k.frame.bounded in
      taken-Keeps w p (retired_up p (w.table.states p).upload todo kept) made (made, rest, c)
        (λ d id. omega (
          arith,
          ap (λ i. share d id i (w.table.states p).upload 0) (kept_id w.table p),
          ap (held d id w.table) e,
        ))
        k
  push_step-Keeps w (retired_up p n todo kept) e k =
      let (made, rest, c) = subst (IsBounded w.table) e k.frame.bounded in
      let b = n == 0 && (w.table.states p).download == 0 in
      collected-Keeps w p n (if b then checking p todo kept else retiring todo (kept ++ (p ∷ [])))
        made (after_taken-IsBounded (modify w.table p take_download) b p todo kept made rest c)
        (λ d id. omega (
          arith,
          after_taken_held d id (modify w.table p take_download) b p todo kept,
          ap (held d id w.table) e,
        ))
        k
  push_step-Keeps w (checking p todo kept) e k =
      let (made, rest, c) = subst (IsBounded w.table) e k.frame.bounded in
      phase-Keeps w
        (retiring todo (if is_positive (w.table.states p).active then kept ++ (p ∷ []) else kept))
        (rest, kept-IsMade w.table (is_positive (w.table.states p).active) kept p c made)
        (λ d id. sym (ap (held d id w.table) e)) k
  push_step-Keeps w (restoring []) e k =
      phase-Keeps w resting tt (λ d id. unfold reported in sym (ap (held d id w.table) e)) k
  push_step-Keeps w (restoring (item ∷ items)) e k =
      let o = get w.table item.user_id in
      phase-Keeps w (found o item items) (found-IsBounded w.table item items o k.frame.current refl)
        (λ d id. held-found d id w.table item items o ∙ sym (ap (held d id w.table) e)) k
  push_step-Keeps w (missing item items) e k = missing-Keeps w item items e k
  push_step-Keeps w (adding p item items) e k = add_upload-Keeps w p item items e k
  push_step-Keeps w (adding_down p item items) e k = add_download-Keeps w p item items e k
