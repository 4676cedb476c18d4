-- ===== src/Users/Atomic/Moves.antt =====
-- The steps of the connections and of `update`, and those that only change what the pushes are at, keep the
-- account.
use ne_xt_server.Users.Atomic.{World, Phase, add_upload, add_download}
use ne_xt_server.Users.Atomic.Frame.{
  IsBounded, IsMade, IsOwned, IsPulled, grown-Frame, Extends-Grows, grown-IsMade, grown-IsOwned,
  grown-IsBounded, modify-Frame, modify-Grows, serve_grows,
}
use ne_xt_server.Users.Atomic.Account.{
  held, share, counted-Extends, held-Grows, counted-add_upload, counted-add_download, item_shares,
}
use ne_xt_server.Users.Atomic.Pushing.{Keeps, rephased}
use ne_xt_server.Adapter.{User, UserTraffic}
use ne_xt_server.Base.Assoc.{lookup}
use ne_xt_server.Base.Int.{ℤ, ℤ_discrete}
use ne_xt_server.Base.Sums.{put_same}
use ne_xt_server.Users.State.{LimiterOps, UserState}
use ne_xt_server.Users.Pending.{Direction, up, down, reported, Extends, Extends-IsBlank}
use ne_xt_server.Users.Ledger.Balance.{KeepsAccount}
use ne_xt_server.Users.Table.{Table, modify, serve, retire, retire_user}
use ne_xt_server.Users.Update.Balance.{retire_frame, serve_retired}
use ne_xt_server.Users.Update.Frame.{retire-Extends, cancel_frame}
use ne_xt_server.Base.{
  ℕ, ◌<◌, ◌+◌, ◌≡◌, refl, sym, subst, Option, none, some, List, [], ◌∷◌, arith, All, All-append,
  All-mono,
}

share_nothing : (d : Direction) (id owner : ℤ) → share d id owner 0 0 ≡ 0
share_nothing up id owner = ground arith
share_nothing down id owner = ground arith

module _ {L : Type 0} where
  -- A change of the table that counts nothing and leaves its lists alone.
  extended-Keeps :
      (w : World L) (t' : Table L)
      → Extends w.table t'
      → t'.current ≡ w.table.current
      → t'.retired ≡ w.table.retired
      → Keeps w
      → Keeps (record w { table = t' })
  extended-Keeps w t' x same same' k =
      let g = Extends-Grows w.table t' x in
      record {
        frame =
            grown-Frame w.table t' w.phase w.pulling g (Extends-IsBlank w.table t' x k.frame.blank)
              same same' k.frame;
        balance = λ d id. omega (
          arith,
          k.balance d id,
          counted-Extends d id w.table t' x k.frame.blank,
          held-Grows d id w.table t' w.phase g k.frame.bounded,
        );
      }

  modify-Extends :
      (t : Table L) (p : ℕ) (f : UserState L → UserState L)
      → KeepsAccount (t.states p) (f (t.states p))
      → Extends t (modify t p f)
  modify-Extends t p f (a, b, c, e) = record {
    grown = omega arith;
    same_upload = put_same (λ u. u.upload) t.states p (f (t.states p)) b;
    same_download = put_same (λ u. u.download) t.states p (f (t.states p)) c;
    same_id = λ q h. put_same (λ u. u.id) t.states p (f (t.states p)) a q;
  }

  retire_user-IsMade :
      (t : Table L) (p : ℕ) (o : Option ℕ)
      → All (IsMade t) t.retired
      → p < t.next
      → All (IsMade (retire_user t p o)) (retire_user t p o).retired
  unfolding retire_user
  retire_user-IsMade t p none h made = All-append (IsMade t) t.retired (p ∷ []) h (made, tt)
  retire_user-IsMade t p (some q) h made = h

  retire-IsMade :
      (m : List (ℤ × ℕ)) (t : Table L) (previous : List (ℤ × ℕ))
      → All (IsMade t) t.retired
      → All (IsOwned t) previous
      → All (IsMade (retire m t previous)) (retire m t previous).retired
  unfolding retire
  retire-IsMade m t [] h k = h
  retire-IsMade m t ((id, p) ∷ previous) h (e, k) =
      let o = lookup ℤ_discrete id m in
      let g = Extends-Grows t (retire_user t p o) (cancel_frame t p o) in
      retire-IsMade m (retire_user t p o) previous (retire_user-IsMade t p o h e.1)
        (All-mono previous (grown-IsOwned t (retire_user t p o) g) k)

  pub uploads-Keeps :
      (w : World L) (p n : ℕ)
      → p < w.table.next
      → Keeps w
      → Keeps (record w {
        table = modify w.table p (add_upload n);
        carried = record { user_id = (w.table.states p).id; upload = n; download = 0 } ∷ w.carried;
      })
  unfolding reported
  uploads-Keeps w p n made k = record {
    frame = modify-Frame w.table w.phase w.pulling p (add_upload n) refl made k.frame;
    balance = λ d id. omega (
      arith,
      k.balance d id,
      counted-add_upload d id w.table p made n,
      held-Grows d id w.table (modify w.table p (add_upload n)) w.phase
          (modify-Grows w.table p (add_upload n) refl) k.frame.bounded,
      item_shares d id (record { user_id = (w.table.states p).id; upload = n; download = 0 }),
      share_nothing d id (w.table.states p).id,
    );
  }

  pub downloads-Keeps :
      (w : World L) (p n : ℕ)
      → p < w.table.next
      → Keeps w
      → Keeps (record w {
        table = modify w.table p (add_download n);
        carried = record { user_id = (w.table.states p).id; upload = 0; download = n } ∷ w.carried;
      })
  unfolding reported
  downloads-Keeps w p n made k = record {
    frame = modify-Frame w.table w.phase w.pulling p (add_download n) refl made k.frame;
    balance = λ d id. omega (
      arith,
      k.balance d id,
      counted-add_download d id w.table p made n,
      held-Grows d id w.table (modify w.table p (add_download n)) w.phase
          (modify-Grows w.table p (add_download n) refl) k.frame.bounded,
      item_shares d id (record { user_id = (w.table.states p).id; upload = 0; download = n }),
      share_nothing d id (w.table.states p).id,
    );
  }

  pub account-Keeps :
      (w : World L) (p : ℕ) (f : UserState L → UserState L)
      → KeepsAccount (w.table.states p) (f (w.table.states p))
      → Keeps w
      → Keeps (record w { table = modify w.table p f })
  account-Keeps w p f a k =
      extended-Keeps w (modify w.table p f) (modify-Extends w.table p f a) refl refl k

  -- Another phase that holds as much.
  pub phase-Keeps :
      (w : World L) (phase' : Phase) (items : List UserTraffic)
      → IsBounded w.table phase'
      → ((d : Direction) (id : ℤ)
          → reported d id items + held d id w.table phase'
            ≡ reported d id w.in_flight + held d id w.table w.phase)
      → Keeps w
      → Keeps (record w { phase = phase'; in_flight = items })
  phase-Keeps w phase' items bounded same k = record {
    frame = rephased phase' bounded k.frame;
    balance = λ d id. omega (arith, k.balance d id, same d id);
  }

  pub retires-Keeps :
      (w : World L) (m previous : List (ℤ × ℕ))
      → w.pulling ≡ some (m, previous)
      → Keeps w
      → Keeps (record w { table = retire m w.table previous; pulling = none })
  retires-Keeps w m previous e k =
      let t' = retire m w.table previous in
      let x = retire-Extends m w.table previous in
      let g = Extends-Grows w.table t' x in
      let owned : All (IsOwned w.table) previous = subst (IsPulled w.table) e k.frame.pulled in
      record {
        frame = record {
          blank = Extends-IsBlank w.table t' x k.frame.blank;
          current =
              subst (All (IsOwned t')) (sym (retire_frame m w.table previous).0)
                (All-mono w.table.current (grown-IsOwned w.table t' g) k.frame.current);
          retired = retire-IsMade m w.table previous k.frame.retired owned;
          bounded = grown-IsBounded w.table t' g w.phase k.frame.bounded;
          pulled = tt;
        };
        balance = λ d id. omega (
          arith,
          k.balance d id,
          counted-Extends d id w.table t' x k.frame.blank,
          held-Grows d id w.table t' w.phase g k.frame.bounded,
        );
      }

pub stores-Keeps :
    (ops : LimiterOps) (w : World ops.Limiter) (users : List User) (node_limit : ℕ)
    → Keeps w
    → let (t, m) = serve ops node_limit w.table.current w.table [] users in
      Keeps (record w { table = record t { current = m }; pulling = some (m, w.table.current) })
stores-Keeps ops w users node_limit k =
    let (t, m) = serve ops node_limit w.table.current w.table [] users in
    let (x, entries) =
      serve_grows ops node_limit w.table.current w.table [] users k.frame.blank k.frame.current
        tt in
    let t' : Table ops.Limiter = record t { current = m } in
    let x' : Extends w.table t' = record {
      grown = x.grown;
      same_upload = x.same_upload;
      same_download = x.same_download;
      same_id = x.same_id;
    } in
    let g = Extends-Grows w.table t' x' in
    record {
      frame = record {
        blank = Extends-IsBlank w.table t' x' k.frame.blank;
        current = entries;
        retired =
            subst (All (IsMade t'))
              (sym (serve_retired ops node_limit w.table.current w.table [] users))
              (All-mono w.table.retired (grown-IsMade w.table t' g) k.frame.retired);
        bounded = grown-IsBounded w.table t' g w.phase k.frame.bounded;
        pulled = All-mono w.table.current (grown-IsOwned w.table t' g) k.frame.current;
      };
      balance = λ d id. omega (
        arith,
        k.balance d id,
        counted-Extends d id w.table t' x' k.frame.blank,
        held-Grows d id w.table t' w.phase g k.frame.bounded,
      );
    }
