-- ===== src/Users/Atomic/Pushing.antt =====
-- The steps of `collectTraffic` and `restoreTraffic` keep the account.
use ne_xt_server.Users.Atomic.{
  World, Phase, restoring, adding, adding_down, add_upload, add_download, take_upload,
  take_download, collected,
}
use ne_xt_server.Users.Atomic.Frame.{IsBounded, IsMade, IsOwned, Frame, modify-Frame}
use ne_xt_server.Users.Atomic.Account.{
  counted, held, share, counted-add_upload, counted-add_download, counted-take_upload,
  counted-take_download, reported-collected, item_shares,
}
use ne_xt_server.Adapter.{UserTraffic}
use ne_xt_server.Base.Int.{ℤ}
use ne_xt_server.Base.Sums.{put_self}
use ne_xt_server.Users.Pending.{Direction, reported, reported-append}
use ne_xt_server.Users.Table.{Table, modify}
use ne_xt_server.Base.{
  ℕ, ◌<◌, ◌+◌, ◌%◌, ◌^◌, ◌≡◌, refl, ap, subst, ◌∙◌, Option, List, [], ◌∷◌, ◌++◌, arith, All,
  All-append,
}

module _ {L : Type 0} where
  -- All that was carried of a user and is not lost.
  abbrev pub account : Direction → ℤ → World L → ℕ
  account d id w =
      reported d id w.delivered
      + reported d id w.in_flight
      + reported d id w.items
      + held d id w.table w.phase
      + counted d id w.table

  pub record Keeps (w : World L) : Type 0 where
    pub frame : Frame w.table w.phase w.pulling
    pub balance :
        (d : Direction) (id : ℤ) → account d id w % 2 ^ 64 ≡ reported d id w.carried % 2 ^ 64

  -- Another phase.
  pub rephased :
      {t : Table L} {phase : Phase} {pulling : Option (List (ℤ × ℕ) × List (ℤ × ℕ))}
      (phase' : Phase)
      → IsBounded t phase'
      → Frame t phase pulling
      → Frame t phase' pulling
  rephased phase' h f = record {
    blank = f.blank;
    current = f.current;
    retired = f.retired;
    bounded = h;
    pulled = f.pulled;
  }

  pub appended :
      (t : Table L) (ps : List ℕ) (p : ℕ)
      → All (IsMade t) ps
      → p < t.next
      → All (IsMade t) (ps ++ (p ∷ []))
  appended t ps p h made = All-append (IsMade t) ps (p ∷ []) h (made, tt)

  pub taken-Keeps :
      (w : World L) (p : ℕ) (phase' : Phase)
      → p < w.table.next
      → IsBounded (modify w.table p take_upload) phase'
      → ((d : Direction) (id : ℤ)
          → held d id (modify w.table p take_upload) phase'
            ≡ held d id w.table w.phase
              + share d id (w.table.states p).id (w.table.states p).upload 0)
      → Keeps w
      → Keeps (record w { table = modify w.table p take_upload; phase = phase' })
  taken-Keeps w p phase' made bounded taken k = record {
    frame =
        rephased phase' bounded
          (modify-Frame w.table w.phase w.pulling p take_upload refl made k.frame);
    balance =
        λ d id. omega (arith, k.balance d id, taken d id, counted-take_upload d id w.table p made);
  }

  pub collected-Keeps :
      (w : World L) (p n : ℕ) (phase' : Phase)
      → p < w.table.next
      → IsBounded (modify w.table p take_download) phase'
      → ((d : Direction) (id : ℤ)
          → held d id (modify w.table p take_download) phase' + share d id (w.table.states p).id n 0
            ≡ held d id w.table w.phase)
      → Keeps w
      → Keeps (record w {
        table = modify w.table p take_download;
        items = w.items ++ collected (w.table.states p).id n (w.table.states p).download;
        phase = phase';
      })
  collected-Keeps w p n phase' made bounded taken k =
      let u = w.table.states p in
      record {
        frame =
            rephased phase' bounded
              (modify-Frame w.table w.phase w.pulling p take_download refl made k.frame);
        balance = λ d id. omega (
          arith,
          k.balance d id,
          taken d id,
          counted-take_download d id w.table p made,
          reported-append d id w.items (collected u.id n u.download),
          reported-collected d id u.id n u.download,
        );
      }

  pub kept_id : (t : Table L) (p : ℕ) → ((modify t p take_upload).states p).id ≡ (t.states p).id
  kept_id t p = ap (λ u. u.id) (put_self t.states p (take_upload (t.states p)))

  -- The restored item goes to a state of its user.
  pub add_upload-Keeps :
      (w : World L) (p : ℕ) (item : UserTraffic) (items : List UserTraffic)
      → w.phase ≡ adding p item items
      → Keeps w
      → Keeps (record w {
        table = modify w.table p (add_upload item.upload);
        phase = adding_down p item items;
      })
  add_upload-Keeps w p item items e k =
      let owned : IsOwned w.table (item.user_id, p) = subst (IsBounded w.table) e k.frame.bounded in
      record {
        frame =
            rephased (adding_down p item items)
              (
                ap (λ u. u.id)
                      (put_self w.table.states p (add_upload item.upload (w.table.states p)))
                    ∙ owned.0,
                owned.1,
              )
              (modify-Frame w.table w.phase w.pulling p (add_upload item.upload) refl owned.1
                k.frame);
        balance = λ d id. omega (
          arith,
          k.balance d id,
          ap (held d id w.table) e,
          counted-add_upload d id w.table p owned.1 item.upload,
          ap (λ i. share d id i item.upload 0) owned.0,
          item_shares d id item,
        );
      }

  pub add_download-Keeps :
      (w : World L) (p : ℕ) (item : UserTraffic) (items : List UserTraffic)
      → w.phase ≡ adding_down p item items
      → Keeps w
      → Keeps (record w {
        table = modify w.table p (add_download item.download);
        phase = restoring items;
      })
  add_download-Keeps w p item items e k =
      let owned : IsOwned w.table (item.user_id, p) = subst (IsBounded w.table) e k.frame.bounded in
      record {
        frame = rephased (restoring items) tt (
            modify-Frame w.table w.phase w.pulling p (add_download item.download) refl owned.1
              k.frame);
        balance = λ d id. omega (
          arith,
          k.balance d id,
          ap (held d id w.table) e,
          counted-add_download d id w.table p owned.1 item.download,
          ap (λ i. share d id i 0 item.download) owned.0,
        );
      }
