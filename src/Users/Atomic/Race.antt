-- ===== src/Users/Atomic/Race.antt =====
-- A connection that ends while `collectTraffic` is between the counters and the connections of its state.
use ne_xt_server.Users.Atomic.{
  World, retiring, retired_up, checking, add_upload, take_upload, take_download, collected,
  push_step, uploads, closes, pushes, Reach, here, next,
}
use mathlib.Core.List.{append-nil}
use ne_xt_server.Base.Int.{pos, is_positive}
use ne_xt_server.Users.State.{LimiterOps, close_connection}
use ne_xt_server.Users.Table.{modify}
use ne_xt_server.Base.Sums.{put_self}
use ne_xt_server.Base.{
  ℕ, ◌<◌, ◌+◌, ◌%◌, ◌^◌, ◌≡◌, refl, sym, ap, ◌∙◌, List, [], ◌∷◌, ◌++◌, arith, ap₂, false, ◌&&◌,
  ◌==◌, if◌then◌else◌,
}

-- A retired state has nothing counted and one open connection. Between the look at its counters and the
-- look at its connections, the connection carries bytes and ends: then the state is dropped with the
-- bytes, which no item has.
pub late_bytes_dropped :
    (ops : LimiterOps) (w : World ops.Limiter) (p n activity now : ℕ) (todo kept : List ℕ)
    → w.phase ≡ retiring (p ∷ todo) kept
    → p < w.table.next
    → (w.table.states p).upload ≡ 0
    → (w.table.states p).download ≡ 0
    → (w.table.states p).active ≡ pos 1
    → (w' : World ops.Limiter) × Reach ops w w'
      × (w'.phase ≡ retiring todo kept)
      × ((w'.table.states p).upload ≡ n % 2 ^ 64)
      × (w'.items ≡ w.items)
      × (w'.carried
          ≡ record { user_id = (w.table.states p).id; upload = n; download = 0 } ∷ w.carried)
unfolding push_step
late_bytes_dropped ops w p n activity now todo kept at made up down one =
    let s = w.table.states p in
    let w1 : World ops.Limiter = push_step w (retiring (p ∷ todo) kept) in
    let w2 : World ops.Limiter = push_step w1 (retired_up p s.upload todo kept) in
    let w3 : World ops.Limiter = record w2 {
      table = modify w2.table p (add_upload n);
      carried = record { user_id = (w2.table.states p).id; upload = n; download = 0 } ∷ w2.carried;
    } in
    let w4 : World ops.Limiter = record w3 {
      table = modify w3.table p (λ u. close_connection u activity now);
    } in
    let w5 : World ops.Limiter = push_step w4 (checking p todo kept) in
    let e1 : w1.table.states p ≡ take_upload s = put_self w.table.states p (take_upload s) in
    let e2 : w2.table.states p ≡ take_download (take_upload s) =
      put_self w1.table.states p (take_download (w1.table.states p)) ∙ ap take_download e1 in
    let e3 : w3.table.states p ≡ add_upload n (take_download (take_upload s)) =
      put_self w2.table.states p (add_upload n (w2.table.states p)) ∙ ap (add_upload n) e2 in
    let e4 : w4.table.states p
        ≡ close_connection (add_upload n (take_download (take_upload s))) activity now =
      put_self w3.table.states p (close_connection (w3.table.states p) activity now)
      ∙ ap (λ u. close_connection u activity now) e3 in
    let nothing : (w1.table.states p).download ≡ 0 = ap (λ u. u.download) e1 ∙ down in
    let at2 : w2.phase ≡ checking p todo kept =
      ap₂
        (λ a b. if a == 0 && b == 0 then checking p todo kept else retiring todo (kept ++ (p ∷ [])))
        up nothing in
    let sum : (close_connection (add_upload n (take_download (take_upload s))) activity now).upload
        ≡ (0 + n) % 2 ^ 64 =
      unfold close_connection in refl in
    let ended : is_positive (w4.table.states p).active ≡ false =
      ap (λ u. is_positive u.active) e4 ∙ unfold close_connection in rw one refl in
    (
      w5,
      next
          (next
            (next (next (next here (pushes (sym (ap (push_step w) at)))) (pushes refl))
              (uploads p n made refl))
            (closes p activity now refl))
          (pushes (sym (ap (push_step w4) at2))),
      rw ended refl,
      omega (arith, ap (λ u. u.upload) e4, sum),
      ap₂ (λ a b. w.items ++ collected (w1.table.states p).id a b) up nothing ∙ append-nil w.items,
      ap (λ u. record { user_id = u.id; upload = n; download = 0 } ∷ w.carried) e2,
    )
