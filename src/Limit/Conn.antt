-- ===== src/Limit/Conn.antt =====
-- common/limit/limiter.go: `limitedConn` and `limitedPacketConn`. The wrapped connection is what its
-- calls return.
use ne_xt_server.Base.{ℕ, ◌<◌, min, ◌≡◌, refl, ◌⊎◌, inl, inr, Option, none, some}
use mathlib.Core.Option
use ne_xt_server.Limit.Bucket.{RateApi, Limiter}
use ne_xt_server.Limit.Wait.{Waited, wait, wait_total, Grants}

module _ (api : RateApi) where
  open api use {Error, RateLimiter, burst}

  abbrev pub or_else : Option Error → Option Error → Option Error
  or_else none e = e
  or_else (some x) e = some x

  -- How many bytes a call passed, its error, and the limiter afterwards.
  pub record Passed : Type 0 where
    pub count : ℕ
    pub error : Option Error
    pub limiter : Limiter api

  abbrev pub after_read : Limiter api → ℕ → Option Error → Waited api → Passed
  after_read l n e w = record {
    count = n;
    error = or_else e w.error;
    limiter = record l { upload = w.limiter };
  }

  -- `Read` into a buffer of `size` bytes: at most one burst is read, then waited for. The wrapped
  -- connection's own error comes first.
  unfoldable pub read : (ℕ → ℕ × Option Error) → Limiter api → ℕ → Option Passed
  read conn_read l size =
      let (n, e) = conn_read (min size (burst l.upload)) in
      Option.map (after_read l n e) (wait api n l.upload n)

  abbrev pub after_wait : (ℕ × Option Error) → Limiter api → Waited api → Passed
  after_wait (n, e) l w = elim w.error [
    | none ↦ record { count = n; error = e; limiter = record l { download = w.limiter } }
    | some x ↦ record { count = 0; error = some x; limiter = record l { download = w.limiter } }
  ]

  -- `Write` of `size` bytes: the bytes are waited for, then written; `written` is what the wrapped
  -- connection's call returns.
  unfoldable pub write : (ℕ × Option Error) → Limiter api → ℕ → Option Passed
  write written l size = Option.map (after_wait written l) (wait api size l.download size)

  -- `ReadPacket`: a packet that was read is waited for, `conn_read` has its length or the error.
  unfoldable pub read_packet : Error ⊎ ℕ → Limiter api → Option Passed
  read_packet (inl e) l = some (record { count = 0; error = some e; limiter = l })
  read_packet (inr n) l = Option.map (after_read l n none) (wait api n l.upload n)

  -- `WritePacket`: a packet whose wait fails is released and not written.
  unfoldable pub write_packet : Option Error → Limiter api → ℕ → Option Passed
  write_packet written l size =
      Option.map (after_wait (size, written) l) (wait api size l.download size)

  -- With a positive burst, a read comes back with what the wrapped connection read of at most one
  -- burst, having taken that many bytes from the upload limiter unless there is an error; and the
  -- download limiter is left alone.
  pub read_paced :
      (conn_read : ℕ → ℕ × Option Error) (l : Limiter api) (size : ℕ)
      → 0 < burst l.upload
      → let n = (conn_read (min size (burst l.upload))).0 in
        (w : Waited api) × (read conn_read l size
          ≡ some (after_read l n (conn_read (min size (burst l.upload))).1 w))
        × Grants api n (burst l.upload) w
  unfolding read
  read_paced conn_read l size pos =
      let n = (conn_read (min size (burst l.upload))).0 in
      let (w, done, g) = wait_total api l.upload n pos in (w, rw done refl, g)
