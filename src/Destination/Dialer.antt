-- ===== src/Destination/Dialer.antt =====
-- destination.go: `privateFilterDialer` and `privateFilterPacketConn`.
use ne_xt_server.Base.{ℕ, Bool, not, ◌||◌, Option, none, List, [], ◌∷◌, if◌then◌else◌, length}
use ne_xt_server.Base.Result.{Result, ok, err}
use ne_xt_server.Metadata.{Socksaddr, SocksaddrMethods, Refusal, private_destination}
use ne_xt_server.Netip.{is_valid}
use ne_xt_server.Destination.Filter.{private_address}

-- A packet: where it goes, and its payload.
abbrev pub Packet : Type 0
Packet = Socksaddr × List ℕ

-- The wrapped connection, by what it was made to send, last first.
abbrev pub Sent : Type 0
Sent = List Packet

module _ (methods : SocksaddrMethods) (pass_domains : Bool) where
  open methods use {is_fqdn}

  unfoldable pub refuses : Socksaddr → Bool
  refuses destination =
      if is_fqdn destination
      then not pass_domains
      else not (is_valid destination.addr) || private_address destination.addr

  -- `DialContext`; the wrapped dialer answers with a connection or an error.
  unfoldable pub dial_context :
      {Conn : Type 0} → (Socksaddr → Result Refusal Conn) → Socksaddr → Result Refusal Conn
  dial_context dial destination =
      if refuses destination then err private_destination else dial destination

  -- `ListenPacket`; the connection comes back wrapped, with nothing sent yet.
  unfoldable pub listen_packet :
      (Socksaddr → Result Refusal (Unit {0})) → Socksaddr → Result Refusal Sent
  listen_packet listen destination =
      if refuses destination
      then err private_destination
      else elim (listen destination) [ ok _ ↦ ok [] | err e ↦ err e ]

  -- `WritePacket`: a refused packet is dropped, and the write succeeds. The wrapped connection's
  -- own error is passed on.
  unfoldable pub write_packet : (Packet → Option Refusal) → Packet → Sent → Sent × Option Refusal
  write_packet write packet sent =
      if refuses packet.0 then (sent, none) else (packet ∷ sent, write packet)

  -- `WriteTo`: the same for a plain address, which `M.SocksaddrFromNet` reads; the result is the
  -- number of bytes written.
  unfoldable pub write_to :
      {NetAddr : Type 0}
      → (NetAddr → Socksaddr)
      → (List ℕ → NetAddr → Result Refusal ℕ)
      → List ℕ
      → NetAddr
      → Result Refusal ℕ
  write_to from_net write p addr = if refuses (from_net addr) then ok (length p) else write p addr

  -- A session that writes each of a list of packets, whatever the writes return.
  unfoldable pub write_all : (Packet → Option Refusal) → List Packet → Sent → Sent
  write_all write [] sent = sent
  write_all write (packet ∷ packets) sent =
      write_all write packets (write_packet write packet sent).0
