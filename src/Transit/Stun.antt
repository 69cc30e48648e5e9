-- ===== src/Transit/Stun.antt =====
-- `get_external_ip` of src/transit.rs: asking a STUN server for the own address.
use magic_wormhole_rs.Common.{
  ℕ, ◌+◌, ◌*◌, ◌<◌, ◌≡◌, ◌⊎◌, inl, inr, refl, List, [], ◌∷◌, ◌++◌, Option, none, some, true, Bytes,
  Outcome, ok, err, panic, pending, Action, after, ◌>>=◌, ◌>>◌, return, crash, ok_or, expect, ltb,
  get_or, if◌then◌else◌, length, lt→ltb,
}
use magic_wormhole_rs.Transit.Hints.{DirectHint}
use magic_wormhole_rs.Transit.Socket.{IoError, Socket, read_exact, read_exact_prefix, write_all}

pub data StunError : Type 0 where
  server_is_v4_only : StunError
  timeout : StunError
  io : IoError → StunError
  codec : StunError

-- A socket address, the text of the IP and the port.
pub data SocketAddr : Type 0 where
  v4 : DirectHint → SocketAddr
  v6 : DirectHint → SocketAddr

-- `find(|x| x.is_ipv4())`
unfoldable pub find_v4 : List SocketAddr → Option DirectHint
find_v4 [] = none
find_v4 (v4 h ∷ rest) = some h
find_v4 (v6 h ∷ rest) = find_v4 rest

-- The attributes of a decoded message that are looked at, both with `none` where it has none.
pub record Attributes : Type 0 where
  pub xor_mapped : Option SocketAddr
  pub mapped : Option SocketAddr

-- What the query takes from elsewhere: the addresses of the server, the mapping of an IPv4 address
-- into IPv6, the socket connected to an address, and the packets of the STUN crate.
pub record Query : Type 0 where
  pub server : List SocketAddr ⊎ IoError
  pub to_ipv6_mapped : DirectHint → DirectHint
  pub dial : DirectHint → Socket ⊎ IoError
  pub binding_request : Option Bytes
  pub decode : Bytes → Option Attributes

or_else : Option SocketAddr → Option SocketAddr → Option SocketAddr
or_else none b = b
or_else (some a) b = some a

-- `u16::from_be_bytes([buf[2], buf[3]])`, of a header of 20 bytes.
unfoldable pub body_length : Bytes → ℕ
body_length header = get_or header 2 0 * 256 + get_or header 3 0

module _ (query : Query) where
  -- `decode_address`
  unfoldable pub decode_address : Bytes → Action Socket StunError SocketAddr
  unfolding or_else
  decode_address buf = do
    decoded ← ok_or (query.decode buf) codec
    expect (or_else decoded.xor_mapped decoded.mapped)

  -- The rest of the message, read into the 236 bytes of the buffer behind the header.
  read_body : Bytes → Action Socket StunError Bytes
  unfolding body_length
  read_body header =
      if ltb 236 (body_length header)
      then crash
      else (λ s. after (read_exact io (body_length header) s) λ body. return (header ++ body))

  -- The exchange on a connected socket.
  unfoldable pub exchange : Action Socket StunError SocketAddr
  unfolding read_body decode_address
  exchange = do
    request ← ok_or query.binding_request codec
    write_all io request
    header ← read_exact io 20
    packet ← read_body header
    decode_address packet

  with_socket : Outcome StunError SocketAddr × Socket → Outcome StunError (SocketAddr × Socket)
  with_socket (ok addr, t) = ok (addr, t)
  with_socket (err e, t) = err e
  with_socket (panic, t) = panic
  with_socket (pending, t) = pending

  connected : Socket ⊎ IoError → Outcome StunError (SocketAddr × Socket)
  unfolding exchange with_socket
  connected (inr e) = err (io e)
  connected (inl s) = with_socket (exchange s)

  asked : Option DirectHint → Outcome StunError (SocketAddr × Socket)
  unfolding connected
  asked none = err server_is_v4_only
  asked (some h) = connected (query.dial (query.to_ipv6_mapped h))

  -- `get_external_ip`
  unfoldable pub get_external_ip : Outcome StunError (SocketAddr × Socket)
  unfolding asked find_v4
  get_external_ip = elim query.server [ inl addrs ↦ asked (find_v4 addrs) | inr e ↦ err (io e) ]

  -- A response whose header announces more than 236 bytes makes the client panic, whatever they are.
  pub exchange-Overlong :
      (request header rest : Bytes) (s : Socket)
      → query.binding_request ≡ some request
      → s.writable ≡ true
      → s.input ≡ header ++ rest
      → length header ≡ 20
      → 236 < body_length header
      → (exchange s).0 ≡ panic
  unfolding exchange read_body write_all
  exchange-Overlong request header rest s q w i n long =
      let asked_it : Socket = record s { output = s.output ++ request; writable = true } in
      let headed : read_exact io 20 asked_it ≡ (ok header, record asked_it { input = rest }) =
        rw n at (read_exact_prefix io header rest asked_it i) in
      let over : ltb 236 (body_length header) ≡ true = lt→ltb 236 (body_length header) long in
      rw (q, w, headed, over) refl
