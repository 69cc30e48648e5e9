-- ===== src/Transit/Record.antt =====
-- The encrypted records of `Transit` in src/transit.rs.
use magic_wormhole_rs.Common.{
  ℕ, zero, suc, ◌+◌, ◌%◌, ◌^◌, List, [], ◌∷◌, Bytes, ok, err, panic, Action, after, ◌>>=◌, ◌>>◌,
  return, ensure, ok_or, length, take, drop, ltb, ◌==◌, if◌then◌else◌, bytes_eq, replicate,
}
use magic_wormhole_rs.Core.Crypto.{Crypto}
use magic_wormhole_rs.Core.Key.{Key, Nonce, nonce_size}
use magic_wormhole_rs.Transit.Socket.{
  IoError, incomplete_message, Socket, read_exact, read_up_to, write_all, to_be_bytes,
  from_be_bytes,
}
use magic_wormhole_rs.Util.Counter.{sodium_increment_be}

pub data TransitError : Type 0 where
  crypto : TransitError
  wrong_nonce : Bytes → Bytes → TransitError
  io : IoError → TransitError

-- One direction of a connection: the socket and the nonce that counts its records.
pub record Pipe : Type 0 where
  pub socket : Socket
  pub nonce : Nonce

pub record Transit : Type 0 where
  pub socket : Socket
  pub skey : Key
  pub rkey : Key
  pub snonce : Nonce
  pub rnonce : Nonce

unfoldable pub on_socket : {A : Type 0} → Action Socket TransitError A → Action Pipe TransitError A
on_socket f p = let (o, s) = f p.socket in (o, record p { socket = s })

-- `Nonce::default()`
abbrev pub zero_nonce : Nonce
zero_nonce = replicate 24 0

module _ (c : Crypto) where
  -- The nonce check and the decryption; the counter advances before the packet is decrypted.
  unfoldable pub open_packet : Key → Bytes → Action Pipe TransitError Bytes
  open_packet rkey packet p =
      let received = take nonce_size packet in
      let ciphertext = drop nonce_size packet in
      if ltb (length packet) nonce_size
      then (panic, p)
      else if bytes_eq p.nonce received
      then ok_or (c.decrypt rkey received ciphertext) crypto
          (record p { nonce = sodium_increment_be p.nonce })
      else (err (wrong_nonce received p.nonce), p)

  -- `Transit::receive_record_inner`
  unfoldable pub receive_record_inner : Key → Action Pipe TransitError Bytes
  unfolding on_socket open_packet
  receive_record_inner rkey = do
    length_arr ← on_socket (read_exact io 4)
    packet ← on_socket (read_up_to (from_be_bytes length_arr))
    ensure (length packet == from_be_bytes length_arr) (io incomplete_message)
    open_packet rkey packet

  -- `Transit::send_record_inner`; the length is cast `as u32`.
  write_packet : Bytes → Action Pipe TransitError (Unit {0})
  unfolding on_socket
  write_packet ciphertext p =
      after
        (on_socket (write_all io (to_be_bytes ((length ciphertext + length p.nonce) % 2 ^ 32))) p)
        λ _. do on_socket (write_all io p.nonce); on_socket (write_all io ciphertext)

  advance : Action Pipe TransitError (Unit {0})
  advance p = (ok tt, record p { nonce = sodium_increment_be p.nonce })

  unfoldable pub send_record_inner : Key → Bytes → Action Pipe TransitError (Unit {0})
  unfolding write_packet advance
  send_record_inner skey plaintext p =
      after (ok_or (c.encrypt skey p.nonce plaintext) crypto p)
        λ ciphertext. do write_packet ciphertext; advance

  -- `Transit::receive_record`
  unfoldable pub receive_record : Action Transit TransitError Bytes
  unfolding receive_record_inner
  receive_record t =
      let (o, p) = receive_record_inner t.rkey (record { socket = t.socket; nonce = t.rnonce }) in
      (o, record t { socket = p.socket; rnonce = p.nonce })

  -- `Transit::send_record`
  unfoldable pub send_record : Bytes → Action Transit TransitError (Unit {0})
  unfolding send_record_inner
  send_record plaintext t =
      let (o, p) =
        send_record_inner t.skey plaintext (record { socket = t.socket; nonce = t.snonce }) in
      (o, record t { socket = p.socket; snonce = p.nonce })

  -- Calls of `send_record_inner` and `receive_record_inner` in a row, as the sink and the stream of
  -- `Transit::split` make them.
  unfoldable pub send_all : Key → List Bytes → Action Pipe TransitError (Unit {0})
  send_all skey [] = return tt
  send_all skey (x ∷ xs) = do send_record_inner skey x; send_all skey xs

  unfoldable pub receive_all : Key → ℕ → Action Pipe TransitError (List Bytes)
  receive_all rkey zero = return []
  receive_all rkey (suc n) = do
    x ← receive_record_inner rkey
    xs ← receive_all rkey n
    return (x ∷ xs)
