-- ===== src/Transit/Dial.antt =====
-- `set_socket_opts` and `connect_custom` of src/transit.rs: dialling with a socket whose address can
-- be used again. What each system call gives is input; a call with no value is its error, if any.
use magic_wormhole_rs.Common.{◌≡◌, refl, ap, Option, none, some, ◌⊎◌, inl, inr}
use magic_wormhole_rs.Transit.Socket.{IoError, Socket}

-- How `connect` on a socket that does not block returns.
pub data Initiated : Type 0 where
  connected : Initiated
  in_progress : Initiated
  would_block : Initiated
  refused : IoError → Initiated

pub record Calls : Type 0 where
  pub new_socket : Option IoError
  pub set_nonblocking : Option IoError
  pub set_reuse_address : Option IoError
  pub set_reuse_port : Option IoError
  pub bind : Option IoError
  pub initiate : Initiated
  pub async_new : Option IoError
  pub writable : Option IoError
  -- `take_error`: the error of the connection, or that of the call.
  pub take_error : Option IoError ⊎ IoError
  pub into_inner : Socket ⊎ IoError

-- `?` on a call, and what follows it.
abbrev pub and_then {ℓ} : {A : Type ℓ} → Option IoError → A ⊎ IoError → A ⊎ IoError
and_then none rest = rest
and_then (some e) rest = inr e

module _ (calls : Calls) where
  -- `set_socket_opts`, on a Unix system.
  unfoldable pub set_socket_opts : Unit {0} ⊎ IoError
  set_socket_opts =
      and_then calls.set_nonblocking
        (and_then calls.set_reuse_address (and_then calls.set_reuse_port (inl tt)))

  unfoldable pub error_of : Unit {0} ⊎ IoError → Option IoError
  error_of (inl _) = none
  error_of (inr e) = some e

  -- The errors of `connect` that only tell that it goes on are none.
  unfoldable pub initiation_error : Initiated → Option IoError
  initiation_error (refused e) = some e
  initiation_error _ = none

  -- `and_then(|maybe_err| maybe_err.map_or(Ok(()), Result::Err))`
  unfoldable pub connection_error : Option IoError ⊎ IoError → Option IoError
  connection_error (inl o) = o
  connection_error (inr e) = some e

  -- `connect_custom`
  unfoldable pub connect_custom : Socket ⊎ IoError
  unfolding set_socket_opts error_of initiation_error connection_error
  connect_custom = and_then calls.new_socket (
      and_then (error_of set_socket_opts) (
        and_then calls.bind (
          and_then (initiation_error calls.initiate) (
            and_then calls.async_new (
              and_then calls.writable
                (and_then (connection_error calls.take_error) calls.into_inner))))))

and_then-inl :
    {A : Type 0} (o : Option IoError) (rest : A ⊎ IoError) (a : A)
    → and_then o rest ≡ inl a
    → (o ≡ none) × (rest ≡ inl a)
and_then-inl none rest a h = (refl, h)
and_then-inl (some e) rest a h = cc

connection_error-none :
    (calls : Calls) (o : Option IoError ⊎ IoError) → connection_error calls o ≡ none → o ≡ inl none
unfolding connection_error
connection_error-none calls (inl o) h = ap inl h
connection_error-none calls (inr e) h = cc

-- A stream is given only where no call failed: neither those that set the options, nor the one that
-- began the connection, nor the connection itself.
pub connect_custom-inl :
    (calls : Calls) (s : Socket)
    → connect_custom calls ≡ inl s
    → (error_of calls (set_socket_opts calls) ≡ none)
      × (initiation_error calls calls.initiate ≡ none)
      × (calls.take_error ≡ inl none)
      × (calls.into_inner ≡ inl s)
unfolding connect_custom
connect_custom-inl calls s h =
    let (e1, h1) = and_then-inl calls.new_socket _ s h in
    let (e2, h2) = and_then-inl (error_of calls (set_socket_opts calls)) _ s h1 in
    let (e3, h3) = and_then-inl calls.bind _ s h2 in
    let (e4, h4) = and_then-inl (initiation_error calls calls.initiate) _ s h3 in
    let (e5, h5) = and_then-inl calls.async_new _ s h4 in
    let (e6, h6) = and_then-inl calls.writable _ s h5 in
    let (e7, h7) = and_then-inl (connection_error calls calls.take_error) _ s h6 in
    (e2, e4, connection_error-none calls calls.take_error e7, h7)
