-- ===== src/Transit/Url.antt =====
-- `RelayUrl::from_str` of src/transit.rs.
use magic_wormhole_rs.Common.{
  ℕ, ◌≡◌, refl, List, [], ◌∷◌, ◌++◌, Option, none, some, false, Bytes, ◌==◌, if◌then◌else◌, Outcome,
  ok, err, arith, bytes_eq, contains_byte, ap, ◌∙◌, ◌^◌,
}
use magic_wormhole_rs.Common.Decimal.{parse}
use magic_wormhole_rs.Common.Text.{codes}
use magic_wormhole_rs.Transit.Hints.{RelayUrl}

pub data UrlError : Type 0 where
  bad_port bad_format : UrlError

abbrev cons_first : ℕ → List Bytes → List Bytes
cons_first c [] = (c ∷ []) ∷ []
cons_first c (w ∷ ws) = (c ∷ w) ∷ ws

-- `split(':')`: the pieces between the colons; there is always one piece at least.
unfoldable pub split_colons : Bytes → List Bytes
split_colons [] = [] ∷ []
split_colons (c ∷ cs) =
    let rest = split_colons cs in if c == b':' then [] ∷ rest else cons_first c rest

with_port : Bytes → Option ℕ → Outcome UrlError RelayUrl
with_port host none = err bad_port
with_port host (some port) = ok (record { host = host; port = port })

unfoldable pub from_pieces : List Bytes → Outcome UrlError RelayUrl
unfolding with_port
from_pieces (scheme ∷ host ∷ port ∷ []) =
    if bytes_eq scheme (codes "tcp") then with_port host (parse (2 ^ 16) port) else err bad_format
from_pieces _ = err bad_format

unfoldable pub from_str : Bytes → Outcome UrlError RelayUrl
unfolding from_pieces split_colons
from_str url = from_pieces (split_colons url)

split_colons_piece :
    (w rest : Bytes)
    → contains_byte b':' w ≡ false
    → split_colons (w ++ (b':' ∷ rest)) ≡ w ∷ split_colons rest
unfolding split_colons contains_byte
split_colons_piece [] rest h = refl
split_colons_piece (c ∷ w) rest h = ground (arith, split_colons_piece w rest)

split_colons_last : (w : Bytes) → contains_byte b':' w ≡ false → split_colons w ≡ w ∷ []
unfolding split_colons contains_byte
split_colons_last [] h = refl
split_colons_last (c ∷ w) h = ground (arith, split_colons_last w)

-- A URL `tcp:HOST:PORT` with no colon in the host or in the port's text is parsed exactly when the
-- text of the port is that of a u16, and then into this host and that port.
pub from_str_tcp :
    (host port : Bytes)
    → contains_byte b':' host ≡ false
    → contains_byte b':' port ≡ false
    → from_str (codes "tcp:" ++ (host ++ (b':' ∷ port))) ≡ (elim (parse (2 ^ 16) port) [
      | none ↦ err bad_port
      | some p ↦ ok (record { host = host; port = p })
    ])
unfolding from_str
from_str_tcp host port h p =
    let pieces : split_colons (codes "tcp:" ++ (host ++ (b':' ∷ port)))
        ≡ codes "tcp" ∷ host ∷ port ∷ [] =
      split_colons_piece (codes "tcp") (host ++ (b':' ∷ port)) (unfold contains_byte in refl)
      ∙ ap (λ l. codes "tcp" ∷ l)
          (split_colons_piece host port h ∙ ap (λ l. host ∷ l) (split_colons_last port p)) in
    rw pieces (unfold bytes_eq in refl)
