-- ===== src/Core/Messages/Fields.antt =====
-- What must stand in an object whose fields are read well by the derived readers of
-- src/core/server_messages.rs.
use magic_wormhole_rs.Common.{
  ℕ, ◌<◌, ◌≡◌, ◌≢◌, refl, sym, ap, ◌∙◌, inl, inr, List, [], ◌∷◌, Option, some, none, true, false,
  Bytes, bytes_eq, bytes_eq_iff, Bool-cases, ltb, arith,
}
use magic_wormhole_rs.Common.Text.{codes}
use magic_wormhole_rs.Core.Json.{
  Json, null, boolean, number, other_number, string, array, object, Elements, nil, cons, Entries,
  end, entry, has_key, field, ◌>>=◌, read_string, read_object, read_number, read_elements,
}
use magic_wormhole_rs.Core.Names.{Nameplate}
use magic_wormhole_rs.Core.Messages.{NameplateEntry, nameplates_of}
use magic_wormhole_rs.Core.Messages.Decoding.{string_field, read_nameplate_entry, read_nameplates}
use magic_wormhole_rs.Core.Messages.Reads.{Absent, Once, Listed}

pub apart : (a b : Bytes) → bytes_eq a b ≡ false → a ≢ b
apart a b n e =
    let same : bytes_eq a b ≡ true = (bytes_eq_iff a b).1 e in
    let bad : true ≡ false = sym same ∙ n in cc

-- A chain of reads that gives something.
pub bind-some :
    {A B : Type 0} (o : Option A) (f : A → Option B) (b : B)
    → (o >>= f) ≡ some b
    → (a : A) × (o ≡ some a) × (f a ≡ some b)
bind-some none f b h = cc
bind-some (some a) f b h = (a, refl, h)

read_string-some : (v : Json) (s : Bytes) → read_string v ≡ some s → v ≡ string s
unfolding read_string
read_string-some (string t) s h = ap string (cc h)
read_string-some null s h = cc
read_string-some (boolean b) s h = cc
read_string-some (number n) s h = cc
read_string-some (other_number t) s h = cc
read_string-some (array vs) s h = cc
read_string-some (object es) s h = cc

read_object-some : (v : Json) (es : Entries) → read_object v ≡ some es → v ≡ object es
unfolding read_object
read_object-some (object t) s h = ap object (cc h)
read_object-some null s h = cc
read_object-some (boolean b) s h = cc
read_object-some (number n) s h = cc
read_object-some (other_number t) s h = cc
read_object-some (array vs) s h = cc
read_object-some (string es) s h = cc

read_number-some :
    (limit : ℕ) (v : Json) (n : ℕ) → read_number limit v ≡ some n → (v ≡ number n) × (n < limit)
unfolding read_number
read_number-some limit (number k) n h = elim (Bool-cases (ltb k limit)) [
  | inl low ↦
      let found : some k ≡ some n = rw low at h in
      let same : k ≡ n = cc found in (ap number same, rw (← same) (ground (arith, low)))
  | inr high ↦ let bad : none ≡ some n = rw high at h in absurd cc
]
read_number-some limit null s h = cc
read_number-some limit (boolean b) s h = cc
read_number-some limit (object n) s h = cc
read_number-some limit (other_number t) s h = cc
read_number-some limit (array vs) s h = cc
read_number-some limit (string es) s h = cc

Absent-from : (key : Bytes) (es : Entries) → has_key key es ≡ false → Absent key es
unfolding Absent has_key
Absent-from key end h = tt
Absent-from key (entry k v es) h = elim (Bool-cases (bytes_eq k key)) [
  | inl here ↦ let bad : true ≡ false = rw here at h in absurd cc
  | inr other ↦
      let later : has_key key es ≡ false = rw other at h in
      (apart k key other, Absent-from key es later)
]

pub field-Once : (key : Bytes) (v : Json) (es : Entries) → field key es ≡ some v → Once key v es
unfolding Once field
field-Once key v end h = cc
field-Once key v (entry k w es) h = elim (Bool-cases (bytes_eq k key)) [
  | inl here ↦ elim (Bool-cases (has_key key es)) [
    | inl again ↦ let bad : none ≡ some v = rw (here, again) at h in absurd cc
    | inr once ↦
        let found : some w ≡ some v = rw (here, once) at h in
        inl ((bytes_eq_iff k key).0 here, cc found, Absent-from key es once)
  ]
  | inr other ↦
      let later : field key es ≡ some v = rw other at h in
      inr (apart k key other, field-Once key v es later)
]

pub string_field-Once :
    (key s : Bytes) (es : Entries) → string_field key es ≡ some s → Once key (string s) es
unfolding string_field
string_field-Once key s es h =
    let (v, f, r) = bind-some (field key es) read_string s h in
    field-Once key (string s) es (f ∙ ap some (read_string-some v s r))

pub number_field-Once :
    (key : Bytes) (limit n : ℕ) (es : Entries)
    → (field key es >>= read_number limit) ≡ some n
    → Once key (number n) es × (n < limit)
number_field-Once key limit n es h =
    let (v, f, r) = bind-some (field key es) (read_number limit) n h in
    let (e, l) = read_number-some limit v n r in (field-Once key (number n) es (f ∙ ap some e), l)

read_entry-Once :
    (v : Json) (n : Nameplate)
    → (x : NameplateEntry) → read_nameplate_entry v ≡ some x
    → (es : Entries) × (v ≡ object es) × Once (codes "id") (string x.id) es
unfolding read_nameplate_entry
read_entry-Once v n x h =
    let (es, o, f) = bind-some (read_object v) _ x h in
    let (i, s, g) = bind-some (string_field (codes "id") es) _ x f in
    let same : i ≡ x.id = ap {A = NameplateEntry} (λ p. p.id) (cc g) in
    (es, read_object-some v es o, string_field-Once (codes "id") x.id es (s ∙ ap some same))

read_elements-Listed :
    (vs : Elements) (xs : List NameplateEntry)
    → read_elements read_nameplate_entry vs ≡ some xs
    → Listed (nameplates_of xs) vs
unfolding Listed nameplates_of
read_elements-Listed nil [] h = tt
read_elements-Listed nil (x ∷ xs) h = cc
read_elements-Listed (cons v vs) xs h =
    let (x, e, f) = bind-some (read_nameplate_entry v) _ xs h in
    let (ys, r, g) = bind-some (read_elements read_nameplate_entry vs) _ xs f in
    let whole : x ∷ ys ≡ xs = cc g in
    let (es, o, i) = read_entry-Once v x.id x e in
    rw (← whole) (es, o, i, read_elements-Listed vs ys r)

pub read_nameplates-Listed :
    (v : Json) (ns : List Nameplate)
    → read_nameplates v ≡ some ns
    → (vs : Elements) × (v ≡ array vs) × Listed ns vs
unfolding read_nameplates
read_nameplates-Listed (array vs) ns h =
    let (xs, e, f) = bind-some (read_elements read_nameplate_entry vs) _ ns h in
    let same : nameplates_of xs ≡ ns = cc f in
    (vs, refl, rw (← same) (read_elements-Listed vs xs e))
read_nameplates-Listed null ns h = cc
read_nameplates-Listed (boolean b) ns h = cc
read_nameplates-Listed (number n) ns h = cc
read_nameplates-Listed (other_number t) ns h = cc
read_nameplates-Listed (string s) ns h = cc
read_nameplates-Listed (object es) ns h = cc
