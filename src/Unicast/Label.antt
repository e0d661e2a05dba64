-- ===== src/Unicast/Label.antt =====
-- The MPLS label-stack entry of core/nylon_unicast.go: encoding and decoding.
use nylon.Base.{ℕ, ◌+◌, ◌*◌, ◌/◌, ◌%◌, ◌<◌, ◌≡◌, ap, ◌∙◌, [], ◌∷◌, arith, ◌^◌, ◌==◌, if◌then◌else◌}
use nylon.Unicast.{Lse, encode_mpls_lse, decode_mpls_lse, put_uint32, get_uint32}

get-put : (v : ℕ) → v < 2 ^ 32 → get_uint32 (put_uint32 v) ≡ v
unfolding get_uint32 put_uint32
get-put v h = omega arith

put-get :
    (a b c d : ℕ)
    → a < 2 ^ 8
    → b < 2 ^ 8
    → c < 2 ^ 8
    → d < 2 ^ 8
    → put_uint32 (get_uint32 (a ∷ b ∷ c ∷ d ∷ [])) ≡ a ∷ b ∷ c ∷ d ∷ []
unfolding get_uint32 put_uint32
put-get a b c d ha hb hc hd =
    let v = a * 2 ^ 24 + b * 2 ^ 16 + c * 2 ^ 8 + d in
    let pa : v / 2 ^ 24 % 256 ≡ a = omega arith in
    let pb : v / 2 ^ 16 % 256 ≡ b = omega arith in
    let pc : v / 2 ^ 8 % 256 ≡ c = omega arith in
    let pd : v % 256 ≡ d = omega arith in λ i. pa i ∷ pb i ∷ pc i ∷ pd i ∷ []

-- the number that an entry is written as
unfoldable pack_fields : Lse → ℕ
pack_fields l =
    l.label % 2 ^ 20 * 2 ^ 12 + l.tc % 2 ^ 3 * 2 ^ 9 + (if l.bos then 2 ^ 8 else 0) + l.ttl

unfoldable split_fields : ℕ → Lse
split_fields v = record {
  label = v / 2 ^ 12;
  tc = v / 2 ^ 9 % 2 ^ 3;
  bos = v / 2 ^ 8 % 2 == 1;
  ttl = v % 2 ^ 8;
}

pack_fields_bound : (l : Lse) → l.ttl < 2 ^ 8 → pack_fields l < 2 ^ 32
unfolding pack_fields
pack_fields_bound l h = ground arith

split-pack :
    (l : Lse) → l.label < 2 ^ 20 → l.tc < 2 ^ 3 → l.ttl < 2 ^ 8 → split_fields (pack_fields l) ≡ l
unfolding pack_fields split_fields
split-pack l hl ht hs =
    let v = pack_fields l in
    let label : v / 2 ^ 12 ≡ l.label = ground arith in
    let tc : v / 2 ^ 9 % 2 ^ 3 ≡ l.tc = ground arith in
    let bos : (v / 2 ^ 8 % 2 == 1) ≡ l.bos = ground arith in
    let ttl : v % 2 ^ 8 ≡ l.ttl = ground arith in
    λ i. record { label = label i; tc = tc i; bos = bos i; ttl = ttl i }

pack-split : (v : ℕ) → v < 2 ^ 32 → pack_fields (split_fields v) ≡ v
unfolding pack_fields split_fields
pack-split v h = ground arith

-- A label-stack entry whose fields fit their widths survives encoding and decoding.
pub decode-encode :
    (l : Lse)
    → l.label < 2 ^ 20
    → l.tc < 2 ^ 3
    → l.ttl < 2 ^ 8
    → decode_mpls_lse (encode_mpls_lse l) ≡ l
unfolding decode_mpls_lse encode_mpls_lse pack_fields split_fields
decode-encode l hl ht hs =
    ap split_fields (get-put (pack_fields l) (pack_fields_bound l hs)) ∙ split-pack l hl ht hs

-- Four bytes survive decoding and encoding.
pub encode-decode :
    (a b c d : ℕ)
    → a < 2 ^ 8
    → b < 2 ^ 8
    → c < 2 ^ 8
    → d < 2 ^ 8
    → encode_mpls_lse (decode_mpls_lse (a ∷ b ∷ c ∷ d ∷ [])) ≡ a ∷ b ∷ c ∷ d ∷ []
unfolding decode_mpls_lse encode_mpls_lse pack_fields split_fields
encode-decode a b c d ha hb hc hd =
    let v = get_uint32 (a ∷ b ∷ c ∷ d ∷ []) in
    let bound : v < 2 ^ 32 = unfold get_uint32 in omega arith in
    ap put_uint32 (pack-split v bound) ∙ put-get a b c d ha hb hc hd
