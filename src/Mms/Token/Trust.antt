-- ===== src/Mms/Token/Trust.antt =====
-- What a token of the authority is worth at a server, and what a token has that a server takes.
use iec_61850_studio.Base.{
  ℕ, ◌<◌, ◌≤◌, ◌%◌, ◌^◌, [], ◌++◌, Bool, true, ◌&&◌, leb, ltb, length, ◌≡◌, refl, ap, subst, ◌∙◌,
  arith, Bool-cases, inl, inr, if◌then◌else◌,
}
use iec_61850_studio.Base.Result.{ok, err, ◌>>=◌, >>=-eq-ok}
use iec_61850_studio.Base.Words.{Bytes}
use iec_61850_studio.Ber.Tag.{tag_eq}
use iec_61850_studio.Ber.Primitives.{encode_integer, decode_visible_string}
use iec_61850_studio.Ber.Primitives.Integer.{decode_integer-encode_integer}
use iec_61850_studio.Ber.Reader.{BerReader, new}
use iec_61850_studio.Ber.Writer.{sequence_tag}
use iec_61850_studio.Ber.Writer.Laws.{tlv_octets}
use iec_61850_studio.Ber.Fields.{Stands, expect_step, Stands-fits}
use iec_61850_studio.Ber.Nested.{
  Appends-then, Appends-last, Appends-tlv, Appends-integer, Appends-visible, Appends-octets,
  expect_into, read_tlv_into, Stands-last,
}
use iec_61850_studio.Ber.Std.{Std}
use iec_61850_studio.Mms.Pdu.{integer_tag, visible_string_tag}
use iec_61850_studio.Mms.Server.Access.{permissions, from_permissions}
use iec_61850_studio.Mms.Token.{
  AccessToken, octet_string_tag, expired, encode_claims, read_str, read_int, read_claims,
  decode_claims, issue, signed_parts, in_window, verify,
}

abbrev claims_octets : AccessToken → Bytes
claims_octets t =
    tlv_octets visible_string_tag t.subject
    ++ (tlv_octets integer_tag (encode_integer (permissions t.role))
        ++ (tlv_octets visible_string_tag t.issuer
            ++ (tlv_octets integer_tag (encode_integer t.not_before)
                ++ (tlv_octets integer_tag (encode_integer t.not_after) ++ []))))

encode_claims-octets :
    (t : AccessToken) → encode_claims t ≡ tlv_octets sequence_tag (claims_octets t)
unfolding encode_claims
encode_claims-octets t =
    Appends-tlv sequence_tag _ _
      (Appends-then _ _ _ _ (Appends-visible visible_string_tag t.subject) (
        Appends-then _ _ _ _ (Appends-integer integer_tag (permissions t.role)) (
          Appends-then _ _ _ _ (Appends-visible visible_string_tag t.issuer) (
            Appends-then _ _ _ _ (Appends-integer integer_tag t.not_before)
              (Appends-last _ _ (Appends-integer integer_tag t.not_after))))))
      []

abbrev issued_octets : (Bytes → Bytes) → AccessToken → Bytes
issued_octets sign_tag t =
    tlv_octets octet_string_tag (encode_claims t)
    ++ (tlv_octets octet_string_tag (sign_tag (encode_claims t)) ++ [])

issue-octets :
    (sign_tag : Bytes → Bytes) (t : AccessToken)
    → issue sign_tag t ≡ tlv_octets sequence_tag (issued_octets sign_tag t)
unfolding issue
issue-octets sign_tag t =
    Appends-tlv sequence_tag _ _
      (Appends-then _ _ _ _ (Appends-octets octet_string_tag (encode_claims t))
        (Appends-last _ _ (Appends-octets octet_string_tag (sign_tag (encode_claims t)))))
      []

read_str_step :
    (s : Std) (r : BerReader) (text rest : Bytes)
    → s.utf8 text ≡ true
    → Stands r (tlv_octets visible_string_tag text ++ rest)
    → (r' : BerReader) × (read_str s r ≡ ok (text, r')) × Stands r' rest
unfolding decode_visible_string
read_str_step s r text rest h stands =
    let (r', e, stands', _) = expect_into r visible_string_tag text rest (omega arith) stands in
    (r', rw (e, h) refl, stands')

read_int_step :
    (r : BerReader) (v : ℕ) (rest : Bytes)
    → v < 2 ^ 64
    → Stands r (tlv_octets integer_tag (encode_integer v) ++ rest)
    → (r' : BerReader) × (read_int r ≡ ok (v, r')) × Stands r' rest
read_int_step r v rest small stands =
    let (r', e, stands', _) =
      expect_into r integer_tag (encode_integer v) rest (omega arith) stands in
    (r', rw (e, decode_integer-encode_integer v small) refl, stands')

-- Texts of UTF-8, and numbers of their widths.
abbrev pub IsToken : Std → AccessToken → Type 0
IsToken s t =
    (s.utf8 t.subject ≡ true)
    × (s.utf8 t.issuer ≡ true)
    × (permissions t.role < 2 ^ 16)
    × (t.not_before < 2 ^ 64)
    × (t.not_after < 2 ^ 64)

-- A token with the role that its permissions make.
abbrev pub with_standard_role : AccessToken → AccessToken
with_standard_role t = record t { role = from_permissions (permissions t.role) }

read_claims-octets :
    (s : Std) (t : AccessToken) (r : BerReader)
    → IsToken s t
    → Stands r (claims_octets t)
    → read_claims s r ≡ ok (with_standard_role t)
read_claims-octets s t r (subject, issuer, bits, before, after) stands =
    let same : permissions t.role % 2 ^ 16 ≡ permissions t.role = omega (arith, bits) in
    let (r₁, e₁, s₁) = read_str_step s r t.subject _ subject stands in
    let (r₂, e₂, s₂) = read_int_step r₁ (permissions t.role) _ (omega (arith, bits)) s₁ in
    let (r₃, e₃, s₃) = read_str_step s r₂ t.issuer _ issuer s₂ in
    let (r₄, e₄, s₄) = read_int_step r₃ t.not_before _ before s₃ in
    let (_, e₅, _) = read_int_step r₄ t.not_after _ after s₄ in rw (e₁, e₂, e₃, e₄, e₅, same) refl

decode_claims-encode_claims :
    (s : Std) (t : AccessToken)
    → IsToken s t
    → length (encode_claims t) < 2 ^ 64
    → decode_claims s (encode_claims t) ≡ ok (with_standard_role t)
unfolding decode_claims tag_eq
decode_claims-encode_claims s t h small =
    let whole = encode_claims-octets t in
    let at_start : Stands (new (tlv_octets sequence_tag (claims_octets t)))
        (tlv_octets sequence_tag (claims_octets t)) =
      ([], refl, rw whole at small) in
    let (_, e, _, inside) =
      read_tlv_into _ sequence_tag (claims_octets t) [] (omega arith)
        (Stands-last _ _ _ at_start) in
    rw (whole, e) (read_claims-octets s t _ h inside)

signed_parts-issue :
    (sign_tag : Bytes → Bytes) (t : AccessToken) (rest : Bytes)
    → length (issue sign_tag t ++ rest) < 2 ^ 64
    → (signed_parts (issue sign_tag t ++ rest) ≡ ok (encode_claims t, sign_tag (encode_claims t)))
      × (length (encode_claims t) < 2 ^ 64)
unfolding tag_eq
signed_parts-issue sign_tag t rest small =
    let whole = issue-octets sign_tag t in
    let at_start : Stands (new (tlv_octets sequence_tag (issued_octets sign_tag t) ++ rest))
        (tlv_octets sequence_tag (issued_octets sign_tag t) ++ rest) =
      ([], refl, rw whole at small) in
    let (_, e, _, inside) =
      read_tlv_into _ sequence_tag (issued_octets sign_tag t) rest (omega arith) at_start in
    let (_, e₁, s₁) = expect_step _ octet_string_tag (encode_claims t) _ (omega arith) inside in
    let (_, e₂, _) =
      expect_step _ octet_string_tag (sign_tag (encode_claims t)) [] (omega arith) s₁ in
    (rw (whole, e, e₁, e₂) refl, Stands-fits _ octet_string_tag (encode_claims t) _ inside)

-- A server with the key of the authority takes a token that the authority issued from its start until its end,
-- with every claim and the role that its permissions make, and answers at any other time that it is expired. The texts are UTF-8, the
-- numbers of their widths, and the key accepts the authority's signatures.
pub verify-issue :
    (s : Std) (sign_tag : Bytes → Bytes) (verify_tag : Bytes → Bytes → Bool) (t : AccessToken)
    (rest : Bytes) (now : ℕ)
    → ((claims : Bytes) → verify_tag claims (sign_tag claims) ≡ true)
    → IsToken s t
    → length (issue sign_tag t ++ rest) < 2 ^ 64
    → verify s verify_tag (issue sign_tag t ++ rest) now ≡ (
        if leb t.not_before now && ltb now t.not_after
        then ok (with_standard_role t)
        else err expired)
unfolding verify
verify-issue s sign_tag verify_tag t rest now trusted h small =
    let (parts, fits) = signed_parts-issue sign_tag t rest small in
    let claims = decode_claims-encode_claims s t h fits in
    rw (parts, trusted (encode_claims t), claims) (ground arith)

in_window-ok :
    (now : ℕ) (t t' : AccessToken)
    → in_window now t ≡ ok t'
    → (t ≡ t') × (t'.not_before ≤ now) × (now < t'.not_after)
in_window-ok now t t' e = elim (Bool-cases (leb t.not_before now && ltb now t.not_after)) [
  | inr outside ↦ cc (e, outside)
  | inl inside ↦
      let same : t ≡ t' = cc (e, inside) in
      let before : t.not_before ≤ now = ground (arith, inside) in
      let after : now < t.not_after = ground (arith, inside) in
      (
        same,
        subst (λ (x : AccessToken). x.not_before ≤ now) same before,
        subst (λ (x : AccessToken). now < x.not_after) same after,
      )
]

-- Where a server takes a token, the key accepts its signature, over octets that hold the claims, and
-- the time is within the window of the claims.
pub verify-Trusted :
    (s : Std) (verify_tag : Bytes → Bytes → Bool) (bytes : Bytes) (now : ℕ) (t : AccessToken)
    → verify s verify_tag bytes now ≡ ok t
    → (claims : Bytes) × (signature : Bytes) × (signed_parts bytes ≡ ok (claims, signature))
      × (verify_tag claims signature ≡ true)
      × (decode_claims s claims ≡ ok t)
      × (t.not_before ≤ now)
      × (now < t.not_after)
unfolding verify
verify-Trusted s verify_tag bytes now t e =
    let ((claims, signature), parts, e₁) = >>=-eq-ok (signed_parts bytes) _ e in
    elim (Bool-cases (verify_tag claims signature)) [
      | inr bad ↦ cc (e₁, bad)
      | inl good ↦
          let e₂ : decode_claims s claims >>= in_window now ≡ ok t = rw good at e₁ in
          let (t', decoded, e₃) = >>=-eq-ok (decode_claims s claims) (in_window now) e₂ in
          let (same, before, after) = in_window-ok now t' t e₃ in
          (claims, signature, parts, good, decoded ∙ ap ok same, before, after)
    ]
