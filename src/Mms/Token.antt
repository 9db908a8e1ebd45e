-- ===== src/Mms/Token.antt =====
-- crates/iec61850-mms/src/mms/token.rs: access tokens that an authority signs. The signature is a parameter: `sign_tag` and
-- `verify_tag` of crates/iec61850-l2/src/sign.rs call the cryptographic packages.
pub mod Trust
use iec_61850_studio.Base.{
  ℕ, ◌%◌, ◌^◌, [], Option, none, some, Bool, not, ◌&&◌, leb, ltb, if◌then◌else◌,
}
use iec_61850_studio.Base.Result.{Result, ok, err, ◌>>=◌, ◌>>◌, map_err}
use iec_61850_studio.Base.Words.{Bytes}
use iec_61850_studio.Ber.Error.{Tag, BerError, BerResult, universal}
use iec_61850_studio.Ber.Tag.{tag_eq, new as new_tag}
use iec_61850_studio.Ber.Primitives.{decode_integer, decode_visible_string}
use iec_61850_studio.Ber.Reader.{BerReader, new, read_tlv, expect}
use iec_61850_studio.Ber.Writer.{
  BerWriter, tlv, integer, visible_string, octet_string, sequence_tag,
}
use iec_61850_studio.Ber.Std.{Std}
use iec_61850_studio.Mms.Pdu.{integer_tag, visible_string_tag}
use iec_61850_studio.Mms.Server.Access.{Role, permissions, from_permissions}

abbrev pub octet_string_tag : Tag
octet_string_tag = new_tag universal (Bool.false) 4

pub record AccessToken : Type 0 where
  pub subject : Bytes
  pub role : Role
  pub issuer : Bytes
  pub not_before : ℕ
  pub not_after : ℕ

pub data TokenError : Type 0 where
  malformed bad_signature expired : TokenError

abbrev pub TokenResult : Type 0 → Type 0
TokenResult A = Result TokenError A

-- `map_err(|_| TokenError::Malformed)`
abbrev pub or_malformed : {A : Type 0} → BerResult A → TokenResult A
or_malformed m = map_err (λ (_ : BerError). malformed) m

unfoldable pub encode_claims : AccessToken → Bytes
encode_claims t = tlv [] sequence_tag λ w₀.
    let w₁ = visible_string w₀ visible_string_tag t.subject in
    let w₂ = integer w₁ integer_tag (permissions t.role) in
    let w₃ = visible_string w₂ visible_string_tag t.issuer in
    let w₄ = integer w₃ integer_tag t.not_before in integer w₄ integer_tag t.not_after

abbrev pub read_str : Std → BerReader → TokenResult (Bytes × BerReader)
read_str s cr = do
  (c, cr') ← or_malformed (expect cr visible_string_tag)
  text ← or_malformed (decode_visible_string s.utf8 c)
  ok (text, cr')

abbrev pub read_int : BerReader → TokenResult (ℕ × BerReader)
read_int cr = do
  (c, cr') ← or_malformed (expect cr integer_tag)
  v ← or_malformed (decode_integer c)
  ok (v, cr')

-- The claims behind an accepted tag.
abbrev pub read_claims : Std → BerReader → TokenResult AccessToken
read_claims s r₀ = do
  (subject, r₁) ← read_str s r₀
  (bits, r₂) ← read_int r₁
  (issuer, r₃) ← read_str s r₂
  (not_before, r₄) ← read_int r₃
  (not_after, _) ← read_int r₄
  ok (record {
    subject = subject;
    role = from_permissions (bits % 2 ^ 16);
    issuer = issuer;
    not_before = not_before;
    not_after = not_after;
  })

unfoldable pub decode_claims : Std → Bytes → TokenResult AccessToken
decode_claims s bytes = do
  (seq, _) ← or_malformed (read_tlv (new bytes))
  (if not (tag_eq seq.tag sequence_tag) then err malformed else read_claims s (new seq.content))

unfoldable pub issue : (Bytes → Bytes) → AccessToken → Bytes
issue sign_tag token =
    let claims = encode_claims token in
    tlv [] sequence_tag
      λ w. octet_string (octet_string w octet_string_tag claims) octet_string_tag (sign_tag claims)

-- The claims and the signature in a token.
abbrev pub signed_parts : Bytes → TokenResult (Bytes × Bytes)
signed_parts bytes = do
  (outer, _) ← or_malformed (read_tlv (new bytes))
  (if not (tag_eq outer.tag sequence_tag) then err malformed else (do
    (claims, r) ← or_malformed (expect (new outer.content) octet_string_tag)
    (signature, _) ← or_malformed (expect r octet_string_tag)
    ok (claims, signature)))

abbrev pub in_window : ℕ → AccessToken → TokenResult AccessToken
in_window now token =
    if not (leb token.not_before now && ltb now token.not_after) then err expired else ok token

unfoldable pub verify : Std → (Bytes → Bytes → Bool) → Bytes → ℕ → TokenResult AccessToken
verify s verify_tag bytes now = do
  (claims, signature) ← signed_parts bytes
  (if not (verify_tag claims signature)
      then err bad_signature
      else decode_claims s claims >>= in_window now)

-- `.ok().map(|t| t.role)`
abbrev pub ok_role : TokenResult AccessToken → Option Role
ok_role (ok t) = some t.role
ok_role (err _) = none

-- The verifier of an authority, at the time of a clock.
abbrev pub role_in : Std → (Bytes → Bytes → Bool) → ℕ → Bytes → Option Role
role_in s verify_tag now token_bytes = ok_role (verify s verify_tag token_bytes now)
