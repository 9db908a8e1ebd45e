-- ===== src/Ethernet/Parse.antt =====
-- `parse_app` behind any front, and the fields that it reads.
use iec_61850_studio.Base.{
  ℕ, suc, ◌+◌, ◌-◌, ◌%◌, ◌^◌, ◌≤◌, ◌<◌, [], ◌++◌, Option, length, take, drop, ◌==◌, not,
  if◌then◌else◌, ◌≡◌, refl, sym, ap, ◌∙◌, arith, bit_and, length-append, drop_front, drop-drop,
  ltb-false,
}
use iec_61850_studio.Base.Result.{ok}
use iec_61850_studio.Base.Words.{Bytes, be_bytes, from_be, from_be-be_bytes}
use iec_61850_studio.Ethernet.{VlanTag, parse_app, u16_at, slice, reserved1_simulated}

-- The application header: APPID, length, the two reserved fields.
abbrev pub app_header : ℕ → ℕ → ℕ → ℕ → Bytes
app_header appid len res auth =
    be_bytes 2 appid ++ (be_bytes 2 len ++ (be_bytes 2 res ++ be_bytes 2 auth))

pub drop-behind : (k : ℕ) (front ys : Bytes) → drop (length front + k) (front ++ ys) ≡ drop k ys
drop-behind k front ys =
    sym (drop-drop (length front) k (front ++ ys)) ∙ ap (drop k) (drop_front front ys)

module _ (front tail : Bytes) (appid len res auth : ℕ) where
  abbrev behind : Bytes
  behind = app_header appid len res auth ++ tail

  abbrev whole : Bytes
  whole = front ++ behind

  abbrev pub apdu_part : Bytes
  apdu_part = take (len - 8 - auth) tail

  field :
      (k v : ℕ) → v < 2 ^ 16 → u16_at k behind ≡ v % 256 ^ 2 → u16_at (length front + k) whole ≡ v
  field k v h e =
      ap (λ (t : Bytes). from_be (take 2 t)) (drop-behind k front behind) ∙ e ∙ omega arith

  part :
      (start end k n : ℕ)
      → start ≡ length front + k
      → end ≡ start + n
      → slice start end whole ≡ take n (drop k behind)
  part start end k n es ee =
      ap (λ (m : ℕ). take m (drop start whole)) {x = end - start} {y = n} (omega (arith, ee))
      ∙ ap (λ (m : ℕ). take n (drop m whole)) es
      ∙ ap (take n) (drop-behind k front behind)

  past_take : (m : ℕ) → take (8 + m) behind ≡ app_header appid len res auth ++ take m tail
  past_take m =
      ap (λ (k : ℕ). take k behind) {x = 8 + m}
        {y = suc (suc (suc (suc (suc (suc (suc (suc m)))))))} (omega arith)

  past_drop : (m : ℕ) → take auth (drop (8 + m) behind) ≡ take auth (drop m tail)
  past_drop m =
      ap (λ (k : ℕ). take auth (drop k behind)) {x = 8 + m}
        {y = suc (suc (suc (suc (suc (suc (suc (suc m)))))))} (omega arith)

  pub parse_app_lem :
      (vlan : Option VlanTag) (e : ℕ)
      → appid < 2 ^ 16
      → len < 2 ^ 16
      → res < 2 ^ 16
      → auth < 2 ^ 16
      → 8 + auth ≤ len
      → len ≤ 8 + length tail
      → parse_app whole vlan (length front) e
        ≡ ok (record {
          hdr = record {
            dst = slice 0 6 whole;
            src = slice 6 12 whole;
            vlan = vlan;
            ethertype = e;
            simulation = not (bit_and res reserved1_simulated == 0);
          };
          appid = appid;
          apdu = apdu_part;
          signed_data = if auth == 0 then [] else app_header appid len res auth ++ apdu_part;
          auth_tag = if auth == 0 then [] else take auth (drop (len - 8 - auth) tail);
        })
  unfolding parse_app
  parse_app_lem vlan e ha hl hr ht lo hi =
      let e₀ : u16_at (length front) whole ≡ appid =
        ap (λ (k : ℕ). u16_at k whole) {x = length front} {y = length front + 0} (omega arith)
        ∙ field 0 appid ha (from_be-be_bytes 2 appid) in
      let e₂ = field 2 len hl (from_be-be_bytes 2 len) in
      let e₄ = field 4 res hr (from_be-be_bytes 2 res) in
      let e₆ = field 6 auth ht (from_be-be_bytes 2 auth) in
      let size : length whole ≡ length front + (8 + length tail) =
        omega (arith, length-append front behind) in
      let p₁ =
        part (length front + 8) (length front + len - auth) 8 (len - 8 - auth) refl (omega arith) in
      let p₂ =
        part (length front) (length front + len - auth) 0 (8 + (len - 8 - auth)) (omega arith)
          (omega arith) in
      let p₃ =
        part (length front + len - auth) (length front + len) (8 + (len - 8 - auth)) auth
          (omega arith) (omega arith) in
      rw
        (
          e₀,
          e₂,
          e₄,
          e₆,
          ltb-false (length whole) (length front + 8) (omega arith),
          ltb-false len (8 + auth) lo,
          ltb-false (length whole) (length front + len) (omega (arith, size)),
          p₁,
          p₂ ∙ past_take (len - 8 - auth),
          p₃ ∙ past_drop (len - 8 - auth),
        )
        refl
