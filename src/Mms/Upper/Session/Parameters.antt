-- ===== src/Mms/Upper/Session/Parameters.antt =====
-- What a list of parameters was written as, `parse_connect` reads, and so what `connect` wrote.
use iec_61850_studio.Base.{
  ℕ, zero, suc, ◌+◌, ◌%◌, ◌^◌, ◌<◌, ◌≤◌, min, List, [], ◌∷◌, ◌++◌, none, some, true, false, length,
  drop, ltb, ◌==◌, if◌then◌else◌, ◌≡◌, refl, sym, ap, ◌∙◌, arith, inl, inr, Bool-cases,
  length-append, append_assoc, append-nil, take_front, drop_front, drop-drop, ltb-true, ltb-false,
  leb-true,
}
use mathlib.Core.Path.{ap₂, fun_ext}
use iec_61850_studio.Base.Result.{ok, ◌>>=◌}
use iec_61850_studio.Base.Words.{Bytes, be_bytes}
use iec_61850_studio.Transport.Error.{MmsResult}
use iec_61850_studio.Mms.Upper.Session.{
  ConnectSpdu, push_li, read_li, get_range, read_parameter, sub_parameters, on_parameter,
  parameters, no_parameters, with_user_data, parse_connect, connect, after_li, si_connect,
  pi_version, first_or_two,
}

-- The code and the value of a parameter.
abbrev pub Parameter : Type 0
Parameter = ℕ × Bytes

abbrev pub parameter_octets : Parameter → Bytes
parameter_octets (code, value) = code ∷ (push_li [] (length value) ++ value)

abbrev pub parameters_octets : List Parameter → Bytes
parameters_octets [] = []
parameters_octets (p ∷ ps) = parameter_octets p ++ parameters_octets ps

push_li-append : (out : Bytes) (n : ℕ) → push_li out n ≡ out ++ push_li [] n
unfolding push_li
push_li-append out n = elim (Bool-cases (ltb n 0xFF)) [
  | inl e ↦ rw e refl
  | inr e ↦ rw e (append_assoc out (0xFF ∷ []) (be_bytes 2 (n % 2 ^ 16)))
]

read_li-push_li :
    (n : ℕ) (rest : Bytes)
    → n < 2 ^ 16
    → read_li (push_li [] n ++ rest) ≡ some (n, length (push_li [] n))
unfolding read_li push_li
read_li-push_li n rest h = ground arith

push_li_size : (n : ℕ) → (1 ≤ length (push_li [] n)) × (length (push_li [] n) ≤ 3)
unfolding push_li
push_li_size n = ground arith

module _ (front : Bytes) (code : ℕ) (value rest : Bytes) where
  abbrev whole : Bytes
  whole = front ++ (parameter_octets (code, value) ++ rest)

  whole_size :
      (length (parameter_octets (code, value))
        ≡ 1 + length (push_li [] (length value)) + length value)
      × (length whole ≡ length front + length (parameter_octets (code, value)) + length rest)
  whole_size = omega (
    arith,
    length-append front (parameter_octets (code, value) ++ rest),
    length-append (parameter_octets (code, value)) rest,
    length-append (push_li [] (length value)) value,
  )

  at_code : drop (length front) whole ≡ code ∷ (push_li [] (length value) ++ (value ++ rest))
  at_code =
      drop_front front (parameter_octets (code, value) ++ rest)
      ∙ ap (λ (t : Bytes). code ∷ t) (append_assoc (push_li [] (length value)) value rest)

  at_li : drop (length front + 1) whole ≡ push_li [] (length value) ++ (value ++ rest)
  at_li = sym (drop-drop (length front) 1 whole) ∙ ap (drop 1) at_code

  at_value : drop (length front + 1 + length (push_li [] (length value))) whole ≡ value ++ rest
  at_value =
      sym (drop-drop (length front + 1) (length (push_li [] (length value))) whole)
      ∙ ap (drop (length (push_li [] (length value)))) at_li
      ∙ drop_front (push_li [] (length value)) (value ++ rest)

  range :
      get_range whole (length front + 1 + length (push_li [] (length value))) (length value)
      ≡ some value
  range =
      let fits : length front + 1 + length (push_li [] (length value)) + length value
          ≤ length whole =
        omega (arith, whole_size) in
      rw (leb-true _ _ fits, at_value) (ap some (take_front value rest))

  read_parameter-octets :
      length value < 2 ^ 16
      → read_parameter whole (length front)
        ≡ ok (code, value, length (front ++ parameter_octets (code, value)))
  unfolding read_parameter
  read_parameter-octets h =
      let end : length front + 1 + length (push_li [] (length value)) + length value
          ≡ length (front ++ parameter_octets (code, value)) =
        omega (arith, whole_size, length-append front (parameter_octets (code, value))) in
      rw (at_code, at_li, read_li-push_li (length value) (value ++ rest) h, range)
        (ap (λ (n : ℕ). ok (code, value, n)) end)

-- What the version is behind a list of sub-parameters.
abbrev pub version_of : List Parameter → ℕ → ℕ
version_of [] version = version
version_of ((code, value) ∷ subs) version =
    version_of subs (if code == pi_version then first_or_two value else version)

sub_parameters-octets :
    (subs : List Parameter) (fuel : ℕ) (front : Bytes) (version : ℕ)
    → length (parameters_octets subs) < 2 ^ 16
    → length (parameters_octets subs) ≤ fuel
    → sub_parameters fuel (front ++ parameters_octets subs) (length front) version
      ≡ ok (version_of subs version)
unfolding sub_parameters
sub_parameters-octets [] fuel front version small enough =
    let e : ltb (length front) (length (front ++ [])) ≡ false =
      ltb-false _ _ (omega (arith, length-append front [])) in
    sub_end fuel e
  where
    sub_end :
        (n : ℕ)
        → ltb (length front) (length (front ++ [])) ≡ false
        → sub_parameters n (front ++ []) (length front) version ≡ ok version
    sub_end zero e = rw e refl
    sub_end (suc n) e = rw e refl
sub_parameters-octets ((code, value) ∷ subs) zero front version small enough =
    absurd (
      omega
        (arith, enough, length-append (parameter_octets (code, value)) (parameters_octets subs)))
sub_parameters-octets ((code, value) ∷ subs) (suc n) front version small enough =
    let sizes = whole_size front code value (parameters_octets subs) in
    let split = length-append (parameter_octets (code, value)) (parameters_octets subs) in
    let more : ltb (length front) (length (front ++ parameters_octets ((code, value) ∷ subs)))
        ≡ true =
      ltb-true _ _ (omega (arith, sizes)) in
    let e =
      read_parameter-octets front code value (parameters_octets subs)
        (omega (arith, sizes, split, small)) in
    let v : ℕ = if code == pi_version then first_or_two value else version in
    let ih =
      sub_parameters-octets subs n (front ++ parameter_octets (code, value)) v
        (omega (arith, sizes, split, small)) (omega (arith, sizes, split, enough)) in
    rw (more, e)
      (ap (λ (t : Bytes). sub_parameters n t (length (front ++ parameter_octets (code, value))) v)
          (sym (append_assoc front (parameter_octets (code, value)) (parameters_octets subs)))
        ∙ ih)

-- The match on each parameter in turn.
abbrev pub on_parameters : List Parameter → ConnectSpdu → MmsResult ConnectSpdu
on_parameters [] out = ok out
on_parameters ((code, value) ∷ ps) out = do
  out' ← on_parameter code value out
  on_parameters ps out'

parameters-end :
    (fuel : ℕ) (buf : Bytes) (end i : ℕ) (out : ConnectSpdu)
    → end ≤ i
    → parameters fuel buf end i out ≡ ok out
unfolding parameters
parameters-end zero buf end i out h = rw (ltb-false i end h) refl
parameters-end (suc n) buf end i out h = rw (ltb-false i end h) refl

parameters_step :
    (n : ℕ) (buf : Bytes) (end i code next : ℕ) (value : Bytes) (out : ConnectSpdu)
    → ltb i end ≡ true
    → read_parameter buf i ≡ ok (code, value, next)
    → parameters (suc n) buf end i out ≡ on_parameter code value out >>= parameters n buf end next
unfolding parameters
parameters_step n buf end i code next value out more e = rw (more, e) refl

parameters-octets :
    (ps : List Parameter) (fuel : ℕ) (front rest : Bytes) (out : ConnectSpdu)
    → length (parameters_octets ps) < 2 ^ 16
    → length (parameters_octets ps) ≤ fuel
    → parameters fuel
        (front ++ (parameters_octets ps ++ rest))
        (length front + length (parameters_octets ps))
        (length front)
        out
      ≡ on_parameters ps out
parameters-octets [] fuel front rest out small enough =
    parameters-end fuel (front ++ rest) (length front + 0) (length front) out (omega arith)
parameters-octets ((code, value) ∷ ps) zero front rest out small enough =
    absurd
      (omega (arith, enough, length-append (parameter_octets (code, value)) (parameters_octets ps)))
parameters-octets ((code, value) ∷ ps) (suc n) front rest out small enough =
    let p : Bytes = parameter_octets (code, value) in
    let others : Bytes = parameters_octets ps in
    let end : ℕ = length front + length (p ++ others) in
    let split = length-append p others in
    let some_octets = (whole_size front code value (others ++ rest)).0 in
    let more : ltb (length front) end ≡ true = ltb-true _ _ (omega (arith, some_octets, split)) in
    let e =
      read_parameter-octets front code value (others ++ rest)
        (omega (arith, some_octets, split, small)) in
    let end_lem : end ≡ length (front ++ p) + length others =
      omega (arith, split, length-append front p) in
    let ih = λ (o : ConnectSpdu).
      parameters-octets ps n (front ++ p) rest o (omega (arith, some_octets, split, small))
        (omega (arith, some_octets, split, enough)) in
    ap (λ (t : Bytes). parameters (suc n) (front ++ t) end (length front) out)
      (append_assoc p others rest)
    ∙ parameters_step n (front ++ (p ++ (others ++ rest))) end (length front) code
        (length (front ++ p)) value out more e
    ∙ ap (λ (f : ConnectSpdu → MmsResult ConnectSpdu). on_parameter code value out >>= f)
        (fun_ext λ o.
          ap₂ (λ (t : Bytes) (k : ℕ). parameters n t k (length (front ++ p)) o)
            (sym (append_assoc front p (others ++ rest))) end_lem
          ∙ ih o)

-- The parameters of a CONNECT and what follows it: `parse_connect` reads each parameter once, in order, and nothing else.
pub parse_connect-parameters :
    (ps : List Parameter) (rest : Bytes)
    → length (parameters_octets ps) < 2 ^ 16
    → parse_connect (
        push_li (si_connect ∷ []) (length (parameters_octets ps)) ++ (parameters_octets ps ++ rest))
      ≡ on_parameters ps no_parameters >>= with_user_data
unfolding parse_connect
parse_connect-parameters ps rest small =
    let octets : Bytes = parameters_octets ps in
    let li : Bytes = push_li [] (length octets) in
    let front : Bytes = si_connect ∷ li in
    let buf : Bytes = front ++ (octets ++ rest) in
    let sizes : length buf ≡ length front + (length octets + length rest) =
      omega (arith, length-append front (octets ++ rest), length-append octets rest) in
    let end : min (1 + length li + length octets) (length buf) ≡ length front + length octets =
      omega (arith, sizes) in
    let start : 1 + length li ≡ length front = omega arith in
    rw
      (
        push_li-append (si_connect ∷ []) (length octets),
        read_li-push_li (length octets) (octets ++ rest) small,
        end,
        start,
      )
      (ap (λ (m : MmsResult ConnectSpdu). m >>= with_user_data)
        (parameters-octets ps (length buf) front rest no_parameters small (omega (arith, sizes))))

-- What `connect` writes.
abbrev items : ℕ → Bytes → List Parameter
items version user_data =
    (0x05, 0x13 ∷ 0x01 ∷ 0x00 ∷ 0x16 ∷ 0x01 ∷ version ∷ [])
    ∷ (0x14, 0x00 ∷ 0x02 ∷ [])
    ∷ (0xC1, user_data)
    ∷ []

after_li-octets :
    (version : ℕ) (user_data : Bytes)
    → after_li version user_data ≡ parameters_octets (items version user_data)
unfolding push_li
after_li-octets version user_data = elim (Bool-cases (ltb (length user_data) 0xFF)) [
  | inl e ↦ rw (e, append-nil user_data) refl
  | inr e ↦ rw (e, append-nil user_data) refl
]

items_size :
    (version : ℕ) (user_data : Bytes)
    → length (parameters_octets (items version user_data)) ≤ 16 + length user_data
unfolding push_li
items_size version user_data = elim (Bool-cases (ltb (length user_data) 0xFF)) [
  | inl e ↦ rw (e, append-nil user_data) (omega arith)
  | inr e ↦ rw (e, append-nil user_data) (omega arith)
]

items_lem :
    (version : ℕ) (user_data : Bytes)
    → 0 < length user_data
    → on_parameters (items version user_data) no_parameters >>= with_user_data
      ≡ ok (record {
        version = version;
        requirements = some (0x00 ∷ 0x02 ∷ []);
        calling_selector = none;
        called_selector = none;
        user_data = user_data;
      })
unfolding on_parameter sub_parameters read_parameter read_li
items_lem version user_data h = ground (arith, h)

-- For user data of at least one octet and at most 65,519: `parse_connect` reads from what `connect` wrote the second version, the
-- session requirements, no selectors and the user data, whatever follows.
pub parse_connect-connect :
    (cp rest : Bytes)
    → 0 < length cp
    → length cp < 65520
    → parse_connect (connect cp ++ rest)
      ≡ ok (record {
        version = 0x02;
        requirements = some (0x00 ∷ 0x02 ∷ []);
        calling_selector = none;
        called_selector = none;
        user_data = cp;
      })
unfolding connect
parse_connect-connect cp rest some_data small =
    let e = after_li-octets 0x02 cp in
    let size : length (parameters_octets (items 0x02 cp)) < 2 ^ 16 =
      omega (arith, small, items_size 0x02 cp) in
    rw
      (
        e,
        append_assoc (push_li (si_connect ∷ []) (length (parameters_octets (items 0x02 cp))))
            (parameters_octets (items 0x02 cp)) rest,
      )
      (parse_connect-parameters (items 0x02 cp) rest size ∙ items_lem 0x02 cp some_data)
