-- ===== src/Sv/Publisher.antt =====
-- crates/iec61850-sv/src/publisher.rs and config.rs: the arm of the ticker in `run`, which sends one frame per
-- period. The clock, the injected sample and the link are the arguments and the octets of the result.
use iec_61850_studio.Base.{
  ℕ, zero, suc, ◌+◌, ◌-◌, ◌*◌, ◌/◌, ◌%◌, ◌^◌, ◌≤◌, ◌<◌, max, [], ◌∷◌, ◌++◌, Option, none, some,
  Bool, true, false, ltb, leb, drop, if◌then◌else◌, ◌≡◌, ap, ◌∙◌, sym, arith, Bool-cases, inl, inr,
}
use native.Mathlib.Nat.{mod-lt, mod-eq_of_lt, div-add-mod, mul-add-mod_self_left}
use iec_61850_studio.Base.Words.{Bytes, be_bytes}
use iec_61850_studio.Ber.Data.{UtcTime}
use iec_61850_studio.Ethernet.{VlanTag, FrameSigner}
use iec_61850_studio.Sv.Pdu.{Asdu}
use iec_61850_studio.Sv.Frame.{SvFrame, encode, encode_signed}

pub record SvConfig : Type 0 where
  pub dst : Bytes
  pub src : Bytes
  pub vlan : Option VlanTag
  pub appid : ℕ
  pub sv_id : Bytes
  pub dat_set : Option Bytes
  pub conf_rev : ℕ
  pub smp_rate : ℕ
  pub smp_synch : ℕ
  pub sample_period : ℕ
  pub include_refr_tm : Bool
  pub smp_cnt_wrap : ℕ
  pub simulation : Bool
  pub security : Option FrameSigner

-- `SvConfig::new`, with the period in nanoseconds
unfoldable pub new : Bytes → Bytes → ℕ → Bytes → SvConfig
new dst src appid sv_id = record {
  dst = dst;
  src = src;
  vlan = none;
  appid = appid;
  sv_id = sv_id;
  dat_set = none;
  conf_rev = 1;
  smp_rate = 4000;
  smp_synch = 2;
  sample_period = 250000;
  include_refr_tm = true;
  smp_cnt_wrap = 4000;
  simulation = false;
  security = none;
}

unfoldable pub with_security : SvConfig → FrameSigner → SvConfig
with_security cfg signer = record cfg { security = some signer }

-- `now_utc` at a time since the epoch, in seconds and nanoseconds, where the clock tells one. The casts to
-- `u32` are those of `be_bytes 4`.
unfoldable pub now_utc : Option (ℕ × ℕ) → UtcTime
now_utc none = record { raw = 0 ∷ 0 ∷ 0 ∷ 0 ∷ 0 ∷ 0 ∷ 0 ∷ 0x0A ∷ [] }
now_utc (some (secs, nanos)) =
    let frac = nanos * 2 ^ 24 / 1000000000 in
    record { raw = be_bytes 4 secs ++ (drop 1 (be_bytes 4 frac) ++ 0x0A ∷ []) }

unfoldable pub sent_asdu : SvConfig → UtcTime → Bytes → ℕ → Asdu
sent_asdu cfg now sample smp_cnt = record {
  sv_id = cfg.sv_id;
  dat_set = cfg.dat_set;
  smp_cnt = smp_cnt;
  conf_rev = cfg.conf_rev;
  refr_tm = if cfg.include_refr_tm then some now else none;
  smp_synch = cfg.smp_synch;
  smp_rate = some cfg.smp_rate;
  sample = sample;
  smp_mod = none;
}

unfoldable pub sent_frame : SvConfig → UtcTime → Bytes → ℕ → SvFrame
sent_frame cfg now sample smp_cnt = record {
  dst = cfg.dst;
  src = cfg.src;
  vlan = cfg.vlan;
  appid = cfg.appid;
  simulation = cfg.simulation;
  pdu = record { no_asdu = 1; asdus = sent_asdu cfg now sample smp_cnt ∷ [] };
}

abbrev pub encoded : Option FrameSigner → SvFrame → Bytes
encoded none frame = encode frame
encoded (some key) frame = encode_signed frame key

-- The next counter. That `smp_cnt + 1` stays within a `u16` is `smp_cnt_lem`.
unfoldable pub next_smp_cnt : SvConfig → ℕ → ℕ
next_smp_cnt cfg smp_cnt = if leb cfg.smp_cnt_wrap (smp_cnt + 1) then 0 else smp_cnt + 1

-- The arm of the ticker: the octets that are sent, and the counter behind them.
unfoldable pub on_tick : SvConfig → UtcTime → Bytes → ℕ → Bytes × ℕ
on_tick cfg now sample smp_cnt =
    (encoded cfg.security (sent_frame cfg now sample smp_cnt), next_smp_cnt cfg smp_cnt)

-- The counter of the `n`-th frame: `run` starts at 0.
unfoldable pub smp_cnt_at : SvConfig → ℕ → ℕ
smp_cnt_at cfg zero = 0
smp_cnt_at cfg (suc n) = next_smp_cnt cfg (smp_cnt_at cfg n)

-- A sum in front of a multiple: `n + j` behind `n` in a cycle of `w`, up to the next turn.
pub mod_advance :
    (w n j : ℕ)
    → 1 ≤ w
    → j ≤ w
    → (n + j) % w ≡ (if ltb (n % w + j) w then n % w + j else n % w + j - w)
mod_advance w n j h hj =
    let below : n % w < w = mod-lt n {m = w} h in
    let e : n + j ≡ w * (n / w) + (n % w + j) = omega (arith, div-add-mod n w) in
    ap (λ (t : ℕ). t % w) e
    ∙ mul-add-mod_self_left w (n / w) (n % w + j)
    ∙ elim (Bool-cases (ltb (n % w + j) w)) [
      | inl lower ↦ rw lower (mod-eq_of_lt (ground (arith, lower)))
      | inr upper ↦
          let rest : n % w + j ≡ w * 1 + (n % w + j - w) = ground (arith, upper) in
          rw upper (
            ap (λ (t : ℕ). t % w) rest
            ∙ mul-add-mod_self_left w 1 (n % w + j - w)
            ∙ mod-eq_of_lt (omega (arith, below, hj)))
    ]

next_smp_cnt_lem :
    (cfg : SvConfig) (n : ℕ)
    → next_smp_cnt cfg (n % max 1 cfg.smp_cnt_wrap) ≡ suc n % max 1 cfg.smp_cnt_wrap
unfolding next_smp_cnt
next_smp_cnt_lem cfg n =
    let w = max 1 cfg.smp_cnt_wrap in
    let e : suc n ≡ n + 1 = omega arith in
    rw e (
      ground (arith, mod_advance w n 1 (omega arith) (omega arith), mod-lt n {m = w} (omega arith)))

smp_cnt_at-mod : (cfg : SvConfig) (n : ℕ) → smp_cnt_at cfg n ≡ n % max 1 cfg.smp_cnt_wrap
unfolding smp_cnt_at
smp_cnt_at-mod cfg zero = sym (mod-eq_of_lt {m = max 1 cfg.smp_cnt_wrap} (omega arith))
smp_cnt_at-mod cfg (suc n) = rw (smp_cnt_at-mod cfg n) (next_smp_cnt_lem cfg n)

-- For a `u16` of a wrap, the frames are numbered modulo `smp_cnt_wrap`, or all 0 where that is 0, and the
-- increment of the counter never overflows.
pub smp_cnt_lem :
    (cfg : SvConfig) (n : ℕ)
    → cfg.smp_cnt_wrap < 2 ^ 16
    → (smp_cnt_at cfg n ≡ n % max 1 cfg.smp_cnt_wrap) × (smp_cnt_at cfg n + 1 < 2 ^ 16)
smp_cnt_lem cfg n h =
    let e = smp_cnt_at-mod cfg n in
    (e, omega (arith, e, mod-lt n {m = max 1 cfg.smp_cnt_wrap} (omega arith)))
