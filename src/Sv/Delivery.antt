-- ===== src/Sv/Delivery.antt =====
-- crates/iec61850-sv/src: subscriber.rs behind publisher.rs, how the frames of one publisher are classified.
use iec_61850_studio.Base.{
  ℕ, ◌+◌, ◌-◌, ◌%◌, ◌^◌, ◌≤◌, ◌<◌, max, List, [], ◌∷◌, Option, none, some, Bool, true, false, ltb,
  ◌==◌, not, ◌&&◌, if◌then◌else◌, bytes_eq, length, ◌≡◌, refl, ap, ◌∙◌, arith,
}
use native.Mathlib.Nat.{mod-lt}
use iec_61850_studio.Base.Result.{ok}
use iec_61850_studio.Base.Words.{Bytes}
use iec_61850_studio.Base.Maps.{get, insert, get-insert}
use iec_61850_studio.Ber.Std.{Std}
use iec_61850_studio.Ber.Data.{UtcTime}
use iec_61850_studio.Ethernet.{EthHeader, FrameSigner}
use iec_61850_studio.Ethernet.RoundTrip.{IsEthHeader}
use iec_61850_studio.Sv.Pdu
use iec_61850_studio.Sv.Pdu.{Asdu, SvResult}
use iec_61850_studio.Sv.Pdu.RoundTrip.{OnSome, IsSvPdu}
use iec_61850_studio.Sv.Frame.{SvFrame, ethertype_sv, encode, decode, decode-encode_sv_frame}
use iec_61850_studio.Sv.Publisher.{
  SvConfig, sent_asdu, sent_frame, smp_cnt_at, smp_cnt_lem, mod_advance, on_tick, encoded,
}
use iec_61850_studio.Sv.Subscriber.{
  SvFilter, SvEvent, SvEventKind, sample, sample_loss, wrap, State, sim_gate, classify, event,
  on_sample, on_asdu, on_asdus, on_frame, on_decoded, on_receive, is_some_and,
}

-- What the kind of a frame should be behind `lost` missing ones in a cycle of `w` counters: `place` is
-- the counter of the last frame that came.
abbrev pub kind_behind : ℕ → ℕ → ℕ → SvEventKind
kind_behind w place lost =
    if ltb (place + 1 + lost) w
    then (if lost == 0 then sample else sample_loss (place + 1) (place + 1 + lost))
    else if place + 1 + lost == w && ltb 0 place
    then wrap
    else sample

-- Behind the `n`-th frame of a publisher, with `lost` missing ones, fewer than a cycle: the next frame is a
-- `sample` where none is missing, a `sample_loss` that tells how many are missing where the cycle is the
-- same, a `wrap` where it starts a cycle, and a plain `sample` where it is further on in the next cycle,
-- whose losses are not told. A frame behind the first of a cycle that starts the next is a `sample` too.
pub classify-behind :
    (cfg : SvConfig) (n lost : ℕ)
    → 1 ≤ cfg.smp_cnt_wrap
    → cfg.smp_cnt_wrap < 2 ^ 16
    → lost < cfg.smp_cnt_wrap
    → classify (some (smp_cnt_at cfg n)) (smp_cnt_at cfg (n + 1 + lost))
      ≡ kind_behind cfg.smp_cnt_wrap (n % cfg.smp_cnt_wrap) lost
unfolding classify
classify-behind cfg n lost lo hi hl =
    let w = cfg.smp_cnt_wrap in
    let e : max 1 w ≡ w = omega arith in
    let e₁ : n + 1 + lost ≡ n + (1 + lost) = omega arith in
    let here : smp_cnt_at cfg n ≡ n % w = (smp_cnt_lem cfg n hi).0 ∙ ap (λ (m : ℕ). n % m) e in
    let there : smp_cnt_at cfg (n + 1 + lost)
        ≡ (if ltb (n % w + (1 + lost)) w then n % w + (1 + lost) else n % w + (1 + lost) - w) =
      (smp_cnt_lem cfg (n + 1 + lost) hi).0
      ∙ ap (λ (m : ℕ). (n + 1 + lost) % m) e
      ∙ ap (λ (m : ℕ). m % w) e₁
      ∙ mod_advance w n (1 + lost) lo (omega arith) in
    rw (here, there) (ground (arith, mod-lt n {m = w} lo))

abbrev pub hdr : SvConfig → EthHeader
hdr cfg = record {
  dst = cfg.dst;
  src = cfg.src;
  vlan = cfg.vlan;
  ethertype = ethertype_sv;
  simulation = cfg.simulation;
}

-- The values of the Rust type, for a publisher that neither signs nor simulates.
pub record IsPlain (std : Std) (cfg : SvConfig) : Type 0 where
  pub hdr_IsEthHeader : IsEthHeader (hdr cfg)
  pub appid_u16 : cfg.appid < 2 ^ 16
  pub sv_id_utf8 : std.utf8 cfg.sv_id ≡ true
  pub dat_set_utf8 : OnSome (λ c. std.utf8 c ≡ true) cfg.dat_set
  pub conf_rev_u32 : cfg.conf_rev < 2 ^ 32
  pub smp_rate_u16 : cfg.smp_rate < 2 ^ 16
  pub wrap_u16 : (1 ≤ cfg.smp_cnt_wrap) × (cfg.smp_cnt_wrap < 2 ^ 16)
  pub real : cfg.simulation ≡ false
  pub not_signed : cfg.security ≡ none

-- A filter that lets the frames of a publisher through.
abbrev pub Admits : SvFilter → SvConfig → Type 0
Admits filter cfg =
    (is_some_and filter.appid (λ a. not (a == cfg.appid)) ≡ false)
    × (is_some_and filter.dst (λ d. not (bytes_eq d cfg.dst)) ≡ false)
    × (is_some_and filter.sv_id (λ id. not (bytes_eq id cfg.sv_id)) ≡ false)

-- What the publisher puts in its `n`-th frame, which must fit an Ethernet length field.
pub record Sent (cfg : SvConfig) (n : ℕ) : Type 0 where
  pub now : UtcTime
  pub content : Bytes
  pub eight : length now.raw ≡ 8
  pub fits : 8 + length (Pdu.encode (sent_frame cfg now content (smp_cnt_at cfg n)).pdu) < 2 ^ 16

abbrev pub octets : {n : ℕ} (cfg : SvConfig) → Sent cfg n → Bytes
octets {n} cfg x = (on_tick cfg x.now x.content (smp_cnt_at cfg n)).0

sent_pdu-IsSvPdu :
    (std : Std) (cfg : SvConfig) (n : ℕ) (x : Sent cfg n)
    → IsPlain std cfg
    → IsSvPdu std (sent_frame cfg x.now x.content (smp_cnt_at cfg n)).pdu
unfolding sent_frame sent_asdu
sent_pdu-IsSvPdu std cfg n x h = record {
  no_asdu_u32 = omega arith;
  asdus_IsAsdu = (
    record {
      sv_id_utf8 = h.sv_id_utf8;
      dat_set_utf8 = h.dat_set_utf8;
      smp_cnt_u16 = omega (arith, (smp_cnt_lem cfg n h.wrap_u16.1).1);
      conf_rev_u32 = h.conf_rev_u32;
      refr_tm_eight = time_IsEight cfg.include_refr_tm x.now x.eight;
      smp_rate_u16 = h.smp_rate_u16;
      smp_mod_u16 = tt;
    },
    tt,
  );
}
  where
    time_IsEight :
        (b : Bool) (t : UtcTime)
        → length t.raw ≡ 8
        → OnSome (λ t. length t.raw ≡ 8) (if b then some t else none)
    time_IsEight true t e = e
    time_IsEight false t e = tt

abbrev pub kinds : List SvEvent → List SvEventKind
kinds [] = []
kinds (e ∷ events) = e.kind ∷ kinds events

gate_real :
    (subs : List Bytes) (sv_id : Bytes) (simulated : Bool)
    → simulated ≡ false
    → sim_gate false subs sv_id simulated ≡ (true, [])
unfolding sim_gate
gate_real subs sv_id simulated e = ap (λ (b : Bool). (not b, [])) e

on_sample_real :
    (frame : SvFrame) (s : State) (asdu : Asdu)
    → frame.simulation ≡ false
    → on_sample false frame s asdu ≡ (
      record { last = insert s.last asdu.sv_id asdu.smp_cnt; simulated_subs = [] },
      event frame asdu (classify (get s.last asdu.sv_id) asdu.smp_cnt) ∷ [],
    )
unfolding on_sample
on_sample_real frame s asdu e = rw (gate_real s.simulated_subs asdu.sv_id frame.simulation e) refl

on_receive_ok :
    (std : Std) (filter : SvFilter) (s : State) (bytes : Bytes) (frame : SvFrame)
    → decode std bytes ≡ ok frame
    → on_receive std filter none false s bytes ≡ on_frame filter none false s frame
unfolding on_receive on_decoded
on_receive_ok std filter s bytes frame e = ap (on_decoded filter false s) e

-- What a subscriber out of simulation does on one frame.
receive_lem :
    (std : Std) (filter : SvFilter) (cfg : SvConfig) (s : State) (n : ℕ) (x : Sent cfg n)
    → IsPlain std cfg
    → Admits filter cfg
    → on_receive std filter none false s (octets cfg x) ≡ (
      record { last = insert s.last cfg.sv_id (smp_cnt_at cfg n); simulated_subs = [] },
      event
            (sent_frame cfg x.now x.content (smp_cnt_at cfg n))
            (sent_asdu cfg x.now x.content (smp_cnt_at cfg n))
            (classify (get s.last cfg.sv_id) (smp_cnt_at cfg n))
          ∷ [],
    )
unfolding on_frame on_asdus on_asdu on_tick sent_frame sent_asdu
receive_lem std filter cfg s n x h (by_appid, by_dst, by_sv_id) =
    let frame = sent_frame cfg x.now x.content (smp_cnt_at cfg n) in
    let asdu = sent_asdu cfg x.now x.content (smp_cnt_at cfg n) in
    let plain : octets cfg x ≡ encode frame =
      ap (λ (signer : Option FrameSigner). encoded signer frame) h.not_signed in
    let read : decode std (octets cfg x) ≡ ok frame =
      ap (decode std) plain
      ∙ decode-encode_sv_frame std frame h.hdr_IsEthHeader h.appid_u16
          (sent_pdu-IsSvPdu std cfg n x h) x.fits in
    on_receive_ok std filter s (octets cfg x) frame read
    ∙ rw (by_appid, by_dst, by_sv_id, on_sample_real frame s asdu h.real) refl

-- A subscriber that is not in simulation mode and requires no signature, behind a publisher that neither signs
-- nor simulates: after the `n`-th frame, and `lost` frames that did not come, fewer than a cycle, the next
-- one gives exactly one event, of the kind `kind_behind` for the place of the `n`-th frame in its cycle.
pub receive-behind :
    (std : Std) (filter : SvFilter) (cfg : SvConfig) (s : State) (n lost : ℕ) (x : Sent cfg n)
    (y : Sent cfg (n + 1 + lost))
    → IsPlain std cfg
    → Admits filter cfg
    → lost < cfg.smp_cnt_wrap
    → kinds
        (on_receive std filter none false
          (on_receive std filter none false s (octets cfg x)).0
          (octets cfg y)).1
      ≡ kind_behind cfg.smp_cnt_wrap (n % cfg.smp_cnt_wrap) lost ∷ []
receive-behind std filter cfg s n lost x y h admits few =
    let known = get-insert s.last cfg.sv_id (smp_cnt_at cfg n) in
    let kind = classify-behind cfg n lost h.wrap_u16.0 h.wrap_u16.1 few in
    let s₁ : State = record {
      last = insert s.last cfg.sv_id (smp_cnt_at cfg n);
      simulated_subs = [];
    } in
    ap (λ (r : State × List SvEvent). kinds (on_receive std filter none false r.0 (octets cfg y)).1)
      (receive_lem std filter cfg s n x h admits)
    ∙ ap (λ (r : State × List SvEvent). kinds r.1)
        (receive_lem std filter cfg s₁ (n + 1 + lost) y h admits)
    ∙ (unfold event in
        ap (λ (o : Option ℕ). classify o (smp_cnt_at cfg (n + 1 + lost)) ∷ []) known
        ∙ ap (λ (k : SvEventKind). k ∷ []) kind)
