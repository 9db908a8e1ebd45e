-- ===== src/Sv/Subscriber/Safety.antt =====
-- crates/iec61850-sv/src/subscriber.rs: what a frame without a valid signature may do.
use iec_61850_studio.Base.{
  List, [], ◌∷◌, some, Bool, not, ◌||◌, ◌==◌, bytes_eq, All, All-append, ◌≡◌, ◌≢◌, refl, ◌∙◌,
  Bool-cases, inl, inr, ◌⊎◌,
}
use iec_61850_studio.Base.Result.{ok, err}
use iec_61850_studio.Base.Words.{Bytes}
use iec_61850_studio.Ber.Std.{Std}
use iec_61850_studio.Goose.Frame.{AuthStatus, FrameVerifier, IsVerified, unsigned, valid, invalid}
use iec_61850_studio.Sv.Pdu.{Asdu, SvResult}
use iec_61850_studio.Sv.Frame.{SvFrame, ethertype_sv, decode_verified, decode_verified-IsVerified}
use iec_61850_studio.Sv.Subscriber.{
  SvFilter, SvEvent, auth_failed, State, event, on_asdu, on_asdus, on_frame, on_result, on_receive,
  is_some_and,
}

-- An event that reports a status.
abbrev pub Reports : AuthStatus → SvEvent → Type 0
Reports status e = e.kind ≡ auth_failed status

-- The state stays as it is and the events report the status.
abbrev pub OnlyReports : AuthStatus → State → State × List SvEvent → Type 0
OnlyReports status s r = (r.0 ≡ s) × All (Reports status) r.1

module _ (filter : SvFilter) (sim : Bool) (frame : SvFrame) (status : AuthStatus) where
  on_asdu-OnlyReports :
      (s : State) (asdu : Asdu)
      → OnlyReports status s (on_asdu filter (some status) sim frame s asdu)
  unfolding on_asdu event
  on_asdu-OnlyReports s asdu =
      elim (Bool-cases (is_some_and filter.sv_id (λ id. not (bytes_eq id asdu.sv_id)))) [
        | inl e ↦ rw e (refl, tt)
        | inr e ↦ rw e (refl, (refl, tt))
      ]

  on_asdus-OnlyReports :
      (s : State) (asdus : List Asdu)
      → OnlyReports status s (on_asdus filter (some status) sim frame s asdus)
  unfolding on_asdus
  on_asdus-OnlyReports s [] = (refl, tt)
  on_asdus-OnlyReports s (asdu ∷ asdus) =
      let s₁ = (on_asdu filter (some status) sim frame s asdu).0 in
      let (same, reported) = on_asdu-OnlyReports s asdu in
      let (same', reported') = on_asdus-OnlyReports s₁ asdus in
      (same' ∙ same, All-append (Reports status) _ _ reported reported')

  on_frame-OnlyReports :
      (s : State) → OnlyReports status s (on_frame filter (some status) sim s frame)
  unfolding on_frame
  on_frame-OnlyReports s =
      elim (Bool-cases (
        is_some_and filter.appid (λ a. not (a == frame.appid))
        || is_some_and filter.dst (λ d. not (bytes_eq d frame.dst)))) [
          | inl e ↦ rw e (refl, tt)
          | inr e ↦ rw e (on_asdus-OnlyReports s frame.pdu.asdus)
        ]

-- Where a verifier is required, received octets either are a frame with a tag, of at least one octet, that the verifier
-- accepted for the data that the frame signs, or they leave the state as it was, and every event reports one
-- status that is not `Valid`.
pub on_receive-OnlyReports :
    (std : Std) (filter : SvFilter) (verify : FrameVerifier) (sim : Bool) (s : State)
    (bytes : Bytes)
    → IsVerified verify ethertype_sv bytes
      ⊎ ((status : AuthStatus) × (status ≢ valid)
          × OnlyReports status s (on_receive std filter (some verify) sim s bytes))
unfolding on_receive on_result
on_receive-OnlyReports std filter verify sim s bytes = cases (decode_verified std bytes verify) refl
  where
    cases :
        (r : SvResult (SvFrame × AuthStatus))
        → decode_verified std bytes verify ≡ r
        → IsVerified verify ethertype_sv bytes
          ⊎ ((status : AuthStatus) × (status ≢ valid)
              × OnlyReports status s (on_result filter sim s r))
    cases (err e) _ = inr (invalid, cc, (refl, tt))
    cases (ok (frame, unsigned)) _ =
        inr (unsigned, cc, on_frame-OnlyReports filter sim frame unsigned s)
    cases (ok (frame, invalid)) _ =
        inr (invalid, cc, on_frame-OnlyReports filter sim frame invalid s)
    cases (ok (frame, valid)) e = inl (decode_verified-IsVerified std bytes verify frame e)
