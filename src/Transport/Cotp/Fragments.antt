-- ===== src/Transport/Cotp/Fragments.antt =====
-- How `data_tpdus` cuts a TSDU.
use iec_61850_studio.Base.{
  ℕ, zero, suc, ◌+◌, ◌-◌, ◌≤◌, max, List, [], ◌∷◌, ◌++◌, length, take, drop, All, leb,
  if◌then◌else◌, ◌≡◌, refl, ap, ◌∙◌, arith, length-take, length-drop, take-append-drop, append-nil,
  Bool-cases, inl, inr, subst,
}
use iec_61850_studio.Base.Words.{Bytes}
use iec_61850_studio.Transport.Cotp.{data_tpdu, chunks, mark_last, data_tpdus}

abbrev pub concat : List Bytes → Bytes
concat [] = []
concat (x ∷ xs) = x ++ concat xs

-- The pieces that `data_tpdus` cuts: the whole payload, where it fits.
abbrev pub pieces : Bytes → ℕ → List Bytes
pieces payload max_tpdu =
    let chunk = max (max_tpdu - 3) 1 in
    if leb (length payload) chunk then payload ∷ [] else chunks (length payload) chunk payload

pub data_tpdus-mark_last :
    (payload : Bytes) (max_tpdu : ℕ)
    → data_tpdus payload max_tpdu ≡ mark_last (pieces payload max_tpdu)
unfolding data_tpdus mark_last data_tpdu
data_tpdus-mark_last payload max_tpdu =
    elim (Bool-cases (leb (length payload) (max (max_tpdu - 3) 1))) [
      | inl e ↦ rw e refl
      | inr e ↦ rw e refl
    ]

concat-chunks :
    (n size : ℕ) (payload : Bytes)
    → length payload ≤ n
    → 1 ≤ size
    → concat (chunks n size payload) ≡ payload
unfolding chunks
concat-chunks zero size [] h hs = refl
concat-chunks zero size (b ∷ payload) h hs = absurd (omega arith)
concat-chunks (suc n) size [] h hs = refl
concat-chunks (suc n) size (b ∷ payload) h hs =
    ap (λ (t : Bytes). take size (b ∷ payload) ++ t)
      (concat-chunks n size (drop size (b ∷ payload))
        (omega (arith, length-drop size (b ∷ payload))) hs)
    ∙ take-append-drop size (b ∷ payload)

chunks-All : (n size : ℕ) (payload : Bytes) → All (λ c. length c ≤ size) (chunks n size payload)
unfolding chunks
chunks-All zero size payload = tt
chunks-All (suc n) size [] = tt
chunks-All (suc n) size (b ∷ payload) =
    (omega (arith, length-take size (b ∷ payload)), chunks-All n size (drop size (b ∷ payload)))

chunks-ne-nil :
    (n size : ℕ) (payload : Bytes)
    → 1 ≤ length payload
    → length payload ≤ n
    → 1 ≤ length (chunks n size payload)
unfolding chunks
chunks-ne-nil n size [] some_octet h = absurd (omega arith)
chunks-ne-nil zero size (b ∷ payload) some_octet h = absurd (omega arith)
chunks-ne-nil (suc n) size (b ∷ payload) some_octet h = omega arith

-- The pieces are the payload, none longer than a TPDU has room for, and there is at least one.
pub pieces_lem :
    (payload : Bytes) (max_tpdu : ℕ)
    → (concat (pieces payload max_tpdu) ≡ payload)
      × All (λ c. length c ≤ max (max_tpdu - 3) 1) (pieces payload max_tpdu)
      × (1 ≤ length (pieces payload max_tpdu))
unfolding chunks
pieces_lem payload max_tpdu = elim (Bool-cases (leb (length payload) (max (max_tpdu - 3) 1))) [
  | inl e ↦ rw e (append-nil payload, (ground arith, tt), omega arith)
  | inr e ↦ rw e (
    concat-chunks (length payload) _ payload (omega arith) (omega arith),
    chunks-All (length payload) _ payload,
    chunks-ne-nil (length payload) _ payload (ground arith) (omega arith),
  )
]

mark_last-All :
    (size : ℕ) (cs : List Bytes)
    → All (λ c. length c ≤ size) cs
    → All (λ t. length t ≤ 3 + size) (mark_last cs)
unfolding mark_last
mark_last-All size [] h = tt
mark_last-All size (c ∷ []) h = (omega (arith, h.0), tt)
mark_last-All size (c ∷ d ∷ cs) h = (omega (arith, h.0), mark_last-All size (d ∷ cs) h.1)

-- No data unit is longer than the size agreed on, where that leaves room for one octet.
pub data_tpdus-All :
    (payload : Bytes) (max_tpdu : ℕ)
    → 4 ≤ max_tpdu
    → All (λ t. length t ≤ max_tpdu) (data_tpdus payload max_tpdu)
data_tpdus-All payload max_tpdu h = rw (data_tpdus-mark_last payload max_tpdu) (
    subst (λ (n : ℕ). All (λ t. length t ≤ n) (mark_last (pieces payload max_tpdu)))
      {x = 3 + max (max_tpdu - 3) 1} {y = max_tpdu} (omega (arith, h))
      (mark_last-All (max (max_tpdu - 3) 1) _ (pieces_lem payload max_tpdu).1))
