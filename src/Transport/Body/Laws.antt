-- ===== src/Transport/Body/Laws.antt =====
-- The bounded read against the whole body (src/transport.rs).
use smspool_sdk.Prelude.{
  ℕ, ◌+◌, ◌^◌, ◌≤◌, ◌<◌, ◌≡◌, refl, sym, ap, ◌∙◌, ◌↔◌, false, Option, none, some, List, [], ◌∷◌,
  ◌++◌, ok, length, length-append, arith, Bool-cases, Option-cases, inl, inr,
}
use mathlib.Core.List.{append-nil, append_assoc}
use smspool_sdk.Transport.Body.{Chunk, exceeds, read_from, read_bounded}

-- All the bytes that a stream yields, unless a chunk of it fails.
abbrev prepend : List ℕ → Option (List ℕ) → Option (List ℕ)
prepend chunk none = none
prepend chunk (some rest) = some (chunk ++ rest)

abbrev pub whole_body : List Chunk → Option (List ℕ)
whole_body [] = some []
whole_body (c ∷ cs) = elim c.bytes [ none ↦ none | some chunk ↦ prepend chunk (whole_body cs) ]

exceeds_iff :
    (limit len more : ℕ) → limit < 2 ^ 64 → (exceeds limit len more ≡ false) ↔ (len + more ≤ limit)
exceeds_iff limit len more h = (λ q. ground arith, λ q. ground arith)

prepend_inv :
    (chunk : List ℕ) (o : Option (List ℕ)) (b : List ℕ)
    → prepend chunk o ≡ some b
    → (rest : List ℕ) × (o ≡ some rest) × (chunk ++ rest ≡ b)
prepend_inv chunk none b h = cc
prepend_inv chunk (some rest) b h = (rest, refl, (cc))

-- What a successful read from `body` on has read.
read_from_sound :
    (limit : ℕ) (body : List ℕ) (cs : List Chunk) (b : List ℕ)
    → limit < 2 ^ 64
    → length body ≤ limit
    → (read_from limit body cs).answer ≡ ok b
    → (rest : List ℕ) × (whole_body cs ≡ some rest) × (body ++ rest ≡ b) × (length b ≤ limit)
unfolding read_from
read_from_sound limit body [] b small le h = ([], refl, (append-nil body ∙ (cc)), ground arith)
read_from_sound limit body (c ∷ cs) b small le h = elim (Option-cases c.bytes) [
  | inl q ↦ ground arith
  | inr (chunk, q) ↦ elim (Bool-cases (exceeds limit (length body) (length chunk))) [
    | inl x ↦ ground arith
    | inr x ↦
        let fits = (exceeds_iff limit (length body) (length chunk) small).0 x in
        let (rest, found, joined, bound) =
          read_from_sound limit (body ++ chunk) cs b small (omega (arith, length-append body chunk))
            (ground arith) in
        (chunk ++ rest, rw (q, found) refl, sym (append_assoc body chunk rest) ∙ joined, bound)
  ]
]

read_from_step :
    (limit : ℕ) (body chunk : List ℕ) (c : Chunk) (cs : List Chunk)
    → c.bytes ≡ some chunk
    → exceeds limit (length body) (length chunk) ≡ false
    → (read_from limit body (c ∷ cs)).answer ≡ (read_from limit (body ++ chunk) cs).answer
unfolding read_from
read_from_step limit body chunk c cs q x = ground arith

read_from_complete :
    (limit : ℕ) (body : List ℕ) (cs : List Chunk) (rest : List ℕ)
    → limit < 2 ^ 64
    → whole_body cs ≡ some rest
    → length body + length rest ≤ limit
    → (read_from limit body cs).answer ≡ ok (body ++ rest)
unfolding read_from
read_from_complete limit body [] rest small h le =
    ap ok (sym (append-nil body)) ∙ ap (λ r. ok (body ++ r)) (ground arith)
read_from_complete limit body (c ∷ cs) rest small h le = elim (Option-cases c.bytes) [
  | inl q ↦ ground arith
  | inr (chunk, q) ↦
      let (tail, found, joined) = prepend_inv chunk (whole_body cs) rest (ground arith) in
      let lengths = length-append chunk tail in
      let total : length rest ≡ length chunk + length tail = ap length (sym joined) ∙ lengths in
      let fits = (exceeds_iff limit (length body) (length chunk) small).1 (omega arith) in
      let more =
        read_from_complete limit (body ++ chunk) cs tail small found
          (omega (arith, length-append body chunk)) in
      read_from_step limit body chunk c cs q fits
      ∙ more
      ∙ ap ok (append_assoc body chunk tail)
      ∙ ap (λ r. ok (body ++ r)) joined
]

-- With a limit that fits a 64-bit `usize`, the bounded read succeeds exactly when no chunk fails and
-- the whole body is within the limit, and its value is then the whole body.
pub read_bounded_iff :
    (limit : ℕ) (cs : List Chunk) (b : List ℕ)
    → limit < 2 ^ 64
    → ((read_bounded limit cs).answer ≡ ok b) ↔ ((whole_body cs ≡ some b) × (length b ≤ limit))
unfolding read_bounded
read_bounded_iff limit cs b small = (
  λ h.
      let (rest, found, joined, bound) = read_from_sound limit [] cs b small (omega arith) h in
      (found ∙ ap some joined, bound),
  λ h. read_from_complete limit [] cs b small h.0 (omega (arith, h.1)),
)
