-- ===== src/Transport/Body.antt =====
-- A response, and the bounded read of its body, `read_bounded` (src/transport.rs).
pub mod Laws
use smspool_sdk.Prelude.{
  ℕ, ◌+◌, ◌^◌, Bool, true, false, ◌||◌, Option, none, some, List, [], ◌∷◌, ◌++◌, Result, ok, err,
  length, leb, ltb, if◌then◌else◌,
}
use smspool_sdk.Transport.Io.{Op}

-- What the stream yields next, and how long it takes: some bytes, or a failure.
pub record Chunk : Type 0 where
  pub takes : ℕ
  pub bytes : Option (List ℕ)

pub record Response : Type 0 where
  pub status : ℕ
  -- The header `Retry-After`, where it is there and is text.
  pub retry_after : Option (List ℕ)
  pub content_length : Option ℕ
  pub body : List Chunk

pub data ReadBodyError : Type 0 where
  too_large transport : ReadBodyError

-- `body.len().checked_add(chunk.len())` overflows a 64-bit `usize`, or passes the limit.
abbrev pub exceeds : (limit len more : ℕ) → Bool
exceeds limit len more = leb (2 ^ 64) (len + more) || ltb limit (len + more)

abbrev later : {A : Type 0} → ℕ → Op A → Op A
later d op = record { takes = d + op.takes; answer = op.answer }

-- The loop, with the bytes read so far.
read_from : (limit : ℕ) → List ℕ → List Chunk → Op (Result (List ℕ) ReadBodyError)
read_from limit body [] = record { takes = 0; answer = ok body }
read_from limit body (c ∷ cs) = elim c.bytes [
  | none ↦ record { takes = c.takes; answer = err transport }
  | some chunk ↦ elim (exceeds limit (length body) (length chunk)) [
    | true ↦ record { takes = c.takes; answer = err too_large }
    | false ↦ later c.takes (read_from limit (body ++ chunk) cs)
  ]
]

unfoldable pub read_bounded : (limit : ℕ) → List Chunk → Op (Result (List ℕ) ReadBodyError)
unfolding read_from
read_bounded limit chunks = read_from limit [] chunks
